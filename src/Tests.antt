-- ===== src/Tests.antt =====
-- Runs of the models on concrete inputs, and the theorems at concrete inputs.
mod Heaps
mod Huge
mod Disks
mod Stages
mod Loader
mod Devices
mod Tables
mod Pages
mod Maps
mod Files
mod Locks
