-- ===== src/Mutex.antt =====
-- x86_64/src/mutex.rs: the spin lock. `lock_status` is the atomic flag; each thread of the system is
-- outside, spinning in `lock`, or holding the guard. A step is one atomic action of one thread; the value
-- inside is read and written through the guard only.
pub mod Exclusion
use miniature_os.Base.{ℕ, Bool, true, false, ◌≡◌, ◌==◌, if◌then◌else◌}

-- `Mutex<T>`.
pub record Mutex (T : Type 0) : Type 0 where
  pub inner : T
  pub lock_status : Bool

-- `Mutex::new`.
unfoldable pub new : {T : Type 0} → T → Mutex T
new val = record { inner = val; lock_status = false }

-- `compare_exchange(false, true)`: whether it succeeds, and what it leaves.
unfoldable pub try_lock : {T : Type 0} → Mutex T → Bool × Mutex T
try_lock m = if m.lock_status then (false, m) else (true, record m { lock_status = true })

-- `DerefMut` of the guard, for a write through it.
unfoldable pub write : {T : Type 0} → T → Mutex T → Mutex T
write val m = record m { inner = val }

-- `Drop` of the guard.
unfoldable pub drop : {T : Type 0} → Mutex T → Mutex T
drop m = record m { lock_status = false }

pub data Place : Type 0 where
  outside spinning guarded : Place

pub record System (T : Type 0) : Type 0 where
  pub mutex : Mutex T
  pub place : ℕ → Place

abbrev pub move : {T : Type 0} → System T → Mutex T → ℕ → Place → System T
move s m t p = record { mutex = m; place = λ u. if u == t then p else s.place u }

-- What a thread can do next: call `lock`; a round of its loop, which breaks or goes on; a write
-- through the guard; its end.
pub data Step {T : Type 0} : System T → System T → Type 0 where
  call : (s : System T) (t : ℕ) → s.place t ≡ outside → Step s (move s s.mutex t spinning)
  break_loop :
      (s : System T) (t : ℕ)
      → s.place t ≡ spinning
      → (try_lock s.mutex).0 ≡ true
      → Step s (move s (try_lock s.mutex).1 t guarded)
  continue_loop :
      (s : System T) (t : ℕ)
      → s.place t ≡ spinning
      → (try_lock s.mutex).0 ≡ false
      → Step s (move s (try_lock s.mutex).1 t spinning)
  write_inner :
      (s : System T) (t : ℕ) (val : T)
      → s.place t ≡ guarded
      → Step s (move s (write val s.mutex) t guarded)
  drop_guard :
      (s : System T) (t : ℕ) → s.place t ≡ guarded → Step s (move s (drop s.mutex) t outside)

-- The states that a new mutex, with all threads outside, can get to.
pub data Reachable {T : Type 0} : System T → Type 0 where
  start : (val : T) → Reachable (record { mutex = new val; place = λ t. outside })
  later : (s s' : System T) → Reachable s → Step s s' → Reachable s'
