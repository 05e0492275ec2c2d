-- ===== src/Tests/Locks.antt =====
-- Two threads at a spin lock: thread 0 holds it, and thread 1 waits.
use miniature_os.Base.{ℕ, true, false, ◌≡◌, refl}
use miniature_os.Mutex.{new, try_lock, System, Reachable, start, later, call, break_loop, move}
use miniature_os.Mutex.{outside, spinning, guarded}
use miniature_os.Mutex.Exclusion.{mutual_exclusion}

abbrev quiet : System ℕ
quiet = record { mutex = record { inner = 7; lock_status = false }; place = λ t. outside }

abbrev called : System ℕ
called = move quiet quiet.mutex 0 spinning

abbrev taken : System ℕ
taken = move called (record { inner = 7; lock_status = true }) 0 guarded

abbrev contended : System ℕ
contended = move taken taken.mutex 1 spinning

contended-Reachable : Reachable contended
unfolding new try_lock
contended-Reachable =
    later taken contended
      (later called taken (later quiet called (start 7) (call quiet 0 refl))
        (break_loop called 0 refl refl))
      (call taken 1 refl)

mutual_exclusion_example : ◌≡◌ {A = ℕ} 0 0
mutual_exclusion_example = mutual_exclusion contended 0 0 contended-Reachable refl refl
