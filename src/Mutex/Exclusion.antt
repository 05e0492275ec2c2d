-- ===== src/Mutex/Exclusion.antt =====
-- The spin lock lets one thread at a time hold the guard, and a free lock can be taken.
use native.Mathlib.Decide.{ℕ_discrete}
use miniature_os.Base.{ℕ, true, false, Bool-cases, ◌≡◌, ◌≢◌, refl, sym, ap, ◌∙◌, ◌⊎◌, inl, inr}
use miniature_os.Base.{==_self, ne→==}
use miniature_os.Mutex.{
  Mutex, new, try_lock, write, drop, Place, outside, spinning, guarded, System, move,
}
use miniature_os.Mutex.{
  Step, call, break_loop, continue_loop, write_inner, drop_guard, Reachable, start, later,
}

-- The flag is set exactly while a thread holds the guard, and only one does.
record Locked {T : Type 0} (s : System T) : Type 0 where
  free : s.mutex.lock_status ≡ false → (t : ℕ) → s.place t ≢ guarded
  held : s.mutex.lock_status ≡ true → (t : ℕ) × (s.place t ≡ guarded)
  single : (t u : ℕ) → s.place t ≡ guarded → s.place u ≡ guarded → t ≡ u

module _ {T : Type 0} (s : System T) (m : Mutex T) (t : ℕ) (p : Place) where
  moved : (move s m t p).place t ≡ p
  moved = rw (==_self t) refl

  unmoved : (u : ℕ) → u ≢ t → (move s m t p).place u ≡ s.place u
  unmoved u ne = rw (ne→== u t ne) refl

  -- A thread that is elsewhere after the move is another one, or is where it went.
  move-cases :
      (u : ℕ) (q : Place)
      → (move s m t p).place u ≡ q
      → ((u ≡ t) × (p ≡ q)) ⊎ ((u ≢ t) × (s.place u ≡ q))
  move-cases u q h = elim (ℕ_discrete u t) [
    | yes e ↦ inl (e, sym moved ∙ ap (move s m t p).place (sym e) ∙ h)
    | no ne ↦ inr (ne, sym (unmoved u ne) ∙ h)
  ]

try_lock-true :
    {T : Type 0} (m : Mutex T)
    → (try_lock m).0 ≡ true
    → (m.lock_status ≡ false) × ((try_lock m).1.lock_status ≡ true)
unfolding try_lock
try_lock-true m h = elim (Bool-cases m.lock_status) [
  | inl busy ↦ absurd (let k = rw busy at h in cc)
  | inr clear ↦ (clear, rw clear refl)
]

try_lock-false :
    {T : Type 0} (m : Mutex T)
    → (try_lock m).0 ≡ false
    → (m.lock_status ≡ true) × ((try_lock m).1 ≡ m)
unfolding try_lock
try_lock-false m h = elim (Bool-cases m.lock_status) [
  | inl busy ↦ (busy, rw busy refl)
  | inr clear ↦ absurd (let k = rw clear at h in cc)
]

-- A thread outside or spinning goes on outside or spinning: nobody's guard changes.
Locked-move :
    {T : Type 0} (s : System T) (m : Mutex T) (t : ℕ) (p : Place)
    → Locked s
    → m.lock_status ≡ s.mutex.lock_status
    → s.place t ≢ guarded
    → p ≢ guarded
    → Locked (move s m t p)
Locked-move s m t p v same before after = record {
  free = λ e u h. elim (move-cases s m t p u guarded h) [
    | inl (_, q) ↦ after q
    | inr (ne, q) ↦ v.free (sym same ∙ e) u q
  ];
  held = λ e.
      let (u, q) = v.held (sym same ∙ e) in
      (u, unmoved s m t p u (λ eq. before (ap s.place (sym eq) ∙ q)) ∙ q);
  single = λ u w hu hw. elim (move-cases s m t p u guarded hu) [
    | inl (_, q) ↦ absurd (after q)
    | inr (_, qu) ↦ elim (move-cases s m t p w guarded hw) [
      | inl (_, q) ↦ absurd (after q)
      | inr (_, qw) ↦ v.single u w qu qw
    ]
  ];
}

-- A thread that takes a free lock is the only one with a guard.
Locked-take :
    {T : Type 0} (s : System T) (m : Mutex T) (t : ℕ)
    → Locked s
    → s.mutex.lock_status ≡ false
    → m.lock_status ≡ true
    → Locked (move s m t guarded)
Locked-take s m t v clear set = record {
  free = λ e. absurd (let k = sym set ∙ e in cc);
  held = λ e. (t, moved s m t guarded);
  single = λ u w hu hw. only u hu ∙ sym (only w hw);
}
  where
    only : (u : ℕ) → (move s m t guarded).place u ≡ guarded → u ≡ t
    only u h = elim (move-cases s m t guarded u guarded h) [
      | inl (e, _) ↦ e
      | inr (_, q) ↦ absurd (v.free clear u q)
    ]

-- The holder of the guard writes, or lets go of it.
Locked-keep :
    {T : Type 0} (s : System T) (m : Mutex T) (t : ℕ)
    → Locked s
    → m.lock_status ≡ s.mutex.lock_status
    → s.place t ≡ guarded
    → Locked (move s m t guarded)
Locked-keep s m t v same here = record {
  free = λ e. absurd (v.free (sym same ∙ e) t here);
  held = λ e. (t, moved s m t guarded);
  single = λ u w hu hw. v.single u w (was u hu) (was w hw);
}
  where
    was : (u : ℕ) → (move s m t guarded).place u ≡ guarded → s.place u ≡ guarded
    was u h = elim (move-cases s m t guarded u guarded h) [
      | inl (e, _) ↦ ap s.place e ∙ here
      | inr (_, q) ↦ q
    ]

Locked-release :
    {T : Type 0} (s : System T) (m : Mutex T) (t : ℕ)
    → Locked s
    → m.lock_status ≡ false
    → s.place t ≡ guarded
    → Locked (move s m t outside)
Locked-release s m t v clear here = record {
  free = λ e u h. nobody u h;
  held = λ e. absurd (let k = sym clear ∙ e in cc);
  single = λ u w hu hw. absurd (nobody u hu);
}
  where
    nobody : (u : ℕ) → (move s m t outside).place u ≢ guarded
    nobody u h = elim (move-cases s m t outside u guarded h) [
      | inl (_, q) ↦ (let k = q in cc)
      | inr (ne, q) ↦ ne (v.single u t q here)
    ]

Locked-Step : {T : Type 0} (s s' : System T) → Locked s → Step s s' → Locked s'
unfolding write drop
Locked-Step _ _ v (call s t h) =
    Locked-move s s.mutex t spinning v refl (λ q. let k = sym h ∙ q in cc) (λ q. cc)
Locked-Step _ _ v (break_loop s t h e) =
    let (clear, set) = try_lock-true s.mutex e in Locked-take s (try_lock s.mutex).1 t v clear set
Locked-Step _ _ v (continue_loop s t h e) =
    let (busy, same) = try_lock-false s.mutex e in
    Locked-move s (try_lock s.mutex).1 t spinning v (ap (λ m. m.lock_status) same)
      (λ q. let k = sym h ∙ q in cc) (λ q. cc)
Locked-Step _ _ v (write_inner s t val h) = Locked-keep s (write val s.mutex) t v refl h
Locked-Step _ _ v (drop_guard s t h) = Locked-release s (drop s.mutex) t v refl h

Locked-Reachable : {T : Type 0} (s : System T) → Reachable s → Locked s
unfolding new
Locked-Reachable _ (start val) = record {
  free = λ e t h. (let k = h in cc);
  held = λ e. absurd (let k = e in cc);
  single = λ t u h g. absurd (let k = h in cc);
}
Locked-Reachable _ (later s s' r step) = Locked-Step s s' (Locked-Reachable s r) step

-- In every state that a new lock can get to, with any number of threads and in any order of
-- their steps, at most one thread holds the guard: only it writes the value inside.
pub mutual_exclusion :
    {T : Type 0} (s : System T) (t u : ℕ)
    → Reachable s
    → s.place t ≡ guarded
    → s.place u ≡ guarded
    → t ≡ u
mutual_exclusion s t u r = (Locked-Reachable s r).single t u

-- One step after the other.
pub data Steps {T : Type 0} : System T → System T → Type 0 where
  done : (s : System T) → Steps s s
  then_step : (s s' s'' : System T) → Step s s' → Steps s' s'' → Steps s s''
