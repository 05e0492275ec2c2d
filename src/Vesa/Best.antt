-- ===== src/Vesa/Best.antt =====
-- The mode that `get_best_mode` chooses.
use miniature_os.Base.{
  ℕ, zero, suc, ◌+◌, ◌-◌, ◌*◌, ◌^◌, ◌≤◌, ◌<◌, ◌≡◌, ◌≢◌, ◌⊎◌, inl, inr, refl, arith,
}
use miniature_os.Base.{
  List, [], ◌∷◌, Option, none, some, Bool, true, false, ◌&&◌, ◌||◌, Bool-cases, length,
}
use miniature_os.Base.{ok, ltb, ltb→lt, lt→ltb, ◌==◌, ne→==, if◌then◌else◌, u32_mod, ◌<<<◌}
use miniature_os.Vesa.{
  VideoBios, VbeInfo, VbeModeInfo, Answer, done, failed, Choice, Round, stop, segment, offset,
  abs_diff, get_mode_info, get_mode, is_supported, is_exact, compare_mode, consider, choose,
  best_loop, get_best_mode,
}

-- The mode is one of the list.
abbrev pub In : ℕ → List ℕ → Type 0
In m [] = ⊥
In m (x ∷ xs) = (m ≡ x) ⊎ In m xs

-- The values of a block fit their fields.
abbrev pub IsBlock : VbeModeInfo → Type 0
IsBlock info = (info.width < 2 ^ 16) × (info.height < 2 ^ 16) × (info.bits_per_pixel < 2 ^ 8)

tested :
    (p d p' d' : ℕ) → (ltb p p' || p == p' && ltb d d') ≡ true → (p < p') ⊎ ((p ≡ p') × (d < d'))
tested p d p' d' h = elim (Bool-cases (ltb p p')) [
  | inl lt ↦ inl (ltb→lt _ _ lt)
  | inr not_lt ↦ inr (ground arith, ground arith)
]

tested_not :
    (p d p' d' : ℕ) → (ltb p p' || p == p' && ltb d d') ≡ false → (p' < p) ⊎ ((p' ≡ p) × (d' ≤ d))
tested_not p d p' d' h = elim (Bool-cases (ltb p' p)) [
  | inl lt ↦ inl (ltb→lt _ _ lt)
  | inr not_lt ↦ inr (ground arith, ground arith)
]

module _ (bios : VideoBios) (width height depth : ℕ) where
  -- The BIOS describes the mode, and the boot loader can use it.
  abbrev pub Usable : ℕ → VbeModeInfo → Type 0
  Usable m info = (get_mode_info bios m ≡ done info) × (is_supported info ≡ true)

  abbrev pub pix_diff : VbeModeInfo → ℕ
  pix_diff info = abs_diff (info.width * info.height) (width * height)

  abbrev pub depth_diff : VbeModeInfo → ℕ
  depth_diff info = abs_diff info.bits_per_pixel depth

  -- A difference `p`, `d` is not larger than `p'`, `d'`: the pixels count first.
  abbrev pub NotFarther : ℕ → ℕ → ℕ → ℕ → Type 0
  NotFarther p d p' d' = (p < p') ⊎ ((p ≡ p') × (d ≤ d'))

  abbrev pub NoExact : List ℕ → Type 0
  NoExact ms =
      (m : ℕ) (info : VbeModeInfo)
      → In m ms
      → Usable m info
      → is_exact bios width height depth info ≡ false

  abbrev pub AllNotCloser : List ℕ → ℕ → ℕ → Type 0
  AllNotCloser ms p d =
      (m : ℕ) (info : VbeModeInfo)
      → In m ms
      → Usable m info
      → NotFarther p d (pix_diff info) (depth_diff info)

  -- What the result says of the modes: an exact one, if there is any; else the closest usable
  -- one, if there is any.
  abbrev pub IsBest : List ℕ → Option ℕ → Type 0
  IsBest ms none = (m : ℕ) (info : VbeModeInfo) → In m ms → ¬ Usable m info
  IsBest ms (some best) =
      (info : VbeModeInfo) × In best ms
      × Usable best info
      × ((is_exact bios width height depth info ≡ true)
          ⊎ (NoExact ms × AllNotCloser ms (pix_diff info) (depth_diff info)))

  -- The array of modes at an address ends with 0xffff.
  abbrev pub IsArray : ℕ → List ℕ → Type 0
  IsArray at [] = bios.word_at at ≡ 0xffff
  IsArray at (m ∷ ms) = (bios.word_at at ≡ m) × (m ≢ 0xffff) × IsArray (at + 2) ms

  -- The loop over the modes `ms` from a choice on.
  abbrev Result : List ℕ → Choice → Option ℕ → Type 0
  Result ms choice r =
      ((m : ℕ) × (info : VbeModeInfo) × (r ≡ some m)
        × In m ms
        × Usable m info
        × (is_exact bios width height depth info ≡ true))
      ⊎ (NoExact ms
          × (((r ≡ choice.best) × AllNotCloser ms choice.best_pix_diff choice.best_depth_diff)
              ⊎ ((m : ℕ) × (info : VbeModeInfo) × (r ≡ some m)
                  × In m ms
                  × Usable m info
                  × ((pix_diff info < choice.best_pix_diff)
                      ⊎ ((pix_diff info ≡ choice.best_pix_diff)
                          × (depth_diff info < choice.best_depth_diff)))
                  × AllNotCloser ms (pix_diff info) (depth_diff info))))

  -- One round that goes on at a mode that is not usable.
  Result-skip :
      (m : ℕ) (ms : List ℕ) (choice : Choice) (r : Option ℕ)
      → ((info : VbeModeInfo) → ¬ Usable m info)
      → Result ms choice r
      → Result (m ∷ ms) choice r
  Result-skip m ms choice r no_use (inl (x, info, e, i, u, exact)) =
      inl (x, info, e, inr i, u, exact)
  Result-skip m ms choice r no_use (inr (no_exact, rest)) = inr (
    (λ x info i u. elim i [
      | inl e ↦ absurd (no_use info (rw (← e) u))
      | inr i' ↦ no_exact x info i' u
    ]),
    elim rest [
      | inl (e, far) ↦ inl (
        e,
        λ x info i u. elim i [
          | inl e ↦ absurd (no_use info (rw (← e) u))
          | inr i' ↦ far x info i' u
        ],
      )
      | inr (b, binfo, e, i, u, closer, far) ↦ inr (
        b,
        binfo,
        e,
        inr i,
        u,
        closer,
        λ x info i u. elim i [
          | inl e ↦ absurd (no_use info (rw (← e) u))
          | inr i' ↦ far x info i' u
        ],
      )
    ],
  )

  module _ (m : ℕ) (info : VbeModeInfo) (usable : Usable m info)
      (inexact : is_exact bios width height depth info ≡ false) (ms : List ℕ) (choice : Choice)
      (r : Option ℕ) where
    same_info : (x : ℕ) (other : VbeModeInfo) → x ≡ m → Usable x other → info ≡ other
    same_info x other e u =
        (let k : get_mode_info bios m ≡ done other = rw (← e) u.0 in let h = usable.0 in cc)

    NoExact-cons : NoExact ms → NoExact (m ∷ ms)
    NoExact-cons h x other (inl e) u = rw (← same_info x other e u) inexact
    NoExact-cons h x other (inr i) u = h x other i u

    AllNotCloser-cons :
        (p d : ℕ)
        → NotFarther p d (pix_diff info) (depth_diff info)
        → AllNotCloser ms p d
        → AllNotCloser (m ∷ ms) p d
    AllNotCloser-cons p d near far x other (inl e) u = rw (← same_info x other e u) near
    AllNotCloser-cons p d near far x other (inr i) u = far x other i u

    -- The mode is not closer than the choice.
    Result-farther :
        NotFarther choice.best_pix_diff choice.best_depth_diff (pix_diff info) (depth_diff info)
        → Result ms choice r
        → Result (m ∷ ms) choice r
    Result-farther near (inl (x, other, e, i, u, exact)) = inl (x, other, e, inr i, u, exact)
    Result-farther near (inr (no_exact, inl (e, far))) =
        inr (NoExact-cons no_exact, inl (e, AllNotCloser-cons _ _ near far))
    Result-farther near (inr (no_exact, inr (b, other, e, i, u, closer, far))) = inr (
      NoExact-cons no_exact,
      inr (b, other, e, inr i, u, closer, AllNotCloser-cons _ _ (trans closer near) far),
    )
      where
        trans :
            {p d p' d' p'' d'' : ℕ}
            → (p < p') ⊎ ((p ≡ p') × (d < d'))
            → NotFarther p' d' p'' d''
            → NotFarther p d p'' d''
        trans (inl a) (inl b) = inl (omega arith)
        trans (inl a) (inr b) = inl (omega arith)
        trans (inr a) (inl b) = inl (omega arith)
        trans (inr a) (inr b) = inr (omega arith)

    -- The mode is closer, and is the new choice.
    Result-closer :
        (pix_diff info < choice.best_pix_diff)
          ⊎ ((pix_diff info ≡ choice.best_pix_diff) × (depth_diff info < choice.best_depth_diff))
        → Result ms
            (record {
              best = some m;
              best_pix_diff = pix_diff info;
              best_depth_diff = depth_diff info;
            })
            r
        → Result (m ∷ ms) choice r
    Result-closer near (inl (x, other, e, i, u, exact)) = inl (x, other, e, inr i, u, exact)
    Result-closer near (inr (no_exact, inl (e, far))) = inr (
      NoExact-cons no_exact,
      inr (m, info, e, inl refl, usable, near, AllNotCloser-cons _ _ (inr (refl, omega arith)) far),
    )
    Result-closer near (inr (no_exact, inr (b, other, e, i, u, closer, far))) = inr (
      NoExact-cons no_exact,
      inr (b, other, e, inr i, u, trans closer near, AllNotCloser-cons _ _ (weak closer) far),
    )
      where
        trans :
            {p d p' d' p'' d'' : ℕ}
            → (p < p') ⊎ ((p ≡ p') × (d < d'))
            → (p' < p'') ⊎ ((p' ≡ p'') × (d' < d''))
            → (p < p'') ⊎ ((p ≡ p'') × (d < d''))
        trans (inl a) (inl b) = inl (omega arith)
        trans (inl a) (inr b) = inl (omega arith)
        trans (inr a) (inl b) = inl (omega arith)
        trans (inr a) (inr b) = inr (omega arith)

        weak : {p d p' d' : ℕ} → (p < p') ⊎ ((p ≡ p') × (d < d')) → NotFarther p d p' d'
        weak (inl a) = inl a
        weak (inr a) = inr (omega arith)

  module _ (vbe : VbeInfo) (wide : width < 2 ^ 16) (high : height < 2 ^ 16)
      (blocks : (m : ℕ) (info : VbeModeInfo) → Usable m info → IsBlock info) where
    abbrev pub array_at : ℕ
    array_at = segment vbe.video_mode_array_pointer <<< 4 + offset vbe.video_mode_array_pointer

    get_mode_lem :
        (i : ℕ)
        → get_mode bios vbe i
          ≡ ok (
              if bios.word_at (array_at + 2 * i) == 0xffff
              then none
              else some (bios.word_at (array_at + 2 * i)))
    unfolding get_mode
    get_mode_lem i =
        let fits : ltb array_at u32_mod ≡ true = lt→ltb _ _ (omega arith) in rw fits refl

    -- How a round ends at a supported mode that is not exact.
    abbrev is_closer : VbeModeInfo → Choice → Bool
    is_closer info choice =
        ltb (pix_diff info) choice.best_pix_diff
        || pix_diff info == choice.best_pix_diff && ltb (depth_diff info) choice.best_depth_diff

    compare_mode_lem :
        (m : ℕ) (info : VbeModeInfo) (choice : Choice)
        → IsBlock info
        → is_exact bios width height depth info ≡ false
        → compare_mode bios width height depth m info choice ≡ (
            if is_closer info choice
            then ok (
                Round.next (record {
                  best = some m;
                  best_pix_diff = pix_diff info;
                  best_depth_diff = depth_diff info;
                }))
            else ok (Round.next choice))
    unfolding compare_mode
    compare_mode_lem m info choice (w, h, b) inexact =
        let fits : ltb (info.width * info.height) u32_mod ≡ true =
          lt→ltb _ _ (small info.width info.height w h) in
        let fits' : ltb (width * height) u32_mod ≡ true =
          lt→ltb _ _ (small width height wide high) in
        rw (inexact, fits, fits') refl
      where
        small : (a b : ℕ) → a < 2 ^ 16 → b < 2 ^ 16 → a * b < 2 ^ 32
        small a b h k = grind arith

    closer_lem :
        (info : VbeModeInfo) (choice : Choice)
        → is_closer info choice ≡ true
        → (pix_diff info < choice.best_pix_diff)
          ⊎ ((pix_diff info ≡ choice.best_pix_diff) × (depth_diff info < choice.best_depth_diff))
    closer_lem info choice h =
        tested (pix_diff info) (depth_diff info) choice.best_pix_diff choice.best_depth_diff h

    farther_lem :
        (info : VbeModeInfo) (choice : Choice)
        → is_closer info choice ≡ false
        → NotFarther choice.best_pix_diff choice.best_depth_diff (pix_diff info) (depth_diff info)
    farther_lem info choice h =
        tested_not (pix_diff info) (depth_diff info) choice.best_pix_diff choice.best_depth_diff h

    -- A round at the mode `m`.
    abbrev Chosen : ℕ → ℕ → Choice → Type 0
    Chosen i m choice =
        ((choose bios width height depth vbe i choice ≡ ok (Round.next choice))
          × ((info : VbeModeInfo) → ¬ Usable m info))
        ⊎ ((info : VbeModeInfo) × Usable m info
            × (((is_exact bios width height depth info ≡ true)
                  × (choose bios width height depth vbe i choice ≡ ok (stop (some m))))
                ⊎ ((is_exact bios width height depth info ≡ false)
                    × (choose bios width height depth vbe i choice
                        ≡ compare_mode bios width height depth m info choice))))

    answer_cases :
        (x : Answer VbeModeInfo)
        → ((info : VbeModeInfo) × (x ≡ done info)) ⊎ ((code : ℕ) × (x ≡ failed code))
    answer_cases (done info) = inl (info, refl)
    answer_cases (failed code) = inr (code, refl)

    choose_lem :
        (i m : ℕ) (choice : Choice)
        → bios.word_at (array_at + 2 * i) ≡ m
        → m ≢ 0xffff
        → Chosen i m choice
    unfolding choose consider
    choose_lem i m choice at more = elim (answer_cases (get_mode_info bios m)) [
      | inr (code, e) ↦
          inl (rw (get_mode_lem i, at, ne→== m 0xffff more, e) refl, λ info u. let k = u.0 in cc)
      | inl (info, e) ↦ elim (Bool-cases (is_supported info)) [
        | inr unsupported ↦ inl (
          rw (get_mode_lem i, at, ne→== m 0xffff more, e, unsupported) refl,
          λ other u.
              (let k = u.0 in let same : info ≡ other = cc in let s = rw (← same) at (u.1) in cc),
        )
        | inl supported ↦ inr (
          info,
          (e, supported),
          elim (Bool-cases (is_exact bios width height depth info)) [
            | inl exact ↦ inl (
              exact,
              rw (get_mode_lem i, at, ne→== m 0xffff more, e, supported)
                  (stops i m info choice exact),
            )
            | inr inexact ↦
                inr (inexact, rw (get_mode_lem i, at, ne→== m 0xffff more, e, supported) refl)
          ],
        )
      ]
    ]
      where
        stops :
            (i m : ℕ) (info : VbeModeInfo) (choice : Choice)
            → is_exact bios width height depth info ≡ true
            → compare_mode bios width height depth m info choice ≡ ok (stop (some m))
        stops i m info choice exact = unfold compare_mode in rw exact refl

    loop_lem :
        (ms : List ℕ) (fuel i : ℕ) (choice : Choice)
        → IsArray (array_at + 2 * i) ms
        → length ms < fuel
        → i + length ms + 1 < 2 ^ 31
        → (r : Option ℕ) × (best_loop bios width height depth fuel vbe i choice ≡ ok r)
          × Result ms choice r
    unfolding best_loop choose
    loop_lem ms zero i choice array enough small = absurd (omega arith)
    loop_lem [] (suc fuel) i choice ends enough small =
        let fits : ltb (i + 1) (2 ^ 31) ≡ true = lt→ltb _ _ (omega arith) in
        (
          choice.best,
          rw (fits, get_mode_lem i, ends) refl,
          inr ((λ m info i u. absurd i), inl (refl, λ m info i u. absurd i)),
        )
    loop_lem (m ∷ ms) (suc fuel) i choice (at, more, array) enough small =
        let fits : ltb (i + 1) (2 ^ 31) ≡ true = lt→ltb _ _ (omega arith) in
        let later : array_at + 2 * i + 2 ≡ array_at + 2 * (i + 1) = omega arith in
        let rest = λ (c : Choice).
          loop_lem ms fuel (i + 1) c (rw later at array) (omega arith) (omega arith) in
        elim (choose_lem i m choice at more) [
          | inl (e, no_use) ↦
              let (r, run, result) = rest choice in
              (r, rw (fits, e) run, Result-skip m ms choice r no_use result)
          | inr (info, usable, inl (exact, e)) ↦
              (some m, rw (fits, e) refl, inl (m, info, refl, inl refl, usable, exact))
          | inr (info, usable, inr (inexact, e)) ↦ elim (Bool-cases (is_closer info choice)) [
            | inl closer ↦
                let (r, run, result) = rest (record {
                  best = some m;
                  best_pix_diff = pix_diff info;
                  best_depth_diff = depth_diff info;
                }) in
                (
                  r,
                  rw
                      (
                        fits,
                        e,
                        compare_mode_lem m info choice (blocks m info usable) inexact,
                        closer,
                      )
                      run,
                  Result-closer m info usable inexact ms choice r (closer_lem info choice closer)
                      result,
                )
            | inr far ↦
                let (r, run, result) = rest choice in
                (
                  r,
                  rw (fits, e, compare_mode_lem m info choice (blocks m info usable) inexact, far)
                      run,
                  Result-farther m info usable inexact ms choice r (farther_lem info choice far)
                      result,
                )
          ]
        ]

    pix_diff-lt : (m : ℕ) (info : VbeModeInfo) → Usable m info → pix_diff info < 2 ^ 32 - 1
    pix_diff-lt m info u =
        let (w, h, b) = blocks m info u in
        let p : info.width * info.height < 2 ^ 32 - 1 = product info.width info.height w h in
        let q : width * height < 2 ^ 32 - 1 = product width height wide high in omega (arith, p, q)
      where
        product : (a b : ℕ) → a < 2 ^ 16 → b < 2 ^ 16 → a * b < 2 ^ 32 - 1
        product a b h k = let c : a * b ≤ 65535 * 65535 = grind arith in omega (arith, c)

    Result-IsBest :
        (ms : List ℕ) (r : Option ℕ)
        → Result ms (record { best = none; best_pix_diff = 2 ^ 32 - 1; best_depth_diff = 255 }) r
        → IsBest ms r
    Result-IsBest ms none (inl (b, info, e, i, u, exact)) = absurd (let k = e in cc)
    Result-IsBest ms none (inr (no_exact, inl (e, far))) = λ m info i u.
        impossible (pix_diff info) (depth_diff info) (pix_diff-lt m info u) (far m info i u)
      where
        impossible : (p d : ℕ) → p < 2 ^ 32 - 1 → ¬ NotFarther (2 ^ 32 - 1) 255 p d
        impossible p d lt (inl h) = omega arith
        impossible p d lt (inr h) = omega arith
    Result-IsBest ms none (inr (no_exact, inr (b, info, e, i, u, closer, far))) =
        absurd (let k = e in cc)
    Result-IsBest ms (some m) (inl (b, info, e, i, u, exact)) =
        let same : b ≡ m = cc in (info, rw (← same) i, rw (← same) u, inl exact)
    Result-IsBest ms (some m) (inr (no_exact, inl (e, far))) = absurd (let k = e in cc)
    Result-IsBest ms (some m) (inr (no_exact, inr (b, info, e, i, u, closer, far))) =
        let same : b ≡ m = cc in (info, rw (← same) i, rw (← same) u, inr (no_exact, far))

    -- If the array of modes ends, its modes have an index of 31 bits, and all numbers fit their
    -- words, then `get_best_mode` returns, with fuel for one more round than there are modes. The
    -- result is none exactly if no mode is usable (the BIOS describes it, it is a graphics mode
    -- with a linear frame buffer, and its memory model is one of two). Otherwise it is a
    -- usable mode of the array: one of exactly the wanted size and depth, or, if there is none, one
    -- whose number of pixels is closest, and among these one whose depth is closest.
    pub get_best_mode-IsBest :
        (ms : List ℕ) (fuel : ℕ)
        → IsArray array_at ms
        → length ms < fuel
        → length ms + 1 < 2 ^ 31
        → (r : Option ℕ) × (get_best_mode bios width height depth fuel vbe ≡ ok r) × IsBest ms r
    unfolding get_best_mode
    get_best_mode-IsBest ms fuel array enough small =
        let first : array_at + 2 * 0 ≡ array_at = omega arith in
        let (r, run, result) =
          loop_lem ms fuel 0
            (record { best = none; best_pix_diff = 2 ^ 32 - 1; best_depth_diff = 255 })
            (rw first array) enough (omega arith) in
        (r, run, Result-IsBest ms r result)
