-- ===== src/Eclass/Sides.antt =====
-- The inner loop of `refine` in src/eclass.cpp: the sides on which a class has bytes.
use lex_cpp.Prelude.{
  ℕ, zero, suc, ◌+◌, ◌%◌, ◌≤◌, ◌<◌, ◌≡◌, ap, ◌∙◌, Bool, true, false, ◌&&◌, Bool-cases, inl, inr,
  arith, ◌==◌, ==_iff, if_both,
}
use lex_cpp.ByteSet.{ByteSet, test}
use lex_cpp.Eclass.{Halves, see, halves}

abbrev pub nothing_seen : Halves
nothing_seen = record { in_any = false; out_any = false }

module _ (cls : ℕ → ℕ) (s : ByteSet) (c : ℕ) where
  -- A byte of class `c` on which the set answers `v`.
  abbrev pub Witness : Bool → Type 0
  Witness v = (b : ℕ) × (b < 256) × (cls b ≡ c % 256) × (test s b ≡ v)

  see_sound :
      (b : ℕ) (h : Halves)
      → b < 256
      → (h.in_any ≡ true → Witness true)
      → (h.out_any ≡ true → Witness false)
      → ((see cls s c b h).in_any ≡ true → Witness true)
        × ((see cls s c b h).out_any ≡ true → Witness false)
  unfolding see
  see_sound b h lt i o = elim (Bool-cases (cls b == c % 256)) [
    | inl here ↦
        let e : cls b ≡ c % 256 = (==_iff (cls b) (c % 256)).0 here in
        elim (Bool-cases (test s b)) [
          | inl t ↦ rw (here, t) (λ _. (b, lt, e, t), o)
          | inr f ↦ rw (here, f) (i, λ _. (b, lt, e, f))
        ]
    | inr other ↦ rw other (i, o)
  ]

  halves_sound :
      (k b : ℕ) (h : Halves)
      → b + k ≤ 256
      → (h.in_any ≡ true → Witness true)
      → (h.out_any ≡ true → Witness false)
      → ((halves cls s c k b h).in_any ≡ true → Witness true)
        × ((halves cls s c k b h).out_any ≡ true → Witness false)
  unfolding halves
  halves_sound zero b h le i o = (i, o)
  halves_sound (suc k) b h le i o =
      let (i', o') = see_sound b h (omega arith) i o in
      if_both
        (λ (g : Halves). (g.in_any ≡ true → Witness true) × (g.out_any ≡ true → Witness false))
        ((see cls s c b h).in_any && (see cls s c b h).out_any) (λ _. (i', o'))
        (λ _. halves_sound k (b + 1) (see cls s c b h) (omega arith) i' o')

  abbrev Grows : Halves → Halves → Type 0
  Grows h g = (h.in_any ≡ true → g.in_any ≡ true) × (h.out_any ≡ true → g.out_any ≡ true)

  see-Grows : (b : ℕ) (h : Halves) → Grows h (see cls s c b h)
  unfolding see
  see-Grows b h = ground arith

  halves-Grows : (k b : ℕ) (h : Halves) → Grows h (halves cls s c k b h)
  unfolding halves
  halves-Grows zero b h = (λ e. e, λ e. e)
  halves-Grows (suc k) b h =
      let (i, o) = see-Grows b h in
      if_both (Grows h) ((see cls s c b h).in_any && (see cls s c b h).out_any) (λ _. (i, o))
        (λ _.
          let (i', o') = halves-Grows k (b + 1) (see cls s c b h) in (λ e. i' (i e), λ e. o' (o e)))

  see_hit :
      (b : ℕ) (h : Halves)
      → cls b ≡ c % 256
      → (test s b ≡ true → (see cls s c b h).in_any ≡ true)
        × (test s b ≡ false → (see cls s c b h).out_any ≡ true)
  unfolding see
  see_hit b h e = ground arith

  halves_complete :
      (k b j : ℕ) (h : Halves)
      → b ≤ j
      → j < b + k
      → cls j ≡ c % 256
      → (test s j ≡ true → (halves cls s c k b h).in_any ≡ true)
        × (test s j ≡ false → (halves cls s c k b h).out_any ≡ true)
  unfolding halves
  halves_complete zero b j h lo hi e = absurd (omega arith)
  halves_complete (suc k) b j h lo hi e =
      let h' = see cls s c b h in
      if_both
        (λ (g : Halves).
          (test s j ≡ true → g.in_any ≡ true) × (test s j ≡ false → g.out_any ≡ true))
        (h'.in_any && h'.out_any) (λ both. (λ _. ground arith, λ _. ground arith))
        (λ _. elim (Bool-cases (b == j)) [
          | inl same ↦
              let at : b ≡ j = (==_iff b j).0 same in
              let (i, o) = see_hit b h (ap cls at ∙ e) in
              let (i', o') = halves-Grows k (b + 1) h' in
              (λ t. i' (i (ap (test s) at ∙ t)), λ t. o' (o (ap (test s) at ∙ t)))
          | inr other ↦ halves_complete k (b + 1) j h' (ground arith) (omega arith) e
        ])

  abbrev pub seen : Halves
  seen = halves cls s c 256 0 nothing_seen

  -- Both flags are set exactly if the class has bytes on both sides.
  pub seen_both : (seen.in_any && seen.out_any) ≡ true → Witness true × Witness false
  seen_both e =
      let (i, o) =
        halves_sound 256 0 nothing_seen (omega arith) (λ x. absurd (bad x)) (λ x. absurd (bad x)) in
      (i (ground arith), o (ground arith))
    where
      bad : false ≡ true → ⊥
      bad x = cc

  pub seen_one :
      (seen.in_any && seen.out_any) ≡ false
      → (b b' : ℕ) → b < 256
      → b' < 256
      → cls b ≡ c % 256
      → cls b' ≡ c % 256
      → test s b ≡ test s b'
  seen_one e b b' h h' p p' =
      let (i, o) = halves_complete 256 0 b nothing_seen (omega arith) (omega arith) p in
      let (i', o') = halves_complete 256 0 b' nothing_seen (omega arith) (omega arith) p' in
      ground arith
