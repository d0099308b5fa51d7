-- ===== src/Rules/Belongs.antt =====
-- The conditions that `connect_to_conds` of src/nfa.cpp takes, beside what a rule says of them.
use lex_cpp.Prelude.{
  ℕ, zero, suc, ◌+◌, ◌≤◌, ◌<◌, ◌≡◌, ◌↔◌, refl, sym, subst, ◌∙◌, List, [], ◌∷◌, length, get_or, not,
  ◌||◌, ◌==◌, Bool, true, false, Bool-cases, ◌⊎◌, inl, inr, ⊎_elim, arith, Memᴰ,
}
use mathlib.Core.List.Memᴰ
use lex_cpp.Rules.{Nfa, RuleSites, site_conds, ids_where}
use lex_cpp.Rules.Accepts.{InRange}

-- Of `count` conditions with their flags for exclusive ones, a rule for any condition belongs to all,
-- a rule that names none to the first and to those that are not exclusive, another to those listed.
abbrev pub Belongs : ℕ → List Bool → Bool → Type 0 → (ℕ → Type 0) → ℕ → Type 0
Belongs count excl any no_names Listed c =
    (any ≡ true) × (c < count)
    ⊎ (any ≡ false)
      × (no_names × (c < count) × ((c ≡ 0) ⊎ (get_or excl c false ≡ false)) ⊎ Listed c)

pub Belongs-iff :
    (count : ℕ) (excl : List Bool) (any : Bool) (N N' : Type 0) (L L' : ℕ → Type 0) (c : ℕ)
    → N ↔ N'
    → L c ↔ L' c
    → Belongs count excl any N L c ↔ Belongs count excl any N' L' c
Belongs-iff count excl any N N' L L' c n l = (
  ⊎_elim inl (λ (t, m). inr (t, ⊎_elim (λ (e, lt, x). inl (n.0 e, lt, x)) (λ y. inr (l.0 y)) m)),
  ⊎_elim inl (λ (t, m). inr (t, ⊎_elim (λ (e, lt, x). inl (n.1 e, lt, x)) (λ y. inr (l.1 y)) m)),
)

-- The ids of the loop are those of its range that pass the test.
ids_where-Memᴰ :
    (p : ℕ → Bool) (k i c : ℕ) → Memᴰ c (ids_where p k i) ↔ ((i ≤ c) × (c < i + k)) × (p c ≡ true)
unfolding ids_where
ids_where-Memᴰ p zero i c =
    (λ m. absurd (Memᴰ.not-nil m), λ x. absurd (omega (arith, x.0.0, x.0.1)))
ids_where-Memᴰ p (suc k) i c =
    let (to, from) = ids_where-Memᴰ p k (i + 1) c in
    elim (Bool-cases (p i)) [
      | inl t ↦ rw (t) (
        λ m.
            ⊎_elim (λ e. ((omega (arith, e), omega (arith, e)), subst (λ j. p j ≡ true) (sym e) t))
              (λ m'. let ((a, b), y) = to m' in ((omega (arith, a), omega (arith, b)), y))
              (Memᴰ.cases_cons m),
        λ ((a, b), y).
            ⊎_elim (λ e. Memᴰ.head (sym e))
              (λ e. Memᴰ.tail (from ((omega (arith, e), omega (arith, b)), y))) (first a),
      )
      | inr f ↦ rw (f) (
        λ m. let ((a, b), y) = to m in ((omega (arith, a), omega (arith, b)), y),
        λ ((a, b), y).
            ⊎_elim (λ e. absurd (clash (sym y ∙ subst (λ j. p j ≡ false) e f)))
              (λ e. from ((omega (arith, e), omega (arith, b)), y)) (first a),
      )
    ]
  where
    first : {i c : ℕ} → i ≤ c → (i ≡ c) ⊎ (i < c)
    first h = omega (arith, h)

    clash : true ≡ false → ⊥
    clash e = cc

-- The conditions of a rule that names the conditions `l`, or none.
listed_iff :
    (count : ℕ) (excl : List Bool) (l : List ℕ) (c : ℕ)
    → Memᴰ c (elim l [
      | [] ↦ ids_where (λ i. i == 0 || not (get_or excl i false)) count 0
      | d ∷ ds ↦ d ∷ ds
    ])
      ↔ ((l ≡ []) × (c < count) × ((c ≡ 0) ⊎ (get_or excl c false ≡ false)) ⊎ Memᴰ c l)
listed_iff count excl [] c =
    let (to, from) = ids_where-Memᴰ (λ i. i == 0 || not (get_or excl i false)) count 0 c in
    (
      λ m.
          let ((_, lt), y) = to m in
          inl (refl, omega (arith, lt), test_to c (get_or excl c false) y),
      ⊎_elim
          (λ (_, lt, y). from ((omega arith, omega (arith, lt)), test_of c (get_or excl c false) y))
          (λ m. absurd (Memᴰ.not-nil m)),
    )
  where
    test_to : (c : ℕ) (b : Bool) → c == 0 || not b ≡ true → (c ≡ 0) ⊎ (b ≡ false)
    test_to c b y = ground (arith, y)

    test_of : (c : ℕ) (b : Bool) → (c ≡ 0) ⊎ (b ≡ false) → c == 0 || not b ≡ true
    test_of c b y = ground (arith, y)
listed_iff count excl (d ∷ ds) c = (inr, ⊎_elim (λ (e, _, _). absurd (clash e)) (λ m. m))
  where
    clash : d ∷ ds ≡ [] → ⊥
    clash e = cc

-- The source takes the conditions that the rule belongs to.
pub site_conds-Belongs :
    (n : Nfa) (sites : RuleSites) (c : ℕ)
    → Memᴰ c (site_conds n sites)
      ↔ Belongs
          (length n.cond_starts)
          n.cond_excl
          sites.any_state
          (sites.conds ≡ [])
          (λ d. Memᴰ d sites.conds)
          c
unfolding site_conds
site_conds-Belongs n sites c = elim (Bool-cases sites.any_state) [
  | inl t ↦
      let (to, from) = ids_where-Memᴰ (λ i. true) (length n.cond_starts) 0 c in
      rw (t) (
        λ m. inl (refl, omega (arith, (to m).0.1)),
        ⊎_elim (λ (_, lt). from ((omega arith, omega (arith, lt)), refl))
            (λ (e, _). absurd (clash e)),
      )
  | inr t ↦
      let (to, from) = listed_iff (length n.cond_starts) n.cond_excl sites.conds c in
      rw (t) (λ m. inr (refl, to m), ⊎_elim (λ (e, _). absurd (clash (sym e))) (λ (_, m). from m))
]
  where
    clash : true ≡ false → ⊥
    clash e = cc

-- The conditions exist if those that the rule names do.
pub listed-InRange :
    (n : Nfa) (sites : RuleSites)
    → ((c : ℕ) → Memᴰ c sites.conds → c < length n.cond_starts)
    → InRange n sites
listed-InRange n sites h c m =
    ⊎_elim (λ (_, lt). lt) (λ (_, y). ⊎_elim (λ (_, lt, _). lt) (h c) y)
      ((site_conds-Belongs n sites c).0 m)
