-- ===== src/Dfa/Accept.antt =====
-- `accept_for` of src/dfa.cpp prefers the rule that comes first in the file.
use lex_cpp.Prelude.{
  ℕ, ◌≤◌, ◌≡◌, refl, sym, subst, Bool, true, false, Bool-cases, inl, inr, ◌⊎◌, ⊎_elim, ◌↔◌, List,
  [], ltb, if_both, arith, Memᴰ, Option, none, some,
}
use mathlib.Core.List.Memᴰ
use lex_cpp.Prelude.{get_or, ◌∷◌, ap, ◌∙◌, Option-cases}
use lex_cpp.Nfa.{States}
use lex_cpp.Nfa.Attributes.{accept_at}
use lex_cpp.Rules.{Nfa}
use lex_cpp.Dfa.{StateSet, AcceptPair, lower, slots, rules_of, accept_for, sort, unique}
use lex_cpp.Dfa.Sets.{sort-Memᴰ, unique-Memᴰ}

-- The slot holds the least of the rules that are seen, or nothing if there is none.
abbrev pub IsLeast : (ℕ → Type 0) → Option ℕ → Type 0
IsLeast P none = (r : ℕ) → ¬ P r
IsLeast P (some k) = P k × ((r : ℕ) → P r → k ≤ r)

lower-IsLeast :
    (P Q : ℕ → Type 0) (o : Option ℕ) (k : ℕ)
    → IsLeast P o
    → ((r : ℕ) → Q r ↔ (P r ⊎ (r ≡ k)))
    → IsLeast Q (lower o k)
unfolding lower
lower-IsLeast P Q none k h q =
    ((q k).1 (inr refl), λ r m. ⊎_elim (λ p. absurd (h r p)) (λ e. omega (arith, e)) ((q r).0 m))
lower-IsLeast P Q (some j) k (p, least) q =
    if_both (IsLeast Q) (ltb k j)
      (λ t. (
        (q k).1 (inr refl),
        λ r m. ⊎_elim (λ m'. ground (arith, least r m')) (λ e. omega (arith, e)) ((q r).0 m),
      ))
      (λ t. ((q j).1 (inl p), λ r m. ⊎_elim (least r) (λ e. ground (arith, e)) ((q r).0 m)))

pub iff-IsLeast :
    (P Q : ℕ → Type 0) (o : Option ℕ) → ((r : ℕ) → P r ↔ Q r) → IsLeast P o → IsLeast Q o
iff-IsLeast P Q none q h = λ r m. h r ((q r).1 m)
iff-IsLeast P Q (some k) q (p, least) = ((q k).0 p, λ r m. least r ((q r).1 m))

module _ (is_eol : ℕ → Bool) where
  -- The rules seen before, and those of a list that go to the slot.
  abbrev With : Bool → (ℕ → Type 0) → List ℕ → ℕ → Type 0
  With b P rs x = P x ⊎ Memᴰ x rs × (is_eol x ≡ b)

  With-same :
      (b : Bool) (P : ℕ → Type 0) (r : ℕ) (rs : List ℕ)
      → is_eol r ≡ b
      → (x : ℕ) → With b (λ y. P y ⊎ (y ≡ r)) rs x ↔ With b P (r ∷ rs) x
  With-same b P r rs e x = (
    ⊎_elim (⊎_elim inl (λ same. inr (Memᴰ.head same, subst (λ k. is_eol k ≡ b) (sym same) e)))
        (λ m. inr (Memᴰ.tail m.0, m.1)),
    ⊎_elim (λ p. inl (inl p))
        (λ m. ⊎_elim (λ same. inl (inr same)) (λ m'. inr (m', m.1)) (Memᴰ.cases_cons m.0)),
  )

  With-other :
      (b : Bool) (P : ℕ → Type 0) (r : ℕ) (rs : List ℕ)
      → ¬ (is_eol r ≡ b)
      → (x : ℕ) → With b P rs x ↔ With b P (r ∷ rs) x
  With-other b P r rs e x = (
    ⊎_elim inl (λ m. inr (Memᴰ.tail m.0, m.1)),
    ⊎_elim inl (λ m.
        ⊎_elim (λ same. absurd (e (subst (λ k. is_eol k ≡ b) same m.1))) (λ m'. inr (m', m.1))
          (Memᴰ.cases_cons m.0)),
  )

  slots-IsLeast :
      (rs : List ℕ) (p : AcceptPair) (P E : ℕ → Type 0)
      → IsLeast P p.normal
      → IsLeast E p.eol
      → IsLeast (With false P rs) (slots is_eol rs p).normal
        × IsLeast (With true E rs) (slots is_eol rs p).eol
  unfolding slots
  slots-IsLeast [] p P E n e = (
    iff-IsLeast P (With false P []) p.normal
        (λ r. (inl, ⊎_elim (λ m. m) (λ m. absurd (Memᴰ.not-nil m.0)))) n,
    iff-IsLeast E (With true E []) p.eol
        (λ r. (inl, ⊎_elim (λ m. m) (λ m. absurd (Memᴰ.not-nil m.0)))) e,
  )
  slots-IsLeast (r ∷ rs) p P E n e = elim (Bool-cases (is_eol r)) [
    | inl t ↦
        let more : ℕ → Type 0 = λ y. E y ⊎ (y ≡ r) in
        let next : AcceptPair = record p { eol = lower p.eol r } in
        let (least, least') =
          slots-IsLeast rs next P more n (lower-IsLeast E more p.eol r e (λ y. (λ m. m, λ m. m))) in
        rw (t, slots)
          (
            iff-IsLeast (With false P rs) (With false P (r ∷ rs)) (slots is_eol rs next).normal
                (With-other false P r rs (λ f. absurd cc)) least,
            iff-IsLeast (With true more rs) (With true E (r ∷ rs)) (slots is_eol rs next).eol
                (With-same true E r rs t) least',
          )
    | inr t ↦
        let more : ℕ → Type 0 = λ y. P y ⊎ (y ≡ r) in
        let next : AcceptPair = record p { normal = lower p.normal r } in
        let (least, least') =
          slots-IsLeast rs next more E (lower-IsLeast P more p.normal r n (λ y. (λ m. m, λ m. m)))
            e in
        rw (t, slots)
          (
            iff-IsLeast (With false more rs) (With false P (r ∷ rs)) (slots is_eol rs next).normal
                (With-same false P r rs t) least,
            iff-IsLeast (With true E rs) (With true E (r ∷ rs)) (slots is_eol rs next).eol
                (With-other true E r rs (λ f. absurd cc)) least',
          )
  ]

-- The rules that the states of a set accept.
rules_of-Memᴰ :
    (ns : States) (ss : StateSet) (r : ℕ)
    → Memᴰ r (rules_of ns ss) ↔ (q : ℕ) × Memᴰ q ss × (accept_at ns q ≡ some r)
unfolding rules_of
rules_of-Memᴰ ns [] r = (λ m. absurd (Memᴰ.not-nil m), λ x. absurd (Memᴰ.not-nil x.1))
rules_of-Memᴰ ns (s ∷ ss) r = elim (Option-cases (accept_at ns s)) [
  | inl e ↦
      rw (e, rules_of)
        (
          λ m. let (q, mq, a) = (rules_of-Memᴰ ns ss r).0 m in (q, Memᴰ.tail mq, a),
          λ x.
              ⊎_elim (λ same. absurd (clash (sym e ∙ ap (accept_at ns) (sym same) ∙ x.2)))
                (λ m. (rules_of-Memᴰ ns ss r).1 (x.0, m, x.2)) (Memᴰ.cases_cons x.1),
        )
  | inr (k, e) ↦
      rw (e, rules_of)
        (
          λ m.
              ⊎_elim (λ same. (s, Memᴰ.head refl, e ∙ ap some (sym same)))
                (λ m'. let (q, mq, a) = (rules_of-Memᴰ ns ss r).0 m' in (q, Memᴰ.tail mq, a))
                (Memᴰ.cases_cons m),
          λ x.
              ⊎_elim (λ same. Memᴰ.head (some_eq (sym x.2 ∙ ap (accept_at ns) same ∙ e)))
                (λ m. Memᴰ.tail ((rules_of-Memᴰ ns ss r).1 (x.0, m, x.2))) (Memᴰ.cases_cons x.1),
        )
]
  where
    clash : {k : ℕ} → none ≡ some k → ⊥
    clash e = cc

    some_eq : {a b : ℕ} → some a ≡ some b → a ≡ b
    some_eq e = cc

-- A rule that a state of the set accepts, with or without `$`.
abbrev pub Offers : Nfa → StateSet → Bool → ℕ → Type 0
Offers nfa ss eol r =
    ((q : ℕ) × Memᴰ q ss × (accept_at nfa.states q ≡ some r)) × (get_or nfa.rule_eol r false ≡ eol)

-- Of the rules without `$` that the states of a set accept, `accept_for` gives the one that comes
-- first, or none if there is none; and the same of the rules with `$`.
pub accept_for-IsLeast :
    (nfa : Nfa) (ss : StateSet)
    → IsLeast (Offers nfa ss false) (accept_for nfa ss).normal
      × IsLeast (Offers nfa ss true) (accept_for nfa ss).eol
unfolding accept_for
accept_for-IsLeast nfa ss =
    let is_eol : ℕ → Bool = λ r. get_or nfa.rule_eol r false in
    let rules : List ℕ = rules_of nfa.states ss in
    let nothing : ℕ → Type 0 = λ r. ⊥ in
    let iff : (b : Bool) (r : ℕ)
        → With is_eol b nothing (unique (sort rules)) r ↔ Offers nfa ss b r =
      λ b r. (
        ⊎_elim (λ x. absurd x)
            (λ m. (
              (rules_of-Memᴰ nfa.states ss r).0
                  ((sort-Memᴰ r rules).0 ((unique-Memᴰ r (sort rules)).0 m.0)),
              m.1,
            )),
        λ m. inr (
          (unique-Memᴰ r (sort rules)).1
              ((sort-Memᴰ r rules).1 ((rules_of-Memᴰ nfa.states ss r).1 m.0)),
          m.1,
        ),
      ) in
    let (n, e) =
      slots-IsLeast is_eol (unique (sort rules)) _ nothing nothing (λ r x. x) (λ r x. x) in
    (iff-IsLeast _ _ _ (iff false) n, iff-IsLeast _ _ _ (iff true) e)
