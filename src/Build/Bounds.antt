-- ===== src/Build/Bounds.antt =====
-- The rows of the table of `build_dfa`, src/dfa.cpp, and the targets in them.
use lex_cpp.Prelude.{
  ℕ, zero, suc, ◌≤◌, ◌<◌, ◌≡◌, refl, sym, [], ◌∷◌, ◌∙◌, subst, ⊎_elim, List, length,
  length-replicate, get_or, get_or-past, Option, none, some, Option-cases, inl, inr, ◌⊎◌, arith,
}
use lex_cpp.Rules.{Nfa}
use lex_cpp.Dfa.{StateSet}
use lex_cpp.Build.{DfaState, dead_state}
use lex_cpp.Build.Table.{Table, entry, row, get_or-replicate}

-- A target is a state, and not the dead one.
abbrev pub IsTarget : ℕ → Option ℕ → Type 0
IsTarget n none = Unit
IsTarget n (some t) = (0 < t) × (t < n)

pub get_or-default {ℓ} :
    {A : Type ℓ} (xs : List A) (i : ℕ) (d d' : A) → i < length xs → get_or xs i d ≡ get_or xs i d'
get_or-default [] i d d' h = absurd (omega arith)
get_or-default (x ∷ xs) zero d d' h = refl
get_or-default (x ∷ xs) (suc i) d d' h = get_or-default xs i d d' (omega arith)

module _ (nfa : Nfa) (n : ℕ) (reps : List ℕ) (sts : List DfaState) (index : List (StateSet × ℕ))
    (sets : List StateSet) (t : Table nfa n reps sts index sets) where
  dead :
      (c : ℕ)
      → (length (dead_state n).next ≡ n) × IsTarget (length sts) (get_or (dead_state n).next c none)
  dead c =
      (length-replicate n none, subst (IsTarget (length sts)) (sym (get_or-replicate n c none)) tt)

  abbrev pub IsRow : ℕ → DfaState → Type 0
  IsRow c st = (length st.next ≡ n) × IsTarget (length sts) (get_or st.next c none)

  kept : (i c : ℕ) → i < length sets → IsRow c (row sts i)
  kept i c h = (
    t.wide i h,
    elim (Option-cases (entry sts i c)) [
      | inl e ↦ subst (IsTarget (length sts)) (sym e) tt
      | inr (k, e) ↦
          let (j, same, lt, to) = t.sound i c h k e in
          subst (IsTarget (length sts)) (sym e)
            (omega (arith, same), omega (arith, same, lt, t.many))
    ],
  )

  pub Table-rows : (s c : ℕ) → IsRow c (get_or sts s (dead_state n))
  Table-rows zero c =
      subst (IsRow c)
        (sym (get_or-default sts 0 (dead_state n) (dead_state 0) (omega (arith, t.many)) ∙ t.first))
        (dead c)
  Table-rows (suc i) c =
      ⊎_elim
        (λ lt.
          subst (IsRow c)
            (get_or-default sts (suc i) (dead_state 0) (dead_state n) (omega (arith, t.many, lt)))
            (kept i c lt))
        (λ ge.
          subst (IsRow c) (sym (get_or-past sts (suc i) (dead_state n) (omega (arith, t.many, ge))))
            (dead c))
        (before_or i (length sets))
    where
      before_or : (k m : ℕ) → (k < m) ⊎ (m ≤ k)
      before_or k m = ground arith
