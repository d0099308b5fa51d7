-- ===== src/Pack/Walk.antt =====
-- A scanner over the packed tables of src/dfa.cpp goes through the same states as one over the rows.
use lex_cpp.Prelude.{
  ℕ, zero, suc, ◌≤◌, ◌<◌, ◌≡◌, refl, sym, ap, subst, ◌∙◌, ⊎_elim, inl, inr, ◌⊎◌, List, [], ◌∷◌,
  length, get_or, get_or-past, Option, none, some, Bool, arith,
}
use lex_cpp.Regex.Language.{Bytes}
use lex_cpp.Rules.{Nfa}
use lex_cpp.Rules.Runs.{IsValid}
use lex_cpp.Eclass.{Eclasses}
use lex_cpp.Build.{Dfa, DfaState, dead_state, build_dfa}
use lex_cpp.Build.Table.{get_or-replicate}
use lex_cpp.Build.Bounds.{IsTarget, get_or-default}
use lex_cpp.Build.Walk.{follow}
use lex_cpp.Build.Correct.{build_dfa-bounds}
use lex_cpp.Pack.{CompressedDfa, compress_dfa, packed_next}
use lex_cpp.Pack.Correct.{live, compress_dfa-row}

-- From a state over a word, by the packed tables.
abbrev pub follow_packed : CompressedDfa → Eclasses → Option ℕ → Bytes → Option ℕ
follow_packed z e none w = none
follow_packed z e (some s) [] = some s
follow_packed z e (some s) (b ∷ w) = follow_packed z e (packed_next z s (e.ec b)) w

-- The entry of a row is the same with either row for what is past the end.
entry_same :
    (sts : List DfaState) (n s c : ℕ)
    → get_or (get_or sts s (dead_state n)).next c none
      ≡ get_or (get_or sts s (dead_state 0)).next c none
entry_same sts n s c =
    ⊎_elim
      (λ lt.
        ap (λ (st : DfaState). get_or st.next c none)
          (get_or-default sts s (dead_state n) (dead_state 0) lt))
      (λ ge.
        ap (λ (st : DfaState). get_or st.next c none) (get_or-past sts s (dead_state n) ge)
        ∙ get_or-replicate n c none
        ∙ sym (ap (λ (st : DfaState). get_or st.next c none) (get_or-past sts s (dead_state 0) ge)))
      (before_or s (length sts))
  where
    before_or : (k m : ℕ) → (k < m) ⊎ (m ≤ k)
    before_or k m = ground arith

live-IsTarget :
    (n : ℕ) (o : Option ℕ)
    → IsTarget n o
    → (live o ≡ o) × ((o ≡ none) ⊎ (s : ℕ) × (o ≡ some (suc s)))
live-IsTarget n none h = (refl, inl refl)
live-IsTarget n (some zero) h = absurd (omega (arith, h))
live-IsTarget n (some (suc s)) h = (refl, inr (s, refl))

-- Over the table of a valid automaton, from any state but the dead one, the packed tables lead to the
-- same state as the rows, for every word.
pub follow_packed_same :
    (nfa : Nfa) (use_eclasses compute_meta : Bool) (d : Dfa) (w : Bytes) (s : ℕ)
    → IsValid nfa
    → build_dfa nfa use_eclasses compute_meta ≡ some d
    → follow_packed (compress_dfa d) d.eclasses (some (suc s)) w
      ≡ follow d.states d.eclasses (some (suc s)) w
follow_packed_same nfa use_eclasses compute_meta d [] s v h = refl
follow_packed_same nfa use_eclasses compute_meta d (b ∷ w) s v h =
    let c = d.eclasses.ec b in
    let o = get_or (get_or d.states (suc s) (dead_state 0)).next c none in
    let (_, _, target) = build_dfa-bounds nfa use_eclasses compute_meta d (suc s) c v h in
    let (same, cases) =
      live-IsTarget (length d.states) o
        (subst (IsTarget (length d.states)) (entry_same d.states d.nclasses (suc s) c) target) in
    let next : packed_next (compress_dfa d) (suc s) c ≡ o = compress_dfa-row d (suc s) c ∙ same in
    ap (λ x. follow_packed (compress_dfa d) d.eclasses x w) next
    ∙ ⊎_elim
        (λ e.
          ap (λ x. follow_packed (compress_dfa d) d.eclasses x w) e
          ∙ sym (ap (λ x. follow d.states d.eclasses x w) e))
        (λ (t, e).
          ap (λ x. follow_packed (compress_dfa d) d.eclasses x w) e
          ∙ follow_packed_same nfa use_eclasses compute_meta d w t v h
          ∙ sym (ap (λ x. follow d.states d.eclasses x w) e))
        cases
