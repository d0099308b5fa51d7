-- ===== src/Build/Verdict.antt =====
-- What a state of the table of `build_dfa`, src/dfa.cpp, says of a word.
use lex_cpp.Prelude.{
  ℕ, ◌≡◌, ◌↔◌, refl, sym, subst, List, [], ◌∷◌, get_or, Option, none, some, Memᴰ, Bool, true, false,
}
use mathlib.Core.List.Memᴰ
use lex_cpp.Nfa.Graph.{Run}
use lex_cpp.Regex.Language.{Bytes}
use lex_cpp.Rules.{Nfa}
use lex_cpp.Rules.Runs.{Accepts}
use lex_cpp.Dfa.Accept.{IsLeast, Offers, iff-IsLeast, accept_for-IsLeast}
use lex_cpp.Build.{DfaState, dead_state}
use lex_cpp.Build.Walk.{Stands}

-- A rule, with or without `$`, that the automaton accepts after the word.
abbrev pub Wins : Nfa → ℕ → Bytes → Bool → ℕ → Type 0
Wins nfa q0 w eol r = Accepts nfa.states q0 w r × (get_or nfa.rule_eol r false ≡ eol)

-- No state is for a word that no run reads, a state for the first of the rules that are accepted.
abbrev pub Verdict : Nfa → List DfaState → ℕ → Bytes → Option ℕ → Type 0
Verdict nfa sts q0 w none = (q : ℕ) → Run nfa.states q0 w q → ⊥
Verdict nfa sts q0 w (some s) =
    IsLeast (Wins nfa q0 w false) (get_or sts s (dead_state 0)).accept_normal
    × IsLeast (Wins nfa q0 w true) (get_or sts s (dead_state 0)).accept_eol

pub Stands-Verdict :
    (nfa : Nfa) (sts : List DfaState) (q0 : ℕ) (w : Bytes) (o : Option ℕ)
    → Stands nfa sts (q0 ∷ []) w o
    → Verdict nfa sts q0 w o
Stands-Verdict nfa sts q0 w none h = λ q run. h q (q0, Memᴰ.head refl, run)
Stands-Verdict nfa sts q0 w (some s) (ss, same, l) =
    let (normal, eol) = accept_for-IsLeast nfa ss in
    (
      subst (IsLeast (Wins nfa q0 w false)) (sym l.normal) (iff-IsLeast _ _ _ (wins false) normal),
      subst (IsLeast (Wins nfa q0 w true)) (sym l.eol) (iff-IsLeast _ _ _ (wins true) eol),
    )
  where
    wins : (b : Bool) (r : ℕ) → Offers nfa ss b r ↔ Wins nfa q0 w b r
    wins b r = (
      λ (m, e).
          let (q, mq, a) = m in
          let (s0, m0, run) = (same q).0 mq in
          ((q, subst (λ k. Run nfa.states k w q) (Memᴰ.eq_of_singleton m0) run, a), e),
      λ ((q, run, a), e). ((q, (same q).1 (q0, Memᴰ.head refl, run), a), e),
    )
