-- ===== src/Build/Starts.antt =====
-- The starts of the conditions in the table of `build_dfa`, src/dfa.cpp.
use lex_cpp.Prelude.{ℕ, zero, suc, ◌<◌, ◌≡◌, refl, ap, List, [], ◌∷◌, length, get_or, arith}
use lex_cpp.Nfa.{States}
use lex_cpp.Rules.{Nfa, CondStart, no_start}
use lex_cpp.Rules.Runs.{IsValid}
use lex_cpp.Dfa.{StateSet}
use lex_cpp.Build.{DfaStart}
use lex_cpp.Build.Seed.{StartsExist, StartAt, StartsAt}

-- The starts of a valid automaton are states of it.
pub IsValid-StartsExist : (nfa : Nfa) → IsValid nfa → StartsExist nfa.states nfa.cond_starts
IsValid-StartsExist nfa v = go nfa.cond_starts (λ k h.
    let e = v.numbered k h in
    (
      omega (arith, ap (λ (c : CondStart). c.normal) e, v.room, h),
      omega (arith, ap (λ (c : CondStart). c.bol) e, v.room, h),
    ))
  where
    go :
        (cs : List CondStart)
        → ((k : ℕ)
            → k < length cs
            → ((get_or cs k no_start).normal < length nfa.states)
              × ((get_or cs k no_start).bol < length nfa.states))
        → StartsExist nfa.states cs
    go [] h = tt
    go (c ∷ cs) h =
        let (a, b) = h 0 (omega arith) in (a, b, go cs (λ k lt. h (suc k) (omega arith)))

abbrev pub no_dfa_start : DfaStart
no_dfa_start = record { normal = 0; bol = 0 }

pub StartsAt-get :
    (ns : States) (sets : List StateSet) (cs : List CondStart) (ds : List DfaStart)
    → StartsAt ns sets cs ds
    → (length ds ≡ length cs)
      × ((k : ℕ)
          → k < length cs
          → StartAt ns sets (get_or cs k no_start).normal (get_or ds k no_dfa_start).normal
            × StartAt ns sets (get_or cs k no_start).bol (get_or ds k no_dfa_start).bol)
StartsAt-get ns sets [] [] s = (refl, λ k h. absurd (omega arith))
StartsAt-get ns sets [] (d ∷ ds) s = absurd s
StartsAt-get ns sets (c ∷ cs) [] s = absurd s
StartsAt-get ns sets (c ∷ cs) (d ∷ ds) (a, b, s) =
    let (len, at) = StartsAt-get ns sets cs ds s in (ap suc len, pick at)
  where
    pick :
        ((k : ℕ)
          → k < length cs
          → StartAt ns sets (get_or cs k no_start).normal (get_or ds k no_dfa_start).normal
            × StartAt ns sets (get_or cs k no_start).bol (get_or ds k no_dfa_start).bol)
        → (k : ℕ) → k < suc (length cs)
        → StartAt ns sets
            (get_or (c ∷ cs) k no_start).normal
            (get_or (d ∷ ds) k no_dfa_start).normal
          × StartAt ns sets (get_or (c ∷ cs) k no_start).bol (get_or (d ∷ ds) k no_dfa_start).bol
    pick at zero h = (a, b)
    pick at (suc k) h = at k (omega arith)
