-- ===== src/Driver/Correct.antt =====
-- From the rules of a file to the table, through the loops of `core_main` in src/main.cpp.
use lex_cpp.Prelude.{
  ℕ, suc, ◌+◌, ◌*◌, ◌<◌, ◌≡◌, ◌↔◌, refl, ap, subst, ◌∙◌, ⊎_elim, List, [], ◌∷◌, length, get_or, map,
  Option, none, some, inr, arith, Bool, true, false, not, ◌&&◌, if_both,
}
use lex_cpp.Regex.Language.{Bytes}
use lex_cpp.CharClass.{Message}
use lex_cpp.Options.{StartCond}
use lex_cpp.Chars.{Text}
use lex_cpp.Rules.{Nfa, CondStart, init_nfa}
use lex_cpp.Rules.Runs.{IsValid, Accepts}
use lex_cpp.Rules.Init.{init_nfa-IsValid}
use lex_cpp.Dfa.Accept.{IsLeast, iff-IsLeast}
use lex_cpp.Build.{DfaState, Dfa, dead_state}
use lex_cpp.Build.Walk.{follow, AreBytes}
use lex_cpp.Build.Verdict.{Verdict, Wins}
use lex_cpp.Build.Correct.{build_dfa-Verdict}
use lex_cpp.Build.Starts.{no_dfa_start}
use lex_cpp.LexFile.{LexFile}
use lex_cpp.Driver.CommandLine.{CompressMode}
use lex_cpp.Driver.{
  Added, no_fuel, failed, added, initial_name, blank_nfa, first_nfa, context_of, check_added,
  all_warnings, any_variable, uses_reject, build_nfa, uses_classes, uses_meta, build_tables,
}
use lex_cpp.Driver.Selects.{Selects, PatternsHaveBytes, not_added}
use lex_cpp.Driver.Names.{cond_ids-Knows, put-Knows, empty-Knows}
use lex_cpp.Driver.Marked.{AcceptsWith, HasConds, Known}
use lex_cpp.Driver.Extended.{add_rules-Extended}

-- The names of the conditions, INITIAL first, and which are exclusive.
abbrev pub names_of : LexFile → List Text
names_of f = initial_name ∷ map (λ (sc : StartCond). sc.name) f.conds

abbrev pub flags_of : LexFile → List Bool
flags_of f = false ∷ map (λ (sc : StartCond). sc.exclusive) f.conds

length-map_names :
    (scs : List StartCond) → length (map (λ (sc : StartCond). sc.name) scs) ≡ length scs
length-map_names [] = refl
length-map_names (sc ∷ scs) = ap suc (length-map_names scs)

first_nfa-IsValid :
    (f : LexFile)
    → IsValid (first_nfa f)
      × HasConds (first_nfa f) (names_of f) (flags_of f)
      × ((q : ℕ) (w : Bytes) (r : ℕ) → ¬ Accepts (first_nfa f).states q w r)
unfolding first_nfa init_nfa
first_nfa-IsValid f =
    let (v, len, none_yet) = init_nfa-IsValid blank_nfa (names_of f) (flags_of f) in
    (v, (len, refl), none_yet)

context-Known : (fuel : ℕ) (f : LexFile) (ci : Bool) → Known (context_of fuel f ci) (names_of f)
unfolding context_of
context-Known fuel f ci =
    cond_ids-Knows f.conds 1 (initial_name ∷ []) ((initial_name, 0) ∷ []) refl
      (put-Knows [] [] initial_name empty-Knows)

check_added-added :
    (b : Bool) (o : Added) (n : Nfa) (ms : List Message)
    → check_added b o ≡ added n ms
    → o ≡ added n ms
unfolding check_added
check_added-added b no_fuel n ms = λ h. h
check_added-added b (failed m ms') n ms = λ h. h
check_added-added b (added n' ms') n ms =
    if_both (λ (o : Added). o ≡ added n ms → added n' ms' ≡ added n ms) (not (all_warnings ms'))
      (λ _ h. absurd (not_added h))
      (λ _.
        if_both (λ (o : Added). o ≡ added n ms → added n' ms' ≡ added n ms)
          (b && any_variable n'.rule_trail) (λ _ h. absurd (not_added h)) (λ _ h. h))

-- Rule `j` of the file is selected at the start state `q` after the word, and has the number `k`.
abbrev pub SelectsIn : ℕ → LexFile → ℕ → Bytes → Bool → ℕ → ℕ → Type 0
SelectsIn fuel f q w eol j k =
    Selects (context_of fuel f f.options.case_insensitive) (names_of f) (flags_of f) q w eol [] 0 0
      f.rules j k

-- Some rule of the file with the number `k`, with or without $, is selected.
abbrev pub SelectedWith : ℕ → LexFile → ℕ → Bytes → Bool → ℕ → Type 0
SelectedWith fuel f q w eol k = (j : ℕ) × SelectsIn fuel f q w eol j k

-- The automaton of a file accepts at the start of a condition what the rules of the file say.
build_nfa-Selects :
    (fuel : ℕ) (f : LexFile) (nfa : Nfa) (ms : List Message)
    → PatternsHaveBytes (context_of fuel f f.options.case_insensitive) f.rules
    → build_nfa fuel f ≡ added nfa ms
    → IsValid nfa
      × (length nfa.cond_starts ≡ suc (length f.conds))
      × ((q : ℕ) (w : Bytes) (eol : Bool) (k : ℕ)
          → q < 2 * suc (length f.conds)
          → AcceptsWith nfa q w eol k ↔ SelectedWith fuel f q w eol k)
unfolding build_nfa
build_nfa-Selects fuel f nfa ms bytes h =
    let x = context_of fuel f f.options.case_insensitive in
    let (v, conds, none_yet) = first_nfa-IsValid f in
    let len = length-map_names f.conds in
    let (v', conds', accepts) =
      add_rules-Extended x (names_of f) (flags_of f)
        (context-Known fuel f f.options.case_insensitive) f.rules 0 0 (first_nfa f) [] nfa ms v
        conds (λ q w k lt a. absurd (none_yet q w k a)) bytes
        (check_added-added (uses_reject f.rules) _ nfa ms h) in
    (
      v',
      conds'.0 ∙ ap suc len,
      λ q w eol k lt.
          let (to, from) = accepts q w eol k (omega (arith, len, lt)) in
          (λ a. ⊎_elim (λ old. absurd (none_yet q w k old.0)) (λ s. s) (to a), λ s. from (inr s)),
    )

-- No state if no rule is selected after the word; or a state for the first rule that is.
abbrev pub FirstRule : (Bool → ℕ → Type 0) → List DfaState → Option ℕ → Type 0
FirstRule P sts none = (eol : Bool) (k : ℕ) → P eol k → ⊥
FirstRule P sts (some s) =
    IsLeast (P false) (get_or sts s (dead_state 0)).accept_normal
    × IsLeast (P true) (get_or sts s (dead_state 0)).accept_eol

Verdict-FirstRule :
    (nfa : Nfa) (sts : List DfaState) (q : ℕ) (w : Bytes) (S : Bool → ℕ → Type 0) (o : Option ℕ)
    → ((eol : Bool) (k : ℕ) → AcceptsWith nfa q w eol k ↔ S eol k)
    → Verdict nfa sts q w o
    → FirstRule S sts o
Verdict-FirstRule nfa sts q w S none iff v =
    λ eol k s. let ((e, run, a), _) = (iff eol k).1 s in v e run
Verdict-FirstRule nfa sts q w S (some s) iff (normal, eol) = (
  iff-IsLeast (Wins nfa q w false) _ _ (iff false) normal,
  iff-IsLeast (Wins nfa q w true) _ _ (iff true) eol,
)

-- Where the rules of a file make an automaton and no class in a pattern is empty, its tables are made
-- in every mode. From the start of each condition, at the begin of a line or not, and over each word
-- of bytes, the table ends in no state only if no rule of the file is selected after the word, and
-- otherwise in a state for the first rule without $ that is selected, or none if there is none; and
-- the same of the rules with $. A rule with a pattern is selected if it belongs to the condition by its
-- list of names, for a rule with ^ at the begin of a line only, and the body of its tree, less the
-- anchors, matches the word; the rules with patterns are numbered in the order of the file.
pub build_tables-FirstRule :
    (fuel : ℕ) (f : LexFile) (mode : CompressMode) (nfa : Nfa) (ms : List Message) (c : ℕ)
    (w : Bytes)
    → PatternsHaveBytes (context_of fuel f f.options.case_insensitive) f.rules
    → build_nfa fuel f ≡ added nfa ms
    → c < suc (length f.conds)
    → AreBytes w
    → (d : Dfa) × (build_tables mode nfa ≡ some d)
      × FirstRule
          (SelectedWith fuel f (2 * c) w)
          d.states
          (follow d.states d.eclasses (some (get_or d.cond_starts c no_dfa_start).normal) w)
      × FirstRule
          (SelectedWith fuel f (2 * c + 1) w)
          d.states
          (follow d.states d.eclasses (some (get_or d.cond_starts c no_dfa_start).bol) w)
unfolding build_tables
build_tables-FirstRule fuel f mode nfa ms c w bytes h lt bs =
    let (v, len, accepts) = build_nfa-Selects fuel f nfa ms bytes h in
    let lt' : c < length nfa.cond_starts = omega (arith, len, lt) in
    let num = v.numbered c lt' in
    let (d, e, normal, bol) =
      build_dfa-Verdict nfa (uses_classes mode) (uses_meta mode) c w v lt' bs in
    (
      d,
      e,
      Verdict-FirstRule nfa d.states (2 * c) w (SelectedWith fuel f (2 * c) w) _
          (λ b k. accepts (2 * c) w b k (omega (arith, lt)))
          (subst
            (λ q.
              Verdict nfa d.states q w
                (follow d.states d.eclasses (some (get_or d.cond_starts c no_dfa_start).normal) w))
            (ap (λ (s : CondStart). s.normal) num) normal),
      Verdict-FirstRule nfa d.states (2 * c + 1) w (SelectedWith fuel f (2 * c + 1) w) _
          (λ b k. accepts (2 * c + 1) w b k (omega (arith, lt)))
          (subst
            (λ q.
              Verdict nfa d.states q w
                (follow d.states d.eclasses (some (get_or d.cond_starts c no_dfa_start).bol) w))
            (ap (λ (s : CondStart). s.bol) num) bol),
    )
