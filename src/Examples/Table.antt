-- ===== src/Examples/Table.antt =====
-- The theorem about the table at the automaton of the rule ^ab+.
use lex_cpp.Prelude.{◌≡◌, ◌≤◌, ◌+◌, ◌^◌, [], length, some, none, false, true, get_or, arith}
use lex_cpp.Prelude.Int.{pos}
use lex_cpp.Rules.{Nfa, init_nfa, add_rule_to_nfa, no_start}
use lex_cpp.Rules.Accepts.{add_rule_to_nfa-IsValid}
use lex_cpp.Eclass.{identity_eclasses}
use lex_cpp.Eclass.Partition.{identity_eclasses-IsNumbered}
use lex_cpp.Build.{Dfa, build_dfa, dead_state, class_reps}
use lex_cpp.Build.Reps.{IsByteOf, class_reps-byte}
use lex_cpp.Build.Bounds.{IsTarget}
use lex_cpp.Pack.{compress_dfa}
use lex_cpp.Pack.Walk.{follow_packed, follow_packed_same}
use lex_cpp.Build.Walk.{follow}
use lex_cpp.Build.Verdict.{Verdict}
use lex_cpp.Build.Correct.{build_dfa-Verdict, build_dfa-bounds}
use lex_cpp.Build.Starts.{no_dfa_start}
use lex_cpp.Examples.{
  initial, rule, everywhere, initial-IsValid, rule-HasBytes, initial-InRange, abb,
}

abbrev one_rule : Nfa
one_rule = add_rule_to_nfa initial rule 0 everywhere (pos 0)

build_dfa-Verdict_example :
    (d : Dfa) × (build_dfa one_rule true false ≡ some d)
    × Verdict one_rule d.states
        (get_or one_rule.cond_starts 0 no_start).normal
        abb
        (follow d.states d.eclasses (some (get_or d.cond_starts 0 no_dfa_start).normal) abb)
    × Verdict one_rule d.states
        (get_or one_rule.cond_starts 0 no_start).bol
        abb
        (follow d.states d.eclasses (some (get_or d.cond_starts 0 no_dfa_start).bol) abb)
unfolding init_nfa add_rule_to_nfa
build_dfa-Verdict_example =
    build_dfa-Verdict one_rule true false 0 abb
      (add_rule_to_nfa-IsValid initial rule 0 everywhere (pos 0) initial-IsValid rule-HasBytes
        initial-InRange)
      (omega arith) (omega arith)

-- The table of the rule, whatever it is.
made : (d : Dfa) × (build_dfa one_rule true false ≡ some d)
unfolding init_nfa add_rule_to_nfa
made =
    let v =
      add_rule_to_nfa-IsValid initial rule 0 everywhere (pos 0) initial-IsValid rule-HasBytes
        initial-InRange in
    let (d, e, _, _) = build_dfa-Verdict one_rule true false 0 [] v (omega arith) tt in (d, e)

build_dfa-bounds_example :
    (length made.0.states ≤ 1 + 2 ^ length one_rule.states)
    × (length (get_or made.0.states 1 (dead_state made.0.nclasses)).next ≡ made.0.nclasses)
    × IsTarget
        (length made.0.states)
        (get_or (get_or made.0.states 1 (dead_state made.0.nclasses)).next 0 none)
build_dfa-bounds_example =
    build_dfa-bounds one_rule true false made.0 1 0
      (add_rule_to_nfa-IsValid initial rule 0 everywhere (pos 0) initial-IsValid rule-HasBytes
        initial-InRange)
      made.1

class_reps-byte_example :
    IsByteOf identity_eclasses 97 (get_or (class_reps identity_eclasses) 97 256)
unfolding identity_eclasses
class_reps-byte_example =
    class_reps-byte identity_eclasses identity_eclasses-IsNumbered 97 (omega arith)

follow_packed_same_example :
    follow_packed (compress_dfa made.0) made.0.eclasses (some 1) abb
    ≡ follow made.0.states made.0.eclasses (some 1) abb
follow_packed_same_example =
    follow_packed_same one_rule true false made.0 abb 0
      (add_rule_to_nfa-IsValid initial rule 0 everywhere (pos 0) initial-IsValid rule-HasBytes
        initial-InRange)
      made.1
