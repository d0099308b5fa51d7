-- ===== src/Examples/Whole.antt =====
-- The theorem about the tables of a file, at the file with the one rule ab.
use lex_cpp.Prelude.{
  ◌≡◌, ◌+◌, ◌*◌, refl, ap, subst, List, [], ◌∷◌, some, none, Option, false, get_or, arith,
}
use lex_cpp.CharClass.{Message}
use lex_cpp.Chars.{Text}
use lex_cpp.Rules.{Nfa}
use lex_cpp.LexFile.{LexFile, no_file, no_loc}
use lex_cpp.Build.{Dfa}
use lex_cpp.Build.Walk.{follow}
use lex_cpp.Build.Starts.{no_dfa_start}
use lex_cpp.Driver.CommandLine.{full_ec}
use lex_cpp.ByteSet.{is_empty}
use lex_cpp.Pattern.{ParsedPattern, no_pattern, parse_pattern}
use lex_cpp.Chars.{lit_node}
use lex_cpp.LexFile.Scan.{starts_with}
use lex_cpp.Regex.Meaning.{HasBytes}
use lex_cpp.Driver.{
  Added, added, blank_nfa, build_nfa, build_tables, context_of, check_added, add_rules, add_one,
  sites_of, all_warnings, uses_reject, word_from,
}
use lex_cpp.Driver.Selects.{PatternsHaveBytes}
use lex_cpp.Driver.Correct.{build_tables-FirstRule, FirstRule, SelectedWith}

abbrev pub ab : Text
ab = b'a' ∷ b'b' ∷ []

abbrev pub file : LexFile
file = record no_file {
  rules =
      record {
        loc = no_loc;
        conds = [];
        any_state = false;
        pattern = ab;
        action = b';' ∷ [];
        eof = false;
      }
      ∷ [];
}

abbrev nfa_of : Added → Nfa
nfa_of (added n ms) = n
nfa_of _ = blank_nfa

abbrev messages_of : Added → List Message
messages_of (added n ms) = ms
messages_of _ = []

abbrev made : Nfa
made = nfa_of (build_nfa 4 file)

made_lem : build_nfa 4 file ≡ added made (messages_of (build_nfa 4 file))
unfolding build_nfa check_added add_rules add_one sites_of parse_pattern context_of lit_node
    all_warnings uses_reject word_from starts_with
made_lem = refl

abbrev pub tree_of : Option (ParsedPattern × List Message) → ParsedPattern
tree_of (some (pp, ms)) = pp
tree_of none = no_pattern

file-HasBytes : PatternsHaveBytes (context_of 4 file file.options.case_insensitive) file.rules
unfolding parse_pattern lit_node context_of is_empty
file-HasBytes = (
  λ ms ms' pp e.
      subst (λ (p : ParsedPattern). HasBytes p.tree) (ap (λ o. tree_of o) e) (refl, refl),
  tt,
)

build_tables-FirstRule_example :
    (d : Dfa) × (build_tables full_ec made ≡ some d)
    × FirstRule
        (SelectedWith 4 file (2 * 0) ab)
        d.states
        (follow d.states d.eclasses (some (get_or d.cond_starts 0 no_dfa_start).normal) ab)
    × FirstRule
        (SelectedWith 4 file (2 * 0 + 1) ab)
        d.states
        (follow d.states d.eclasses (some (get_or d.cond_starts 0 no_dfa_start).bol) ab)
build_tables-FirstRule_example =
    build_tables-FirstRule 4 file full_ec made (messages_of (build_nfa 4 file)) 0 ab file-HasBytes
      made_lem (omega arith) (omega arith)
