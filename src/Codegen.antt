-- ===== src/Codegen.antt =====
-- What src/codegen.cpp computes before it writes text: the numbers of the rules, the rules that share an
-- action, the end-of-file rule of each condition; and its #line directives.
pub mod Labels
pub mod Line
use lex_cpp.Prelude.{
  ◌++◌, ◌/◌, ◌%◌, ltb, ◌==◌, ◌||◌, ℕ, zero, suc, ◌+◌, ◌≤◌, ◌<◌, ◌≡◌, refl, sym, ap, subst, ◌∙◌,
  ⊎_elim, inl, inr, ◌⊎◌, List, [], ◌∷◌, length, get_or, Option, none, some, arith, Bool, true,
  false, Bool-cases, map, leb, if◌then◌else◌,
}
use lex_cpp.Chars.{Text, same_text}
use lex_cpp.Rules.{Nfa}
use lex_cpp.LexFile.{LexFile, Rule}

-- -1 in `nfa_id` is `none`.
pub record RuleMap : Type 0 where
  pub nfa_id : List (Option ℕ)
  pub total_nfa_rules : ℕ

-- The loop of `make_rule_map`, with `total` rules numbered before.
pub number_rules : ℕ → List Rule → RuleMap
number_rules total [] = record { nfa_id = []; total_nfa_rules = total }
number_rules total (r ∷ rs) = elim r.eof [
  | true ↦ let m = number_rules total rs in record m { nfa_id = none ∷ m.nfa_id }
  | false ↦ let m = number_rules (total + 1) rs in record m { nfa_id = some total ∷ m.nfa_id }
]

unfoldable pub make_rule_map : LexFile → RuleMap
unfolding number_rules
make_rule_map f = number_rules 0 f.rules

abbrev bar : Text
bar = b'|' ∷ []

-- The number of rules from the first on whose action is `|`.
pub leading_bars : List Rule → ℕ
leading_bars [] = 0
leading_bars (r ∷ rs) =
    let rest = leading_bars rs in elim (same_text r.action bar) [ true ↦ suc rest | false ↦ 0 ]

-- `resolve_pipe_targets`, from rule `i` on; `leading_bars` of all the rules left is their number.
pub targets_from : ℕ → List Rule → List ℕ
targets_from i [] = []
targets_from i (r ∷ rs) =
    let j = leading_bars (r ∷ rs) in
    let rest = targets_from (i + 1) rs in (if leb (length (r ∷ rs)) j then i else i + j) ∷ rest

unfoldable pub resolve_pipe_targets : LexFile → List ℕ
unfolding targets_from leading_bars
resolve_pipe_targets f = targets_from 0 f.rules

abbrev pub first_of : List ℕ → Option ℕ
first_of [] = none
first_of (r ∷ rs) = some r

-- `per_cond` of `emit_eof_dispatch`: the first rule for the end of the file in each of `k` conditions
-- from `c` on; -1 is `none`.
pub eof_per_cond : Nfa → ℕ → ℕ → List (Option ℕ)
eof_per_cond nfa zero c = []
eof_per_cond nfa (suc k) c = first_of (get_or nfa.eof_rules c []) ∷ eof_per_cond nfa k (c + 1)

-- `std::to_string` of a number below 2 ^ 32, which has ten digits at most; `acc` stands behind it.
pub digits_of : ℕ → ℕ → Text → Text
digits_of zero n acc = acc
digits_of (suc k) n acc =
    let rest = digits_of k (n / 10) ((b'0' + n % 10) ∷ acc) in
    if ltb n 10 then (b'0' + n % 10) ∷ acc else rest

abbrev pub quote_byte : ℕ
quote_byte = 34

abbrev pub backslash : ℕ
backslash = 92

-- The loop of `emit_line_directive`.
unfoldable pub escape_name : Text → Text
escape_name [] = []
escape_name (c ∷ s) =
    let rest = escape_name s in
    if c == backslash || c == quote_byte then backslash ∷ c ∷ rest else c ∷ rest

unfoldable pub emit_line_directive : Text → Text → ℕ → Bool → Text
unfolding digits_of
emit_line_directive out file line enabled =
    if enabled
    then out
      ++ ((b'#' ∷ b'l' ∷ b'i' ∷ b'n' ∷ b'e' ∷ b' ' ∷ [])
          ++ digits_of 10 line (b' ' ∷ quote_byte ∷ (escape_name file ++ quote_byte ∷ 10 ∷ [])))
    else out
