-- ===== src/Driver.antt =====
-- `core_main` of src/main.cpp without its files: the text that is parsed, and the automaton that is made
-- of the rules.
pub mod CommandLine
pub mod Normal
pub mod Selects
pub mod Names
pub mod Marked
pub mod Extended
pub mod Correct
use lex_cpp.Prelude.{
  ℕ, zero, suc, ◌+◌, ◌-◌, Bool, true, false, ◌&&◌, ◌||◌, not, List, [], ◌∷◌, ◌++◌, length, get_or,
  map, ◌==◌, if◌then◌else◌, Option, none, some,
}
use lex_cpp.Prelude.Int.{ℤ, pos, is_neg}
use lex_cpp.Regex.{Node, null}
use lex_cpp.Chars.{Text, peek, at_end, is_alnum, same_text}
use lex_cpp.CharClass.{Message, dangerous_trail, unknown_posix}
use lex_cpp.Pattern.{ParsedPattern, parse_pattern, drop_text}
use lex_cpp.Options.{StartCond, Options}
use lex_cpp.Rules.{Nfa, RuleSites, init_nfa, add_rule_to_nfa, add_eof_rule}
use lex_cpp.Build.{Dfa, build_dfa}
use lex_cpp.LexFile.{LexFile, Rule}
use lex_cpp.LexFile.Scan.{starts_with}
use lex_cpp.Driver.CommandLine.{Args, CompressMode, full, full_ec, packed}

-- `normalise_source`
unfoldable pub strip_bom : Text → Text
strip_bom s = if peek s 0 == 0xef && peek s 1 == 0xbb && peek s 2 == 0xbf then drop_text 3 s else s

unfoldable pub collapse_crlf : Text → Text
collapse_crlf [] = []
collapse_crlf (c ∷ []) = c ∷ []
collapse_crlf (c ∷ d ∷ s) =
    let rest = collapse_crlf (d ∷ s) in if c == 13 && d == 10 then rest else c ∷ rest

unfoldable pub normalise_source : Text → Text
normalise_source s = collapse_crlf (strip_bom s)

-- A newline behind a text that is not empty and does not end in one.
unfoldable pub end_line : Text → Text
end_line [] = []
end_line (c ∷ []) = if c == 10 then c ∷ [] else c ∷ 10 ∷ []
end_line (c ∷ d ∷ s) = c ∷ end_line (d ∷ s)

-- The files one after another.
unfoldable pub join_sources : Text → List Text → Text
join_sources source [] = source
join_sources source (chunk ∷ chunks) = join_sources (end_line source ++ chunk) chunks

-- The command line overrides the options of the file.
unfoldable pub override_options : Args → Options → Options
override_options a o = record o {
  case_insensitive = a.case_insensitive || o.case_insensitive;
  yylineno = a.yylineno || o.yylineno;
  nodefault = a.nodefault || o.nodefault;
  debug = a.debug || o.debug;
  prefix = if a.prefix_set then a.prefix else o.prefix;
}

abbrev pub is_word_byte : ℕ → Bool
is_word_byte c = is_alnum c || c == b'_'

-- `contains_word`: `skip` bytes of an occurrence that was no whole word are left; `prev` is the byte
-- before the text, 0 at the start.
unfoldable pub word_from : Text → ℕ → ℕ → Text → Bool
word_from word skip prev [] = false
word_from word (suc skip) prev (c ∷ s) = word_from word skip c s
word_from word zero prev (c ∷ s) = elim (starts_with word (c ∷ s)) [
  | false ↦ word_from word 0 c s
  | true ↦
      elim (not (is_word_byte prev)
        && not (is_word_byte (peek (drop_text (length word) (c ∷ s)) 0))) [
          | true ↦ true
          | false ↦ word_from word (length word - 1) c s
        ]
]

abbrev pub contains_word : Text → Text → Bool
contains_word s word = word_from word 0 0 s

abbrev pub reject_word : Text
reject_word = b'R' ∷ b'E' ∷ b'J' ∷ b'E' ∷ b'C' ∷ b'T' ∷ []

unfoldable pub uses_reject : List Rule → Bool
uses_reject [] = false
uses_reject (r ∷ rs) =
    let rest = uses_reject rs in if contains_word r.action reject_word then true else rest

-- The maps of the source; the entry that was put last stands first.
unfoldable pub lookup_text {ℓ} : {A : Type ℓ} → Text → List (Text × A) → Option A
lookup_text k [] = none
lookup_text k ((j, v) ∷ m) = let rest = lookup_text k m in if same_text j k then some v else rest

abbrev pub initial_name : Text
initial_name = b'I' ∷ b'N' ∷ b'I' ∷ b'T' ∷ b'I' ∷ b'A' ∷ b'L' ∷ []

-- `cond_id`, with the id of the next condition.
unfoldable pub cond_ids : ℕ → List StartCond → List (Text × ℕ) → List (Text × ℕ)
cond_ids n [] m = m
cond_ids n (sc ∷ scs) m = cond_ids (n + 1) scs ((sc.name, n) ∷ m)

unfoldable pub last_defs : List (Text × Text) → List (Text × Text) → List (Text × Text)
last_defs [] m = m
last_defs (d ∷ ds) m = last_defs ds (d ∷ m)

-- The lambda `resolver`.
unfoldable pub resolver : List (Text × Text) → Text → Option Text
resolver defs name = elim (lookup_text name defs) [
  | none ↦ none
  | some body ↦ some (b'(' ∷ (body ++ b')' ∷ []))
]

-- The conditions of a rule, or the name that is none.
pub data Sites : Type 0 where
  sites : List ℕ → Sites
  unknown_name : Text → Sites

abbrev pub put_site : ℕ → Sites → Sites
put_site c (sites cs) = sites (c ∷ cs)
put_site c (unknown_name n) = unknown_name n

unfoldable pub sites_of : List (Text × ℕ) → List Text → Sites
sites_of ids [] = sites []
sites_of ids (n ∷ ns) = elim (lookup_text n ids) [
  | none ↦ unknown_name n
  | some c ↦ put_site c (sites_of ids ns)
]

pub data DriverMessage : Type 0 where
  unknown_cond bad_pattern : Text → DriverMessage
  reject_trail parser_error : DriverMessage

-- What the loop over the rules ends with: fuel ran out in a pattern, an error, the automaton.
pub data Added : Type 0 where
  no_fuel : Added
  failed : DriverMessage → List Message → Added
  added : Nfa → List Message → Added

-- The surroundings of a rule, which no rule changes.
pub record Context : Type 0 where
  pub fuel : ℕ
  pub ids : List (Text × ℕ)
  pub macros : Text → Option Text
  pub ci : Bool

abbrev pub is_null_tree : Node → Bool
is_null_tree null = true
is_null_tree _ = false

-- One round of the loop: the rule with index `i` of the file and, if it has a pattern, `id` of the
-- automaton.
unfoldable pub add_one : Context → ℕ → ℕ → Rule → Nfa → List Message → Added
add_one x i id r nfa ms = elim (sites_of x.ids r.conds) [
  | unknown_name n ↦ failed (unknown_cond n) ms
  | sites cs ↦
      let at : RuleSites = record { conds = cs; any_state = r.any_state } in
      elim r.eof [
        | true ↦ added (add_eof_rule nfa i at) ms
        | false ↦ elim (parse_pattern x.fuel x.macros x.ci r.pattern ms) [
          | none ↦ no_fuel
          | some (pp, ms') ↦ elim (is_null_tree pp.tree) [
            | true ↦ failed (bad_pattern r.pattern) ms'
            | false ↦ added (add_rule_to_nfa nfa pp.tree id at pp.trail_len) ms'
          ]
        ]
      ]
]

unfoldable pub add_rules : Context → ℕ → ℕ → List Rule → Nfa → List Message → Added
add_rules x i id [] nfa ms = added nfa ms
add_rules x i id (r ∷ rs) nfa ms = elim (add_one x i id r nfa ms) [
  | no_fuel ↦ no_fuel
  | failed m ms' ↦ failed m ms'
  | added nfa' ms' ↦ add_rules x (i + 1) (if r.eof then id else id + 1) rs nfa' ms'
]

-- `diag.ok()`: two messages of the parser are warnings.
abbrev pub is_warning : Message → Bool
is_warning dangerous_trail = true
is_warning (unknown_posix n) = true
is_warning _ = false

unfoldable pub all_warnings : List Message → Bool
all_warnings [] = true
all_warnings (m ∷ ms) = let rest = all_warnings ms in if is_warning m then rest else false

unfoldable pub any_variable : List ℤ → Bool
any_variable [] = false
any_variable (t ∷ ts) = let rest = any_variable ts in if is_neg t then true else rest

abbrev pub blank_nfa : Nfa
blank_nfa = record {
  states = [];
  cond_starts = [];
  cond_names = [];
  cond_excl = [];
  rule_bol = [];
  rule_eol = [];
  rule_trail = [];
  eof_rules = [];
  rule_boundary_states = [];
}

-- INITIAL and the conditions of the file.
unfoldable pub first_nfa : LexFile → Nfa
first_nfa f =
    init_nfa blank_nfa (initial_name ∷ map (λ (sc : StartCond). sc.name) f.conds)
      (false ∷ map (λ (sc : StartCond). sc.exclusive) f.conds)

unfoldable pub context_of : ℕ → LexFile → Bool → Context
context_of fuel f ci = record {
  fuel = fuel;
  ids = cond_ids 1 f.conds ((initial_name, 0) ∷ []);
  macros = resolver (last_defs f.defs []);
  ci = ci;
}

-- The tests behind the loop.
unfoldable pub check_added : Bool → Added → Added
check_added rejects no_fuel = no_fuel
check_added rejects (failed m ms) = failed m ms
check_added rejects (added nfa ms) =
    if not (all_warnings ms)
    then failed parser_error ms
    else if rejects && any_variable nfa.rule_trail
    then failed reject_trail ms
    else added nfa ms

-- The automaton of a file whose options are those of the run.
unfoldable pub build_nfa : ℕ → LexFile → Added
build_nfa fuel f =
    check_added (uses_reject f.rules)
      (add_rules (context_of fuel f f.options.case_insensitive) 0 0 f.rules (first_nfa f) [])

abbrev pub uses_classes : CompressMode → Bool
uses_classes full = false
uses_classes _ = true

abbrev pub uses_meta : CompressMode → Bool
uses_meta packed = true
uses_meta _ = false

unfoldable pub build_tables : CompressMode → Nfa → Option Dfa
build_tables mode nfa = build_dfa nfa (uses_classes mode) (uses_meta mode)

-- `hpath.find_last_of('.')`: the path with `.h` for what stands from the last dot on; `none` without one.
unfoldable pub replace_suffix : Text → Option Text
replace_suffix [] = none
replace_suffix (c ∷ s) = elim (replace_suffix s) [
  | some t ↦ some (c ∷ t)
  | none ↦ if c == b'.' then some (b'.' ∷ b'h' ∷ []) else none
]

-- The path of the header, for the output path of a run with `--header-file` and no path.
unfoldable pub header_of : Text → Text
header_of [] = b'l' ∷ b'e' ∷ b'x' ∷ b'.' ∷ b'y' ∷ b'y' ∷ b'.' ∷ b'h' ∷ []
header_of (c ∷ s) = elim (replace_suffix (c ∷ s)) [
  | some t ↦ t
  | none ↦ c ∷ (s ++ b'.' ∷ b'h' ∷ [])
]
