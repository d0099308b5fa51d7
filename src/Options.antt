-- ===== src/Options.antt =====
-- The `%option` and `%s` lines of src/source.cpp: `parse_options`, `apply_option`, `add_start_conds`.
pub mod Conds
use lex_cpp.Prelude.{
  ℕ, zero, suc, Bool, true, false, ◌&&◌, ◌||◌, not, List, [], ◌∷◌, ◌++◌, length, ◌==◌,
  if◌then◌else◌, Option, none, some,
}
use lex_cpp.Chars.{Text, at_end, is_alnum, is_between, same_text}
use lex_cpp.OptionNames.{
  key_noyywrap, key_yywrap, key_yylineno, key_noyylineno, key_case_insensitive, key_caseless, key_i,
  key_case_sensitive, key_nocaseless, key_nodefault, key_s, key_default, key_debug, key_d,
  key_nodebug, key_prefix, key_reentrant, key_noreentrant, key_bison_bridge, key_bison_locations,
  key_extra_type, key_array, key_pointer, key_noyyalloc, key_noyyrealloc, key_noyyfree, key_cpp,
  key_lex_compat, key_posix_compat, key_header, ignored_options,
}

pub record StartCond : Type 0 where
  pub name : Text
  pub exclusive : Bool

-- `LexFile::Options`, less `uses_reject`, which no option sets.
pub record Options : Type 0 where
  pub noyywrap : Bool
  pub yylineno : Bool
  pub case_insensitive : Bool
  pub nodefault : Bool
  pub debug : Bool
  pub reentrant : Bool
  pub bison_bridge : Bool
  pub bison_locations : Bool
  pub array : Bool
  pub noyyalloc : Bool
  pub noyyrealloc : Bool
  pub noyyfree : Bool
  pub prefix : Text
  pub extra_type : Text

abbrev pub default_options : Options
default_options = record {
  noyywrap = false;
  yylineno = false;
  case_insensitive = false;
  nodefault = false;
  debug = false;
  reentrant = false;
  bison_bridge = false;
  bison_locations = false;
  array = false;
  noyyalloc = false;
  noyyrealloc = false;
  noyyfree = false;
  prefix = b'y' ∷ b'y' ∷ [];
  extra_type = [];
}

-- The messages, with the key that they quote.
pub data OptionMessage : Type 0 where
  unsupported_option unknown_option : Text → OptionMessage

pub record OptionState : Type 0 where
  pub options : Options
  pub messages : List OptionMessage

-- `is_in`, and the loop over `kIgnored`.
pub is_in : Text → List Text → Bool
unfolding same_text
is_in k [] = false
is_in k (t ∷ ts) = same_text k t || is_in k ts

abbrev pub is_known_ignored_option : Text → Bool
is_known_ignored_option k = is_in k ignored_options

-- The text before the first `=`, and the text behind it, empty if there is none.
pub split_at_equals : Text → Text × Text
split_at_equals [] = ([], [])
split_at_equals (c ∷ s) =
    let (key, val) = split_at_equals s in if c == b'=' then ([], s) else (c ∷ key, val)

-- The text less its last byte, if that is a quote.
pub drop_last_quote : Text → Option Text
drop_last_quote [] = none
drop_last_quote (c ∷ []) = if c == b'"' then some [] else none
drop_last_quote (c ∷ c' ∷ s) = elim (drop_last_quote (c' ∷ s)) [
  | none ↦ none
  | some t ↦ some (c ∷ t)
]

-- `val` without the quotes around it.
pub unquote : Text → Text
unfolding drop_last_quote
unquote [] = []
unquote (c ∷ s) =
    if c == b'"' then elim (drop_last_quote s) [ none ↦ c ∷ s | some t ↦ t ] else c ∷ s

-- The options that change a field; `none` is another key.
pub set_option : Text → Text → Options → Option Options
unfolding is_in same_text
set_option key val o =
    if same_text key key_noyywrap
    then some (record o { noyywrap = true })
    else if same_text key key_yywrap
    then some (record o { noyywrap = false })
    else if same_text key key_yylineno
    then some (record o { yylineno = true })
    else if same_text key key_noyylineno
    then some (record o { yylineno = false })
    else if is_in key (key_case_insensitive ∷ key_caseless ∷ key_i ∷ [])
    then some (record o { case_insensitive = true })
    else if is_in key (key_case_sensitive ∷ key_nocaseless ∷ [])
    then some (record o { case_insensitive = false })
    else if is_in key (key_nodefault ∷ key_s ∷ [])
    then some (record o { nodefault = true })
    else if same_text key key_default
    then some (record o { nodefault = false })
    else if is_in key (key_debug ∷ key_d ∷ [])
    then some (record o { debug = true })
    else if same_text key key_nodebug
    then some (record o { debug = false })
    else if same_text key key_prefix
    then some (record o { prefix = val })
    else if same_text key key_reentrant
    then some (record o { reentrant = true })
    else if same_text key key_noreentrant
    then some (record o { reentrant = false })
    else if same_text key key_bison_bridge
    then some (record o { bison_bridge = true })
    else if same_text key key_bison_locations
    then some (record o { bison_locations = true })
    else if same_text key key_extra_type
    then some (record o { extra_type = val })
    else if same_text key key_array
    then some (record o { array = true })
    else if same_text key key_pointer
    then some (record o { array = false })
    else if same_text key key_noyyalloc
    then some (record o { noyyalloc = true })
    else if same_text key key_noyyrealloc
    then some (record o { noyyrealloc = true })
    else if same_text key key_noyyfree
    then some (record o { noyyfree = true })
    else none

unfoldable pub apply_option : Text → OptionState → OptionState
unfolding set_option split_at_equals unquote is_in
apply_option tok z =
    let (key, raw) = split_at_equals tok in
    elim (set_option key (unquote raw) z.options) [
      | some o ↦ record z { options = o }
      | none ↦
          if is_in key (key_cpp ∷ key_lex_compat ∷ key_posix_compat ∷ key_header ∷ [])
          then record z { messages = z.messages ++ unsupported_option key ∷ [] }
          else if is_known_ignored_option key
          then z
          else record z { messages = z.messages ++ unknown_option key ∷ [] }
    ]

abbrev pub is_blank : ℕ → Bool
is_blank c = c == b' ' || c == 9

unfoldable pub skip_while : (ℕ → Bool) → Text → Text
skip_while test [] = []
skip_while test (c ∷ s) = let rest = skip_while test s in if test c then rest else c ∷ s

pub before : ℕ → Text × Text → Text × Text
before c (tok, rest) = (c ∷ tok, rest)

-- What a byte of a token does: end it, keep the next byte too, or open or close a quote.
pub data TokenTurn : Type 0 where
  end_token keep_two : TokenTurn
  keep : Bool → TokenTurn

pub token_turn : Bool → ℕ → TokenTurn
token_turn false c = if is_blank c then end_token else keep (c == b'"')
token_turn true c = if c == b'\\' then keep_two else keep (not (c == b'"'))

-- A token and the text behind it; the Boolean tells that a quote is open.
pub read_token : Bool → Text → Text × Text
unfolding before token_turn
read_token quoted [] = ([], [])
read_token quoted (c ∷ []) = elim (token_turn quoted c) [
  | end_token ↦ ([], c ∷ [])
  | keep_two ↦ (c ∷ [], [])
  | keep q ↦ (c ∷ [], [])
]
read_token quoted (c ∷ d ∷ s) = elim (token_turn quoted c) [
  | end_token ↦ ([], c ∷ d ∷ s)
  | keep_two ↦ before c (before d (read_token quoted s))
  | keep q ↦ before c (read_token q (d ∷ s))
]

-- The loop of `parse_options`. Each turn takes a byte, so that as many turns as there are bytes are
-- enough.
pub options_loop : ℕ → Text → OptionState → OptionState
unfolding skip_while read_token apply_option at_end
options_loop zero text z = z
options_loop (suc k) text z =
    let (tok, rest) = read_token false (skip_while is_blank text) in
    let more = options_loop k rest (apply_option tok z) in
    if at_end (skip_while is_blank text) then z else more

unfoldable pub parse_options : Text → OptionState → OptionState
unfolding options_loop
parse_options text z = options_loop (length text) text z

-- `std::isspace` in the C locale.
abbrev pub is_space : ℕ → Bool
is_space c = c == b' ' || is_between 9 13 c

abbrev pub is_cond_char : ℕ → Bool
is_cond_char c = is_alnum c || c == b'_'

unfoldable pub take_while : (ℕ → Bool) → Text → Text
take_while test [] = []
take_while test (c ∷ s) = let rest = take_while test s in if test c then c ∷ rest else []

-- The loop of `add_start_conds`, at most `k` names.
pub conds_loop : ℕ → Text → Bool → List StartCond → List StartCond
unfolding skip_while take_while at_end
conds_loop zero text exclusive conds = conds
conds_loop (suc k) text exclusive conds =
    let s = skip_while is_space text in
    let name = take_while is_cond_char s in
    let more =
      conds_loop k (skip_while is_cond_char s) exclusive
        (conds ++ record { name = name; exclusive = exclusive } ∷ []) in
    if at_end s || at_end name then conds else more

unfoldable pub add_start_conds : Text → Bool → List StartCond → List StartCond
unfolding conds_loop
add_start_conds text exclusive conds = conds_loop (length text) text exclusive conds
