-- ===== src/Driver/CommandLine.antt =====
-- `parse_args` of src/main.cpp. An argument is a text. Arguments are taken off a list; what a run that
-- goes on writes to disk on the way, the files that `-b` names, is listed.
use lex_cpp.Prelude.{
  Bool, true, false, ◌&&◌, not, List, [], ◌∷◌, ◌++◌, ◌==◌, if◌then◌else◌, Option, none, some,
}
use lex_cpp.Chars.{Text, peek, at_end, same_text}
use lex_cpp.Options.{is_in}
use lex_cpp.Pattern.{drop_text}
use lex_cpp.LexFile.Scan.{starts_with}

-- `CompressMode`: `Full`, `FullEc` and `Compress`.
pub data CompressMode : Type 0 where
  full full_ec packed : CompressMode

pub record Args : Type 0 where
  pub output_path : Text
  pub prefix : Text
  pub input_paths : List Text
  pub to_stdout : Bool
  pub case_insensitive : Bool
  pub yylineno : Bool
  pub nodefault : Bool
  pub prefix_set : Bool
  pub noline : Bool
  pub debug : Bool
  pub header_path : Text
  pub tables_path : Text
  pub skeleton_path : Text
  pub compress : CompressMode
  -- the files that `-b` writes
  pub backups : List Text

abbrev pub default_args : Args
default_args = record {
  output_path = [];
  prefix = [];
  input_paths = [];
  to_stdout = false;
  case_insensitive = false;
  yylineno = false;
  nodefault = false;
  prefix_set = false;
  noline = false;
  debug = false;
  header_path = [];
  tables_path = [];
  skeleton_path = [];
  compress = packed;
  backups = [];
}

-- How an argument is read: exit with a text on standard output, an error, an option that stands alone,
-- one that needs a value or can have one, the end of the options.
pub data ArgKind : Type 0 where
  show_usage show_version bad_option ends_options optional_header : ArgKind
  alone : Args → ArgKind
  needs_value : (Text → Args) → ArgKind

abbrev pub backup_name : Text → Text
backup_name a =
    if at_end (drop_text 2 a)
    then (b'l' ∷ b'e' ∷ b'x' ∷ b'.' ∷ b'b' ∷ b'a' ∷ b'c' ∷ b'k' ∷ b'u' ∷ b'p' ∷ [])
    else drop_text 2 a

unfoldable pub flag_option : Text → Args → Option Args
flag_option a out =
    if is_in a
      ((b'-' ∷ b't' ∷ []) ∷ (b'-' ∷ b'-' ∷ b's' ∷ b't' ∷ b'd' ∷ b'o' ∷ b'u' ∷ b't' ∷ []) ∷ [])
    then some (record out { to_stdout = true })
    else if is_in a (
        (b'-' ∷ b'i' ∷ [])
        ∷ (b'-' ∷ b'-' ∷ b'c' ∷ b'a' ∷ b's' ∷ b'e' ∷ b'-' ∷ b'i' ∷ b'n' ∷ b's' ∷ b'e' ∷ b'n' ∷ b's'
            ∷ b'i' ∷ b't' ∷ b'i' ∷ b'v' ∷ b'e' ∷ [])
        ∷ [])
    then some (record out { case_insensitive = true })
    else if same_text a (b'-' ∷ b'-' ∷ b'y' ∷ b'y' ∷ b'l' ∷ b'i' ∷ b'n' ∷ b'e' ∷ b'n' ∷ b'o' ∷ [])
    then some (record out { yylineno = true })
    else if is_in a (
        (b'-' ∷ b's' ∷ [])
        ∷ (b'-' ∷ b'-' ∷ b'n' ∷ b'o' ∷ b'd' ∷ b'e' ∷ b'f' ∷ b'a' ∷ b'u' ∷ b'l' ∷ b't' ∷ [])
        ∷ [])
    then some (record out { nodefault = true })
    else if is_in a
        ((b'-' ∷ b'L' ∷ []) ∷ (b'-' ∷ b'-' ∷ b'n' ∷ b'o' ∷ b'l' ∷ b'i' ∷ b'n' ∷ b'e' ∷ []) ∷ [])
    then some (record out { noline = true })
    else if is_in a (
        (b'-' ∷ b'f' ∷ [])
        ∷ (b'-' ∷ b'-' ∷ b'f' ∷ b'u' ∷ b'l' ∷ b'l' ∷ [])
        ∷ (b'-' ∷ b'C' ∷ b'f' ∷ [])
        ∷ (b'-' ∷ b'-' ∷ b'C' ∷ b'f' ∷ [])
        ∷ [])
    then some (record out { compress = full })
    else if is_in a
        ((b'-' ∷ b'C' ∷ b'f' ∷ b'e' ∷ []) ∷ (b'-' ∷ b'-' ∷ b'C' ∷ b'f' ∷ b'e' ∷ []) ∷ [])
    then some (record out { compress = full_ec })
    else if is_in a (
        (b'-' ∷ b'C' ∷ b'e' ∷ b'm' ∷ [])
        ∷ (b'-' ∷ b'-' ∷ b'C' ∷ b'e' ∷ b'm' ∷ [])
        ∷ (b'-' ∷ b'-' ∷ b'c' ∷ b'o' ∷ b'm' ∷ b'p' ∷ b'r' ∷ b'e' ∷ b's' ∷ b's' ∷ [])
        ∷ [])
    then some (record out { compress = packed })
    else if is_in a (
        (b'-' ∷ b'C' ∷ b'F' ∷ [])
        ∷ (b'-' ∷ b'C' ∷ b'F' ∷ b'e' ∷ [])
        ∷ (b'-' ∷ b'C' ∷ b'F' ∷ b'a' ∷ [])
        ∷ (b'-' ∷ b'C' ∷ b'F' ∷ b'a' ∷ b'e' ∷ [])
        ∷ (b'-' ∷ b'C' ∷ b'F' ∷ b'r' ∷ [])
        ∷ (b'-' ∷ b'C' ∷ b'F' ∷ b'a' ∷ b'r' ∷ [])
        ∷ (b'-' ∷ b'C' ∷ b'F' ∷ b'a' ∷ b'e' ∷ b'r' ∷ [])
        ∷ [])
    then some (record out { compress = full })
    else if is_in a
        ((b'-' ∷ b'd' ∷ []) ∷ (b'-' ∷ b'-' ∷ b'd' ∷ b'e' ∷ b'b' ∷ b'u' ∷ b'g' ∷ []) ∷ [])
    then some (record out { debug = true })
    else if is_in a (
        (b'-' ∷ b'p' ∷ [])
        ∷ (b'-' ∷ b'p' ∷ b'1' ∷ [])
        ∷ (b'-' ∷ b'p' ∷ b'2' ∷ [])
        ∷ (b'-' ∷ b'-' ∷ b'p' ∷ b'e' ∷ b'r' ∷ b'f' ∷ b'-' ∷ b'r' ∷ b'e' ∷ b'p' ∷ b'o' ∷ b'r' ∷ b't'
            ∷ [])
        ∷ (b'-' ∷ b'T' ∷ [])
        ∷ (b'-' ∷ b'-' ∷ b't' ∷ b'r' ∷ b'a' ∷ b'c' ∷ b'e' ∷ [])
        ∷ (b'-' ∷ b'w' ∷ [])
        ∷ (b'-' ∷ b'-' ∷ b'n' ∷ b'o' ∷ b'w' ∷ b'a' ∷ b'r' ∷ b'n' ∷ [])
        ∷ (b'-' ∷ b'7' ∷ [])
        ∷ (b'-' ∷ b'8' ∷ [])
        ∷ [])
    then some out
    else none

-- The options that come with a text, from `-b` on, in the order of the tests.
unfoldable pub text_option : Text → Args → ArgKind
text_option a out =
    if starts_with (b'-' ∷ b'b' ∷ []) a
    then alone (record out { backups = out.backups ++ backup_name a ∷ [] })
    else if starts_with
        (b'-' ∷ b'-' ∷ b't' ∷ b'a' ∷ b'b' ∷ b'l' ∷ b'e' ∷ b's' ∷ b'-' ∷ b'f' ∷ b'i' ∷ b'l' ∷ b'e'
          ∷ b'=' ∷ [])
        a
    then alone (record out { tables_path = drop_text 14 a })
    else if is_in a (
        (b'-' ∷ b'S' ∷ [])
        ∷ (b'-' ∷ b'-' ∷ b's' ∷ b'k' ∷ b'e' ∷ b'l' ∷ b'e' ∷ b't' ∷ b'o' ∷ b'n' ∷ [])
        ∷ [])
    then needs_value (λ v. record out { skeleton_path = v })
    else if starts_with (b'-' ∷ b'S' ∷ []) a
    then alone (record out { skeleton_path = drop_text 2 a })
    else if starts_with
        (b'-' ∷ b'-' ∷ b's' ∷ b'k' ∷ b'e' ∷ b'l' ∷ b'e' ∷ b't' ∷ b'o' ∷ b'n' ∷ b'=' ∷ []) a
    then alone (record out { skeleton_path = drop_text 11 a })
    else if starts_with
        (b'-' ∷ b'-' ∷ b'h' ∷ b'e' ∷ b'a' ∷ b'd' ∷ b'e' ∷ b'r' ∷ b'-' ∷ b'f' ∷ b'i' ∷ b'l' ∷ b'e'
          ∷ b'=' ∷ [])
        a
    then alone (record out { header_path = drop_text 14 a })
    else if same_text a (
        b'-' ∷ b'-' ∷ b'h' ∷ b'e' ∷ b'a' ∷ b'd' ∷ b'e' ∷ b'r' ∷ b'-' ∷ b'f' ∷ b'i' ∷ b'l' ∷ b'e'
        ∷ [])
    then optional_header
    else if same_text a (b'-' ∷ b'o' ∷ [])
    then needs_value (λ v. record out { output_path = v })
    else if starts_with (b'-' ∷ b'o' ∷ []) a
    then alone (record out { output_path = drop_text 2 a })
    else if starts_with (b'-' ∷ b'-' ∷ b'o' ∷ b'u' ∷ b't' ∷ b'f' ∷ b'i' ∷ b'l' ∷ b'e' ∷ b'=' ∷ []) a
    then alone (record out { output_path = drop_text 10 a })
    else if same_text a (b'-' ∷ b'P' ∷ [])
    then needs_value (λ v. record out { prefix = v; prefix_set = true })
    else if starts_with (b'-' ∷ b'P' ∷ []) a
    then alone (record out { prefix = drop_text 2 a; prefix_set = true })
    else if starts_with (b'-' ∷ b'-' ∷ b'p' ∷ b'r' ∷ b'e' ∷ b'f' ∷ b'i' ∷ b'x' ∷ b'=' ∷ []) a
    then alone (record out { prefix = drop_text 9 a; prefix_set = true })
    else if same_text a (b'-' ∷ b'-' ∷ [])
    then ends_options
    else if peek a 0 == b'-' && not (same_text a (b'-' ∷ []))
    then bad_option
    else alone (record out { input_paths = out.input_paths ++ a ∷ [] })

unfoldable pub arg_kind : Text → Args → ArgKind
arg_kind a out =
    if is_in a ((b'-' ∷ b'h' ∷ []) ∷ (b'-' ∷ b'-' ∷ b'h' ∷ b'e' ∷ b'l' ∷ b'p' ∷ []) ∷ [])
    then show_usage
    else if is_in a (
        (b'-' ∷ b'V' ∷ [])
        ∷ (b'-' ∷ b'-' ∷ b'v' ∷ b'e' ∷ b'r' ∷ b's' ∷ b'i' ∷ b'o' ∷ b'n' ∷ [])
        ∷ [])
    then show_version
    else elim (flag_option a out) [ some o ↦ alone o | none ↦ text_option a out ]

pub data ArgsResult : Type 0 where
  usage version : List Text → ArgsResult
  -- `return 2`, with the argument that is at fault
  rejected : Text → List Text → ArgsResult
  accepted : Args → ArgsResult

-- Whether the argument behind `--header-file` is its value.
abbrev pub is_header_value : Text → Bool
is_header_value v = not (at_end v) && not (peek v 0 == b'-')

abbrev pub default_header : Text
default_header = (b'_' ∷ b'd' ∷ b'e' ∷ b'f' ∷ b'a' ∷ b'u' ∷ b'l' ∷ b't' ∷ b'_' ∷ [])

-- The loop, over the arguments that are left.
unfoldable pub args_loop : List Text → Args → ArgsResult
args_loop [] out = accepted out
args_loop (a ∷ []) out = elim (arg_kind a out) [
  | show_usage ↦ usage out.backups
  | show_version ↦ version out.backups
  | bad_option ↦ rejected a out.backups
  | ends_options ↦ accepted out
  | optional_header ↦ accepted (record out { header_path = default_header })
  | alone o ↦ accepted o
  | needs_value f ↦ rejected a out.backups
]
args_loop (a ∷ v ∷ as_list) out = elim (arg_kind a out) [
  | show_usage ↦ usage out.backups
  | show_version ↦ version out.backups
  | bad_option ↦ rejected a out.backups
  | ends_options ↦ accepted (record out { input_paths = out.input_paths ++ v ∷ as_list })
  | optional_header ↦ elim (is_header_value v) [
    | true ↦ args_loop as_list (record out { header_path = v })
    | false ↦ args_loop (v ∷ as_list) (record out { header_path = default_header })
  ]
  | alone o ↦ args_loop (v ∷ as_list) o
  | needs_value f ↦ args_loop as_list (f v)
]

-- lex.yy.c
abbrev pub default_output : Text
default_output = (b'l' ∷ b'e' ∷ b'x' ∷ b'.' ∷ b'y' ∷ b'y' ∷ b'.' ∷ b'c' ∷ [])

abbrev pub with_output : ArgsResult → ArgsResult
with_output (usage bs) = usage bs
with_output (version bs) = version bs
with_output (rejected a bs) = rejected a bs
with_output (accepted o) = accepted (
    if at_end o.output_path && not o.to_stdout
    then record o { output_path = default_output }
    else o)

-- The arguments behind the name of the program.
unfoldable pub parse_args : List Text → ArgsResult
parse_args argv = with_output (args_loop argv default_args)
