-- ===== src/LexFile/Whole.antt =====
-- `Parser::parse`, `parse_section3` and `parse_lex_file` of src/source.cpp.
use lex_cpp.Prelude.{Bool, true, false, List, [], ◌∷◌, Option, none, some}
use lex_cpp.Chars.{Text, at_end}
use lex_cpp.Options.{unsupported_option, unknown_option}
use lex_cpp.LexFile.{
  LexFile, FileMessage, unrecognised_line, empty_pattern, option_message, Reader, start_reader,
  move_to,
}
use lex_cpp.LexFile.Section1.{parse_section1}
use lex_cpp.LexFile.Section2.{parse_section2}

unfoldable pub parse_section3 : Reader → Reader
parse_section3 r =
    let o = r.out in
    move_to [] (record r { out = record o { section3 = r.rest; section3_loc = r.loc } })

-- `if (!at_end()) …`
abbrev pub unless_at_end : Bool → Reader → Option Reader → Option Reader
unless_at_end true r more = some r
unless_at_end false r more = more

abbrev pub last_section : Option Reader → Option Reader
last_section none = none
last_section (some r) = unless_at_end (at_end r.rest) r (some (parse_section3 r))

abbrev pub then_section2 : Option Reader → Option Reader
then_section2 none = none
then_section2 (some r) = unless_at_end (at_end r.rest) r (last_section (parse_section2 r))

-- `none` where a loop runs out of fuel.
unfoldable pub parse : Text → Option Reader
parse src = then_section2 (parse_section1 (start_reader src))

-- `diag.error`, and not `diag.warn`.
abbrev pub is_error : FileMessage → Bool
is_error (unrecognised_line l) = false
is_error (empty_pattern l) = true
is_error (option_message (unsupported_option k)) = true
is_error (option_message (unknown_option k)) = false

-- `diag.ok()`
unfoldable pub no_errors : List FileMessage → Bool
no_errors [] = true
no_errors (m ∷ ms) = elim (is_error m) [ true ↦ false | false ↦ no_errors ms ]

-- The file and the messages; the file is `none` after an error.
unfoldable pub parse_lex_file : Text → Option (Option LexFile × List FileMessage)
parse_lex_file src = elim (parse src) [
  | none ↦ none
  | some r ↦ some (elim (no_errors r.messages) [ true ↦ some r.out | false ↦ none ], r.messages)
]
