-- ===== src/OptionNames.antt =====
-- The option names of src/source.cpp, as texts.
use lex_cpp.Prelude.{List, [], ◌∷◌}
use lex_cpp.Chars.{Text}

abbrev pub key_noyywrap : Text
key_noyywrap = b'n' ∷ b'o' ∷ b'y' ∷ b'y' ∷ b'w' ∷ b'r' ∷ b'a' ∷ b'p' ∷ []

abbrev pub key_yywrap : Text
key_yywrap = b'y' ∷ b'y' ∷ b'w' ∷ b'r' ∷ b'a' ∷ b'p' ∷ []

abbrev pub key_yylineno : Text
key_yylineno = b'y' ∷ b'y' ∷ b'l' ∷ b'i' ∷ b'n' ∷ b'e' ∷ b'n' ∷ b'o' ∷ []

abbrev pub key_noyylineno : Text
key_noyylineno = b'n' ∷ b'o' ∷ b'y' ∷ b'y' ∷ b'l' ∷ b'i' ∷ b'n' ∷ b'e' ∷ b'n' ∷ b'o' ∷ []

abbrev pub key_case_insensitive : Text
key_case_insensitive =
    b'c' ∷ b'a' ∷ b's' ∷ b'e' ∷ b'-' ∷ b'i' ∷ b'n' ∷ b's' ∷ b'e' ∷ b'n' ∷ b's' ∷ b'i' ∷ b't' ∷ b'i'
    ∷ b'v' ∷ b'e' ∷ []

abbrev pub key_caseless : Text
key_caseless = b'c' ∷ b'a' ∷ b's' ∷ b'e' ∷ b'l' ∷ b'e' ∷ b's' ∷ b's' ∷ []

abbrev pub key_i : Text
key_i = b'i' ∷ []

abbrev pub key_case_sensitive : Text
key_case_sensitive =
    b'c' ∷ b'a' ∷ b's' ∷ b'e' ∷ b'-' ∷ b's' ∷ b'e' ∷ b'n' ∷ b's' ∷ b'i' ∷ b't' ∷ b'i' ∷ b'v' ∷ b'e'
    ∷ []

abbrev pub key_nocaseless : Text
key_nocaseless = b'n' ∷ b'o' ∷ b'c' ∷ b'a' ∷ b's' ∷ b'e' ∷ b'l' ∷ b'e' ∷ b's' ∷ b's' ∷ []

abbrev pub key_nodefault : Text
key_nodefault = b'n' ∷ b'o' ∷ b'd' ∷ b'e' ∷ b'f' ∷ b'a' ∷ b'u' ∷ b'l' ∷ b't' ∷ []

abbrev pub key_s : Text
key_s = b's' ∷ []

abbrev pub key_default : Text
key_default = b'd' ∷ b'e' ∷ b'f' ∷ b'a' ∷ b'u' ∷ b'l' ∷ b't' ∷ []

abbrev pub key_debug : Text
key_debug = b'd' ∷ b'e' ∷ b'b' ∷ b'u' ∷ b'g' ∷ []

abbrev pub key_d : Text
key_d = b'd' ∷ []

abbrev pub key_nodebug : Text
key_nodebug = b'n' ∷ b'o' ∷ b'd' ∷ b'e' ∷ b'b' ∷ b'u' ∷ b'g' ∷ []

abbrev pub key_prefix : Text
key_prefix = b'p' ∷ b'r' ∷ b'e' ∷ b'f' ∷ b'i' ∷ b'x' ∷ []

abbrev pub key_reentrant : Text
key_reentrant = b'r' ∷ b'e' ∷ b'e' ∷ b'n' ∷ b't' ∷ b'r' ∷ b'a' ∷ b'n' ∷ b't' ∷ []

abbrev pub key_noreentrant : Text
key_noreentrant = b'n' ∷ b'o' ∷ b'r' ∷ b'e' ∷ b'e' ∷ b'n' ∷ b't' ∷ b'r' ∷ b'a' ∷ b'n' ∷ b't' ∷ []

abbrev pub key_bison_bridge : Text
key_bison_bridge =
    b'b' ∷ b'i' ∷ b's' ∷ b'o' ∷ b'n' ∷ b'-' ∷ b'b' ∷ b'r' ∷ b'i' ∷ b'd' ∷ b'g' ∷ b'e' ∷ []

abbrev pub key_bison_locations : Text
key_bison_locations =
    b'b' ∷ b'i' ∷ b's' ∷ b'o' ∷ b'n' ∷ b'-' ∷ b'l' ∷ b'o' ∷ b'c' ∷ b'a' ∷ b't' ∷ b'i' ∷ b'o' ∷ b'n'
    ∷ b's' ∷ []

abbrev pub key_extra_type : Text
key_extra_type = b'e' ∷ b'x' ∷ b't' ∷ b'r' ∷ b'a' ∷ b'-' ∷ b't' ∷ b'y' ∷ b'p' ∷ b'e' ∷ []

abbrev pub key_array : Text
key_array = b'a' ∷ b'r' ∷ b'r' ∷ b'a' ∷ b'y' ∷ []

abbrev pub key_pointer : Text
key_pointer = b'p' ∷ b'o' ∷ b'i' ∷ b'n' ∷ b't' ∷ b'e' ∷ b'r' ∷ []

abbrev pub key_noyyalloc : Text
key_noyyalloc = b'n' ∷ b'o' ∷ b'y' ∷ b'y' ∷ b'a' ∷ b'l' ∷ b'l' ∷ b'o' ∷ b'c' ∷ []

abbrev pub key_noyyrealloc : Text
key_noyyrealloc = b'n' ∷ b'o' ∷ b'y' ∷ b'y' ∷ b'r' ∷ b'e' ∷ b'a' ∷ b'l' ∷ b'l' ∷ b'o' ∷ b'c' ∷ []

abbrev pub key_noyyfree : Text
key_noyyfree = b'n' ∷ b'o' ∷ b'y' ∷ b'y' ∷ b'f' ∷ b'r' ∷ b'e' ∷ b'e' ∷ []

abbrev pub key_cpp : Text
key_cpp = b'c' ∷ b'+' ∷ b'+' ∷ []

abbrev pub key_lex_compat : Text
key_lex_compat = b'l' ∷ b'e' ∷ b'x' ∷ b'-' ∷ b'c' ∷ b'o' ∷ b'm' ∷ b'p' ∷ b'a' ∷ b't' ∷ []

abbrev pub key_posix_compat : Text
key_posix_compat =
    b'p' ∷ b'o' ∷ b's' ∷ b'i' ∷ b'x' ∷ b'-' ∷ b'c' ∷ b'o' ∷ b'm' ∷ b'p' ∷ b'a' ∷ b't' ∷ []

abbrev pub key_header : Text
key_header = b'h' ∷ b'e' ∷ b'a' ∷ b'd' ∷ b'e' ∷ b'r' ∷ []

-- `kIgnored`
abbrev pub ignored_options : List Text
ignored_options =
    (b'8' ∷ b'b' ∷ b'i' ∷ b't' ∷ [])
    ∷ (b'n' ∷ b'o' ∷ b'8' ∷ b'b' ∷ b'i' ∷ b't' ∷ [])
    ∷ (b'i' ∷ b'n' ∷ b't' ∷ b'e' ∷ b'r' ∷ b'a' ∷ b'c' ∷ b't' ∷ b'i' ∷ b'v' ∷ b'e' ∷ [])
    ∷ (b'n' ∷ b'o' ∷ b'i' ∷ b'n' ∷ b't' ∷ b'e' ∷ b'r' ∷ b'a' ∷ b'c' ∷ b't' ∷ b'i' ∷ b'v' ∷ b'e'
        ∷ [])
    ∷ (b'b' ∷ b'a' ∷ b't' ∷ b'c' ∷ b'h' ∷ [])
    ∷ (b'n' ∷ b'o' ∷ b'b' ∷ b'a' ∷ b't' ∷ b'c' ∷ b'h' ∷ [])
    ∷ (b'w' ∷ b'a' ∷ b'r' ∷ b'n' ∷ [])
    ∷ (b'n' ∷ b'o' ∷ b'w' ∷ b'a' ∷ b'r' ∷ b'n' ∷ [])
    ∷ (b'e' ∷ b'c' ∷ b's' ∷ [])
    ∷ (b'n' ∷ b'o' ∷ b'e' ∷ b'c' ∷ b's' ∷ [])
    ∷ (b'm' ∷ b'e' ∷ b't' ∷ b'a' ∷ b'-' ∷ b'e' ∷ b'c' ∷ b's' ∷ [])
    ∷ (b'n' ∷ b'o' ∷ b'm' ∷ b'e' ∷ b't' ∷ b'a' ∷ b'-' ∷ b'e' ∷ b'c' ∷ b's' ∷ [])
    ∷ (b's' ∷ b't' ∷ b'a' ∷ b'c' ∷ b'k' ∷ [])
    ∷ (b'n' ∷ b'o' ∷ b's' ∷ b't' ∷ b'a' ∷ b'c' ∷ b'k' ∷ [])
    ∷ (b'a' ∷ b'l' ∷ b'w' ∷ b'a' ∷ b'y' ∷ b's' ∷ b'-' ∷ b'i' ∷ b'n' ∷ b't' ∷ b'e' ∷ b'r' ∷ b'a'
        ∷ b'c' ∷ b't' ∷ b'i' ∷ b'v' ∷ b'e' ∷ [])
    ∷ (b'n' ∷ b'e' ∷ b'v' ∷ b'e' ∷ b'r' ∷ b'-' ∷ b'i' ∷ b'n' ∷ b't' ∷ b'e' ∷ b'r' ∷ b'a' ∷ b'c'
        ∷ b't' ∷ b'i' ∷ b'v' ∷ b'e' ∷ [])
    ∷ (b'f' ∷ b'a' ∷ b's' ∷ b't' ∷ [])
    ∷ (b'f' ∷ b'u' ∷ b'l' ∷ b'l' ∷ [])
    ∷ (b'm' ∷ b'a' ∷ b'i' ∷ b'n' ∷ [])
    ∷ (b'n' ∷ b'o' ∷ b'm' ∷ b'a' ∷ b'i' ∷ b'n' ∷ [])
    ∷ (b'y' ∷ b'y' ∷ b'm' ∷ b'o' ∷ b'r' ∷ b'e' ∷ [])
    ∷ (b'n' ∷ b'o' ∷ b'y' ∷ b'y' ∷ b'm' ∷ b'o' ∷ b'r' ∷ b'e' ∷ [])
    ∷ (b'i' ∷ b'n' ∷ b'p' ∷ b'u' ∷ b't' ∷ [])
    ∷ (b'n' ∷ b'o' ∷ b'i' ∷ b'n' ∷ b'p' ∷ b'u' ∷ b't' ∷ [])
    ∷ (b'u' ∷ b'n' ∷ b'p' ∷ b'u' ∷ b't' ∷ [])
    ∷ (b'n' ∷ b'o' ∷ b'u' ∷ b'n' ∷ b'p' ∷ b'u' ∷ b't' ∷ [])
    ∷ (b'y' ∷ b'y' ∷ b'a' ∷ b'l' ∷ b'l' ∷ b'o' ∷ b'c' ∷ [])
    ∷ (b'y' ∷ b'y' ∷ b'f' ∷ b'r' ∷ b'e' ∷ b'e' ∷ [])
    ∷ (b'y' ∷ b'y' ∷ b'r' ∷ b'e' ∷ b'a' ∷ b'l' ∷ b'l' ∷ b'o' ∷ b'c' ∷ [])
    ∷ (b'y' ∷ b'y' ∷ b'_' ∷ b's' ∷ b'c' ∷ b'a' ∷ b'n' ∷ b'_' ∷ b'b' ∷ b'u' ∷ b'f' ∷ b'f' ∷ b'e'
        ∷ b'r' ∷ [])
    ∷ (b'y' ∷ b'y' ∷ b'_' ∷ b's' ∷ b'c' ∷ b'a' ∷ b'n' ∷ b'_' ∷ b'b' ∷ b'y' ∷ b't' ∷ b'e' ∷ b's'
        ∷ [])
    ∷ (b'y' ∷ b'y' ∷ b'_' ∷ b's' ∷ b'c' ∷ b'a' ∷ b'n' ∷ b'_' ∷ b's' ∷ b't' ∷ b'r' ∷ b'i' ∷ b'n'
        ∷ b'g' ∷ [])
    ∷ (b'o' ∷ b'u' ∷ b't' ∷ b'f' ∷ b'i' ∷ b'l' ∷ b'e' ∷ [])
    ∷ (b'h' ∷ b'e' ∷ b'a' ∷ b'd' ∷ b'e' ∷ b'r' ∷ b'-' ∷ b'f' ∷ b'i' ∷ b'l' ∷ b'e' ∷ [])
    ∷ (b'y' ∷ b'y' ∷ b'c' ∷ b'l' ∷ b'a' ∷ b's' ∷ b's' ∷ [])
    ∷ (b't' ∷ b'a' ∷ b'b' ∷ b'l' ∷ b'e' ∷ b's' ∷ b'-' ∷ b'f' ∷ b'i' ∷ b'l' ∷ b'e' ∷ [])
    ∷ (b't' ∷ b'a' ∷ b'b' ∷ b'l' ∷ b'e' ∷ b's' ∷ b'-' ∷ b'v' ∷ b'e' ∷ b'r' ∷ b'i' ∷ b'f' ∷ b'y'
        ∷ [])
    ∷ (b'v' ∷ b'e' ∷ b'r' ∷ b'b' ∷ b'o' ∷ b's' ∷ b'e' ∷ [])
    ∷ (b'n' ∷ b'o' ∷ b'v' ∷ b'e' ∷ b'r' ∷ b'b' ∷ b'o' ∷ b's' ∷ b'e' ∷ [])
    ∷ (b'p' ∷ b'e' ∷ b'r' ∷ b'f' ∷ b'-' ∷ b'r' ∷ b'e' ∷ b'p' ∷ b'o' ∷ b'r' ∷ b't' ∷ [])
    ∷ (b'n' ∷ b'o' ∷ b'p' ∷ b'e' ∷ b'r' ∷ b'f' ∷ b'-' ∷ b'r' ∷ b'e' ∷ b'p' ∷ b'o' ∷ b'r' ∷ b't'
        ∷ [])
    ∷ (b'b' ∷ b'a' ∷ b'c' ∷ b'k' ∷ b'u' ∷ b'p' ∷ [])
    ∷ (b'n' ∷ b'o' ∷ b'b' ∷ b'a' ∷ b'c' ∷ b'k' ∷ b'u' ∷ b'p' ∷ [])
    ∷ (b'a' ∷ b'l' ∷ b'i' ∷ b'g' ∷ b'n' ∷ [])
    ∷ (b'n' ∷ b'o' ∷ b'a' ∷ b'l' ∷ b'i' ∷ b'g' ∷ b'n' ∷ [])
    ∷ (b'r' ∷ b'e' ∷ b'a' ∷ b'd' ∷ [])
    ∷ (b'n' ∷ b'o' ∷ b'r' ∷ b'e' ∷ b'a' ∷ b'd' ∷ [])
    ∷ (b'r' ∷ b'e' ∷ b'j' ∷ b'e' ∷ b'c' ∷ b't' ∷ [])
    ∷ (b'n' ∷ b'o' ∷ b'r' ∷ b'e' ∷ b'j' ∷ b'e' ∷ b'c' ∷ b't' ∷ [])
    ∷ (b'y' ∷ b'y' ∷ b'_' ∷ b't' ∷ b'o' ∷ b'p' ∷ b'_' ∷ b's' ∷ b't' ∷ b'a' ∷ b't' ∷ b'e' ∷ [])
    ∷ (b'n' ∷ b'o' ∷ b'y' ∷ b'y' ∷ b'_' ∷ b't' ∷ b'o' ∷ b'p' ∷ b'_' ∷ b's' ∷ b't' ∷ b'a' ∷ b't'
        ∷ b'e' ∷ [])
    ∷ (b's' ∷ b't' ∷ b'd' ∷ b'i' ∷ b'n' ∷ b'i' ∷ b't' ∷ [])
    ∷ (b'n' ∷ b'o' ∷ b's' ∷ b't' ∷ b'd' ∷ b'i' ∷ b'n' ∷ b'i' ∷ b't' ∷ [])
    ∷ (b'y' ∷ b'y' ∷ b'm' ∷ b'o' ∷ b'r' ∷ b'e' ∷ b'_' ∷ b'u' ∷ b's' ∷ b'e' ∷ b'd' ∷ [])
    ∷ (b'n' ∷ b'o' ∷ b'y' ∷ b'y' ∷ b'm' ∷ b'o' ∷ b'r' ∷ b'e' ∷ b'_' ∷ b'u' ∷ b's' ∷ b'e' ∷ b'd'
        ∷ [])
    ∷ (b'y' ∷ b'y' ∷ b'w' ∷ b'r' ∷ b'a' ∷ b'p' ∷ b'_' ∷ b'u' ∷ b's' ∷ b'e' ∷ b'd' ∷ [])
    ∷ (b'n' ∷ b'o' ∷ b'y' ∷ b'y' ∷ b'w' ∷ b'r' ∷ b'a' ∷ b'p' ∷ b'_' ∷ b'u' ∷ b's' ∷ b'e' ∷ b'd'
        ∷ [])
    ∷ []
