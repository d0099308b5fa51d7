-- ===== src/LexFile/Section1.antt =====
-- `parse_section1` of src/source.cpp.
use lex_cpp.Prelude.{
  ℕ, zero, suc, Bool, true, false, ◌&&◌, ◌||◌, not, [], ◌∷◌, ◌++◌, length, map, ◌==◌, if◌then◌else◌,
  Option, none, some,
}
use lex_cpp.Chars.{Text, peek, advance, at_end}
use lex_cpp.Options.{is_blank, skip_while, take_while, parse_options, add_start_conds}
use lex_cpp.LexFile.{unrecognised_line, option_message, Reader, move_to}
use lex_cpp.LexFile.Scan.{
  is_ident_start, is_ident_cont, starts_with, skip_blanks, not_newline, skip_newline, skip_line,
  read_line, rstrip, skip_comment, verbatim_lines, top_body,
}

-- What a turn of a section's loop does: return, or go on.
pub data Turn : Type 0 where
  finish again : Reader → Turn

-- Text that joins `section1_verbatim`.
unfoldable pub add_verbatim : Text → Reader → Reader
add_verbatim t r = record r {
  out = record r.out { section1_verbatim = r.out.section1_verbatim ++ t };
}

-- A line that joins it.
unfoldable pub keep_line : Reader → Reader
keep_line r = let (l, rest) = read_line r.rest in move_to rest (add_verbatim l r)

-- `%%`. A line that goes on with something else is taken for code, and the line counter is put to 1.
unfoldable pub divider : Reader → Turn
divider r =
    let behind = skip_blanks (advance (advance r.rest)) in
    let moved = move_to behind r in
    if peek behind 0 == 10 || at_end behind
    then finish (move_to (skip_newline behind) moved)
    else again (keep_line (record moved { rest = r.rest; loc = record moved.loc { line = 1 } }))

-- `%top`, behind the brace at the head of `s`.
unfoldable pub top_block : Text → Reader → Reader
top_block s r =
    let at_brace = move_to s r in
    let (body, rest) = top_body 1 (advance s) in
    let o = r.out in
    move_to (skip_line rest) (record at_brace {
      out = record o {
        section_top = o.section_top ++ body;
        section_top_loc = if at_end o.section_top then at_brace.loc else o.section_top_loc;
      };
    })

-- `%{`
unfoldable pub verbatim_block : Reader → Reader
verbatim_block r =
    let s = skip_line (advance (advance r.rest)) in
    let (body, rest) = verbatim_lines (length s) s in
    let o = r.out in
    move_to rest (record r {
      out = record o {
        section1_verbatim = o.section1_verbatim ++ body;
        section1_loc = if at_end o.section1_verbatim then r.loc else o.section1_loc;
      };
    })

abbrev pub not_blank_nor_newline : ℕ → Bool
not_blank_nor_newline c = not (is_blank c) && not_newline c

-- `%option`
unfoldable pub option_line : Reader → Reader
option_line r =
    let s = skip_while not_blank_nor_newline r.rest in
    let z =
      parse_options (take_while not_newline s)
        (record { options = r.out.options; messages = [] }) in
    move_to (skip_line s) (record r {
      out = record r.out { options = z.options };
      messages = r.messages ++ map option_message z.messages;
    })

-- `%s` and `%x`
unfoldable pub cond_line : Reader → Reader
cond_line r =
    let s = advance (advance r.rest) in
    move_to (skip_line s) (record r {
      out = record r.out {
        conds = add_start_conds (take_while not_newline s) (peek r.rest 1 == b'x') r.out.conds;
      };
    })

unfoldable pub definition : Reader → Reader
definition r =
    let name = take_while is_ident_cont r.rest in
    let s = skip_blanks (skip_while is_ident_cont r.rest) in
    let pat = rstrip (take_while not_newline s) in
    move_to (skip_line s) (record r {
      out = record r.out {
        defs = if at_end pat then r.out.defs else r.out.defs ++ (name, pat) ∷ [];
      };
    })

-- %top and %option
abbrev pub top_word : Text
top_word = b'%' ∷ b't' ∷ b'o' ∷ b'p' ∷ []

abbrev pub option_word : Text
option_word = b'%' ∷ b'o' ∷ b'p' ∷ b't' ∷ b'i' ∷ b'o' ∷ b'n' ∷ []

-- The kinds of line, in the order of the tests.
pub data LineKind : Type 0 where
  empty_line divider_line top_line verbatim_start option_start cond_start comment_start code_line
        definition_line other_line :
      LineKind

-- Behind `%top`, with its blanks.
abbrev pub behind_top : Text → Text
behind_top s = skip_blanks (advance (advance (advance (advance s))))

unfoldable pub line_kind : Text → LineKind
line_kind s =
    let c0 = peek s 0 in
    if c0 == 10
    then empty_line
    else if c0 == b'%' && peek s 1 == b'%'
    then divider_line
    else if starts_with top_word s && peek (behind_top s) 0 == b'{'
    then top_line
    else if c0 == b'%' && peek s 1 == b'{'
    then verbatim_start
    else if starts_with option_word s
    then option_start
    else if c0 == b'%' && (peek s 1 == b's' || peek s 1 == b'x') && is_blank (peek s 2)
    then cond_start
    else if c0 == b'/' && peek s 1 == b'*'
    then comment_start
    else if is_blank c0
    then code_line
    else if is_ident_start c0
    then definition_line
    else other_line

unfoldable pub line_turn : LineKind → Reader → Turn
line_turn empty_line r = again (move_to (advance r.rest) r)
line_turn divider_line r = divider r
line_turn top_line r = again (top_block (behind_top r.rest) r)
line_turn verbatim_start r = again (verbatim_block r)
line_turn option_start r = again (option_line r)
line_turn cond_start r = again (cond_line r)
line_turn comment_start r = again (move_to (skip_comment (advance (advance r.rest))) r)
line_turn code_line r = again (keep_line r)
line_turn definition_line r = again (definition r)
line_turn other_line r = again (
    move_to (skip_line r.rest) (record r { messages = r.messages ++ unrecognised_line r.loc ∷ [] }))

unfoldable pub section1_turn : Reader → Turn
section1_turn r = line_turn (line_kind r.rest) r

-- The loop of a section, `none` where the fuel runs out.
unfoldable pub section_loop : (Reader → Turn) → ℕ → Reader → Option Reader
section_loop turn zero r = if at_end r.rest then some r else none
section_loop turn (suc k) r = elim (at_end r.rest) [
  | true ↦ some r
  | false ↦ elim (turn r) [ finish r' ↦ some r' | again r' ↦ section_loop turn k r' ]
]

-- Each turn takes a byte.
unfoldable pub parse_section1 : Reader → Option Reader
parse_section1 r = section_loop section1_turn (length r.rest) r
