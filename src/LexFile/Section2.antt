-- ===== src/LexFile/Section2.antt =====
-- `parse_section2` of src/source.cpp.
use lex_cpp.Prelude.{
  ℕ, Bool, true, false, ◌&&◌, ◌||◌, not, List, [], ◌∷◌, ◌++◌, length, ◌==◌, if◌then◌else◌, Option,
  none, some,
}
use lex_cpp.Chars.{Text, peek, advance, at_end}
use lex_cpp.Options.{is_blank, skip_while}
use lex_cpp.RuleText.{read_prefix}
use lex_cpp.LexFile.{Loc, Rule, Reader, ScBlock, move_to}
use lex_cpp.LexFile.Scan.{
  skip_blanks, skip_newline, skip_line, read_line, skip_comment, skip_line_comment, verbatim_lines,
}
use lex_cpp.LexFile.Section1.{Turn, finish, again, section_loop}
use lex_cpp.LexFile.RuleLine.{parse_rule}

-- Text that joins `section2_prologue`; its place is that of the first.
unfoldable pub add_prologue : Text → Loc → Reader → Reader
add_prologue t l r =
    let o = r.out in
    record r {
      out = record o {
        section2_prologue = o.section2_prologue ++ t;
        section2_loc = if at_end o.section2_prologue then l else o.section2_loc;
      };
    }

-- `%{`
unfoldable pub prologue_block : Reader → Reader
prologue_block r =
    let s = skip_line (advance (advance r.rest)) in
    let (body, rest) = verbatim_lines (length s) s in move_to rest (add_prologue body r.loc r)

-- An indented line outside of blocks, before and after the first rule.
unfoldable pub indented_line : List Rule → Reader → Reader
indented_line [] r = let (l, rest) = read_line r.rest in move_to rest (add_prologue l r.loc r)
indented_line (rule ∷ rules) r = move_to (read_line r.rest).1 r

-- The blanks and the comment behind the brace of a block.
unfoldable pub behind_brace : Text → Text
behind_brace s =
    let t = skip_blanks s in
    if peek t 0 == b'/' && peek t 1 == b'*'
    then skip_blanks (skip_line_comment (advance (advance t)))
    else t

abbrev pub is_blank_or_newline : ℕ → Bool
is_blank_or_newline c = is_blank c || c == 10

-- Where `<…>` opens a block, the text behind it.
unfoldable pub block_opener : Text → Option (ScBlock × Text)
block_opener s =
    let p = read_prefix s in
    let t = skip_while is_blank_or_newline p.rest in
    let end = behind_brace (advance t) in
    if p.had_sc_prefix && peek t 0 == b'{' && (at_end end || peek end 0 == 10)
    then some (record { conds = p.conds; any_state = p.any_state }, skip_newline end)
    else none

-- A block or a rule.
unfoldable pub opener_or_rule : Reader → Reader
opener_or_rule r = elim (block_opener r.rest) [
  | some (blk, rest) ↦ move_to rest (record r { sc_blocks = blk ∷ r.sc_blocks })
  | none ↦ parse_rule r
]

-- The end of the turn, from the test for a brace that closes a block on. Where the brace closes none,
-- the position goes back and the location does not.
unfoldable pub dispatch_in : List ScBlock → Reader → Reader
dispatch_in [] r = opener_or_rule r
dispatch_in (blk ∷ blks) r =
    let behind = skip_blanks (advance r.rest) in
    if peek r.rest 0 == b'}'
    then (if at_end behind || peek behind 0 == 10
        then move_to (skip_newline behind) (record r { sc_blocks = blks })
        else opener_or_rule (record (move_to behind r) { rest = r.rest }))
    else opener_or_rule r

abbrev pub dispatch : Reader → Reader
dispatch r = dispatch_in r.sc_blocks r

abbrev pub no_blocks : List ScBlock → Bool
no_blocks [] = true
no_blocks (blk ∷ blks) = false

-- A line that starts with a blank.
unfoldable pub indented : Reader → Reader
indented r =
    let s = skip_blanks r.rest in
    if at_end s || peek s 0 == 10
    then move_to (skip_newline s) r
    else if peek s 0 == b'/' && peek s 1 == b'*'
    then move_to (skip_comment (advance (advance s))) r
    else if peek s 0 == b'<' || peek s 0 == b'}' && not (no_blocks r.sc_blocks)
    then dispatch (move_to s r)
    else if no_blocks r.sc_blocks
    then indented_line r.out.rules r
    else parse_rule (move_to s r)

unfoldable pub section2_turn : Reader → Turn
section2_turn r =
    let s = r.rest in
    if peek s 0 == 10
    then again (move_to (advance s) r)
    else if peek s 0 == b'%' && peek s 1 == b'%'
    then finish (move_to (skip_line (advance (advance s))) r)
    else if peek s 0 == b'%' && peek s 1 == b'{'
    then again (prologue_block r)
    else if peek s 0 == b'/' && peek s 1 == b'*'
    then again (move_to (skip_comment (advance (advance s))) r)
    else if is_blank (peek s 0)
    then again (indented r)
    else again (dispatch r)

unfoldable pub parse_section2 : Reader → Option Reader
parse_section2 r = section_loop section2_turn (length r.rest) r
