-- ===== src/LexFile/RuleLine.antt =====
-- `parse_rule` of src/source.cpp.
use lex_cpp.Prelude.{Bool, true, false, List, [], ◌∷◌, ◌++◌, if◌then◌else◌}
use lex_cpp.Chars.{Text, at_end}
use lex_cpp.Pattern.{drop_text}
use lex_cpp.RuleText.{Prefix, read_prefix, read_pattern}
use lex_cpp.LexFile.{empty_pattern, Reader, ScBlock, move_to}
use lex_cpp.LexFile.Scan.{starts_with, skip_blanks, skip_line, read_action}

-- The conditions of the block around a rule, for a rule without its own.
unfoldable pub inherit : Prefix → List ScBlock → Prefix
inherit p [] = p
inherit p (blk ∷ blks) =
    if p.had_sc_prefix
    then p
    else if blk.any_state
    then record p { any_state = true }
    else record p { conds = blk.conds }

-- <<EOF>>
abbrev pub eof_word : Text
eof_word = b'<' ∷ b'<' ∷ b'E' ∷ b'O' ∷ b'F' ∷ b'>' ∷ b'>' ∷ []

unfoldable pub push_rule : Prefix → Bool → Text → Text → Reader → Reader
push_rule p is_eof pattern behind r =
    let (action, rest) = read_action (skip_blanks behind) in
    move_to rest (record r {
      out = record r.out {
        rules =
            r.out.rules
            ++ record {
              loc = r.loc;
              conds = p.conds;
              any_state = p.any_state;
              pattern = pattern;
              action = action;
              eof = is_eof;
            }
              ∷ [];
      };
    })

unfoldable pub parse_rule : Reader → Reader
parse_rule r =
    let p = inherit (read_prefix r.rest) r.sc_blocks in
    let (pattern, behind) = read_pattern p.rest in
    if starts_with eof_word p.rest
    then push_rule p true [] (drop_text 7 p.rest) r
    else if at_end pattern
    then move_to (skip_line behind) (record r { messages = r.messages ++ empty_pattern r.loc ∷ [] })
    else push_rule p false pattern behind r
