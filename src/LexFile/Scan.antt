-- ===== src/LexFile/Scan.antt =====
-- The scanning loops of src/source.cpp, as functions from a text to what they take and leave.
use lex_cpp.Prelude.{
  ℕ, zero, suc, ◌+◌, ◌-◌, Bool, true, false, ◌&&◌, ◌||◌, not, [], ◌∷◌, ◌++◌, ◌==◌, if◌then◌else◌,
}
use lex_cpp.Chars.{Text, peek, advance, at_end, is_alpha, is_alnum}
use lex_cpp.Options.{is_blank, skip_while, take_while}
use lex_cpp.RuleText.{put_before}

abbrev pub is_ident_start : ℕ → Bool
is_ident_start c = is_alpha c || c == b'_'

abbrev pub is_ident_cont : ℕ → Bool
is_ident_cont c = is_alnum c || c == b'_' || c == b'-'

-- `src.compare(pos, n, p) == 0` for a text `p` of `n` bytes.
unfoldable pub starts_with : Text → Text → Bool
starts_with [] s = true
starts_with (c ∷ p) [] = false
starts_with (c ∷ p) (d ∷ s) = c == d && starts_with p s

abbrev pub skip_blanks : Text → Text
skip_blanks s = skip_while is_blank s

abbrev pub not_newline : ℕ → Bool
not_newline c = not (c == 10)

-- `if (peek() == '\n') get();`
abbrev pub skip_newline : Text → Text
skip_newline s = if peek s 0 == 10 then advance s else s

-- The rest of the line, with its newline.
abbrev pub skip_line : Text → Text
skip_line s = skip_newline (skip_while not_newline s)

-- `read_line_keep_nl`
unfoldable pub read_line : Text → Text × Text
read_line [] = ([], [])
read_line (c ∷ s) = let more = put_before c (read_line s) in if c == 10 then (c ∷ [], s) else more

-- Whether a text is only what `rstrip` takes.
abbrev pub is_stripped : ℕ → Bool
is_stripped c = c == 10 || c == 13 || c == b' ' || c == 9

unfoldable pub rstrip : Text → Text
rstrip [] = []
rstrip (c ∷ s) = let t = rstrip s in if is_stripped c && at_end t then [] else c ∷ t

-- Behind the end of a comment.
unfoldable pub skip_comment : Text → Text
skip_comment [] = []
skip_comment (c ∷ []) = []
skip_comment (c ∷ d ∷ s) =
    let more = skip_comment (d ∷ s) in if c == b'*' && d == b'/' then s else more

-- The comment behind the brace of a block: a newline stops it too.
unfoldable pub skip_line_comment : Text → Text
skip_line_comment [] = []
skip_line_comment (c ∷ []) = if c == 10 then c ∷ [] else []
skip_line_comment (c ∷ d ∷ s) =
    let more = skip_line_comment (d ∷ s) in
    if c == b'*' && d == b'/' then s else if c == 10 then c ∷ d ∷ s else more

-- The lines up to `%}`, and the text behind that line. `k` lines at most.
unfoldable pub verbatim_lines : ℕ → Text → Text × Text
verbatim_lines zero s = ([], s)
verbatim_lines (suc k) s =
    let (l, rest) = read_line s in
    let (more, end) = verbatim_lines k rest in
    if at_end s
    then ([], s)
    else if peek s 0 == b'%' && peek s 1 == b'}'
    then ([], skip_line (advance (advance s)))
    else (l ++ more, end)

-- The body of `%top`, up to the brace that closes `depth` open ones.
unfoldable pub top_body : ℕ → Text → Text × Text
top_body depth [] = ([], [])
top_body depth (c ∷ s) =
    let more =
      top_body (if c == b'{' then depth + 1 else if c == b'}' then depth - 1 else depth) s in
    if c == b'}' && depth == 1 then ([], s) else put_before c more

-- The modes of `read_brace_block`.
pub data BraceMode : Type 0 where
  in_code in_str in_chr in_line_cmt in_block_cmt : BraceMode

-- How many bytes a turn takes, and the mode and depth behind them.
pub data BraceTurn : Type 0 where
  one_more two_more : BraceMode → ℕ → BraceTurn

-- The byte, the next one (0 at the end), and whether there is a next one.
unfoldable pub brace_turn : BraceMode → ℕ → ℕ → ℕ → Bool → BraceTurn
brace_turn in_line_cmt depth c d has_next =
    one_more (if c == 10 then in_code else in_line_cmt) depth
brace_turn in_block_cmt depth c d has_next =
    if c == b'*' && d == b'/' then two_more in_code depth else one_more in_block_cmt depth
brace_turn in_str depth c d has_next =
    if c == 92 && has_next
    then two_more in_str depth
    else one_more (if c == 34 then in_code else in_str) depth
brace_turn in_chr depth c d has_next =
    if c == 92 && has_next
    then two_more in_chr depth
    else one_more (if c == 39 then in_code else in_chr) depth
brace_turn in_code depth c d has_next =
    if c == b'/' && d == b'/'
    then two_more in_line_cmt depth
    else if c == b'/' && d == b'*'
    then two_more in_block_cmt depth
    else if c == 34
    then one_more in_str depth
    else if c == 39
    then one_more in_chr depth
    else if c == b'{'
    then one_more in_code (depth + 1)
    else if c == b'}'
    then one_more in_code (depth - 1)
    else one_more in_code depth

-- The loop of `read_brace_block`: it ends when no brace is open.
unfoldable pub brace_loop : BraceMode → ℕ → Text → Text × Text
brace_loop m zero s = ([], s)
brace_loop m (suc k) [] = ([], [])
brace_loop m (suc k) (c ∷ []) = elim (brace_turn m (suc k) c 0 false) [
  | one_more m' depth ↦ (c ∷ [], [])
  | two_more m' depth ↦ (c ∷ [], [])
]
brace_loop m (suc k) (c ∷ d ∷ s) = elim (brace_turn m (suc k) c d true) [
  | one_more m' depth ↦ put_before c (brace_loop m' depth (d ∷ s))
  | two_more m' depth ↦ put_before c (put_before d (brace_loop m' depth s))
]

-- The text starts at the brace.
unfoldable pub read_brace_block : Text → Text × Text
read_brace_block s =
    let (body, rest) = brace_loop in_code 1 (advance s) in (peek s 0 ∷ body, skip_newline rest)

-- `read_action`
unfoldable pub read_action : Text → Text × Text
read_action s =
    let behind = skip_blanks (advance s) in
    let line = skip_while not_newline s in
    if peek s 0 == 10
    then ([], advance s)
    else if peek s 0 == b'|' && (peek behind 0 == 10 || at_end behind)
    then (b'|' ∷ [], skip_newline behind)
    else if peek s 0 == b'{'
    then read_brace_block s
    else (take_while not_newline s, skip_newline line)
