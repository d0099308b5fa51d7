-- ===== src/Pattern.antt =====
-- Trailing context in src/regex.cpp: `find_top_level_slash`, the anchors at the root, `parse_pattern`.
pub mod Scan
pub mod Slash
pub mod Trail
use lex_cpp.Prelude.{
  ℕ, zero, suc, ◌+◌, ◌-◌, Bool, true, false, ◌&&◌, ◌||◌, not, List, [], ◌∷◌, ◌++◌, length, ◌==◌,
  if◌then◌else◌, Option, none, some,
}
use lex_cpp.Prelude.Int.{to_int, ℤ, pos, negsuc, ◌+ℤ◌, is_neg}
use lex_cpp.ByteSet.{ByteSet, no_bytes, add}
use lex_cpp.Regex.{
  Node, null, empty, class, concat, anchor_bol, anchor_eol, trail_boundary, fixed_length, minus_one,
}
use lex_cpp.Chars.{Text}
use lex_cpp.CharClass.{Message, head_dollar, dangerous_trail}
use lex_cpp.Parser.{parse_regex}

-- `in_class` and `in_quoted`, never both.
pub data Mode : Type 0 where
  outside in_class in_quoted : Mode

-- What the loop does at a character: pass over the next one too, return, or go on.
pub data Turn : Type 0 where
  pass_two found : Turn
  go_on : Mode → ℕ → Turn

pub slash_turn : Bool → Mode → ℕ → ℕ → Turn
slash_turn has_next in_class depth c =
    if c == 92 && has_next
    then pass_two
    else if c == 93
    then go_on outside depth
    else go_on in_class depth
slash_turn has_next in_quoted depth c =
    if c == 92 && has_next
    then pass_two
    else if c == 34
    then go_on outside depth
    else go_on in_quoted depth
slash_turn has_next outside depth c =
    if c == 92 && has_next
    then pass_two
    else if c == 91
    then go_on in_class depth
    else if c == 34
    then go_on in_quoted depth
    else if c == 40
    then go_on outside (depth + 1)
    else if c == 41
    then go_on outside (depth - 1)
    else if c == 47 && depth == 0
    then found
    else go_on outside depth

-- The loop, at index `i`.
pub slash_from : Mode → ℕ → ℕ → Text → Option ℕ
unfolding slash_turn
slash_from m depth i [] = none
slash_from m depth i (c ∷ []) = elim (slash_turn false m depth c) [
  | pass_two ↦ none
  | found ↦ some i
  | go_on m' d ↦ none
]
slash_from m depth i (c ∷ c' ∷ s) = elim (slash_turn true m depth c) [
  | pass_two ↦ slash_from m depth (i + 2) s
  | found ↦ some i
  | go_on m' d ↦ slash_from m' d (i + 1) (c' ∷ s)
]

-- -1 is `none`.
unfoldable pub find_top_level_slash : Text → Option ℕ
unfolding slash_from
find_top_level_slash src = slash_from outside 0 0 src

pub peek_is_eol_anchor : Node → Bool
peek_is_eol_anchor anchor_eol = true
peek_is_eol_anchor (concat a anchor_eol) = true
peek_is_eol_anchor _ = false

pub strip_eol_anchor : Node → Node
strip_eol_anchor anchor_eol = null
strip_eol_anchor (concat a anchor_eol) = a
strip_eol_anchor n = n

pub record ParsedPattern : Type 0 where
  pub tree : Node
  pub trail_len : ℤ
  pub eol_anchored : Bool

-- `return {};`
abbrev pub no_pattern : ParsedPattern
no_pattern = record { tree = null; trail_len = pos 0; eol_anchored = false }

-- `head_bol` and what is left of `r`.
pub lift_bol : Node → Bool × Node
lift_bol (concat anchor_bol b) = (true, b)
lift_bol r = (false, r)

abbrev pub non_null : Node → Node
non_null null = empty
non_null n = n

abbrev pub newline : Node
newline = class (add no_bytes 10)

abbrev pub with_newline : Bool → Node → Node
with_newline has_eol n = if has_eol then concat n newline else n

abbrev pub with_bol : Bool → Node → Node
with_bol head_bol n = if head_bol then concat anchor_bol n else n

-- The two trees: for a tail of fixed length, and with the mark.
abbrev pub fixed_trail : Node → Node → Bool → Bool → Node
fixed_trail r s has_eol head_bol = with_bol head_bol (with_newline has_eol (concat r (non_null s)))

abbrev pub marked_trail : Node → Node → Bool → Bool → Node
marked_trail r s has_eol head_bol =
    with_bol head_bol (concat r (with_newline has_eol (concat trail_boundary (non_null s))))

pub is_missing : Node → Bool
is_missing null = true
is_missing _ = false

-- What `parse_pattern` does with the trees of `r` and `s`.
unfoldable pub combine : Node → Node → List Message → ParsedPattern × List Message
unfolding peek_is_eol_anchor strip_eol_anchor lift_bol is_missing fixed_length
combine r0 s ms =
    let (head_bol, r) = lift_bol r0 in
    let s_had_eol = peek_is_eol_anchor s in
    let s_body = strip_eol_anchor s in
    let len = fixed_length s_body in
    if is_missing r0 || is_missing s
    then (no_pattern, ms)
    else if peek_is_eol_anchor r
    then (no_pattern, ms ++ head_dollar ∷ [])
    else if is_neg len
    then (
      record {
        tree = marked_trail r s_body s_had_eol head_bol;
        trail_len = minus_one;
        eol_anchored = false;
      },
      if is_neg (fixed_length r) then ms ++ dangerous_trail ∷ [] else ms,
    )
    else (
      record {
        tree = fixed_trail r s_body s_had_eol head_bol;
        trail_len = to_int (len +ℤ (if s_had_eol then pos 1 else pos 0));
        eol_anchored = false;
      },
      ms,
    )

unfoldable pub take_text : ℕ → Text → Text
take_text zero s = []
take_text (suc k) [] = []
take_text (suc k) (c ∷ s) = c ∷ take_text k s

unfoldable pub drop_text : ℕ → Text → Text
drop_text zero s = s
drop_text (suc k) [] = []
drop_text (suc k) (c ∷ s) = drop_text k s

-- The pattern and the messages; `none` if `fuel` does not bound the depth of the expression.
unfoldable pub parse_pattern :
    ℕ → (Text → Option Text) → Bool → Text → List Message → Option (ParsedPattern × List Message)
unfolding find_top_level_slash parse_regex combine peek_is_eol_anchor take_text drop_text
parse_pattern fuel macros ci src ms = elim (find_top_level_slash src) [
  | none ↦ elim (parse_regex fuel macros ci src ms) [
    | none ↦ none
    | some (tree, ms') ↦
        some
          (record { tree = tree; trail_len = pos 0; eol_anchored = peek_is_eol_anchor tree }, ms')
  ]
  | some slash ↦ elim (parse_regex fuel macros ci (take_text slash src) ms) [
    | none ↦ none
    | some (r, ms') ↦ elim (parse_regex fuel macros ci (drop_text (slash + 1) src) ms') [
      | none ↦ none
      | some (s, ms'') ↦ some (combine r s ms'')
    ]
  ]
]
