-- ===== src/LexFile/Length.antt =====
-- The scanning loops of src/source.cpp leave no more than they are given.
use lex_cpp.Prelude.{
  ℕ, zero, suc, ◌+◌, ◌-◌, ◌≤◌, ◌≡◌, refl, sym, ap, ◌∙◌, true, false, Bool-cases, inl, inr, ◌⊎◌,
  List, [], ◌∷◌, ◌++◌, length, length-append, ◌==◌, if◌then◌else◌, arith,
}
use lex_cpp.Chars.{Text, advance}
use lex_cpp.Options.{is_blank, is_space, skip_while}
use lex_cpp.Options.Conds.{skip_while-length}
use lex_cpp.RuleText.{put_before, flush, prefix_names, read_prefix, read_pattern}
use lex_cpp.RuleText.Split.{read_pattern-Splits}
use lex_cpp.LexFile.Scan.{
  skip_blanks, not_newline, skip_newline, skip_line, read_line, skip_comment, skip_line_comment,
  verbatim_lines, top_body, BraceMode, in_code, BraceTurn, one_more, two_more, brace_turn,
  brace_loop, read_brace_block, read_action,
}

pub length-advance : (s : Text) → length (advance s) ≤ length s - 1
unfolding advance
length-advance [] = omega arith
length-advance (c ∷ s) = omega arith

pub length-skip_newline : (s : Text) → length (skip_newline s) ≤ length s
length-skip_newline s = ground (arith, length-advance s)

pub length-skip_line : (s : Text) → length (skip_line s) ≤ length s - 1
unfolding skip_while advance
length-skip_line [] = omega arith
length-skip_line (c ∷ s) = elim (Bool-cases (c == 10)) [
  | inl e ↦ ground (arith, e)
  | inr e ↦
      ground
        (arith, e, length-skip_newline (skip_while not_newline s), skip_while-length not_newline s)
]

pub length-read_line : (s : Text) → length (read_line s).1 ≤ length s - 1
unfolding read_line put_before
length-read_line [] = omega arith
length-read_line (c ∷ s) = ground (arith, length-read_line s)

pub length-skip_comment : (s : Text) → length (skip_comment s) ≤ length s
unfolding skip_comment
length-skip_comment [] = omega arith
length-skip_comment (c ∷ []) = omega arith
length-skip_comment (c ∷ d ∷ s) = ground (arith, length-skip_comment (d ∷ s))

pub length-skip_line_comment : (s : Text) → length (skip_line_comment s) ≤ length s
unfolding skip_line_comment
length-skip_line_comment [] = omega arith
length-skip_line_comment (c ∷ []) = ground arith
length-skip_line_comment (c ∷ d ∷ s) = ground (arith, length-skip_line_comment (d ∷ s))

pub length-verbatim_lines : (k : ℕ) (s : Text) → length (verbatim_lines k s).1 ≤ length s
unfolding verbatim_lines
length-verbatim_lines zero s = omega arith
length-verbatim_lines (suc k) s = ground (
  arith,
  length-verbatim_lines k (read_line s).1,
  length-read_line s,
  length-skip_line (advance (advance s)),
  length-advance (advance s),
  length-advance s,
)

pub length-top_body : (depth : ℕ) (s : Text) → length (top_body depth s).1 ≤ length s
unfolding top_body put_before
length-top_body depth [] = omega arith
length-top_body depth (c ∷ s) = ground (
  arith,
  length-top_body (if c == b'{' then depth + 1 else if c == b'}' then depth - 1 else depth) s,
)

BraceTurn-cases :
    (t : BraceTurn)
    → ((m : BraceMode) × (k : ℕ) × (t ≡ one_more m k))
      ⊎ ((m : BraceMode) × (k : ℕ) × (t ≡ two_more m k))
BraceTurn-cases (one_more m k) = inl (m, k, refl)
BraceTurn-cases (two_more m k) = inr (m, k, refl)

pub length-brace_loop :
    (m : BraceMode) (depth : ℕ) (s : Text) → length (brace_loop m depth s).1 ≤ length s
unfolding brace_loop put_before
length-brace_loop m zero s = omega arith
length-brace_loop m (suc k) [] = omega arith
length-brace_loop m (suc k) (c ∷ []) = elim (BraceTurn-cases (brace_turn m (suc k) c 0 false)) [
  | inl (m', j, e) ↦ rw (e, brace_loop) (omega arith)
  | inr (m', j, e) ↦ rw (e, brace_loop) (omega arith)
]
length-brace_loop m (suc k) (c ∷ d ∷ s) = elim (BraceTurn-cases (brace_turn m (suc k) c d true)) [
  | inl (m', j, e) ↦ rw (e, brace_loop) (omega (arith, length-brace_loop m' j (d ∷ s)))
  | inr (m', j, e) ↦ rw (e, brace_loop) (omega (arith, length-brace_loop m' j s))
]

pub length-read_action : (s : Text) → length (read_action s).1 ≤ length s
unfolding read_action read_brace_block
length-read_action s = ground (
  arith,
  length-advance s,
  skip_while-length is_blank (advance s),
  skip_while-length not_newline s,
  length-skip_newline (skip_while not_newline s),
  length-skip_newline (skip_blanks (advance s)),
  length-brace_loop in_code 1 (advance s),
  length-skip_newline (brace_loop in_code 1 (advance s)).1,
)

length-prefix_names :
    (cur : Text) (conds : List Text) (s : Text) → length (prefix_names cur conds s).1 ≤ length s
unfolding prefix_names
length-prefix_names cur conds [] = omega arith
length-prefix_names cur conds (c ∷ s) =
    let next_cur : Text = if c == b',' then [] else if is_space c then cur else cur ++ c ∷ [] in
    let next_conds : List Text = if c == b',' then flush cur conds else conds in
    ground (arith, length-prefix_names next_cur next_conds s)

-- A list of conditions takes at least its bracket.
pub length-read_prefix :
    (s : Text)
    → (length (read_prefix s).rest ≤ length s)
      × ((read_prefix s).had_sc_prefix ≡ true → suc (length (read_prefix s).rest) ≤ length s)
      × ((read_prefix s).had_sc_prefix ≡ false → (read_prefix s).rest ≡ s)
unfolding read_prefix
length-read_prefix [] = ground arith
length-read_prefix (c ∷ s) =
    ground (arith, length-prefix_names [] [] s, length-advance s, length-advance (advance s))

-- A pattern takes its bytes.
pub length-read_pattern :
    (s : Text) → length (read_pattern s).0 + length (read_pattern s).1 ≡ length s
length-read_pattern s =
    sym (length-append (read_pattern s).0 (read_pattern s).1) ∙ ap length (read_pattern-Splits s).0
