-- ===== src/LexFile/Progress.antt =====
-- Each turn of the section loops of src/source.cpp takes a byte, so that they end.
use lex_cpp.Prelude.{
  ℕ, zero, suc, ◌≤◌, ◌<◌, ◌≡◌, refl, subst, true, false, ◌||◌, Bool-cases, inl, inr, ◌⊎◌, [], ◌∷◌,
  length, ◌==◌, if_both, arith, some,
}
use lex_cpp.Chars.{Text, peek, advance, at_end}
use lex_cpp.Options.{is_blank, skip_while}
use lex_cpp.Options.Conds.{skip_while-length}
use lex_cpp.LexFile.{Reader, move_to}
use lex_cpp.LexFile.Scan.{skip_blanks, skip_line, read_line, top_body, is_ident_cont}
use lex_cpp.LexFile.Section1.{
  Turn, finish, again, line_kind, LineKind, empty_line, divider_line, top_line, verbatim_start,
  option_start, cond_start, comment_start, code_line, definition_line, other_line, line_turn,
  section1_turn, section_loop, parse_section1, keep_line, divider, top_block, verbatim_block,
  option_line, cond_line, definition, behind_top, not_blank_nor_newline,
}
use lex_cpp.LexFile.Length.{
  length-advance, length-skip_line, length-read_line, length-skip_comment, length-verbatim_lines,
  length-top_body,
}

-- A turn returns, or leaves less than it was given.
abbrev pub Shrinks : Reader → Turn → Type 0
Shrinks r (finish r') = Unit
Shrinks r (again r') = length r'.rest < length r.rest

Turn-cases : (t : Turn) → ((r : Reader) × (t ≡ finish r)) ⊎ ((r : Reader) × (t ≡ again r))
Turn-cases (finish r) = inl (r, refl)
Turn-cases (again r) = inr (r, refl)

empty-at_end : (s : Text) → length s ≤ 0 → at_end s ≡ true
unfolding at_end
empty-at_end [] h = refl
empty-at_end (c ∷ s) h = absurd (omega arith)

pub length-at_end : (s : Text) → at_end s ≡ false → 0 < length s
unfolding at_end
length-at_end [] h = cc
length-at_end (c ∷ s) h = omega arith

pub section_loop-some :
    (turn : Reader → Turn)
    → ((r : Reader) → at_end r.rest ≡ false → Shrinks r (turn r))
    → (k : ℕ) (r : Reader) → length r.rest ≤ k
    → (r' : Reader) × (section_loop turn k r ≡ some r')
unfolding section_loop
section_loop-some turn h zero r le =
    let e : at_end r.rest ≡ true = empty-at_end r.rest le in (r, simp (e, section_loop))
section_loop-some turn h (suc k) r le = elim (Bool-cases (at_end r.rest)) [
  | inl e ↦ (r, simp (e, section_loop))
  | inr e ↦ elim (Turn-cases (turn r)) [
    | inl (r', f) ↦ (r', simp (e, f, section_loop))
    | inr (r', f) ↦
        let less : length r'.rest < length r.rest = subst (Shrinks r) f (h r e) in
        let (last, g) = section_loop-some turn h k r' (omega (arith, less)) in
        (last, simp (e, f, section_loop) g)
  ]
]

keep_line-rest : (r : Reader) → (keep_line r).rest ≡ (read_line r.rest).1
unfolding keep_line move_to
keep_line-rest r = refl

divider-Shrinks : (r : Reader) → 0 < length r.rest → Shrinks r (divider r)
unfolding divider keep_line move_to
divider-Shrinks r h =
    let behind : Text = skip_blanks (advance (advance r.rest)) in
    if_both (Shrinks r) (peek behind 0 == 10 || at_end behind) (λ _. tt)
      (λ _. omega (arith, length-read_line r.rest))

line_turn-Shrinks : (k : LineKind) (r : Reader) → 0 < length r.rest → Shrinks r (line_turn k r)
unfolding line_turn keep_line top_block verbatim_block option_line cond_line definition move_to
line_turn-Shrinks empty_line r h = omega (arith, length-advance r.rest)
line_turn-Shrinks divider_line r h = divider-Shrinks r h
line_turn-Shrinks top_line r h =
    let s : Text = behind_top r.rest in
    let body : Text = (top_body 1 (advance s)).1 in
    omega (
      arith,
      length-skip_line body,
      length-top_body 1 (advance s),
      length-advance s,
      skip_while-length is_blank (advance (advance (advance (advance r.rest)))),
      length-advance (advance (advance (advance r.rest))),
      length-advance (advance (advance r.rest)),
      length-advance (advance r.rest),
      length-advance r.rest,
    )
line_turn-Shrinks verbatim_start r h =
    let s : Text = skip_line (advance (advance r.rest)) in
    omega (
      arith,
      length-verbatim_lines (length s) s,
      length-skip_line (advance (advance r.rest)),
      length-advance (advance r.rest),
      length-advance r.rest,
    )
line_turn-Shrinks option_start r h = omega (
  arith,
  length-skip_line (skip_while not_blank_nor_newline r.rest),
  skip_while-length not_blank_nor_newline r.rest,
)
line_turn-Shrinks cond_start r h = omega (
  arith,
  length-skip_line (advance (advance r.rest)),
  length-advance (advance r.rest),
  length-advance r.rest,
)
line_turn-Shrinks comment_start r h = omega (
  arith,
  length-skip_comment (advance (advance r.rest)),
  length-advance (advance r.rest),
  length-advance r.rest,
)
line_turn-Shrinks code_line r h = omega (arith, length-read_line r.rest)
line_turn-Shrinks definition_line r h =
    let s : Text = skip_while is_ident_cont r.rest in
    omega (
      arith,
      length-skip_line (skip_blanks s),
      skip_while-length is_blank s,
      skip_while-length is_ident_cont r.rest,
    )
line_turn-Shrinks other_line r h = omega (arith, length-skip_line r.rest)

pub parse_section1-some : (r : Reader) → (r' : Reader) × (parse_section1 r ≡ some r')
unfolding parse_section1 section1_turn
parse_section1-some r =
    section_loop-some section1_turn
      (λ x e. line_turn-Shrinks (line_kind x.rest) x (length-at_end x.rest e)) (length r.rest) r
      (omega arith)
