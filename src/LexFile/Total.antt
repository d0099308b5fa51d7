-- ===== src/LexFile/Total.antt =====
-- Each turn of the loop of the rules section of src/source.cpp takes a byte, and the file is read.
use lex_cpp.Prelude.{
  ℕ, zero, suc, ◌+◌, ◌-◌, ◌≤◌, ◌<◌, ◌≡◌, refl, sym, subst, Bool, true, false, ◌&&◌, ◌||◌, not,
  Option-cases, inl, inr, List, [], ◌∷◌, length, ◌==◌, if_both, arith, Option, none, some,
}
use lex_cpp.Chars.{Text, peek, advance, at_end}
use lex_cpp.Options.{is_blank, skip_while}
use lex_cpp.Options.Conds.{skip_while-length}
use lex_cpp.Pattern.{drop_text}
use lex_cpp.RuleText.{Prefix, read_prefix, read_pattern}
use lex_cpp.LexFile.{Reader, ScBlock, Rule, move_to, start_reader}
use lex_cpp.LexFile.Scan.{skip_blanks, skip_line, skip_line_comment, starts_with}
use lex_cpp.LexFile.Section1.{parse_section1}
use lex_cpp.LexFile.RuleLine.{inherit, push_rule, parse_rule, eof_word}
use lex_cpp.LexFile.Section2.{
  add_prologue, prologue_block, indented_line, behind_brace, is_blank_or_newline, block_opener,
  opener_or_rule, dispatch_in, no_blocks, indented, section2_turn, parse_section2,
}
use lex_cpp.LexFile.Whole.{parse, parse_section3, unless_at_end, last_section, then_section2}
use lex_cpp.LexFile.Length.{
  length-advance, length-skip_newline, length-skip_line, length-read_line, length-skip_comment,
  length-skip_line_comment, length-verbatim_lines, length-read_action, length-read_prefix,
  length-read_pattern,
}
use lex_cpp.LexFile.Progress.{Shrinks, section_loop-some, length-at_end, parse_section1-some}

-- The text that is left gets shorter.
abbrev Takes : Reader → Reader → Type 0
Takes r r' = length r'.rest < length r.rest

inherit-rest : (p : Prefix) (blks : List ScBlock) → (inherit p blks).rest ≡ p.rest
unfolding inherit
inherit-rest p [] = refl
inherit-rest p (blk ∷ blks) = ground arith

length-drop_text : (k : ℕ) (s : Text) → length (drop_text k s) ≤ length s - k
unfolding drop_text
length-drop_text zero s = omega arith
length-drop_text (suc k) [] = omega arith
length-drop_text (suc k) (c ∷ s) = omega (arith, length-drop_text k s)

length-eof_word : (s : Text) → starts_with eof_word s ≡ true → 0 < length s
unfolding starts_with
length-eof_word [] h = cc
length-eof_word (c ∷ s) h = omega arith

push_rule-rest :
    (p : Prefix) (b : Bool) (t behind : Text) (r : Reader)
    → length (push_rule p b t behind r).rest ≤ length behind
unfolding push_rule move_to
push_rule-rest p b t behind r =
    omega (arith, length-read_action (skip_blanks behind), skip_while-length is_blank behind)

parse_rule-Takes : (r : Reader) → 0 < length r.rest → Takes r (parse_rule r)
unfolding parse_rule move_to
parse_rule-Takes r h =
    let p : Prefix = inherit (read_prefix r.rest) r.sc_blocks in
    let same : p.rest ≡ (read_prefix r.rest).rest = inherit-rest (read_prefix r.rest) r.sc_blocks in
    let (le, lt, eq) = length-read_prefix r.rest in
    let fewer : length p.rest ≤ length r.rest =
      subst (λ (t : Text). length t ≤ length r.rest) (sym same) le in
    let pattern : Text = (read_pattern p.rest).0 in
    let behind : Text = (read_pattern p.rest).1 in
    let parts : length pattern + length behind ≡ length p.rest = length-read_pattern p.rest in
    if_both (Takes r) (starts_with eof_word p.rest)
      (λ e. omega (
        arith,
        push_rule-rest p true [] (drop_text 7 p.rest) r,
        length-drop_text 7 p.rest,
        length-eof_word p.rest e,
      ))
      (λ _.
        if_both (Takes r) (at_end pattern) (λ _. omega (arith, length-skip_line behind))
          (λ e. omega (arith, push_rule-rest p false pattern behind r, length-at_end pattern e)))

length-behind_brace : (s : Text) → length (behind_brace s) ≤ length s
unfolding behind_brace
length-behind_brace s =
    let t : Text = skip_blanks s in
    let u : Text = skip_line_comment (advance (advance t)) in
    ground (
      arith,
      skip_while-length is_blank s,
      skip_while-length is_blank u,
      length-skip_line_comment (advance (advance t)),
      length-advance (advance t),
      length-advance t,
    )

length-block_opener :
    (s : Text) (blk : ScBlock) (rest : Text)
    → block_opener s ≡ some (blk, rest)
    → length rest < length s
unfolding block_opener
length-block_opener s blk rest h =
    let p : Prefix = read_prefix s in
    let t : Text = skip_while is_blank_or_newline p.rest in
    let end : Text = behind_brace (advance t) in
    let (le, lt, eq) = length-read_prefix s in
    ground (
      arith,
      h,
      lt,
      skip_while-length is_blank_or_newline p.rest,
      length-advance t,
      length-behind_brace (advance t),
      length-skip_newline end,
    )

opener_or_rule-Takes : (r : Reader) → 0 < length r.rest → Takes r (opener_or_rule r)
unfolding opener_or_rule move_to
opener_or_rule-Takes r h = elim (Option-cases (block_opener r.rest)) [
  | inl e ↦ rw (e, opener_or_rule) (parse_rule-Takes r h)
  | inr ((blk, rest), e) ↦ rw (e, opener_or_rule) (length-block_opener r.rest blk rest e)
]

dispatch_in-Takes :
    (blks : List ScBlock) (r : Reader) → 0 < length r.rest → Takes r (dispatch_in blks r)
unfolding dispatch_in move_to
dispatch_in-Takes [] r h = opener_or_rule-Takes r h
dispatch_in-Takes (blk ∷ blks) r h =
    let behind : Text = skip_blanks (advance r.rest) in
    if_both (Takes r) (peek r.rest 0 == b'}')
      (λ _.
        if_both (Takes r) (at_end behind || peek behind 0 == 10)
          (λ _. omega (
            arith,
            length-skip_newline behind,
            skip_while-length is_blank (advance r.rest),
            length-advance r.rest,
          ))
          (λ _. opener_or_rule-Takes (record (move_to behind r) { rest = r.rest }) h))
      (λ _. opener_or_rule-Takes r h)

indented_line-Takes :
    (rules : List Rule) (r : Reader) → 0 < length r.rest → Takes r (indented_line rules r)
unfolding indented_line move_to
indented_line-Takes [] r h = omega (arith, length-read_line r.rest)
indented_line-Takes (rule ∷ rules) r h = omega (arith, length-read_line r.rest)

-- Where a blank stands first, what the turn skips is at least that.
blank_first :
    (s : Text) → 0 < length s → is_blank (peek s 0) ≡ true → length (skip_blanks s) < length s
unfolding skip_while
blank_first [] h e = absurd (omega arith)
blank_first (c ∷ s) h e = rw (e, skip_while) (omega (arith, skip_while-length is_blank s))

indented-Takes :
    (r : Reader) → 0 < length r.rest → is_blank (peek r.rest 0) ≡ true → Takes r (indented r)
unfolding indented move_to
indented-Takes r h e =
    let s : Text = skip_blanks r.rest in
    let less : length s < length r.rest = blank_first r.rest h e in
    let here : Reader = move_to s r in
    if_both (Takes r) (at_end s || peek s 0 == 10) (λ _. omega (arith, less, length-skip_newline s))
      (λ f.
        let some_left : 0 < length s = length-at_end s (ground (arith, f)) in
        if_both (Takes r) (peek s 0 == b'/' && peek s 1 == b'*')
          (λ _. omega (
            arith,
            less,
            length-skip_comment (advance (advance s)),
            length-advance (advance s),
            length-advance s,
          ))
          (λ _.
            if_both (Takes r) (peek s 0 == b'<' || peek s 0 == b'}' && not (no_blocks r.sc_blocks))
              (λ _. omega (arith, less, dispatch_in-Takes r.sc_blocks here some_left))
              (λ _.
                if_both (Takes r) (no_blocks r.sc_blocks) (λ _. indented_line-Takes r.out.rules r h)
                  (λ _. omega (arith, less, parse_rule-Takes here some_left)))))

section2_turn-Shrinks : (r : Reader) → 0 < length r.rest → Shrinks r (section2_turn r)
unfolding section2_turn prologue_block add_prologue move_to
section2_turn-Shrinks r h =
    let s : Text = r.rest in
    let behind : Text = advance (advance s) in
    if_both (Shrinks r) (peek s 0 == 10) (λ _. omega (arith, length-advance s))
      (λ _.
        if_both (Shrinks r) (peek s 0 == b'%' && peek s 1 == b'%') (λ _. tt)
          (λ _.
            if_both (Shrinks r) (peek s 0 == b'%' && peek s 1 == b'{')
              (λ _. omega (
                arith,
                length-verbatim_lines (length (skip_line behind)) (skip_line behind),
                length-skip_line behind,
                length-advance (advance s),
                length-advance s,
              ))
              (λ _.
                if_both (Shrinks r) (peek s 0 == b'/' && peek s 1 == b'*')
                  (λ _. omega (
                    arith,
                    length-skip_comment behind,
                    length-advance (advance s),
                    length-advance s,
                  ))
                  (λ _.
                    if_both (Shrinks r) (is_blank (peek s 0)) (λ e. indented-Takes r h e)
                      (λ _. dispatch_in-Takes r.sc_blocks r h)))))

parse_section2-some : (r : Reader) → (r' : Reader) × (parse_section2 r ≡ some r')
unfolding parse_section2
parse_section2-some r =
    section_loop-some section2_turn (λ x e. section2_turn-Shrinks x (length-at_end x.rest e))
      (length r.rest) r (omega arith)

unless_at_end-some :
    (b : Bool) (r : Reader) (more : Option Reader)
    → ((r' : Reader) × (more ≡ some r'))
    → (r' : Reader) × (unless_at_end b r more ≡ some r')
unless_at_end-some true r more h = (r, refl)
unless_at_end-some false r more h = h

last_section-some :
    (o : Option Reader) → ((r : Reader) × (o ≡ some r)) → (r' : Reader) × (last_section o ≡ some r')
last_section-some none (r, e) = cc
last_section-some (some r) h =
    unless_at_end-some (at_end r.rest) r (some (parse_section3 r)) (parse_section3 r, refl)

then_section2-some :
    (o : Option Reader)
    → ((r : Reader) × (o ≡ some r))
    → (r' : Reader) × (then_section2 o ≡ some r')
then_section2-some none (r, e) = cc
then_section2-some (some r) h =
    unless_at_end-some (at_end r.rest) r (last_section (parse_section2 r))
      (last_section-some (parse_section2 r) (parse_section2-some r))

-- Every text is read: no loop over the lines of a section runs out of fuel.
pub parse-some : (src : Text) → (r : Reader) × (parse src ≡ some r)
unfolding parse
parse-some src =
    then_section2-some (parse_section1 (start_reader src)) (parse_section1-some (start_reader src))
