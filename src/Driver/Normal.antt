-- ===== src/Driver/Normal.antt =====
-- `normalise_source` of src/main.cpp undoes the byte order mark and the line ends of other systems.
use lex_cpp.Prelude.{ℕ, ◌≡◌, ◌≢◌, refl, ap, ◌∙◌, [], ◌∷◌, ◌++◌, arith, ◌==◌, if◌then◌else◌, if_both}
use lex_cpp.Chars.{Text}
use lex_cpp.Pattern.{drop_text}
use lex_cpp.Driver.{strip_bom, collapse_crlf, normalise_source}

abbrev pub byte_order_mark : Text
byte_order_mark = 0xef ∷ 0xbb ∷ 0xbf ∷ []

-- Each newline as CR LF.
abbrev pub to_crlf : Text → Text
to_crlf [] = []
to_crlf (c ∷ s) = let rest = to_crlf s in if c == 10 then 13 ∷ 10 ∷ rest else c ∷ rest

abbrev pub HasNoCr : Text → Type 0
HasNoCr [] = Unit
HasNoCr (c ∷ s) = (c ≢ 13) × HasNoCr s

collapse_crlf-other : (c : ℕ) (s : Text) → c ≢ 13 → collapse_crlf (c ∷ s) ≡ c ∷ collapse_crlf s
unfolding collapse_crlf
collapse_crlf-other c [] h = refl
collapse_crlf-other c (d ∷ s) h = ground (arith, h)

collapse_crlf-pair : (s : Text) → collapse_crlf (13 ∷ 10 ∷ s) ≡ 10 ∷ collapse_crlf s
unfolding collapse_crlf
collapse_crlf-pair s = collapse_crlf-other 10 s (omega arith)

collapse_crlf-to_crlf : (s : Text) → HasNoCr s → collapse_crlf (to_crlf s) ≡ s
unfolding collapse_crlf
collapse_crlf-to_crlf [] h = refl
collapse_crlf-to_crlf (c ∷ s) (here, later) =
    let ih = collapse_crlf-to_crlf s later in
    if_both (λ (t : Text). collapse_crlf t ≡ c ∷ s) (c == 10)
      (λ e.
        let same : 10 ≡ c = ground (arith, e) in
        collapse_crlf-pair (to_crlf s) ∙ ap (λ r. 10 ∷ r) ih ∙ ap (λ k. k ∷ s) same)
      (λ _. collapse_crlf-other c (to_crlf s) here ∙ ap (λ r. c ∷ r) ih)

-- A text with no CR that is written with a byte order mark and with CR LF for each newline is read as
-- it was.
pub normalise_source-dos :
    (s : Text) → HasNoCr s → normalise_source (byte_order_mark ++ to_crlf s) ≡ s
unfolding normalise_source strip_bom drop_text
normalise_source-dos s h = collapse_crlf-to_crlf s h
