-- ===== src/Codegen/Line.antt =====
-- The file name in a #line directive of src/codegen.cpp, read as a string of C.
use lex_cpp.Prelude.{
  ℕ, ◌≡◌, ◌≢◌, sym, true, Memᴰ, refl, ap, ◌∙◌, [], ◌∷◌, ◌++◌, ◌==◌, ◌||◌, if◌then◌else◌, Bool-cases,
  inl, inr, false, Option, none, some, arith,
}
use lex_cpp.Chars.{Text}
use lex_cpp.Codegen.{quote_byte, backslash, escape_name}

abbrev pub put_byte : ℕ → Option (Text × Text) → Option (Text × Text)
put_byte c none = none
put_byte c (some (s, rest)) = some (c ∷ s, rest)

-- The bytes up to the quote that ends the string, and what follows it. A newline cannot stand in the
-- string; a backslash stands before a backslash or a quote, and no other escape is read.
pub read_string : Text → Option (Text × Text)
read_string [] = none
read_string (c ∷ []) = if c == quote_byte then some ([], []) else none
read_string (c ∷ d ∷ s) =
    let escaped = put_byte d (read_string s) in
    let plain = put_byte c (read_string (d ∷ s)) in
    if c == quote_byte
    then some ([], d ∷ s)
    else if c == 10
    then none
    else if c == backslash
    then (if d == backslash || d == quote_byte then escaped else none)
    else plain

read_string-quote : (rest : Text) → read_string (quote_byte ∷ rest) ≡ some ([], rest)
unfolding read_string
read_string-quote [] = refl
read_string-quote (d ∷ s) = refl

read_string-escaped :
    (d : ℕ) (s : Text)
    → (d == backslash || d == quote_byte) ≡ true
    → read_string (backslash ∷ d ∷ s) ≡ put_byte d (read_string s)
unfolding read_string
read_string-escaped d s t = rw (t) refl

read_string-plain :
    (c : ℕ) (s : Text)
    → c ≢ 10
    → (c == backslash || c == quote_byte) ≡ false
    → read_string (c ∷ s) ≡ put_byte c (read_string s)
unfolding read_string
read_string-plain c [] n h = ground (arith, h)
read_string-plain c (d ∷ s) n h = ground (arith, h)

-- A name without a newline, which `emit_line_directive` writes between quotes, is read back, whatever
-- follows the closing quote.
pub read_string-escape_name :
    (name rest : Text)
    → ¬ Memᴰ 10 name
    → read_string (escape_name name ++ quote_byte ∷ rest) ≡ some (name, rest)
unfolding escape_name
read_string-escape_name [] rest h = read_string-quote rest
read_string-escape_name (c ∷ s) rest h =
    let ih = read_string-escape_name s rest (λ m. h (Memᴰ.tail m)) in
    elim (Bool-cases (c == backslash || c == quote_byte)) [
      | inl t ↦
          rw (t, escape_name)
            (read_string-escaped c (escape_name s ++ quote_byte ∷ rest) t ∙ ap (put_byte c) ih)
      | inr f ↦
          rw (f, escape_name)
            (read_string-plain c (escape_name s ++ quote_byte ∷ rest) (λ e. h (Memᴰ.head (sym e))) f
              ∙ ap (put_byte c) ih)
    ]
