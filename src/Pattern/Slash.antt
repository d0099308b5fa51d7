-- ===== src/Pattern/Slash.antt =====
-- What `find_top_level_slash` of src/regex.cpp finds.
use lex_cpp.Prelude.{ℕ, ◌+◌, ◌≡◌, ◌∷◌, ◌++◌, length, some, none, Option}
use lex_cpp.Chars.{Text}
use lex_cpp.Pattern.{Mode, Turn, go_on}
use lex_cpp.Pattern.Scan.{Reads, ReadsAll, ReadsOut}

abbrev pub IsSlash : ℕ → Type 0
IsSlash c = c ≡ b'/'

-- What is read behind a turn that goes on.
abbrev Goes : Text → Mode → ℕ → Turn → Type 0
Goes s m' d' (go_on m d) = Reads IsSlash m d s m' d'
Goes s m' d' _ = ⊥

-- What is said of an answer for the text that is read from a place, where the text starts at index `i`.
-- Without an answer, no slash of the text is outside of everything; an answer is the index of the
-- first slash that is.
abbrev pub Finds : Mode → ℕ → ℕ → Text → Option ℕ → Type 0
Finds m d i s none = ReadsAll IsSlash m d s
Finds m d i s (some j) =
    (p : Text) × (rest : Text) × (s ≡ p ++ b'/' ∷ rest)
    × (j ≡ i + length p)
    × ReadsOut IsSlash m d p
