-- ===== src/Pattern/Scan.antt =====
-- Where a reader of a pattern stands: in a class, in quotes, or outside in so many groups.
-- `find_top_level_slash` of src/regex.cpp and `read_pattern` of src/source.cpp both look for a byte
-- outside of all of these.
use lex_cpp.Prelude.{ℕ, ◌+◌, ◌-◌, ◌≡◌, ◌≢◌, [], ◌∷◌, ◌++◌, ◌⊎◌}
use lex_cpp.Chars.{Text}
use lex_cpp.Pattern.{Mode, outside, in_class, in_quoted}

-- The byte has no meaning of its own outside of classes and quotes.
abbrev pub IsPlain : ℕ → Type 0
IsPlain c = (c ≢ 92) × (c ≢ b'[') × (c ≢ b'"') × (c ≢ b'(') × (c ≢ b')')

-- The text leads from one place to another; no byte of it that is outside of everything, and not
-- behind a backslash, is one that ends the reading.
pub data Reads (Ends : ℕ → Type 0) : Mode → ℕ → Text → Mode → ℕ → Type 0 where
  nothing : (m : Mode) (d : ℕ) → Reads Ends m d [] m d
  escape :
      (m m' : Mode) (d d' c : ℕ) (s : Text)
      → Reads Ends m d s m' d'
      → Reads Ends m d (92 ∷ c ∷ s) m' d'
  open_class :
      (m' : Mode) (d d' : ℕ) (s : Text)
      → Reads Ends in_class d s m' d'
      → Reads Ends outside d (b'[' ∷ s) m' d'
  close_class :
      (m' : Mode) (d d' : ℕ) (s : Text)
      → Reads Ends outside d s m' d'
      → Reads Ends in_class d (b']' ∷ s) m' d'
  class_byte :
      (m' : Mode) (d d' c : ℕ) (s : Text)
      → c ≢ 92
      → c ≢ b']'
      → Reads Ends in_class d s m' d'
      → Reads Ends in_class d (c ∷ s) m' d'
  open_quote :
      (m' : Mode) (d d' : ℕ) (s : Text)
      → Reads Ends in_quoted d s m' d'
      → Reads Ends outside d (b'"' ∷ s) m' d'
  close_quote :
      (m' : Mode) (d d' : ℕ) (s : Text)
      → Reads Ends outside d s m' d'
      → Reads Ends in_quoted d (b'"' ∷ s) m' d'
  quoted_byte :
      (m' : Mode) (d d' c : ℕ) (s : Text)
      → c ≢ 92
      → c ≢ b'"'
      → Reads Ends in_quoted d s m' d'
      → Reads Ends in_quoted d (c ∷ s) m' d'
  open_group :
      (m' : Mode) (d d' : ℕ) (s : Text)
      → Reads Ends outside (d + 1) s m' d'
      → Reads Ends outside d (b'(' ∷ s) m' d'
  close_group :
      (m' : Mode) (d d' : ℕ) (s : Text)
      → Reads Ends outside (d - 1) s m' d'
      → Reads Ends outside d (b')' ∷ s) m' d'
  plain_byte :
      (m' : Mode) (d d' c : ℕ) (s : Text)
      → IsPlain c
      → (d ≡ 0 → ¬ Ends c)
      → Reads Ends outside d s m' d'
      → Reads Ends outside d (c ∷ s) m' d'

-- The text is read to its end, where a last backslash stands for itself.
abbrev pub ReadsAll : (ℕ → Type 0) → Mode → ℕ → Text → Type 0
ReadsAll Ends m d s =
    (m' : Mode) × (d' : ℕ) × (q : Text) × ((s ≡ q) ⊎ (s ≡ q ++ 92 ∷ [])) × Reads Ends m d q m' d'

-- The text is read up to a place outside of everything.
abbrev pub ReadsOut : (ℕ → Type 0) → Mode → ℕ → Text → Type 0
ReadsOut Ends m d p = Reads Ends m d p outside 0
