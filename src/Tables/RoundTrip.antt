-- ===== src/Tables/RoundTrip.antt =====
-- What src/tables.cpp writes can be read back.
use lex_cpp.Prelude.{
  ℕ, zero, suc, ◌+◌, ◌-◌, ◌*◌, ◌^◌, ◌<◌, ◌≡◌, refl, ap, ◌∙◌, List, [], ◌∷◌, ◌++◌, length,
  append_assoc, arith, Option, none, some, ltb, if◌then◌else◌,
}
use lex_cpp.Prelude.Int.{ℤ, pos, negsuc}
use lex_cpp.Tables.{Output, put_u32, put_i32, pattern_of, put_all}

-- The reader of the documented format: a 32-bit number, the highest byte first.
abbrev pub read_u32 : Output → Option (ℕ × Output)
read_u32 (a ∷ b ∷ c ∷ d ∷ rest) = some (a * 2 ^ 24 + b * 2 ^ 16 + c * 2 ^ 8 + d, rest)
read_u32 _ = none

-- The integer of a 32-bit pattern.
abbrev pub signed32 : ℕ → ℤ
signed32 w = if ltb w (2 ^ 31) then pos w else negsuc (2 ^ 32 - 1 - w)

-- It fits an `int32_t`.
abbrev pub Fits32 : ℤ → Type 0
Fits32 (pos n) = n < 2 ^ 31
Fits32 (negsuc n) = n < 2 ^ 31

pub read-put_u32 :
    (v : ℕ) (rest : Output) → v < 2 ^ 32 → read_u32 (put_u32 v ++ rest) ≡ some (v, rest)
unfolding put_u32
read-put_u32 v rest h = ground arith

signed32-pattern_of : (v : ℤ) → Fits32 v → (signed32 (pattern_of v) ≡ v) × (pattern_of v < 2 ^ 32)
unfolding pattern_of
signed32-pattern_of (pos n) h = ground arith
signed32-pattern_of (negsuc n) h = ground arith

abbrev pub All32 : List ℤ → Type 0
All32 [] = Unit
All32 (v ∷ vs) = Fits32 v × All32 vs

abbrev with_first : ℕ → Option (List ℤ × Output) → Option (List ℤ × Output)
with_first w none = none
with_first w (some (vs, rest)) = some (signed32 w ∷ vs, rest)

abbrev then_next :
    (Output → Option (List ℤ × Output)) → Option (ℕ × Output) → Option (List ℤ × Output)
then_next next none = none
then_next next (some (w, rest)) = with_first w (next rest)

-- `k` integers, one after another.
abbrev pub read_many : ℕ → Output → Option (List ℤ × Output)
read_many zero out = some ([], out)
read_many (suc k) out = then_next (read_many k) (read_u32 out)

read_many-suc :
    (k : ℕ) (out : Output) (w : ℕ) (rest : Output) (vs : List ℤ) (rest' : Output)
    → read_u32 out ≡ some (w, rest)
    → read_many k rest ≡ some (vs, rest')
    → read_many (suc k) out ≡ some (signed32 w ∷ vs, rest')
read_many-suc k out w rest vs rest' e e' = ap (then_next (read_many k)) e ∙ ap (with_first w) e'

-- A vector of 32-bit integers is read back from what was written for it, and nothing more is read.
pub read_many-put_all :
    (vs : List ℤ) (rest : Output)
    → All32 vs
    → read_many (length vs) (put_all put_i32 vs ++ rest) ≡ some (vs, rest)
unfolding put_all put_i32
read_many-put_all [] rest h = refl
read_many-put_all (v ∷ vs) rest (h, hs) =
    let (back, lt) = signed32-pattern_of v h in
    let first : read_u32 (put_i32 v ++ put_all put_i32 vs ++ rest)
        ≡ some (pattern_of v, put_all put_i32 vs ++ rest) =
      ap read_u32 (append_assoc (put_u32 (pattern_of v)) (put_all put_i32 vs) rest)
      ∙ read-put_u32 (pattern_of v) (put_all put_i32 vs ++ rest) lt in
    read_many-suc (length vs) _ (pattern_of v) _ vs rest first (read_many-put_all vs rest hs)
    ∙ ap (λ x. some (x ∷ vs, rest)) back

-- Every table of `k` integers takes `4 * k` bytes.
pub length-put_all :
    {A : Type 0} (put : A → ℤ) (vs : List A)
    → length (put_all (λ v. put_i32 (put v)) vs) ≡ 4 * length vs
unfolding put_all put_i32 put_u32
length-put_all put [] = omega arith
length-put_all put (v ∷ vs) = omega (arith, length-put_all put vs)
