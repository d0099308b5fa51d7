-- ===== src/ByteSet/Laws.antt =====
-- The operations of a `ByteSet` are those of a set of bytes.
use lex_cpp.Prelude.{
  ℕ, zero, suc, ◌+◌, ◌-◌, ◌*◌, ◌/◌, ◌%◌, ◌^◌, ◌≤◌, ◌<◌, max, Bool, true, false, not, ◌||◌, ◌==◌,
  if◌then◌else◌, ◌≡◌, refl, arith, Bool-cases, inl, inr, ◌∙◌, ap,
}
use native.Mathlib.Nat.{pow-suc}
use Prim.Native.Nat.{bit_or, digits, bit_or-bitwise}
use lex_cpp.ByteSet.{
  ByteSet, shr, shl_one, complement, no_bytes, word, or_word, add, test, invert, is_empty,
}

-- The law of `|` for the lowest digit.
abbrev or_digits : ℕ → ℕ → ℕ → ℕ
or_digits n a b = digits (λ b. b) max n a b

or_digits_fuel : (n m a b : ℕ) → a ≤ n → a ≤ m → or_digits n a b ≡ or_digits m a b
or_digits_fuel zero zero a b p q = refl
or_digits_fuel zero (suc m) zero b p q = refl
or_digits_fuel zero (suc m) (suc a) b p q = absurd (omega arith)
or_digits_fuel (suc n) zero zero b p q = refl
or_digits_fuel (suc n) zero (suc a) b p q = absurd (omega arith)
or_digits_fuel (suc n) (suc m) zero b p q = refl
or_digits_fuel (suc n) (suc m) (suc a) b p q =
    omega (arith, or_digits_fuel n m (suc a / 2) (b / 2) (omega arith) (omega arith))

zero-bit_or : (b : ℕ) → bit_or 0 b ≡ b
zero-bit_or b = bit_or-bitwise 0 b

bit_or_step : (a b : ℕ) → bit_or a b ≡ bit_or (a / 2) (b / 2) * 2 + max (a % 2) (b % 2)
bit_or_step zero b = omega (arith, zero-bit_or b, zero-bit_or (b / 2))
bit_or_step (suc a) b = omega (
  arith,
  bit_or-bitwise (suc a) b,
  bit_or-bitwise (suc a / 2) (b / 2),
  or_digits_fuel a (suc a / 2) (suc a / 2) (b / 2) (omega arith) (omega arith),
)

abbrev bit : ℕ → ℕ → Bool
bit x k = shr x k % 2 == 1

bit_or-zero_fuel : (n a : ℕ) → a ≤ n → bit_or a 0 ≡ a
bit_or-zero_fuel n zero h = refl
bit_or-zero_fuel zero (suc a) h = absurd (omega arith)
bit_or-zero_fuel (suc n) (suc a) h =
    omega (arith, bit_or_step (suc a) 0, bit_or-zero_fuel n (suc a / 2) (omega arith))

bit_or-zero : (a : ℕ) → bit_or a 0 ≡ a
bit_or-zero a = bit_or-zero_fuel a a (omega arith)

half-bit_or : (x y : ℕ) → bit_or x y / 2 ≡ bit_or (x / 2) (y / 2)
half-bit_or x y = omega (arith, bit_or_step x y)

bit-or : (x k j : ℕ) → bit (bit_or x (shl_one k)) j ≡ (j == k || bit x j)
unfolding shr shl_one
bit-or x zero zero = ground (arith, bit_or_step x 1)
bit-or x zero (suc j) =
    let e : bit_or x 1 / 2 ≡ x / 2 = omega (arith, half-bit_or x 1, bit_or-zero (x / 2)) in
    ap (λ y. bit y j) e ∙ ground arith
bit-or x (suc k) zero = ground (arith, bit_or_step x (2 * shl_one k))
bit-or x (suc k) (suc j) =
    let e : (2 * shl_one k) / 2 ≡ shl_one k = omega arith in
    let e' : bit_or x (2 * shl_one k) / 2 ≡ bit_or (x / 2) (shl_one k) =
      half-bit_or _ _ ∙ ap (bit_or (x / 2)) e in
    ap (λ y. bit y j) e' ∙ bit-or (x / 2) k j ∙ ground arith

double_width : (n m : ℕ) → m + 1 ≡ 2 ^ suc n → m / 2 + 1 ≡ 2 ^ n × (m ≡ m / 2 * 2 + 1)
double_width n m e = (omega (arith, pow-suc 2 n), omega (arith, pow-suc 2 n))

-- The bits below `n` of the complement of a number on `n` bits.
bit-complement_width : (n m x j : ℕ) → m + 1 ≡ 2 ^ n → x ≤ m → j < n → bit (m - x) j ≡ not (bit x j)
unfolding shr
bit-complement_width zero m x j e h lt = absurd (omega arith)
bit-complement_width (suc n) m x zero e h lt = ground (arith, double_width n m e)
bit-complement_width (suc n) m x (suc j) e h lt =
    let (e', odd) = double_width n m e in
    let half : (m - x) / 2 ≡ m / 2 - x / 2 = omega arith in
    ap (λ y. bit y j) half ∙ bit-complement_width n (m / 2) (x / 2) j e' (omega arith) (omega arith)

word-or_word :
    (s : ByteSet) (i j m : ℕ)
    → i < 4
    → j < 4
    → word (or_word s i m) j ≡ (if j == i then bit_or (word s j) m else word s j)
unfolding word or_word
word-or_word s i j m hi hj = ground arith

word-invert : (s : ByteSet) (j : ℕ) → word (invert s) j ≡ complement (word s j)
unfolding word invert
word-invert s j = ground arith

-- Adding a byte adds that byte and no other.
pub test-add : (s : ByteSet) (b c : ℕ) → b < 256 → c < 256 → test (add s b) c ≡ (c == b || test s c)
unfolding test add
test-add s b c hb hc = ground (
  arith,
  word-or_word s (b / 64) (c / 64) (shl_one (b % 64)),
  bit-or (word s (c / 64)) (b % 64) (c % 64),
)

shr-zero : (k : ℕ) → shr 0 k ≡ 0
unfolding shr
shr-zero zero = refl
shr-zero (suc k) = shr-zero k

pub test-no_bytes : (c : ℕ) → test no_bytes c ≡ false
unfolding test word
test-no_bytes c = ground (arith, shr-zero (c % 64))

-- No byte is in an empty set.
pub test-is_empty : (s : ByteSet) (c : ℕ) → is_empty s ≡ true → test s c ≡ false
unfolding test word is_empty
test-is_empty s c h = ground (arith, shr-zero (c % 64))

-- A word that is not zero has a bit.
some_bit : (n x : ℕ) → x < 2 ^ n → 0 < x → (j : ℕ) × (j < n) × (bit x j ≡ true)
unfolding shr
some_bit zero x h p = absurd (omega (arith, h))
some_bit (suc n) x h p = elim (Bool-cases (x % 2 == 1)) [
  | inl odd ↦ (0, omega arith, odd)
  | inr even ↦
      let (j, hj, e) = some_bit n (x / 2) (omega (arith, pow-suc 2 n)) (ground arith) in
      (suc j, omega arith, e)
]

-- Every word has 64 bits.
pub record IsWide (s : ByteSet) : Type 0 where
  pub wide0 : s.w0 < 2 ^ 64
  pub wide1 : s.w1 < 2 ^ 64
  pub wide2 : s.w2 < 2 ^ 64
  pub wide3 : s.w3 < 2 ^ 64

word-lt : (s : ByteSet) (j : ℕ) → IsWide s → word s j < 2 ^ 64
unfolding word
word-lt s j h = ground arith

pub test-invert : (s : ByteSet) (c : ℕ) → IsWide s → c < 256 → test (invert s) c ≡ not (test s c)
unfolding test
test-invert s c h hc =
    let w : word s (c / 64) < 2 ^ 64 = word-lt s (c / 64) h in
    ap (λ y. bit y (c % 64)) (word-invert s (c / 64))
    ∙ bit-complement_width 64 (2 ^ 64 - 1) (word s (c / 64)) (c % 64) refl (omega arith)
        (omega arith)

some_test :
    (s : ByteSet) (j : ℕ)
    → IsWide s
    → j < 4
    → 0 < word s j
    → (b : ℕ) × (b < 256) × (test s b ≡ true)
unfolding test
some_test s j h hj p =
    let w : word s j < 2 ^ 64 = word-lt s j h in
    let (k, hk, e) = some_bit 64 (word s j) w p in
    let quot : (j * 64 + k) / 64 ≡ j = omega arith in
    let rem : (j * 64 + k) % 64 ≡ k = omega arith in (j * 64 + k, omega arith, rw (quot, rem) e)

-- A set of 64-bit words that is not empty has a byte.
pub is_empty-byte :
    (s : ByteSet) → IsWide s → is_empty s ≡ false → (b : ℕ) × (b < 256) × (test s b ≡ true)
unfolding is_empty word
is_empty-byte s h e = elim (Bool-cases (s.w0 == 0)) [
  | inr p ↦ some_test s 0 h (omega arith) (ground arith)
  | inl p ↦ elim (Bool-cases (s.w1 == 0)) [
    | inr q ↦ some_test s 1 h (omega arith) (ground arith)
    | inl q ↦ elim (Bool-cases (s.w2 == 0)) [
      | inr r ↦ some_test s 2 h (omega arith) (ground arith)
      | inl r ↦ some_test s 3 h (omega arith) (ground arith)
    ]
  ]
]
