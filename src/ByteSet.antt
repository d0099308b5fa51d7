-- ===== src/ByteSet.antt =====
-- src/regex.hpp, `struct ByteSet`: 256 flags in four 64-bit words. A byte is a number below 256.
pub mod Laws
use lex_cpp.Prelude.{
  ℕ, zero, suc, ◌+◌, ◌-◌, ◌*◌, ◌/◌, ◌%◌, ◌^◌, Bool, true, false, ◌&&◌, ◌==◌, if◌then◌else◌,
}
use Prim.Native.Nat.{bit_or}

-- `x >> k`
pub shr : ℕ → ℕ → ℕ
shr x zero = x
shr x (suc k) = shr (x / 2) k

-- `1ULL << k`, for k below 64
pub shl_one : ℕ → ℕ
shl_one zero = 1
shl_one (suc k) = 2 * shl_one k

-- `~x` on 64 bits
abbrev pub complement : ℕ → ℕ
complement x = 2 ^ 64 - 1 - x

-- `w[0]` to `w[3]`
pub record ByteSet : Type 0 where
  pub w0 : ℕ
  pub w1 : ℕ
  pub w2 : ℕ
  pub w3 : ℕ

abbrev pub no_bytes : ByteSet
no_bytes = record { w0 = 0; w1 = 0; w2 = 0; w3 = 0 }

-- `w[i & 3]`
pub word : ByteSet → ℕ → ℕ
word s i =
    if i % 4 == 0 then s.w0 else if i % 4 == 1 then s.w1 else if i % 4 == 2 then s.w2 else s.w3

-- `w[i & 3] |= m`
pub or_word : ByteSet → ℕ → ℕ → ByteSet
or_word s i m =
    if i % 4 == 0
    then record s { w0 = bit_or s.w0 m }
    else if i % 4 == 1
    then record s { w1 = bit_or s.w1 m }
    else if i % 4 == 2
    then record s { w2 = bit_or s.w2 m }
    else record s { w3 = bit_or s.w3 m }

unfoldable pub add : ByteSet → ℕ → ByteSet
unfolding or_word shl_one
add s b = or_word s (b / 64) (shl_one (b % 64))

unfoldable pub test : ByteSet → ℕ → Bool
unfolding word shr
test s b = shr (word s (b / 64)) (b % 64) % 2 == 1

unfoldable pub invert : ByteSet → ByteSet
invert s = record {
  w0 = complement s.w0;
  w1 = complement s.w1;
  w2 = complement s.w2;
  w3 = complement s.w3;
}

unfoldable pub is_empty : ByteSet → Bool
is_empty s = s.w0 == 0 && (s.w1 == 0 && (s.w2 == 0 && s.w3 == 0))
