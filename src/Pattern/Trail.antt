-- ===== src/Pattern/Trail.antt =====
-- The length that src/regex.cpp gives for trailing context.
use lex_cpp.Prelude.{ℕ, suc, ◌%◌, ◌≡◌, List, ◌++◌, length, Bool, if◌then◌else◌}
use lex_cpp.Prelude.Int.{pos}
use lex_cpp.Regex.{Node}
use lex_cpp.Regex.Language.{Bytes}
use lex_cpp.Regex.Meaning.{Matches}
use lex_cpp.CharClass.{Message}
use lex_cpp.Pattern.{ParsedPattern}

-- A match of `r` with `k` bytes behind it, up to a multiple of 2 ^ 32.
abbrev pub HasTail : Node → ℕ → Bytes → Type 0
HasTail r k w = (u : Bytes) × (v : Bytes) × (w ≡ u ++ v) × Matches r u × (length v % 4294967296 ≡ k)

abbrev bytes_of : Bool → ℕ
bytes_of b = if b then 1 else 0

-- What the pattern says of a match.
abbrev HasTails : Node → ℕ → Bytes → ParsedPattern × List Message → Type 0
HasTails r n w (p, ms) = p.trail_len ≡ pos (suc n) → Matches p.tree w → HasTail r (suc n) w
