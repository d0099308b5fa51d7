-- ===== src/Regex.antt =====
-- src/regex.hpp and the syntax trees of src/regex.cpp.
-- A `NodePtr` is a `Node`: `null` is the empty pointer, and a constructor for each `NodeKind` holds
-- the fields that the kind uses.
pub mod Language
pub mod Meaning
pub mod Length
use lex_cpp.Prelude.{ℕ, zero, suc, ◌≤◌, Bool, true, false, ◌&&◌, not, ◌==◌, if◌then◌else◌}
use lex_cpp.Prelude.Int.{ℤ, pos, negsuc, to_int, ◌+ℤ◌, ◌*ℤ◌, is_neg, ◌==ℤ◌}
use lex_cpp.ByteSet.{ByteSet}

pub data Node : Type 0 where
  null empty : Node
  class : ByteSet → Node
  concat alt : Node → Node → Node
  star plus question : Node → Node
  -- the body, `lo` and `hi`
  repeat : Node → ℕ → ℕ → Node
  anchor_bol anchor_eol trail_boundary : Node

-- `Node::kInf`
abbrev pub k_inf : ℕ
k_inf = 0xffff_ffff

abbrev pub minus_one : ℤ
minus_one = negsuc 0

-- An `int` that overflows wraps around, which C++ itself leaves open for a sum and a product.
unfoldable pub fixed_length : Node → ℤ
fixed_length null = pos 0
fixed_length empty = pos 0
fixed_length (class s) = pos 1
fixed_length (concat a b) =
    let la = fixed_length a in
    let lb = fixed_length b in
    if is_neg la then minus_one else if is_neg lb then minus_one else to_int (la +ℤ lb)
fixed_length (alt a b) =
    let la = fixed_length a in
    let lb = fixed_length b in
    if is_neg la
    then minus_one
    else if is_neg lb
    then minus_one
    else if la ==ℤ lb
    then la
    else minus_one
fixed_length (star a) = minus_one
fixed_length (plus a) = minus_one
fixed_length (question a) = minus_one
fixed_length (repeat a lo hi) =
    let la = fixed_length a in
    if lo == hi && not (hi == k_inf)
    then (if is_neg la then minus_one else to_int (la *ℤ to_int (pos lo)))
    else minus_one
fixed_length anchor_bol = pos 0
fixed_length anchor_eol = pos 0
fixed_length trail_boundary = pos 0
