-- ===== src/Chars.antt =====
-- Characters and escapes in src/regex.cpp. A text is a list of bytes; a `string_view` with a position
-- is the list of the bytes from the position on.
use lex_cpp.Prelude.{
  ℕ, zero, suc, ◌+◌, ◌-◌, ◌*◌, ◌%◌, Bool, true, false, ◌&&◌, ◌||◌, List, [], ◌∷◌, get_or, ltb, leb,
  ◌==◌, if◌then◌else◌,
}
use lex_cpp.ByteSet.{ByteSet, no_bytes, add}
use lex_cpp.Regex.{Node, class}

abbrev pub Text : Type 0
Text = List ℕ

-- `peek(k)`: 0 past the end.
abbrev pub peek : Text → ℕ → ℕ
peek s k = get_or s k 0

-- `advance()`, for its effect on the position.
unfoldable pub advance : Text → Text
advance [] = []
advance (c ∷ s) = s

unfoldable pub at_end : Text → Bool
at_end [] = true
at_end (c ∷ s) = false

-- `lo <= c && c <= hi`
abbrev pub is_between : ℕ → ℕ → ℕ → Bool
is_between lo hi c = leb lo c && leb c hi

-- `std::isdigit` and its kin in the C locale.
abbrev pub is_digit : ℕ → Bool
is_digit c = is_between 48 57 c

abbrev pub is_alpha : ℕ → Bool
is_alpha c = is_between 65 90 c || is_between 97 122 c

abbrev pub is_alnum : ℕ → Bool
is_alnum c = is_alpha c || is_digit c

abbrev pub is_xdigit : ℕ → Bool
is_xdigit c = is_digit c || is_between 65 70 c || is_between 97 102 c

unfoldable pub same_text : Text → Text → Bool
same_text [] [] = true
same_text (c ∷ s) (d ∷ t) = c == d && same_text s t
same_text _ _ = false

unfoldable pub add_byte_ci : ByteSet → ℕ → Bool → ByteSet
unfolding add
add_byte_ci s b ci =
    let s1 = add s b in
    if ci && ltb b 128
    then (let s2 = if is_between 97 122 b then add s1 (b - 97 + 65) else s1 in
        if is_between 65 90 b then add s2 (b - 65 + 97) else s2)
    else s1

-- The `k` bytes from `b` on, by `put`.
unfoldable pub add_each : (ByteSet → ℕ → ByteSet) → ℕ → ℕ → ByteSet → ByteSet
add_each put zero b s = s
add_each put (suc k) b s = add_each put k (b + 1) (put s b)

unfoldable pub add_range_ci : ByteSet → ℕ → ℕ → Bool → ByteSet
unfolding add_each
add_range_ci s lo hi ci =
    let first = if ltb hi lo then hi else lo in
    let last = if ltb hi lo then lo else hi in
    add_each (λ t b. add_byte_ci t b ci) (last + 1 - first) first s

unfoldable pub lit_node : ℕ → Bool → Node
lit_node b ci = class (add_byte_ci no_bytes b ci)

-- At most `k` octal digits.
pub read_octal : ℕ → ℕ → Text → ℕ × Text
read_octal zero v s = (v, s)
read_octal (suc k) v [] = (v, [])
read_octal (suc k) v (c ∷ s) =
    let more = read_octal k (v * 8 + (c - 48)) s in if is_between 48 55 c then more else (v, c ∷ s)

-- `c | 0x20` is a lower case letter for a letter.
abbrev pub hex_value : ℕ → ℕ
hex_value c = if leb c 57 then c - 48 else if leb c 90 then c + 32 - 97 + 10 else c - 97 + 10

-- At most `k` hexadecimal digits.
pub read_hex : ℕ → ℕ → Text → ℕ × Text
read_hex zero v s = (v, s)
read_hex (suc k) v [] = (v, [])
read_hex (suc k) v (c ∷ s) =
    let more = read_hex k (v * 16 + hex_value c) s in if is_xdigit c then more else (v, c ∷ s)

-- The letters with a meaning: n t r f v a b; any other byte stands for itself.
pub simple_escape : ℕ → ℕ
simple_escape c =
    if c == 110
    then 10
    else if c == 116
    then 9
    else if c == 114
    then 13
    else if c == 102
    then 12
    else if c == 118
    then 11
    else if c == 97
    then 7
    else if c == 98
    then 8
    else c

pub escaped_byte : Text → ℕ × Text
unfolding read_octal read_hex simple_escape
escaped_byte [] = (0, [])
escaped_byte (c ∷ s) =
    let (o, after_o) = read_octal 3 0 (c ∷ s) in
    let (h, after_h) = read_hex 2 0 s in
    if c == 0
    then (0, c ∷ s)
    else if is_between 48 55 c
    then (o % 256, after_o)
    else if c == 120
    then (h % 256, after_h)
    else (simple_escape c, s)

-- The text starts at the backslash.
unfoldable pub read_escape_byte : Text → ℕ × Text
unfolding escaped_byte advance
read_escape_byte s = escaped_byte (advance s)

unfoldable pub read_class_byte : Text → ℕ × Text
unfolding read_escape_byte advance
read_class_byte s = if peek s 0 == 92 then read_escape_byte s else (peek s 0, advance s)
