-- ===== src/CharClass.antt =====
-- `parse_class` and `try_posix_class` of src/regex.cpp.
use lex_cpp.Prelude.{
  ℕ, zero, suc, ◌+◌, ◌-◌, Bool, true, false, ◌&&◌, ◌||◌, not, List, [], ◌∷◌, ◌++◌, length, ◌==◌,
  if◌then◌else◌, Option, none, some,
}
use lex_cpp.ByteSet.{ByteSet, no_bytes, add, test}
use lex_cpp.Chars.{
  Text, peek, advance, at_end, is_alpha, is_alnum, same_text, add_byte_ci, add_each, add_range_ci,
  read_class_byte,
}

-- The diagnostics; a name is the text that the message quotes.
pub data Message : Type 0 where
  unexpected_character unmatched_paren unterminated_string unterminated_class head_dollar
        dangerous_trail :
      Message
  recursive_macro undefined_macro unknown_posix : Text → Message

abbrev pub add_span : ByteSet → ℕ → ℕ → ByteSet
unfolding add_each
add_span s lo hi = add_each add (hi + 1 - lo) lo s

pub add_punct : ByteSet → ℕ → ByteSet
add_punct s b = if is_alnum b then s else add s b

-- The sets of the twelve names.
pub posix_set : Bool → ByteSet → Text → Option ByteSet
unfolding add_each same_text add_punct
posix_set ci s name =
    -- alpha
    if same_text name (97 ∷ 108 ∷ 112 ∷ 104 ∷ 97 ∷ [])
    then some (add_span (add_span s 65 90) 97 122)
    -- upper
    else if same_text name (117 ∷ 112 ∷ 112 ∷ 101 ∷ 114 ∷ [])
    then some (if ci then add_span (add_span s 65 90) 97 122 else add_span s 65 90)
    -- lower
    else if same_text name (108 ∷ 111 ∷ 119 ∷ 101 ∷ 114 ∷ [])
    then some (if ci then add_span (add_span s 97 122) 65 90 else add_span s 97 122)
    -- digit
    else if same_text name (100 ∷ 105 ∷ 103 ∷ 105 ∷ 116 ∷ [])
    then some (add_span s 48 57)
    -- xdigit
    else if same_text name (120 ∷ 100 ∷ 105 ∷ 103 ∷ 105 ∷ 116 ∷ [])
    then some (add_span (add_span (add_span s 48 57) 65 70) 97 102)
    -- alnum
    else if same_text name (97 ∷ 108 ∷ 110 ∷ 117 ∷ 109 ∷ [])
    then some (add_span (add_span (add_span s 65 90) 97 122) 48 57)
    -- space
    else if same_text name (115 ∷ 112 ∷ 97 ∷ 99 ∷ 101 ∷ [])
    then some (add_span (add s 32) 9 13)
    -- blank
    else if same_text name (98 ∷ 108 ∷ 97 ∷ 110 ∷ 107 ∷ [])
    then some (add (add s 32) 9)
    -- cntrl
    else if same_text name (99 ∷ 110 ∷ 116 ∷ 114 ∷ 108 ∷ [])
    then some (add (add_span s 0 31) 127)
    -- print
    else if same_text name (112 ∷ 114 ∷ 105 ∷ 110 ∷ 116 ∷ [])
    then some (add_span s 32 126)
    -- graph
    else if same_text name (103 ∷ 114 ∷ 97 ∷ 112 ∷ 104 ∷ [])
    then some (add_span s 33 126)
    -- punct
    else if same_text name (112 ∷ 117 ∷ 110 ∷ 99 ∷ 116 ∷ [])
    then some (add_each add_punct 94 33 s)
    else none

-- At most `k` letters.
pub posix_name : ℕ → Text → Text × Text
posix_name zero s = ([], s)
posix_name (suc k) [] = ([], [])
posix_name (suc k) (c ∷ s) =
    let (name, rest) = posix_name k s in if is_alpha c then (c ∷ name, rest) else ([], c ∷ s)

-- The result of `try_posix_class`: no class, with the messages; or the set and the text behind it.
pub data Posix : Type 0 where
  no_posix : List Message → Posix
  posix : ByteSet → Text → Posix

unfoldable pub try_posix_class : Bool → ByteSet → Text → Posix
unfolding posix_name posix_set advance
try_posix_class ci out s =
    let (name, rest) = posix_name 16 (advance (advance s)) in
    if peek rest 0 == 58 && peek rest 1 == 93
    then elim (posix_set ci out name) [
      | some set ↦ posix set (advance (advance rest))
      | none ↦ no_posix (unknown_posix name ∷ [])
    ]
    else no_posix []

pub record ClassState : Type 0 where
  pub cls : ByteSet
  pub rest : Text
  pub messages : List Message

-- One byte or one range.
pub class_item : Bool → ClassState → ClassState
unfolding read_class_byte add_byte_ci add_range_ci advance
class_item ci z =
    let (a, rest) = read_class_byte z.rest in
    let (b, rest') = read_class_byte (advance rest) in
    if peek rest 0 == 45 && not (peek rest 1 == 93) && not (peek rest 1 == 0)
    then record z { cls = add_range_ci z.cls a b ci; rest = rest' }
    else record z { cls = add_byte_ci z.cls a ci; rest = rest }

-- One turn of the loop.
pub class_turn : Bool → ClassState → ClassState
unfolding class_item try_posix_class
class_turn ci z =
    if peek z.rest 0 == 91 && peek z.rest 1 == 58
    then elim (try_posix_class ci z.cls z.rest) [
      | posix set rest ↦ record z { cls = set; rest = rest }
      | no_posix ms ↦ class_item ci (record z { messages = z.messages ++ ms })
    ]
    else class_item ci z

-- `!at_end() && (first || peek() != ']')`
abbrev pub class_goes_on : Bool → Text → Bool
unfolding at_end
class_goes_on first s = not (at_end s) && (first || not (peek s 0 == 93))

-- The loop. Each turn takes a byte, so that as many turns as there are bytes are enough.
pub class_loop : ℕ → Bool → Bool → ClassState → ClassState
unfolding class_turn at_end
class_loop zero ci first z = z
class_loop (suc k) ci first z =
    let more = class_loop k ci false (class_turn ci z) in
    if class_goes_on first z.rest then more else z

-- The complement, byte by byte.
pub invert_each : ByteSet → ByteSet
unfolding add_each test
invert_each s = add_each (λ t b. if test s b then t else add t b) 256 0 no_bytes

-- The text starts at the bracket.
unfoldable pub parse_class : Bool → Text → ClassState
unfolding class_loop invert_each advance
parse_class ci s =
    let s1 = advance s in
    let neg = peek s1 0 == 94 in
    let s2 = if neg then advance s1 else s1 in
    let z = class_loop (length s2) ci true (record { cls = no_bytes; rest = s2; messages = [] }) in
    if peek z.rest 0 == 93
    then record z { cls = if neg then invert_each z.cls else z.cls; rest = advance z.rest }
    else record z { messages = z.messages ++ unterminated_class ∷ [] }
