-- ===== src/Parser.antt =====
-- `class Parser` and `parse_regex` of src/regex.cpp. The recursion is bounded by fuel, `none` where it
-- runs out. `macros` looks a macro up for the parser.
use lex_cpp.Prelude.{
  ℕ, zero, suc, ◌+◌, ◌-◌, ◌*◌, ◌%◌, ◌^◌, Bool, true, false, ◌&&◌, ◌||◌, not, List, [], ◌∷◌, ◌++◌,
  length, ◌==◌, if◌then◌else◌, Option, none, some,
}
use lex_cpp.ByteSet.{ByteSet, no_bytes, add}
use lex_cpp.Regex.{
  Node, null, empty, class, concat, alt, star, plus, question, repeat, anchor_bol, anchor_eol,
  k_inf,
}
use lex_cpp.Chars.{
  Text, peek, advance, at_end, is_digit, is_alnum, same_text, add_each, lit_node, read_escape_byte,
}
use lex_cpp.CharClass.{
  Message, unexpected_character, unmatched_paren, unterminated_string, recursive_macro,
  undefined_macro, ClassState, parse_class,
}

-- `macros_`, `ci_` and `expanding_`
pub record Setting : Type 0 where
  pub macros : Text → Option Text
  pub ci : Bool
  pub expanding : List Text

-- What a member function returns, the text that is left, and the messages so far.
pub record Parsed : Type 0 where
  pub node : Node
  pub rest : Text
  pub messages : List Message

abbrev pub is_null : Node → Bool
is_null null = true
is_null _ = false

-- `Parser::concat`
pub join : Node → Node → Node
join null b = b
join a null = a
join a b = concat a b

abbrev pub or_empty : Node → Node
or_empty null = empty
or_empty n = n

abbrev pub is_concat_terminator : ℕ → Bool
is_concat_terminator c = c == 0 || c == 124 || c == 41 || c == 36

-- A number in 32 bits.
pub read_digits : ℕ → Text → ℕ × Text
read_digits v [] = (v, [])
read_digits v (c ∷ s) =
    let more = read_digits ((v * 10 + (c - 48)) % 2 ^ 32) s in
    if is_digit c then more else (v, c ∷ s)

-- The upper bound behind the lower bound `lo`.
pub read_upper : ℕ → Text → ℕ × Text
unfolding read_digits advance
read_upper lo s =
    if peek s 0 == 44
    then (if is_digit (peek s 1) then read_digits 0 (advance s) else (k_inf, advance s))
    else (lo, s)

-- The text starts at the brace.
unfoldable pub parse_repeat : Node → Text → Node × Text
unfolding read_digits read_upper advance
parse_repeat p s =
    let (lo, s1) = read_digits 0 (advance s) in
    let (hi, s2) = read_upper lo s1 in
    if not (is_digit (peek s 1))
    then (p, s)
    else if peek s2 0 == 125
    then (repeat p lo hi, advance s2)
    else (p, s)

pub add_but_newline : ByteSet → ℕ → ByteSet
add_but_newline s b = if b == 10 then s else add s b

unfoldable pub any_byte_except_nl : Node
unfolding add_each add_but_newline
any_byte_except_nl = class (add_each add_but_newline 256 0 no_bytes)

-- The loop of `parse_quoted`, at most `k` bytes.
pub quoted_loop : ℕ → Bool → Node → Text → Node × Text
unfolding read_escape_byte at_end advance
quoted_loop zero ci acc s = (acc, s)
quoted_loop (suc k) ci acc s =
    let (b, rest) = if peek s 0 == 92 then read_escape_byte s else (peek s 0, advance s) in
    let more = quoted_loop k ci (join acc (lit_node b ci)) rest in
    if at_end s || peek s 0 == 34 then (acc, s) else more

unfoldable pub parse_quoted : Bool → Text → List Message → Parsed
unfolding quoted_loop join advance
parse_quoted ci s ms =
    let s1 = advance s in
    let (acc, rest) = quoted_loop (length s1) ci null s1 in
    if peek rest 0 == 34
    then record { node = or_empty acc; rest = advance rest; messages = ms }
    else record { node = or_empty acc; rest = rest; messages = ms ++ unterminated_string ∷ [] }

pub macro_name : Text → Text × Text
macro_name [] = ([], [])
macro_name (c ∷ s) =
    let (name, rest) = macro_name s in
    if is_alnum c || c == 95 || c == 45 then (c ∷ name, rest) else ([], c ∷ s)

pub contains_text : List Text → Text → Bool
unfolding same_text
contains_text [] name = false
contains_text (t ∷ ts) name = same_text t name || contains_text ts name

-- The cases of `parse_macro`.
pub data MacroUse : Type 0 where
  literal_brace : MacroUse
  no_expansion : Message → Text → MacroUse
  -- the name, the text for it, and what is behind the use
  expansion : Text → Text → Text → MacroUse

pub macro_use : Setting → Text → MacroUse
unfolding macro_name contains_text at_end advance
macro_use set s =
    let (name, rest) = macro_name (advance s) in
    if at_end name || not (peek rest 0 == 125)
    then literal_brace
    else if contains_text set.expanding name
    then no_expansion (recursive_macro name) (advance rest)
    else elim (set.macros name) [
      | none ↦ no_expansion (undefined_macro name) (advance rest)
      | some body ↦ expansion name body (advance rest)
    ]

-- `parse_alt`, as the members that call it see it.
abbrev pub Inner : Type 0
Inner = Setting → Text → List Message → Option Parsed

-- The text starts at the brace. The parser for the body of the macro is at its start, and what that
-- parser leaves is dropped.
pub parse_macro : Inner → Setting → Text → List Message → Option Parsed
unfolding macro_use advance
parse_macro inner set s ms = elim (macro_use set s) [
  | literal_brace ↦ some (record { node = lit_node 123 set.ci; rest = advance s; messages = ms })
  | no_expansion m rest ↦ some (record { node = empty; rest = rest; messages = ms ++ m ∷ [] })
  | expansion name body rest ↦
      elim (inner (record set { expanding = name ∷ set.expanding }) body ms) [
        | none ↦ none
        | some p ↦ some (record { node = or_empty p.node; rest = rest; messages = p.messages })
      ]
]

pub parse_group : Inner → Setting → Text → List Message → Option Parsed
unfolding advance
parse_group inner set s ms = elim (inner set (advance s) ms) [
  | none ↦ none
  | some p ↦ some (
      if peek p.rest 0 == 41
      then record { node = or_empty p.node; rest = advance p.rest; messages = p.messages }
      else record { node = null; rest = p.rest; messages = p.messages ++ unmatched_paren ∷ [] })
]

-- How `parse_primary` chooses.
pub data Start : Type 0 where
  group bracket quote brace dot backslash nothing literal : Start

pub start_of : ℕ → Start
start_of c =
    if c == 40
    then group
    else if c == 91
    then bracket
    else if c == 34
    then quote
    else if c == 123
    then brace
    else if c == 46
    then dot
    else if c == 92
    then backslash
    else if is_concat_terminator c
    then nothing
    else literal

pub class_parsed : List Message → ClassState → Parsed
class_parsed ms z = record { node = class z.cls; rest = z.rest; messages = ms ++ z.messages }

pub escape_parsed : Bool → List Message → ℕ × Text → Parsed
escape_parsed ci ms (b, rest) = record { node = lit_node b ci; rest = rest; messages = ms }

pub parse_primary : Inner → Setting → Text → List Message → Option Parsed
unfolding parse_group parse_macro parse_class parse_quoted read_escape_byte start_of advance
parse_primary inner set s ms = elim (start_of (peek s 0)) [
  | group ↦ parse_group inner set s ms
  | bracket ↦ some (class_parsed ms (parse_class set.ci s))
  | quote ↦ some (parse_quoted set.ci s ms)
  | brace ↦ parse_macro inner set s ms
  | dot ↦ some (record { node = any_byte_except_nl; rest = advance s; messages = ms })
  | backslash ↦ some (escape_parsed set.ci ms (read_escape_byte s))
  | nothing ↦ some (record { node = null; rest = s; messages = ms })
  | literal ↦ some (record { node = lit_node (peek s 0) set.ci; rest = advance s; messages = ms })
]

-- The `switch` of `parse_postfix`.
pub postfix : Parsed → Parsed
unfolding parse_repeat advance
postfix p =
    let (n, rest) = parse_repeat p.node p.rest in
    if is_null p.node
    then p
    else if peek p.rest 0 == 42
    then record p { node = star p.node; rest = advance p.rest }
    else if peek p.rest 0 == 43
    then record p { node = plus p.node; rest = advance p.rest }
    else if peek p.rest 0 == 63
    then record p { node = question p.node; rest = advance p.rest }
    else if peek p.rest 0 == 123 && is_digit (peek p.rest 1)
    then record p { node = n; rest = rest }
    else p

pub parse_postfix : Inner → Setting → Text → List Message → Option Parsed
unfolding parse_primary postfix
parse_postfix inner set s ms = elim (parse_primary inner set s ms) [
  | none ↦ none
  | some p ↦ some (postfix p)
]

-- The loop of `parse_concat`, at most `k` turns.
pub concat_loop :
    (Setting → Text → List Message → Option Parsed)
    → Setting
    → ℕ
    → Node
    → Text
    → List Message
    → Option Parsed
unfolding parse_postfix join at_end
concat_loop inner set zero acc s ms =
    if at_end s || is_concat_terminator (peek s 0)
    then some (record { node = acc; rest = s; messages = ms })
    else none
concat_loop inner set (suc k) acc s ms = elim (at_end s || is_concat_terminator (peek s 0)) [
  | true ↦ some (record { node = acc; rest = s; messages = ms })
  | false ↦ elim (parse_postfix inner set s ms) [
    | none ↦ none
    | some p ↦ elim (is_null p.node) [
      | true ↦ some (record p { node = acc })
      | false ↦ concat_loop inner set k (join acc p.node) p.rest p.messages
    ]
  ]
]

-- Without a factor the result is `empty`.
pub parse_concat : Inner → Setting → Text → List Message → Option Parsed
unfolding concat_loop
parse_concat inner set s ms = elim (concat_loop inner set (length s) null s ms) [
  | none ↦ none
  | some p ↦ some (record p { node = or_empty p.node })
]

-- The loop of `parse_alt`, at most `k` turns.
pub alt_loop : Inner → Setting → ℕ → Parsed → Option Parsed
unfolding parse_concat advance
alt_loop inner set zero l = if peek l.rest 0 == 124 then none else some l
alt_loop inner set (suc k) l = elim (peek l.rest 0 == 124) [
  | false ↦ some l
  | true ↦ elim (parse_concat inner set (advance l.rest) l.messages) [
    | none ↦ none
    | some r ↦ alt_loop inner set k (record r { node = alt l.node r.node })
  ]
]

-- `fuel` bounds the depth of groups and macros.
unfoldable pub parse_alt : ℕ → Setting → Text → List Message → Option Parsed
unfolding parse_concat alt_loop
parse_alt zero set s ms = none
parse_alt (suc fuel) set s ms = elim (parse_concat (parse_alt fuel) set s ms) [
  | none ↦ none
  | some l ↦ alt_loop (parse_alt fuel) set (length l.rest) l
]

-- The end of `parse_top`, after `parse_alt`.
pub finish_top : Bool → Parsed → Parsed
unfolding at_end join advance
finish_top bol p =
    let eol = peek p.rest 0 == 36 in
    let rest = if eol then advance p.rest else p.rest in
    let body = if eol then join p.node anchor_eol else p.node in
    if at_end rest
    then record {
      node = if bol then join anchor_bol body else body;
      rest = rest;
      messages = p.messages;
    }
    else record { node = null; rest = rest; messages = p.messages ++ unexpected_character ∷ [] }

pub parse_top : ℕ → Setting → Text → List Message → Option Parsed
unfolding parse_alt finish_top advance
parse_top fuel set s ms =
    let bol = peek s 0 == 94 in
    elim (parse_alt fuel set (if bol then advance s else s) ms) [
      | none ↦ none
      | some p ↦ some (finish_top bol p)
    ]

-- The tree, `null` after an error, and the messages.
unfoldable pub parse_regex :
    ℕ → (Text → Option Text) → Bool → Text → List Message → Option (Node × List Message)
unfolding parse_top
parse_regex fuel macros ci s ms =
    elim (parse_top fuel (record { macros = macros; ci = ci; expanding = [] }) s ms) [
      | none ↦ none
      | some p ↦ some (p.node, p.messages)
    ]
