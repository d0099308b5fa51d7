-- ===== src/RuleText.antt =====
-- The text of a rule in src/source.cpp: `read_pattern`, and the list of start conditions before it.
pub mod Split
use lex_cpp.Prelude.{
  ℕ, ◌+◌, ◌-◌, Bool, true, false, ◌&&◌, ◌||◌, List, [], ◌∷◌, ◌++◌, ◌==◌, if◌then◌else◌,
}
use lex_cpp.Chars.{Text, peek, advance, at_end}
use lex_cpp.Options.{is_space}
use lex_cpp.Pattern.{Mode, outside, in_class, in_quoted}

-- What `read_pattern` does at a character: stop, take the next one too, or go on.
pub data PatternTurn : Type 0 where
  stop_here both_bytes : PatternTurn
  one_byte : Mode → ℕ → PatternTurn

abbrev pub ends_pattern : ℕ → Bool
ends_pattern c = c == b' ' || c == 9 || c == 10

pub pattern_turn : Bool → Mode → ℕ → ℕ → PatternTurn
pattern_turn has_next in_class paren c =
    if c == 92 && has_next
    then both_bytes
    else one_byte (if c == 93 then outside else in_class) paren
pattern_turn has_next in_quoted paren c =
    if c == 92 && has_next
    then both_bytes
    else one_byte (if c == 34 then outside else in_quoted) paren
pattern_turn has_next outside paren c =
    if paren == 0 && ends_pattern c
    then stop_here
    else if c == 92 && has_next
    then both_bytes
    else if c == 34
    then one_byte in_quoted paren
    else if c == 91
    then one_byte in_class paren
    else if c == 40
    then one_byte outside (paren + 1)
    else if c == 41
    then one_byte outside (paren - 1)
    else one_byte outside paren

unfoldable pub put_before : ℕ → Text × Text → Text × Text
put_before c (p, rest) = (c ∷ p, rest)

-- The loop: what it takes, and the text behind it.
pub pattern_from : Mode → ℕ → Text → Text × Text
unfolding pattern_turn put_before
pattern_from m paren [] = ([], [])
pattern_from m paren (c ∷ []) = elim (pattern_turn false m paren c) [
  | stop_here ↦ ([], c ∷ [])
  | both_bytes ↦ (c ∷ [], [])
  | one_byte m' k ↦ (c ∷ [], [])
]
pattern_from m paren (c ∷ d ∷ s) = elim (pattern_turn true m paren c) [
  | stop_here ↦ ([], c ∷ d ∷ s)
  | both_bytes ↦ put_before c (put_before d (pattern_from m paren s))
  | one_byte m' k ↦ put_before c (pattern_from m' k (d ∷ s))
]

unfoldable pub read_pattern : Text → Text × Text
unfolding pattern_from
read_pattern s = pattern_from outside 0 s

-- `if (!cur.empty()) conds.push_back(cur)`
unfoldable pub flush : Text → List Text → List Text
flush [] conds = conds
flush (c ∷ cur) conds = conds ++ (c ∷ cur) ∷ []

-- The names between the brackets, and the text behind them.
unfoldable pub prefix_names : Text → List Text → Text → List Text × Text
unfolding flush
prefix_names cur conds [] = (flush cur conds, [])
prefix_names cur conds (c ∷ s) =
    let next_cur : Text = if c == b',' then [] else if is_space c then cur else cur ++ c ∷ [] in
    let next_conds = if c == b',' then flush cur conds else conds in
    let more = prefix_names next_cur next_conds s in
    if c == b'>' then (flush cur conds, s) else if c == 10 then (flush cur conds, c ∷ s) else more

pub record Prefix : Type 0 where
  pub had_sc_prefix : Bool
  pub any_state : Bool
  pub conds : List Text
  pub rest : Text

-- The start conditions before a pattern.
unfoldable pub read_prefix : Text → Prefix
unfolding prefix_names advance
read_prefix s =
    let (names, rest) = prefix_names [] [] (advance s) in
    if peek s 0 == b'<' && (if peek s 1 == b'<' then false else true)
    then (if peek s 1 == b'*' && peek s 2 == b'>'
        then record {
          had_sc_prefix = true;
          any_state = true;
          conds = [];
          rest = advance (advance (advance s));
        }
        else record { had_sc_prefix = true; any_state = false; conds = names; rest = rest })
    else record { had_sc_prefix = false; any_state = false; conds = []; rest = s }
