-- ===== src/Examples/Label.antt =====
-- The theorems about case labels and about the text of a file, at concrete inputs.
use lex_cpp.Prelude.{
  ⊎_elim, ℕ, some, false, ◌≡◌, ◌↔◌, ◌<◌, ◌++◌, refl, inl, inr, [], ◌∷◌, Memᴰ, arith,
}
use lex_cpp.Chars.{Text, lit_node}
use lex_cpp.ByteSet.{add, test}
use lex_cpp.Pattern.{ParsedPattern, parse_pattern}
use lex_cpp.Rules.Anchors.{IsAnchored}
use lex_cpp.Driver.{context_of, normalise_source}
use lex_cpp.Driver.Correct.{SelectsIn}
use lex_cpp.Driver.Normal.{normalise_source-dos, to_crlf, byte_order_mark}
use lex_cpp.Codegen.{make_rule_map, quote_byte, backslash, escape_name}
use lex_cpp.Codegen.Line.{read_string, read_string-escape_name}
use lex_cpp.Codegen.Labels.{HasNumber, make_rule_map-label}
use lex_cpp.Examples.Whole.{ab, file, tree_of}

abbrev tree : ParsedPattern
tree = tree_of (parse_pattern 4 (context_of 4 file false).macros false ab [])

-- The tree of ab has no anchor.
ab-IsAnchored : IsAnchored tree.tree false false tree.tree
unfolding parse_pattern lit_node context_of
ab-IsAnchored = (tree.tree, inr (refl, refl, λ b e. cc), inr (refl, refl, λ a e. cc))

ab-SelectsIn : SelectsIn 4 file 0 ab false 0 0
unfolding parse_pattern lit_node context_of test add
ab-SelectsIn = inr (
  refl,
  tree,
  [],
  refl,
  inl (
    refl,
    refl,
    (
      false,
      tree.tree,
      ab-IsAnchored,
      (0, inr (refl, inl (refl, omega arith, inl refl)), inr (refl, refl)),
      (b'a' ∷ [], b'b' ∷ [], refl, (b'a', refl, refl), (b'b', refl, refl)),
    ),
  ),
)

make_rule_map-label_example :
    ((i : ℕ) → HasNumber (make_rule_map file).nfa_id i 0 ↔ (i ≡ 0))
    × (0 < (make_rule_map file).total_nfa_rules)
make_rule_map-label_example = make_rule_map-label 4 file 0 ab false 0 0 ab-SelectsIn

-- a, newline, b
abbrev two_lines : Text
two_lines = b'a' ∷ 10 ∷ b'b' ∷ []

normalise_source-dos_example : normalise_source (byte_order_mark ++ to_crlf two_lines) ≡ two_lines
normalise_source-dos_example = normalise_source-dos two_lines (omega arith)

-- a"\
abbrev odd_name : Text
odd_name = b'a' ∷ quote_byte ∷ backslash ∷ []

odd_name_lem : ¬ Memᴰ 10 odd_name
odd_name_lem m =
    ⊎_elim (λ (e : ◌≡◌ {A = ℕ} 10 97). omega (arith, e))
      (λ m'.
        ⊎_elim (λ (e : ◌≡◌ {A = ℕ} 10 34). omega (arith, e))
          (λ m''. omega (arith, mathlib.Core.List.Memᴰ.eq_of_singleton m''))
          (mathlib.Core.List.Memᴰ.cases_cons m'))
      (mathlib.Core.List.Memᴰ.cases_cons m)

read_string-escape_name_example :
    read_string (escape_name odd_name ++ quote_byte ∷ 10 ∷ []) ≡ some (odd_name, 10 ∷ [])
read_string-escape_name_example = read_string-escape_name odd_name (10 ∷ []) odd_name_lem
