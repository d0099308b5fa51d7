-- ===== src/Regex/Meaning.antt =====
-- The language that a syntax tree denotes, by recursion on the tree: the specification of the
-- automaton construction.
use lex_cpp.Prelude.{ℕ, ◌≤◌, max, ◌≡◌, ◌⊎◌, ◌≢◌, false}
use lex_cpp.ByteSet.{is_empty}
use lex_cpp.Regex.{
  Node, null, empty, class, concat, alt, star, plus, question, repeat, anchor_bol, anchor_eol,
  trail_boundary, k_inf,
}
use lex_cpp.Regex.Language.{Lang, Eps, Sym, Cat, Or, Star, Pow}

-- From `lo` to `hi` words, no upper bound if `hi` is `k_inf`; a `hi` below `lo` counts as `lo`.
abbrev pub Counts : ℕ → ℕ → ℕ → Type 0
Counts lo hi k = (lo ≤ k) × ((hi ≡ k_inf) ⊎ (hi ≢ k_inf) × (k ≤ max lo hi))

-- Anchors and the mark of trailing context take up no byte.
abbrev pub Matches : Node → Lang
Matches null = Eps
Matches empty = Eps
Matches (class s) = Sym s
Matches (concat a b) = Cat (Matches a) (Matches b)
Matches (alt a b) = Or (Matches a) (Matches b)
Matches (star a) = Star (Matches a)
Matches (plus a) = Cat (Matches a) (Star (Matches a))
Matches (question a) = Or (Matches a) Eps
Matches (repeat a lo hi) = λ w. (k : ℕ) × Counts lo hi k × Pow (Matches a) k w
Matches anchor_bol = Eps
Matches anchor_eol = Eps
Matches trail_boundary = Eps

-- Every class of the tree has a byte.
abbrev pub HasBytes : Node → Type 0
HasBytes (class s) = is_empty s ≡ false
HasBytes (concat a b) = HasBytes a × HasBytes b
HasBytes (alt a b) = HasBytes a × HasBytes b
HasBytes (star a) = HasBytes a
HasBytes (plus a) = HasBytes a
HasBytes (question a) = HasBytes a
HasBytes (repeat a lo hi) = HasBytes a
HasBytes _ = Unit
