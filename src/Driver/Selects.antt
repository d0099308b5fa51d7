-- ===== src/Driver/Selects.antt =====
-- The loop of `core_main` in src/main.cpp over the rules: what the automaton that it makes accepts.
use lex_cpp.Prelude.{
  ℕ, ◌+◌, ◌<◌, ◌≡◌, refl, sym, ap, ◌∙◌, List, [], ◌∷◌, length, some, Option-cases, inl, inr, ◌⊎◌,
  true, false, Bool-cases, Bool, get_or, Memᴰ,
}
use lex_cpp.Regex.Language.{Bytes}
use lex_cpp.Regex.{Node}
use lex_cpp.Regex.Meaning.{Matches, HasBytes}
use lex_cpp.CharClass.{Message}
use lex_cpp.Pattern.{ParsedPattern, parse_pattern}
use lex_cpp.Rules.{Nfa, RuleSites, add_rule_to_nfa, add_eof_rule}
use lex_cpp.Rules.Anchors.{IsAnchored}
use lex_cpp.Rules.Belongs.{Belongs}
use lex_cpp.Rules.Connect.{IsEntry}
use lex_cpp.Chars.{Text}
use lex_cpp.LexFile.{Rule}
use lex_cpp.Driver.{
  Context, Sites, sites, unknown_name, sites_of, no_fuel, failed, added, DriverMessage,
  is_null_tree, add_one,
}

-- The name stands for the condition where it is the last of the list with that name.
abbrev pub Denotes : List Text → Text → ℕ → Type 0
Denotes names name c =
    (c < length names)
    × (get_or names c [] ≡ name)
    × ((d : ℕ) → c < d → d < length names → ¬ (get_or names d [] ≡ name))

-- The rule belongs to condition `c`, of the conditions with the names and with the flags `excl` for
-- exclusive ones.
abbrev pub RuleBelongs : List Text → List Bool → Rule → ℕ → Type 0
RuleBelongs names excl r =
    Belongs (length names) excl r.any_state (r.conds ≡ [])
      (λ d. (name : Text) × Memᴰ name r.conds × Denotes names name d)

-- A rule with this tree is selected after the word: `q` is a start state of a condition to which the
-- rule belongs, for a rule with ^ the one at the begin of a line, the body matches the word, and the
-- flag says whether the rule has $.
abbrev pub IsSelected : List Text → List Bool → ℕ → Bytes → Rule → Node → Bool → Type 0
IsSelected names excl q w r tree eol =
    (bol : Bool) × (body : Node) × IsAnchored tree bol eol body
    × ((c : ℕ) × RuleBelongs names excl r c × IsEntry bol c q)
    × Matches body w

-- Rule `j` of the file is selected and has the number `k`: the rules that are left start at position
-- `i`, the number `id` is the next, and the patterns before them left the messages `ms`.
abbrev pub Selects :
    Context
    → List Text
    → List Bool
    → ℕ
    → Bytes
    → Bool
    → List Message
    → ℕ
    → ℕ
    → List Rule
    → ℕ
    → ℕ
    → Type 0
Selects x names excl q w eol ms i id [] j k = ⊥
Selects x names excl q w eol ms i id (r ∷ rs) j k =
    (r.eof ≡ true) × Selects x names excl q w eol ms (i + 1) id rs j k
    ⊎ (r.eof ≡ false)
      × (pp : ParsedPattern) × (ms' : List Message) × (parse_pattern x.fuel x.macros x.ci r.pattern
            ms
          ≡ some (pp, ms'))
      × ((j ≡ i) × (k ≡ id) × IsSelected names excl q w r pp.tree eol
          ⊎ Selects x names excl q w eol ms' (i + 1) (id + 1) rs j k)

-- No class in a pattern is empty.
abbrev pub PatternsHaveBytes : Context → List Rule → Type 0
PatternsHaveBytes x [] = Unit
PatternsHaveBytes x (r ∷ rs) =
    ((ms ms' : List Message) (pp : ParsedPattern)
      → parse_pattern x.fuel x.macros x.ci r.pattern ms ≡ some (pp, ms')
      → HasBytes pp.tree)
    × PatternsHaveBytes x rs

pub Sites-cases :
    (s : Sites) → ((cs : List ℕ) × (s ≡ sites cs)) ⊎ ((name : List ℕ) × (s ≡ unknown_name name))
Sites-cases (sites cs) = inl (cs, refl)
Sites-cases (unknown_name name) = inr (name, refl)

abbrev pub rule_sites : Rule → List ℕ → RuleSites
rule_sites r cs = record { conds = cs; any_state = r.any_state }

-- A round that does not fail.
abbrev pub Round : Context → ℕ → ℕ → Rule → Nfa → List Message → Nfa → List Message → Type 0
Round x i id r n ms n1 ms1 =
    (cs : List ℕ) × (sites_of x.ids r.conds ≡ sites cs)
    × ((r.eof ≡ true) × (n1 ≡ add_eof_rule n i (rule_sites r cs)) × (ms1 ≡ ms)
        ⊎ (r.eof ≡ false)
          × (pp : ParsedPattern) × (parse_pattern x.fuel x.macros x.ci r.pattern ms
              ≡ some (pp, ms1))
          × (n1 ≡ add_rule_to_nfa n pp.tree id (rule_sites r cs) pp.trail_len))

pub added_nfa :
    {n n' : Nfa} {ms ms' : List Message} → added n ms ≡ added n' ms' → (n' ≡ n) × (ms' ≡ ms)
added_nfa e = (cc, cc)

pub not_added :
    {m : DriverMessage} {ms ms' : List Message} {n : Nfa} → failed m ms ≡ added n ms' → ⊥
not_added e = cc

pub no_fuel-added : {ms' : List Message} {n : Nfa} → no_fuel ≡ added n ms' → ⊥
no_fuel-added e = cc

pub add_one-Round :
    (x : Context) (i id : ℕ) (r : Rule) (n : Nfa) (ms : List Message) (n1 : Nfa)
    (ms1 : List Message)
    → add_one x i id r n ms ≡ added n1 ms1
    → Round x i id r n ms n1 ms1
unfolding add_one
add_one-Round x i id r n ms n1 ms1 h = elim (Sites-cases (sites_of x.ids r.conds)) [
  | inr (name, e) ↦ absurd (not_added (rw (e, add_one) at h))
  | inl (cs, e) ↦ elim (Bool-cases r.eof) [
    | inl t ↦
        let (same, same') = added_nfa (simp (e, t, add_one) at h) in (cs, e, inl (t, same, same'))
    | inr t ↦ elim (Option-cases (parse_pattern x.fuel x.macros x.ci r.pattern ms)) [
      | inl p ↦ absurd (no_fuel-added (simp (e, t, p, add_one) at h))
      | inr ((pp, ms'), p) ↦ elim (Bool-cases (is_null_tree pp.tree)) [
        | inl bad ↦ absurd (not_added (simp (e, t, p, bad, add_one) at h))
        | inr ok ↦
            let (same, same') = added_nfa (simp (e, t, p, ok, add_one) at h) in
            (cs, e, inr (t, pp, p ∙ ap (λ m. some (pp, m)) (sym same'), same))
      ]
    ]
  ]
]
