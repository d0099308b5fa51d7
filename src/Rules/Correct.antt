-- ===== src/Rules/Correct.antt =====
-- `add_rule_to_nfa` of src/nfa.cpp: the automaton with a rule beside what the rule says.
use lex_cpp.Prelude.{
  ℕ, zero, suc, ◌-◌, ◌*◌, ◌<◌, ◌≡◌, ◌≢◌, refl, sym, ap, subst, ◌∙◌, ⊎_elim, inl, inr, ◌⊎◌, ◌↔◌,
  List, [], ◌∷◌, ◌++◌, length, length-append, get_or, replicate, arith, Memᴰ, Bool, false,
  get_or-set_self, get_or-set_ne,
}
use lex_cpp.Prelude.Int.{ℤ}
use lex_cpp.Regex.{Node}
use lex_cpp.Regex.Language.{Bytes}
use lex_cpp.Regex.Meaning.{Matches, HasBytes}
use lex_cpp.Rules.{Nfa, RuleSites, add_rule_to_nfa, unwrap_anchors, pad_to, connect_to_conds}
use lex_cpp.Rules.Anchors.{IsAnchored, IsAnchored-unwrap_anchors}
use lex_cpp.Rules.Belongs.{Belongs, site_conds-Belongs, listed-InRange}
use lex_cpp.Rules.Connect.{IsEntry}
use lex_cpp.Rules.Runs.{IsValid, Accepts}
use lex_cpp.Rules.Accepts.{add_rule-IsLinked}

length-replicate : (k : ℕ) (d : Bool) → length (replicate k d) ≡ k
length-replicate zero d = refl
length-replicate (suc k) d = ap suc (length-replicate k d)

-- A default that is pushed behind the list is not seen.
get_or-replicate :
    (k i : ℕ) (xs : List Bool) → get_or (xs ++ replicate k false) i false ≡ get_or xs i false
get_or-replicate zero i [] = refl
get_or-replicate (suc k) zero [] = refl
get_or-replicate (suc k) (suc i) [] = get_or-replicate k i []
get_or-replicate k zero (x ∷ xs) = refl
get_or-replicate k (suc i) (x ∷ xs) = get_or-replicate k i xs

length-pad_to : (id : ℕ) (d : Bool) (xs : List Bool) → id < length (pad_to id d xs)
unfolding pad_to
length-pad_to id d xs = omega (
  arith,
  length-append xs (replicate (suc id - length xs) d),
  length-replicate (suc id - length xs) d,
)

get_or-pad_to :
    (id i : ℕ) (xs : List Bool) → get_or (pad_to id false xs) i false ≡ get_or xs i false
unfolding pad_to
get_or-pad_to id i xs = get_or-replicate (suc id - length xs) i xs

module _ (n : Nfa) (root : Node) (id : ℕ) (sites : RuleSites) (trail : ℤ) (bol eol : Bool)
    (body : Node) (anchored : IsAnchored root bol eol body) where
  -- The rule is marked with its $, and no other is.
  pub add_rule-eol_self : get_or (add_rule_to_nfa n root id sites trail).rule_eol id false ≡ eol
  unfolding add_rule_to_nfa connect_to_conds
  add_rule-eol_self =
      get_or-set_self (pad_to id false n.rule_eol) id (unwrap_anchors root).eol false
        (length-pad_to id false n.rule_eol)
      ∙ (IsAnchored-unwrap_anchors root bol eol body anchored).1

  pub add_rule-eol_ne :
      (k : ℕ)
      → id ≢ k
      → get_or (add_rule_to_nfa n root id sites trail).rule_eol k false ≡ get_or n.rule_eol k false
  unfolding add_rule_to_nfa connect_to_conds
  add_rule-eol_ne k h =
      get_or-set_ne (pad_to id false n.rule_eol) id k (unwrap_anchors root).eol false h
      ∙ get_or-pad_to id k n.rule_eol

  -- A rule is added to a valid automaton: its tree is a body with or without ^ in front and $
  -- behind, no class of the body is empty, and the conditions that it names exist. After that, a
  -- start state accepts what it accepted before; and it accepts the new rule for each word of the
  -- body if it is a start state of a condition to which the rule belongs: for a rule with ^ the one
  -- at the begin of a line only, for another both. Nothing else is accepted.
  pub add_rule-Accepts :
      IsValid n
      → HasBytes body
      → ((c : ℕ) → Memᴰ c sites.conds → c < length n.cond_starts)
      → (q : ℕ) (w : Bytes) (r : ℕ) → q < 2 * length n.cond_starts
      → Accepts (add_rule_to_nfa n root id sites trail).states q w r ↔ (
          Accepts n.states q w r
          ⊎ (r ≡ id)
            × ((c : ℕ) × Belongs
                  (length n.cond_starts)
                  n.cond_excl
                  sites.any_state
                  (sites.conds ≡ [])
                  (λ d. Memᴰ d sites.conds)
                  c
                × IsEntry bol c q)
            × Matches body w)
  add_rule-Accepts valid bytes named q w r lt =
      let (b, _, same) = IsAnchored-unwrap_anchors root bol eol body anchored in
      let (to, from) =
        add_rule-IsLinked n root id sites trail valid (subst HasBytes (sym same) bytes)
          (listed-InRange n sites named) q w r lt in
      (
        λ a.
            ⊎_elim inl
              (λ (e, (c, m, entry), word). inr (
                e,
                (c, (site_conds-Belongs n sites c).0 m, subst (λ x. IsEntry x c q) b entry),
                subst (λ x. Matches x w) same word,
              ))
              (to a),
        ⊎_elim (λ a. from (inl a))
            (λ (e, (c, m, entry), word). from (
              inr (
                e,
                (c, (site_conds-Belongs n sites c).1 m, subst (λ x. IsEntry x c q) (sym b) entry),
                subst (λ x. Matches x w) (sym same) word,
              ))),
      )
