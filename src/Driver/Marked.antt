-- ===== src/Driver/Marked.antt =====
-- A round of the loop in src/main.cpp over the rules: what the automaton accepts, and with which $.
use lex_cpp.Prelude.{
  ℕ, ◌+◌, ◌*◌, ◌<◌, ◌≡◌, ◌≢◌, ◌↔◌, sym, ap, subst, subst₂, ◌∙◌, ⊎_elim, List, [], length, get_or,
  inl, inr, ◌⊎◌, Memᴰ, Bool, false, arith, some,
}
use lex_cpp.Regex.{Node}
use lex_cpp.Regex.Language.{Bytes}
use lex_cpp.Regex.Meaning.{HasBytes}
use lex_cpp.Prelude.Int.{ℤ}
use lex_cpp.Chars.{Text}
use lex_cpp.Rules.{Nfa, add_rule_to_nfa, unwrap_anchors}
use lex_cpp.Rules.Anchors.{unwrap_anchors-IsAnchored, IsAnchored-HasBytes}
use lex_cpp.Rules.Belongs.{Belongs, Belongs-iff, listed-InRange}
use lex_cpp.Rules.Accepts.{add_rule_to_nfa-IsValid}
use lex_cpp.Rules.Runs.{IsValid, Accepts}
use lex_cpp.Rules.Correct.{add_rule-Accepts, add_rule-eol_self, add_rule-eol_ne}
use lex_cpp.LexFile.{Rule}
use lex_cpp.Driver.{Context, sites, sites_of, lookup_text}
use lex_cpp.Driver.Selects.{Denotes, RuleBelongs, IsSelected, rule_sites}
use lex_cpp.Driver.Names.{sites_of-Memᴰ, sites_of-nil}

-- From `q` the automaton reads `w` to a state that accepts a rule, with or without `$`.
abbrev pub AcceptsWith : Nfa → ℕ → Bytes → Bool → ℕ → Type 0
AcceptsWith n q w eol k = Accepts n.states q w k × (get_or n.rule_eol k false ≡ eol)

-- The rules that are accepted at the first `m` states have numbers below `id`.
abbrev pub RulesBelow : Nfa → ℕ → ℕ → Type 0
RulesBelow n m id = (q : ℕ) (w : Bytes) (k : ℕ) → q < m → Accepts n.states q w k → k < id

-- The map of the source has the condition that each name stands for.
abbrev pub Known : Context → List Text → Type 0
Known x names = (name : Text) (c : ℕ) → (lookup_text name x.ids ≡ some c) ↔ Denotes names name c

-- The automaton has the conditions with these names and flags.
abbrev pub HasConds : Nfa → List Text → List Bool → Type 0
HasConds n names excl = (length n.cond_starts ≡ length names) × (n.cond_excl ≡ excl)

module _ (x : Context) (names : List Text) (excl : List Bool) (known : Known x names) (r : Rule)
    (cs : List ℕ) (at : sites_of x.ids r.conds ≡ sites cs) where
  Belongs-RuleBelongs :
      (c : ℕ)
      → Belongs (length names) excl r.any_state (cs ≡ []) (λ d. Memᴰ d cs) c
        ↔ RuleBelongs names excl r c
  Belongs-RuleBelongs c =
      let (to, from) = sites_of-Memᴰ x.ids r.conds cs c at in
      Belongs-iff (length names) excl r.any_state _ _ (λ d. Memᴰ d cs)
        (λ d. (name : Text) × Memᴰ name r.conds × Denotes names name d) c
        (sites_of-nil x.ids r.conds cs at)
        (
          λ m. let (name, y, z) = to m in (name, y, (known name c).0 z),
          λ (name, y, z). from (name, y, (known name c).1 z),
        )

  pub named-lt : (c : ℕ) → Memᴰ c cs → c < length names
  named-lt c m =
      let (name, _, e) = (sites_of-Memᴰ x.ids r.conds cs c at).0 m in ((known name c).0 e).0

  module _ (n : Nfa) (tree : Node) (id : ℕ) (trail : ℤ) (valid : IsValid n)
      (conds : HasConds n names excl) (bytes : HasBytes tree) where
    abbrev after : Nfa
    after = add_rule_to_nfa n tree id (rule_sites r cs) trail

    listed-lt : (c : ℕ) → Memᴰ c cs → c < length n.cond_starts
    listed-lt c m = omega (arith, conds.0, named-lt c m)

    Belongs-same :
        (c : ℕ)
        → Belongs (length n.cond_starts) n.cond_excl r.any_state (cs ≡ []) (λ d. Memᴰ d cs) c
          ↔ RuleBelongs names excl r c
    Belongs-same c =
        subst₂
          (λ m ex.
            Belongs m ex r.any_state (cs ≡ []) (λ d. Memᴰ d cs) c ↔ RuleBelongs names excl r c)
          (sym conds.0) (sym conds.1) (Belongs-RuleBelongs c)

    to_selected :
        (q : ℕ) (w : Bytes) (k : ℕ)
        → q < 2 * length names
        → Accepts after.states q w k
        → Accepts n.states q w k
          ⊎ (k ≡ id) × IsSelected names excl q w r tree (unwrap_anchors tree).eol
    to_selected q w k lt a =
        let anchored = unwrap_anchors-IsAnchored tree in
        ⊎_elim inl
          (λ (e, (c, b, entry), m). inr (
            e,
            (
              (unwrap_anchors tree).bol,
              (unwrap_anchors tree).body,
              anchored,
              (c, (Belongs-same c).0 b, entry),
              m,
            ),
          ))
          ((add_rule-Accepts n tree id (rule_sites r cs) trail _ _ _ anchored valid
              (IsAnchored-HasBytes tree _ _ _ anchored bytes) listed-lt q w k
              (omega (arith, conds.0, lt))).0
            a)

    pub add_rule-IsValid : IsValid after
    add_rule-IsValid =
        add_rule_to_nfa-IsValid n tree id (rule_sites r cs) trail valid
          (IsAnchored-HasBytes tree _ _ _ (unwrap_anchors-IsAnchored tree) bytes)
          (listed-InRange n (rule_sites r cs) listed-lt)

    -- The numbers stay below the next one.
    pub add_rule-RulesBelow :
        RulesBelow n (2 * length names) id → RulesBelow after (2 * length names) (id + 1)
    add_rule-RulesBelow below q w k lt a =
        ⊎_elim (λ old. omega (arith, below q w k lt old)) (λ (e, _). omega (arith, e))
          (to_selected q w k lt a)

    -- After the round, a rule is accepted that was, or the new one where it is selected.
    pub add_rule-IsSelected :
        RulesBelow n (2 * length names) id
        → (q : ℕ) (w : Bytes) (eol : Bool) (k : ℕ) → q < 2 * length names
        → AcceptsWith after q w eol k
          ↔ (AcceptsWith n q w eol k ⊎ (k ≡ id) × IsSelected names excl q w r tree eol)
    add_rule-IsSelected below q w eol k lt = (
      λ (a, mark).
          ⊎_elim
            (λ old. inl (
              old,
              sym (
                    add_rule-eol_ne n tree id (rule_sites r cs) trail _ _ _
                      (unwrap_anchors-IsAnchored tree) k (other k (below q w k lt old)))
                  ∙ mark,
            ))
            (λ (e, s). inr (
              e,
              subst (λ b. IsSelected names excl q w r tree b)
                  (sym (
                      add_rule-eol_self n tree id (rule_sites r cs) trail _ _ _
                        (unwrap_anchors-IsAnchored tree))
                    ∙ ap (λ j. get_or after.rule_eol j false) (sym e)
                    ∙ mark)
                  s,
            ))
            (to_selected q w k lt a),
      ⊎_elim
          (λ (old, mark). (
            (add_rule-Accepts n tree id (rule_sites r cs) trail _ _ _
                  (unwrap_anchors-IsAnchored tree) valid
                  (IsAnchored-HasBytes tree _ _ _ (unwrap_anchors-IsAnchored tree) bytes) listed-lt
                  q w k (omega (arith, conds.0, lt))).1
                (inl old),
            add_rule-eol_ne n tree id (rule_sites r cs) trail _ _ _ (unwrap_anchors-IsAnchored tree)
                  k (other k (below q w k lt old))
                ∙ mark,
          ))
          (λ (e, (bol, body, anchored, (c, b, entry), m)). (
            (add_rule-Accepts n tree id (rule_sites r cs) trail _ _ _ anchored valid
                  (IsAnchored-HasBytes tree _ _ _ anchored bytes) listed-lt q w k
                  (omega (arith, conds.0, lt))).1
                (inr (e, (c, (Belongs-same c).1 b, entry), m)),
            ap (λ j. get_or after.rule_eol j false) e
                ∙ add_rule-eol_self n tree id (rule_sites r cs) trail _ _ _ anchored,
          )),
    )
      where
        other : (j : ℕ) → j < id → id ≢ j
        other j lt e = omega (arith, lt, e)
