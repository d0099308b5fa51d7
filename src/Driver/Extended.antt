-- ===== src/Driver/Extended.antt =====
-- The loop over the rules in src/main.cpp keeps what the automaton accepts and adds its own rules.
use lex_cpp.Prelude.{
  ℕ, ◌+◌, ◌*◌, ◌<◌, ◌≡◌, ◌↔◌, refl, sym, ap, subst, subst₂, ◌∙◌, ⊎_elim, List, [], ◌∷◌, length,
  get_or, some, inl, inr, ◌⊎◌, Bool, true, false, if◌then◌else◌,
}
use lex_cpp.Regex.Language.{Bytes}
use lex_cpp.CharClass.{Message}
use lex_cpp.Pattern.{ParsedPattern, parse_pattern}
use lex_cpp.Regex.{Node}
use lex_cpp.Prelude.Int.{ℤ}
use lex_cpp.Rules.{Nfa, RuleSites, connect_to_conds, add_rule_to_nfa, add_eof_rule}
use lex_cpp.Rules.Runs.{IsValid, Accepts}
use lex_cpp.LexFile.{Rule}
use lex_cpp.Driver.{Context, Added, no_fuel, failed, added, add_one, add_rules}
use lex_cpp.Driver.Selects.{
  Selects, IsSelected, PatternsHaveBytes, rule_sites, added_nfa, not_added, no_fuel-added,
  add_one-Round,
}
use lex_cpp.Driver.Marked.{
  AcceptsWith, RulesBelow, Known, HasConds, add_rule-IsValid, add_rule-RulesBelow,
  add_rule-IsSelected,
}
use lex_cpp.Chars.{Text}

-- The conditions of two automata are the same.
abbrev pub SameConds : Nfa → Nfa → Type 0
SameConds n n' = (n'.cond_starts ≡ n.cond_starts) × (n'.cond_excl ≡ n.cond_excl)

add_rule-SameConds :
    (n : Nfa) (root : Node) (id : ℕ) (at : RuleSites) (trail : ℤ)
    → SameConds n (add_rule_to_nfa n root id at trail)
unfolding add_rule_to_nfa connect_to_conds
add_rule-SameConds n root id at trail = (refl, refl)

add_eof-SameConds : (n : Nfa) (id : ℕ) (at : RuleSites) → SameConds n (add_eof_rule n id at)
unfolding add_eof_rule
add_eof-SameConds n id at = (refl, refl)

add_eof-IsValid : (n : Nfa) (id : ℕ) (at : RuleSites) → IsValid n → IsValid (add_eof_rule n id at)
unfolding add_eof_rule
add_eof-IsValid n id at v = record {
  numbered = v.numbered;
  room = v.room;
  forward = v.forward;
  quiet = v.quiet;
}

add_eof-states : (n : Nfa) (id : ℕ) (at : RuleSites) → (add_eof_rule n id at).states ≡ n.states
unfolding add_eof_rule
add_eof-states n id at = refl

add_eof-rule_eol :
    (n : Nfa) (id : ℕ) (at : RuleSites) → (add_eof_rule n id at).rule_eol ≡ n.rule_eol
unfolding add_eof_rule
add_eof-rule_eol n id at = refl

-- A loop that goes on behind a round has a round that did not fail.
after_round :
    (o : Added) (go : Nfa → List Message → Added) (n' : Nfa) (ms' : List Message)
    → (elim o as (λ z. Added) [ no_fuel ↦ no_fuel | failed m s ↦ failed m s | added a b ↦ go a b ])
      ≡ added n' ms'
    → (n1 : Nfa) × (ms1 : List Message) × (o ≡ added n1 ms1) × (go n1 ms1 ≡ added n' ms')
after_round no_fuel go n' ms' h = absurd (no_fuel-added h)
after_round (failed m s) go n' ms' h = absurd (not_added h)
after_round (added a b) go n' ms' h = (a, b, refl, h)

module _ (x : Context) (names : List Text) (excl : List Bool) (known : Known x names) where
  -- What the rules of the list add to what is accepted at the start states.
  abbrev pub Extended : ℕ → ℕ → List Rule → List Message → Nfa → Nfa → Type 0
  Extended i id rs ms n n' =
      IsValid n'
      × HasConds n' names excl
      × ((q : ℕ) (w : Bytes) (eol : Bool) (k : ℕ)
          → q < 2 * length names
          → AcceptsWith n' q w eol k
            ↔ (AcceptsWith n q w eol k ⊎ (j : ℕ) × Selects x names excl q w eol ms i id rs j k))

  conds_on : (a a' : Nfa) → SameConds a a' → HasConds a names excl → HasConds a' names excl
  conds_on a a' s t = (ap length s.0 ∙ t.0, s.1 ∙ t.1)

  -- A rule for the end of the text is not in the automaton.
  eof_round :
      (A A1 A' : Type 0) (q : ℕ) (w : Bytes) (eol : Bool) (ms : List Message) (i id : ℕ) (r : Rule)
      (rs : List Rule) (k : ℕ)
      → r.eof ≡ true
      → A1 ↔ A
      → A' ↔ (A1 ⊎ (j : ℕ) × Selects x names excl q w eol ms (i + 1) id rs j k)
      → A' ↔ (A ⊎ (j : ℕ) × Selects x names excl q w eol ms i id (r ∷ rs) j k)
  eof_round A A1 A' q w eol ms i id r rs k t b a = (
    λ z. ⊎_elim (λ y. inl (b.0 y)) (λ (j, s). inr (j, inl (t, s))) (a.0 z),
    ⊎_elim (λ y. a.1 (inl (b.1 y)))
        (λ (j, s). a.1 (inr (j, ⊎_elim (λ y. y.1) (λ y. absurd (differ (sym t ∙ y.0))) s))),
  )
    where
      differ : true ≡ false → ⊥
      differ e = cc

  -- A rule with a pattern, and the rules behind it.
  rule_round :
      (A A1 A' : Type 0) (q : ℕ) (w : Bytes) (eol : Bool) (ms ms1 : List Message) (i id : ℕ)
      (r : Rule) (rs : List Rule) (k : ℕ) (pp : ParsedPattern)
      → r.eof ≡ false
      → parse_pattern x.fuel x.macros x.ci r.pattern ms ≡ some (pp, ms1)
      → A1 ↔ (A ⊎ (k ≡ id) × IsSelected names excl q w r pp.tree eol)
      → A' ↔ (A1 ⊎ (j : ℕ) × Selects x names excl q w eol ms1 (i + 1) (id + 1) rs j k)
      → A' ↔ (A ⊎ (j : ℕ) × Selects x names excl q w eol ms i id (r ∷ rs) j k)
  rule_round A A1 A' q w eol ms ms1 i id r rs k pp f p b a = (
    λ z.
        ⊎_elim (λ y. ⊎_elim inl (λ (e, s). inr (i, inr (f, pp, ms1, p, inl (refl, e, s)))) (b.0 y))
          (λ (j, s). inr (j, inr (f, pp, ms1, p, inr s))) (a.0 z),
    ⊎_elim (λ y. a.1 (inl (b.1 (inl y))))
        (λ (j, s).
          ⊎_elim (λ y. absurd (differ (sym y.0 ∙ f)))
            (λ (_, pp2, ms2, p2, y).
              let (e, e') = same_pair (sym p2 ∙ p) in
              ⊎_elim
                (λ (_, num, sel). a.1 (
                  inl (
                    b.1 (
                      inr (
                        num,
                        subst (λ (o : ParsedPattern). IsSelected names excl q w r o.tree eol) e sel,
                      )))))
                (λ more. a.1 (
                  inr (
                    j,
                    subst (λ m. Selects x names excl q w eol m (i + 1) (id + 1) rs j k) e' more,
                  )))
                y)
            s),
  )
    where
      differ : true ≡ false → ⊥
      differ e = cc

      same_pair : {a b : ParsedPattern × List Message} → some a ≡ some b → (a.0 ≡ b.0) × (a.1 ≡ b.1)
      same_pair e = (cc, cc)

  pub add_rules-Extended :
      (rs : List Rule) (i id : ℕ) (n : Nfa) (ms : List Message) (n' : Nfa) (ms' : List Message)
      → IsValid n
      → HasConds n names excl
      → RulesBelow n (2 * length names) id
      → PatternsHaveBytes x rs
      → add_rules x i id rs n ms ≡ added n' ms'
      → Extended i id rs ms n n'
  unfolding add_rules
  add_rules-Extended [] i id n ms n' ms' v c below b h =
      subst (Extended i id [] ms n) (sym (added_nfa h).0)
        (v, c, λ q w eol k lt. (inl, ⊎_elim (λ a. a) (λ s. absurd s.1)))
  add_rules-Extended (r ∷ rs) i id n ms n' ms' v c below (here, later) h =
      let (n1, ms1, e, more) =
        after_round (add_one x i id r n ms)
          (λ a m. add_rules x (i + 1) (if r.eof then id else id + 1) rs a m) n' ms' h in
      let (cs, at, round) = add_one-Round x i id r n ms n1 ms1 e in
      let go = λ (b : Bool) (t : r.eof ≡ b).
        subst (λ y. add_rules x (i + 1) (if y then id else id + 1) rs n1 ms1 ≡ added n' ms') t
          more in
      ⊎_elim
        (λ (t, same, same_ms).
          let new : Nfa = add_eof_rule n i (rule_sites r cs) in
          let states : n1.states ≡ n.states =
            ap (λ (m : Nfa). m.states) same ∙ add_eof-states n i (rule_sites r cs) in
          let marks : n1.rule_eol ≡ n.rule_eol =
            ap (λ (m : Nfa). m.rule_eol) same ∙ add_eof-rule_eol n i (rule_sites r cs) in
          let (v', c', accepts) =
            add_rules-Extended rs (i + 1) id n1 ms1 n' ms'
              (subst IsValid (sym same) (add_eof-IsValid n i (rule_sites r cs) v))
              (subst (λ m. HasConds m names excl) (sym same)
                (conds_on n new (add_eof-SameConds n i (rule_sites r cs)) c))
              (λ q w k lt a. below q w k lt (subst (λ y. Accepts y q w k) states a)) later
              (go true t) in
          (
            v',
            c',
            λ q w eol k lt.
                eof_round (AcceptsWith n q w eol k) (AcceptsWith n1 q w eol k)
                  (AcceptsWith n' q w eol k) q w eol ms i id r rs k t
                  (subst₂
                    (λ y (l : List Bool).
                      Accepts n1.states q w k × (get_or n1.rule_eol k false ≡ eol)
                      ↔ Accepts y q w k × (get_or l k false ≡ eol))
                    states marks (λ a. a, λ a. a))
                  (subst
                    (λ m. AcceptsWith n' q w eol k ↔ (
                      AcceptsWith n1 q w eol k
                      ⊎ (j : ℕ) × Selects x names excl q w eol m (i + 1) id rs j k))
                    same_ms (accepts q w eol k lt)),
          ))
        (λ (f, pp, p, same).
          let new : Nfa = add_rule_to_nfa n pp.tree id (rule_sites r cs) pp.trail_len in
          let bytes = here ms ms1 pp p in
          let v1 =
            add_rule-IsValid x names excl known r cs at n pp.tree id pp.trail_len v c bytes in
          let (v', c', accepts) =
            add_rules-Extended rs (i + 1) (id + 1) n1 ms1 n' ms' (subst IsValid (sym same) v1)
              (subst (λ m. HasConds m names excl) (sym same)
                (conds_on n new (add_rule-SameConds n pp.tree id (rule_sites r cs) pp.trail_len) c))
              (subst (λ m. RulesBelow m (2 * length names) (id + 1)) (sym same)
                (add_rule-RulesBelow x names excl known r cs at n pp.tree id pp.trail_len v c bytes
                  below))
              later (go false f) in
          (
            v',
            c',
            λ q w eol k lt.
                rule_round (AcceptsWith n q w eol k) (AcceptsWith n1 q w eol k)
                  (AcceptsWith n' q w eol k) q w eol ms ms1 i id r rs k pp f p
                  (subst
                    (λ (y : Nfa). AcceptsWith y q w eol k ↔ (
                      AcceptsWith n q w eol k ⊎ (k ≡ id) × IsSelected names excl q w r pp.tree eol))
                    (sym same)
                    (add_rule-IsSelected x names excl known r cs at n pp.tree id pp.trail_len v c
                      bytes below q w eol k lt))
                  (accepts q w eol k lt),
          ))
        round
