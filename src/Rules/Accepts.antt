-- ===== src/Rules/Accepts.antt =====
-- `add_rule_to_nfa` of src/nfa.cpp: which rules a start state accepts, before and after.
use lex_cpp.Prelude.{
  ℕ, ◌*◌, ◌≤◌, ◌<◌, ◌≡◌, ap, ◌∙◌, subst, length, ◌⊎◌, inl, inr, ⊎_elim, ◌↔◌, arith, Memᴰ, Bool,
  some, length-set,
}
use lex_cpp.Prelude.Int.{ℤ}
use lex_cpp.Regex.{Node}
use lex_cpp.Regex.Language.{Bytes}
use lex_cpp.Regex.Meaning.{Matches, HasBytes}
use lex_cpp.Nfa.{NfaEdge, States, Frag, eps_to, compile}
use lex_cpp.Nfa.Graph.{HasEdge}
use lex_cpp.Nfa.Attributes.{accept_at, same-compile}
use lex_cpp.Nfa.Fragment.{IsFrag}
use lex_cpp.Nfa.Correct.{compile-IsFrag}
use lex_cpp.Rules.{
  Nfa, RuleSites, unwrap_anchors, site_conds, link_all, set_accept, add_rule_to_nfa,
}
use lex_cpp.Rules.Connect.{IsLinked, HasEdge-link_all, length-link_all, same-link_all}
use lex_cpp.Rules.Runs.{
  IsValid, Accepts, edges-set_accept, accept-set_accept_self, accept-set_accept_ne, Accepts-to,
  Accepts-of,
}

-- Every listed condition exists.
abbrev pub InRange : Nfa → RuleSites → Type 0
InRange n sites = (c : ℕ) → Memᴰ c (site_conds n sites) → c < length n.cond_starts

module _ (n : Nfa) (root : Node) (id : ℕ) (sites : RuleSites) (trail : ℤ) (valid : IsValid n)
    (bytes : HasBytes (unwrap_anchors root).body) (range : InRange n sites) where
  abbrev body : Node
  body = (unwrap_anchors root).body

  abbrev only_bol : Bool
  only_bol = (unwrap_anchors root).bol

  abbrev compiled : States
  compiled = (compile body n.states).0

  abbrev f : Frag
  f = (compile body n.states).1

  abbrev after : States
  after = link_all n.cond_starts f.s only_bol (set_accept compiled f.e id) (site_conds n sites)

  fr : IsFrag n.states compiled f (Matches body)
  fr = compile-IsFrag body n.states bytes

  length-marked : length (set_accept compiled f.e id) ≡ length compiled
  unfolding set_accept
  length-marked = length-set compiled f.e _

  abbrev Linked : ℕ → Type 0
  Linked q = IsLinked only_bol (site_conds n sites) q

  Linked-low : (q : ℕ) → Linked q → q < 2 * length n.cond_starts
  Linked-low q (c, m, e) = omega (arith, range c m)

  edges :
      (q : ℕ) (x : NfaEdge)
      → HasEdge after q x ↔ (HasEdge compiled q x ⊎ Linked q × (x ≡ eps_to f.s))
  edges q x =
      subst (λ l. HasEdge after q x ↔ (Memᴰ x l ⊎ Linked q × (x ≡ eps_to f.s)))
        (edges-set_accept compiled f.e id q fr.e_hi)
        (HasEdge-link_all n.cond_starts f.s only_bol valid.numbered (set_accept compiled f.e id)
          (site_conds n sites) q x range (omega (arith, valid.room, fr.region.grow, length-marked)))

  kept : (q : ℕ) → (f.e ≡ q → ⊥) → accept_at after q ≡ accept_at n.states q
  kept q h =
      same-link_all n.cond_starts f.s only_bol (set_accept compiled f.e id) (site_conds n sites) q
      ∙ accept-set_accept_ne compiled f.e id q h
      ∙ same-compile body n.states q

  accepting : accept_at after f.e ≡ some id
  accepting =
      same-link_all n.cond_starts f.s only_bol (set_accept compiled f.e id) (site_conds n sites) f.e
      ∙ accept-set_accept_self compiled f.e id fr.e_hi

  after-Accepts :
      (q : ℕ) (w : Bytes) (r : ℕ)
      → q < 2 * length n.cond_starts
      → Accepts after q w r ↔ (Accepts n.states q w r ⊎ (r ≡ id) × Linked q × Matches body w)
  after-Accepts q w r h = (
    Accepts-to n.states compiled after f (Matches body) (2 * length n.cond_starts) id Linked fr
        valid.room valid.forward Linked-low (λ p x. (edges p x).0) (λ p x. (edges p x).1) kept
        accepting valid.quiet q w r h,
    Accepts-of n.states compiled after f (Matches body) (2 * length n.cond_starts) id Linked fr
        valid.room valid.forward Linked-low (λ p x. (edges p x).0) (λ p x. (edges p x).1) kept
        accepting valid.quiet q w r,
  )

  after-forward :
      (q : ℕ) (x : NfaEdge)
      → HasEdge after q x
      → (2 * length n.cond_starts ≤ x.target) × (x.target < length after)
  after-forward q x m =
      let len : length after ≡ length compiled =
        length-link_all n.cond_starts f.s only_bol valid.numbered (set_accept compiled f.e id)
          (site_conds n sites)
        ∙ length-marked in
      ⊎_elim
        (λ o. elim (old_or_new q) [
          | inl old ↦
              let (lo, hi) = valid.forward q x (subst (λ l. Memᴰ x l) (fr.region.frame q old) o) in
              (lo, omega (arith, fr.region.grow, len))
          | inr new ↦
              let (lo, hi) = fr.region.closed q x new o in
              (omega (arith, valid.room), omega (arith, len))
        ])
        (λ new. (
          omega (arith, ap (λ (y : NfaEdge). y.target) new.1, fr.s_lo, valid.room),
          omega (arith, ap (λ (y : NfaEdge). y.target) new.1, fr.s_hi, len),
        ))
        ((edges q x).0 m)
    where
      old_or_new : (q : ℕ) → (q < length n.states) ⊎ (length n.states ≤ q)
      old_or_new q = omega arith

  -- Adding a rule keeps the automaton valid.
  pub add_rule_to_nfa-IsValid : IsValid (add_rule_to_nfa n root id sites trail)
  unfolding add_rule_to_nfa site_conds
  add_rule_to_nfa-IsValid = record {
    numbered = valid.numbered;
    room = omega (
      arith,
      valid.room,
      fr.region.grow,
      length-marked,
      length-link_all n.cond_starts f.s only_bol valid.numbered (set_accept compiled f.e id)
          (site_conds n sites),
    );
    forward = after-forward;
    quiet = λ q h. kept q (λ e. omega (arith, fr.e_lo, valid.room)) ∙ valid.quiet q h;
  }

  -- After a rule is added to a valid automaton, a start state accepts what it accepted before, and
  -- the new rule for each word of its body if the start state is an entry of one of the conditions that are linked.
  pub add_rule-IsLinked :
      (q : ℕ) (w : Bytes) (r : ℕ)
      → q < 2 * length n.cond_starts
      → Accepts (add_rule_to_nfa n root id sites trail).states q w r ↔ (
          Accepts n.states q w r
          ⊎ (r ≡ id)
            × IsLinked (unwrap_anchors root).bol (site_conds n sites) q
            × Matches (unwrap_anchors root).body w)
  unfolding add_rule_to_nfa site_conds
  add_rule-IsLinked = after-Accepts
