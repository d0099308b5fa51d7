-- ===== src/Rules/Runs.antt =====
-- The runs from a start state before and after the steps of `add_rule_to_nfa`, src/nfa.cpp.
use lex_cpp.Prelude.{
  ℕ, ◌*◌, ◌≤◌, ◌<◌, ◌≡◌, refl, sym, ap, ◌∙◌, subst, length, set, Bool, true, false, Bool-cases, ◌⊎◌,
  inl, inr, ⊎_elim, arith, Memᴰ, none, some, ◌==◌, ==_iff, ltb, ltb→lt, get_or-past,
  get_or-set_self, get_or-set_ne,
}
use lex_cpp.ByteSet.{test, is_empty}
use lex_cpp.Regex.Language.{Bytes, Lang}
use lex_cpp.Nfa.{NfaEdge, NfaState, States, Frag, eps_to, blank_state, state_at, compile}
use lex_cpp.Nfa.Graph.{edges_from, HasEdge, Run, done, eps, byte, Run_mono}
use lex_cpp.Nfa.Attributes.{accept_at}
use lex_cpp.Nfa.Fragment.{IsFrag, Sub-Region}
use lex_cpp.Nfa.Wrap.{step_eps}
use lex_cpp.Nfa.Correct.{IsFrag-runs}
use lex_cpp.Rules.{Nfa, set_accept}
use lex_cpp.Rules.Connect.{Numbered}

-- The states of the conditions come first, no edge leads to them, and they accept nothing.
pub record IsValid (n : Nfa) : Type 0 where
  pub numbered : Numbered n.cond_starts
  pub room : 2 * length n.cond_starts ≤ length n.states
  pub forward :
      (q : ℕ) (x : NfaEdge)
      → HasEdge n.states q x
      → (2 * length n.cond_starts ≤ x.target) × (x.target < length n.states)
  pub quiet : (q : ℕ) → q < 2 * length n.cond_starts → accept_at n.states q ≡ none

-- From `q` the automaton reads `w` to a state that accepts rule `r`.
abbrev pub Accepts : States → ℕ → Bytes → ℕ → Type 0
Accepts ns q w r = (e : ℕ) × Run ns q w e × (accept_at ns e ≡ some r)

pub edges-set_accept :
    (n : States) (r id q : ℕ) → r < length n → edges_from (set_accept n r id) q ≡ edges_from n q
unfolding set_accept
edges-set_accept n r id q h = elim (Bool-cases (r == q)) [
  | inl same ↦
      subst
        (λ k.
          edges_from (set n r (record (state_at n r) { accept_rule = some id })) k ≡ edges_from n k)
        ((==_iff r q).0 same)
        (ap (λ (s : NfaState). s.out)
          (get_or-set_self n r (record (state_at n r) { accept_rule = some id }) blank_state h))
  | inr other ↦
      ap (λ (s : NfaState). s.out)
        (get_or-set_ne n r q (record (state_at n r) { accept_rule = some id }) blank_state
          (ground arith))
]

pub accept-set_accept_self :
    (n : States) (r id : ℕ) → r < length n → accept_at (set_accept n r id) r ≡ some id
unfolding set_accept
accept-set_accept_self n r id h =
    ap (λ (s : NfaState). s.accept_rule)
      (get_or-set_self n r (record (state_at n r) { accept_rule = some id }) blank_state h)

pub accept-set_accept_ne :
    (n : States) (r id q : ℕ) → (r ≡ q → ⊥) → accept_at (set_accept n r id) q ≡ accept_at n q
unfolding set_accept
accept-set_accept_ne n r id q h =
    ap (λ (s : NfaState). s.accept_rule)
      (get_or-set_ne n r q (record (state_at n r) { accept_rule = some id }) blank_state h)

not_past_accept : (n : States) (q : ℕ) {r : ℕ} → accept_at n q ≡ some r → q < length n
not_past_accept n q h = elim (Bool-cases (ltb q (length n))) [
  | inl l ↦ ltb→lt q (length n) l
  | inr g ↦ absurd (
      clash (
        sym (ap (λ (s : NfaState). s.accept_rule) (get_or-past n q blank_state (ground arith)))
        ∙ h))
]
  where
    clash : {r : ℕ} → none ≡ some r → ⊥
    clash e = cc

-- The steps of `add_rule_to_nfa` on the states, one after the other.
module _ (n0 n1 n3 : States) (f : Frag) (A : Lang) (k id : ℕ) (Linked : ℕ → Type 0)
    (fr : IsFrag n0 n1 f A) (room : k ≤ length n0)
    (forward : (q : ℕ) (x : NfaEdge) → HasEdge n0 q x → (k ≤ x.target) × (x.target < length n0))
    (low : (q : ℕ) → Linked q → q < k)
    (to : (q : ℕ) (x : NfaEdge) → HasEdge n3 q x → HasEdge n1 q x ⊎ Linked q × (x ≡ eps_to f.s))
    (of : (q : ℕ) (x : NfaEdge) → HasEdge n1 q x ⊎ Linked q × (x ≡ eps_to f.s) → HasEdge n3 q x)
    (kept : (q : ℕ) → (f.e ≡ q → ⊥) → accept_at n3 q ≡ accept_at n0 q)
    (accepts : accept_at n3 f.e ≡ some id) (quiet : (q : ℕ) → q < k → accept_at n0 q ≡ none) where
  old_edge : (q : ℕ) (x : NfaEdge) → k ≤ q → q < length n0 → HasEdge n3 q x → HasEdge n0 q x
  old_edge q x lo hi m =
      ⊎_elim (λ o. subst (λ l. Memᴰ x l) (fr.region.frame q hi) o)
        (λ new. absurd (omega (arith, low q new.0))) (to q x m)

  new_edge : (q : ℕ) (x : NfaEdge) → length n0 ≤ q → HasEdge n3 q x → HasEdge n1 q x
  new_edge q x lo m = ⊎_elim (λ o. o) (λ new. absurd (omega (arith, low q new.0))) (to q x m)

  -- A run that has left the start states stays among the old states, or among the new ones.
  old_run :
      {q e : ℕ} {w : Bytes} → k ≤ q → q < length n0 → Run n3 q w e → Run n0 q w e × (e < length n0)
  old_run lo hi (done e) = (done e, rw (← e) hi)
  old_run lo hi (eps x m h p) =
      let o = old_edge _ x lo hi m in
      let (fo, ba) = forward _ x o in let (r, b) = old_run fo ba p in (eps x o h r, b)
  old_run lo hi (byte b x m h t p) =
      let o = old_edge _ x lo hi m in
      let (fo, ba) = forward _ x o in let (r, c) = old_run fo ba p in (byte b x o h t r, c)

  new_run : {q e : ℕ} {w : Bytes} → length n0 ≤ q → Run n3 q w e → Run n1 q w e × (length n0 ≤ e)
  new_run lo (done e) = (done e, rw (← e) lo)
  new_run lo (eps x m h p) =
      let o = new_edge _ x lo m in
      let (r, b) = new_run (fr.region.closed _ x lo o).0 p in (eps x o h r, b)
  new_run lo (byte b x m h t p) =
      let o = new_edge _ x lo m in
      let (r, c) = new_run (fr.region.closed _ x lo o).0 p in (byte b x o h t r, c)

  abbrev Outcome : ℕ → ℕ → Bytes → Type 0
  Outcome q e w =
      (e < k) ⊎ (Run n0 q w e × (e < length n0)) ⊎ (Linked q × Run n1 f.s w e × (length n0 ≤ e))

  start_edge :
      (q : ℕ) (x : NfaEdge) → q < k → HasEdge n3 q x → HasEdge n0 q x ⊎ Linked q × (x ≡ eps_to f.s)
  start_edge q x lt m =
      ⊎_elim (λ o. inl (subst (λ l. Memᴰ x l) (fr.region.frame q (omega arith)) o)) inr (to q x m)

  start_run : {q e : ℕ} {w : Bytes} → q < k → Run n3 q w e → Outcome q e w
  start_run lt (done e) = inl (rw (← e) lt)
  start_run {q} {e} {w} lt (eps x m h p) = elim (start_edge q x lt m) [
    | inl o ↦
        let (fo, ba) = forward q x o in let (r, b) = old_run fo ba p in inr (inl (eps x o h r, b))
    | inr (l, same) ↦
        let (r, b) = new_run fr.s_lo (subst (λ (y : NfaEdge). Run n3 y.target w e) same p) in
        inr (inr (l, r, b))
  ]
  start_run {q} lt (byte b x m h t p) = elim (start_edge q x lt m) [
    | inl o ↦
        let (fo, ba) = forward q x o in
        let (r, c) = old_run fo ba p in inr (inl (byte b x o h t r, c))
    | inr (l, same) ↦ absurd (full (subst (λ (y : NfaEdge). is_empty y.on ≡ false) same h))
  ]
    where
      full : is_empty lex_cpp.ByteSet.no_bytes ≡ false → ⊥
      full e = cc (sym lex_cpp.Nfa.Wrap.no_bytes_empty ∙ e)

  pub Accepts-to :
      (q : ℕ) (w : Bytes) (r : ℕ)
      → q < k
      → Accepts n3 q w r
      → Accepts n0 q w r ⊎ (r ≡ id) × Linked q × A w
  Accepts-to q w r lt (e, p, a) = elim (start_run lt p) [
    | inl low_e ↦
        absurd (none_some (sym (quiet e low_e) ∙ sym (kept e (λ y. omega (arith, fr.e_lo))) ∙ a))
    | inr (inl (p', b)) ↦ inl (e, p', sym (kept e (λ y. omega (arith, fr.e_lo))) ∙ a)
    | inr (inr (l, p', b)) ↦ elim (Bool-cases (f.e == e)) [
      | inl same ↦
          let end : f.e ≡ e = (==_iff f.e e).0 same in
          inr (
            some_id (sym accepts ∙ ap (accept_at n3) end ∙ a),
            l,
            IsFrag-runs fr (subst (λ y. Run n1 f.s w y) (sym end) p'),
          )
      | inr other ↦
          absurd
            (none_some (sym (past e b) ∙ sym (kept e (λ y. clash ((==_iff f.e e).1 y) other)) ∙ a))
    ]
  ]
    where
      none_some : {r : ℕ} → none ≡ some r → ⊥
      none_some e = cc

      some_id : {r : ℕ} → some id ≡ some r → r ≡ id
      some_id e = cc

      clash : {b : Bool} → b ≡ true → b ≡ false → ⊥
      clash e e' = cc

      past : (e : ℕ) → length n0 ≤ e → accept_at n0 e ≡ none
      past e h = ap (λ (s : NfaState). s.accept_rule) (get_or-past n0 e blank_state h)

  pub Accepts-of :
      (q : ℕ) (w : Bytes) (r : ℕ) → Accepts n0 q w r ⊎ (r ≡ id) × Linked q × A w → Accepts n3 q w r
  Accepts-of q w r (inl (e, p, a)) =
      let here : e < length n0 = not_past_accept n0 e a in
      (
        e,
        Run_mono (λ q' x m. of q' x (inl (Sub-Region fr.region q' x m))) p,
        kept e (λ y. omega (arith, fr.e_lo)) ∙ a,
      )
  Accepts-of q w r (inr (e, l, m)) = (
    f.e,
    step_eps f.s (of q (eps_to f.s) (inr (l, refl)))
        (Run_mono (λ q' x h. of q' x (inl h)) (fr.runs w m)),
    accepts ∙ ap some (sym e),
  )
