-- ===== src/Nfa/Graph.antt =====
-- Edges of the automaton in src/nfa.cpp, what each building step does to them, and runs over bytes.
use lex_cpp.Prelude.{
  ℕ, suc, ◌≤◌, ◌<◌, ◌≡◌, refl, sym, ap, ◌∙◌, subst, List, [], ◌∷◌, ◌++◌, length, length-append,
  length-set, get_or-set_self, get_or-set_ne, get_or-past, get_or-concat_default, Memᴰ, true, false,
  inl, inr, arith, ◌==◌, ==_iff, Bool-cases, ◌≢◌,
}
use lex_cpp.ByteSet.{test, is_empty}
use lex_cpp.Regex.Language.{Bytes}
use lex_cpp.Nfa.{
  NfaEdge, NfaState, States, blank_state, state_at, new_state, push_edge, two_states, mark_boundary,
}

-- The edges out of a state; none where there is no such state.
abbrev pub edges_from : States → ℕ → List NfaEdge
edges_from ns q = (state_at ns q).out

-- The edge lists are `vector`s: an edge is an element.
abbrev pub HasEdge : States → ℕ → NfaEdge → Type 0
HasEdge ns q x = Memᴰ x (edges_from ns q)

-- What the automaton can read on the way from one state to another.
pub data Run (ns : States) : ℕ → Bytes → ℕ → Type 0 where
  done : {q r : ℕ} → q ≡ r → Run ns q [] r
  eps :
      {q r : ℕ} {w : Bytes} (x : NfaEdge)
      → HasEdge ns q x
      → is_empty x.on ≡ true
      → Run ns x.target w r
      → Run ns q w r
  byte :
      {q r : ℕ} {w : Bytes} (b : ℕ) (x : NfaEdge)
      → HasEdge ns q x
      → is_empty x.on ≡ false
      → test x.on b ≡ true
      → Run ns x.target w r
      → Run ns q (b ∷ w) r

-- Every edge of the first is an edge of the second.
abbrev pub Sub : States → States → Type 0
Sub n n' = (q : ℕ) (x : NfaEdge) → HasEdge n q x → HasEdge n' q x

pub Run_mono : {n n' : States} {q r : ℕ} {w : Bytes} → Sub n n' → Run n q w r → Run n' q w r
Run_mono h (done e) = done e
Run_mono h (eps x m e p) = eps x (h _ x m) e (Run_mono h p)
Run_mono h (byte b x m e t p) = byte b x (h _ x m) e t (Run_mono h p)

pub Run_trans :
    {n : States} {q r z : ℕ} {u v : Bytes} → Run n q u r → Run n r v z → Run n q (u ++ v) z
Run_trans {n} {z} {v} (done e) p = subst (λ k. Run n k v z) (sym e) p
Run_trans (eps x m e p') p = eps x m e (Run_trans p' p)
Run_trans (byte b x m e t p') p = byte b x m e t (Run_trans p' p)

pub edges-new_state : (ns : States) (q : ℕ) → edges_from (new_state ns).0 q ≡ edges_from ns q
unfolding new_state
edges-new_state ns q = ap (λ (st : NfaState). st.out) (get_or-concat_default ns q blank_state)

pub edges_past : (ns : States) (q : ℕ) → length ns ≤ q → edges_from ns q ≡ []
edges_past ns q h = ap (λ (st : NfaState). st.out) (get_or-past ns q blank_state h)

pub edges-mark_boundary :
    (ns : States) (r q : ℕ) → r < length ns → edges_from (mark_boundary ns r) q ≡ edges_from ns q
unfolding mark_boundary
edges-mark_boundary ns r q h = elim (Bool-cases (r == q)) [
  | inl same ↦
      let e : r ≡ q = (==_iff r q).0 same in
      subst (λ k. edges_from (mark_boundary ns r) k ≡ edges_from ns k) e
        (ap (λ (st : NfaState). st.out)
          (get_or-set_self ns r (record (state_at ns r) { is_boundary = true }) blank_state h))
  | inr other ↦
      ap (λ (st : NfaState). st.out)
        (get_or-set_ne ns r q (record (state_at ns r) { is_boundary = true }) blank_state
          (ground arith))
]

pub edges-push_edge_self :
    (ns : States) (r : ℕ) (x : NfaEdge)
    → r < length ns
    → edges_from (push_edge ns r x) r ≡ edges_from ns r ++ x ∷ []
unfolding push_edge
edges-push_edge_self ns r x h =
    ap (λ (st : NfaState). st.out)
      (get_or-set_self ns r (record (state_at ns r) { out = (state_at ns r).out ++ x ∷ [] })
        blank_state h)

pub edges-push_edge_ne :
    (ns : States) (r q : ℕ) (x : NfaEdge)
    → r ≢ q
    → edges_from (push_edge ns r x) q ≡ edges_from ns q
unfolding push_edge
edges-push_edge_ne ns r q x h =
    ap (λ (st : NfaState). st.out)
      (get_or-set_ne ns r q (record (state_at ns r) { out = (state_at ns r).out ++ x ∷ [] })
        blank_state h)

pub length-push_edge : (ns : States) (r : ℕ) (x : NfaEdge) → length (push_edge ns r x) ≡ length ns
unfolding push_edge
length-push_edge ns r x = length-set ns r _

pub length-mark_boundary : (ns : States) (r : ℕ) → length (mark_boundary ns r) ≡ length ns
unfolding mark_boundary
length-mark_boundary ns r = length-set ns r _

pub length-new_state : (ns : States) → length (new_state ns).0 ≡ suc (length ns)
unfolding new_state
length-new_state ns = omega (arith, length-append ns (blank_state ∷ []))

pub two_states_lem :
    (ns : States)
    → ((two_states ns).1.s ≡ length ns)
      × ((two_states ns).1.e ≡ suc (length ns))
      × (length (two_states ns).0 ≡ suc (suc (length ns)))
      × ((q : ℕ) → edges_from (two_states ns).0 q ≡ edges_from ns q)
unfolding two_states new_state
two_states_lem ns = (
  refl,
  length-new_state ns,
  length-new_state _ ∙ ap suc (length-new_state ns),
  λ q. edges-new_state _ q ∙ edges-new_state ns q,
)
