-- ===== src/Nfa/Attributes.antt =====
-- The building steps of src/nfa.cpp leave the accepting rules of all states as they are.
use lex_cpp.Prelude.{
  ℕ, zero, suc, ◌≡◌, refl, sym, ap, ◌∙◌, subst, ◌≤◌, [], ◌∷◌, ◌++◌, length, set, Option, none, some,
  true, Bool-cases, inl, inr, arith, get_or-concat_default, get_or-set_self, get_or-set_ne,
  get_or-past, length-set, ◌==◌, ==_iff, ltb, ltb→lt, leb, if◌then◌else◌, ◌-◌,
}
use lex_cpp.Regex.{
  Node, null, empty, class, concat, alt, star, plus, question, repeat, anchor_bol, anchor_eol,
  trail_boundary, k_inf,
}
use lex_cpp.Nfa.{
  NfaState, NfaEdge, States, Frag, Compiler, blank_state, state_at, new_state, push_edge,
  two_states, mark_boundary, compile_star, compile_question, compile_empty, append, append_copies,
  finish_repeat, compile_starred, compile_optional, compile_repeat, compile,
}

abbrev pub accept_at : States → ℕ → Option ℕ
accept_at ns q = (state_at ns q).accept_rule

-- The same rules are accepted at the same states.
abbrev pub SameAccepts : States → States → Type 0
SameAccepts n n' = (q : ℕ) → accept_at n' q ≡ accept_at n q

-- Replacing a state by one with the same rule.
set_same :
    (n : States) (r : ℕ) (st : NfaState)
    → st.accept_rule ≡ (state_at n r).accept_rule
    → SameAccepts n (set n r st)
set_same n r st e q = elim (Bool-cases (r == q)) [
  | inl same ↦ elim (Bool-cases (ltb r (length n))) [
    | inl h ↦
        subst (λ k. accept_at (set n r st) k ≡ accept_at n k) ((==_iff r q).0 same)
          (ap (λ (s : NfaState). s.accept_rule)
              (get_or-set_self n r st blank_state (ltb→lt r (length n) h))
            ∙ e)
    | inr h ↦
        let r_past : length n ≤ r = ground arith in
        let q_past : length n ≤ q = ground arith in
        ap (λ (s : NfaState). s.accept_rule)
          (get_or-past (set n r st) q blank_state (omega (arith, length-set n r st))
            ∙ sym (get_or-past n q blank_state q_past))
  ]
  | inr other ↦
      ap (λ (s : NfaState). s.accept_rule) (get_or-set_ne n r q st blank_state (ground arith))
]

module _ (n n' : States) (h : SameAccepts n n') where
  pub same-push_edge : (r : ℕ) (x : NfaEdge) → SameAccepts n (push_edge n' r x)
  unfolding push_edge
  same-push_edge r x q =
      set_same n' r (record (state_at n' r) { out = (state_at n' r).out ++ x ∷ [] }) refl q ∙ h q

  same-mark_boundary : (r : ℕ) → SameAccepts n (mark_boundary n' r)
  unfolding mark_boundary
  same-mark_boundary r q =
      set_same n' r (record (state_at n' r) { is_boundary = true }) refl q ∙ h q

  same-two_states : SameAccepts n (two_states n').0
  unfolding two_states new_state
  same-two_states q =
      ap (λ (s : NfaState). s.accept_rule)
        (get_or-concat_default (n' ++ blank_state ∷ []) q blank_state
          ∙ get_or-concat_default n' q blank_state)
      ∙ h q

same-compile_empty : (n : States) → SameAccepts n (compile_empty n).0
unfolding compile_empty
same-compile_empty n = same-push_edge _ _ (same-two_states n n (λ q. refl)) _ _

same-star : (n n' : States) (a : Frag) → SameAccepts n n' → SameAccepts n (compile_star a n').0
unfolding compile_star
same-star n n' a h =
    same-push_edge _ _
      (same-push_edge _ _ (same-push_edge _ _ (same-push_edge _ _ (same-two_states n n' h) _ _) _ _)
        _ _)
      _ _

same-question :
    (n n' : States) (a : Frag) → SameAccepts n n' → SameAccepts n (compile_question a n').0
unfolding compile_question
same-question n n' a h =
    same-push_edge _ _ (same-push_edge _ _ (same-push_edge _ _ (same-two_states n n' h) _ _) _ _) _
      _

same-append :
    (n n' : States) (head : Option Frag) (f : Frag)
    → SameAccepts n n'
    → SameAccepts n (append n' head f).0
unfolding append
same-append n n' none f h = h
same-append n n' (some g) f h = same-push_edge n n' h _ _

abbrev Keeps : Compiler → Type 0
Keeps body = (n : States) → SameAccepts n (body n).0

same-append_copies :
    (body : Compiler) (k : ℕ) (n n' : States) (head : Option Frag)
    → Keeps body
    → SameAccepts n n'
    → SameAccepts n (append_copies body k (n', head)).0
unfolding append_copies
same-append_copies body zero n n' head c h = h
same-append_copies body (suc k) n n' head c h =
    same-append_copies body k n (append (body n').0 head (body n').1).0
      (append (body n').0 head (body n').1).1 c
      (same-append n (body n').0 head (body n').1 (λ q. c n' q ∙ h q))

same-finish :
    (n n' : States) (head : Option Frag)
    → SameAccepts n n'
    → SameAccepts n (finish_repeat (n', head)).0
unfolding finish_repeat
same-finish n n' none h q = same-compile_empty n' q ∙ h q
same-finish n n' (some f) h q = h q

same-compile_repeat : (body : Compiler) (lo hi : ℕ) → Keeps body → Keeps (compile_repeat body lo hi)
unfolding compile_repeat compile_starred compile_optional
same-compile_repeat body lo hi c n =
    let copies = append_copies body lo (n, none) in
    let kept : SameAccepts n copies.0 = same-append_copies body lo n n none c (λ q. refl) in
    elim (Bool-cases (hi == k_inf)) [
      | inl inf ↦ rw inf (
          same-finish n _ _ (
            same-append_copies (compile_starred body) 1 n copies.0 copies.1
              (λ m. same-star m (body m).0 (body m).1 (c m)) kept))
      | inr fin ↦ rw fin (
          same-finish n _ _ (
            same-append_copies (compile_optional body) (if leb lo hi then hi - lo else 0) n copies.0
              copies.1 (λ m. same-question m (body m).0 (body m).1 (c m)) kept))
    ]

pub same-compile : (r : Node) (n : States) → SameAccepts n (compile r n).0
unfolding compile
same-compile null n = same-compile_empty n
same-compile empty n = same-compile_empty n
same-compile (class on) n = same-push_edge _ _ (same-two_states n n (λ q. refl)) _ _
same-compile (concat a b) n =
    same-push_edge _ _ (λ q. same-compile b (compile a n).0 q ∙ same-compile a n q) _ _
same-compile (alt a b) n =
    same-push_edge _ _
      (same-push_edge _ _
        (same-push_edge _ _
          (same-push_edge _ _
            (same-two_states _ _ (λ q. same-compile b (compile a n).0 q ∙ same-compile a n q)) _ _)
          _ _)
        _ _)
      _ _
same-compile (star a) n = same-star n _ _ (same-compile a n)
same-compile (plus a) n =
    same-push_edge _ _
      (same-push_edge _ _ (same-push_edge _ _ (same-two_states _ _ (same-compile a n)) _ _) _ _) _ _
same-compile (question a) n = same-question n _ _ (same-compile a n)
same-compile (repeat a lo hi) n = same-compile_repeat (compile a) lo hi (same-compile a) n
same-compile anchor_bol n = same-compile_empty n
same-compile anchor_eol n = same-compile_empty n
same-compile trail_boundary n =
    same-push_edge _ _ (same-mark_boundary _ _ (same-two_states n n (λ q. refl)) _) _ _
