-- ===== src/Rules/Connect.antt =====
-- What `connect_to_conds` of src/nfa.cpp adds: one epsilon edge for each entry of each condition.
use lex_cpp.Prelude.{
  ℕ, ◌+◌, ◌*◌, ◌≤◌, ◌<◌, ◌≡◌, refl, sym, ◌∙◌, subst, subst₂, List, [], ◌∷◌, length, get_or, Bool,
  true, false, ◌⊎◌, inl, inr, ⊎_elim, ◌↔◌, arith, Memᴰ,
}
use mathlib.Core.List.Memᴰ
use lex_cpp.Nfa.{NfaEdge, States, eps_to, add_eps}
use lex_cpp.Nfa.Graph.{HasEdge, length-push_edge}
use lex_cpp.Nfa.Fragment.{push_edge-cases, Sub-push_edge, HasEdge-push_edge}
use lex_cpp.Nfa.Attributes.{SameAccepts, same-push_edge}
use lex_cpp.Rules.{CondStart, no_start, link, link_all}

pub HasEdge-add_eps :
    (ns : States) (r t q : ℕ) (x : NfaEdge)
    → r < length ns
    → HasEdge (add_eps ns r t) q x ↔ (HasEdge ns q x ⊎ (q ≡ r) × (x ≡ eps_to t))
HasEdge-add_eps ns r t q x h = (
  push_edge-cases ns r q (eps_to t) x h,
  ⊎_elim (Sub-push_edge ns r (eps_to t) h q x) (λ new.
      subst₂ (λ q' x'. HasEdge (add_eps ns r t) q' x') (sym new.0) (sym new.1)
        (HasEdge-push_edge ns r (eps_to t) h)),
)

-- Condition `i` starts at states `2 * i` and `2 * i + 1`, as `init_nfa` lays them out.
abbrev pub Numbered : List CondStart → Type 0
Numbered starts =
    (i : ℕ)
    → i < length starts
    → get_or starts i no_start ≡ record { normal = 2 * i; bol = 2 * i + 1 }

-- The entry states of condition `c` that a rule is reachable from.
abbrev pub IsEntry : Bool → ℕ → ℕ → Type 0
IsEntry only_bol c q = (q ≡ 2 * c + 1) ⊎ (only_bol ≡ false) × (q ≡ 2 * c)

pub HasEdge-link :
    (starts : List CondStart) (entry : ℕ) (only_bol : Bool) (ns : States) (c q : ℕ) (x : NfaEdge)
    → Numbered starts
    → c < length starts
    → 2 * length starts ≤ length ns
    → HasEdge (link starts entry only_bol ns c) q x
      ↔ (HasEdge ns q x ⊎ IsEntry only_bol c q × (x ≡ eps_to entry))
unfolding link
HasEdge-link starts entry true ns c q x num hc len =
    rw (num c hc) (ground (arith, HasEdge-add_eps ns (2 * c + 1) entry q x))
HasEdge-link starts entry false ns c q x num hc len = rw (num c hc) (
    ground (
      arith,
      HasEdge-add_eps ns (2 * c + 1) entry q x,
      HasEdge-add_eps (add_eps ns (2 * c + 1) entry) (2 * c) entry q x,
      length-push_edge ns (2 * c + 1) (eps_to entry),
    ))

pub length-link :
    (starts : List CondStart) (entry : ℕ) (only_bol : Bool) (ns : States) (c : ℕ)
    → length (link starts entry only_bol ns c) ≡ length ns
unfolding link
length-link starts entry true ns c = length-push_edge ns _ _
length-link starts entry false ns c = length-push_edge _ _ _ ∙ length-push_edge ns _ _

-- `q` is an entry of a condition of the list.
abbrev pub IsLinked : Bool → List ℕ → ℕ → Type 0
IsLinked only_bol cs q = (c : ℕ) × Memᴰ c cs × IsEntry only_bol c q

module _ (starts : List CondStart) (entry : ℕ) (only_bol : Bool) (num : Numbered starts) where
  pub HasEdge-link_all :
      (ns : States) (cs : List ℕ) (q : ℕ) (x : NfaEdge)
      → ((c : ℕ) → Memᴰ c cs → c < length starts)
      → 2 * length starts ≤ length ns
      → HasEdge (link_all starts entry only_bol ns cs) q x
        ↔ (HasEdge ns q x ⊎ IsLinked only_bol cs q × (x ≡ eps_to entry))
  unfolding link_all
  HasEdge-link_all ns [] q x h len = (inl, ⊎_elim (λ m. m) (λ new. absurd (Memᴰ.not-nil new.0.1)))
  HasEdge-link_all ns (c ∷ cs) q x h len =
      let n1 = link starts entry only_bol ns c in
      let one = HasEdge-link starts entry only_bol ns c q x num (h c (Memᴰ.head refl)) len in
      let rest =
        HasEdge-link_all n1 cs q x (λ d m. h d (Memᴰ.tail m))
          (omega (arith, length-link starts entry only_bol ns c)) in
      (
        λ m.
            ⊎_elim (λ o. ⊎_elim inl (λ new. inr ((c, Memᴰ.head refl, new.0), new.1)) (one.0 o))
              (λ new. inr ((new.0.0, Memᴰ.tail new.0.1, new.0.2), new.1)) (rest.0 m),
        ⊎_elim (λ o. rest.1 (inl (one.1 (inl o))))
            (λ ((d, m, e), x').
              ⊎_elim
                (λ (same : d ≡ c).
                  rest.1 (inl (one.1 (inr (subst (λ k. IsEntry only_bol k q) same e, x')))))
                (λ m'. rest.1 (inr ((d, m', e), x'))) (Memᴰ.cases_cons m)),
      )

  pub length-link_all :
      (ns : States) (cs : List ℕ) → length (link_all starts entry only_bol ns cs) ≡ length ns
  unfolding link_all
  length-link_all ns [] = refl
  length-link_all ns (c ∷ cs) =
      length-link_all (link starts entry only_bol ns c) cs ∙ length-link starts entry only_bol ns c

pub same-link_all :
    (starts : List CondStart) (entry : ℕ) (only_bol : Bool) (n : States) (cs : List ℕ)
    → SameAccepts n (link_all starts entry only_bol n cs)
unfolding link_all link
same-link_all starts entry b n [] q = refl
same-link_all starts entry true n (c ∷ cs) q =
    same-link_all starts entry true (link starts entry true n c) cs q
    ∙ same-push_edge n n (λ k. refl) _ _ q
same-link_all starts entry false n (c ∷ cs) q =
    same-link_all starts entry false (link starts entry false n c) cs q
    ∙ same-push_edge n _ (same-push_edge n n (λ k. refl) _ _) _ _ q
