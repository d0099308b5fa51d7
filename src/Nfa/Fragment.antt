-- ===== src/Nfa/Fragment.antt =====
-- What a fragment of the automaton promises, for any way of building it (src/nfa.cpp).
use lex_cpp.Prelude.{
  ℕ, ◌≤◌, ◌<◌, ◌≡◌, refl, sym, ap, ◌∙◌, subst, List, [], ◌∷◌, ◌++◌, length, Memᴰ, Memᴰ-concat, true,
  false, ◌⊎◌, inl, inr, ⊎_elim, arith, ◌==◌, ==_iff, ltb, ltb→lt, Bool-cases, ◌≢◌,
}
use mathlib.Core.List.Memᴰ
use lex_cpp.ByteSet.{test, is_empty}
use lex_cpp.Regex.Language.{Bytes, Lang, Cat, Includes}
use lex_cpp.Nfa.{NfaEdge, States, Frag, push_edge}
use lex_cpp.Nfa.Graph.{
  edges_from, HasEdge, Run, Sub, edges_past, edges-push_edge_self, edges-push_edge_ne,
  length-push_edge,
}

-- From `n0` to `n1` only new states got edges, and those stay among the new states.
pub record Region (n0 n1 : States) : Type 0 where
  pub grow : length n0 ≤ length n1
  pub frame : (q : ℕ) → q < length n0 → edges_from n1 q ≡ edges_from n0 q
  pub closed :
      (q : ℕ) (x : NfaEdge)
      → length n0 ≤ q
      → HasEdge n1 q x
      → (length n0 ≤ x.target) × (x.target < length n1)

-- A language at each state, such that an edge leads from a word to the same word or one byte less.
abbrev pub FlowFrom : Lang → Lang → NfaEdge → Type 0
FlowFrom T Q x =
    (is_empty x.on ≡ true → Includes T Q)
    × ((b : ℕ) (w : Bytes) → is_empty x.on ≡ false → test x.on b ≡ true → T w → Q (b ∷ w))

abbrev pub Flow : (ℕ → Lang) → ℕ → NfaEdge → Type 0
Flow at q x = FlowFrom (at x.target) (at q) x

abbrev pub Flows : ℕ → States → (ℕ → Lang) → Type 0
Flows lo ns at = (q : ℕ) (x : NfaEdge) → lo ≤ q → HasEdge ns q x → Flow at q x

-- Labels from `K` at the end of the fragment up to at most `A` followed by `K` at its start.
pub record Labels (lo : ℕ) (ns : States) (f : Frag) (A K : Lang) : Type 1 where
  pub at : ℕ → Lang
  pub ends : Includes K (at f.e)
  pub starts : Includes (at f.s) (Cat A K)
  pub flows : Flows lo ns at

-- A fragment for the language `A`: the runs from its start to its end are the words of `A`.
pub record IsFrag (n0 n1 : States) (f : Frag) (A : Lang) : Type 1 where
  pub region : Region n0 n1
  pub s_lo : length n0 ≤ f.s
  pub s_hi : f.s < length n1
  pub e_lo : length n0 ≤ f.e
  pub e_hi : f.e < length n1
  pub labels : (K : Lang) → Labels (length n0) n1 f A K
  pub runs : (w : Bytes) → A w → Run n1 f.s w f.e

pub not_past : (n : States) {q : ℕ} {x : NfaEdge} → HasEdge n q x → q < length n
not_past n {q} {x} m = elim (Bool-cases (ltb q (length n))) [
  | inl h ↦ ltb→lt q (length n) h
  | inr h ↦ absurd (Memᴰ.not-nil (subst (λ l. Memᴰ x l) (edges_past n q (ground arith)) m))
]

pub Region-refl : (n : States) → Region n n
Region-refl n = record {
  grow = omega arith;
  frame = λ q h. refl;
  closed = λ q x h m. absurd (omega (arith, not_past n m));
}

-- New states and a boundary mark leave the edges as they are.
pub Region-same :
    {n0 n1 n2 : States}
    → length n1 ≤ length n2
    → ((q : ℕ) → edges_from n2 q ≡ edges_from n1 q)
    → Region n0 n1
    → Region n0 n2
Region-same g same r = record {
  grow = omega arith;
  frame = λ q h. same q ∙ r.frame q h;
  closed = λ q x h m.
      let (lo, hi) = r.closed q x h (subst (λ l. Memᴰ x l) (same q) m) in (lo, omega arith);
}

pub Region-trans : {n0 n1 n2 : States} → Region n0 n1 → Region n1 n2 → Region n0 n2
Region-trans {n0} {n1} {n2} r t = record {
  grow = omega arith;
  frame = λ q h. t.frame q (omega arith) ∙ r.frame q h;
  closed = λ q x h m. elim (Bool-cases (ltb q (length n1))) [
    | inl lt ↦
        let (lo, hi) =
          r.closed q x h (subst (λ l. Memᴰ x l) (t.frame q (ltb→lt q (length n1) lt)) m) in
        (lo, omega arith)
    | inr ge ↦ let (lo, hi) = t.closed q x (ground arith) m in (omega arith, hi)
  ];
}

pub Sub-Region : {n0 n1 : States} → Region n0 n1 → Sub n0 n1
Sub-Region {n0} r q x m = subst (λ l. Memᴰ x l) (sym (r.frame q (not_past n0 m))) m

-- Edges added one after another.
unfoldable pub add_all : States → List (ℕ × NfaEdge) → States
add_all ns [] = ns
add_all ns ((q, x) ∷ r) = add_all (push_edge ns q x) r

abbrev pub All : (ℕ → NfaEdge → Type 0) → List (ℕ × NfaEdge) → Type 0
All P [] = Unit
All P ((q, x) ∷ r) = P q x × All P r

pub All-imp :
    {P Q : ℕ → NfaEdge → Type 0} (l : List (ℕ × NfaEdge))
    → ((q : ℕ) (x : NfaEdge) → P q x → Q q x)
    → All P l
    → All Q l
All-imp [] h a = tt
All-imp ((q, x) ∷ r) h (p, a) = (h q x p, All-imp r h a)

pub push_edge-cases :
    (ns : States) (r q : ℕ) (y x : NfaEdge)
    → r < length ns
    → HasEdge (push_edge ns r y) q x
    → HasEdge ns q x ⊎ (q ≡ r) × (x ≡ y)
push_edge-cases ns r q y x h m = elim (Bool-cases (r == q)) [
  | inl same ↦
      let e : r ≡ q = (==_iff r q).0 same in
      let m' : Memᴰ x (edges_from ns r ++ y ∷ []) =
        subst (λ l. Memᴰ x l)
          (ap (edges_from (push_edge ns r y)) (sym e) ∙ edges-push_edge_self ns r y h) m in
      elim ((Memᴰ-concat x y (edges_from ns r)).0 m') [
        | inl old ↦ inl (subst (λ k. HasEdge ns k x) e old)
        | inr new ↦ inr (sym e, new)
      ]
  | inr other ↦ inl (subst (λ l. Memᴰ x l) (edges-push_edge_ne ns r q y (ground arith)) m)
]

pub Sub-push_edge : (ns : States) (r : ℕ) (y : NfaEdge) → r < length ns → Sub ns (push_edge ns r y)
Sub-push_edge ns r y h q x m = elim (Bool-cases (r == q)) [
  | inl same ↦
      let e : r ≡ q = (==_iff r q).0 same in
      subst (λ k. HasEdge (push_edge ns r y) k x) e
        (subst (λ l. Memᴰ x l) (sym (edges-push_edge_self ns r y h))
          (Memᴰ.append_left _ (subst (λ k. HasEdge ns k x) (sym e) m)))
  | inr other ↦ subst (λ l. Memᴰ x l) (sym (edges-push_edge_ne ns r q y (ground arith))) m
]

pub HasEdge-push_edge :
    (ns : States) (r : ℕ) (y : NfaEdge) → r < length ns → HasEdge (push_edge ns r y) r y
HasEdge-push_edge ns r y h =
    subst (λ l. Memᴰ y l) (sym (edges-push_edge_self ns r y h))
      (Memᴰ.append_right _ (Memᴰ.head refl))

abbrev pub Below : States → ℕ → NfaEdge → Type 0
Below n q x = q < length n

pub length-add_all : (ns : States) (l : List (ℕ × NfaEdge)) → length (add_all ns l) ≡ length ns
unfolding add_all
length-add_all ns [] = refl
length-add_all ns ((q, x) ∷ r) = length-add_all (push_edge ns q x) r ∙ length-push_edge ns q x

All-Below_push :
    (ns : States) (q : ℕ) (y : NfaEdge) (l : List (ℕ × NfaEdge))
    → All (Below ns) l
    → All (Below (push_edge ns q y)) l
All-Below_push ns q y l = All-imp l (λ p x h. omega (arith, length-push_edge ns q y))

pub Sub-add_all : (ns : States) (l : List (ℕ × NfaEdge)) → All (Below ns) l → Sub ns (add_all ns l)
unfolding add_all
Sub-add_all ns [] h q x m = m
Sub-add_all ns ((r, y) ∷ l) (h, a) q x m =
    Sub-add_all (push_edge ns r y) l (All-Below_push ns r y l a) q x (Sub-push_edge ns r y h q x m)

-- Each added edge is there.
pub All-HasEdge-add_all :
    (ns : States) (l : List (ℕ × NfaEdge)) → All (Below ns) l → All (HasEdge (add_all ns l)) l
unfolding add_all
All-HasEdge-add_all ns [] h = tt
All-HasEdge-add_all ns ((r, y) ∷ l) (h, a) = (
  Sub-add_all (push_edge ns r y) l (All-Below_push ns r y l a) r y (HasEdge-push_edge ns r y h),
  All-HasEdge-add_all (push_edge ns r y) l (All-Below_push ns r y l a),
)

-- What holds of the old edges and of the added ones holds of all.
pub add_all_ind :
    (P : ℕ → NfaEdge → Type 0) (ns : States) (l : List (ℕ × NfaEdge))
    → All (Below ns) l
    → ((q : ℕ) (x : NfaEdge) → HasEdge ns q x → P q x)
    → All P l
    → (q : ℕ) (x : NfaEdge) → HasEdge (add_all ns l) q x
    → P q x
unfolding add_all
add_all_ind P ns [] b old a q x m = old q x m
add_all_ind P ns ((r, y) ∷ l) (h, b) old (p, a) q x m =
    add_all_ind P (push_edge ns r y) l (All-Below_push ns r y l b)
      (λ q' x' m'.
        ⊎_elim (old q' x') (λ new. rw (new.0, new.1) p) (push_edge-cases ns r q' y x' h m'))
      a q x m

pub edges-add_all_ne :
    (ns : States) (l : List (ℕ × NfaEdge)) (q : ℕ)
    → All (λ r x. r ≢ q) l
    → edges_from (add_all ns l) q ≡ edges_from ns q
unfolding add_all
edges-add_all_ne ns [] q h = refl
edges-add_all_ne ns ((r, x) ∷ l) q (h, a) =
    edges-add_all_ne (push_edge ns r x) l q a ∙ edges-push_edge_ne ns r q x h
