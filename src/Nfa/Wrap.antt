-- ===== src/Nfa/Wrap.antt =====
-- A fragment from older ones by two new states and some edges, the shape of every building step of
-- src/nfa.cpp but concatenation.
use lex_cpp.Prelude.{
  ℕ, suc, ◌≤◌, ◌<◌, ◌≡◌, refl, sym, ◌∙◌, subst, subst₂, List, length, Memᴰ, true, false, arith,
  ◌==◌, ==_iff, if◌then◌else◌,
}
use lex_cpp.ByteSet.{is_empty, no_bytes}
use lex_cpp.Regex.Language.{Bytes, Lang, Cat, Includes}
use lex_cpp.Nfa.{NfaEdge, States, Frag, eps_to}
use lex_cpp.Nfa.Graph.{edges_from, HasEdge, Run, eps}
use lex_cpp.Nfa.Fragment.{
  Region, Region-same, Flow, FlowFrom, Flows, IsFrag, add_all, All, All-imp, not_past, add_all_ind,
  length-add_all, edges-add_all_ne,
}

pub no_bytes_empty : is_empty no_bytes ≡ true
unfolding is_empty
no_bytes_empty = refl

pub step_eps :
    {n : States} {q r : ℕ} {w : Bytes} (t : ℕ) → HasEdge n q (eps_to t) → Run n t w r → Run n q w r
step_eps t m p = eps (eps_to t) m no_bytes_empty p

pub Flow-eps : (at : ℕ → Lang) (q t : ℕ) → Includes (at t) (at q) → Flow at q (eps_to t)
Flow-eps at q t h = (λ _. h, λ b w e. absurd (bad e))
  where
    bad : is_empty no_bytes ≡ false → ⊥
    bad e = cc (sym no_bytes_empty ∙ e)

-- The edge lies within the ids from `lo` up to `hi`.
abbrev pub Inside : ℕ → ℕ → ℕ → NfaEdge → Type 0
Inside lo hi q x = (lo ≤ q) × (q < hi) × (lo ≤ x.target) × (x.target < hi)

pub Region-add_all :
    {n0 n1 : States} (l : List (ℕ × NfaEdge))
    → Region n0 n1
    → All (Inside (length n0) (length n1)) l
    → Region n0 (add_all n1 l)
Region-add_all {n0} {n1} l r a = record {
  grow = omega (arith, r.grow, length-add_all n1 l);
  frame = λ q h.
      edges-add_all_ne n1 l q (All-imp l (λ q' x' i e. absurd (omega arith)) a) ∙ r.frame q h;
  closed = λ q x lo m.
      add_all_ind
        (λ q' x'. length n0 ≤ q' → (length n0 ≤ x'.target) × (x'.target < length (add_all n1 l))) n1
        l (All-imp l (λ q' x' i. i.1) a)
        (λ q' x' m' h. let (c, d) = r.closed q' x' h m' in (c, omega (arith, length-add_all n1 l)))
        (All-imp l (λ q' x' i h. (i.2, omega (arith, i.3, length-add_all n1 l))) a) q x m lo;
}

-- Labels for the two new states, over labels for the others.
abbrev pub over : Frag → Lang → Lang → (ℕ → Lang) → ℕ → Lang
over f S K at q = if q == f.s then S else if q == f.e then K else at q

module _ (f : Frag) (S K : Lang) (at : ℕ → Lang) where
  over_s : over f S K at f.s ≡ S
  over_s = rw ((==_iff f.s f.s).1 refl)

  over_e : f.s < f.e → over f S K at f.e ≡ K
  over_e h = let ne : (f.e == f.s) ≡ false = ground arith in rw (ne, (==_iff f.e f.e).1 refl)

  over_old : (q : ℕ) → q < f.s → f.s < f.e → over f S K at q ≡ at q
  over_old q h h' =
      let ne : (q == f.s) ≡ false = ground arith in
      let ne' : (q == f.e) ≡ false = ground arith in rw (ne, ne')

-- The labels of the older states flow on, since no edge leaves them.
Flows-over :
    {n0 na : States} (f : Frag) (S K : Lang) (at : ℕ → Lang)
    → Region n0 na
    → f.s ≡ length na
    → f.s < f.e
    → Flows (length n0) na at
    → Flows (length n0) na (over f S K at)
Flows-over {n0} {na} f S K at r es lt flows q x lo m =
    let hq : q < f.s = omega (arith, not_past na m) in
    let ht : x.target < f.s = omega (arith, (r.closed q x lo m).1) in
    subst₂ (λ T Q. FlowFrom T Q x) (sym (over_old f S K at x.target ht lt))
      (sym (over_old f S K at q hq lt)) (flows q x lo m)

-- What is needed to make a fragment of the older states `na`, its two new states and the edges `l`.
pub wrap :
    (n0 na n2 : States) (f : Frag) (l : List (ℕ × NfaEdge)) (A : Lang)
    → Region n0 na
    → f.s ≡ length na
    → f.e ≡ suc (length na)
    → length n2 ≡ suc (suc (length na))
    → ((q : ℕ) → edges_from n2 q ≡ edges_from na q)
    → All (Inside (length n0) (length n2)) l
    → ((K : Lang)
        → (S : Lang) × (at : ℕ → Lang) × Includes S (Cat A K)
          × Flows (length n0) na at
          × All (Flow (over f S K at)) l)
    → ((w : Bytes) → A w → Run (add_all n2 l) f.s w f.e)
    → IsFrag n0 (add_all n2 l) f A
wrap n0 na n2 f l A r es ee len same ins labels runs = record {
  region = Region-add_all l (Region-same (omega arith) same r) ins;
  s_lo = omega (arith, r.grow);
  s_hi = omega (arith, length-add_all n2 l);
  e_lo = omega (arith, r.grow);
  e_hi = omega (arith, length-add_all n2 l);
  labels = λ K.
      let (S, at, fit, flows, added) = labels K in
      record {
        at = over f S K at;
        ends = λ w k. subst (λ (L : Lang). L w) (sym (over_e f S K at (omega arith))) k;
        starts = λ w a. fit w (subst (λ (L : Lang). L w) (over_s f S K at) a);
        flows = λ q x lo m.
            add_all_ind (λ q' x'. length n0 ≤ q' → Flow (over f S K at) q' x') n2 l
              (All-imp l (λ q' x' i. i.1) ins)
              (λ q' x' m' lo'.
                Flows-over f S K at r es (omega arith) flows q' x' lo'
                  (subst (λ y. Memᴰ x' y) (same q') m'))
              (All-imp l (λ q' x' p _. p) added) q x m lo;
      };
  runs = runs;
}

-- Epsilon edges that agree with the labels: from the start or an older state, to an older state or
-- the end.
module _ (f : Frag) (S K : Lang) (at : ℕ → Lang) (lt : f.s < f.e) where
  pub at_s : Includes S (over f S K at f.s)
  at_s w x = subst (λ (L : Lang). L w) (sym (over_s f S K at)) x

  pub of_e : Includes (over f S K at f.e) K
  of_e w x = subst (λ (L : Lang). L w) (over_e f S K at lt) x

  at_old : (q : ℕ) → q < f.s → Includes (at q) (over f S K at q)
  at_old q h w x = subst (λ (L : Lang). L w) (sym (over_old f S K at q h lt)) x

  of_old : (q : ℕ) → q < f.s → Includes (over f S K at q) (at q)
  of_old q h w x = subst (λ (L : Lang). L w) (over_old f S K at q h lt) x

  pub Flow-start_old : (t : ℕ) → t < f.s → Includes (at t) S → Flow (over f S K at) f.s (eps_to t)
  Flow-start_old t h i = Flow-eps (over f S K at) f.s t (λ w x. at_s w (i w (of_old t h w x)))

  pub Flow-start_end : Includes K S → Flow (over f S K at) f.s (eps_to f.e)
  Flow-start_end i = Flow-eps (over f S K at) f.s f.e (λ w x. at_s w (i w (of_e w x)))

  pub Flow-old_old :
      (q t : ℕ) → q < f.s → t < f.s → Includes (at t) (at q) → Flow (over f S K at) q (eps_to t)
  Flow-old_old q t h h' i =
      Flow-eps (over f S K at) q t (λ w x. at_old q h w (i w (of_old t h' w x)))

  pub Flow-old_end : (q : ℕ) → q < f.s → Includes K (at q) → Flow (over f S K at) q (eps_to f.e)
  Flow-old_end q h i = Flow-eps (over f S K at) q f.e (λ w x. at_old q h w (i w (of_e w x)))
