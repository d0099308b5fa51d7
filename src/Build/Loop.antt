-- ===== src/Build/Loop.antt =====
-- The loop of `build_dfa` in src/dfa.cpp over the work list: it ends, and every state is finished.
use lex_cpp.Prelude.{
  ℕ, zero, suc, ◌+◌, ◌^◌, ◌≤◌, ◌<◌, ◌≡◌, ◌≢◌, refl, sym, ap, subst, ◌∙◌, ⊎_elim, List, [], ◌∷◌,
  length, get_or, none, some, inl, inr, ◌⊎◌, arith, Memᴰ, true, ltb,
}
use mathlib.Core.List.Memᴰ
use native.Mathlib.Decide.{ℕ_discrete}
use lex_cpp.Rules.{Nfa}
use lex_cpp.Dfa.Fuel.{IsClosed, List-cases}
use lex_cpp.Dfa.{step}
use lex_cpp.Build.{Builder, DfaState, expand, build_loop}
use lex_cpp.Build.Count.{length-IsDistinct}
use lex_cpp.Build.Table.{Extends, set_at}
use lex_cpp.Build.Put.{TableOf, size}
use lex_cpp.Build.Expand.{Finished, Grow, expand-Grow}

module _ (nfa : Nfa) (n : ℕ) (reps : List ℕ) where
  -- Between two turns: a state is finished, or its number waits.
  pub record Turns (z : Builder) : Type 0 where
    pub table : TableOf nfa n reps z
    pub waiting : (q : ℕ) → Memᴰ q z.work → (j : ℕ) × (q ≡ suc j) × (j < size z)
    pub complete :
        (i : ℕ) → i < size z → Memᴰ (suc i) z.work ⊎ ((c : ℕ) → c < n → Finished nfa reps z i c)

  -- There is a state for each set at most.
  pub size-le : (z : Builder) → TableOf nfa n reps z → size z ≤ 2 ^ length nfa.states
  size-le z t = length-IsDistinct (length nfa.states) 0 z.id_to_set t.distinct (λ s m.
      let (strict, below) = t.are_sets s m in
      (strict, λ q mq. (omega arith, omega (arith, below q mq))))

  -- A turn at state `i`.
  Grow-Turns :
      (i : ℕ) (rest : List ℕ) (z z' : Builder)
      → Turns z
      → z.work ≡ suc i ∷ rest
      → Grow nfa n reps i 0 (record z { work = rest }) z'
      → ((c : ℕ) → 0 ≤ c → c < n → Finished nfa reps z' i c)
      → Turns z'
  Grow-Turns i rest z z' h w g done = record {
    table = g.table;
    waiting = λ q m.
        ⊎_elim
          (λ m'.
            let (j, e, lt) = h.waiting q (subst (Memᴰ q) (sym w) (Memᴰ.tail m')) in
            (j, e, omega (arith, g.extends.0, lt)))
          (λ x. x) (g.are_ids q m);
    complete = λ k hk. elim (ℕ_discrete i k) [
      | yes e ↦ inr (
          subst (λ m. (c : ℕ) → c < n → Finished nfa reps z' m c) e
            (λ c hc. done c (omega arith) hc))
      | no ne ↦ ⊎_elim (old k ne) (λ ge. inl (g.queued k ge hk)) (before_or k (size z))
    ];
  }
    where
      before_or : (k m : ℕ) → (k < m) ⊎ (m ≤ k)
      before_or k m = ground arith

      old :
          (k : ℕ)
          → i ≢ k
          → k < size z
          → Memᴰ (suc k) z'.work ⊎ ((c : ℕ) → c < n → Finished nfa reps z' k c)
      old k ne lt =
          ⊎_elim
            (λ m.
              ⊎_elim (λ e. absurd (ne (omega (arith, e)))) (λ m'. inl (g.kept (suc k) m'))
                (Memᴰ.cases_cons (subst (Memᴰ (suc k)) w m)))
            (λ f. inr (λ c hc none_there.
              subst (λ s. step nfa.states s (get_or reps c 256) ≡ some []) (sym (g.extends.1 k lt))
                (f c hc (
                  ap (λ (r : DfaState). get_or r.next c none) (sym (g.rows k lt ne))
                  ∙ none_there))))
            (h.complete k lt)

  abbrev pub Ends : ℕ → Builder → Type 0
  Ends fuel z =
      (z' : Builder) × (build_loop nfa n reps fuel z ≡ some z')
      × TableOf nfa n reps z'
      × Extends z.id_to_set z'.id_to_set
      × ((i c : ℕ) → i < size z' → c < n → Finished nfa reps z' i c)

  no_work : (fuel : ℕ) (z : Builder) → z.work ≡ [] → build_loop nfa n reps fuel z ≡ some z
  unfolding build_loop
  no_work fuel z e =
      subst (λ (y : Builder). build_loop nfa n reps fuel y ≡ some y)
        (ap (λ w. record z { work = w }) (sym e)) (empty fuel)
    where
      empty :
          (k : ℕ) → build_loop nfa n reps k (record z { work = [] }) ≡ some (record z { work = [] })
      empty zero = refl
      empty (suc k) = refl

  stop : (fuel : ℕ) (z : Builder) → Turns z → z.work ≡ [] → Ends fuel z
  stop fuel z h e = (
    z,
    no_work fuel z e,
    h.table,
    (omega arith, λ k lt. refl),
    λ i c hi hc.
        ⊎_elim (λ m. absurd (Memᴰ.not-nil (subst (Memᴰ (suc i)) e m))) (λ f. f c hc)
          (h.complete i hi),
  )

  turn :
      (fuel i : ℕ) (rest : List ℕ) (z z' : Builder)
      → z.work ≡ suc i ∷ rest
      → i < size z
      → expand nfa n reps (set_at z.id_to_set i) (suc i) n 0 (record z { work = rest }) ≡ some z'
      → build_loop nfa n reps (suc fuel) z ≡ build_loop nfa n reps fuel z'
  unfolding build_loop
  turn fuel i rest z z' w lt e =
      let known : ltb i (size z) ≡ true = ground (arith, lt) in rw (w, known, e, build_loop) refl

  module _ (closed : IsClosed nfa.states) (below : (c : ℕ) → c < n → get_or reps c 256 < 256) where
    pub build_loop-Ends :
        (fuel : ℕ) (z : Builder)
        → Turns z
        → length z.work + 2 ^ length nfa.states ≤ fuel + size z
        → Ends fuel z
    build_loop-Ends zero z h enough =
        stop zero z h (no_length z.work (omega (arith, size-le z h.table)))
      where
        no_length : (l : List ℕ) → length l ≡ 0 → l ≡ []
        no_length [] e = refl
        no_length (x ∷ l) e = absurd (omega (arith, e))
    build_loop-Ends (suc fuel) z h enough = elim (List-cases z.work) [
      | inl e ↦ stop (suc fuel) z h e
      | inr (q, rest, w0) ↦
          let (i, num, lt) = h.waiting q (subst (Memᴰ q) (sym w0) (Memᴰ.head refl)) in
          let w = w0 ∙ ap (λ k. k ∷ rest) num in
          let (z', e, g, done) =
            expand-Grow nfa n reps i closed below (set_at z.id_to_set i) n 0
              (record z { work = rest }) (omega arith) h.table lt refl in
          let shorter : length z.work ≡ suc (length rest) = ap length w in
          let (z2, e2, t, x, f) =
            build_loop-Ends fuel z' (Grow-Turns i rest z z' h w g done)
              (omega (arith, g.balance, enough, shorter)) in
          (
            z2,
            turn fuel i rest z z' w lt e ∙ e2,
            t,
            (
              omega (arith, x.0, g.extends.0),
              λ k hk. x.1 k (omega (arith, hk, g.extends.0)) ∙ g.extends.1 k hk,
            ),
            f,
          )
    ]
