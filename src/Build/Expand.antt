-- ===== src/Build/Expand.antt =====
-- The loop of `build_dfa` in src/dfa.cpp over the classes of bytes, for one state.
use lex_cpp.Prelude.{
  ℕ, zero, suc, ◌+◌, ◌≤◌, ◌<◌, ◌≡◌, ◌≢◌, refl, sym, ap, subst, ◌∙◌, ⊎_elim, List, [], ◌∷◌, length,
  length-append, get_or, none, some, inl, inr, ◌⊎◌, arith, Memᴰ, Memᴰ-concat, false, leb,
}
use mathlib.Core.List.Memᴰ
use native.Mathlib.Decide.{ℕ_discrete}
use lex_cpp.Rules.{Nfa}
use lex_cpp.Dfa.{StateSet, step}
use lex_cpp.Dfa.Fuel.{IsClosed, List-cases}
use lex_cpp.Dfa.Step.{IsStateSet, step-IsStateSet}
use lex_cpp.Build.{Builder, DfaState, set_next, target_of, expand}
use lex_cpp.Build.Table.{Table, Extends, row, entry, set_at}
use lex_cpp.Build.Write.{row-other, entry_self, entry-own, Table-set}
use lex_cpp.Build.Put.{TableOf, size, Put, Queues, target_of-Put}

-- No target at a class where the step finds a state.
abbrev pub Finished : Nfa → List ℕ → Builder → ℕ → ℕ → Type 0
Finished nfa reps z i c =
    entry z.states i c ≡ none → step nfa.states (set_at z.id_to_set i) (get_or reps c 256) ≡ some []

-- What the loop at state `i` leaves alone, from class `cl` on, and what it puts on the work list.
pub record Grow (nfa : Nfa) (n : ℕ) (reps : List ℕ) (i cl : ℕ) (z z' : Builder) : Type 0 where
  pub table : TableOf nfa n reps z'
  pub extends : Extends z.id_to_set z'.id_to_set
  pub rows : (k : ℕ) → k < size z → i ≢ k → row z'.states k ≡ row z.states k
  pub own : (c : ℕ) → c < cl → entry z'.states i c ≡ entry z.states i c
  pub kept : (q : ℕ) → Memᴰ q z.work → Memᴰ q z'.work
  pub queued : (k : ℕ) → size z ≤ k → k < size z' → Memᴰ (suc k) z'.work
  pub are_ids : (q : ℕ) → Memᴰ q z'.work → Memᴰ q z.work ⊎ ((k : ℕ) × (q ≡ suc k) × (k < size z'))
  pub balance : length z'.work + size z ≡ length z.work + size z'

module _ (nfa : Nfa) (n : ℕ) (reps : List ℕ) (i : ℕ) where
  Grow-refl : (cl : ℕ) (z : Builder) → TableOf nfa n reps z → Grow nfa n reps i cl z z
  Grow-refl cl z t = record {
    table = t;
    extends = (omega arith, λ k h. refl);
    rows = λ k h ne. refl;
    own = λ c h. refl;
    kept = λ q m. m;
    queued = λ k ge h. absurd (omega arith);
    are_ids = λ q m. inl m;
    balance = refl;
  }

  Grow-trans :
      (cl : ℕ) (z z1 z2 : Builder)
      → Grow nfa n reps i cl z z1
      → Grow nfa n reps i (cl + 1) z1 z2
      → Grow nfa n reps i cl z z2
  Grow-trans cl z z1 z2 a b = record {
    table = b.table;
    extends = (
      omega (arith, a.extends.0, b.extends.0),
      λ k h. b.extends.1 k (omega (arith, a.extends.0)) ∙ a.extends.1 k h,
    );
    rows = λ k h ne. b.rows k (omega (arith, a.extends.0)) ne ∙ a.rows k h ne;
    own = λ c h. b.own c (omega arith) ∙ a.own c h;
    kept = λ q m. b.kept q (a.kept q m);
    queued = λ k ge h.
        ⊎_elim (λ lt. b.kept (suc k) (a.queued k ge lt)) (λ ge'. b.queued k ge' h)
          (before_or k (size z1));
    are_ids = λ q m.
        ⊎_elim
          (λ m'.
            ⊎_elim (λ m''. inl m'')
              (λ x. let (k, e, lt) = x in inr (k, e, omega (arith, b.extends.0, lt)))
              (a.are_ids q m'))
          (λ x. inr x) (b.are_ids q m);
    balance = omega (arith, a.balance, b.balance);
  }
    where
      before_or : (k m : ℕ) → (k < m) ⊎ (m ≤ k)
      before_or k m = ground arith

  -- The set goes to its place, and its number into the row.
  abbrev round : ℕ → Builder → StateSet → Builder
  round cl z ss =
      let r = target_of nfa n z ss in record r.0 { states = set_next r.0.states (suc i) cl r.1 }

  -- What the work list has after the set is put.
  Queues-work :
      (z : Builder) (ss : StateSet) (z' : Builder) (id : ℕ)
      → Put nfa n reps z ss z' id
      → Queues z z' id
      → ((q : ℕ) → Memᴰ q z.work → Memᴰ q z'.work)
        × ((k : ℕ) → size z ≤ k → k < size z' → Memᴰ (suc k) z'.work)
        × ((q : ℕ) → Memᴰ q z'.work → Memᴰ q z.work ⊎ ((k : ℕ) × (q ≡ suc k) × (k < size z')))
        × (length z'.work + size z ≡ length z.work + size z')
  Queues-work z ss z' id p (inl (w, s)) = (
    λ q m. subst (Memᴰ q) (sym w) m,
    λ k ge h. absurd (omega arith),
    λ q m. inl (subst (Memᴰ q) w m),
    omega (arith, ap length w),
  )
  Queues-work z ss z' id p (inr (w, s)) = (
    λ q m. subst (Memᴰ q) (sym w) (Memᴰ.append_left _ m),
    λ k ge h.
        subst (Memᴰ (suc k)) (sym w) (Memᴰ.append_right z.work (Memᴰ.head (sym (p.only k ge h)))),
    λ q m.
        ⊎_elim (λ m'. inl m') (λ e. let (j, num, lt, at) = p.place in inr (j, e ∙ num, lt))
          ((Memᴰ-concat q id z.work).0 (subst (Memᴰ q) w m)),
    omega (arith, ap length w, length-append {0} z.work (id ∷ [])),
  )

  clash : {q : ℕ} {A : Type 0} → none ≡ some q → A
  clash e = absurd (cc)

  module _ (cl : ℕ) (z : Builder) (ss : StateSet) (t : TableOf nfa n reps z) (lt : i < size z)
      (hc : cl < n) (to : step nfa.states (set_at z.id_to_set i) (get_or reps cl 256) ≡ some ss)
      (isset : IsStateSet nfa.states ss) where
    abbrev mid : Builder
    mid = (target_of nfa n z ss).0

    put : Put nfa n reps z ss mid (target_of nfa n z ss).1
    put = (target_of-Put nfa n reps z ss t isset).0

    abbrev j : ℕ
    j = put.place.0

    lt' : i < size mid
    lt' = omega (arith, put.extends.0, lt)

    round-eq : round cl z ss ≡ record mid { states = set_next mid.states (suc i) cl (suc j) }
    round-eq = ap (λ k. record mid { states = set_next mid.states (suc i) cl k }) put.place.1

    round_rows :
        (k : ℕ)
        → k < size z
        → i ≢ k
        → row (set_next mid.states (suc i) cl (suc j)) k ≡ row z.states k
    unfolding set_next
    round_rows k h ne =
        row-other nfa n reps mid.states mid.index mid.id_to_set put.table i cl j lt' k ne
        ∙ put.rows k h

    round_own :
        (c : ℕ) → c < cl → entry (set_next mid.states (suc i) cl (suc j)) i c ≡ entry z.states i c
    unfolding set_next
    round_own c h =
        entry-own nfa n reps mid.states mid.index mid.id_to_set put.table i cl j lt' c
          (λ e. omega (arith, e, h))
        ∙ ap (λ (r : DfaState). get_or r.next c none) (put.rows i lt)

    round-Table : Table nfa n reps (set_next mid.states (suc i) cl (suc j)) mid.index mid.id_to_set
    unfolding set_next
    round-Table =
        Table-set nfa n reps mid.states mid.index mid.id_to_set put.table i cl j lt' hc put.place.2
          (subst (λ s. step nfa.states s (get_or reps cl 256) ≡ some (set_at mid.id_to_set j))
            (sym (put.extends.1 i lt)) (to ∙ ap some (sym put.place.3)))

    round-Grow : Grow nfa n reps i cl z (round cl z ss)
    round-Grow =
        let w =
          Queues-work z ss mid (target_of nfa n z ss).1 put
            (target_of-Put nfa n reps z ss t isset).1 in
        subst (Grow nfa n reps i cl z) (sym round-eq) (record {
          table = round-Table;
          extends = put.extends;
          rows = round_rows;
          own = round_own;
          kept = w.0;
          queued = w.1;
          are_ids = w.2;
          balance = w.3;
        })

    round-entry : entry (set_next mid.states (suc i) cl (suc j)) i cl ≡ some (suc j)
    unfolding set_next
    round-entry = entry_self nfa n reps mid.states mid.index mid.id_to_set put.table i cl j lt' hc

    round-Finished : Finished nfa reps (round cl z ss) i cl
    round-Finished =
        subst (λ (y : Builder). Finished nfa reps y i cl) (sym round-eq)
          (λ e. clash (sym e ∙ round-entry))

  module _ (cur : StateSet) (k cl : ℕ) (z : Builder) (below : get_or reps cl 256 < 256) where
    below_leb : leb 256 (get_or reps cl 256) ≡ false
    below_leb = ground (arith, below)

    expand-skip :
        step nfa.states cur (get_or reps cl 256) ≡ some []
        → expand nfa n reps cur (suc i) (suc k) cl z ≡ expand nfa n reps cur (suc i) k (cl + 1) z
    unfolding expand
    expand-skip e = rw (below_leb, e, expand) refl

    expand-go :
        (s : ℕ) (ss : StateSet)
        → step nfa.states cur (get_or reps cl 256) ≡ some (s ∷ ss)
        → expand nfa n reps cur (suc i) (suc k) cl z
          ≡ expand nfa n reps cur (suc i) k (cl + 1) (round cl z (s ∷ ss))
    unfolding expand
    expand-go s ss e = rw (below_leb, e, expand) refl

  module _ (closed : IsClosed nfa.states) (below : (c : ℕ) → c < n → get_or reps c 256 < 256) where
    abbrev Expands : StateSet → ℕ → ℕ → Builder → Type 0
    Expands cur k cl z =
        (z' : Builder) × (expand nfa n reps cur (suc i) k cl z ≡ some z')
        × Grow nfa n reps i cl z z'
        × ((c : ℕ) → cl ≤ c → c < n → Finished nfa reps z' i c)

    -- The class at hand is finished, and so stays while the loop is at the classes after it.
    Expands-next :
        (cur : StateSet) (k cl : ℕ) (z z1 : Builder)
        → i < size z
        → expand nfa n reps cur (suc i) (suc k) cl z ≡ expand nfa n reps cur (suc i) k (cl + 1) z1
        → Grow nfa n reps i cl z z1
        → Finished nfa reps z1 i cl
        → Expands cur k (cl + 1) z1
        → Expands cur (suc k) cl z
    Expands-next cur k cl z z1 lt same g f (z2, e, g2, rest) = (
      z2,
      same ∙ e,
      Grow-trans cl z z1 z2 g g2,
      λ c ge hc. elim (ℕ_discrete cl c) [
        | yes at ↦
            subst (λ m. Finished nfa reps z2 i m) at
              (λ none_there.
                subst (λ s. step nfa.states s (get_or reps cl 256) ≡ some [])
                  (sym (g2.extends.1 i (omega (arith, g.extends.0, lt))))
                  (f (sym (g2.own cl (omega arith)) ∙ none_there)))
        | no ne ↦ rest c (omega (arith, ne, ge)) hc
      ],
    )

    pub expand-Grow :
        (cur : StateSet) (k cl : ℕ) (z : Builder)
        → cl + k ≡ n
        → TableOf nfa n reps z
        → i < size z
        → cur ≡ set_at z.id_to_set i
        → Expands cur k cl z
    unfolding expand
    expand-Grow cur zero cl z h t lt at =
        (z, refl, Grow-refl cl z t, λ c ge hc. absurd (omega arith))
    expand-Grow cur (suc k) cl z h t lt at =
        let hc : cl < n = omega arith in
        let (ss, to, isset) = step-IsStateSet nfa.states cur (get_or reps cl 256) closed in
        let to' = λ (u : StateSet) (e : step nfa.states cur (get_or reps cl 256) ≡ some u).
          subst (λ s. step nfa.states s (get_or reps cl 256) ≡ some u) at e in
        elim (List-cases ss) [
          | inl e ↦
              let stop = to ∙ ap some e in
              Expands-next cur k cl z z lt (expand-skip cur k cl z (below cl hc) stop)
                (Grow-refl cl z t) (λ _. to' [] stop)
                (expand-Grow cur k (cl + 1) z (omega arith) t lt at)
          | inr (s, rest, e) ↦
              let go = to ∙ ap some e in
              let isset' = subst (IsStateSet nfa.states) e isset in
              let g = round-Grow cl z (s ∷ rest) t lt hc (to' (s ∷ rest) go) isset' in
              Expands-next cur k cl z (round cl z (s ∷ rest)) lt
                (expand-go cur k cl z (below cl hc) s rest go) g
                (round-Finished cl z (s ∷ rest) t lt hc (to' (s ∷ rest) go) isset')
                (expand-Grow cur k (cl + 1) (round cl z (s ∷ rest)) (omega arith) g.table
                  (omega (arith, g.extends.0, lt)) (at ∙ sym (g.extends.1 i lt)))
        ]
