-- ===== src/Build/Seed.antt =====
-- The loop of `build_dfa` in src/dfa.cpp that puts the starts of the conditions on the work list.
use lex_cpp.Prelude.{
  ℕ, suc, ◌+◌, ◌*◌, ◌≤◌, ◌<◌, ◌≡◌, refl, sym, ap, subst, ◌∙◌, ⊎_elim, List, [], ◌∷◌, ◌++◌, length,
  length-append, some, ◌⊎◌, arith, Memᴰ,
}
use mathlib.Core.List.Memᴰ
use lex_cpp.Nfa.{States}
use lex_cpp.Rules.{Nfa, CondStart}
use lex_cpp.Dfa.{StateSet, eps_closure}
use lex_cpp.Dfa.Fuel.{IsClosed}
use lex_cpp.Dfa.Step.{IsStateSet, eps_closure-IsStateSet}
use lex_cpp.Build.{Builder, DfaStart, get_state, seed}
use lex_cpp.Build.Table.{Extends, set_at}
use lex_cpp.Build.Put.{TableOf, size, Put, get_state-Put}

-- Every condition's starts are states of the automaton.
abbrev pub StartsExist : States → List CondStart → Type 0
StartsExist ns [] = Unit
StartsExist ns (c ∷ cs) = (c.normal < length ns) × (c.bol < length ns) × StartsExist ns cs

-- A number is that of the closure of a state.
abbrev pub StartAt : States → List StateSet → ℕ → ℕ → Type 0
StartAt ns sets q id =
    (j : ℕ) × (id ≡ suc j) × (j < length sets) × (eps_closure ns (q ∷ []) ≡ some (set_at sets j))

abbrev pub StartsAt : States → List StateSet → List CondStart → List DfaStart → Type 0
StartsAt ns sets [] [] = Unit
StartsAt ns sets [] (d ∷ ds) = ⊥
StartsAt ns sets (c ∷ cs) [] = ⊥
StartsAt ns sets (c ∷ cs) (d ∷ ds) =
    StartAt ns sets c.normal d.normal × StartAt ns sets c.bol d.bol × StartsAt ns sets cs ds

pub StartAt-Extends :
    (ns : States) (l l' : List StateSet) (q id : ℕ)
    → Extends l l'
    → StartAt ns l q id
    → StartAt ns l' q id
StartAt-Extends ns l l' q id x (j, num, lt, e) =
    (j, num, omega (arith, x.0, lt), e ∙ ap some (sym (x.1 j lt)))

pub StartsAt-Extends :
    (ns : States) (l l' : List StateSet) (cs : List CondStart) (ds : List DfaStart)
    → Extends l l'
    → StartsAt ns l cs ds
    → StartsAt ns l' cs ds
StartsAt-Extends ns l l' [] [] x s = tt
StartsAt-Extends ns l l' [] (d ∷ ds) x s = absurd s
StartsAt-Extends ns l l' (c ∷ cs) [] x s = absurd s
StartsAt-Extends ns l l' (c ∷ cs) (d ∷ ds) x (a, b, s) = (
  StartAt-Extends ns l l' c.normal d.normal x a,
  StartAt-Extends ns l l' c.bol d.bol x b,
  StartsAt-Extends ns l l' cs ds x s,
)

Extends-trans : (a b c : List StateSet) → Extends a b → Extends b c → Extends a c
Extends-trans a b c x y = (omega (arith, x.0, y.0), λ i h. y.1 i (omega (arith, x.0, h)) ∙ x.1 i h)

module _ (nfa : Nfa) (n : ℕ) (reps : List ℕ) where
  -- The number of each set waits.
  pub record AllWait (z : Builder) : Type 0 where
    pub table : TableOf nfa n reps z
    pub waiting : (q : ℕ) → Memᴰ q z.work → (j : ℕ) × (q ≡ suc j) × (j < size z)
    pub all : (i : ℕ) → i < size z → Memᴰ (suc i) z.work

  abbrev pub Seeds : List CondStart → Builder → Type 0
  Seeds cs z =
      (z' : Builder) × (ds : List DfaStart) × (seed nfa n cs z ≡ some (z', ds))
      × AllWait z'
      × Extends z.id_to_set z'.id_to_set
      × (length z'.work ≡ length z.work + 2 * length cs)
      × StartsAt nfa.states z'.id_to_set cs ds

  -- What the closure of one condition's two starts puts in the table and on the work list.
  module _ (z : Builder) (s1 s2 : StateSet) (h : AllWait z) (is1 : IsStateSet nfa.states s1)
      (is2 : IsStateSet nfa.states s2) where
    abbrev z1 : Builder
    z1 = (get_state nfa n z s1).0

    abbrev n_id : ℕ
    n_id = (get_state nfa n z s1).1

    abbrev z2 : Builder
    z2 = (get_state nfa n z1 s2).0

    abbrev b_id : ℕ
    b_id = (get_state nfa n z1 s2).1

    abbrev both : Builder
    both = record z2 { work = z2.work ++ n_id ∷ b_id ∷ [] }

    first : Put nfa n reps z s1 z1 n_id
    first = (get_state-Put nfa n reps z s1 h.table is1).0

    second : Put nfa n reps z1 s2 z2 b_id
    second = (get_state-Put nfa n reps z1 s2 first.table is2).0

    same_work : z2.work ≡ z.work
    same_work =
        (get_state-Put nfa n reps z1 s2 first.table is2).1
        ∙ (get_state-Put nfa n reps z s1 h.table is1).1

    both-Extends : Extends z.id_to_set z2.id_to_set
    both-Extends = Extends-trans z.id_to_set z1.id_to_set z2.id_to_set first.extends second.extends

    both-length : length both.work ≡ length z.work + 2
    both-length = omega (arith, length-append {0} z2.work (n_id ∷ b_id ∷ []), ap length same_work)

    both-AllWait : AllWait both
    both-AllWait = record {
      table = second.table;
      waiting = λ q m. ⊎_elim old new (Memᴰ.append_cases z2.work m);
      all = λ i hi.
          ⊎_elim
            (λ lt.
              ⊎_elim
                (λ lt'. Memᴰ.append_left _ (subst (Memᴰ (suc i)) (sym same_work) (h.all i lt')))
                (λ ge'. Memᴰ.append_right z2.work (Memᴰ.head (sym (first.only i ge' lt))))
                (before_or i (size z)))
            (λ ge. Memᴰ.append_right z2.work (Memᴰ.tail (Memᴰ.head (sym (second.only i ge hi)))))
            (before_or i (size z1));
    }
      where
        before_or : (k m : ℕ) → (k < m) ⊎ (m ≤ k)
        before_or k m = ground arith

        old : {q : ℕ} → Memᴰ q z2.work → (j : ℕ) × (q ≡ suc j) × (j < size z2)
        old {q} m =
            let (j, e, lt) = h.waiting q (subst (Memᴰ q) same_work m) in
            (j, e, omega (arith, both-Extends.0, lt))

        new : {q : ℕ} → Memᴰ q (n_id ∷ b_id ∷ []) → (j : ℕ) × (q ≡ suc j) × (j < size z2)
        new m =
            ⊎_elim
              (λ e.
                let (j, num, lt, at) = first.place in
                (j, e ∙ num, omega (arith, second.extends.0, lt)))
              (λ m'. let (j, num, lt, at) = second.place in (j, Memᴰ.eq_of_singleton m' ∙ num, lt))
              (Memᴰ.cases_cons m)

  pub seed-Seeds :
      IsClosed nfa.states
      → (cs : List CondStart) (z : Builder) → StartsExist nfa.states cs
      → AllWait z
      → Seeds cs z
  unfolding seed
  seed-Seeds closed [] z ex h = (z, [], refl, h, (omega arith, λ i lt. refl), omega arith, tt)
  seed-Seeds closed (c ∷ cs) z (x1, x2, ex) h =
      let (s1, e1, is1) = one c.normal x1 in
      let (s2, e2, is2) = one c.bol x2 in
      let p1 = first z s1 s2 h is1 is2 in
      let p2 = second z s1 s2 h is1 is2 in
      let (z3, ds, e, w, x, len, at) =
        seed-Seeds closed cs (both z s1 s2 h is1 is2) ex (both-AllWait z s1 s2 h is1 is2) in
      let (j1, num1, lt1, at1) = p1.place in
      let (j2, num2, lt2, at2) = p2.place in
      (
        z3,
        record { normal = n_id z s1 s2 h is1 is2; bol = b_id z s1 s2 h is1 is2 } ∷ ds,
        rw (e1, e2, e, seed) refl,
        w,
        Extends-trans z.id_to_set _ z3.id_to_set (both-Extends z s1 s2 h is1 is2) x,
        omega (arith, len, both-length z s1 s2 h is1 is2),
        (
          StartAt-Extends nfa.states _ z3.id_to_set c.normal _
              (Extends-trans _ _ z3.id_to_set p2.extends x) (j1, num1, lt1, e1 ∙ ap some (sym at1)),
          StartAt-Extends nfa.states _ z3.id_to_set c.bol _ x
              (j2, num2, lt2, e2 ∙ ap some (sym at2)),
          at,
        ),
      )
    where
      one :
          (q : ℕ)
          → q < length nfa.states
          → (r : StateSet) × (eps_closure nfa.states (q ∷ []) ≡ some r) × IsStateSet nfa.states r
      one q lt =
          eps_closure-IsStateSet nfa.states (q ∷ []) closed
            (λ k m. omega (arith, Memᴰ.eq_of_singleton m, lt))
