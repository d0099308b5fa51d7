-- ===== src/Build/Put.antt =====
-- The lambda `get_state` of `build_dfa` in src/dfa.cpp, and its test for a known set in the loop.
use lex_cpp.Prelude.{
  ℕ, suc, ◌≤◌, ◌<◌, ◌≡◌, refl, sym, subst, List, [], ◌∷◌, ◌++◌, length, length-append, none, some,
  Option-cases, inl, inr, ◌⊎◌, arith,
}
use lex_cpp.Rules.{Nfa}
use lex_cpp.Dfa.{StateSet}
use lex_cpp.Dfa.Step.{IsStateSet}
use lex_cpp.Build.{Builder, find, same_set, get_state, target_of}
use lex_cpp.Build.Index.{Answers, find-numbered}
use lex_cpp.Build.Table.{Table, Extends, row, set_at, fresh, get_or-last, Extends-concat}
use lex_cpp.Build.Append.{Table-concat, row-old}

abbrev pub TableOf : Nfa → ℕ → List ℕ → Builder → Type 0
TableOf nfa n reps z = Table nfa n reps z.states z.index z.id_to_set

abbrev pub size : Builder → ℕ
size z = length z.id_to_set

-- A set with its number, in a table that has it.
pub record Put (nfa : Nfa) (n : ℕ) (reps : List ℕ) (z : Builder) (ss : StateSet) (z' : Builder)
    (id : ℕ) : Type 0 where
  pub table : TableOf nfa n reps z'
  pub extends : Extends z.id_to_set z'.id_to_set
  pub rows : (k : ℕ) → k < size z → row z'.states k ≡ row z.states k
  pub place : (j : ℕ) × (id ≡ suc j) × (j < size z') × (set_at z'.id_to_set j ≡ ss)
  pub only : (k : ℕ) → size z ≤ k → k < size z' → id ≡ suc k

abbrev grown : Nfa → ℕ → Builder → StateSet → Builder
grown nfa n z ss = record z {
  states = z.states ++ fresh nfa n ss ∷ [];
  id_to_set = z.id_to_set ++ ss ∷ [];
  index = z.index ++ (ss, length z.states) ∷ [];
}

-- The work list stays, or it gets the number of the set that is new.
abbrev pub Queues : Builder → Builder → ℕ → Type 0
Queues z z' id =
    (z'.work ≡ z.work) × (size z' ≡ size z)
    ⊎ (z'.work ≡ z.work ++ id ∷ []) × (size z' ≡ suc (size z))

module _ (nfa : Nfa) (n : ℕ) (reps : List ℕ) (z : Builder) (ss : StateSet)
    (t : TableOf nfa n reps z) where
  -- The map knows the set, or no state stands for it.
  find-Answers : Answers 1 z.id_to_set ss (find same_set ss z.index)
  find-Answers =
      subst (λ m. Answers 1 z.id_to_set ss (find same_set ss m)) (sym t.index_lem)
        (find-numbered 1 ss z.id_to_set)

  known : (q : ℕ) → find same_set ss z.index ≡ some q → Put nfa n reps z ss z q
  known q e =
      let (j, num, lt, at) = subst (Answers 1 z.id_to_set ss) e find-Answers in
      record {
        table = t;
        extends = (omega arith, λ i h. refl);
        rows = λ k h. refl;
        place = (j, omega arith, lt, at);
        only = λ k ge h. absurd (omega arith);
      }

  added :
      IsStateSet nfa.states ss
      → find same_set ss z.index ≡ none
      → Put nfa n reps z ss (grown nfa n z ss) (length z.states)
  added isset e =
      let one_more = length-append {0} z.id_to_set (ss ∷ []) in
      record {
        table =
            Table-concat nfa n reps z.states z.index z.id_to_set ss t isset
              (subst (Answers 1 z.id_to_set ss) e find-Answers);
        extends = Extends-concat z.id_to_set ss;
        rows = row-old nfa n reps z.states z.index z.id_to_set ss t;
        place = (size z, t.many, omega (arith, one_more), get_or-last z.id_to_set ss []);
        only = λ k ge h. omega (arith, one_more, t.many);
      }

  get_state-grown :
      find same_set ss z.index ≡ none → get_state nfa n z ss ≡ (grown nfa n z ss, length z.states)
  unfolding get_state
  get_state-grown e = rw (e, get_state) refl

  pub get_state-Put :
      IsStateSet nfa.states ss
      → Put nfa n reps z ss (get_state nfa n z ss).0 (get_state nfa n z ss).1
        × ((get_state nfa n z ss).0.work ≡ z.work)
  unfolding get_state
  get_state-Put isset = elim (Option-cases (find same_set ss z.index)) [
    | inl e ↦ rw (e, get_state) (added isset e, refl)
    | inr (q, e) ↦ rw (e, get_state) (known q e, refl)
  ]

  pub target_of-Put :
      IsStateSet nfa.states ss
      → Put nfa n reps z ss (target_of nfa n z ss).0 (target_of nfa n z ss).1
        × Queues z (target_of nfa n z ss).0 (target_of nfa n z ss).1
  unfolding target_of
  target_of-Put isset = elim (Option-cases (find same_set ss z.index)) [
    | inl e ↦
        let p = added isset e in
        rw (e, target_of, get_state-grown e)
          (
            record {
              table = p.table;
              extends = p.extends;
              rows = p.rows;
              place = p.place;
              only = p.only;
            },
            inr (refl, omega (arith, length-append {0} z.id_to_set (ss ∷ []))),
          )
    | inr (q, e) ↦ rw (e, target_of) (known q e, inl (refl, refl))
  ]
