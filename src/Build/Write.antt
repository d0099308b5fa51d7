-- ===== src/Build/Write.antt =====
-- The loop of `build_dfa` in src/dfa.cpp keeps the table when it writes a target.
use lex_cpp.Prelude.{
  ℕ, suc, ◌<◌, ◌≡◌, ◌≢◌, sym, ap, subst, ◌∙◌, List, length, length-set, get_or, get_or-set_self,
  get_or-set_ne, set, none, some, arith,
}
use native.Mathlib.Decide.{ℕ_discrete}
use lex_cpp.Rules.{Nfa}
use lex_cpp.Dfa.{StateSet, step}
use lex_cpp.Build.{DfaState, dead_state}
use lex_cpp.Build.Table.{row, entry, set_at, IsLabelled, Leads, Table}

-- The loop keeps the table when it writes a target that the step leads to.
module _ (nfa : Nfa) (n : ℕ) (reps : List ℕ) (sts : List DfaState) (index : List (StateSet × ℕ))
    (sets : List StateSet) (t : Table nfa n reps sts index sets) (i c j : ℕ)
    (lt : i < length sets) where
  abbrev new_row : DfaState
  new_row = record (row sts i) { next = set (row sts i).next c (some (suc j)) }

  abbrev written : List DfaState
  written = set sts (suc i) new_row

  pub row_self : row written i ≡ new_row
  row_self = get_or-set_self sts (suc i) new_row (dead_state 0) (omega (arith, t.many, lt))

  pub row-other : (k : ℕ) → i ≢ k → row written k ≡ row sts k
  row-other k ne = get_or-set_ne sts (suc i) (suc k) new_row (dead_state 0) (λ e. ne (omega arith))

  pub entry_self : c < n → entry written i c ≡ some (suc j)
  entry_self h =
      ap (λ (r : DfaState). get_or r.next c none) row_self
      ∙ get_or-set_self (row sts i).next c (some (suc j)) none (omega (arith, t.wide i lt, h))

  pub entry-own : (c' : ℕ) → c ≢ c' → entry written i c' ≡ entry sts i c'
  entry-own c' ne =
      ap (λ (r : DfaState). get_or r.next c' none) row_self
      ∙ get_or-set_ne (row sts i).next c c' (some (suc j)) none ne

  rows_both_written :
      (P : DfaState → StateSet → Type 0)
      → ((k : ℕ) → k < length sets → P (row sts k) (set_at sets k))
      → P new_row (set_at sets i)
      → (k : ℕ) → k < length sets
      → P (row written k) (set_at sets k)
  rows_both_written P old new k h = elim (ℕ_discrete i k) [
    | yes e ↦
        subst (λ m. P (row written m) (set_at sets m)) e
          (subst (λ r. P r (set_at sets i)) (sym row_self) new)
    | no ne ↦ subst (λ r. P r (set_at sets k)) (sym (row-other k ne)) (old k h)
  ]

  pub Table-set :
      c < n
      → j < length sets
      → step nfa.states (set_at sets i) (get_or reps c 256) ≡ some (set_at sets j)
      → Table nfa n reps written index sets
  Table-set hc hj to = record {
    index_lem = t.index_lem;
    many = length-set sts (suc i) new_row ∙ t.many;
    first = get_or-set_ne sts (suc i) 0 new_row (dead_state 0) (λ e. omega (arith, e)) ∙ t.first;
    distinct = t.distinct;
    are_sets = t.are_sets;
    wide =
        rows_both_written (λ r s. length r.next ≡ n) t.wide
          (length-set (row sts i).next c (some (suc j)) ∙ t.wide i lt);
    labels = rows_both_written (IsLabelled nfa) t.labels (
        let l = t.labels i lt in
        record { normal = l.normal; eol = l.eol; list = l.list; boundary = l.boundary });
    sound = λ k c' h.
        rows_both_written
          (λ r s. Leads nfa.states sets s (get_or reps c' 256) (get_or r.next c' none))
          (λ m hm. t.sound m c' hm) (fresh_entry c') k h;
  }
    where
      some_eq : {a b : ℕ} → some a ≡ some b → a ≡ b
      some_eq e = cc

      fresh_entry :
          (c' : ℕ)
          → Leads nfa.states sets
              (set_at sets i)
              (get_or reps c' 256)
              (get_or (set (row sts i).next c (some (suc j))) c' none)
      fresh_entry c' q e = elim (ℕ_discrete c c') [
        | yes same ↦ (
          j,
          sym (
              some_eq (
                sym (
                  get_or-set_self (row sts i).next c (some (suc j)) none
                    (omega (arith, t.wide i lt, hc)))
                ∙ subst (λ k. get_or (set (row sts i).next c (some (suc j))) k none ≡ some q)
                    (sym same) e)),
          hj,
          subst (λ k. step nfa.states (set_at sets i) (get_or reps k 256) ≡ some (set_at sets j))
              same to,
        )
        | no ne ↦
            t.sound i c' lt q (sym (get_or-set_ne (row sts i).next c c' (some (suc j)) none ne) ∙ e)
      ]
