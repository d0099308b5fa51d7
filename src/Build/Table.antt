-- ===== src/Build/Table.antt =====
-- What `build_dfa` of src/dfa.cpp keeps: its states, and the sets of states that they stand for.
use lex_cpp.Prelude.{
  ℕ, zero, suc, ◌≤◌, ◌<◌, ◌≡◌, refl, sym, ap, ◌∙◌, ⊎_elim, List, [], ◌∷◌, ◌++◌, length,
  length-append, get_or, get_or-append_left, replicate, Option, none, some, inl, inr, ◌⊎◌, arith,
  Memᴰ, Memᴰ-concat,
}
use mathlib.Core.List.Memᴰ
use lex_cpp.Nfa.{States}
use lex_cpp.Rules.{Nfa}
use lex_cpp.Dfa.{StateSet, step, accept_for}
use lex_cpp.Dfa.Step.{IsStateSet}
use lex_cpp.Build.{DfaState, dead_state}
use lex_cpp.Build.Count.{IsDistinct}
use lex_cpp.Build.Index.{numbered}

-- The state of the set number `i`; state 0 is the dead state.
abbrev pub row : List DfaState → ℕ → DfaState
row sts i = get_or sts (suc i) (dead_state 0)

abbrev pub entry : List DfaState → ℕ → ℕ → Option ℕ
entry sts i c = get_or (row sts i).next c none

abbrev pub set_at : List StateSet → ℕ → StateSet
set_at sets i = get_or sets i []

-- The state has the accepting rules of the set.
pub record IsLabelled (nfa : Nfa) (st : DfaState) (ss : StateSet) : Type 0 where
  pub normal : st.accept_normal ≡ (accept_for nfa ss).normal
  pub eol : st.accept_eol ≡ (accept_for nfa ss).eol
  pub list : st.accept_list ≡ (accept_for nfa ss).list
  pub boundary : st.boundary_rules ≡ (accept_for nfa ss).boundary

-- The state that `get_state` makes of a set.
abbrev pub fresh : Nfa → ℕ → StateSet → DfaState
fresh nfa n ss = record {
  next = replicate n none;
  accept_normal = (accept_for nfa ss).normal;
  accept_eol = (accept_for nfa ss).eol;
  accept_list = (accept_for nfa ss).list;
  boundary_rules = (accept_for nfa ss).boundary;
}

-- The sets with a number keep it.
abbrev pub Extends : List StateSet → List StateSet → Type 0
Extends l l' = (length l ≤ length l') × ((i : ℕ) → i < length l → set_at l' i ≡ set_at l i)

pub get_or-last {ℓ} : {A : Type ℓ} (xs : List A) (x d : A) → get_or (xs ++ x ∷ []) (length xs) d ≡ x
get_or-last [] x d = refl
get_or-last (y ∷ xs) x d = get_or-last xs x d

pub get_or-replicate {ℓ} : {A : Type ℓ} (n i : ℕ) (d : A) → get_or (replicate n d) i d ≡ d
get_or-replicate zero i d = refl
get_or-replicate (suc n) zero d = refl
get_or-replicate (suc n) (suc i) d = get_or-replicate n i d

pub IsDistinct-concat :
    (l : List StateSet) (s : StateSet) → IsDistinct l → (Memᴰ s l → ⊥) → IsDistinct (l ++ s ∷ [])
IsDistinct-concat [] s d h = (λ m. Memᴰ.not-nil m, tt)
IsDistinct-concat (t ∷ l) s d h = (
  λ m. ⊎_elim d.0 (λ e. h (Memᴰ.head (sym e))) ((Memᴰ-concat t s l).0 m),
  IsDistinct-concat l s d.1 (λ m. h (Memᴰ.tail m)),
)

-- A target in a row is the number of the set that the step returns.
abbrev pub Leads : States → List StateSet → StateSet → ℕ → Option ℕ → Type 0
Leads ns sets cur b o =
    (t : ℕ)
    → o ≡ some t
    → (j : ℕ) × (t ≡ suc j) × (j < length sets) × (step ns cur b ≡ some (set_at sets j))

pub record Table (nfa : Nfa) (n : ℕ) (reps : List ℕ) (sts : List DfaState)
    (index : List (StateSet × ℕ)) (sets : List StateSet) : Type 0 where
  pub index_lem : index ≡ numbered 1 sets
  pub many : length sts ≡ suc (length sets)
  pub first : get_or sts 0 (dead_state 0) ≡ dead_state n
  pub distinct : IsDistinct sets
  pub are_sets : (s : StateSet) → Memᴰ s sets → IsStateSet nfa.states s
  pub wide : (i : ℕ) → i < length sets → length (row sts i).next ≡ n
  pub labels : (i : ℕ) → i < length sets → IsLabelled nfa (row sts i) (set_at sets i)
  pub sound :
      (i c : ℕ)
      → i < length sets
      → Leads nfa.states sets (set_at sets i) (get_or reps c 256) (entry sts i c)

pub Extends-concat : (l : List StateSet) (s : StateSet) → Extends l (l ++ s ∷ [])
Extends-concat l s =
    (omega (arith, length-append {0} l (s ∷ [])), λ i h. get_or-append_left l (s ∷ []) i [] h)

pub Leads-Extends :
    (ns : States) (l l' : List StateSet) (cur : StateSet) (b : ℕ) (o : Option ℕ)
    → Extends l l'
    → Leads ns l cur b o
    → Leads ns l' cur b o
Leads-Extends ns l l' cur b o x h t e =
    let (j, same, lt, to) = h t e in (j, same, omega (arith, x.0), to ∙ ap some (sym (x.1 j lt)))

-- A number below the length of a list with one more element.
pub last_or : (i k : ℕ) → i < suc k → (i < k) ⊎ (i ≡ k)
last_or zero zero h = inr refl
last_or zero (suc k) h = inl (omega arith)
last_or (suc i) zero h = absurd (omega arith)
last_or (suc i) (suc k) h =
    ⊎_elim (λ lt. inl (omega arith)) (λ e. inr (ap suc e)) (last_or i k (omega arith))
