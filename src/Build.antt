-- ===== src/Build.antt =====
-- `build_dfa` of src/dfa.cpp: the states of the deterministic automaton, found from a work list.
pub mod Count
pub mod Index
pub mod Table
pub mod Append
pub mod Write
pub mod Put
pub mod Expand
pub mod Loop
pub mod Seed
pub mod Reps
pub mod Walk
pub mod Bounds
pub mod Verdict
pub mod Classes
pub mod Starts
pub mod Correct
use lex_cpp.Prelude.{
  ℕ, zero, suc, ◌+◌, ◌*◌, ◌^◌, Bool, true, false, ◌&&◌, List, [], ◌∷◌, ◌++◌, length, get_or, set,
  replicate, ltb, leb, ◌==◌, if◌then◌else◌, Option, none, some, map,
}
use lex_cpp.Rules.{Nfa, CondStart}
use lex_cpp.Eclass.{Eclasses, identity_eclasses, compute_eclasses}
use lex_cpp.Dfa.{StateSet, eps_closure, step, accept_for}

pub record DfaState : Type 0 where
  pub next : List (Option ℕ)
  pub accept_normal : Option ℕ
  pub accept_eol : Option ℕ
  pub accept_list : List ℕ
  pub boundary_rules : List ℕ

pub record DfaStart : Type 0 where
  pub normal : ℕ
  pub bol : ℕ

-- `nclasses` is `eclasses.nclasses`; -1 in `next` and in the accepting rules is `none`.
pub record Dfa : Type 0 where
  pub states : List DfaState
  pub cond_starts : List DfaStart
  pub eclasses : Eclasses
  pub nclasses : ℕ
  pub meta : List ℕ
  pub nmeta : ℕ

-- `class_reps`: `k` bytes from `b` on are left.
pub note_reps : Eclasses → ℕ → ℕ → List ℕ → List ℕ
note_reps e zero b r = r
note_reps e (suc k) b r =
    note_reps e k (b + 1) (if get_or r (e.ec b) 256 == 256 then set r (e.ec b) b else r)

unfoldable pub class_reps : Eclasses → List ℕ
unfolding note_reps
class_reps e = note_reps e 256 0 (replicate e.nclasses 256)

pub same_list {ℓ} : {A : Type ℓ} → (A → A → Bool) → List A → List A → Bool
same_list eq [] [] = true
same_list eq (x ∷ xs) (y ∷ ys) = eq x y && same_list eq xs ys
same_list eq _ _ = false

pub same_option : Option ℕ → Option ℕ → Bool
same_option none none = true
same_option (some x) (some y) = x == y
same_option _ _ = false

-- `seen` and `index`, the maps of the source: `find` on a list of keys and values.
pub find {ℓ κ} : {A : Type ℓ} {B : Type κ} → (A → A → Bool) → A → List (A × B) → Option B
find eq k [] = none
find eq k ((j, v) ∷ m) = let rest = find eq k m in if eq j k then some v else rest

-- The column of a class: its target in every state.
pub column : List DfaState → ℕ → List (Option ℕ)
column sts c = map (λ st. get_or st.next c none) sts

pub record Metas : Type 0 where
  pub meta : List ℕ
  pub known : List (List (Option ℕ) × ℕ)
  pub next_id : ℕ

-- The last loop of `compute_meta_classes`, `k` classes from `c` on.
pub meta_loop : List DfaState → ℕ → ℕ → Metas → Metas
meta_loop sts zero c z = z
meta_loop sts (suc k) c z =
    let col = column sts c in
    meta_loop sts k (c + 1) (elim (find (same_list same_option) col z.known) [
      | some id ↦ record z { meta = set z.meta c id }
      | none ↦ record {
        meta = set z.meta c z.next_id;
        known = z.known ++ (col, z.next_id) ∷ [];
        next_id = z.next_id + 1;
      }
    ])

unfoldable pub compute_meta_classes : Dfa → Dfa
unfolding meta_loop column find same_list same_option
compute_meta_classes d =
    let z =
      meta_loop d.states d.nclasses 0
        (record { meta = replicate d.nclasses 0; known = []; next_id = 0 }) in
    record d { meta = z.meta; nmeta = z.next_id }

-- The locals of `build_dfa` that change; `work` has its front at the head.
pub record Builder : Type 0 where
  pub states : List DfaState
  pub index : List (StateSet × ℕ)
  pub id_to_set : List StateSet
  pub work : List ℕ

pub same_set : StateSet → StateSet → Bool
unfolding same_list
same_set = same_list (λ x y. x == y)

abbrev pub dead_state : ℕ → DfaState
dead_state nclasses = record {
  next = replicate nclasses none;
  accept_normal = none;
  accept_eol = none;
  accept_list = [];
  boundary_rules = [];
}

-- The lambda `get_state`.
pub get_state : Nfa → ℕ → Builder → StateSet → Builder × ℕ
get_state nfa nclasses z ss = elim (find same_set ss z.index) [
  | some id ↦ (z, id)
  | none ↦
      let id = length z.states in
      let p = accept_for nfa ss in
      (
        record z {
          states =
              z.states
              ++ record {
                next = replicate nclasses none;
                accept_normal = p.normal;
                accept_eol = p.eol;
                accept_list = p.list;
                boundary_rules = p.boundary;
              }
                ∷ [];
          id_to_set = z.id_to_set ++ ss ∷ [];
          index = z.index ++ (ss, id) ∷ [];
        },
        id,
      )
]

-- The loop that seeds the work list. `none` is a closure that ran out of fuel.
pub seed : Nfa → ℕ → List CondStart → Builder → Option (Builder × List DfaStart)
seed nfa nclasses [] z = some (z, [])
seed nfa nclasses (c ∷ cs) z = elim (eps_closure nfa.states (c.normal ∷ [])) [
  | none ↦ none
  | some n_set ↦ elim (eps_closure nfa.states (c.bol ∷ [])) [
    | none ↦ none
    | some b_set ↦
        let (z1, n_id) = get_state nfa nclasses z n_set in
        let (z2, b_id) = get_state nfa nclasses z1 b_set in
        elim (seed nfa nclasses cs (record z2 { work = z2.work ++ n_id ∷ b_id ∷ [] })) [
          | none ↦ none
          | some (z3, starts) ↦ some (z3, record { normal = n_id; bol = b_id } ∷ starts)
        ]
  ]
]

-- `dfa.states[id].next[cl] = target`
pub set_next : List DfaState → ℕ → ℕ → ℕ → List DfaState
set_next sts id cl target =
    let st = get_or sts id (dead_state 0) in
    set sts id (record st { next = set st.next cl (some target) })

-- The target of a set that is not empty, put on the work list if it is new.
pub target_of : Nfa → ℕ → Builder → StateSet → Builder × ℕ
target_of nfa nclasses z ss = elim (find same_set ss z.index) [
  | some id ↦ (z, id)
  | none ↦
      let (z', id) = get_state nfa nclasses z ss in (record z' { work = z'.work ++ id ∷ [] }, id)
]

-- The loop over the classes, `k` of them from `cl` on.
pub expand : Nfa → ℕ → List ℕ → StateSet → ℕ → ℕ → ℕ → Builder → Option Builder
expand nfa nclasses reps cur id zero cl z = some z
expand nfa nclasses reps cur id (suc k) cl z =
    let rep = get_or reps cl 256 in
    let skip = expand nfa nclasses reps cur id k (cl + 1) z in
    let go = λ (ss : StateSet).
      let (z', target) = target_of nfa nclasses z ss in
      expand nfa nclasses reps cur id k (cl + 1)
        (record z' { states = set_next z'.states id cl target }) in
    if leb 256 rep then skip else elim (step nfa.states cur rep) [
      | none ↦ none
      | some [] ↦ skip
      | some (s ∷ ss) ↦ go (s ∷ ss)
    ]

-- The while loop over the work list. State `id` has its set at `id - 1`; the dead state has none.
pub build_loop : Nfa → ℕ → List ℕ → ℕ → Builder → Option Builder
build_loop nfa nclasses reps zero z = elim z.work [ [] ↦ some z | id ∷ rest ↦ none ]
build_loop nfa nclasses reps (suc fuel) z = elim z.work [
  | [] ↦ some z
  | zero ∷ rest ↦ build_loop nfa nclasses reps fuel (record z { work = rest })
  | suc idx ∷ rest ↦
      let skip = build_loop nfa nclasses reps fuel (record z { work = rest }) in
      let go =
        elim (expand nfa nclasses reps (get_or z.id_to_set idx []) (suc idx) nclasses 0
            (record z { work = rest }))
          as (λ o. Option Builder) [
            | none ↦ none
            | some z' ↦ build_loop nfa nclasses reps fuel z'
          ] in
      if ltb idx (length z.id_to_set) then go else skip
]

unfoldable pub build_dfa : Nfa → Bool → Bool → Option Dfa
unfolding build_loop expand target_of set_next seed get_state same_set find same_list class_reps
build_dfa nfa use_eclasses compute_meta =
    let e = if use_eclasses then compute_eclasses nfa.states else identity_eclasses in
    let n = e.nclasses in
    let empty : Builder = record {
      states = dead_state n ∷ [];
      index = [];
      id_to_set = [];
      work = [];
    } in
    elim (seed nfa n nfa.cond_starts empty) [
      | none ↦ none
      | some (z, starts) ↦
          elim (build_loop nfa n (class_reps e) (2 * length nfa.cond_starts + 2 ^ length nfa.states)
            z) [
              | none ↦ none
              | some z' ↦
                  let d : Dfa = record {
                    states = z'.states;
                    cond_starts = starts;
                    eclasses = e;
                    nclasses = n;
                    meta = [];
                    nmeta = 0;
                  } in
                  some (if compute_meta then compute_meta_classes d else d)
            ]
    ]
