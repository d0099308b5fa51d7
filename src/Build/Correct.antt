-- ===== src/Build/Correct.antt =====
-- `build_dfa` of src/dfa.cpp makes a table that decides what the nondeterministic automaton accepts.
use lex_cpp.Prelude.{
  ℕ, ◌+◌, ◌*◌, ◌^◌, ◌≤◌, ◌<◌, ◌≡◌, ◌↔◌, refl, sym, ap, subst, ◌∙◌, List, [], ◌∷◌, length, get_or,
  none, some, inl, arith, Memᴰ, Bool, if◌then◌else◌, if_both,
}
use mathlib.Core.List.Memᴰ
use lex_cpp.Regex.Language.{Bytes}
use lex_cpp.Rules.{Nfa, CondStart, no_start}
use lex_cpp.Rules.Runs.{IsValid}
use lex_cpp.Dfa.{StateSet}
use lex_cpp.Dfa.Closure.{eps_closure_iff}
use lex_cpp.Dfa.Fuel.{IsClosed}
use lex_cpp.Dfa.Step.{Reads}
use lex_cpp.Eclass.{Eclasses}
use lex_cpp.Eclass.Partition.{IsNumbered}
use lex_cpp.Build.{
  DfaStart, Dfa, Builder, dead_state, class_reps, compute_meta_classes, seed, build_loop, build_dfa,
}
use lex_cpp.Build.Put.{TableOf, size}
use lex_cpp.Build.Expand.{Finished}
use lex_cpp.Build.Loop.{size-le, Turns, build_loop-Ends}
use lex_cpp.Build.Seed.{StartAt, StartsAt-Extends, AllWait, seed-Seeds}
use lex_cpp.Build.Reps.{class_reps-byte}
use lex_cpp.Build.Walk.{follow, AreBytes, PartsOnlyUnlike, follow-Stands}
use lex_cpp.Build.Bounds.{IsTarget, Table-rows}
use lex_cpp.Build.Verdict.{Verdict, Stands-Verdict}
use lex_cpp.Build.Classes.{classes, classes-PartsOnlyUnlike}
use lex_cpp.Build.Starts.{IsValid-StartsExist, no_dfa_start, StartsAt-get}

-- Every start of a condition, and every word of bytes, ends in the state for it.
abbrev Decides : Nfa → Dfa → Type 0
Decides nfa d =
    (length d.cond_starts ≡ length nfa.cond_starts)
    × ((k : ℕ)
        → k < length nfa.cond_starts
        → (w : Bytes) → AreBytes w
        → Verdict nfa d.states (get_or nfa.cond_starts k no_start).normal w
            (follow d.states d.eclasses (some (get_or d.cond_starts k no_dfa_start).normal) w)
          × Verdict nfa d.states (get_or nfa.cond_starts k no_start).bol w
              (follow d.states d.eclasses (some (get_or d.cond_starts k no_dfa_start).bol) w))

compute_meta-Decides : (nfa : Nfa) (d : Dfa) → Decides nfa d → Decides nfa (compute_meta_classes d)
unfolding compute_meta_classes
compute_meta-Decides nfa d h = h

module _ (nfa : Nfa) (e : Eclasses) (closed : IsClosed nfa.states) (num : IsNumbered e)
    (alike : PartsOnlyUnlike nfa.states e) where
  StartAt-Verdict :
      (z : Builder) (q0 id : ℕ) (w : Bytes)
      → TableOf nfa e.nclasses (class_reps e) z
      → ((i c : ℕ) → i < size z → c < e.nclasses → Finished nfa (class_reps e) z i c)
      → q0 < length nfa.states
      → StartAt nfa.states z.id_to_set q0 id
      → AreBytes w
      → Verdict nfa z.states q0 w (follow z.states e (some id) w)
  StartAt-Verdict z q0 id w t f lt (j, same, hj, closure) bs =
      let (r, to, reached) =
        eps_closure_iff nfa.states (q0 ∷ []) closed
          (λ q m. omega (arith, Memᴰ.eq_of_singleton m, lt)) in
      let knows =
        subst (λ y. (q : ℕ) → Memᴰ q y ↔ Reads nfa.states (q0 ∷ []) [] q)
          (some_eq (sym to ∙ closure)) reached in
      subst (λ s. Verdict nfa z.states q0 w (follow z.states e (some s) w)) (sym same)
        (Stands-Verdict nfa z.states q0 w _ (
          follow-Stands nfa e num alike closed z.states z.index z.id_to_set t f (q0 ∷ []) w [] j hj
            knows bs))
    where
      some_eq : {x y : StateSet} → some x ≡ some y → x ≡ y
      some_eq h = cc

  -- The dead state alone, and no set.
  abbrev empty : Builder
  empty = record { states = dead_state e.nclasses ∷ []; index = []; id_to_set = []; work = [] }

  empty-AllWait : AllWait nfa e.nclasses (class_reps e) empty
  empty-AllWait = record {
    table = record {
      index_lem = refl;
      many = omega arith;
      first = refl;
      distinct = tt;
      are_sets = λ s m. absurd (Memᴰ.not-nil m);
      wide = λ i h. absurd (omega arith);
      labels = λ i h. absurd (omega arith);
      sound = λ i c h. absurd (omega arith);
    };
    waiting = λ q m. absurd (Memᴰ.not-nil m);
    all = λ i h. absurd (omega arith);
  }

  AllWait-Turns :
      (z : Builder)
      → AllWait nfa e.nclasses (class_reps e) z
      → Turns nfa e.nclasses (class_reps e) z
  AllWait-Turns z h = record {
    table = h.table;
    waiting = h.waiting;
    complete = λ i lt. inl (h.all i lt);
  }

  -- The two loops from the empty table on.
  loops_end :
      IsValid nfa
      → (z : Builder) × (ds : List DfaStart) × (z' : Builder) × TableOf nfa e.nclasses
          (class_reps e)
          z'
        × (seed nfa e.nclasses nfa.cond_starts empty ≡ some (z, ds))
        × (build_loop nfa e.nclasses
              (class_reps e)
              (2 * length nfa.cond_starts + 2 ^ length nfa.states)
              z
            ≡ some z')
        × Decides nfa (record {
          states = z'.states;
          cond_starts = ds;
          eclasses = e;
          nclasses = e.nclasses;
          meta = [];
          nmeta = 0;
        })
  loops_end v =
      let ex = IsValid-StartsExist nfa v in
      let (z, ds, seeded, wait, x, len, at) =
        seed-Seeds nfa e.nclasses (class_reps e) closed nfa.cond_starts empty ex empty-AllWait in
      let (z', ends, t, x', f) =
        build_loop-Ends nfa e.nclasses (class_reps e) closed (λ c h. (class_reps-byte e num c h).0)
          (2 * length nfa.cond_starts + 2 ^ length nfa.states) z (AllWait-Turns z wait)
          (omega (arith, len)) in
      let (many, starts) =
        StartsAt-get nfa.states z'.id_to_set nfa.cond_starts ds
          (StartsAt-Extends nfa.states z.id_to_set z'.id_to_set nfa.cond_starts ds x' at) in
      (
        z,
        ds,
        z',
        t,
        seeded,
        ends,
        (
          many,
          λ k h w bs.
              let num_k = v.numbered k h in
              (
                StartAt-Verdict z' _ _ w t f
                    (omega (arith, ap (λ (c : CondStart). c.normal) num_k, v.room, h))
                    (starts k h).0 bs,
                StartAt-Verdict z' _ _ w t f
                    (omega (arith, ap (λ (c : CondStart). c.bol) num_k, v.room, h)) (starts k h).1
                    bs,
              ),
        ),
      )

-- The rows have an entry for each class and lead to states; there is a state for each set at most.
abbrev IsBounded : Nfa → Dfa → Type 0
IsBounded nfa d =
    (length d.states ≤ 1 + 2 ^ length nfa.states)
    × ((s c : ℕ)
        → (length (get_or d.states s (dead_state d.nclasses)).next ≡ d.nclasses)
          × IsTarget (length d.states)
              (get_or (get_or d.states s (dead_state d.nclasses)).next c none))

compute_meta-IsBounded :
    (nfa : Nfa) (d : Dfa) → IsBounded nfa d → IsBounded nfa (compute_meta_classes d)
unfolding compute_meta_classes
compute_meta-IsBounded nfa d h = h

build_dfa-Decides :
    (nfa : Nfa) (use_eclasses compute_meta : Bool)
    → IsValid nfa
    → (d : Dfa) × (build_dfa nfa use_eclasses compute_meta ≡ some d)
      × Decides nfa d
      × IsBounded nfa d
unfolding build_dfa
build_dfa-Decides nfa use_eclasses compute_meta v =
    let e = classes nfa use_eclasses in
    let (num, alike) = classes-PartsOnlyUnlike nfa use_eclasses in
    let (z, ds, z', t, seeded, ends, decides) =
      loops_end nfa e (λ q x m. (v.forward q x m).1) num alike v in
    let d : Dfa = record {
      states = z'.states;
      cond_starts = ds;
      eclasses = e;
      nclasses = e.nclasses;
      meta = [];
      nmeta = 0;
    } in
    let bounded : IsBounded nfa d = (
      omega (arith, t.many, size-le nfa e.nclasses (class_reps e) z' t),
      Table-rows nfa e.nclasses (class_reps e) z'.states z'.index z'.id_to_set t,
    ) in
    (
      if compute_meta then compute_meta_classes d else d,
      rw (seeded, ends, build_dfa) refl,
      if_both (Decides nfa) compute_meta (λ _. compute_meta-Decides nfa d decides) (λ _. decides),
      if_both (IsBounded nfa) compute_meta (λ _. compute_meta-IsBounded nfa d bounded)
          (λ _. bounded),
    )

-- For a valid automaton `build_dfa` returns a table, with the classes of bytes or without. From both
-- starts of a condition, over a word of bytes, the table ends in no state if no run of the automaton
-- reads the word, and otherwise in a state whose accepting rule is the first of the rules without $
-- that the automaton accepts after the word, or none if there is none; and the same of the rules
-- with $.
pub build_dfa-Verdict :
    (nfa : Nfa) (use_eclasses compute_meta : Bool) (k : ℕ) (w : Bytes)
    → IsValid nfa
    → k < length nfa.cond_starts
    → AreBytes w
    → (d : Dfa) × (build_dfa nfa use_eclasses compute_meta ≡ some d)
      × Verdict nfa d.states
          (get_or nfa.cond_starts k no_start).normal
          w
          (follow d.states d.eclasses (some (get_or d.cond_starts k no_dfa_start).normal) w)
      × Verdict nfa d.states
          (get_or nfa.cond_starts k no_start).bol
          w
          (follow d.states d.eclasses (some (get_or d.cond_starts k no_dfa_start).bol) w)
build_dfa-Verdict nfa use_eclasses compute_meta k w v h bs =
    let (d, e, (len, all), _) = build_dfa-Decides nfa use_eclasses compute_meta v in
    let (normal, bol) = all k h w bs in (d, e, normal, bol)

-- The table of a valid automaton with n states has at most 1 + 2 ^ n states, an entry for each class
-- in every row, and only targets that are states and not the dead state.
pub build_dfa-bounds :
    (nfa : Nfa) (use_eclasses compute_meta : Bool) (d : Dfa) (s c : ℕ)
    → IsValid nfa
    → build_dfa nfa use_eclasses compute_meta ≡ some d
    → (length d.states ≤ 1 + 2 ^ length nfa.states)
      × (length (get_or d.states s (dead_state d.nclasses)).next ≡ d.nclasses)
      × IsTarget (length d.states) (get_or (get_or d.states s (dead_state d.nclasses)).next c none)
build_dfa-bounds nfa use_eclasses compute_meta d s c v h =
    let (d', e, _, bounded) = build_dfa-Decides nfa use_eclasses compute_meta v in
    let (few, rows) = subst (IsBounded nfa) (some_eq (sym e ∙ h)) bounded in
    let (wide, target) = rows s c in (few, wide, target)
  where
    some_eq : {x y : Dfa} → some x ≡ some y → x ≡ y
    some_eq q = cc
