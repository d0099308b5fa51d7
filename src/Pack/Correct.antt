-- ===== src/Pack/Correct.antt =====
-- The packed tables of `compress_dfa`, src/dfa.cpp, are the rows of the table for `YY_TRANSITION`.
use lex_cpp.Prelude.{
  ℕ, zero, suc, ◌+◌, max, ◌≤◌, ◌<◌, ◌≡◌, refl, sym, ap, subst, ◌∙◌, ⊎_elim, inl, inr, List, [], ◌∷◌,
  length, length-replicate, get_or, replicate, Option, none, some, Option-cases, arith, Memᴰ, true,
  ◌==◌, Bool-cases, ==_iff,
}
use mathlib.Core.List.Memᴰ
use lex_cpp.Build.{Dfa, DfaState, dead_state}
use lex_cpp.Build.Table.{get_or-replicate}
use lex_cpp.Pack.{
  StateExc, Pool, CompressedDfa, grow_to, place, place_all, max_of, sort_excs, collect_live,
  compress_dfa, packed_next,
}
use lex_cpp.Pack.Rows.{
  row_excs-IsLive, IsLive-row_excs, excs_of, AreDistinct, sort_excs-IsCollected,
}
use lex_cpp.Pack.Place.{get_or-grow_to, length-grow_to}
use lex_cpp.Pack.Packed.{IsPacked, base_of, place-IsPacked}

place_all-IsPacked :
    (sts : List DfaState) (ses : List StateExc) (ids : List ℕ) (p : Pool)
    → IsPacked sts ids p
    → AreDistinct ses
    → ((se : StateExc)
        → Memᴰ se ses
        → (se.excs ≡ excs_of sts se.state_id)
          × (se.state_id < length sts)
          × (Memᴰ se.state_id ids → ⊥))
    → (ids' : List ℕ) × IsPacked sts ids' (place_all p ses)
      × ((s : ℕ) → Memᴰ s ids → Memᴰ s ids')
      × ((se : StateExc) → Memᴰ se ses → Memᴰ se.state_id ids')
unfolding place_all
place_all-IsPacked sts [] ids p h d ok = (ids, h, λ s m. m, λ se m. absurd (Memᴰ.not-nil m))
place_all-IsPacked sts (se ∷ ses) ids p h d ok =
    let (rows, lt, new) = ok se (Memᴰ.head refl) in
    let (ids', packed, kept, all) =
      place_all-IsPacked sts ses (se.state_id ∷ ids) (place p se)
        (place-IsPacked sts ids p h se rows lt new) d.1
        (λ se' m.
          let (rows', lt', new') = ok se' (Memᴰ.tail m) in
          (rows', lt', λ m'. ⊎_elim (λ same. d.0 se' m same) new' (Memᴰ.cases_cons m'))) in
    (
      ids',
      packed,
      λ s m. kept s (Memᴰ.tail m),
      λ se' m.
          ⊎_elim
            (λ e.
              subst (λ (y : StateExc). Memᴰ y.state_id ids') (sym e)
                (kept se.state_id (Memᴰ.head refl)))
            (all se') (Memᴰ.cases_cons m),
    )

-- The pool that `compress_dfa` starts with.
abbrev first_pool : Dfa → Pool
first_pool d = record {
  base = replicate (length d.states) 0;
  chk = replicate d.nclasses none;
  nxt = replicate d.nclasses 0;
}

first_pool-IsPacked : (d : Dfa) → IsPacked d.states [] (first_pool d)
first_pool-IsPacked d = record {
  bases = length-replicate (length d.states) 0;
  same_length = length-replicate d.nclasses 0 ∙ sym (length-replicate d.nclasses none);
  has = λ s ec t m. absurd (Memᴰ.not-nil m);
  only = λ i s e. absurd (clash (sym (get_or-replicate d.nclasses i none) ∙ e));
}
  where
    clash : {k : ℕ} → none ≡ some k → ⊥
    clash e = cc

abbrev packed : Dfa → Pool
packed d = place_all (first_pool d) (sort_excs (collect_live d.states))

packed-IsPacked :
    (d : Dfa)
    → (ids : List ℕ) × IsPacked d.states ids (packed d)
      × ((s : ℕ) (x : ℕ × ℕ) → Memᴰ x (excs_of d.states s) → Memᴰ s ids)
packed-IsPacked d =
    let c = sort_excs-IsCollected d.states in
    let (ids, h, _, all) =
      place_all-IsPacked d.states (sort_excs (collect_live d.states)) [] (first_pool d)
        (first_pool-IsPacked d) c.distinct
        (λ se m. let (rows, lt) = c.sound se m in (rows, lt, λ m'. Memᴰ.not-nil m')) in
    (ids, h, λ s x m. let (se, mem, num) = c.all s x m in subst (λ k. Memᴰ k ids) num (all se mem))

-- What a row has at a class, the dead state being no target.
abbrev pub live : Option ℕ → Option ℕ
live none = none
live (some zero) = none
live (some (suc k)) = some (suc k)

-- The rows as `compress_dfa` reads them: that of the dead state has no target.
abbrev pub row_next : Dfa → ℕ → ℕ → Option ℕ
row_next d zero c = none
row_next d (suc s) c = live (get_or (get_or d.states (suc s) (dead_state 0)).next c none)

live-excs : (d : Dfa) (s c t : ℕ) → row_next d s c ≡ some t → Memᴰ (c, t) (excs_of d.states s)
live-excs d zero c t e = absurd (clash e)
  where
    clash : {k : ℕ} → none ≡ some k → ⊥
    clash e = cc
live-excs d (suc s) c t e =
    subst (λ k. Memᴰ (k, t) (excs_of d.states (suc s))) (omega arith)
      (IsLive-row_excs (get_or d.states (suc s) (dead_state 0)).next 0 c t
        (is_live (get_or (get_or d.states (suc s) (dead_state 0)).next c none) e))
  where
    is_live : (o : Option ℕ) → live o ≡ some t → (o ≡ some t) × (0 < t)
    is_live none e = absurd (clash e)
      where
        clash : none ≡ some t → ⊥
        clash e = cc
    is_live (some zero) e = absurd (clash e)
      where
        clash : none ≡ some t → ⊥
        clash e = cc
    is_live (some (suc k)) e = (e, some_pos e)
      where
        some_pos : some (suc k) ≡ some t → 0 < t
        some_pos e = let same : suc k ≡ t = cc in omega (arith, same)

excs-live : (d : Dfa) (s c t : ℕ) → Memᴰ (c, t) (excs_of d.states s) → row_next d s c ≡ some t
excs-live d zero c t m = absurd (Memᴰ.not-nil m)
excs-live d (suc s) c t m =
    let row = (get_or d.states (suc s) (dead_state 0)).next in
    let (c', e, (at, pos)) = row_excs-IsLive row 0 c t m in
    let same : c' ≡ c = omega (arith, e) in
    ap (λ k. live (get_or row k none)) (sym same) ∙ ap live at ∙ stays t pos
  where
    stays : (k : ℕ) → 0 < k → live (some k) ≡ some k
    stays zero h = absurd (omega arith)
    stays (suc k) h = refl

-- What the macro reads at a slot that is the state's own, and at any other.
packed_next-own :
    (z : CompressedDfa) (s c : ℕ)
    → get_or z.yy_chk (get_or z.yy_base s 0 + c) none ≡ some s
    → packed_next z s c ≡ some (get_or z.yy_nxt (get_or z.yy_base s 0 + c) 0)
unfolding packed_next
packed_next-own z s c e =
    let same : (s == s) ≡ true = (==_iff s s).1 refl in rw (e, same, packed_next) refl

packed_next-other :
    (z : CompressedDfa) (s c : ℕ)
    → (get_or z.yy_chk (get_or z.yy_base s 0 + c) none ≡ some s → ⊥)
    → packed_next z s c ≡ none
unfolding packed_next
packed_next-other z s c no_own =
    elim (Option-cases (get_or z.yy_chk (get_or z.yy_base s 0 + c) none)) [
      | inl e ↦ rw (e, packed_next) refl
      | inr (k, e) ↦ elim (Bool-cases (k == s)) [
        | inl t ↦ absurd (no_own (e ∙ ap some ((==_iff k s).0 t)))
        | inr f ↦ rw (e, f, packed_next) refl
      ]
    ]

max_of-le : (l : List ℕ) (i : ℕ) → get_or l i 0 ≤ max_of l
unfolding max_of
max_of-le [] i = omega arith
max_of-le (v ∷ l) zero = omega arith
max_of-le (v ∷ l) (suc i) = omega (arith, max_of-le l i)

pub compress_dfa-row : (d : Dfa) (s c : ℕ) → packed_next (compress_dfa d) s c ≡ row_next d s c
unfolding compress_dfa
compress_dfa-row d s c =
    let (ids, h, all) = packed-IsPacked d in
    let q = packed d in
    let needed = max (max_of q.base + d.nclasses) (length q.chk) in
    let i = base_of q s + c in
    let chk_same : get_or (grow_to needed none q.chk) i none ≡ get_or q.chk i none =
      get_or-grow_to needed none q.chk i in
    let nxt_same : get_or (grow_to needed 0 q.nxt) i 0 ≡ get_or q.nxt i 0 =
      get_or-grow_to needed 0 q.nxt i in
    elim (Option-cases (row_next d s c)) [
      | inl e ↦
          packed_next-other (compress_dfa d) s c (λ own.
            let (_, ec, t, m, at) = h.only i s (sym chk_same ∙ own) in
            let same : ec ≡ c = omega (arith, at) in
            absurd (clash (sym e ∙ ap (row_next d s) (sym same) ∙ excs-live d s ec t m)))
          ∙ sym e
      | inr (t, e) ↦
          let m = live-excs d s c t e in
          let (own, to) = h.has s c t (all s (c, t) m) m in
          packed_next-own (compress_dfa d) s c (chk_same ∙ own) ∙ ap some (nxt_same ∙ to) ∙ sym e
    ]
  where
    clash : {k : ℕ} → none ≡ some k → ⊥
    clash e = cc

-- The macro over the packed tables gives, for each state and class, the target that the state's row
-- has, the dead state being no target; and the slot that it reads is inside the pool, whose two
-- tables have the size of the pool.
pub compress_dfa-next :
    (d : Dfa) (s c : ℕ)
    → c < d.nclasses
    → (packed_next (compress_dfa d) s c ≡ row_next d s c)
      × (get_or (compress_dfa d).yy_base s 0 + c < (compress_dfa d).pool_size)
      × (length (compress_dfa d).yy_chk ≡ (compress_dfa d).pool_size)
      × (length (compress_dfa d).yy_nxt ≡ (compress_dfa d).pool_size)
unfolding compress_dfa
compress_dfa-next d s c h =
    let (ids, h', all) = packed-IsPacked d in
    let q = packed d in
    let needed = max (max_of q.base + d.nclasses) (length q.chk) in
    (
      compress_dfa-row d s c,
      omega (arith, max_of-le q.base s, h),
      omega (arith, length-grow_to {0} needed none q.chk),
      omega (arith, length-grow_to {0} needed 0 q.nxt, h'.same_length),
    )
