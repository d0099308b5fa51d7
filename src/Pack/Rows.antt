-- ===== src/Pack/Rows.antt =====
-- The transitions that `compress_dfa` of src/dfa.cpp collects and sorts.
use lex_cpp.Prelude.{
  ℕ, zero, suc, ◌+◌, ◌<◌, ◌≡◌, ◌≢◌, refl, sym, ap, subst, ◌∙◌, ⊎_elim, inl, inr, ◌⊎◌, ◌↔◌, List, [],
  ◌∷◌, length, get_or, Option, none, some, arith, Memᴰ, ltb, if_both, ap₂, List-cases,
}
use mathlib.Core.List.Memᴰ
use lex_cpp.Build.{DfaState, dead_state}
use lex_cpp.Pack.{Excs, StateExc, row_excs, collect, collect_live, insert_exc, sort_excs}

-- A live transition of a row.
abbrev pub IsLive : List (Option ℕ) → ℕ → ℕ → Type 0
IsLive ts c t = (get_or ts c none ≡ some t) × (0 < t)

pub row_excs-IsLive :
    (ts : List (Option ℕ)) (b ec t : ℕ)
    → Memᴰ (ec, t) (row_excs b ts)
    → (c : ℕ) × (ec ≡ b + c) × IsLive ts c t
unfolding row_excs
row_excs-IsLive [] b ec t m = absurd (Memᴰ.not-nil m)
row_excs-IsLive (none ∷ ts) b ec t m =
    let (c, e, live) = row_excs-IsLive ts (b + 1) ec t m in (suc c, omega (arith, e), live)
row_excs-IsLive (some zero ∷ ts) b ec t m =
    let (c, e, live) = row_excs-IsLive ts (b + 1) ec t m in (suc c, omega (arith, e), live)
row_excs-IsLive (some (suc k) ∷ ts) b ec t m =
    ⊎_elim
      (λ same.
        let num : ec ≡ b = ap (λ (p : ℕ × ℕ). p.0) same in
        let to : t ≡ suc k = ap (λ (p : ℕ × ℕ). p.1) same in
        (0, omega (arith, num), (ap some (sym to), omega (arith, to))))
      (λ m'.
        let (c, e, live) = row_excs-IsLive ts (b + 1) ec t m' in (suc c, omega (arith, e), live))
      (Memᴰ.cases_cons m)

pub IsLive-row_excs :
    (ts : List (Option ℕ)) (b c t : ℕ) → IsLive ts c t → Memᴰ (b + c, t) (row_excs b ts)
unfolding row_excs
IsLive-row_excs [] b c t (e, pos) = absurd (none_some e)
  where
    none_some : {k : ℕ} → none ≡ some k → ⊥
    none_some e = cc
IsLive-row_excs (none ∷ ts) b zero t (e, pos) = absurd (none_some e)
  where
    none_some : {k : ℕ} → none ≡ some k → ⊥
    none_some e = cc
IsLive-row_excs (none ∷ ts) b (suc c) t live =
    subst (λ k. Memᴰ (k, t) (row_excs (b + 1) ts)) (omega arith)
      (IsLive-row_excs ts (b + 1) c t live)
IsLive-row_excs (some zero ∷ ts) b zero t (e, pos) = absurd (zero_pos e pos)
  where
    zero_pos : {k : ℕ} → some 0 ≡ some k → 0 < k → ⊥
    zero_pos {k} e h = let same : 0 ≡ k = cc in omega (arith, same)
IsLive-row_excs (some zero ∷ ts) b (suc c) t live =
    subst (λ k. Memᴰ (k, t) (row_excs (b + 1) ts)) (omega arith)
      (IsLive-row_excs ts (b + 1) c t live)
IsLive-row_excs (some (suc k) ∷ ts) b zero t (e, pos) =
    Memᴰ.head (ap₂ (λ (x y : ℕ). (x, y)) (omega arith) (some_eq e))
  where
    some_eq : {x y : ℕ} → some x ≡ some y → y ≡ x
    some_eq e = cc
IsLive-row_excs (some (suc k) ∷ ts) b (suc c) t live = Memᴰ.tail (
    subst (λ j. Memᴰ (j, t) (row_excs (b + 1) ts)) (omega arith)
      (IsLive-row_excs ts (b + 1) c t live))

-- The live transitions of state `s`; the dead state has none.
abbrev pub excs_of : List DfaState → ℕ → Excs
excs_of sts zero = []
excs_of sts (suc s) = row_excs 0 (get_or sts (suc s) (dead_state 0)).next

-- What is collected is a state with its transitions, from `s` on.
abbrev IsOf : ℕ → List DfaState → StateExc → Type 0
IsOf s sts se =
    (j : ℕ) × (j < length sts)
    × (se.state_id ≡ s + j)
    × (se.excs ≡ row_excs 0 (get_or sts j (dead_state 0)).next)

collect-step :
    (s : ℕ) (st : DfaState) (sts : List DfaState) (se : StateExc)
    → Memᴰ se (collect s (st ∷ sts)) ↔ (
        (se ≡ record { state_id = s; excs = row_excs 0 st.next }) × (row_excs 0 st.next ≢ [])
        ⊎ Memᴰ se (collect (s + 1) sts))
unfolding collect
collect-step s st sts se = elim (List-cases (row_excs 0 st.next)) [
  | inl e ↦ rw (e, collect) (λ m. inr m, ⊎_elim (λ x. absurd (x.1 refl)) (λ m. m))
  | inr (x, xs, e) ↦
      rw (e, collect)
        (
          λ m. ⊎_elim (λ same. inl (same, not_nil)) inr (Memᴰ.cases_cons m),
          ⊎_elim (λ p. Memᴰ.head p.0) Memᴰ.tail,
        )
]
  where
    not_nil : {x : ℕ × ℕ} {xs : Excs} → x ∷ xs ≢ []
    not_nil e = cc

collect-IsOf :
    (sts : List DfaState) (s : ℕ) (se : StateExc) → Memᴰ se (collect s sts) → IsOf s sts se
unfolding collect
collect-IsOf [] s se m = absurd (Memᴰ.not-nil m)
collect-IsOf (st ∷ sts) s se m =
    ⊎_elim
      (λ x. (
        0,
        omega arith,
        ap (λ (y : StateExc). y.state_id) x.0 ∙ omega arith,
        ap (λ (y : StateExc). y.excs) x.0,
      ))
      (λ m'.
        let (j, lt, num, row) = collect-IsOf sts (s + 1) se m' in
        (suc j, omega arith, omega (arith, num), row))
      ((collect-step s st sts se).0 m)

-- A state with a live transition is collected.
collect-has :
    (sts : List DfaState) (s j : ℕ) (x : ℕ × ℕ)
    → Memᴰ x (row_excs 0 (get_or sts j (dead_state 0)).next)
    → (se : StateExc) × Memᴰ se (collect s sts) × (se.state_id ≡ s + j)
unfolding collect row_excs
collect-has [] s j x m = absurd (Memᴰ.not-nil m)
collect-has (st ∷ sts) s zero x m = (
  record { state_id = s; excs = row_excs 0 st.next },
  (collect-step s st sts _).1 (inl (refl, λ e. Memᴰ.not-nil (subst (Memᴰ x) e m))),
  omega arith,
)
collect-has (st ∷ sts) s (suc j) x m =
    let (se, mem, num) = collect-has sts (s + 1) j x m in
    (se, (collect-step s st sts se).1 (inr mem), omega (arith, num))

-- No two have the same number.
abbrev pub AreDistinct : List StateExc → Type 0
AreDistinct [] = Unit
AreDistinct (x ∷ l) = ((y : StateExc) → Memᴰ y l → y.state_id ≢ x.state_id) × AreDistinct l

collect-AreDistinct : (sts : List DfaState) (s : ℕ) → AreDistinct (collect s sts)
unfolding collect
collect-AreDistinct [] s = tt
collect-AreDistinct (st ∷ sts) s = elim (List-cases (row_excs 0 st.next)) [
  | inl e ↦ rw (e, collect) (collect-AreDistinct sts (s + 1))
  | inr (x, xs, e) ↦
      rw (e, collect)
        (
          λ y m same.
              let (j, lt, num, row) = collect-IsOf sts (s + 1) y m in omega (arith, num, same),
          collect-AreDistinct sts (s + 1),
        )
]

insert_exc-Memᴰ :
    (y x : StateExc) (l : List StateExc) → Memᴰ y (insert_exc x l) ↔ ((y ≡ x) ⊎ Memᴰ y l)
unfolding insert_exc
insert_exc-Memᴰ y x [] = (Memᴰ.cases_cons, ⊎_elim Memᴰ.head Memᴰ.tail)
insert_exc-Memᴰ y x (z ∷ l) =
    let (to, from) = insert_exc-Memᴰ y x l in
    if_both (λ (t : List StateExc). Memᴰ y t ↔ ((y ≡ x) ⊎ Memᴰ y (z ∷ l)))
      (ltb (length x.excs) (length z.excs))
      (λ _. (
        λ m.
            ⊎_elim (λ e. inr (Memᴰ.head e)) (λ m'. ⊎_elim inl (λ m''. inr (Memᴰ.tail m'')) (to m'))
              (Memᴰ.cases_cons m),
        ⊎_elim (λ e. Memᴰ.tail (from (inl e)))
            (λ m. ⊎_elim Memᴰ.head (λ m'. Memᴰ.tail (from (inr m'))) (Memᴰ.cases_cons m)),
      ))
      (λ _. (Memᴰ.cases_cons, ⊎_elim Memᴰ.head Memᴰ.tail))

insert_exc-AreDistinct :
    (x : StateExc) (l : List StateExc)
    → AreDistinct l
    → ((y : StateExc) → Memᴰ y l → y.state_id ≢ x.state_id)
    → AreDistinct (insert_exc x l)
unfolding insert_exc
insert_exc-AreDistinct x [] d h = (h, tt)
insert_exc-AreDistinct x (z ∷ l) d h =
    if_both AreDistinct (ltb (length x.excs) (length z.excs))
      (λ _. (
        λ y m.
            ⊎_elim (λ e same. h z (Memᴰ.head refl) (sym same ∙ ap (λ (v : StateExc). v.state_id) e))
              (d.0 y) ((insert_exc-Memᴰ y x l).0 m),
        insert_exc-AreDistinct x l d.1 (λ y m. h y (Memᴰ.tail m)),
      ))
      (λ _. (h, d))

sort_excs-Memᴰ : (y : StateExc) (l : List StateExc) → Memᴰ y (sort_excs l) ↔ Memᴰ y l
unfolding sort_excs
sort_excs-Memᴰ y [] = (λ m. m, λ m. m)
sort_excs-Memᴰ y (x ∷ l) =
    let (to, from) = sort_excs-Memᴰ y l in
    let (to', from') = insert_exc-Memᴰ y x (sort_excs l) in
    (
      λ m. ⊎_elim Memᴰ.head (λ m'. Memᴰ.tail (to m')) (to' m),
      λ m. ⊎_elim (λ e. from' (inl e)) (λ m'. from' (inr (from m'))) (Memᴰ.cases_cons m),
    )

sort_excs-AreDistinct : (l : List StateExc) → AreDistinct l → AreDistinct (sort_excs l)
unfolding sort_excs
sort_excs-AreDistinct [] d = tt
sort_excs-AreDistinct (x ∷ l) d =
    insert_exc-AreDistinct x (sort_excs l) (sort_excs-AreDistinct l d.1)
      (λ y m. d.0 y ((sort_excs-Memᴰ y l).0 m))

-- What is placed: each state with a live transition, once, with all of its transitions.
pub record IsCollected (sts : List DfaState) (ses : List StateExc) : Type 0 where
  pub distinct : AreDistinct ses
  pub sound :
      (se : StateExc)
      → Memᴰ se ses
      → (se.excs ≡ excs_of sts se.state_id) × (se.state_id < length sts)
  pub all :
      (s : ℕ) (x : ℕ × ℕ)
      → Memᴰ x (excs_of sts s)
      → (se : StateExc) × Memᴰ se ses × (se.state_id ≡ s)

pub sort_excs-IsCollected : (sts : List DfaState) → IsCollected sts (sort_excs (collect_live sts))
unfolding collect_live
sort_excs-IsCollected [] = record {
  distinct = sort_excs-AreDistinct [] tt;
  sound = λ se m. absurd (Memᴰ.not-nil ((sort_excs-Memᴰ se []).0 m));
  all = λ s x m. absurd (nothing s x m);
}
  where
    not_live : {k : ℕ} → none ≡ some k → ⊥
    not_live e = cc

    nothing : (s : ℕ) (x : ℕ × ℕ) → Memᴰ x (excs_of [] s) → ⊥
    nothing zero x m = Memᴰ.not-nil m
    nothing (suc s) x m = let (c, e, live) = row_excs-IsLive [] 0 x.0 x.1 m in not_live live.0
sort_excs-IsCollected (dead ∷ sts) = record {
  distinct = sort_excs-AreDistinct (collect 1 sts) (collect-AreDistinct sts 1);
  sound = λ se m.
      let (j, lt, num, row) = collect-IsOf sts 1 se ((sort_excs-Memᴰ se (collect 1 sts)).0 m) in
      let at : se.state_id ≡ suc j = omega (arith, num) in
      (row ∙ ap (excs_of (dead ∷ sts)) (sym at), omega (arith, at, lt));
  all = everything;
}
  where
    everything :
        (s : ℕ) (x : ℕ × ℕ)
        → Memᴰ x (excs_of (dead ∷ sts) s)
        → (se : StateExc) × Memᴰ se (sort_excs (collect 1 sts)) × (se.state_id ≡ s)
    everything zero x m = absurd (Memᴰ.not-nil m)
    everything (suc s) x m =
        let (se, mem, num) = collect-has sts 1 s x m in
        (se, (sort_excs-Memᴰ se (collect 1 sts)).1 mem, omega (arith, num))
