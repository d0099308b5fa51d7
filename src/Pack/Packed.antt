-- ===== src/Pack/Packed.antt =====
-- The pool of `compress_dfa` in src/dfa.cpp while the states are placed in it.
use lex_cpp.Prelude.{
  ℕ, zero, suc, ◌+◌, ◌<◌, ◌≡◌, ◌≢◌, refl, sym, ap, subst, ◌∙◌, ⊎_elim, List, ◌∷◌, length,
  length-set, get_or, get_or-set_self, get_or-set_ne, set, none, some, arith, Memᴰ,
}
use mathlib.Core.List.Memᴰ
use lex_cpp.Build.{DfaState, dead_state}
use lex_cpp.Pack.{StateExc, Pool, top_slot, grow_to, write_excs, place_at, find_base, place}
use lex_cpp.Pack.Rows.{row_excs-IsLive, excs_of}
use lex_cpp.Pack.Place.{
  Fits, find_base-Fits, get_or-grow_to, length-grow_to, top_slot-lt, Slot, write_excs-Slot,
  write_excs-base, write_excs-length,
}

abbrev pub base_of : Pool → ℕ → ℕ
base_of p s = get_or p.base s 0

excs_of_unique :
    (sts : List DfaState) (s ec t t' : ℕ)
    → Memᴰ (ec, t) (excs_of sts s)
    → Memᴰ (ec, t') (excs_of sts s)
    → t ≡ t'
excs_of_unique sts zero ec t t' m m' = absurd (Memᴰ.not-nil m)
excs_of_unique sts (suc s) ec t t' m m' =
    let row = (get_or sts (suc s) (dead_state 0)).next in
    let (c, e, live) = row_excs-IsLive row 0 ec t m in
    let (c', e', live') = row_excs-IsLive row 0 ec t' m' in
    let same : c ≡ c' = omega (arith, e, e') in
    some_eq (sym live.0 ∙ ap (λ k. get_or row k none) same ∙ live'.0)
  where
    some_eq : {x y : ℕ} → some x ≡ some y → x ≡ y
    some_eq q = cc

-- The states in `ids` have their transitions in the pool, and nothing else is there.
pub record IsPacked (sts : List DfaState) (ids : List ℕ) (p : Pool) : Type 0 where
  pub bases : length p.base ≡ length sts
  pub same_length : length p.nxt ≡ length p.chk
  pub has :
      (s ec t : ℕ)
      → Memᴰ s ids
      → Memᴰ (ec, t) (excs_of sts s)
      → (get_or p.chk (base_of p s + ec) none ≡ some s) × (get_or p.nxt (base_of p s + ec) 0 ≡ t)
  pub only :
      (i s : ℕ)
      → get_or p.chk i none ≡ some s
      → Memᴰ s ids × (ec : ℕ) × (t : ℕ) × Memᴰ (ec, t) (excs_of sts s) × (i ≡ base_of p s + ec)

-- A state that is not in the pool is placed.
module _ (sts : List DfaState) (ids : List ℕ) (p : Pool) (h : IsPacked sts ids p) (se : StateExc)
    (rows : se.excs ≡ excs_of sts se.state_id) (lt : se.state_id < length sts)
    (new : Memᴰ se.state_id ids → ⊥) where
  abbrev s0 : ℕ
  s0 = se.state_id

  abbrev best : ℕ
  best = find_base p.chk se.excs (length p.chk + 1) 0

  abbrev hi : ℕ
  hi = top_slot best se.excs

  abbrev based : Pool
  based = record p {
    base = set p.base s0 best;
    chk = grow_to hi none p.chk;
    nxt = grow_to hi 0 p.nxt;
  }

  abbrev after : Pool
  after = write_excs best s0 se.excs based

  fits : Fits p.chk best se.excs
  fits = find_base-Fits p.chk se.excs (length p.chk + 1) 0 (omega arith) (omega arith)

  slots : (i : ℕ) → Slot best s0 se.excs based after i
  slots = write_excs-Slot best s0 se.excs based (λ ec t m.
      let top = top_slot-lt best se.excs ec t m in
      (
        omega (arith, top, length-grow_to {0} hi none p.chk),
        omega (arith, top, length-grow_to {0} hi 0 p.nxt),
      ))

  new_base : base_of after s0 ≡ best
  new_base =
      ap (λ l. get_or l s0 0) (write_excs-base best s0 se.excs based)
      ∙ get_or-set_self p.base s0 best 0 (omega (arith, h.bases, lt))

  old_base : (s : ℕ) → s0 ≢ s → base_of after s ≡ base_of p s
  old_base s ne =
      ap (λ l. get_or l s 0) (write_excs-base best s0 se.excs based)
      ∙ get_or-set_ne p.base s0 s best 0 ne

  clash : {k : ℕ} → none ≡ some k → ⊥
  clash e = cc

  some_eq : {x y : ℕ} → some x ≡ some y → x ≡ y
  some_eq e = cc

  has_old :
      (s ec t : ℕ)
      → s0 ≢ s
      → Memᴰ s ids
      → Memᴰ (ec, t) (excs_of sts s)
      → (get_or after.chk (base_of after s + ec) none ≡ some s)
        × (get_or after.nxt (base_of after s + ec) 0 ≡ t)
  has_old s ec t ne ms m =
      let i = base_of p s + ec in
      let (c, x) = h.has s ec t ms m in
      subst (λ b. (get_or after.chk (b + ec) none ≡ some s) × (get_or after.nxt (b + ec) 0 ≡ t))
        (sym (old_base s ne))
        (⊎_elim
          (λ (ec', t', m', e, _, _).
            absurd (clash (sym (fits ec' t' m') ∙ ap (λ k. get_or p.chk k none) (sym e) ∙ c)))
          (λ (c', x', _).
            (c' ∙ get_or-grow_to hi none p.chk i ∙ c, x' ∙ get_or-grow_to hi 0 p.nxt i ∙ x))
          (slots i))

  has_new :
      (ec t : ℕ)
      → Memᴰ (ec, t) (excs_of sts s0)
      → (get_or after.chk (base_of after s0 + ec) none ≡ some s0)
        × (get_or after.nxt (base_of after s0 + ec) 0 ≡ t)
  has_new ec t m =
      let mine : Memᴰ (ec, t) se.excs = subst (Memᴰ (ec, t)) (sym rows) m in
      subst (λ b. (get_or after.chk (b + ec) none ≡ some s0) × (get_or after.nxt (b + ec) 0 ≡ t))
        (sym new_base)
        (⊎_elim
          (λ (ec', t', m', e, c, x).
            let same : ec' ≡ ec = omega (arith, e) in
            (
              c,
              x
                  ∙ excs_of_unique sts s0 ec t' t
                      (subst (Memᴰ (ec, t')) rows (subst (λ k. Memᴰ (k, t') se.excs) same m')) m,
            ))
          (λ (_, _, others). absurd (others ec t mine refl)) (slots (best + ec)))

  only_both :
      (i s : ℕ)
      → get_or after.chk i none ≡ some s
      → Memᴰ s (s0 ∷ ids)
        × (ec : ℕ) × (t : ℕ) × Memᴰ (ec, t) (excs_of sts s)
        × (i ≡ base_of after s + ec)
  only_both i s e =
      ⊎_elim
        (λ (ec, t, m, at, c, x).
          let same : s ≡ s0 = some_eq (sym e ∙ c) in
          (
            Memᴰ.head same,
            ec,
            t,
            subst (λ k. Memᴰ (ec, t) (excs_of sts k)) (sym same) (subst (Memᴰ (ec, t)) rows m),
            at ∙ ap (λ b. b + ec) (sym (ap (base_of after) same ∙ new_base)),
          ))
        (λ (c, x, others).
          let (ms, ec, t, m, at) = h.only i s (sym (get_or-grow_to hi none p.chk i) ∙ sym c ∙ e) in
          let ne : s0 ≢ s = λ q. new (subst (λ k. Memᴰ k ids) (sym q) ms) in
          (Memᴰ.tail ms, ec, t, m, at ∙ ap (λ b. b + ec) (sym (old_base s ne))))
        (slots i)

  pub place-IsPacked : IsPacked sts (s0 ∷ ids) (place p se)
  unfolding place place_at
  place-IsPacked = record {
    bases = ap length (write_excs-base best s0 se.excs based) ∙ length-set p.base s0 best ∙ h.bases;
    same_length =
        let (a, b) = write_excs-length best s0 se.excs based in
        omega (
          arith,
          a,
          b,
          length-grow_to {0} hi none p.chk,
          length-grow_to {0} hi 0 p.nxt,
          h.same_length,
        );
    has = λ s ec t ms m.
        ⊎_elim
          (λ same.
            subst
              (λ k.
                (get_or after.chk (base_of after k + ec) none ≡ some k)
                × (get_or after.nxt (base_of after k + ec) 0 ≡ t))
              (sym same) (has_new ec t (subst (λ k. Memᴰ (ec, t) (excs_of sts k)) same m)))
          (λ ms'. has_old s ec t (λ q. new (subst (λ k. Memᴰ k ids) (sym q) ms')) ms' m)
          (Memᴰ.cases_cons ms);
    only = only_both;
  }
