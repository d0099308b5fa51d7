-- ===== src/Eclass/Plan.antt =====
-- The first loop of `refine` in src/eclass.cpp: which classes are split, and into what.
use lex_cpp.Prelude.{
  ℕ, zero, suc, ◌+◌, ◌%◌, ◌≤◌, ◌<◌, ◌≡◌, sym, ap, ◌∙◌, subst, true, false, ◌&&◌, Bool-cases, inl,
  inr, arith, ◌==◌, ==_iff, if◌then◌else◌, ltb, ltb→lt, Option, none, some, ◌≢◌, if_both,
}
use lex_cpp.ByteSet.{ByteSet, test}
use lex_cpp.Eclass.{Remap, split_class, plan, reassign}
use lex_cpp.Eclass.Pigeonhole.{Onto, Onto-le, Onto-injective}
use lex_cpp.Eclass.Sides.{seen, seen_both, seen_one}

module _ (cls : ℕ → ℕ) (s : ByteSet) (remap : ℕ → Option ℕ) (b : ℕ) where
  pub reassign-none : remap (cls b) ≡ none → reassign cls s remap b ≡ cls b
  unfolding reassign
  reassign-none e = rw (e, reassign)

  pub reassign-in :
      {v : ℕ} → remap (cls b) ≡ some v → test s b ≡ true → reassign cls s remap b ≡ v % 256
  unfolding reassign
  reassign-in e t = rw (e, reassign, t)

  pub reassign-out :
      {v : ℕ} → remap (cls b) ≡ some v → test s b ≡ false → reassign cls s remap b ≡ cls b
  unfolding reassign
  reassign-out e t = rw (e, reassign, t)

-- What holds when the loop reaches class `c`; `n0` is the number of classes at its start.
pub record Planned (cls : ℕ → ℕ) (s : ByteSet) (n0 c : ℕ) (r : Remap) : Type 0 where
  pub start : n0 ≤ r.nclasses
  pub going : r.saturated ≡ false
  pub onto : Onto (reassign cls s r.remap) 256 r.nclasses
  pub later : (d : ℕ) → c ≤ d → r.remap d ≡ none
  pub fresh : (d v : ℕ) → r.remap d ≡ some v → (n0 ≤ v) × (v < r.nclasses)
  pub one_to_one : (d d' v : ℕ) → r.remap d ≡ some v → r.remap d' ≡ some v → d ≡ d'
  pub whole :
      (d b b' : ℕ)
      → d < c
      → r.remap d ≡ none
      → b < 256
      → b' < 256
      → cls b ≡ d
      → cls b' ≡ d
      → test s b ≡ test s b'

abbrev remapped : Remap → ℕ → ℕ → Option ℕ
remapped r c d = if d == c then some r.nclasses else r.remap d

remapped_here : (r : Remap) (c d : ℕ) → d ≡ c → remapped r c d ≡ some r.nclasses
remapped_here r c d e = rw ((==_iff d c).1 e)

remapped_else : (r : Remap) (c d : ℕ) → d ≢ c → remapped r c d ≡ r.remap d
remapped_else r c d e = let ne : (d == c) ≡ false = ground arith in rw ne

module _ (cls : ℕ → ℕ) (s : ByteSet) (n0 c : ℕ) (r : Remap) (p : Planned cls s n0 c r) where
  few : r.nclasses ≤ 256
  few = Onto-le 256 r.nclasses (reassign cls s r.remap) p.onto

  -- With bytes on both sides of class `c` there are fewer classes than bytes.
  fewer :
      (b b' : ℕ)
      → b < 256
      → b' < 256
      → cls b ≡ c
      → cls b' ≡ c
      → test s b ≡ true
      → test s b' ≡ false
      → r.nclasses < 256
  fewer b b' h h' e e' t t' = elim (Bool-cases (r.nclasses == 256)) [
    | inr ne ↦ ground (arith, few)
    | inl full ↦
        let on : Onto (reassign cls s r.remap) 256 256 =
          subst (λ k. Onto (reassign cls s r.remap) 256 k) ((==_iff r.nclasses 256).0 full)
            p.onto in
        let same : b ≡ b' = Onto-injective 256 (reassign cls s r.remap) b b' on h h' (
          reassign-none cls s r.remap b (p.later (cls b) (omega arith))
          ∙ e
          ∙ sym e'
          ∙ sym (reassign-none cls s r.remap b' (p.later (cls b') (omega arith)))) in
        absurd (clash (sym t ∙ ap (test s) same ∙ t'))
  ]
    where
      clash : true ≡ false → ⊥
      clash e = cc

  module _ (b b' : ℕ) (h : b < 256) (h' : b' < 256) (e : cls b ≡ c) (e' : cls b' ≡ c)
      (t : test s b ≡ true) (t' : test s b' ≡ false) where
    abbrev new : ℕ → ℕ
    new = reassign cls s (remapped r c)

    new_else : (i : ℕ) → cls i ≢ c → new i ≡ reassign cls s r.remap i
    unfolding reassign
    new_else i ne = rw (remapped_else r c (cls i) ne, reassign)

    split-Onto : Onto new 256 (r.nclasses + 1)
    split-Onto d hd = elim (Bool-cases (d == r.nclasses)) [
      | inl last ↦
          let n : r.nclasses < 256 = fewer b b' h h' e e' t t' in
          (b, h, reassign-in cls s (remapped r c) b (remapped_here r c (cls b) e) t ∙ ground arith)
      | inr before ↦
          let (i, hi, ei) = p.onto d (ground arith) in
          elim (Bool-cases (cls i == c)) [
            | inl here ↦
                let at : cls i ≡ c = (==_iff (cls i) c).0 here in
                (
                  b',
                  h',
                  reassign-out cls s (remapped r c) b' (remapped_here r c (cls b') e') t'
                      ∙ e'
                      ∙ sym at
                      ∙ sym (reassign-none cls s r.remap i (p.later (cls i) (omega arith)))
                      ∙ ei,
                )
            | inr away ↦ (i, hi, new_else i (ground arith) ∙ ei)
          ]
    ]

    not_new : (d d' v : ℕ) → d ≢ c → d' ≡ c → remapped r c d ≡ some v → remapped r c d' ≡ some v → ⊥
    not_new d d' v ne e'' x x' =
        let (lo, hi) = p.fresh d v (sym (remapped_else r c d ne) ∙ x) in
        let y : some r.nclasses ≡ some v = sym (remapped_here r c d' e'') ∙ x' in ground arith

    split-Planned : Planned cls s n0 (c + 1) (split_class c r)
    unfolding split_class
    split-Planned = record {
      start = omega (arith, p.start);
      going = let n : r.nclasses < 256 = fewer b b' h h' e e' t t' in ground arith;
      onto = split-Onto;
      later = λ d hd. remapped_else r c d (λ x. omega arith) ∙ p.later d (omega arith);
      fresh = λ d v x. elim (Bool-cases (d == c)) [
        | inl here ↦
            let y : some r.nclasses ≡ some v =
              sym (remapped_here r c d ((==_iff d c).0 here)) ∙ x in
            ground (arith, p.start)
        | inr away ↦
            let (lo, hi) = p.fresh d v (sym (remapped_else r c d (ground arith)) ∙ x) in
            (lo, omega arith)
      ];
      one_to_one = λ d d' v x x'. elim (Bool-cases (d == c)) [
        | inl here ↦ elim (Bool-cases (d' == c)) [
          | inl here' ↦ ground arith
          | inr away' ↦ absurd (not_new d' d v (ground arith) ((==_iff d c).0 here) x' x)
        ]
        | inr away ↦ elim (Bool-cases (d' == c)) [
          | inl here' ↦ absurd (not_new d d' v (ground arith) ((==_iff d' c).0 here') x x')
          | inr away' ↦
              p.one_to_one d d' v (sym (remapped_else r c d (ground arith)) ∙ x)
                (sym (remapped_else r c d' (ground arith)) ∙ x')
        ]
      ];
      whole = λ d i j hd x hi hj ei ej. elim (Bool-cases (d == c)) [
        | inl here ↦ absurd (clash (sym (remapped_here r c d ((==_iff d c).0 here)) ∙ x))
        | inr away ↦
            p.whole d i j (ground arith) (sym (remapped_else r c d (ground arith)) ∙ x) hi hj ei ej
      ];
    }
      where
        clash : some r.nclasses ≡ none → ⊥
        clash x = cc

  kept-Planned :
      ((seen cls s c).in_any && (seen cls s c).out_any) ≡ false
      → c < r.nclasses
      → Planned cls s n0 (c + 1) r
  kept-Planned one lt = record {
    start = p.start;
    going = p.going;
    onto = p.onto;
    later = λ d hd. p.later d (omega arith);
    fresh = p.fresh;
    one_to_one = p.one_to_one;
    whole = λ d i j hd x hi hj ei ej. elim (Bool-cases (d == c)) [
      | inl here ↦
          let at : d ≡ c % 256 = ground (arith, few) in
          seen_one cls s c one i j hi hj (ei ∙ at) (ej ∙ at)
      | inr away ↦ p.whole d i j (ground arith) x hi hj ei ej
    ];
  }

-- The loop ends behind the last class, not saturated.
module _ (cls : ℕ → ℕ) (s : ByteSet) (n0 : ℕ) (below : (b : ℕ) → b < 256 → cls b < n0) where
  round-Planned :
      (c : ℕ) (r : Remap)
      → Planned cls s n0 c r
      → c < r.nclasses
      → Planned cls s n0
          (c + 1)
          (if (seen cls s c).in_any && (seen cls s c).out_any then split_class c r else r)
  round-Planned c r p lt =
      let small : c % 256 ≡ c = omega (arith, few cls s n0 c r p) in
      if_both (Planned cls s n0 (c + 1)) ((seen cls s c).in_any && (seen cls s c).out_any)
        (λ both.
          let ((b, h, e, t), (b', h', e', t')) = seen_both cls s c both in
          split-Planned cls s n0 c r p b b' h h' (e ∙ small) (e' ∙ small) t t')
        (λ one. kept-Planned cls s n0 c r p one lt)

  pub plan-Planned :
      (fuel c : ℕ) (r : Remap)
      → Planned cls s n0 c r
      → 256 ≤ c + fuel
      → (c' : ℕ) × Planned cls s n0 c' (plan cls s fuel c r) × ((plan cls s fuel c r).nclasses ≤ c')
  unfolding plan
  plan-Planned zero c r p h = (c, p, omega (arith, few cls s n0 c r p))
  plan-Planned (suc fuel) c r p h =
      let r' = if (seen cls s c).in_any && (seen cls s c).out_any then split_class c r else r in
      if_both (λ (q : Remap). (c' : ℕ) × Planned cls s n0 c' q × (q.nclasses ≤ c'))
        (ltb c r.nclasses)
        (λ lt.
          let p' = round-Planned c r p (ltb→lt c r.nclasses lt) in
          if_both (λ (q : Remap). (c' : ℕ) × Planned cls s n0 c' q × (q.nclasses ≤ c')) r'.saturated
            (λ sat. absurd (clash (sym sat ∙ p'.going)))
            (λ _. plan-Planned fuel (c + 1) r' p' (omega arith)))
        (λ ge. (c, p, ground arith))
    where
      clash : true ≡ false → ⊥
      clash e = cc
