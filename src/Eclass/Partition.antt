-- ===== src/Eclass/Partition.antt =====
-- `refine` and `compute_eclasses` of src/eclass.cpp: two bytes share a class exactly if no edge
-- tells them apart.
use lex_cpp.Prelude.{
  ℕ, ◌%◌, ◌≤◌, ◌<◌, ◌≡◌, refl, sym, ap, ap₂, ◌∙◌, subst, Bool, true, false, Bool-cases, ◌⊎◌, inl,
  inr, ⊎_elim, arith, if◌then◌else◌, leb, leb→le, none, some, ◌↔◌, if_both, Option-cases, List, [],
  ◌∷◌,
}
use lex_cpp.ByteSet.{ByteSet, test, is_empty}
use lex_cpp.ByteSet.Laws.{test-is_empty}
use lex_cpp.Nfa.{NfaEdge, NfaState, States}
use lex_cpp.Eclass.{
  Eclasses, Remap, plan, reassign, apply_plan, refine, refine_edges, refine_states,
  compute_eclasses, identity_eclasses,
}
use lex_cpp.Eclass.Pigeonhole.{Onto, Onto-le, Onto-injective}
use lex_cpp.Eclass.Plan.{Planned, plan-Planned, reassign-none, reassign-in, reassign-out}

-- The classes are numbered from 0 on without a gap.
pub record IsNumbered (e : Eclasses) : Type 0 where
  pub below : (b : ℕ) → b < 256 → e.ec b < e.nclasses
  pub onto : Onto e.ec 256 e.nclasses

pub IsNumbered-le : (e : Eclasses) → IsNumbered e → e.nclasses ≤ 256
IsNumbered-le e n = Onto-le 256 e.nclasses e.ec n.onto

apply_plan-going :
    (e : Eclasses) (s : ByteSet) (r : Remap)
    → r.saturated ≡ false
    → apply_plan e s r ≡ record { ec = reassign e.ec s r.remap; nclasses = r.nclasses }
unfolding apply_plan
apply_plan-going e s r h = rw h

refine-plan :
    (e : Eclasses) (s : ByteSet)
    → refine e s
      ≡ apply_plan e s (
          plan e.ec s 256 0
            (record { remap = λ c. none; nclasses = e.nclasses; saturated = false }))
unfolding refine
refine-plan e s = refl

module _ (e : Eclasses) (s : ByteSet) (num : IsNumbered e) where
  abbrev start : Remap
  start = record { remap = λ c. none; nclasses = e.nclasses; saturated = false }

  planned :
      (c : ℕ) × Planned e.ec s e.nclasses c (plan e.ec s 256 0 start)
      × ((plan e.ec s 256 0 start).nclasses ≤ c)
  planned =
      plan-Planned e.ec s e.nclasses num.below 256 0 start
        (record {
          start = omega arith;
          going = refl;
          onto = λ d hd.
              let (b, hb, eb) = num.onto d hd in
              (b, hb, reassign-none e.ec s (λ c. none) b refl ∙ eb);
          later = λ d hd. refl;
          fresh = λ d v x. absurd (clash x);
          one_to_one = λ d d' v x. absurd (clash x);
          whole = λ d b b' hd. absurd (omega arith);
        })
        (omega arith)
    where
      clash : {v : ℕ} → none ≡ some v → ⊥
      clash x = cc

  abbrev done : Remap
  done = plan e.ec s 256 0 start

  abbrev re : ℕ → ℕ
  re = reassign e.ec s done.remap

  refine-eq : refine e s ≡ record { ec = re; nclasses = done.nclasses }
  refine-eq = refine-plan e s ∙ apply_plan-going e s done planned.1.going

  small : done.nclasses ≤ 256
  small = Onto-le 256 done.nclasses re planned.1.onto

  -- A byte keeps its class, or goes to the new half of it.
  shape :
      (b : ℕ)
      → (re b ≡ e.ec b) × ((done.remap (e.ec b) ≡ none) ⊎ (test s b ≡ false))
        ⊎ ((v : ℕ) × (done.remap (e.ec b) ≡ some v)
            × (test s b ≡ true)
            × (re b ≡ v)
            × (e.nclasses ≤ v)
            × (v < done.nclasses))
  shape b = elim (Option-cases (done.remap (e.ec b))) [
    | inl x ↦ inl (reassign-none e.ec s done.remap b x, inl x)
    | inr (v, x) ↦ elim (Bool-cases (test s b)) [
      | inr f ↦ inl (reassign-out e.ec s done.remap b x f, inr f)
      | inl t ↦
          let (lo, hi) = planned.1.fresh (e.ec b) v x in
          inr (v, x, t, reassign-in e.ec s done.remap b x t ∙ omega (arith, small), lo, hi)
    ]
  ]

  kept_same :
      (b b' : ℕ)
      → b < 256
      → b' < 256
      → e.ec b ≡ e.ec b'
      → (done.remap (e.ec b) ≡ none) ⊎ (test s b ≡ false)
      → (done.remap (e.ec b') ≡ none) ⊎ (test s b' ≡ false)
      → test s b ≡ test s b'
  kept_same b b' h h' same (inl x) o =
      planned.1.whole (e.ec b) b b' (omega (arith, num.below b h, planned.1.start, planned.2)) x h
        h' refl (sym same)
  kept_same b b' h h' same (inr f) (inl x) =
      planned.1.whole (e.ec b') b b' (omega (arith, num.below b' h', planned.1.start, planned.2)) x
        h h' same refl
  kept_same b b' h h' same (inr f) (inr f') = f ∙ sym f'

  re_same : (b b' : ℕ) → e.ec b ≡ e.ec b' → test s b ≡ test s b' → re b ≡ re b'
  unfolding reassign
  re_same b b' same t =
      ap₂ (λ k x. elim (done.remap k) [ some r ↦ (if x then r % 256 else k) | none ↦ k ]) same t

  pub refine_iff :
      (b b' : ℕ)
      → b < 256
      → b' < 256
      → ((refine e s).ec b ≡ (refine e s).ec b') ↔ (e.ec b ≡ e.ec b') × (test s b ≡ test s b')
  refine_iff b b' h h' =
      subst (λ (g : Eclasses). (g.ec b ≡ g.ec b') ↔ (e.ec b ≡ e.ec b') × (test s b ≡ test s b'))
        (sym refine-eq) (to, of)
    where
      to : re b ≡ re b' → (e.ec b ≡ e.ec b') × (test s b ≡ test s b')
      to x = elim (shape b) [
        | inl (k, o) ↦ elim (shape b') [
          | inl (k', o') ↦
              let same : e.ec b ≡ e.ec b' = sym k ∙ x ∙ k' in (same, kept_same b b' h h' same o o')
          | inr (v, y, t, k', lo, hi) ↦ absurd (omega (arith, num.below b h))
        ]
        | inr (v, y, t, k, lo, hi) ↦ elim (shape b') [
          | inl (k', o') ↦ absurd (omega (arith, num.below b' h'))
          | inr (v', y', t', k', lo', hi') ↦ (
            planned.1.one_to_one (e.ec b) (e.ec b') v y (y' ∙ ap some (sym k' ∙ sym x ∙ k)),
            t ∙ sym t',
          )
        ]
      ]

      of : (e.ec b ≡ e.ec b') × (test s b ≡ test s b') → re b ≡ re b'
      of (same, t) = re_same b b' same t

  pub refine-IsNumbered : IsNumbered (refine e s)
  refine-IsNumbered = subst IsNumbered (sym refine-eq) (record {
    below = λ b h.
        ⊎_elim (λ (k, o). omega (arith, num.below b h, planned.1.start))
          (λ (v, y, t, k, lo, hi). omega arith) (shape b);
    onto = planned.1.onto;
  })

-- A set answers alike for two bytes.
abbrev Alike : ByteSet → ℕ → ℕ → Type 0
Alike s b b' = test s b ≡ test s b'

abbrev pub AlikeOn : List NfaEdge → ℕ → ℕ → Type 0
AlikeOn [] b b' = Unit
AlikeOn (x ∷ xs) b b' = Alike x.on b b' × AlikeOn xs b b'

abbrev pub AlikeOnAll : List NfaState → ℕ → ℕ → Type 0
AlikeOnAll [] b b' = Unit
AlikeOnAll (st ∷ sts) b b' = AlikeOn st.out b b' × AlikeOnAll sts b b'

AlikeOn-self : (xs : List NfaEdge) (b : ℕ) → AlikeOn xs b b
AlikeOn-self [] b = tt
AlikeOn-self (x ∷ xs) b = (refl, AlikeOn-self xs b)

AlikeOnAll-self : (sts : List NfaState) (b : ℕ) → AlikeOnAll sts b b
AlikeOnAll-self [] b = tt
AlikeOnAll-self (st ∷ sts) b = (AlikeOn-self st.out b, AlikeOnAll-self sts b)

-- 256 classes are those of the identity: equal classes are equal bytes.
full_injective :
    (e : Eclasses)
    → IsNumbered e
    → 256 ≤ e.nclasses
    → (b b' : ℕ) → b < 256
    → b' < 256
    → e.ec b ≡ e.ec b'
    → b ≡ b'
full_injective e num ge b b' h h' =
    let n : e.nclasses ≡ 256 = omega (arith, IsNumbered-le e num) in
    Onto-injective 256 e.ec b b' (subst (λ k. Onto e.ec 256 k) n num.onto) h h'

-- What `f` does to the classes `e`: numbered again, and told apart further by `P` alone. If it
-- stops early no two bytes are left to tell apart.
record Refines (e : Eclasses) (f : Eclasses) (P : ℕ → ℕ → Type 0) : Type 0 where
  num : IsNumbered f
  iff : (b b' : ℕ) → b < 256 → b' < 256 → (f.ec b ≡ f.ec b') ↔ (e.ec b ≡ e.ec b') × P b b'

refine_edges-Refines :
    (xs : List NfaEdge) (e : Eclasses)
    → IsNumbered e
    → Refines e (refine_edges xs e).0 (AlikeOn xs)
      × ((refine_edges xs e).1 ≡ true → 256 ≤ (refine_edges xs e).0.nclasses)
unfolding refine_edges
refine_edges-Refines [] e num =
    (record { num = num; iff = λ b b' h h'. (λ x. (x, tt), λ (x, _). x) }, λ x. absurd (clash x))
  where
    clash : false ≡ true → ⊥
    clash x = cc
refine_edges-Refines (x ∷ xs) e num = elim (Bool-cases (is_empty x.on)) [
  | inl no_byte ↦ rw no_byte (
      let (r, stop) = refine_edges-Refines xs e num in
      (
        record {
          num = r.num;
          iff = λ b b' h h'. (
            λ y.
                let (y', z) = (r.iff b b' h h').0 y in
                (y', (test-is_empty x.on b no_byte ∙ sym (test-is_empty x.on b' no_byte), z)),
            λ (y, (_, z)). (r.iff b b' h h').1 (y, z),
          );
        },
        stop,
      ))
  | inr some_byte ↦
      let num' = refine-IsNumbered e x.on num in
      rw some_byte (
        if_both
          (λ (p : Eclasses × Bool).
            Refines e p.0 (AlikeOn (x ∷ xs)) × (p.1 ≡ true → 256 ≤ p.0.nclasses))
          (leb 256 (refine e x.on).nclasses)
          (λ full.
            let ge : 256 ≤ (refine e x.on).nclasses = leb→le 256 (refine e x.on).nclasses full in
            (
              record {
                num = num';
                iff = λ b b' h h'. (
                  λ y.
                      let (y', t) = (refine_iff e x.on num b b' h h').0 y in
                      (
                        y',
                        (
                          t,
                          subst (AlikeOn xs b) (full_injective (refine e x.on) num' ge b b' h h' y)
                              (AlikeOn-self xs b),
                        ),
                      ),
                  λ (y, (t, _)). (refine_iff e x.on num b b' h h').1 (y, t),
                );
              },
              λ _. ge,
            ))
          (λ _.
            let (r, stop) = refine_edges-Refines xs (refine e x.on) num' in
            (
              record {
                num = r.num;
                iff = λ b b' h h'. (
                  λ y.
                      let (y', z) = (r.iff b b' h h').0 y in
                      let (y'', t) = (refine_iff e x.on num b b' h h').0 y' in (y'', (t, z)),
                  λ (y, (t, z)).
                      (r.iff b b' h h').1 ((refine_iff e x.on num b b' h h').1 (y, t), z),
                );
              },
              stop,
            )))
]

refine_states-Refines :
    (sts : List NfaState) (e : Eclasses)
    → IsNumbered e
    → Refines e (refine_states sts e) (AlikeOnAll sts)
unfolding refine_states
refine_states-Refines [] e num = record {
  num = num;
  iff = λ b b' h h'. (λ x. (x, tt), λ (x, _). x);
}
refine_states-Refines (st ∷ sts) e num =
    let (r, stop) = refine_edges-Refines st.out e num in
    let e' = (refine_edges st.out e).0 in
    if_both (λ (g : Eclasses). Refines e g (AlikeOnAll (st ∷ sts))) (refine_edges st.out e).1
      (λ full. record {
        num = r.num;
        iff = λ b b' h h'. (
          λ y.
              let (y', z) = (r.iff b b' h h').0 y in
              (
                y',
                (
                  z,
                  subst (AlikeOnAll sts b) (full_injective e' r.num (stop full) b b' h h' y)
                      (AlikeOnAll-self sts b),
                ),
              ),
          λ (y, (z, _)). (r.iff b b' h h').1 (y, z),
        );
      })
      (λ _.
        let t = refine_states-Refines sts e' r.num in
        record {
          num = t.num;
          iff = λ b b' h h'. (
            λ y.
                let (y', z) = (t.iff b b' h h').0 y in
                let (y'', z') = (r.iff b b' h h').0 y' in (y'', (z', z)),
            λ (y, (z', z)). (t.iff b b' h h').1 ((r.iff b b' h h').1 (y, z'), z),
          );
        })

-- The classes of `compute_eclasses` are numbered without a gap, at most 256, and two bytes share
-- one exactly if every edge of the automaton answers alike for both.
pub compute_eclasses_iff :
    (ns : States)
    → IsNumbered (compute_eclasses ns)
      × ((b b' : ℕ)
          → b < 256
          → b' < 256
          → ((compute_eclasses ns).ec b ≡ (compute_eclasses ns).ec b') ↔ AlikeOnAll ns b b')
unfolding compute_eclasses
compute_eclasses_iff ns =
    let r =
      refine_states-Refines ns (record { ec = λ i. 0; nclasses = 1 })
        (record { below = λ b h. omega arith; onto = λ d h. (0, omega arith, omega arith) }) in
    (r.num, λ b b' h h'. (λ y. ((r.iff b b' h h').0 y).1, λ z. (r.iff b b' h h').1 (refl, z)))

pub identity_eclasses-IsNumbered : IsNumbered identity_eclasses
unfolding identity_eclasses
identity_eclasses-IsNumbered = record {
  below = λ b h. omega arith;
  onto = λ d h. (d, h, omega arith);
}
