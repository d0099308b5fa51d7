-- ===== src/Build/Reps.antt =====
-- `class_reps` of src/dfa.cpp finds a byte of each class.
use lex_cpp.Prelude.{
  ℕ, zero, suc, ◌+◌, ◌<◌, ◌≡◌, ◌≢◌, refl, sym, ap, subst, ◌∙◌, ⊎_elim, List, length, length-set,
  length-replicate, get_or, get_or-set_self, get_or-set_ne, set, replicate, inl, inr, ◌⊎◌, arith,
  if_both, ◌==◌,
}
use native.Mathlib.Decide.{ℕ_discrete}
use lex_cpp.Eclass.{Eclasses}
use lex_cpp.Eclass.Partition.{IsNumbered}
use lex_cpp.Build.{note_reps, class_reps}
use lex_cpp.Build.Table.{get_or-replicate}

-- A byte of the class.
abbrev pub IsByteOf : Eclasses → ℕ → ℕ → Type 0
IsByteOf e c v = (v < 256) × (e.ec v ≡ c)

-- What the array holds once the bytes below `b` are seen.
record Noted (e : Eclasses) (b : ℕ) (r : List ℕ) : Type 0 where
  long : length r ≡ e.nclasses
  right : (c : ℕ) → (get_or r c 256 ≡ 256) ⊎ IsByteOf e c (get_or r c 256)
  seen : (b' : ℕ) → b' < b → get_or r (e.ec b') 256 < 256

module _ (e : Eclasses) (num : IsNumbered e) where
  note-set : (b : ℕ) (r : List ℕ) → b < 256 → Noted e b r → Noted e (b + 1) (set r (e.ec b) b)
  note-set b r hb h =
      let here : get_or (set r (e.ec b) b) (e.ec b) 256 ≡ b =
        get_or-set_self r (e.ec b) b 256 (omega (arith, num.below b hb, h.long)) in
      record {
        long = length-set r (e.ec b) b ∙ h.long;
        right = λ c. elim (ℕ_discrete (e.ec b) c) [
          | yes at ↦
              subst
                (λ k.
                  (get_or (set r (e.ec b) b) k 256 ≡ 256)
                  ⊎ IsByteOf e k (get_or (set r (e.ec b) b) k 256))
                at (inr (omega (arith, here, hb), ap e.ec here))
          | no ne ↦
              subst (λ v. (v ≡ 256) ⊎ IsByteOf e c v) (sym (get_or-set_ne r (e.ec b) c b 256 ne))
                (h.right c)
        ];
        seen = λ b' lt. elim (ℕ_discrete (e.ec b) (e.ec b')) [
          | yes at ↦ subst (λ k. get_or (set r (e.ec b) b) k 256 < 256) at (omega (arith, here, hb))
          | no ne ↦
              subst (λ v. v < 256) (sym (get_or-set_ne r (e.ec b) (e.ec b') b 256 ne))
                (h.seen b' (before b b' lt (λ x. ne (ap e.ec x))))
        ];
      }
    where
      before : (x y : ℕ) → y < x + 1 → x ≢ y → y < x
      before x y lt ne = omega (arith, lt, ne)

  note-keep : (b : ℕ) (r : List ℕ) → get_or r (e.ec b) 256 ≢ 256 → Noted e b r → Noted e (b + 1) r
  note-keep b r ne h = record {
    long = h.long;
    right = h.right;
    seen = λ b' lt. elim (ℕ_discrete b b') [
      | yes at ↦
          subst (λ k. get_or r (e.ec k) 256 < 256) at
            (⊎_elim (λ x. absurd (ne x)) (λ x. x.0) (h.right (e.ec b)))
      | no ne' ↦ h.seen b' (omega (arith, lt, ne'))
    ];
  }

  note_reps-Noted :
      (k b : ℕ) (r : List ℕ) → b + k ≡ 256 → Noted e b r → Noted e 256 (note_reps e k b r)
  unfolding note_reps
  note_reps-Noted zero b r h w = subst (λ m. Noted e m r) (omega arith) w
  note_reps-Noted (suc k) b r h w = note_reps-Noted k (b + 1) _ (omega arith) (
      if_both (Noted e (b + 1)) (get_or r (e.ec b) 256 == 256) (λ _. note-set b r (omega arith) w)
        (λ x. note-keep b r (ground (arith, x)) w))

  -- Where the classes are numbered without a gap, `class_reps` has a byte of each class at its number.
  pub class_reps-byte : (c : ℕ) → c < e.nclasses → IsByteOf e c (get_or (class_reps e) c 256)
  unfolding class_reps
  class_reps-byte c h =
      let w = note_reps-Noted 256 0 (replicate e.nclasses 256) refl (record {
        long = length-replicate e.nclasses 256;
        right = λ d. inl (get_or-replicate e.nclasses d 256);
        seen = λ b' lt. absurd (omega arith);
      }) in
      let (b, hb, at) = num.onto c h in
      let found : get_or (note_reps e 256 0 (replicate e.nclasses 256)) c 256 < 256 =
        subst (λ k. get_or (note_reps e 256 0 (replicate e.nclasses 256)) k 256 < 256) at
          (w.seen b hb) in
      ⊎_elim (λ x. absurd (omega (arith, x, found))) (λ x. x) (w.right c)
