-- ===== src/Build/Count.antt =====
-- How many sets of states there are: strictly increasing lists of numbers below `m`.
use lex_cpp.Prelude.{
  ℕ, zero, suc, ◌+◌, ◌*◌, ◌^◌, ◌≤◌, ◌<◌, ◌≡◌, ◌≢◌, refl, sym, subst, ◌∙◌, ⊎_elim, List, [], ◌∷◌,
  length, ◌==◌, ==_iff, if◌then◌else◌, if_both, arith, Memᴰ,
}
use mathlib.Core.List.Memᴰ
use lex_cpp.Dfa.{StateSet}
use lex_cpp.Dfa.Order.{IsStrict}

abbrev pub IsDistinct : List StateSet → Type 0
IsDistinct [] = Unit
IsDistinct (s ∷ l) = (Memᴰ s l → ⊥) × IsDistinct l

-- From `k` on, `m` numbers.
abbrev IsWithin : ℕ → ℕ → StateSet → Type 0
IsWithin k m s = (q : ℕ) → Memᴰ q s → (k ≤ q) × (q < k + m)

-- The sets that start with `k`, less that, and the others.
abbrev tails : ℕ → List StateSet → List StateSet
tails k [] = []
tails k ([] ∷ l) = tails k l
tails k ((x ∷ s) ∷ l) = let rest = tails k l in if x == k then s ∷ rest else rest

abbrev others : ℕ → List StateSet → List StateSet
others k [] = []
others k ([] ∷ l) = [] ∷ others k l
others k ((x ∷ s) ∷ l) = let rest = others k l in if x == k then rest else (x ∷ s) ∷ rest

length-split : (k : ℕ) (l : List StateSet) → length l ≡ length (tails k l) + length (others k l)
length-split k [] = refl
length-split k ([] ∷ l) = omega (arith, length-split k l)
length-split k ((x ∷ s) ∷ l) = ground (arith, length-split k l)

tails-Memᴰ : (k : ℕ) (l : List StateSet) (s : StateSet) → Memᴰ s (tails k l) → Memᴰ (k ∷ s) l
tails-Memᴰ k [] s m = absurd (Memᴰ.not-nil m)
tails-Memᴰ k ([] ∷ l) s m = Memᴰ.tail (tails-Memᴰ k l s m)
tails-Memᴰ k ((x ∷ t) ∷ l) s mem =
    if_both (λ (r : List StateSet). Memᴰ s r → Memᴰ (k ∷ s) ((x ∷ t) ∷ l)) (x == k)
      (λ e m.
        let same : x ≡ k = (==_iff x k).0 e in
        ⊎_elim (λ same'. Memᴰ.head (cc)) (λ m'. Memᴰ.tail (tails-Memᴰ k l s m'))
          (Memᴰ.cases_cons m))
      (λ _ m. Memᴰ.tail (tails-Memᴰ k l s m)) mem

-- A set that does not start with `k`.
abbrev StartsElsewhere : ℕ → StateSet → Type 0
StartsElsewhere k [] = Unit
StartsElsewhere k (x ∷ s) = x ≢ k

others-Memᴰ :
    (k : ℕ) (l : List StateSet) (s : StateSet)
    → Memᴰ s (others k l)
    → Memᴰ s l × StartsElsewhere k s
others-Memᴰ k [] s m = absurd (Memᴰ.not-nil m)
others-Memᴰ k ([] ∷ l) s m =
    ⊎_elim (λ e. (Memᴰ.head e, subst (StartsElsewhere k) (sym e) tt))
      (λ m'. let (a, b) = others-Memᴰ k l s m' in (Memᴰ.tail a, b)) (Memᴰ.cases_cons m)
others-Memᴰ k ((x ∷ t) ∷ l) s mem =
    if_both (λ (r : List StateSet). Memᴰ s r → Memᴰ s ((x ∷ t) ∷ l) × StartsElsewhere k s) (x == k)
      (λ _ m. let (a, b) = others-Memᴰ k l s m in (Memᴰ.tail a, b))
      (λ e m.
        let ne : x ≢ k = ground arith in
        ⊎_elim (λ same. (Memᴰ.head same, subst (StartsElsewhere k) (sym same) ne))
          (λ m'. let (a, b) = others-Memᴰ k l s m' in (Memᴰ.tail a, b)) (Memᴰ.cases_cons m))
      mem

tails-IsDistinct : (k : ℕ) (l : List StateSet) → IsDistinct l → IsDistinct (tails k l)
tails-IsDistinct k [] d = tt
tails-IsDistinct k ([] ∷ l) d = tails-IsDistinct k l d.1
tails-IsDistinct k ((x ∷ t) ∷ l) d =
    if_both IsDistinct (x == k)
      (λ e.
        let same : x ≡ k = (==_iff x k).0 e in
        (λ m. d.0 (rw same (tails-Memᴰ k l t m)), tails-IsDistinct k l d.1))
      (λ _. tails-IsDistinct k l d.1)

others-IsDistinct : (k : ℕ) (l : List StateSet) → IsDistinct l → IsDistinct (others k l)
others-IsDistinct k [] d = tt
others-IsDistinct k ([] ∷ l) d = (λ m. d.0 (others-Memᴰ k l [] m).0, others-IsDistinct k l d.1)
others-IsDistinct k ((x ∷ t) ∷ l) d =
    if_both IsDistinct (x == k) (λ _. others-IsDistinct k l d.1)
      (λ _. (λ m. d.0 (others-Memᴰ k l (x ∷ t) m).0, others-IsDistinct k l d.1))

no_members : (k : ℕ) (s : StateSet) → IsWithin k 0 s → s ≡ []
no_members k [] w = refl
no_members k (x ∷ s) w = absurd (omega (arith, w x (Memᴰ.head refl)))

-- Distinct sets of numbers from `k` on, `m` of them, are at most 2 ^ m.
pub length-IsDistinct :
    (m k : ℕ) (l : List StateSet)
    → IsDistinct l
    → ((s : StateSet) → Memᴰ s l → IsStrict s × IsWithin k m s)
    → length l ≤ 2 ^ m
length-IsDistinct zero k [] d h = omega arith
length-IsDistinct zero k (s ∷ []) d h = omega arith
length-IsDistinct zero k (s ∷ t ∷ l) d h =
    let a : s ≡ [] = no_members k s (h s (Memᴰ.head refl)).1 in
    let b : t ≡ [] = no_members k t (h t (Memᴰ.tail (Memᴰ.head refl))).1 in
    absurd (d.0 (Memᴰ.head (a ∙ sym b)))
length-IsDistinct (suc m) k l d h =
    let first = length-IsDistinct m (k + 1) (tails k l) (tails-IsDistinct k l d) (λ s e.
      let (strict, within) = h (k ∷ s) (tails-Memᴰ k l s e) in
      (strict.1, λ q mq. omega (arith, strict.0 q mq, within q (Memᴰ.tail mq)))) in
    let second = length-IsDistinct m (k + 1) (others k l) (others-IsDistinct k l d) (λ s e.
      let (m', elsewhere) = others-Memᴰ k l s e in
      let (strict, within) = h s m' in (strict, above k m s strict within elsewhere)) in
    let double : 2 ^ suc m ≡ 2 * 2 ^ m = omega arith in
    omega (arith, length-split k l, first, second, double)
  where
    above :
        (k m : ℕ) (s : StateSet)
        → IsStrict s
        → IsWithin k (suc m) s
        → StartsElsewhere k s
        → IsWithin (k + 1) m s
    above k m [] st w el q mq = absurd (Memᴰ.not-nil mq)
    above k m (x ∷ s) st w el q mq =
        ⊎_elim (λ e. omega (arith, e, w x (Memᴰ.head refl), el))
          (λ mq'. omega (arith, st.0 q mq', w x (Memᴰ.head refl), w q mq)) (Memᴰ.cases_cons mq)
