-- ===== src/Regex/Length.antt =====
-- `fixed_length` of src/regex.cpp: where it gives a length, every match has it.
use lex_cpp.Prelude.{
  ℕ, zero, suc, ◌+◌, ◌*◌, ◌%◌, ◌/◌, ◌-◌, ◌<◌, ltb, if_both, ◌∙◌, subst₂, ◌≡◌, refl, ap, length,
  length-append, arith, inl, inr, ◌==◌, ◌≢◌, ◌&&◌, not, if◌then◌else◌,
}
use lex_cpp.Prelude.Int.{sub_ℕ, to_int, ℤ, pos, negsuc, is_neg, ◌+ℤ◌, ◌*ℤ◌, ◌==ℤ◌}
use lex_cpp.Regex.{
  Node, null, empty, class, concat, alt, star, plus, question, repeat, anchor_bol, anchor_eol,
  trail_boundary, k_inf, minus_one, fixed_length,
}
use lex_cpp.Regex.Language.{Bytes, Lang, Pow}
use lex_cpp.Regex.Meaning.{Matches}

-- A result that does not go below 0 is right up to multiples of 2 ^ 32.
pub to_int-sum : (a b n : ℕ) → to_int (pos a +ℤ pos b) ≡ pos n → (a + b) % 4294967296 ≡ n
to_int-sum a b n h = ground arith

to_int-left : (p n : ℕ) → to_int (sub_ℕ p 0) ≡ pos n → p % 4294967296 ≡ n
to_int-left p n h = ground arith

to_int-negative :
    (a p q n : ℕ) → p + q ≡ a * 4294967296 → to_int (sub_ℕ 0 p) ≡ pos n → q % 4294967296 ≡ n
to_int-negative a p q n e h = ground arith

mul-mod_arg : (a b : ℕ) → a * b % 4294967296 ≡ a * (b % 4294967296) % 4294967296
mul-mod_arg a b =
    let parts : b ≡ b / 4294967296 * 4294967296 + b % 4294967296 = omega arith in
    let prod : a * b ≡ a * (b / 4294967296) * 4294967296 + a * (b % 4294967296) =
      ap (λ (k : ℕ). a * k) parts ∙ omega arith in
    omega (arith, prod)

to_int-product : (a b n : ℕ) → to_int (pos a *ℤ to_int (pos b)) ≡ pos n → a * b % 4294967296 ≡ n
to_int-product a b n =
    if_both (λ z. to_int (pos a *ℤ z) ≡ pos n → a * b % 4294967296 ≡ n)
      (ltb (b % 4294967296) 2147483648)
      (λ _ h.
        omega
          (arith, mul-mod_arg a b, to_int-left (a * (b % 4294967296)) n (zeros (b % 4294967296) h)))
      (λ _ h. omega (
        arith,
        mul-mod_arg a b,
        to_int-negative a (a * suc (4294967295 - b % 4294967296)) (a * (b % 4294967296)) n
            (split a (b % 4294967296) (omega arith)) (zeros' (4294967295 - b % 4294967296) h),
      ))
  where
    split : (a m : ℕ) → m < 4294967296 → a * suc (4294967295 - m) + a * m ≡ a * 4294967296
    split a m lt =
        let all : suc (4294967295 - m) + m ≡ 4294967296 = omega (arith, lt) in
        omega (arith, ap (λ (k : ℕ). a * k) all)

    zeros : (m : ℕ) → to_int (pos a *ℤ pos m) ≡ pos n → to_int (sub_ℕ (a * m) 0) ≡ pos n
    zeros m h =
        let left : a * m + 0 * 0 ≡ a * m = omega arith in
        let right : a * 0 + 0 * m ≡ 0 = omega arith in
        subst₂ (λ (x y : ℕ). to_int (sub_ℕ x y) ≡ pos n) left right h

    zeros' : (m : ℕ) → to_int (pos a *ℤ negsuc m) ≡ pos n → to_int (sub_ℕ 0 (a * suc m)) ≡ pos n
    zeros' m h =
        let left : a * 0 + 0 * suc m ≡ 0 = omega arith in
        let right : a * suc m + 0 * 0 ≡ a * suc m = omega arith in
        subst₂ (λ (x y : ℕ). to_int (sub_ℕ x y) ≡ pos n) left right h

both_known :
    (x y : ℤ) (n : ℕ)
    → (if is_neg x then minus_one else if is_neg y then minus_one else to_int (x +ℤ y)) ≡ pos n
    → (a : ℕ) × (b : ℕ) × (x ≡ pos a) × (y ≡ pos b) × ((a + b) % 4294967296 ≡ n)
both_known (pos a) (pos b) n h = (a, b, refl, refl, to_int-sum a b n h)
both_known (pos a) (negsuc b) n h = cc
both_known (negsuc a) _ n h = cc

same_known :
    (x y : ℤ) (n : ℕ)
    → (if is_neg x
        then minus_one
        else if is_neg y
        then minus_one
        else if x ==ℤ y
        then x
        else minus_one)
      ≡ pos n
    → (x ≡ pos n) × (y ≡ pos n)
same_known (pos a) (pos b) n h = ground arith
same_known (pos a) (negsuc b) n h = cc
same_known (negsuc a) _ n h = cc

body_known :
    (x : ℤ) (lo hi n : ℕ)
    → (if lo == hi && not (hi == k_inf)
        then (if is_neg x then minus_one else to_int (x *ℤ to_int (pos lo)))
        else minus_one)
      ≡ pos n
    → (a : ℕ) × (x ≡ pos a) × (lo ≡ hi) × (hi ≢ k_inf) × (a * lo % 4294967296 ≡ n)
body_known (pos a) lo hi n h =
    if_both
      (λ z.
        z ≡ pos n
        → (a' : ℕ) × (pos a ≡ pos a') × (lo ≡ hi) × (hi ≢ k_inf) × (a' * lo % 4294967296 ≡ n))
      (lo == hi && not (hi == k_inf))
      (λ t h. (a, refl, ground arith, ground arith, to_int-product a lo n h)) (λ _ h. cc) h
body_known (negsuc a) lo hi n h = ground arith

length-Pow :
    {A : Lang} {n : ℕ} (k : ℕ) (w : Bytes)
    → ((u : Bytes) → A u → length u % 4294967296 ≡ n)
    → Pow A k w
    → length w % 4294967296 ≡ n * k % 4294967296
length-Pow zero w h e = omega (arith, ap length e)
length-Pow {n} (suc k) w h (u, v, e, a, p) =
    omega (arith, ap length e, length-append u v, length-Pow k v h p, h u a)

-- Where the computed length is `n`, every word of the expression has `n` bytes, up to a multiple of
-- 2 ^ 32, around which the `int` of the source wraps; so one of less than 2 ^ 32 bytes has `n`.
pub length-fixed_length :
    (r : Node) (n : ℕ) (w : Bytes)
    → fixed_length r ≡ pos n
    → Matches r w
    → length w % 4294967296 ≡ n
unfolding fixed_length
length-fixed_length null n w h m = ground (arith, ap length m)
length-fixed_length empty n w h m = ground (arith, ap length m)
length-fixed_length (class s) n w h (b, e, t) = ground (arith, ap length e)
length-fixed_length (concat a b) n w h (u, v, e, p, q) =
    let (la, lb, ea, eb, sum) = both_known (fixed_length a) (fixed_length b) n h in
    omega (
      arith,
      sum,
      ap length e,
      length-append u v,
      length-fixed_length a la u ea p,
      length-fixed_length b lb v eb q,
    )
length-fixed_length (alt a b) n w h (inl p) =
    length-fixed_length a n w (same_known (fixed_length a) (fixed_length b) n h).0 p
length-fixed_length (alt a b) n w h (inr p) =
    length-fixed_length b n w (same_known (fixed_length a) (fixed_length b) n h).1 p
length-fixed_length (star a) n w h m = cc
length-fixed_length (plus a) n w h m = cc
length-fixed_length (question a) n w h m = cc
length-fixed_length (repeat a lo hi) n w h (k, (le, c), p) =
    let (la, ea, same, bounded, prod) = body_known (fixed_length a) lo hi n h in
    let count : k ≡ lo = ground arith in
    omega (
      arith,
      prod,
      ap (λ (t : ℕ). la * t) count,
      length-Pow k w (λ u m. length-fixed_length a la u ea m) p,
    )
length-fixed_length anchor_bol n w h m = ground (arith, ap length m)
length-fixed_length anchor_eol n w h m = ground (arith, ap length m)
length-fixed_length trail_boundary n w h m = ground (arith, ap length m)
