-- ===== src/Eclass/Pigeonhole.antt =====
-- Counting: a map of `m` indices onto `n` values has `n ≤ m`, and is one to one if they are equal.
use lex_cpp.Prelude.{
  ℕ, zero, suc, ◌≤◌, ◌<◌, ◌≡◌, refl, sym, ap, ◌∙◌, Bool-cases, inl, inr, arith, ◌==◌, ==_iff,
  if◌then◌else◌, false, ◌≢◌,
}

abbrev pub Onto : (ℕ → ℕ) → ℕ → ℕ → Type 0
Onto f m n = (d : ℕ) → d < n → (b : ℕ) × (b < m) × (f b ≡ d)

-- Where `f` is the value `last`, the value `v` instead.
abbrev swap_value : (ℕ → ℕ) → ℕ → ℕ → ℕ → ℕ
swap_value f last v b = if f b == last then v else f b

swap_value_hit : (f : ℕ → ℕ) (last v b : ℕ) → f b ≡ last → swap_value f last v b ≡ v
swap_value_hit f last v b e = rw ((==_iff (f b) last).1 e)

swap_value_miss : (f : ℕ → ℕ) (last v b : ℕ) → f b ≢ last → swap_value f last v b ≡ f b
swap_value_miss f last v b e = let ne : (f b == last) ≡ false = ground arith in rw ne

Onto-drop : (f : ℕ → ℕ) (m n : ℕ) → Onto f (suc m) (suc n) → Onto (swap_value f n (f m)) m n
Onto-drop f m n on d h = choose (on d (omega arith))
  where
    other :
        f m ≡ d
        → (b : ℕ) × (b < suc m) × (f b ≡ n)
        → (b : ℕ) × (b < m) × (swap_value f n (f m) b ≡ d)
    other e (b, hb, e') =
        let ne : b ≢ m = λ same. omega (arith, ap f same) in
        (b, omega arith, swap_value_hit f n (f m) b e' ∙ e)

    choose : (b : ℕ) × (b < suc m) × (f b ≡ d) → (b : ℕ) × (b < m) × (swap_value f n (f m) b ≡ d)
    choose (b, hb, e) = elim (Bool-cases (b == m)) [
      | inl last ↦ other (ap f (sym ((==_iff b m).0 last)) ∙ e) (on n (omega arith))
      | inr before ↦ (b, ground arith, swap_value_miss f n (f m) b (λ e'. omega arith) ∙ e)
    ]

pub Onto-le : (m n : ℕ) (f : ℕ → ℕ) → Onto f m n → n ≤ m
Onto-le m zero f on = omega arith
Onto-le zero (suc n) f on = let (b, h, e) = on 0 (omega arith) in absurd (omega arith)
Onto-le (suc m) (suc n) f on =
    omega (arith, Onto-le m n (swap_value f n (f m)) (Onto-drop f m n on))

-- `f` without its index `b'`: the last index takes that place.
abbrev without : (ℕ → ℕ) → ℕ → ℕ → ℕ → ℕ
without f b' last i = if i == b' then f last else f i

without_at : (f : ℕ → ℕ) (b' last : ℕ) → without f b' last b' ≡ f last
without_at f b' last = rw ((==_iff b' b').1 refl)

without_ne : (f : ℕ → ℕ) (b' last i : ℕ) → i ≢ b' → without f b' last i ≡ f i
without_ne f b' last i h = let ne : (i == b') ≡ false = ground arith in rw ne

-- If `b'` shares its value with `b`, nothing is lost without it.
Onto-without :
    (f : ℕ → ℕ) (m n b b' : ℕ)
    → Onto f (suc m) n
    → b < suc m
    → b' < suc m
    → f b ≡ f b'
    → b ≢ b'
    → Onto (without f b' m) m n
Onto-without f m n b b' on h h' e ne d hd = choose (on d hd)
  where
    Found : Type 0
    Found = (i : ℕ) × (i < m) × (without f b' m i ≡ d)

    -- The value of `b'`, and the value of the last index.
    shared : f b' ≡ d → Found
    shared e' = elim (Bool-cases (b == m)) [
      | inl last ↦
          let at : b ≡ m = (==_iff b m).0 last in
          (b', omega arith, without_at f b' m ∙ ap f (sym at) ∙ e ∙ e')
      | inr before ↦ (b, ground arith, without_ne f b' m b ne ∙ e ∙ e')
    ]

    final : f m ≡ d → Found
    final e' = elim (Bool-cases (b' == m)) [
      | inl last ↦ shared (ap f ((==_iff b' m).0 last) ∙ e')
      | inr before ↦ (b', ground arith, without_at f b' m ∙ e')
    ]

    choose : (i : ℕ) × (i < suc m) × (f i ≡ d) → Found
    choose (i, hi, e') = elim (Bool-cases (i == b')) [
      | inl same ↦ shared (ap f (sym ((==_iff i b').0 same)) ∙ e')
      | inr other ↦ elim (Bool-cases (i == m)) [
        | inl last ↦ final (ap f (sym ((==_iff i m).0 last)) ∙ e')
        | inr before ↦ (i, ground arith, without_ne f b' m i (ground arith) ∙ e')
      ]
    ]

-- As many values as indices: no two indices share a value.
pub Onto-injective :
    (m : ℕ) (f : ℕ → ℕ) (b b' : ℕ) → Onto f m m → b < m → b' < m → f b ≡ f b' → b ≡ b'
Onto-injective zero f b b' on h h' e = absurd (omega arith)
Onto-injective (suc m) f b b' on h h' e = elim (Bool-cases (b == b')) [
  | inl same ↦ (==_iff b b').0 same
  | inr other ↦ absurd (
      omega (
        arith,
        Onto-le m (suc m) (without f b' m) (Onto-without f m (suc m) b b' on h h' e (ground arith)),
      ))
]
