-- ===== src/Regex/Language.antt =====
-- Languages of byte strings, and the operations that regular expressions stand for.
use lex_cpp.Prelude.{
  ℕ, zero, suc, ◌+◌, ◌≤◌, ◌≡◌, refl, sym, ap, subst, ◌∙◌, List, [], ◌∷◌, ◌++◌, append_assoc,
  append-nil, ◌⊎◌, inl, inr, true, arith,
}
use lex_cpp.ByteSet.{ByteSet, test}

abbrev pub Bytes : Type 0
Bytes = List ℕ

abbrev pub Lang : Type 1
Lang = Bytes → Type 0

abbrev pub Eps : Lang
Eps w = w ≡ []

-- One byte of a set.
abbrev pub Sym : ByteSet → Lang
Sym s w = (b : ℕ) × (w ≡ b ∷ []) × (test s b ≡ true)

abbrev pub Cat : Lang → Lang → Lang
Cat A B w = (u : Bytes) × (v : Bytes) × (w ≡ u ++ v) × A u × B v

abbrev pub Or : Lang → Lang → Lang
Or A B w = A w ⊎ B w

-- Words of `A` one after another, any number of them.
pub data Star (A : Lang) : Bytes → Type 0 where
  stop : {w : Bytes} → w ≡ [] → Star A w
  more : {w : Bytes} (u v : Bytes) → w ≡ u ++ v → A u → Star A v → Star A w

-- Exactly `k` words of `A`.
abbrev pub Pow : Lang → ℕ → Lang
Pow A zero = Eps
Pow A (suc k) = Cat A (Pow A k)

abbrev pub Includes : Lang → Lang → Type 0
Includes A B = (w : Bytes) → A w → B w

infix 4 ◌~◌
abbrev pub ◌~◌ : Lang → Lang → Type 0
A ~ B = Includes A B × Includes B A

module _ {A B C : Lang} where
  pub Cat_mono_left : Includes A B → Includes (Cat A C) (Cat B C)
  Cat_mono_left h w (u, v, e, a, c) = (u, v, e, h u a, c)

  pub Cat_mono_right : Includes A B → Includes (Cat C A) (Cat C B)
  Cat_mono_right h w (u, v, e, c, a) = (u, v, e, c, h v a)

  pub Cat_assoc_right : Includes (Cat (Cat A B) C) (Cat A (Cat B C))
  Cat_assoc_right w (uv, x, e, (u, v, e', a, b), c) =
      (u, v ++ x, e ∙ ap (λ y. y ++ x) e' ∙ append_assoc u v x, a, (v, x, refl, b, c))

  pub Cat_assoc_left : Includes (Cat A (Cat B C)) (Cat (Cat A B) C)
  Cat_assoc_left w (u, vx, e, a, (v, x, e', b, c)) =
      (u ++ v, x, e ∙ ap (λ y. u ++ y) e' ∙ sym (append_assoc u v x), (u, v, refl, a, b), c)

pub Cat-Eps_left : {A : Lang} → Includes A (Cat Eps A)
Cat-Eps_left w a = ([], w, refl, refl, a)

pub Cat-Eps_right : {A : Lang} → Includes A (Cat A Eps)
Cat-Eps_right w a = (w, [], sym (append-nil w), a, refl)

pub Eps-Cat : {A : Lang} → Includes (Cat Eps A) A
Eps-Cat {A} w (u, v, e, e', a) = subst A (sym (e ∙ ap (λ x. x ++ v) e')) a

pub Cat-Eps : {A : Lang} → Includes (Cat A Eps) A
Cat-Eps {A} w (u, v, e, a, e') = subst A (sym (e ∙ ap (λ x. u ++ x) e' ∙ append-nil u)) a

pub Star-more : {A : Lang} → Includes (Cat A (Star A)) (Star A)
Star-more w (u, v, e, a, s) = more u v e a s

module _ (A : Lang) where
  pub Pow-Star : (k : ℕ) → Includes (Pow A k) (Star A)
  Pow-Star zero w e = stop e
  Pow-Star (suc k) w (u, v, e, a, p) = more u v e a (Pow-Star k v p)

  pub Star-Pow : (w : Bytes) → Star A w → (k : ℕ) × Pow A k w
  Star-Pow w (stop e) = (0, e)
  Star-Pow w (more u v e a s) = let (k, p) = Star-Pow v s in (suc k, (u, v, e, a, p))

  pub Pow-Cat : (j k : ℕ) → Includes (Cat (Pow A j) (Pow A k)) (Pow A (j + k))
  Pow-Cat zero k w (u, v, e, e', p) =
      let sum : 0 + k ≡ k = omega arith in
      rw sum (subst (Pow A k) (sym (e ∙ ap (λ x. x ++ v) e')) p)
  Pow-Cat (suc j) k w (u, v, e, (u1, u2, e', a, p), q) =
      let sum : suc j + k ≡ suc (j + k) = omega arith in
      rw sum (
        u1,
        u2 ++ v,
        e ∙ ap (λ x. x ++ v) e' ∙ append_assoc u1 u2 v,
        a,
        Pow-Cat j k (u2 ++ v) (u2, v, refl, p, q),
      )

  pub Cat-Pow : (j k : ℕ) → Includes (Pow A (j + k)) (Cat (Pow A j) (Pow A k))
  Cat-Pow zero k w p = let sum : 0 + k ≡ k = omega arith in ([], w, refl, refl, rw sum at p)
  Cat-Pow (suc j) k w p =
      let sum : suc j + k ≡ suc (j + k) = omega arith in
      let (u, v, e, a, r) = subst (λ m. Pow A m w) sum p in
      let (v1, v2, e', p1, p2) = Cat-Pow j k v r in
      (u ++ v1, v2, e ∙ ap (λ x. u ++ x) e' ∙ sym (append_assoc u v1 v2), (u, v1, refl, a, p1), p2)

  -- `m` optional words are at most `m` words.
  pub Pow-Or : (m : ℕ) (w : Bytes) → Pow (Or A Eps) m w → (k : ℕ) × (k ≤ m) × Pow A k w
  Pow-Or zero w e = (0, omega arith, e)
  Pow-Or (suc m) w (u, v, e, inl a, p) =
      let (k, h, q) = Pow-Or m v p in (suc k, omega arith, (u, v, e, a, q))
  Pow-Or (suc m) w (u, v, e, inr e', p) =
      let (k, h, q) = Pow-Or m v p in
      (k, omega arith, subst (Pow A k) (sym (e ∙ ap (λ x. x ++ v) e')) q)

  pub Or-Pow : (m k : ℕ) (w : Bytes) → k ≤ m → Pow A k w → Pow (Or A Eps) m w
  Or-Pow zero zero w h e = e
  Or-Pow zero (suc k) w h p = absurd (omega arith)
  Or-Pow (suc m) zero w h e = ([], w, refl, inr refl, Or-Pow m zero w (omega arith) e)
  Or-Pow (suc m) (suc k) w h (u, v, e, a, p) = (u, v, e, inl a, Or-Pow m k v (omega arith) p)
