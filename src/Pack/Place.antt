-- ===== src/Pack/Place.antt =====
-- `fits_at`, `place_at` and the search for a base in `compress_dfa` of src/dfa.cpp.
use lex_cpp.Prelude.{
  ℕ, zero, suc, ◌+◌, ◌-◌, max, ◌≤◌, ◌<◌, ◌≡◌, ◌≢◌, refl, sym, ap, subst, ◌∙◌, ⊎_elim, inl, inr, ◌⊎◌,
  List, [], ◌∷◌, ◌++◌, length, length-append, length-replicate, length-set, get_or, get_or-set_self,
  get_or-set_ne, get_or-past, set, replicate, Option, none, some, arith, Memᴰ, Bool, true, false,
  if_both,
}
use mathlib.Core.List.Memᴰ
use native.Mathlib.Decide.{ℕ_discrete}
use lex_cpp.Pack.{Excs, Pool, is_free, fits_at, top_slot, grow_to, write_excs, find_base}

-- No transition of the list has a slot that is taken.
abbrev pub Fits : List (Option ℕ) → ℕ → Excs → Type 0
Fits chk base r = (ec t : ℕ) → Memᴰ (ec, t) r → get_or chk (base + ec) none ≡ none

free_none : (chk : List (Option ℕ)) (i : ℕ) → is_free chk i ≡ true → get_or chk i none ≡ none
unfolding is_free
free_none chk i = go (get_or chk i none)
  where
    go : (o : Option ℕ) → (elim o as (λ z. Bool) [ none ↦ true | some s ↦ false ]) ≡ true → o ≡ none
    go none e = refl
    go (some s) e = absurd (clash e)
      where
        clash : false ≡ true → ⊥
        clash e = cc

fits_at-Fits :
    (chk : List (Option ℕ)) (base : ℕ) (r : Excs) → fits_at chk base r ≡ true → Fits chk base r
unfolding fits_at
fits_at-Fits chk base [] = λ h ec t m. absurd (Memᴰ.not-nil m)
fits_at-Fits chk base ((ec', t') ∷ r) =
    if_both (λ (b : Bool). b ≡ true → Fits chk base ((ec', t') ∷ r)) (is_free chk (base + ec'))
      (λ f h ec t m.
        ⊎_elim
          (λ e.
            subst (λ (p : ℕ × ℕ). get_or chk (base + p.0) none ≡ none) (sym e)
              (free_none chk (base + ec') f))
          (fits_at-Fits chk base r h ec t) (Memᴰ.cases_cons m))
      (λ _ h. absurd (clash h))
  where
    clash : false ≡ true → ⊥
    clash e = cc

is_free-past : (chk : List (Option ℕ)) (i : ℕ) → length chk ≤ i → is_free chk i ≡ true
unfolding is_free
is_free-past chk i h = go (get_or chk i none) (get_or-past chk i none h)
  where
    go : (o : Option ℕ) → o ≡ none → (elim o as (λ z. Bool) [ none ↦ true | some s ↦ false ]) ≡ true
    go none e = refl
    go (some s) e = absurd (clash e)
      where
        clash : some s ≡ none → ⊥
        clash e = cc

fits_at-past :
    (chk : List (Option ℕ)) (base : ℕ) (r : Excs) → length chk ≤ base → fits_at chk base r ≡ true
unfolding fits_at
fits_at-past chk base [] h = refl
fits_at-past chk base ((ec, t) ∷ r) h =
    rw (is_free-past chk (base + ec) (omega (arith, h))) (fits_at-past chk base r h)

-- Some base fits, that past the end at the latest.
pub find_base-Fits :
    (chk : List (Option ℕ)) (r : Excs) (k base : ℕ)
    → base ≤ length chk
    → length chk < base + k
    → Fits chk (find_base chk r k base) r
unfolding find_base
find_base-Fits chk r zero base le h = absurd (omega arith)
find_base-Fits chk r (suc k) base le h =
    if_both (λ (b : ℕ). Fits chk b r) (fits_at chk base r) (λ f. fits_at-Fits chk base r f)
      (λ f.
        ⊎_elim (λ lt. find_base-Fits chk r k (base + 1) lt (omega (arith, h)))
          (λ past. absurd (clash (sym (fits_at-past chk base r past) ∙ f)))
          (before_or base (length chk)))
  where
    clash : true ≡ false → ⊥
    clash e = cc

    before_or : (b n : ℕ) → (b + 1 ≤ n) ⊎ (n ≤ b)
    before_or b n = ground arith

pub get_or-grow_to {ℓ} :
    {A : Type ℓ} (n : ℕ) (d : A) (xs : List A) (i : ℕ) → get_or (grow_to n d xs) i d ≡ get_or xs i d
unfolding grow_to
get_or-grow_to {A = A} n d xs i = go (n - length xs) xs i
  where
    pads : (k i : ℕ) → get_or (replicate k d) i d ≡ d
    pads zero i = refl
    pads (suc k) zero = refl
    pads (suc k) (suc i) = pads k i

    go : (k : ℕ) (l : List A) (i : ℕ) → get_or (l ++ replicate k d) i d ≡ get_or l i d
    go k [] i = pads k i
    go k (x ∷ l) zero = refl
    go k (x ∷ l) (suc i) = go k l i

pub length-grow_to {ℓ} :
    {A : Type ℓ} (n : ℕ) (d : A) (xs : List A) → length (grow_to n d xs) ≡ max n (length xs)
unfolding grow_to
length-grow_to n d xs = omega (
  arith,
  length-append {ℓ} xs (replicate (n - length xs) d),
  length-replicate {ℓ} (n - length xs) d,
)

pub top_slot-lt : (base : ℕ) (r : Excs) (ec t : ℕ) → Memᴰ (ec, t) r → base + ec < top_slot base r
unfolding top_slot
top_slot-lt base [] ec t m = absurd (Memᴰ.not-nil m)
top_slot-lt base ((ec', t') ∷ r) ec t m =
    ⊎_elim (λ e. let same : ec ≡ ec' = ap (λ (p : ℕ × ℕ). p.0) e in omega (arith, same))
      (λ m'. omega (arith, top_slot-lt base r ec t m')) (Memᴰ.cases_cons m)

-- After the transitions of state `s` are written a slot is theirs, or it is as before.
abbrev pub Slot : ℕ → ℕ → Excs → Pool → Pool → ℕ → Type 0
Slot base s r p p' i =
    ((ec t : ℕ) × Memᴰ (ec, t) r
      × (i ≡ base + ec)
      × (get_or p'.chk i none ≡ some s)
      × (get_or p'.nxt i 0 ≡ t))
    ⊎ (get_or p'.chk i none ≡ get_or p.chk i none)
      × (get_or p'.nxt i 0 ≡ get_or p.nxt i 0)
      × ((ec t : ℕ) → Memᴰ (ec, t) r → i ≢ base + ec)

pub write_excs-Slot :
    (base s : ℕ) (r : Excs) (p : Pool)
    → ((ec t : ℕ) → Memᴰ (ec, t) r → (base + ec < length p.chk) × (base + ec < length p.nxt))
    → (i : ℕ) → Slot base s r p (write_excs base s r p) i
unfolding write_excs
write_excs-Slot base s [] p room i = inr (refl, refl, λ ec t m. absurd (Memᴰ.not-nil m))
write_excs-Slot base s ((ec, t) ∷ r) p room i =
    let at = base + ec in
    let p1 : Pool = record p { chk = set p.chk at (some s); nxt = set p.nxt at t } in
    let room1 : (ec' t' : ℕ)
        → Memᴰ (ec', t') r
        → (base + ec' < length p1.chk) × (base + ec' < length p1.nxt) =
      λ ec' t' m.
        let (a, b) = room ec' t' (Memᴰ.tail m) in
        (omega (arith, a, length-set p.chk at (some s)), omega (arith, b, length-set p.nxt at t)) in
    let (in_chk, in_nxt) = room ec t (Memᴰ.head refl) in
    ⊎_elim (λ (ec', t', m, e, c, x). inl (ec', t', Memᴰ.tail m, e, c, x))
      (λ (c, x, others). elim (ℕ_discrete at i) [
        | yes same ↦ inl (
          ec,
          t,
          Memᴰ.head refl,
          sym same,
          c
              ∙ ap (λ k. get_or p1.chk k none) (sym same)
              ∙ get_or-set_self p.chk at (some s) none in_chk,
          x ∙ ap (λ k. get_or p1.nxt k 0) (sym same) ∙ get_or-set_self p.nxt at t 0 in_nxt,
        )
        | no ne ↦ inr (
          c ∙ get_or-set_ne p.chk at i (some s) none ne,
          x ∙ get_or-set_ne p.nxt at i t 0 ne,
          λ ec' t' m e.
              ⊎_elim (λ same. ne (sym (e ∙ ap (λ (q : ℕ × ℕ). base + q.0) same)))
                (λ m'. others ec' t' m' e) (Memᴰ.cases_cons m),
        )
      ])
      (write_excs-Slot base s r p1 room1 i)

pub write_excs-base : (base s : ℕ) (r : Excs) (p : Pool) → (write_excs base s r p).base ≡ p.base
unfolding write_excs
write_excs-base base s [] p = refl
write_excs-base base s ((ec, t) ∷ r) p = write_excs-base base s r _

pub write_excs-length :
    (base s : ℕ) (r : Excs) (p : Pool)
    → (length (write_excs base s r p).chk ≡ length p.chk)
      × (length (write_excs base s r p).nxt ≡ length p.nxt)
unfolding write_excs
write_excs-length base s [] p = (refl, refl)
write_excs-length base s ((ec, t) ∷ r) p =
    let (a, b) =
      write_excs-length base s r
        (record p { chk = set p.chk (base + ec) (some s); nxt = set p.nxt (base + ec) t }) in
    (a ∙ length-set p.chk (base + ec) (some s), b ∙ length-set p.nxt (base + ec) t)
