-- ===== src/Build/Index.antt =====
-- The map `index` of `build_dfa` in src/dfa.cpp holds each set with its number.
use lex_cpp.Prelude.{
  ℕ, suc, ◌+◌, ◌<◌, ◌≡◌, ◌≢◌, refl, sym, ap, ◌∙◌, Bool, true, false, ⊎_elim, ◌↔◌, List, [], ◌∷◌,
  ◌++◌, length, get_or, ◌==◌, if_both, arith, Memᴰ, Option, none, some,
}
use mathlib.Core.List.Memᴰ
use lex_cpp.Dfa.{StateSet}
use lex_cpp.Build.{same_list, same_set, find}

-- The sets with the numbers from `k` on.
abbrev pub numbered : ℕ → List StateSet → List (StateSet × ℕ)
numbered k [] = []
numbered k (s ∷ l) = (s, k) ∷ numbered (suc k) l

same_list_iff : (s t : StateSet) → (same_list (λ (x y : ℕ). x == y) s t ≡ true) ↔ (s ≡ t)
unfolding same_list
same_list_iff [] [] = (λ _. refl, λ _. refl)
same_list_iff [] (y ∷ t) = (λ e. absurd (cc), λ e. cc)
same_list_iff (x ∷ s) [] = (λ e. absurd (cc), λ e. cc)
same_list_iff (x ∷ s) (y ∷ t) =
    let (to, from) = same_list_iff s t in
    (
      λ e. let head : x ≡ y = ground (arith, e) in let rest : s ≡ t = to (ground (arith, e)) in cc,
      λ e.
          let head : x ≡ y = cc in
          let rest : same_list (λ (a b : ℕ). a == b) s t ≡ true = from (cc) in
          ground (arith, head, rest),
    )

pub same_set_iff : (s t : StateSet) → (same_set s t ≡ true) ↔ (s ≡ t)
unfolding same_set
same_set_iff s t = same_list_iff s t

-- What the map says of a set: it has no number, or it is the set with its number.
abbrev pub Answers : ℕ → List StateSet → StateSet → Option ℕ → Type 0
Answers k l s none = Memᴰ s l → ⊥
Answers k l s (some n) = (j : ℕ) × (n ≡ k + j) × (j < length l) × (get_or l j [] ≡ s)

Answers-cons :
    (k : ℕ) (t s : StateSet) (l : List StateSet) (o : Option ℕ)
    → t ≢ s
    → Answers (suc k) l s o
    → Answers k (t ∷ l) s o
Answers-cons k t s l none ne h = λ m. ⊎_elim (λ e. ne (sym e)) h (Memᴰ.cases_cons m)
Answers-cons k t s l (some n) ne h = let (j, e, lt, g) = h in (suc j, omega arith, omega arith, g)

pub find-numbered :
    (k : ℕ) (s : StateSet) (l : List StateSet) → Answers k l s (find same_set s (numbered k l))
unfolding find
find-numbered k s [] = λ m. Memᴰ.not-nil m
find-numbered k s (t ∷ l) =
    if_both (Answers k (t ∷ l) s) (same_set t s)
      (λ e. (0, omega arith, omega arith, (same_set_iff t s).0 e))
      (λ e.
        Answers-cons k t s l (find same_set s (numbered (suc k) l))
          (λ same. differs (same_set t s) ((same_set_iff t s).1 same) e)
          (find-numbered (suc k) s l))
  where
    differs : (b : Bool) → b ≡ true → b ≡ false → ⊥
    differs b h h' = ground arith

pub numbered-concat :
    (k : ℕ) (l : List StateSet) (s : StateSet)
    → numbered k (l ++ s ∷ []) ≡ numbered k l ++ (s, k + length l) ∷ []
numbered-concat k [] s = ap (λ n. (s, n) ∷ []) (omega arith)
numbered-concat k (t ∷ l) s =
    ap (λ m. (t, k) ∷ m) (numbered-concat (suc k) l s)
    ∙ ap (λ n. (t, k) ∷ (numbered (suc k) l ++ (s, n) ∷ [])) (omega arith)
