-- ===== src/Dfa/Sets.antt =====
-- The elements of the lists that `sort`, `unique` and `reverse` make of a set of states.
use lex_cpp.Prelude.{
  ℕ, ◌≡◌, ◌↔◌, sym, subst, ◌⊎◌, ⊎_elim, List, [], ◌∷◌, leb, ◌==◌, ==_iff, if_both, arith, Memᴰ,
}
use mathlib.Core.List.Memᴰ
use mathlib.Core.List.{reverse, reverse-cons}
use lex_cpp.Dfa.{insert, sort, unique_from, unique}

-- Elements of lists: the constructors, as one equivalence.
pub Memᴰ-cons_iff : (x y : ℕ) (l : List ℕ) → Memᴰ x (y ∷ l) ↔ ((x ≡ y) ⊎ Memᴰ x l)
Memᴰ-cons_iff x y l = (Memᴰ.cases_cons, ⊎_elim Memᴰ.head Memᴰ.tail)

pub insert-Memᴰ : (x y : ℕ) (l : List ℕ) → Memᴰ x (insert y l) ↔ ((x ≡ y) ⊎ Memᴰ x l)
unfolding insert
insert-Memᴰ x y [] = Memᴰ-cons_iff x y []
insert-Memᴰ x y (z ∷ l) =
    let here = Memᴰ-cons_iff x y (z ∷ l) in
    let later = Memᴰ-cons_iff x z (insert y l) in
    let rest = Memᴰ-cons_iff x z l in
    let deeper : Memᴰ x (z ∷ insert y l) ↔ ((x ≡ y) ⊎ Memᴰ x (z ∷ l)) =
      ground (arith, later, rest, insert-Memᴰ x y l) in
    if_both (λ (t : List ℕ). Memᴰ x t ↔ ((x ≡ y) ⊎ Memᴰ x (z ∷ l))) (leb y z) (λ _. here)
      (λ _. deeper)

pub sort-Memᴰ : (x : ℕ) (l : List ℕ) → Memᴰ x (sort l) ↔ Memᴰ x l
unfolding sort
sort-Memᴰ x [] = (λ m. m, λ m. m)
sort-Memᴰ x (y ∷ l) = ground (arith, insert-Memᴰ x y (sort l), sort-Memᴰ x l, Memᴰ-cons_iff x y l)

pub unique_from-Memᴰ : (x y : ℕ) (l : List ℕ) → Memᴰ x (y ∷ unique_from y l) ↔ Memᴰ x (y ∷ l)
unfolding unique_from
unique_from-Memᴰ x y [] = (λ m. m, λ m. m)
unique_from-Memᴰ x y (z ∷ l) =
    let all_y = Memᴰ-cons_iff x y (z ∷ l) in
    let all_z = Memᴰ-cons_iff x z l in
    let some_y = Memᴰ-cons_iff x y (unique_from z l) in
    let some_z = Memᴰ-cons_iff x z (unique_from z l) in
    let both_y = Memᴰ-cons_iff x y (z ∷ unique_from z l) in
    let below = unique_from-Memᴰ x z l in
    if_both (λ (t : List ℕ). Memᴰ x (y ∷ t) ↔ Memᴰ x (y ∷ z ∷ l)) (y == z)
      (λ h.
        let same : y ≡ z = (==_iff y z).0 h in ground (arith, all_y, all_z, some_y, some_z, below))
      (λ _. ground (arith, all_y, all_z, both_y, below))

pub unique-Memᴰ : (x : ℕ) (l : List ℕ) → Memᴰ x (unique l) ↔ Memᴰ x l
unfolding unique
unique-Memᴰ x [] = (λ m. m, λ m. m)
unique-Memᴰ x (y ∷ l) = unique_from-Memᴰ x y l

pub reverse-Memᴰ : (q : ℕ) (l : List ℕ) → Memᴰ q (reverse l) ↔ Memᴰ q l
reverse-Memᴰ q [] = (λ m. m, λ m. m)
reverse-Memᴰ q (x ∷ l) =
    let (to, from) = reverse-Memᴰ q l in
    (
      λ m.
          ⊎_elim (λ m'. Memᴰ.tail (to m')) (λ m'. Memᴰ.head (Memᴰ.eq_of_singleton m'))
            (Memᴰ.append_cases (reverse l) (subst (λ k. Memᴰ q k) (reverse-cons x l) m)),
      λ m.
          subst (λ k. Memᴰ q k) (sym (reverse-cons x l))
            (⊎_elim (λ same. Memᴰ.append_right (reverse l) (Memᴰ.head same))
              (λ m'. Memᴰ.append_left _ (from m')) (Memᴰ.cases_cons m)),
    )
