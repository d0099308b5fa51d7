-- ===== src/Dfa/Order.antt =====
-- What `std::sort` and `std::unique` leave in `eps_closure` of src/dfa.cpp is strictly increasing.
use lex_cpp.Prelude.{
  ℕ, ◌+◌, length, ◌≤◌, ◌<◌, ◌≡◌, refl, sym, subst, inl, inr, ⊎_elim, [], ◌∷◌, leb, ◌==◌, ==_iff,
  if_both, arith, Memᴰ, Option, none, some, Option-cases,
}
use mathlib.Core.List.Memᴰ
use lex_cpp.Nfa.{States}
use lex_cpp.Dfa.{
  StateSet, insert, sort, unique_from, unique, search_loop, start_search, eps_closure,
}
use lex_cpp.Dfa.Sets.{insert-Memᴰ}

-- Strictly increasing.
abbrev pub IsStrict : StateSet → Type 0
IsStrict [] = Unit
IsStrict (x ∷ xs) = ((y : ℕ) → Memᴰ y xs → x < y) × IsStrict xs

abbrev IsSorted : StateSet → Type 0
IsSorted [] = Unit
IsSorted (x ∷ xs) = ((y : ℕ) → Memᴰ y xs → x ≤ y) × IsSorted xs

insert-IsSorted : (x : ℕ) (l : StateSet) → IsSorted l → IsSorted (insert x l)
unfolding insert
insert-IsSorted x [] h = (λ y m. absurd (Memᴰ.not-nil m), tt)
insert-IsSorted x (z ∷ l) h =
    if_both IsSorted (leb x z)
      (λ e. (
        λ y m.
            ⊎_elim (λ same. ground (arith, e, same)) (λ m'. ground (arith, e, h.0 y m'))
              (Memᴰ.cases_cons m),
        h,
      ))
      (λ e. (
        λ y m. ⊎_elim (λ same. ground (arith, e, same)) (λ m'. h.0 y m') ((insert-Memᴰ y x l).0 m),
        insert-IsSorted x l h.1,
      ))

sort-IsSorted : (l : StateSet) → IsSorted (sort l)
unfolding sort
sort-IsSorted [] = tt
sort-IsSorted (x ∷ l) = insert-IsSorted x (sort l) (sort-IsSorted l)

unique_from-IsStrict : (x : ℕ) (l : StateSet) → IsSorted (x ∷ l) → IsStrict (x ∷ unique_from x l)
unfolding unique_from
unique_from-IsStrict x [] h = (λ y m. absurd (Memᴰ.not-nil m), tt)
unique_from-IsStrict x (z ∷ l) h =
    let below = unique_from-IsStrict z l h.1 in
    if_both (λ (t : StateSet). IsStrict (x ∷ t)) (x == z)
      (λ e.
        let same : x ≡ z = (==_iff x z).0 e in
        (λ y m. subst (λ k. k < y) (sym same) (below.0 y m), below.1))
      (λ e.
        let le : x ≤ z = h.0 z (Memᴰ.head refl) in
        let lt : x < z = ground (arith, e, le) in
        (
          λ y m.
              ⊎_elim (λ same. subst (λ k. x < k) (sym same) lt)
                (λ m'. ground (arith, lt, below.0 y m')) (Memᴰ.cases_cons m),
          below,
        ))

unique-IsStrict : (l : StateSet) → IsSorted l → IsStrict (unique l)
unfolding unique
unique-IsStrict [] h = tt
unique-IsStrict (x ∷ l) h = unique_from-IsStrict x l h

-- What `eps_closure` returns is strictly increasing.
pub eps_closure-IsStrict : (ns : States) (ss r : StateSet) → eps_closure ns ss ≡ some r → IsStrict r
unfolding eps_closure
eps_closure-IsStrict ns ss r h =
    elim (Option-cases (search_loop ns (length ss + length ns) (start_search ns ss))) [
      | inl e ↦ absurd (none_or_some (rw (e, eps_closure) at h))
      | inr (z, e) ↦
          subst IsStrict (same_set_of (rw (e, eps_closure) at h))
            (unique-IsStrict (sort z.found) (sort-IsSorted z.found))
    ]
  where
    none_or_some : {a : StateSet} → ◌≡◌ {A = Option StateSet} none (some a) → ⊥
    none_or_some e = cc

    same_set_of : {a b : StateSet} → some a ≡ some b → a ≡ b
    same_set_of e = cc
