-- ===== src/Driver/Names.antt =====
-- The names of conditions in src/main.cpp: the ids of a rule's conditions, and what a name stands for.
use lex_cpp.Prelude.{
  ℕ, ◌+◌, ◌<◌, ◌≡◌, ◌↔◌, refl, sym, ap, subst, ◌∙◌, ⊎_elim, List, [], ◌∷◌, ◌++◌, length, map,
  length-append, append-nil, append_assoc, ap₂, get_or, get_or-append_left, none, some,
  Option-cases, inl, inr, ◌⊎◌, arith, Memᴰ, true, false, Bool, Bool-cases, ◌&&◌, ◌==◌, ==_iff,
}
use mathlib.Core.List.Memᴰ
use lex_cpp.Chars.{Text, same_text}
use lex_cpp.Options.{StartCond}
use lex_cpp.Driver.{sites, unknown_name, sites_of, lookup_text, cond_ids}
use lex_cpp.Driver.Selects.{Sites-cases, Denotes}

sites_eq : {a b : List ℕ} → sites a ≡ sites b → a ≡ b
sites_eq e = cc

some_eq : {a b : ℕ} → some a ≡ some b → a ≡ b
some_eq e = cc

clash : {a : ℕ} → none ≡ some a → ⊥
clash e = cc

-- The ids of a list of names: where it has none, the first name is unknown, or each has an id.
sites_of-cons :
    (ids : List (Text × ℕ)) (n : Text) (names : List Text) (cs : List ℕ)
    → sites_of ids (n ∷ names) ≡ sites cs
    → (k : ℕ) × (rest : List ℕ) × (lookup_text n ids ≡ some k)
      × (sites_of ids names ≡ sites rest)
      × (cs ≡ k ∷ rest)
unfolding sites_of
sites_of-cons ids n names cs e = elim (Option-cases (lookup_text n ids)) [
  | inl none_there ↦ absurd (is_sites (rw (none_there, sites_of) at e))
  | inr (k, found) ↦ elim (Sites-cases (sites_of ids names)) [
    | inr (name, bad) ↦ absurd (is_sites (rw (found, bad, sites_of) at e))
    | inl (rest, good) ↦ (k, rest, found, good, sites_eq (sym (rw (found, good, sites_of) at e)))
  ]
]
  where
    is_sites : {a : List ℕ} {name : List ℕ} → unknown_name name ≡ sites a → ⊥
    is_sites e = cc

-- The ids of a rule are those of its names.
pub sites_of-Memᴰ :
    (ids : List (Text × ℕ)) (names : List Text) (cs : List ℕ) (c : ℕ)
    → sites_of ids names ≡ sites cs
    → Memᴰ c cs ↔ ((name : Text) × Memᴰ name names × (lookup_text name ids ≡ some c))
unfolding sites_of
sites_of-Memᴰ ids [] cs c e = (
  λ m. absurd (Memᴰ.not-nil (subst (Memᴰ c) (sites_eq (sym e)) m)),
  λ (_, m, _). absurd (Memᴰ.not-nil m),
)
sites_of-Memᴰ ids (n ∷ names) cs c e =
    let (k, rest, found, good, all) = sites_of-cons ids n names cs e in
    let (to, from) = sites_of-Memᴰ ids names rest c good in
    (
      λ m.
          ⊎_elim (λ same. (n, Memᴰ.head refl, found ∙ ap some (sym same)))
            (λ m'. let (name, y, z) = to m' in (name, Memᴰ.tail y, z))
            (Memᴰ.cases_cons (subst (Memᴰ c) all m)),
      λ (name, m, z). subst (Memᴰ c) (sym all) (
          ⊎_elim (λ same. Memᴰ.head (some_eq (sym z ∙ ap (λ t. lookup_text t ids) same ∙ found)))
            (λ m'. Memᴰ.tail (from (name, m', z))) (Memᴰ.cases_cons m)),
    )

pub sites_of-nil :
    (ids : List (Text × ℕ)) (names : List Text) (cs : List ℕ)
    → sites_of ids names ≡ sites cs
    → (cs ≡ []) ↔ (names ≡ [])
unfolding sites_of
sites_of-nil ids [] cs e = (λ _. refl, λ _. sites_eq (sym e))
sites_of-nil ids (n ∷ names) cs e =
    let (k, rest, found, good, all) = sites_of-cons ids n names cs e in
    (λ nil. absurd (not_nil (sym all ∙ nil)), λ nil. absurd (not_names nil))
  where
    not_nil : {k : ℕ} {rest : List ℕ} → k ∷ rest ≡ [] → ⊥
    not_nil e = cc

    not_names : n ∷ names ≡ [] → ⊥
    not_names e = cc

same_text_iff : (s t : Text) → (same_text s t ≡ true) ↔ (s ≡ t)
unfolding same_text
same_text_iff [] [] = (λ _. refl, λ _. refl)
same_text_iff [] (d ∷ t) = (λ e. cc, λ e. cc)
same_text_iff (c ∷ s) [] = (λ e. cc, λ e. cc)
same_text_iff (c ∷ s) (d ∷ t) =
    let (to, from) = same_text_iff s t in
    (
      λ e. let (a, b) = split (c == d) (same_text s t) e in ap₂ ◌∷◌ ((==_iff c d).0 a) (to b),
      λ e. rw ((==_iff c d).1 (heads e), from (tails e)) refl,
    )
  where
    heads : c ∷ s ≡ d ∷ t → c ≡ d
    heads e = cc

    tails : c ∷ s ≡ d ∷ t → s ≡ t
    tails e = cc

    split : (a b : Bool) → a && b ≡ true → (a ≡ true) × (b ≡ true)
    split true true e = (refl, refl)
    split true false e = cc
    split false b e = cc

get_or-last : (l : List Text) (x : Text) → get_or (l ++ x ∷ []) (length l) [] ≡ x
get_or-last [] x = refl
get_or-last (y ∷ l) x = get_or-last l x

-- The map has each name of the list with the position where it stands last.
abbrev pub Knows : List Text → List (Text × ℕ) → Type 0
Knows names m = (name : Text) (c : ℕ) → (lookup_text name m ≡ some c) ↔ Denotes names name c

pub put-Knows :
    (names : List Text) (m : List (Text × ℕ)) (n : Text)
    → Knows names m
    → Knows (names ++ n ∷ []) ((n, length names) ∷ m)
unfolding lookup_text
put-Knows names m n h name c = elim (Bool-cases (same_text n name)) [
  | inl t ↦
      let same : n ≡ name = (same_text_iff n name).0 t in
      rw (t) (
        λ e.
            let at : c ≡ length names = sym (some_eq e) in
            (
              omega (arith, at, len),
              ap (λ j. get_or (names ++ n ∷ []) j []) at ∙ get_or-last names n ∙ same,
              λ d lt lt'. absurd (omega (arith, at, lt, lt', len)),
            ),
        λ (lt, here, later).
            ⊎_elim
              (λ before.
                absurd
                  (later (length names) before (omega (arith, len)) (get_or-last names n ∙ same)))
              (λ at. ap some (sym at)) (position lt),
      )
  | inr f ↦ rw (f) (
    λ e.
        let (lt, here, later) = (h name c).0 e in
        (
          omega (arith, lt, len),
          get_or-append_left names (n ∷ []) c [] lt ∙ here,
          λ d after lt'.
              ⊎_elim
                (λ before x.
                  later d after before (sym (get_or-append_left names (n ∷ []) d [] before) ∙ x))
                (λ at x. differ f (
                  sym (get_or-last names n) ∙ ap (λ j. get_or (names ++ n ∷ []) j []) (sym at) ∙ x))
                (position lt'),
        ),
    λ (lt, here, later).
        ⊎_elim
          (λ before. (h name c).1 (
            before,
            sym (get_or-append_left names (n ∷ []) c [] before) ∙ here,
            λ d after lt' x.
                later d after (omega (arith, lt', len))
                  (get_or-append_left names (n ∷ []) d [] lt' ∙ x),
          ))
          (λ at. absurd (
            differ f (
              sym (get_or-last names n) ∙ ap (λ j. get_or (names ++ n ∷ []) j []) (sym at) ∙ here)))
          (position lt),
  )
]
  where
    len : length (names ++ n ∷ []) ≡ length names + 1
    len = length-append names (n ∷ [])

    position : {d : ℕ} → d < length (names ++ n ∷ []) → (d < length names) ⊎ (d ≡ length names)
    position lt = omega (arith, lt, len)

    clash_bool : true ≡ false → ⊥
    clash_bool e = cc

    differ : same_text n name ≡ false → n ≡ name → ⊥
    differ f e = clash_bool (sym ((same_text_iff n name).1 e) ∙ f)

-- So `cond_id` has each condition.
pub cond_ids-Knows :
    (scs : List StartCond) (n : ℕ) (names : List Text) (m : List (Text × ℕ))
    → n ≡ length names
    → Knows names m
    → Knows (names ++ map (λ (sc : StartCond). sc.name) scs) (cond_ids n scs m)
unfolding cond_ids
cond_ids-Knows [] n names m e h = subst (λ l. Knows l m) (sym (append-nil names)) h
cond_ids-Knows (sc ∷ scs) n names m e h =
    subst (λ l. Knows l (cond_ids (n + 1) scs ((sc.name, n) ∷ m)))
      (append_assoc names (sc.name ∷ []) (map (λ (s : StartCond). s.name) scs))
      (cond_ids-Knows scs (n + 1) (names ++ sc.name ∷ []) ((sc.name, n) ∷ m)
        (omega (arith, e, length-append names (sc.name ∷ [])))
        (subst (λ j. Knows (names ++ sc.name ∷ []) ((sc.name, j) ∷ m)) (sym e)
          (put-Knows names m sc.name h)))

pub empty-Knows : Knows [] []
unfolding lookup_text
empty-Knows name c = (λ e. absurd (clash e), λ (lt, _, _). absurd (omega (arith, lt)))
