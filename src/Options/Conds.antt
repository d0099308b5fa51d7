-- ===== src/Options/Conds.antt =====
-- What `add_start_conds` of src/source.cpp adds.
use lex_cpp.Prelude.{
  ℕ, zero, suc, ◌≤◌, ◌<◌, ◌≡◌, refl, sym, ◌∙◌, List, [], ◌∷◌, ◌++◌, append_assoc, append-nil, ap,
  map, length, Bool, true, false, Bool-cases, ◌||◌, ◌&&◌, ◌==◌, leb, if_both, inl, inr, arith,
}
use lex_cpp.Chars.{Text, at_end}
use lex_cpp.Options.{
  StartCond, is_space, is_cond_char, skip_while, take_while, conds_loop, add_start_conds,
}

-- Every byte passes a test.
abbrev pub Every : (ℕ → Bool) → Text → Type 0
Every test [] = Unit
Every test (c ∷ s) = (test c ≡ true) × Every test s

-- The text does not go on with a byte that passes the test.
abbrev pub StopsAt : (ℕ → Bool) → Text → Type 0
StopsAt test [] = Unit
StopsAt test (c ∷ s) = test c ≡ false

-- A blank, or a byte from the tab to the carriage return.
abbrev pub is_white : ℕ → Bool
is_white c = c == 32 || leb 9 c && leb c 13

-- A letter, a digit or an underscore.
abbrev pub is_name_byte : ℕ → Bool
is_name_byte c =
    ((leb 65 c && leb c 90 || leb 97 c && leb c 122) || leb 48 c && leb c 57) || c == 95

-- The names of a line, each the longest run of letters, digits and underscores behind white space; no
-- name is left where behind white space the line ends or goes on with another byte.
abbrev pub ListsNames : Text → List Text → Type 0
ListsNames text [] =
    (blanks : Text) × (rest : Text) × (text ≡ blanks ++ rest)
    × Every is_white blanks
    × StopsAt is_white rest
    × StopsAt is_name_byte rest
ListsNames text (name ∷ names) =
    (blanks : Text) × (rest : Text) × (text ≡ blanks ++ (name ++ rest))
    × Every is_white blanks
    × (at_end name ≡ false)
    × Every is_name_byte name
    × StopsAt is_name_byte rest
    × ListsNames rest names

abbrev pub with_flag : Bool → List Text → List StartCond
with_flag exclusive names = map (λ n. record { name = n; exclusive = exclusive }) names

take_while-Every : (test : ℕ → Bool) (s : Text) → Every test (take_while test s)
unfolding take_while
take_while-Every test [] = tt
take_while-Every test (c ∷ s) =
    if_both (Every test) (test c) (λ h. (h, take_while-Every test s)) (λ _. tt)

take_while-split : (test : ℕ → Bool) (s : Text) → s ≡ take_while test s ++ skip_while test s
unfolding take_while skip_while
take_while-split test [] = refl
take_while-split test (c ∷ s) = elim (Bool-cases (test c)) [
  | inl e ↦ rw (e, take_while, skip_while) (ap (λ t. c ∷ t) (take_while-split test s))
  | inr e ↦ rw (e, take_while, skip_while) refl
]

skip_while-StopsAt : (test : ℕ → Bool) (s : Text) → StopsAt test (skip_while test s)
unfolding skip_while
skip_while-StopsAt test [] = tt
skip_while-StopsAt test (c ∷ s) =
    if_both (StopsAt test) (test c) (λ _. skip_while-StopsAt test s) (λ e. e)

take_while-StopsAt :
    (test : ℕ → Bool) (s : Text) → (at_end s || at_end (take_while test s)) ≡ true → StopsAt test s
unfolding take_while at_end
take_while-StopsAt test [] h = tt
take_while-StopsAt test (c ∷ s) h = elim (Bool-cases (test c)) [
  | inl e ↦ absurd (clash (rw (e) at h))
  | inr e ↦ e
]
  where
    clash : false ≡ true → ⊥
    clash e = cc

-- What the loop makes of a line.
abbrev Adds : Bool → Text → List StartCond → List StartCond → Type 0
Adds exclusive text conds result =
    (names : List Text) × (result ≡ conds ++ with_flag exclusive names) × ListsNames text names

pub skip_while-length : (test : ℕ → Bool) (s : Text) → length (skip_while test s) ≤ length s
unfolding skip_while
skip_while-length test [] = omega arith
skip_while-length test (c ∷ s) =
    let fewer : length (skip_while test s) ≤ length (c ∷ s) =
      omega (arith, skip_while-length test s) in
    let same : length (c ∷ s) ≤ length (c ∷ s) = omega arith in
    if_both (λ (t : Text). length t ≤ length (c ∷ s)) (test c) (λ _. fewer) (λ _. same)

skip-take_while :
    (test : ℕ → Bool) (s : Text)
    → at_end (take_while test s) ≡ false
    → length (skip_while test s) < length s
unfolding skip_while take_while at_end
skip-take_while test [] h = cc
skip-take_while test (c ∷ s) h = elim (Bool-cases (test c)) [
  | inl e ↦ rw (e, skip_while) (omega (arith, skip_while-length test s))
  | inr e ↦ absurd (ground (arith, e, h))
]

conds_loop-Adds :
    (k : ℕ) (text : Text) (exclusive : Bool) (conds : List StartCond)
    → length text ≤ k
    → Adds exclusive text conds (conds_loop k text exclusive conds)
unfolding conds_loop
conds_loop-Adds zero [] exclusive conds le =
    ([], sym (append-nil conds), ([], [], refl, tt, tt, tt))
conds_loop-Adds zero (c ∷ s) exclusive conds le = absurd (omega arith)
conds_loop-Adds (suc k) text exclusive conds le =
    let blanks : Text = take_while is_space text in
    let s : Text = skip_while is_space text in
    let name : Text = take_while is_cond_char s in
    let rest : Text = skip_while is_cond_char s in
    let one : StartCond = record { name = name; exclusive = exclusive } in
    if_both (Adds exclusive text conds) (at_end s || at_end name)
      (λ h. (
        [],
        sym (append-nil conds),
        (
          blanks,
          s,
          take_while-split is_space text,
          take_while-Every is_space text,
          skip_while-StopsAt is_space text,
          take_while-StopsAt is_cond_char s h,
        ),
      ))
      (λ h.
        let shorter : length rest < length text =
          omega (
            arith,
            skip-take_while is_cond_char s (ground arith),
            skip_while-length is_space text,
          ) in
        let (names, e, lists) =
          conds_loop-Adds k rest exclusive (conds ++ one ∷ []) (omega arith) in
        (
          name ∷ names,
          e ∙ append_assoc conds (one ∷ []) (with_flag exclusive names),
          (
            blanks,
            rest,
            take_while-split is_space text
                ∙ ap (λ t. blanks ++ t) (take_while-split is_cond_char s),
            take_while-Every is_space text,
            ground arith,
            take_while-Every is_cond_char s,
            skip_while-StopsAt is_cond_char s,
            lists,
          ),
        ))

-- A line adds conditions behind those that are there: one for each name that the line lists, in the
-- order of the line and with the flag of the line.
pub add_start_conds-ListsNames :
    (text : Text) (exclusive : Bool) (conds : List StartCond)
    → (names : List Text) × (add_start_conds text exclusive conds
        ≡ conds ++ with_flag exclusive names)
      × ListsNames text names
unfolding add_start_conds
add_start_conds-ListsNames text exclusive conds =
    conds_loop-Adds (length text) text exclusive conds (omega arith)

conds_loop-fuel :
    (j k : ℕ) (text : Text) (exclusive : Bool) (conds : List StartCond)
    → length text ≤ j
    → length text ≤ k
    → conds_loop j text exclusive conds ≡ conds_loop k text exclusive conds
unfolding conds_loop
conds_loop-fuel zero zero text exclusive conds hj hk = refl
conds_loop-fuel zero (suc k) [] exclusive conds hj hk = refl
conds_loop-fuel zero (suc k) (c ∷ s) exclusive conds hj hk = absurd (omega arith)
conds_loop-fuel (suc j) zero [] exclusive conds hj hk = refl
conds_loop-fuel (suc j) zero (c ∷ s) exclusive conds hj hk = absurd (omega arith)
conds_loop-fuel (suc j) (suc k) text exclusive conds hj hk =
    let s : Text = skip_while is_space text in
    let name : Text = take_while is_cond_char s in
    let rest : Text = skip_while is_cond_char s in
    let more : List StartCond = conds ++ record { name = name; exclusive = exclusive } ∷ [] in
    elim (Bool-cases (at_end s || at_end name)) [
      | inl e ↦ rw (e, conds_loop) refl
      | inr e ↦
          let shorter : length rest < length text = omega (
            arith,
            skip-take_while is_cond_char s (ground arith),
            skip_while-length is_space text,
          ) in
          rw (e, conds_loop) (conds_loop-fuel j k rest exclusive more (omega arith) (omega arith))
    ]

-- As many turns as the line has bytes are enough: with more the loop adds the same.
pub add_start_conds-fuel :
    (k : ℕ) (text : Text) (exclusive : Bool) (conds : List StartCond)
    → length text ≤ k
    → conds_loop k text exclusive conds ≡ add_start_conds text exclusive conds
unfolding add_start_conds
add_start_conds-fuel k text exclusive conds h =
    conds_loop-fuel k (length text) text exclusive conds h (omega arith)
