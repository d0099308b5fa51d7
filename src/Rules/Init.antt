-- ===== src/Rules/Init.antt =====
-- `init_nfa` of src/nfa.cpp makes a valid automaton that accepts nothing.
use lex_cpp.Prelude.{
  ℕ, zero, suc, ◌+◌, ◌*◌, ◌<◌, ◌≡◌, refl, sym, ap, ◌∙◌, subst, List, [], ◌∷◌, ◌++◌, length, get_or,
  Bool, Memᴰ, ◌⊎◌, inl, inr, arith, length-append, none, some, get_or-append_left,
  get_or-concat_default,
}
use mathlib.Core.List.Memᴰ
use lex_cpp.Regex.Language.{Bytes}
use lex_cpp.Nfa.{NfaState, States, blank_state, new_state}
use lex_cpp.Nfa.Graph.{edges_from, edges-new_state, length-new_state}
use lex_cpp.Nfa.Attributes.{accept_at}
use lex_cpp.Rules.{CondStart, Nfa, no_start, init_cond, init_conds, init_nfa}
use lex_cpp.Rules.Connect.{Numbered}
use lex_cpp.Rules.Runs.{IsValid, Accepts}

record IsBlank (ns : States) (starts : List CondStart) : Type 0 where
  numbered : Numbered starts
  room : length ns ≡ 2 * length starts
  no_edges : (q : ℕ) → edges_from ns q ≡ []
  quiet : (q : ℕ) → accept_at ns q ≡ none

get_or-concat_self {ℓ} :
    {A : Type ℓ} (xs : List A) (x d : A) → get_or (xs ++ x ∷ []) (length xs) d ≡ x
get_or-concat_self [] x d = refl
get_or-concat_self (y ∷ xs) x d = get_or-concat_self xs x d

accept-new_state : (ns : States) (q : ℕ) → accept_at (new_state ns).0 q ≡ accept_at ns q
unfolding new_state
accept-new_state ns q =
    ap (λ (s : NfaState). s.accept_rule) (get_or-concat_default ns q blank_state)

Numbered-concat :
    (starts : List CondStart) (s : CondStart)
    → Numbered starts
    → s ≡ record { normal = 2 * length starts; bol = 2 * length starts + 1 }
    → Numbered (starts ++ s ∷ [])
Numbered-concat starts s num e i h = elim (last_or_not i h) [
  | inl lt ↦ get_or-append_left starts (s ∷ []) i no_start lt ∙ num i lt
  | inr here ↦
      subst (λ k. get_or (starts ++ s ∷ []) k no_start ≡ record { normal = 2 * k; bol = 2 * k + 1 })
        (sym here) (get_or-concat_self starts s no_start ∙ e)
]
  where
    last_or_not :
        (i : ℕ) → i < length (starts ++ s ∷ []) → (i < length starts) ⊎ (i ≡ length starts)
    last_or_not i h = omega (arith, length-append starts (s ∷ []))

init_cond-IsBlank :
    (ns : States) (starts : List CondStart)
    → IsBlank ns starts
    → IsBlank (init_cond (ns, starts)).0 (init_cond (ns, starts)).1
unfolding init_cond new_state
init_cond-IsBlank ns starts b = record {
  numbered =
      Numbered-concat starts _ b.numbered (λ i. record { normal = b.room i; bol = second i });
  room = omega (
    arith,
    b.room,
    length-append starts
        (record { normal = length ns; bol = length (ns ++ blank_state ∷ []) } ∷ []),
    length-new_state ns,
    length-new_state (new_state ns).0,
  );
  no_edges = λ q. edges-new_state (new_state ns).0 q ∙ edges-new_state ns q ∙ b.no_edges q;
  quiet = λ q. accept-new_state (new_state ns).0 q ∙ accept-new_state ns q ∙ b.quiet q;
}
  where
    second : length (ns ++ blank_state ∷ []) ≡ 2 * length starts + 1
    second = omega (arith, b.room, length-append ns (blank_state ∷ []))

init_conds-IsBlank :
    (k : ℕ) (ns : States) (starts : List CondStart)
    → IsBlank ns starts
    → IsBlank (init_conds k (ns, starts)).0 (init_conds k (ns, starts)).1
unfolding init_conds
init_conds-IsBlank zero ns starts b = b
init_conds-IsBlank (suc k) ns starts b =
    init_conds-IsBlank k (init_cond (ns, starts)).0 (init_cond (ns, starts)).1
      (init_cond-IsBlank ns starts b)

start-IsBlank : IsBlank [] []
start-IsBlank = record {
  numbered = λ i h. elim h [ ];
  room = omega arith;
  no_edges = λ q. refl;
  quiet = λ q. refl;
}

init_nfa-IsBlank :
    (n : Nfa) (names : List (List ℕ)) (excl : List Bool)
    → IsBlank (init_nfa n names excl).states (init_nfa n names excl).cond_starts
unfolding init_nfa
init_nfa-IsBlank n names excl = init_conds-IsBlank (length names) [] [] start-IsBlank

length-init_conds :
    (k : ℕ) (ns : States) (starts : List CondStart)
    → length (init_conds k (ns, starts)).1 ≡ length starts + k
unfolding init_conds init_cond
length-init_conds zero ns starts = omega arith
length-init_conds (suc k) ns starts =
    let s : CondStart = record {
      normal = (new_state ns).1;
      bol = (new_state (new_state ns).0).1;
    } in
    omega (
      arith,
      length-append starts (s ∷ []),
      length-init_conds k (new_state (new_state ns).0).0 (starts ++ s ∷ []),
    )

length-starts :
    (n : Nfa) (names : List (List ℕ)) (excl : List Bool)
    → length (init_nfa n names excl).cond_starts ≡ length names
unfolding init_nfa
length-starts n names excl = omega (arith, length-init_conds (length names) [] [])

-- A new automaton is valid, has a start for each condition name, and accepts nothing from any state.
pub init_nfa-IsValid :
    (n : Nfa) (names : List (List ℕ)) (excl : List Bool)
    → IsValid (init_nfa n names excl)
      × (length (init_nfa n names excl).cond_starts ≡ length names)
      × ((q : ℕ) (w : Bytes) (r : ℕ) → ¬ Accepts (init_nfa n names excl).states q w r)
init_nfa-IsValid n names excl =
    let b = init_nfa-IsBlank n names excl in
    (
      record {
        numbered = b.numbered;
        room = omega (arith, b.room);
        forward = λ q x m. absurd (Memᴰ.not-nil (subst (λ l. Memᴰ x l) (b.no_edges q) m));
        quiet = λ q h. b.quiet q;
      },
      length-starts n names excl,
      λ q w r (e, p, a). none_some (sym (b.quiet e) ∙ a),
    )
  where
    none_some : {r : ℕ} → none ≡ some r → ⊥
    none_some e = cc
