-- ===== src/Dfa/Fuel.antt =====
-- The search of `eps_closure` in src/dfa.cpp ends: what is left to do goes down in each round.
use lex_cpp.Prelude.{
  ℕ, zero, suc, ◌+◌, ◌≤◌, ◌<◌, ◌≡◌, refl, ap, ◌∙◌, Bool, true, false, inl, inr, ◌⊎◌, List, [], ◌∷◌,
  length, length-set, length-append, length-replicate, get_or, set, replicate, not, ◌&&◌, if_both,
  arith, Memᴰ,
}
use mathlib.Core.List.{reverse, reverse-cons}
use lex_cpp.ByteSet.{is_empty}
use lex_cpp.Nfa.{NfaEdge, States}
use lex_cpp.Nfa.Graph.{HasEdge}
use lex_cpp.Dfa.{StateSet, Search, visit, visit_all, mark_seen, start_search}

-- The number of flags that are not set.
abbrev pub unseen : List Bool → ℕ
unseen [] = 0
unseen (true ∷ s) = unseen s
unseen (false ∷ s) = suc (unseen s)

unseen-set :
    (s : List Bool) (i : ℕ)
    → i < length s
    → get_or s i false ≡ false
    → suc (unseen (set s i true)) ≡ unseen s
unseen-set [] i h e = absurd (omega arith)
unseen-set (true ∷ s) zero h e = cc
unseen-set (false ∷ s) zero h e = refl
unseen-set (true ∷ s) (suc i) h e = unseen-set s i (omega arith) e
unseen-set (false ∷ s) (suc i) h e = ap suc (unseen-set s i (omega arith) e)

pub unseen-length : (s : List Bool) → unseen s ≤ length s
unseen-length [] = omega arith
unseen-length (true ∷ s) = omega (arith, unseen-length s)
unseen-length (false ∷ s) = omega (arith, unseen-length s)

-- The rounds that are left at most.
abbrev pub left_to_do : Search → ℕ
left_to_do z = length z.work + unseen z.seen

pub List-cases : (l : List ℕ) → (l ≡ []) ⊎ (q : ℕ) × (rest : List ℕ) × (l ≡ q ∷ rest)
List-cases [] = inl refl
List-cases (q ∷ rest) = inr (q, rest, refl)

-- The same flags, as to their number, and as much to do.
abbrev pub Keeps : ℕ → ℕ → Search → Type 0
Keeps n m z = (length z.seen ≡ n) × (left_to_do z ≡ m)

visit-Keeps :
    (z : Search) (e : NfaEdge)
    → e.target < length z.seen
    → Keeps (length z.seen) (left_to_do z) (visit z e)
unfolding visit
visit-Keeps z e h =
    if_both (Keeps (length z.seen) (left_to_do z))
      (is_empty e.on && not (get_or z.seen e.target false))
      (λ t. (
        length-set z.seen e.target true,
        omega (arith, unseen-set z.seen e.target h (ground arith)),
      ))
      (λ _. (refl, refl))

pub visit_all-Keeps :
    (z : Search) (es : List NfaEdge)
    → ((e : NfaEdge) → Memᴰ e es → e.target < length z.seen)
    → Keeps (length z.seen) (left_to_do z) (visit_all z es)
unfolding visit_all
visit_all-Keeps z [] h = (refl, refl)
visit_all-Keeps z (e ∷ es) h =
    let (len, todo) = visit-Keeps z e (h e (Memᴰ.head refl)) in
    let (len', todo') = visit_all-Keeps (visit z e) es (λ x m. rw len (h x (Memᴰ.tail m))) in
    (len' ∙ len, todo' ∙ todo)

-- Every edge leads to a state of the automaton.
abbrev pub IsClosed : States → Type 0
IsClosed ns = (q : ℕ) (x : NfaEdge) → HasEdge ns q x → x.target < length ns

pub length-reverse_lem : (l : List ℕ) → length (reverse l) ≡ length l
length-reverse_lem [] = refl
length-reverse_lem (x ∷ l) =
    ap length (reverse-cons x l)
    ∙ length-append (reverse l) (x ∷ [])
    ∙ omega (arith, length-reverse_lem l)

pub length-mark_seen : (seen : List Bool) (ss : StateSet) → length (mark_seen seen ss) ≡ length seen
unfolding mark_seen
length-mark_seen seen [] = refl
length-mark_seen seen (s ∷ ss) = length-mark_seen (set seen s true) ss ∙ length-set seen s true

pub start_search-flags :
    (ns : States) (ss : StateSet) → length (start_search ns ss).seen ≡ length ns
unfolding start_search
start_search-flags ns ss =
    length-mark_seen (replicate (length ns) false) ss ∙ length-replicate (length ns) false

pub start_search-left :
    (ns : States) (ss : StateSet) → left_to_do (start_search ns ss) ≤ length ss + length ns
unfolding start_search
start_search-left ns ss = omega (
  arith,
  unseen-length (start_search ns ss).seen,
  length-reverse_lem ss,
  start_search-flags ns ss,
)
