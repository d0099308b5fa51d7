-- ===== src/Dfa.antt =====
-- src/dfa.hpp and the subset construction of src/dfa.cpp. A set of states is a list of ids, -1 is `none`.
pub mod Fuel
pub mod Sets
pub mod Visit
pub mod Closure
pub mod Step
pub mod Accept
pub mod Order
use lex_cpp.Prelude.{
  ℕ, zero, suc, ◌+◌, Bool, true, false, not, ◌&&◌, List, [], ◌∷◌, ◌++◌, length, get_or, set,
  replicate, ltb, leb, ◌==◌, if◌then◌else◌, Option, none, some,
}
use mathlib.Core.List.{reverse}
use lex_cpp.ByteSet.{test, is_empty}
use lex_cpp.Nfa.{NfaEdge, States, state_at}
use lex_cpp.Rules.{Nfa}

abbrev pub StateSet : Type 0
StateSet = List ℕ

-- `std::sort`, as insertion.
pub insert : ℕ → List ℕ → List ℕ
insert x [] = x ∷ []
insert x (y ∷ ys) = if leb x y then x ∷ y ∷ ys else y ∷ insert x ys

pub sort : List ℕ → List ℕ
sort [] = []
sort (x ∷ xs) = insert x (sort xs)

-- `v.erase(std::unique(…), v.end())`: an element equal to the one before it goes.
pub unique_from : ℕ → List ℕ → List ℕ
unique_from x [] = []
unique_from x (y ∷ ys) = let rest = unique_from y ys in if x == y then rest else y ∷ rest

pub unique : List ℕ → List ℕ
unique [] = []
unique (x ∷ xs) = x ∷ unique_from x xs

-- The locals of `eps_closure`; the back of `work` is the head of the list.
pub record Search : Type 0 where
  pub seen : List Bool
  pub work : List ℕ
  pub found : StateSet

pub visit : Search → NfaEdge → Search
visit z e =
    if is_empty e.on && not (get_or z.seen e.target false)
    then record {
      seen = set z.seen e.target true;
      work = e.target ∷ z.work;
      found = z.found ++ e.target ∷ [];
    }
    else z

pub visit_all : Search → List NfaEdge → Search
visit_all z [] = z
visit_all z (e ∷ es) = visit_all (visit z e) es

-- The while loop. A round takes one id off `work`, and an id is put there when its flag is set.
pub search_loop : States → ℕ → Search → Option Search
search_loop ns zero z = elim z.work [ [] ↦ some z | s ∷ rest ↦ none ]
search_loop ns (suc fuel) z = elim z.work [
  | [] ↦ some z
  | s ∷ rest ↦ search_loop ns fuel (visit_all (record z { work = rest }) (state_at ns s).out)
]

pub mark_seen : List Bool → StateSet → List Bool
mark_seen seen [] = seen
mark_seen seen (s ∷ ss) = mark_seen (set seen s true) ss

pub start_search : States → StateSet → Search
start_search ns ss = record {
  seen = mark_seen (replicate (length ns) false) ss;
  work = reverse ss;
  found = ss;
}

unfoldable pub eps_closure : States → StateSet → Option StateSet
unfolding start_search mark_seen search_loop visit_all visit sort insert unique unique_from
eps_closure ns ss = elim (search_loop ns (length ss + length ns) (start_search ns ss)) [
  | none ↦ none
  | some z ↦ some (unique (sort z.found))
]

-- The targets of the edges that take `byte`.
pub byte_targets : List NfaEdge → ℕ → StateSet
byte_targets [] byte = []
byte_targets (e ∷ es) byte =
    let rest = byte_targets es byte in
    if not (is_empty e.on) && test e.on byte then e.target ∷ rest else rest

pub moves : States → StateSet → ℕ → StateSet
moves ns [] byte = []
moves ns (s ∷ ss) byte = byte_targets (state_at ns s).out byte ++ moves ns ss byte

unfoldable pub step : States → StateSet → ℕ → Option StateSet
unfolding moves byte_targets eps_closure
step ns ss byte = eps_closure ns (moves ns ss byte)

pub record AcceptPair : Type 0 where
  pub normal : Option ℕ
  pub eol : Option ℕ
  pub list : List ℕ
  pub boundary : List ℕ

-- The accepting rules of the states of a set, in the order of the set.
pub rules_of : States → StateSet → List ℕ
rules_of ns [] = []
rules_of ns (s ∷ ss) =
    let rest = rules_of ns ss in
    elim (state_at ns s).accept_rule [ none ↦ rest | some r ↦ r ∷ rest ]

-- `if (slot < 0 || r < slot) slot = r;`
pub lower : Option ℕ → ℕ → Option ℕ
lower none r = some r
lower (some k) r = if ltb r k then some r else some k

pub slots : (ℕ → Bool) → List ℕ → AcceptPair → AcceptPair
slots is_eol [] p = p
slots is_eol (r ∷ rs) p =
    slots is_eol rs (
      if is_eol r then record p { eol = lower p.eol r } else record p { normal = lower p.normal r })

pub contains : List ℕ → ℕ → Bool
contains [] x = false
contains (y ∷ ys) x = let rest = contains ys x in if y == x then true else rest

pub any_marker : StateSet → List ℕ → Bool
any_marker ss [] = false
any_marker ss (m ∷ ms) = let rest = any_marker ss ms in if contains ss m then true else rest

-- The rules from `r` on that have a boundary state in the set.
pub boundary_rules_of : StateSet → ℕ → List (List ℕ) → List ℕ
boundary_rules_of ss r [] = []
boundary_rules_of ss r (markers ∷ rest) =
    let others = boundary_rules_of ss (r + 1) rest in
    if any_marker ss markers then r ∷ others else others

unfoldable pub accept_for : Nfa → StateSet → AcceptPair
unfolding rules_of slots lower boundary_rules_of any_marker contains unique unique_from sort insert
accept_for nfa ss =
    let rules = unique (sort (rules_of nfa.states ss)) in
    slots (λ r. get_or nfa.rule_eol r false) rules
      (record {
        normal = none;
        eol = none;
        list = rules;
        boundary = boundary_rules_of ss 0 nfa.rule_boundary_states;
      })
