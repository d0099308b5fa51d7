-- ===== src/Nfa.antt =====
-- src/nfa.hpp and the fragment compiler of src/nfa.cpp.
-- `compile` and what it calls change `nfa.states` only, so they take and return the states.
-- State ids are numbers; -1 in `accept_rule` is `none`.
pub mod Graph
pub mod Attributes
pub mod Fragment
pub mod Wrap
pub mod Pieces
pub mod Join
pub mod Repeat
pub mod Correct
use lex_cpp.Prelude.{
  ℕ, zero, suc, ◌-◌, Bool, true, false, Option, none, some, List, [], ◌∷◌, ◌++◌, length, get_or,
  set, leb, ◌==◌, if◌then◌else◌,
}
use lex_cpp.ByteSet.{ByteSet, no_bytes}
use lex_cpp.Regex.{
  Node, null, empty, class, concat, alt, star, plus, question, repeat, anchor_bol, anchor_eol,
  trail_boundary, k_inf,
}

-- An edge with the empty set is an epsilon edge.
pub record NfaEdge : Type 0 where
  pub target : ℕ
  pub on : ByteSet

pub record NfaState : Type 0 where
  pub out : List NfaEdge
  pub accept_rule : Option ℕ
  pub is_boundary : Bool

abbrev pub States : Type 0
States = List NfaState

abbrev pub blank_state : NfaState
blank_state = record { out = []; accept_rule = none; is_boundary = false }

abbrev pub state_at : States → ℕ → NfaState
state_at ns q = get_or ns q blank_state

pub record Frag : Type 0 where
  pub s : ℕ
  pub e : ℕ

unfoldable pub new_state : States → States × ℕ
new_state ns = (ns ++ blank_state ∷ [], length ns)

unfoldable pub push_edge : States → ℕ → NfaEdge → States
push_edge ns from x =
    set ns from (record (state_at ns from) { out = (state_at ns from).out ++ x ∷ [] })

abbrev pub eps_to : ℕ → NfaEdge
eps_to to = record { target = to; on = no_bytes }

abbrev pub add_eps : States → ℕ → ℕ → States
add_eps ns from to = push_edge ns from (eps_to to)

abbrev pub add_class : States → ℕ → ℕ → ByteSet → States
add_class ns from to on = push_edge ns from (record { target = to; on = on })

-- `auto s = new_state(nfa); auto e = new_state(nfa);`
pub two_states : States → States × Frag
two_states ns =
    let (n1, s) = new_state ns in let (n2, e) = new_state n1 in (n2, record { s = s; e = e })

pub compile_class : ByteSet → States → States × Frag
compile_class on ns = let (n, f) = two_states ns in (add_class n f.s f.e on, f)

pub compile_concat : Frag → Frag → States → States × Frag
compile_concat a b n = (add_eps n a.e b.s, record { s = a.s; e = b.e })

pub compile_alt : Frag → Frag → States → States × Frag
compile_alt a b ns =
    let (n, f) = two_states ns in
    (add_eps (add_eps (add_eps (add_eps n f.s a.s) f.s b.s) a.e f.e) b.e f.e, f)

pub compile_star : Frag → States → States × Frag
compile_star a ns =
    let (n, f) = two_states ns in
    (add_eps (add_eps (add_eps (add_eps n f.s a.s) f.s f.e) a.e a.s) a.e f.e, f)

pub compile_plus : Frag → States → States × Frag
compile_plus a ns =
    let (n, f) = two_states ns in (add_eps (add_eps (add_eps n f.s a.s) a.e a.s) a.e f.e, f)

pub compile_question : Frag → States → States × Frag
compile_question a ns =
    let (n, f) = two_states ns in (add_eps (add_eps (add_eps n f.s a.s) f.s f.e) a.e f.e, f)

pub compile_empty : States → States × Frag
compile_empty ns = let (n, f) = two_states ns in (add_eps n f.s f.e, f)

pub mark_boundary : States → ℕ → States
mark_boundary ns q = set ns q (record (state_at ns q) { is_boundary = true })

pub compile_boundary : States → States × Frag
compile_boundary ns = let (n, f) = two_states ns in (add_eps (mark_boundary n f.e) f.s f.e, f)

abbrev pub Compiler : Type 0
Compiler = States → States × Frag

-- The lambda `append` of `compile_repeat`; `head.s == -1` is `none`.
pub append : States → Option Frag → Frag → States × Option Frag
append ns none f = (ns, some f)
append ns (some h) f = (add_eps ns h.e f.s, some (record { s = h.s; e = f.e }))

-- `k` rounds of compiling a piece and appending it.
pub append_copies : Compiler → ℕ → States × Option Frag → States × Option Frag
append_copies piece zero (ns, head) = (ns, head)
append_copies piece (suc k) (ns, head) =
    let (n1, f) = piece ns in append_copies piece k (append n1 head f)

pub finish_repeat : States × Option Frag → States × Frag
finish_repeat (ns, none) = compile_empty ns
finish_repeat (ns, some f) = (ns, f)

-- A body and then the states and edges of a star, of an optional copy.
pub compile_starred : Compiler → Compiler
compile_starred body ns = let (n, a) = body ns in compile_star a n

pub compile_optional : Compiler → Compiler
compile_optional body ns = let (n, a) = body ns in compile_question a n

pub compile_repeat : Compiler → ℕ → ℕ → States → States × Frag
compile_repeat body lo hi ns =
    let copies = append_copies body lo (ns, none) in
    finish_repeat (
      if hi == k_inf
      then append_copies (compile_starred body) 1 copies
      else append_copies (compile_optional body) (if leb lo hi then hi - lo else 0) copies)

unfoldable pub compile : Node → States → States × Frag
unfolding compile_class compile_concat compile_alt compile_star compile_plus compile_question
    compile_empty compile_boundary compile_repeat compile_starred compile_optional finish_repeat
    append_copies append mark_boundary two_states new_state push_edge
compile null ns = compile_empty ns
compile empty ns = compile_empty ns
compile (class on) ns = compile_class on ns
compile (concat a b) ns =
    let (n1, fa) = compile a ns in let (n2, fb) = compile b n1 in compile_concat fa fb n2
compile (alt a b) ns =
    let (n1, fa) = compile a ns in let (n2, fb) = compile b n1 in compile_alt fa fb n2
compile (star a) ns = let (n1, fa) = compile a ns in compile_star fa n1
compile (plus a) ns = let (n1, fa) = compile a ns in compile_plus fa n1
compile (question a) ns = let (n1, fa) = compile a ns in compile_question fa n1
compile (repeat a lo hi) ns = compile_repeat (compile a) lo hi ns
compile anchor_bol ns = compile_empty ns
compile anchor_eol ns = compile_empty ns
compile trail_boundary ns = compile_boundary ns
