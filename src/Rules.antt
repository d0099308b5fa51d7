-- ===== src/Rules.antt =====
-- src/nfa.hpp and the second half of src/nfa.cpp: start conditions, and rules put into the automaton.
pub mod Connect
pub mod Runs
pub mod Accepts
pub mod Init
pub mod Anchors
pub mod Belongs
pub mod Correct
use lex_cpp.Prelude.{
  ℕ, zero, suc, ◌+◌, ◌-◌, Bool, true, false, ◌||◌, not, Option, none, some, List, [], ◌∷◌, ◌++◌,
  length, get_or, set, replicate, ◌==◌, if◌then◌else◌,
}
use lex_cpp.Prelude.Int.{ℤ, pos}
use lex_cpp.Regex.{
  Node, null, empty, class, concat, alt, star, plus, question, repeat, anchor_bol, anchor_eol,
  trail_boundary,
}
use lex_cpp.Nfa.{States, state_at, new_state, add_eps, compile, Frag}

pub record CondStart : Type 0 where
  pub normal : ℕ
  pub bol : ℕ

-- A flag that the source keeps as 0 or 1 is a `Bool`, a name is the list of its bytes, and
-- `rule_trail` holds 0 for no trailing context and -1 for a variable one.
pub record Nfa : Type 0 where
  pub states : States
  pub cond_starts : List CondStart
  pub cond_names : List (List ℕ)
  pub cond_excl : List Bool
  pub rule_bol : List Bool
  pub rule_eol : List Bool
  pub rule_trail : List ℤ
  pub eof_rules : List (List ℕ)
  pub rule_boundary_states : List (List ℕ)

pub record RuleSites : Type 0 where
  pub conds : List ℕ
  pub any_state : Bool

-- The result of `unwrap_anchors`: the body, `bol` and `eol`.
pub record Unwrapped : Type 0 where
  pub body : Node
  pub bol : Bool
  pub eol : Bool

pub strip_bol : Node → Node × Bool
strip_bol (concat anchor_bol b) = (b, true)
strip_bol r = (r, false)

pub strip_eol : Node → Node × Bool
strip_eol (concat a anchor_eol) = (a, true)
strip_eol r = (r, false)

unfoldable pub unwrap_anchors : Node → Unwrapped
unfolding strip_bol strip_eol
unwrap_anchors root =
    let (r, bol) = strip_bol root in
    let (body, eol) = strip_eol r in record { body = body; bol = bol; eol = eol }

-- One round of the loop of `init_nfa`: both entry states of a condition.
pub init_cond : States × List CondStart → States × List CondStart
init_cond (ns, starts) =
    let (n1, n) = new_state ns in
    let (n2, b) = new_state n1 in (n2, starts ++ record { normal = n; bol = b } ∷ [])

pub init_conds : ℕ → States × List CondStart → States × List CondStart
init_conds zero p = p
init_conds (suc k) p = init_conds k (init_cond p)

-- `cond_starts` is resized and each slot is then written, in order.
unfoldable pub init_nfa : Nfa → List (List ℕ) → List Bool → Nfa
unfolding init_conds init_cond new_state
init_nfa nfa names excl =
    let (ns, starts) = init_conds (length names) ([], []) in
    record nfa {
      states = ns;
      cond_starts = starts;
      cond_names = names;
      cond_excl = excl;
      eof_rules = replicate (length names) [];
    }

-- The ids from `i` on, `k` of them, that pass the test.
pub ids_where : (ℕ → Bool) → ℕ → ℕ → List ℕ
ids_where p zero i = []
ids_where p (suc k) i = let rest = ids_where p k (i + 1) in if p i then i ∷ rest else rest

-- The conditions that a rule belongs to.
unfoldable pub site_conds : Nfa → RuleSites → List ℕ
unfolding ids_where
site_conds nfa sites =
    if sites.any_state then ids_where (λ i. true) (length nfa.cond_starts) 0 else elim sites.conds [
      | [] ↦
          ids_where (λ i. i == 0 || not (get_or nfa.cond_excl i false)) (length nfa.cond_starts) 0
      | c ∷ cs ↦ c ∷ cs
    ]

abbrev pub no_start : CondStart
no_start = record { normal = 0; bol = 0 }

-- The lambda `link` of `connect_to_conds`.
pub link : List CondStart → ℕ → Bool → States → ℕ → States
link starts entry only_bol ns c =
    let cs = get_or starts c no_start in
    let n1 = add_eps ns cs.bol entry in if only_bol then n1 else add_eps n1 cs.normal entry

unfoldable pub link_all : List CondStart → ℕ → Bool → States → List ℕ → States
link_all starts entry only_bol ns [] = ns
link_all starts entry only_bol ns (c ∷ cs) =
    link_all starts entry only_bol (link starts entry only_bol ns c) cs

unfoldable pub connect_to_conds : Nfa → ℕ → Bool → RuleSites → Nfa
unfolding link_all link
connect_to_conds nfa entry only_bol sites = record nfa {
  states = link_all nfa.cond_starts entry only_bol nfa.states (site_conds nfa sites);
}

-- `while (v.size() <= id) v.push_back(d);`
pub pad_to {ℓ} : {A : Type ℓ} → ℕ → A → List A → List A
pad_to id d xs = xs ++ replicate (suc id - length xs) d

unfoldable pub set_accept : States → ℕ → ℕ → States
set_accept ns q rule = set ns q (record (state_at ns q) { accept_rule = some rule })

-- The boundary states among the `k` ids from `i` on.
pub boundary_ids : States → ℕ → ℕ → List ℕ
boundary_ids ns k i = ids_where (λ q. (state_at ns q).is_boundary) k i

unfoldable pub add_rule_to_nfa : Nfa → Node → ℕ → RuleSites → ℤ → Nfa
unfolding unwrap_anchors set_accept pad_to boundary_ids connect_to_conds
add_rule_to_nfa nfa root id sites trail_len =
    let u = unwrap_anchors root in
    let pre = length nfa.states in
    let (ns, f) = compile u.body nfa.states in
    let ns' = set_accept ns f.e id in
    let found = boundary_ids ns' (length ns' - pre) pre in
    let bounds = pad_to id [] nfa.rule_boundary_states in
    connect_to_conds
      (record nfa {
        states = ns';
        rule_bol = set (pad_to id false nfa.rule_bol) id u.bol;
        rule_eol = set (pad_to id false nfa.rule_eol) id u.eol;
        rule_trail = set (pad_to id (pos 0) nfa.rule_trail) id trail_len;
        rule_boundary_states = set bounds id (get_or bounds id [] ++ found);
      })
      f.s u.bol sites

pub push_eof : List (List ℕ) → ℕ → List ℕ → List (List ℕ)
push_eof rules id [] = rules
push_eof rules id (c ∷ cs) = push_eof (set rules c (get_or rules c [] ++ id ∷ [])) id cs

unfoldable pub add_eof_rule : Nfa → ℕ → RuleSites → Nfa
unfolding push_eof
add_eof_rule nfa id sites = record nfa {
  eof_rules = push_eof nfa.eof_rules id (site_conds nfa sites);
}
