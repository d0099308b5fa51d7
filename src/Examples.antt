-- ===== src/Examples.antt =====
-- The theorems at concrete inputs, and runs of the model on the expression ab+.
mod Reader
mod Table
mod Whole
mod Packed
mod Label
use lex_cpp.Prelude.{
  inr, ◌%◌, inl, ℕ, zero, suc, subst, sym, ◌∙◌, Memᴰ, ◌<◌, ◌≡◌, refl, true, false, not, List, [],
  ◌∷◌, ◌++◌, get_or, some, length, ◌↔◌, ◌⊎◌, arith, ◌==◌, ◌||◌,
}
use lex_cpp.Prelude.Int.{ℤ, pos, negsuc}
use lex_cpp.Chars.{Text, peek}
use lex_cpp.Options.{StartCond, add_start_conds, conds_loop}
use lex_cpp.Options.Conds.{ListsNames, with_flag, add_start_conds-ListsNames, add_start_conds-fuel}
use lex_cpp.Tables.{put_all, put_i32}
use lex_cpp.Tables.RoundTrip.{read_many, read_many-put_all}
use lex_cpp.ByteSet.{ByteSet, no_bytes, add, test, invert, is_empty}
use lex_cpp.ByteSet.Laws.{test-add, test-invert, is_empty-byte, IsWide}
use lex_cpp.Regex.{Node, class, concat, plus, repeat, anchor_bol, anchor_eol, fixed_length}
use lex_cpp.Regex.Language.{Bytes}
use lex_cpp.Regex.Meaning.{Matches, HasBytes}
use lex_cpp.Regex.Length.{length-fixed_length}
use lex_cpp.Nfa.{NfaEdge, States, blank_state, compile}
use lex_cpp.Nfa.Graph.{Run}
use lex_cpp.Nfa.Correct.{compile_iff, compile-empty_class}
use lex_cpp.Rules.{Nfa, RuleSites, unwrap_anchors, site_conds, init_nfa, add_rule_to_nfa}
use lex_cpp.Rules.Connect.{IsEntry}
use lex_cpp.Rules.Anchors.{IsAnchored}
use lex_cpp.Rules.Belongs.{Belongs}
use lex_cpp.Rules.Correct.{add_rule-Accepts}
use lex_cpp.Rules.Runs.{IsValid, Accepts}
use lex_cpp.Rules.Accepts.{add_rule_to_nfa-IsValid, InRange}
use lex_cpp.Rules.Init.{init_nfa-IsValid}
use mathlib.Core.List.Memᴰ
use lex_cpp.Dfa.{StateSet, eps_closure, step, accept_for}
use lex_cpp.Dfa.Accept.{IsLeast, Offers, accept_for-IsLeast}
use lex_cpp.Dfa.Fuel.{IsClosed}
use lex_cpp.Dfa.Closure.{Reached, eps_closure_iff}
use lex_cpp.Dfa.Step.{Reads, step-Reads}
use lex_cpp.Eclass.{compute_eclasses, refine, identity_eclasses}
use lex_cpp.Eclass.Partition.{
  IsNumbered, AlikeOnAll, refine_iff, compute_eclasses_iff, identity_eclasses-IsNumbered,
}

abbrev just_a : ByteSet
just_a = add no_bytes b'a'

abbrev just_b : ByteSet
just_b = add no_bytes b'b'

-- ab+
abbrev a_bs : Node
a_bs = concat (class just_a) (plus (class just_b))

a_bs-HasBytes : HasBytes a_bs
unfolding is_empty add
a_bs-HasBytes = (refl, refl)

abbrev abb : Bytes
abb = b'a' ∷ b'b' ∷ b'b' ∷ []

test-add_example : test (add just_a b'b') b'a' ≡ (b'a' == b'b' || test just_a b'a')
test-add_example = test-add just_a b'b' b'a' (omega arith) (omega arith)

just_a-IsWide : IsWide just_a
unfolding add
just_a-IsWide = omega arith

test-invert_example : test (invert just_a) b'a' ≡ not (test just_a b'a')
test-invert_example = test-invert just_a b'a' just_a-IsWide (omega arith)

is_empty-byte_example : (b : ℕ) × (b < 256) × (test just_a b ≡ true)
is_empty-byte_example = is_empty-byte just_a just_a-IsWide a_bs-HasBytes.0

length-fixed_length_example : length abb % 4294967296 ≡ 3
unfolding fixed_length add test
length-fixed_length_example =
    length-fixed_length (concat (class just_a) (repeat (class just_b) 2 2)) 3 abb refl (
      b'a' ∷ [],
      b'b' ∷ b'b' ∷ [],
      refl,
      (b'a', refl, refl),
      (
        2,
        (omega arith, omega arith),
        (
          b'b' ∷ [],
          b'b' ∷ [],
          refl,
          (b'b', refl, refl),
          (b'b' ∷ [], [], refl, (b'b', refl, refl), refl),
        ),
      ),
    )

compile_iff_example :
    Run (compile a_bs []).0 (compile a_bs []).1.s abb (compile a_bs []).1.e ↔ Matches a_bs abb
compile_iff_example = compile_iff a_bs [] abb a_bs-HasBytes

-- Class, plus and concatenation take two states, two states and none.
compile_runs : length (compile a_bs []).0 ≡ 6
unfolding compile
compile_runs = refl

no_bytes-is_empty : is_empty no_bytes ≡ true
unfolding is_empty
no_bytes-is_empty = refl

compile-empty_class_example :
    Run
      (compile (class no_bytes) []).0
      (compile (class no_bytes) []).1.s
      []
      (compile (class no_bytes) []).1.e
    × ((w : Bytes) → ¬ Matches (class no_bytes) w)
compile-empty_class_example = compile-empty_class no_bytes [] no_bytes-is_empty

abbrev unset : Nfa
unset = record {
  states = [];
  cond_starts = [];
  cond_names = [];
  cond_excl = [];
  rule_bol = [];
  rule_eol = [];
  rule_trail = [];
  eof_rules = [];
  rule_boundary_states = [];
}

-- The condition INITIAL alone.
abbrev names : List (List ℕ)
names = (b'I' ∷ []) ∷ []

abbrev initial : Nfa
initial = init_nfa unset names (false ∷ [])

init_nfa-IsValid_example :
    IsValid initial
    × (length initial.cond_starts ≡ length names)
    × ((q : ℕ) (w : Bytes) (r : ℕ) → ¬ Accepts initial.states q w r)
init_nfa-IsValid_example = init_nfa-IsValid unset names (false ∷ [])

initial-IsValid : IsValid initial
initial-IsValid = (init_nfa-IsValid unset names (false ∷ [])).0

abbrev everywhere : RuleSites
everywhere = record { conds = []; any_state = true }

-- ^ab+
abbrev rule : Node
rule = concat anchor_bol a_bs

rule-HasBytes : HasBytes (unwrap_anchors rule).body
unfolding unwrap_anchors
rule-HasBytes = a_bs-HasBytes

initial-InRange : InRange initial everywhere
unfolding site_conds init_nfa
initial-InRange c m = omega (arith, ap_zero)
  where
    ap_zero : c ≡ 0
    ap_zero = mathlib.Core.List.Memᴰ.eq_of_singleton m

rule-IsAnchored : IsAnchored rule true false a_bs
rule-IsAnchored = (a_bs, inl (refl, refl), inr (refl, refl, λ a e. cc))

nothing_named : (c : ℕ) → Memᴰ c [] → c < length initial.cond_starts
nothing_named c m = absurd (mathlib.Core.List.Memᴰ.not-nil m)

add_rule-Accepts_example :
    Accepts (add_rule_to_nfa initial rule 0 everywhere (pos 0)).states 1 abb 0 ↔ (
      Accepts initial.states 1 abb 0
      ⊎ (◌≡◌ {A = ℕ} 0 0)
        × ((c : ℕ) × Belongs
              (length initial.cond_starts)
              initial.cond_excl
              everywhere.any_state
              (everywhere.conds ≡ [])
              (λ d. Memᴰ d everywhere.conds)
              c
            × IsEntry true c 1)
        × Matches a_bs abb)
unfolding init_nfa
add_rule-Accepts_example =
    add_rule-Accepts initial rule 0 everywhere (pos 0) true false a_bs rule-IsAnchored
      initial-IsValid a_bs-HasBytes nothing_named 1 abb 0 (omega arith)

add_rule_to_nfa-IsValid_example : IsValid (add_rule_to_nfa initial rule 0 everywhere (pos 0))
add_rule_to_nfa-IsValid_example =
    add_rule_to_nfa-IsValid initial rule 0 everywhere (pos 0) initial-IsValid rule-HasBytes
      initial-InRange

-- State 0 goes to state 1 for nothing, and back for an a.
abbrev there_and_back : States
there_and_back =
    record blank_state { out = record { on = no_bytes; target = 1 } ∷ [] }
    ∷ record blank_state { out = record { on = just_a; target = 0 } ∷ [] }
    ∷ []

there_and_back-IsClosed : IsClosed there_and_back
there_and_back-IsClosed zero x m =
    subst (λ (y : NfaEdge). y.target < 2) (sym (Memᴰ.eq_of_singleton m)) (omega arith)
there_and_back-IsClosed (suc zero) x m =
    subst (λ (y : NfaEdge). y.target < 2) (sym (Memᴰ.eq_of_singleton m)) (omega arith)
there_and_back-IsClosed (suc (suc q)) x m = absurd (Memᴰ.not-nil m)

zero-InRange : (s : ℕ) → Memᴰ s (0 ∷ []) → s < length there_and_back
zero-InRange s m = subst (λ k. k < 2) (sym (Memᴰ.eq_of_singleton m)) (omega arith)

eps_closure_iff_example :
    (r : StateSet) × (eps_closure there_and_back (0 ∷ []) ≡ some r)
    × ((q : ℕ) → Memᴰ q r ↔ Reached there_and_back (0 ∷ []) q)
eps_closure_iff_example =
    eps_closure_iff there_and_back (0 ∷ []) there_and_back-IsClosed zero-InRange

abbrev both : StateSet
both = 0 ∷ 1 ∷ []

eps_closure-both : eps_closure there_and_back (0 ∷ []) ≡ some both
unfolding eps_closure is_empty add
eps_closure-both = refl

same_set_of : (x y : StateSet) → some x ≡ some y → x ≡ y
same_set_of x y h = cc

both-Reads : (q : ℕ) → Memᴰ q both ↔ Reads there_and_back (0 ∷ []) [] q
both-Reads =
    let (r, e, reached) =
      eps_closure_iff there_and_back (0 ∷ []) there_and_back-IsClosed zero-InRange in
    subst (λ (k : StateSet). (q : ℕ) → Memᴰ q k ↔ Reached there_and_back (0 ∷ []) q)
      (same_set_of r both (sym e ∙ eps_closure-both)) reached

step-Reads_example :
    (r : StateSet) × (step there_and_back both b'a' ≡ some r)
    × ((q : ℕ) → Memᴰ q r ↔ Reads there_and_back (0 ∷ []) (b'a' ∷ []) q)
step-Reads_example =
    step-Reads there_and_back (0 ∷ []) both [] b'a' there_and_back-IsClosed both-Reads

compute_eclasses_iff_example :
    IsNumbered (compute_eclasses (compile a_bs []).0)
    × ((b b' : ℕ)
        → b < 256
        → b' < 256
        → ((compute_eclasses (compile a_bs []).0).ec b
            ≡ (compute_eclasses (compile a_bs []).0).ec b')
          ↔ AlikeOnAll (compile a_bs []).0 b b')
compute_eclasses_iff_example = compute_eclasses_iff (compile a_bs []).0

refine_iff_example :
    ((refine identity_eclasses just_a).ec b'a' ≡ (refine identity_eclasses just_a).ec b'b')
    ↔ (identity_eclasses.ec b'a' ≡ identity_eclasses.ec b'b')
      × (test just_a b'a' ≡ test just_a b'b')
refine_iff_example =
    refine_iff identity_eclasses just_a identity_eclasses-IsNumbered b'a' b'b' (omega arith)
      (omega arith)

-- Two letters make three classes.
compute_eclasses_runs : (compute_eclasses (compile a_bs []).0).nclasses ≡ 3
unfolding compute_eclasses compile test is_empty add
compute_eclasses_runs = refl

abbrev two_ints : List ℤ
two_ints = pos 3 ∷ negsuc 0 ∷ []

read_many-put_all_example :
    read_many (length two_ints) (put_all put_i32 two_ints ++ 7 ∷ []) ≡ some (two_ints, 7 ∷ [])
read_many-put_all_example = read_many-put_all two_ints (7 ∷ []) (omega arith, (omega arith, tt))

-- The expression a[/]/b
abbrev class_and_slash : Text
class_and_slash = b'a' ∷ b'[' ∷ b'/' ∷ b']' ∷ b'/' ∷ b'b' ∷ []

-- The trees of ^a and b$
abbrev bol_a : Node
bol_a = concat anchor_bol (class just_a)

abbrev b_eol : Node
b_eol = concat (class just_b) anchor_eol

-- The line A_1 B
abbrev two_names : Text
two_names = b'A' ∷ b'_' ∷ b'1' ∷ b' ' ∷ b'B' ∷ []

add_start_conds-ListsNames_example :
    (names : List Text) × (add_start_conds two_names true [] ≡ [] ++ with_flag true names)
    × ListsNames two_names names
add_start_conds-ListsNames_example = add_start_conds-ListsNames two_names true []

add_start_conds-fuel_example : conds_loop 9 two_names true [] ≡ add_start_conds two_names true []
add_start_conds-fuel_example = add_start_conds-fuel 9 two_names true [] (omega arith)

-- The text [ ]a b
abbrev spaced : Text
spaced = b'[' ∷ b' ' ∷ b']' ∷ b'a' ∷ b' ' ∷ b'b' ∷ []

-- Two states that accept the rules 3 and 1.
abbrev two_rules : Nfa
two_rules = record initial {
  states =
      record blank_state { accept_rule = some 3 }
      ∷ record blank_state { accept_rule = some 1 }
      ∷ [];
}

accept_for-IsLeast_example :
    IsLeast (Offers two_rules both false) (accept_for two_rules both).normal
    × IsLeast (Offers two_rules both true) (accept_for two_rules both).eol
accept_for-IsLeast_example = accept_for-IsLeast two_rules both
