-- ===== src/Examples/Packed.antt =====
-- The theorem about the packed tables at a table of three states and two classes.
use lex_cpp.Prelude.{◌≡◌, ◌+◌, ◌<◌, [], ◌∷◌, length, get_or, none, some, arith, refl}
use lex_cpp.Eclass.{identity_eclasses}
use lex_cpp.Build.{Dfa, dead_state}
use lex_cpp.Pack.{compress_dfa, packed_next}
use lex_cpp.Pack.Correct.{compress_dfa-next, row_next}

-- State 1 goes to 2 by class 0 and to itself by class 1, state 2 goes to 1 by class 1.
abbrev three_states : Dfa
three_states = record {
  states =
      dead_state 2
      ∷ record (dead_state 2) { next = some 2 ∷ some 1 ∷ [] }
      ∷ record (dead_state 2) { next = none ∷ some 1 ∷ [] }
      ∷ [];
  cond_starts = [];
  eclasses = identity_eclasses;
  nclasses = 2;
  meta = [];
  nmeta = 0;
}

compress_dfa-next_example :
    (packed_next (compress_dfa three_states) 2 1 ≡ row_next three_states 2 1)
    × (get_or (compress_dfa three_states).yy_base 2 0 + 1 < (compress_dfa three_states).pool_size)
    × (length (compress_dfa three_states).yy_chk ≡ (compress_dfa three_states).pool_size)
    × (length (compress_dfa three_states).yy_nxt ≡ (compress_dfa three_states).pool_size)
compress_dfa-next_example = compress_dfa-next three_states 2 1 (omega arith)

-- State 2 stands in the pool behind state 1, which fills the slots of the first base.
compress_runs : packed_next (compress_dfa three_states) 2 1 ≡ some 1
unfolding compress_dfa packed_next
compress_runs = refl
