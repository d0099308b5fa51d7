-- ===== src/Tables.antt =====
-- `serialise_tables` of src/tables.cpp: the bytes of a table file.
pub mod RoundTrip
use lex_cpp.Prelude.{
  ℕ, zero, suc, ◌+◌, ◌-◌, ◌/◌, ◌%◌, ◌^◌, Bool, true, false, List, [], ◌∷◌, ◌++◌, length, get_or,
  map, ltb, if◌then◌else◌, Option, none, some,
}
use lex_cpp.Prelude.Int.{ℤ, pos, negsuc}
use lex_cpp.Rules.{Nfa}
use lex_cpp.Build.{Dfa, DfaState, DfaStart}
use lex_cpp.Pack.{CompressedDfa, compress_dfa}

abbrev pub Output : Type 0
Output = List ℕ

-- The four bytes that `put_u32` appends, the highest first.
unfoldable pub put_u32 : ℕ → Output
put_u32 v = v / 2 ^ 24 % 256 ∷ v / 2 ^ 16 % 256 ∷ v / 2 ^ 8 % 256 ∷ v % 256 ∷ []

-- An `int32_t` is written as its bit pattern.
pub pattern_of : ℤ → ℕ
pattern_of (pos n) = n % 2 ^ 32
pattern_of (negsuc n) = (2 ^ 32 - 1 - n % 2 ^ 32) % 2 ^ 32

pub put_i32 : ℤ → Output
put_i32 v = put_u32 (pattern_of v)

-- -1 where there is no id.
pub id_or_minus_one : Option ℕ → ℤ
id_or_minus_one none = negsuc 0
id_or_minus_one (some n) = pos n

-- `for (auto v : vs) put(v);`
pub put_all {ℓ} : {A : Type ℓ} → (A → Output) → List A → Output
put_all put [] = []
put_all put (v ∷ vs) = put v ++ put_all put vs

-- The ids from `i` on, `k` of them.
pub ids : ℕ → ℕ → List ℕ
ids zero i = []
ids (suc k) i = i ∷ ids k (i + 1)

-- The fixed part up to the pool size.
pub put_header : Nfa → Dfa → Bool → List ℕ → ℕ → Output
put_header nfa dfa compressed name pool_size =
    put_u32 0xF13C57B1
    ++ (put_u32 1
        ++ (put_u32 (length name)
            ++ (map (λ c. c % 256) name
                ++ (put_u32 (if compressed then 1 else 0)
                    ++ (put_u32 dfa.nclasses
                        ++ (put_u32 (length dfa.states)
                            ++ (put_u32 (length nfa.rule_trail) ++ put_u32 pool_size)))))))

pub put_classes : Dfa → Output
put_classes dfa =
    map (λ i. dfa.eclasses.ec i % 256) (ids 256 0)
    ++ map (λ i. if ltb i (length dfa.meta) then get_or dfa.meta i 0 % 256 else i % 256)
        (ids dfa.nclasses 0)

pub put_rows : Dfa → Output
put_rows dfa =
    put_all
      (λ st.
        put_all (λ cl. put_i32 (id_or_minus_one (get_or st.next cl none))) (ids dfa.nclasses 0))
      dfa.states

pub put_pool : CompressedDfa → Output
put_pool c =
    put_all (λ v. put_i32 (pos v)) c.yy_base
    ++ (put_all (λ v. put_i32 (pos v)) c.yy_def
        ++ (put_all (λ v. put_i32 (pos v)) c.yy_nxt
            ++ put_all (λ v. put_i32 (id_or_minus_one v)) c.yy_chk))

pub put_rules : Nfa → Dfa → Output
put_rules nfa dfa =
    put_all (λ st. put_i32 (id_or_minus_one st.accept_normal)) dfa.states
    ++ (put_all (λ st. put_i32 (id_or_minus_one st.accept_eol)) dfa.states
        ++ (put_u32 (length dfa.cond_starts)
            ++ (put_all (λ s. put_i32 (pos s.normal)) dfa.cond_starts
                ++ (put_all (λ s. put_i32 (pos s.bol)) dfa.cond_starts
                    ++ put_all put_i32 nfa.rule_trail))))

unfoldable pub serialise_tables : Nfa → Dfa → Bool → List ℕ → Output
unfolding put_header put_classes put_rows put_pool put_rules put_all ids put_i32 put_u32 pattern_of
    id_or_minus_one
serialise_tables nfa dfa compressed name =
    let c = compress_dfa dfa in
    put_header nfa dfa compressed name (if compressed then c.pool_size else 0)
    ++ (put_classes dfa ++ ((if compressed then put_pool c else put_rows dfa) ++ put_rules nfa dfa))
