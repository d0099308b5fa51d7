-- ===== src/Eclass.antt =====
-- src/eclass.hpp and src/eclass.cpp: classes of bytes that no edge of the automaton tells apart.
-- The arrays `ec`, `cls` and `remap` are functions from their indices; -1 in `remap` is `none`.
pub mod Pigeonhole
pub mod Sides
pub mod Plan
pub mod Partition
use lex_cpp.Prelude.{
  ℕ, zero, suc, ◌+◌, ◌%◌, Bool, true, false, not, ◌&&◌, ◌||◌, List, [], ◌∷◌, ltb, leb, ◌==◌,
  if◌then◌else◌, Option, none, some,
}
use lex_cpp.ByteSet.{ByteSet, test, is_empty}
use lex_cpp.Nfa.{NfaEdge, NfaState, States}

pub record Eclasses : Type 0 where
  pub ec : ℕ → ℕ
  pub nclasses : ℕ

unfoldable pub identity_eclasses : Eclasses
identity_eclasses = record { ec = λ i. i % 256; nclasses = 256 }

pub record Halves : Type 0 where
  pub in_any : Bool
  pub out_any : Bool

-- The body of the inner loop of `refine` at byte `b`.
pub see : (ℕ → ℕ) → ByteSet → ℕ → ℕ → Halves → Halves
see cls s c b h =
    if cls b == c % 256
    then (if test s b then record h { in_any = true } else record h { out_any = true })
    else h

-- The inner loop, `k` bytes from `b` on; it breaks once both flags are set.
pub halves : (ℕ → ℕ) → ByteSet → ℕ → ℕ → ℕ → Halves → Halves
halves cls s c zero b h = h
halves cls s c (suc k) b h =
    let h' = see cls s c b h in
    let rest = halves cls s c k (b + 1) h' in if h'.in_any && h'.out_any then h' else rest

pub record Remap : Type 0 where
  pub remap : ℕ → Option ℕ
  pub nclasses : ℕ
  pub saturated : Bool

-- `remap[c] = nclasses++`, and the test that follows.
pub split_class : ℕ → Remap → Remap
split_class c r = record {
  remap = λ d. if d == c then some r.nclasses else r.remap d;
  nclasses = r.nclasses + 1;
  saturated = ltb 256 (r.nclasses + 1);
}

-- The first loop of `refine`, from class `c` on. Its bound `nclasses` grows while it runs; it stays
-- at most 256, so that many rounds of fuel reach the end.
pub plan : (ℕ → ℕ) → ByteSet → ℕ → ℕ → Remap → Remap
plan cls s zero c r = r
plan cls s (suc fuel) c r =
    let h = halves cls s c 256 0 (record { in_any = false; out_any = false }) in
    let r' = if h.in_any && h.out_any then split_class c r else r in
    let rest = plan cls s fuel (c + 1) r' in
    if ltb c r.nclasses then (if r'.saturated then r' else rest) else r

-- The second loop of `refine`: each byte's entry is written from that entry alone.
pub reassign : (ℕ → ℕ) → ByteSet → (ℕ → Option ℕ) → ℕ → ℕ
reassign cls s remap b = elim (remap (cls b)) [
  | some r ↦ (if test s b then r % 256 else cls b)
  | none ↦ cls b
]

pub apply_plan : Eclasses → ByteSet → Remap → Eclasses
apply_plan e s r =
    if r.saturated
    then record { ec = e.ec; nclasses = r.nclasses }
    else record { ec = reassign e.ec s r.remap; nclasses = r.nclasses }

unfoldable pub refine : Eclasses → ByteSet → Eclasses
unfolding apply_plan plan halves see split_class reassign
refine e s =
    apply_plan e s
      (plan e.ec s 256 0 (record { remap = λ c. none; nclasses = e.nclasses; saturated = false }))

-- The loop over the edges of a state; the flag is its `return`.
pub refine_edges : List NfaEdge → Eclasses → Eclasses × Bool
refine_edges [] e = (e, false)
refine_edges (x ∷ xs) e =
    let e' = refine e x.on in
    let skip = refine_edges xs e in
    let rest = refine_edges xs e' in
    if is_empty x.on then skip else (if leb 256 e'.nclasses then (e', true) else rest)

pub refine_states : List NfaState → Eclasses → Eclasses
refine_states [] e = e
refine_states (st ∷ sts) e =
    let p = refine_edges st.out e in let rest = refine_states sts p.0 in if p.1 then p.0 else rest

unfoldable pub compute_eclasses : States → Eclasses
unfolding refine_states refine_edges refine
compute_eclasses ns = refine_states ns (record { ec = λ i. 0; nclasses = 1 })
