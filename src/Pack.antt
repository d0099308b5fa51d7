-- ===== src/Pack.antt =====
-- `compress_dfa` of src/dfa.cpp: each state's transitions packed into a shared pool.
pub mod Rows
pub mod Place
pub mod Packed
pub mod Correct
pub mod Walk
use lex_cpp.Prelude.{
  ℕ, zero, suc, ◌+◌, ◌-◌, max, Bool, true, false, List, [], ◌∷◌, ◌++◌, length, get_or, set,
  replicate, ltb, ◌==◌, if◌then◌else◌, Option, none, some,
}
use lex_cpp.Build.{Dfa, DfaState}

-- -1 in `yy_chk` is `none`; `yy_def` is always 0.
pub record CompressedDfa : Type 0 where
  pub yy_base : List ℕ
  pub yy_def : List ℕ
  pub yy_nxt : List ℕ
  pub yy_chk : List (Option ℕ)
  pub pool_size : ℕ

abbrev pub Excs : Type 0
Excs = List (ℕ × ℕ)

-- The live transitions of a row from class `ec` on; a missing target and the dead state are left out.
pub row_excs : ℕ → List (Option ℕ) → Excs
row_excs ec [] = []
row_excs ec (t ∷ ts) =
    let rest = row_excs (ec + 1) ts in
    elim t [ none ↦ rest | some zero ↦ rest | some (suc k) ↦ (ec, suc k) ∷ rest ]

pub record StateExc : Type 0 where
  pub state_id : ℕ
  pub excs : Excs

-- The states from `s` on that have a live transition.
pub collect : ℕ → List DfaState → List StateExc
collect s [] = []
collect s (st ∷ sts) =
    let rest = collect (s + 1) sts in
    elim (row_excs 0 st.next) [ [] ↦ rest | x ∷ xs ↦ record { state_id = s; excs = x ∷ xs } ∷ rest ]

-- The dead state has none.
pub collect_live : List DfaState → List StateExc
collect_live [] = []
collect_live (dead ∷ sts) = collect 1 sts

-- `std::sort` by falling number of transitions. The order of states with equally many is not
-- specified in the source; here the first stays first.
pub insert_exc : StateExc → List StateExc → List StateExc
insert_exc x [] = x ∷ []
insert_exc x (y ∷ ys) =
    if ltb (length x.excs) (length y.excs) then y ∷ insert_exc x ys else x ∷ y ∷ ys

pub sort_excs : List StateExc → List StateExc
sort_excs [] = []
sort_excs (x ∷ xs) = insert_exc x (sort_excs xs)

pub record Pool : Type 0 where
  pub base : List ℕ
  pub chk : List (Option ℕ)
  pub nxt : List ℕ

pub is_free : List (Option ℕ) → ℕ → Bool
is_free chk i = elim (get_or chk i none) [ none ↦ true | some s ↦ false ]

-- A slot past the end reads as free.
pub fits_at : List (Option ℕ) → ℕ → Excs → Bool
fits_at chk base [] = true
fits_at chk base ((ec, t) ∷ r) =
    let rest = fits_at chk base r in if is_free chk (base + ec) then rest else false

pub top_slot : ℕ → Excs → ℕ
top_slot base [] = 0
top_slot base ((ec, t) ∷ r) = max (base + ec + 1) (top_slot base r)

-- `v.resize(n, d)` to a size that is not smaller.
pub grow_to {ℓ} : {A : Type ℓ} → ℕ → A → List A → List A
grow_to n d xs = xs ++ replicate (n - length xs) d

pub write_excs : ℕ → ℕ → Excs → Pool → Pool
write_excs base s [] p = p
write_excs base s ((ec, t) ∷ r) p =
    write_excs base s r
      (record p { chk = set p.chk (base + ec) (some s); nxt = set p.nxt (base + ec) t })

pub place_at : ℕ → StateExc → Pool → Pool
place_at base se p =
    let hi = top_slot base se.excs in
    write_excs base se.state_id se.excs
      (record p { chk = grow_to hi none p.chk; nxt = grow_to hi 0 p.nxt })

-- The first base from `base` on that fits, `k` tries; 0 if there is none.
pub find_base : List (Option ℕ) → Excs → ℕ → ℕ → ℕ
find_base chk excs zero base = 0
find_base chk excs (suc k) base =
    let rest = find_base chk excs k (base + 1) in if fits_at chk base excs then base else rest

pub place : Pool → StateExc → Pool
place p se =
    let best = find_base p.chk se.excs (length p.chk + 1) 0 in
    place_at best se (record p { base = set p.base se.state_id best })

pub place_all : Pool → List StateExc → Pool
place_all p [] = p
place_all p (se ∷ ses) = place_all (place p se) ses

pub max_of : List ℕ → ℕ
max_of [] = 0
max_of (v ∷ vs) = max v (max_of vs)

unfoldable pub compress_dfa : Dfa → CompressedDfa
unfolding place_all place find_base place_at write_excs grow_to top_slot fits_at is_free sort_excs
    insert_exc collect_live collect row_excs max_of
compress_dfa d =
    let n = length d.states in
    let p =
      place_all
        (record {
          base = replicate n 0;
          chk = replicate d.nclasses none;
          nxt = replicate d.nclasses 0;
        })
        (sort_excs (collect_live d.states)) in
    let needed = max (max_of p.base + d.nclasses) (length p.chk) in
    record {
      yy_base = p.base;
      yy_def = replicate n 0;
      yy_nxt = grow_to needed 0 p.nxt;
      yy_chk = grow_to needed none p.chk;
      pool_size = needed;
    }

-- The macro `YY_TRANSITION` over the packed tables; -1 is `none`.
unfoldable pub packed_next : CompressedDfa → ℕ → ℕ → Option ℕ
packed_next z s c =
    let i = get_or z.yy_base s 0 + c in
    elim (get_or z.yy_chk i none) [
      | none ↦ none
      | some k ↦ if k == s then some (get_or z.yy_nxt i 0) else none
    ]
