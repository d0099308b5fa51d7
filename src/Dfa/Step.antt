-- ===== src/Dfa/Step.antt =====
-- `step` of src/dfa.cpp follows the runs of the automaton.
use lex_cpp.Prelude.{
  ℕ, ◌<◌, ◌≡◌, ◌↔◌, refl, sym, ap, subst, ◌∙◌, true, false, ⊎_elim, List, [], ◌∷◌, ◌++◌, if_both,
  arith, Memᴰ, length, not, ◌&&◌, some,
}
use mathlib.Core.List.Memᴰ
use lex_cpp.ByteSet.{is_empty, test}
use lex_cpp.Nfa.{NfaEdge, States, state_at}
use lex_cpp.Nfa.Graph.{HasEdge, Run, done, eps, byte, Run_trans}
use lex_cpp.Regex.Language.{Bytes}
use lex_cpp.Prelude.{ap₂}
use lex_cpp.Dfa.{StateSet, eps_closure, step, moves, byte_targets}
use lex_cpp.Dfa.Order.{IsStrict, eps_closure-IsStrict}
use lex_cpp.Dfa.Fuel.{IsClosed}
use lex_cpp.Dfa.Closure.{eps_closure_iff}

-- An edge that takes a byte.
abbrev pub Takes : NfaEdge → ℕ → Type 0
Takes x b = (is_empty x.on ≡ false) × (test x.on b ≡ true)

abbrev Aims : List NfaEdge → ℕ → ℕ → Type 0
Aims es b q = (x : NfaEdge) × Memᴰ x es × Takes x b × (q ≡ x.target)

byte_targets-Memᴰ : (es : List NfaEdge) (b q : ℕ) → Memᴰ q (byte_targets es b) ↔ Aims es b q
unfolding byte_targets
byte_targets-Memᴰ [] b q = (λ m. absurd (Memᴰ.not-nil m), λ a. absurd (Memᴰ.not-nil a.1))
byte_targets-Memᴰ (e ∷ es) b q =
    let (to, from) = byte_targets-Memᴰ es b q in
    let later : Memᴰ q (byte_targets es b) → Aims (e ∷ es) b q =
      λ m. let (x, mx, t, same) = to m in (x, Memᴰ.tail mx, t, same) in
    if_both (λ (l : List ℕ). Memᴰ q l ↔ Aims (e ∷ es) b q) (not (is_empty e.on) && test e.on b)
      (λ h. (
        λ m.
            ⊎_elim (λ same. (e, Memᴰ.head refl, (ground arith, ground arith), same)) later
              (Memᴰ.cases_cons m),
        λ a.
            ⊎_elim (λ same. Memᴰ.head (a.3 ∙ ap (λ (x : NfaEdge). x.target) same))
              (λ m. Memᴰ.tail (from (a.0, m, a.2, a.3))) (Memᴰ.cases_cons a.1),
      ))
      (λ h. (
        later,
        λ a.
            ⊎_elim
              (λ same.
                let (ne, t) : Takes e b = subst (λ (x : NfaEdge). Takes x b) same a.2 in
                absurd (ground (arith, h, ne, t)))
              (λ m. from (a.0, m, a.2, a.3)) (Memᴰ.cases_cons a.1),
      ))

abbrev Moves : States → StateSet → ℕ → ℕ → Type 0
Moves ns ss b q = (s : ℕ) × Memᴰ s ss × Aims (state_at ns s).out b q

moves-Memᴰ : (ns : States) (ss : StateSet) (b q : ℕ) → Memᴰ q (moves ns ss b) ↔ Moves ns ss b q
unfolding moves
moves-Memᴰ ns [] b q = (λ m. absurd (Memᴰ.not-nil m), λ a. absurd (Memᴰ.not-nil a.1))
moves-Memᴰ ns (s ∷ ss) b q =
    let (to, from) = moves-Memᴰ ns ss b q in
    let (one, back) = byte_targets-Memᴰ (state_at ns s).out b q in
    (
      λ m.
          ⊎_elim (λ m'. (s, Memᴰ.head refl, one m'))
            (λ m'. let (s', ms, a) = to m' in (s', Memᴰ.tail ms, a))
            (Memᴰ.append_cases (byte_targets (state_at ns s).out b) m),
      λ a.
          ⊎_elim
            (λ same. Memᴰ.append_left _ (back (subst (λ k. Aims (state_at ns k).out b q) same a.2)))
            (λ m. Memᴰ.append_right (byte_targets (state_at ns s).out b) (from (a.0, m, a.2)))
            (Memᴰ.cases_cons a.1),
    )

-- A run over a word and one more byte passes an edge that takes the byte.
abbrev Last : States → ℕ → Bytes → ℕ → ℕ → Type 0
Last ns s w b q =
    (r : ℕ) × Run ns s w r × (x : NfaEdge) × HasEdge ns r x × Takes x b × Run ns x.target [] q

Run-Last :
    (ns : States) (s q b : ℕ) (v w : Bytes) → Run ns s v q → v ≡ w ++ b ∷ [] → Last ns s w b q
Run-Last ns s q b v [] (done e) h = absurd cc
Run-Last ns s q b v (c ∷ w) (done e) h = absurd cc
Run-Last ns s q b v w (eps x m e run) h =
    let (r, before, y, my, ty, after) = Run-Last ns x.target q b _ w run h in
    (r, eps x m e before, y, my, ty, after)
Run-Last ns s q b v [] (byte b' x m ne t run) h =
    let same : b' ≡ b = cc in
    let none_left : _ ≡ [] = cc in
    (
      s,
      done refl,
      x,
      m,
      (ne, subst (λ k. test x.on k ≡ true) same t),
      subst (λ u. Run ns x.target u q) none_left run,
    )
Run-Last ns s q b v (c ∷ w) (byte b' x m ne t run) h =
    let (r, before, y, my, ty, after) = Run-Last ns x.target q b _ w run cc in
    let same : b' ≡ c = cc in
    (r, byte c x m ne (subst (λ k. test x.on k ≡ true) same t) before, y, my, ty, after)

-- A run over a word from a state of the set.
abbrev pub Reads : States → StateSet → Bytes → ℕ → Type 0
Reads ns from w q = (s : ℕ) × Memᴰ s from × Run ns s w q

-- Where a set has the states that the runs over a word reach from given states, its `step` by a byte
-- returns those that the runs over the word and the byte reach, and no others; every edge of the
-- automaton leads to a state of it.
pub step-Reads :
    (ns : States) (from ss : StateSet) (w : Bytes) (b : ℕ)
    → IsClosed ns
    → ((q : ℕ) → Memᴰ q ss ↔ Reads ns from w q)
    → (r : StateSet) × (step ns ss b ≡ some r)
      × ((q : ℕ) → Memᴰ q r ↔ Reads ns from (w ++ b ∷ []) q)
unfolding step
step-Reads ns from ss w b c same =
    let (r, e, reached) = eps_closure_iff ns (moves ns ss b) c (λ q m.
      let (s, ms, (x, mx, t, eq)) = (moves-Memᴰ ns ss b q).0 m in
      subst (λ k. k < length ns) (sym eq) (c s x mx)) in
    (
      r,
      e,
      λ q. (
        λ m.
            let (t, mt, run) = (reached q).0 m in
            let (s, ms, (x, mx, (ne, takes), eq)) = (moves-Memᴰ ns ss b t).0 mt in
            let (s0, m0, before) = (same s).0 ms in
            (s0, m0, Run_trans before (byte b x mx ne takes (subst (λ k. Run ns k [] q) eq run))),
        λ a.
            let (s0, m0, run) = a in
            let (s, before, x, mx, takes, after) = Run-Last ns s0 q b _ w run refl in
            (reached q).1 (
              x.target,
              (moves-Memᴰ ns ss b x.target).1
                  (s, (same s).1 (s0, m0, before), (x, mx, takes, refl)),
              after,
            ),
      ),
    )

-- Runs stay in the automaton.
Run-lt :
    (ns : States) (s q : ℕ) (w : Bytes) → IsClosed ns → Run ns s w q → s < length ns → q < length ns
Run-lt ns s q w c (done e) h = omega (arith, e)
Run-lt ns s q w c (eps x m e run) h = Run-lt ns x.target q w c run (c s x m)
Run-lt ns s q w c (byte {w = v} b x m ne t run) h = Run-lt ns x.target q v c run (c s x m)

-- What `build_dfa` keeps as a state: a strictly increasing list of states of the automaton.
abbrev pub IsStateSet : States → StateSet → Type 0
IsStateSet ns r = IsStrict r × ((q : ℕ) → Memᴰ q r → q < length ns)

pub eps_closure-IsStateSet :
    (ns : States) (ss : StateSet)
    → IsClosed ns
    → ((q : ℕ) → Memᴰ q ss → q < length ns)
    → (r : StateSet) × (eps_closure ns ss ≡ some r) × IsStateSet ns r
eps_closure-IsStateSet ns ss c h =
    let (r, e, reached) = eps_closure_iff ns ss c h in
    (
      r,
      e,
      (
        eps_closure-IsStrict ns ss r e,
        λ q m. let (s, ms, run) = (reached q).0 m in Run-lt ns s q [] c run (h s ms),
      ),
    )

pub step-IsStateSet :
    (ns : States) (ss : StateSet) (b : ℕ)
    → IsClosed ns
    → (r : StateSet) × (step ns ss b ≡ some r) × IsStateSet ns r
unfolding step
step-IsStateSet ns ss b c = eps_closure-IsStateSet ns (moves ns ss b) c (λ q m.
    let (s, ms, (x, mx, t, eq)) = (moves-Memᴰ ns ss b q).0 m in
    subst (λ k. k < length ns) (sym eq) (c s x mx))

-- Two bytes that every edge answers alike lead to the same set.
byte_targets-same :
    (es : List NfaEdge) (b b' : ℕ)
    → ((x : NfaEdge) → Memᴰ x es → test x.on b ≡ test x.on b')
    → byte_targets es b ≡ byte_targets es b'
unfolding byte_targets
byte_targets-same [] b b' h = refl
byte_targets-same (e ∷ es) b b' h =
    let one : test e.on b ≡ test e.on b' = h e (Memᴰ.head refl) in
    let more : byte_targets es b ≡ byte_targets es b' =
      byte_targets-same es b b' (λ x m. h x (Memᴰ.tail m)) in
    rw (one, more) refl

moves-same :
    (ns : States) (ss : StateSet) (b b' : ℕ)
    → ((q : ℕ) (x : NfaEdge) → HasEdge ns q x → test x.on b ≡ test x.on b')
    → moves ns ss b ≡ moves ns ss b'
unfolding moves
moves-same ns [] b b' h = refl
moves-same ns (s ∷ ss) b b' h =
    ap₂ (λ u v. u ++ v) (byte_targets-same (state_at ns s).out b b' (h s)) (moves-same ns ss b b' h)

pub step-same :
    (ns : States) (ss : StateSet) (b b' : ℕ)
    → ((q : ℕ) (x : NfaEdge) → HasEdge ns q x → test x.on b ≡ test x.on b')
    → step ns ss b ≡ step ns ss b'
unfolding step
step-same ns ss b b' h = ap (λ m. eps_closure ns m) (moves-same ns ss b b' h)
