-- ===== src/Build/Walk.antt =====
-- Walking the table that `build_dfa` of src/dfa.cpp makes, from state to state, byte by byte.
use lex_cpp.Prelude.{
  ℕ, suc, ◌<◌, ◌≡◌, ◌↔◌, refl, sym, ap, subst, ◌∙◌, List, [], ◌∷◌, ◌++◌, append-nil, append_assoc,
  length, get_or, Option, none, some, Option-cases, inl, inr, Memᴰ, true,
}
use mathlib.Core.List.Memᴰ
use lex_cpp.ByteSet.{test}
use lex_cpp.Nfa.{NfaEdge, States}
use lex_cpp.Nfa.Graph.{HasEdge, Run, done, eps, byte}
use lex_cpp.Regex.Language.{Bytes}
use lex_cpp.Rules.{Nfa}
use lex_cpp.Dfa.{StateSet, step}
use lex_cpp.Dfa.Fuel.{IsClosed}
use lex_cpp.Dfa.Step.{Reads, step-Reads, step-same}
use lex_cpp.Eclass.{Eclasses}
use lex_cpp.Eclass.Partition.{IsNumbered}
use lex_cpp.Build.{DfaState, dead_state, class_reps}
use lex_cpp.Build.Reps.{IsByteOf, class_reps-byte}
use lex_cpp.Build.Table.{Table, IsLabelled, entry, set_at}

-- From a state over a word; `none` where the table has no target.
abbrev pub follow : List DfaState → Eclasses → Option ℕ → Bytes → Option ℕ
follow sts e none w = none
follow sts e (some s) [] = some s
follow sts e (some s) (b ∷ w) =
    follow sts e (get_or (get_or sts s (dead_state 0)).next (e.ec b) none) w

abbrev pub AreBytes : Bytes → Type 0
AreBytes [] = Unit
AreBytes (b ∷ w) = (b < 256) × AreBytes w

-- A state stands for all that the automaton can have reached, and has its accepting rules; no state
-- says that the automaton can reach nothing.
abbrev pub Stands : Nfa → List DfaState → StateSet → Bytes → Option ℕ → Type 0
Stands nfa sts from w none = (q : ℕ) → Reads nfa.states from w q → ⊥
Stands nfa sts from w (some s) =
    (r : StateSet) × ((q : ℕ) → Memᴰ q r ↔ Reads nfa.states from w q)
    × IsLabelled nfa (get_or sts s (dead_state 0)) r

-- A run over two words passes a state between them.
Run-append :
    (ns : States) (s q : ℕ) (v u w : Bytes)
    → Run ns s v q
    → v ≡ u ++ w
    → (r : ℕ) × Run ns s u r × Run ns r w q
Run-append ns s q v [] w run h = (s, done refl, subst (λ y. Run ns s y q) h run)
Run-append ns s q v (c ∷ u) w (done e) h = absurd cc
Run-append ns s q v (c ∷ u) w (eps x m e run) h =
    let (r, before, after) = Run-append ns x.target q v (c ∷ u) w run h in
    (r, eps x m e before, after)
Run-append ns s q v (c ∷ u) w (byte {w = v'} b x m ne t run) h =
    let same : b ≡ c = cc in
    let (r, before, after) = Run-append ns x.target q v' u w run (cc) in
    (r, byte c x m ne (subst (λ k. test x.on k ≡ true) same t) before, after)

Stands-none :
    (nfa : Nfa) (sts : List DfaState) (from : StateSet) (w v : Bytes)
    → Stands nfa sts from w none
    → Stands nfa sts from (w ++ v) none
Stands-none nfa sts from w v h q (s, m, run) =
    let (r, before, after) = Run-append nfa.states s q (w ++ v) w v run refl in h r (s, m, before)

-- The classes do not part bytes that an edge takes alike.
abbrev pub PartsOnlyUnlike : States → Eclasses → Type 0
PartsOnlyUnlike ns e =
    (b b' : ℕ)
    → b < 256
    → b' < 256
    → e.ec b ≡ e.ec b'
    → (q : ℕ) (x : NfaEdge) → HasEdge ns q x
    → test x.on b ≡ test x.on b'

module _ (nfa : Nfa) (e : Eclasses) (num : IsNumbered e) (alike : PartsOnlyUnlike nfa.states e)
    (closed : IsClosed nfa.states) (sts : List DfaState) (index : List (StateSet × ℕ))
    (sets : List StateSet) (t : Table nfa e.nclasses (class_reps e) sts index sets)
    (finished : (i c : ℕ)
      → i < length sets
      → c < e.nclasses
      → entry sts i c ≡ none
      → step nfa.states (set_at sets i) (get_or (class_reps e) c 256) ≡ some [])
    (from : StateSet) where
  -- The step by a byte is that by the byte that stands for its class.
  step-rep :
      (i b : ℕ)
      → b < 256
      → step nfa.states (set_at sets i) b
        ≡ step nfa.states (set_at sets i) (get_or (class_reps e) (e.ec b) 256)
  step-rep i b h =
      let (lt, at) : IsByteOf e (e.ec b) (get_or (class_reps e) (e.ec b) 256) =
        class_reps-byte e num (e.ec b) (num.below b h) in
      step-same nfa.states (set_at sets i) b (get_or (class_reps e) (e.ec b) 256)
        (alike b _ h lt (sym at))

  abbrev Knows : ℕ → Bytes → Type 0
  Knows i w = (q : ℕ) → Memᴰ q (set_at sets i) ↔ Reads nfa.states from w q

  no_target :
      (i b : ℕ) (w : Bytes)
      → i < length sets
      → b < 256
      → Knows i w
      → entry sts i (e.ec b) ≡ none
      → Stands nfa sts from (w ++ b ∷ []) none
  no_target i b w hi hb k h q reads =
      let (r, to, same) = step-Reads nfa.states from (set_at sets i) w b closed k in
      let nothing : r ≡ [] =
        some_eq (sym to ∙ step-rep i b hb ∙ finished i (e.ec b) hi (num.below b hb) h) in
      Memᴰ.not-nil (subst (Memᴰ q) nothing ((same q).1 reads))
    where
      some_eq : {x y : StateSet} → some x ≡ some y → x ≡ y
      some_eq z = cc

  to_target :
      (i b j : ℕ) (w : Bytes)
      → i < length sets
      → b < 256
      → Knows i w
      → step nfa.states (set_at sets i) (get_or (class_reps e) (e.ec b) 256) ≡ some (set_at sets j)
      → Knows j (w ++ b ∷ [])
  to_target i b j w hi hb k h =
      let (r, to, same) = step-Reads nfa.states from (set_at sets i) w b closed k in
      subst (λ y. (q : ℕ) → Memᴰ q y ↔ Reads nfa.states from (w ++ b ∷ []) q)
        (some_eq (sym to ∙ step-rep i b hb ∙ h)) same
    where
      some_eq : {x y : StateSet} → some x ≡ some y → x ≡ y
      some_eq z = cc

  pub follow-Stands :
      (v w : Bytes) (i : ℕ)
      → i < length sets
      → Knows i w
      → AreBytes v
      → Stands nfa sts from (w ++ v) (follow sts e (some (suc i)) v)
  follow-Stands [] w i hi k bs =
      subst (λ u. Stands nfa sts from u (some (suc i))) (sym (append-nil w))
        (set_at sets i, k, t.labels i hi)
  follow-Stands (b ∷ v) w i hi k (hb, bs) =
      subst (λ u. Stands nfa sts from u (follow sts e (entry sts i (e.ec b)) v))
        (append_assoc w (b ∷ []) v)
        (elim (Option-cases (entry sts i (e.ec b))) [
          | inl h ↦
              subst (λ o. Stands nfa sts from ((w ++ b ∷ []) ++ v) (follow sts e o v)) (sym h)
                (Stands-none nfa sts from (w ++ b ∷ []) v (no_target i b w hi hb k h))
          | inr (s, h) ↦
              let (j, same, hj, to) = t.sound i (e.ec b) hi s h in
              subst (λ o. Stands nfa sts from ((w ++ b ∷ []) ++ v) (follow sts e o v))
                (sym (h ∙ ap some same))
                (follow-Stands v (w ++ b ∷ []) j hj (to_target i b j w hi hb k to) bs)
        ])
