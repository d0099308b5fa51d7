-- ===== src/Build/Classes.antt =====
-- The classes of bytes in `build_dfa` of src/dfa.cpp: `compute_eclasses`, or each byte its own.
use lex_cpp.Prelude.{
  ℕ, zero, suc, ◌%◌, ◌<◌, ◌≡◌, sym, ap, subst, ⊎_elim, List, [], ◌∷◌, arith, Memᴰ, Bool, true,
  false, if◌then◌else◌,
}
use mathlib.Core.List.Memᴰ
use lex_cpp.ByteSet.{test}
use lex_cpp.Nfa.{NfaEdge, States}
use lex_cpp.Nfa.Graph.{HasEdge}
use lex_cpp.Rules.{Nfa}
use lex_cpp.Eclass.{Eclasses, identity_eclasses, compute_eclasses}
use lex_cpp.Eclass.Partition.{
  IsNumbered, AlikeOn, AlikeOnAll, compute_eclasses_iff, identity_eclasses-IsNumbered,
}
use lex_cpp.Build.Walk.{PartsOnlyUnlike}

AlikeOn-edge :
    (xs : List NfaEdge) (b b' : ℕ) (x : NfaEdge)
    → AlikeOn xs b b'
    → Memᴰ x xs
    → test x.on b ≡ test x.on b'
AlikeOn-edge [] b b' x a m = absurd (Memᴰ.not-nil m)
AlikeOn-edge (y ∷ xs) b b' x (here, a) m =
    ⊎_elim (λ e. subst (λ (z : NfaEdge). test z.on b ≡ test z.on b') (sym e) here)
      (AlikeOn-edge xs b b' x a) (Memᴰ.cases_cons m)

AlikeOnAll-edge :
    (ns : States) (b b' q : ℕ) (x : NfaEdge)
    → AlikeOnAll ns b b'
    → HasEdge ns q x
    → test x.on b ≡ test x.on b'
AlikeOnAll-edge [] b b' q x a m = absurd (Memᴰ.not-nil m)
AlikeOnAll-edge (st ∷ ns) b b' zero x a m = AlikeOn-edge st.out b b' x a.0 m
AlikeOnAll-edge (st ∷ ns) b b' (suc q) x a m = AlikeOnAll-edge ns b b' q x a.1 m

-- The classes that `build_dfa` takes.
abbrev pub classes : Nfa → Bool → Eclasses
classes nfa use_eclasses = if use_eclasses then compute_eclasses nfa.states else identity_eclasses

identity-PartsOnlyUnlike : (ns : States) → PartsOnlyUnlike ns identity_eclasses
unfolding identity_eclasses
identity-PartsOnlyUnlike ns b b' h h' e q x m = ap (test x.on) (same b b' h h' e)
  where
    same : (b b' : ℕ) → b < 256 → b' < 256 → b % 256 ≡ b' % 256 → b ≡ b'
    same b b' h h' e = omega arith

pub classes-PartsOnlyUnlike :
    (nfa : Nfa) (use_eclasses : Bool)
    → IsNumbered (classes nfa use_eclasses) × PartsOnlyUnlike nfa.states (classes nfa use_eclasses)
classes-PartsOnlyUnlike nfa true =
    let (num, iff) = compute_eclasses_iff nfa.states in
    (num, λ b b' h h' e q x m. AlikeOnAll-edge nfa.states b b' q x ((iff b b' h h').0 e) m)
classes-PartsOnlyUnlike nfa false =
    (identity_eclasses-IsNumbered, identity-PartsOnlyUnlike nfa.states)
