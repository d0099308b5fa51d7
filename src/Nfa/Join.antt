-- ===== src/Nfa/Join.antt =====
-- Two fragments, one compiled after the other: concatenation and alternatives of src/nfa.cpp.
use lex_cpp.Prelude.{
  ℕ, zero, suc, ◌+◌, ◌≤◌, ◌<◌, ◌≡◌, refl, sym, ap, ◌∙◌, subst, subst₂, List, [], ◌∷◌, ◌++◌, length,
  true, false, Bool-cases, ◌⊎◌, inl, inr, ⊎_elim, arith, append-nil, ltb, ltb→lt, lt→ltb,
  if◌then◌else◌,
}
use lex_cpp.Regex.Language.{Bytes, Lang, Cat, Or, Cat_mono_left, Cat_assoc_left}
use lex_cpp.Nfa.{NfaEdge, States, Frag, eps_to, two_states, compile_concat, compile_alt}
use lex_cpp.Nfa.Graph.{HasEdge, Run, done, Sub, Run_mono, Run_trans, two_states_lem}
use lex_cpp.Nfa.Fragment.{
  Region, Region-trans, Flow, FlowFrom, Flows, IsFrag, add_all, All, Below, Sub-Region, Sub-add_all,
  All-HasEdge-add_all, add_all_ind, length-add_all,
}
use lex_cpp.Nfa.Wrap.{step_eps, Flow-eps, Region-add_all, Flow-start_old, Flow-old_end, wrap}
use lex_cpp.Nfa.Pieces.{Sub-wrapped, same_words}

abbrev split : ℕ → (ℕ → Lang) → (ℕ → Lang) → ℕ → Lang
split mid at1 at2 q = if ltb q mid then at1 q else at2 q

module _ (mid : ℕ) (at1 at2 : ℕ → Lang) where
  split_low : (q : ℕ) → q < mid → split mid at1 at2 q ≡ at1 q
  split_low q h = rw (lt→ltb q mid h)

  split_high : (q : ℕ) → mid ≤ q → split mid at1 at2 q ≡ at2 q
  split_high q h = let e : ltb q mid ≡ false = ground arith in rw e

Flows-split :
    {n0 na nb : States} (at1 at2 : ℕ → Lang)
    → Region n0 na
    → Region na nb
    → Flows (length n0) na at1
    → Flows (length na) nb at2
    → Flows (length n0) nb (split (length na) at1 at2)
Flows-split {n0} {na} {nb} at1 at2 r1 r2 f1 f2 q x lo m = elim (Bool-cases (ltb q (length na))) [
  | inl l ↦
      let h : q < length na = ltb→lt q (length na) l in
      let m' : HasEdge na q x = subst (λ y. lex_cpp.Prelude.Memᴰ x y) (r2.frame q h) m in
      subst₂ (λ T Q. FlowFrom T Q x)
        (sym (split_low (length na) at1 at2 x.target (r1.closed q x lo m').1))
        (sym (split_low (length na) at1 at2 q h)) (f1 q x lo m')
  | inr g ↦
      let h : length na ≤ q = ground arith in
      subst₂ (λ T Q. FlowFrom T Q x)
        (sym (split_high (length na) at1 at2 x.target (r2.closed q x h m).0))
        (sym (split_high (length na) at1 at2 q h)) (f2 q x h m)
]

module _ (n0 na nb : States) (a b : Frag) (A B : Lang) (fa : IsFrag n0 na a A)
    (fb : IsFrag na nb b B) where
  both : Region n0 nb
  both = Region-trans fa.region fb.region

  pub concat-IsFrag : IsFrag n0 (compile_concat a b nb).0 (compile_concat a b nb).1 (Cat A B)
  unfolding compile_concat add_all
  concat-IsFrag =
      let l : List (ℕ × NfaEdge) = (a.e, eps_to b.s) ∷ [] in
      let n3 : States = add_all nb l in
      let len : length n3 ≡ length nb = length-add_all nb l in
      let bel : All (Below nb) l = omega (arith, fa.e_hi, fb.region.grow) in
      let (h1, _) = All-HasEdge-add_all nb l bel in
      let runs_a : (w : Bytes) → A w → Run n3 a.s w a.e =
        λ w x. Run_mono (Sub-add_all nb l bel) (Run_mono (Sub-Region fb.region) (fa.runs w x)) in
      let runs_b : (w : Bytes) → B w → Run n3 b.s w b.e =
        λ w x. Run_mono (Sub-add_all nb l bel) (fb.runs w x) in
      record {
        region =
            Region-add_all l both
              (omega (arith, fa.region.grow, fb.region.grow, fa.e_lo, fa.e_hi, fb.s_lo, fb.s_hi));
        s_lo = fa.s_lo;
        s_hi = omega (arith, fa.s_hi, fb.region.grow);
        e_lo = omega (arith, fb.e_lo, fa.region.grow);
        e_hi = omega (arith, fb.e_hi);
        labels = λ K.
            let lb = fb.labels K in
            let la = fa.labels (Cat B K) in
            let at : ℕ → Lang = split (length na) la.at lb.at in
            record {
              at = at;
              ends = λ w k.
                  subst (λ (L : Lang). L w) (sym (split_high (length na) la.at lb.at b.e fb.e_lo))
                    (lb.ends w k);
              starts = λ w x. Cat_assoc_left w (
                  la.starts w
                    (subst (λ (L : Lang). L w) (split_low (length na) la.at lb.at a.s fa.s_hi) x));
              flows = λ q x lo m.
                  add_all_ind (λ q' x'. length n0 ≤ q' → Flow at q' x') nb l bel
                    (λ q' x' m' lo'.
                      Flows-split la.at lb.at fa.region fb.region la.flows lb.flows q' x' lo' m')
                    ((
                      λ _. Flow-eps at a.e b.s (λ w y.
                          subst (λ (L : Lang). L w)
                            (sym (split_low (length na) la.at lb.at a.e fa.e_hi))
                            (la.ends w (
                              lb.starts w (
                                subst (λ (L : Lang). L w)
                                  (split_high (length na) la.at lb.at b.s fb.s_lo) y)))),
                      tt,
                    ))
                    q x m lo;
            };
        runs = λ w (u, v, e, p, r).
            subst (λ y. Run n3 a.s y b.e) (sym e)
              (Run_trans (runs_a u p) (step_eps b.s h1 (runs_b v r)));
      }

  pub alt-IsFrag : IsFrag n0 (compile_alt a b nb).0 (compile_alt a b nb).1 (Or A B)
  unfolding compile_alt add_all
  alt-IsFrag =
      let (es, ee, len, same) = two_states_lem nb in
      let n2 = (two_states nb).0 in
      let f = (two_states nb).1 in
      let l : List (ℕ × NfaEdge) =
        (f.s, eps_to a.s) ∷ (f.s, eps_to b.s) ∷ (a.e, eps_to f.e) ∷ (b.e, eps_to f.e) ∷ [] in
      let n3 : States = add_all n2 l in
      let lt : f.s < f.e = omega arith in
      let hs : a.s < f.s = omega (arith, fa.s_hi, fb.region.grow) in
      let ae : a.e < f.s = omega (arith, fa.e_hi, fb.region.grow) in
      let bs : b.s < f.s = omega (arith, fb.s_hi) in
      let be : b.e < f.s = omega (arith, fb.e_hi) in
      let bel : All (Below n2) l = omega arith in
      let (h1, (h2, (h3, (h4, _)))) = All-HasEdge-add_all n2 l bel in
      let old : Sub nb n3 = Sub-wrapped nb n2 l same bel in
      wrap n0 nb n2 f l (Or A B) both es ee len same
        (omega (arith, fa.region.grow, fb.region.grow, fa.s_lo, fa.e_lo, fb.s_lo, fb.e_lo))
        (λ K.
          let S : Lang = Cat (Or A B) K in
          let la = fa.labels K in
          let lb = fb.labels K in
          let at : ℕ → Lang = split (length na) la.at lb.at in
          (
            S,
            at,
            same_words S,
            Flows-split la.at lb.at fa.region fb.region la.flows lb.flows,
            (
              Flow-start_old f S K at lt a.s hs (λ w x.
                  Cat_mono_left (λ u p. inl p) w
                    (la.starts w (
                      subst (λ (L : Lang). L w) (split_low (length na) la.at lb.at a.s fa.s_hi)
                        x))),
              (
                Flow-start_old f S K at lt b.s bs (λ w x.
                    Cat_mono_left (λ u p. inr p) w
                      (lb.starts w (
                        subst (λ (L : Lang). L w) (split_high (length na) la.at lb.at b.s fb.s_lo)
                          x))),
                (
                  Flow-old_end f S K at lt a.e ae (λ w k.
                      subst (λ (L : Lang). L w)
                        (sym (split_low (length na) la.at lb.at a.e fa.e_hi)) (la.ends w k)),
                  (
                    Flow-old_end f S K at lt b.e be (λ w k.
                        subst (λ (L : Lang). L w)
                          (sym (split_high (length na) la.at lb.at b.e fb.e_lo)) (lb.ends w k)),
                    tt,
                  ),
                ),
              ),
            ),
          ))
        (λ w.
          ⊎_elim
            (λ p.
              subst (λ y. Run n3 f.s y f.e) (append-nil w)
                (step_eps a.s h1 (
                  Run_trans (Run_mono old (Run_mono (Sub-Region fb.region) (fa.runs w p)))
                    (step_eps f.e h3 (done refl)))))
            (λ p.
              subst (λ y. Run n3 f.s y f.e) (append-nil w)
                (step_eps b.s h2
                  (Run_trans (Run_mono old (fb.runs w p)) (step_eps f.e h4 (done refl))))))
