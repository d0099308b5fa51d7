-- ===== src/Nfa/Pieces.antt =====
-- Each building step of src/nfa.cpp makes a fragment for the operation of its name.
use lex_cpp.Prelude.{
  ℕ, zero, suc, ◌+◌, ◌≤◌, ◌<◌, ◌≡◌, refl, sym, ap, ◌∙◌, subst, List, [], ◌∷◌, ◌++◌, length, true,
  false, ◌⊎◌, inl, inr, ⊎_elim, arith, append-nil,
}
use lex_cpp.ByteSet.{ByteSet, is_empty}
use lex_cpp.Regex.Language.{
  Bytes, Lang, Eps, Sym, Cat, Or, Star, stop, more, Includes, Cat_mono_left, Cat_assoc_left,
  Cat-Eps_left, Star-more,
}
use lex_cpp.Nfa.{
  NfaEdge, States, Frag, eps_to, two_states, mark_boundary, compile_class, compile_star,
  compile_plus, compile_question, compile_empty, compile_boundary,
}
use lex_cpp.Nfa.Graph.{
  edges_from, HasEdge, Run, done, byte, Sub, Run_mono, Run_trans, two_states_lem,
  edges-mark_boundary, length-mark_boundary,
}
use lex_cpp.Nfa.Fragment.{
  Region-refl, Flows, IsFrag, add_all, All, Below, Sub-add_all, not_past, All-HasEdge-add_all,
}
use lex_cpp.Nfa.Wrap.{
  step_eps, at_s, of_e, Flow-start_old, Flow-start_end, Flow-old_old, Flow-old_end, wrap,
}

pub same_words : (A : Lang) → Includes A A
same_words A w a = a

nothing-Flows : (n : States) (at : ℕ → Lang) → Flows (length n) n at
nothing-Flows n at q x lo m = absurd (omega (arith, not_past n m))

-- The old edges are among the new ones.
pub Sub-wrapped :
    (na n2 : States) (l : List (ℕ × NfaEdge))
    → ((q : ℕ) → edges_from n2 q ≡ edges_from na q)
    → All (Below n2) l
    → Sub na (add_all n2 l)
Sub-wrapped na n2 l same b q x m =
    Sub-add_all n2 l b q x (subst (λ y. lex_cpp.Prelude.Memᴰ x y) (sym (same q)) m)

-- One class edge from the start to the end.
pub compile_class-IsFrag :
    (on : ByteSet) (ns : States)
    → is_empty on ≡ false
    → IsFrag ns (compile_class on ns).0 (compile_class on ns).1 (Sym on)
unfolding compile_class add_all
compile_class-IsFrag on ns full =
    let (es, ee, len, same) = two_states_lem ns in
    let n2 = (two_states ns).0 in
    let f = (two_states ns).1 in
    let x : NfaEdge = record { target = f.e; on = on } in
    let l : List (ℕ × NfaEdge) = (f.s, x) ∷ [] in
    let lt : f.s < f.e = omega arith in
    wrap ns ns n2 f l (Sym on) (Region-refl ns) es ee len same (omega arith)
      (λ K. (
        Cat (Sym on) K,
        λ q. K,
        same_words _,
        nothing-Flows ns (λ q. K),
        (
          (
            λ e. absurd (clash e full),
            λ b w e t k.
                at_s f (Cat (Sym on) K) K (λ q. K) lt (b ∷ w)
                  (b ∷ [], w, refl, (b, refl, t), of_e f (Cat (Sym on) K) K (λ q. K) lt w k),
          ),
          tt,
        ),
      ))
      (λ w (b, e, t).
        let (has, _) = All-HasEdge-add_all n2 l (omega arith) in
        subst (λ v. Run (add_all n2 l) f.s v f.e) (sym e) (byte b x has full t (done refl)))
  where
    clash : is_empty on ≡ true → is_empty on ≡ false → ⊥
    clash e e' = cc

empty_wrap :
    (ns n2 : States)
    → length n2 ≡ suc (suc (length ns))
    → ((q : ℕ) → edges_from n2 q ≡ edges_from ns q)
    → (f : Frag) → f.s ≡ length ns
    → f.e ≡ suc (length ns)
    → IsFrag ns (add_all n2 ((f.s, eps_to f.e) ∷ [])) f Eps
empty_wrap ns n2 len same f es ee =
    let l : List (ℕ × NfaEdge) = (f.s, eps_to f.e) ∷ [] in
    let lt : f.s < f.e = omega arith in
    wrap ns ns n2 f l Eps (Region-refl ns) es ee len same (omega arith)
      (λ K. (
        K,
        λ q. K,
        Cat-Eps_left,
        nothing-Flows ns (λ q. K),
        (Flow-start_end f K K (λ q. K) lt (same_words K), tt),
      ))
      (λ w e.
        let (has, _) = All-HasEdge-add_all n2 l (omega arith) in
        subst (λ v. Run (add_all n2 l) f.s v f.e) (sym e) (step_eps f.e has (done refl)))

pub compile_empty-IsFrag : (ns : States) → IsFrag ns (compile_empty ns).0 (compile_empty ns).1 Eps
unfolding compile_empty add_all
compile_empty-IsFrag ns =
    let (es, ee, len, same) = two_states_lem ns in
    empty_wrap ns (two_states ns).0 len same (two_states ns).1 es ee

pub compile_boundary-IsFrag :
    (ns : States) → IsFrag ns (compile_boundary ns).0 (compile_boundary ns).1 Eps
unfolding compile_boundary add_all
compile_boundary-IsFrag ns =
    let (es, ee, len, same) = two_states_lem ns in
    let n = (two_states ns).0 in
    let f = (two_states ns).1 in
    empty_wrap ns (mark_boundary n f.e) (length-mark_boundary n f.e ∙ len)
      (λ q. edges-mark_boundary n f.e q (omega arith) ∙ same q) f es ee

-- A run from the end of a repeated fragment, with edges back to its start and on to `e`.
star_runs :
    (n : States) (a : Frag) (e : ℕ) {A : Lang}
    → ((w : Bytes) → A w → Run n a.s w a.e)
    → HasEdge n a.e (eps_to a.s)
    → HasEdge n a.e (eps_to e)
    → (w : Bytes) → Star A w
    → Run n a.e w e
star_runs n a e runs back on w (stop x) =
    subst (λ v. Run n a.e v e) (sym x) (step_eps e on (done refl))
star_runs n a e runs back on w (more u v x p r) =
    subst (λ y. Run n a.e y e) (sym x)
      (step_eps a.s back (Run_trans (runs u p) (star_runs n a e runs back on v r)))

star_starts :
    (n : States) (a : Frag) (s e : ℕ) {A : Lang}
    → ((w : Bytes) → A w → Run n a.s w a.e)
    → HasEdge n s (eps_to a.s)
    → HasEdge n s (eps_to e)
    → ((w : Bytes) → Star A w → Run n a.e w e)
    → (w : Bytes) → Star A w
    → Run n s w e
star_starts n a s e runs h1 h2 again w (stop x) =
    subst (λ v. Run n s v e) (sym x) (step_eps e h2 (done refl))
star_starts n a s e runs h1 h2 again w (more u v x p r) =
    subst (λ y. Run n s y e) (sym x) (step_eps a.s h1 (Run_trans (runs u p) (again v r)))

-- The steps over one older fragment.
module _ (n0 na : States) (a : Frag) (A : Lang) (fa : IsFrag n0 na a A) where
  pub compile_star-IsFrag : IsFrag n0 (compile_star a na).0 (compile_star a na).1 (Star A)
  unfolding compile_star add_all
  compile_star-IsFrag =
      let (es, ee, len, same) = two_states_lem na in
      let n2 = (two_states na).0 in
      let f = (two_states na).1 in
      let l : List (ℕ × NfaEdge) =
        (f.s, eps_to a.s) ∷ (f.s, eps_to f.e) ∷ (a.e, eps_to a.s) ∷ (a.e, eps_to f.e) ∷ [] in
      let n3 : States = add_all n2 l in
      let lt : f.s < f.e = omega arith in
      let ha : a.s < f.s = omega (arith, fa.s_hi) in
      let hb : a.e < f.s = omega (arith, fa.e_hi) in
      let b : All (Below n2) l = omega arith in
      let (h1, (h2, (h3, (h4, _)))) = All-HasEdge-add_all n2 l b in
      let runs : (w : Bytes) → A w → Run n3 a.s w a.e =
        λ w x. Run_mono (Sub-wrapped na n2 l same b) (fa.runs w x) in
      wrap n0 na n2 f l (Star A) fa.region es ee len same
        (omega (arith, fa.region.grow, fa.s_lo, fa.s_hi, fa.e_lo, fa.e_hi))
        (λ K.
          let S : Lang = Cat (Star A) K in
          let la = fa.labels S in
          let round : Includes (la.at a.s) S =
            λ w x. Cat_mono_left Star-more w (Cat_assoc_left w (la.starts w x)) in
          let leave : Includes K S = λ w k. ([], w, refl, stop refl, k) in
          (
            S,
            la.at,
            same_words S,
            la.flows,
            (
              Flow-start_old f S K la.at lt a.s ha round,
              (
                Flow-start_end f S K la.at lt leave,
                (
                  Flow-old_old f S K la.at lt a.e a.s hb ha (λ w x. la.ends w (round w x)),
                  (Flow-old_end f S K la.at lt a.e hb (λ w k. la.ends w (leave w k)), tt),
                ),
              ),
            ),
          ))
        (star_starts n3 a f.s f.e runs h1 h2 (star_runs n3 a f.e runs h3 h4))

  pub compile_plus-IsFrag : IsFrag n0 (compile_plus a na).0 (compile_plus a na).1 (Cat A (Star A))
  unfolding compile_plus add_all
  compile_plus-IsFrag =
      let (es, ee, len, same) = two_states_lem na in
      let n2 = (two_states na).0 in
      let f = (two_states na).1 in
      let l : List (ℕ × NfaEdge) = (f.s, eps_to a.s) ∷ (a.e, eps_to a.s) ∷ (a.e, eps_to f.e) ∷ [] in
      let n3 : States = add_all n2 l in
      let lt : f.s < f.e = omega arith in
      let ha : a.s < f.s = omega (arith, fa.s_hi) in
      let hb : a.e < f.s = omega (arith, fa.e_hi) in
      let b : All (Below n2) l = omega arith in
      let (h1, (h2, (h3, _))) = All-HasEdge-add_all n2 l b in
      let runs : (w : Bytes) → A w → Run n3 a.s w a.e =
        λ w x. Run_mono (Sub-wrapped na n2 l same b) (fa.runs w x) in
      wrap n0 na n2 f l (Cat A (Star A)) fa.region es ee len same
        (omega (arith, fa.region.grow, fa.s_lo, fa.s_hi, fa.e_lo, fa.e_hi))
        (λ K.
          let S : Lang = Cat (Cat A (Star A)) K in
          let la = fa.labels (Cat (Star A) K) in
          let once : Includes (la.at a.s) S = λ w x. Cat_assoc_left w (la.starts w x) in
          (
            S,
            la.at,
            same_words S,
            la.flows,
            (
              Flow-start_old f S K la.at lt a.s ha once,
              (
                Flow-old_old f S K la.at lt a.e a.s hb ha
                    (λ w x. la.ends w (Cat_mono_left Star-more w (once w x))),
                (
                  Flow-old_end f S K la.at lt a.e hb (λ w k. la.ends w ([], w, refl, stop refl, k)),
                  tt,
                ),
              ),
            ),
          ))
        (λ w (u, v, x, p, r).
          subst (λ y. Run n3 f.s y f.e) (sym x)
            (step_eps a.s h1 (Run_trans (runs u p) (star_runs n3 a f.e runs h2 h3 v r))))

  pub compile_question-IsFrag :
      IsFrag n0 (compile_question a na).0 (compile_question a na).1 (Or A Eps)
  unfolding compile_question add_all
  compile_question-IsFrag =
      let (es, ee, len, same) = two_states_lem na in
      let n2 = (two_states na).0 in
      let f = (two_states na).1 in
      let l : List (ℕ × NfaEdge) = (f.s, eps_to a.s) ∷ (f.s, eps_to f.e) ∷ (a.e, eps_to f.e) ∷ [] in
      let n3 : States = add_all n2 l in
      let lt : f.s < f.e = omega arith in
      let ha : a.s < f.s = omega (arith, fa.s_hi) in
      let hb : a.e < f.s = omega (arith, fa.e_hi) in
      let b : All (Below n2) l = omega arith in
      let (h1, (h2, (h3, _))) = All-HasEdge-add_all n2 l b in
      let runs : (w : Bytes) → A w → Run n3 a.s w a.e =
        λ w x. Run_mono (Sub-wrapped na n2 l same b) (fa.runs w x) in
      wrap n0 na n2 f l (Or A Eps) fa.region es ee len same
        (omega (arith, fa.region.grow, fa.s_lo, fa.s_hi, fa.e_lo, fa.e_hi))
        (λ K.
          let S : Lang = Cat (Or A Eps) K in
          let la = fa.labels K in
          (
            S,
            la.at,
            same_words S,
            la.flows,
            (
              Flow-start_old f S K la.at lt a.s ha
                  (λ w x. Cat_mono_left (λ u p. inl p) w (la.starts w x)),
              (
                Flow-start_end f S K la.at lt (λ w k. ([], w, refl, inr refl, k)),
                (Flow-old_end f S K la.at lt a.e hb la.ends, tt),
              ),
            ),
          ))
        (λ w.
          ⊎_elim
            (λ p.
              subst (λ y. Run n3 f.s y f.e) (append-nil w)
                (step_eps a.s h1 (Run_trans (runs w p) (step_eps f.e h3 (done refl)))))
            (λ e. subst (λ y. Run n3 f.s y f.e) (sym e) (step_eps f.e h2 (done refl))))
