-- ===== src/Nfa/Correct.antt =====
-- `compile` of src/nfa.cpp makes an automaton for the language of the syntax tree.
use lex_cpp.Prelude.{ℕ, ◌≤◌, ◌≡◌, refl, sym, subst, [], ◌∷◌, length, true, ◌↔◌, arith}
use lex_cpp.ByteSet.{ByteSet, is_empty}
use lex_cpp.Regex.{
  Node, null, empty, class, concat, alt, star, plus, question, repeat, anchor_bol, anchor_eol,
  trail_boundary,
}
use lex_cpp.Regex.Language.{Bytes, Lang, Eps, Cat-Eps}
use lex_cpp.Regex.Meaning.{Matches, HasBytes}
use lex_cpp.Nfa.{NfaEdge, States, Frag, compile, two_states}
use lex_cpp.ByteSet.Laws.{test-is_empty}
use lex_cpp.Nfa.Graph.{Run, done, eps, byte, two_states_lem}
use lex_cpp.Nfa.Fragment.{Region, Flows, IsFrag, add_all, All-HasEdge-add_all}
use lex_cpp.Nfa.Pieces.{
  compile_class-IsFrag, compile_empty-IsFrag, compile_boundary-IsFrag, compile_star-IsFrag,
  compile_plus-IsFrag, compile_question-IsFrag,
}
use lex_cpp.Nfa.Join.{concat-IsFrag, alt-IsFrag}
use lex_cpp.Nfa.Repeat.{compile_repeat-Compiles}

pub compile-IsFrag :
    (r : Node) (ns : States) → HasBytes r → IsFrag ns (compile r ns).0 (compile r ns).1 (Matches r)
unfolding compile
compile-IsFrag null ns h = compile_empty-IsFrag ns
compile-IsFrag empty ns h = compile_empty-IsFrag ns
compile-IsFrag (class on) ns h = compile_class-IsFrag on ns h
compile-IsFrag (concat a b) ns (ha, hb) =
    concat-IsFrag ns _ _ _ _ (Matches a) (Matches b) (compile-IsFrag a ns ha)
      (compile-IsFrag b (compile a ns).0 hb)
compile-IsFrag (alt a b) ns (ha, hb) =
    alt-IsFrag ns _ _ _ _ (Matches a) (Matches b) (compile-IsFrag a ns ha)
      (compile-IsFrag b (compile a ns).0 hb)
compile-IsFrag (star a) ns h = compile_star-IsFrag ns _ _ (Matches a) (compile-IsFrag a ns h)
compile-IsFrag (plus a) ns h = compile_plus-IsFrag ns _ _ (Matches a) (compile-IsFrag a ns h)
compile-IsFrag (question a) ns h =
    compile_question-IsFrag ns _ _ (Matches a) (compile-IsFrag a ns h)
compile-IsFrag (repeat a lo hi) ns h =
    compile_repeat-Compiles (compile a) lo hi (λ n. compile-IsFrag a n h) ns
compile-IsFrag anchor_bol ns h = compile_empty-IsFrag ns
compile-IsFrag anchor_eol ns h = compile_empty-IsFrag ns
compile-IsFrag trail_boundary ns h = compile_boundary-IsFrag ns

-- A run carries the label of its end back to its start.
pub Run-labels :
    {n0 n1 : States} (at : ℕ → Lang) {q r : ℕ} {w : Bytes}
    → Region n0 n1
    → Flows (length n0) n1 at
    → length n0 ≤ q
    → Run n1 q w r
    → at r []
    → at q w
Run-labels at reg fl lo (done e) x = subst (λ k. at k []) (sym e) x
Run-labels at {q} {w} reg fl lo (eps e m h p) x =
    (fl q e lo m).0 h w (Run-labels at reg fl (reg.closed q e lo m).0 p x)
Run-labels at {q} reg fl lo (byte {w = v} b e m h t p) x =
    (fl q e lo m).1 b v h t (Run-labels at reg fl (reg.closed q e lo m).0 p x)

pub IsFrag-runs :
    {n0 n1 : States} {f : Frag} {A : Lang} {w : Bytes} → IsFrag n0 n1 f A → Run n1 f.s w f.e → A w
IsFrag-runs {n0} {w} fa p =
    let la = fa.labels Eps in
    Cat-Eps w
      (la.starts w (Run-labels {n0 = n0} la.at fa.region la.flows fa.s_lo p (la.ends [] refl)))

-- Whatever states there are before, the runs from the start to the end of a compiled expression
-- whose classes all have bytes read exactly its words.
pub compile_iff :
    (r : Node) (ns : States) (w : Bytes)
    → HasBytes r
    → Run (compile r ns).0 (compile r ns).1.s w (compile r ns).1.e ↔ Matches r w
compile_iff r ns w h = let fr = compile-IsFrag r ns h in (IsFrag-runs fr, fr.runs w)

-- An expression that is a class with no byte compiles to an edge that is taken for an epsilon edge:
-- its start and its end are joined by a run that reads nothing, though no word matches.
pub compile-empty_class :
    (on : ByteSet) (ns : States)
    → is_empty on ≡ true
    → Run (compile (class on) ns).0 (compile (class on) ns).1.s [] (compile (class on) ns).1.e
      × ((w : Bytes) → ¬ Matches (class on) w)
unfolding compile add_all
compile-empty_class on ns none = (
  let (es, ee, len, same) = two_states_lem ns in
      let n2 = (two_states ns).0 in
      let f = (two_states ns).1 in
      let x : NfaEdge = record { target = f.e; on = on } in
      let (has, _) = All-HasEdge-add_all n2 ((f.s, x) ∷ []) (omega arith) in
      eps x has none (done refl),
  λ w (b, e, t). cc (test-is_empty on b none),
)
