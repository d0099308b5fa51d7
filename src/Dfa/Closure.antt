-- ===== src/Dfa/Closure.antt =====
-- The set that `eps_closure` of src/dfa.cpp returns.
use lex_cpp.Prelude.{
  ℕ, zero, suc, ◌+◌, ◌≤◌, ◌<◌, ◌≡◌, ◌↔◌, refl, ap, subst, ◌∙◌, Bool, true, false, inl, inr, ◌⊎◌,
  ⊎_elim, List, [], ◌∷◌, length, arith, Memᴰ,
}
use mathlib.Core.List.Memᴰ
use lex_cpp.ByteSet.{is_empty}
use lex_cpp.Prelude.{get_or, set, replicate, length-replicate, some, length-set}
use lex_cpp.Nfa.{NfaEdge, States, state_at}
use lex_cpp.Nfa.Graph.{HasEdge, Run, done, eps, byte, Run_trans}
use lex_cpp.Dfa.Fuel.{
  IsClosed, List-cases, left_to_do, visit_all-Keeps, length-mark_seen, start_search-left,
}
use lex_cpp.Dfa.{
  StateSet, Search, sort, unique, visit_all, search_loop, mark_seen, start_search, eps_closure,
}
use lex_cpp.Dfa.Sets.{sort-Memᴰ, unique-Memᴰ, reverse-Memᴰ}
use lex_cpp.Dfa.Visit.{Marked, Marked-set, visit_all-Step}

-- A state that a run of epsilon edges reaches from the set.
abbrev pub Reached : States → StateSet → ℕ → Type 0
Reached ns ss q = (s : ℕ) × Memᴰ s ss × Run ns s [] q

module _ (ns : States) (ss : StateSet) (c : IsClosed ns) where
  record Holds (z : Search) : Type 0 where
    flags : length z.seen ≡ length ns
    sound : (q : ℕ) → Memᴰ q z.found → Reached ns ss q
    start : (q : ℕ) → Memᴰ q ss → Memᴰ q z.found
    waiting : (q : ℕ) → Memᴰ q z.work → Memᴰ q z.found
    seen_found : (q : ℕ) → Marked z q → Memᴰ q z.found
    closed :
        (q : ℕ)
        → Memᴰ q z.found
        → Memᴰ q z.work
          ⊎ ((e : NfaEdge) → HasEdge ns q e → is_empty e.on ≡ true → Marked z e.target)

  round-Holds :
      (z : Search) (s : ℕ) (rest : List ℕ)
      → Holds z
      → z.work ≡ s ∷ rest
      → Holds (visit_all (record z { work = rest }) (state_at ns s).out)
  round-Holds z s rest h w =
      let z1 : Search = record z { work = rest } in
      let s_found : Memᴰ s z.found = h.waiting s (rw w (Memᴰ.head refl)) in
      let (s0, m0, run) = h.sound s s_found in
      let (st, hits) =
        visit_all-Step (Reached ns ss) z1 (state_at ns s).out (λ e m. rw h.flags (c s e m))
          (λ e m em. (s0, m0, Run_trans run (eps e m em (done refl)))) in
      record {
        flags = st.same_flags ∙ h.flags;
        sound = λ q m. ⊎_elim (h.sound q) (λ x. x.1) (st.new q m);
        start = λ q m. st.found q (h.start q m);
        waiting = λ q m.
            ⊎_elim (λ m'. st.found q (h.waiting q (rw w (Memᴰ.tail m')))) (λ m'. m')
              (st.queued q m);
        seen_found =
            λ q m. ⊎_elim (λ m'. st.found q (h.seen_found q m')) (λ m'. m') (st.marked q m);
        closed = λ q m.
            ⊎_elim
              (λ old.
                ⊎_elim
                  (λ queue.
                    ⊎_elim
                      (λ same. inr (λ e he em. hits e (subst (λ k. HasEdge ns k e) same he) em))
                      (λ m'. inl (st.work q m')) (Memᴰ.cases_cons (subst (λ l. Memᴰ q l) w queue)))
                  (λ done_all. inr (λ e he em. st.marks e.target (done_all e he em)))
                  (h.closed q old))
              (λ x. inl x.0) (st.new q m);
      }

  search_loop-Holds :
      (fuel : ℕ) (z : Search)
      → Holds z
      → left_to_do z ≤ fuel
      → (r : Search) × (search_loop ns fuel z ≡ some r) × Holds r × (r.work ≡ [])
  unfolding search_loop
  search_loop-Holds zero z h t = elim (List-cases z.work) [
    | inl w ↦ (z, simp (w, search_loop), h, w)
    | inr (q, rest, w) ↦ absurd (omega (arith, ap length w))
  ]
  search_loop-Holds (suc fuel) z h t = elim (List-cases z.work) [
    | inl w ↦ (z, simp (w, search_loop), h, w)
    | inr (q, rest, w) ↦
        let next : Search = record z { work = rest } in
        let flags : length z.seen ≡ length ns = h.flags in
        let (len, todo) = visit_all-Keeps next (state_at ns q).out (λ x m. rw flags (c q x m)) in
        let (r, found, ok, empty) =
          search_loop-Holds fuel (visit_all next (state_at ns q).out) (round-Holds z q rest h w)
            (omega (arith, todo, ap length w)) in
        (r, rw (w, search_loop) found, ok, empty)
  ]

  found-Run :
      (z : Search) (q r : ℕ) (w : List ℕ)
      → Holds z
      → z.work ≡ []
      → Run ns q w r
      → w ≡ []
      → Memᴰ q z.found
      → Memᴰ r z.found
  found-Run z q r w h e (done same) e' m = subst (λ k. Memᴰ k z.found) same m
  found-Run z q r w h e (eps x edge em run) e' m =
      let next : Memᴰ x.target z.found =
        ⊎_elim (λ m'. absurd (Memᴰ.not-nil (subst (λ l. Memᴰ q l) e m')))
          (λ all. h.seen_found x.target (all x edge em)) (h.closed q m) in
      found-Run z x.target r w h e run e' next
  found-Run z q r w h e (byte b x edge ne t run) e' m = cc

get_or-replicate_lem : (n q : ℕ) → get_or (replicate n false) q false ≡ false
get_or-replicate_lem zero q = refl
get_or-replicate_lem (suc n) zero = refl
get_or-replicate_lem (suc n) (suc q) = get_or-replicate_lem n q

mark_seen-Memᴰ :
    (seen : List Bool) (ss : StateSet) (q : ℕ)
    → ((s : ℕ) → Memᴰ s ss → s < length seen)
    → get_or (mark_seen seen ss) q false ≡ true
    → (get_or seen q false ≡ true) ⊎ Memᴰ q ss
unfolding mark_seen
mark_seen-Memᴰ seen [] q h m = inl m
mark_seen-Memᴰ seen (s ∷ ss) q h m =
    ⊎_elim
      (λ m'.
        ⊎_elim (λ same. inr (Memᴰ.head same)) inl
          ((Marked-set seen s q (h s (Memᴰ.head refl))).1 m'))
      (λ m'. inr (Memᴰ.tail m'))
      (mark_seen-Memᴰ (set seen s true) ss q
        (λ x mx. rw (length-set seen s true) (h x (Memᴰ.tail mx))) m)

start_search-Holds :
    (ns : States) (ss : StateSet) (c : IsClosed ns)
    → ((s : ℕ) → Memᴰ s ss → s < length ns)
    → Holds ns ss c (start_search ns ss)
unfolding start_search
start_search-Holds ns ss c h =
    let blank : List Bool = replicate (length ns) false in
    let room : length blank ≡ length ns = length-replicate (length ns) false in
    record {
      flags = length-mark_seen blank ss ∙ room;
      sound = λ q m. (q, m, done refl);
      start = λ q m. m;
      waiting = λ q m. (reverse-Memᴰ q ss).0 m;
      seen_found = λ q m.
          ⊎_elim (λ m'. absurd (ground (arith, get_or-replicate_lem (length ns) q, m'))) (λ m'. m')
            (mark_seen-Memᴰ blank ss q (λ s ms. rw room (h s ms)) m);
      closed = λ q m. inl ((reverse-Memᴰ q ss).1 m);
    }

-- Where every edge leads to a state of the automaton, `eps_closure` of a set of its states returns,
-- within its fuel, the states that runs of epsilon edges reach from the set, and no others.
pub eps_closure_iff :
    (ns : States) (ss : StateSet)
    → IsClosed ns
    → ((s : ℕ) → Memᴰ s ss → s < length ns)
    → (r : StateSet) × (eps_closure ns ss ≡ some r) × ((q : ℕ) → Memᴰ q r ↔ Reached ns ss q)
unfolding eps_closure
eps_closure_iff ns ss c h =
    let first = start_search-Holds ns ss c h in
    let (z, e, ok, empty) =
      search_loop-Holds ns ss c (length ss + length ns) (start_search ns ss) first
        (start_search-left ns ss) in
    let members = λ (q : ℕ). unique-Memᴰ q (sort z.found) in
    let sorted = λ (q : ℕ). sort-Memᴰ q z.found in
    (
      unique (sort z.found),
      rw (e, eps_closure) refl,
      λ q. (
        λ m. ok.sound q ((sorted q).0 ((members q).0 m)),
        λ x.
            (members q).1
              ((sorted q).1 (found-Run ns ss c z x.0 q [] ok empty x.2 refl (ok.start x.0 x.1))),
      ),
    )
