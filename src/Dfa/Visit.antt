-- ===== src/Dfa/Visit.antt =====
-- The loop over the edges of one state in `eps_closure` of src/dfa.cpp.
use lex_cpp.Prelude.{
  ℕ, ◌<◌, ◌≡◌, ◌≢◌, refl, sym, subst, ◌∙◌, Bool, true, false, Bool-cases, inl, inr, ◌⊎◌, ⊎_elim,
  List, [], ◌∷◌, length, ◌==◌, ==_iff, if_both, arith, Memᴰ,
}
use mathlib.Core.List.Memᴰ
use lex_cpp.ByteSet.{is_empty}
use lex_cpp.Prelude.{get_or, set, get_or-set_self, get_or-set_ne, not, ◌&&◌, length-set}
use lex_cpp.Nfa.{NfaEdge}
use lex_cpp.Dfa.{Search, visit, visit_all}

-- What visiting edges of a state that was found does to the search.
abbrev pub Marked : Search → ℕ → Type 0
Marked z q = get_or z.seen q false ≡ true

pub record Step (P : ℕ → Type 0) (z z' : Search) : Type 0 where
  pub same_flags : length z'.seen ≡ length z.seen
  pub marks : (q : ℕ) → Marked z q → Marked z' q
  pub work : (q : ℕ) → Memᴰ q z.work → Memᴰ q z'.work
  pub found : (q : ℕ) → Memᴰ q z.found → Memᴰ q z'.found
  pub new : (q : ℕ) → Memᴰ q z'.found → Memᴰ q z.found ⊎ Memᴰ q z'.work × P q
  pub marked : (q : ℕ) → Marked z' q → Marked z q ⊎ Memᴰ q z'.found
  pub queued : (q : ℕ) → Memᴰ q z'.work → Memᴰ q z.work ⊎ Memᴰ q z'.found

Step-refl : (P : ℕ → Type 0) (z : Search) → Step P z z
Step-refl P z = record {
  same_flags = refl;
  marks = λ q m. m;
  work = λ q m. m;
  found = λ q m. m;
  new = λ q m. inl m;
  marked = λ q m. inl m;
  queued = λ q m. inl m;
}

Step-trans : {P : ℕ → Type 0} {z z' z'' : Search} → Step P z z' → Step P z' z'' → Step P z z''
Step-trans s t = record {
  same_flags = t.same_flags ∙ s.same_flags;
  marks = λ q m. t.marks q (s.marks q m);
  work = λ q m. t.work q (s.work q m);
  found = λ q m. t.found q (s.found q m);
  new =
      λ q m. ⊎_elim (λ m'. ⊎_elim inl (λ x. inr (t.work q x.0, x.1)) (s.new q m')) inr (t.new q m);
  marked =
      λ q m. ⊎_elim (λ m'. ⊎_elim inl (λ x. inr (t.found q x)) (s.marked q m')) inr (t.marked q m);
  queued =
      λ q m. ⊎_elim (λ m'. ⊎_elim inl (λ x. inr (t.found q x)) (s.queued q m')) inr (t.queued q m);
}

pub Marked-set :
    (seen : List Bool) (t q : ℕ)
    → t < length seen
    → (get_or seen q false ≡ true → get_or (set seen t true) q false ≡ true)
      × (get_or (set seen t true) q false ≡ true → (q ≡ t) ⊎ (get_or seen q false ≡ true))
Marked-set seen t q h = elim (Bool-cases (t == q)) [
  | inl e ↦
      let same : t ≡ q = (==_iff t q).0 e in
      (
        λ _.
            subst (λ k. get_or (set seen t true) k false ≡ true) same
              (get_or-set_self seen t true false h),
        λ _. inl (sym same),
      )
  | inr e ↦
      let ne : t ≢ q = ground arith in
      (
        λ m. get_or-set_ne seen t q true false ne ∙ m,
        λ m. inr (sym (get_or-set_ne seen t q true false ne) ∙ m),
      )
]

abbrev Visited : (ℕ → Type 0) → Search → NfaEdge → Search → Type 0
Visited P z e z' = Step P z z' × (is_empty e.on ≡ true → Marked z' e.target)

visit-Step :
    (P : ℕ → Type 0) (z : Search) (e : NfaEdge)
    → e.target < length z.seen
    → (is_empty e.on ≡ true → P e.target)
    → Visited P z e (visit z e)
unfolding visit
visit-Step P z e h p =
    if_both (Visited P z e) (is_empty e.on && not (get_or z.seen e.target false))
      (λ t.
        let is_eps : is_empty e.on ≡ true = ground arith in
        (
          record {
            same_flags = length-set z.seen e.target true;
            marks = λ q. (Marked-set z.seen e.target q h).0;
            work = λ q m. Memᴰ.tail m;
            found = λ q m. Memᴰ.append_left _ m;
            new = λ q m.
                ⊎_elim inl
                  (λ m'.
                    let same : q ≡ e.target = Memᴰ.eq_of_singleton m' in
                    inr (Memᴰ.head same, subst P (sym same) (p is_eps)))
                  (Memᴰ.append_cases z.found m);
            marked = λ q m.
                ⊎_elim (λ same. inr (Memᴰ.append_right z.found (Memᴰ.head same))) inl
                  ((Marked-set z.seen e.target q h).1 m);
            queued = λ q m.
                ⊎_elim (λ same. inr (Memᴰ.append_right z.found (Memᴰ.head same))) inl
                  (Memᴰ.cases_cons m);
          },
          λ _. get_or-set_self z.seen e.target true false h,
        ))
      (λ t. (Step-refl P z, λ em. ground arith))

pub visit_all-Step :
    (P : ℕ → Type 0) (z : Search) (es : List NfaEdge)
    → ((e : NfaEdge) → Memᴰ e es → e.target < length z.seen)
    → ((e : NfaEdge) → Memᴰ e es → is_empty e.on ≡ true → P e.target)
    → Step P z (visit_all z es)
      × ((e : NfaEdge) → Memᴰ e es → is_empty e.on ≡ true → Marked (visit_all z es) e.target)
unfolding visit_all
visit_all-Step P z [] h p = (Step-refl P z, λ e m. absurd (Memᴰ.not-nil m))
visit_all-Step P z (e ∷ es) h p =
    let (one, hit) = visit-Step P z e (h e (Memᴰ.head refl)) (p e (Memᴰ.head refl)) in
    let (rest, hits) =
      visit_all-Step P (visit z e) es (λ x m. rw one.same_flags (h x (Memᴰ.tail m)))
        (λ x m. p x (Memᴰ.tail m)) in
    (
      Step-trans one rest,
      λ x m em.
          ⊎_elim
            (λ same. rest.marks x.target (
              subst (λ (y : NfaEdge). Marked (visit z e) y.target) (sym same)
                (hit (subst (λ (y : NfaEdge). is_empty y.on ≡ true) same em))))
            (λ m'. hits x m' em) (Memᴰ.cases_cons m),
    )
