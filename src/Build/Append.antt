-- ===== src/Build/Append.antt =====
-- `get_state` of `build_dfa` in src/dfa.cpp keeps the table when it adds a set.
use lex_cpp.Prelude.{
  ℕ, suc, ◌+◌, ◌<◌, ◌≡◌, refl, sym, ap, subst, ◌∙◌, ⊎_elim, List, [], ◌∷◌, ◌++◌, length,
  length-append, length-replicate, get_or, get_or-append_left, none, some, arith, Memᴰ, Memᴰ-concat,
}
use lex_cpp.Rules.{Nfa}
use lex_cpp.Dfa.{StateSet}
use lex_cpp.Dfa.Step.{IsStateSet}
use lex_cpp.Build.{DfaState, dead_state}
use lex_cpp.Build.Index.{numbered-concat}
use lex_cpp.Build.Table.{
  row, entry, set_at, IsLabelled, fresh, get_or-last, get_or-replicate, IsDistinct-concat, Leads,
  Table, Extends-concat, Leads-Extends, last_or,
}

-- `get_state` keeps the table when it adds a set.
module _ (nfa : Nfa) (n : ℕ) (reps : List ℕ) (sts : List DfaState) (index : List (StateSet × ℕ))
    (sets : List StateSet) (ss : StateSet) (t : Table nfa n reps sts index sets) where
  abbrev sts' : List DfaState
  sts' = sts ++ fresh nfa n ss ∷ []

  abbrev sets' : List StateSet
  sets' = sets ++ ss ∷ []

  pub row-old : (i : ℕ) → i < length sets → row sts' i ≡ row sts i
  row-old i h =
      get_or-append_left sts (fresh nfa n ss ∷ []) (suc i) (dead_state 0) (omega (arith, t.many))

  row-new : row sts' (length sets) ≡ fresh nfa n ss
  row-new =
      ap (λ k. get_or sts' k (dead_state 0)) (sym t.many)
      ∙ get_or-last sts (fresh nfa n ss) (dead_state 0)

  -- A property of each row, of the old ones and of the new one.
  rows_both :
      (P : DfaState → StateSet → Type 0)
      → ((i : ℕ) → i < length sets → P (row sts i) (set_at sets i))
      → P (fresh nfa n ss) ss
      → (i : ℕ) → i < length sets'
      → P (row sts' i) (set_at sets' i)
  rows_both P old new i h =
      ⊎_elim
        (λ lt.
          subst (λ r. P r (set_at sets' i)) (sym (row-old i lt))
            (subst (P (row sts i)) (sym ((Extends-concat sets ss).1 i lt)) (old i lt)))
        (λ e.
          subst (λ k. P (row sts' k) (set_at sets' k)) (sym e)
            (subst (λ r. P r (set_at sets' (length sets))) (sym row-new)
              (subst (P (fresh nfa n ss)) (sym (get_or-last sets ss [])) new)))
        (last_or i (length sets) (omega (arith, length-append {0} sets (ss ∷ []))))

  pub Table-concat :
      IsStateSet nfa.states ss
      → (Memᴰ ss sets → ⊥)
      → Table nfa n reps sts' (index ++ (ss, length sts) ∷ []) sets'
  Table-concat isset new = record {
    index_lem =
        ap (λ m. index ++ (ss, m) ∷ []) (one_more (length sets) t.many)
        ∙ ap (λ m. m ++ (ss, 1 + length sets) ∷ []) t.index_lem
        ∙ sym (numbered-concat 1 sets ss);
    many = omega (
      arith,
      t.many,
      length-append {0} sts (fresh nfa n ss ∷ []),
      length-append {0} sets (ss ∷ []),
    );
    first =
        get_or-append_left sts (fresh nfa n ss ∷ []) 0 (dead_state 0) (omega (arith, t.many))
        ∙ t.first;
    distinct = IsDistinct-concat sets ss t.distinct new;
    are_sets = λ s m.
        ⊎_elim (t.are_sets s) (λ e. subst (IsStateSet nfa.states) (sym e) isset)
          ((Memᴰ-concat s ss sets).0 m);
    wide = rows_both (λ r s. length r.next ≡ n) t.wide (length-replicate n none);
    labels =
        rows_both (IsLabelled nfa) t.labels
          (record { normal = refl; eol = refl; list = refl; boundary = refl });
    sound = λ i c.
        rows_both (λ r s. Leads nfa.states sets' s (get_or reps c 256) (get_or r.next c none))
          (λ k h.
            Leads-Extends nfa.states sets sets' (set_at sets k) (get_or reps c 256) (entry sts k c)
              (Extends-concat sets ss) (t.sound k c h))
          (λ q e. absurd (clash (sym (get_or-replicate n c none) ∙ e))) i;
  }
    where
      clash : {q : ℕ} → none ≡ some q → ⊥
      clash e = cc

      one_more : (k : ℕ) {m : ℕ} → m ≡ suc k → m ≡ 1 + k
      one_more k e = omega arith
