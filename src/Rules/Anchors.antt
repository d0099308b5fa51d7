-- ===== src/Rules/Anchors.antt =====
-- `unwrap_anchors` of src/nfa.cpp beside the shapes of trees with ^ in front and $ behind.
use lex_cpp.Prelude.{◌≡◌, refl, sym, subst, ap, ◌∙◌, Bool, true, false, ◌⊎◌, inl, inr, ⊎_elim}
use lex_cpp.Regex.{
  Node, null, empty, class, concat, alt, star, plus, question, repeat, anchor_bol, anchor_eol,
  trail_boundary,
}
use lex_cpp.Regex.Meaning.{HasBytes}
use lex_cpp.Rules.{strip_bol, strip_eol, unwrap_anchors}

-- The tree starts with ^ and goes on with `r`, or it does not and is `r`.
abbrev pub StartsWithBol : Node → Bool → Node → Type 0
StartsWithBol root bol r =
    (bol ≡ true) × (root ≡ concat anchor_bol r)
    ⊎ (bol ≡ false) × (root ≡ r) × ((b : Node) → ¬ (root ≡ concat anchor_bol b))

-- The tree ends with $ behind `r`, or it does not and is `r`.
abbrev pub EndsWithEol : Node → Bool → Node → Type 0
EndsWithEol root eol r =
    (eol ≡ true) × (root ≡ concat r anchor_eol)
    ⊎ (eol ≡ false) × (root ≡ r) × ((a : Node) → ¬ (root ≡ concat a anchor_eol))

-- The tree is the body with the anchors that the flags say.
abbrev pub IsAnchored : Node → Bool → Bool → Node → Type 0
IsAnchored root bol eol body = (r : Node) × StartsWithBol root bol r × EndsWithEol r eol body

strip_bol-cases :
    (root : Node)
    → ((b : Node) × (root ≡ concat anchor_bol b) × (strip_bol root ≡ (b, true)))
      ⊎ (strip_bol root ≡ (root, false)) × ((b : Node) → ¬ (root ≡ concat anchor_bol b))
unfolding strip_bol
strip_bol-cases null = inr (refl, λ c e. cc)
strip_bol-cases empty = inr (refl, λ c e. cc)
strip_bol-cases (class a1) = inr (refl, λ c e. cc)
strip_bol-cases (concat null b) = inr (refl, λ c e. cc)
strip_bol-cases (concat empty b) = inr (refl, λ c e. cc)
strip_bol-cases (concat (class a1) b) = inr (refl, λ c e. cc)
strip_bol-cases (concat (concat a1 b1) b) = inr (refl, λ c e. cc)
strip_bol-cases (concat (alt a1 b1) b) = inr (refl, λ c e. cc)
strip_bol-cases (concat (star a1) b) = inr (refl, λ c e. cc)
strip_bol-cases (concat (plus a1) b) = inr (refl, λ c e. cc)
strip_bol-cases (concat (question a1) b) = inr (refl, λ c e. cc)
strip_bol-cases (concat (repeat a1 b1 c1) b) = inr (refl, λ c e. cc)
strip_bol-cases (concat anchor_bol b) = inl (b, refl, refl)
strip_bol-cases (concat anchor_eol b) = inr (refl, λ c e. cc)
strip_bol-cases (concat trail_boundary b) = inr (refl, λ c e. cc)
strip_bol-cases (alt a1 b1) = inr (refl, λ c e. cc)
strip_bol-cases (star a1) = inr (refl, λ c e. cc)
strip_bol-cases (plus a1) = inr (refl, λ c e. cc)
strip_bol-cases (question a1) = inr (refl, λ c e. cc)
strip_bol-cases (repeat a1 b1 c1) = inr (refl, λ c e. cc)
strip_bol-cases anchor_bol = inr (refl, λ c e. cc)
strip_bol-cases anchor_eol = inr (refl, λ c e. cc)
strip_bol-cases trail_boundary = inr (refl, λ c e. cc)

strip_eol-cases :
    (root : Node)
    → ((a : Node) × (root ≡ concat a anchor_eol) × (strip_eol root ≡ (a, true)))
      ⊎ (strip_eol root ≡ (root, false)) × ((a : Node) → ¬ (root ≡ concat a anchor_eol))
unfolding strip_eol
strip_eol-cases null = inr (refl, λ c e. cc)
strip_eol-cases empty = inr (refl, λ c e. cc)
strip_eol-cases (class a1) = inr (refl, λ c e. cc)
strip_eol-cases (concat a null) = inr (refl, λ c e. cc)
strip_eol-cases (concat a empty) = inr (refl, λ c e. cc)
strip_eol-cases (concat a (class a1)) = inr (refl, λ c e. cc)
strip_eol-cases (concat a (concat a1 b1)) = inr (refl, λ c e. cc)
strip_eol-cases (concat a (alt a1 b1)) = inr (refl, λ c e. cc)
strip_eol-cases (concat a (star a1)) = inr (refl, λ c e. cc)
strip_eol-cases (concat a (plus a1)) = inr (refl, λ c e. cc)
strip_eol-cases (concat a (question a1)) = inr (refl, λ c e. cc)
strip_eol-cases (concat a (repeat a1 b1 c1)) = inr (refl, λ c e. cc)
strip_eol-cases (concat a anchor_bol) = inr (refl, λ c e. cc)
strip_eol-cases (concat a anchor_eol) = inl (a, refl, refl)
strip_eol-cases (concat a trail_boundary) = inr (refl, λ c e. cc)
strip_eol-cases (alt a1 b1) = inr (refl, λ c e. cc)
strip_eol-cases (star a1) = inr (refl, λ c e. cc)
strip_eol-cases (plus a1) = inr (refl, λ c e. cc)
strip_eol-cases (question a1) = inr (refl, λ c e. cc)
strip_eol-cases (repeat a1 b1 c1) = inr (refl, λ c e. cc)
strip_eol-cases anchor_bol = inr (refl, λ c e. cc)
strip_eol-cases anchor_eol = inr (refl, λ c e. cc)
strip_eol-cases trail_boundary = inr (refl, λ c e. cc)

strip_bol-StartsWithBol : (root : Node) → StartsWithBol root (strip_bol root).1 (strip_bol root).0
strip_bol-StartsWithBol root =
    ⊎_elim (λ (b, e, s). inl (ap (λ p. p.1) s, e ∙ ap (λ p. concat anchor_bol p.0) (sym s)))
      (λ (s, other). inr (ap (λ p. p.1) s, ap (λ p. p.0) (sym s), other)) (strip_bol-cases root)

strip_eol-EndsWithEol : (root : Node) → EndsWithEol root (strip_eol root).1 (strip_eol root).0
strip_eol-EndsWithEol root =
    ⊎_elim (λ (a, e, s). inl (ap (λ p. p.1) s, e ∙ ap (λ p. concat p.0 anchor_eol) (sym s)))
      (λ (s, other). inr (ap (λ p. p.1) s, ap (λ p. p.0) (sym s), other)) (strip_eol-cases root)

pub unwrap_anchors-IsAnchored :
    (root : Node)
    → IsAnchored root (unwrap_anchors root).bol (unwrap_anchors root).eol (unwrap_anchors root).body
unfolding unwrap_anchors
unwrap_anchors-IsAnchored root =
    ((strip_bol root).0, strip_bol-StartsWithBol root, strip_eol-EndsWithEol (strip_bol root).0)

-- A tree is the body with the anchors in one way.
StartsWithBol-unique :
    (root : Node) (b b' : Bool) (r r' : Node)
    → StartsWithBol root b r
    → StartsWithBol root b' r'
    → (b ≡ b') × (r ≡ r')
StartsWithBol-unique root b b' r r' =
    ⊎_elim
      (λ (t, e).
        ⊎_elim (λ (t', e'). (t ∙ sym t', concat_snd (sym e ∙ e')))
          (λ (_, _, other). absurd (other r e)))
      (λ (t, e, other).
        ⊎_elim (λ (_, e'). absurd (other r' e')) (λ (t', e', _). (t ∙ sym t', sym e ∙ e')))
  where
    concat_snd : {x y : Node} → concat anchor_bol x ≡ concat anchor_bol y → x ≡ y
    concat_snd e = cc

EndsWithEol-unique :
    (root : Node) (b b' : Bool) (r r' : Node)
    → EndsWithEol root b r
    → EndsWithEol root b' r'
    → (b ≡ b') × (r ≡ r')
EndsWithEol-unique root b b' r r' =
    ⊎_elim
      (λ (t, e).
        ⊎_elim (λ (t', e'). (t ∙ sym t', concat_fst (sym e ∙ e')))
          (λ (_, _, other). absurd (other r e)))
      (λ (t, e, other).
        ⊎_elim (λ (_, e'). absurd (other r' e')) (λ (t', e', _). (t ∙ sym t', sym e ∙ e')))
  where
    concat_fst : {x y : Node} → concat x anchor_eol ≡ concat y anchor_eol → x ≡ y
    concat_fst e = cc

-- So the source finds the anchors that the tree has.
pub IsAnchored-unwrap_anchors :
    (root : Node) (bol eol : Bool) (body : Node)
    → IsAnchored root bol eol body
    → ((unwrap_anchors root).bol ≡ bol)
      × ((unwrap_anchors root).eol ≡ eol)
      × ((unwrap_anchors root).body ≡ body)
IsAnchored-unwrap_anchors root bol eol body (r, start, end) =
    let (r', start', end') = unwrap_anchors-IsAnchored root in
    let (b, same) = StartsWithBol-unique root _ bol r' r start' start in
    let (e, same') =
      EndsWithEol-unique r _ eol _ body
        (subst (λ x. EndsWithEol x (unwrap_anchors root).eol (unwrap_anchors root).body) same end')
        end in
    (b, e, same')

-- The body has no empty class if the tree has none.
pub IsAnchored-HasBytes :
    (root : Node) (bol eol : Bool) (body : Node)
    → IsAnchored root bol eol body
    → HasBytes root
    → HasBytes body
IsAnchored-HasBytes root bol eol body (r, start, end) h =
    let h' = ⊎_elim (λ (_, e). (subst HasBytes e h).1) (λ (_, e, _). subst HasBytes e h) start in
    ⊎_elim (λ (_, e). (subst HasBytes e h').0) (λ (_, e, _). subst HasBytes e h') end
