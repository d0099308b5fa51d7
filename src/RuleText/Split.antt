-- ===== src/RuleText/Split.antt =====
-- What `read_pattern` of src/source.cpp takes and leaves.
use lex_cpp.Prelude.{
  ℕ, ◌≡◌, ◌≢◌, refl, sym, ap, subst, ◌∙◌, ⊎_elim, ◌⊎◌, inl, inr, Bool, true, false, Bool-cases, [],
  ◌∷◌, ◌++◌, append_assoc, subst₂, arith, if_both, ◌==◌, ==_iff, ◌&&◌,
}
use lex_cpp.Chars.{Text}
use lex_cpp.Pattern.{Mode, outside, in_class, in_quoted}
use lex_cpp.Pattern.Scan.{
  Reads, nothing, escape, open_class, close_class, class_byte, open_quote, close_quote, quoted_byte,
  open_group, close_group, plain_byte, ReadsAll, ReadsOut,
}
use lex_cpp.RuleText.{
  PatternTurn, stop_here, both_bytes, one_byte, ends_pattern, pattern_turn, put_before,
  pattern_from, read_pattern,
}

-- A blank, a tab or a newline.
abbrev pub IsBlank : ℕ → Type 0
IsBlank c = (c ≡ 32) ⊎ (c ≡ 9) ⊎ (c ≡ 10)

-- What is read behind a turn that takes one byte.
abbrev Goes : Text → Mode → ℕ → PatternTurn → Type 0
Goes s m' d' (one_byte m d) = Reads IsBlank m d s m' d'
Goes s m' d' _ = ⊥

class_turn-Reads :
    (h : Bool) (d c : ℕ) (s : Text) (m' : Mode) (d' : ℕ)
    → c ≢ 92
    → Goes s m' d' (pattern_turn h in_class d c)
    → Reads IsBlank in_class d (c ∷ s) m' d'
unfolding pattern_turn
class_turn-Reads h d c s m' d' other =
    if_both (λ t. Goes s m' d' t → Reads IsBlank in_class d (c ∷ s) m' d') (c == 92 && h)
      (λ _ g. absurd g)
      (λ _.
        if_both (λ m. Reads IsBlank m d s m' d' → Reads IsBlank in_class d (c ∷ s) m' d') (c == 93)
          (λ e g.
            subst (λ b. Reads IsBlank in_class d (b ∷ s) m' d') (sym ((==_iff c 93).0 e))
              (close_class m' d d' s g))
          (λ e g. class_byte m' d d' c s other (ground arith) g))

quoted_turn-Reads :
    (h : Bool) (d c : ℕ) (s : Text) (m' : Mode) (d' : ℕ)
    → c ≢ 92
    → Goes s m' d' (pattern_turn h in_quoted d c)
    → Reads IsBlank in_quoted d (c ∷ s) m' d'
unfolding pattern_turn
quoted_turn-Reads h d c s m' d' other =
    if_both (λ t. Goes s m' d' t → Reads IsBlank in_quoted d (c ∷ s) m' d') (c == 92 && h)
      (λ _ g. absurd g)
      (λ _.
        if_both (λ m. Reads IsBlank m d s m' d' → Reads IsBlank in_quoted d (c ∷ s) m' d') (c == 34)
          (λ e g.
            subst (λ b. Reads IsBlank in_quoted d (b ∷ s) m' d') (sym ((==_iff c 34).0 e))
              (close_quote m' d d' s g))
          (λ e g. quoted_byte m' d d' c s other (ground arith) g))

outside_turn-Reads :
    (h : Bool) (d c : ℕ) (s : Text) (m' : Mode) (d' : ℕ)
    → c ≢ 92
    → Goes s m' d' (pattern_turn h outside d c)
    → Reads IsBlank outside d (c ∷ s) m' d'
unfolding pattern_turn
outside_turn-Reads h d c s m' d' other =
    let P : PatternTurn → Type 0 = λ t. Goes s m' d' t → Reads IsBlank outside d (c ∷ s) m' d' in
    let at = λ (b : ℕ) (e : (c == b) ≡ true) (g : Reads IsBlank outside d (b ∷ s) m' d').
      subst (λ b'. Reads IsBlank outside d (b' ∷ s) m' d') (sym ((==_iff c b).0 e)) g in
    if_both P (d == 0 && ends_pattern c) (λ _ g. absurd g)
      (λ e0.
        if_both P (c == 92 && h) (λ _ g. absurd g)
          (λ _.
            if_both P (c == 34) (λ e g. at 34 e (open_quote m' d d' s g))
              (λ e1.
                if_both P (c == 91) (λ e g. at 91 e (open_class m' d d' s g))
                  (λ e2.
                    if_both P (c == 40) (λ e g. at 40 e (open_group m' d d' s g))
                      (λ e3.
                        if_both P (c == 41) (λ e g. at 41 e (close_group m' d d' s g))
                          (λ e4 g.
                            plain_byte m' d d' c s
                              (other, ground arith, ground arith, ground arith, ground arith)
                              (λ z. ground (arith, z, e0)) g))))))

turn-Reads :
    (h : Bool) (m : Mode) (d c : ℕ) (s : Text) (m' : Mode) (d' : ℕ)
    → c ≢ 92
    → Goes s m' d' (pattern_turn h m d c)
    → Reads IsBlank m d (c ∷ s) m' d'
turn-Reads h outside d c s m' d' = outside_turn-Reads h d c s m' d'
turn-Reads h in_class d c s m' d' = class_turn-Reads h d c s m' d'
turn-Reads h in_quoted d c s m' d' = quoted_turn-Reads h d c s m' d'

PatternTurn-cases :
    (t : PatternTurn)
    → (t ≡ stop_here) ⊎ (t ≡ both_bytes) ⊎ (m : Mode) × (k : ℕ) × (t ≡ one_byte m k)
PatternTurn-cases stop_here = inl refl
PatternTurn-cases both_bytes = inr (inl refl)
PatternTurn-cases (one_byte m k) = inr (inr (m, k, refl))

turn-stop :
    (h : Bool) (m : Mode) (k c : ℕ)
    → pattern_turn h m k c ≡ stop_here
    → (m ≡ outside) × (k ≡ 0) × IsBlank c
unfolding pattern_turn
turn-stop h outside k c e = (refl, ground arith, ground arith)
turn-stop h in_class k c e = ground arith
turn-stop h in_quoted k c e = ground arith

turn-both : (h : Bool) (m : Mode) (k c : ℕ) → pattern_turn h m k c ≡ both_bytes → c ≡ 92
unfolding pattern_turn
turn-both h outside k c e = ground arith
turn-both h in_class k c e = ground arith
turn-both h in_quoted k c e = ground arith

turn-one :
    (m : Mode) (k c : ℕ) (m' : Mode) (k' : ℕ) → pattern_turn true m k c ≡ one_byte m' k' → c ≢ 92
unfolding pattern_turn
turn-one outside k c m' k' e z = ground arith
turn-one in_class k c m' k' e z = ground arith
turn-one in_quoted k c m' k' e z = ground arith

-- The two parts make up the text. Either nothing is left and no blank of the pattern ends it, or what
-- is left starts with the first blank outside of everything.
abbrev pub Splits : Mode → ℕ → Text → Text × Text → Type 0
Splits m k s (p, rest) =
    (p ++ rest ≡ s)
    × ((rest ≡ []) × ReadsAll IsBlank m k p
        ⊎ (c : ℕ) × (t : Text) × (rest ≡ c ∷ t) × IsBlank c × ReadsOut IsBlank m k p)

-- A byte, or two, before what is split.
longer :
    (m m' : Mode) (k k' : ℕ) (front s : Text) (r : Text × Text)
    → ((q : Text) (n : Mode) (d : ℕ)
        → Reads IsBlank m' k' q n d
        → Reads IsBlank m k (front ++ q) n d)
    → Splits m' k' s r
    → Splits m k (front ++ s) (front ++ r.0, r.1)
longer m m' k k' front s (p, rest) more (e, h) = (
  append_assoc front p rest ∙ ap (λ t. front ++ t) e,
  ⊎_elim
      (λ (nil, (n, d, q, same, reads)). inl (
        nil,
        (
          n,
          d,
          front ++ q,
          ⊎_elim (λ z. inl (ap (λ t. front ++ t) z))
              (λ z. inr (ap (λ t. front ++ t) z ∙ sym (append_assoc front q (92 ∷ [])))) same,
          more q n d reads,
        ),
      ))
      (λ (c, t, same, blank, reads). inr (c, t, same, blank, more p outside 0 reads)) h,
)

stop-Splits :
    (h : Bool) (m : Mode) (k c : ℕ) (s : Text)
    → pattern_turn h m k c ≡ stop_here
    → Splits m k (c ∷ s) ([], c ∷ s)
stop-Splits h m k c s e =
    let (out, zero, blank) = turn-stop h m k c e in
    (
      refl,
      inr (
        c,
        s,
        refl,
        blank,
        subst₂ (λ m' k'. Reads IsBlank m' k' [] outside 0) (sym out) (sym zero) (nothing outside 0),
      ),
    )

-- One byte is left.
last-Splits :
    (m m' : Mode) (k k' c : ℕ)
    → pattern_turn false m k c ≡ one_byte m' k'
    → Splits m k (c ∷ []) (c ∷ [], [])
last-Splits m m' k k' c e = (
  refl,
  inl (
    refl,
    elim (Bool-cases (c == 92)) [
      | inl z ↦ (m, k, [], inr (ap (λ b. b ∷ []) ((==_iff c 92).0 z)), nothing m k)
      | inr z ↦ (
        m',
        k',
        c ∷ [],
        inl refl,
        turn-Reads false m k c [] m' k' (ground arith)
            (subst (Goes [] m' k') (sym e) (nothing m' k')),
      )
    ],
  ),
)

turn-both_next : (m : Mode) (k c : ℕ) → pattern_turn false m k c ≡ both_bytes → ⊥
unfolding pattern_turn
turn-both_next outside k c e = ground arith
turn-both_next in_class k c e = ground arith
turn-both_next in_quoted k c e = ground arith

pattern_from-Splits : (m : Mode) (k : ℕ) (s : Text) → Splits m k s (pattern_from m k s)
unfolding pattern_from put_before
pattern_from-Splits m k [] = (refl, inl (refl, (m, k, [], inl refl, nothing m k)))
pattern_from-Splits m k (c ∷ []) = elim (PatternTurn-cases (pattern_turn false m k c)) [
  | inl e ↦ rw (e, pattern_from) (stop-Splits false m k c [] e)
  | inr (inl e) ↦ absurd (turn-both_next m k c e)
  | inr (inr (m', k', e)) ↦ rw (e, pattern_from) (last-Splits m m' k k' c e)
]
pattern_from-Splits m k (c ∷ d ∷ s) = elim (PatternTurn-cases (pattern_turn true m k c)) [
  | inl e ↦ rw (e, pattern_from) (stop-Splits true m k c (d ∷ s) e)
  | inr (inl e) ↦
      rw (e, pattern_from)
        (longer m m k k (c ∷ d ∷ []) s (pattern_from m k s)
          (λ q n j r.
            subst (λ b. Reads IsBlank m k (b ∷ d ∷ q) n j) (sym (turn-both true m k c e))
              (escape m n k j d q r))
          (pattern_from-Splits m k s))
  | inr (inr (m', k', e)) ↦
      rw (e, pattern_from)
        (longer m m' k k' (c ∷ []) (d ∷ s) (pattern_from m' k' (d ∷ s))
          (λ q n j r.
            turn-Reads true m k c q n j (turn-one m k c m' k' e) (subst (Goes q n j) (sym e) r))
          (pattern_from-Splits m' k' (d ∷ s)))
]

pub read_pattern-Splits : (s : Text) → Splits outside 0 s (read_pattern s)
unfolding read_pattern
read_pattern-Splits s = pattern_from-Splits outside 0 s
