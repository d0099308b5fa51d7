-- ===== src/Codegen/Labels.antt =====
-- The case labels that src/codegen.cpp gives the rules, and the numbers that src/main.cpp gives them.
use lex_cpp.Prelude.{
  ℕ, zero, suc, ◌+◌, ◌≤◌, ◌<◌, ◌≡◌, ◌↔◌, refl, sym, ap, subst, ◌∙◌, ⊎_elim, inl, inr, ◌⊎◌, List, [],
  ◌∷◌, get_or, Option, none, some, arith, Bool, true, false, Bool-cases,
}
use lex_cpp.Regex.Language.{Bytes}
use lex_cpp.CharClass.{Message}
use lex_cpp.Chars.{Text}
use lex_cpp.LexFile.{LexFile, Rule}
use lex_cpp.Driver.{Context, context_of}
use lex_cpp.Driver.Selects.{Selects}
use lex_cpp.Driver.Correct.{SelectsIn, names_of, flags_of}
use lex_cpp.Codegen.{RuleMap, number_rules, make_rule_map}

abbrev ids : ℕ → List Rule → List (Option ℕ)
ids total rs = (number_rules total rs).nfa_id

-- The first rule of a list, by its flag.
first_rule : Bool → ℕ → List Rule → RuleMap
first_rule true total rs = let m = number_rules total rs in record m { nfa_id = none ∷ m.nfa_id }
first_rule false total rs =
    let m = number_rules (total + 1) rs in record m { nfa_id = some total ∷ m.nfa_id }

number_rules-cons :
    (total : ℕ) (r : Rule) (rs : List Rule)
    → number_rules total (r ∷ rs) ≡ first_rule r.eof total rs
unfolding number_rules first_rule
number_rules-cons total r rs = elim (Bool-cases r.eof) [ inl t ↦ rw (t) refl | inr f ↦ rw (f) refl ]

ids-eof :
    (total : ℕ) (r : Rule) (rs : List Rule)
    → r.eof ≡ true
    → ids total (r ∷ rs) ≡ none ∷ ids total rs
unfolding first_rule
ids-eof total r rs t =
    ap (λ (m : RuleMap). m.nfa_id)
      (number_rules-cons total r rs ∙ ap (λ b. first_rule b total rs) t)

ids-rule :
    (total : ℕ) (r : Rule) (rs : List Rule)
    → r.eof ≡ false
    → ids total (r ∷ rs) ≡ some total ∷ ids (total + 1) rs
unfolding first_rule
ids-rule total r rs f =
    ap (λ (m : RuleMap). m.nfa_id)
      (number_rules-cons total r rs ∙ ap (λ b. first_rule b total rs) f)

total-eof :
    (total : ℕ) (r : Rule) (rs : List Rule)
    → r.eof ≡ true
    → (number_rules total (r ∷ rs)).total_nfa_rules ≡ (number_rules total rs).total_nfa_rules
unfolding first_rule
total-eof total r rs t =
    ap (λ (m : RuleMap). m.total_nfa_rules)
      (number_rules-cons total r rs ∙ ap (λ b. first_rule b total rs) t)

total-rule :
    (total : ℕ) (r : Rule) (rs : List Rule)
    → r.eof ≡ false
    → (number_rules total (r ∷ rs)).total_nfa_rules ≡ (number_rules (total + 1) rs).total_nfa_rules
unfolding first_rule
total-rule total r rs f =
    ap (λ (m : RuleMap). m.total_nfa_rules)
      (number_rules-cons total r rs ∙ ap (λ b. first_rule b total rs) f)

-- Rule `i` has the number `k`.
abbrev pub HasNumber : List (Option ℕ) → ℕ → ℕ → Type 0
HasNumber l i k = get_or l i none ≡ some k

clash : {k : ℕ} → none ≡ some k → ⊥
clash e = cc

some_eq : {a b : ℕ} → some a ≡ some b → a ≡ b
some_eq e = cc

-- What has a number behind a first entry.
none-cons :
    (l : List (Option ℕ)) (i k : ℕ)
    → HasNumber (none ∷ l) i k
    → (j : ℕ) × (i ≡ suc j) × HasNumber l j k
none-cons l zero k e = absurd (clash e)
none-cons l (suc j) k e = (j, refl, e)

some-cons :
    (l : List (Option ℕ)) (t i k : ℕ)
    → HasNumber (some t ∷ l) i k
    → ((i ≡ 0) × (t ≡ k)) ⊎ (j : ℕ) × (i ≡ suc j) × HasNumber l j k
some-cons l t zero k e = inl (refl, some_eq e)
some-cons l t (suc j) k e = inr (j, refl, e)

-- A number that is given is one from `total` on, below the total of all rules, and is given once.
record AreNumbers (total : ℕ) (rs : List Rule) : Type 0 where
  below :
      (i k : ℕ)
      → HasNumber (ids total rs) i k
      → (total ≤ k) × (k < (number_rules total rs).total_nfa_rules)
  more : total ≤ (number_rules total rs).total_nfa_rules
  once : (i j k : ℕ) → HasNumber (ids total rs) i k → HasNumber (ids total rs) j k → i ≡ j

ids-AreNumbers : (rs : List Rule) (total : ℕ) → AreNumbers total rs
unfolding number_rules
ids-AreNumbers [] total = record {
  below = λ i k e. absurd (clash e);
  more = omega arith;
  once = λ i j k e. absurd (clash e);
}
ids-AreNumbers (r ∷ rs) total = elim (Bool-cases r.eof) [
  | inl t ↦
      let h = ids-AreNumbers rs total in
      let behind = λ (i k : ℕ) (e : HasNumber (ids total (r ∷ rs)) i k).
        none-cons (ids total rs) i k (subst (λ l. HasNumber l i k) (ids-eof total r rs t) e) in
      record {
        below = λ i k e.
            let (j, _, e') = behind i k e in
            let (a, b) = h.below j k e' in (a, omega (arith, b, total-eof total r rs t));
        more = omega (arith, h.more, total-eof total r rs t);
        once = λ i j k e e'.
            let (i', a, m) = behind i k e in
            let (j', b, m') = behind j k e' in omega (arith, a, b, h.once i' j' k m m');
      }
  | inr f ↦
      let h = ids-AreNumbers rs (total + 1) in
      let behind = λ (i k : ℕ) (e : HasNumber (ids total (r ∷ rs)) i k).
        some-cons (ids (total + 1) rs) total i k
          (subst (λ l. HasNumber l i k) (ids-rule total r rs f) e) in
      let all = total-rule total r rs f in
      record {
        below = λ i k e.
            ⊎_elim (λ (_, same). (omega (arith, same), omega (arith, same, h.more, all)))
              (λ (j, _, e').
                let (a, b) = h.below j k e' in (omega (arith, a), omega (arith, b, all)))
              (behind i k e);
        more = omega (arith, h.more, all);
        once = λ i j k e e'.
            ⊎_elim
              (λ (a, same).
                ⊎_elim (λ (b, _). a ∙ sym b)
                  (λ (j', _, m). absurd (omega (arith, same, (h.below j' k m).0))) (behind j k e'))
              (λ (i', a, m).
                ⊎_elim (λ (_, same). absurd (omega (arith, same, (h.below i' k m).0)))
                  (λ (j', b, m'). omega (arith, a, b, h.once i' j' k m m')) (behind j k e'))
              (behind i k e);
      }
]

-- A selected rule has the number that the driver gives it.
Selects-HasNumber :
    (x : Context) (names : List Text) (excl : List Bool) (q : ℕ) (w : Bytes) (eol : Bool)
    (rs : List Rule) (ms : List Message) (i total j k : ℕ)
    → Selects x names excl q w eol ms i total rs j k
    → (d : ℕ) × (j ≡ i + d) × HasNumber (ids total rs) d k
unfolding number_rules
Selects-HasNumber x names excl q w eol [] ms i total j k s = absurd s
Selects-HasNumber x names excl q w eol (r ∷ rs) ms i total j k s =
    ⊎_elim
      (λ (t, s').
        let (d, at, e) = Selects-HasNumber x names excl q w eol rs ms (i + 1) total j k s' in
        (suc d, omega (arith, at), ap (λ l. get_or l (suc d) none) (ids-eof total r rs t) ∙ e))
      (λ (f, pp, ms', _, s').
        ⊎_elim
          (λ (at, num, _). (
            0,
            omega (arith, at),
            ap (λ l. get_or l 0 none) (ids-rule total r rs f) ∙ ap some (sym num),
          ))
          (λ later.
            let (d, at, e) =
              Selects-HasNumber x names excl q w eol rs ms' (i + 1) (total + 1) j k later in
            (suc d, omega (arith, at), ap (λ l. get_or l (suc d) none) (ids-rule total r rs f) ∙ e))
          s')
      s

-- Where rule j of a file is selected and has the number k by the driver, the generated switch has
-- the case label k for the rule j and for no other rule, and k is below the total of the labels.
pub make_rule_map-label :
    (fuel : ℕ) (f : LexFile) (q : ℕ) (w : Bytes) (eol : Bool) (j k : ℕ)
    → SelectsIn fuel f q w eol j k
    → ((i : ℕ) → HasNumber (make_rule_map f).nfa_id i k ↔ (i ≡ j))
      × (k < (make_rule_map f).total_nfa_rules)
unfolding make_rule_map
make_rule_map-label fuel f q w eol j k s =
    let (d, at, e) =
      Selects-HasNumber (context_of fuel f f.options.case_insensitive) (names_of f) (flags_of f) q w
        eol f.rules [] 0 0 j k s in
    let h = ids-AreNumbers f.rules 0 in
    (
      λ i. (
        λ e'. omega (arith, at, h.once i d k e' e),
        λ same. subst (λ m. HasNumber (ids 0 f.rules) m k) (omega (arith, at, same)) e,
      ),
      (h.below d k e).1,
    )
