-- ===== src/Nfa/Repeat.antt =====
-- Counted repetition: `compile_repeat` of src/nfa.cpp.
use lex_cpp.Prelude.{
  ℕ, zero, suc, ◌+◌, ◌-◌, ◌≤◌, max, ◌≡◌, refl, subst, [], Bool-cases, inl, inr, ⊎_elim, arith, ◌==◌,
  ==_iff, leb, if◌then◌else◌, Option, none, some, ◌≢◌,
}
use lex_cpp.Regex.{k_inf}
use lex_cpp.Regex.Language.{
  Lang, Eps, Cat, Or, Star, Pow, Includes, ◌~◌, Cat_mono_left, Cat_assoc_left, Cat_assoc_right,
  Eps-Cat, Cat-Eps, Cat-Eps_left, Cat-Eps_right, Pow-Star, Star-Pow, Pow-Cat, Cat-Pow, Pow-Or,
  Or-Pow,
}
use lex_cpp.Regex.Meaning.{Counts}
use lex_cpp.Nfa.{
  States, Frag, Compiler, compile_concat, compile_empty, append, append_copies, finish_repeat,
  compile_starred, compile_optional, compile_repeat,
}
use lex_cpp.Nfa.Fragment.{IsFrag}
use lex_cpp.Nfa.Pieces.{compile_empty-IsFrag, compile_star-IsFrag, compile_question-IsFrag}
use lex_cpp.Nfa.Join.{concat-IsFrag}

-- The language of a fragment may be given in another form.
pub IsFrag-~ :
    {n0 n1 : States} {f : Frag} {A B : Lang} → A ~ B → IsFrag n0 n1 f A → IsFrag n0 n1 f B
IsFrag-~ (ab, ba) fa = record {
  region = fa.region;
  s_lo = fa.s_lo;
  s_hi = fa.s_hi;
  e_lo = fa.e_lo;
  e_hi = fa.e_hi;
  labels = λ K.
      let la = fa.labels K in
      record {
        at = la.at;
        ends = la.ends;
        starts = λ w x. Cat_mono_left ab w (la.starts w x);
        flows = la.flows;
      };
  runs = λ w b. fa.runs w (ba w b);
}

-- What has been appended so far: nothing yet, or one fragment.
data IsHead (n0 n : States) (A : Lang) : Option Frag → Type 1 where
  nothing : n ≡ n0 → A ~ Eps → IsHead n0 n A none
  piece : {f : Frag} → IsFrag n0 n f A → IsHead n0 n A (some f)

abbrev pub Compiles : Compiler → Lang → Type 1
Compiles body A = (ns : States) → IsFrag ns (body ns).0 (body ns).1 A

append-IsHead :
    {n0 n n1 : States} {A B : Lang} {f : Frag} {head : Option Frag}
    → IsHead n0 n A head
    → IsFrag n n1 f B
    → IsHead n0 (append n1 head f).0 (Cat A B) (append n1 head f).1
unfolding append compile_concat
append-IsHead {n1} {A} {B} {f} (nothing e (ab, ba)) fb = piece (
    IsFrag-~ (λ w b. ([], w, refl, ba [] refl, b), λ w x. Eps-Cat w (Cat_mono_left ab w x))
      (subst (λ m. IsFrag m n1 f B) e fb))
append-IsHead {n0} {n} {n1} {A} {B} {f} (piece {f = h} fa) fb =
    piece (concat-IsFrag n0 n n1 h f A B fa fb)

abbrev Then : Lang → Lang → ℕ → Lang
Then A B zero = A
Then A B (suc k) = Then (Cat A B) B k

append_copies-IsHead :
    {n0 : States} {B : Lang} (body : Compiler)
    → Compiles body B
    → (k : ℕ) (n : States) (A : Lang) (head : Option Frag) → IsHead n0 n A head
    → IsHead n0 (append_copies body k (n, head)).0 (Then A B k) (append_copies body k (n, head)).1
unfolding append_copies
append_copies-IsHead body c zero n A head h = h
append_copies-IsHead {B} body c (suc k) n A head h =
    append_copies-IsHead body c k _ (Cat A B) _ (append-IsHead h (c n))

Then~Cat : (A B : Lang) (k : ℕ) → Then A B k ~ Cat A (Pow B k)
Then~Cat A B zero = (Cat-Eps_right, Cat-Eps)
Then~Cat A B (suc k) =
    let (to, of) = Then~Cat (Cat A B) B k in
    (λ w x. Cat_assoc_right w (to w x), λ w x. of w (Cat_assoc_left w x))

finish-IsFrag :
    {n0 : States} {A : Lang} (n : States) (head : Option Frag)
    → IsHead n0 n A head
    → IsFrag n0 (finish_repeat (n, head)).0 (finish_repeat (n, head)).1 A
unfolding finish_repeat
finish-IsFrag {A} n none (nothing e (ab, ba)) =
    subst (λ m. IsFrag m (compile_empty n).0 (compile_empty n).1 A) e
      (IsFrag-~ (ba, ab) (compile_empty-IsFrag n))
finish-IsFrag n (some f) (piece fa) = fa

-- The words of `A` as often as the counts allow.
abbrev pub Repeated : Lang → ℕ → ℕ → Lang
Repeated A lo hi w = (k : ℕ) × Counts lo hi k × Pow A k w

Then_none~Pow : (A : Lang) (lo : ℕ) → Then Eps A lo ~ Pow A lo
Then_none~Pow A lo =
    let (to, of) = Then~Cat Eps A lo in (λ w x. Eps-Cat w (to w x), λ w x. of w (Cat-Eps_left w x))

-- `lo` copies and a star, one copy of it.
unbounded~ :
    (A : Lang) (lo hi : ℕ) → hi ≡ k_inf → Then (Then Eps A lo) (Star A) 1 ~ Repeated A lo hi
unbounded~ A lo hi e = (to, of)
  where
    to : Includes (Then (Then Eps A lo) (Star A) 1) (Repeated A lo hi)
    to w x =
        let (u, v, e', p, s) = Cat_mono_left (Then_none~Pow A lo).0 w x in
        let (k, q) = Star-Pow A v s in
        (lo + k, (omega arith, inl e), Pow-Cat A lo k w (u, v, e', p, q))

    of : Includes (Repeated A lo hi) (Then (Then Eps A lo) (Star A) 1)
    of w (k, (h, c), p) =
        let sum : k ≡ lo + (k - lo) = omega arith in
        let (u, v, e', p1, p2) = Cat-Pow A lo (k - lo) w (subst (λ m. Pow A m w) sum p) in
        (u, v, e', (Then_none~Pow A lo).1 u p1, Pow-Star A (k - lo) v p2)

-- `lo` copies and `m` optional ones.
bounded~ :
    (A : Lang) (lo hi m : ℕ)
    → hi ≢ k_inf
    → lo + m ≡ max lo hi
    → Then (Then Eps A lo) (Or A Eps) m ~ Repeated A lo hi
bounded~ A lo hi m ne len = (to, of)
  where
    to : Includes (Then (Then Eps A lo) (Or A Eps) m) (Repeated A lo hi)
    to w x =
        let (u, v, e', p, s) =
          Cat_mono_left (Then_none~Pow A lo).0 w ((Then~Cat (Then Eps A lo) (Or A Eps) m).0 w x) in
        let (k, h, q) = Pow-Or A m v s in
        (lo + k, (omega arith, inr (ne, omega arith)), Pow-Cat A lo k w (u, v, e', p, q))

    of : Includes (Repeated A lo hi) (Then (Then Eps A lo) (Or A Eps) m)
    of w (k, (h, c), p) =
        let sum : k ≡ lo + (k - lo) = omega arith in
        let le : k ≤ max lo hi = ⊎_elim (λ e. absurd (ne e)) (λ q. q.1) c in
        let (u, v, e', p1, p2) = Cat-Pow A lo (k - lo) w (subst (λ i. Pow A i w) sum p) in
        (Then~Cat (Then Eps A lo) (Or A Eps) m).1 w
          (u, v, e', (Then_none~Pow A lo).1 u p1, Or-Pow A m (k - lo) v (omega arith) p2)

starred-Compiles :
    {A : Lang} (body : Compiler) → Compiles body A → Compiles (compile_starred body) (Star A)
unfolding compile_starred
starred-Compiles {A} body c ns = compile_star-IsFrag ns (body ns).0 (body ns).1 A (c ns)

optional-Compiles :
    {A : Lang} (body : Compiler) → Compiles body A → Compiles (compile_optional body) (Or A Eps)
unfolding compile_optional
optional-Compiles {A} body c ns = compile_question-IsFrag ns (body ns).0 (body ns).1 A (c ns)

pub compile_repeat-Compiles :
    {A : Lang} (body : Compiler) (lo hi : ℕ)
    → Compiles body A
    → Compiles (compile_repeat body lo hi) (Repeated A lo hi)
unfolding compile_repeat
compile_repeat-Compiles {A} body lo hi c ns =
    let copies = append_copies body lo (ns, none) in
    let head : IsHead ns copies.0 (Then Eps A lo) copies.1 =
      append_copies-IsHead body c lo ns Eps none (nothing refl ((λ w x. x), λ w x. x)) in
    elim (Bool-cases (hi == k_inf)) [
      | inl inf ↦ rw inf (
          IsFrag-~ (unbounded~ A lo hi ((==_iff hi k_inf).0 inf)) (
            finish-IsFrag _ _ (
              append_copies-IsHead (compile_starred body) (starred-Compiles body c) 1 copies.0
                (Then Eps A lo) copies.1 head)))
      | inr fin ↦ rw fin (
          IsFrag-~
            (bounded~ A lo hi (if leb lo hi then hi - lo else 0) (ground arith) (ground arith))
            (finish-IsFrag _ _ (
              append_copies-IsHead (compile_optional body) (optional-Compiles body c)
                (if leb lo hi then hi - lo else 0) copies.0 (Then Eps A lo) copies.1 head)))
    ]
