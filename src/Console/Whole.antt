-- ===== src/Console/Whole.antt =====
-- What a read makes of a whole line.
use xv6_riscv_private.Common.{
  length, ℕ, zero, suc, ◌+◌, ◌-◌, ◌%◌, ◌^◌, ◌≤◌, ◌<◌, ◌≡◌, ◌≢◌, refl, sym, ap, ◌∙◌, Bool, true,
  ◌==◌, arith, Bool-cases, inl, inr, pos, List, [], ◌∷◌, ◌++◌,
}
use xv6_riscv_private.Console.{Console, ReadEnd, returned, eof_key, newline}
use xv6_riscv_private.Console.Line.{Line}
use xv6_riscv_private.Console.Got.{stretch, Got, Why, all, line, eof, fault, dry}

stretch-suc : (t : ℕ → ℕ) (i n : ℕ) → stretch t i (n + 1) ≡ stretch t i n ++ (t (i + n) ∷ [])
unfolding stretch
stretch-suc t i zero = ap (λ x. t x ∷ []) (omega arith)
stretch-suc t i (suc n) =
    ap (stretch t i) (let q : suc n + 1 ≡ suc (n + 1) = omega arith in q)
    ∙ ap (λ x. t i ∷ x)
        (stretch-suc t (i + 1) n
          ∙ ap (λ x. stretch t (i + 1) n ++ (t x ∷ []))
              (let q : i + 1 + n ≡ i + suc n = omega arith in q))

pub stretch-same :
    (t u : ℕ → ℕ) (i n : ℕ) → ((j : ℕ) → j < i + n → t j ≡ u j) → stretch t i n ≡ stretch u i n
unfolding stretch
stretch-same t u i zero same = refl
stretch-same t u i (suc n) same =
    ap (λ x. x ∷ stretch t (i + 1) n) (same i (omega arith))
    ∙ ap (λ x. u i ∷ x) (stretch-same t u (i + 1) n (λ j lt. same j (omega (arith, lt))))

-- The line holds one whole line, `word` and a newline, and nothing else.
pub record IsTyped (word : List ℕ) (l : Line) : Type 0 where
  pub ready : l.ready ≡ l.taken + (length word + 1)
  pub last : l.last ≡ l.ready
  pub chars : stretch l.text l.taken (length word) ≡ word
  pub ends : l.text (l.taken + length word) ≡ newline
  pub plain :
      (j : ℕ)
      → j < length word
      → (l.text (l.taken + j) ≢ newline) × (l.text (l.taken + j) ≢ eof_key)

-- A read with room for the line copies all of it.
whole :
    (word : List ℕ) (n dst : ℕ) (copyout : ℕ → Bool) (killed : Bool) (l : Line) (m p : ℕ)
    (e : ReadEnd)
    → IsTyped word l
    → length word + 1 ≤ n
    → ((a : ℕ) → copyout a ≡ true)
    → l.taken + p ≤ l.ready
    → Why copyout dst n n killed l m p e
    → (m ≡ length word + 1) × (p ≡ m) × (e ≡ returned (pos (length word + 1)))
whole word n dst copyout killed l m p e t room can there (all q r u) =
    let a = t.ready in absurd (u (length word) (omega (arith, a, q, r, there, room)) t.ends)
whole word n dst copyout killed l m p e t room can there (line v some_read r ch sum u) =
    let a = t.ready in
    let most : m ≤ length word + 1 = omega (arith, a, r, there) in
    elim (Bool-cases (m == length word + 1)) [
      | inl same ↦
          let q : m ≡ length word + 1 = ground (arith, same) in
          let value : v ≡ length word + 1 = omega (arith, sum, q) in
          (q, r, ap (λ x. returned (pos x)) value)
      | inr less ↦ absurd ((t.plain (m - 1) (ground (arith, less, most, some_read))).0 ch)
    ]
whole word n dst copyout killed l m p e t room can there (eof v lt at ch r sum u) =
    let a = t.ready in
    elim (Bool-cases (m == length word)) [
      | inl same ↦
          let q : l.taken + length word ≡ l.taken + m = ground (arith, same) in
          let two : newline ≡ eof_key = sym t.ends ∙ ap l.text q ∙ ch in absurd (omega (arith, two))
      | inr less ↦ absurd ((t.plain m (ground (arith, less, at, a))).1 ch)
    ]
whole word n dst copyout killed l m p e t room can there (fault v lt at cannot r sum u) =
    let yes = can (dst + m) in absurd (ground (arith, yes, cannot))
whole word n dst copyout killed l m p e t room can there (dry out lt at r q u) =
    let a = t.ready in absurd (u (length word) (omega (arith, a, at)) t.ends)

pub read-Typed :
    (word : List ℕ) (n dst : ℕ) (copyout : ℕ → Bool) (killed : Bool) (l : Line) (m p : ℕ)
    (out : List ℕ × Console × ReadEnd)
    → IsTyped word l
    → length word + 1 ≤ n
    → ((a : ℕ) → copyout a ≡ true)
    → Got copyout dst n n killed l m p out
    → (out ≡ (word ++ (newline ∷ []), out.1, returned (pos (length word + 1))))
      × (out.1.r ≡ out.1.w)
      × (out.1.w ≡ out.1.e)
read-Typed word n dst copyout killed l m p out t room can g =
    let (count, all_taken, value) =
      whole word n dst copyout killed l m p out.2 t room can g.there g.why in
    let text : out.0 ≡ word ++ (newline ∷ []) =
      g.copied
      ∙ ap (stretch l.text l.taken) count
      ∙ stretch-suc l.text l.taken (length word)
      ∙ ap (λ x. x ++ (l.text (l.taken + length word) ∷ [])) t.chars
      ∙ ap (λ x. word ++ (x ∷ [])) t.ends in
    let a = t.ready in
    let at_end : l.taken + p ≡ l.ready = omega (arith, a, count, all_taken) in
    let e = t.last in
    (
      ap (λ x. (x, out.1, out.2)) text ∙ ap (λ x. (word ++ (newline ∷ []), out.1, x)) value,
      g.left.r ∙ ap (λ x. x % 2 ^ 32) at_end ∙ sym g.left.w,
      g.left.w ∙ ap (λ x. x % 2 ^ 32) (sym e) ∙ sym g.left.e,
    )
