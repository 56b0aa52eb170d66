-- ===== src/User/Grep/Language.antt =====
-- What a pattern means, and that match decides it.
use xv6_riscv_private.Common.{
  ℕ, ◌≡◌, ◌↔◌, refl, sym, ap, subst, Bool, true, ◌&&◌, ◌==◌, if◌then◌else◌, List, [], ◌∷◌, ◌++◌,
  arith, Bool-cases, inl, inr, ◌⊎◌,
}
use xv6_riscv_private.User.Grep.{
  accepts, star_char, dollar_char, caret_char, at_end, matchstar, match_one, matchhere, match_loop,
  match,
}

-- A pattern without its `^` is a list of these.
pub data Item : Type 0 where
  one : ℕ → Item
  many : ℕ → Item
  end : Item

unfoldable pub items : List ℕ → List Item
items [] = []
items (c ∷ []) = if c == dollar_char then end ∷ [] else one c ∷ []
items (c ∷ d ∷ re) = if d == star_char then many c ∷ items re else one c ∷ items (d ∷ re)

unfoldable pub all_accepted : ℕ → List ℕ → Bool
all_accepted c [] = true
all_accepted c (x ∷ u) = accepts c x && all_accepted c u

-- A prefix of the text is in the language of the items; `end` takes nothing, and only at the end of the text.
unfoldable pub Begins : List Item → List ℕ → Type 0
Begins [] text = Unit
Begins (one c ∷ is) text =
    (x : ℕ) × (rest : List ℕ) × (text ≡ x ∷ rest) × (accepts c x ≡ true) × Begins is rest
Begins (many c ∷ is) text =
    (u : List ℕ) × (v : List ℕ) × (text ≡ u ++ v) × (all_accepted c u ≡ true) × Begins is v
Begins (end ∷ is) text = (text ≡ []) × Begins is text

-- The pattern matches somewhere in the text, or at its start if it begins with `^`.
unfoldable pub Matches : List ℕ → List ℕ → Type 0
Matches [] text = (u : List ℕ) × (v : List ℕ) × (text ≡ u ++ v) × Begins [] v
Matches (c ∷ re) text =
    if c == caret_char
    then Begins (items re) text
    else ((u : List ℕ) × (v : List ℕ) × (text ≡ u ++ v) × Begins (items (c ∷ re)) v)

module _ (here : List ℕ → Bool) (is : List Item) (c : ℕ)
    (h : (t : List ℕ) → (here t ≡ true) ↔ Begins is t) where
  Taken : List ℕ → Type 0
  Taken text =
      (u : List ℕ) × (v : List ℕ) × (text ≡ u ++ v) × (all_accepted c u ≡ true) × Begins is v

  Taken-∷ : (x : ℕ) (text : List ℕ) → accepts c x ≡ true → Taken text → Taken (x ∷ text)
  unfolding Taken all_accepted
  Taken-∷ x text ok (u, v, e, a, b) = (x ∷ u, v, ap (λ t. x ∷ t) e, ground (arith, ok, a), b)

  uncons :
      (x : ℕ) (text : List ℕ)
      → Taken (x ∷ text)
      → Begins is (x ∷ text) ⊎ ((accepts c x ≡ true) × Taken text)
  unfolding Taken all_accepted
  uncons x text ([], v, e, a, b) = inl (subst (Begins is) (sym e) b)
  uncons x text (y ∷ u, v, e, a, b) =
      let same : x ≡ y = cc in
      let rest : text ≡ u ++ v = cc in
      inr (ground (arith, a, same), (u, v, rest, ground (arith, a), b))

  matchstar_lem : (text : List ℕ) → (matchstar here c text ≡ true) ↔ Taken text
  unfolding matchstar Taken all_accepted
  matchstar_lem [] = (λ e. ([], [], refl, refl, (h []).0 e), none_taken)
    where
      none_taken : Taken [] → here [] ≡ true
      none_taken ([], v, e, a, b) = (h []).1 (subst (Begins is) (sym e) b)
      none_taken (y ∷ u, v, e, a, b) = cc
  matchstar_lem (x ∷ text) =
      let (sound, complete) = matchstar_lem text in
      (
        λ e. elim (Bool-cases (here (x ∷ text))) [
          | inl now ↦ ([], x ∷ text, refl, refl, (h (x ∷ text)).0 now)
          | inr later ↦ Taken-∷ x text (ground (arith, e, later)) (sound (ground (arith, e, later)))
        ],
        λ p. elim (uncons x text p) [
          | inl now ↦ rw ((h (x ∷ text)).1 now) refl
          | inr (ok, rest) ↦ ground (arith, ok, complete rest)
        ],
      )

  match_one_lem : (text : List ℕ) → (match_one here c text ≡ true) ↔ Begins (one c ∷ is) text
  unfolding match_one Begins
  match_one_lem [] = (λ e. cc, λ (x, rest, e, a, b). cc)
  match_one_lem (x ∷ text) = (
    λ e. (x, text, refl, ground (arith, e), (h text).0 (ground (arith, e))),
    λ (y, rest, e, a, b).
        let same : y ≡ x = cc in
        let tail : rest ≡ text = cc in
        let now = (h text).1 (subst (Begins is) tail b) in ground (arith, a, same, now),
  )

at_end_lem : (text : List ℕ) → (at_end text ≡ true) ↔ Begins (end ∷ []) text
unfolding Begins
at_end_lem [] = (λ e. (refl, tt), λ p. refl)
at_end_lem (x ∷ text) = (λ e. cc, λ (e, u). cc)

-- `matchhere` decides whether the text begins with a word of the pattern.
matchhere_lem : (re : List ℕ) (text : List ℕ) → (matchhere re text ≡ true) ↔ Begins (items re) text
unfolding matchhere items Begins Taken
matchhere_lem [] text = (λ e. tt, λ p. refl)
matchhere_lem (c ∷ []) text = elim (Bool-cases (c == dollar_char)) [
  | inl e ↦ rw e (at_end_lem text)
  | inr e ↦ rw e (match_one_lem (matchhere []) [] c (λ t. (λ e. tt, λ p. refl)) text)
]
matchhere_lem (c ∷ d ∷ re) text = elim (Bool-cases (d == star_char)) [
  | inl e ↦ rw e (matchstar_lem (matchhere re) (items re) c (matchhere_lem re) text)
  | inr e ↦
      rw e (match_one_lem (matchhere (d ∷ re)) (items (d ∷ re)) c (matchhere_lem (d ∷ re)) text)
]

-- Somewhere in the text
Somewhere : List Item → List ℕ → Type 0
Somewhere is text = (u : List ℕ) × (v : List ℕ) × (text ≡ u ++ v) × Begins is v

later_or_now :
    (re : List ℕ) (x : ℕ) (text : List ℕ)
    → Somewhere (items re) (x ∷ text)
    → Begins (items re) (x ∷ text) ⊎ Somewhere (items re) text
unfolding Somewhere
later_or_now re x text ([], v, e, b) = inl (subst (Begins (items re)) (sym e) b)
later_or_now re x text (y ∷ u, v, e, b) = let rest : text ≡ u ++ v = cc in inr (u, v, rest, b)

match_loop_lem :
    (re : List ℕ) (text : List ℕ) → (match_loop re text ≡ true) ↔ Somewhere (items re) text
unfolding match_loop Somewhere
match_loop_lem re [] = (λ e. ([], [], refl, (matchhere_lem re []).0 e), none_left)
  where
    none_left : Somewhere (items re) [] → matchhere re [] ≡ true
    none_left ([], v, e, b) = (matchhere_lem re []).1 (subst (Begins (items re)) (sym e) b)
    none_left (y ∷ u, v, e, b) = cc
match_loop_lem re (x ∷ text) =
    let (sound, complete) = match_loop_lem re text in
    (
      λ e. elim (Bool-cases (matchhere re (x ∷ text))) [
        | inl now ↦ ([], x ∷ text, refl, (matchhere_lem re (x ∷ text)).0 now)
        | inr later ↦
            let (u, v, q, b) = sound (ground (arith, e, later)) in (x ∷ u, v, ap (λ t. x ∷ t) q, b)
      ],
      λ p. elim (later_or_now re x text p) [
        | inl now ↦ rw ((matchhere_lem re (x ∷ text)).1 now) refl
        | inr rest ↦ ground (arith, complete rest)
      ],
    )

-- For every pattern and text, `match` ends, and it is true exactly when the text, or a tail of it if the pattern does not
-- begin with `^`, begins with a word of the pattern's language: `c*` stands for any number of characters
-- that `c` accepts, `.` accepts every character, and a last `$` stands for the end of the text.
pub match_lem : (re text : List ℕ) → (match re text ≡ true) ↔ Matches re text
unfolding match Matches items Somewhere
match_lem [] text = match_loop_lem [] text
match_lem (c ∷ re) text = elim (Bool-cases (c == caret_char)) [
  | inl e ↦ rw e (matchhere_lem re text)
  | inr e ↦ rw e (match_loop_lem (c ∷ re) text)
]
