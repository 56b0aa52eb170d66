-- ===== src/User/Grep.antt =====
-- user/grep.c: the regular expressions. `*text` of an empty list is the NUL.
pub mod Language
use xv6_riscv_private.Common.{
  ℕ, Bool, true, false, not, ◌&&◌, ◌||◌, ◌==◌, if◌then◌else◌, List, [], ◌∷◌,
}

-- The characters `*`, `.`, `$` and `^`
abbrev pub star_char : ℕ
star_char = 42

abbrev pub dot_char : ℕ
dot_char = 46

abbrev pub dollar_char : ℕ
dollar_char = 36

abbrev pub caret_char : ℕ
caret_char = 94

-- `re[0]=='.' || re[0]==*text`
abbrev pub accepts : ℕ → ℕ → Bool
accepts c x = c == dot_char || c == x

-- `*text == '\0'`
abbrev pub at_end : List ℕ → Bool
at_end [] = true
at_end (x ∷ text) = false

-- `matchstar` of `c` and the pattern whose `matchhere` is given
unfoldable pub matchstar : (List ℕ → Bool) → ℕ → List ℕ → Bool
matchstar here c [] = here []
matchstar here c (x ∷ text) =
    let rest = matchstar here c text in
    if here (x ∷ text) then true else if x == c || c == dot_char then rest else false

-- the last two tests of `matchhere`: the first character is taken, or not
unfoldable pub match_one : (List ℕ → Bool) → ℕ → List ℕ → Bool
match_one here c [] = false
match_one here c (x ∷ text) = if accepts c x then here text else false

unfoldable pub matchhere : List ℕ → List ℕ → Bool
matchhere [] text = true
matchhere (c ∷ []) text = if c == dollar_char then at_end text else match_one (matchhere []) c text
matchhere (c ∷ d ∷ re) text =
    if d == star_char
    then matchstar (matchhere re) c text
    else match_one (matchhere (d ∷ re)) c text

-- the loop of `match`
unfoldable pub match_loop : List ℕ → List ℕ → Bool
match_loop re [] = matchhere re []
match_loop re (x ∷ text) =
    let rest = match_loop re text in if matchhere re (x ∷ text) then true else rest

unfoldable pub match : List ℕ → List ℕ → Bool
match [] text = match_loop [] text
match (c ∷ re) text = if c == caret_char then matchhere re text else match_loop (c ∷ re) text
