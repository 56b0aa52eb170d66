-- ===== src/User/Tests.antt =====
-- Tests, and the theorem at a concrete pattern.
use xv6_riscv_private.Common.{ℕ, ◌≡◌, refl, true, false, List, [], ◌∷◌, ◌↔◌}
use xv6_riscv_private.User.Grep.{matchstar, match_one, matchhere, match_loop, match}
use xv6_riscv_private.User.Grep.Language.{Matches, match_lem}

-- The pattern "a*b$", and the texts "xaab" and "xaaba"
abbrev pattern : List ℕ
pattern = 97 ∷ 42 ∷ 98 ∷ 36 ∷ []

abbrev ends : List ℕ
ends = 120 ∷ 97 ∷ 97 ∷ 98 ∷ []

abbrev goes_on : List ℕ
goes_on = 120 ∷ 97 ∷ 97 ∷ 98 ∷ 97 ∷ []

match-ends : match pattern ends ≡ true
unfolding match match_loop matchhere matchstar match_one
match-ends = refl

match-goes_on : match pattern goes_on ≡ false
unfolding match match_loop matchhere matchstar match_one
match-goes_on = refl

match_lem_example : (match pattern ends ≡ true) ↔ Matches pattern ends
match_lem_example = match_lem pattern ends
