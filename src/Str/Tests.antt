-- ===== src/Str/Tests.antt =====
-- The functions of kernel/string.c at concrete memories.
use xv6_riscv_private.Common.{ℕ, ◌<◌, ◌≡◌, refl, if◌then◌else◌, arith, [], ◌∷◌, ◌⊎◌, update}
use xv6_riscv_private.Str.{Bytes, memmove, safestrcpy}
use xv6_riscv_private.Str.Move.{within, memmove_lem}
use xv6_riscv_private.Str.Compare.{text_at, bytes_at}
use xv6_riscv_private.Str.Copy.{safestrcpy_lem}

-- "abc" at 10, "abd" at 20, zero elsewhere
abbrev mem : Bytes
mem =
    update (update (update (update (update (update (λ _. 0) 10 97) 11 98) 12 99) 20 97) 21 98) 22
      100

memmove_overlap : bytes_at 4 10 (memmove 11 10 3 mem) ≡ 97 ∷ 97 ∷ 98 ∷ 99 ∷ []
unfolding memmove bytes_at
memmove_overlap = refl

memmove_lem_example : memmove 11 10 3 mem 12 ≡ (if within 11 3 12 then mem 11 else mem 12)
memmove_lem_example = memmove_lem 11 10 3 mem 12

safestrcpy_lem_example :
    (text_at 3 40 (safestrcpy 40 10 3 mem) ≡ text_at 2 10 mem)
    × ((a : ℕ) → (a < 40) ⊎ (42 < a) → safestrcpy 40 10 3 mem a ≡ mem a)
safestrcpy_lem_example = safestrcpy_lem 2 40 10 mem (omega arith)
