-- ===== src/Kalloc/Tests.antt =====
-- The allocator over a machine whose kernel ends two pages below PHYSTOP.
use xv6_riscv_private.Common.{ℕ, ◌+◌, ◌-◌, ◌*◌, ◌≡◌, refl, List, [], ◌∷◌, arith, ok}
use xv6_riscv_private.Riscv.{pgsize, phystop, pg_round_up}
use xv6_riscv_private.Kalloc.{Kmem, fill, kalloc, kinit}
use xv6_riscv_private.Kalloc.Chain.{has, IsFree}
use xv6_riscv_private.Kalloc.Boot.{is_page_from, kinit-Freed}
use xv6_riscv_private.Kalloc.Ownership.{allocate, give_back, run, IsSplit, run-IsSplit}

abbrev kernel_end : ℕ
kernel_end = phystop - 2 * pgsize - 100

abbrev last : ℕ
last = phystop - pgsize

abbrev none_free : Kmem
none_free = record { freelist = 0; mem = λ _. 0 }

none_free-IsFree : IsFree kernel_end none_free []
none_free-IsFree = record { linked = refl; pages = tt; distinct = tt }

abbrev one_free : Kmem
one_free = record { freelist = last; mem = λ _. 0 }

one_free-IsFree : IsFree kernel_end one_free (last ∷ [])
one_free-IsFree = record { linked = (refl, refl); pages = (omega arith, tt); distinct = (refl, tt) }

last_word : (kalloc one_free).1.mem (last + 8) ≡ 0x0505_0505_0505_0505
unfolding kalloc fill
last_word = refl

kinit-Freed_example :
    (k : Kmem) × (ys : List ℕ) × (kinit kernel_end 3 (λ _. 0) ≡ ok k)
    × IsFree kernel_end k ys
    × ((a : ℕ) → has a ys ≡ is_page_from (pg_round_up kernel_end) a)
kinit-Freed_example = kinit-Freed kernel_end 3 (λ _. 0) (omega arith) (omega arith)

abbrev start : Kmem × List ℕ
start = (one_free, [])

start-IsSplit : IsSplit kernel_end start (last ∷ [])
start-IsSplit = record {
  free = one_free-IsFree;
  pages = tt;
  distinct = tt;
  apart = λ a h. ground arith;
}

run-IsSplit_example :
    (s' : Kmem × List ℕ) × (ys : List ℕ) × (run kernel_end
        (allocate ∷ give_back last ∷ allocate ∷ [])
        start
      ≡ ok s')
    × IsSplit kernel_end s' ys
run-IsSplit_example =
    run-IsSplit kernel_end (allocate ∷ give_back last ∷ allocate ∷ []) start (last ∷ [])
      (omega arith) start-IsSplit
