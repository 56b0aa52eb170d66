-- ===== src/Kalloc.antt =====
-- kernel/kalloc.c: the physical page allocator. Memory is a map from the address of an 8-byte word
-- to its value. `end` is the first address after the kernel, which the linker sets. What runs
-- between `acquire(&kmem.lock)` and `release` is one step here, by `Spinlock.Exclusion`.
pub mod Chain
pub mod Laws
pub mod Boot
pub mod Ownership
mod Tests
use xv6_riscv_private.Common.{
  ℕ, zero, suc, ◌+◌, ◌*◌, ◌%◌, Bool, ◌||◌, not, leb, ltb, ◌==◌, ◌&&◌, if◌then◌else◌, update,
  Outcome, ok, panic_if, out_of_fuel, ◌>>=◌, ◌>>◌,
}
use xv6_riscv_private.Riscv.{pgsize, phystop, pg_round_up}

abbrev pub Words : Type 0
Words = ℕ → ℕ

-- `kmem`, with the memory that the list runs through; the null pointer is 0
pub record Kmem : Type 0 where
  pub freelist : ℕ
  pub mem : Words

-- `memset(pa, c, PGSIZE)`, a word at a time
unfoldable pub fill : ℕ → ℕ → Words → Words
fill pa c m a = if leb pa a && ltb a (pa + pgsize) then c * 0x0101_0101_0101_0101 else m a

module _ (end : ℕ) where
  unfoldable pub kfree : ℕ → Kmem → Outcome Kmem
  kfree pa k = do
    panic_if (not (pa % pgsize == 0) || (ltb pa end || leb phystop pa))
    let junk = fill pa 1 k.mem
    ok (record { freelist = pa; mem = update junk pa k.freelist })

  pub freerange_loop : ℕ → ℕ → ℕ → Kmem → Outcome Kmem
  freerange_loop zero p pa_end k = out_of_fuel
  freerange_loop (suc f) p pa_end k =
      let next = (do k' ← kfree p k; freerange_loop f (p + pgsize) pa_end k') in
      if leb (p + pgsize) pa_end then next else ok k

  unfoldable pub freerange : ℕ → ℕ → ℕ → Kmem → Outcome Kmem
  unfolding freerange_loop
  freerange fuel pa_start pa_end k = freerange_loop fuel (pg_round_up pa_start) pa_end k

  -- `kmem` is zero at boot.
  unfoldable pub kinit : ℕ → Words → Outcome Kmem
  unfolding freerange
  kinit fuel m = freerange fuel end phystop (record { freelist = 0; mem = m })

unfoldable pub kalloc : Kmem → ℕ × Kmem
kalloc k =
    let r = k.freelist in
    if r == 0 then (0, k) else (r, record { freelist = k.mem r; mem = fill r 5 k.mem })
