-- ===== src/Vm.antt =====
-- kernel/vm.c: page tables in the allocator's memory. A page-table entry is the word at its address;
-- PTE_V, PTE_R, PTE_W, PTE_X and PTE_U are its bits 0 to 4, read by `/` and `%`. As PA2PTE leaves the ten low bits 0,
-- flags below 1024 are added to it.
pub mod User
pub mod Copy
pub mod Copyin
pub mod Space
pub mod Table
pub mod Kernel
mod Tests
use Prim.Native.Nat.{bit_or}
use xv6_riscv_private.Common.{
  ℕ, zero, suc, ◌+◌, ◌-◌, ◌*◌, ◌/◌, ◌%◌, ◌^◌, Bool, true, false, not, ◌&&◌, ◌||◌, ◌==◌, ltb, leb,
  if◌then◌else◌, update, Option, none, some, Outcome, ok, panic, out_of_fuel, panic_if, ◌>>=◌, ◌>>◌,
  ℤ, pos, negsuc,
}
use xv6_riscv_private.Riscv.{pgsize, maxva, pg_round_up, pg_round_down}
use xv6_riscv_private.Kalloc.{Kmem, Words, fill, kalloc, kfree}

abbrev pub pte2pa : ℕ → ℕ
pte2pa pte = pte / 2 ^ 10 * 2 ^ 12 % 2 ^ 64

abbrev pub pa2pte : ℕ → ℕ
pa2pte pa = pa / 2 ^ 12 * 2 ^ 10

abbrev pub pte_flags : ℕ → ℕ
pte_flags pte = pte % 1024

abbrev pub is_valid : ℕ → Bool
is_valid pte = pte % 2 == 1

abbrev pub is_user : ℕ → Bool
is_user pte = pte / 2 ^ 4 % 2 == 1

-- `pte & (PTE_R|PTE_W|PTE_X)`
abbrev pub is_leaf : ℕ → Bool
is_leaf pte = not (pte / 2 % 8 == 0)

abbrev pub px : ℕ → ℕ → ℕ
px level va = va / 2 ^ (12 + 9 * level) % 512

-- `&pagetable[PX(level, va)]`
abbrev pub pte_at : ℕ → ℕ → ℕ → ℕ
pte_at pagetable level va = pagetable + 8 * px level va

-- a round of the loop of `walk`: the next page table, or none for `return 0`
unfoldable pub walk_step : Bool → ℕ → ℕ → ℕ → Kmem → Option ℕ × Kmem
walk_step alloc level pagetable va k =
    let at = pte_at pagetable level va in
    let pte = k.mem at in
    let (page, k') = kalloc k in
    let filled : Kmem = record k' { mem = update (fill page 0 k'.mem) at (pa2pte page + 1) } in
    let grown : Option ℕ × Kmem = if page == 0 then (none, k') else (some page, filled) in
    if is_valid pte then (some (pte2pa pte), k) else if alloc then grown else (none, k)

-- the rest of `walk`, at `level`
unfoldable pub walk_from : Bool → ℕ → Option ℕ → ℕ → Kmem → Option ℕ × Kmem
walk_from alloc level none va k = (none, k)
walk_from alloc zero (some pagetable) va k = (some (pte_at pagetable 0 va), k)
walk_from alloc (suc level) (some pagetable) va k =
    let (next, k') = walk_step alloc (suc level) pagetable va k in walk_from alloc level next va k'

-- the address of the entry, or none for 0
unfoldable pub walk : ℕ → ℕ → Bool → Kmem → Outcome (Option ℕ × Kmem)
walk pagetable va alloc k = do panic_if (leb maxva va); ok (walk_from alloc 2 (some pagetable) va k)

unfoldable pub walkaddr : ℕ → ℕ → Kmem → Outcome ℕ
walkaddr pagetable va k =
    let found = (do
      (at, k') ← walk pagetable va false k
      ok (elim at [
        | none ↦ 0
        | some a ↦ if is_valid (k.mem a) && is_user (k.mem a) then pte2pa (k.mem a) else 0
      ])) in
    if leb maxva va then ok 0 else found

-- the loop of `mappages`, which ends at the page `last`
unfoldable pub mappages_loop : ℕ → ℕ → ℕ → ℕ → ℕ → ℕ → Kmem → Outcome (ℤ × Kmem)
mappages_loop zero pagetable a last pa perm k = out_of_fuel
mappages_loop (suc f) pagetable a last pa perm k = do
  (at, k') ← walk pagetable a true k
  elim at [
    | none ↦ ok (negsuc 0, k')
    | some pte ↦ do
      panic_if (is_valid (k'.mem pte))
      let k'' : Kmem = record k' { mem = update k'.mem pte (pa2pte pa + bit_or perm 1) }
      let rest =
          mappages_loop f pagetable ((a + pgsize) % 2 ^ 64) last ((pa + pgsize) % 2 ^ 64) perm k''
      if a == last then ok (pos 0, k'') else rest
  ]

unfoldable pub mappages : ℕ → ℕ → ℕ → ℕ → ℕ → Kmem → Outcome (ℤ × Kmem)
mappages pagetable va size pa perm k = do
  panic_if (size == 0)
  mappages_loop (size / pgsize + 2) pagetable (pg_round_down va)
      (pg_round_down ((va + size - 1) % 2 ^ 64)) pa perm k
