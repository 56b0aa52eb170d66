-- ===== src/Vm/User.antt =====
-- kernel/vm.c: growing, shrinking, copying and freeing the memory of a process.
use xv6_riscv_private.Common.{
  ℕ, zero, suc, ◌+◌, ◌-◌, ◌*◌, ◌/◌, ◌%◌, ◌^◌, Bool, true, false, not, ◌&&◌, ◌==◌, ltb, leb,
  if◌then◌else◌, update, none, some, Outcome, ok, panic, out_of_fuel, panic_if, ◌>>=◌, ◌>>◌, ℤ, pos,
  negsuc, eqb_ℤ,
}
use Prim.Native.Nat.{bit_or}
use xv6_riscv_private.Riscv.{pgsize, pg_round_up}
use xv6_riscv_private.Kalloc.{Kmem, Words, fill, kalloc, kfree}
use xv6_riscv_private.Vm.{pte2pa, pte_flags, is_valid, is_user, is_leaf, walk, mappages}

-- `memmove(to, from, PGSIZE)` of a page, a word at a time
unfoldable pub copy_page : ℕ → ℕ → Words → Words
copy_page to from m a = if leb to a && ltb a (to + pgsize) then m (from + (a - to)) else m a

-- `end` is the end of the kernel, for `kfree`.
module _ (end : ℕ) where
  -- a round of `uvmunmap` at the page `a`
  unfoldable pub unmap_page : ℕ → ℕ → Bool → Kmem → Outcome Kmem
  unmap_page pagetable a do_free k = do
    (at, k0) ← walk pagetable a false k
    elim at [
      | none ↦ panic
      | some pte ↦ do
        panic_if (not (is_valid (k.mem pte)))
        panic_if (pte_flags (k.mem pte) == 1)
        let freed = kfree end (pte2pa (k.mem pte)) k
        k' ← if do_free then freed else ok k
        ok (record k' { mem = update k'.mem pte 0 })
    ]

  -- `uvmunmap` of `npages` pages, once `va` is known to be aligned
  unfoldable pub unmap_pages : ℕ → ℕ → ℕ → Bool → Kmem → Outcome Kmem
  unmap_pages pagetable a zero do_free k = ok k
  unmap_pages pagetable a (suc n) do_free k = do
    k' ← unmap_page pagetable a do_free k
    unmap_pages pagetable (a + pgsize) n do_free k'

  unfoldable pub uvmunmap : ℕ → ℕ → ℕ → Bool → Kmem → Outcome Kmem
  uvmunmap pagetable va npages do_free k = do
    panic_if (not (va % pgsize == 0))
    unmap_pages pagetable va npages do_free k

  unfoldable pub uvmcreate : Kmem → ℕ × Kmem
  uvmcreate k =
      let (page, k') = kalloc k in
      if page == 0 then (0, k') else (page, record k' { mem = fill page 0 k'.mem })

  unfoldable pub uvmdealloc : ℕ → ℕ → ℕ → Kmem → Outcome (ℕ × Kmem)
  uvmdealloc pagetable oldsz newsz k =
      let npages = (pg_round_up oldsz - pg_round_up newsz) / pgsize in
      let shrunk = (do k' ← uvmunmap pagetable (pg_round_up newsz) npages true k; ok (newsz, k')) in
      if leb oldsz newsz
      then ok (oldsz, k)
      else if ltb (pg_round_up newsz) (pg_round_up oldsz)
      then shrunk
      else ok (newsz, k)

  -- the loop of `uvmalloc` from the page `a` on; it undoes what it did down to `oldsz`
  unfoldable pub uvmalloc_loop : ℕ → ℕ → ℕ → ℕ → ℕ → ℕ → Kmem → Outcome (ℕ × Kmem)
  uvmalloc_loop zero pagetable a oldsz newsz xperm k = out_of_fuel
  uvmalloc_loop (suc f) pagetable a oldsz newsz xperm k =
      let (page, k') = kalloc k in
      let undo : Kmem → Outcome (ℕ × Kmem) =
        λ x. (do (_, x') ← uvmdealloc pagetable a oldsz x; ok (0, x')) in
      let mapped = (do
        let zeroed : Kmem = record k' { mem = fill page 0 k'.mem }
        (r, k'') ← mappages pagetable a pgsize page (bit_or 18 xperm) zeroed
        let next = uvmalloc_loop f pagetable (a + pgsize) oldsz newsz xperm k''
        let failed = (do x ← kfree end page k''; undo x)
        if eqb_ℤ r (pos 0) then next else failed) in
      if ltb a newsz then if page == 0 then undo k' else mapped else ok (newsz, k)

  unfoldable pub uvmalloc : ℕ → ℕ → ℕ → ℕ → Kmem → Outcome (ℕ × Kmem)
  uvmalloc pagetable oldsz newsz xperm k =
      let old = pg_round_up oldsz in
      if ltb newsz oldsz
      then ok (oldsz, k)
      else uvmalloc_loop (newsz / pgsize + 2) pagetable old old newsz xperm k

  -- the loop of `freewalk`, with `n` entries left from `i` on; `walk_child` is its call of itself
  unfoldable pub free_ptes : (ℕ → Kmem → Outcome Kmem) → ℕ → ℕ → ℕ → Kmem → Outcome Kmem
  free_ptes walk_child zero i pagetable k = ok k
  free_ptes walk_child (suc n) i pagetable k =
      let pte = k.mem (pagetable + 8 * i) in
      let child = (do
        k' ← walk_child (pte2pa pte) k
        free_ptes walk_child n (i + 1) pagetable
            (record k' { mem = update k'.mem (pagetable + 8 * i) 0 })) in
      let rest = free_ptes walk_child n (i + 1) pagetable k in
      if is_valid pte then if is_leaf pte then panic else child else rest

  -- A page table has three levels.
  unfoldable pub freewalk : ℕ → ℕ → Kmem → Outcome Kmem
  freewalk zero pagetable k = out_of_fuel
  freewalk (suc level) pagetable k = do
    k' ← free_ptes (freewalk level) 512 0 pagetable k
    kfree end pagetable k'

  unfoldable pub uvmfree : ℕ → ℕ → Kmem → Outcome Kmem
  uvmfree pagetable sz k = do
    let unmapped = uvmunmap pagetable 0 (pg_round_up sz / pgsize) true k
    k' ← if ltb 0 sz then unmapped else ok k
    freewalk 3 pagetable k'

  -- the loop of `uvmcopy`, with `n` pages left from `i` on
  unfoldable pub uvmcopy_loop : ℕ → ℕ → ℕ → ℕ → Kmem → Outcome (ℤ × Kmem)
  uvmcopy_loop zero i old new k = ok (pos 0, k)
  uvmcopy_loop (suc n) i old new k = do
    (at, k0) ← walk old i false k
    elim at [
      | none ↦ panic
      | some a ↦ do
        let pte = k.mem a
        panic_if (not (is_valid pte))
        let (page, k') = kalloc k
        let err : Kmem → Outcome (ℤ × Kmem) =
            λ x. (do x' ← uvmunmap new 0 (i / pgsize) true x; ok (negsuc 0, x'))
        let copied = (do
          let filled : Kmem = record k' { mem = copy_page page (pte2pa pte) k'.mem }
          (r, k'') ← mappages new i pgsize page (pte_flags pte) filled
          let next = uvmcopy_loop n (i + pgsize) old new k''
          let failed = (do x ← kfree end page k''; err x)
          if eqb_ℤ r (pos 0) then next else failed)
        if page == 0 then err k' else copied
    ]

  unfoldable pub uvmcopy : ℕ → ℕ → ℕ → Kmem → Outcome (ℤ × Kmem)
  uvmcopy old new sz k = uvmcopy_loop (pg_round_up sz / pgsize) 0 old new k

  unfoldable pub uvmclear : ℕ → ℕ → Kmem → Outcome Kmem
  uvmclear pagetable va k = do
    (at, k0) ← walk pagetable va false k
    elim at [
      | none ↦ panic
      | some a ↦
          let pte = k.mem a in
          ok (record k { mem = update k.mem a (if is_user pte then pte - 2 ^ 4 else pte) })
    ]
