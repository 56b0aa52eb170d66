-- ===== src/Vm/Space.antt =====
-- The user page table of a process: proc_pagetable, proc_freepagetable and growproc of kernel/proc.c.
use xv6_riscv_private.Common.{
  ℕ, ◌+◌, ◌-◌, ◌^◌, ◌%◌, Bool, true, false, ◌==◌, if◌then◌else◌, Outcome, ok, ◌>>=◌, ℤ, pos, negsuc,
  is_positive,
}
use xv6_riscv_private.Riscv.{pgsize, trampoline_va, trapframe_va}
use xv6_riscv_private.Kalloc.{Kmem}
use xv6_riscv_private.Vm.{mappages}
use xv6_riscv_private.Vm.User.{uvmcreate, uvmfree, uvmunmap, uvmalloc, uvmdealloc}

abbrev pub is_negative : ℤ → Bool
is_negative (pos n) = false
is_negative (negsuc n) = true

-- `end` is the end of the kernel, `trampoline` the address of the trampoline's code.
module _ (end trampoline : ℕ) where
  -- `proc_pagetable`, once the page table is there
  unfoldable pub map_user : ℕ → ℕ → Kmem → Outcome (ℕ × Kmem)
  map_user pagetable trapframe k = do
    (r, k1) ← mappages pagetable trampoline_va pgsize trampoline 10 k
    let fail1 = (do k' ← uvmfree end pagetable 0 k1; ok (0, k'))
    let mapped = (do
      (r', k2) ← mappages pagetable trapframe_va pgsize trapframe 6 k1
      let fail2 = (do
        k' ← uvmunmap end pagetable trampoline_va 1 false k2
        k'' ← uvmfree end pagetable 0 k'
        ok (0, k''))
      if is_negative r' then fail2 else ok (pagetable, k2))
    if is_negative r then fail1 else mapped

  unfoldable pub proc_pagetable : ℕ → Kmem → Outcome (ℕ × Kmem)
  proc_pagetable trapframe k =
      let (pagetable, k') = uvmcreate end k in
      let rest = map_user pagetable trapframe k' in if pagetable == 0 then ok (0, k') else rest

  unfoldable pub proc_freepagetable : ℕ → ℕ → Kmem → Outcome Kmem
  proc_freepagetable pagetable sz k = do
    k' ← uvmunmap end pagetable trampoline_va 1 false k
    k'' ← uvmunmap end pagetable trapframe_va 1 false k'
    uvmfree end pagetable sz k''

-- `sz + n`, in 64 bits
unfoldable pub add_size : ℕ → ℤ → ℕ
add_size sz (pos n) = (sz + n) % 2 ^ 64
add_size sz (negsuc n) = (sz + (2 ^ 64 - (n + 1))) % 2 ^ 64

-- the result and the new `p->sz`
unfoldable pub growproc : ℕ → ℕ → ℤ → ℕ → Kmem → Outcome (ℤ × ℕ × Kmem)
growproc end pagetable n sz k =
    let grown = (do
      (sz', k') ← uvmalloc end pagetable sz (add_size sz n) 4 k
      ok (if sz' == 0 then (negsuc 0, sz, k') else (pos 0, sz', k'))) in
    let shrunk = (do
      (sz', k') ← uvmdealloc end pagetable sz (add_size sz n) k
      ok (pos 0, sz', k')) in
    if is_positive n then grown else if is_negative n then shrunk else ok (pos 0, sz, k)
