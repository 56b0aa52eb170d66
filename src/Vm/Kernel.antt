-- ===== src/Vm/Kernel.antt =====
-- The kernel's page table: kvmmap and kvmmake of kernel/vm.c, and proc_mapstacks of kernel/proc.c. The permissions are
-- PTE_R = 2, PTE_W = 4, PTE_X = 8 and PTE_U = 16.
use xv6_riscv_private.Common.{
  ℕ, zero, suc, ◌+◌, ◌-◌, not, ◌==◌, Outcome, ok, panic_if, ◌>>=◌, ◌>>◌, pos, eqb_ℤ,
}
use xv6_riscv_private.Riscv.{pgsize, kernbase, phystop, trampoline_va, kstack}
use xv6_riscv_private.Kalloc.{Kmem, fill, kalloc}
use xv6_riscv_private.Proc.{nproc}
use xv6_riscv_private.Vm.{mappages}

abbrev pub uart0 : ℕ
uart0 = 0x1000_0000

abbrev pub virtio0 : ℕ
virtio0 = 0x1000_1000

abbrev pub plic : ℕ
plic = 0x0c00_0000

unfoldable pub kvmmap : ℕ → ℕ → ℕ → ℕ → ℕ → Kmem → Outcome Kmem
kvmmap kpgtbl va pa sz perm k = do
  (r, k') ← mappages kpgtbl va sz pa perm k
  panic_if (not (eqb_ℤ r (pos 0)))
  ok k'

-- with `n` processes left from `i` on
unfoldable pub mapstacks_loop : ℕ → ℕ → ℕ → Kmem → Outcome Kmem
mapstacks_loop kpgtbl i zero k = ok k
mapstacks_loop kpgtbl i (suc n) k = do
  let (pa, k') = kalloc k
  panic_if (pa == 0)
  k'' ← kvmmap kpgtbl (kstack i) pa pgsize 6 k'
  mapstacks_loop kpgtbl (i + 1) n k''

unfoldable pub proc_mapstacks : ℕ → Kmem → Outcome Kmem
proc_mapstacks kpgtbl k = mapstacks_loop kpgtbl 0 nproc k

-- `etext` is the end of the kernel's code, `trampoline` the address of the trampoline's.
unfoldable pub kvmmake : ℕ → ℕ → Kmem → Outcome (ℕ × Kmem)
kvmmake etext trampoline k = do
  let (kpgtbl, k0) = kalloc k
  let k1 : Kmem = record k0 { mem = fill kpgtbl 0 k0.mem }
  k2 ← kvmmap kpgtbl uart0 uart0 pgsize 6 k1
  k3 ← kvmmap kpgtbl virtio0 virtio0 pgsize 6 k2
  k4 ← kvmmap kpgtbl plic plic 0x40_0000 6 k3
  k5 ← kvmmap kpgtbl kernbase kernbase (etext - kernbase) 10 k4
  k6 ← kvmmap kpgtbl etext etext (phystop - etext) 6 k5
  k7 ← kvmmap kpgtbl trampoline_va trampoline pgsize 10 k6
  k8 ← proc_mapstacks kpgtbl k7
  ok (kpgtbl, k8)
