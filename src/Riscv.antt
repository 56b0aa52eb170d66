-- ===== src/Riscv.antt =====
-- Page and page-table arithmetic of kernel/riscv.h and kernel/memlayout.h, on 64-bit words whose
-- sums do not wrap. `x & ~(PGSIZE-1)` clears the low 12 bits, `x >> k` is `x / 2 ^ k`, and
-- `x & (2 ^ k - 1)` is `x % 2 ^ k`.
use xv6_riscv_private.Common.{ℕ, ◌+◌, ◌-◌, ◌*◌, ◌/◌, ◌^◌}

abbrev pub pgsize : ℕ
pgsize = 4096

abbrev pub kernbase : ℕ
kernbase = 0x8000_0000

abbrev pub phystop : ℕ
phystop = kernbase + 128 * 1024 * 1024

abbrev pub maxva : ℕ
maxva = 2 ^ 38

abbrev pub trampoline_va : ℕ
trampoline_va = maxva - pgsize

abbrev pub trapframe_va : ℕ
trapframe_va = trampoline_va - pgsize

abbrev pub kstack : ℕ → ℕ
kstack p = trampoline_va - (p + 1) * 2 * pgsize

abbrev pub pg_round_up : ℕ → ℕ
pg_round_up sz = (sz + pgsize - 1) / pgsize * pgsize

abbrev pub pg_round_down : ℕ → ℕ
pg_round_down a = a / pgsize * pgsize
