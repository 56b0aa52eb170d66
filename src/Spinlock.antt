-- ===== src/Spinlock.antt =====
-- kernel/spinlock.c: interrupt nesting on one CPU, and the lock word that the CPUs share.
-- A CPU is named by its index in `cpus` (kernel/proc.c); `lk->cpu == 0` is `none`.
pub mod Nesting
pub mod System
pub mod Exclusion
mod Tests
use xv6_riscv_private.Common.{
  ℕ, ◌+◌, ◌-◌, Bool, true, false, ◌&&◌, not, Option, none, some, ltb, ◌==◌, if◌then◌else◌, Outcome,
  ok, panic, panic_if, ◌>>=◌, ◌>>◌,
}

-- The fields of `struct cpu` that these functions use, and the interrupt-enable bit of sstatus that
-- `intr_get`, `intr_on` and `intr_off` (kernel/riscv.h) read and write.
pub record Cpu : Type 0 where
  pub noff : ℕ
  pub intena : Bool
  pub intr : Bool

pub record Spinlock : Type 0 where
  pub locked : Bool
  pub cpu : Option ℕ

unfoldable pub initlock : Spinlock
initlock = record { locked = false; cpu = none }

unfoldable pub push_off : Cpu → Cpu
push_off c = record {
  noff = c.noff + 1;
  intena = if c.noff == 0 then c.intr else c.intena;
  intr = false;
}

unfoldable pub pop_off : Cpu → Outcome Cpu
pop_off c = do
  panic_if c.intr
  panic_if (ltb c.noff 1)
  let noff = c.noff - 1
  ok (record c { noff = noff; intr = if noff == 0 && c.intena then true else c.intr })

abbrev pub is_cpu : Option ℕ → ℕ → Bool
is_cpu none id = false
is_cpu (some c) id = c == id

unfoldable pub holding : ℕ → Spinlock → Bool
holding id lk = lk.locked && is_cpu lk.cpu id

-- One round of `acquire`: `none` means that the swap found the lock taken, and the CPU, which now
-- has its interrupts off, tries again.
unfoldable pub acquire : ℕ → Cpu → Spinlock → Outcome (Cpu × Option Spinlock)
unfolding push_off holding
acquire id c lk = do
  let c' = push_off c
  panic_if (holding id lk)
  ok (c', if lk.locked then none else some (record { locked = true; cpu = some id }))

unfoldable pub release : ℕ → Cpu → Spinlock → Outcome (Cpu × Spinlock)
unfolding pop_off holding
release id c lk = do
  panic_if (not (holding id lk))
  c' ← pop_off c
  ok (c', record { locked = false; cpu = none })
