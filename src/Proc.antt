-- ===== src/Proc.antt =====
-- kernel/proc.c and kernel/proc.h: the process table. A pointer into `proc[NPROC]` is an index, a null
-- `struct proc *` is `none`, and any other null pointer is 0. `chan` is the address slept on.
-- What lies between acquiring and releasing a lock is one step, by `Spinlock.Exclusion`.
pub mod Fair
pub mod Life
pub mod Wake
mod Tests
use xv6_riscv_private.Common.{ℕ, Bool, true, false, Option, List, ℤ, ◌+◌, ◌==◌, Outcome}

-- `enum procstate`
pub data ProcState : Type 0 where
  unused used sleeping runnable running zombie : ProcState

-- `struct proc`, less its lock
pub record Proc : Type 0 where
  pub state : ProcState
  pub chan : ℕ
  pub killed : Bool
  pub xstate : ℤ
  pub pid : ℕ
  pub parent : Option ℕ
  pub kstack : ℕ
  pub sz : ℕ
  pub pagetable : ℕ
  pub trapframe : ℕ
  pub context_ra : ℕ
  pub context_sp : ℕ
  pub ofile : List ℕ
  pub cwd : ℕ
  pub name : List ℕ
  pub exit_msg : List ℕ
  pub accumulator : ℤ
  pub ps_priority : ℤ
  pub cfs_priority : ℕ
  pub rtime : ℕ
  pub stime : ℕ
  pub retime : ℕ

abbrev pub Table : Type 0
Table = ℕ → Proc

abbrev pub nproc : ℕ
nproc = 64

abbrev pub is_unused : ProcState → Bool
is_unused unused = true
is_unused _ = false

abbrev pub is_sleeping : ProcState → Bool
is_sleeping sleeping = true
is_sleeping _ = false

abbrev pub is_runnable : ProcState → Bool
is_runnable runnable = true
is_runnable _ = false

abbrev pub is_zombie : ProcState → Bool
is_zombie zombie = true
is_zombie _ = false

-- `p->state == RUNNABLE || p->state == RUNNING`
abbrev pub is_active : ProcState → Bool
is_active runnable = true
is_active running = true
is_active _ = false

-- `p == q` for pointers that may be null
abbrev pub is_proc : Option ℕ → ℕ → Bool
is_proc Option.none i = false
is_proc (Option.some j) i = j == i
