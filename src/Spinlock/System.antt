-- ===== src/Spinlock/System.antt =====
-- Any number of CPUs over one lock, a shared access at a time. Between the swap of `acquire` and the
-- write of `lk->cpu` the lock is taken by nobody that `holding` knows of, and between the two writes
-- of `release` it is still taken after its owner has left: the steps keep these apart.
use xv6_riscv_private.Common.{ℕ, ◌≡◌, Bool, true, false, none, some, update}
use xv6_riscv_private.Spinlock.{Spinlock, holding}

pub data Pc : Type 0 where
  outside : Pc  -- not in a critical section
  spinning : Pc  -- in the `while` of `acquire`
  swapped : Pc  -- past the swap, before `lk->cpu = mycpu()`
  inside : Pc  -- between `acquire` and `release`
  cleared : Pc  -- in `release`, past `lk->cpu = 0`

-- One step of CPU `i`. `acquire` and `release` panic where their checks fail; such a step is none
-- here, and `Exclusion` shows that it is never needed.
pub data Move (i : ℕ) (lk : Spinlock) : Pc → Spinlock → Pc → Type 0 where
  enter : holding i lk ≡ false → Move i lk outside lk spinning
  spin : lk.locked ≡ true → Move i lk spinning lk spinning
  win : lk.locked ≡ false → Move i lk spinning (record lk { locked = true }) swapped
  claim : Move i lk swapped (record lk { cpu = some i }) inside
  disown : holding i lk ≡ true → Move i lk inside (record lk { cpu = none }) cleared
  unlock : Move i lk cleared (record lk { locked = false }) outside

pub record System : Type 0 where
  pub lock : Spinlock
  pub pc : ℕ → Pc

pub data Step (s : System) : System → Type 0 where
  pick :
      (i : ℕ) {l : Spinlock} {p : Pc}
      → Move i s.lock (s.pc i) l p
      → Step s (record { lock = l; pc = update s.pc i p })

pub data Reach : System → Type 0 where
  start : Reach (record { lock = record { locked = false; cpu = none }; pc = λ _. Pc.outside })
  later : {s t : System} → Reach s → Step s t → Reach t

-- between the swap that takes the lock and the write that frees it
abbrev pub owns : Pc → Bool
owns swapped = true
owns inside = true
owns cleared = true
owns _ = false
