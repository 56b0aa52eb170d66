-- ===== src/Spinlock/Tests.antt =====
-- The lock at concrete CPUs and schedules.
use xv6_riscv_private.Common.{ℕ, ◌≡◌, refl, true, false, none, some, panic, arith, update}
use xv6_riscv_private.Spinlock.{Cpu, Spinlock, holding, acquire, release}
use xv6_riscv_private.Spinlock.Nesting.{IsQuiet}
use xv6_riscv_private.Spinlock.System.{
  System, Reach, start, later, pick, enter, win, claim, inside, outside, spinning, swapped,
}
use xv6_riscv_private.Spinlock.Exclusion.{mutual_exclusion}

abbrev running : Cpu
running = record { noff = 0; intena = false; intr = true }

abbrev free_lock : Spinlock
free_lock = record { locked = false; cpu = none }

running-IsQuiet : IsQuiet running
running-IsQuiet = record { quiet = λ h. absurd (omega arith) }

-- `acquire` of a lock that this CPU holds panics, and `release` of one that it does not hold.
double_acquire : acquire 2 running (record { locked = true; cpu = some 2 }) ≡ panic
unfolding acquire
double_acquire = refl

stray_release : release 1 running (record { locked = true; cpu = some 2 }) ≡ panic
unfolding release
stray_release = refl

abbrev entered : System
entered = record {
  lock = record { locked = true; cpu = some 0 };
  pc = update (update (update (λ _. outside) 0 spinning) 0 swapped) 0 inside;
}

entered-Reach : Reach entered
unfolding holding
entered-Reach = later (later (later start (pick 0 (enter refl))) (pick 0 (win refl))) (pick 0 claim)

mutual_exclusion_example : ◌≡◌ {A = ℕ} 0 0
mutual_exclusion_example = mutual_exclusion entered-Reach 0 0 refl refl
