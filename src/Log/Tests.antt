-- ===== src/Log/Tests.antt =====
-- Tests, and the theorems at concrete logs.
use xv6_riscv_private.Common.{
  ℕ, zero, suc, List, panic, ◌+◌, ◌≡◌, inr, refl, ◌==◌, if◌then◌else◌, arith, [], ◌∷◌, false, pos,
}
use xv6_riscv_private.Log.{LogHeader, Device, reboot, recover_from_log, commit}
use xv6_riscv_private.Log.Writes.{Apart}
use xv6_riscv_private.Log.Disk.{Fits}
use xv6_riscv_private.Log.Recovery.{recoveries}
use xv6_riscv_private.Log.Commit.{promised, commit_atomic, commit_completes}
use xv6_riscv_private.Log.Header.{is_logged}
use xv6_riscv_private.Log.Ops.{begin_op, might_exhaust, log_write, absorb, find_entry}
use xv6_riscv_private.Log.Space.{Call, step, can_spend, spend, State, begin, write, run}

-- Blocks 40 and 41 are to be written, through the log at block 2, and the power is there for
-- `budget` writes.
abbrev two : LogHeader
two = record { n = 2; block = λ i. 40 + i }

abbrev device : ℕ → Device
device budget = record {
  disk = λ b w. if b == 2 then 0 else b;
  cache = λ b w. 100 + b;
  pins = λ b. 1;
  budget = budget;
}

abbrev empty : LogHeader
empty = record { n = 0; block = λ i. 0 }

two-Fits : Fits 2 30 two
two-Fits = record { small = omega arith; apart = λ j lt. inr (omega arith) }

commit_atomic_example :
    ((recover_from_log 2 empty
          (reboot 3 (recoveries 2 empty (1 ∷ []) (commit 2 two (device 4)).1))).1.disk
        2 0
      ≡ 0)
    × ((b : ℕ)
        → Apart 2 30 b
        → (recover_from_log 2 empty
              (reboot 3 (recoveries 2 empty (1 ∷ []) (commit 2 two (device 4)).1))).1.disk
            b
          ≡ promised two (device 4) b)
commit_atomic_example =
    commit_atomic 2 30 two two-Fits (device 4) empty (1 ∷ []) 3 refl (omega arith)

commit_completes_example :
    ((commit 2 two (device 6)).1.disk 2 0 ≡ 0)
    × ((b : ℕ)
        → Apart 2 30 b
        → (commit 2 two (device 6)).1.disk b ≡ (
            if is_logged 2 0 (λ i. 40 + i) b
            then (λ w. 100 + b)
            else (λ w. if b == 2 then 0 else b)))
commit_completes_example = commit_completes 2 30 two two-Fits (device 6) refl (omega arith)

abbrev fresh : State
fresh = record {
  log = record { start = 2; size = 30; outstanding = pos 0; committing = false; lh = empty };
  dev = device 100;
  ops = [];
}

-- `n` different blocks, written by the system call at position `p`
spree : ℕ → ℕ → ℕ → List Call → List Call
spree zero p b rest = rest
spree (suc n) p b rest = write p b ∷ spree n p (b + 1) rest

-- In a log of LOGSIZE blocks, three operations of MAXOPBLOCKS different blocks each are let in, and the last block does not
-- fit; the one before does.
run-overflow :
    run 10 (begin ∷ begin ∷ begin ∷ spree 10 0 40 (spree 10 1 50 (spree 10 2 60 []))) fresh ≡ panic
unfolding run step can_spend spend begin_op might_exhaust log_write absorb find_entry spree
run-overflow = refl
