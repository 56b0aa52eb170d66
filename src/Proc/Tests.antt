-- ===== src/Proc/Tests.antt =====
-- The process table at concrete states: a runnable init process, a sleeping child of it, and slots
-- that are UNUSED.
use xv6_riscv_private.Common.{
  ℕ, ◌+◌, ◌*◌, ◌<◌, ◌≡◌, ◌≢◌, ◌⊎◌, refl, true, false, ◌&&◌, not, none, some, [], ◌∷◌, ◌==◌,
  if◌then◌else◌, update, Outcome, ok, arith, ℤ, pos, negsuc, to_int,
}
use xv6_riscv_private.Proc.{
  unused, sleeping, runnable, running, zombie, Proc, Table, nproc, is_proc,
}
use xv6_riscv_private.Proc.Fair.{
  get_min_accumulator, min_accumulator_loop, priority_scheduler, cfs_scheduler, default_scheduler,
}
use xv6_riscv_private.Proc.Fair.Accumulator.{HasAccumulators}
use xv6_riscv_private.Proc.Fair.Vruntime.{cfs_scheduler-eq-default}
use xv6_riscv_private.Proc.Wake.{wakeup}
use xv6_riscv_private.Proc.Wake.Laws.{SameIdentity, is_asleep_on, wakeup_lem}
use xv6_riscv_private.Proc.Life.{
  Kernel, Sys, fork, exit, wait, allocproc, find_unused, set_up, map_up, give_up, fork_into,
  dup_files, fork_table, close_files, wait_loop, reap, copy_status, collect, freeproc,
}
use xv6_riscv_private.Proc.Life.Inv.{TableInv, SysInv, Allocated, allocproc_lem}
use xv6_riscv_private.Proc.Life.Fork.{Born, fork_lem}
use xv6_riscv_private.Proc.Life.Exit.{exit_lem}
use xv6_riscv_private.Proc.Life.Wait.{
  Reaped, Refused, Unanswered, any_child, is_exited_child, wait_lem,
}

abbrev blank : Proc
blank = record {
  state = unused;
  chan = 0;
  killed = false;
  xstate = pos 0;
  pid = 0;
  parent = none;
  kstack = 0;
  sz = 0;
  pagetable = 0;
  trapframe = 0;
  context_ra = 0;
  context_sp = 0;
  ofile = [];
  cwd = 0;
  name = [];
  exit_msg = [];
  accumulator = pos 0;
  ps_priority = pos 0;
  cfs_priority = 0;
  rtime = 0;
  stime = 0;
  retime = 0;
}

abbrev init_proc : Proc
init_proc = record blank {
  state = runnable;
  pid = 1;
  accumulator = pos 5;
  cfs_priority = 1;
  rtime = 3;
  retime = 2;
}

abbrev child_proc : Proc
child_proc = record blank {
  state = sleeping;
  chan = 77;
  pid = 2;
  parent = some 0;
  accumulator = pos 9;
  cfs_priority = 1;
  stime = 4;
}

abbrev table : Table
table = update (update (λ _. blank) 0 init_proc) 1 child_proc

abbrev acc : ℕ → ℕ
acc i = if 1 == i then 9 else if 0 == i then 5 else 0

table-HasAccumulators : HasAccumulators table acc
table-HasAccumulators = record { holds = λ i. ground arith; small = λ i. ground arith }

dispatched :
    priority_scheduler 0 table ≡ (update table 0 (record init_proc { state = running }), some 0)
unfolding priority_scheduler get_min_accumulator min_accumulator_loop to_int
dispatched = refl

-- process 0 runnable with accumulator 0, process 1 running with accumulator 9
abbrev unlucky : Table
unlucky =
    update (update (λ _. blank) 0 (record init_proc { accumulator = pos 0 })) 1
      (record child_proc { state = running })

abbrev unlucky_acc : ℕ → ℕ
unlucky_acc i = if 1 == i then 9 else 0

abbrev newborn : Table
newborn = update table 2 (record blank { state = runnable; pid = 3 })

cfs_scheduler-eq-default_example : cfs_scheduler 0 table ≡ some (default_scheduler 0 table)
cfs_scheduler-eq-default_example = cfs_scheduler-eq-default table (λ j a. ground arith) 0 refl

wakeup_lem_example :
    ((wakeup (some 0) 77 table 1).state ≡ (
      if not (is_proc (some 0) 1) && is_asleep_on 77 (table 1) then runnable else (table 1).state))
    × SameIdentity (table 1) (wakeup (some 0) 77 table 1)
wakeup_lem_example = wakeup_lem (some 0) 77 table 1 (omega arith)

table-TableInv : TableInv table 3
table-TableInv = record {
  positive = omega arith;
  below = λ i l. ground arith;
  unique = λ i j l l' e ne. ground arith;
  named = λ i l e. ground arith;
  blank = λ i l e. ground arith;
}

-- A kernel whose world counts the pages handed out.
abbrev toy : Kernel
toy = record {
  World = ℕ;
  kalloc = λ w. (4096 * (w + 1), w + 1);
  kfree = λ pa w. ok w;
  proc_pagetable = λ tf w. ok (4096 * (w + 1), w + 1);
  proc_freepagetable = λ pt sz w. ok w;
  uvmcopy = λ old new sz w. ok (true, w);
  fork_trapframe = λ from to w. w;
  copyout_xstate = λ pt addr x w. (true, w);
  copyout_msg = λ pt addr msg w. (true, w);
  filedup = λ f w. ok w;
  fileclose = λ f w. ok w;
  idup = λ ip w. w;
  put_cwd = λ ip w. ok w;
  forkret = 0x8000_1000;
  proc_addr = λ i. 0x8001_0000 + 512 * i;
}

abbrev booted : Sys toy
booted = record { procs = table; nextpid = 3; initproc = 0; world = 0 }

-- the child, running
abbrev busy : Sys toy
busy = record booted { procs = update table 1 (record child_proc { state = running; chan = 0 }) }

-- the child, exited
abbrev left : Sys toy
left = record booted { procs = update table 1 (record child_proc { state = zombie; chan = 0 }) }

abbrev sys_of {ℓ} : {A : Type ℓ} → Outcome (A × Sys toy) → Sys toy
sys_of (ok (_, s)) = s
sys_of _ = booted

abbrev forked : Sys toy
forked = sys_of (fork toy 0 booted)

forks : fork toy 0 booted ≡ ok (pos 3, forked)
unfolding fork allocproc find_unused set_up map_up give_up fork_into dup_files fork_table
forks = refl

fork_lem_example :
    SysInv toy forked × (Born toy 0 booted (pos 3) forked ⊎ (◌≡◌ {A = ℤ} (pos 3) (negsuc 0)))
fork_lem_example = fork_lem toy 0 booted (pos 3) forked table-TableInv (omega arith) forks

abbrev allocated : Sys toy
allocated = sys_of (allocproc toy booted)

allocates : allocproc toy booted ≡ ok (some 2, allocated)
unfolding allocproc find_unused set_up map_up give_up
allocates = refl

allocproc_lem_example : SysInv toy allocated × Allocated toy booted (some 2) allocated
allocproc_lem_example =
    allocproc_lem toy booted (some 2) allocated table-TableInv (omega arith) allocates

abbrev exited : Outcome (Sys toy)
exited = exit toy (pos 4) (97 ∷ []) 1 busy

abbrev after_exit : Sys toy
after_exit = elim exited [ ok s ↦ s | _ ↦ booted ]

exits : exited ≡ ok after_exit
unfolding exit close_files
exits = refl

busy-TableInv : TableInv busy.procs 3
busy-TableInv = record {
  positive = omega arith;
  below = λ i l. ground arith;
  unique = λ i j l l' e ne. ground arith;
  named = λ i l e. ground arith;
  blank = λ i l e. ground arith;
}

exit_lem_example :
    (◌≢◌ {A = ℕ} 1 0)
    × SysInv toy after_exit
    × ((after_exit.procs 1).state ≡ zombie)
    × ((after_exit.procs 1).xstate ≡ pos 4)
    × ((after_exit.procs 1).pid ≡ 2)
    × ((j : ℕ) → j < nproc → (after_exit.procs j).parent ≢ some 1)
    × ((j : ℕ)
        → j < nproc
        → (after_exit.procs j).parent
          ≡ (if is_proc (busy.procs j).parent 1 then some 0 else (busy.procs j).parent))
exit_lem_example =
    exit_lem toy 1 (pos 4) (97 ∷ []) busy after_exit busy-TableInv refl (omega arith) exits

abbrev after_wait : Sys toy
after_wait = sys_of (wait toy 0 0 0 left)

waits : wait toy 0 0 0 left ≡ ok (some (pos 2), after_wait)
unfolding wait wait_loop reap copy_status collect freeproc
waits = refl

wait_lem_example :
    ((c : ℕ) × (c < nproc)
      × ((j : ℕ) → j < c → is_exited_child toy 0 left j ≡ false)
      × (Reaped toy 0 c left (some (pos 2)) after_wait
          ⊎ Refused toy 0 c 0 left (some (pos 2)) after_wait))
    ⊎ (((j : ℕ) → j < nproc → is_exited_child toy 0 left j ≡ false)
        × Unanswered toy 0 (any_child toy 0 nproc 0 left) left (some (pos 2)) after_wait)
wait_lem_example = wait_lem toy 0 0 0 left (some (pos 2)) after_wait waits
