-- ===== src/Proc/Wake.antt =====
-- sleep, wakeup, yield and kill of kernel/proc.c, as changes of the process table. `me` is
-- `myproc()`, none on a CPU that runs no process. `sched` switches away between the two halves
-- of `sleep`; what other processes do meanwhile is theirs to model.
pub mod Laws
use xv6_riscv_private.Common.{
  ℕ, zero, suc, ◌+◌, Bool, true, false, ◌&&◌, Option, none, some, ltb, ◌==◌, if◌then◌else◌, update,
  for_each, ℤ, pos, negsuc,
}
use xv6_riscv_private.Proc.{
  ProcState, sleeping, runnable, running, Proc, Table, nproc, is_sleeping, is_proc,
}
use xv6_riscv_private.Proc.Fair.{get_min_accumulator}

-- the first loop of `wakeup`: a tick for each process with a pid above 4
unfoldable pub wake_tick : Proc → Proc
wake_tick p = elim p.state [
  | running ↦ if ltb 4 p.pid then record p { rtime = p.rtime + 1 } else p
  | sleeping ↦ if ltb 4 p.pid then record p { stime = p.stime + 1 } else p
  | runnable ↦ if ltb 4 p.pid then record p { retime = p.retime + 1 } else p
  | _ ↦ p
]

-- the body of the second loop; the minimum is taken once `p` is RUNNABLE
unfoldable pub wake_one : Option ℕ → ℕ → ℕ → Table → Table
wake_one me chan i t =
    let t' = update t i (record (t i) { state = runnable }) in
    let woken = update t' i (record (t' i) { accumulator = get_min_accumulator t' }) in
    if is_proc me i then t else if is_sleeping (t i).state && (t i).chan == chan then woken else t

unfoldable pub wakeup_loop : ℕ → ℕ → Option ℕ → ℕ → Table → Table
wakeup_loop zero i me chan t = t
wakeup_loop (suc n) i me chan t = wakeup_loop n (i + 1) me chan (wake_one me chan i t)

unfoldable pub wakeup : Option ℕ → ℕ → Table → Table
wakeup me chan t = wakeup_loop nproc 0 me chan (for_each nproc 0 wake_tick t)

-- `sleep` up to `sched()`, and after it
unfoldable pub fall_asleep : ℕ → ℕ → Table → Table
fall_asleep i chan t = update t i (record (t i) { chan = chan; state = sleeping })

unfoldable pub after_sleep : ℕ → Table → Table
after_sleep i t = update t i (record (t i) { chan = 0 })

-- `yield` up to `sched()`
unfoldable pub yield_cpu : ℕ → Table → Table
yield_cpu i t = update t i (record (t i) { state = runnable })

-- what `kill` writes to its victim
unfoldable pub kill_one : Proc → Proc
kill_one p =
    let q = record p { killed = true } in
    if is_sleeping p.state then record q { state = runnable } else q

unfoldable pub kill_loop : ℕ → ℕ → ℕ → Table → ℤ × Table
kill_loop zero i pid t = (negsuc 0, t)
kill_loop (suc n) i pid t =
    let rest = kill_loop n (i + 1) pid t in
    if (t i).pid == pid then (pos 0, update t i (kill_one (t i))) else rest

unfoldable pub kill : ℕ → Table → ℤ × Table
kill pid t = kill_loop nproc 0 pid t

unfoldable pub setkilled : ℕ → Table → Table
setkilled i t = update t i (record (t i) { killed = true })

unfoldable pub killed : ℕ → Table → Bool
killed i t = (t i).killed
