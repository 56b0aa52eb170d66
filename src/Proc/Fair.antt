-- ===== src/Proc/Fair.antt =====
-- The scheduling functions of kernel/proc.c: accumulators, virtual run time, the three schedulers, and
-- the tick counters. The `int` counters are natural numbers without a bound, which is what they are until they have counted 2 ^ 31 ticks. A division by zero is undefined in
-- C: the model returns `none` there.
pub mod Accumulator
pub mod Vruntime
use xv6_riscv_private.Common.{
  ℕ, zero, suc, ◌+◌, ◌*◌, ◌/◌, Bool, true, false, ◌&&◌, ◌||◌, Option, none, some, ltb, leb, ◌==◌,
  if◌then◌else◌, update, ℤ, pos, negsuc, ltb_ℤ, eqb_ℤ, to_int, for_each,
}
use xv6_riscv_private.Proc.{
  ProcState, sleeping, runnable, running, Proc, Table, nproc, is_active, is_runnable,
}

-- the loop of `getMinAccumulator`, with `n` processes left from index `i` on
unfoldable pub min_accumulator_loop : ℕ → ℕ → ℤ → Table → ℤ
min_accumulator_loop zero i min t = min
min_accumulator_loop (suc n) i min t =
    min_accumulator_loop n (i + 1)
      (if is_active (t i).state && (eqb_ℤ min (pos 0) || ltb_ℤ (t i).accumulator min)
        then to_int (t i).accumulator
        else min)
      t

unfoldable pub get_min_accumulator : Table → ℤ
get_min_accumulator t = min_accumulator_loop nproc 0 (pos 0) t

-- `75 ? p->cfs_priority == 0 : ...` is the value of the comparison, since 75 is not 0.
unfoldable pub decay : Proc → ℕ
decay p = if p.cfs_priority == 0 then 1 else 0

unfoldable pub vruntime : Proc → Option ℕ
unfolding decay
vruntime p =
    let total = p.rtime + p.stime + p.retime in
    if total == 0 then none else some (decay p * p.rtime / total)

-- `if (min == 0 || vruntime < min) min = vruntime;`
abbrev pub lower : ℕ → ℕ → ℕ
lower min v = if min == 0 || ltb v min then v else min

abbrev pub lower? : ℕ → Option ℕ → Option ℕ
lower? min none = none
lower? min (some v) = some (lower min v)

abbrev pub bind_ℕ : Option ℕ → (ℕ → Option ℕ) → Option ℕ
bind_ℕ none f = none
bind_ℕ (some v) f = f v

unfoldable pub min_vruntime_loop : ℕ → ℕ → ℕ → Table → Option ℕ
min_vruntime_loop zero i min t = some min
min_vruntime_loop (suc n) i min t =
    bind_ℕ (if is_active (t i).state then lower? min (vruntime (t i)) else some min)
      (λ m. min_vruntime_loop n (i + 1) m t)

unfoldable pub get_min_vruntime : Table → Option ℕ
get_min_vruntime t = min_vruntime_loop nproc 0 0 t

-- `p->state = RUNNING; c->proc = p; swtch(...)`: what the CPU runs next
abbrev pub dispatch : ℕ → Table → Table × Option ℕ
dispatch i t = (update t i (record (t i) { state = running }), some i)

-- The schedulers: the table and the process switched to, if any.
unfoldable pub default_scheduler : ℕ → Table → Table × Option ℕ
default_scheduler i t = if is_runnable (t i).state then dispatch i t else (t, none)

unfoldable pub priority_scheduler : ℕ → Table → Table × Option ℕ
priority_scheduler i t =
    let acc = get_min_accumulator t in
    if is_runnable (t i).state && eqb_ℤ (t i).accumulator acc then dispatch i t else (t, none)

unfoldable pub cfs_scheduler : ℕ → Table → Option (Table × Option ℕ)
cfs_scheduler i t = elim (get_min_vruntime t) [
  | none ↦ none
  | some min ↦ elim (vruntime (t i)) [
    | none ↦ none
    | some v ↦ some (if is_runnable (t i).state && v == min then dispatch i t else (t, none))
  ]
]

-- the `switch` of `update_ticks`
unfoldable pub tick : Proc → Proc
tick p = elim p.state [
  | sleeping ↦ record p { stime = p.stime + 1 }
  | runnable ↦ record p { retime = p.retime + 1 }
  | running ↦ record p { rtime = p.rtime + 1 }
  | _ ↦ p
]

unfoldable pub update_ticks : Table → Table
update_ticks t = for_each nproc 0 tick t

-- `set_ps_priority` and `set_cfs_priority` on the calling process. The second returns 0 always.
unfoldable pub set_ps_priority : ℤ → Proc → Proc
set_ps_priority priority p = record p { ps_priority = priority }

unfoldable pub set_cfs_priority : ℤ → Proc → Proc × ℤ
set_cfs_priority (pos n) p = (if leb n 2 then record p { cfs_priority = n } else p, pos 0)
set_cfs_priority (negsuc n) p = (p, pos 0)
