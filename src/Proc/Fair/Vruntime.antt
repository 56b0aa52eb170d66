-- ===== src/Proc/Fair/Vruntime.antt =====
-- Virtual run time, the CFS scheduler, the tick counters and set_cfs_priority.
use xv6_riscv_private.Common.{
  ℕ, zero, suc, ◌+◌, ◌*◌, ◌/◌, ◌≤◌, ◌<◌, ◌≡◌, inl, inr, refl, ◌∙◌, Bool, true, false, ◌&&◌, Option,
  none, some, ltb, leb, ◌==◌, if◌then◌else◌, ℤ, pos, negsuc, arith, Bool-cases, for_each_lem,
  Option-cases,
}
use xv6_riscv_private.Proc.{ProcState, Proc, Table, nproc, is_active}
use xv6_riscv_private.Proc.Fair.{
  vruntime, lower?, min_vruntime_loop, get_min_vruntime, default_scheduler, cfs_scheduler, tick,
  update_ticks, set_cfs_priority,
}

abbrev pub ticks : Proc → ℕ
ticks p = p.rtime + p.stime + p.retime

-- A process with no tick yet has no virtual run time: the division is by zero.
vruntime-none : (p : Proc) → ticks p ≡ 0 → vruntime p ≡ none
unfolding vruntime
vruntime-none p h = ground arith

self_div : (n : ℕ) → 0 < n → 1 * n / n ≡ 1
self_div n h = grind arith

small_div : (n d : ℕ) → n < d → 1 * n / d ≡ 0
small_div n d h = grind arith

zero_div : (n d : ℕ) → 0 * n / d ≡ 0
zero_div n d = grind arith

-- The virtual run time of a process that has had a tick is 0 or 1: 1 if its priority is 0 and it
-- has run in every tick, and 0 otherwise, whatever its run time. The factors 75, 100 and 125 of
-- the source play no part.
pub vruntime_lem :
    (p : Proc)
    → 0 < ticks p
    → vruntime p ≡ some (if p.cfs_priority == 0 && p.stime + p.retime == 0 then 1 else 0)
unfolding vruntime
vruntime_lem p h = elim (Bool-cases (p.cfs_priority == 0)) [
  | inl high ↦ elim (Bool-cases (p.stime + p.retime == 0)) [
    | inl all ↦ let e : p.rtime ≡ ticks p = ground arith in ground (arith, self_div (ticks p) h)
    | inr part ↦ ground (arith, small_div p.rtime (ticks p))
  ]
  | inr other ↦ ground (arith, zero_div p.rtime (ticks p))
]

-- one round of the loop of `getMinVruntime`
abbrev round : Table → ℕ → ℕ → Option ℕ
round t i m = if is_active (t i).state then lower? m (vruntime (t i)) else some m

min_loop-none :
    (t : Table) (k n i m : ℕ)
    → i ≤ k
    → k < i + n
    → is_active (t k).state ≡ true
    → vruntime (t k) ≡ none
    → min_vruntime_loop n i m t ≡ none
unfolding min_vruntime_loop
min_loop-none t k zero i m l u a z = absurd (omega arith)
min_loop-none t k (suc n) i m l u a z = elim (Option-cases (round t i m)) [
  | inl e ↦ rw e
  | inr (v, e) ↦ elim (Bool-cases (i == k)) [
    | inl q ↦ let q' : i ≡ k = ground arith in absurd (ground (arith, rw q' at e))
    | inr q ↦ rw e (min_loop-none t k n (i + 1) v (ground arith) (omega arith) a z)
  ]
]

get_min_vruntime-none :
    (t : Table) (k : ℕ)
    → k < nproc
    → is_active (t k).state ≡ true
    → ticks (t k) ≡ 0
    → get_min_vruntime t ≡ none
unfolding get_min_vruntime
get_min_vruntime-none t k lt a z =
    min_loop-none t k nproc 0 0 (omega arith) lt a (vruntime-none (t k) z)

-- While some process of the table is runnable or running and has had no tick, as after `fork`, the
-- minimum divides by zero, and with it the CFS scheduler, whichever process it looks at.
pub cfs_scheduler-undefined :
    (t : Table) (k i : ℕ)
    → k < nproc
    → is_active (t k).state ≡ true
    → ticks (t k) ≡ 0
    → (get_min_vruntime t ≡ none) × (cfs_scheduler i t ≡ none)
unfolding cfs_scheduler
cfs_scheduler-undefined t k i lt a z =
    let e = get_min_vruntime-none t k lt a z in (e, rw (e, cfs_scheduler))

-- every runnable or running process has had a tick, and is not one of priority 0 that never waited
abbrev pub HasWaited : Proc → Type 0
HasWaited p = (0 < ticks p) × ((p.cfs_priority == 0 && p.stime + p.retime == 0) ≡ false)

vruntime-zero : (p : Proc) → HasWaited p → vruntime p ≡ some 0
vruntime-zero p (h, w) = vruntime_lem p h ∙ rw w

min_loop-zero :
    (t : Table)
    → ((j : ℕ) → is_active (t j).state ≡ true → HasWaited (t j))
    → (n i : ℕ) → min_vruntime_loop n i 0 t ≡ some 0
unfolding min_vruntime_loop
min_loop-zero t w zero i = refl
min_loop-zero t w (suc n) i = elim (Bool-cases (is_active (t i).state)) [
  | inl a ↦ rw (a, vruntime-zero (t i) (w i a)) (min_loop-zero t w n (i + 1))
  | inr a ↦ rw a (min_loop-zero t w n (i + 1))
]

get_min_vruntime-zero :
    (t : Table)
    → ((j : ℕ) → is_active (t j).state ≡ true → HasWaited (t j))
    → get_min_vruntime t ≡ some 0
unfolding get_min_vruntime
get_min_vruntime-zero t w = min_loop-zero t w nproc 0

-- Once every runnable or running process has waited, on each of them the CFS scheduler is
-- the default scheduler: a runnable one is switched to, whatever its run time and its priority.
pub cfs_scheduler-eq-default :
    (t : Table)
    → ((j : ℕ) → is_active (t j).state ≡ true → HasWaited (t j))
    → (i : ℕ) → is_active (t i).state ≡ true
    → cfs_scheduler i t ≡ some (default_scheduler i t)
unfolding cfs_scheduler default_scheduler
cfs_scheduler-eq-default t w i a =
    rw (get_min_vruntime-zero t w, vruntime-zero (t i) (w i a), cfs_scheduler) (ground arith)

abbrev pub is_counted : ProcState → Bool
is_counted ProcState.unused = false
is_counted ProcState.used = false
is_counted ProcState.zombie = false
is_counted _ = true

ticks-tick : (p : Proc) → ticks (tick p) ≡ ticks p + (if is_counted p.state then 1 else 0)
unfolding tick
ticks-tick p = ground arith

-- `update_ticks` gives each of the 64 processes exactly one tick of its kind, and the total of its
-- three counters grows by one exactly if it is sleeping, runnable or running.
pub update_ticks_lem :
    (t : Table) (j : ℕ)
    → j < nproc
    → (update_ticks t j ≡ tick (t j))
      × (ticks (update_ticks t j) ≡ ticks (t j) + (if is_counted (t j).state then 1 else 0))
unfolding update_ticks
update_ticks_lem t j lt =
    let e : (leb 0 j && ltb j (0 + nproc)) ≡ true = ground arith in
    let q = for_each_lem nproc 0 tick t j ∙ rw e in (q, rw q (ticks-tick (t j)))

-- `set_cfs_priority` stores 0, 1 or 2, and ignores any other value; it returns 0 in both cases.
pub set_cfs_priority_lem :
    (priority : ℤ) (p : Proc)
    → p.cfs_priority ≤ 2
    → ((set_cfs_priority priority p).0.cfs_priority ≤ 2)
      × ((set_cfs_priority priority p).1 ≡ pos 0)
      × (record (set_cfs_priority priority p).0 { cfs_priority = p.cfs_priority } ≡ p)
unfolding set_cfs_priority
set_cfs_priority_lem (pos n) p h = ground arith
set_cfs_priority_lem (negsuc n) p h = (h, refl, refl)
