-- ===== src/Spinlock/Nesting.antt =====
-- push_off and pop_off are matched, and interrupts are off in between.
use xv6_riscv_private.Common.{
  ℕ, zero, suc, ◌+◌, ◌<◌, ◌≡◌, refl, true, false, none, some, ◌==◌, Outcome, ok, ◌>>=◌, arith,
}
use xv6_riscv_private.Spinlock.{Cpu, Spinlock, push_off, pop_off, holding, acquire, release}

pub push_offs : ℕ → Cpu → Cpu
push_offs zero c = c
push_offs (suc n) c = push_offs n (push_off c)

pub pop_offs : ℕ → Cpu → Outcome Cpu
pop_offs zero c = ok c
pop_offs (suc n) c = do c' ← pop_offs n c; pop_off c'

-- Under any nesting the interrupts of the CPU are off.
pub record IsQuiet (c : Cpu) : Type 0 where
  pub quiet : 0 < c.noff → c.intr ≡ false

-- `push_off` establishes the invariant and leaves interrupts off.
pub push_off-IsQuiet : (c : Cpu) → IsQuiet (push_off c) × ((push_off c).intr ≡ false)
unfolding push_off
push_off-IsQuiet c = (record { quiet = λ _. refl }, refl)

pub pop_off-IsQuiet : (c c' : Cpu) → pop_off c ≡ ok c' → IsQuiet c'
unfolding pop_off
pop_off-IsQuiet c c' e = record { quiet = λ h. ground arith }

push_offs-noff : (n : ℕ) (c : Cpu) → (push_offs n c).noff ≡ c.noff + n
unfolding push_offs push_off
push_offs-noff zero c = ground arith
push_offs-noff (suc n) c = ground (arith, push_offs-noff n (push_off c))

-- what a CPU looks like after `n` matched pairs: the same, but for the saved `intena`
pub record Restored (c c' : Cpu) : Type 0 where
  pub noff : c'.noff ≡ c.noff
  pub intr : c'.intr ≡ c.intr
  pub intena : 0 < c.noff → c'.intena ≡ c.intena

pop_off-Restored :
    (c d : Cpu)
    → IsQuiet c
    → Restored (push_off c) d
    → (c' : Cpu) × (pop_off d ≡ ok c') × Restored c c'
unfolding pop_off push_off
pop_off-Restored c d q r =
    let quiet = q.quiet in (record d { noff = c.noff; intr = c.intr }, ground arith, ground arith)

-- However deep the nesting, as many `pop_off`s as `push_off`s do not panic, and leave the CPU with
-- the nesting depth and the interrupt state that it had (and its saved `intena`, if it was inside a
-- nesting already).
pub pop_offs-push_offs :
    (n : ℕ) (c : Cpu)
    → IsQuiet c
    → (c' : Cpu) × (pop_offs n (push_offs n c) ≡ ok c') × Restored c c'
unfolding pop_offs push_offs
pop_offs-push_offs zero c q = (c, refl, record { noff = refl; intr = refl; intena = λ _. refl })
pop_offs-push_offs (suc n) c q =
    let (d, e, r) = pop_offs-push_offs n (push_off c) (push_off-IsQuiet c).0 in
    rw e (pop_off-Restored c d q r)

-- Before the last of them interrupts are still off.
pub push_offs-off : (n : ℕ) (c : Cpu) → (push_offs (suc n) c).intr ≡ false
unfolding push_offs
push_offs-off zero c = (push_off-IsQuiet c).1
push_offs-off (suc n) c = push_offs-off n (push_off c)

-- Acquiring a free lock and releasing it neither panics nor leaves a trace on the CPU, and the
-- lock is free again; in between it is held by this CPU, which has its interrupts off.
pub release-acquire :
    (id : ℕ) (c : Cpu) (lk : Spinlock)
    → IsQuiet c
    → lk.locked ≡ false
    → (d : Cpu) × (l : Spinlock) × (acquire id c lk ≡ ok (d, some l))
      × (holding id l ≡ true)
      × (d.intr ≡ false)
      × ((c' : Cpu) × (release id d l ≡ ok (c', record { locked = false; cpu = none }))
          × Restored c c')
unfolding acquire release
release-acquire id c lk q free =
    let self : (id == id) ≡ true = ground arith in
    let d = push_off c in
    let l : Spinlock = record { locked = true; cpu = some id } in
    let (c', e, r) =
      pop_off-Restored c d q (record { noff = refl; intr = refl; intena = λ _. refl }) in
    (d, l, rw free, self, refl, (c', rw (self, e), r))
