-- ===== src/Proc/Wake/Laws.antt =====
-- Whom `wakeup` and `kill` wake.
use xv6_riscv_private.Common.{
  ℕ, zero, suc, ◌+◌, ◌≤◌, ◌<◌, ◌≡◌, ◌≢◌, ◌⊎◌, inl, inr, refl, ◌∙◌, Bool, true, false, ◌&&◌, ◌||◌,
  not, Option, ltb, leb, ◌==◌, if◌then◌else◌, update, for_each, for_each_lem, ℤ, pos, negsuc, arith,
  Bool-cases,
}
use xv6_riscv_private.Proc.{runnable, Proc, Table, nproc, is_sleeping, is_proc}
use xv6_riscv_private.Proc.Wake.{
  wake_tick, wake_one, wakeup_loop, wakeup, fall_asleep, kill_one, kill_loop, kill,
}

-- what scheduling never changes of a process
pub record SameIdentity (p q : Proc) : Type 0 where
  pub pid : q.pid ≡ p.pid
  pub parent : q.parent ≡ p.parent
  pub chan : q.chan ≡ p.chan
  pub killed : q.killed ≡ p.killed
  pub xstate : q.xstate ≡ p.xstate
  pub sz : q.sz ≡ p.sz
  pub pagetable : q.pagetable ≡ p.pagetable
  pub trapframe : q.trapframe ≡ p.trapframe

abbrev pub is_asleep_on : ℕ → Proc → Bool
is_asleep_on chan p = is_sleeping p.state && p.chan == chan

abbrev Woken : Option ℕ → ℕ → Bool → Proc → Proc → ℕ → Type 0
Woken me chan inside p q j =
    (q.state
      ≡ (if inside && (not (is_proc me j) && is_asleep_on chan p) then runnable else p.state))
    × SameIdentity p q

SameIdentity-refl : (p : Proc) → SameIdentity p p
SameIdentity-refl p = record {
  pid = refl;
  parent = refl;
  chan = refl;
  killed = refl;
  xstate = refl;
  sz = refl;
  pagetable = refl;
  trapframe = refl;
}

wake_one_lem :
    (me : Option ℕ) (chan i : ℕ) (t : Table) (j : ℕ)
    → Woken me chan (i == j) (t j) (wake_one me chan i t j) j
unfolding wake_one
wake_one_lem me chan i t j = elim (Bool-cases (i == j)) [
  | inl e ↦
      let q : i ≡ j = ground arith in
      rw (← q) (elim (Bool-cases (is_proc me i)) [
        | inl mine ↦ rw (mine, wake_one) (ground arith, SameIdentity-refl (t i))
        | inr other ↦
            rw (other, wake_one)
              (elim (Bool-cases (is_asleep_on chan (t i))) [
                | inl a ↦ rw a (ground arith, ground arith)
                | inr a ↦ rw a (ground arith, SameIdentity-refl (t i))
              ])
      ])
  | inr e ↦
      let same : wake_one me chan i t j ≡ t j = ground arith in
      rw (same, e) (refl, SameIdentity-refl (t j))
]

Woken-trans :
    (me : Option ℕ) (chan j : ℕ) (first rest : Bool) (p q r : Proc)
    → Woken me chan first p q j
    → Woken me chan rest q r j
    → Woken me chan (first || rest) p r j
Woken-trans me chan j first rest p q r f g = (ground arith, ground arith)

wake_tick_lem : (p : Proc) → (wake_tick p).state ≡ p.state
unfolding wake_tick
wake_tick_lem p = ground arith

wake_tick-SameIdentity : (p : Proc) → SameIdentity p (wake_tick p)
unfolding wake_tick
wake_tick-SameIdentity p = ground arith

wakeup_loop-Woken :
    (n i : ℕ) (me : Option ℕ) (chan : ℕ) (t : Table) (j : ℕ)
    → Woken me chan (leb i j && ltb j (i + n)) (t j) (wakeup_loop n i me chan t j) j
unfolding wakeup_loop
wakeup_loop-Woken zero i me chan t j = (ground arith, SameIdentity-refl (t j))
wakeup_loop-Woken (suc n) i me chan t j =
    let t' = wake_one me chan i t in
    let here : (leb i j && ltb j (i + suc n)) ≡ ((i == j) || (leb (i + 1) j && ltb j (i + 1 + n))) =
      ground arith in
    rw here (
      Woken-trans me chan j (i == j) (leb (i + 1) j && ltb j (i + 1 + n)) (t j) (t' j)
        (wakeup_loop n (i + 1) me chan t' j) (wake_one_lem me chan i t j)
        (wakeup_loop-Woken n (i + 1) me chan t' j))

SameIdentity-trans : (p q r : Proc) → SameIdentity p q → SameIdentity q r → SameIdentity p r
SameIdentity-trans p q r f g = ground arith

ticked :
    (t : Table) (j : ℕ)
    → ((for_each nproc 0 wake_tick t j).state ≡ (t j).state)
      × SameIdentity (t j) (for_each nproc 0 wake_tick t j)
ticked t j =
    rw (for_each_lem nproc 0 wake_tick t j) (elim (Bool-cases (leb 0 j && ltb j (0 + nproc))) [
      | inl e ↦ rw e (wake_tick_lem (t j), wake_tick-SameIdentity (t j))
      | inr e ↦ rw e (refl, SameIdentity-refl (t j))
    ])

-- `wakeup` makes runnable exactly the processes of the table that sleep on the channel, except the
-- caller; every other keeps its state, and none loses its identity, parent, channel or memory.
pub wakeup_lem :
    (me : Option ℕ) (chan : ℕ) (t : Table) (j : ℕ)
    → j < nproc
    → ((wakeup me chan t j).state
        ≡ (if not (is_proc me j) && is_asleep_on chan (t j) then runnable else (t j).state))
      × SameIdentity (t j) (wakeup me chan t j)
unfolding wakeup
wakeup_lem me chan t j lt =
    let t' = for_each nproc 0 wake_tick t in
    let (s, same) = ticked t j in
    let inside : (leb 0 j && ltb j (0 + nproc)) ≡ true = ground arith in
    let (s', same') = wakeup_loop-Woken nproc 0 me chan t' j in
    (
      s' ∙ rw (inside, s, same.chan),
      SameIdentity-trans (t j) (t' j) (wakeup_loop nproc 0 me chan t' j) same same',
    )

-- A process that goes to sleep on a channel is runnable after any `wakeup` of that channel by
-- another process.
pub wakeup-fall_asleep :
    (i chan : ℕ) (me : Option ℕ) (t : Table)
    → i < nproc
    → is_proc me i ≡ false
    → (wakeup me chan (fall_asleep i chan t) i).state ≡ runnable
unfolding fall_asleep
wakeup-fall_asleep i chan me t lt other =
    (wakeup_lem me chan (fall_asleep i chan t) i lt).0 ∙ rw other (ground arith)

-- what `kill` did, when the processes from `i` on were searched
abbrev Killed : ℕ → ℕ → ℕ → Table → ℤ × Table → Type 0
Killed n i pid t (r, t') =
    ((r ≡ pos 0)
      × ((k : ℕ) × (i ≤ k)
          × (k < i + n)
          × ((t k).pid ≡ pid)
          × ((j : ℕ) → i ≤ j → j < k → (t j).pid ≢ pid)
          × (t' ≡ update t k (kill_one (t k)))))
    ⊎ ((r ≡ negsuc 0) × (t' ≡ t) × ((j : ℕ) → i ≤ j → j < i + n → (t j).pid ≢ pid))

kill_loop-Killed : (n i pid : ℕ) (t : Table) → Killed n i pid t (kill_loop n i pid t)
unfolding kill_loop
kill_loop-Killed zero i pid t = inr (refl, refl, λ j l u. absurd (omega arith))
kill_loop-Killed (suc n) i pid t = elim (Bool-cases ((t i).pid == pid)) [
  | inl hit ↦ rw hit (
      inl
        (refl, (i, omega arith, omega arith, ground arith, (λ j l u. absurd (omega arith)), refl)))
  | inr miss ↦ rw miss (elim (kill_loop-Killed n (i + 1) pid t) [
    | inl (r, (k, l, u, e, before, q)) ↦
        inl (r, (k, omega arith, omega arith, e, λ j l' u' e'. ground (arith, before j), q))
    | inr (r, q, all) ↦ inr (r, q, λ j l u e'. ground (arith, all j))
  ])
]

kill_one_lem :
    (p : Proc)
    → ((kill_one p).killed ≡ true)
      × ((kill_one p).state ≡ (if is_sleeping p.state then runnable else p.state))
unfolding kill_one
kill_one_lem p = ground arith

self : (k : ℕ) → (k == k) ≡ true
self k = ground arith

-- `kill` marks the first process with the pid and makes it runnable if it was sleeping, changes no
-- other process, and returns 0; it returns -1 and changes nothing exactly if there is none.
pub kill_lem :
    (pid : ℕ) (t : Table)
    → (((kill pid t).0 ≡ pos 0)
        × ((k : ℕ) × (k < nproc)
            × ((t k).pid ≡ pid)
            × ((j : ℕ) → j < k → (t j).pid ≢ pid)
            × ((kill pid t).1 k).killed ≡ true
            × ((kill pid t).1 k).state ≡ (if is_sleeping (t k).state then runnable else (t k).state)
            × ((j : ℕ) → j ≢ k → (kill pid t).1 j ≡ t j)))
      ⊎ (((kill pid t).0 ≡ negsuc 0)
          × ((kill pid t).1 ≡ t)
          × ((j : ℕ) → j < nproc → (t j).pid ≢ pid))
unfolding kill
kill_lem pid t = elim (kill_loop-Killed nproc 0 pid t) [
  | inl (r, (k, l, u, e, before, q)) ↦ inl (
    r,
    (
      k,
      u,
      e,
      (λ j u'. before j (omega arith) u'),
      rw (q, self k) (kill_one_lem (t k)).0,
      rw (q, self k) (kill_one_lem (t k)).1,
      (λ j ne. rw q (ground arith)),
    ),
  )
  | inr (r, q, all) ↦ inr (r, q, λ j u. all j (omega arith) u)
]
