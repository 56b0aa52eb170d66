-- ===== src/Spinlock/Exclusion.antt =====
-- Mutual exclusion, and that neither `acquire` nor `release` panics.
use xv6_riscv_private.Common.{ℕ, ◌≡◌, ◌≢◌, refl, true, false, none, some, update, arith, ◌==◌}
use xv6_riscv_private.Spinlock.{Spinlock, holding}
use xv6_riscv_private.Spinlock.System.{
  Pc, outside, spinning, swapped, inside, cleared, Move, enter, spin, win, claim, disown, unlock,
  System, Step, pick, Reach, start, later, owns,
}

-- what the position of one CPU says about the lock
abbrev pub Fits : Spinlock → ℕ → Pc → Type 0
Fits lk i outside = lk.cpu ≢ some i
Fits lk i spinning = lk.cpu ≢ some i
Fits lk i swapped = (lk.locked ≡ true) × (lk.cpu ≡ none)
Fits lk i inside = (lk.locked ≡ true) × (lk.cpu ≡ some i)
Fits lk i cleared = (lk.locked ≡ true) × (lk.cpu ≡ none)

pub record Inv (s : System) : Type 0 where
  pub fits : (i : ℕ) → Fits s.lock i (s.pc i)
  pub unique : (i j : ℕ) → owns (s.pc i) ≡ true → owns (s.pc j) ≡ true → i ≡ j
  pub unowned : s.lock.locked ≡ false → s.lock.cpu ≡ none

module _ (lk : Spinlock) (pc : ℕ → Pc) (fits : (i : ℕ) → Fits lk i (pc i))
    (unique : (i j : ℕ) → owns (pc i) ≡ true → owns (pc j) ≡ true → i ≡ j)
    (unowned : lk.locked ≡ false → lk.cpu ≡ none) (i : ℕ) where
  Move-Fits :
      {p p' : Pc} {l : Spinlock}
      → Move i lk p l p'
      → pc i ≡ p
      → (j : ℕ) → Fits l j (update pc i p' j)
  Move-Fits (enter h) e j = ground (arith, fits i, fits j, unique i j)
  Move-Fits (spin h) e j = ground (arith, fits i, fits j, unique i j)
  Move-Fits (win h) e j = ground (arith, fits i, fits j, unique i j)
  Move-Fits claim e j = ground (arith, fits i, fits j, unique i j)
  Move-Fits (disown h) e j = ground (arith, fits i, fits j, unique i j)
  Move-Fits unlock e j = ground (arith, fits i, fits j, unique i j)

  Move-unique :
      {p p' : Pc} {l : Spinlock}
      → Move i lk p l p'
      → pc i ≡ p
      → (a b : ℕ) → owns (update pc i p' a) ≡ true
      → owns (update pc i p' b) ≡ true
      → a ≡ b
  Move-unique (enter h) e a b = ground (arith, unique a b)
  Move-unique (spin h) e a b = ground (arith, unique a b)
  Move-unique (win h) e a b = ground (arith, unique a b, fits a, fits b)
  Move-unique claim e a b = ground (arith, unique a b, unique i a, unique i b)
  Move-unique (disown h) e a b = ground (arith, unique a b, unique i a, unique i b)
  Move-unique unlock e a b = ground (arith, unique a b, unique i a, unique i b)

  Move-unowned :
      {p p' : Pc} {l : Spinlock} → Move i lk p l p' → pc i ≡ p → l.locked ≡ false → l.cpu ≡ none
  Move-unowned (enter h) e q = unowned q
  Move-unowned (spin h) e q = unowned q
  Move-unowned (win h) e q = cc
  Move-unowned claim e q = ground (arith, fits i)
  Move-unowned (disown h) e q = refl
  Move-unowned unlock e q = ground (arith, fits i)

Step-Inv : {s t : System} → Step s t → Inv s → Inv t
Step-Inv {s} (pick i mv) v = record {
  fits = Move-Fits s.lock s.pc v.fits v.unique v.unowned i mv refl;
  unique = Move-unique s.lock s.pc v.fits v.unique v.unowned i mv refl;
  unowned = Move-unowned s.lock s.pc v.fits v.unique v.unowned i mv refl;
}

pub Reach-Inv : {s : System} → Reach s → Inv s
Reach-Inv start = record { fits = λ i. ground arith; unique = λ i j p q. cc; unowned = λ _. refl }
Reach-Inv (later r st) = Step-Inv st (Reach-Inv r)

-- In every reachable state, whatever the interleaving and the number of CPUs, at most one CPU is
-- between the swap that takes the lock and the write that frees it.
pub mutual_exclusion :
    {s : System} → Reach s → (i j : ℕ) → owns (s.pc i) ≡ true → owns (s.pc j) ≡ true → i ≡ j
mutual_exclusion r = (Reach-Inv r).unique

-- In every reachable state the checks against a panic pass: a CPU that stands before `acquire`
-- does not hold the lock, and one that stands before `release` does.
pub checks_pass :
    {s : System}
    → Reach s
    → (i : ℕ)
    → (s.pc i ≡ outside → holding i s.lock ≡ false) × (s.pc i ≡ inside → holding i s.lock ≡ true)
unfolding holding
checks_pass {s} r i =
    let f = (Reach-Inv r).fits i in
    let self : (i == i) ≡ true = ground arith in (λ e. ground arith, λ e. ground arith)
