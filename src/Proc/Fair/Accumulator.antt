-- ===== src/Proc/Fair/Accumulator.antt =====
-- getMinAccumulator and the priority scheduler.
use xv6_riscv_private.Common.{
  ℕ, zero, suc, ◌+◌, ◌-◌, ◌^◌, ◌≤◌, ◌<◌, ◌≡◌, ◌⊎◌, inl, inr, refl, ◌∙◌, ap, true, ◌&&◌, ◌||◌, some,
  ltb, ◌==◌, if◌then◌else◌, pos, ltb_ℤ, eqb_ℤ, to_int, arith, Bool-cases,
}
use xv6_riscv_private.Proc.{Table, nproc, is_active, is_runnable}
use xv6_riscv_private.Proc.Fair.{min_accumulator_loop, get_min_accumulator, priority_scheduler}

abbrev pub Active : Table → ℕ → Type 0
Active t i = is_active (t i).state ≡ true

-- The accumulators are the numbers `acc`, which fit in an `int`.
pub record HasAccumulators (t : Table) (acc : ℕ → ℕ) : Type 0 where
  pub holds : (i : ℕ) → (t i).accumulator ≡ pos (acc i)
  pub small : (i : ℕ) → acc i < 2 ^ 31

to_int_small : (n : ℕ) → n < 2 ^ 31 → to_int (pos n) ≡ pos n
unfolding to_int
to_int_small n h = ground arith

-- what the loop has found in the `n` processes from `i` on, started at `m`
record Found (t : Table) (acc : ℕ → ℕ) (n i m m' : ℕ) : Type 0 where
  lower : (j : ℕ) → i ≤ j → j < i + n → Active t j → m' ≤ acc j
  kept : 0 < m → m' ≤ m
  positive : 0 < m → 0 < m'
  seen : (j : ℕ) → i ≤ j → j < i + n → Active t j → 0 < m'
  from : (m' ≡ m) ⊎ ((j : ℕ) × (i ≤ j) × (j < i + n) × Active t j × (acc j ≡ m'))

-- the new minimum after process `i`
abbrev step_min : Table → (ℕ → ℕ) → ℕ → ℕ → ℕ
step_min t acc i m = if is_active (t i).state && (m == 0 || ltb (acc i) m) then acc i else m

module _ {t : Table} {acc : ℕ → ℕ} (h : HasAccumulators t acc) where
  step_min_lem :
      (i m : ℕ)
      → (if is_active (t i).state && (eqb_ℤ (pos m) (pos 0) || ltb_ℤ (t i).accumulator (pos m))
          then to_int (t i).accumulator
          else pos m)
        ≡ pos (step_min t acc i m)
  step_min_lem i m = rw (h.holds i, to_int_small (acc i) (h.small i)) (ground arith)

  loop-step :
      (n i m : ℕ)
      → min_accumulator_loop (suc n) i (pos m) t
        ≡ min_accumulator_loop n (i + 1) (pos (step_min t acc i m)) t
  unfolding min_accumulator_loop
  loop-step n i m = ap (λ v. min_accumulator_loop n (i + 1) v t) (step_min_lem i m)

  Found-step :
      (n i m m' : ℕ)
      → (Active t i → 0 < acc i)
      → Found t acc n (i + 1) (step_min t acc i m) m'
      → Found t acc (suc n) i m m'
  Found-step n i m m' positive f = record {
    lower = λ j l u a. elim (Bool-cases (j == i)) [
      | inl e ↦ ground (arith, positive, f.kept)
      | inr e ↦ f.lower j (ground arith) (omega arith) a
    ];
    kept = λ p. ground (arith, positive, f.kept);
    positive = λ p. ground (arith, positive, f.positive);
    seen = λ j l u a. elim (Bool-cases (j == i)) [
      | inl e ↦ ground (arith, positive, f.positive)
      | inr e ↦ f.seen j (ground arith) (omega arith) a
    ];
    from = elim f.from [
      | inl e ↦ elim (Bool-cases (is_active (t i).state)) [
        | inl a ↦ elim (Bool-cases (m == 0 || ltb (acc i) m)) [
          | inl less ↦ inr (i, omega arith, omega arith, a, ground arith)
          | inr more ↦ inl (ground arith)
        ]
        | inr a ↦ inl (ground arith)
      ]
      | inr (j, l, u, a, e) ↦ inr (j, omega arith, omega arith, a, e)
    ];
  }

  loop-Found :
      (n i m : ℕ)
      → ((j : ℕ) → i ≤ j → Active t j → 0 < acc j)
      → (m' : ℕ) × (min_accumulator_loop n i (pos m) t ≡ pos m') × Found t acc n i m m'
  unfolding min_accumulator_loop
  loop-Found zero i m positive = (
    m,
    refl,
    record {
      lower = λ j l u a. absurd (omega arith);
      kept = λ p. omega arith;
      positive = λ p. p;
      seen = λ j l u a. absurd (omega arith);
      from = inl refl;
    },
  )
  loop-Found (suc n) i m positive =
      let (m', e, f) =
        loop-Found n (i + 1) (step_min t acc i m) (λ j l. positive j (omega arith)) in
      (m', loop-step n i m ∙ e, Found-step n i m m' (positive i (omega arith)) f)

  -- Where the accumulators of the runnable and running processes are positive, `getMinAccumulator`
  -- returns their minimum: it is below each of them and equal to one of them, if there is any.
  pub get_min_accumulator-IsMin :
      ((j : ℕ) → Active t j → 0 < acc j)
      → (k : ℕ) → k < nproc
      → Active t k
      → (m : ℕ) × (get_min_accumulator t ≡ pos m)
        × ((j : ℕ) → j < nproc → Active t j → m ≤ acc j)
        × ((j : ℕ) × (j < nproc) × Active t j × (acc j ≡ m))
  unfolding get_min_accumulator
  get_min_accumulator-IsMin positive k lt a =
      let (m, e, f) = loop-Found nproc 0 0 (λ j l. positive j) in
      (
        m,
        e,
        λ j u b. f.lower j (omega arith) u b,
        elim f.from [
          | inl e' ↦ absurd (omega (arith, f.seen k (omega arith) lt a))
          | inr (j, l, u, b, e') ↦ (j, omega arith, b, e')
        ],
      )

  -- Where the accumulators of the runnable and running processes are positive, the priority
  -- scheduler switches only to a runnable process whose accumulator is the least of them.
  pub priority_scheduler-least :
      ((j : ℕ) → Active t j → 0 < acc j)
      → (i : ℕ) {t' : Table} → i < nproc
      → priority_scheduler i t ≡ (t', some i)
      → (is_runnable (t i).state ≡ true) × ((j : ℕ) → j < nproc → Active t j → acc i ≤ acc j)
  unfolding priority_scheduler
  priority_scheduler-least positive i lt e = elim (Bool-cases (is_runnable (t i).state)) [
    | inl r ↦
        let a : Active t i = ground arith in
        let (m, g, below, _) = get_min_accumulator-IsMin positive i lt a in
        let same : acc i ≡ m = ground (arith, g, h.holds i) in
        (r, λ j u b. omega (arith, below j u b))
    | inr r ↦ absurd (ground arith)
  ]

  -- the part of the loop before process `i + d`
  loop-split :
      (d n i m : ℕ)
      → (m' : ℕ) × (min_accumulator_loop (d + n) i (pos m) t
          ≡ min_accumulator_loop n (i + d) (pos m') t)
  loop-split zero n i m =
      let e : i + 0 ≡ i = omega arith in let e' : 0 + n ≡ n = omega arith in (m, rw (e, e'))
  loop-split (suc d) n i m =
      let (m', q) = loop-split d n (i + 1) (step_min t acc i m) in
      let e : i + suc d ≡ i + 1 + d = omega arith in
      let e' : suc d + n ≡ suc (d + n) = omega arith in (m', rw (e, e') (loop-step (d + n) i m ∙ q))

  -- A runnable or running process with accumulator 0 makes `getMinAccumulator` forget all that it
  -- has seen: the result is what the processes after it give.
  pub get_min_accumulator-zero :
      (k : ℕ)
      → k < nproc
      → Active t k
      → acc k ≡ 0
      → get_min_accumulator t ≡ min_accumulator_loop (nproc - 1 - k) (k + 1) (pos 0) t
  unfolding get_min_accumulator
  get_min_accumulator-zero k lt a z =
      let (m', q) = loop-split k (suc (nproc - 1 - k)) 0 0 in
      let e : k + suc (nproc - 1 - k) ≡ nproc = omega arith in
      let e' : 0 + k ≡ k = omega arith in
      let z' : step_min t acc k m' ≡ 0 = ground arith in
      rw (e, e') at q ∙ loop-step (nproc - 1 - k) k m' ∙ rw z'
