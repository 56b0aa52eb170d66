-- ===== src/Log/Absorb.antt =====
-- What the single calls of begin_op, log_write and end_op do to the log.
use xv6_riscv_private.Common.{
  ℕ, zero, suc, ◌+◌, ◌≤◌, ◌<◌, ◌≡◌, ◌≢◌, inl, inr, refl, false, ◌==◌, arith, Bool-cases, some, ok,
  pos, inc,
}
use xv6_riscv_private.Log.{LogHeader, Device, logsize, commit}
use xv6_riscv_private.Log.Ops.{Log, begin_op, end_op, find_entry, absorb, log_write, might_exhaust}

-- The entries of the header are distinct.
abbrev pub AreDistinct : LogHeader → Type 0
AreDistinct lh = (i j : ℕ) → i < j → j < lh.n → lh.block i ≢ lh.block j

find_entry_lem :
    (n i : ℕ) (lh : LogHeader) (b : ℕ)
    → (i ≤ find_entry n i lh b)
      × (find_entry n i lh b ≤ i + n)
      × (find_entry n i lh b < i + n → lh.block (find_entry n i lh b) ≡ b)
      × ((j : ℕ) → i ≤ j → j < find_entry n i lh b → lh.block j ≢ b)
unfolding find_entry
find_entry_lem zero i lh b =
    (omega arith, omega arith, λ lt. absurd (omega arith), λ j lo hi. absurd (omega arith))
find_entry_lem (suc n) i lh b =
    let r = find_entry_lem n (i + 1) lh b in
    elim (Bool-cases (lh.block i == b)) [
      | inl e ↦
          rw e (omega arith, omega arith, λ _. ground (arith, e), λ j lo hi. absurd (omega arith))
      | inr e ↦ rw e (
        omega (arith, r.0),
        omega (arith, r.1),
        λ lt. r.2 (omega arith),
        λ j lo hi. elim (Bool-cases (i == j)) [
          | inl same ↦ ground (arith, e)
          | inr other ↦ r.3 j (ground arith) hi
        ],
      )
    ]

-- what `log_write` has done to the log
pub record Written (b : ℕ) (lg lg' : Log) : Type 0 where
  pub outstanding : lg'.outstanding ≡ lg.outstanding
  pub committing : lg'.committing ≡ lg.committing
  pub size : lg'.size ≡ lg.size
  pub most : lg'.lh.n ≤ lg.lh.n + 1
  pub distinct : AreDistinct lg'.lh

pub absorb-Written :
    (b : ℕ) (lg : Log) (d : Device) → AreDistinct lg.lh → Written b lg (absorb b lg d).0
unfolding absorb
absorb-Written b lg d h =
    let r = find_entry_lem lg.lh.n 0 lg.lh b in
    let i = find_entry lg.lh.n 0 lg.lh b in
    elim (Bool-cases (i == lg.lh.n)) [
      | inl e ↦ rw e (record {
        outstanding = refl;
        committing = refl;
        size = refl;
        most = omega arith;
        distinct = λ x y lt hi.
            let old = h x y lt in let new = r.3 x (omega arith) in ground (arith, e, old, new);
      })
      | inr e ↦ rw e (record {
        outstanding = refl;
        committing = refl;
        size = refl;
        most = omega arith;
        distinct = λ x y lt hi.
            let old = h x y lt hi in let found = r.2 in ground (arith, e, r.1, old, found);
      })
    ]

pub log_write-eq-ok :
    (b : ℕ) (lg : Log) (d : Device) (k : ℕ)
    → lg.outstanding ≡ pos (suc k)
    → lg.lh.n < logsize
    → lg.lh.n + 1 < lg.size
    → log_write b lg d ≡ ok (absorb b lg d)
unfolding log_write
log_write-eq-ok b lg d k e small size = rw e (ground arith)

pub commit-count : (start : ℕ) (lh : LogHeader) (d : Device) → (commit start lh d).0.n ≡ 0
unfolding commit
commit-count start lh d = ground arith

pub begin_op-eq-some :
    (lg lg' : Log)
    → begin_op lg ≡ some lg'
    → (lg.committing ≡ false)
      × (might_exhaust lg.lh.n lg.outstanding ≡ false)
      × (record lg { outstanding = inc lg.outstanding } ≡ lg')
unfolding begin_op
begin_op-eq-some lg lg' e = ground (arith, e)

pub end_op-eq-ok :
    (lg : Log) (k : ℕ)
    → lg.committing ≡ false
    → lg.outstanding ≡ pos (suc k)
    → end_op lg ≡ ok (k == 0, record lg { outstanding = pos k; committing = k == 0 })
unfolding end_op
end_op-eq-ok lg k free e = elim (Bool-cases (k == 0)) [
  | inl z ↦ rw (e, free, z) refl
  | inr z ↦ rw (e, free, z) refl
]
