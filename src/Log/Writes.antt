-- ===== src/Log/Writes.antt =====
-- What write_log leaves on the disk and in the cache.
use xv6_riscv_private.Common.{
  ℕ, zero, suc, ◌+◌, ◌-◌, ◌≤◌, ◌<◌, ◌≡◌, ◌⊎◌, inl, inr, refl, ◌==◌, if◌then◌else◌, arith,
  Bool-cases,
}
use xv6_riscv_private.Log.{Block, LogHeader, Device, modify, bwrite, write_log_loop}

-- one block written through the cache
pub write-cache :
    (b : ℕ) (v : Block) (d : Device) (c : ℕ)
    → (bwrite b (modify b v d)).cache c ≡ (if b == c then v else d.cache c)
unfolding bwrite modify
write-cache b v d c = ground arith

pub write-disk :
    (b : ℕ) (v : Block) (d : Device) (c : ℕ)
    → (bwrite b (modify b v d)).disk c
      ≡ (if d.budget == 0 then d.disk c else if b == c then v else d.disk c)
unfolding bwrite modify
write-disk b v d c = ground arith

pub write-budget :
    (b : ℕ) (v : Block) (d : Device) → (bwrite b (modify b v d)).budget ≡ d.budget - 1
unfolding bwrite modify
write-budget b v d = ground arith

-- `b` is no block of the log, whose header is block `start` and which has `m` blocks after it.
abbrev pub Apart : ℕ → ℕ → ℕ → Type 0
Apart start m b = (b < start) ⊎ (start + m < b)

pub write_log_loop-cache :
    (start n t : ℕ) (lh : LogHeader) (d : Device) (b : ℕ)
    → (b ≤ start + t) ⊎ (start + t + n < b)
    → (write_log_loop start n t lh d).cache b ≡ d.cache b
unfolding write_log_loop
write_log_loop-cache start zero t lh d b h = refl
write_log_loop-cache start (suc n) t lh d b h =
    let v = d.cache (lh.block t) in
    ground (
      arith,
      write-cache (start + t + 1) v d b,
      write_log_loop-cache start n (t + 1) lh (bwrite (start + t + 1) (modify (start + t + 1) v d))
          b,
    )

pub write_log_loop-disk :
    (start n t : ℕ) (lh : LogHeader) (d : Device) (b : ℕ)
    → (b ≤ start + t) ⊎ (start + t + n < b)
    → (write_log_loop start n t lh d).disk b ≡ d.disk b
unfolding write_log_loop
write_log_loop-disk start zero t lh d b h = refl
write_log_loop-disk start (suc n) t lh d b h =
    let v = d.cache (lh.block t) in
    ground (
      arith,
      write-disk (start + t + 1) v d b,
      write_log_loop-disk start n (t + 1) lh (bwrite (start + t + 1) (modify (start + t + 1) v d))
          b,
    )

pub write_log_loop-budget :
    (start n t : ℕ) (lh : LogHeader) (d : Device)
    → (write_log_loop start n t lh d).budget ≡ d.budget - n
unfolding write_log_loop
write_log_loop-budget start zero t lh d = omega arith
write_log_loop-budget start (suc n) t lh d =
    let v = d.cache (lh.block t) in
    omega (
      arith,
      write-budget (start + t + 1) v d,
      write_log_loop-budget start n (t + 1) lh
          (bwrite (start + t + 1) (modify (start + t + 1) v d)),
    )

-- Log block `j` is in the cache what the block of entry `j` was, and on the disk too, if all the
-- writes arrived.
pub write_log_loop-copies :
    (start m n t : ℕ) (lh : LogHeader) (d : Device)
    → t + n ≤ m
    → ((j : ℕ) → j < m → Apart start m (lh.block j))
    → (j : ℕ) → t ≤ j
    → j < t + n
    → ((write_log_loop start n t lh d).cache (start + j + 1) ≡ d.cache (lh.block j))
      × (n ≤ d.budget → (write_log_loop start n t lh d).disk (start + j + 1) ≡ d.cache (lh.block j))
unfolding write_log_loop
write_log_loop-copies start m zero t lh d h apart j lo hi = ground arith
write_log_loop-copies start m (suc n) t lh d h apart j lo hi =
    let v = d.cache (lh.block t) in
    let d' = bwrite (start + t + 1) (modify (start + t + 1) v d) in
    let far = apart j (omega arith) in
    let later = write-cache (start + t + 1) v d (lh.block j) in
    elim (Bool-cases (t == j)) [
      | inl e ↦ ground (
        arith,
        write-cache (start + t + 1) v d (start + j + 1),
        write-disk (start + t + 1) v d (start + j + 1),
        write_log_loop-cache start n (t + 1) lh d' (start + j + 1),
        write_log_loop-disk start n (t + 1) lh d' (start + j + 1),
      )
      | inr e ↦ ground (
        arith,
        later,
        far,
        write-budget (start + t + 1) v d,
        write_log_loop-copies start m n (t + 1) lh d' (omega arith) apart j,
      )
    ]
