-- ===== src/Log/Install.antt =====
-- What install_trans leaves on the disk: the contents of the log in their home blocks, or, if the
-- power failed, in some of them.
use xv6_riscv_private.Common.{
  ℕ, zero, suc, ◌+◌, ◌-◌, ◌≤◌, ◌<◌, ◌≡◌, ◌⊎◌, inl, refl, Bool, true, false, ◌==◌, if◌then◌else◌,
  arith,
}
use xv6_riscv_private.Log.{Block, LogHeader, Device, modify, bwrite, bunpin, install_loop}
use xv6_riscv_private.Log.Header.{is_logged}
use xv6_riscv_private.Log.Writes.{Apart, write-cache, write-disk, write-budget}

-- one round of the loop, which takes `src` from the cache to `dst`
abbrev round : Bool → ℕ → ℕ → Device → Device
round recovering dst src d =
    let d' = bwrite dst (modify dst (d.cache src) d) in if recovering then d' else bunpin dst d'

round_cache :
    (r : Bool) (dst src : ℕ) (d : Device) (c : ℕ)
    → (round r dst src d).cache c ≡ (if dst == c then d.cache src else d.cache c)
round_cache true dst src d c = write-cache dst (d.cache src) d c
round_cache false dst src d c = write-cache dst (d.cache src) d c

round_disk :
    (r : Bool) (dst src : ℕ) (d : Device) (c : ℕ)
    → (round r dst src d).disk c
      ≡ (if d.budget == 0 then d.disk c else if dst == c then d.cache src else d.disk c)
round_disk true dst src d c = write-disk dst (d.cache src) d c
round_disk false dst src d c = write-disk dst (d.cache src) d c

round_budget : (r : Bool) (dst src : ℕ) (d : Device) → (round r dst src d).budget ≡ d.budget - 1
round_budget true dst src d = write-budget dst (d.cache src) d
round_budget false dst src d = write-budget dst (d.cache src) d

pub install_loop-budget :
    (r : Bool) (start n t : ℕ) (lh : LogHeader) (d : Device)
    → (install_loop start r n t lh d).budget ≡ d.budget - n
unfolding install_loop
install_loop-budget r start zero t lh d = omega arith
install_loop-budget r start (suc n) t lh d =
    let src = start + t + 1 in
    omega (
      arith,
      round_budget r (lh.block t) src d,
      install_loop-budget r start n (t + 1) lh (round r (lh.block t) src d),
    )

module _ (r : Bool) (start m : ℕ) (lh : LogHeader)
    (apart : (j : ℕ) → j < m → Apart start m (lh.block j)) where
  -- The log itself stays as it is, on the disk and in the cache.
  pub install_loop-log :
      (n t : ℕ) (d : Device)
      → t + n ≤ m
      → (b : ℕ) → start ≤ b
      → b ≤ start + m
      → ((install_loop start r n t lh d).disk b ≡ d.disk b)
        × ((install_loop start r n t lh d).cache b ≡ d.cache b)
  unfolding install_loop
  install_loop-log zero t d h b lo hi = (refl, refl)
  install_loop-log (suc n) t d h b lo hi =
      let src = start + t + 1 in
      ground (
        arith,
        apart t (omega arith),
        round_cache r (lh.block t) src d b,
        round_disk r (lh.block t) src d b,
        install_loop-log n (t + 1) (round r (lh.block t) src d) (omega arith) b,
      )

  -- A block that some entry names has its contents on the disk, or, if the writes did not all
  -- arrive, may have its old ones; any other block has its old ones.
  pub install_loop-disk :
      (f : ℕ → Block) (n t : ℕ) (d : Device)
      → t + n ≤ m
      → ((j : ℕ) → j < m → d.cache (start + j + 1) ≡ f (lh.block j))
      → (b : ℕ)
      → (((install_loop start r n t lh d).disk b ≡ d.disk b)
          × (n ≤ d.budget → is_logged n t lh.block b ≡ false))
        ⊎ (((install_loop start r n t lh d).disk b ≡ f b) × (is_logged n t lh.block b ≡ true))
  unfolding install_loop is_logged
  install_loop-disk f zero t d h same b = inl (refl, λ _. refl)
  install_loop-disk f (suc n) t d h same b =
      let src = start + t + 1 in
      let d' = round r (lh.block t) src d in
      let same' : (j : ℕ) → j < m → d'.cache (start + j + 1) ≡ f (lh.block j) = λ j lt. ground (
        arith,
        apart t (omega arith),
        same j lt,
        round_cache r (lh.block t) src d (start + j + 1),
      ) in
      ground (
        arith,
        same t (omega arith),
        round_disk r (lh.block t) src d b,
        round_budget r (lh.block t) src d,
        install_loop-disk f n (t + 1) d' (omega arith) same' b,
      )

-- Without power nothing arrives.
pub install_loop-off :
    (r : Bool) (start n t : ℕ) (lh : LogHeader) (d : Device)
    → d.budget ≡ 0
    → (b : ℕ) → (install_loop start r n t lh d).disk b ≡ d.disk b
unfolding install_loop
install_loop-off r start zero t lh d off b = refl
install_loop-off r start (suc n) t lh d off b =
    let src = start + t + 1 in
    let d' = round r (lh.block t) src d in
    let off' : d'.budget ≡ 0 = omega (arith, round_budget r (lh.block t) src d) in
    ground
      (arith, round_disk r (lh.block t) src d b, install_loop-off r start n (t + 1) lh d' off' b)
