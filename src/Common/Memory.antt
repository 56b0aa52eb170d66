-- ===== src/Common/Memory.antt =====
-- Memory and tables as functions from an address or an index.
use Prim.Native.Nat.{ℕ, zero, suc, ◌+◌, ◌<◌}
use mathlib.Core.Bool.{Bool, true, false, ◌&&◌}
use mathlib.Core.Path.{◌≡◌, ap, ◌∙◌}
use mathlib.Core.Logic.{◌≢◌, inl, inr}
use native.Mathlib.Omega.{arith}
use xv6_riscv_private.Common.Tests.{Bool-cases, ◌==◌, ltb, leb, if◌then◌else◌}

module _ {ℓ} {A : Type ℓ} where
  abbrev pub update : (ℕ → A) → ℕ → A → ℕ → A
  update f i v j = if i == j then v else f j

  pub update_self : (f : ℕ → A) (i : ℕ) (v : A) → update f i v i ≡ v
  update_self f i v = ground arith

  pub update-ne : (f : ℕ → A) (i j : ℕ) (v : A) → i ≢ j → update f i v j ≡ f j
  update-ne f i j v h = ground arith

  -- `for(p = &t[i]; p < &t[i + n]; p++) *p = f(*p);`
  unfoldable pub for_each : ℕ → ℕ → (A → A) → (ℕ → A) → ℕ → A
  for_each zero i f t = t
  for_each (suc n) i f t = for_each n (i + 1) f (update t i (f (t i)))

  pub for_each_lem :
      (n i : ℕ) (f : A → A) (t : ℕ → A) (j : ℕ)
      → for_each n i f t j ≡ (if leb i j && ltb j (i + n) then f (t j) else t j)
  unfolding for_each
  for_each_lem zero i f t j = ground arith
  for_each_lem (suc n) i f t j = ground (arith, for_each_lem n (i + 1) f (update t i (f (t i))) j)

-- the test passes at every number below the bound
unfoldable pub every_below : ℕ → (ℕ → Bool) → Bool
every_below zero p = true
every_below (suc n) p = if p n then every_below n p else false

pub every_below_sound :
    (n : ℕ) (p : ℕ → Bool) → every_below n p ≡ true → (k : ℕ) → k < n → p k ≡ true
unfolding every_below
every_below_sound zero p h k lt = absurd (omega arith)
every_below_sound (suc n) p h k lt = elim (Bool-cases (p n)) [
  | inr out ↦ absurd (ground (arith, out, h))
  | inl here ↦ elim (Bool-cases (k == n)) [
    | inl same ↦ ap p (ground (arith, same)) ∙ here
    | inr other ↦ every_below_sound n p (rw here at h) k (ground (arith, other, lt))
  ]
]
