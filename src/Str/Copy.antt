-- ===== src/Str/Copy.antt =====
-- What `strncpy`, `safestrcpy` and `strlen` do, for a source that the destination does not overlap.
use xv6_riscv_private.Common.{ℕ, zero, suc, ◌+◌, ◌≤◌, ◌<◌, ◌≡◌, ◌≢◌, refl, arith, ◌⊎◌, update}
use xv6_riscv_private.Str.{Bytes, pad, strncpy, safe_loop, safestrcpy, strlen_loop, strlen}
use xv6_riscv_private.Str.Compare.{text_at}

pad-outside : (n s : ℕ) (m : Bytes) (a : ℕ) → (a < s) ⊎ (s + n ≤ a) → pad n s m a ≡ m a
unfolding pad
pad-outside zero s m a h = refl
pad-outside (suc n) s m a h = ground (arith, pad-outside n (s + 1) (update m s 0) a)

-- `strncpy` writes only the `n` bytes of its destination.
pub strncpy-outside :
    (n s t : ℕ) (m : Bytes) (a : ℕ) → (a < s) ⊎ (s + n ≤ a) → strncpy s t n m a ≡ m a
unfolding strncpy
strncpy-outside zero s t m a h = refl
strncpy-outside (suc n) s t m a h = ground (
  arith,
  pad-outside n (s + 1) (update m s (m t)) a,
  strncpy-outside n (s + 1) (t + 1) (update m s (m t)) a,
)

text_at-ext :
    (n p : ℕ) (m m' : Bytes)
    → ((a : ℕ) → p ≤ a → a < p + n → m' a ≡ m a)
    → text_at n p m' ≡ text_at n p m
unfolding text_at
text_at-ext zero p m m' h = refl
text_at-ext (suc n) p m m' h =
    ground (arith, h p, text_at-ext n (p + 1) m m' (λ a l u. h a (omega arith) (omega arith)))

-- After `strncpy` the destination, read as a string of at most `n` bytes, is the source.
pub strncpy-text_at :
    (n s t : ℕ) (m : Bytes)
    → (t + n ≤ s) ⊎ (s + n ≤ t)
    → text_at n s (strncpy s t n m) ≡ text_at n t m
unfolding strncpy text_at
strncpy-text_at zero s t m h = refl
strncpy-text_at (suc n) s t m h =
    let m' = update m s (m t) in
    ground (
      arith,
      pad-outside n (s + 1) m' s,
      strncpy-outside n (s + 1) (t + 1) m' s,
      strncpy-text_at n (s + 1) (t + 1) m',
      text_at-ext n (t + 1) m m' (λ a l u. ground arith),
    )

safe_loop-outside :
    (n s t : ℕ) (m : Bytes) (a : ℕ) → (a < s) ⊎ (s + n < a) → safe_loop s t n m a ≡ m a
unfolding safe_loop
safe_loop-outside zero s t m a h = ground arith
safe_loop-outside (suc n) s t m a h =
    ground (arith, safe_loop-outside n (s + 1) (t + 1) (update m s (m t)) a)

safe_loop-text_at :
    (n s t : ℕ) (m : Bytes)
    → (t + n ≤ s) ⊎ (s + n < t)
    → text_at (suc n) s (safe_loop s t n m) ≡ text_at n t m
unfolding safe_loop text_at
safe_loop-text_at zero s t m h = ground arith
safe_loop-text_at (suc n) s t m h =
    let m' = update m s (m t) in
    ground (
      arith,
      safe_loop-outside n (s + 1) (t + 1) m' s,
      safe_loop-text_at n (s + 1) (t + 1) m',
      text_at-ext n (t + 1) m m' (λ a l u. ground arith),
    )

-- If the `n` bytes of the destination lie before the source, or begin more than the `n - 1` bytes that can be read of it
-- after its start, so that they do not overlap, then after `safestrcpy` with a positive size the destination holds the source cut to `n - 1` bytes,
-- NUL-terminated within its `n` bytes, and no other byte has changed.
pub safestrcpy_lem :
    (n s t : ℕ) (m : Bytes)
    → (t + n ≤ s) ⊎ (s + n < t)
    → (text_at (suc n) s (safestrcpy s t (suc n) m) ≡ text_at n t m)
      × ((a : ℕ) → (a < s) ⊎ (s + n < a) → safestrcpy s t (suc n) m a ≡ m a)
unfolding safestrcpy
safestrcpy_lem n s t m h = (safe_loop-text_at n s t m h, λ a. safe_loop-outside n s t m a)

strlen_loop_lem :
    (f n k s : ℕ) (m : Bytes)
    → m (s + k) ≡ 0
    → ((j : ℕ) → j < k → m (s + j) ≢ 0)
    → n ≤ k
    → k < n + f
    → strlen_loop f n s m ≡ k
unfolding strlen_loop
strlen_loop_lem zero n k s m nul before le fuel = absurd (omega arith)
strlen_loop_lem (suc f) n k s m nul before le fuel =
    ground (arith, before n, strlen_loop_lem f (n + 1) k s m nul before)

-- For a string whose first NUL stands at offset `k`, `strlen` returns `k` when it has more than
-- `k` rounds.
pub strlen_lem :
    (f k s : ℕ) (m : Bytes)
    → m (s + k) ≡ 0
    → ((j : ℕ) → j < k → m (s + j) ≢ 0)
    → k < f
    → strlen f s m ≡ k
unfolding strlen
strlen_lem f k s m nul before fuel =
    strlen_loop_lem f 0 k s m nul before (omega arith) (omega arith)
