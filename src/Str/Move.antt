-- ===== src/Str/Move.antt =====
-- What `memmove` and `memset` leave in memory, byte by byte, for overlapping ranges too.
use xv6_riscv_private.Common.{
  ℕ, zero, suc, ◌+◌, ◌-◌, ◌%◌, ◌≤◌, ◌≡◌, Bool, ◌&&◌, ltb, leb, if◌then◌else◌, arith, ◌⊎◌, update,
}
use xv6_riscv_private.Str.{Bytes, memset_loop, memset, copy_up, copy_down, memmove}

-- `a` lies in the `n` bytes from `p` on.
abbrev pub within : ℕ → ℕ → ℕ → Bool
within p n a = leb p a && ltb a (p + n)

copy_up_lem :
    (n d s : ℕ) (m : Bytes) (a : ℕ)
    → (d ≤ s) ⊎ (s + n ≤ d)
    → copy_up n d s m a ≡ (if within d n a then m (s + (a - d)) else m a)
unfolding copy_up
copy_up_lem zero d s m a h = ground arith
copy_up_lem (suc n) d s m a h = ground (arith, copy_up_lem n (d + 1) (s + 1) (update m d (m s)) a)

copy_down_lem :
    (n d s : ℕ) (m : Bytes) (a : ℕ)
    → s ≤ d
    → copy_down n (d + n) (s + n) m a ≡ (if within d n a then m (s + (a - d)) else m a)
unfolding copy_down
copy_down_lem zero d s m a h = ground arith
copy_down_lem (suc n) d s m a h =
    let e : d + suc n - 1 ≡ d + n = omega arith in
    let e' : s + suc n - 1 ≡ s + n = omega arith in
    rw (e, e') (ground (arith, copy_down_lem n d s (update m (d + n) (m (s + n))) a))

-- `memmove` leaves in each byte of the destination what the source held before the call, also
-- where the two overlap, and changes no other byte.
pub memmove_lem :
    (dst src n : ℕ) (m : Bytes) (a : ℕ)
    → memmove dst src n m a ≡ (if within dst n a then m (src + (a - dst)) else m a)
unfolding memmove
memmove_lem dst src n m a = ground (arith, copy_up_lem n dst src m a, copy_down_lem n dst src m a)

memset_loop_lem :
    (n i dst c : ℕ) (m : Bytes) (a : ℕ)
    → memset_loop n i dst c m a ≡ (if within (dst + i) n a then c % 256 else m a)
unfolding memset_loop
memset_loop_lem zero i dst c m a = ground arith
memset_loop_lem (suc n) i dst c m a =
    ground (arith, memset_loop_lem n (i + 1) dst c (update m (dst + i) (c % 256)) a)

-- `memset` sets each of its `n` bytes to the character, cut to 8 bits, and changes no other.
pub memset_lem :
    (dst c n : ℕ) (m : Bytes) (a : ℕ)
    → memset dst c n m a ≡ (if within dst n a then c % 256 else m a)
unfolding memset
memset_lem dst c n m a = ground (arith, memset_loop_lem n 0 dst c m a)
