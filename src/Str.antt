-- ===== src/Str.antt =====
-- kernel/string.c over a byte-addressed memory. Addresses do not wrap: an object never lies across
-- the end of the address space. A byte is any number; where C casts to `char` the model reduces
-- modulo 256. A count is below 2 ^ 31, as at every call, so an `int` counter does not overflow.
pub mod Move
pub mod Compare
pub mod Copy
mod Tests
use xv6_riscv_private.Common.{
  ℕ, zero, suc, ◌+◌, ◌-◌, ◌%◌, Bool, true, false, ◌&&◌, not, ltb, leb, ◌==◌, if◌then◌else◌, update,
  ℤ, pos, sub_ℕ,
}

abbrev pub Bytes : Type 0
Bytes = ℕ → ℕ

-- the `for` loop of `memset`, with `n` rounds left
pub memset_loop : ℕ → ℕ → ℕ → ℕ → Bytes → Bytes
memset_loop zero i dst c m = m
memset_loop (suc n) i dst c m = memset_loop n (i + 1) dst c (update m (dst + i) (c % 256))

unfoldable pub memset : ℕ → ℕ → ℕ → Bytes → Bytes
unfolding memset_loop
memset dst c n m = memset_loop n 0 dst c m

-- `while(n-- > 0) if(*s1 != *s2) return *s1 - *s2; s1++, s2++;`
unfoldable pub memcmp : ℕ → ℕ → ℕ → Bytes → ℤ
memcmp zero s1 s2 m = pos 0
memcmp (suc n) s1 s2 m =
    let rest = memcmp n (s1 + 1) (s2 + 1) m in
    if not (m s1 == m s2) then sub_ℕ (m s1) (m s2) else rest

-- `while(n-- > 0) *d++ = *s++;`
pub copy_up : ℕ → ℕ → ℕ → Bytes → Bytes
copy_up zero d s m = m
copy_up (suc n) d s m = copy_up n (d + 1) (s + 1) (update m d (m s))

-- `while(n-- > 0) *--d = *--s;`
pub copy_down : ℕ → ℕ → ℕ → Bytes → Bytes
copy_down zero d s m = m
copy_down (suc n) d s m = copy_down n (d - 1) (s - 1) (update m (d - 1) (m (s - 1)))

unfoldable pub memmove : ℕ → ℕ → ℕ → Bytes → Bytes
unfolding copy_up copy_down
memmove dst src n m =
    if n == 0
    then m
    else if ltb src dst && ltb dst (src + n)
    then copy_down n (dst + n) (src + n) m
    else copy_up n dst src m

unfoldable pub memcpy : ℕ → ℕ → ℕ → Bytes → Bytes
unfolding memmove
memcpy dst src n m = memmove dst src n m

unfoldable pub strncmp : ℕ → ℕ → ℕ → Bytes → ℤ
strncmp p q zero m = pos 0
strncmp p q (suc n) m =
    let rest = strncmp (p + 1) (q + 1) n m in
    if not (m p == 0) && m p == m q then rest else sub_ℕ (m p) (m q)

-- `while(n-- > 0) *s++ = 0;`
pub pad : ℕ → ℕ → Bytes → Bytes
pad zero s m = m
pad (suc n) s m = pad n (s + 1) (update m s 0)

-- `while(n-- > 0 && (*s++ = *t++) != 0) ;` and the padding after it
unfoldable pub strncpy : ℕ → ℕ → ℕ → Bytes → Bytes
unfolding pad
strncpy s t zero m = m
strncpy s t (suc n) m =
    let m' = update m s (m t) in
    let rest = strncpy (s + 1) (t + 1) n m' in if m t == 0 then pad n (s + 1) m' else rest

-- `while(--n > 0 && (*s++ = *t++) != 0) ; *s = 0;`, with `n` decremented once
pub safe_loop : ℕ → ℕ → ℕ → Bytes → Bytes
safe_loop s t zero m = update m s 0
safe_loop s t (suc n) m =
    let m' = update m s (m t) in
    let rest = safe_loop (s + 1) (t + 1) n m' in if m t == 0 then update m' (s + 1) 0 else rest

-- `n <= 0` returns at once; a negative `n` is the case `zero` too.
unfoldable pub safestrcpy : ℕ → ℕ → ℕ → Bytes → Bytes
unfolding safe_loop
safestrcpy s t zero m = m
safestrcpy s t (suc n) m = safe_loop s t n m

-- `for(n = 0; s[n]; n++) ;` with fuel; 0 rounds left returns the count reached.
pub strlen_loop : ℕ → ℕ → ℕ → Bytes → ℕ
strlen_loop zero n s m = n
strlen_loop (suc f) n s m =
    let rest = strlen_loop f (n + 1) s m in if m (s + n) == 0 then n else rest

unfoldable pub strlen : ℕ → ℕ → Bytes → ℕ
unfolding strlen_loop
strlen fuel s m = strlen_loop fuel 0 s m
