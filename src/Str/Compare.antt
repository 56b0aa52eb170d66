-- ===== src/Str/Compare.antt =====
-- What the results of `memcmp` and `strncmp` say about the bytes compared.
use xv6_riscv_private.Common.{
  ℕ, zero, suc, ◌+◌, ◌≡◌, ◌↔◌, refl, ◌==◌, if◌then◌else◌, arith, List, [], ◌∷◌, pos,
}
use xv6_riscv_private.Str.{Bytes, memcmp, strncmp}

-- the `n` bytes from `p` on
unfoldable pub bytes_at : ℕ → ℕ → Bytes → List ℕ
bytes_at zero p m = []
bytes_at (suc n) p m = m p ∷ bytes_at n (p + 1) m

-- the string at `p`, cut at its NUL or after `n` bytes
unfoldable pub text_at : ℕ → ℕ → Bytes → List ℕ
text_at zero p m = []
text_at (suc n) p m = let rest = text_at n (p + 1) m in if m p == 0 then [] else m p ∷ rest

-- `memcmp` returns 0 exactly when the two ranges hold the same bytes.
pub memcmp-eq-zero :
    (n s1 s2 : ℕ) (m : Bytes) → (memcmp n s1 s2 m ≡ pos 0) ↔ (bytes_at n s1 m ≡ bytes_at n s2 m)
unfolding memcmp bytes_at
memcmp-eq-zero zero s1 s2 m = (λ _. refl, λ _. refl)
memcmp-eq-zero (suc n) s1 s2 m = ground (arith, memcmp-eq-zero n (s1 + 1) (s2 + 1) m)

-- `strncmp` returns 0 exactly when the two strings agree up to a NUL or to `n` bytes.
pub strncmp-eq-zero :
    (n p q : ℕ) (m : Bytes) → (strncmp p q n m ≡ pos 0) ↔ (text_at n p m ≡ text_at n q m)
unfolding strncmp text_at
strncmp-eq-zero zero p q m = (λ _. refl, λ _. refl)
strncmp-eq-zero (suc n) p q m = ground (arith, strncmp-eq-zero n (p + 1) (q + 1) m)
