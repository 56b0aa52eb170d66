-- ===== src/Vm/Table.antt =====
-- Page tables as trees: every table page has a place, its level and the upper bits of the addresses that it serves.
pub mod Step
pub mod Walk
pub mod Entry
pub mod Mapping
pub mod Address
use xv6_riscv_private.Common.{
  ℕ, zero, suc, ◌+◌, ◌-◌, ◌*◌, ◌/◌, ◌%◌, ◌^◌, ◌≤◌, ◌<◌, ◌≡◌, ◌≢◌, refl, sym, ap, ◌∙◌, subst, Bool,
  true, false, ◌==◌, if◌then◌else◌, Option, none, some, List,
}
use xv6_riscv_private.Kalloc.{Kmem, Words}
use xv6_riscv_private.Kalloc.Chain.{IsFree, IsPage, has}
use xv6_riscv_private.Vm.{pte2pa, is_valid, pte_at}

-- the place of a table page, or none for other pages
abbrev pub Places : Type 0
Places = ℕ → Option (ℕ × ℕ)

-- The free pages are a list, the table pages are pages that are not free, and a valid entry `i` of a table above level
-- 0 leads to the table for it, one level down.
pub record IsTable (end : ℕ) (lab : Places) (pages : List ℕ) (k : Kmem) : Type 0 where
  pub free : IsFree end k pages
  pub apart : (p l q : ℕ) → lab p ≡ some (l, q) → has p pages ≡ false
  pub page : (p l q : ℕ) → lab p ≡ some (l, q) → IsPage end p
  pub child :
      (p l q i : ℕ)
      → lab p ≡ some (suc l, q)
      → i < 512
      → is_valid (k.mem (p + 8 * i)) ≡ true
      → lab (pte2pa (k.mem (p + 8 * i))) ≡ some (l, q * 512 + i)

-- the entry for `va` in the table `p` of a level, if it is valid
unfoldable pub lookup : ℕ → ℕ → ℕ → Words → Option ℕ
lookup zero p va m = let pte = m (pte_at p 0 va) in if is_valid pte then some pte else none
lookup (suc l) p va m =
    let pte = m (pte_at p (suc l) va) in
    let rest = lookup l (pte2pa pte) va m in if is_valid pte then rest else none
