-- ===== src/Vm/Tests.antt =====
-- Tests, and the theorems at a concrete page table.
use xv6_riscv_private.Common.{
  ℕ, suc, ◌/◌, ◌+◌, ◌*◌, ◌≡◌, refl, false, ◌==◌, leb, if◌then◌else◌, Bool-cases, inl, inr, Option,
  none, some, List, [], ◌∷◌, ok, arith,
}
use xv6_riscv_private.Riscv.{kernbase, maxva}
use xv6_riscv_private.Kalloc.{Kmem}
use xv6_riscv_private.Vm.{mappages, walkaddr}
use xv6_riscv_private.Vm.Table.{Places, IsTable, lookup}
use xv6_riscv_private.Vm.Table.Mapping.{Mapped, mappages_lem}
use xv6_riscv_private.Vm.Table.Address.{user_page, walkaddr_lem}
use xv6_riscv_private.Str.{Bytes}
use xv6_riscv_private.Vm.Copy.{copyin}
use xv6_riscv_private.Vm.Copyin.{Transferred, copyin_lem}

-- Two pages are mapped, in the other order.
abbrev pages : ℕ → ℕ
pages va = if va == 0 then 0x8002_0000 else if va == 4096 then 0x8001_0000 else 0

abbrev memory : Bytes
memory a = a / 8

copyin_lem_example : Transferred pages 500 4000 200 memory (copyin pages 500 4000 200 memory)
copyin_lem_example =
    copyin_lem pages 500 4000 200 memory (λ v j lo hi lt e. absurd (ground (arith, lo, hi, lt, e)))

-- The root of a page table at 0x8010_0000, and two free pages
abbrev root : ℕ
root = 0x8010_0000

abbrev places : Places
places p = if p == root then some (2, 0) else none

abbrev start : Kmem
start = record { freelist = 0x8011_0000; mem = λ a. if a == 0x8011_0000 then 0x8012_0000 else 0 }

abbrev free_pages : List ℕ
free_pages = 0x8011_0000 ∷ 0x8012_0000 ∷ []

start-is_root : (p l q : ℕ) → places p ≡ some (l, q) → (p ≡ root) × (l ≡ 2)
start-is_root p l q e = elim (Bool-cases (p == root)) [
  | inl same ↦
      let there : ◌≡◌ {A = Option (ℕ × ℕ)} (some (2, 0)) (some (l, q)) = ground (arith, same, e) in
      (ground (arith, same), cc)
  | inr other ↦
      let nothing : ◌≡◌ {A = Option (ℕ × ℕ)} none (some (l, q)) = ground (arith, other, e) in cc
]

start-IsTable : IsTable kernbase places free_pages start
start-IsTable = record {
  free = record {
    linked = (refl, (refl, refl));
    pages = ((refl, omega arith, omega arith), ((refl, omega arith, omega arith), tt));
    distinct = (refl, (refl, tt));
  };
  apart = λ p l q e. let (r, _) = start-is_root p l q e in rw r refl;
  page = λ p l q e. let (r, _) = start-is_root p l q e in rw r (refl, omega arith, omega arith);
  child = λ p l q i e lt valid.
      let (r, _) = start-is_root p (suc l) q e in
      let away : (p + 8 * i == 0x8011_0000) ≡ false = ground (arith, r, lt) in
      ground (arith, away, valid);
}

-- Two pages are mapped at address 0.
mappages_lem_example :
    Mapped kernbase root 6
      (omega arith)
      (omega arith)
      start
      0
      1
      0x8020_0000
      (mappages root 0 5000 0x8020_0000 6 start)
mappages_lem_example =
    mappages_lem kernbase root 6 (omega arith) (omega arith) places free_pages start 0 5000
      0x8020_0000 start-IsTable refl (omega arith) (omega arith) (omega arith)

walkaddr_lem_example :
    walkaddr root 4096 start
    ≡ ok (if leb maxva 4096 then 0 else user_page (lookup 2 root 4096 start.mem))
walkaddr_lem_example = walkaddr_lem root 4096 start
