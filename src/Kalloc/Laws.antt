-- ===== src/Kalloc/Laws.antt =====
-- kfree and kalloc against the list of free pages.
use xv6_riscv_private.Common.{
  ℕ, ◌+◌, ◌%◌, ◌≤◌, ◌<◌, ◌≡◌, ◌≢◌, ◌↔◌, refl, Bool-cases, inl, inr, true, false, ◌||◌, not, leb,
  ltb, ◌==◌, update, List, [], ◌∷◌, arith, All, ok, panic,
}
use xv6_riscv_private.Riscv.{pgsize, phystop}
use xv6_riscv_private.Kalloc.{Words, Kmem, fill, kfree, kalloc}
use xv6_riscv_private.Kalloc.Chain.{Chain, IsPage, has, IsFree, Chain-frame, fill-other}

pub All-has {ℓ} : (P : ℕ → Type ℓ) (xs : List ℕ) (a : ℕ) → All P xs → has a xs ≡ true → P a
All-has P [] a h e = cc
All-has P (x ∷ xs) a h e = elim (Bool-cases (a == x)) [
  | inl hit ↦ let q : a ≡ x = ground arith in rw q h.0
  | inr miss ↦ All-has P xs a h.1 (rw miss at e)
]

-- A page that is not on the list is put in front of it.
kfree-frame :
    (end pa : ℕ) (m : Words) (p : ℕ) (xs : List ℕ)
    → pa % pgsize ≡ 0
    → has pa xs ≡ false
    → All (IsPage end) xs
    → Chain m p xs
    → Chain (update (fill pa 1 m) pa p) p xs
kfree-frame end pa m p xs ha out pages c =
    Chain-frame m (update (fill pa 1 m) pa p) p xs
      (λ a h.
        let ne : a ≢ pa = (λ e. ground (arith, e)) in
        ground (arith, fill-other end pa 1 a m ha, All-has (IsPage end) xs a pages h))
      c

-- Freeing a page that the allocator may manage and that is not free already does not panic, and
-- puts it in front of the free pages.
pub kfree-IsFree :
    (end pa : ℕ) (k : Kmem) (xs : List ℕ)
    → IsFree end k xs
    → IsPage end pa
    → has pa xs ≡ false
    → (k' : Kmem) × (kfree end pa k ≡ ok k') × IsFree end k' (pa ∷ xs)
unfolding kfree
kfree-IsFree end pa k xs free (ha, hl, hu) out = (
  record { freelist = pa; mem = update (fill pa 1 k.mem) pa k.freelist },
  ground arith,
  record {
    linked = (
      refl,
      let e : (pa == pa) ≡ true = ground arith in
          rw e (kfree-frame end pa k.mem k.freelist xs ha out free.pages free.linked),
    );
    pages = ((ha, hl, hu), free.pages);
    distinct = (out, free.distinct);
  },
)

-- `kfree` panics exactly on an address that is unaligned, below `end`, or not below PHYSTOP.
pub kfree-eq-panic : (end pa : ℕ) (k : Kmem) → (kfree end pa k ≡ panic) ↔ (¬ IsPage end pa)
unfolding kfree
kfree-eq-panic end pa k = (
  λ e p. ground arith,
  λ out. elim (Bool-cases (not (pa % pgsize == 0) || (ltb pa end || leb phystop pa))) [
    | inl bad ↦ rw bad
    | inr good ↦ absurd (out (ground arith))
  ],
)

-- With no free page `kalloc` returns the null pointer and changes nothing.
pub kalloc-none : (end : ℕ) (k : Kmem) → IsFree end k [] → kalloc k ≡ (0, k)
unfolding kalloc
kalloc-none end k free = ground (arith, free.linked)

filled : (a x : ℕ) (m : Words) → x ≤ a → a < x + pgsize → fill x 5 m a ≡ 0x0505_0505_0505_0505
unfolding fill
filled a x m l u = ground arith

-- Otherwise it returns the first free page, every word of it filled with fives, and the other free
-- pages stay free.
pub kalloc-some :
    (end x : ℕ) (k : Kmem) (xs : List ℕ)
    → 0 < end
    → IsFree end k (x ∷ xs)
    → (k' : Kmem) × (kalloc k ≡ (x, k'))
      × IsFree end k' xs
      × ((a : ℕ) → x ≤ a → a < x + pgsize → k'.mem a ≡ 0x0505_0505_0505_0505)
unfolding kalloc
kalloc-some end x k xs pos free =
    let (e, rest) = free.linked in
    let (px, ps) = free.pages in
    (
      record { freelist = k.mem x; mem = fill x 5 k.mem },
      ground arith,
      record {
        linked =
            Chain-frame k.mem (fill x 5 k.mem) (k.mem x) xs
              (λ a h.
                let ne : a ≢ x = (λ q. ground (arith, q, free.distinct)) in
                fill-other end x 5 a k.mem px.0 (All-has (IsPage end) xs a ps h).0 ne)
              rest;
        pages = ps;
        distinct = free.distinct.1;
      },
      (λ a l u. filled a x k.mem l u),
    )
