-- ===== src/Kalloc/Boot.antt =====
-- kinit and freerange: the loop ends, does not panic, and frees every page.
use xv6_riscv_private.Common.{
  ℕ, zero, suc, ◌+◌, ◌*◌, ◌%◌, ◌≤◌, ◌<◌, ◌≡◌, refl, Bool, true, false, ◌||◌, ◌&&◌, leb, ◌==◌, List,
  [], ◌∷◌, arith, Outcome, ok, Bool-cases, inl, inr,
}
use xv6_riscv_private.Riscv.{pgsize, phystop, pg_round_up}
use xv6_riscv_private.Kalloc.{Words, Kmem, freerange_loop, kinit}
use xv6_riscv_private.Kalloc.Chain.{has, IsFree}
use xv6_riscv_private.Kalloc.Laws.{kfree-IsFree}

-- `a` is the address of a whole page from `p` on
abbrev pub is_page_from : ℕ → ℕ → Bool
is_page_from p a = (a % pgsize == 0) && (leb p a && leb (a + pgsize) phystop)

abbrev Below : ℕ → List ℕ → Type 0
Below p xs = (a : ℕ) → has a xs ≡ true → a < p

-- what the loop has done when it ends, started at `p` with the pages `xs` free
abbrev Freed : ℕ → ℕ → List ℕ → Outcome Kmem → Type 0
Freed end p xs r =
    (k' : Kmem) × (ys : List ℕ) × (r ≡ ok k')
    × IsFree end k' ys
    × ((a : ℕ) → has a ys ≡ (has a xs || is_page_from p a))

freerange_loop-Freed :
    (end f p : ℕ) (k : Kmem) (xs : List ℕ)
    → IsFree end k xs
    → p % pgsize ≡ 0
    → end ≤ p
    → Below p xs
    → p ≤ phystop
    → phystop < p + f * pgsize
    → Freed end p xs (freerange_loop end f p phystop k)
unfolding freerange_loop
freerange_loop-Freed end zero p k xs free ha hl below top fuel = absurd (omega arith)
freerange_loop-Freed end (suc f) p k xs free ha hl below top fuel =
    elim (Bool-cases (leb (p + pgsize) phystop)) [
      | inl more ↦
          let fresh : has p xs ≡ false = ground (arith, below p) in
          let (k', e, free') = kfree-IsFree end p k xs free (ha, hl, ground arith) fresh in
          let (k'', ys, e', free'', all) =
            freerange_loop-Freed end f (p + pgsize) k' (p ∷ xs) free' (omega arith) (omega arith)
              (λ a h. ground (arith, below a)) (ground arith) (omega arith) in
          (k'', ys, rw (more, e) e', free'', λ a. ground (arith, all a))
      | inr done ↦ (k, xs, rw done, free, λ a. ground arith)
    ]

-- With more rounds than there are pages between `end` and PHYSTOP, `kinit` ends without a panic, and afterwards
-- the free pages are exactly the whole aligned pages between `end` and PHYSTOP, each of them once.
pub kinit-Freed :
    (end fuel : ℕ) (m : Words)
    → end ≤ phystop
    → phystop < pg_round_up end + fuel * pgsize
    → (k : Kmem) × (ys : List ℕ) × (kinit end fuel m ≡ ok k)
      × IsFree end k ys
      × ((a : ℕ) → has a ys ≡ is_page_from (pg_round_up end) a)
unfolding kinit
kinit-Freed end fuel m le enough =
    freerange_loop-Freed end fuel (pg_round_up end) (record { freelist = 0; mem = m }) []
      (record { linked = refl; pages = tt; distinct = tt }) (omega arith) (omega arith) (λ a h. cc)
      (omega arith) (omega arith)
