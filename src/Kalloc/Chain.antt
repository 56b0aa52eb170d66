-- ===== src/Kalloc/Chain.antt =====
-- The free list as the list of the pages that it links.
use xv6_riscv_private.Common.{
  ℕ, ◌%◌, ◌≤◌, ◌<◌, ◌≡◌, ◌≢◌, Bool, true, false, ◌||◌, ◌==◌, List, [], ◌∷◌, arith, All,
}
use xv6_riscv_private.Riscv.{pgsize, phystop}
use xv6_riscv_private.Kalloc.{Words, Kmem, fill}

-- From `p` the links lead through the pages `xs` to the null pointer.
abbrev pub Chain : Words → ℕ → List ℕ → Type 0
Chain m p [] = p ≡ 0
Chain m p (x ∷ xs) = (p ≡ x) × Chain m (m x) xs

-- a page that the allocator may manage
abbrev pub IsPage : ℕ → ℕ → Type 0
IsPage end x = (x % pgsize ≡ 0) × (end ≤ x) × (x < phystop)

abbrev pub has : ℕ → List ℕ → Bool
has a [] = false
has a (x ∷ xs) = (a == x) || has a xs

abbrev pub Distinct : List ℕ → Type 0
Distinct [] = Unit
Distinct (x ∷ xs) = (has x xs ≡ false) × Distinct xs

-- `xs` are the free pages: each one a page, none twice, linked in this order.
pub record IsFree (end : ℕ) (k : Kmem) (xs : List ℕ) : Type 0 where
  pub linked : Chain k.mem k.freelist xs
  pub pages : All (IsPage end) xs
  pub distinct : Distinct xs

-- A chain survives every change that spares its own link words.
pub Chain-frame :
    (m m' : Words) (p : ℕ) (xs : List ℕ)
    → ((a : ℕ) → has a xs ≡ true → m' a ≡ m a)
    → Chain m p xs
    → Chain m' p xs
Chain-frame m m' p [] same c = c
Chain-frame m m' p (x ∷ xs) same c =
    let e : m' x ≡ m x = same x (ground arith) in
    (c.0, Chain-frame m m' (m' x) xs (λ a h. same a (ground arith)) (rw e c.1))

-- Filling one page spares the link words of the others.
pub fill-other :
    (end pa c x : ℕ) (m : Words) → pa % pgsize ≡ 0 → x % pgsize ≡ 0 → x ≢ pa → fill pa c m x ≡ m x
unfolding fill
fill-other end pa c x m ha hx ne = ground arith
