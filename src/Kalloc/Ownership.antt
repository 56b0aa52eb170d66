-- ===== src/Kalloc/Ownership.antt =====
-- The allocator under clients that free only pages which they own.
use xv6_riscv_private.Common.{
  ℕ, ◌<◌, ◌≡◌, refl, true, false, ◌==◌, if◌then◌else◌, List, [], ◌∷◌, arith, Outcome, ok, ◌>>=◌,
  Bool-cases, inl, inr, All,
}
use xv6_riscv_private.Kalloc.{Kmem, kfree, kalloc}
use xv6_riscv_private.Kalloc.Chain.{IsPage, has, Distinct, IsFree}
use xv6_riscv_private.Kalloc.Laws.{kfree-IsFree, kalloc-none, kalloc-some, All-has}

pub data Call : Type 0 where
  allocate : Call
  give_back : ℕ → Call

abbrev pub erase : ℕ → List ℕ → List ℕ
erase a [] = []
erase a (x ∷ xs) = if a == x then xs else x ∷ erase a xs

-- One call, with the pages that clients own. A page that no client owns is not given back.
pub step : ℕ → Call → Kmem × List ℕ → Outcome (Kmem × List ℕ)
step end allocate (k, owned) =
    let (r, k') = kalloc k in ok (k', if r == 0 then owned else r ∷ owned)
step end (give_back pa) (k, owned) =
    let freed = (do k' ← kfree end pa k; ok (k', erase pa owned)) in
    if has pa owned then freed else ok (k, owned)

pub run : ℕ → List Call → Kmem × List ℕ → Outcome (Kmem × List ℕ)
run end [] s = ok s
run end (c ∷ cs) s = do s' ← step end c s; run end cs s'

-- the pages split into the free ones `xs` and the `owned` ones
pub record IsSplit (end : ℕ) (s : Kmem × List ℕ) (xs : List ℕ) : Type 0 where
  pub free : IsFree end s.0 xs
  pub pages : All (IsPage end) s.1
  pub distinct : Distinct s.1
  pub apart : (a : ℕ) → has a s.1 ≡ true → has a xs ≡ false

has-erase : (a b : ℕ) (xs : List ℕ) → has a (erase b xs) ≡ true → has a xs ≡ true
has-erase a b [] h = h
has-erase a b (x ∷ xs) h = ground (arith, has-erase a b xs)

not-has-erase : (a : ℕ) (xs : List ℕ) → Distinct xs → has a (erase a xs) ≡ false
not-has-erase a [] d = refl
not-has-erase a (x ∷ xs) d = ground (arith, not-has-erase a xs d.1)

Distinct-erase : (b : ℕ) (xs : List ℕ) → Distinct xs → Distinct (erase b xs)
Distinct-erase b [] d = tt
Distinct-erase b (x ∷ xs) d = elim (Bool-cases (b == x)) [
  | inl hit ↦ rw hit d.1
  | inr miss ↦ rw miss (ground (arith, has-erase x b xs), Distinct-erase b xs d.1)
]

All-erase {ℓ} : (P : ℕ → Type ℓ) (b : ℕ) (xs : List ℕ) → All P xs → All P (erase b xs)
All-erase P b [] h = h
All-erase P b (x ∷ xs) h = elim (Bool-cases (b == x)) [
  | inl hit ↦ rw hit h.1
  | inr miss ↦ rw miss (h.0, All-erase P b xs h.1)
]

-- the outcome of a step or a run
abbrev Splits : ℕ → Outcome (Kmem × List ℕ) → Type 0
Splits end r = (s : Kmem × List ℕ) × (ys : List ℕ) × (r ≡ ok s) × IsSplit end s ys

step-Splits :
    (end : ℕ) (c : Call) (s : Kmem × List ℕ) (xs : List ℕ)
    → 0 < end
    → IsSplit end s xs
    → Splits end (step end c s)
unfolding step
step-Splits end allocate (k, owned) [] pos v = ((k, owned), [], rw (kalloc-none end k v.free), v)
step-Splits end allocate (k, owned) (x ∷ xs) pos v =
    let (k', e, free', _) = kalloc-some end x k xs pos v.free in
    let ne : (x == 0) ≡ false = ground (arith, v.free.pages) in
    (
      (k', x ∷ owned),
      xs,
      rw (e, ne),
      record {
        free = free';
        pages = (v.free.pages.0, v.pages);
        distinct = (ground (arith, v.apart x), v.distinct);
        apart = λ a h. ground (arith, v.apart a, v.free.distinct);
      },
    )
step-Splits end (give_back pa) (k, owned) xs pos v = elim (Bool-cases (has pa owned)) [
  | inl mine ↦
      let (k', e, free') =
        kfree-IsFree end pa k xs v.free (All-has (IsPage end) owned pa v.pages mine)
          (v.apart pa mine) in
      (
        (k', erase pa owned),
        pa ∷ xs,
        rw (mine, e),
        record {
          free = free';
          pages = All-erase (IsPage end) pa owned v.pages;
          distinct = Distinct-erase pa owned v.distinct;
          apart = λ a h.
              ground (arith, v.apart a, has-erase a pa owned h, not-has-erase pa owned v.distinct);
        },
      )
  | inr other ↦ ((k, owned), xs, rw other, v)
]

-- No history of allocations and of frees by owners panics, and after it no page is owned twice, on
-- the free list twice, or both owned and free.
pub run-IsSplit :
    (end : ℕ) (cs : List Call) (s : Kmem × List ℕ) (xs : List ℕ)
    → 0 < end
    → IsSplit end s xs
    → (s' : Kmem × List ℕ) × (ys : List ℕ) × (run end cs s ≡ ok s') × IsSplit end s' ys
unfolding run
run-IsSplit end [] s xs pos v = (s, xs, refl, v)
run-IsSplit end (c ∷ cs) s xs pos v =
    let (s', ys, e, v') = step-Splits end c s xs pos v in
    let (s'', zs, e', v'') = run-IsSplit end cs s' ys pos v' in (s'', zs, rw e e', v'')
