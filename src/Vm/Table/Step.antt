-- ===== src/Vm/Table/Step.antt =====
-- A round of walk that adds a table.
use xv6_riscv_private.Common.{
  ℕ, zero, suc, ◌+◌, ◌*◌, ◌%◌, ◌<◌, ◌≡◌, ◌≢◌, refl, sym, ap, ◌∙◌, subst, true, false, ◌==◌, Option,
  none, some, List, ◌∷◌, update, update_self, update-ne, arith, Bool-cases, inl, inr, ◌⊎◌,
}
use xv6_riscv_private.Riscv.{pgsize, phystop}
use xv6_riscv_private.Kalloc.{Kmem, Words, fill}
use xv6_riscv_private.Kalloc.Chain.{IsPage, has, Chain-frame}
use xv6_riscv_private.Kalloc.Laws.{All-has}
use xv6_riscv_private.Vm.{pte2pa, pa2pte, is_valid, px}
use xv6_riscv_private.Vm.Table.{Places, IsTable, lookup}

pub pte2pa-pa2pte : (c : ℕ) → c % pgsize ≡ 0 → c < phystop → pte2pa (pa2pte c + 1) ≡ c
pte2pa-pa2pte c al lt = omega (arith, al, lt)

-- the memory once the zeroed page `c` has been entered at `at`
unfoldable pub entered : ℕ → ℕ → Words → Words
entered c at m = update (fill c 0 (fill c 5 m)) at (pa2pte c + 1)

-- Page `c` is the new table, in entry `i` of the table `p`.
module _ (end : ℕ) (lab : Places) (c : ℕ) (xs : List ℕ) (k : Kmem) (p l q i : ℕ)
    (h : IsTable end lab (c ∷ xs) k) (here : lab p ≡ some (suc l, q)) (small : i < 512)
    (gap : is_valid (k.mem (p + 8 * i)) ≡ false) where
  unfoldable pub m2 : Words
  m2 = entered c (p + 8 * i) k.mem

  unfoldable pub lab2 : Places
  lab2 = update lab c (some (l, q * 512 + i))

  pub c-IsPage : IsPage end c
  c-IsPage = h.free.pages.0

  -- A table page is another page than the new one.
  pub table-ne : (p' l' q' : ℕ) → lab p' ≡ some (l', q') → c ≢ p'
  table-ne p' l' q' e same = let out = h.apart p' l' q' e in ground (arith, out, same)

  p-ne : c ≢ p
  p-ne = table-ne p (suc l) q here

  pub entry_here : m2 (p + 8 * i) ≡ pa2pte c + 1
  unfolding m2 entered
  entry_here = update_self (fill c 0 (fill c 5 k.mem)) (p + 8 * i) (pa2pte c + 1)

  entry_other :
      (p' j : ℕ)
      → p' % pgsize ≡ 0
      → c ≢ p'
      → j < 512
      → p + 8 * i ≢ p' + 8 * j
      → m2 (p' + 8 * j) ≡ k.mem (p' + 8 * j)
  unfolding m2 entered fill
  entry_other p' j al ne jl other = let pc = c-IsPage in ground (arith, al, ne, jl, other, pc)

  entry_new : (j : ℕ) → j < 512 → m2 (c + 8 * j) ≡ 0
  unfolding m2 entered fill
  entry_new j jl =
      let pc = c-IsPage in
      let pp = h.page p (suc l) q here in ground (arith, p-ne, jl, pc, pp, small)

  -- Entries at the same address are of the same table.
  same_entry :
      (p' j l' q' : ℕ)
      → lab p' ≡ some (l', q')
      → j < 512
      → p + 8 * i ≡ p' + 8 * j
      → (p ≡ p') × (i ≡ j)
  same_entry p' j l' q' e jl eq =
      let a = h.page p (suc l) q here in
      let b = h.page p' l' q' e in
      (omega (arith, a.0, b.0, jl, small, eq), omega (arith, a.0, b.0, jl, small, eq))

  unfoldable pub k2 : Kmem
  k2 = record { freelist = k.mem c; mem = m2 }

  placed :
      (p' l' q' : ℕ)
      → lab2 p' ≡ some (l', q')
      → ((c ≡ p') × (l' ≡ l) × (q' ≡ q * 512 + i)) ⊎ (lab p' ≡ some (l', q'))
  unfolding lab2
  placed p' l' q' e = elim (Bool-cases (c == p')) [
    | inl new ↦
        let at : ◌≡◌ {A = Option (ℕ × ℕ)} (some (l, q * 512 + i)) (some (l', q')) =
          sym (rw new refl) ∙ e in
        inl (ground (arith, new), cc, cc)
    | inr old ↦ inr (rw old at e)
  ]

  pub lab2-old : (p' : ℕ) → c ≢ p' → lab2 p' ≡ lab p'
  unfolding lab2
  lab2-old p' ne = update-ne lab c p' (some (l, q * 512 + i)) ne

  pub here2 : lab2 c ≡ some (l, q * 512 + i)
  unfolding lab2
  here2 = update_self lab c (some (l, q * 512 + i))

  child2 :
      (p' l' q' j : ℕ)
      → lab2 p' ≡ some (suc l', q')
      → j < 512
      → is_valid (m2 (p' + 8 * j)) ≡ true
      → lab2 (pte2pa (m2 (p' + 8 * j))) ≡ some (l', q' * 512 + j)
  child2 p' l' q' j e jl valid = elim (placed p' (suc l') q' e) [
    | inl (new, _, _) ↦
        let zero_entry : m2 (p' + 8 * j) ≡ 0 =
          ap (λ x. m2 (x + 8 * j)) (sym new) ∙ entry_new j jl in
        absurd (ground (arith, valid, zero_entry))
    | inr old ↦ elim (Bool-cases (p + 8 * i == p' + 8 * j)) [
      | inl same ↦
          let (pp, ij) = same_entry p' j (suc l') q' old jl (ground (arith, same)) in
          let places : ◌≡◌ {A = Option (ℕ × ℕ)} (some (suc l, q)) (some (suc l', q')) =
            sym here ∙ ap lab pp ∙ old in
          let ll : l ≡ l' = cc in
          let qq : q ≡ q' = cc in
          let value : pte2pa (m2 (p' + 8 * j)) ≡ c =
            ap (λ x. pte2pa (m2 x)) (sym (ground (arith, same)))
            ∙ ap pte2pa entry_here
            ∙ pte2pa-pa2pte c c-IsPage.0 c-IsPage.2 in
          ap lab2 value
          ∙ here2
          ∙ ap (λ x. some (x, q * 512 + i)) ll
          ∙ ap (λ x. some (l', x)) (rw (qq, ij) refl)
      | inr other ↦
          let ne = table-ne p' (suc l') q' old in
          let kept = entry_other p' j (h.page p' (suc l') q' old).0 ne jl (ground (arith, other)) in
          let was = h.child p' l' q' j old jl (rw kept at valid) in
          ap (λ x. lab2 (pte2pa x)) kept
          ∙ lab2-old (pte2pa (k.mem (p' + 8 * j))) (table-ne _ l' (q' * 512 + j) was)
          ∙ was
    ]
  ]

  free_kept : (a : ℕ) → has a xs ≡ true → m2 a ≡ k.mem a
  unfolding m2 entered fill
  free_kept a free =
      let pa = All-has (IsPage end) xs a h.free.pages.1 free in
      let ne : c ≢ a =
        λ e. let out = h.free.distinct.0 in ground (arith, out, free, ap (λ x. has x xs) e) in
      let off : p + 8 * i ≢ a = λ e.
        let pp = h.page p (suc l) q here in
        let same : p ≡ a = omega (arith, pp.0, pa.0, small, e) in
        let out = h.apart p (suc l) q here in ground (arith, out, free, ap (λ x. has x xs) same) in
      let pc = c-IsPage in ground (arith, pa, pc, ne, off)

  pub IsTable-entered : IsTable end lab2 xs k2
  unfolding k2
  IsTable-entered = record {
    free = record {
      linked = Chain-frame k.mem m2 (k.mem c) xs free_kept h.free.linked.1;
      pages = h.free.pages.1;
      distinct = h.free.distinct.1;
    };
    apart = λ p' l' q' e. elim (placed p' l' q' e) [
      | inl (new, _, _) ↦ subst (λ x. has x xs ≡ false) new h.free.distinct.0
      | inr old ↦ let out = h.apart p' l' q' old in ground (arith, out)
    ];
    page = λ p' l' q' e. elim (placed p' l' q' e) [
      | inl (new, _, _) ↦ subst (IsPage end) new c-IsPage
      | inr old ↦ h.page p' l' q' old
    ];
    child = child2;
  }

  entry_valid : is_valid (pa2pte c + 1) ≡ true
  entry_valid = ground arith

  lookup-new : (l' va : ℕ) → lookup l' c va m2 ≡ none
  unfolding lookup
  lookup-new zero va = let e = entry_new (px 0 va) (omega arith) in rw e refl
  lookup-new (suc l') va = let e = entry_new (px (suc l') va) (omega arith) in rw e refl

  -- Every address has the entry that it had.
  pub lookup-entered :
      (l' p' q' va : ℕ) → lab p' ≡ some (l', q') → lookup l' p' va m2 ≡ lookup l' p' va k.mem
  unfolding lookup
  lookup-entered zero p' q' va e =
      let j = px 0 va in
      let apart : p + 8 * i ≢ p' + 8 * j = λ eq.
        let (pp, _) = same_entry p' j 0 q' e (omega arith) eq in
        let places : ◌≡◌ {A = Option (ℕ × ℕ)} (some (suc l, q)) (some (0, q')) =
          sym here ∙ ap lab pp ∙ e in
        cc in
      rw (entry_other p' j (h.page p' 0 q' e).0 (table-ne p' 0 q' e) (omega arith) apart) refl
  lookup-entered (suc l') p' q' va e =
      let j = px (suc l') va in
      elim (Bool-cases (p + 8 * i == p' + 8 * j)) [
        | inl same ↦
            let at : p + 8 * i ≡ p' + 8 * j = ground (arith, same) in
            let value : m2 (p' + 8 * j) ≡ pa2pte c + 1 = ap m2 (sym at) ∙ entry_here in
            let before : is_valid (k.mem (p' + 8 * j)) ≡ false =
              ap (λ x. is_valid (k.mem x)) (sym at) ∙ gap in
            rw (value, entry_valid, before, pte2pa-pa2pte c c-IsPage.0 c-IsPage.2)
              (lookup-new l' va)
        | inr other ↦
            let kept =
              entry_other p' j (h.page p' (suc l') q' e).0 (table-ne p' (suc l') q' e) (omega arith)
                (ground (arith, other)) in
            elim (Bool-cases (is_valid (k.mem (p' + 8 * j)))) [
              | inr out ↦ rw (kept, out) refl
              | inl valid ↦
                  rw (kept, valid)
                    (lookup-entered l' (pte2pa (k.mem (p' + 8 * j))) (q' * 512 + j) va
                      (h.child p' l' q' j e (omega arith) valid))
            ]
      ]

  -- The valid entries of the tables stay.
  pub entry_kept :
      (p' l' q' j : ℕ)
      → lab p' ≡ some (suc l', q')
      → j < 512
      → is_valid (k.mem (p' + 8 * j)) ≡ true
      → m2 (p' + 8 * j) ≡ k.mem (p' + 8 * j)
  entry_kept p' l' q' j e jl valid =
      let apart : p + 8 * i ≢ p' + 8 * j =
        λ eq. let same = ap (λ x. is_valid (k.mem x)) eq in ground (arith, gap, valid, same) in
      entry_other p' j (h.page p' (suc l') q' e).0 (table-ne p' (suc l') q' e) jl apart
