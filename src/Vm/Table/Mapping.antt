-- ===== src/Vm/Table/Mapping.antt =====
-- What mappages maps.
use Prim.Native.Nat.{bit_or}
use xv6_riscv_private.Common.{
  ℕ, zero, suc, ◌+◌, ◌-◌, ◌*◌, ◌/◌, ◌%◌, ◌^◌, ◌≤◌, ◌<◌, ◌≡◌, ◌≢◌, refl, sym, ap, ◌∙◌, subst, true,
  false, ◌&&◌, ◌==◌, leb, if◌then◌else◌, Option, none, some, List, [], update, arith, Bool-cases,
  inl, inr, ◌⊎◌, Outcome, ok, panic, ℤ, pos, negsuc, every_below, every_below_sound,
}
use xv6_riscv_private.Riscv.{pgsize, maxva, pg_round_down}
use xv6_riscv_private.Kalloc.{Kmem, Words}
use xv6_riscv_private.Vm.{
  pte2pa, pa2pte, is_valid, px, pte_at, walk, walk_from, mappages_loop, mappages,
}
use xv6_riscv_private.Vm.Table.{Places, IsTable, lookup}
use xv6_riscv_private.Vm.Table.Walk.{key, Leads, Kept, Walked, arrived, no_page, walk_from_lem}
use xv6_riscv_private.Vm.Table.Entry.{changed, IsTable-changed, lookup-here, lookup-away}

odd_table : every_below 1024 (λ x. bit_or x 1 % 2 == 1) ≡ true
unfolding every_below
odd_table = refl

-- The entry that is written is valid.
new-is_valid : (pa perm : ℕ) → perm < 1024 → is_valid (pa2pte pa + bit_or perm 1) ≡ true
new-is_valid pa perm lt =
    let odd = every_below_sound 1024 (λ x. bit_or x 1 % 2 == 1) odd_table perm lt in
    ground (arith, odd)

lookup-Leads :
    (l p va : ℕ) (m : Words) (leaf : ℕ)
    → Leads l p va m leaf
    → lookup l p va m
      ≡ (if is_valid (m (leaf + 8 * px 0 va)) then some (m (leaf + 8 * px 0 va)) else none)
unfolding lookup Leads
lookup-Leads zero p va m leaf e = rw e refl
lookup-Leads (suc l) p va m leaf (valid, rest) =
    rw valid (lookup-Leads l (pte2pa (m (pte_at p (suc l) va))) va m leaf rest)

-- Pages are told apart by the three indices.
other_page :
    (a va : ℕ)
    → a < maxva
    → va < maxva
    → a % pgsize ≡ 0
    → va % pgsize ≡ 0
    → (va == a) ≡ false
    → (key 2 0 va ≢ key 2 0 a) ⊎ (px 0 va ≢ px 0 a)
unfolding key
other_page a va al vl aa va_al ne = elim (Bool-cases (px 0 va == px 0 a)) [
  | inr out ↦ inr (ground (arith, out))
  | inl same ↦ inl (λ e.
      let low : px 0 va ≡ px 0 a = ground (arith, same) in
      let both : va ≡ a = omega (arith, e, low, vl, al, aa, va_al) in ground (arith, ne, both))
]

module _ (end root perm : ℕ) (pos_end : 0 < end) (flags : perm < 1024) where
  abbrev pub entry : ℕ → Kmem → Option ℕ
  entry va k = lookup 2 root va k.mem

  -- what a call does that maps the pages of `n + 1` from `a` on to those from `pa` on
  pub data Mapped (k : Kmem) (a n pa : ℕ) : Outcome (ℤ × Kmem) → Type 0 where
    done :
        (lab' : Places) (pages' : List ℕ) (k' : Kmem)
        → IsTable end lab' pages' k'
        → lab' root ≡ some (2, 0)
        → ((va : ℕ)
            → va < maxva
            → va % pgsize ≡ 0
            → entry va k' ≡ (
                if leb a va && leb va (a + n * pgsize)
                then some (pa2pte (pa + (va - a)) + bit_or perm 1)
                else entry va k))
        → Mapped k a n pa (ok (pos 0, k'))
    failed :
        (lab' : Places) (k' : Kmem)
        → IsTable end lab' [] k'
        → lab' root ≡ some (2, 0)
        → ((va : ℕ)
            → va < maxva
            → va % pgsize ≡ 0
            → (va < a) ⊎ (a + n * pgsize < va)
            → entry va k' ≡ entry va k)
        → Mapped k a n pa (ok (negsuc 0, k'))
    remap :
        (va : ℕ)
        → a ≤ va
        → va ≤ a + n * pgsize
        → va % pgsize ≡ 0
        → entry va k ≢ none
        → Mapped k a n pa panic

  -- one page: what `k'` holds once the entry at `leaf` is written
  entry-changed :
      (lab : Places) (k : Kmem) (lab' : Places) (pages' : List ℕ) (k' : Kmem) (a pa leaf : ℕ)
      (kept : Kept end lab k lab' pages' k') (here : lab' leaf ≡ some (0, key 2 0 a))
      → lab root ≡ some (2, 0)
      → Leads 2 root a k'.mem leaf
      → a < maxva
      → a % pgsize ≡ 0
      → (va : ℕ) → va < maxva
      → va % pgsize ≡ 0
      → entry va (record k' { mem = update k'.mem (leaf + 8 * px 0 a) (pa2pte pa + bit_or perm 1) })
        ≡ (if va == a then some (pa2pte pa + bit_or perm 1) else entry va k)
  unfolding changed
  entry-changed lab k lab' pages' k' a pa leaf kept here top leads al aa va vl va_al =
      elim (Bool-cases (va == a)) [
        | inl same ↦
            let q : va ≡ a = ground (arith, same) in
            let there : Leads 2 root va k'.mem leaf =
              subst (λ x. Leads 2 root x k'.mem leaf) (sym q) leads in
            rw same (
              lookup-here end lab' pages' k' leaf (key 2 0 a) (px 0 a) (pa2pte pa + bit_or perm 1)
                kept.table here (omega arith) 2 root 0 va (kept.old root 2 0 top) there
                (ap (px 0) q)
              ∙ rw (new-is_valid pa perm flags) refl)
        | inr other ↦ rw other (
            lookup-away end lab' pages' k' leaf (key 2 0 a) (px 0 a) (pa2pte pa + bit_or perm 1)
              kept.table here (omega arith) 2 root 0 va (kept.old root 2 0 top)
              (other_page a va al vl aa va_al other)
            ∙ kept.lookups 2 root 0 va top)
      ]

  -- The pages after the first are mapped too.
  Mapped-suc :
      (k k1 : Kmem) (a n pa : ℕ) (out : Outcome (ℤ × Kmem))
      → ((va : ℕ)
          → va < maxva
          → va % pgsize ≡ 0
          → entry va k1 ≡ (if va == a then some (pa2pte pa + bit_or perm 1) else entry va k))
      → a % pgsize ≡ 0
      → a + suc n * pgsize < maxva
      → Mapped k1 (a + pgsize) n (pa + pgsize) out
      → Mapped k a (suc n) pa out
  Mapped-suc k k1 a n pa out first al room (done lab' pages' k' table top values) =
      done lab' pages' k' table top (λ va vl va_al. elim (Bool-cases (leb (a + pgsize) va)) [
        | inl later ↦
            let next : pa + pgsize + (va - (a + pgsize)) ≡ pa + (va - a) = ground (arith, later) in
            let value = values va vl va_al in
            let same = ap pa2pte next in ground (arith, first va vl va_al, value, later, same)
        | inr now ↦
            let here : (va == a) ≡ leb a va = ground (arith, now, al, va_al) in
            let value : entry va k'
                ≡ (if va == a then some (pa2pte pa + bit_or perm 1) else entry va k) =
              values va vl va_al ∙ rw now (first va vl va_al) in
            elim (Bool-cases (va == a)) [
              | inl same ↦
                  let zero_off : pa + (va - a) ≡ pa = ground (arith, same) in
                  ground (arith, value, now, same, zero_off, ap pa2pte zero_off)
              | inr other ↦ ground (arith, value, now, other, here)
            ]
      ])
  Mapped-suc k k1 a n pa out first al room (failed lab' k' table top values) =
      failed lab' k' table top (λ va vl va_al out'.
        values va vl va_al (ground (arith, out')) ∙ first va vl va_al ∙ ground (arith, out'))
  Mapped-suc k k1 a n pa out first al room (remap va lo hi va_al there) =
      remap va (omega (arith, lo)) (omega (arith, hi)) va_al (λ e. there (
        first va (omega (arith, hi, room)) va_al
        ∙ (let other : (va == a) ≡ false = ground (arith, lo) in rw other e)))

  only_one :
      (va : ℕ) (k : Kmem) (a n pa last : ℕ)
      → a + n * pgsize ≡ last
      → (a == last) ≡ true
      → (if va == a then some (pa2pte pa + bit_or perm 1) else entry va k) ≡ (
          if leb a va && leb va (a + n * pgsize)
          then some (pa2pte (pa + (va - a)) + bit_or perm 1)
          else entry va k)
  only_one va k a n pa last e at_end =
      let here : (leb a va && leb va (a + n * pgsize)) ≡ (va == a) = ground (arith, e, at_end) in
      rw here (elim (Bool-cases (va == a)) [
        | inl same ↦ let q : pa + (va - a) ≡ pa = ground (arith, same) in rw (same, q) refl
        | inr other ↦ rw other refl
      ])

  -- one round of the loop, and then the rest
  round :
      (lab : Places) (k : Kmem) (f a n last pa : ℕ) (w : Option ℕ × Kmem)
      → Walked end lab k 2 root 0 a w
      → lab root ≡ some (2, 0)
      → a % pgsize ≡ 0
      → a + n * pgsize ≡ last
      → last < maxva
      → pa + n * pgsize < 2 ^ 63
      → ((lab1 : Places) (pages1 : List ℕ) (k1 : Kmem) (m : ℕ)
          → IsTable end lab1 pages1 k1
          → lab1 root ≡ some (2, 0)
          → n ≡ suc m
          → Mapped k1
              (a + pgsize)
              m
              (pa + pgsize)
              (mappages_loop f root (a + pgsize) last (pa + pgsize) perm k1))
      → walk root a true k ≡ ok w
      → Mapped k a n pa (mappages_loop (suc f) root a last pa perm k)
  unfolding mappages_loop changed
  round lab k f a n last pa (none, kx) (no_page lab' k' kept) top al e lt fits go walked =
      rw walked (
        failed lab' k' kept.table (kept.old root 2 0 top)
          (λ va vl va_al out. kept.lookups 2 root 0 va top))
  round lab k f a n last pa (some d, kx) (arrived leaf lab' pages' k' kept here leads) top al e lt
        fits go walked =
      let v = pa2pte pa + bit_or perm 1 in
      let k1 : Kmem = record kx { mem = update kx.mem (leaf + 8 * px 0 a) v } in
      let table =
        IsTable-changed end lab' pages' kx leaf (key 2 0 a) (px 0 a) v kept.table here
          (omega arith) in
      let root' = kept.old root 2 0 top in
      let al' : a < maxva = omega (arith, e, lt) in
      let first = entry-changed lab k lab' pages' kx a pa leaf kept here top leads al' al in
      let before = lookup-Leads 2 root a kx.mem leaf leads in
      let same = kept.lookups 2 root 0 a top in
      elim (Bool-cases (is_valid (kx.mem (leaf + 8 * px 0 a)))) [
        | inl valid ↦
            rw (walked, valid)
              (remap a (omega arith) (omega arith) al
                (λ z. let there = sym before ∙ same ∙ z in ground (arith, there, valid)))
        | inr gap ↦ elim (Bool-cases (a == last)) [
          | inl at_end ↦
              rw (walked, gap, at_end)
                (done lab' pages' k1 table root'
                  (λ va vl va_al. first va vl va_al ∙ only_one va k a n pa last e at_end))
          | inr more ↦
              let m = n - 1 in
              let nm : n ≡ suc m = ground (arith, e, more) in
              let wrap : (a + pgsize) % 2 ^ 64 ≡ a + pgsize = omega (arith, al') in
              let wrap' : (pa + pgsize) % 2 ^ 64 ≡ pa + pgsize = omega (arith, fits) in
              rw (walked, gap, more, wrap, wrap')
                (subst
                  (λ x.
                    Mapped k a x pa (mappages_loop f root (a + pgsize) last (pa + pgsize) perm k1))
                  (sym nm)
                  (Mapped-suc k k1 a m pa _ first al (omega (arith, nm, e, lt))
                    (go lab' pages' k1 m table root' nm)))
        ]
      ]

  mappages_loop_lem :
      (f : ℕ) (lab : Places) (pages : List ℕ) (k : Kmem) (a n last pa : ℕ)
      → n < f
      → IsTable end lab pages k
      → lab root ≡ some (2, 0)
      → a % pgsize ≡ 0
      → a + n * pgsize ≡ last
      → last < maxva
      → pa + n * pgsize < 2 ^ 63
      → Mapped k a n pa (mappages_loop f root a last pa perm k)
  unfolding walk
  mappages_loop_lem zero lab pages k a n last pa fuel h top al e lt fits = absurd (omega arith)
  mappages_loop_lem (suc f) lab pages k a n last pa fuel h top al e lt fits =
      let inside : leb maxva a ≡ false = ground (arith, e, lt) in
      round lab k f a n last pa (walk_from true 2 (some root) a k)
        (walk_from_lem end 2 lab pages k root 0 a pos_end h top) top al e lt fits
        (λ lab1 pages1 k1 m h1 top1 nm.
          mappages_loop_lem f lab1 pages1 k1 (a + pgsize) m last (pa + pgsize)
            (omega (arith, nm, fuel)) h1 top1 (omega (arith, al)) (omega (arith, nm, e)) lt
            (omega (arith, nm, fits)))
        (rw inside refl)

  -- In a well-formed page table, with virtual addresses below MAXVA and a range that is not empty, `mappages` ends in one of three
  -- ways. It returns 0, and then exactly the pages of the range have got valid entries, with the physical
  -- pages in order and the permissions, and every other address has the entry that it had; or -1, and then no page of memory is
  -- free and the addresses outside of the range have their entries; or it panics, and then a page of the range was mapped
  -- before. The page table that it returns is well-formed.
  pub mappages_lem :
      (lab : Places) (pages : List ℕ) (k : Kmem) (va size pa : ℕ)
      → IsTable end lab pages k
      → lab root ≡ some (2, 0)
      → 0 < size
      → va + size ≤ maxva
      → pa + size < 2 ^ 62
      → Mapped k
          (pg_round_down va)
          ((pg_round_down (va + size - 1) - pg_round_down va) / pgsize)
          pa
          (mappages root va size pa perm k)
  unfolding mappages
  mappages_lem lab pages k va size pa h top some_bytes inside fits =
      let wrap : (va + size - 1) % 2 ^ 64 ≡ va + size - 1 = omega (arith, inside) in
      let given : (size == 0) ≡ false = ground (arith, some_bytes) in
      rw (given, wrap)
        (mappages_loop_lem (size / pgsize + 2) lab pages k (pg_round_down va)
          ((pg_round_down (va + size - 1) - pg_round_down va) / pgsize)
          (pg_round_down (va + size - 1)) pa (omega (arith, some_bytes)) h top (omega arith)
          (omega (arith, some_bytes)) (omega (arith, some_bytes, inside))
          (omega (arith, some_bytes, inside, fits)))
