-- ===== src/Virtio/Chain.antt =====
-- A request's descriptors are freed when it is done.
use xv6_riscv_private.Common.{
  length, ℕ, zero, suc, ◌+◌, ◌%◌, ◌<◌, ◌≡◌, refl, ap, ◌∙◌, subst, Bool, true, false, ◌||◌, ◌==◌,
  if◌then◌else◌, update, update_self, update-ne, arith, Bool-cases, inl, inr, some, List, [], ◌∷◌,
  ok,
}
use xv6_riscv_private.Kalloc.Chain.{has, Distinct}
use xv6_riscv_private.Virtio.{Desc, Queue, num, free_chain, alloc3_desc, format}
use xv6_riscv_private.Virtio.Alloc.{free_desc-eq, Allocated, got, alloc3_desc_lem}

-- from descriptor `i` on, the chain of the descriptors `idx`
abbrev IsChain : (ℕ → Desc) → List ℕ → Type 0
IsChain desc [] = Unit
IsChain desc (i ∷ []) = (desc i).flags % 2 ≡ 0
IsChain desc (i ∷ j ∷ idx) = ((desc i).flags % 2 ≡ 1) × ((desc i).next ≡ j) × IsChain desc (j ∷ idx)

cleared_one : ℕ → Queue → Queue
cleared_one i q = record {
  desc = update q.desc i record { addr = 0; len = 0; flags = 0; next = 0 };
  is_free = update q.is_free i true;
}

IsChain-cleared :
    (i : ℕ) (q : Queue) (idx : List ℕ)
    → has i idx ≡ false
    → IsChain q.desc idx
    → IsChain (cleared_one i q).desc idx
unfolding cleared_one
IsChain-cleared i q [] out c = tt
IsChain-cleared i q (j ∷ []) out c =
    let e : update q.desc i (record { addr = 0; len = 0; flags = 0; next = 0 }) j ≡ q.desc j =
      update-ne q.desc i j _ (λ z. ground (arith, out, z)) in
    ap (λ x. x.flags % 2) e ∙ c
IsChain-cleared i q (j ∷ k ∷ idx) out (flag, next, c) =
    let e : update q.desc i (record { addr = 0; len = 0; flags = 0; next = 0 }) j ≡ q.desc j =
      update-ne q.desc i j _ (λ z. ground (arith, out, z)) in
    (
      ap (λ x. x.flags % 2) e ∙ flag,
      ap (λ x. x.next) e ∙ next,
      IsChain-cleared i q (k ∷ idx) (ground (arith, out)) c,
    )

-- All descriptors of a chain are freed, and no others.
free_chain_lem :
    (i : ℕ) (idx : List ℕ) (f : ℕ) (q : Queue)
    → length (i ∷ idx) < f
    → Distinct (i ∷ idx)
    → IsChain q.desc (i ∷ idx)
    → ((j : ℕ) → has j (i ∷ idx) ≡ true → (j < num) × (q.is_free j ≡ false))
    → (q' : Queue) × (free_chain f i q ≡ ok q')
      × ((j : ℕ) → q'.is_free j ≡ (q.is_free j || has j (i ∷ idx)))
unfolding free_chain length cleared_one
free_chain_lem i idx zero q fuel d c used = absurd (omega (arith, fuel))
free_chain_lem i [] (suc f) q fuel d c used =
    let here = used i (ground arith) in
    let last : ((q.desc i).flags % 2 == 1) ≡ false = ground (arith, c) in
    (cleared_one i q, rw (free_desc-eq i q here.0 here.1, last) refl, λ j. ground arith)
free_chain_lem i (k ∷ idx) (suc f) q fuel d (flag, next, c) used =
    let here = used i (ground arith) in
    let more : ((q.desc i).flags % 2 == 1) ≡ true = ground (arith, flag) in
    let out = d.0 in
    let (q', e, free) =
      free_chain_lem k idx f (cleared_one i q) (omega (arith, fuel)) d.1
        (IsChain-cleared i q (k ∷ idx) d.0 c)
        (λ j there.
          let old = used j (ground (arith, there)) in
          (
            old.0,
            elim (Bool-cases (j == i)) [
              | inl same ↦
                  let z : j ≡ i = ground (arith, same) in
                  absurd (ground (arith, ap (λ x. has x (k ∷ idx)) z, there, out))
              | inr other ↦ ground (arith, other, old.1)
            ],
          )) in
    (
      q',
      rw (free_desc-eq i q here.0 here.1, more, next) e,
      λ j. let b = free j in ground (arith, b),
    )

module _ (buf0 block status : ℕ) (write : Bool) where
  format-IsChain :
      (i0 i1 i2 : ℕ) (q : Queue)
      → Distinct (i0 ∷ i1 ∷ i2 ∷ [])
      → IsChain (format buf0 block status write i0 i1 i2 q).desc (i0 ∷ i1 ∷ i2 ∷ [])
  unfolding format
  format-IsChain i0 i1 i2 q d =
      let first = d.0 in
      let second = d.1.0 in
      let r0 : Desc = record { addr = buf0; len = 16; flags = 1; next = i1 } in
      let r1 : Desc = record {
        addr = block;
        len = 1024;
        flags = if write then 1 else 3;
        next = i2;
      } in
      let r2 : Desc = record { addr = status; len = 1; flags = 2; next = 0 } in
      let d0 = update q.desc i0 r0 in
      let d1 = update d0 i1 r1 in
      let at0 : update d1 i2 r2 i0 ≡ r0 =
        update-ne d1 i2 i0 r2 (λ z. ground (arith, first, z))
        ∙ update-ne d0 i1 i0 r1 (λ z. ground (arith, first, z))
        ∙ update_self q.desc i0 r0 in
      let at1 : update d1 i2 r2 i1 ≡ r1 =
        update-ne d1 i2 i1 r2 (λ z. ground (arith, second, z)) ∙ update_self d0 i1 r1 in
      let at2 : update d1 i2 r2 i2 ≡ r2 = update_self d1 i2 r2 in
      let odd : (if write then 1 else 3) % 2 ≡ 1 =
        elim write as (λ k. (if k then 1 else 3) % 2 ≡ 1) [ true ↦ refl | false ↦ refl ] in
      (
        ap (λ x. x.flags % 2) at0,
        ap (λ x. x.next) at0,
        (ap (λ x. x.flags % 2) at1 ∙ odd, ap (λ x. x.next) at1, ap (λ x. x.flags % 2) at2),
      )

  format-free :
      (i0 i1 i2 : ℕ) (q : Queue) → (format buf0 block status write i0 i1 i2 q).is_free ≡ q.is_free
  unfolding format
  format-free i0 i1 i2 q = refl

  request :
      (i0 i1 i2 : ℕ) (q q' : Queue)
      → Allocated q 3 (ok (some (i0 ∷ i1 ∷ i2 ∷ []), q'))
      → (q'' : Queue) × (free_chain (num + 1) i0 (format buf0 block status write i0 i1 i2 q')
          ≡ ok q'')
        × ((j : ℕ) → q''.is_free j ≡ q.is_free j)
  unfolding length
  request i0 i1 i2 q q' (got idx q1 t e) =
      let done =
        free_chain_lem i0 (i1 ∷ i2 ∷ []) (num + 1) (format buf0 block status write i0 i1 i2 q')
          (omega arith) t.distinct (format-IsChain i0 i1 i2 q' t.distinct)
          (λ j there.
            let (lt, free) = t.all j there in
            let f = t.free j in
            (lt, ap (λ x. x j) (format-free i0 i1 i2 q') ∙ ground (arith, f, there))) in
      (
        done.0,
        done.1,
        λ j.
            let back = done.2 j in
            let f = t.free j in
            let same = ap (λ x. x j) (format-free i0 i1 i2 q') in
            back
            ∙ ap (λ x. x || has j (i0 ∷ i1 ∷ i2 ∷ [])) (same ∙ f)
            ∙ elim (Bool-cases (has j (i0 ∷ i1 ∷ i2 ∷ []))) [
              | inl there ↦ let (lt, free) = t.all j there in ground (arith, there, free)
              | inr out ↦ ground (arith, out)
            ],
      )

  -- A request leaks no descriptor: when three descriptors were allocated and filled in as `virtio_disk_rw` does, for a read or
  -- a write and any addresses, `free_chain` of the first one frees them without a panic, and then the same descriptors
  -- are free as before the request.
  pub free_chain-alloc3_desc :
      (i0 i1 i2 : ℕ) (q q' : Queue)
      → alloc3_desc q ≡ ok (some (i0 ∷ i1 ∷ i2 ∷ []), q')
      → (q'' : Queue) × (free_chain (num + 1) i0 (format buf0 block status write i0 i1 i2 q')
          ≡ ok q'')
        × ((j : ℕ) → q''.is_free j ≡ q.is_free j)
  free_chain-alloc3_desc i0 i1 i2 q q' e =
      request i0 i1 i2 q q' (subst (Allocated q 3) e (alloc3_desc_lem q))
