-- ===== src/Vm/Table/Entry.antt =====
-- A change of an entry at level 0.
use xv6_riscv_private.Common.{
  ℕ, zero, suc, ◌+◌, ◌*◌, ◌<◌, ◌≡◌, ◌≢◌, refl, sym, ap, ◌∙◌, true, if◌then◌else◌, Option, none,
  some, List, update, update_self, update-ne, arith, Bool-cases, inl, inr, ◌⊎◌,
}
use xv6_riscv_private.Kalloc.{Kmem, Words}
use xv6_riscv_private.Kalloc.Chain.{IsPage, has, Chain-frame}
use xv6_riscv_private.Kalloc.Laws.{All-has}
use xv6_riscv_private.Vm.{pte2pa, is_valid, px, pte_at}
use xv6_riscv_private.Vm.Table.{Places, IsTable, lookup}
use xv6_riscv_private.Vm.Table.Walk.{key, Leads}

module _ (end : ℕ) (lab : Places) (pages : List ℕ) (k : Kmem) (leaf key0 i v : ℕ)
    (h : IsTable end lab pages k) (here : lab leaf ≡ some (0, key0)) (small : i < 512) where
  unfoldable pub changed : Words
  changed = update k.mem (leaf + 8 * i) v

  same_entry :
      (p l q j : ℕ)
      → lab p ≡ some (l, q)
      → j < 512
      → leaf + 8 * i ≡ p + 8 * j
      → (leaf ≡ p) × (i ≡ j)
  same_entry p l q j e jl eq =
      let a = h.page leaf 0 key0 here in
      let b = h.page p l q e in
      (omega (arith, a.0, b.0, jl, small, eq), omega (arith, a.0, b.0, jl, small, eq))

  -- Entries of the tables above level 0 are other ones.
  upper :
      (p l q j : ℕ) → lab p ≡ some (suc l, q) → j < 512 → changed (p + 8 * j) ≡ k.mem (p + 8 * j)
  unfolding changed
  upper p l q j e jl = update-ne k.mem (leaf + 8 * i) (p + 8 * j) v (λ eq.
      let (same, _) = same_entry p (suc l) q j e jl eq in
      let places : ◌≡◌ {A = Option (ℕ × ℕ)} (some (0, key0)) (some (suc l, q)) =
        sym here ∙ ap lab same ∙ e in
      cc)

  free_kept : (a : ℕ) → has a pages ≡ true → changed a ≡ k.mem a
  unfolding changed
  free_kept a free = update-ne k.mem (leaf + 8 * i) a v (λ e.
      let pa = All-has (IsPage end) pages a h.free.pages free in
      let pp = h.page leaf 0 key0 here in
      let same : leaf ≡ a = omega (arith, pp.0, pa.0, small, e) in
      let out = h.apart leaf 0 key0 here in ground (arith, out, free, ap (λ x. has x pages) same))

  pub IsTable-changed : IsTable end lab pages (record k { mem = changed })
  IsTable-changed = record {
    free = record {
      linked = Chain-frame k.mem changed k.freelist pages free_kept h.free.linked;
      pages = h.free.pages;
      distinct = h.free.distinct;
    };
    apart = h.apart;
    page = h.page;
    child = λ p l q j e jl valid.
        let same = upper p l q j e jl in
        ap (λ x. lab (pte2pa x)) same ∙ h.child p l q j e jl (rw same at valid);
  }

  -- The address whose tables lead here, and whose entry this is, gets the new entry.
  pub lookup-here :
      (l p q va : ℕ)
      → lab p ≡ some (l, q)
      → Leads l p va k.mem leaf
      → px 0 va ≡ i
      → lookup l p va changed ≡ (if is_valid v then some v else none)
  unfolding lookup Leads changed
  lookup-here zero p q va e leads at =
      let eq : leaf + 8 * i ≡ pte_at p 0 va = omega (arith, leads, at) in
      let value : changed (pte_at p 0 va) ≡ v =
        ap changed (sym eq) ∙ update_self k.mem (leaf + 8 * i) v in
      rw value refl
  lookup-here (suc l) p q va e (valid, leads) at =
      let j = px (suc l) va in
      let same = upper p l q j e (omega arith) in
      rw (same, valid)
        (lookup-here l (pte2pa (k.mem (p + 8 * j))) (q * 512 + j) va
          (h.child p l q j e (omega arith) valid) leads at)

  -- No other address is affected.
  pub lookup-away :
      (l p q va : ℕ)
      → lab p ≡ some (l, q)
      → (key l q va ≢ key0) ⊎ (px 0 va ≢ i)
      → lookup l p va changed ≡ lookup l p va k.mem
  unfolding lookup key changed
  lookup-away zero p q va e ne =
      let kept : changed (pte_at p 0 va) ≡ k.mem (pte_at p 0 va) =
        update-ne k.mem (leaf + 8 * i) (pte_at p 0 va) v (λ eq.
          let (same, index) = same_entry p 0 q (px 0 va) e (omega arith) eq in
          let places : ◌≡◌ {A = Option (ℕ × ℕ)} (some (0, key0)) (some (0, q)) =
            sym here ∙ ap lab same ∙ e in
          let upper_bits : key0 ≡ q = cc in
          elim ne [ inl n ↦ n (sym upper_bits) | inr n ↦ n (sym index) ]) in
      rw kept refl
  lookup-away (suc l) p q va e ne =
      let j = px (suc l) va in
      let same = upper p l q j e (omega arith) in
      elim (Bool-cases (is_valid (k.mem (p + 8 * j)))) [
        | inr out ↦ rw (same, out) refl
        | inl valid ↦
            rw (same, valid)
              (lookup-away l (pte2pa (k.mem (p + 8 * j))) (q * 512 + j) va
                (h.child p l q j e (omega arith) valid) ne)
      ]
