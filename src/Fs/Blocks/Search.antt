-- ===== src/Fs/Blocks/Search.antt =====
-- What the search of balloc for a free block finds.
use xv6_riscv_private.Common.{
  ℕ, zero, suc, ◌+◌, ◌*◌, ◌%◌, ◌≤◌, ◌<◌, ◌≡◌, refl, true, false, ◌==◌, ltb, arith, Bool-cases, inl,
  inr, ◌⊎◌, none, some,
}
use xv6_riscv_private.Fs.{Data, bpb, SuperBlock, Store, put, bblock}
use xv6_riscv_private.Fs.Bitmap.{is_free, mark}
use xv6_riscv_private.Fs.Blocks.{bzero, find_bit, balloc_loop, in_use}

module _ (sb : SuperBlock) where
  find_bit_lem :
      (n bi b : ℕ) (d : Data)
      → (((k : ℕ) × (find_bit n bi b sb.size d ≡ some k)
          × (bi ≤ k)
          × (k < bi + n)
          × (b + k < sb.size)
          × (is_free d k ≡ true)))
        ⊎ ((find_bit n bi b sb.size d ≡ none)
            × ((k : ℕ) → bi ≤ k → k < bi + n → b + k < sb.size → is_free d k ≡ false))
  unfolding find_bit
  find_bit_lem zero bi b d = inr (refl, λ k lo hi lt. absurd (omega arith))
  find_bit_lem (suc n) bi b d = elim (Bool-cases (ltb (b + bi) sb.size)) [
    | inr out ↦ inr (rw out refl, λ k lo hi lt. absurd (ground (arith, out)))
    | inl inside ↦ elim (Bool-cases (is_free d bi)) [
      | inl free ↦
          inl (bi, rw (inside, free) refl, omega arith, omega arith, ground (arith, inside), free)
      | inr taken ↦ elim (find_bit_lem n (bi + 1) b d) [
        | inl (k, e, lo, hi, lt, f) ↦ inl (k, rw (inside, taken) e, omega arith, omega arith, lt, f)
        | inr (e, all) ↦ inr (
          rw (inside, taken) e,
          λ k lo hi lt. elim (Bool-cases (bi == k)) [
            | inl same ↦ ground (arith, same, taken)
            | inr other ↦ all k (ground arith) (omega arith) lt
          ],
        )
      ]
    ]
  ]

  -- what `balloc sb` has done: taken a free block, or found none
  pub record Took (s : Store) (r : ℕ) (s' : Store) : Type 0 where
    pub inside : r < sb.size
    pub was_free : in_use sb s r ≡ false
    pub result : s' ≡ bzero r (put (bblock r sb) (mark (s.blocks (bblock r sb)) (r % bpb)) s)

  abbrev pub Searched : Store → ℕ → ℕ × Store → Type 0
  Searched s b (r, s') =
      Took s r s' ⊎ ((r ≡ 0) × (s' ≡ s) × ((c : ℕ) → b ≤ c → c < sb.size → in_use sb s c ≡ true))

  pub balloc_loop_lem :
      (f b : ℕ) (s : Store)
      → b % bpb ≡ 0
      → sb.size < b + f * bpb
      → Searched s b (balloc_loop sb f b s)
  unfolding balloc_loop in_use
  balloc_loop_lem zero b s al h = inr (refl, refl, λ c lo hi. absurd (omega arith))
  balloc_loop_lem (suc f) b s al h = elim (Bool-cases (ltb b sb.size)) [
    | inr out ↦ rw out (inr (refl, refl, λ c lo hi. absurd (ground (arith, out))))
    | inl inside ↦ elim (find_bit_lem bpb 0 b (s.blocks (bblock b sb))) [
      | inl (k, e, lo, hi, lt, free) ↦
          rw (inside, e)
            (let same : bblock (b + k) sb ≡ bblock b sb = omega (arith, al, hi) in
              let bit : (b + k) % bpb ≡ k = omega (arith, al, hi) in
              inl (record {
                inside = lt;
                was_free = rw (same, bit, free) refl;
                result = rw (same, bit) refl;
              }))
      | inr (e, all) ↦
          let tail = balloc_loop_lem f (b + bpb) s (omega (arith, al)) (omega (arith, h)) in
          rw (inside, e)
            (elim tail [
              | inl t ↦ inl t
              | inr (z, same, later) ↦ inr (
                z,
                same,
                λ c lo hi. elim (Bool-cases (ltb c (b + bpb))) [
                  | inl here ↦
                      let block : bblock c sb ≡ bblock b sb = ground (arith, al, here) in
                      let bit : b + c % bpb ≡ c = ground (arith, al, here) in
                      rw block (
                        ground
                          (arith, all (c % bpb) (omega arith) (omega arith) (omega (arith, bit))))
                  | inr there ↦ later c (ground (arith, there)) hi
                ],
              )
            ])
    ]
  ]
