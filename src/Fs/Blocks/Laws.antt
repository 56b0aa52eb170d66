-- ===== src/Fs/Blocks/Laws.antt =====
-- What balloc and bfree do to the free map.
use xv6_riscv_private.Common.{
  ℕ, ◌+◌, ◌/◌, ◌%◌, ◌<◌, ◌≡◌, ◌≢◌, refl, ap, sym, ◌∙◌, subst, true, false, not, ◌&&◌, ◌||◌, ◌==◌,
  if◌then◌else◌, arith, Bool-cases, inl, inr, ◌⊎◌, ok, panic,
}
use xv6_riscv_private.Fs.{bpb, SuperBlock, Store, put, bblock}
use xv6_riscv_private.Fs.Bitmap.{
  mark, unmark, AreBytes, is_free-mark, is_free-unmark, AreBytes-mark,
}
use xv6_riscv_private.Fs.Blocks.{zeros, bzero, balloc_loop, balloc, bfree, in_use, HasMap}
use xv6_riscv_private.Fs.Blocks.Search.{balloc_loop_lem}

module _ (sb : SuperBlock) where
  -- what a successful `balloc sb` leaves behind
  pub record Fresh (s : Store) (r : ℕ) (s' : Store) : Type 0 where
    pub inside : r < sb.size
    pub nonzero : r ≢ 0
    pub was_free : in_use sb s r ≡ false
    pub uses : (c : ℕ) → c < sb.size → in_use sb s' c ≡ (r == c || in_use sb s c)
    pub zeroed : s'.blocks r ≡ zeros
    pub others : (c : ℕ) → c ≢ r → c ≢ bblock r sb → s'.blocks c ≡ s.blocks c
    pub has_map : HasMap sb s'

  in_use-ne :
      (s : Store) (r c : ℕ)
      → c < sb.size
      → HasMap sb s
      → in_use sb s r ≡ false
      → (r == bblock c sb) ≡ false
  in_use-ne s r c lt h free = elim (Bool-cases (r == bblock c sb)) [
    | inl e ↦
        let q : r ≡ bblock c sb = ground (arith, e) in
        let both : in_use sb s r ≡ true = ap (λ x. in_use sb s x) q ∙ h.itself c lt in
        absurd (ground (arith, both, free))
    | inr e ↦ e
  ]

  taken : ℕ → Store → Store
  taken r s = bzero r (put (bblock r sb) (mark (s.blocks (bblock r sb)) (r % bpb)) s)

  taken-blocks :
      (r c : ℕ) (s : Store)
      → (taken r s).blocks c ≡ (
          if r == c
          then zeros
          else if bblock r sb == c
          then mark (s.blocks (bblock r sb)) (r % bpb)
          else s.blocks c)
  unfolding taken bzero put
  taken-blocks r c s = refl

  map-taken :
      (r c : ℕ) (s : Store)
      → r < sb.size
      → c < sb.size
      → HasMap sb s
      → in_use sb s r ≡ false
      → (taken r s).blocks (bblock c sb) ≡ (
          if bblock r sb == bblock c sb
          then mark (s.blocks (bblock r sb)) (r % bpb)
          else s.blocks (bblock c sb))
  map-taken r c s rl cl h free = rw (taken-blocks r (bblock c sb) s, in_use-ne s r c cl h free) refl

  in_use-taken :
      (r c : ℕ) (s : Store)
      → r < sb.size
      → c < sb.size
      → HasMap sb s
      → in_use sb s r ≡ false
      → in_use sb (taken r s) c ≡ (r == c || in_use sb s c)
  unfolding in_use
  in_use-taken r c s rl cl h free =
      let bit = is_free-mark (s.blocks (bblock r sb)) (r % bpb) (c % bpb) (h.bytes r rl) in
      elim (Bool-cases (bblock r sb == bblock c sb)) [
        | inl e ↦
            let block : bblock r sb ≡ bblock c sb = ground (arith, e) in
            let same : (r % bpb == c % bpb) ≡ (r == c) = ground (arith, e) in
            rw (map-taken r c s rl cl h free, e) (rw (bit, same, block) (ground arith))
        | inr e ↦
            let ne : (r == c) ≡ false = ground (arith, e) in
            rw (map-taken r c s rl cl h free, e, ne) refl
      ]

  AreBytes-taken :
      (r c : ℕ) (s : Store)
      → r < sb.size
      → c < sb.size
      → HasMap sb s
      → in_use sb s r ≡ false
      → AreBytes ((taken r s).blocks (bblock c sb))
  AreBytes-taken r c s rl cl h free =
      rw (map-taken r c s rl cl h free) (elim (Bool-cases (bblock r sb == bblock c sb)) [
        | inl e ↦ rw e (AreBytes-mark (s.blocks (bblock r sb)) (r % bpb) (h.bytes r rl))
        | inr e ↦ rw e (h.bytes c cl)
      ])

  Took-Fresh :
      (s : Store) (r : ℕ)
      → HasMap sb s
      → r < sb.size
      → in_use sb s r ≡ false
      → Fresh s r (taken r s)
  Took-Fresh s r h lt free = record {
    inside = lt;
    nonzero = λ z.
        let both : in_use sb s r ≡ true = ap (λ x. in_use sb s x) z ∙ h.boot in
        absurd (ground (arith, both, free));
    was_free = free;
    uses = λ c cl. in_use-taken r c s lt cl h free;
    zeroed = rw taken-blocks (ground arith);
    others = λ c a b. rw (taken-blocks r c s) (ground (arith, a, b));
    has_map = record {
      bytes = λ b bl. AreBytes-taken r b s lt bl h free;
      boot = in_use-taken r 0 s lt (omega (arith, lt)) h free ∙ rw h.boot (ground arith);
      itself = λ b bl.
          in_use-taken r (bblock b sb) s lt (h.within b bl) h free
          ∙ rw (h.itself b bl) (ground arith);
      within = h.within;
    };
  }

  -- With a free map that marks itself and the boot block, `balloc sb` takes a block that was free: it is below
  -- the size of the disk and not 0, it is marked in use and zeroed, and no other block's mark or contents
  -- change. It returns 0 only when no block is free, and then nothing changes.
  pub balloc_lem :
      (s : Store)
      → HasMap sb s
      → Fresh s (balloc sb s).0 (balloc sb s).1
        ⊎ (((balloc sb s).0 ≡ 0)
            × ((balloc sb s).1 ≡ s)
            × ((c : ℕ) → c < sb.size → in_use sb s c ≡ true))
  unfolding balloc bzero taken
  balloc_lem s h = elim (balloc_loop_lem sb (sb.size / bpb + 1) 0 s refl (omega arith)) [
    | inl t ↦ inl (
        subst (λ x. Fresh s (balloc_loop sb (sb.size / bpb + 1) 0 s).0 x) (sym t.result)
          (Took-Fresh s (balloc_loop sb (sb.size / bpb + 1) 0 s).0 h t.inside t.was_free))
    | inr (z, same, all) ↦ inr (z, same, λ c lt. all c (omega arith) lt)
  ]

  freed : ℕ → Store → Store
  freed b s = put (bblock b sb) (unmark (s.blocks (bblock b sb)) (b % bpb)) s

  in_use-freed :
      (b c : ℕ) (s : Store)
      → b < sb.size
      → HasMap sb s
      → in_use sb (freed b s) c ≡ (not (b == c) && in_use sb s c)
  unfolding in_use freed put
  in_use-freed b c s bl h =
      let bit = is_free-unmark (s.blocks (bblock b sb)) (b % bpb) (c % bpb) (h.bytes b bl) in
      elim (Bool-cases (bblock b sb == bblock c sb)) [
        | inl e ↦
            let block : bblock b sb ≡ bblock c sb = ground (arith, e) in
            let same : (b % bpb == c % bpb) ≡ (b == c) = ground (arith, e) in
            rw e (rw (bit, same, block) (ground arith))
        | inr e ↦ let ne : (b == c) ≡ false = ground (arith, e) in rw (e, ne) refl
      ]

  -- `bfree sb` of a block in use, of a disk with a free map, marks it free, and changes the mark of no other
  -- block and the contents of none but the map; of a free block it panics.
  pub bfree_lem :
      (b : ℕ) (s : Store)
      → b < sb.size
      → HasMap sb s
      → (in_use sb s b ≡ false → bfree sb b s ≡ panic)
        × (in_use sb s b ≡ true
            → (s' : Store) × (bfree sb b s ≡ ok s')
              × ((c : ℕ) → in_use sb s' c ≡ (not (b == c) && in_use sb s c))
              × ((c : ℕ) → c ≢ bblock b sb → s'.blocks c ≡ s.blocks c))
  unfolding bfree in_use freed put
  bfree_lem b s bl h = (
    λ free. ground (arith, free),
    λ used.
        (freed b s, ground (arith, used), λ c. in_use-freed b c s bl h, λ c ne. ground (arith, ne)),
  )
