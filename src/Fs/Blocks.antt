-- ===== src/Fs/Blocks.antt =====
-- Disk blocks: bzero, balloc and bfree.
pub mod Search
pub mod Laws
use xv6_riscv_private.Common.{
  ℕ, zero, suc, ◌+◌, ◌*◌, ◌/◌, ◌%◌, ◌≤◌, ◌<◌, ◌≡◌, ◌≢◌, refl, ap, sym, ◌∙◌, subst, Bool, true,
  false, not, ◌&&◌, ◌||◌, ◌==◌, ltb, if◌then◌else◌, arith, Bool-cases, inl, inr, ◌⊎◌, Option, none,
  some, Outcome, ok, panic, panic_if, ◌>>◌,
}
use xv6_riscv_private.Fs.{Data, bpb, SuperBlock, Store, put, bblock}
use xv6_riscv_private.Fs.Bitmap.{
  is_free, mark, unmark, AreBytes, is_free-mark, is_free-unmark, AreBytes-mark,
}

abbrev pub zeros : Data
zeros i = 0

unfoldable pub bzero : ℕ → Store → Store
bzero bno s = put bno zeros s

-- the inner loop of `balloc`, from bit `bi` of the bitmap block for `b`
unfoldable pub find_bit : ℕ → ℕ → ℕ → ℕ → Data → Option ℕ
find_bit zero bi b size d = none
find_bit (suc n) bi b size d =
    let rest = find_bit n (bi + 1) b size d in
    if ltb (b + bi) size then if is_free d bi then some bi else rest else none

module _ (sb : SuperBlock) where
  -- the outer loop, with `f` rounds left
  unfoldable pub balloc_loop : ℕ → ℕ → Store → ℕ × Store
  balloc_loop zero b s = (0, s)
  balloc_loop (suc f) b s =
      let bno = bblock b sb in
      let d = s.blocks bno in
      if ltb b sb.size
      then elim (find_bit bpb 0 b sb.size d) [
        | none ↦ balloc_loop f (b + bpb) s
        | some bi ↦ (b + bi, bzero (b + bi) (put bno (mark d bi) s))
      ]
      else (0, s)

  -- There are at most `size / BPB + 1` blocks of the bitmap.
  unfoldable pub balloc : Store → ℕ × Store
  balloc s = balloc_loop (sb.size / bpb + 1) 0 s

  unfoldable pub bfree : ℕ → Store → Outcome Store
  bfree b s = do
    let bno = bblock b sb
    let bi = b % bpb
    let d = s.blocks bno
    panic_if (is_free d bi)
    ok (put bno (unmark d bi) s)

  unfoldable pub in_use : Store → ℕ → Bool
  in_use s b = not (is_free (s.blocks (bblock b sb)) (b % bpb))

  -- The free map lies on the disk, is made of bytes, and marks the boot block and itself as in use.
  pub record HasMap (s : Store) : Type 0 where
    pub bytes : (b : ℕ) → b < sb.size → AreBytes (s.blocks (bblock b sb))
    pub boot : in_use s 0 ≡ true
    pub itself : (b : ℕ) → b < sb.size → in_use s (bblock b sb) ≡ true
    pub within : (b : ℕ) → b < sb.size → bblock b sb < sb.size
