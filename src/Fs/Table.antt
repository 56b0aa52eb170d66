-- ===== src/Fs/Table.antt =====
-- The table of in-memory inodes: iget, idup, iput and ialloc.
pub mod Refs
use xv6_riscv_private.Common.{
  ℕ, zero, suc, ◌+◌, ◌*◌, ◌-◌, ◌/◌, ◌%◌, Bool, true, false, not, ◌&&◌, ◌||◌, ◌==◌, ltb,
  if◌then◌else◌, update, Option, none, some, Outcome, ok, panic, panic_if, ◌>>=◌, ◌>>◌, ℤ, pos, inc,
  dec, is_positive, is_one,
}
use xv6_riscv_private.Fs.{Data, SuperBlock, Store, put}
use xv6_riscv_private.Fs.Words.{half, set_half}
use xv6_riscv_private.Fs.Inode.{Inode, ipb, iblock, iupdate, ilock}
use xv6_riscv_private.Fs.Bmap.{itrunc}

abbrev pub ninode : ℕ
ninode = 50

-- `itable.inode`, and the superblock
abbrev pub Table : Type 0
Table = ℕ → Inode

-- `ip->ref > 0 && ip->dev == dev && ip->inum == inum`
abbrev pub is_at : ℕ → ℕ → Inode → Bool
is_at dev inum ip = is_positive ip.ref && (ip.dev == dev && ip.inum == inum)

abbrev pub is_zero_ref : ℤ → Bool
is_zero_ref (pos n) = n == 0
is_zero_ref _ = false

-- the entry that `empty` points to is recycled
unfoldable pub recycle : Option ℕ → ℕ → ℕ → Table → Outcome (ℕ × Table)
recycle none dev inum t = panic
recycle (some e) dev inum t =
    ok (e, update t e (record (t e) { dev = dev; inum = inum; ref = pos 1; valid = false }))

-- `if(empty == 0 && ip->ref == 0) empty = ip;`
unfoldable pub note : Table → ℕ → Option ℕ → Option ℕ
note t i none = if is_zero_ref (t i).ref then some i else none
note t i (some e) = some e

-- the loop of `iget`, with `n` entries left from `i` on
unfoldable pub iget_loop : ℕ → ℕ → Option ℕ → ℕ → ℕ → Table → Outcome (ℕ × Table)
iget_loop zero i empty dev inum t = recycle empty dev inum t
iget_loop (suc n) i empty dev inum t =
    let rest = iget_loop n (i + 1) (note t i empty) dev inum t in
    if is_at dev inum (t i) then ok (i, update t i (record (t i) { ref = inc (t i).ref })) else rest

unfoldable pub iget : ℕ → ℕ → Table → Outcome (ℕ × Table)
iget dev inum t = iget_loop ninode 0 none dev inum t

unfoldable pub idup : ℕ → Table → Table
idup i t = update t i (record (t i) { ref = inc (t i).ref })

-- what `iput` does to an inode without links and other references
unfoldable pub discard : SuperBlock → Inode → Store → Outcome (Inode × Store)
discard sb ip s = do
  (ip', s') ← itrunc sb ip s
  let typeless : Inode = record ip' { type = 0 }
  ok (record typeless { valid = false }, iupdate sb typeless s')

unfoldable pub iput : SuperBlock → ℕ → Table → Store → Outcome (Table × Store)
iput sb i t s = do
  let discarded = discard sb (t i) s
  (ip, s') ←
      if is_one (t i).ref && ((t i).valid && (t i).nlink == 0) then discarded else ok (t i, s)
  ok (update t i (record ip { ref = dec ip.ref }), s')

-- `memset(dip, 0, sizeof(*dip))`, for dinode number `k` of a block
abbrev pub clear_dinode : ℕ → Data → Data
clear_dinode k d j = if j / 64 == k then 0 else d j

-- the loop of `ialloc`
unfoldable pub ialloc_loop :
    SuperBlock → ℕ → ℕ → ℕ → ℕ → Table → Store → Outcome (Option ℕ × Table × Store)
ialloc_loop sb zero inum dev type t s = ok (none, t, s)
ialloc_loop sb (suc n) inum dev type t s =
    let b = iblock sb inum in
    let d = s.blocks b in
    let k = inum % ipb in
    let taken = (do
      (i, t') ← iget dev inum t
      ok (some i, t', put b (set_half (clear_dinode k d) (32 * k) type) s)) in
    let rest = ialloc_loop sb n (inum + 1) dev type t s in
    if half d (32 * k) == 0 then taken else rest

unfoldable pub ialloc : SuperBlock → ℕ → ℕ → Table → Store → Outcome (Option ℕ × Table × Store)
ialloc sb dev type t s = ialloc_loop sb (sb.ninodes - 1) 1 dev type t s
