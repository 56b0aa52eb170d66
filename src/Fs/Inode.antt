-- ===== src/Fs/Inode.antt =====
-- Inodes on the disk and in memory: iupdate and ilock, with the layout of `struct dinode`.
pub mod Layout
use xv6_riscv_private.Common.{
  ℕ, zero, suc, ◌+◌, ◌*◌, ◌/◌, ◌%◌, ◌^◌, ◌≡◌, Bool, true, false, not, ◌&&◌, ◌==◌, ltb,
  if◌then◌else◌, update, Outcome, ok, panic, panic_if, ◌>>=◌, ◌>>◌, ℤ, is_positive,
}
use xv6_riscv_private.Fs.{Data, SuperBlock, Store, put}
use xv6_riscv_private.Fs.Words.{word, set_word, half, set_half}

abbrev pub ndirect : ℕ
ndirect = 12

abbrev pub nindirect : ℕ
nindirect = 256

abbrev pub maxfile : ℕ
maxfile = ndirect + nindirect

-- `struct inode`, but for its lock
pub record Inode : Type 0 where
  pub dev : ℕ
  pub inum : ℕ
  pub ref : ℤ
  pub valid : Bool
  pub type : ℕ
  pub major : ℕ
  pub minor : ℕ
  pub nlink : ℕ
  pub size : ℕ
  pub addrs : ℕ → ℕ

-- Inodes per block.
abbrev pub ipb : ℕ
ipb = 16

-- `memmove(dip->addrs, ip->addrs, ...)`, with `n` words left from index `i` on
unfoldable pub set_words : ℕ → ℕ → ℕ → (ℕ → ℕ) → Data → Data
set_words zero base i f d = d
set_words (suc n) base i f d = set_words n base (i + 1) f (set_word d (base + i) (f i))

-- what `iupdate` writes to the block, at `dinode` number `k` of it: 32 shorts or 16 words each
unfoldable pub store_dinode : ℕ → Inode → Data → Data
store_dinode k ip d =
    let d1 = set_half d (32 * k) ip.type in
    let d2 = set_half d1 (32 * k + 1) ip.major in
    let d3 = set_half d2 (32 * k + 2) ip.minor in
    let d4 = set_half d3 (32 * k + 3) ip.nlink in
    let d5 = set_word d4 (16 * k + 2) ip.size in set_words (ndirect + 1) (16 * k + 3) 0 ip.addrs d5

-- what `ilock` reads
unfoldable pub load_dinode : ℕ → Data → Inode → Inode
load_dinode k d ip = record ip {
  type = half d (32 * k);
  major = half d (32 * k + 1);
  minor = half d (32 * k + 2);
  nlink = half d (32 * k + 3);
  size = word d (16 * k + 2);
  addrs = λ i. word d (16 * k + 3 + i);
}

module _ (sb : SuperBlock) where
  -- Block containing inode i
  abbrev pub iblock : ℕ → ℕ
  iblock i = i / ipb + sb.inodestart

  unfoldable pub iupdate : Inode → Store → Store
  iupdate ip s = let b = iblock ip.inum in put b (store_dinode (ip.inum % ipb) ip (s.blocks b)) s

  unfoldable pub ilock : Inode → Store → Outcome Inode
  ilock ip s = do
    panic_if (not (is_positive ip.ref))
    let read = load_dinode (ip.inum % ipb) (s.blocks (iblock ip.inum)) ip
    let loaded : Inode = record read { valid = true }
    panic_if (not ip.valid && loaded.type == 0)
    ok (if ip.valid then ip else loaded)
