-- ===== src/Fs.antt =====
-- kernel/fs.c: the file system, in the layers of the source.
--
-- `bread` of a block gives its contents, a function from the offset to the byte; a change of them
-- followed by `log_write` and `brelse` is `put`, which notes the block among those logged.
pub mod Bitmap
pub mod Blocks
pub mod Words
pub mod Inode
pub mod Bmap
pub mod Content
pub mod Read
pub mod Table
pub mod Dir
pub mod Path
pub mod Write
mod Tests
use xv6_riscv_private.Common.{ℕ, ◌+◌, ◌*◌, ◌/◌, List, [], ◌∷◌, update}

abbrev pub Data : Type 0
Data = ℕ → ℕ

abbrev pub bsize : ℕ
bsize = 1024

-- Bitmap bits per block
abbrev pub bpb : ℕ
bpb = bsize * 8

pub record SuperBlock : Type 0 where
  pub size : ℕ
  pub ninodes : ℕ
  pub nlog : ℕ
  pub logstart : ℕ
  pub inodestart : ℕ
  pub bmapstart : ℕ

-- the blocks, and those passed to `log_write`, the last one first
pub record Store : Type 0 where
  pub blocks : ℕ → Data
  pub logged : List ℕ

-- The panics of `log_write` are left out: a call stays inside an operation that writes at most MAXOPBLOCKS blocks.
unfoldable pub put : ℕ → Data → Store → Store
put b v s = record s { blocks = update s.blocks b v; logged = b ∷ s.logged }

-- the block changed in the buffer cache, and not passed to `log_write`
unfoldable pub change : ℕ → Data → Store → Store
change b v s = record s { blocks = update s.blocks b v }

-- Block of free map containing bit for block b
abbrev pub bblock : ℕ → SuperBlock → ℕ
bblock b sb = b / bpb + sb.bmapstart
