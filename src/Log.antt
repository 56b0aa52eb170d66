-- ===== src/Log.antt =====
-- kernel/log.c: the redo log. A block is its words, an `int` each; `struct logheader` is laid over the
-- block at `start`, the count in word 0 and `block[i]` in word 1 + i.
--
-- The buffer cache is seen through what log.c relies on: `bread` gives the contents that the last
-- user of the block left in the cache, which a pinned buffer keeps, and `bwrite` copies them to
-- the disk. A power failure is a number of disk writes, `budget`, after which `bwrite` has no
-- effect: the code runs on, and the disk shows what had reached it.
pub mod Header
pub mod Writes
pub mod Install
pub mod Disk
pub mod Recovery
pub mod Commit
pub mod Ops
pub mod Absorb
pub mod Space
mod Tests
use xv6_riscv_private.Common.{
  ℕ, zero, suc, ◌+◌, ◌-◌, ◌*◌, Bool, true, false, ltb, leb, ◌||◌, ◌==◌, if◌then◌else◌, update,
  Outcome, ok, panic, panic_if, ◌>>=◌, ◌>>◌, Option, none, some,
}

abbrev pub Block : Type 0
Block = ℕ → ℕ

abbrev pub maxopblocks : ℕ
maxopblocks = 10

abbrev pub logsize : ℕ
logsize = maxopblocks * 3

-- `struct logheader`
pub record LogHeader : Type 0 where
  pub n : ℕ
  pub block : ℕ → ℕ

-- The disk, the contents that `bread` returns, and the pins of each block's buffer.
pub record Device : Type 0 where
  pub disk : ℕ → Block
  pub cache : ℕ → Block
  pub pins : ℕ → ℕ
  pub budget : ℕ

-- `bp->data` is changed.
unfoldable pub modify : ℕ → Block → Device → Device
modify b v d = record d { cache = update d.cache b v }

unfoldable pub bwrite : ℕ → Device → Device
bwrite b d =
    if d.budget == 0
    then d
    else record d { disk = update d.disk b (d.cache b); budget = d.budget - 1 }

-- After a power failure the cache is empty: `bread` reads the disk.
unfoldable pub reboot : ℕ → Device → Device
reboot budget d = record { disk = d.disk; cache = d.disk; pins = λ _. 0; budget = budget }

-- The loops of `read_head` and `write_head`, with `n` entries left from `i` on
pub read_entries : ℕ → ℕ → Block → (ℕ → ℕ) → ℕ → ℕ
read_entries zero i lh block = block
read_entries (suc n) i lh block = read_entries n (i + 1) lh (update block i (lh (1 + i)))

pub write_entries : ℕ → ℕ → (ℕ → ℕ) → Block → Block
write_entries zero i block hb = hb
write_entries (suc n) i block hb = write_entries n (i + 1) block (update hb (1 + i) (block i))

abbrev pub bunpin : ℕ → Device → Device
bunpin b d = record d { pins = update d.pins b (d.pins b - 1) }

module _ (start : ℕ) where
  unfoldable pub read_head : LogHeader → Device → LogHeader
  read_head lh d =
      let buf = d.cache start in record { n = buf 0; block = read_entries (buf 0) 0 buf lh.block }

  unfoldable pub write_head : LogHeader → Device → Device
  write_head lh d =
      let hb = write_entries lh.n 0 lh.block (update (d.cache start) 0 lh.n) in
      bwrite start (modify start hb d)

  -- the loop of `write_log`: `from` is the cached home block, `to` the log block
  unfoldable pub write_log_loop : ℕ → ℕ → LogHeader → Device → Device
  write_log_loop zero tail lh d = d
  write_log_loop (suc n) tail lh d =
      let to = start + tail + 1 in
      write_log_loop n (tail + 1) lh (bwrite to (modify to (d.cache (lh.block tail)) d))

  unfoldable pub write_log : LogHeader → Device → Device
  write_log lh d = write_log_loop lh.n 0 lh d

  -- the loop of `install_trans`
  unfoldable pub install_loop : Bool → ℕ → ℕ → LogHeader → Device → Device
  install_loop recovering zero tail lh d = d
  install_loop recovering (suc n) tail lh d =
      let dst = lh.block tail in
      let d' = bwrite dst (modify dst (d.cache (start + tail + 1)) d) in
      install_loop recovering n (tail + 1) lh (if recovering then d' else bunpin dst d')

  unfoldable pub install_trans : Bool → LogHeader → Device → Device
  install_trans recovering lh d = install_loop recovering lh.n 0 lh d

  unfoldable pub recover_from_log : LogHeader → Device → LogHeader × Device
  recover_from_log lh d =
      let lh' = read_head lh d in
      let d' = install_trans true lh' d in
      let cleared = record lh' { n = 0 } in (cleared, write_head cleared d')

  unfoldable pub commit : LogHeader → Device → LogHeader × Device
  commit lh d =
      let d1 = write_log lh d in
      let d2 = write_head lh d1 in
      let d3 = install_trans false lh d2 in
      let cleared = record lh { n = 0 } in
      if ltb 0 lh.n then (cleared, write_head cleared d3) else (lh, d)
