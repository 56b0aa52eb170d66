-- ===== src/Log/Header.antt =====
-- The header block: what is written to it and read back.
use xv6_riscv_private.Common.{
  ℕ, zero, suc, ◌+◌, ◌-◌, ◌≤◌, ◌<◌, ◌≡◌, refl, Bool, false, ◌&&◌, ◌||◌, ltb, leb, ◌==◌,
  if◌then◌else◌, update, arith,
}
use xv6_riscv_private.Log.{
  Block, LogHeader, Device, read_entries, write_entries, read_head, write_head,
}
use xv6_riscv_private.Log.Writes.{write-cache, write-disk, write-budget}

pub write_entries_lem :
    (n i : ℕ) (block : ℕ → ℕ) (hb : Block) (w : ℕ)
    → write_entries n i block hb w ≡ (if ltb i w && leb w (i + n) then block (w - 1) else hb w)
unfolding write_entries
write_entries_lem zero i block hb w = ground arith
write_entries_lem (suc n) i block hb w =
    ground (arith, write_entries_lem n (i + 1) block (update hb (1 + i) (block i)) w)

pub read_entries_lem :
    (n i : ℕ) (lh : Block) (block : ℕ → ℕ) (j : ℕ)
    → read_entries n i lh block j ≡ (if leb i j && ltb j (i + n) then lh (1 + j) else block j)
unfolding read_entries
read_entries_lem zero i lh block j = ground arith
read_entries_lem (suc n) i lh block j =
    ground (arith, read_entries_lem n (i + 1) lh (update block i (lh (1 + i))) j)

-- whether one of the `n` entries from `i` on is the block `b`
unfoldable pub is_logged : ℕ → ℕ → (ℕ → ℕ) → ℕ → Bool
is_logged zero i block b = false
is_logged (suc n) i block b = block i == b || is_logged n (i + 1) block b

pub is_logged_eq :
    (n i : ℕ) (block block' : ℕ → ℕ) (b : ℕ)
    → ((j : ℕ) → i ≤ j → j < i + n → block j ≡ block' j)
    → is_logged n i block b ≡ is_logged n i block' b
unfolding is_logged
is_logged_eq zero i block block' b same = refl
is_logged_eq (suc n) i block block' b same =
    ground (arith, same i (omega arith) (omega arith), is_logged_eq n (i + 1) block block' b)

module _ (start : ℕ) (lh : LogHeader) (d : Device) where
  abbrev pub head_block : Block
  head_block = write_entries lh.n 0 lh.block (update (d.cache start) 0 lh.n)

  pub write_head-disk :
      (b : ℕ)
      → (write_head start lh d).disk b
        ≡ (if d.budget == 0 then d.disk b else if start == b then head_block else d.disk b)
  unfolding write_head
  write_head-disk b = write-disk start head_block d b

  pub write_head-cache :
      (b : ℕ) → (write_head start lh d).cache b ≡ (if start == b then head_block else d.cache b)
  unfolding write_head
  write_head-cache b = write-cache start head_block d b

  pub write_head-budget : (write_head start lh d).budget ≡ d.budget - 1
  unfolding write_head
  write_head-budget = write-budget start head_block d

  pub head_block-count : head_block 0 ≡ lh.n
  head_block-count =
      ground (arith, write_entries_lem lh.n 0 lh.block (update (d.cache start) 0 lh.n) 0)

  pub head_block-entry : (j : ℕ) → j < lh.n → head_block (1 + j) ≡ lh.block j
  head_block-entry j lt =
      ground (arith, write_entries_lem lh.n 0 lh.block (update (d.cache start) 0 lh.n) (1 + j))

-- Reading back a header gives its entries.
pub read_head-entry :
    (start : ℕ) (lh : LogHeader) (d : Device) (j : ℕ)
    → j < d.cache start 0
    → (read_head start lh d).block j ≡ d.cache start (1 + j)
unfolding read_head
read_head-entry start lh d j lt =
    ground (arith, read_entries_lem (d.cache start 0) 0 (d.cache start) lh.block j)
