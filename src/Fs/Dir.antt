-- ===== src/Fs/Dir.antt =====
-- Directories: dirlookup and dirlink. A directory is a file of entries of 16 bytes, an inode number and a name; `de` is the
-- address of the local variable that an entry is read to, and names are strings in memory.
pub mod Search
use xv6_riscv_private.Common.{
  ℕ, zero, suc, ◌+◌, ◌-◌, ◌*◌, ◌/◌, ◌%◌, ◌^◌, Bool, true, false, not, ◌&&◌, ◌==◌, ltb,
  if◌then◌else◌, update, Option, none, some, Outcome, ok, panic, out_of_fuel, panic_if, ◌>>=◌, ◌>>◌,
  ℤ, pos, negsuc, eqb_ℤ,
}
use xv6_riscv_private.Str.{Bytes, strncmp, strncpy}
use xv6_riscv_private.Fs.{Data, SuperBlock, Store}
use xv6_riscv_private.Fs.Inode.{Inode}
use xv6_riscv_private.Fs.Content.{readi, writei}
use xv6_riscv_private.Fs.Table.{Table, iget, iput}

abbrev pub dirsiz : ℕ
dirsiz = 14

abbrev pub sizeof_dirent : ℕ
sizeof_dirent = 16

abbrev pub t_dir : ℕ
t_dir = 1

-- a kernel address
abbrev pub kernel : ℕ → ℕ → ℕ
kernel a m = m

-- `de.inum`
abbrev pub de_inum : ℕ → Bytes → ℕ
de_inum de mem = mem de + 2 ^ 8 * mem (de + 1)

-- `namecmp(name, de.name) == 0`
unfoldable pub is_named : ℕ → ℕ → Bytes → Bool
is_named name de mem = eqb_ℤ (strncmp name (de + 2) dirsiz mem) (pos 0)

module _ (sb : SuperBlock) (name de : ℕ) where
  -- the loop of `dirlookup`, up to its call of `iget`: the offset and the inode number of the entry
  unfoldable pub search_loop :
      ℕ → ℕ → Inode → Store → Bytes → Outcome (Option (ℕ × ℕ) × Inode × Store × Bytes)
  search_loop zero off dp s mem = out_of_fuel
  search_loop (suc f) off dp s mem =
      let round = (do
        (r, dp', s', mem') ← readi sb kernel de off sizeof_dirent dp s mem
        panic_if (not (r == sizeof_dirent))
        let rest = search_loop f (off + sizeof_dirent) dp' s' mem'
        if de_inum de mem' == 0
            then rest
            else if is_named name de mem'
            then ok (some (off, de_inum de mem'), dp', s', mem')
            else rest) in
      if ltb off dp.size then round else ok (none, dp, s, mem)

  unfoldable pub dirsearch :
      Inode → Store → Bytes → Outcome (Option (ℕ × ℕ) × Inode × Store × Bytes)
  dirsearch dp s mem = do
    panic_if (not (dp.type == t_dir))
    search_loop (dp.size / sizeof_dirent + 2) 0 dp s mem

  -- `dirlookup`: the entry of the inode table, and the offset for `*poff`
  unfoldable pub dirlookup :
      Inode → Store → Bytes → Table → Outcome (Option (ℕ × ℕ) × Inode × Store × Bytes × Table)
  dirlookup dp s mem t = do
    (found, dp', s', mem') ← dirsearch dp s mem
    elim found [
      | none ↦ ok (none, dp', s', mem', t)
      | some entry ↦ do (i, t') ← iget dp'.dev entry.1 t; ok (some (i, entry.0), dp', s', mem', t')
    ]

  -- the loop of `dirlink` that looks for an empty entry: the offset where it ends
  unfoldable pub empty_loop : ℕ → ℕ → Inode → Store → Bytes → Outcome (ℕ × Inode × Store × Bytes)
  empty_loop zero off dp s mem = out_of_fuel
  empty_loop (suc f) off dp s mem =
      let round = (do
        (r, dp', s', mem') ← readi sb kernel de off sizeof_dirent dp s mem
        panic_if (not (r == sizeof_dirent))
        let rest = empty_loop f (off + sizeof_dirent) dp' s' mem'
        if de_inum de mem' == 0 then ok (off, dp', s', mem') else rest) in
      if ltb off dp.size then round else ok (off, dp, s, mem)

  -- `strncpy(de.name, name, DIRSIZ); de.inum = inum;`
  unfoldable pub fill_entry : ℕ → Bytes → Bytes
  fill_entry inum mem =
      let named = strncpy (de + 2) name dirsiz mem in
      update (update named de (inum % 2 ^ 8)) (de + 1) (inum / 2 ^ 8 % 2 ^ 8)

  -- `dirlink` of an absent name
  unfoldable pub add_entry : ℕ → Inode → Store → Bytes → Outcome (ℤ × Inode × Store × Bytes)
  add_entry inum dp s mem = do
    (off, dp', s', mem') ← empty_loop (dp.size / sizeof_dirent + 2) 0 dp s mem
    let mem'' = fill_entry inum mem'
    (r, dp'', s'') ← writei sb kernel de off sizeof_dirent mem'' dp' s'
    ok (if r == sizeof_dirent then pos 0 else negsuc 0, dp'', s'', mem'')

  unfoldable pub dirlink :
      ℕ → Inode → Store → Bytes → Table → Outcome (ℤ × Inode × Store × Bytes × Table)
  dirlink inum dp s mem t = do
    (found, dp', s', mem', t') ← dirlookup dp s mem t
    elim found [
      | some entry ↦ do (t'', s'') ← iput sb entry.0 t' s'; ok (negsuc 0, dp', s'', mem', t'')
      | none ↦ do (r, dp'', s'', mem'') ← add_entry inum dp' s' mem'; ok (r, dp'', s'', mem'', t')
    ]
