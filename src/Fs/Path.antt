-- ===== src/Fs/Path.antt =====
-- Path names: skipelem, namex, namei and nameiparent. Paths and names are strings in memory; `f` is the number of characters that the
-- loops of `skipelem` may look at, and the number of elements that `namex` may take.
pub mod Element
use xv6_riscv_private.Common.{
  ℕ, zero, suc, ◌+◌, ◌-◌, Bool, true, false, not, ◌&&◌, ◌==◌, leb, if◌then◌else◌, update, Option,
  none, some, Outcome, ok, out_of_fuel, ◌>>=◌,
}
use xv6_riscv_private.Str.{Bytes, memmove}
use xv6_riscv_private.Fs.{SuperBlock, Store}
use xv6_riscv_private.Fs.Inode.{Inode, ilock}
use xv6_riscv_private.Fs.Table.{Table, iget, idup, iput}
use xv6_riscv_private.Fs.Dir.{dirsiz, t_dir, dirlookup}

abbrev pub rootdev : ℕ
rootdev = 1

abbrev pub rootino : ℕ
rootino = 1

-- `*path == '/'`
abbrev pub is_slash : ℕ → Bool
is_slash ch = ch == 47

-- `*path != '/' && *path != 0`
abbrev pub in_element : ℕ → Bool
in_element ch = not (ch == 47) && not (ch == 0)

-- `while(p(*path)) path++;`
unfoldable pub skip_while : (ℕ → Bool) → ℕ → ℕ → Bytes → Outcome ℕ
skip_while p zero path m = out_of_fuel
skip_while p (suc f) path m =
    let rest = skip_while p f (path + 1) m in if p (m path) then rest else ok path

-- the element of `len` bytes at `s` is copied into `name`
unfoldable pub copy_name : ℕ → ℕ → ℕ → Bytes → Bytes
copy_name name s len m =
    if leb dirsiz len then memmove name s dirsiz m else update (memmove name s len m) (name + len) 0

unfoldable pub skipelem : ℕ → ℕ → ℕ → Bytes → Outcome (Option ℕ × Bytes)
skipelem f path name m = do
  s ← skip_while is_slash f path m
  let element = (do
    e ← skip_while in_element f s m
    let m' = copy_name name s (e - s) m
    e' ← skip_while is_slash f e m'
    ok (some e', m'))
  if m s == 0 then ok (none, m) else element

-- The result of `namex`: the entry of the inode table, or none for 0, and what has changed
abbrev pub Named : Type 0
Named = Outcome (Option ℕ × Table × Store × Bytes)

-- The inode `dp` that was locked goes back to its entry, whose references others may have changed.
unfoldable pub write_back : ℕ → Inode → Table → Table
write_back i dp t = update t i (record dp { ref = (t i).ref })

module _ (sb : SuperBlock) (f : ℕ) (nameiparent : Bool) (name de : ℕ) where
  -- `iunlockput(ip); return 0;`
  unfoldable pub unlock_put : ℕ → Table → Store → Bytes → Named
  unlock_put i t s m = do (t', s') ← iput sb i t s; ok (none, t', s', m)

  -- the loop of `namex`, with `g` rounds left, at the entry `i` of the table
  unfoldable pub namex_loop : ℕ → ℕ → ℕ → Table → Store → Bytes → Named
  namex_loop zero i path t s m = out_of_fuel
  namex_loop (suc g) i path t s m = do
    (next, m') ← skipelem f path name m
    elim next [
      | none ↦ if nameiparent then unlock_put i t s m' else ok (some i, t, s, m')
      | some path' ↦ do
        dp ← ilock sb (t i) s
        let t' = update t i dp
        let step = (do
          (found, dp', s', m'', t'') ← dirlookup sb name de dp s m' t'
          let u = write_back i dp' t''
          elim found [
            | none ↦ unlock_put i u s' m''
            | some entry ↦ do (u', s'') ← iput sb i u s'; namex_loop g entry.0 path' u' s'' m''
          ])
        if not (dp.type == t_dir)
            then unlock_put i t' s m'
            else if nameiparent && m' path' == 0
            then ok (some i, t', s, m')
            else step
    ]

  -- `cwd` is the entry of the current directory.
  unfoldable pub namex : ℕ → ℕ → Table → Store → Bytes → Named
  namex cwd path t s m = do
    (i, t') ← if is_slash (m path) then iget rootdev rootino t else ok (cwd, idup cwd t)
    namex_loop (f + 1) i path t' s m

-- `local` is the address of the variable `name` of `namei`.
unfoldable pub namei : SuperBlock → ℕ → ℕ → ℕ → ℕ → ℕ → Table → Store → Bytes → Named
namei sb f local de cwd path t s m = namex sb f false local de cwd path t s m

unfoldable pub nameiparent : SuperBlock → ℕ → ℕ → ℕ → ℕ → ℕ → Table → Store → Bytes → Named
nameiparent sb f name de cwd path t s m = namex sb f true name de cwd path t s m
