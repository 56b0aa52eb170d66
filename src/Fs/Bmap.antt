-- ===== src/Fs/Bmap.antt =====
-- The blocks of an inode: bmap and itrunc.
pub mod Slots
pub mod Found
pub mod Laws
use xv6_riscv_private.Common.{
  ℕ, zero, suc, ◌+◌, ◌-◌, Bool, true, false, ◌==◌, ltb, if◌then◌else◌, update, Outcome, ok, panic,
  panic_if, ◌>>=◌, ◌>>◌,
}
use xv6_riscv_private.Fs.{Data, SuperBlock, Store, put}
use xv6_riscv_private.Fs.Words.{word, set_word}
use xv6_riscv_private.Fs.Inode.{Inode, ndirect, nindirect, iupdate}
use xv6_riscv_private.Fs.Blocks.{balloc, bfree}

module _ (sb : SuperBlock) where
  -- `if((addr = ip->addrs[j]) == 0) { addr = balloc(); if(addr == 0) return 0; ip->addrs[j] = addr; }`
  unfoldable pub map_slot : Inode → ℕ → Store → ℕ × Inode × Store
  map_slot ip j s =
      let (a, s') = balloc sb s in
      let taken : ℕ × Inode × Store =
        if a == 0 then (0, ip, s') else (a, record ip { addrs = update ip.addrs j a }, s') in
      if ip.addrs j == 0 then taken else (ip.addrs j, ip, s)

  -- the same for entry `bn` of the indirect block `ind`
  unfoldable pub map_entry : ℕ → ℕ → Store → ℕ × Store
  map_entry ind bn s =
      let (a, s') = balloc sb s in
      let taken = if a == 0 then (0, s') else (a, put ind (set_word (s'.blocks ind) bn a) s') in
      if word (s.blocks ind) bn == 0 then taken else (word (s.blocks ind) bn, s)

  unfoldable pub map_indirect : Inode → ℕ → Store → ℕ × Inode × Store
  map_indirect ip bn s =
      let (ind, ip', s') = map_slot ip ndirect s in
      let (a, s'') = map_entry ind bn s' in if ind == 0 then (0, ip', s') else (a, ip', s'')

  unfoldable pub bmap : Inode → ℕ → Store → Outcome (ℕ × Inode × Store)
  bmap ip bn s =
      if ltb bn ndirect
      then ok (map_slot ip bn s)
      else if ltb (bn - ndirect) nindirect
      then ok (map_indirect ip (bn - ndirect) s)
      else panic

  -- the first loop of `itrunc`, with `n` slots left from `i` on
  unfoldable pub free_slots : ℕ → ℕ → Inode → Store → Outcome (Inode × Store)
  free_slots zero i ip s = ok (ip, s)
  free_slots (suc n) i ip s =
      let freed = (do
        s' ← bfree sb (ip.addrs i) s
        free_slots n (i + 1) (record ip { addrs = update ip.addrs i 0 }) s') in
      if ip.addrs i == 0 then free_slots n (i + 1) ip s else freed

  -- the loop over the entries of the indirect block, whose contents are `d`
  unfoldable pub free_entries : ℕ → ℕ → Data → Store → Outcome Store
  free_entries zero j d s = ok s
  free_entries (suc n) j d s =
      let freed = (do s' ← bfree sb (word d j) s; free_entries n (j + 1) d s') in
      if word d j == 0 then free_entries n (j + 1) d s else freed

  unfoldable pub free_indirect : Inode → Store → Outcome (Inode × Store)
  free_indirect ip s =
      let ind = ip.addrs ndirect in
      let freed = (do
        s' ← free_entries nindirect 0 (s.blocks ind) s
        s'' ← bfree sb ind s'
        ok (record ip { addrs = update ip.addrs ndirect 0 }, s'')) in
      if ind == 0 then ok (ip, s) else freed

  unfoldable pub itrunc : Inode → Store → Outcome (Inode × Store)
  itrunc ip s = do
    (ip', s') ← free_slots ndirect 0 ip s
    (ip'', s'') ← free_indirect ip' s'
    let empty : Inode = record ip'' { size = 0 }
    ok (empty, iupdate sb empty s'')
