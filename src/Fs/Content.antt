-- ===== src/Fs/Content.antt =====
-- The contents of a file: readi and writei.
use xv6_riscv_private.Common.{
  ℕ, zero, suc, ◌+◌, ◌-◌, ◌*◌, ◌/◌, ◌%◌, ◌^◌, ◌&&◌, ◌||◌, ◌==◌, ltb, leb, if◌then◌else◌, Outcome,
  ok, out_of_fuel, ◌>>=◌,
}
use xv6_riscv_private.Fs.{Data, bsize, SuperBlock, Store, put, change}
use xv6_riscv_private.Fs.Inode.{Inode, maxfile, iupdate}
use xv6_riscv_private.Fs.Bmap.{bmap}

abbrev pub min : ℕ → ℕ → ℕ
min a b = if ltb a b then a else b

-- `memmove(to + p, from + q, m)`, between different blocks or memories
unfoldable pub copy : ℕ → ℕ → ℕ → Data → Data → Data
copy p q m src dst j = if leb p j && ltb j (p + m) then src (q + (j - p)) else dst j

-- a negative `int` in a `uint`
abbrev pub failed : ℕ
failed = 2 ^ 32 - 1

-- The memory at the other end of a copy: `reach a m` is how many of the `m` bytes at the address `a` `either_copyout` and
-- `either_copyin` get to. They fail if these are less than `m`, and then have copied them.
module _ (sb : SuperBlock) (reach : ℕ → ℕ → ℕ) where
  -- the loop of `readi`, with `f` rounds left; the result is `tot` as it is returned
  unfoldable pub readi_loop :
      ℕ → ℕ → ℕ → ℕ → ℕ → Inode → Store → Data → Outcome (ℕ × Inode × Store × Data)
  readi_loop zero tot off dst n ip s mem = out_of_fuel
  readi_loop (suc f) tot off dst n ip s mem =
      let round = (do
        (addr, ip', s') ← bmap sb ip (off / bsize) s
        let m = min (n - tot) (bsize - off % bsize)
        if addr == 0
            then ok (tot, ip', s', mem)
            else if leb m (reach dst m)
            then readi_loop f (tot + m) (off + m) (dst + m) n ip' s'
                (copy dst (off % bsize) m (s'.blocks addr) mem)
            else ok (failed, ip', s', copy dst (off % bsize) (reach dst m) (s'.blocks addr) mem)) in
      if ltb tot n then round else ok (tot, ip, s, mem)

  -- Each round copies a byte at least.
  unfoldable pub readi : ℕ → ℕ → ℕ → Inode → Store → Data → Outcome (ℕ × Inode × Store × Data)
  readi dst off n ip s mem =
      let n' = if ltb ip.size ((off + n) % 2 ^ 32) then ip.size - off else n in
      if ltb ip.size off || ltb ((off + n) % 2 ^ 32) off
      then ok (0, ip, s, mem)
      else readi_loop (n' + 1) 0 off dst n' ip s mem

  -- the loop of `writei`: `tot`, and `off` where it ended
  unfoldable pub writei_loop :
      ℕ → ℕ → ℕ → ℕ → ℕ → Data → Inode → Store → Outcome (ℕ × ℕ × Inode × Store)
  writei_loop zero tot off src n mem ip s = out_of_fuel
  writei_loop (suc f) tot off src n mem ip s =
      let round = (do
        (addr, ip', s') ← bmap sb ip (off / bsize) s
        let m = min (n - tot) (bsize - off % bsize)
        if addr == 0
            then ok (tot, off, ip', s')
            else if leb m (reach src m)
            then writei_loop f (tot + m) (off + m) (src + m) n mem ip'
                (put addr (copy (off % bsize) src m mem (s'.blocks addr)) s')
            else ok (
              tot,
              off,
              ip',
              change addr (copy (off % bsize) src (reach src m) mem (s'.blocks addr)) s',
            )) in
      if ltb tot n then round else ok (tot, off, ip, s)

  unfoldable pub writei : ℕ → ℕ → ℕ → Data → Inode → Store → Outcome (ℕ × Inode × Store)
  writei src off n mem ip s =
      let written = (do
        (tot, off', ip', s') ← writei_loop (n + 1) 0 off src n mem ip s
        let grown : Inode = record ip' { size = if ltb ip'.size off' then off' else ip'.size }
        ok (tot, grown, iupdate sb grown s')) in
      if ltb ip.size off || ltb ((off + n) % 2 ^ 32) off
      then ok (failed, ip, s)
      else if ltb (maxfile * bsize) ((off + n) % 2 ^ 32)
      then ok (failed, ip, s)
      else written
