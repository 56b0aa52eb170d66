-- ===== src/Fs/Read.antt =====
-- What readi reads.
use xv6_riscv_private.Common.{
  ℕ, zero, suc, ◌+◌, ◌-◌, ◌*◌, ◌/◌, ◌%◌, ◌^◌, ◌≤◌, ◌<◌, ◌≡◌, ◌≢◌, refl, ap, ◌∙◌, subst, true, false,
  ◌&&◌, ◌||◌, ◌==◌, ltb, leb, if◌then◌else◌, arith, Bool-cases, inl, inr, ok,
}
use xv6_riscv_private.Fs.{Data, bsize, SuperBlock, Store}
use xv6_riscv_private.Fs.Inode.{Inode, maxfile}
use xv6_riscv_private.Fs.Bmap.{bmap, map_slot, map_entry, map_indirect}
use xv6_riscv_private.Fs.Bmap.Found.{mapped}
use xv6_riscv_private.Fs.Content.{min, copy, readi_loop, readi}

-- byte `i` of the file
unfoldable pub file_byte : Inode → Store → ℕ → ℕ
file_byte ip s i = s.blocks (mapped ip s (i / bsize)) (i % bsize)

module _ (sb : SuperBlock) where
  -- A block that the inode has is found and nothing changes.
  pub bmap-mapped :
      (ip : Inode) (bn : ℕ) (s : Store)
      → mapped ip s bn ≢ 0
      → bn < maxfile
      → bmap sb ip bn s ≡ ok (mapped ip s bn, ip, s)
  unfolding bmap map_slot map_entry map_indirect mapped
  bmap-mapped ip bn s ne lt = ground (arith, ne, lt)

  -- The bytes of one block, and those after it
  read_bytes :
      (off dst m r : ℕ) (ip : Inode) (s : Store) (mem : Data) (j r' : ℕ)
      → m ≤ r
      → r' ≡ r - m
      → off % bsize + m ≤ bsize
      → (if leb (dst + m) j && ltb j (dst + m + r')
          then file_byte ip s (off + m + (j - (dst + m)))
          else copy dst (off % bsize) m (s.blocks (mapped ip s (off / bsize))) mem j)
        ≡ (if leb dst j && ltb j (dst + r) then file_byte ip s (off + (j - dst)) else mem j)
  unfolding copy file_byte
  read_bytes off dst m r ip s mem j r' le e room = elim (Bool-cases (leb (dst + m) j)) [
    | inl later ↦
        let q : off + m + (j - (dst + m)) ≡ off + (j - dst) = ground (arith, later) in
        let byte = ap (λ x. file_byte ip s x) q in ground (arith, byte, later, le, e)
    | inr now ↦ elim (Bool-cases (leb dst j)) [
      | inl inside ↦
          let block : (off + (j - dst)) / bsize ≡ off / bsize = ground (arith, now, inside, room) in
          let place : (off + (j - dst)) % bsize ≡ off % bsize + (j - dst) =
            ground (arith, now, inside, room) in
          let byte : file_byte ip s (off + (j - dst))
              ≡ s.blocks (mapped ip s (off / bsize)) (off % bsize + (j - dst)) =
            ap (λ x. s.blocks (mapped ip s x) ((off + (j - dst)) % bsize)) block
            ∙ ap (λ x. s.blocks (mapped ip s (off / bsize)) x) place in
          ground (arith, byte, now, inside, le)
      | inr before ↦ ground (arith, now, before)
    ]
  ]

  -- what the loop of `readi` reads, from `tot` of `n` bytes on
  readi_loop_lem :
      (reach : ℕ → ℕ → ℕ) (f tot off dst n : ℕ) (ip : Inode) (s : Store) (mem : Data)
      → n - tot < f
      → tot ≤ n
      → off + (n - tot) ≤ maxfile * bsize
      → ((i : ℕ) → off ≤ i → i < off + (n - tot) → mapped ip s (i / bsize) ≢ 0)
      → ((a m : ℕ) → reach a m ≡ m)
      → (mem' : Data) × (readi_loop sb reach f tot off dst n ip s mem ≡ ok (n, ip, s, mem'))
        × ((j : ℕ)
            → mem' j ≡ (
                if leb dst j && ltb j (dst + (n - tot))
                then file_byte ip s (off + (j - dst))
                else mem j))
  unfolding readi_loop
  readi_loop_lem reach zero tot off dst n ip s mem fuel le big held ok_all = absurd (omega arith)
  readi_loop_lem reach (suc f) tot off dst n ip s mem fuel le big held ok_all =
      elim (Bool-cases (ltb tot n)) [
        | inr done ↦
            let q : tot ≡ n = ground (arith, done) in
            (mem, rw (done, q) refl, λ j. ground (arith, done))
        | inl more ↦
            let here : mapped ip s (off / bsize) ≢ 0 =
              held off (omega arith) (ground (arith, more)) in
            let found = bmap-mapped ip (off / bsize) s here (ground (arith, more, big)) in
            let m = min (n - tot) (bsize - off % bsize) in
            let some_bytes : 0 < m = ground (arith, more) in
            let most : m ≤ n - tot = ground arith in
            let room : off % bsize + m ≤ bsize = ground arith in
            let fine : leb m (reach dst m) ≡ true = ground (arith, ok_all dst m) in
            let zero_not : (mapped ip s (off / bsize) == 0) ≡ false = ground (arith, here) in
            let mem1 = copy dst (off % bsize) m (s.blocks (mapped ip s (off / bsize))) mem in
            let (mem', e, bytes) =
              readi_loop_lem reach f (tot + m) (off + m) (dst + m) n ip s mem1
                (omega (arith, some_bytes, most, fuel)) (omega (arith, most, le))
                (omega (arith, most, big))
                (λ i lo hi. held i (omega (arith, lo)) (omega (arith, hi, most))) ok_all in
            let start : readi_loop sb reach (suc f) tot off dst n ip s mem
                ≡ readi_loop sb reach f (tot + m) (off + m) (dst + m) n ip s mem1 =
              rw (more, found, zero_not, fine) refl in
            (
              mem',
              start ∙ e,
              λ j.
                  bytes j
                  ∙ read_bytes off dst m (n - tot) ip s mem j (n - (tot + m)) most (omega arith)
                      room,
            )
      ]

  -- A read that starts in the file, of blocks that are there.
  pub readi-inside :
      (reach : ℕ → ℕ → ℕ) (dst off n : ℕ) (ip : Inode) (s : Store) (mem : Data)
      → off ≤ ip.size
      → off + min n (ip.size - off) ≤ maxfile * bsize
      → off + n < 2 ^ 32
      → ((i : ℕ) → off ≤ i → i < off + min n (ip.size - off) → mapped ip s (i / bsize) ≢ 0)
      → ((a m : ℕ) → reach a m ≡ m)
      → (mem' : Data) × (readi sb reach dst off n ip s mem
          ≡ ok (min n (ip.size - off), ip, s, mem'))
        × ((j : ℕ)
            → mem' j ≡ (
                if leb dst j && ltb j (dst + min n (ip.size - off))
                then file_byte ip s (off + (j - dst))
                else mem j))
  unfolding readi
  readi-inside reach dst off n ip s mem inside small fits held ok_all =
      let n' = min n (ip.size - off) in
      let wrap : (off + n) % 2 ^ 32 ≡ off + n = omega (arith, fits) in
      let same : (if ltb ip.size (off + n) then ip.size - off else n) ≡ n' =
        ground (arith, inside) in
      let guard : (ltb ip.size off || ltb (off + n) off) ≡ false = ground (arith, inside) in
      let most : n' ≤ ip.size - off = ground arith in
      let (mem', e, bytes) =
        readi_loop_lem reach (n' + 1) 0 off dst n' ip s mem (omega arith) (omega arith)
          (omega (arith, small)) (λ i lo hi. held i lo (omega (arith, hi))) ok_all in
      let start : readi sb reach dst off n ip s mem
          ≡ readi_loop sb reach (n' + 1) 0 off dst n' ip s mem =
        rw (wrap, same, guard) refl in
      (
        mem',
        start ∙ e,
        λ j.
            subst
              (λ x. mem' j ≡ (
                if leb dst j && ltb j (dst + x) then file_byte ip s (off + (j - dst)) else mem j))
              (omega arith) (bytes j),
      )
