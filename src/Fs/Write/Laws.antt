-- ===== src/Fs/Write/Laws.antt =====
-- What writei writes, and that readi reads it back.
use xv6_riscv_private.Common.{
  subst, ℕ, ◌+◌, ◌-◌, ◌*◌, ◌/◌, ◌%◌, ◌^◌, ◌≤◌, ◌<◌, ◌≡◌, ◌≢◌, refl, sym, ap, ◌∙◌, true, false, ◌&&◌,
  ◌||◌, ltb, leb, if◌then◌else◌, arith, Bool-cases, inl, inr, ◌⊎◌, ok,
}
use xv6_riscv_private.Fs.{Data, bsize, bpb, SuperBlock, Store}
use xv6_riscv_private.Fs.Inode.{Inode, maxfile, iblock, iupdate}
use xv6_riscv_private.Fs.Bmap.Found.{mapped}
use xv6_riscv_private.Fs.Content.{min, failed, readi, writei, writei_loop}
use xv6_riscv_private.Fs.Read.{file_byte, readi-inside}
use xv6_riscv_private.Fs.Write.{IsFile, put-IsFile, mapped-put, put-bytes}
use xv6_riscv_private.Fs.Write.Logs.{Yields}
use xv6_riscv_private.Fs.Write.Logged.{AtMost, writei-AtMost}
use xv6_riscv_private.Fs.Write.Loop.{Wrote, writei_loop_lem}

module _ (sb : SuperBlock) where
  -- the file after `w` bytes have been written at `off`
  pub record Saved (src off w : ℕ) (mem : Data) (ip : Inode) (s : Store) (ip' : Inode) (s' : Store)
      : Type 0 where
    pub file : IsFile sb ip' s'
    pub bytes :
        (i : ℕ)
        → off ≤ i
        → i < off + w
        → (mapped ip' s' (i / bsize) ≢ 0) × (file_byte ip' s' i ≡ mem (src + (i - off)))
    pub rest :
        (i : ℕ)
        → i < maxfile * bsize
        → (i < off) ⊎ (off + w ≤ i)
        → mapped ip s (i / bsize) ≢ 0
        → (mapped ip' s' (i / bsize) ≢ 0) × (file_byte ip' s' i ≡ file_byte ip s i)
    pub size : ip'.size ≡ (if ltb ip.size (off + w) then off + w else ip.size)

  sized-IsFile :
      (ip : Inode) (s : Store) (z : ℕ) → IsFile sb ip s → IsFile sb (record ip { size = z }) s
  unfolding mapped
  sized-IsFile ip s z h = record {
    map = h.map;
    root = h.root;
    held = h.held;
    distinct = h.distinct;
    off_root = h.off_root;
    node = h.node;
    node_held = h.node_held;
    off_node = h.off_node;
    root_node = h.root_node;
  }

  sized-mapped :
      (ip : Inode) (s : Store) (z m : ℕ) → mapped (record ip { size = z }) s m ≡ mapped ip s m
  unfolding mapped
  sized-mapped ip s z m = refl

  sized-byte :
      (ip : Inode) (s : Store) (z i : ℕ) → file_byte (record ip { size = z }) s i ≡ file_byte ip s i
  unfolding file_byte mapped
  sized-byte ip s z i = refl

  module _ (ip : Inode) (s : Store) (pos : 0 < sb.size) (h : IsFile sb ip s) where
    -- Writing the disk inode changes nothing of the file.
    iupdate-IsFile : IsFile sb ip (iupdate sb ip s)
    unfolding iupdate
    iupdate-IsFile =
        put-IsFile sb ip s (iblock sb ip.inum) _ h (h.node_held.far h.node) h.root_node pos

    iupdate-mapped : (m : ℕ) → mapped ip (iupdate sb ip s) m ≡ mapped ip s m
    unfolding iupdate
    iupdate-mapped m =
        mapped-put sb ip s (iblock sb ip.inum) _ h (h.node_held.far h.node) h.root_node pos m

    iupdate-byte :
        (i : ℕ) → i < maxfile * bsize → file_byte ip (iupdate sb ip s) i ≡ file_byte ip s i
    unfolding iupdate
    iupdate-byte i lt =
        put-bytes sb ip s (iblock sb ip.inum) _ h (h.node_held.far h.node) h.root_node pos i
          (h.off_node (i / bsize) (omega (arith, lt)))

  Wrote-Saved :
      (src off w z : ℕ) (mem : Data) (ip : Inode) (s : Store) (ip1 : Inode) (s1 : Store)
      → 0 < sb.size
      → off + w ≤ maxfile * bsize
      → z ≡ (if ltb ip.size (off + w) then off + w else ip.size)
      → Wrote sb src off w mem ip s ip1 s1
      → Saved src off w mem ip s (record ip1 { size = z }) (iupdate sb (record ip1 { size = z }) s1)
  Wrote-Saved src off w z mem ip s ip1 s1 pos room e p =
      let grown : Inode = record ip1 { size = z } in
      let h = sized-IsFile ip1 s1 z p.file in
      record {
        file = iupdate-IsFile grown s1 pos h;
        bytes = λ i lo hi.
            let (there, byte) = p.bytes i lo hi in
            (
              λ q. there (
                  sym (sized-mapped ip1 s1 z (i / bsize))
                  ∙ sym (iupdate-mapped grown s1 pos h (i / bsize))
                  ∙ q),
              iupdate-byte grown s1 pos h i (omega (arith, hi, room))
                  ∙ sized-byte ip1 s1 z i
                  ∙ byte,
            );
        rest = λ i lt out nz.
            let (same, byte) = p.rest i lt out nz in
            (
              λ q. nz (
                  sym same
                  ∙ sym (sized-mapped ip1 s1 z (i / bsize))
                  ∙ sym (iupdate-mapped grown s1 pos h (i / bsize))
                  ∙ q),
              iupdate-byte grown s1 pos h i lt ∙ sized-byte ip1 s1 z i ∙ byte,
            );
        size = e;
      }

  grown : ℕ → ℕ → Inode → Inode
  grown off w ip = record ip { size = if ltb ip.size (off + w) then off + w else ip.size }

  writei-eq-ok :
      (reach : ℕ → ℕ → ℕ) (src off n w : ℕ) (mem : Data) (ip : Inode) (s : Store) (ip1 : Inode)
      (s1 : Store)
      → off ≤ ip.size
      → off + n < 2 ^ 32
      → off + n ≤ maxfile * bsize
      → writei_loop sb reach (n + 1) 0 off src n mem ip s ≡ ok (0 + w, off + w, ip1, s1)
      → writei sb reach src off n mem ip s
        ≡ ok (w, grown off w ip1, iupdate sb (grown off w ip1) s1)
  unfolding writei grown
  writei-eq-ok reach src off n w mem ip s ip1 s1 inside fits room e =
      let wrap : (off + n) % 2 ^ 32 ≡ off + n = omega (arith, fits) in
      let guard : (ltb ip.size off || ltb (off + n) off) ≡ false = ground (arith, inside) in
      let big : ltb (maxfile * bsize) (off + n) ≡ false = ground (arith, room) in
      let zero_add : 0 + w ≡ w = omega arith in rw (wrap, guard, big, e, zero_add) refl

  -- On a disk whose free map is one block, as mkfs makes it, for a file whose blocks are its own, memory that can be read,
  -- and a write of at most three blocks' bytes, as filewrite makes them, that begins within the file. If it ends before
  -- the largest file size, `writei` returns, given that its calls of `log_write` do not panic, and it has passed
  -- at most 8 different blocks to `log_write`, less than the MAXOPBLOCKS for which its operation has reserved
  -- room. The number `w` that it returns is at most `n`; the file then has the first `w` bytes of memory
  -- at `off`, and its other bytes, of blocks that it had, are as before; its size is the larger of the old
  -- one and the end of the write, and its blocks are still its own. It writes all `n` bytes if the file has
  -- all the blocks of the range. A write that would pass the largest file size fails and changes nothing.
  pub writei_lem :
      (reach : ℕ → ℕ → ℕ) (src off n : ℕ) (mem : Data) (ip : Inode) (s : Store)
      → 0 < sb.size
      → sb.size ≤ bpb
      → IsFile sb ip s
      → off ≤ ip.size
      → n ≤ 3 * bsize
      → off + n < 2 ^ 32
      → ((a m : ℕ) → reach a m ≡ m)
      → (off + n ≤ maxfile * bsize
          → (w : ℕ) × (ip' : Inode) × (s' : Store) × (writei sb reach src off n mem ip s
              ≡ ok (w, ip', s'))
            × (w ≤ n)
            × AtMost 8 s s'
            × Saved src off w mem ip s ip' s'
            × (((i : ℕ) → off ≤ i → i < off + n → mapped ip s (i / bsize) ≢ 0) → w ≡ n))
        × (maxfile * bsize < off + n → writei sb reach src off n mem ip s ≡ ok (failed, ip, s))
  unfolding writei grown
  writei_lem reach src off n mem ip s pos bound h inside small fits readable = (
    λ room.
        let (w, ip1, s1, e, le, p, all) =
          writei_loop_lem sb reach (n + 1) 0 off src n mem ip s pos (omega (arith, bound))
            (omega arith) (omega arith) (omega (arith, room)) h readable in
        let z = if ltb ip1.size (off + w) then off + w else ip1.size in
        (
          w,
          grown off w ip1,
          iupdate sb (grown off w ip1) s1,
          writei-eq-ok reach src off n w mem ip s ip1 s1 inside fits room e,
          omega (arith, le),
          subst (Yields (λ r. AtMost 8 s r.2))
              (writei-eq-ok reach src off n w mem ip s ip1 s1 inside fits room e)
              (writei-AtMost sb bound reach src off n mem ip s small),
          Wrote-Saved src off w z mem ip s ip1 s1 pos (omega (arith, le, room))
              (ap (λ x. if ltb x (off + w) then off + w else x) p.size) p,
          λ there.
              let same = all (λ i lo hi. there i lo (omega (arith, hi))) in omega (arith, same),
        ),
    λ over.
        let wrap : (off + n) % 2 ^ 32 ≡ off + n = omega (arith, fits) in
        let guard : (ltb ip.size off || ltb (off + n) off) ≡ false = ground (arith, inside) in
        let big : ltb (maxfile * bsize) (off + n) ≡ true = ground (arith, over) in
        rw (wrap, guard, big) refl,
  )

  readi-Saved :
      (src off w : ℕ) (mem : Data) (ip : Inode) (s : Store) (ip' : Inode) (s' : Store) (dst : ℕ)
      (mem2 : Data)
      → ((i : ℕ) → i < ip.size → mapped ip s (i / bsize) ≢ 0)
      → ip.size ≤ maxfile * bsize
      → off ≤ ip.size
      → off + w ≤ maxfile * bsize
      → Saved src off w mem ip s ip' s'
      → (mem' : Data) × (readi sb (λ a m. m) dst off w ip' s' mem2 ≡ ok (w, ip', s', mem'))
        × ((j : ℕ) → j < w → mem' (dst + j) ≡ mem (src + j))
  readi-Saved src off w mem ip s ip' s' dst mem2 held small inside room p =
      let size = p.size in
      let at_end : off + w ≤ ip'.size = ground (arith, size) in
      let most : ip'.size ≤ maxfile * bsize = ground (arith, size, small, room) in
      let held' : (i : ℕ) → i < ip'.size → mapped ip' s' (i / bsize) ≢ 0 = λ i lt.
        elim (Bool-cases (leb off i && ltb i (off + w))) [
          | inl here ↦ (p.bytes i (ground (arith, here)) (ground (arith, here))).0
          | inr away ↦
              (p.rest i (omega (arith, lt, most)) (ground (arith, away))
                (held i (ground (arith, lt, size, away, inside)))).0
        ] in
      let (mem', e, bytes) =
        readi-inside sb (λ a m. m) dst off w ip' s' mem2 (omega (arith, at_end))
          (ground (arith, most, at_end)) (omega (arith, room))
          (λ i lo hi. held' i (ground (arith, hi, at_end))) (λ a m. refl) in
      let count : min w (ip'.size - off) ≡ w = ground (arith, at_end) in
      (
        mem',
        e ∙ ap (λ x. ok (x, ip', s', mem')) count,
        λ j lt.
            let byte = (p.bytes (off + j) (omega arith) (omega (arith, lt))).1 in
            let from : file_byte ip' s' (off + (dst + j - dst)) ≡ file_byte ip' s' (off + j) =
              ap (file_byte ip' s') (omega arith) in
            let to : mem (src + (off + j - off)) ≡ mem (src + j) = ap mem (omega arith) in
            ground (arith, bytes (dst + j), lt, count, from, byte, to),
      )

  -- What `writei` has written, `readi` reads. On a disk whose free map is one block, take a file whose blocks are its own and
  -- which has all the blocks of its size, memory that can be read and written, and a write of at most three
  -- blocks' bytes that begins within the file and ends before the largest file size. Given that the calls of `log_write` do
  -- not panic, of which at most 8 are for different blocks, the write returns, and a read of as many bytes
  -- as were written, from the same offset, returns their number and copies the bytes that were written.
  pub readi-writei :
      (reach : ℕ → ℕ → ℕ) (src off n : ℕ) (mem : Data) (ip : Inode) (s : Store) (dst : ℕ)
      (mem2 : Data)
      → 0 < sb.size
      → sb.size ≤ bpb
      → IsFile sb ip s
      → ((i : ℕ) → i < ip.size → mapped ip s (i / bsize) ≢ 0)
      → ip.size ≤ maxfile * bsize
      → off ≤ ip.size
      → n ≤ 3 * bsize
      → off + n ≤ maxfile * bsize
      → ((a m : ℕ) → reach a m ≡ m)
      → (w : ℕ) × (ip' : Inode) × (s' : Store) × (mem' : Data) × (writei sb reach src off n mem ip s
          ≡ ok (w, ip', s'))
        × AtMost 8 s s'
        × (readi sb (λ a m. m) dst off w ip' s' mem2 ≡ ok (w, ip', s', mem'))
        × ((j : ℕ) → j < w → mem' (dst + j) ≡ mem (src + j))
  readi-writei reach src off n mem ip s dst mem2 pos bound h held small inside few room readable =
      let (w, ip', s', e, le, few_blocks, p, _) =
        (writei_lem reach src off n mem ip s pos bound h inside few (omega (arith, room))
            readable).0
          room in
      let (mem', e', bytes) =
        readi-Saved src off w mem ip s ip' s' dst mem2 held small inside (omega (arith, le, room))
          p in
      (w, ip', s', mem', e, few_blocks, e', bytes)
