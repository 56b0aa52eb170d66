-- ===== src/Fs/Write/Loop.antt =====
-- The loop of writei, block by block.
use xv6_riscv_private.Common.{
  ℕ, zero, suc, ◌+◌, ◌-◌, ◌*◌, ◌/◌, ◌%◌, ◌^◌, ◌≤◌, ◌<◌, ◌≡◌, ◌≢◌, refl, sym, ap, ◌∙◌, subst, true,
  ◌==◌, ltb, leb, arith, Bool-cases, inl, inr, ◌⊎◌, Outcome, ok,
}
use xv6_riscv_private.Fs.{Data, bsize, SuperBlock, Store, put}
use xv6_riscv_private.Fs.Inode.{Inode, maxfile, ndirect}
use xv6_riscv_private.Fs.Bmap.Found.{mapped, Found, IsHeld}
use xv6_riscv_private.Fs.Bmap.Laws.{bmap_lem}
use xv6_riscv_private.Fs.Content.{min, copy, writei_loop}
use xv6_riscv_private.Fs.Read.{file_byte}
use xv6_riscv_private.Fs.Write.{
  IsFile, bmap-IsFile, bmap-bytes, put-IsFile, mapped-put, put-bytes, put-here,
}

copy-inside :
    (src off m i : ℕ) (mem d : Data)
    → off ≤ i
    → i < off + m
    → off % bsize + m ≤ bsize
    → copy (off % bsize) src m mem d (i % bsize) ≡ mem (src + (i - off))
unfolding copy
copy-inside src off m i mem d lo hi fits =
    let place : i % bsize ≡ off % bsize + (i - off) = omega (arith, lo, hi, fits) in
    rw place (
      let at : src + (off % bsize + (i - off) - off % bsize) ≡ src + (i - off) = omega arith in
      ground (arith, hi, lo, ap mem at))

copy-outside :
    (src off m i : ℕ) (mem d : Data)
    → i / bsize ≡ off / bsize
    → (i < off) ⊎ (off + m ≤ i)
    → copy (off % bsize) src m mem d (i % bsize) ≡ d (i % bsize)
unfolding copy
copy-outside src off m i mem d same out = ground (arith, same, out)

module _ (sb : SuperBlock) where
  -- `w` bytes of memory from `src` on have been written to the file from `off` on, and no others changed.
  pub record Wrote (src off w : ℕ) (mem : Data) (ip : Inode) (s : Store) (ip' : Inode) (s' : Store)
      : Type 0 where
    pub file : IsFile sb ip' s'
    pub bytes :
        (i : ℕ)
        → off ≤ i
        → i < off + w
        → (mapped ip' s' (i / bsize) ≢ 0) × (file_byte ip' s' i ≡ mem (src + (i - off)))
    pub rest :
        (i : ℕ)
        → i < maxfile * bsize
        → (i < off) ⊎ (off + w ≤ i)
        → mapped ip s (i / bsize) ≢ 0
        → (mapped ip' s' (i / bsize) ≡ mapped ip s (i / bsize))
          × (file_byte ip' s' i ≡ file_byte ip s i)
    pub size : ip'.size ≡ ip.size
    pub inum : ip'.inum ≡ ip.inum

  Wrote-none :
      (src off : ℕ) (mem : Data) (ip : Inode) (s : Store)
      → IsFile sb ip s
      → Wrote src off 0 mem ip s ip s
  Wrote-none src off mem ip s h = record {
    file = h;
    bytes = λ i lo hi. absurd (omega (arith, lo, hi));
    rest = λ i lt out nz. (refl, refl);
    size = refl;
    inum = refl;
  }

  Wrote-Found :
      (src off bn a : ℕ) (mem : Data) (ip : Inode) (s : Store) (ip' : Inode) (s' : Store)
      → IsFile sb ip s
      → bn < maxfile
      → Found sb ip bn s a ip' s'
      → Wrote src off 0 mem ip s ip' s'
  Wrote-Found src off bn a mem ip s ip' s' h lt f = record {
    file = bmap-IsFile sb ip s bn a ip' s' h lt f;
    bytes = λ i lo hi. absurd (omega (arith, lo, hi));
    rest = λ i il out nz. bmap-bytes sb ip s bn a ip' s' h lt f i (omega (arith, il)) nz;
    size = f.size;
    inum = f.inum;
  }

  Wrote-trans :
      (src off m w : ℕ) (mem : Data) (ip : Inode) (s : Store) (ip1 : Inode) (s1 : Store)
      (ip2 : Inode) (s2 : Store)
      → off + m + w ≤ maxfile * bsize
      → Wrote src off m mem ip s ip1 s1
      → Wrote (src + m) (off + m) w mem ip1 s1 ip2 s2
      → Wrote src off (m + w) mem ip s ip2 s2
  Wrote-trans src off m w mem ip s ip1 s1 ip2 s2 room p q = record {
    file = q.file;
    bytes = λ i lo hi. elim (Bool-cases (ltb i (off + m))) [
      | inl now ↦
          let (there, byte) = p.bytes i lo (ground (arith, now)) in
          let (same, kept) = q.rest i (omega (arith, hi, room)) (inl (ground (arith, now))) there in
          (λ z. there (sym same ∙ z), kept ∙ byte)
      | inr later ↦
          let (there, byte) = q.bytes i (ground (arith, later)) (omega (arith, hi)) in
          (there, byte ∙ ap mem (ground (arith, later)))
    ];
    rest = λ i lt out nz.
        let (same, kept) = p.rest i lt (ground (arith, out)) nz in
        let (same', kept') = q.rest i lt (ground (arith, out)) (λ z. nz (sym same ∙ z)) in
        (same' ∙ same, kept' ∙ kept);
    size = q.size ∙ p.size;
    inum = q.inum ∙ p.inum;
  }

  -- the block found is written to
  Wrote-put :
      (src off m a : ℕ) (mem : Data) (ip : Inode) (s : Store)
      → IsFile sb ip s
      → 0 < sb.size
      → off % bsize + m ≤ bsize
      → off + m ≤ maxfile * bsize
      → off / bsize < maxfile
      → mapped ip s (off / bsize) ≡ a
      → a ≢ 0
      → Wrote src off m mem ip s ip (put a (copy (off % bsize) src m mem (s.blocks a)) s)
  unfolding file_byte
  Wrote-put src off m a mem ip s h pos fits room lt e ne =
      let v = copy (off % bsize) src m mem (s.blocks a) in
      let held = subst (λ x. IsHeld sb x s) e (h.held (off / bsize) lt) in
      let off_root : a ≢ ip.addrs ndirect =
        λ q. h.off_root (off / bsize) lt (λ z. ne (sym e ∙ z)) (e ∙ q) in
      record {
        file = put-IsFile sb ip s a v h (held.far ne) off_root pos;
        bytes = λ i lo hi.
            let block : i / bsize ≡ off / bsize = omega (arith, lo, hi, fits) in
            let here : mapped ip s (i / bsize) ≡ a = ap (mapped ip s) block ∙ e in
            (
              λ z. ne (
                  sym here
                  ∙ sym (mapped-put sb ip s a v h (held.far ne) off_root pos (i / bsize))
                  ∙ z),
              put-here sb ip s a v h (held.far ne) off_root pos i here
                  ∙ copy-inside src off m i mem (s.blocks a) lo hi fits,
            );
        rest = λ i il out nz. (
          mapped-put sb ip s a v h (held.far ne) off_root pos (i / bsize),
          elim (Bool-cases (i / bsize == off / bsize)) [
            | inl same ↦
                let here : mapped ip s (i / bsize) ≡ a =
                  ap (mapped ip s) (ground (arith, same)) ∙ e in
                put-here sb ip s a v h (held.far ne) off_root pos i here
                ∙ copy-outside src off m i mem (s.blocks a) (ground (arith, same)) out
                ∙ ap (λ x. s.blocks x (i % bsize)) (sym here)
            | inr other ↦ put-bytes sb ip s a v h (held.far ne) off_root pos i (λ q.
                let one =
                  h.distinct (i / bsize) (off / bsize) (omega (arith, il)) lt nz (q ∙ sym e) in
                ground (arith, other, one))
          ],
        );
        size = refl;
        inum = refl;
      }

  -- what the loop does with `tot` bytes written already: it writes `w` more, and all of them if no block was missing
  abbrev pub Written :
      ℕ → ℕ → ℕ → ℕ → Data → Inode → Store → Outcome (ℕ × ℕ × Inode × Store) → Type 0
  Written tot off src n mem ip s out =
      (w : ℕ) × (ip' : Inode) × (s' : Store) × (out ≡ ok (tot + w, off + w, ip', s'))
      × (w ≤ n - tot)
      × Wrote src off w mem ip s ip' s'
      × (((i : ℕ) → off ≤ i → i < off + (n - tot) → mapped ip s (i / bsize) ≢ 0) → w ≡ n - tot)

  stopped :
      (tot off : ℕ) (ip : Inode) (s : Store)
      → ◌≡◌ {A = Outcome (ℕ × ℕ × Inode × Store)}
          (ok (tot, off, ip, s))
          (ok (tot + 0, off + 0, ip, s))
  stopped tot off ip s =
      ap (λ x. ok (x, off, ip, s)) (omega arith) ∙ ap (λ x. ok (tot + 0, x, ip, s)) (omega arith)

  further :
      (tot off m w : ℕ) (ip : Inode) (s : Store)
      → ◌≡◌ {A = Outcome (ℕ × ℕ × Inode × Store)}
          (ok (tot + m + w, off + m + w, ip, s))
          (ok (tot + (m + w), off + (m + w), ip, s))
  further tot off m w ip s =
      ap (λ x. ok (x, off + m + w, ip, s)) (omega arith)
      ∙ ap (λ x. ok (tot + (m + w), x, ip, s)) (omega arith)

  -- a round in which a block was found and written to
  Wrote-round :
      (src off m a : ℕ) (mem : Data) (ip : Inode) (s : Store) (ip1 : Inode) (s1 : Store)
      → IsFile sb ip s
      → 0 < sb.size
      → off % bsize + m ≤ bsize
      → off + m ≤ maxfile * bsize
      → off / bsize < maxfile
      → Found sb ip (off / bsize) s a ip1 s1
      → a ≢ 0
      → Wrote src off m mem ip s ip1 (put a (copy (off % bsize) src m mem (s1.blocks a)) s1)
  Wrote-round src off m a mem ip s ip1 s1 h pos fits room lt f ne =
      let s2 = put a (copy (off % bsize) src m mem (s1.blocks a)) s1 in
      let h1 = bmap-IsFile sb ip s (off / bsize) a ip1 s1 h lt f in
      let second = Wrote-put src off m a mem ip1 s1 h1 pos fits room lt f.value ne in
      let second' : Wrote (src + 0) (off + 0) m mem ip1 s1 ip1 s2 =
        subst (λ x. Wrote x (off + 0) m mem ip1 s1 ip1 s2) (omega arith)
          (subst (λ y. Wrote src y m mem ip1 s1 ip1 s2) (omega arith) second) in
      subst (λ x. Wrote src off x mem ip s ip1 s2) (omega arith)
        (Wrote-trans src off 0 m mem ip s ip1 s1 ip1 s2 (omega (arith, room))
          (Wrote-Found src off (off / bsize) a mem ip s ip1 s1 h lt f) second')

  Written-round :
      (tot off src n m : ℕ) (mem : Data) (ip : Inode) (s : Store) (ip1 : Inode) (s2 : Store)
      (out : Outcome (ℕ × ℕ × Inode × Store))
      → m ≤ n - tot
      → off + (n - tot) ≤ maxfile * bsize
      → Wrote src off m mem ip s ip1 s2
      → Written (tot + m) (off + m) (src + m) n mem ip1 s2 out
      → Written tot off src n mem ip s out
  Written-round tot off src n m mem ip s ip1 s2 out most room p (w, ip', s', e, le, q, all) = (
    m + w,
    ip',
    s',
    e ∙ further tot off m w ip' s',
    omega (arith, le, most),
    Wrote-trans src off m w mem ip s ip1 s2 ip' s' (omega (arith, le, most, room)) p q,
    λ there.
        let rest : w ≡ n - (tot + m) = all (λ i lo hi z.
          let (same, _) =
            p.rest i (omega (arith, hi, most, room)) (inr lo)
              (there i (omega (arith, lo)) (omega (arith, hi, most))) in
          there i (omega (arith, lo)) (omega (arith, hi, most)) (sym same ∙ z)) in
        omega (arith, rest, most),
  )

  pub writei_loop_lem :
      (reach : ℕ → ℕ → ℕ) (f tot off src n : ℕ) (mem : Data) (ip : Inode) (s : Store)
      → 0 < sb.size
      → sb.size ≤ 2 ^ 32
      → n - tot < f
      → tot ≤ n
      → off + (n - tot) ≤ maxfile * bsize
      → IsFile sb ip s
      → ((a m : ℕ) → reach a m ≡ m)
      → Written tot off src n mem ip s (writei_loop sb reach f tot off src n mem ip s)
  unfolding writei_loop
  writei_loop_lem reach zero tot off src n mem ip s pos bound fuel le room h readable =
      absurd (omega arith)
  writei_loop_lem reach (suc f) tot off src n mem ip s pos bound fuel le room h readable =
      elim (Bool-cases (ltb tot n)) [
        | inr done ↦ (
          0,
          ip,
          s,
          rw done (stopped tot off ip s),
          omega arith,
          Wrote-none src off mem ip s h,
          λ _. ground (arith, done),
        )
        | inl more ↦
            let lt : off / bsize < maxfile = ground (arith, more, room) in
            let (a, ip1, s1, e, f1) =
              (bmap_lem sb ip (off / bsize) s pos bound h.map h.root).0 lt in
            let first = Wrote-Found src off (off / bsize) a mem ip s ip1 s1 h lt f1 in
            let m = min (n - tot) (bsize - off % bsize) in
            elim (Bool-cases (a == 0)) [
              | inl gone ↦ (
                0,
                ip1,
                s1,
                rw (more, e, gone) (stopped tot off ip1 s1),
                omega arith,
                first,
                λ there.
                    let old = there off (omega arith) (ground (arith, more)) in
                    absurd (old (sym (f1.kept old) ∙ ground (arith, gone))),
              )
              | inr found ↦
                  let fine : leb m (reach src m) ≡ true = ground (arith, readable src m) in
                  let some_bytes : 0 < m = ground (arith, more) in
                  let most : m ≤ n - tot = ground arith in
                  let fits : off % bsize + m ≤ bsize = ground arith in
                  let s2 = put a (copy (off % bsize) src m mem (s1.blocks a)) s1 in
                  let round =
                    Wrote-round src off m a mem ip s ip1 s1 h pos fits (omega (arith, most, room))
                      lt f1 (ground (arith, found)) in
                  let tail =
                    writei_loop_lem reach f (tot + m) (off + m) (src + m) n mem ip1 s2 pos bound
                      (omega (arith, some_bytes, most, fuel)) (omega (arith, most, le))
                      (omega (arith, most, room)) round.file readable in
                  rw (more, e, found, fine)
                    (Written-round tot off src n m mem ip s ip1 s2 _ most room round tail)
            ]
      ]
