-- ===== src/Fs/Bmap/Laws.antt =====
-- What bmap does, with the indirect block.
use xv6_riscv_private.Common.{
  ℕ, ◌+◌, ◌-◌, ◌^◌, ◌≤◌, ◌<◌, ◌≡◌, ◌≢◌, refl, sym, ◌∙◌, subst, true, ◌==◌, ltb, if◌then◌else◌,
  update_self, update-ne, arith, Bool-cases, inl, inr, ok, panic,
}
use xv6_riscv_private.Fs.{SuperBlock, Store, put}
use xv6_riscv_private.Fs.Words.{word, set_word, word-set_word}
use xv6_riscv_private.Fs.Inode.{Inode, ndirect, nindirect, maxfile}
use xv6_riscv_private.Fs.Blocks.{HasMap}
use xv6_riscv_private.Fs.Blocks.Laws.{Fresh}
use xv6_riscv_private.Fs.Bmap.{map_slot, map_entry, map_indirect, bmap}
use xv6_riscv_private.Fs.Bmap.Slots.{
  Looked, present, full, fresh, map_slot_lem, Entered, old_entry, no_entry, new_entry,
  map_entry_lem, Grows-trans, Grows-Fresh, Grows-put, in_use-put,
}
use xv6_riscv_private.Fs.Bmap.Found.{
  Prepared, mapped, Found, Found-Prepared, Found-direct, Found-same, HasIndirect, IsHeld,
  IsHeld-grown, Looked-Prepared, apart-Fresh, with_slot,
}

module _ (sb : SuperBlock) where
  -- a fresh block in entry `bn` of the indirect block
  Found-entry :
      (ip : Inode) (bn : ℕ) (s : Store) (a : ℕ) (s2 : Store)
      → bn < nindirect
      → 0 < sb.size
      → sb.size ≤ 2 ^ 32
      → HasIndirect sb ip s
      → ip.addrs ndirect ≢ 0
      → word (s.blocks (ip.addrs ndirect)) bn ≡ 0
      → Fresh sb s a s2
      → Found sb ip
          (ndirect + bn)
          s
          a
          ip
          (put (ip.addrs ndirect) (set_word (s.blocks (ip.addrs ndirect)) bn a) s2)
  unfolding mapped put
  Found-entry ip bn s a s2 lt pos bound held ne z f =
      let ind = ip.addrs ndirect in
      let d = set_word (s.blocks ind) bn a in
      let g =
        Grows-trans sb ind s s2 (put ind d s2) (Grows-Fresh sb ind s a s2 f)
          (Grows-put sb ind d s2 pos (held.far ne) f.has_map) in
      let entry : (j : ℕ) → word d j ≡ (if bn == j then a else word (s.blocks ind) j) =
        λ j. word-set_word (s.blocks ind) bn a j (let i = f.inside in omega (arith, i, bound)) in
      let here : (put ind d s2).blocks ind ≡ d = update_self s2.blocks ind d in
      record {
        value = rw here (ground (arith, entry (ndirect + bn - ndirect), ne));
        kept = λ old. absurd (ground (arith, old, ne, z));
        new = λ _ _. (
          f.was_free,
          f.inside,
          update-ne s2.blocks ind a d (apart-Fresh sb s a s2 ind f (held.used ne)) ∙ f.zeroed,
          in_use-put sb ind d s2 (held.far ne) a f.inside ∙ f.uses a f.inside ∙ ground arith,
        );
        others = λ m other. rw here (ground (arith, entry (m - ndirect), other, ne));
        root = λ b lt' u n. n;
        off_root = λ _ _ e. apart-Fresh sb s a s2 ind f (held.used ne) (sym e);
        grows = g;
        indirect = IsHeld-grown sb ind ind s (put ind d s2) g held;
        size = refl;
        inum = refl;
      }

  Found-Entered :
      (ip : Inode) (bn : ℕ) (s : Store) (a : ℕ) (s' : Store)
      → bn < nindirect
      → 0 < sb.size
      → sb.size ≤ 2 ^ 32
      → HasMap sb s
      → HasIndirect sb ip s
      → ip.addrs ndirect ≢ 0
      → Entered sb (ip.addrs ndirect) bn s a s'
      → Found sb ip (ndirect + bn) s a ip s'
  unfolding mapped
  Found-Entered ip bn s a s' lt pos bound h held ne (old_entry old e same) =
      rw same (Found-same sb ip (ndirect + bn) s a h held (ground (arith, e, ne)))
  Found-Entered ip bn s a s' lt pos bound h held ne (no_entry z e same) =
      rw same (Found-same sb ip (ndirect + bn) s a h held (ground (arith, e, z, ne)))
  Found-Entered ip bn s a s' lt pos bound h held ne (new_entry z s1 f e) =
      rw e (Found-entry ip bn s a s1 lt pos bound held ne z f)

  Looked-none :
      (old : ℕ) (s : Store) (a : ℕ) (s' : Store)
      → a ≡ 0
      → Looked sb old s a s'
      → (old ≡ 0) × (s' ≡ s)
  Looked-none old s a s' z (present ne e same) = absurd (ne (sym e ∙ z))
  Looked-none old s a s' z (full e _ same) = (e, same)
  Looked-none old s a s' z (fresh _ f) = absurd (f.nonzero z)

  Found-full :
      (ip : Inode) (bn : ℕ) (s : Store) (a : ℕ) (s' : Store)
      → HasMap sb s
      → HasIndirect sb ip s
      → a ≡ 0
      → Looked sb (ip.addrs ndirect) s a s'
      → Found sb ip
          (ndirect + bn)
          s
          0
          (if a == ip.addrs ndirect then ip else with_slot sb ip ndirect a)
          s'
  unfolding mapped
  Found-full ip bn s a s' h held z looked =
      let (e, same) = Looked-none (ip.addrs ndirect) s a s' z looked in
      rw (same, z, e) (Found-same sb ip (ndirect + bn) s 0 h held (ground (arith, e)))

  -- the second half, once the indirect block is there
  Found-Prepared_entry :
      (ip : Inode) (bn : ℕ) (s : Store) (ind : ℕ) (ip1 : Inode) (s1 : Store)
      → bn < nindirect
      → 0 < sb.size
      → sb.size ≤ 2 ^ 32
      → ind ≢ 0
      → Prepared sb ip s ind ip1 s1
      → Found sb ip (ndirect + bn) s (map_entry sb ind bn s1).0 ip1 (map_entry sb ind bn s1).1
  Found-Prepared_entry ip bn s ind ip1 s1 lt pos bound ne p =
      let has = p.grows.has_map in
      let held = p.held in
      let entered = map_entry_lem sb ind bn s1 has (held.far ne) (held.inside ne) (held.used ne) in
      Found-Prepared sb ip (ndirect + bn) s ind ip1 s1 _ ip1 _ p (
        Found-Entered ip1 bn s1 _ _ lt pos bound has (subst (λ x. IsHeld sb x s1) (sym p.addr) held)
          (λ z. ne (sym p.addr ∙ z))
          (subst (λ x. Entered sb x bn s1 (map_entry sb ind bn s1).0 (map_entry sb ind bn s1).1)
            (sym p.addr) entered))

  map_indirect_lem :
      (ip : Inode) (bn : ℕ) (s : Store)
      → bn < nindirect
      → 0 < sb.size
      → sb.size ≤ 2 ^ 32
      → HasMap sb s
      → HasIndirect sb ip s
      → Found sb ip
          (ndirect + bn)
          s
          (map_indirect sb ip bn s).0
          (map_indirect sb ip bn s).1
          (map_indirect sb ip bn s).2
  unfolding map_indirect
  map_indirect_lem ip bn s lt pos bound h held =
      let r = map_slot sb ip ndirect s in
      let (looked, inode) = map_slot_lem sb ip ndirect s h in
      elim (Bool-cases (r.0 == 0)) [
        | inl none ↦
            rw (none, inode) (Found-full ip bn s r.0 r.2 h held (ground (arith, none)) looked)
        | inr there ↦
            let ne : r.0 ≢ 0 = ground (arith, there) in
            rw there (
              Found-Prepared_entry ip bn s r.0 r.1 r.2 lt pos bound ne (
                subst (λ x. Prepared sb ip s r.0 x r.2) (sym inode)
                  (Looked-Prepared sb ip s r.0 r.2 h held ne looked)))
      ]

  -- With a free map, and an indirect block in use if there is one, `bmap` of a block number below MAXFILE does not
  -- panic. It returns the block that the inode has there; if it has none, a fresh zeroed block, which it then has,
  -- or 0. It moves none of the file's other blocks, and leaves the marks of the free map and the contents
  -- of every other block in use as they are. From MAXFILE on it panics.
  pub bmap_lem :
      (ip : Inode) (bn : ℕ) (s : Store)
      → 0 < sb.size
      → sb.size ≤ 2 ^ 32
      → HasMap sb s
      → HasIndirect sb ip s
      → (bn < maxfile
          → (a : ℕ) × (ip' : Inode) × (s' : Store) × (bmap sb ip bn s ≡ ok (a, ip', s'))
            × Found sb ip bn s a ip' s')
        × (maxfile ≤ bn → bmap sb ip bn s ≡ panic)
  unfolding bmap
  bmap_lem ip bn s pos bound h held = (
    λ lt. elim (Bool-cases (ltb bn ndirect)) [
      | inl direct ↦
          let r = map_slot sb ip bn s in
          let (looked, inode) = map_slot_lem sb ip bn s h in
          (
            r.0,
            r.1,
            r.2,
            rw direct refl,
            rw inode (Found-direct sb ip bn s r.0 r.2 (ground (arith, direct)) h held looked),
          )
      | inr indirect ↦
          let r = map_indirect sb ip (bn - ndirect) s in
          let inside : ltb (bn - ndirect) nindirect ≡ true = ground (arith, lt, indirect) in
          let index : ndirect + (bn - ndirect) ≡ bn = ground (arith, indirect) in
          (
            r.0,
            r.1,
            r.2,
            rw (indirect, inside) refl,
            subst (λ x. Found sb ip x s r.0 r.1 r.2) index
                (map_indirect_lem ip (bn - ndirect) s (ground (arith, inside)) pos bound h held),
          )
    ],
    λ le. ground (arith, le),
  )
