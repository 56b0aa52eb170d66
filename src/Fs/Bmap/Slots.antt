-- ===== src/Fs/Bmap/Slots.antt =====
-- What looking up one slot of an inode, or one entry of its indirect block, comes to.
use xv6_riscv_private.Common.{
  ℕ, ◌<◌, ◌≡◌, ◌≢◌, refl, sym, ap, ◌∙◌, subst, true, false, ◌==◌, if◌then◌else◌, update, update-ne,
  arith, Bool-cases, inl, inr,
}
use xv6_riscv_private.Fs.{Data, SuperBlock, Store, put, bblock}
use xv6_riscv_private.Fs.Words.{word, set_word}
use xv6_riscv_private.Fs.Inode.{Inode}
use xv6_riscv_private.Fs.Blocks.{balloc, in_use, HasMap}
use xv6_riscv_private.Fs.Blocks.Laws.{Fresh, balloc_lem}
use xv6_riscv_private.Fs.Bmap.{map_slot, map_entry}

module _ (sb : SuperBlock) where
  -- what a lookup that allocates on demand comes to: the old address, no block left, or a fresh one
  pub data Looked (old : ℕ) (s : Store) (a : ℕ) (s' : Store) : Type 0 where
    present : old ≢ 0 → a ≡ old → s' ≡ s → Looked old s a s'
    full : old ≡ 0 → a ≡ 0 → s' ≡ s → Looked old s a s'
    fresh : old ≡ 0 → Fresh sb s a s' → Looked old s a s'

  pub map_slot_lem :
      (ip : Inode) (j : ℕ) (s : Store)
      → HasMap sb s
      → Looked (ip.addrs j) s (map_slot sb ip j s).0 (map_slot sb ip j s).2
        × ((map_slot sb ip j s).1 ≡ (
            if (map_slot sb ip j s).0 == ip.addrs j
            then ip
            else record ip { addrs = update ip.addrs j (map_slot sb ip j s).0 }))
  unfolding map_slot
  map_slot_lem ip j s h = elim (Bool-cases (ip.addrs j == 0)) [
    | inr there ↦ rw there (present (ground (arith, there)) refl refl, ground arith)
    | inl gap ↦
        let z : ip.addrs j ≡ 0 = ground (arith, gap) in
        rw gap (elim (balloc_lem sb s h) [
          | inl f ↦
              let ne : ((balloc sb s).0 == 0) ≡ false = let n = f.nonzero in ground (arith, n) in
              rw (ne, z, ne) (fresh refl f, refl)
          | inr (e, same, _) ↦ rw (e, z) (full refl refl same, refl)
        ])
  ]

  -- `b` is no block of the free map.
  abbrev pub NotMap : ℕ → Type 0
  NotMap b = (c : ℕ) → c < sb.size → b ≢ bblock c sb

  pub Fresh-NotMap : (s : Store) (r : ℕ) (s' : Store) → HasMap sb s → Fresh sb s r s' → NotMap r
  Fresh-NotMap s r s' h f c lt e =
      let used : in_use sb s r ≡ true = ap (λ x. in_use sb s x) e ∙ h.itself c lt in
      let free = f.was_free in ground (arith, used, free)

  pub map_blocks :
      (b : ℕ) (v : Data) (s : Store)
      → NotMap b
      → (c : ℕ) → c < sb.size
      → (put b v s).blocks (bblock c sb) ≡ s.blocks (bblock c sb)
  unfolding put
  map_blocks b v s far c lt = update-ne s.blocks b (bblock c sb) v (far c lt)

  pub in_use-put :
      (b : ℕ) (v : Data) (s : Store)
      → NotMap b
      → (c : ℕ) → c < sb.size
      → in_use sb (put b v s) c ≡ in_use sb s c
  unfolding in_use
  in_use-put b v s far c lt = rw (map_blocks b v s far c lt) refl

  pub HasMap-put :
      (b : ℕ) (v : Data) (s : Store) → 0 < sb.size → NotMap b → HasMap sb s → HasMap sb (put b v s)
  HasMap-put b v s pos far h = record {
    bytes = λ c lt. rw (map_blocks b v s far c lt) (h.bytes c lt);
    boot = in_use-put b v s far 0 pos ∙ h.boot;
    itself = λ c lt. in_use-put b v s far (bblock c sb) (h.within c lt) ∙ h.itself c lt;
    within = h.within;
  }

  -- what looking up an entry of the indirect block comes to
  pub data Entered (ind bn : ℕ) (s : Store) (a : ℕ) (s' : Store) : Type 0 where
    old_entry :
        word (s.blocks ind) bn ≢ 0 → a ≡ word (s.blocks ind) bn → s' ≡ s → Entered ind bn s a s'
    no_entry : word (s.blocks ind) bn ≡ 0 → a ≡ 0 → s' ≡ s → Entered ind bn s a s'
    new_entry :
        word (s.blocks ind) bn ≡ 0
        → (s1 : Store) → Fresh sb s a s1
        → s' ≡ put ind (set_word (s.blocks ind) bn a) s1
        → Entered ind bn s a s'

  pub map_entry_lem :
      (ind bn : ℕ) (s : Store)
      → HasMap sb s
      → NotMap ind
      → ind < sb.size
      → in_use sb s ind ≡ true
      → Entered ind bn s (map_entry sb ind bn s).0 (map_entry sb ind bn s).1
  unfolding map_entry
  map_entry_lem ind bn s h far small used = elim (Bool-cases (word (s.blocks ind) bn == 0)) [
    | inr there ↦ rw there (old_entry (ground (arith, there)) refl refl)
    | inl gap ↦
        let z : word (s.blocks ind) bn ≡ 0 = ground (arith, gap) in
        rw gap (elim (balloc_lem sb s h) [
          | inl f ↦
              let ne : ((balloc sb s).0 == 0) ≡ false = let n = f.nonzero in ground (arith, n) in
              let apart : ind ≢ (balloc sb s).0 = λ e.
                let free = f.was_free in
                let both : in_use sb s (balloc sb s).0 ≡ true =
                  ap (λ x. in_use sb s x) (sym e) ∙ used in
                ground (arith, both, free) in
              let same : (balloc sb s).1.blocks ind ≡ s.blocks ind =
                f.others ind apart (far (balloc sb s).0 f.inside) in
              rw (ne, same) (new_entry z (balloc sb s).1 f refl)
          | inr (e, same, _) ↦ rw e (no_entry z refl same)
        ])
  ]

  -- What every lookup keeps: the free map, the marks, and the contents of the blocks in use, but for the map and
  -- the block `ind`.
  pub record Grows (ind : ℕ) (s s' : Store) : Type 0 where
    pub has_map : HasMap sb s'
    pub uses : (c : ℕ) → c < sb.size → in_use sb s c ≡ true → in_use sb s' c ≡ true
    pub frame :
        (c : ℕ) → c < sb.size → in_use sb s c ≡ true → NotMap c → c ≢ ind → s'.blocks c ≡ s.blocks c

  pub Grows-refl : (ind : ℕ) (s : Store) → HasMap sb s → Grows ind s s
  Grows-refl ind s h = record { has_map = h; uses = λ c lt u. u; frame = λ c lt u far ne. refl }

  pub Grows-trans : (ind : ℕ) (s t u : Store) → Grows ind s t → Grows ind t u → Grows ind s u
  Grows-trans ind s t u p q = record {
    has_map = q.has_map;
    uses = λ c lt v. q.uses c lt (p.uses c lt v);
    frame = λ c lt v far ne. q.frame c lt (p.uses c lt v) far ne ∙ p.frame c lt v far ne;
  }

  pub Grows-Fresh : (ind : ℕ) (s : Store) (a : ℕ) (s' : Store) → Fresh sb s a s' → Grows ind s s'
  Grows-Fresh ind s a s' f = record {
    has_map = f.has_map;
    uses = λ c lt u. f.uses c lt ∙ rw u (ground arith);
    frame = λ c lt u far ne.
        f.others c
          (λ e.
            let free = f.was_free in
            let both : in_use sb s a ≡ true = ap (λ x. in_use sb s x) (sym e) ∙ u in
            ground (arith, both, free))
          (far a f.inside);
  }

  pub Grows-Looked :
      (ind old : ℕ) (s : Store) (a : ℕ) (s' : Store)
      → HasMap sb s
      → Looked old s a s'
      → Grows ind s s'
  Grows-Looked ind old s a s' h (present _ _ e) =
      subst (λ x. Grows ind s x) (sym e) (Grows-refl ind s h)
  Grows-Looked ind old s a s' h (full _ _ e) =
      subst (λ x. Grows ind s x) (sym e) (Grows-refl ind s h)
  Grows-Looked ind old s a s' h (fresh _ f) = Grows-Fresh ind s a s' f

  pub Grows-put :
      (ind : ℕ) (v : Data) (s : Store)
      → 0 < sb.size
      → NotMap ind
      → HasMap sb s
      → Grows ind s (put ind v s)
  unfolding put
  Grows-put ind v s pos far h = record {
    has_map = HasMap-put ind v s pos far h;
    uses = λ c lt u. in_use-put ind v s far c lt ∙ u;
    frame = λ c lt u nm ne. update-ne s.blocks ind c v (λ e. ne (sym e));
  }

  pub Grows-Entered :
      (ind bn : ℕ) (s : Store) (a : ℕ) (s' : Store)
      → HasMap sb s
      → 0 < sb.size
      → NotMap ind
      → Entered ind bn s a s'
      → Grows ind s s'
  Grows-Entered ind bn s a s' h pos far (old_entry _ _ e) =
      subst (λ x. Grows ind s x) (sym e) (Grows-refl ind s h)
  Grows-Entered ind bn s a s' h pos far (no_entry _ _ e) =
      subst (λ x. Grows ind s x) (sym e) (Grows-refl ind s h)
  Grows-Entered ind bn s a s' h pos far (new_entry _ s1 f e) =
      subst (λ x. Grows ind s x) (sym e)
        (Grows-trans ind s s1 _ (Grows-Fresh ind s a s1 f)
          (Grows-put ind (set_word (s.blocks ind) bn a) s1 pos far f.has_map))
