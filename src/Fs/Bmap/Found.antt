-- ===== src/Fs/Bmap/Found.antt =====
-- What a call of bmap is to leave behind, and the blocks that the inode holds itself.
use xv6_riscv_private.Common.{
  ℕ, ◌-◌, ◌<◌, ◌≡◌, ◌≢◌, refl, sym, ap, ◌∙◌, subst, true, false, ◌==◌, ltb, if◌then◌else◌, update,
  update_self, update-ne, arith, Bool-cases, inl, inr,
}
use xv6_riscv_private.Fs.{SuperBlock, Store}
use xv6_riscv_private.Fs.Words.{word, word-zero}
use xv6_riscv_private.Fs.Inode.{Inode, ndirect}
use xv6_riscv_private.Fs.Blocks.{zeros, in_use, HasMap}
use xv6_riscv_private.Fs.Blocks.Laws.{Fresh}
use xv6_riscv_private.Fs.Bmap.Slots.{
  Looked, present, full, fresh, NotMap, Fresh-NotMap, Grows, Grows-Fresh, Grows-refl,
}

-- the block that holds block `bn` of the file, or 0
unfoldable pub mapped : Inode → Store → ℕ → ℕ
mapped ip s bn =
    if ltb bn ndirect
    then ip.addrs bn
    else if ip.addrs ndirect == 0
    then 0
    else word (s.blocks (ip.addrs ndirect)) (bn - ndirect)

module _ (sb : SuperBlock) where
  -- The block `b`, if it is not 0, is a block in use that is not of the free map.
  pub record IsHeld (b : ℕ) (s : Store) : Type 0 where
    pub far : b ≢ 0 → NotMap sb b
    pub inside : b ≢ 0 → b < sb.size
    pub used : b ≢ 0 → in_use sb s b ≡ true

  pub IsHeld-grown : (b ind : ℕ) (s s' : Store) → Grows sb ind s s' → IsHeld b s → IsHeld b s'
  IsHeld-grown b ind s s' g h = record {
    far = h.far;
    inside = h.inside;
    used = λ ne. g.uses b (h.inside ne) (h.used ne);
  }

  abbrev pub HasIndirect : Inode → Store → Type 0
  HasIndirect ip s = IsHeld (ip.addrs ndirect) s

  -- what `bmap` has done
  pub record Found (ip : Inode) (bn : ℕ) (s : Store) (a : ℕ) (ip' : Inode) (s' : Store)
      : Type 0 where
    pub value : mapped ip' s' bn ≡ a
    pub kept : mapped ip s bn ≢ 0 → a ≡ mapped ip s bn
    pub new :
        mapped ip s bn ≡ 0
        → a ≢ 0
        → (in_use sb s a ≡ false) × (a < sb.size) × (s'.blocks a ≡ zeros) × (in_use sb s' a ≡ true)
    pub others : (m : ℕ) → m ≢ bn → mapped ip' s' m ≡ mapped ip s m
    pub root :
        (b : ℕ) → b < sb.size → in_use sb s b ≡ true → b ≢ ip.addrs ndirect → b ≢ ip'.addrs ndirect
    pub off_root : mapped ip s bn ≡ 0 → a ≢ 0 → a ≢ ip'.addrs ndirect
    pub grows : Grows sb (ip.addrs ndirect) s s'
    pub indirect : HasIndirect ip' s'
    pub size : ip'.size ≡ ip.size
    pub inum : ip'.inum ≡ ip.inum

  -- Nothing was to be done.
  pub Found-same :
      (ip : Inode) (bn : ℕ) (s : Store) (a : ℕ)
      → HasMap sb s
      → HasIndirect ip s
      → a ≡ mapped ip s bn
      → Found ip bn s a ip s
  Found-same ip bn s a h ind e = record {
    value = sym e;
    kept = λ _. e;
    new = λ z ne. absurd (ne (e ∙ z));
    others = λ m ne. refl;
    root = λ b lt' u n. n;
    off_root = λ z ne. absurd (ne (e ∙ z));
    grows = Grows-refl sb (ip.addrs ndirect) s h;
    indirect = ind;
    size = refl;
    inum = refl;
  }

  abbrev pub with_slot : Inode → ℕ → ℕ → Inode
  with_slot ip j a = record ip { addrs = update ip.addrs j a }

  -- A block in use is not the fresh one.
  pub apart-Fresh :
      (s : Store) (a : ℕ) (s' : Store) (b : ℕ) → Fresh sb s a s' → in_use sb s b ≡ true → b ≢ a
  apart-Fresh s a s' b f used e =
      let free = f.was_free in
      let both : in_use sb s a ≡ true = ap (λ x. in_use sb s x) (sym e) ∙ used in
      ground (arith, both, free)

  -- a fresh block in direct slot `bn`
  pub Found-Fresh :
      (ip : Inode) (bn : ℕ) (s : Store) (a : ℕ) (s' : Store)
      → bn < ndirect
      → HasIndirect ip s
      → ip.addrs bn ≡ 0
      → Fresh sb s a s'
      → Found ip bn s a (with_slot ip bn a) s'
  unfolding mapped
  Found-Fresh ip bn s a s' lt ind z f =
      let same : ip.addrs ndirect ≢ 0 → s'.blocks (ip.addrs ndirect) ≡ s.blocks (ip.addrs ndirect) =
        λ ne.
          f.others (ip.addrs ndirect) (apart-Fresh s a s' (ip.addrs ndirect) f (ind.used ne))
            (ind.far ne a f.inside) in
      record {
        value = ground (arith, lt);
        kept = λ ne. absurd (ground (arith, lt, ne, z));
        new = λ _ _. (f.was_free, f.inside, f.zeroed, f.uses a f.inside ∙ ground arith);
        others = λ m ne. elim (Bool-cases (ip.addrs ndirect == 0)) [
          | inl none ↦ ground (arith, lt, ne, none)
          | inr there ↦ let q = same (ground (arith, there)) in ground (arith, lt, ne, there, q)
        ];
        root = λ b lt' u n. ground (arith, lt, n);
        off_root = λ _ nz. elim (Bool-cases (ip.addrs ndirect == 0)) [
          | inl none ↦ ground (arith, lt, none, nz)
          | inr there ↦
              let apart =
                apart-Fresh s a s' (ip.addrs ndirect) f (ind.used (ground (arith, there))) in
              ground (arith, lt, apart)
        ];
        grows = Grows-Fresh sb (ip.addrs ndirect) s a s' f;
        indirect =
            subst (λ x. IsHeld x s') (sym (update-ne ip.addrs bn ndirect a (omega (arith, lt))))
              (IsHeld-grown (ip.addrs ndirect) (ip.addrs ndirect) s s'
                (Grows-Fresh sb (ip.addrs ndirect) s a s' f) ind);
        size = refl;
        inum = refl;
      }

  ==-refl : (n : ℕ) → (n == n) ≡ true
  ==-refl n = ground arith

  pub Found-direct :
      (ip : Inode) (bn : ℕ) (s : Store) (a : ℕ) (s' : Store)
      → bn < ndirect
      → HasMap sb s
      → HasIndirect ip s
      → Looked sb (ip.addrs bn) s a s'
      → Found ip bn s a (if a == ip.addrs bn then ip else with_slot ip bn a) s'
  unfolding mapped
  Found-direct ip bn s a s' lt h ind (present old e same) =
      rw (same, e, ==-refl (ip.addrs bn))
        (Found-same ip bn s (ip.addrs bn) h ind (ground (arith, lt)))
  Found-direct ip bn s a s' lt h ind (full z e same) =
      rw (same, e, z) (Found-same ip bn s 0 h ind (ground (arith, lt, z)))
  Found-direct ip bn s a s' lt h ind (fresh z f) =
      let ne = f.nonzero in
      let differ : (a == ip.addrs bn) ≡ false = ground (arith, z, ne) in
      rw differ (Found-Fresh ip bn s a s' lt ind z f)

  -- the indirect block has been looked up, and is `ind`
  pub record Prepared (ip : Inode) (s : Store) (ind : ℕ) (ip1 : Inode) (s1 : Store) : Type 0 where
    pub addr : ip1.addrs ndirect ≡ ind
    pub keeps : (m : ℕ) → mapped ip1 s1 m ≡ mapped ip s m
    pub grows : Grows sb (ip.addrs ndirect) s s1
    pub held : IsHeld ind s1
    pub apart : (c : ℕ) → in_use sb s c ≡ true → c ≢ ip.addrs ndirect → c ≢ ind
    pub size : ip1.size ≡ ip.size
    pub inum : ip1.inum ≡ ip.inum

  pub Found-Prepared :
      (ip : Inode) (bn : ℕ) (s : Store) (ind : ℕ) (ip1 : Inode) (s1 : Store) (a : ℕ) (ip' : Inode)
      (s' : Store)
      → Prepared ip s ind ip1 s1
      → Found ip1 bn s1 a ip' s'
      → Found ip bn s a ip' s'
  Found-Prepared ip bn s ind ip1 s1 a ip' s' p f = record {
    value = f.value;
    kept = λ ne. f.kept (λ z. ne (sym (p.keeps bn) ∙ z)) ∙ p.keeps bn;
    new = λ z ne.
        let (free, lt, cleared, used) = f.new (p.keeps bn ∙ z) ne in
        let before = p.grows.uses a lt in (ground (arith, free, before), lt, cleared, used);
    others = λ m ne. f.others m ne ∙ p.keeps m;
    root = λ b lt u n. f.root b lt (p.grows.uses b lt u) (λ e. p.apart b u n (e ∙ p.addr));
    off_root = λ z ne. f.off_root (p.keeps bn ∙ z) ne;
    grows = record {
      has_map = f.grows.has_map;
      uses = λ c lt u. f.grows.uses c lt (p.grows.uses c lt u);
      frame = λ c lt u far ne.
          f.grows.frame c lt (p.grows.uses c lt u) far (λ e. p.apart c u ne (e ∙ p.addr))
          ∙ p.grows.frame c lt u far ne;
    };
    indirect = f.indirect;
    size = f.size ∙ p.size;
    inum = f.inum ∙ p.inum;
  }

  -- A new indirect block has no entries.
  pub fresh_indirect :
      (ip : Inode) (s : Store) (ind : ℕ) (s1 : Store) (m : ℕ)
      → ind ≢ 0
      → ip.addrs ndirect ≡ 0
      → s1.blocks ind ≡ zeros
      → mapped (with_slot ip ndirect ind) s1 m ≡ mapped ip s m
  unfolding mapped
  fresh_indirect ip s ind s1 m ne z e =
      let nothing : word (s1.blocks ind) (m - ndirect) ≡ 0 =
        rw e (word-zero zeros (m - ndirect) (λ k. refl)) in
      ground (arith, ne, z, nothing)

  pub Looked-Prepared :
      (ip : Inode) (s : Store) (ind : ℕ) (s1 : Store)
      → HasMap sb s
      → HasIndirect ip s
      → ind ≢ 0
      → Looked sb (ip.addrs ndirect) s ind s1
      → Prepared ip s ind (if ind == ip.addrs ndirect then ip else with_slot ip ndirect ind) s1
  Looked-Prepared ip s ind s1 h held ne (present old e same) =
      rw (same, e, ==-refl (ip.addrs ndirect))
        (record {
          addr = refl;
          keeps = λ m. refl;
          grows = Grows-refl sb (ip.addrs ndirect) s h;
          held = held;
          apart = λ c u n. n;
          size = refl;
          inum = refl;
        })
  Looked-Prepared ip s ind s1 h held ne (full z e same) = absurd (ne e)
  Looked-Prepared ip s ind s1 h held ne (fresh z f) =
      let differ : (ind == ip.addrs ndirect) ≡ false = ground (arith, z, ne) in
      rw differ (record {
        addr = update_self ip.addrs ndirect ind;
        keeps = λ m. fresh_indirect ip s ind s1 m ne z f.zeroed;
        grows = Grows-Fresh sb (ip.addrs ndirect) s ind s1 f;
        held = record {
          far = λ _. Fresh-NotMap sb s ind s1 h f;
          inside = λ _. f.inside;
          used = λ _. f.uses ind f.inside ∙ ground arith;
        };
        apart = λ c u n. apart-Fresh s ind s1 c f u;
        size = refl;
        inum = refl;
      })
