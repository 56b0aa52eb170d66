-- ===== src/Fs/Inode/Layout.antt =====
-- The layout of `struct dinode` in a block: what iupdate writes is what ilock reads.
use xv6_riscv_private.Common.{
  ℕ, zero, suc, ◌+◌, ◌-◌, ◌*◌, ◌/◌, ◌%◌, ◌^◌, ◌≤◌, ◌<◌, ◌≡◌, ◌≢◌, refl, sym, ap, ◌∙◌, ◌&&◌, ◌==◌,
  ltb, leb, update_self, update-ne, if◌then◌else◌, arith, Bool-cases, ◌⊎◌, inl, inr, subst, true,
  false, is_positive, Outcome, ok, panic,
}
use xv6_riscv_private.Fs.{Data, SuperBlock, Store, put}
use xv6_riscv_private.Fs.Words.{
  word, set_word, half, set_half, word-set_word, half-set_half, half-set_word, word-set_half,
}
use xv6_riscv_private.Fs.Inode.{
  Inode, ndirect, set_words, store_dinode, load_dinode, ipb, iblock, iupdate, ilock,
}

set_words-word :
    (n base i : ℕ) (f : ℕ → ℕ) (d : Data) (j : ℕ)
    → ((m : ℕ) → m < i + n → f m < 2 ^ 32)
    → word (set_words n base i f d) j
      ≡ (if leb (base + i) j && ltb j (base + i + n) then f (j - base) else word d j)
unfolding set_words
set_words-word zero base i f d j h = ground arith
set_words-word (suc n) base i f d j h =
    let this = word-set_word d (base + i) (f i) j (h i (omega arith)) in
    let rest =
      set_words-word n base (i + 1) f (set_word d (base + i) (f i)) j (λ m lt. h m (omega arith)) in
    elim (Bool-cases (base + i == j)) [
      | inl e ↦
          let q : f i ≡ f (j - base) = ap f (ground (arith, e)) in ground (arith, e, this, rest, q)
      | inr e ↦ ground (arith, e, this, rest)
    ]

set_words-half :
    (n base i : ℕ) (f : ℕ → ℕ) (d : Data) (j : ℕ)
    → (j / 2 < base + i) ⊎ (base + i + n ≤ j / 2)
    → half (set_words n base i f d) j ≡ half d j
unfolding set_words
set_words-half zero base i f d j h = refl
set_words-half (suc n) base i f d j h =
    set_words-half n base (i + 1) f (set_word d (base + i) (f i)) j (ground (arith, h))
    ∙ half-set_word d (base + i) (f i) j (ground (arith, h))

-- The fields fit in their shorts and words.
pub record IsSmall (ip : Inode) : Type 0 where
  pub type : ip.type < 2 ^ 16
  pub major : ip.major < 2 ^ 16
  pub minor : ip.minor < 2 ^ 16
  pub nlink : ip.nlink < 2 ^ 16
  pub size : ip.size < 2 ^ 32
  pub addrs : (i : ℕ) → i ≤ ndirect → ip.addrs i < 2 ^ 32

-- Both inodes have the same copy of the disk inode.
pub record SameDisk (p q : Inode) : Type 0 where
  pub type : p.type ≡ q.type
  pub major : p.major ≡ q.major
  pub minor : p.minor ≡ q.minor
  pub nlink : p.nlink ≡ q.nlink
  pub size : p.size ≡ q.size
  pub addrs : (i : ℕ) → i ≤ ndirect → p.addrs i ≡ q.addrs i

module _ (k : ℕ) (ip : Inode) (d : Data) (h : IsSmall ip) where
  store-half :
      (j : ℕ)
      → j % 32 < 4
      → half (store_dinode k ip d) j ≡ (
          if 32 * k + 3 == j
          then ip.nlink
          else if 32 * k + 2 == j
          then ip.minor
          else if 32 * k + 1 == j
          then ip.major
          else if 32 * k == j
          then ip.type
          else half d j)
  unfolding store_dinode
  store-half j lt =
      let d1 = set_half d (32 * k) ip.type in
      let d2 = set_half d1 (32 * k + 1) ip.major in
      let d3 = set_half d2 (32 * k + 2) ip.minor in
      let d4 = set_half d3 (32 * k + 3) ip.nlink in
      let d5 = set_word d4 (16 * k + 2) ip.size in
      let far : (j / 2 < 16 * k + 3 + 0) ⊎ (16 * k + 3 + 0 + 13 ≤ j / 2) = ground (arith, lt) in
      let e5 = set_words-half 13 (16 * k + 3) 0 ip.addrs d5 j far in
      let e4 = half-set_word d4 (16 * k + 2) ip.size j (omega (arith, lt)) in
      e5
      ∙ e4
      ∙ rw
          (
            half-set_half d3 (32 * k + 3) ip.nlink j h.nlink,
            half-set_half d2 (32 * k + 2) ip.minor j h.minor,
            half-set_half d1 (32 * k + 1) ip.major j h.major,
            half-set_half d (32 * k) ip.type j h.type,
          )
          refl

  store-word :
      (j : ℕ)
      → 2 ≤ j % 16
      → word (store_dinode k ip d) j ≡ (
          if leb (16 * k + 3) j && ltb j (16 * k + 16)
          then ip.addrs (j - (16 * k + 3))
          else if 16 * k + 2 == j
          then ip.size
          else word d j)
  unfolding store_dinode
  store-word j lo =
      let d1 = set_half d (32 * k) ip.type in
      let d2 = set_half d1 (32 * k + 1) ip.major in
      let d3 = set_half d2 (32 * k + 2) ip.minor in
      let d4 = set_half d3 (32 * k + 3) ip.nlink in
      let d5 = set_word d4 (16 * k + 2) ip.size in
      let e5 = set_words-word 13 (16 * k + 3) 0 ip.addrs d5 j (λ m lt. h.addrs m (omega arith)) in
      let e4 = word-set_word d4 (16 * k + 2) ip.size j h.size in
      let old : word d4 j ≡ word d j =
        word-set_half d3 (32 * k + 3) ip.nlink j (omega (arith, lo))
        ∙ word-set_half d2 (32 * k + 2) ip.minor j (omega (arith, lo))
        ∙ word-set_half d1 (32 * k + 1) ip.major j (omega (arith, lo))
        ∙ word-set_half d (32 * k) ip.type j (omega (arith, lo)) in
      ground (arith, e5, e4, old)

  pub load-store : (ip' : Inode) → SameDisk (load_dinode k (store_dinode k ip d) ip') ip
  unfolding load_dinode
  load-store ip' = record {
    type = rw (store-half (32 * k) (omega arith)) (ground arith);
    major = rw (store-half (32 * k + 1) (omega arith)) (ground arith);
    minor = rw (store-half (32 * k + 2) (omega arith)) (ground arith);
    nlink = rw (store-half (32 * k + 3) (omega arith)) (ground arith);
    size = rw (store-word (16 * k + 2) (omega arith)) (ground arith);
    addrs = λ i le.
        let q : ip.addrs (16 * k + 3 + i - (16 * k + 3)) ≡ ip.addrs i =
          ap (λ x. ip.addrs x) (omega arith) in
        ground (arith, store-word (16 * k + 3 + i) (omega (arith, le)), le, q);
  }

  pub load-store_other :
      (k' : ℕ) (ip' : Inode)
      → k' ≢ k
      → SameDisk (load_dinode k' (store_dinode k ip d) ip') (load_dinode k' d ip')
  unfolding load_dinode
  load-store_other k' ip' ne = record {
    type = ground (arith, store-half (32 * k') (omega arith), ne);
    major = ground (arith, store-half (32 * k' + 1) (omega arith), ne);
    minor = ground (arith, store-half (32 * k' + 2) (omega arith), ne);
    nlink = ground (arith, store-half (32 * k' + 3) (omega arith), ne);
    size = ground (arith, store-word (16 * k' + 2) (omega arith), ne);
    addrs = λ i le. ground (arith, store-word (16 * k' + 3 + i) (omega (arith, le)), ne, le);
  }

-- what is read of the disk inodes after `iupdate`
load-iupdate :
    (sb : SuperBlock) (ip ip' : Inode) (s : Store) (i : ℕ)
    → IsSmall ip
    → SameDisk (load_dinode (ip.inum % ipb) ((iupdate sb ip s).blocks (iblock sb ip.inum)) ip') ip
      × (i ≢ ip.inum
          → SameDisk
              (load_dinode (i % ipb) ((iupdate sb ip s).blocks (iblock sb i)) ip')
              (load_dinode (i % ipb) (s.blocks (iblock sb i)) ip'))
unfolding iupdate put
load-iupdate sb ip ip' s i h =
    let k = ip.inum % ipb in
    let b = iblock sb ip.inum in
    let written = store_dinode k ip (s.blocks b) in
    (
      rw (update_self s.blocks b written) (load-store k ip (s.blocks b) h ip'),
      λ ne. elim (Bool-cases (b == iblock sb i)) [
        | inl e ↦
            let q : b ≡ iblock sb i = ground (arith, e) in
            rw (sym q) (
              rw (update_self s.blocks b written)
                (load-store_other k ip (s.blocks b) h (i % ipb) ip' (ground (arith, q, ne))))
        | inr e ↦
            let q : b ≢ iblock sb i = ground (arith, e) in
            rw (update-ne s.blocks b (iblock sb i) written q) (record {
              type = refl;
              major = refl;
              minor = refl;
              nlink = refl;
              size = refl;
              addrs = λ j le. refl;
            })
      ],
    )

-- `ilock` reads a disk inode that has a type, and panics on one that is free.
ilock-eq :
    (sb : SuperBlock) (e : Inode) (s : Store)
    → is_positive e.ref ≡ true
    → e.valid ≡ false
    → (let read = load_dinode (e.inum % ipb) (s.blocks (iblock sb e.inum)) e in
        ilock sb e s ≡ (if read.type == 0 then panic else ok (record read { valid = true })))
unfolding ilock load_dinode
ilock-eq sb e s ref fresh =
    let read = load_dinode (e.inum % ipb) (s.blocks (iblock sb e.inum)) e in
    elim (Bool-cases (read.type == 0)) [
      | inl z ↦ rw (ref, fresh, z) refl
      | inr z ↦ rw (ref, fresh, z) refl
    ]

-- Both have failed, or both have read the same disk inode.
pub data Alike : Outcome Inode → Outcome Inode → Type 0 where
  failed : Alike panic panic
  read : (a b : Inode) → SameDisk a b → Alike (ok a) (ok b)

loaded-Alike :
    (a b : Inode)
    → SameDisk a b
    → Alike
        (if a.type == 0 then panic else ok (record a { valid = true }))
        (if b.type == 0 then panic else ok (record b { valid = true }))
loaded-Alike a b same =
    let t = same.type in
    let both : (a.type == 0) ≡ (b.type == 0) = ap (λ x. x == 0) t in
    elim (Bool-cases (b.type == 0)) [
      | inl z ↦ rw (both, z) failed
      | inr z ↦
          rw (both, z)
            (read (record a { valid = true }) (record b { valid = true })
              record {
                type = same.type;
                major = same.major;
                minor = same.minor;
                nlink = same.nlink;
                size = same.size;
                addrs = same.addrs;
              })
    ]

-- After `iupdate` of an inode whose fields fit in those of the disk, take an entry of the inode table that is referenced
-- and not valid, and lock it. If it is for the same inode and that has a type, `ilock` returns the type, device
-- numbers, link count, size and block addresses that `iupdate` wrote; if it has no type, `ilock` panics. If the
-- entry is for another inode, `ilock` panics, or reads the same, as before the `iupdate`.
pub iupdate_lem :
    (sb : SuperBlock) (ip e : Inode) (s : Store)
    → IsSmall ip
    → is_positive e.ref ≡ true
    → e.valid ≡ false
    → (e.inum ≡ ip.inum
        → (ip.type ≡ 0 → ilock sb e (iupdate sb ip s) ≡ panic)
          × (ip.type ≢ 0
              → (l : Inode) × (ilock sb e (iupdate sb ip s) ≡ ok l)
                × SameDisk l ip
                × (l.valid ≡ true)))
      × (e.inum ≢ ip.inum → Alike (ilock sb e (iupdate sb ip s)) (ilock sb e s))
iupdate_lem sb ip e s small ref fresh =
    let after = ilock-eq sb e (iupdate sb ip s) ref fresh in
    let l = load_dinode (e.inum % ipb) ((iupdate sb ip s).blocks (iblock sb e.inum)) e in
    (
      λ same.
          let disk : SameDisk l ip =
            subst
              (λ x. SameDisk (load_dinode (x % ipb) ((iupdate sb ip s).blocks (iblock sb x)) e) ip)
              (sym same) (load-iupdate sb ip e s 0 small).0 in
          let t = disk.type in
          (
            λ none.
                let z : (l.type == 0) ≡ true = ground (arith, t, none) in
                after ∙ ap (λ x. if x then panic else ok (record l { valid = true })) z,
            λ some_type.
                let z : (l.type == 0) ≡ false = ground (arith, t, some_type) in
                (
                  record l { valid = true },
                  after ∙ ap (λ x. if x then panic else ok (record l { valid = true })) z,
                  record {
                    type = disk.type;
                    major = disk.major;
                    minor = disk.minor;
                    nlink = disk.nlink;
                    size = disk.size;
                    addrs = disk.addrs;
                  },
                  refl,
                ),
          ),
      λ other.
          let b = load_dinode (e.inum % ipb) (s.blocks (iblock sb e.inum)) e in
          subst (λ x. Alike x (ilock sb e s)) (sym after)
            (subst (λ x. Alike (if l.type == 0 then panic else ok (record l { valid = true })) x)
              (sym (ilock-eq sb e s ref fresh))
              (loaded-Alike l b ((load-iupdate sb ip e s e.inum small).1 other))),
    )
