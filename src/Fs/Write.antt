-- ===== src/Fs/Write.antt =====
-- Files whose blocks are their own, and that bmap and writes to their blocks keep them so.
pub mod Loop
pub mod Laws
pub mod Logs
pub mod Logged
use xv6_riscv_private.Common.{
  ℕ, zero, suc, ◌+◌, ◌-◌, ◌*◌, ◌/◌, ◌%◌, ◌^◌, ◌≤◌, ◌<◌, ◌≡◌, ◌≢◌, refl, sym, ap, ◌∙◌, subst, Bool,
  true, false, ◌&&◌, ◌||◌, not, ◌==◌, ltb, leb, if◌then◌else◌, arith, Bool-cases, inl, inr,
  update_self, update-ne,
}
use xv6_riscv_private.Fs.{Data, bsize, SuperBlock, Store, put, bblock}
use xv6_riscv_private.Fs.Words.{word}
use xv6_riscv_private.Fs.Inode.{Inode, maxfile, ndirect, iblock}
use xv6_riscv_private.Fs.Blocks.{in_use, HasMap}
use xv6_riscv_private.Fs.Bmap.Slots.{NotMap, in_use-put, HasMap-put, Grows}
use xv6_riscv_private.Fs.Bmap.Found.{mapped, IsHeld, IsHeld-grown, HasIndirect, Found}
use xv6_riscv_private.Fs.Read.{file_byte}

module _ (sb : SuperBlock) where
  -- The blocks of the file are in use, no two of them are the same, and none is the file's indirect block, the block of
  -- its disk inode, or of the free map.
  pub record IsFile (ip : Inode) (s : Store) : Type 0 where
    pub map : HasMap sb s
    pub root : HasIndirect sb ip s
    pub held : (i : ℕ) → i < maxfile → IsHeld sb (mapped ip s i) s
    pub distinct :
        (i j : ℕ)
        → i < maxfile
        → j < maxfile
        → mapped ip s i ≢ 0
        → mapped ip s i ≡ mapped ip s j
        → i ≡ j
    pub off_root : (i : ℕ) → i < maxfile → mapped ip s i ≢ 0 → mapped ip s i ≢ ip.addrs ndirect
    pub node : iblock sb ip.inum ≢ 0
    pub node_held : IsHeld sb (iblock sb ip.inum) s
    pub off_node : (i : ℕ) → i < maxfile → mapped ip s i ≢ iblock sb ip.inum
    pub root_node : iblock sb ip.inum ≢ ip.addrs ndirect

  -- A free block is not of the map.
  free-NotMap : (s : Store) (a : ℕ) → HasMap sb s → in_use sb s a ≡ false → NotMap sb a
  free-NotMap s a h free c lt e =
      let used : in_use sb s a ≡ true = ap (λ x. in_use sb s x) e ∙ h.itself c lt in
      ground (arith, used, free)

  module _ (ip : Inode) (s : Store) (bn a : ℕ) (ip' : Inode) (s' : Store) (h : IsFile ip s)
      (lt : bn < maxfile) (f : Found sb ip bn s a ip' s') where
    -- The block was there already, is a new one, or there is none.
    here-IsHeld : IsHeld sb (mapped ip' s' bn) s'
    here-IsHeld =
        subst (λ x. IsHeld sb x s') (sym f.value)
          (elim (Bool-cases (mapped ip s bn == 0)) [
            | inr there ↦
                let old : mapped ip s bn ≢ 0 = ground (arith, there) in
                subst (λ x. IsHeld sb x s') (sym (f.kept old))
                  (IsHeld-grown sb (mapped ip s bn) (ip.addrs ndirect) s s' f.grows (h.held bn lt))
            | inl gap ↦
                let z : mapped ip s bn ≡ 0 = ground (arith, gap) in
                record {
                  far = λ ne. free-NotMap s a h.map (f.new z ne).0;
                  inside = λ ne. (f.new z ne).1;
                  used = λ ne. (f.new z ne).3;
                }
          ])

    -- A block in use other than the one found was not allocated.
    apart : (b : ℕ) → in_use sb s b ≡ true → mapped ip s bn ≢ b → mapped ip' s' bn ≡ b → b ≢ 0 → ⊥
    apart b used ne e nz = elim (Bool-cases (mapped ip s bn == 0)) [
      | inr there ↦ ne (sym (f.kept (ground (arith, there))) ∙ sym f.value ∙ e)
      | inl gap ↦
          let q : a ≡ b = sym f.value ∙ e in
          let free = (f.new (ground (arith, gap)) (λ z. nz (sym q ∙ z))).0 in
          let both : in_use sb s a ≡ true = ap (λ x. in_use sb s x) q ∙ used in
          ground (arith, free, both)
    ]

    other-ne :
        (j : ℕ) → j < maxfile → bn ≢ j → mapped ip' s' bn ≢ 0 → mapped ip' s' bn ≢ mapped ip' s' j
    other-ne j jl ne nz e =
        let was = f.others j (λ q. ne (sym q)) in
        let there : mapped ip s j ≢ 0 = λ z. nz (e ∙ was ∙ z) in
        apart (mapped ip s j) ((h.held j jl).used there)
          (λ q. ne (h.distinct bn j lt jl (λ z. there (sym q ∙ z)) q)) (e ∙ was) there

    here-off_root : mapped ip' s' bn ≢ 0 → mapped ip' s' bn ≢ ip'.addrs ndirect
    here-off_root nz = elim (Bool-cases (mapped ip s bn == 0)) [
      | inr there ↦
          let old : mapped ip s bn ≢ 0 = ground (arith, there) in
          let same : mapped ip' s' bn ≡ mapped ip s bn = f.value ∙ f.kept old in
          λ e.
            f.root (mapped ip s bn) ((h.held bn lt).inside old) ((h.held bn lt).used old)
              (h.off_root bn lt old) (sym same ∙ e)
      | inl gap ↦ λ e. f.off_root (ground (arith, gap)) (λ z. nz (f.value ∙ z)) (sym f.value ∙ e)
    ]

    here-off_node : mapped ip' s' bn ≢ iblock sb ip.inum
    here-off_node e =
        apart (iblock sb ip.inum) (h.node_held.used h.node) (h.off_node bn lt) e h.node

    same_node : iblock sb ip'.inum ≡ iblock sb ip.inum
    same_node = ap (iblock sb) f.inum

    -- A block that `bmap` finds or allocates keeps the file's blocks its own.
    pub bmap-IsFile : IsFile ip' s'
    bmap-IsFile = record {
      map = f.grows.has_map;
      root = f.indirect;
      held = λ m ml. elim (Bool-cases (bn == m)) [
        | inl e ↦ subst (λ x. IsHeld sb (mapped ip' s' x) s') (ground (arith, e)) here-IsHeld
        | inr e ↦
            subst (λ x. IsHeld sb x s') (sym (f.others m (ground (arith, e))))
              (IsHeld-grown sb (mapped ip s m) (ip.addrs ndirect) s s' f.grows (h.held m ml))
      ];
      distinct = λ i j il jl nz e. elim (Bool-cases (bn == i)) [
        | inl x ↦
            let q : bn ≡ i = ground (arith, x) in
            elim (Bool-cases (bn == j)) [
              | inl y ↦ sym q ∙ ground (arith, y)
              | inr y ↦ absurd (
                  other-ne j jl (ground (arith, y)) (λ z. nz (ap (mapped ip' s') (sym q) ∙ z))
                    (ap (mapped ip' s') q ∙ e))
            ]
        | inr x ↦ elim (Bool-cases (bn == j)) [
          | inl y ↦
              let q : bn ≡ j = ground (arith, y) in
              absurd (
                other-ne i il (ground (arith, x)) (λ z. nz (e ∙ ap (mapped ip' s') (sym q) ∙ z))
                  (ap (mapped ip' s') q ∙ sym e))
          | inr y ↦
              let oi = f.others i (ground (arith, x)) in
              let oj = f.others j (ground (arith, y)) in
              h.distinct i j il jl (λ z. nz (oi ∙ z)) (sym oi ∙ e ∙ oj)
        ]
      ];
      off_root = λ i il nz. elim (Bool-cases (bn == i)) [
        | inl x ↦
            subst (λ m. mapped ip' s' m ≢ 0 → mapped ip' s' m ≢ ip'.addrs ndirect)
              (ground (arith, x)) here-off_root nz
        | inr x ↦
            let o = f.others i (ground (arith, x)) in
            let old : mapped ip s i ≢ 0 = λ z. nz (o ∙ z) in
            λ e.
              f.root (mapped ip s i) ((h.held i il).inside old) ((h.held i il).used old)
                (h.off_root i il old) (sym o ∙ e)
      ];
      node = λ z. h.node (sym same_node ∙ z);
      node_held =
          subst (λ x. IsHeld sb x s') (sym same_node)
            (IsHeld-grown sb (iblock sb ip.inum) (ip.addrs ndirect) s s' f.grows h.node_held);
      off_node = λ i il e. elim (Bool-cases (bn == i)) [
        | inl x ↦ here-off_node (ap (mapped ip' s') (ground (arith, x)) ∙ e ∙ same_node)
        | inr x ↦ h.off_node i il (sym (f.others i (ground (arith, x))) ∙ e ∙ same_node)
      ];
      root_node = λ e.
          f.root (iblock sb ip.inum) (h.node_held.inside h.node) (h.node_held.used h.node)
            h.root_node (sym same_node ∙ e);
    }

    -- The contents of the blocks that the file had are as before.
    pub bmap-bytes :
        (i : ℕ)
        → i / bsize < maxfile
        → mapped ip s (i / bsize) ≢ 0
        → (mapped ip' s' (i / bsize) ≡ mapped ip s (i / bsize))
          × (file_byte ip' s' i ≡ file_byte ip s i)
    unfolding file_byte
    bmap-bytes i il nz =
        let b = i / bsize in
        let same : mapped ip' s' b ≡ mapped ip s b = elim (Bool-cases (bn == b)) [
          | inl x ↦
              let q : bn ≡ b = ground (arith, x) in
              ap (mapped ip' s') (sym q)
              ∙ f.value
              ∙ f.kept (λ z. nz (ap (mapped ip s) (sym q) ∙ z))
              ∙ ap (mapped ip s) q
          | inr x ↦ f.others b (ground (arith, x))
        ] in
        let held = h.held b il in
        let block =
          f.grows.frame (mapped ip s b) (held.inside nz) (held.used nz) (held.far nz)
            (h.off_root b il nz) in
        (same, ap (λ x. s'.blocks x (i % bsize)) same ∙ ap (λ d. d (i % bsize)) block)

  module _ (ip : Inode) (s : Store) (a : ℕ) (v : Data) (h : IsFile ip s) (far : NotMap sb a)
      (off : a ≢ ip.addrs ndirect) (pos : 0 < sb.size) where
    pub mapped-put : (m : ℕ) → mapped ip (put a v s) m ≡ mapped ip s m
    unfolding mapped put
    mapped-put m = ground (arith, off)

    IsHeld-put : (b : ℕ) → IsHeld sb b s → IsHeld sb b (put a v s)
    IsHeld-put b k = record {
      far = k.far;
      inside = k.inside;
      used = λ ne. in_use-put sb a v s far b (k.inside ne) ∙ k.used ne;
    }

    -- A change of a block that is neither of the free map nor the indirect block keeps the file's blocks its own.
    pub put-IsFile : IsFile ip (put a v s)
    put-IsFile = record {
      map = HasMap-put sb a v s pos far h.map;
      root = IsHeld-put (ip.addrs ndirect) h.root;
      held = λ i il.
          subst (λ x. IsHeld sb x (put a v s)) (sym (mapped-put i))
            (IsHeld-put (mapped ip s i) (h.held i il));
      distinct = λ i j il jl nz e.
          h.distinct i j il jl (λ z. nz (mapped-put i ∙ z)) (sym (mapped-put i) ∙ e ∙ mapped-put j);
      off_root = λ i il nz e. h.off_root i il (λ z. nz (mapped-put i ∙ z)) (sym (mapped-put i) ∙ e);
      node = h.node;
      node_held = IsHeld-put (iblock sb ip.inum) h.node_held;
      off_node = λ i il e. h.off_node i il (sym (mapped-put i) ∙ e);
      root_node = h.root_node;
    }

    -- The bytes in other blocks stay.
    pub put-bytes :
        (i : ℕ) → mapped ip s (i / bsize) ≢ a → file_byte ip (put a v s) i ≡ file_byte ip s i
    unfolding file_byte put
    put-bytes i ne =
        ap (λ x. (put a v s).blocks x (i % bsize)) (mapped-put (i / bsize))
        ∙ ap (λ d. d (i % bsize))
            (update-ne s.blocks a (mapped ip s (i / bsize)) v (λ e. ne (sym e)))

    pub put-here :
        (i : ℕ) → mapped ip s (i / bsize) ≡ a → file_byte ip (put a v s) i ≡ v (i % bsize)
    unfolding file_byte put
    put-here i e =
        ap (λ x. (put a v s).blocks x (i % bsize)) (mapped-put (i / bsize) ∙ e)
        ∙ ap (λ d. d (i % bsize)) (update_self s.blocks a v)
