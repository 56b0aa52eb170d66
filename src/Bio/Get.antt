-- ===== src/Bio/Get.antt =====
-- What bget returns: the buffer that caches the block, or else the one that was not used for longest.
use xv6_riscv_private.Common.{
  ℕ, ◌+◌, ◌-◌, ◌%◌, ◌^◌, ◌≤◌, ◌<◌, ◌≡◌, ◌≢◌, refl, sym, ap, ◌∙◌, subst, true, false, ◌==◌, update,
  Option, none, some, Outcome, ok, panic, arith, Bool-cases, inl, inr, ◌⊎◌,
}
use xv6_riscv_private.Bio.{nbuf, head, Buf, Cache, is_block, look, bget}
use xv6_riscv_private.Bio.Ring.{IsRing, First, found, missing, look-forth, IsRing-reverse}

-- No block is in two buffers. A device has another number than 0, which the buffers start with.
pub record AreUnique (buf : ℕ → Buf) : Type 0 where
  pub unique :
      (i j : ℕ)
      → i < nbuf
      → j < nbuf
      → (buf i).dev ≢ 0
      → (buf i).dev ≡ (buf j).dev
      → (buf i).blockno ≡ (buf j).blockno
      → i ≡ j

AreUnique-update :
    (buf : ℕ → Buf) (b : ℕ) (q : Buf)
    → AreUnique buf
    → ((j : ℕ) → j < nbuf → j ≢ b → is_block q.dev q.blockno (buf j) ≡ false)
    → AreUnique (update buf b q)
AreUnique-update buf b q h away = record {
  unique = λ i j il jl ne d n. elim (Bool-cases (b == i)) [
    | inl x ↦ elim (Bool-cases (b == j)) [
      | inl y ↦ ground (arith, x, y)
      | inr y ↦
          let out = away j jl (ground (arith, y)) in
          absurd (ground (arith, out, rw (x, y) at d, rw (x, y) at n))
    ]
    | inr x ↦ elim (Bool-cases (b == j)) [
      | inl y ↦
          let out = away i il (ground (arith, x)) in
          absurd (ground (arith, out, rw (x, y) at d, rw (x, y) at n))
      | inr y ↦ h.unique i j il jl (rw x at ne) (rw (x, y) at d) (rw (x, y) at n)
    ]
  ];
}

module _ (dev blockno : ℕ) (c : Cache) (node : ℕ → ℕ) where
  -- what a successful `bget` leaves
  pub record Got (b : ℕ) (c' : Cache) : Type 0 where
    pub inside : b < nbuf
    pub there : is_block dev blockno (c'.buf b) ≡ true
    pub others : (j : ℕ) → j ≢ b → c'.buf j ≡ c.buf j
    pub list : (c'.prev ≡ c.prev) × (c'.next ≡ c.next)
    pub unique : AreUnique c'.buf
    pub cached :
        is_block dev blockno (c.buf b) ≡ true
        → c'.buf b ≡ record (c.buf b) { refcnt = ((c.buf b).refcnt + 1) % 2 ^ 32 }
    pub recycled :
        is_block dev blockno (c.buf b) ≡ false
        → ((j : ℕ) → j < nbuf → is_block dev blockno (c.buf j) ≡ false)
          × ((c.buf b).refcnt ≡ 0)
          × ((c'.buf b).refcnt ≡ 1)
          × ((c'.buf b).valid ≡ false)
          × ((i : ℕ) × (0 < i)
              × (i ≤ nbuf)
              × (node i ≡ b)
              × ((j : ℕ) → i < j → j ≤ nbuf → (c.buf (node j)).refcnt ≢ 0))

  Got-cached :
      (b : ℕ)
      → b < nbuf
      → dev ≢ 0
      → AreUnique c.buf
      → is_block dev blockno (c.buf b) ≡ true
      → Got b (record c {
        buf = update c.buf b (record (c.buf b) { refcnt = ((c.buf b).refcnt + 1) % 2 ^ 32 });
      })
  Got-cached b lt ne h here = record {
    inside = lt;
    there = ground (arith, here);
    others = λ j away. ground (arith, away);
    list = (refl, refl);
    unique =
        AreUnique-update c.buf b (record (c.buf b) { refcnt = ((c.buf b).refcnt + 1) % 2 ^ 32 }) h
          (λ j jl away. elim (Bool-cases (is_block (c.buf b).dev (c.buf b).blockno (c.buf j))) [
            | inr out ↦ out
            | inl same ↦ absurd (
                away (
                  h.unique j b jl lt (ground (arith, here, same, ne)) (ground (arith, same))
                    (ground (arith, same))))
          ]);
    cached = λ _. ground arith;
    recycled = λ out. absurd (ground (arith, here, out));
  }

  Got-recycled :
      (i : ℕ)
      → 0 < i
      → i ≤ nbuf
      → IsRing c.prev c.next node
      → AreUnique c.buf
      → ((j : ℕ) → j < nbuf → is_block dev blockno (c.buf j) ≡ false)
      → (c.buf (node i)).refcnt ≡ 0
      → ((j : ℕ) → i < j → j ≤ nbuf → (c.buf (node j)).refcnt ≢ 0)
      → Got (node i) (record c {
        buf =
            update c.buf
              (node i)
              (record (c.buf (node i)) { dev = dev; blockno = blockno; valid = false; refcnt = 1 });
      })
  Got-recycled i pos le r h away unused later = record {
    inside = r.small i pos le;
    there = ground arith;
    others = λ j ne. ground (arith, ne);
    list = (refl, refl);
    unique =
        AreUnique-update c.buf (node i)
          (record (c.buf (node i)) { dev = dev; blockno = blockno; valid = false; refcnt = 1 }) h
          (λ j jl _. away j jl);
    cached = λ here. absurd (ground (arith, here, away (node i) (r.small i pos le)));
    recycled = λ _. (away, unused, ground arith, ground arith, (i, pos, le, refl, later));
  }

  -- no buffer caches the block
  away_lem :
      IsRing c.prev c.next node
      → ((j : ℕ) → 1 ≤ j → j ≤ nbuf → is_block dev blockno (c.buf (node j)) ≡ false)
      → (b : ℕ) → b < nbuf
      → is_block dev blockno (c.buf b) ≡ false
  away_lem r all b lt =
      let (k, pos, le, e) = r.every b lt in
      subst (λ x. is_block dev blockno (c.buf x) ≡ false) e (all k pos le)

  abbrev pub Outcomes : Outcome (ℕ × Cache) → Type 0
  Outcomes out =
      ((b : ℕ) × (c' : Cache) × (out ≡ ok (b, c')) × Got b c')
      ⊎ ((out ≡ panic)
          × ((b : ℕ)
              → b < nbuf
              → (is_block dev blockno (c.buf b) ≡ false) × ((c.buf b).refcnt ≢ 0)))

  search_cached :
      (r : IsRing c.prev c.next node)
      → (o : Option ℕ) × (look (is_block dev blockno) c.next (nbuf + 1) (c.next head) c.buf ≡ ok o)
        × First c.prev c.next node c.buf (is_block dev blockno) r 1 o
  search_cached r =
      let front : c.next head ≡ node 1 = ap c.next (sym r.start) ∙ r.forth 0 (omega arith) in
      let (o, e, first) =
        look-forth c.prev c.next node c.buf (is_block dev blockno) r (nbuf + 1) 1 (omega arith) refl
          (omega arith) in
      (o, ap (λ x. look (is_block dev blockno) c.next (nbuf + 1) x c.buf) front ∙ e, first)

  search_unused :
      (r : IsRing c.prev c.next node)
      → (o : Option ℕ) × (look (λ b. b.refcnt == 0) c.prev (nbuf + 1) (c.prev head) c.buf ≡ ok o)
        × First c.next c.prev
            (λ k. node (nbuf + 1 - k))
            c.buf
            (λ b. b.refcnt == 0)
            (IsRing-reverse c.prev c.next node r)
            1
            o
  search_unused r =
      let rear : c.prev head ≡ node nbuf = ap c.prev (sym r.end) ∙ r.back nbuf (omega arith) in
      let (o, e, first) =
        look-forth c.next c.prev (λ k. node (nbuf + 1 - k)) c.buf (λ b. b.refcnt == 0)
          (IsRing-reverse c.prev c.next node r) (nbuf + 1) 1 (omega arith) refl (omega arith) in
      (o, ap (λ x. look (λ b. b.refcnt == 0) c.prev (nbuf + 1) x c.buf) rear ∙ e, first)

  resolve_unused :
      (r : IsRing c.prev c.next node) (o : Option ℕ)
      → AreUnique c.buf
      → look (is_block dev blockno) c.next (nbuf + 1) (c.next head) c.buf ≡ ok none
      → ((b : ℕ) → b < nbuf → is_block dev blockno (c.buf b) ≡ false)
      → look (λ b. b.refcnt == 0) c.prev (nbuf + 1) (c.prev head) c.buf ≡ ok o
      → First c.next c.prev
          (λ k. node (nbuf + 1 - k))
          c.buf
          (λ b. b.refcnt == 0)
          (IsRing-reverse c.prev c.next node r)
          1
          o
      → Outcomes (bget dev blockno c)
  unfolding bget
  resolve_unused r (some b) h e away e' (found i lo hi hit before) = inl (
    node (nbuf + 1 - i),
    _,
    rw (e, e') refl,
    Got-recycled (nbuf + 1 - i) (omega (arith, hi)) (omega (arith, lo)) r h away
        (ground (arith, hit))
        (λ j jl jh.
          let later = before (nbuf + 1 - j) (omega (arith, jh)) (omega (arith, jl, jh)) in
          let same : node (nbuf + 1 - (nbuf + 1 - j)) ≡ node j = ap node (omega (arith, jh)) in
          ground (arith, rw same at later)),
  )
  resolve_unused r none h e away e' (missing all) = inr (
    rw (e, e') refl,
    λ b lt. (
      away b lt,
      let (k, pos, le, at) = r.every b lt in
          let out = all (nbuf + 1 - k) (omega (arith, le)) (omega (arith, pos)) in
          let same : node (nbuf + 1 - (nbuf + 1 - k)) ≡ b = ap node (omega (arith, le)) ∙ at in
          ground (arith, rw same at out),
    ),
  )

  resolve :
      (r : IsRing c.prev c.next node) (o : Option ℕ)
      → dev ≢ 0
      → AreUnique c.buf
      → look (is_block dev blockno) c.next (nbuf + 1) (c.next head) c.buf ≡ ok o
      → First c.prev c.next node c.buf (is_block dev blockno) r 1 o
      → Outcomes (bget dev blockno c)
  unfolding bget
  resolve r (some b) ne h e (found i lo hi hit before) =
      inl (node i, _, rw e refl, Got-cached (node i) (r.small i lo hi) ne h hit)
  resolve r none ne h e (missing all) =
      let (o, e', first) = search_unused r in resolve_unused r o h e (away_lem r all) e' first

  -- In a cache whose list holds every buffer and where no block is in two of them, `bget` ends. It returns the buffer
  -- of the block with a reference more, if there is one. If not, it gives the block, with one reference
  -- and no contents yet, the unreferenced buffer that is last in the list. No other buffer and no place in the list changes, and
  -- no block gets a second buffer. It panics exactly when the block is in no buffer and all have references.
  pub bget_lem :
      IsRing c.prev c.next node → dev ≢ 0 → AreUnique c.buf → Outcomes (bget dev blockno c)
  bget_lem r ne h = let (o, e, first) = search_cached r in resolve r o ne h e first
