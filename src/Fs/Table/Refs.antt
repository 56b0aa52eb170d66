-- ===== src/Fs/Table/Refs.antt =====
-- What iget does to the table: an inode has one entry at most.
use xv6_riscv_private.Common.{
  ℕ, zero, suc, ◌+◌, ◌<◌, ◌≡◌, ◌≢◌, refl, sym, ap, ◌∙◌, subst, true, false, ◌==◌, update,
  update_self, update-ne, Option, none, some, Outcome, ok, panic, ℤ, pos, negsuc, inc, is_positive,
  arith, Bool-cases, inl, inr, ◌⊎◌,
}
use xv6_riscv_private.Fs.Inode.{Inode}
use xv6_riscv_private.Fs.Table.{Table, ninode, is_at, is_zero_ref, recycle, note, iget_loop, iget}

-- what `iget` has done: found the entry, taken the free one `e`, or found neither
data Got (dev inum : ℕ) (t : Table) (r : Outcome (ℕ × Table)) : Type 0 where
  hit :
      (i : ℕ)
      → i < ninode
      → is_at dev inum (t i) ≡ true
      → r ≡ ok (i, update t i (record (t i) { ref = inc (t i).ref }))
      → Got dev inum t r
  taken :
      (e : ℕ)
      → e < ninode
      → is_zero_ref (t e).ref ≡ true
      → ((j : ℕ) → j < ninode → is_at dev inum (t j) ≡ false)
      → r ≡ ok (e, update t e (record (t e) { dev = dev; inum = inum; ref = pos 1; valid = false }))
      → Got dev inum t r
  full :
      ((j : ℕ) → j < ninode → (is_at dev inum (t j) ≡ false) × (is_zero_ref (t j).ref ≡ false))
      → r ≡ panic
      → Got dev inum t r

-- the `empty` of the loop, when the first `i` entries were looked at
Noted : Table → ℕ → Option ℕ → Type 0
Noted t i none = (j : ℕ) → j < i → is_zero_ref (t j).ref ≡ false
Noted t i (some e) = (e < i) × (is_zero_ref (t e).ref ≡ true)

recycle-Got :
    (dev inum : ℕ) (t : Table) (empty : Option ℕ)
    → ((j : ℕ) → j < ninode → is_at dev inum (t j) ≡ false)
    → Noted t ninode empty
    → Got dev inum t (recycle empty dev inum t)
unfolding recycle Noted
recycle-Got dev inum t none away h = full (λ j lt. (away j lt, h j lt)) refl
recycle-Got dev inum t (some e) away h = taken e h.0 h.1 away refl

note-Noted :
    (t : Table) (i : ℕ) (empty : Option ℕ) → Noted t i empty → Noted t (i + 1) (note t i empty)
unfolding Noted note
note-Noted t i (some e) h = (omega (arith, h.0), h.1)
note-Noted t i none h = elim (Bool-cases (is_zero_ref (t i).ref)) [
  | inl z ↦ rw z (omega arith, z)
  | inr z ↦ rw z (λ j lt. elim (Bool-cases (j == i)) [
    | inl same ↦ ap (λ x. is_zero_ref (t x).ref) (ground (arith, same)) ∙ z
    | inr other ↦ h j (ground (arith, other, lt))
  ])
]

iget_loop-Got :
    (n i : ℕ) (dev inum : ℕ) (t : Table) (empty : Option ℕ)
    → i + n ≡ ninode
    → ((j : ℕ) → j < i → is_at dev inum (t j) ≡ false)
    → Noted t i empty
    → Got dev inum t (iget_loop n i empty dev inum t)
unfolding iget_loop
iget_loop-Got zero i dev inum t empty e away h =
    recycle-Got dev inum t empty (λ j lt. away j (omega (arith, e, lt)))
      (subst (λ x. Noted t x empty) (omega (arith, e)) h)
iget_loop-Got (suc n) i dev inum t empty e away h = elim (Bool-cases (is_at dev inum (t i))) [
  | inl found ↦ hit i (omega (arith, e)) found (rw found refl)
  | inr miss ↦
      let rest =
        iget_loop-Got n (i + 1) dev inum t (note t i empty) (omega (arith, e))
          (λ j lt. elim (Bool-cases (j == i)) [
            | inl same ↦ ap (λ x. is_at dev inum (t x)) (ground (arith, same)) ∙ miss
            | inr other ↦ away j (ground (arith, other, lt))
          ])
          (note-Noted t i empty h) in
      rw miss rest
]

-- No inode has two entries with references.
pub record AreUnique (t : Table) : Type 0 where
  pub unique :
      (i j : ℕ)
      → i < ninode
      → j < ninode
      → is_positive (t i).ref ≡ true
      → is_positive (t j).ref ≡ true
      → (t i).dev ≡ (t j).dev
      → (t i).inum ≡ (t j).inum
      → i ≡ j

-- what a successful `iget` leaves: a reference more to the entry `i`, and the others as they were
pub record Holds (dev inum : ℕ) (t : Table) (i : ℕ) (t' : Table) : Type 0 where
  pub inside : i < ninode
  pub there : is_at dev inum (t' i) ≡ true
  pub others : (j : ℕ) → j ≢ i → t' j ≡ t j
  pub old : is_positive (t i).ref ≡ true → t' i ≡ record (t i) { ref = inc (t i).ref }
  pub new : is_positive (t i).ref ≡ false → ((t' i).ref ≡ pos 1) × ((t' i).valid ≡ false)
  pub unique : AreUnique t'

inc-is_positive : (r : ℤ) → is_positive r ≡ true → is_positive (inc r) ≡ true
inc-is_positive (pos n) h = ground arith
inc-is_positive (negsuc n) h = cc

zero_ref-is_positive : (r : ℤ) → is_zero_ref r ≡ true → is_positive r ≡ false
zero_ref-is_positive (pos n) h = ground arith
zero_ref-is_positive (negsuc n) h = refl

-- Replacing an entry keeps the entries unique if no other has the new one's inode.
AreUnique-update :
    (t : Table) (i : ℕ) (ip : Inode)
    → AreUnique t
    → ((j : ℕ) → j < ninode → j ≢ i → is_at ip.dev ip.inum (t j) ≡ false)
    → AreUnique (update t i ip)
AreUnique-update t i ip h apart = record {
  unique = λ j k jl kl p q e f. elim (Bool-cases (i == j)) [
    | inl x ↦ elim (Bool-cases (i == k)) [
      | inl y ↦ ground (arith, x, y)
      | inr y ↦ absurd (
          let away = apart k kl (ground (arith, y)) in
          ground (arith, away, rw y at q, rw (x, y) at e, rw (x, y) at f))
    ]
    | inr x ↦ elim (Bool-cases (i == k)) [
      | inl y ↦ absurd (
          let away = apart j jl (ground (arith, x)) in
          ground (arith, away, rw x at p, rw (x, y) at e, rw (x, y) at f))
      | inr y ↦ h.unique j k jl kl (rw x at p) (rw y at q) (rw (x, y) at e) (rw (x, y) at f)
    ]
  ];
}

alone :
    (t : Table) (i j : ℕ)
    → AreUnique t
    → i < ninode
    → j < ninode
    → is_positive (t i).ref ≡ true
    → j ≢ i
    → is_at (t i).dev (t i).inum (t j) ≡ false
alone t i j h il jl live ne = elim (Bool-cases (is_at (t i).dev (t i).inum (t j))) [
  | inr away ↦ away
  | inl at ↦ absurd (
      ne (
        sym
          (h.unique i j il jl live (ground (arith, at)) (ground (arith, at)) (ground (arith, at)))))
]

hit-Holds :
    (dev inum : ℕ) (t : Table) (i : ℕ)
    → i < ninode
    → is_at dev inum (t i) ≡ true
    → AreUnique t
    → Holds dev inum t i (update t i (record (t i) { ref = inc (t i).ref }))
hit-Holds dev inum t i lt here h =
    let ip = record (t i) { ref = inc (t i).ref } in
    let live : is_positive (t i).ref ≡ true = ground (arith, here) in
    let still = inc-is_positive (t i).ref live in
    let self = update_self t i ip in
    record {
      inside = lt;
      there = rw self (ground (arith, still, here));
      others = λ j ne. update-ne t i j ip (λ e. ne (sym e));
      old = λ _. self;
      new = λ dead. absurd (ground (arith, live, dead));
      unique = AreUnique-update t i ip h (λ j jl ne. alone t i j h lt jl live ne);
    }

taken-Holds :
    (dev inum : ℕ) (t : Table) (i : ℕ)
    → i < ninode
    → is_zero_ref (t i).ref ≡ true
    → ((j : ℕ) → j < ninode → is_at dev inum (t j) ≡ false)
    → AreUnique t
    → Holds dev inum t i
        (update t i (record (t i) { dev = dev; inum = inum; ref = pos 1; valid = false }))
taken-Holds dev inum t i lt free away h =
    let ip : Inode = record (t i) { dev = dev; inum = inum; ref = pos 1; valid = false } in
    let self = update_self t i ip in
    let dead = zero_ref-is_positive (t i).ref free in
    record {
      inside = lt;
      there = rw self (ground arith);
      others = λ j ne. update-ne t i j ip (λ e. ne (sym e));
      old = λ live. absurd (ground (arith, live, dead));
      new = λ _. rw self (refl, refl);
      unique = AreUnique-update t i ip h (λ j jl _. away j jl);
    }

-- In a table where no inode has two entries, `iget` returns an entry of the inode, with one reference more
-- than before or, if the entry was free, with one reference and not valid; it changes no other entry,
-- and no inode gets a second entry. It panics exactly when the inode has no entry and none is free.
pub iget_lem :
    (dev inum : ℕ) (t : Table)
    → AreUnique t
    → ((i : ℕ) × (t' : Table) × (iget dev inum t ≡ ok (i, t')) × Holds dev inum t i t')
      ⊎ ((iget dev inum t ≡ panic)
          × ((j : ℕ)
              → j < ninode
              → (is_at dev inum (t j) ≡ false) × (is_zero_ref (t j).ref ≡ false)))
unfolding iget Noted
iget_lem dev inum t h =
    elim (iget_loop-Got ninode 0 dev inum t none refl (λ j lt. absurd (omega arith))
      (λ j lt. absurd (omega arith))) [
        | full all e ↦ inr (e, all)
        | hit i lt here e ↦ inl (
          i,
          update t i (record (t i) { ref = inc (t i).ref }),
          e,
          hit-Holds dev inum t i lt here h,
        )
        | taken i lt free away e ↦ inl (
          i,
          update t i (record (t i) { dev = dev; inum = inum; ref = pos 1; valid = false }),
          e,
          taken-Holds dev inum t i lt free away h,
        )
      ]
