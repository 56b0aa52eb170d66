-- ===== src/Bio/Release.antt =====
-- What brelse and binit do to the list.
use xv6_riscv_private.Common.{
  ℕ, ◌+◌, ◌-◌, ◌^◌, ◌≤◌, ◌<◌, ◌≡◌, ◌≢◌, refl, true, false, ◌==◌, if◌then◌else◌, update, ok, panic,
  arith, Bool-cases, inl, inr, every_below, every_below_sound,
}
use xv6_riscv_private.Bio.{nbuf, head, Cache, push_front, unlink, unref, brelse, binit, init_loop}
use xv6_riscv_private.Bio.Sleeplock.{releasesleep, holdingsleep}
use xv6_riscv_private.Bio.Ring.{IsRing}
use xv6_riscv_private.Bio.Recent.{slot, IsRing-front}

module _ (pid : ℕ) (c : Cache) (node : ℕ → ℕ) (p : ℕ) where
  -- what `brelse` of the buffer at the place `p` leaves
  pub record Released (c' : Cache) : Type 0 where
    pub fewer : (c'.buf (node p)).refcnt ≡ (c.buf (node p)).refcnt - 1
    pub unlocked : (c'.buf (node p)).lock.locked ≡ false
    pub same_block :
        ((c'.buf (node p)).dev ≡ (c.buf (node p)).dev)
        × ((c'.buf (node p)).blockno ≡ (c.buf (node p)).blockno)
        × ((c'.buf (node p)).contents ≡ (c.buf (node p)).contents)
    pub others : (j : ℕ) → j ≢ node p → c'.buf j ≡ c.buf j
    pub last : (c.buf (node p)).refcnt ≡ 1 → IsRing c'.prev c'.next (λ k. node (slot p k))
    pub used : (c.buf (node p)).refcnt ≢ 1 → (c'.prev ≡ c.prev) × (c'.next ≡ c.next)

  -- the cache with the lock and a reference dropped
  dropped : Cache
  dropped = unref (node p) (record c {
    buf =
        update c.buf (node p)
          (record (c.buf (node p)) { lock = releasesleep (c.buf (node p)).lock });
  })

  dropped-refcnt :
      0 < (c.buf (node p)).refcnt
      → (c.buf (node p)).refcnt < 2 ^ 32
      → (dropped.buf (node p)).refcnt ≡ (c.buf (node p)).refcnt - 1
  unfolding dropped unref
  dropped-refcnt some_refs few = ground (arith, some_refs, few)

  Released-used :
      0 < (c.buf (node p)).refcnt
      → (c.buf (node p)).refcnt < 2 ^ 32
      → (c.buf (node p)).refcnt ≢ 1
      → Released dropped
  unfolding dropped unref releasesleep
  Released-used some_refs few more = record {
    fewer = dropped-refcnt some_refs few;
    unlocked = ground arith;
    same_block = (ground arith, ground arith, ground arith);
    others = λ j ne. ground (arith, ne);
    last = λ one. absurd (more one);
    used = λ _. (refl, refl);
  }

  Released-last :
      IsRing c.prev c.next node
      → 0 < p
      → p ≤ nbuf
      → (c.buf (node p)).refcnt ≡ 1
      → Released (push_front (node p) (unlink (node p) dropped))
  unfolding dropped unref releasesleep push_front unlink
  Released-last r pos le one = record {
    fewer = ground (arith, one);
    unlocked = ground arith;
    same_block = (ground arith, ground arith, ground arith);
    others = λ j ne. ground (arith, ne);
    last = λ _. IsRing-front dropped node r p pos le;
    used = λ more. absurd (more one);
  }

  -- `brelse` of a buffer with references, whose lock the process holds, drops the lock and a reference and keeps the
  -- contents. If that was the last reference, the buffer goes to the front of the list, and the others
  -- keep their order; if not, the list stays. No other buffer changes. Without the lock `brelse` panics.
  pub brelse_lem :
      IsRing c.prev c.next node
      → 0 < p
      → p ≤ nbuf
      → 0 < (c.buf (node p)).refcnt
      → (c.buf (node p)).refcnt < 2 ^ 32
      → (holdingsleep pid (c.buf (node p)).lock ≡ true
          → (c' : Cache) × (brelse pid (node p) c ≡ ok c') × Released c')
        × (holdingsleep pid (c.buf (node p)).lock ≡ false → brelse pid (node p) c ≡ panic)
  unfolding brelse dropped
  brelse_lem r pos le some_refs few = (
    λ held. elim (Bool-cases ((c.buf (node p)).refcnt == 1)) [
      | inl one ↦
          let none_left : ((dropped.buf (node p)).refcnt == 0) ≡ true =
            ground (arith, dropped-refcnt some_refs few, one) in
          (
            push_front (node p) (unlink (node p) dropped),
            rw (held, none_left) refl,
            Released-last r pos le (ground (arith, one)),
          )
      | inr more ↦
          let some_left : ((dropped.buf (node p)).refcnt == 0) ≡ false =
            ground (arith, dropped-refcnt some_refs few, more, some_refs) in
          (dropped, rw (held, some_left) refl, Released-used some_refs few (ground (arith, more)))
    ],
    λ not_held. rw not_held refl,
  )

-- the order after `binit`: the last buffer first
abbrev pub initial : ℕ → ℕ
initial k = if k == nbuf + 1 then head else nbuf - k

forth_initial :
    (c : Cache) → every_below (nbuf + 1) (λ k. (binit c).next (initial k) == initial (k + 1)) ≡ true
unfolding binit init_loop push_front every_below
forth_initial c = refl

back_initial :
    (c : Cache) → every_below (nbuf + 1) (λ k. (binit c).prev (initial (k + 1)) == initial k) ≡ true
unfolding binit init_loop push_front every_below
back_initial c = refl

-- `binit` puts every buffer into the list once, whatever the memory of the cache held before.
pub binit-IsRing : (c : Cache) → IsRing (binit c).prev (binit c).next initial
binit-IsRing c = record {
  start = refl;
  end = refl;
  forth = λ k le.
      let e =
        every_below_sound (nbuf + 1) (λ k. (binit c).next (initial k) == initial (k + 1))
          (forth_initial c) k (omega (arith, le)) in
      ground (arith, e);
  back = λ k le.
      let e =
        every_below_sound (nbuf + 1) (λ k. (binit c).prev (initial (k + 1)) == initial k)
          (back_initial c) k (omega (arith, le)) in
      ground (arith, e);
  small = λ k pos le. ground (arith, pos, le);
  distinct = λ i j ip il jp jl e. ground (arith, ip, il, jp, jl, e);
  every = λ b lt. (nbuf - b, omega (arith, lt), omega arith, ground (arith, lt));
}
