-- ===== src/Bio/Recent.antt =====
-- Where brelse and binit put a buffer: at the front of the list.
use xv6_riscv_private.Common.{
  ℕ, ◌+◌, ◌-◌, ◌≤◌, ◌<◌, ◌≡◌, refl, sym, ap, ◌∙◌, Bool, true, false, ◌==◌, ltb, leb, if◌then◌else◌,
  arith, Bool-cases, inl, inr,
}
use xv6_riscv_private.Bio.{nbuf, head, Cache, push_front, unlink}
use xv6_riscv_private.Bio.Ring.{IsRing}

-- the place in the old order of the buffer that has place `k`, once that at the place `p` has gone to the front
unfoldable pub slot : ℕ → ℕ → ℕ
slot p k = if k == 0 then 0 else if k == 1 then p else if leb k p then k - 1 else k

module _ (c : Cache) (node : ℕ → ℕ) (r : IsRing c.prev c.next node) where
  node-if : (b : Bool) (x y : ℕ) → node (if b then x else y) ≡ (if b then node x else node y)
  node-if true x y = refl
  node-if false x y = refl

  head-ne : (k : ℕ) → 0 < k → k ≤ nbuf → (head == node k) ≡ false
  head-ne k pos le = ground (arith, r.small k pos le)

  node_eq : (i j : ℕ) → i ≤ nbuf → j ≤ nbuf → (node i == node j) ≡ (i == j)
  node_eq i j il jl = elim (Bool-cases (i == j)) [
    | inl e ↦ let same : node i ≡ node j = ap node (ground (arith, e)) in ground (arith, e, same)
    | inr e ↦ rw e (elim (Bool-cases (i == 0)) [
      | inl z ↦
          let first : node i ≡ head = ap node (ground (arith, z)) ∙ r.start in
          ground (arith, first, r.small j (ground (arith, z, e)) jl)
      | inr s ↦ elim (Bool-cases (j == 0)) [
        | inl z ↦
            let first : node j ≡ head = ap node (ground (arith, z)) ∙ r.start in
            ground (arith, first, r.small i (ground (arith, s)) il)
        | inr t ↦ ground (arith, e, r.distinct i j (ground (arith, s)) il (ground (arith, t)) jl)
      ]
    ])
  ]

  wrap : ℕ → ℕ
  wrap i = if i == nbuf + 1 then 0 else i

  node-wrap : (i : ℕ) → node i ≡ node (wrap i)
  unfolding wrap
  node-wrap i = elim (Bool-cases (i == nbuf + 1)) [
    | inl e ↦ rw e (ap node (ground (arith, e)) ∙ r.end ∙ sym r.start)
    | inr e ↦ rw e refl
  ]

  last_eq : (i j : ℕ) → 0 < i → i ≤ nbuf + 1 → 0 < j → j ≤ nbuf + 1 → (node i == node j) ≡ (i == j)
  unfolding wrap
  last_eq i j ip il jp jl =
      let both : (node i == node j) ≡ (node (wrap i) == node (wrap j)) =
        ap (λ x. x == node j) (node-wrap i) ∙ ap (λ x. node (wrap i) == x) (node-wrap j) in
      both
      ∙ node_eq (wrap i) (wrap j) (ground (arith, il)) (ground (arith, jl))
      ∙ ground (arith, ip, il, jp, jl)

  -- `unlink` in terms of places
  module _ (p : ℕ) (pos : 0 < p) (le : p ≤ nbuf) where
    ahead : c.next (node p) ≡ node (p + 1)
    ahead = r.forth p le

    behind : c.prev (node p) ≡ node (p - 1)
    behind = ap (λ x. c.prev (node x)) (omega (arith, pos)) ∙ r.back (p - 1) (omega (arith, le))

    unlink-prev :
        (x : ℕ)
        → (unlink (node p) c).prev x ≡ (if node (p + 1) == x then node (p - 1) else c.prev x)
    unfolding unlink
    unlink-prev x = rw (ahead, behind) (ground arith)

    unlink-next :
        (x : ℕ)
        → (unlink (node p) c).next x ≡ (if node (p - 1) == x then node (p + 1) else c.next x)
    unfolding unlink
    unlink-next x =
        rw (ahead, behind)
          (ground
            (arith, last_eq (p + 1) p (omega arith) (omega (arith, le)) pos (omega (arith, le))))

    -- the first buffer when `node p` has left
    second : ℕ
    second = if p == 1 then 2 else 1

    second-positive : 0 < second
    unfolding second
    second-positive = ground arith

    second-small : second ≤ nbuf
    unfolding second
    second-small = ground arith

    front : Cache
    front = push_front (node p) (unlink (node p) c)

    next_head : (unlink (node p) c).next head ≡ node second
    unfolding second
    next_head =
        let start : node 0 ≡ head = r.start in
        let same : (node (p - 1) == head) ≡ (p - 1 == 0) =
          ap (λ x. node (p - 1) == x) (sym start)
          ∙ node_eq (p - 1) 0 (omega (arith, le)) (omega arith) in
        let one : c.next head ≡ node 1 = ap c.next (sym start) ∙ r.forth 0 (omega arith) in
        unlink-next head
        ∙ rw (same, one)
            (elim (Bool-cases (p == 1)) [
              | inl e ↦
                  let q : node (p + 1) ≡ node 2 = ap node (ground (arith, e)) in
                  ground (arith, e, q)
              | inr e ↦ ground (arith, e, pos)
            ])

    front-next :
        (i : ℕ)
        → i ≤ nbuf
        → front.next (node i)
          ≡ node
              (if i == 0 then p else if i == p then second else if i + 1 == p then p + 1 else i + 1)
    unfolding front push_front
    front-next i il =
        let at_head : (head == node i) ≡ (0 == i) =
          ap (λ x. x == node i) (sym r.start) ∙ node_eq 0 i (omega arith) il in
        let at_p = node_eq p i le il in
        let at_before = node_eq (p - 1) i (omega (arith, le)) il in
        let old = r.forth i il in
        rw (node-if, node-if, node-if)
          (rw (at_head, at_p, next_head, unlink-next (node i), at_before, old)
            (ground (arith, pos)))

    front-prev :
        (i : ℕ)
        → 0 < i
        → i ≤ nbuf + 1
        → front.prev (node i)
          ≡ node
              (if i == second then p else if i == p then 0 else if i == p + 1 then p - 1 else i - 1)
    unfolding front push_front
    front-prev i ip il =
        let at_second = last_eq second i second-positive (omega (arith, second-small)) ip il in
        let at_p = last_eq p i pos (omega (arith, le)) ip il in
        let at_after = last_eq (p + 1) i (omega arith) (omega (arith, le)) ip il in
        let old : c.prev (node i) ≡ node (i - 1) =
          ap (λ x. c.prev (node x)) (omega (arith, ip)) ∙ r.back (i - 1) (omega (arith, il)) in
        let away : (node p == head) ≡ false = ground (arith, r.small p pos le) in
        rw (node-if, node-if, node-if)
          (rw (next_head, away, at_second, at_p, unlink-prev (node i), at_after, old, r.start)
            (ground arith))

    pub IsRing-front :
        IsRing
          (push_front (node p) (unlink (node p) c)).prev
          (push_front (node p) (unlink (node p) c)).next
          (λ k. node (slot p k))
    unfolding front slot second
    IsRing-front = record {
      start = r.start;
      end = ap node (ground (arith, le)) ∙ r.end;
      forth = λ k kl.
          front-next (slot p k) (ground (arith, kl, le)) ∙ ap node (ground (arith, kl, le, pos));
      back = λ k kl.
          front-prev (slot p (k + 1)) (ground (arith, kl, le, pos)) (ground (arith, kl, le))
          ∙ ap node (ground (arith, kl, le, pos));
      small = λ k kp kl. r.small (slot p k) (ground (arith, kp, pos)) (ground (arith, kl, le));
      distinct = λ i j ip il jp jl e.
          let same =
            r.distinct (slot p i) (slot p j) (ground (arith, ip, pos)) (ground (arith, il, le))
              (ground (arith, jp, pos)) (ground (arith, jl, le)) e in
          ground (arith, same, ip, jp, pos);
      every = λ b lt.
          let (k, kp, kl, e) = r.every b lt in
          let k' = if k == p then 1 else if ltb k p then k + 1 else k in
          (
            k',
            ground (arith, kp),
            ground (arith, kl, le, kp),
            ap node (ground (arith, kp, kl, pos)) ∙ e,
          );
    }
