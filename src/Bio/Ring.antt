-- ===== src/Bio/Ring.antt =====
-- The list of buffers as a sequence, most recently used first.
use xv6_riscv_private.Common.{
  ℕ, zero, suc, ◌+◌, ◌-◌, ◌≤◌, ◌<◌, ◌≡◌, refl, ap, ◌∙◌, Bool, true, false, ◌==◌, Option, none, some,
  ok, arith, Bool-cases, inl, inr,
}
use xv6_riscv_private.Bio.{nbuf, head, Buf, look}

-- `node 1` to `node nbuf` are the buffers in the order of the list, between two occurrences of the head.
pub record IsRing (prev next : ℕ → ℕ) (node : ℕ → ℕ) : Type 0 where
  pub start : node 0 ≡ head
  pub end : node (nbuf + 1) ≡ head
  pub forth : (k : ℕ) → k ≤ nbuf → next (node k) ≡ node (k + 1)
  pub back : (k : ℕ) → k ≤ nbuf → prev (node (k + 1)) ≡ node k
  pub small : (k : ℕ) → 0 < k → k ≤ nbuf → node k < nbuf
  pub distinct : (i j : ℕ) → 0 < i → i ≤ nbuf → 0 < j → j ≤ nbuf → node i ≡ node j → i ≡ j
  pub every : (b : ℕ) → b < nbuf → (k : ℕ) × (0 < k) × (k ≤ nbuf) × (node k ≡ b)

module _ (prev next node : ℕ → ℕ) (buf : ℕ → Buf) (p : Buf → Bool) (r : IsRing prev next node) where
  -- the first buffer from the node `k` on that passes the test
  pub data First (k : ℕ) : Option ℕ → Type 0 where
    found :
        (i : ℕ)
        → k ≤ i
        → i ≤ nbuf
        → p (buf (node i)) ≡ true
        → ((j : ℕ) → k ≤ j → j < i → p (buf (node j)) ≡ false)
        → First k (some (node i))
    missing : ((j : ℕ) → k ≤ j → j ≤ nbuf → p (buf (node j)) ≡ false) → First k none

  First-suc : (k : ℕ) (o : Option ℕ) → p (buf (node k)) ≡ false → First (k + 1) o → First k o
  First-suc k (some b) out (found i lo hi e before) = found i (omega (arith, lo)) hi e (λ j jl jh.
      elim (Bool-cases (k == j)) [
        | inl same ↦ ap (λ x. p (buf (node x))) (ground (arith, same)) ∙ out
        | inr other ↦ before j (ground (arith, jl, other)) jh
      ])
  First-suc k none out (missing all) = missing (λ j jl jh. elim (Bool-cases (k == j)) [
    | inl same ↦ ap (λ x. p (buf (node x))) (ground (arith, same)) ∙ out
    | inr other ↦ all j (ground (arith, jl, other)) jh
  ])

  node_at_end : (k : ℕ) → k ≡ nbuf + 1 → (node k == head) ≡ true
  node_at_end k e = let q : node k ≡ head = ap node e ∙ r.end in ground (arith, q)

  pub look-forth :
      (n k : ℕ)
      → 0 < k
      → k + n ≡ nbuf + 2
      → 0 < n
      → (o : Option ℕ) × (look p next n (node k) buf ≡ ok o) × First k o
  unfolding look
  look-forth zero k pos e more = absurd (omega arith)
  look-forth (suc n) k pos e more = elim (Bool-cases (k == nbuf + 1)) [
    | inl last ↦
        let at_head : (node k == head) ≡ true = node_at_end k (ground (arith, last)) in
        (none, rw at_head refl, missing (λ j jl jh. absurd (ground (arith, last, jl, jh))))
    | inr inside ↦
        let lt : k ≤ nbuf = ground (arith, inside, e) in
        let away : (node k == head) ≡ false = ground (arith, r.small k pos lt) in
        elim (Bool-cases (p (buf (node k)))) [
          | inl hit ↦ (
            some (node k),
            rw (away, hit) refl,
            found k (omega arith) lt hit (λ j jl jh. absurd (omega arith)),
          )
          | inr out ↦
              let (o, q, rest) =
                look-forth n (k + 1) (omega arith) (omega (arith, e)) (omega (arith, e, lt)) in
              (o, rw (away, out, r.forth k lt) q, First-suc k o out rest)
        ]
  ]

pub IsRing-reverse :
    (prev next node : ℕ → ℕ) → IsRing prev next node → IsRing next prev (λ k. node (nbuf + 1 - k))
IsRing-reverse prev next node r = record {
  start = r.end;
  end = r.start;
  forth = λ k le.
      ap (λ x. prev (node x)) (omega (arith, le))
      ∙ r.back (nbuf - k) (omega arith)
      ∙ ap node (omega (arith, le));
  back = λ k le.
      ap (λ x. next (node x)) (omega (arith, le))
      ∙ r.forth (nbuf - k) (omega arith)
      ∙ ap node (omega (arith, le));
  small = λ k pos le. r.small (nbuf + 1 - k) (omega (arith, le)) (omega (arith, pos));
  distinct = λ i j ip il jp jl e.
      let q =
        r.distinct (nbuf + 1 - i) (nbuf + 1 - j) (omega (arith, il)) (omega (arith, ip))
          (omega (arith, jl)) (omega (arith, jp)) e in
      omega (arith, q, ip, il, jp, jl);
  every = λ b lt.
      let (k, pos, le, e) = r.every b lt in
      (nbuf + 1 - k, omega (arith, le), omega (arith, pos), ap node (omega (arith, le)) ∙ e);
}
