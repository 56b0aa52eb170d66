-- ===== src/Vm/Copyin.antt =====
-- What copyin copies, page by page, and when it fails.
use xv6_riscv_private.Common.{
  ℕ, zero, suc, ◌+◌, ◌-◌, ◌≤◌, ◌<◌, ◌≡◌, ◌≢◌, refl, sym, ap, ◌∙◌, true, false, ◌==◌, ltb,
  if◌then◌else◌, Outcome, ok, ℤ, pos, negsuc, arith, Bool-cases, inl, inr, ◌⊎◌,
}
use xv6_riscv_private.Riscv.{pgsize, pg_round_down}
use xv6_riscv_private.Str.{Bytes, memmove}
use xv6_riscv_private.Str.Move.{within, memmove_lem}
use xv6_riscv_private.Vm.Copy.{chunk, physical, copyin_loop, copyin}

module _ (translate : ℕ → ℕ) where
  -- The `len` bytes from `va` on lie in pages that are mapped.
  abbrev pub IsMapped : ℕ → ℕ → Type 0
  IsMapped va len = (v : ℕ) → va ≤ v → v < va + len → translate (pg_round_down v) ≢ 0

  -- None of the bytes copied is in memory where the copy goes.
  abbrev pub AreApart : ℕ → ℕ → ℕ → Type 0
  AreApart dst va len = (v j : ℕ) → va ≤ v → v < va + len → j < len → physical translate v ≢ dst + j

  -- the byte at `x` after `len` bytes from `va` on have been copied to `dst`
  abbrev pub copied : ℕ → ℕ → ℕ → Bytes → ℕ → ℕ
  copied dst va len m x = if within dst len x then m (physical translate (va + (x - dst))) else m x

  -- what a call does: it copies everything, or there is a page that is not mapped
  abbrev pub Transferred : ℕ → ℕ → ℕ → Bytes → Outcome (ℤ × Bytes) → Type 0
  Transferred dst va len m out =
      (IsMapped va len
        × ((m' : Bytes) × (out ≡ ok (pos 0, m')) × ((x : ℕ) → m' x ≡ copied dst va len m x)))
      ⊎ (((v : ℕ) × (va ≤ v) × (v < va + len) × (translate (pg_round_down v) ≡ 0))
          × ((m' : Bytes) × (out ≡ ok (negsuc 0, m'))
              × ((x : ℕ) → within dst len x ≡ false → m' x ≡ m x)))

  next : ℕ → ℕ
  next va = pg_round_down va + pgsize

  chunk_lem :
      (va len : ℕ)
      → (chunk va len ≤ len)
        × (va + chunk va len ≤ next va)
        × ((chunk va len ≡ len) ⊎ (va + chunk va len ≡ next va))
  unfolding next
  chunk_lem va len = ground arith

  physical-add :
      (va i : ℕ) → va + i < next va → physical translate (va + i) ≡ physical translate va + i
  unfolding next
  physical-add va i lt =
      let page : pg_round_down (va + i) ≡ pg_round_down va = omega (arith, lt) in
      rw page (omega (arith, lt))

  -- Bytes yet to be copied are not overwritten.
  kept :
      (dst va src n len v : ℕ) (m : Bytes)
      → n ≤ len
      → AreApart dst va len
      → va ≤ v
      → v < va + len
      → memmove dst src n m (physical translate v) ≡ m (physical translate v)
  kept dst va src n len v m most apart lo hi =
      let a = physical translate v in
      let out : within dst n a ≡ false = elim (Bool-cases (within dst n a)) [
        | inl inside ↦
            absurd (apart v (a - dst) lo hi (ground (arith, inside, most)) (ground (arith, inside)))
        | inr e ↦ e
      ] in
      memmove_lem dst src n m a ∙ rw out refl

  -- A round's copy and then the rest are one copy.
  copied-copied :
      (dst va n len : ℕ) (m : Bytes) (x : ℕ)
      → n ≤ len
      → va + n ≤ next va
      → (n ≡ len) ⊎ (va + n ≡ next va)
      → AreApart dst va len
      → copied (dst + n) (next va) (len - n) (memmove dst (physical translate va) n m) x
        ≡ copied dst va len m x
  copied-copied dst va n len m x most room last apart =
      let src = physical translate va in
      elim (Bool-cases (within (dst + n) (len - n) x)) [
        | inl later ↦
            let v = va + (x - dst) in
            let edge : va + n ≡ next va = elim last [
              | inl all ↦ absurd (ground (arith, later, all))
              | inr e ↦ e
            ] in
            let same : next va + (x - (dst + n)) ≡ v = rw (sym edge) (ground (arith, later)) in
            let whole : within dst len x ≡ true = ground (arith, later, most) in
            let keep = kept dst va src n len v m most apart (omega arith) (ground (arith, later)) in
            rw (later, whole) (ap (λ u. memmove dst src n m (physical translate u)) same ∙ keep)
        | inr early ↦ rw early (
            memmove_lem dst src n m x ∙ elim (Bool-cases (within dst n x)) [
              | inl now ↦
                  let whole : within dst len x ≡ true = ground (arith, now, most) in
                  let at = physical-add va (x - dst) (ground (arith, now, room)) in
                  rw (now, whole) (ap m (sym at))
              | inr never ↦
                  let out : within dst len x ≡ false = ground (arith, never, early, most) in
                  rw (never, out) refl
            ])
      ]

  after_round :
      (dst va len : ℕ) (m : Bytes) (out : Outcome (ℤ × Bytes))
      → AreApart dst va len
      → (translate (pg_round_down va) == 0) ≡ false
      → Transferred
          (dst + chunk va len)
          (next va)
          (len - chunk va len)
          (memmove dst (physical translate va) (chunk va len) m)
          out
      → Transferred dst va len m out
  unfolding next
  after_round dst va len m out apart here rest =
      let n = chunk va len in
      let (most, room, last) = chunk_lem va len in
      let first : (v : ℕ)
          → va ≤ v
          → v < next va
          → translate (pg_round_down v) ≡ translate (pg_round_down va) =
        λ v lo hi. ap translate (omega (arith, lo, hi)) in
      elim rest [
        | inl (held, (m', e, bytes)) ↦ inl (
          λ v lo hi. elim (Bool-cases (ltb v (next va))) [
            | inl now ↦ ground (arith, first v lo (ground (arith, now)), here)
            | inr later ↦ held v (ground (arith, later)) (ground (arith, later, hi, last))
          ],
          (m', e, λ x. bytes x ∙ copied-copied dst va n len m x most room last apart),
        )
        | inr ((v, lo, hi, bad), (m', e, bytes)) ↦ inr (
          (v, omega (arith, lo), ground (arith, lo, hi, last), bad),
          (
            m',
            e,
            λ x out.
                bytes x (ground (arith, out, most))
                ∙ memmove_lem dst (physical translate va) n m x
                ∙ ground (arith, out, most),
          ),
        )
      ]

  copyin_loop_lem :
      (f dst va len : ℕ) (m : Bytes)
      → len < f
      → AreApart dst va len
      → Transferred dst va len m (copyin_loop translate f dst va len m)
  unfolding copyin_loop next
  copyin_loop_lem zero dst va len m fuel apart = absurd (omega arith)
  copyin_loop_lem (suc f) dst va len m fuel apart = elim (Bool-cases (ltb 0 len)) [
    | inr done ↦ rw done (
        inl
          (λ v lo hi. absurd (ground (arith, done, lo, hi)), (m, refl, λ x. ground (arith, done))))
    | inl more ↦ elim (Bool-cases (translate (pg_round_down va) == 0)) [
      | inl bad ↦
          rw (more, bad)
            (inr (
              (va, omega arith, ground (arith, more), ground (arith, bad)),
              (m, refl, λ x out. refl),
            ))
      | inr here ↦
          let (most, room, last) = chunk_lem va len in
          let apart' : AreApart (dst + chunk va len) (next va) (len - chunk va len) =
            λ v j lo hi lt e.
              apart v (chunk va len + j) (omega (arith, room, lo)) (ground (arith, most, last, hi))
                (omega (arith, most, lt)) (e ∙ omega arith) in
          let tail =
            copyin_loop_lem f (dst + chunk va len) (next va) (len - chunk va len)
              (memmove dst (physical translate va) (chunk va len) m)
              (ground (arith, most, more, fuel)) apart' in
          rw (more, here) (after_round dst va len m _ apart here tail)
    ]
  ]

  -- When no byte copied lies where the copy goes, `copyin` returns: 0 if all the pages of the range are mapped,
  -- and then the destination holds its bytes and no other byte of memory has changed; -1 if one of them
  -- is not, and then no byte outside of the destination has changed.
  pub copyin_lem :
      (dst va len : ℕ) (m : Bytes)
      → AreApart dst va len
      → Transferred dst va len m (copyin translate dst va len m)
  unfolding copyin
  copyin_lem dst va len m apart = copyin_loop_lem (len + 1) dst va len m (omega arith) apart
