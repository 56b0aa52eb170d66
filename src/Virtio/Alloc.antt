-- ===== src/Virtio/Alloc.antt =====
-- alloc3_desc allocates three descriptors or none.
use xv6_riscv_private.Common.{
  length, ℕ, zero, suc, ◌+◌, ◌≤◌, ◌<◌, ◌≡◌, refl, ap, ◌∙◌, subst, true, false, not, ◌&&◌, ◌||◌,
  ◌==◌, leb, update, arith, Bool-cases, inl, inr, Option, none, some, List, [], ◌∷◌, ◌++◌, Outcome,
  ok, ◌>>=◌,
}
use xv6_riscv_private.Kalloc.Chain.{has, Distinct}
use xv6_riscv_private.Virtio.{
  Queue, num, alloc_desc_loop, alloc_desc, free_desc, free_descs, alloc3_desc_loop, alloc3_desc,
}

-- what a search for a free descriptor finds, of those from `lo` to 7
data Found (lo : ℕ) (q : Queue) : Option (ℕ × Queue) → Type 0 where
  hit :
      (i : ℕ)
      → i < num
      → q.is_free i ≡ true
      → Found lo q (some (i, record q { is_free = update q.is_free i false }))
  miss : ((j : ℕ) → lo ≤ j → j < num → q.is_free j ≡ false) → Found lo q none

alloc_desc_loop_lem : (n i : ℕ) (q : Queue) → i + n ≡ num → Found i q (alloc_desc_loop n i q)
unfolding alloc_desc_loop
alloc_desc_loop_lem zero i q e = miss (λ j lo hi. absurd (omega (arith, e, lo, hi)))
alloc_desc_loop_lem (suc n) i q e = elim (Bool-cases (q.is_free i)) [
  | inl free ↦ rw free (hit i (omega (arith, e)) free)
  | inr used ↦ rw used (
      later (alloc_desc_loop n (i + 1) q) used (alloc_desc_loop_lem n (i + 1) q (omega (arith, e))))
]
  where
    later : (out : Option (ℕ × Queue)) → q.is_free i ≡ false → Found (i + 1) q out → Found i q out
    later (some (k, q')) used (hit k' lt free) = hit k' lt free
    later none used (miss none_free) = miss (λ j lo hi. elim (Bool-cases (j == i)) [
      | inl same ↦ let s : i ≡ j = ground (arith, same) in subst (λ x. q.is_free x ≡ false) s used
      | inr other ↦ none_free j (ground (arith, lo, other)) hi
    ])

has-snoc : (j i : ℕ) (idx : List ℕ) → has j (idx ++ (i ∷ [])) ≡ (has j idx || (j == i))
has-snoc j i [] = ground arith
has-snoc j i (k ∷ idx) = let e = has-snoc j i idx in ground (arith, e)

length-snoc : (i : ℕ) (idx : List ℕ) → length (idx ++ (i ∷ [])) ≡ length idx + 1
unfolding length
length-snoc i [] = refl
length-snoc i (k ∷ idx) = let e = length-snoc i idx in omega (arith, e)

Distinct-snoc :
    (i : ℕ) (idx : List ℕ) → Distinct idx → has i idx ≡ false → Distinct (idx ++ (i ∷ []))
Distinct-snoc i [] d out = (refl, tt)
Distinct-snoc i (k ∷ idx) d out =
    let e = has-snoc k i idx in
    (ground (arith, e, d.0, out), Distinct-snoc i idx d.1 (ground (arith, out)))

-- The descriptors `idx`, all different ones, have been taken from the free ones of `q0`.
pub record Taken (q0 : Queue) (idx : List ℕ) (q : Queue) : Type 0 where
  pub free : (j : ℕ) → q.is_free j ≡ (q0.is_free j && not (has j idx))
  pub all : (j : ℕ) → has j idx ≡ true → (j < num) × (q0.is_free j ≡ true)
  pub distinct : Distinct idx
  pub same : q.desc ≡ q0.desc

pub free_desc-eq :
    (i : ℕ) (q : Queue)
    → i < num
    → q.is_free i ≡ false
    → free_desc i q
      ≡ ok record {
        desc = update q.desc i record { addr = 0; len = 0; flags = 0; next = 0 };
        is_free = update q.is_free i true;
      }
unfolding free_desc
free_desc-eq i q lt used =
    let inside : leb num i ≡ false = ground (arith, lt) in rw (inside, used) refl

-- Descriptors that are in use are freed one after the other.
free_descs_lem :
    (idx : List ℕ) (q : Queue)
    → Distinct idx
    → ((j : ℕ) → has j idx ≡ true → (j < num) × (q.is_free j ≡ false))
    → (q' : Queue) × (free_descs idx q ≡ ok q')
      × ((j : ℕ) → q'.is_free j ≡ (q.is_free j || has j idx))
unfolding free_descs
free_descs_lem [] q d used = (q, refl, λ j. ground arith)
free_descs_lem (i ∷ idx) q d used =
    let here = used i (ground arith) in
    let q1 : Queue = record {
      desc = update q.desc i record { addr = 0; len = 0; flags = 0; next = 0 };
      is_free = update q.is_free i true;
    } in
    let (q', e, free) = free_descs_lem idx q1 d.1 (λ j there.
      let old = used j (ground (arith, there)) in
      let out = d.0 in
      (
        old.0,
        elim (Bool-cases (j == i)) [
          | inl same ↦
              let s : j ≡ i = ground (arith, same) in
              absurd (ground (arith, ap (λ x. has x idx) s, there, out))
          | inr other ↦ ground (arith, other, old.1)
        ],
      )) in
    (
      q',
      ap (λ x. x >>= free_descs idx) (free_desc-eq i q here.0 here.1) ∙ e,
      λ j. let f = free j in ground (arith, f),
    )

-- how an allocation of `n` more descriptors ends: with all of them, or with none, and then less than that many were free
pub data Allocated (q0 : Queue) (n : ℕ) : Outcome (Option (List ℕ) × Queue) → Type 0 where
  got :
      (idx : List ℕ) (q' : Queue)
      → Taken q0 idx q'
      → length idx ≡ n
      → Allocated q0 n (ok (some idx, q'))
  short :
      (few : List ℕ) (q' : Queue)
      → ((j : ℕ) → q'.is_free j ≡ q0.is_free j)
      → length few < n
      → ((j : ℕ) → j < num → q0.is_free j ≡ true → has j few ≡ true)
      → Allocated q0 n (ok (none, q'))

Taken-snoc :
    (q0 : Queue) (idx : List ℕ) (q : Queue) (i : ℕ)
    → Taken q0 idx q
    → i < num
    → q.is_free i ≡ true
    → Taken q0 (idx ++ (i ∷ [])) (record q { is_free = update q.is_free i false })
Taken-snoc q0 idx q i t lt free =
    let here = t.free i in
    record {
      free = λ j. let e = has-snoc j i idx in let f = t.free j in ground (arith, e, f);
      all = λ j there.
          let e = has-snoc j i idx in
          elim (Bool-cases (j == i)) [
            | inl same ↦ (
              ground (arith, same, lt),
              let s : i ≡ j = ground (arith, same) in
                  subst (λ x. q0.is_free x ≡ true) s (ground (arith, here, free)),
            )
            | inr other ↦ t.all j (ground (arith, e, there, other))
          ];
      distinct = Distinct-snoc i idx t.distinct (ground (arith, here, free));
      same = t.same;
    }

-- one descriptor, and then the rest or the way back
round :
    (n : ℕ) (idx : List ℕ) (q0 q : Queue)
    → Taken q0 idx q
    → (m : ℕ) → length idx < m
    → ((i : ℕ) (q' : Queue)
        → Taken q0 (idx ++ (i ∷ [])) q'
        → Allocated q0 m (alloc3_desc_loop n (idx ++ (i ∷ [])) q'))
    → (out : Option (ℕ × Queue)) → Found 0 q out
    → Allocated q0 m (elim out [
      | none ↦ free_descs idx q >>= λ q'. ok (none, q')
      | some (i, q') ↦ alloc3_desc_loop n (idx ++ (i ∷ [])) q'
    ])
round n idx q0 q t m le go (some (i, q')) (hit i' lt free) =
    go i' _ (Taken-snoc q0 idx q i' t lt free)
round n idx q0 q t m le go none (miss none_free) =
    let (q', e, back) = free_descs_lem idx q t.distinct (λ j there.
      let (lt, free) = t.all j there in let f = t.free j in (lt, ground (arith, f, there))) in
    rw e (
      short idx q'
        (λ j.
          let f = t.free j in
          let b = back j in
          elim (Bool-cases (has j idx)) [
            | inl there ↦ let (lt, free) = t.all j there in ground (arith, f, b, there, free)
            | inr out ↦ ground (arith, f, b, out)
          ])
        le
        (λ j lt free.
          let f = t.free j in
          let used = none_free j (omega arith) lt in ground (arith, f, used, free)))

alloc3_desc_loop_lem :
    (n : ℕ) (idx : List ℕ) (q0 q : Queue)
    → Taken q0 idx q
    → (m : ℕ) → length idx + n ≡ m
    → Allocated q0 m (alloc3_desc_loop n idx q)
unfolding alloc3_desc_loop alloc_desc
alloc3_desc_loop_lem zero idx q0 q t m e = got idx q t (omega (arith, e))
alloc3_desc_loop_lem (suc n) idx q0 q t m e =
    round n idx q0 q t m (omega (arith, e))
      (λ i q' t'.
        let l = length-snoc i idx in
        alloc3_desc_loop_lem n (idx ++ (i ∷ [])) q0 q' t' m (omega (arith, e, l)))
      (alloc_desc_loop num 0 q) (alloc_desc_loop_lem num 0 q refl)

-- `alloc3_desc` does not panic. It allocates three different descriptors of the queue that were free, and then exactly these are
-- no longer free and no descriptor's contents change; or it gives back what it had allocated, so that
-- the same descriptors are free as before, and then less than three were free.
pub alloc3_desc_lem : (q : Queue) → Allocated q 3 (alloc3_desc q)
unfolding alloc3_desc length
alloc3_desc_lem q =
    alloc3_desc_loop_lem 3 [] q q
      record {
        free = λ j. ground arith;
        all = λ j there. absurd (ground (arith, there));
        distinct = tt;
        same = refl;
      }
      3 refl
