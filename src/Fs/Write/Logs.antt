-- ===== src/Fs/Write/Logs.antt =====
-- The blocks that bmap passes to log_write.
use xv6_riscv_private.Common.{
  ℕ, zero, suc, ◌+◌, ◌-◌, ◌/◌, ◌≤◌, ◌≡◌, ◌≢◌, refl, sym, ap, ◌∙◌, true, ◌||◌, ◌==◌, ltb,
  if◌then◌else◌, update, update_self, update-ne, arith, Bool-cases, inl, inr, ◌⊎◌, Option, none,
  some, List, [], ◌∷◌, Outcome, ok, panic, out_of_fuel, ◌>>=◌,
}
use xv6_riscv_private.Fs.{Data, bpb, SuperBlock, Store, put, bblock}
use xv6_riscv_private.Fs.Words.{word, set_word}
use xv6_riscv_private.Fs.Inode.{Inode, ndirect, nindirect}
use xv6_riscv_private.Fs.Bitmap.{mark}
use xv6_riscv_private.Fs.Blocks.{balloc, balloc_loop, bzero, find_bit, zeros}
use xv6_riscv_private.Fs.Bmap.{map_slot, map_entry, map_indirect, bmap}
use xv6_riscv_private.Kalloc.Chain.{has}

-- What holds of a result, if there is one.
abbrev pub Yields {ℓ} : {A : Type ℓ} → (A → Type 0) → Outcome A → Type 0
Yields P (ok a) = P a
Yields P panic = Unit
Yields P out_of_fuel = Unit

pub Yields-bind {κ ℓ} :
    {A : Type κ} {B : Type ℓ} (P : A → Type 0) (Q : B → Type 0) (m : Outcome A) (f : A → Outcome B)
    → Yields P m
    → ((a : A) → P a → Yields Q (f a))
    → Yields Q (m >>= f)
Yields-bind P Q (ok a) f p q = q a p
Yields-bind P Q panic f p q = tt
Yields-bind P Q out_of_fuel f p q = tt

pub Yields-map {ℓ} :
    {A : Type ℓ} (P Q : A → Type 0) (m : Outcome A)
    → Yields P m
    → ((a : A) → P a → Q a)
    → Yields Q m
Yields-map P Q (ok a) p q = q a p
Yields-map P Q panic p q = tt
Yields-map P Q out_of_fuel p q = tt

-- From `s` to `s'`, only blocks among `xs` have been passed to `log_write`.
abbrev pub Logs : Store → Store → List ℕ → Type 0
Logs s s' xs = (b : ℕ) → has b s'.logged ≡ true → (has b s.logged || has b xs) ≡ true

Logs-none : (s : Store) (xs : List ℕ) → Logs s s xs
Logs-none s xs b h = ground (arith, h)

pub Logs-put :
    (s s' : Store) (c : ℕ) (d : Data) (xs : List ℕ)
    → Logs s s' xs
    → has c xs ≡ true
    → Logs s (put c d s') xs
unfolding put
Logs-put s s' c d xs l there b h = elim (Bool-cases (b == c)) [
  | inl same ↦
      let q : c ≡ b = ground (arith, same) in
      let in_xs = ap (λ x. has x xs) q in ground (arith, in_xs, there)
  | inr other ↦ l b (ground (arith, h, other))
]

pub Logs-more :
    (s s' : Store) (xs ys : List ℕ)
    → Logs s s' xs
    → ((b : ℕ) → has b xs ≡ true → has b ys ≡ true)
    → Logs s s' ys
Logs-more s s' xs ys l sub b h = elim (Bool-cases (has b xs)) [
  | inl there ↦ let y = sub b there in ground (arith, y)
  | inr out ↦ let old = l b h in ground (arith, old, out)
]

pub Logs-trans : (s s1 s2 : Store) (xs : List ℕ) → Logs s s1 xs → Logs s1 s2 xs → Logs s s2 xs
Logs-trans s s1 s2 xs l m b h = elim (Bool-cases (has b s1.logged)) [
  | inl there ↦ l b there
  | inr out ↦ let new = m b h in ground (arith, new, out)
]

module _ (sb : SuperBlock) (one_map : sb.size ≤ bpb) where
  -- The blocks that balloc logs: the free map and the new block.
  balloc_loop-Logs :
      (f b : ℕ) (s : Store)
      → (b ≡ 0) ⊎ (sb.size ≤ b)
      → Logs s (balloc_loop sb f b s).1 (sb.bmapstart ∷ (balloc_loop sb f b s).0 ∷ [])
  unfolding balloc_loop bzero
  balloc_loop-Logs zero b s at = λ b h. ground (arith, h)
  balloc_loop-Logs (suc f) b s at = elim (Bool-cases (ltb b sb.size)) [
    | inr past ↦ rw past (λ b h. ground (arith, h))
    | inl inside ↦
        let map : bblock b sb ≡ sb.bmapstart = ground (arith, at, inside, one_map) in
        rw inside (
          found (find_bit bpb 0 b sb.size (s.blocks (bblock b sb))) map
            (balloc_loop-Logs f (b + bpb) s (inr (omega (arith, one_map)))))
  ]
    where
      found :
          (o : Option ℕ)
          → bblock b sb ≡ sb.bmapstart
          → Logs s
              (balloc_loop sb f (b + bpb) s).1
              (sb.bmapstart ∷ (balloc_loop sb f (b + bpb) s).0 ∷ [])
          → (let r : ℕ × Store = elim o [
            | none ↦ balloc_loop sb f (b + bpb) s
            | some bi ↦
                (b + bi, bzero (b + bi) (put (bblock b sb) (mark (s.blocks (bblock b sb)) bi) s))
          ] in
              Logs s r.1 (sb.bmapstart ∷ r.0 ∷ []))
      found none map rest = rest
      found (some bi) map rest =
          Logs-put s (put (bblock b sb) (mark (s.blocks (bblock b sb)) bi) s) (b + bi) zeros
            (sb.bmapstart ∷ (b + bi) ∷ [])
            (Logs-put s s (bblock b sb) (mark (s.blocks (bblock b sb)) bi)
              (sb.bmapstart ∷ (b + bi) ∷ []) (Logs-none s (sb.bmapstart ∷ (b + bi) ∷ []))
              (ground (arith, map)))
            (ground arith)

  balloc-Logs : (s : Store) → Logs s (balloc sb s).1 (sb.bmapstart ∷ (balloc sb s).0 ∷ [])
  unfolding balloc
  balloc-Logs s = balloc_loop-Logs (sb.size / bpb + 1) 0 s (inl refl)

  alloc-Logs :
      (c a : ℕ) (s : Store)
      → (balloc sb s).0 ≡ a
      → Logs s (balloc sb s).1 (0 ∷ sb.bmapstart ∷ c ∷ a ∷ [])
  alloc-Logs c a s e =
      Logs-more s (balloc sb s).1 (sb.bmapstart ∷ (balloc sb s).0 ∷ [])
        (0 ∷ sb.bmapstart ∷ c ∷ a ∷ []) (balloc-Logs s) (λ b h. ground (arith, h, e))

  -- An indirect block stays.
  abbrev pub Stays : Inode → Inode → Type 0
  Stays ip ip' = ip.addrs ndirect ≢ 0 → ip'.addrs ndirect ≡ ip.addrs ndirect

  -- what bmap, or part of it, may log
  pub record Found (ip : Inode) (s : Store) (r : ℕ × Inode × Store) : Type 0 where
    pub logs : Logs s r.2 (0 ∷ sb.bmapstart ∷ r.1.addrs ndirect ∷ r.0 ∷ [])
    pub stays : Stays ip r.1

  map_slot-Found :
      (ip : Inode) (j : ℕ) (s : Store)
      → Found ip s (map_slot sb ip j s)
        × (j ≡ ndirect
            → (map_slot sb ip j s).0 ≢ 0
            → (map_slot sb ip j s).1.addrs ndirect ≡ (map_slot sb ip j s).0)
  unfolding map_slot
  map_slot-Found ip j s = elim (Bool-cases (ip.addrs j == 0)) [
    | inr there ↦
        rw there (
          record { logs = λ b h. ground (arith, h); stays = λ _. refl },
          λ q _. ap ip.addrs (sym q),
        )
    | inl gap ↦ elim (Bool-cases ((balloc sb s).0 == 0)) [
      | inl full ↦
          rw (gap, full)
            (
              record {
                logs = alloc-Logs (ip.addrs ndirect) 0 s (ground (arith, full));
                stays = λ _. refl;
              },
              λ _ nz. absurd (nz refl),
            )
      | inr new ↦
          rw (gap, new)
            (
              record {
                logs =
                    alloc-Logs (update ip.addrs j (balloc sb s).0 ndirect) (balloc sb s).0 s refl;
                stays = λ nz.
                    update-ne ip.addrs j ndirect (balloc sb s).0
                      (λ q. nz (ap ip.addrs (sym q) ∙ ground (arith, gap)));
              },
              λ q _.
                  ap (update ip.addrs j (balloc sb s).0) (sym q)
                  ∙ update_self ip.addrs j (balloc sb s).0,
            )
    ]
  ]

  map_entry-Logs :
      (ind bn : ℕ) (s : Store)
      → Logs s (map_entry sb ind bn s).1 (0 ∷ sb.bmapstart ∷ ind ∷ (map_entry sb ind bn s).0 ∷ [])
  unfolding map_entry
  map_entry-Logs ind bn s = elim (Bool-cases (word (s.blocks ind) bn == 0)) [
    | inr there ↦ rw there (λ b h. ground (arith, h))
    | inl gap ↦ elim (Bool-cases ((balloc sb s).0 == 0)) [
      | inl full ↦ rw (gap, full) (alloc-Logs ind 0 s (ground (arith, full)))
      | inr new ↦
          rw (gap, new)
            (Logs-put s (balloc sb s).1 ind
              (set_word ((balloc sb s).1.blocks ind) bn (balloc sb s).0)
              (0 ∷ sb.bmapstart ∷ ind ∷ (balloc sb s).0 ∷ [])
              (alloc-Logs ind (balloc sb s).0 s refl) (ground arith))
    ]
  ]

  entered-Found :
      (ip : Inode) (bn : ℕ) (s : Store) (r : ℕ × Inode × Store)
      → Found ip s r
      → (r.0 ≢ 0 → r.1.addrs ndirect ≡ r.0)
      → Found ip s (
          if r.0 == 0
          then (0, r.1, r.2)
          else ((map_entry sb r.0 bn r.2).0, r.1, (map_entry sb r.0 bn r.2).1))
  entered-Found ip bn s r f at = elim (Bool-cases (r.0 == 0)) [
    | inl none_left ↦ rw none_left (record {
      logs =
          Logs-more s r.2 (0 ∷ sb.bmapstart ∷ r.1.addrs ndirect ∷ r.0 ∷ [])
            (0 ∷ sb.bmapstart ∷ r.1.addrs ndirect ∷ 0 ∷ []) f.logs
            (λ b h. ground (arith, h, none_left));
      stays = f.stays;
    })
    | inr there ↦
        let e = at (ground (arith, there)) in
        let a = (map_entry sb r.0 bn r.2).0 in
        let s2 = (map_entry sb r.0 bn r.2).1 in
        let xs = 0 ∷ sb.bmapstart ∷ r.1.addrs ndirect ∷ a ∷ [] in
        rw there (record {
          logs =
              Logs-trans s r.2 s2 xs
                (Logs-more s r.2 (0 ∷ sb.bmapstart ∷ r.1.addrs ndirect ∷ r.0 ∷ []) xs f.logs
                  (λ b h. ground (arith, h, e)))
                (Logs-more r.2 s2 (0 ∷ sb.bmapstart ∷ r.0 ∷ a ∷ []) xs (map_entry-Logs r.0 bn r.2)
                  (λ b h. ground (arith, h, e)));
          stays = f.stays;
        })
  ]

  map_indirect-Found : (ip : Inode) (bn : ℕ) (s : Store) → Found ip s (map_indirect sb ip bn s)
  unfolding map_indirect
  map_indirect-Found ip bn s =
      let (f, q) = map_slot-Found ip ndirect s in
      entered-Found ip bn s (map_slot sb ip ndirect s) f (q refl)

  pub bmap-Found : (ip : Inode) (bn : ℕ) (s : Store) → Yields (Found ip s) (bmap sb ip bn s)
  unfolding bmap
  bmap-Found ip bn s = elim (Bool-cases (ltb bn ndirect)) [
    | inl direct ↦ rw direct (map_slot-Found ip bn s).0
    | inr far ↦ elim (Bool-cases (ltb (bn - ndirect) nindirect)) [
      | inl inside ↦ rw (far, inside) (map_indirect-Found ip (bn - ndirect) s)
      | inr out ↦ rw (far, out) tt
    ]
  ]
