-- ===== src/Fs/Write/Logged.antt =====
-- Which blocks writei passes to log_write.
use xv6_riscv_private.Common.{
  length, ℕ, zero, suc, ◌+◌, ◌-◌, ◌*◌, ◌/◌, ◌%◌, ◌^◌, ◌≤◌, ◌<◌, ◌≡◌, refl, sym, ap, ◌∙◌, subst,
  ◌||◌, ◌==◌, ltb, leb, if◌then◌else◌, arith, Bool-cases, inl, inr, List, [], ◌∷◌,
}
use xv6_riscv_private.Fs.{Data, bsize, bpb, SuperBlock, Store, put, change}
use xv6_riscv_private.Fs.Inode.{Inode, ndirect, maxfile, iblock, iupdate}
use xv6_riscv_private.Fs.Bmap.{bmap}
use xv6_riscv_private.Fs.Content.{min, copy, writei_loop, writei}
use xv6_riscv_private.Kalloc.Chain.{has}
use xv6_riscv_private.Fs.Write.Logs.{
  Yields, Yields-bind, Yields-map, Logs, Logs-put, Logs-more, Logs-trans, Stays, Found, bmap-Found,
}

-- At most `k` different blocks have been passed to `log_write`.
abbrev pub AtMost : ℕ → Store → Store → Type 0
AtMost k s s' = (xs : List ℕ) × (length xs ≤ k) × Logs s s' xs

module _ (sb : SuperBlock) (one_map : sb.size ≤ bpb) where
  -- how many rounds the loop of writei has left for `r` bytes
  rounds : ℕ → ℕ → ℕ
  rounds off r = if r == 0 then 0 else (off % bsize + r + (bsize - 1)) / bsize

  -- what the loop may log, with at most `k` blocks of data
  Logged : ℕ → Inode → Store → ℕ × ℕ × Inode × Store → Type 0
  Logged k ip s (t, o, ip', s') =
      (ds : List ℕ) × (length ds ≤ k)
      × Logs s s' (0 ∷ sb.bmapstart ∷ ip'.addrs ndirect ∷ ds)
      × Stays sb one_map ip ip'

  -- a round and what follows
  Logged-round :
      (k : ℕ) (ip : Inode) (s : Store) (a : ℕ) (ip1 : Inode) (s1 : Store) (d : Data)
      (r : ℕ × ℕ × Inode × Store)
      → Found sb one_map ip s (a, ip1, s1)
      → Logged k ip1 (put a d s1) r
      → Logged (suc k) ip s r
  unfolding Logged length
  Logged-round k ip s a ip1 s1 d (t, o, ip2, s2) f (ds, few, logs, stays) =
      let xs = 0 ∷ sb.bmapstart ∷ ip2.addrs ndirect ∷ a ∷ ds in
      (
        a ∷ ds,
        omega (arith, few),
        Logs-trans s (put a d s1) s2 xs
            (Logs-put s s1 a d xs
              (Logs-more s s1 (0 ∷ sb.bmapstart ∷ ip1.addrs ndirect ∷ a ∷ []) xs f.logs (λ b h.
                elim (Bool-cases (ip1.addrs ndirect == 0)) [
                  | inl z ↦ ground (arith, h, z)
                  | inr nz ↦ let e = stays (ground (arith, nz)) in ground (arith, h, e)
                ]))
              (ground arith))
            (Logs-more (put a d s1) s2 (0 ∷ sb.bmapstart ∷ ip2.addrs ndirect ∷ ds) xs logs
              (λ b h. ground (arith, h))),
        λ nz. let e = f.stays nz in stays (λ z. nz (sym e ∙ z)) ∙ e,
      )

  Logged-stop :
      (k t o : ℕ) (ip : Inode) (s : Store) (a : ℕ) (ip1 : Inode) (s1 s2 : Store)
      → s2.logged ≡ s1.logged
      → Found sb one_map ip s (a, ip1, s1)
      → Logged (suc k) ip s (t, o, ip1, s2)
  unfolding Logged length
  Logged-stop k t o ip s a ip1 s1 s2 same f =
      (a ∷ [], omega arith, (λ b h. f.logs b (sym (ap (has b) same) ∙ h)), f.stays)

  Logged-le :
      (k k' : ℕ) (ip : Inode) (s : Store) (r : ℕ × ℕ × Inode × Store)
      → k ≤ k'
      → Logged k ip s r
      → Logged k' ip s r
  unfolding Logged
  Logged-le k k' ip s (t, o, ip', s') le (ds, few, logs, stays) =
      (ds, omega (arith, le, few), logs, stays)

  rounds-suc :
      (off r : ℕ)
      → 0 < r
      → suc (rounds (off + min r (bsize - off % bsize)) (r - min r (bsize - off % bsize)))
        ≤ rounds off r
  unfolding rounds
  rounds-suc off r pos = ground (arith, pos)

  writei_loop-Logged :
      (reach : ℕ → ℕ → ℕ) (f tot off src n : ℕ) (mem : Data) (ip : Inode) (s : Store)
      → tot ≤ n
      → Yields (Logged (rounds off (n - tot)) ip s) (writei_loop sb reach f tot off src n mem ip s)
  unfolding writei_loop Logged length change
  writei_loop-Logged reach zero tot off src n mem ip s le = tt
  writei_loop-Logged reach (suc f) tot off src n mem ip s le = elim (Bool-cases (ltb tot n)) [
    | inr done ↦ rw done ([], omega arith, (λ b h. ground (arith, h)), (λ _. refl))
    | inl more ↦ rw more (
        Yields-bind (Found sb one_map ip s) (Logged (rounds off (n - tot)) ip s)
          (bmap sb ip (off / bsize) s) _ (bmap-Found sb one_map ip (off / bsize) s)
          (λ (a, ip1, s1) found.
            let m = min (n - tot) (bsize - off % bsize) in
            let k = rounds off (n - tot) in
            let some_bytes : 0 < n - tot = ground (arith, more) in
            let next = rounds-suc off (n - tot) some_bytes in
            let one : 1 ≤ k = omega (arith, next) in
            let left : n - tot - m ≡ n - (tot + m) = omega arith in
            elim (Bool-cases (a == 0)) [
              | inl gone ↦ rw gone (
                  Logged-le 1 k ip s (tot, off, ip1, s1) one
                    (Logged-stop 0 tot off ip s a ip1 s1 s1 refl found))
              | inr there ↦ elim (Bool-cases (leb m (reach src m))) [
                | inr torn ↦
                    rw (there, torn)
                      (Logged-le 1 k ip s
                        (
                          tot,
                          off,
                          ip1,
                          change a (copy (off % bsize) src (reach src m) mem (s1.blocks a)) s1,
                        )
                        one
                        (Logged-stop 0 tot off ip s a ip1 s1
                          (change a (copy (off % bsize) src (reach src m) mem (s1.blocks a)) s1)
                          refl found))
                | inl fine ↦
                    let d = copy (off % bsize) src m mem (s1.blocks a) in
                    let few : suc (rounds (off + m) (n - (tot + m))) ≤ k =
                      subst (λ x. suc (rounds (off + m) x) ≤ k) left next in
                    rw (there, fine)
                      (Yields-map (Logged (rounds (off + m) (n - (tot + m))) ip1 (put a d s1))
                        (Logged k ip s) _
                        (writei_loop-Logged reach f (tot + m) (off + m) (src + m) n mem ip1
                          (put a d s1) (ground (arith, le)))
                        (λ r p. Logged-le (suc (rounds (off + m) (n - (tot + m)))) k ip s r few (
                          Logged-round (rounds (off + m) (n - (tot + m))) ip s a ip1 s1 d r found
                            p)))
              ]
            ]))
  ]

  saved-AtMost :
      (k : ℕ) (ip ip2 : Inode) (s : Store) (t o : ℕ) (ip' : Inode) (s' : Store)
      → Logged k ip s (t, o, ip', s')
      → AtMost (k + 4) s (iupdate sb ip2 s')
  unfolding Logged length iupdate
  saved-AtMost k ip ip2 s t o ip' s' (ds, few, logs, stays) =
      let xs = iblock sb ip2.inum ∷ 0 ∷ sb.bmapstart ∷ ip'.addrs ndirect ∷ ds in
      (
        xs,
        omega (arith, few),
        Logs-put s s' (iblock sb ip2.inum) _ xs
            (Logs-more s s' (0 ∷ sb.bmapstart ∷ ip'.addrs ndirect ∷ ds) xs logs
              (λ b h. ground (arith, h)))
            (ground arith),
      )

  AtMost-le : (k k' : ℕ) (s s' : Store) → k ≤ k' → AtMost k s s' → AtMost k' s s'
  AtMost-le k k' s s' le (xs, few, logs) = (xs, omega (arith, le, few), logs)

  rounds-few : (off n : ℕ) → n ≤ 3 * bsize → rounds off n + 4 ≤ 8
  unfolding rounds
  rounds-few off n few = ground (arith, few)

  pub writei-AtMost :
      (reach : ℕ → ℕ → ℕ) (src off n : ℕ) (mem : Data) (ip : Inode) (s : Store)
      → n ≤ 3 * bsize
      → Yields (λ r. AtMost 8 s r.2) (writei sb reach src off n mem ip s)
  unfolding writei length
  writei-AtMost reach src off n mem ip s few =
      let none_yet : AtMost 8 s s = ([], omega arith, λ b h. ground (arith, h)) in
      elim (Bool-cases (ltb ip.size off || ltb ((off + n) % 2 ^ 32) off)) [
        | inl out ↦ rw out none_yet
        | inr inside ↦ elim (Bool-cases (ltb (maxfile * bsize) ((off + n) % 2 ^ 32))) [
          | inl big ↦ rw (inside, big) none_yet
          | inr fits ↦
              rw (inside, fits)
                (Yields-bind (Logged (rounds off n) ip s) (λ r. AtMost 8 s r.2)
                  (writei_loop sb reach (n + 1) 0 off src n mem ip s) _
                  (let whole : n - 0 ≡ n = omega arith in
                    subst
                      (λ x.
                        Yields (Logged (rounds off x) ip s)
                          (writei_loop sb reach (n + 1) 0 off src n mem ip s))
                      whole (writei_loop-Logged reach (n + 1) 0 off src n mem ip s (omega arith)))
                  (λ (t, o, ip', s') l.
                    let grown : Inode = record ip' {
                      size = if ltb ip'.size o then o else ip'.size;
                    } in
                    AtMost-le (rounds off n + 4) 8 s (iupdate sb grown s') (rounds-few off n few)
                      (saved-AtMost (rounds off n) ip grown s t o ip' s' l)))
        ]
      ]
