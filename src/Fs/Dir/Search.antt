-- ===== src/Fs/Dir/Search.antt =====
-- dirlookup finds the first entry with the name.
use xv6_riscv_private.Common.{
  ℕ, zero, suc, ◌+◌, ◌-◌, ◌*◌, ◌/◌, ◌%◌, ◌^◌, ◌≤◌, ◌<◌, ◌≡◌, ◌≢◌, ◌↔◌, refl, sym, ap, ◌∙◌, subst,
  true, false, not, ◌==◌, ltb, Option, none, some, Outcome, ok, arith, Bool-cases, inl, inr, ◌⊎◌,
  List, pos, eqb_ℤ, ℤ, negsuc,
}
use xv6_riscv_private.Str.{Bytes, strncmp}
use xv6_riscv_private.Str.Compare.{text_at, strncmp-eq-zero}
use xv6_riscv_private.Fs.{bsize, SuperBlock, Store}
use xv6_riscv_private.Fs.Inode.{Inode, maxfile}
use xv6_riscv_private.Fs.Bmap.Found.{mapped}
use xv6_riscv_private.Fs.Content.{readi, min}
use xv6_riscv_private.Fs.Read.{file_byte, readi-inside}
use xv6_riscv_private.Fs.Dir.{
  dirsiz, sizeof_dirent, t_dir, kernel, de_inum, is_named, search_loop, dirsearch,
}

text_at_eq :
    (n p q : ℕ) (m m' : Bytes)
    → ((k : ℕ) → k < n → m (p + k) ≡ m' (q + k))
    → text_at n p m ≡ text_at n q m'
unfolding text_at
text_at_eq zero p q m m' h = refl
text_at_eq (suc n) p q m m' h =
    let this : m p ≡ m' q = ap m (omega arith) ∙ h 0 (omega arith) ∙ ap m' (omega arith) in
    let rest =
      text_at_eq n (p + 1) (q + 1) m m'
        (λ k lt. ap m (omega arith) ∙ h (k + 1) (omega arith) ∙ ap m' (omega arith)) in
    rw (this, rest) refl

-- the inode number and the name of entry `i` of a directory
pub entry_inum : Inode → Store → ℕ → ℕ
entry_inum dp s i = file_byte dp s (16 * i) + 2 ^ 8 * file_byte dp s (16 * i + 1)

pub entry_name : Inode → Store → ℕ → List ℕ
entry_name dp s i = text_at dirsiz (16 * i + 2) (file_byte dp s)

is_zero-eq : (z : ℤ) → (eqb_ℤ z (pos 0) ≡ true) ↔ (z ≡ pos 0)
is_zero-eq (pos n) = (λ e. ground (arith, e), λ e. ground (arith, e))
is_zero-eq (negsuc n) = (λ e. ground (arith, e), λ e. cc)

is_named_lem :
    (name de : ℕ) (mem : Bytes)
    → (is_named name de mem ≡ true) ↔ (text_at dirsiz name mem ≡ text_at dirsiz (de + 2) mem)
unfolding is_named
is_named_lem name de mem =
    let z = is_zero-eq (strncmp name (de + 2) dirsiz mem) in
    let t = strncmp-eq-zero dirsiz name (de + 2) mem in (λ e. t.0 (z.0 e), λ e. z.1 (t.1 e))

module _ (sb : SuperBlock) (name de : ℕ) (dp : Inode) (s : Store) (want : List ℕ) where
  -- Entry `i` is in use and has the name.
  pub record Matches (i : ℕ) : Type 0 where
    pub used : entry_inum dp s i ≢ 0
    pub named : want ≡ entry_name dp s i

  -- what the search from entry `i` on found
  pub data Sought (i : ℕ) (mem : Bytes)
      : Outcome (Option (ℕ × ℕ) × Inode × Store × Bytes) → Type 0 where
    found :
        (k : ℕ) (mem' : Bytes)
        → i ≤ k
        → 16 * k < dp.size
        → Matches k
        → ((j : ℕ) → i ≤ j → j < k → ¬ Matches j)
        → Sought i mem (ok (some (16 * k, entry_inum dp s k), dp, s, mem'))
    missing :
        (mem' : Bytes)
        → ((j : ℕ) → i ≤ j → 16 * j < dp.size → ¬ Matches j)
        → Sought i mem (ok (none, dp, s, mem'))

  module _ (small : dp.size ≤ maxfile * bsize) (whole : dp.size % 16 ≡ 0)
      (held : (i : ℕ) → i < dp.size → mapped dp s (i / bsize) ≢ 0)
      (apart : (name + dirsiz ≤ de) ⊎ (de + 16 ≤ name)) where
    -- what memory holds when the bytes of entry `i` have been read to `de`
    entry_facts :
        (i : ℕ) (mem mem' : Bytes)
        → ((k : ℕ) → k < 16 → mem' (de + k) ≡ file_byte dp s (16 * i + k))
        → ((j : ℕ) → (j < de) ⊎ (de + 16 ≤ j) → mem' j ≡ mem j)
        → (de_inum de mem' ≡ entry_inum dp s i)
          × (text_at dirsiz (de + 2) mem' ≡ entry_name dp s i)
          × (text_at dirsiz name mem' ≡ text_at dirsiz name mem)
    unfolding entry_inum entry_name
    entry_facts i mem mem' byte outside =
        let low : mem' de ≡ file_byte dp s (16 * i) =
          ap mem' (omega arith) ∙ byte 0 (omega arith) ∙ ap (λ x. file_byte dp s x) (omega arith) in
        let high : mem' (de + 1) ≡ file_byte dp s (16 * i + 1) = byte 1 (omega arith) in
        (
          rw (low, high) refl,
          text_at_eq dirsiz (de + 2) (16 * i + 2) mem' (file_byte dp s) (λ k lt.
              ap mem' (omega arith)
              ∙ byte (k + 2) (omega (arith, lt))
              ∙ ap (λ x. file_byte dp s x) (omega arith)),
          text_at_eq dirsiz name name mem' mem
              (λ k lt. outside (name + k) (ground (arith, apart, lt))),
        )

    -- One entry is read to `de`, and the name stays.
    read_entry :
        (i : ℕ) (mem : Bytes)
        → 16 * i < dp.size
        → text_at dirsiz name mem ≡ want
        → (mem' : Bytes) × (readi sb kernel de (16 * i) sizeof_dirent dp s mem
            ≡ ok (sizeof_dirent, dp, s, mem'))
          × (de_inum de mem' ≡ entry_inum dp s i)
          × (text_at dirsiz (de + 2) mem' ≡ entry_name dp s i)
          × (text_at dirsiz name mem' ≡ want)
    read_entry i mem lt same =
        let (mem', e, bytes) =
          readi-inside sb kernel de (16 * i) sizeof_dirent dp s mem (omega (arith, lt))
            (ground (arith, lt, whole, small)) (omega (arith, lt, small))
            (λ j lo hi. held j (ground (arith, hi, lt, whole))) (λ a m. refl) in
        let all : min sizeof_dirent (dp.size - 16 * i) ≡ sizeof_dirent =
          ground (arith, lt, whole) in
        let byte : (k : ℕ) → k < 16 → mem' (de + k) ≡ file_byte dp s (16 * i + k) = λ k kl.
          let at = bytes (de + k) in
          let place : file_byte dp s (16 * i + (de + k - de)) ≡ file_byte dp s (16 * i + k) =
            ap (λ x. file_byte dp s x) (omega arith) in
          ground (arith, at, place, all, kl) in
        let outside : (j : ℕ) → (j < de) ⊎ (de + 16 ≤ j) → mem' j ≡ mem j =
          λ j out. let at = bytes j in ground (arith, at, all, out) in
        let facts = entry_facts i mem mem' byte outside in
        (
          mem',
          subst (λ x. readi sb kernel de (16 * i) sizeof_dirent dp s mem ≡ ok (x, dp, s, mem')) all
              e,
          facts.0,
          facts.1,
          facts.2 ∙ same,
        )

    -- no match at `i`: what is found after it
    Sought-suc :
        (i : ℕ) (mem mem' : Bytes) (r : Outcome (Option (ℕ × ℕ) × Inode × Store × Bytes))
        → ¬ Matches i
        → Sought (i + 1) mem' r
        → Sought i mem r
    Sought-suc i mem mem' r miss (found k m' le lt here before) =
        found k m' (omega (arith, le)) lt here (λ j lo hi. elim (Bool-cases (j == i)) [
          | inl same ↦ λ match. miss (subst Matches (ground (arith, same)) match)
          | inr other ↦ before j (ground (arith, other, lo)) hi
        ])
    Sought-suc i mem mem' r miss (missing m' away) = missing m' (λ j lo lt.
        elim (Bool-cases (j == i)) [
          | inl same ↦ λ match. miss (subst Matches (ground (arith, same)) match)
          | inr other ↦ away j (ground (arith, other, lo)) lt
        ])

    -- one round of the search, once the entry has been read
    Sought-round :
        (f i : ℕ) (mem mem' : Bytes)
        → 16 * i < dp.size
        → readi sb kernel de (16 * i) sizeof_dirent dp s mem ≡ ok (sizeof_dirent, dp, s, mem')
        → de_inum de mem' ≡ entry_inum dp s i
        → text_at dirsiz (de + 2) mem' ≡ entry_name dp s i
        → text_at dirsiz name mem' ≡ want
        → Sought (i + 1) mem' (search_loop sb name de f (16 * i + sizeof_dirent) dp s mem')
        → Sought i mem (search_loop sb name de (suc f) (16 * i) dp s mem)
    unfolding search_loop
    Sought-round f i mem mem' lt e number title still next =
        let inside : ltb (16 * i) dp.size ≡ true = ground (arith, lt) in
        elim (Bool-cases (de_inum de mem' == 0)) [
          | inl empty ↦
              let start : search_loop sb name de (suc f) (16 * i) dp s mem
                  ≡ search_loop sb name de f (16 * i + sizeof_dirent) dp s mem' =
                rw (inside, e, empty) refl in
              let miss : ¬ Matches i = λ match. match.used (sym number ∙ ground (arith, empty)) in
              subst (λ x. Sought i mem x) (sym start) (Sought-suc i mem mem' _ miss next)
          | inr used ↦ elim (Bool-cases (is_named name de mem')) [
            | inl named ↦
                let start : search_loop sb name de (suc f) (16 * i) dp s mem
                    ≡ ok (some (16 * i, entry_inum dp s i), dp, s, mem') =
                  rw (inside, e, used, named, number) refl in
                let match : Matches i = record {
                  used = λ z. ground (arith, used, number, z);
                  named = sym still ∙ (is_named_lem name de mem').0 named ∙ title;
                } in
                subst (λ x. Sought i mem x) (sym start)
                  (found i mem' (omega arith) lt match (λ j lo hi. absurd (omega (arith, lo, hi))))
            | inr other ↦
                let start : search_loop sb name de (suc f) (16 * i) dp s mem
                    ≡ search_loop sb name de f (16 * i + sizeof_dirent) dp s mem' =
                  rw (inside, e, used, other) refl in
                let miss : ¬ Matches i = λ match.
                  let yes = (is_named_lem name de mem').1 (still ∙ match.named ∙ sym title) in
                  ground (arith, other, yes) in
                subst (λ x. Sought i mem x) (sym start) (Sought-suc i mem mem' _ miss next)
          ]
        ]

    search_done :
        (f i : ℕ) (mem : Bytes)
        → ltb (16 * i) dp.size ≡ false
        → Sought i mem (search_loop sb name de (suc f) (16 * i) dp s mem)
    unfolding search_loop
    search_done f i mem done =
        rw done (missing mem (λ j lo lt. absurd (ground (arith, done, lo, lt))))

    search_loop-Sought :
        (f i : ℕ) (mem : Bytes)
        → dp.size + 16 < 16 * (i + f)
        → 16 * i ≤ dp.size + 16
        → text_at dirsiz name mem ≡ want
        → Sought i mem (search_loop sb name de f (16 * i) dp s mem)
    search_loop-Sought zero i mem fuel near same = absurd (omega (arith, fuel, near))
    search_loop-Sought (suc f) i mem fuel near same = elim (Bool-cases (ltb (16 * i) dp.size)) [
      | inr done ↦ search_done f i mem done
      | inl more ↦
          let lt : 16 * i < dp.size = ground (arith, more) in
          let (mem', e, number, title, still) = read_entry i mem lt same in
          let next =
            search_loop-Sought f (i + 1) mem' (omega (arith, fuel)) (omega (arith, lt)) still in
          Sought-round f i mem mem' lt e number title still (
            subst (λ x. Sought (i + 1) mem' (search_loop sb name de f x dp s mem')) (omega arith)
              next)
    ]

-- In a directory whose size is a number of whole entries and which has all its blocks, and with the name outside
-- the variable `de`, the search of `dirlookup` ends without a panic, and changes neither the directory nor
-- the disk. It returns the first entry in use that has the name, with its offset and inode number, and null only
-- if there is none.
pub dirsearch-Sought :
    (sb : SuperBlock) (name de : ℕ) (dp : Inode) (s : Store) (mem : Bytes)
    → dp.type ≡ t_dir
    → dp.size ≤ maxfile * bsize
    → dp.size % 16 ≡ 0
    → ((i : ℕ) → i < dp.size → mapped dp s (i / bsize) ≢ 0)
    → (name + dirsiz ≤ de) ⊎ (de + 16 ≤ name)
    → Sought sb name de dp s (text_at dirsiz name mem) 0 mem (dirsearch sb name de dp s mem)
unfolding dirsearch
dirsearch-Sought sb name de dp s mem dir small whole held apart =
    let found =
      search_loop-Sought sb name de dp s (text_at dirsiz name mem) small whole held apart
        (dp.size / sizeof_dirent + 2) 0 mem (omega (arith, whole)) (omega arith) refl in
    let is_dir : not (dp.type == t_dir) ≡ false = ground (arith, dir) in rw is_dir found
