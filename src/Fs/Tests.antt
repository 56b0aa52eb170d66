-- ===== src/Fs/Tests.antt =====
-- Tests, and the theorems at concrete stores.
use xv6_riscv_private.Common.{
  ℕ, ◌+◌, ◌*◌, ◌/◌, ◌%◌, ◌<◌, ◌≤◌, ◌≡◌, some, ◌≢◌, ◌⊎◌, inl, inr, refl, true, false, not, ◌&&◌,
  ◌==◌, ltb, if◌then◌else◌, arith, Bool-cases, is_positive, [], ok, panic, pos, ◌||◌, ◌>>=◌,
}
use xv6_riscv_private.Fs.{Data, bsize, SuperBlock, Store, bblock}
use xv6_riscv_private.Fs.Bitmap.{is_free, bit_clear}
use xv6_riscv_private.Fs.Blocks.{balloc, balloc_loop, find_bit, bfree, in_use, HasMap}
use xv6_riscv_private.Fs.Blocks.Laws.{Fresh, balloc_lem, bfree_lem}
use xv6_riscv_private.Fs.Inode.{Inode, iupdate, ilock, maxfile}
use xv6_riscv_private.Fs.Inode.Layout.{SameDisk, Alike, iupdate_lem}
use xv6_riscv_private.Fs.Bmap.{bmap}
use xv6_riscv_private.Fs.Bmap.Found.{mapped, Found}
use xv6_riscv_private.Fs.Bmap.Laws.{bmap_lem}
use xv6_riscv_private.Fs.Content.{readi}
use xv6_riscv_private.Fs.Content.{failed, writei}
use xv6_riscv_private.Fs.Write.{IsFile}
use xv6_riscv_private.Fs.Write.Logged.{AtMost}
use xv6_riscv_private.Fs.Write.Laws.{Saved, writei_lem, readi-writei}
use xv6_riscv_private.Fs.Table.{Table, ninode, is_at, is_zero_ref, iget}
use xv6_riscv_private.Fs.Table.Refs.{Holds, iget_lem}
use xv6_riscv_private.Str.Compare.{text_at}
use xv6_riscv_private.Fs.Dir.{dirsiz, dirsearch}
use xv6_riscv_private.Fs.Path.{skipelem, skip_while, copy_name}
use xv6_riscv_private.Fs.Path.Element.{Element, skipelem_lem}
use xv6_riscv_private.Fs.Dir.Search.{Sought, dirsearch-Sought}

-- A disk of 100 blocks, of which the first 40 are in use; block 5 is the free map.
abbrev disk : SuperBlock
disk = record { size = 100; ninodes = 32; nlog = 0; logstart = 2; inodestart = 3; bmapstart = 5 }

-- Block 20 is a directory whose entry `k` has the number `k` and one letter as its name.
abbrev contents : ℕ → Data
contents b i =
    if b == 5
    then if ltb i 5 then 255 else 0
    else if b == 20
    then if i % 16 == 0 then i / 16 else if i % 16 == 2 then 97 + i / 16 else 0
    else 0

abbrev store : Store
store = record { blocks = contents; logged = [] }

store-HasMap : HasMap disk store
unfolding in_use is_free bit_clear
store-HasMap = record {
  bytes = λ b lt.
      let map : bblock b disk ≡ 5 = omega (arith, lt) in
      rw map record { small = λ i. ground arith };
  boot = refl;
  itself = λ b lt. let map : bblock b disk ≡ 5 = omega (arith, lt) in rw map refl;
  within = λ b lt. omega (arith, lt);
}

balloc_40 : (balloc disk store).0 ≡ 40
unfolding balloc balloc_loop find_bit is_free bit_clear
balloc_40 = refl

balloc_lem_example :
    Fresh disk store (balloc disk store).0 (balloc disk store).1
    ⊎ (((balloc disk store).0 ≡ 0)
        × ((balloc disk store).1 ≡ store)
        × ((c : ℕ) → c < disk.size → in_use disk store c ≡ true))
balloc_lem_example = balloc_lem disk store store-HasMap

bfree_lem_example :
    (in_use disk store 20 ≡ false → bfree disk 20 store ≡ panic)
    × (in_use disk store 20 ≡ true
        → (s' : Store) × (bfree disk 20 store ≡ ok s')
          × ((c : ℕ) → in_use disk s' c ≡ (not (20 == c) && in_use disk store c))
          × ((c : ℕ) → c ≢ bblock 20 disk → s'.blocks c ≡ store.blocks c))
bfree_lem_example = bfree_lem disk 20 store (omega arith) store-HasMap

abbrev directory : Inode
directory = record {
  dev = 1;
  inum = 17;
  ref = pos 1;
  valid = true;
  type = 1;
  major = 0;
  minor = 0;
  nlink = 1;
  size = 48;
  addrs = λ i. if i == 0 then 20 else 0;
}

-- an entry of the inode table for the directory, before `ilock`
abbrev unread : Inode
unread = record directory { valid = false; type = 0; size = 0 }

iupdate_lem_example :
    (◌≡◌ {A = ℕ} 17 17
      → (◌≡◌ {A = ℕ} 1 0 → ilock disk unread (iupdate disk directory store) ≡ panic)
        × (◌≢◌ {A = ℕ} 1 0
            → (l : Inode) × (ilock disk unread (iupdate disk directory store) ≡ ok l)
              × SameDisk l directory
              × (l.valid ≡ true)))
    × (◌≢◌ {A = ℕ} 17 17
        → Alike (ilock disk unread (iupdate disk directory store)) (ilock disk unread store))
iupdate_lem_example =
    iupdate_lem disk directory unread store
      record {
        type = omega arith;
        major = omega arith;
        minor = omega arith;
        nlink = omega arith;
        size = omega arith;
        addrs = λ i le. ground arith;
      }
      refl refl

bmap_lem_example :
    (3 < maxfile
      → (a : ℕ) × (ip' : Inode) × (s' : Store) × (bmap disk directory 3 store ≡ ok (a, ip', s'))
        × Found disk directory 3 store a ip' s')
    × (maxfile ≤ 3 → bmap disk directory 3 store ≡ panic)
bmap_lem_example = bmap_lem disk directory 3 store (omega arith) (omega arith) store-HasMap record {
  far = λ ne. absurd (ne refl);
  inside = λ ne. absurd (ne refl);
  used = λ ne. absurd (ne refl);
}

directory-mapped : (i : ℕ) → i < 48 → mapped directory store (i / bsize) ≢ 0
unfolding mapped
directory-mapped i lt = let first : i / bsize ≡ 0 = omega (arith, lt) in rw first (ground arith)

-- Block 20 is the only one of the directory.
directory-first : (i : ℕ) → mapped directory store i ≡ (if i == 0 then 20 else 0)
unfolding mapped
directory-first i = ground arith

directory-IsFile : IsFile disk directory store
unfolding in_use is_free bit_clear
directory-IsFile = record {
  map = store-HasMap;
  root = record {
    far = λ ne. absurd (ne refl);
    inside = λ ne. absurd (ne refl);
    used = λ ne. absurd (ne refl);
  };
  held = λ i lt.
      let e = directory-first i in
      record {
        far = λ ne c cl q. ground (arith, e, ne, cl, q);
        inside = λ ne. ground (arith, e, ne);
        used = λ ne. let b : mapped directory store i ≡ 20 = ground (arith, e, ne) in rw b refl;
      };
  distinct = λ i j li lj nz q.
      let a = directory-first i in let b = directory-first j in ground (arith, a, b, nz, q);
  off_root = λ i lt nz. nz;
  node = ground arith;
  node_held = record {
    far = λ ne c cl q. omega (arith, cl, q);
    inside = λ ne. omega arith;
    used = λ ne. refl;
  };
  off_node = λ i lt q. let e = directory-first i in ground (arith, e, q);
  root_node = ground arith;
}

-- The 100 bytes from address 7 on are written at offset 30.
writei_lem_example :
    (30 + 100 ≤ maxfile * bsize
      → (w : ℕ) × (ip' : Inode) × (s' : Store) × (writei disk
            (λ a m. m)
            7
            30
            100
            (λ a. a)
            directory
            store
          ≡ ok (w, ip', s'))
        × (w ≤ 100)
        × AtMost 8 store s'
        × Saved disk 7 30 w (λ a. a) directory store ip' s'
        × (((i : ℕ) → 30 ≤ i → i < 30 + 100 → mapped directory store (i / bsize) ≢ 0) → w ≡ 100))
    × (maxfile * bsize < 30 + 100
        → writei disk (λ a m. m) 7 30 100 (λ a. a) directory store ≡ ok (failed, directory, store))
writei_lem_example =
    writei_lem disk (λ a m. m) 7 30 100 (λ a. a) directory store (omega arith) (omega arith)
      directory-IsFile (omega arith) (omega arith) (omega arith) (λ a m. refl)

readi-writei_example :
    (w : ℕ) × (ip' : Inode) × (s' : Store) × (mem' : Data) × (writei disk
        (λ a m. m)
        7
        30
        100
        (λ a. a)
        directory
        store
      ≡ ok (w, ip', s'))
    × AtMost 8 store s'
    × (readi disk (λ a m. m) 500 30 w ip' s' (λ a. 0) ≡ ok (w, ip', s', mem'))
    × ((j : ℕ) → j < w → mem' (500 + j) ≡ 7 + j)
readi-writei_example =
    readi-writei disk (λ a m. m) 7 30 100 (λ a. a) directory store 500 (λ a. 0) (omega arith)
      (omega arith) directory-IsFile directory-mapped (omega arith) (omega arith) (omega arith)
      (omega arith) (λ a m. refl)

-- the inode table with two entries in use
abbrev table : Table
table i = if ltb i 2 then record directory { inum = 17 + i } else record directory { ref = pos 0 }

used-lt : (i : ℕ) → is_positive (table i).ref ≡ true → (ltb i 2 ≡ true) × ((table i).inum ≡ 17 + i)
used-lt i h = elim (Bool-cases (ltb i 2)) [
  | inl e ↦ (e, rw e refl)
  | inr e ↦
      let dead : is_positive (table i).ref ≡ false = rw e refl in absurd (ground (arith, h, dead))
]

iget_lem_example :
    ((i : ℕ) × (t' : Table) × (iget 1 18 table ≡ ok (i, t')) × Holds 1 18 table i t')
    ⊎ ((iget 1 18 table ≡ panic)
        × ((j : ℕ)
            → j < ninode
            → (is_at 1 18 (table j) ≡ false) × (is_zero_ref (table j).ref ≡ false)))
iget_lem_example = iget_lem 1 18 table record {
  unique = λ i j li lj pi pj d n.
      let a = used-lt i pi in let b = used-lt j pj in ground (arith, a, b, n);
}

-- The name "c" is at address 100, and `de` at 200.
abbrev memory : Data
memory a = if a == 100 then 99 else 0

dirsearch-Sought_example :
    Sought disk 100 200 directory store
      (text_at dirsiz 100 memory)
      0
      memory
      (dirsearch disk 100 200 directory store memory)
dirsearch-Sought_example =
    dirsearch-Sought disk 100 200 directory store memory refl (omega arith) refl directory-mapped
      (inl (omega arith))

-- The path "/a/" is at address 300.
abbrev path_memory : Data
path_memory a = if a == 300 || a == 302 then 47 else if a == 301 then 97 else 0

skipelem_303 : (skipelem 128 300 400 path_memory >>= (λ r. ok r.0)) ≡ ok (some 303)
unfolding skipelem skip_while copy_name xv6_riscv_private.Str.memmove
skipelem_303 = refl

skipelem_lem_example : Element 300 3 400 path_memory (skipelem 128 300 400 path_memory)
skipelem_lem_example = skipelem_lem 128 300 3 400 path_memory (omega arith) refl (inr (omega arith))
