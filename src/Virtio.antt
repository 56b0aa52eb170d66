-- ===== src/Virtio.antt =====
-- kernel/virtio_disk.c: the descriptors of a disk request, from their allocation to free_chain.
pub mod Alloc
pub mod Chain
mod Tests
use xv6_riscv_private.Common.{
  ℕ, zero, suc, ◌+◌, ◌%◌, Bool, true, false, ◌==◌, leb, if◌then◌else◌, update, Option, none, some,
  List, [], ◌∷◌, ◌++◌, Outcome, ok, out_of_fuel, panic_if, ◌>>=◌, ◌>>◌,
}

abbrev pub num : ℕ
num = 8

-- `struct virtq_desc`; bit 0 of the flags is VRING_DESC_F_NEXT, bit 1 VRING_DESC_F_WRITE
pub record Desc : Type 0 where
  pub addr : ℕ
  pub len : ℕ
  pub flags : ℕ
  pub next : ℕ

-- `disk.desc` and `disk.free`
pub record Queue : Type 0 where
  pub desc : ℕ → Desc
  pub is_free : ℕ → Bool

-- the loop of `alloc_desc`, with `n` descriptors left from `i` on; none for -1
unfoldable pub alloc_desc_loop : ℕ → ℕ → Queue → Option (ℕ × Queue)
alloc_desc_loop zero i q = none
alloc_desc_loop (suc n) i q =
    let rest = alloc_desc_loop n (i + 1) q in
    if q.is_free i then some (i, record q { is_free = update q.is_free i false }) else rest

unfoldable pub alloc_desc : Queue → Option (ℕ × Queue)
alloc_desc q = alloc_desc_loop num 0 q

unfoldable pub free_desc : ℕ → Queue → Outcome Queue
free_desc i q = do
  panic_if (leb num i)
  panic_if (q.is_free i)
  ok record {
    desc = update q.desc i record { addr = 0; len = 0; flags = 0; next = 0 };
    is_free = update q.is_free i true;
  }

-- `free_chain`, for chains of less than `f` descriptors
unfoldable pub free_chain : ℕ → ℕ → Queue → Outcome Queue
free_chain zero i q = out_of_fuel
free_chain (suc f) i q = do
  q' ← free_desc i q
  let rest = free_chain f (q.desc i).next q'
  if (q.desc i).flags % 2 == 1 then rest else ok q'

-- `for(int j = 0; j < i; j++) free_desc(idx[j]);`
unfoldable pub free_descs : List ℕ → Queue → Outcome Queue
free_descs [] q = ok q
free_descs (i ∷ idx) q = do q' ← free_desc i q; free_descs idx q'

-- the loop of `alloc3_desc`, with `n` descriptors left to allocate; none for -1
unfoldable pub alloc3_desc_loop : ℕ → List ℕ → Queue → Outcome (Option (List ℕ) × Queue)
alloc3_desc_loop zero idx q = ok (some idx, q)
alloc3_desc_loop (suc n) idx q = elim (alloc_desc q) [
  | none ↦ free_descs idx q >>= λ q'. ok (none, q')
  | some (i, q') ↦ alloc3_desc_loop n (idx ++ (i ∷ [])) q'
]

unfoldable pub alloc3_desc : Queue → Outcome (Option (List ℕ) × Queue)
alloc3_desc q = alloc3_desc_loop 3 [] q

-- the descriptors that `virtio_disk_rw` fills in, for a request header, a block and a status at these addresses
unfoldable pub format : ℕ → ℕ → ℕ → Bool → ℕ → ℕ → ℕ → Queue → Queue
format buf0 block status write i0 i1 i2 q =
    let d0 = update q.desc i0 record { addr = buf0; len = 16; flags = 1; next = i1 } in
    let d1 =
      update d0 i1 record { addr = block; len = 1024; flags = if write then 1 else 3; next = i2 } in
    record q { desc = update d1 i2 record { addr = status; len = 1; flags = 2; next = 0 } }
