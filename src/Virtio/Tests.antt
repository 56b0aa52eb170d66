-- ===== src/Virtio/Tests.antt =====
-- Tests, and the theorem on a request at a queue with three free descriptors.
use xv6_riscv_private.Common.{
  ℕ, ◌+◌, ◌≡◌, refl, true, false, ◌&&◌, leb, ltb, update, some, [], ◌∷◌, ok,
}
use xv6_riscv_private.Virtio.{
  Queue, num, alloc_desc, alloc_desc_loop, free_chain, alloc3_desc, alloc3_desc_loop, format,
}
use xv6_riscv_private.Virtio.Alloc.{Allocated, alloc3_desc_lem}
use xv6_riscv_private.Virtio.Chain.{free_chain-alloc3_desc}

abbrev queue : Queue
queue = record {
  desc = λ i. record { addr = 0; len = 0; flags = 0; next = 0 };
  is_free = λ i. ltb 3 i && leb i 6;
}

abbrev after : Queue
after = record queue { is_free = update (update (update queue.is_free 4 false) 5 false) 6 false }

alloc3_desc_lem_example : Allocated queue 3 (alloc3_desc queue)
alloc3_desc_lem_example = alloc3_desc_lem queue

allocates : alloc3_desc queue ≡ ok (some (4 ∷ 5 ∷ 6 ∷ []), after)
unfolding alloc3_desc alloc3_desc_loop alloc_desc alloc_desc_loop
allocates = refl

free_chain-alloc3_desc_example :
    (q'' : Queue) × (free_chain (num + 1) 4 (format 1000 2000 3000 true 4 5 6 after) ≡ ok q'')
    × ((j : ℕ) → q''.is_free j ≡ queue.is_free j)
free_chain-alloc3_desc_example =
    free_chain-alloc3_desc 1000 2000 3000 true 4 5 6 queue after allocates
