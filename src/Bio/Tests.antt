-- ===== src/Bio/Tests.antt =====
-- Tests, and the theorems at concrete caches.
use xv6_riscv_private.Common.{
  ℕ, ◌≡◌, refl, true, false, ◌==◌, if◌then◌else◌, arith, ok, panic, ◌≢◌, ◌∙◌, Bool-cases, inl, inr,
}
use xv6_riscv_private.Bio.{Cache, binit, bget, brelse}
use xv6_riscv_private.Bio.Sleeplock.{holdingsleep}
use xv6_riscv_private.Bio.Get.{AreUnique, Outcomes, bget_lem}
use xv6_riscv_private.Bio.Release.{Released, brelse_lem, initial, binit-IsRing}

abbrev zeroed : Cache
zeroed = record {
  buf = λ b. record {
    valid = false;
    dev = 0;
    blockno = 0;
    lock = record { locked = false; pid = 0 };
    refcnt = 0;
    contents = λ i. 0;
  };
  prev = λ b. 0;
  next = λ b. 0;
}

-- Buffer 3 holds block 7 of device 1 for process 9, and the others hold none.
abbrev in_use : Cache
in_use = record {
  buf = λ b.
      if b == 3
      then record {
        valid = true;
        dev = 1;
        blockno = 7;
        lock = record { locked = true; pid = 9 };
        refcnt = 1;
        contents = λ i. 5;
      }
      else zeroed.buf b;
  prev = (binit zeroed).prev;
  next = (binit zeroed).next;
}

in_use-dev : (b : ℕ) → (in_use.buf b).dev ≢ 0 → b ≡ 3
in_use-dev b ne = elim (Bool-cases (b == 3)) [
  | inl e ↦ ground (arith, e)
  | inr e ↦ absurd (ne (rw e refl))
]

in_use-AreUnique : AreUnique in_use.buf
in_use-AreUnique = record {
  unique = λ i j il jl ne d n.
      let a = in_use-dev i ne in let b = in_use-dev j (λ z. ne (d ∙ z)) in ground (arith, a, b);
}

bget_lem_example : Outcomes 1 7 in_use initial (bget 1 7 in_use)
bget_lem_example = bget_lem 1 7 in_use initial (binit-IsRing zeroed) (omega arith) in_use-AreUnique

brelse_lem_example :
    (holdingsleep 9 (in_use.buf (initial 27)).lock ≡ true
      → (c' : Cache) × (brelse 9 (initial 27) in_use ≡ ok c') × Released 9 in_use initial 27 c')
    × (holdingsleep 9 (in_use.buf (initial 27)).lock ≡ false → brelse 9 (initial 27) in_use ≡ panic)
brelse_lem_example =
    brelse_lem 9 in_use initial 27 (binit-IsRing zeroed) (omega arith) (omega arith) (omega arith)
      (omega arith)
