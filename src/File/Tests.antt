-- ===== src/File/Tests.antt =====
-- Tests, and the theorem at a concrete history.
use xv6_riscv_private.Common.{◌≡◌, refl, false, ok, [], ◌∷◌, some}
use xv6_riscv_private.File.{fd_none, filealloc, alloc_loop}
use xv6_riscv_private.File.Refs.{alloc, dup, close, State, run, IsCounted, run-IsCounted}

abbrev closed : State
closed = record {
  files = λ f. record {
    type = fd_none;
    ref = 0;
    readable = false;
    writable = false;
    pipe = 0;
    ip = 0;
    off = 0;
    major = 0;
  };
  held = λ f. 0;
}

-- The first file is given out twice, as it was closed in between.
given_again : (filealloc closed.files).0 ≡ some 0
unfolding filealloc alloc_loop
given_again = refl

run-IsCounted_example :
    (s' : State) × (run (alloc ∷ dup 0 ∷ close 0 ∷ close 0 ∷ alloc ∷ close 5 ∷ []) closed ≡ ok s')
    × IsCounted s'
run-IsCounted_example =
    run-IsCounted (alloc ∷ dup 0 ∷ close 0 ∷ close 0 ∷ alloc ∷ close 5 ∷ []) closed
      (record { counts = λ f lt. refl })
