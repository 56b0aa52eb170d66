-- ===== src/Pipe/Tests.antt =====
-- Tests of the pipe, and its theorems at a pipe whose counters are about to wrap.
use xv6_riscv_private.Common.{
  ℕ, ◌+◌, ◌-◌, ◌^◌, ◌≤◌, ◌≡◌, refl, true, false, Option, some, arith, [], ◌∷◌,
}
use xv6_riscv_private.Pipe.{Pipe, write_loop, read_loop, push, pull, is_empty, is_full, piperead}
use xv6_riscv_private.Pipe.Ring.{IsPipe}
use xv6_riscv_private.Pipe.Flow.{Wrote, Why, write_loop_lem, Read, read_loop_lem}

abbrev wrap : ℕ
wrap = 2 ^ 32 - 1

abbrev drained : Pipe
drained = record {
  data_at = λ j. 7;
  nread = wrap;
  nwrite = wrap;
  readopen = true;
  writeopen = true;
}

drained-IsPipe : IsPipe (λ j. 7) wrap wrap drained
drained-IsPipe = record {
  behind = omega arith;
  fits = omega arith;
  nread = refl;
  nwrite = refl;
  bytes = λ j lo hi. refl;
}

abbrev text : ℕ → Option ℕ
text a = some (a + 1)

write_loop_lem_example :
    (m : ℕ) × (s' : ℕ → ℕ) × (m ≤ 2)
    × ((write_loop 2 0 text 100 false drained).0 ≡ 0 + m)
    × Wrote text (100 + 0) (λ j. 7) wrap wrap m s' (write_loop 2 0 text 100 false drained).1
    × Why text 100 0 2 wrap wrap m false true (write_loop 2 0 text 100 false drained).2
write_loop_lem_example = write_loop_lem 2 0 text 100 false drained (λ j. 7) wrap wrap drained-IsPipe

abbrev filled : Pipe
filled = record { data_at = λ j. 7; nread = wrap; nwrite = 1; readopen = true; writeopen = true }

filled-IsPipe : IsPipe (λ j. 7) wrap (wrap + 2) filled
filled-IsPipe = record {
  behind = omega arith;
  fits = omega arith;
  nread = refl;
  nwrite = refl;
  bytes = λ j lo hi. refl;
}

read_loop_lem_example :
    (m : ℕ) × (p : ℕ) × Read 5 0
      (λ a. true)
      100
      (λ j. 7)
      wrap
      (wrap + 2)
      m
      p
      (read_loop 5 0 (λ a. true) 100 filled).0
      (read_loop 5 0 (λ a. true) 100 filled).1
      (read_loop 5 0 (λ a. true) 100 filled).2
read_loop_lem_example =
    read_loop_lem 5 0 (λ a. true) 100 filled (λ j. 7) wrap (wrap + 2) filled-IsPipe

-- The two bytes written are read, and the third read finds the pipe empty.
through :
    (piperead 3 (λ a. true) 0 false (write_loop 2 0 text 100 false drained).1).0 ≡ 101 ∷ 102 ∷ []
unfolding piperead read_loop write_loop push is_empty is_full pull
through = refl
