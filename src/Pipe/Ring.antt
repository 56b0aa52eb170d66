-- ===== src/Pipe/Ring.antt =====
-- The ring against a stream of bytes with counters that never wrap.
use xv6_riscv_private.Common.{ℕ, ◌+◌, ◌%◌, ◌^◌, ◌≤◌, ◌<◌, ◌≡◌, ◌↔◌, ◌∙◌, ap, true, update, arith}
use xv6_riscv_private.Pipe.{Pipe, pipesize, is_full, is_empty, push, pull}

-- Of the stream `s`, `w` bytes have been written and `r` read; the ring holds those in between.
pub record IsPipe (s : ℕ → ℕ) (r w : ℕ) (pi : Pipe) : Type 0 where
  pub behind : r ≤ w
  pub fits : w ≤ r + pipesize
  pub nread : pi.nread ≡ r % 2 ^ 32
  pub nwrite : pi.nwrite ≡ w % 2 ^ 32
  pub bytes : (j : ℕ) → r ≤ j → j < w → pi.data_at (j % pipesize) ≡ s j

module _ (s : ℕ → ℕ) (r w : ℕ) (pi : Pipe) (h : IsPipe s r w pi) where
  pub is_full-eq : (is_full pi ≡ true) ↔ (w ≡ r + pipesize)
  unfolding is_full
  is_full-eq =
      let a = h.behind in
      let b = h.fits in
      let c = h.nread in let d = h.nwrite in (λ e. ground (arith, e), λ e. ground (arith, e))

  pub is_empty-eq : (is_empty pi ≡ true) ↔ (w ≡ r)
  unfolding is_empty
  is_empty-eq =
      let a = h.behind in
      let b = h.fits in
      let c = h.nread in let d = h.nwrite in (λ e. ground (arith, e), λ e. ground (arith, e))

  slot : pi.nwrite % pipesize ≡ w % pipesize
  slot = let d = h.nwrite in omega (arith, d)

  pub push-IsPipe : (ch : ℕ) → w < r + pipesize → IsPipe (update s w ch) r (w + 1) (push ch pi)
  unfolding push
  push-IsPipe ch room = record {
    behind = let a = h.behind in omega arith;
    fits = omega arith;
    nread = h.nread;
    nwrite = let d = h.nwrite in omega (arith, d);
    bytes = λ j lo hi. let old = h.bytes j lo in let q = slot in ground (arith, old, q);
  }

  pub pull-IsPipe : r < w → IsPipe s (r + 1) w (pull pi).1
  unfolding pull
  pull-IsPipe some_left = record {
    behind = omega arith;
    fits = let b = h.fits in omega arith;
    nread = let d = h.nread in omega (arith, d);
    nwrite = h.nwrite;
    bytes = λ j lo hi. h.bytes j (omega arith) hi;
  }

  pub pull-eq : r < w → (pull pi).0 ≡ s r
  unfolding pull
  pull-eq some_left =
      let d = h.nread in
      let q : pi.nread % pipesize ≡ r % pipesize = omega (arith, d) in
      ap pi.data_at q ∙ h.bytes r (omega arith) some_left
