-- ===== src/Pipe.antt =====
-- kernel/pipe.c: a ring of bytes under two 32-bit counters. pipewrite and piperead are modelled from one
-- sleep to the next, between which they hold the pipe's lock.
pub mod Ring
pub mod Flow
mod Tests
use xv6_riscv_private.Common.{
  ℕ, zero, suc, ◌+◌, ◌%◌, ◌^◌, Bool, true, false, not, ◌&&◌, ◌||◌, ◌==◌, if◌then◌else◌, update,
  Option, none, some, ℤ, pos, negsuc, List, [], ◌∷◌,
}

abbrev pub pipesize : ℕ
pipesize = 512

pub record Pipe : Type 0 where
  pub data_at : ℕ → ℕ
  pub nread : ℕ
  pub nwrite : ℕ
  pub readopen : Bool
  pub writeopen : Bool

unfoldable pub is_full : Pipe → Bool
is_full pi = pi.nwrite == (pi.nread + pipesize) % 2 ^ 32

unfoldable pub is_empty : Pipe → Bool
is_empty pi = pi.nread == pi.nwrite

-- `pi->data[pi->nwrite++ % PIPESIZE] = ch;`
unfoldable pub push : ℕ → Pipe → Pipe
push ch pi = record pi {
  data_at = update pi.data_at (pi.nwrite % pipesize) ch;
  nwrite = (pi.nwrite + 1) % 2 ^ 32;
}

-- `ch = pi->data[pi->nread++ % PIPESIZE];`
unfoldable pub pull : Pipe → ℕ × Pipe
pull pi = (pi.data_at (pi.nread % pipesize), record pi { nread = (pi.nread + 1) % 2 ^ 32 })

-- how a stretch under the lock ends
pub data End : Type 0 where
  returned : ℤ → End
  asleep : End

-- The loop of `pipewrite` with `n` bytes left from index `i` on; `copyin` is the user's memory, where it
-- can be read. The result has the index reached.
unfoldable pub write_loop : ℕ → ℕ → (ℕ → Option ℕ) → ℕ → Bool → Pipe → ℕ × Pipe × End
write_loop zero i copyin addr killed pi = (i, pi, returned (pos i))
write_loop (suc n) i copyin addr killed pi =
    if not pi.readopen || killed
    then (i, pi, returned (negsuc 0))
    else if is_full pi
    then (i, pi, asleep)
    else elim (copyin (addr + i)) [
      | none ↦ (i, pi, returned (pos i))
      | some ch ↦ write_loop n (i + 1) copyin addr killed (push ch pi)
    ]

-- The loop of `piperead`; `copyout` says where the user's memory can be written. The result has the
-- bytes copied out and the value returned.
unfoldable pub read_loop : ℕ → ℕ → (ℕ → Bool) → ℕ → Pipe → List ℕ × Pipe × ℕ
read_loop zero i copyout addr pi = ([], pi, i)
read_loop (suc n) i copyout addr pi =
    let ch = (pull pi).0 in
    let pi' = (pull pi).1 in
    let (chs, pi'', r) = read_loop n (i + 1) copyout addr pi' in
    if is_empty pi
    then ([], pi, i)
    else if copyout (addr + i)
    then (ch ∷ chs, pi'', r)
    else ([], pi', i)

-- `piperead`, from its start or after a sleep
unfoldable pub piperead : ℕ → (ℕ → Bool) → ℕ → Bool → Pipe → List ℕ × Pipe × End
piperead n copyout addr killed pi =
    let (chs, pi', r) = read_loop n 0 copyout addr pi in
    if is_empty pi && pi.writeopen
    then if killed then ([], pi, returned (negsuc 0)) else ([], pi, asleep)
    else (chs, pi', returned (pos r))
