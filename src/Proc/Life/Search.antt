-- ===== src/Proc/Life/Search.antt =====
-- The searches of the process table.
use xv6_riscv_private.Common.{
  ℕ, zero, suc, ◌+◌, ◌≤◌, ◌<◌, ◌≡◌, Bool, true, false, Option, none, some, ◌==◌, arith, Bool-cases,
  inl, inr,
}
use xv6_riscv_private.Proc.{Table, nproc, is_unused}
use xv6_riscv_private.Proc.Life.{find_unused, get_proc_loop, get_proc}

-- a search from `i` on found the first index that passes `test`, or that there is none
abbrev pub Sought : (ℕ → Bool) → ℕ → ℕ → Option ℕ → Type 0
Sought test i n none = (j : ℕ) → i ≤ j → j < i + n → test j ≡ false
Sought test i n (some k) =
    (i ≤ k) × (k < i + n) × (test k ≡ true) × ((j : ℕ) → i ≤ j → j < k → test j ≡ false)

pub Sought-here : (test : ℕ → Bool) (i n : ℕ) → test i ≡ true → Sought test i (suc n) (some i)
Sought-here test i n h = (omega arith, omega arith, h, λ j l u. absurd (omega arith))

pub Sought-later :
    (test : ℕ → Bool) (i n : ℕ) (r : Option ℕ)
    → test i ≡ false
    → Sought test (i + 1) n r
    → Sought test i (suc n) r
Sought-later test i n none h s = λ j l u. ground (arith, s j)
Sought-later test i n (some k) h (l, u, e, before) =
    (omega arith, omega arith, e, λ j l' u'. ground (arith, before j))

pub find_unused-Sought :
    (n i : ℕ) (t : Table) → Sought (λ j. is_unused (t j).state) i n (find_unused n i t)
unfolding find_unused
find_unused-Sought zero i t = λ j l u. absurd (omega arith)
find_unused-Sought (suc n) i t = elim (Bool-cases (is_unused (t i).state)) [
  | inl e ↦ rw e (Sought-here (λ j. is_unused (t j).state) i n e)
  | inr e ↦ rw e (
      Sought-later (λ j. is_unused (t j).state) i n (find_unused n (i + 1) t) e
        (find_unused-Sought n (i + 1) t))
]

get_proc_loop-Sought :
    (n i pid : ℕ) (t : Table) → Sought (λ j. (t j).pid == pid) i n (get_proc_loop n i pid t)
unfolding get_proc_loop
get_proc_loop-Sought zero i pid t = λ j l u. absurd (omega arith)
get_proc_loop-Sought (suc n) i pid t = elim (Bool-cases ((t i).pid == pid)) [
  | inl e ↦ rw e (Sought-here (λ j. (t j).pid == pid) i n e)
  | inr e ↦ rw e (
      Sought-later (λ j. (t j).pid == pid) i n (get_proc_loop n (i + 1) pid t) e
        (get_proc_loop-Sought n (i + 1) pid t))
]

-- `getProc` returns the first of the 64 processes that has the pid, and null only if none has it.
pub get_proc-Sought :
    (pid : ℕ) (t : Table) → Sought (λ j. (t j).pid == pid) 0 nproc (get_proc pid t)
unfolding get_proc
get_proc-Sought pid t = get_proc_loop-Sought nproc 0 pid t
