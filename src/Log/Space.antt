-- ===== src/Log/Space.antt =====
-- The reservation of log space: an operation that writes at most MAXOPBLOCKS blocks never meets the
-- panics of log_write, and no block is in the log twice.
use xv6_riscv_private.Common.{
  ℕ, zero, suc, ◌+◌, ◌-◌, ◌≤◌, ◌<◌, ◌≡◌, Bool, true, false, ltb, if◌then◌else◌, List, [], ◌∷◌, All,
  none, some, Outcome, ok, ◌>>=◌, pos,
}
use xv6_riscv_private.Log.{Device, maxopblocks, logsize}
use xv6_riscv_private.Log.Ops.{Log, begin_op, end_op, end_commit, log_write}
use xv6_riscv_private.Log.Absorb.{AreDistinct}

-- What an operation may write so that `log_write` has room for it: MAXOPBLOCKS blocks, if the log has more than
-- LOGSIZE blocks, or one block less, if it has LOGSIZE, as in the file systems of mkfs.
abbrev pub Affords : ℕ → ℕ → Type 0
Affords size budget =
    (budget ≤ maxopblocks) × (logsize ≤ size) × (logsize + budget < size + maxopblocks)

-- The system calls in progress, each with the number of blocks that it may still write
pub record State : Type 0 where
  pub log : Log
  pub dev : Device
  pub ops : List ℕ

abbrev pub sum : List ℕ → ℕ
sum [] = 0
sum (x ∷ xs) = x + sum xs

abbrev pub count : List ℕ → ℕ
count [] = 0
count (x ∷ xs) = suc (count xs)

-- whether there is a system call at position `p`, and whether it has a block left
pub is_op : ℕ → List ℕ → Bool
is_op p [] = false
is_op zero (x ∷ xs) = true
is_op (suc p) (x ∷ xs) = is_op p xs

unfoldable pub can_spend : ℕ → List ℕ → Bool
can_spend p [] = false
can_spend zero (x ∷ xs) = ltb 0 x
can_spend (suc p) (x ∷ xs) = can_spend p xs

unfoldable pub spend : ℕ → List ℕ → List ℕ
spend p [] = []
spend zero (x ∷ xs) = (x - 1) ∷ xs
spend (suc p) (x ∷ xs) = x ∷ spend p xs

pub remove : ℕ → List ℕ → List ℕ
remove p [] = []
remove zero (x ∷ xs) = xs
remove (suc p) (x ∷ xs) = x ∷ remove p xs

abbrev Small : ℕ → List ℕ → Type 0
Small budget xs = All (λ x. x ≤ budget) xs

-- A call of one of the operations. A call that cannot be made leaves the state as it is: a
-- `begin_op` that sleeps, a write or an end without its system call.
pub data Call : Type 0 where
  begin : Call
  write : ℕ → ℕ → Call  -- by the system call at a position, of a block
  finish : ℕ → Call  -- up to the commit
  complete : Call  -- the commit

unfoldable pub step : ℕ → Call → State → Outcome State
step budget begin s = elim (begin_op s.log) [
  | none ↦ ok s
  | some lg ↦ ok (record s { log = lg; ops = budget ∷ s.ops })
]
step budget (write p b) s =
    let written = (do
      (lg, d) ← log_write b s.log s.dev
      ok (record { log = lg; dev = d; ops = spend p s.ops })) in
    if can_spend p s.ops then written else ok s
step budget (finish p) s =
    let ended = (do
      (do_commit, lg) ← end_op s.log
      ok (record s { log = lg; ops = remove p s.ops })) in
    if is_op p s.ops then ended else ok s
step budget complete s =
    let (lg, d) = end_commit s.log s.dev in
    let committed : State = record { log = lg; dev = d; ops = s.ops } in
    ok (if s.log.committing then committed else s)

unfoldable pub run : ℕ → List Call → State → Outcome State
run budget [] s = ok s
run budget (c ∷ cs) s = do s' ← step budget c s; run budget cs s'

-- `outstanding` counts the system calls in progress, there are none during a commit, and what they
-- may still write fits in the log with what is there.
pub record IsReserved (budget : ℕ) (s : State) : Type 0 where
  pub outstanding : s.log.outstanding ≡ pos (count s.ops)
  pub idle : s.log.committing ≡ true → count s.ops ≡ 0
  pub room : (s.log.lh.n + sum s.ops ≤ logsize) × (s.log.lh.n + sum s.ops < s.log.size)
  pub small : All (λ x. x ≤ budget) s.ops
  pub size : Affords s.log.size budget
  pub distinct : AreDistinct s.log.lh

abbrev Keeps : ℕ → Outcome State → Type 0
Keeps budget r = (s' : State) × (r ≡ ok s') × IsReserved budget s'
