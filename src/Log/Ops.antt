-- ===== src/Log/Ops.antt =====
-- kernel/log.c: begin_op, end_op and log_write, each as what it does while it holds the lock.
use xv6_riscv_private.Common.{
  ℕ, zero, suc, ◌+◌, ◌*◌, Bool, true, false, ltb, leb, ◌||◌, ◌==◌, if◌then◌else◌, update, Outcome,
  ok, panic_if, ◌>>◌, Option, none, some, ℤ, pos, negsuc, inc, dec,
}
use xv6_riscv_private.Log.{LogHeader, Device, maxopblocks, logsize, commit}

-- `struct log`, but for its lock and its device number
pub record Log : Type 0 where
  pub start : ℕ
  pub size : ℕ
  pub outstanding : ℤ
  pub committing : Bool
  pub lh : LogHeader

-- `log.lh.n + (log.outstanding+1)*MAXOPBLOCKS > LOGSIZE`
unfoldable pub might_exhaust : ℕ → ℤ → Bool
might_exhaust n (pos k) = ltb logsize (n + (k + 1) * maxopblocks)
might_exhaust n (negsuc k) = ltb (logsize + k * maxopblocks) n

-- One round of the loop of `begin_op`: none where it sleeps.
unfoldable pub begin_op : Log → Option Log
unfolding might_exhaust
begin_op lg =
    if lg.committing
    then none
    else if might_exhaust lg.lh.n lg.outstanding
    then none
    else some (record lg { outstanding = inc lg.outstanding })

abbrev pub is_zero : ℤ → Bool
is_zero (pos n) = n == 0
is_zero (negsuc n) = false

-- The first critical section of `end_op`, with `do_commit`.
unfoldable pub end_op : Log → Outcome (Bool × Log)
end_op lg = do
  let lg' : Log = record lg { outstanding = dec lg.outstanding }
  panic_if lg.committing
  ok (if is_zero lg'.outstanding then (true, record lg' { committing = true }) else (false, lg'))

-- The rest of `end_op` where `do_commit` is set.
unfoldable pub end_commit : Log → Device → Log × Device
end_commit lg d =
    let (lh, d') = commit lg.start lg.lh d in (record lg { lh = lh; committing = false }, d')

-- the loop of `log_write`: the first entry from `i` on that is `b`, or the number of entries
unfoldable pub find_entry : ℕ → ℕ → LogHeader → ℕ → ℕ
find_entry zero i lh b = i
find_entry (suc n) i lh b =
    let rest = find_entry n (i + 1) lh b in if lh.block i == b then i else rest

abbrev pub below_one : ℤ → Bool
below_one (pos n) = n == 0
below_one (negsuc n) = true

abbrev pub bpin : ℕ → Device → Device
bpin b d = record d { pins = update d.pins b (d.pins b + 1) }

-- `log_write` past its checks
unfoldable pub absorb : ℕ → Log → Device → Log × Device
absorb b lg d =
    let i = find_entry lg.lh.n 0 lg.lh b in
    let block = update lg.lh.block i b in
    let grown : Log = record lg { lh = record { n = lg.lh.n + 1; block = block } } in
    let same : Log = record lg { lh = record { n = lg.lh.n; block = block } } in
    if i == lg.lh.n then (grown, bpin b d) else (same, d)

-- `log_write` of the buffer of block `b`
unfoldable pub log_write : ℕ → Log → Device → Outcome (Log × Device)
log_write b lg d = do
  panic_if (leb logsize lg.lh.n || leb lg.size (lg.lh.n + 1))
  panic_if (below_one lg.outstanding)
  ok (absorb b lg d)
