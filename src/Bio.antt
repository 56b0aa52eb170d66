-- ===== src/Bio.antt =====
-- kernel/bio.c: the buffer cache, with the sleep-locks of kernel/sleeplock.c that its buffers hold. `prev` and `next` thread the
-- buffers and the list's head, which is number `head`; refcnt is a 32-bit number. `pid` is the process that runs.
pub mod Sleeplock
pub mod Ring
pub mod Get
pub mod Recent
pub mod Release
mod Tests
use xv6_riscv_private.Common.{
  ℕ, zero, suc, ◌+◌, ◌-◌, ◌*◌, ◌%◌, ◌^◌, Bool, true, false, not, ◌&&◌, ◌==◌, if◌then◌else◌, update,
  Option, none, some, Outcome, ok, panic, out_of_fuel, panic_if, ◌>>=◌, ◌>>◌,
}
use xv6_riscv_private.Log.{maxopblocks}
use xv6_riscv_private.Bio.Sleeplock.{
  SleepLock, initsleeplock, acquiresleep, releasesleep, holdingsleep,
}

abbrev pub nbuf : ℕ
nbuf = 30

-- `&bcache.head`
abbrev pub head : ℕ
head = nbuf

pub record Buf : Type 0 where
  pub valid : Bool
  pub dev : ℕ
  pub blockno : ℕ
  pub lock : SleepLock
  pub refcnt : ℕ
  pub contents : ℕ → ℕ

pub record Cache : Type 0 where
  pub buf : ℕ → Buf
  pub prev : ℕ → ℕ
  pub next : ℕ → ℕ

-- the disk: what each block of each device holds
abbrev pub Disk : Type 0
Disk = ℕ → ℕ → ℕ → ℕ

-- `b` goes to the front of the list.
unfoldable pub push_front : ℕ → Cache → Cache
push_front b c =
    let next1 = update c.next b (c.next head) in
    let prev1 = update c.prev b head in
    record c { prev = update prev1 (next1 head) b; next = update next1 head b }

-- `b` leaves the list.
unfoldable pub unlink : ℕ → Cache → Cache
unlink b c =
    let prev1 = update c.prev (c.next b) (c.prev b) in
    record c { prev = prev1; next = update c.next (prev1 b) (c.next b) }

unfoldable pub init_loop : ℕ → ℕ → Cache → Cache
init_loop zero b c = c
init_loop (suc n) b c =
    let c' : Cache = record c {
      buf = update c.buf b (record (c.buf b) { lock = initsleeplock });
    } in
    init_loop n (b + 1) (push_front b c')

unfoldable pub binit : Cache → Cache
binit c =
    init_loop nbuf 0 (record c { prev = update c.prev head head; next = update c.next head head })

abbrev pub is_block : ℕ → ℕ → Buf → Bool
is_block dev blockno b = b.dev == dev && b.blockno == blockno

-- a loop over the list, along `step`, that stops at the first buffer that passes the test
unfoldable pub look : (Buf → Bool) → (ℕ → ℕ) → ℕ → ℕ → (ℕ → Buf) → Outcome (Option ℕ)
look p step zero b buf = out_of_fuel
look p step (suc n) b buf =
    let rest = look p step n (step b) buf in
    if b == head then ok none else if p (buf b) then ok (some b) else rest

-- `bget`, up to `acquiresleep`. The list has NBUF buffers.
unfoldable pub bget : ℕ → ℕ → Cache → Outcome (ℕ × Cache)
bget dev blockno c = do
  cached ← look (is_block dev blockno) c.next (nbuf + 1) (c.next head) c.buf
  elim cached [
    | some b ↦ ok (
      b,
      record c {
        buf = update c.buf b (record (c.buf b) { refcnt = ((c.buf b).refcnt + 1) % 2 ^ 32 });
      },
    )
    | none ↦ do
      unused ← look (λ b. b.refcnt == 0) c.prev (nbuf + 1) (c.prev head) c.buf
      elim unused [
        | some b ↦ ok (
          b,
          record c {
            buf =
                update c.buf b
                  (record (c.buf b) { dev = dev; blockno = blockno; valid = false; refcnt = 1 });
          },
        )
        | none ↦ panic
      ]
  ]

-- `bread`: the buffer, or none while the process sleeps for its lock
unfoldable pub bread : ℕ → ℕ → ℕ → Disk → Cache → Outcome (Option ℕ × Cache)
bread pid dev blockno disk c = do
  (b, c') ← bget dev blockno c
  let q = c'.buf b
  elim (acquiresleep pid q.lock) [
    | none ↦ ok (none, c')
    | some lock ↦ ok (
      some b,
      record c' {
        buf = update c'.buf b (record q {
          lock = lock;
          valid = true;
          contents = if q.valid then q.contents else disk dev blockno;
        });
      },
    )
  ]

unfoldable pub bwrite : ℕ → ℕ → Cache → Disk → Outcome Disk
bwrite pid b c disk = do
  let q = c.buf b
  panic_if (not (holdingsleep pid q.lock))
  ok (update disk q.dev (update (disk q.dev) q.blockno q.contents))

-- `b->refcnt--`
unfoldable pub unref : ℕ → Cache → Cache
unref b c = record c {
  buf = update c.buf b (record (c.buf b) { refcnt = ((c.buf b).refcnt + (2 ^ 32 - 1)) % 2 ^ 32 });
}

unfoldable pub brelse : ℕ → ℕ → Cache → Outcome Cache
brelse pid b c = do
  panic_if (not (holdingsleep pid (c.buf b).lock))
  let released : Cache = record c {
    buf = update c.buf b (record (c.buf b) { lock = releasesleep (c.buf b).lock });
  }
  let c' = unref b released
  ok (if (c'.buf b).refcnt == 0 then push_front b (unlink b c') else c')

unfoldable pub bpin : ℕ → Cache → Cache
bpin b c = record c {
  buf = update c.buf b (record (c.buf b) { refcnt = ((c.buf b).refcnt + 1) % 2 ^ 32 });
}

unfoldable pub bunpin : ℕ → Cache → Cache
bunpin b c = unref b c
