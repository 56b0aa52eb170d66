-- ===== src/Bio/Sleeplock.antt =====
-- kernel/sleeplock.c: what each function does under the lock's spinlock. The wakeup of releasesleep is wakeup of Proc.
use xv6_riscv_private.Common.{ℕ, Bool, true, false, ◌&&◌, ◌==◌, if◌then◌else◌, Option, none, some}

pub record SleepLock : Type 0 where
  pub locked : Bool
  pub pid : ℕ

unfoldable pub initsleeplock : SleepLock
initsleeplock = record { locked = false; pid = 0 }

-- none while the process sleeps
unfoldable pub acquiresleep : ℕ → SleepLock → Option SleepLock
acquiresleep pid lk = if lk.locked then none else some (record { locked = true; pid = pid })

unfoldable pub releasesleep : SleepLock → SleepLock
releasesleep lk = record { locked = false; pid = 0 }

unfoldable pub holdingsleep : ℕ → SleepLock → Bool
holdingsleep pid lk = lk.locked && lk.pid == pid
