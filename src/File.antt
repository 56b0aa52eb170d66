-- ===== src/File.antt =====
-- kernel/file.c: the table of open files and its reference counts. fileclose is modelled up to the
-- end of its critical section, where it has the copy `ff` of a file without references left to close.
pub mod Refs
mod Tests
use xv6_riscv_private.Common.{
  ℕ, zero, suc, ◌+◌, ◌-◌, ◌<◌, Bool, true, false, ◌==◌, ltb, if◌then◌else◌, update, Option, none,
  some, Outcome, ok, panic, panic_if, ◌>>=◌, ◌>>◌,
}

abbrev pub nfile : ℕ
nfile = 100

pub data FileType : Type 0 where
  fd_none : FileType
  fd_pipe : FileType
  fd_inode : FileType
  fd_device : FileType

pub record File : Type 0 where
  pub type : FileType
  pub ref : ℕ
  pub readable : Bool
  pub writable : Bool
  -- the addresses of the pipe and of the inode
  pub pipe : ℕ
  pub ip : ℕ
  pub off : ℕ
  pub major : ℕ

-- `ftable.file`
abbrev pub Table : Type 0
Table = ℕ → File

-- the loop of `filealloc`, with `n` files left from `i` on; none for 0
unfoldable pub alloc_loop : ℕ → ℕ → Table → Option ℕ × Table
alloc_loop zero i t = (none, t)
alloc_loop (suc n) i t =
    let rest = alloc_loop n (i + 1) t in
    if (t i).ref == 0 then (some i, update t i (record (t i) { ref = 1 })) else rest

unfoldable pub filealloc : Table → Option ℕ × Table
filealloc t = alloc_loop nfile 0 t

unfoldable pub filedup : ℕ → Table → Outcome Table
filedup f t = do panic_if (ltb (t f).ref 1); ok (update t f (record (t f) { ref = (t f).ref + 1 }))

-- none if there are references left
unfoldable pub fileclose : ℕ → Table → Outcome (Option File × Table)
fileclose f t = do
  panic_if (ltb (t f).ref 1)
  let fewer : File = record (t f) { ref = (t f).ref - 1 }
  if ltb 0 fewer.ref
      then ok (none, update t f fewer)
      else ok (some fewer, update t f (record fewer { ref = 0; type = fd_none }))
