-- ===== src/Proc/Life.antt =====
-- The life of a process: allocproc, freeproc, fork, reparent, exit and wait of kernel/proc.c.
-- The memory and file layers that these functions call are the operations of a `Kernel`.
pub mod Search
pub mod Inv
pub mod Fork
pub mod Exit
pub mod Wait
use xv6_riscv_private.Common.{
  ℕ, zero, suc, ◌+◌, ◌%◌, ◌^◌, Bool, true, false, ◌&&◌, ◌||◌, not, Option, none, some, List, [],
  ◌∷◌, ltb, ◌==◌, if◌then◌else◌, update, ℤ, pos, negsuc, Outcome, ok, panic, panic_if, ◌>>=◌, ◌>>◌,
  take,
}
use xv6_riscv_private.Riscv.{pgsize}
use xv6_riscv_private.Proc.{
  ProcState, unused, used, sleeping, runnable, running, zombie, Proc, nproc, is_unused, is_zombie,
  is_proc,
}
use xv6_riscv_private.Proc.{Table as ProcTable}
use xv6_riscv_private.Proc.Fair.{get_min_accumulator}
use xv6_riscv_private.Proc.Wake.{wakeup, fall_asleep}

-- What the process layer calls. `World` is the memory, the files and the disk.
pub record Kernel : Type 1 where
  pub World : Type 0
  -- `kalloc` and `kfree` of a trapframe page
  pub kalloc : World → ℕ × World
  pub kfree : ℕ → World → Outcome World
  -- `proc_pagetable` for a process with this trapframe; 0 on failure
  pub proc_pagetable : ℕ → World → Outcome (ℕ × World)
  pub proc_freepagetable : ℕ → ℕ → World → Outcome World
  -- `uvmcopy(old, new, sz)`; false on failure
  pub uvmcopy : ℕ → ℕ → ℕ → World → Outcome (Bool × World)
  -- `*(np->trapframe) = *(p->trapframe); np->trapframe->a0 = 0;`
  pub fork_trapframe : ℕ → ℕ → World → World
  -- `copyout(pagetable, dstva, bytes)`; false on failure
  pub copyout_xstate : ℕ → ℕ → ℤ → World → Bool × World
  pub copyout_msg : ℕ → ℕ → List ℕ → World → Bool × World
  pub filedup : ℕ → World → Outcome World
  pub fileclose : ℕ → World → Outcome World
  pub idup : ℕ → World → World
  -- `begin_op(); iput(p->cwd); end_op();`
  pub put_cwd : ℕ → World → Outcome World
  pub forkret : ℕ
  -- the address of `proc[i]`, on which processes sleep
  pub proc_addr : ℕ → ℕ

-- the first UNUSED process from index `i` on
unfoldable pub find_unused : ℕ → ℕ → ProcTable → Option ℕ
find_unused zero i t = none
find_unused (suc n) i t =
    let rest = find_unused n (i + 1) t in if is_unused (t i).state then some i else rest

-- what `freeproc` leaves in the process structure; a name is the string in its array
unfoldable pub cleared : Proc → Proc
cleared p = record p {
  trapframe = 0;
  pagetable = 0;
  sz = 0;
  pid = 0;
  parent = none;
  name = [];
  chan = 0;
  killed = false;
  xstate = pos 0;
  state = unused;
}

-- `np->ofile[i] = filedup(p->ofile[i])` where the parent has a file, for the whole array
unfoldable pub copy_files : List ℕ → List ℕ → List ℕ
copy_files [] theirs = theirs
copy_files (f ∷ fs) [] = []
copy_files (f ∷ fs) (g ∷ gs) = (if f == 0 then g else f) ∷ copy_files fs gs

-- `fileclose` leaves a null pointer in each slot.
unfoldable pub closed_files : List ℕ → List ℕ
closed_files [] = []
closed_files (f ∷ fs) = 0 ∷ closed_files fs

-- `if(pp->parent == p) pp->parent = initproc`
unfoldable pub adopt : ℕ → ℕ → Proc → Proc
adopt me init p = if is_proc p.parent me then record p { parent = some init } else p

-- what `fork` writes to the process structure of the child `np`; the scheduling fields are written
-- when the child is RUNNABLE already, so `getMinAccumulator` sees it
unfoldable pub fork_table : ℕ → ℕ → ProcTable → ProcTable
unfolding copy_files
fork_table me np t =
    let p = t me in
    let q = t np in
    let child = record q {
      sz = p.sz;
      ofile = copy_files p.ofile q.ofile;
      cwd = p.cwd;
      name = take 15 p.name;
      parent = some me;
      state = runnable;
      ps_priority = pos 5;
    } in
    let t' = update t np child in
    update t' np (record child {
      accumulator = get_min_accumulator t';
      cfs_priority = (t' me).cfs_priority;
      rtime = 0;
      stime = 0;
      retime = 0;
    })

module _ (K : Kernel) where
  open K use {World, proc_addr}

  -- `nextpid` is the 32 bits of an `int`: the number itself below 2 ^ 31, and negative from there on.
  pub record Sys : Type 0 where
    pub procs : ProcTable
    pub nextpid : ℕ
    pub initproc : ℕ
    pub world : World

  abbrev pub put : ℕ → Proc → Sys → Sys
  put i p s = record s { procs = update s.procs i p }

  unfoldable pub freeproc : ℕ → Sys → Outcome Sys
  unfolding cleared
  freeproc i s = do
    let p = s.procs i
    w ← if p.trapframe == 0 then ok s.world else K.kfree p.trapframe s.world
    w' ← if p.pagetable == 0 then ok w else K.proc_freepagetable p.pagetable p.sz w
    ok (record s { procs = update s.procs i (cleared p); world = w' })

  -- the error path of `allocproc`
  unfoldable pub give_up : ℕ → Sys → Outcome (Option ℕ × Sys)
  give_up i s = do s' ← freeproc i s; ok (none, s')

  -- `allocproc` once the trapframe is there: the page table and the context
  unfoldable pub map_up : ℕ → Sys → Outcome (Option ℕ × Sys)
  map_up i s = do
    (pt, w) ← K.proc_pagetable (s.procs i).trapframe s.world
    let p = record (s.procs i) { pagetable = pt }
    let s' : Sys = record s { procs = update s.procs i p; world = w }
    let p' = record p { context_ra = K.forkret; context_sp = p.kstack + pgsize }
    if pt == 0 then give_up i s' else ok (some i, put i p' s')

  -- `allocproc` from `found:` on; the result is none where an allocation fails
  unfoldable pub set_up : ℕ → Sys → Outcome (Option ℕ × Sys)
  set_up i s =
      let (tf, w) = K.kalloc s.world in
      let p = record (s.procs i) { pid = s.nextpid; state = used; trapframe = tf } in
      let s' : Sys = record {
        procs = update s.procs i p;
        nextpid = (s.nextpid + 1) % 2 ^ 32;
        initproc = s.initproc;
        world = w;
      } in
      if tf == 0 then give_up i s' else map_up i s'

  unfoldable pub allocproc : Sys → Outcome (Option ℕ × Sys)
  allocproc s = elim (find_unused nproc 0 s.procs) [ none ↦ ok (none, s) | some i ↦ set_up i s ]

  unfoldable pub dup_files : List ℕ → World → Outcome World
  dup_files [] w = ok w
  dup_files (f ∷ fs) w = do w' ← if f == 0 then ok w else K.filedup f w; dup_files fs w'

  unfoldable pub close_files : List ℕ → World → Outcome World
  close_files [] w = ok w
  close_files (f ∷ fs) w = do w' ← if f == 0 then ok w else K.fileclose f w; close_files fs w'

  -- `fork` once `allocproc` has returned `np`
  unfoldable pub fork_into : ℕ → ℕ → Sys → Outcome (ℤ × Sys)
  fork_into me np s = do
    let p = s.procs me
    let q = s.procs np
    (good, w) ← K.uvmcopy p.pagetable q.pagetable p.sz s.world
    let failed = (do t ← freeproc np (record s { world = w }); ok (negsuc 0, t))
    let forked = (do
      w' ← dup_files p.ofile (K.fork_trapframe p.trapframe q.trapframe w)
      ok (pos q.pid, record s { procs = fork_table me np s.procs; world = K.idup p.cwd w' }))
    if good then forked else failed

  unfoldable pub fork : ℕ → Sys → Outcome (ℤ × Sys)
  fork me s = do
    (r, s') ← allocproc s
    elim r [ none ↦ ok (negsuc 0, s') | some np ↦ fork_into me np s' ]

  unfoldable pub reparent_loop : ℕ → ℕ → ℕ → ℕ → ProcTable → ProcTable
  reparent_loop zero i me init t = t
  reparent_loop (suc n) i me init t = reparent_loop n (i + 1) me init (
      if is_proc (t i).parent me
      then wakeup (some me) (proc_addr init) (update t i (adopt me init (t i)))
      else t)

  unfoldable pub reparent : ℕ → ℕ → ProcTable → ProcTable
  reparent me init t = reparent_loop nproc 0 me init t

  -- the address in a `struct proc *`
  abbrev pub parent_addr : Option ℕ → ℕ
  parent_addr none = 0
  parent_addr (some i) = proc_addr i

  -- what `exit` does to the process table
  unfoldable pub exit_table : ℤ → List ℕ → ℕ → ℕ → ProcTable → ProcTable
  exit_table status msg me init t =
      let p = t me in
      let q = record p { exit_msg = take 32 msg; ofile = closed_files p.ofile; cwd = 0 } in
      let t' = reparent me init (update t me q) in
      let t'' = wakeup (some me) (parent_addr (t' me).parent) t' in
      update t'' me (record (t'' me) { xstate = status; state = zombie })

  -- `exit` up to `sched()`, from which it does not return
  unfoldable pub exit : ℤ → List ℕ → ℕ → Sys → Outcome Sys
  exit status msg me s = do
    panic_if (me == s.initproc)
    w ← close_files (s.procs me).ofile s.world
    w' ← K.put_cwd (s.procs me).cwd w
    ok (record s { procs = exit_table status msg me s.initproc s.procs; world = w' })

  -- `addr != 0 && copyout(... &pp->xstate ...) < 0`: false where that fails
  unfoldable pub copy_status : ℕ → ℕ → ℕ → Sys → Bool × World
  copy_status c me addr s =
      if addr == 0
      then (true, s.world)
      else K.copyout_xstate (s.procs me).pagetable addr (s.procs c).xstate s.world

  -- the exit message is copied out, whether that works or not, and the child is freed
  unfoldable pub collect : ℕ → ℕ → ℕ → Sys → Outcome (Option ℤ × Sys)
  collect c me msg_addr s = do
    let w = (K.copyout_msg (s.procs me).pagetable msg_addr (s.procs c).exit_msg s.world).1
    s' ← freeproc c (record s { world = w })
    ok (some (pos (s.procs c).pid), s')

  -- `wait` on finding the exited child `c`
  unfoldable pub reap : ℕ → ℕ → ℕ → ℕ → Sys → Outcome (Option ℤ × Sys)
  reap c me addr msg_addr s =
      let (good, w) = copy_status c me addr s in
      let s' : Sys = record s { world = w } in
      if good then collect c me msg_addr s' else ok (some (negsuc 0), s')

  -- one scan of `wait` from index `i` on; none means that the caller sleeps on its own address
  unfoldable pub wait_loop : ℕ → ℕ → Bool → ℕ → ℕ → ℕ → Sys → Outcome (Option ℤ × Sys)
  wait_loop zero i havekids me addr msg_addr s =
      if not havekids || (s.procs me).killed
      then ok (some (negsuc 0), s)
      else ok (none, record s { procs = fall_asleep me (proc_addr me) s.procs })
  wait_loop (suc n) i havekids me addr msg_addr s =
      let mine = is_proc (s.procs i).parent me in
      let rest = wait_loop n (i + 1) (havekids || mine) me addr msg_addr s in
      let found = reap i me addr msg_addr s in
      if mine && is_zombie (s.procs i).state then found else rest

  unfoldable pub wait : ℕ → ℕ → ℕ → Sys → Outcome (Option ℤ × Sys)
  wait me addr msg_addr s = wait_loop nproc 0 false me addr msg_addr s

-- `getProc`
unfoldable pub get_proc_loop : ℕ → ℕ → ℕ → ProcTable → Option ℕ
get_proc_loop zero i pid t = none
get_proc_loop (suc n) i pid t =
    let rest = get_proc_loop n (i + 1) pid t in if (t i).pid == pid then some i else rest

unfoldable pub get_proc : ℕ → ProcTable → Option ℕ
get_proc pid t = get_proc_loop nproc 0 pid t
