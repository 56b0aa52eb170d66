-- ===== src/Proc/Life/Exit.antt =====
-- exit, reparent and wait.
use xv6_riscv_private.Common.{
  ℕ, zero, suc, ◌+◌, ◌<◌, ◌≡◌, ◌≢◌, refl, sym, ap, ◌∙◌, Bool, true, false, ◌&&◌, ◌||◌, Option, some,
  List, ltb, leb, ◌==◌, if◌then◌else◌, arith, Bool-cases, inl, inr, update, take, ok, Outcome-cases,
  ok-injective, ℤ,
}
use xv6_riscv_private.Proc.{zombie, Proc, Table, nproc, is_unused, is_proc}
use xv6_riscv_private.Proc.Wake.{wakeup}
use xv6_riscv_private.Proc.Wake.Laws.{wakeup_lem}
use xv6_riscv_private.Proc.Life.{
  Kernel, Sys, adopt, closed_files, close_files, reparent_loop, reparent, parent_addr, exit_table,
  exit,
}
use xv6_riscv_private.Proc.Life.Inv.{SysInv, Keeps, TableInv-Keeps}

-- what `wakeup` never changes of a process, besides its pid
record Stays (p q : Proc) : Type 0 where
  keeps : Keeps p q
  parent : q.parent ≡ p.parent

wakeup-Stays :
    (me : Option ℕ) (chan : ℕ) (t : Table) (j : ℕ) → j < nproc → Stays (t j) (wakeup me chan t j)
wakeup-Stays me chan t j l =
    let (st, same) = wakeup_lem me chan t j l in
    record {
      keeps = record { pid = same.pid; unused = rw st (ground arith) };
      parent = same.parent;
    }

module _ (K : Kernel) (me init : ℕ) where
  -- what the loop of `reparent` has done to process `j`
  record Moved (inside : Bool) (p q : Proc) : Type 0 where
    keeps : Keeps p q
    parent : q.parent ≡ (if inside && is_proc p.parent me then some init else p.parent)

  adopt_lem :
      (p : Proc)
      → is_proc p.parent me ≡ true
      → Keeps p (adopt me init p) × ((adopt me init p).parent ≡ some init)
  unfolding adopt
  adopt_lem p mine = rw mine (record { pid = refl; unused = refl }, refl)

  after :
      (t : Table) (i j : ℕ)
      → is_proc (t i).parent me ≡ true
      → (q : Proc) → Stays (update t i (adopt me init (t i)) j) q
      → Moved (i == j) (t j) q
  after t i j mine q st = elim (Bool-cases (i == j)) [
    | inl e ↦
        let same : i ≡ j = ground arith in
        let (k, a) = adopt_lem (t i) mine in
        let st' : Stays (adopt me init (t i)) q = rw e at st in
        rw (e, ← same)
          (record {
            keeps = record { pid = st'.keeps.pid ∙ k.pid; unused = st'.keeps.unused ∙ k.unused };
            parent = st'.parent ∙ a ∙ rw mine;
          })
    | inr e ↦
        let st' : Stays (t j) q = rw e at st in
        rw e (record { keeps = st'.keeps; parent = st'.parent })
  ]

  Moved-step :
      (t : Table) (i j : ℕ)
      → j < nproc
      → Moved (i == j) (t j) (
          (if is_proc (t i).parent me
              then wakeup (some me) (K.proc_addr init) (update t i (adopt me init (t i)))
              else t)
            j)
  Moved-step t i j l = elim (Bool-cases (is_proc (t i).parent me)) [
    | inl mine ↦
        let t1 = update t i (adopt me init (t i)) in
        let st = wakeup-Stays (some me) (K.proc_addr init) t1 j l in
        rw mine (after t i j mine (wakeup (some me) (K.proc_addr init) t1 j) st)
    | inr other ↦
        rw other (record { keeps = record { pid = refl; unused = refl }; parent = ground arith })
  ]

  Moved-trans :
      (a b : Bool) (p q r : Proc)
      → is_proc (some init) me ≡ false
      → Moved a p q
      → Moved b q r
      → Moved (a || b) p r
  Moved-trans a b p q r ne f g = record {
    keeps = record { pid = g.keeps.pid ∙ f.keeps.pid; unused = g.keeps.unused ∙ f.keeps.unused };
    parent = ground (arith, f.parent, g.parent);
  }

  reparent_loop-Moved :
      (n i j : ℕ) (t : Table)
      → is_proc (some init) me ≡ false
      → j < nproc
      → Moved (leb i j && ltb j (i + n)) (t j) (reparent_loop K n i me init t j)
  unfolding reparent_loop
  reparent_loop-Moved zero i j t ne l = record {
    keeps = record { pid = refl; unused = refl };
    parent = ground arith;
  }
  reparent_loop-Moved (suc n) i j t ne l =
      let t' : Table =
        (if is_proc (t i).parent me
          then wakeup (some me) (K.proc_addr init) (update t i (adopt me init (t i)))
          else t) in
      let here : (leb i j && ltb j (i + suc n))
          ≡ ((i == j) || (leb (i + 1) j && ltb j (i + 1 + n))) =
        ground arith in
      rw here (
        Moved-trans (i == j) (leb (i + 1) j && ltb j (i + 1 + n)) (t j) (t' j)
          (reparent_loop K n (i + 1) me init t' j) ne (Moved-step t i j l)
          (reparent_loop-Moved n (i + 1) j t' ne l))

  -- `reparent` hands every child of the process to `init`, leaves the parent of every other process
  -- alone, and changes no pid.
  pub reparent_lem :
      (t : Table) (j : ℕ)
      → init ≢ me
      → j < nproc
      → ((reparent K me init t j).parent
          ≡ (if is_proc (t j).parent me then some init else (t j).parent))
        × ((reparent K me init t j).pid ≡ (t j).pid)
        × (is_unused (reparent K me init t j).state ≡ is_unused (t j).state)
  unfolding reparent
  reparent_lem t j ne l =
      let m = reparent_loop-Moved nproc 0 j t (ground arith) l in
      let inside : (leb 0 j && ltb j (0 + nproc)) ≡ true = ground arith in
      (m.parent ∙ rw inside, m.keeps.pid, m.keeps.unused)

-- the tables that `exit` goes through keep pids and who is UNUSED, and the children have been handed to init
record Orphaned (me init : ℕ) (t t' : Table) : Type 0 where
  keeps : (j : ℕ) → j < nproc → Keeps (t j) (t' j)
  childless : (j : ℕ) → j < nproc → (t' j).parent ≢ some me
  handed :
      (j : ℕ)
      → j < nproc
      → (t' j).parent ≡ (if is_proc (t j).parent me then some init else (t j).parent)

not-is_proc : (o : Option ℕ) (i : ℕ) → is_proc o i ≡ false → o ≢ some i
not-is_proc o i h e = let q : is_proc (some i) i ≡ false = rw e at h in ground arith

update-parent :
    (me : ℕ) (t : Table) (p : Proc) (j : ℕ)
    → p.parent ≡ (t me).parent
    → (update t me p j).parent ≡ (t j).parent
update-parent me t p j e = elim (Bool-cases (me == j)) [
  | inl q ↦ let same : me ≡ j = ground arith in rw q (e ∙ ap (λ x. (t x).parent) same)
  | inr q ↦ rw q refl
]

module _ (K : Kernel) (me : ℕ) where
  -- the tables after `reparent(p)` and after `wakeup(p->parent)`
  abbrev reparented : ℕ → Table → Proc → Table
  reparented init t p = reparent K me init (update t me p)

  reparented-Orphaned :
      (init : ℕ) (t : Table) (p : Proc)
      → init ≢ me
      → Keeps (t me) p
      → p.parent ≡ (t me).parent
      → Orphaned me init t (reparented init t p)
  reparented-Orphaned init t p ne k kp = record {
    keeps = λ j l.
        let (_, e, u) = reparent_lem K me init (update t me p) j ne l in
        elim (Bool-cases (me == j)) [
          | inl q ↦
              let same : me ≡ j = ground arith in
              record {
                pid = e ∙ rw q (rw (← same) k.pid);
                unused = u ∙ rw q (rw (← same) k.unused);
              }
          | inr q ↦ record { pid = e ∙ rw q; unused = u ∙ rw q }
        ];
    childless = λ j l.
        let (e, _, _) = reparent_lem K me init (update t me p) j ne l in
        elim (Bool-cases (is_proc (update t me p j).parent me)) [
          | inl q ↦ rw (e, q) (λ z. ground arith)
          | inr q ↦ rw (e, q) (not-is_proc _ me q)
        ];
    handed = λ j l.
        let (e, _, _) = reparent_lem K me init (update t me p) j ne l in
        e ∙ ap (λ x. if is_proc x me then some init else x) (update-parent me t p j kp);
  }

  woken-Orphaned :
      (init chan : ℕ) (t t' : Table)
      → Orphaned me init t t'
      → Orphaned me init t (wakeup (some me) chan t')
  woken-Orphaned init chan t t' h = record {
    keeps = λ j l.
        let st = wakeup-Stays (some me) chan t' j l in
        record {
          pid = st.keeps.pid ∙ (h.keeps j l).pid;
          unused = st.keeps.unused ∙ (h.keeps j l).unused;
        };
    childless =
        λ j l. let st = wakeup-Stays (some me) chan t' j l in rw st.parent (h.childless j l);
    handed = λ j l. (wakeup-Stays (some me) chan t' j l).parent ∙ h.handed j l;
  }

  update-Orphaned :
      (init : ℕ) (t t' : Table) (p : Proc)
      → Orphaned me init t t'
      → Keeps (t' me) p
      → p.parent ≡ (t' me).parent
      → Orphaned me init t (update t' me p)
  update-Orphaned init t t' p h k e = record {
    keeps = λ j l. elim (Bool-cases (me == j)) [
      | inl q ↦
          let same : me ≡ j = ground arith in
          rw q (record {
            pid = k.pid ∙ rw same (h.keeps j l).pid;
            unused = k.unused ∙ rw same (h.keeps j l).unused;
          })
      | inr q ↦ rw q (h.keeps j l)
    ];
    childless = λ j l. elim (Bool-cases (me == j)) [
      | inl q ↦ let same : me ≡ j = ground arith in rw (q, e) (h.childless me (rw same l))
      | inr q ↦ rw q (h.childless j l)
    ];
    handed = λ j l. update-parent me t' p j e ∙ h.handed j l;
  }

  -- what `exit` leaves in the table
  record Exited (init : ℕ) (status : ℤ) (t t' : Table) : Type 0 where
    orphaned : Orphaned me init t t'
    state : (t' me).state ≡ zombie
    xstate : (t' me).xstate ≡ status

  exit_table-Exited :
      (status : ℤ) (msg : List ℕ) (init : ℕ) (t : Table)
      → init ≢ me
      → is_unused (t me).state ≡ false
      → me < nproc
      → Exited init status t (exit_table K status msg me init t)
  unfolding exit_table
  exit_table-Exited status msg init t ne busy lt =
      let own : (me == me) ≡ true = ground arith in
      let q : Proc = record (t me) {
        exit_msg = take 32 msg;
        ofile = closed_files (t me).ofile;
        cwd = 0;
      } in
      let t1 = reparented init t q in
      let chan = parent_addr K (t1 me).parent in
      let t2 = wakeup (some me) chan t1 in
      let o = reparented-Orphaned init t q ne (record { pid = refl; unused = refl }) refl in
      let o' = woken-Orphaned init chan t t1 o in
      record {
        orphaned =
            update-Orphaned init t t2 (record (t2 me) { xstate = status; state = zombie }) o'
              (record { pid = refl; unused = sym ((o'.keeps me lt).unused ∙ busy) }) refl;
        state = rw own;
        xstate = rw own;
      }

  -- `exit` of a process that is not the init process keeps the invariant, leaves the process a zombie
  -- with its status and its pid, and leaves it without children: each process whose parent it was has init as its parent,
  -- and each other process the parent that it had. The init process cannot exit.
  pub exit_lem :
      (status : ℤ) (msg : List ℕ) (s s' : Sys K)
      → SysInv K s
      → is_unused (s.procs me).state ≡ false
      → me < nproc
      → exit K status msg me s ≡ ok s'
      → (me ≢ s.initproc)
        × SysInv K s'
        × ((s'.procs me).state ≡ zombie)
        × ((s'.procs me).xstate ≡ status)
        × ((s'.procs me).pid ≡ (s.procs me).pid)
        × ((j : ℕ) → j < nproc → (s'.procs j).parent ≢ some me)
        × ((j : ℕ)
            → j < nproc
            → (s'.procs j).parent
              ≡ (if is_proc (s.procs j).parent me then some s.initproc else (s.procs j).parent))
  unfolding exit
  exit_lem status msg s s' v busy lt e = elim (Bool-cases (me == s.initproc)) [
    | inl q ↦ let e' = rw (q, exit) at e in cc
    | inr q ↦ elim (Outcome-cases (close_files K (s.procs me).ofile s.world)) [
      | inl (w, c) ↦ elim (Outcome-cases (K.put_cwd (s.procs me).cwd w)) [
        | inl (w', d) ↦
            let ne : me ≢ s.initproc = ground arith in
            let x = exit_table-Exited status msg s.initproc s.procs (λ z. ne (sym z)) busy lt in
            let p = ok-injective _ _ (rw (q, c, d) at e) in
            rw (← p) (
              ne,
              TableInv-Keeps s.procs _ s.nextpid x.orphaned.keeps v,
              x.state,
              x.xstate,
              (x.orphaned.keeps me lt).pid,
              x.orphaned.childless,
              x.orphaned.handed,
            )
        | inr (inl d) ↦ let e' = rw (q, c, d) at e in cc
        | inr (inr d) ↦ let e' = rw (q, c, d) at e in cc
      ]
      | inr (inl c) ↦ let e' = rw (q, c) at e in cc
      | inr (inr c) ↦ let e' = rw (q, c) at e in cc
    ]
  ]
