-- ===== src/Proc/Life/Fork.antt =====
-- fork: the child's process structure, and what the CFS scheduler makes of it.
use xv6_riscv_private.Common.{
  ℕ, ◌+◌, ◌^◌, ◌<◌, ◌≡◌, ◌≢◌, ◌⊎◌, refl, sym, ◌∙◌, ap, true, false, none, some, ◌==◌, arith,
  Bool-cases, inl, inr, take, ok, ◌>>=◌, >>=-eq-ok, Outcome-cases, ok-injective, ℤ, pos, negsuc,
}
use xv6_riscv_private.Proc.{used, runnable, Table, nproc, is_unused}
use xv6_riscv_private.Proc.Fair.{cfs_scheduler}
use xv6_riscv_private.Proc.Fair.Vruntime.{ticks, cfs_scheduler-undefined}
use xv6_riscv_private.Proc.Life.{
  Kernel, Sys, freeproc, allocproc, dup_files, fork_table, fork_into, fork,
}
use xv6_riscv_private.Proc.Life.Inv.{
  TableInv, SysInv, Keeps, TableInv-Keeps, freeproc-Inv, Allocated, allocproc_lem,
}

-- the child `np` that the process `me` has forked
pub record Child (me np : ℕ) (t t' : Table) : Type 0 where
  pub pid : (t' np).pid ≡ (t np).pid
  pub state : (t' np).state ≡ runnable
  pub parent : (t' np).parent ≡ some me
  pub sz : (t' np).sz ≡ (t me).sz
  pub cwd : (t' np).cwd ≡ (t me).cwd
  pub name : (t' np).name ≡ take 15 (t me).name
  pub untimed : ticks (t' np) ≡ 0
  pub others : (j : ℕ) → j ≢ np → t' j ≡ t j

fork_table-Child : (me np : ℕ) (t : Table) → Child me np t (fork_table me np t)
unfolding fork_table
fork_table-Child me np t =
    let own : (np == np) ≡ true = ground arith in
    record {
      pid = rw own;
      state = rw own;
      parent = rw own;
      sz = rw own;
      cwd = rw own;
      name = rw own;
      untimed = rw own;
      others = λ j ne. let other : (np == j) ≡ false = ground arith in rw other;
    }

TableInv-Child :
    (me np : ℕ) (t t' : Table) (n : ℕ)
    → is_unused (t np).state ≡ false
    → Child me np t t'
    → TableInv t n
    → TableInv t' n
TableInv-Child me np t t' n busy c v = TableInv-Keeps t t' n (λ i l. keeps i) v
  where
    keeps : (i : ℕ) → Keeps (t i) (t' i)
    keeps i = elim (Bool-cases (i == np)) [
      | inl e ↦
          let q : i ≡ np = ground arith in
          rw q (record { pid = c.pid; unused = rw (c.state, busy) })
      | inr e ↦ rw (c.others i (ground arith)) (record { pid = refl; unused = refl })
    ]

module _ (K : Kernel) where
  record Forked (me np : ℕ) (s : Sys K) (r : ℤ) (s' : Sys K) : Type 0 where
    inv : SysInv K s'
    got : ((r ≡ pos (s.procs np).pid) × Child me np s.procs s'.procs) ⊎ (r ≡ negsuc 0)

  fork_into-Forked :
      (me np : ℕ) (s : Sys K) (r : ℤ) (s' : Sys K)
      → SysInv K s
      → is_unused (s.procs np).state ≡ false
      → fork_into K me np s ≡ ok (r, s')
      → Forked me np s r s'
  unfolding fork_into
  fork_into-Forked me np s r s' v busy e =
      elim (Outcome-cases
        (K.uvmcopy (s.procs me).pagetable (s.procs np).pagetable (s.procs me).sz s.world)) [
          | inl ((good, w), q) ↦
              let e' = rw (q, fork_into) at e in
              elim (Bool-cases good) [
                | inl g ↦
                    elim (Outcome-cases (
                      dup_files K (s.procs me).ofile
                        (K.fork_trapframe (s.procs me).trapframe (s.procs np).trapframe w))) [
                          | inl (w', q') ↦
                              let p = ok-injective _ _ (rw (g, q') at e') in
                              let c = fork_table-Child me np s.procs in
                              record {
                                inv = rw (← ap (λ x. x.1) p) (
                                    TableInv-Child me np s.procs (fork_table me np s.procs)
                                      s.nextpid busy c v);
                                got = inl (sym (ap (λ x. x.0) p), rw (← ap (λ x. x.1) p) c);
                              }
                          | inr (inl q') ↦ let e'' = rw (g, q') at e' in cc
                          | inr (inr q') ↦ let e'' = rw (g, q') at e' in cc
                        ]
                | inr b ↦ failed w (rw b at e')
              ]
          | inr (inl q) ↦ let e' = rw (q, fork_into) at e in cc
          | inr (inr q) ↦ let e' = rw (q, fork_into) at e in cc
        ]
    where
      failed :
          (w : K.World)
          → ◌>>=◌ {B = ℤ × Sys K} (freeproc K np (record s { world = w })) (λ t. ok (negsuc 0, t))
            ≡ ok (r, s')
          → Forked me np s r s'
      failed w e =
          let (t, e1, e2) =
            >>=-eq-ok {B = ℤ × Sys K} (freeproc K np (record s { world = w }))
              (λ t. ok (negsuc 0, t)) e in
          let p = ok-injective _ _ e2 in
          record {
            inv = rw (← ap (λ x. x.1) p) (freeproc-Inv K np (record s { world = w }) t e1 v);
            got = inr (sym (ap (λ x. x.0) p));
          }

  -- what a successful `fork` has done
  abbrev pub Born : ℕ → Sys K → ℤ → Sys K → Type 0
  Born me s r s' =
      (np : ℕ) × (np < nproc)
      × (is_unused (s.procs np).state ≡ true)
      × (r ≡ pos s.nextpid)
      × ((j : ℕ) → j < nproc → (s.procs j).pid ≢ s.nextpid)
      × ((s'.procs np).pid ≡ s.nextpid)
      × ((s'.procs np).state ≡ runnable)
      × ((s'.procs np).parent ≡ some me)
      × (ticks (s'.procs np) ≡ 0)
      × (me ≢ np
          → ((s'.procs np).sz ≡ (s.procs me).sz)
            × ((s'.procs np).cwd ≡ (s.procs me).cwd)
            × ((s'.procs np).name ≡ take 15 (s.procs me).name))
      × ((j : ℕ) → j ≢ np → s'.procs j ≡ s.procs j)

  forked :
      (me np : ℕ) (s s1 : Sys K) (r : ℤ) (s' : Sys K)
      → SysInv K s
      → SysInv K s1 × Allocated K s (some np) s1
      → fork_into K me np s1 ≡ ok (r, s')
      → SysInv K s' × (Born me s r s' ⊎ (r ≡ negsuc 0))
  forked me np s s1 r s' v (v1, (inr q, _)) e = cc
  forked me np s s1 r s' v (v1, (inl (i, q, u, b, _, pid, st, others), _)) e =
      let same : np ≡ i = ground arith in
      let st' : (s1.procs np).state ≡ used = rw same st in
      let pid' : (s1.procs np).pid ≡ s.nextpid = rw same pid in
      let f = fork_into-Forked me np s1 r s' v1 (rw st' refl) e in
      (
        f.inv,
        elim f.got [
          | inl (got, c) ↦ inl (
            np,
            rw same u,
            rw same b,
            got ∙ ap pos pid',
            (λ j l z. omega (arith, v.below j l)),
            c.pid ∙ pid',
            c.state,
            c.parent,
            c.untimed,
            (λ ne.
                let p : s1.procs me ≡ s.procs me = others me (rw (← same) ne) in
                (
                  c.sz ∙ ap (λ x. x.sz) p,
                  c.cwd ∙ ap (λ x. x.cwd) p,
                  c.name ∙ ap (λ x. take 15 x.name) p,
                )),
            λ j ne. c.others j ne ∙ others j (rw (← same) ne),
          )
          | inr bad ↦ inr bad
        ],
      )

  -- As long as `nextpid` and the pid after it are below 2 ^ 31, so that no `int` overflows, `fork` keeps the invariant. If it returns a pid, that is a fresh one, not the pid of any process
  -- before; it belongs to a slot that was UNUSED, which is now a runnable child of the caller with
  -- the caller's memory size, directory and name; and no other process has changed. Otherwise it
  -- returns -1.
  pub fork_lem :
      (me : ℕ) (s : Sys K) (r : ℤ) (s' : Sys K)
      → SysInv K s
      → s.nextpid + 1 < 2 ^ 31
      → fork K me s ≡ ok (r, s')
      → SysInv K s' × (Born me s r s' ⊎ (r ≡ negsuc 0))
  unfolding fork
  fork_lem me s r s' v few e = elim (Outcome-cases (allocproc K s)) [
    | inl ((none, s1), q) ↦
        let (v1, _) = allocproc_lem K s none s1 v few q in
        let p = ok-injective _ _ (rw (q, fork) at e) in
        (rw (← ap (λ x. x.1) p) v1, inr (sym (ap (λ x. x.0) p)))
    | inl ((some np, s1), q) ↦
        forked me np s s1 r s' v (allocproc_lem K s (some np) s1 v few q) (rw (q, fork) at e)
    | inr (inl q) ↦ let e' = rw (q, fork) at e in cc
    | inr (inr q) ↦ let e' = rw (q, fork) at e in cc
  ]

  -- While `nextpid` does not overflow, after every successful `fork`, until the child has had a tick, the CFS scheduler divides by zero
  -- whichever process it looks at.
  pub fork-cfs_undefined :
      (me : ℕ) (s s' : Sys K) (pid : ℕ)
      → SysInv K s
      → s.nextpid + 1 < 2 ^ 31
      → fork K me s ≡ ok (pos pid, s')
      → (i : ℕ) → cfs_scheduler i s'.procs ≡ none
  fork-cfs_undefined me s s' pid v few e i = elim (fork_lem me s (pos pid) s' v few e).1 [
    | inl (np, u, _, _, _, _, st, _, z, _, _) ↦
        (cfs_scheduler-undefined s'.procs np i u (rw st refl) z).1
    | inr bad ↦ cc
  ]
