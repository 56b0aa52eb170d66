-- ===== src/Proc/Life/Inv.antt =====
-- The invariant of the process table, and that the operations on it keep it.
use xv6_riscv_private.Common.{
  ℕ, ◌+◌, ◌%◌, ◌^◌, subst, ◌<◌, ◌≡◌, ◌≢◌, ◌⊎◌, refl, sym, ◌∙◌, true, false, Option, none, some,
  ◌==◌, arith, Bool-cases, inl, inr, update, Outcome, ok, >>=-eq-ok, Outcome-cases, ok-injective,
  ap,
}
use mathlib.Core.Bool.{false≢true}
use xv6_riscv_private.Proc.{used, Proc, Table, nproc, is_unused}
use xv6_riscv_private.Proc.Life.{
  Kernel, Sys, find_unused, cleared, freeproc, give_up, map_up, set_up, allocproc,
}
use xv6_riscv_private.Proc.Life.Search.{Sought, find_unused-Sought}

-- A process that is not UNUSED has a pid of its own, below `nextpid`; an UNUSED one has pid 0.
pub record TableInv (t : Table) (nextpid : ℕ) : Type 0 where
  pub positive : 0 < nextpid
  pub below : (i : ℕ) → i < nproc → (t i).pid < nextpid
  pub unique : (i j : ℕ) → i < nproc → j < nproc → (t i).pid ≡ (t j).pid → (t i).pid ≢ 0 → i ≡ j
  pub named : (i : ℕ) → i < nproc → is_unused (t i).state ≡ false → (t i).pid ≢ 0
  pub blank : (i : ℕ) → i < nproc → is_unused (t i).state ≡ true → (t i).pid ≡ 0

-- `q` has the pid of `p`, and is UNUSED exactly if `p` is.
pub record Keeps (p q : Proc) : Type 0 where
  pub pid : q.pid ≡ p.pid
  pub unused : is_unused q.state ≡ is_unused p.state

pub TableInv-Keeps :
    (t t' : Table) (n : ℕ)
    → ((i : ℕ) → i < nproc → Keeps (t i) (t' i))
    → TableInv t n
    → TableInv t' n
TableInv-Keeps t t' n k v = record {
  positive = v.positive;
  below = λ i l. rw (k i l).pid (v.below i l);
  unique =
      λ i j l l' e ne. v.unique i j l l' (ground (arith, k i l, k j l')) (rw (k i l).pid at ne);
  named = λ i l e. rw (k i l).pid (v.named i l (sym (k i l).unused ∙ e));
  blank = λ i l e. rw (k i l).pid (v.blank i l (sym (k i l).unused ∙ e));
}

pub TableInv-update :
    (t : Table) (n i : ℕ) (p : Proc) → Keeps (t i) p → TableInv t n → TableInv (update t i p) n
TableInv-update t n i p k v = TableInv-Keeps t (update t i p) n (λ j l. here j) v
  where
    here : (j : ℕ) → Keeps (t j) (update t i p j)
    here j = elim (Bool-cases (i == j)) [
      | inl e ↦ let q : i ≡ j = ground arith in rw e (rw (← q) k)
      | inr e ↦ rw e (record { pid = refl; unused = refl })
    ]

-- freeing a process
pub TableInv-cleared :
    (t : Table) (n i : ℕ) (p : Proc)
    → p.pid ≡ 0
    → is_unused p.state ≡ true
    → TableInv t n
    → TableInv (update t i p) n
TableInv-cleared t n i p z b v = record {
  positive = v.positive;
  below = λ j l. ground (arith, v.below j l, v.positive);
  unique = λ j k l l' e ne. ground (arith, v.unique j k l l');
  named = λ j l e. ground (arith, v.named j l);
  blank = λ j l e. ground (arith, v.blank j l);
}

-- giving an UNUSED process the next pid
pub TableInv-new :
    (t : Table) (n i : ℕ) (p : Proc)
    → p.pid ≡ n
    → is_unused p.state ≡ false
    → TableInv t n
    → TableInv (update t i p) (n + 1)
TableInv-new t n i p z b v = record {
  positive = omega arith;
  below = λ j l. ground (arith, v.below j l);
  unique = λ j k l l' e ne. ground (arith, v.unique j k l l', v.below j l, v.below k l');
  named = λ j l e. ground (arith, v.named j l, v.positive);
  blank = λ j l e. ground (arith, v.blank j l);
}

cleared_lem : (p : Proc) → ((cleared p).pid ≡ 0) × (is_unused (cleared p).state ≡ true)
unfolding cleared
cleared_lem p = (refl, refl)

module _ (K : Kernel) where
  abbrev pub SysInv : Sys K → Type 0
  SysInv s = TableInv s.procs s.nextpid

  abbrev Freed : ℕ → Sys K → Sys K → Type 0
  Freed i s s' =
      (s'.procs ≡ update s.procs i (cleared (s.procs i)))
      × (s'.nextpid ≡ s.nextpid)
      × (s'.initproc ≡ s.initproc)

  pub freeproc-Freed : (i : ℕ) (s s' : Sys K) → freeproc K i s ≡ ok s' → Freed i s s'
  unfolding freeproc
  freeproc-Freed i s s' e = ground arith

  pub freeproc-Inv : (i : ℕ) (s s' : Sys K) → freeproc K i s ≡ ok s' → SysInv s → SysInv s'
  freeproc-Inv i s s' e v =
      let (q, q', _) = freeproc-Freed i s s' e in
      rw (q, q')
        (TableInv-cleared s.procs s.nextpid i (cleared (s.procs i)) (cleared_lem (s.procs i)).0
          (cleared_lem (s.procs i)).1 v)

  -- what has happened when process `i` is being set up: it alone has changed, and a pid was taken
  pub record Shape (i : ℕ) (s s' : Sys K) : Type 0 where
    pub inv : SysInv s'
    pub next : s'.nextpid ≡ (s.nextpid + 1) % 2 ^ 32
    pub init : s'.initproc ≡ s.initproc
    pub others : (j : ℕ) → j ≢ i → s'.procs j ≡ s.procs j

  Shape-freed : (i : ℕ) (s s1 s2 : Sys K) → Shape i s s1 → freeproc K i s1 ≡ ok s2 → Shape i s s2
  Shape-freed i s s1 s2 h e =
      let (q, q', q'') = freeproc-Freed i s1 s2 e in
      record {
        inv = freeproc-Inv i s1 s2 e h.inv;
        next = q' ∙ h.next;
        init = q'' ∙ h.init;
        others = λ j ne. rw q (ground (arith, h.others j));
      }

  Shape-put :
      (i : ℕ) (s s1 : Sys K) (p : Proc) (w : K.World)
      → Shape i s s1
      → Keeps (s1.procs i) p
      → Shape i s (record s1 { procs = update s1.procs i p; world = w })
  Shape-put i s s1 p w h k = record {
    inv = TableInv-update s1.procs s1.nextpid i p k h.inv;
    next = h.next;
    init = h.init;
    others = λ j ne. ground (arith, h.others j);
  }

  -- The outcome of `allocproc` from `found:` on: either process `i`, in use with the next pid, or
  -- nothing.
  pub record SetUp (i : ℕ) (s : Sys K) (r : Option ℕ) (s' : Sys K) : Type 0 where
    pub shape : Shape i s s'
    pub got :
        ((r ≡ some i) × ((s'.procs i).pid ≡ s.nextpid) × ((s'.procs i).state ≡ used)) ⊎ (r ≡ none)

  give_up-SetUp :
      (i : ℕ) (s s1 : Sys K) (r : Option ℕ) (s' : Sys K)
      → Shape i s s1
      → give_up K i s1 ≡ ok (r, s')
      → SetUp i s r s'
  unfolding give_up
  give_up-SetUp i s s1 r s' h e =
      let (s2, e1, e2) = >>=-eq-ok (freeproc K i s1) (λ t. ok (none, t)) e in
      let q : s2 ≡ s' = cc in record { shape = rw (← q) (Shape-freed i s s1 s2 h e1); got = inr cc }

  map_up-SetUp :
      (i : ℕ) (s s1 : Sys K) (r : Option ℕ) (s' : Sys K)
      → Shape i s s1
      → (s1.procs i).pid ≡ s.nextpid
      → (s1.procs i).state ≡ used
      → map_up K i s1 ≡ ok (r, s')
      → SetUp i s r s'
  unfolding map_up
  map_up-SetUp i s s1 r s' h ep es e =
      elim (Outcome-cases (K.proc_pagetable (s1.procs i).trapframe s1.world)) [
        | inl ((pt, w), q) ↦
            let e' = rw (q, map_up) at e in
            let s2 : Sys K = record s1 {
              procs = update s1.procs i (record (s1.procs i) { pagetable = pt });
              world = w;
            } in
            let h2 : Shape i s s2 = Shape-put i s s1 _ w h (record { pid = refl; unused = refl }) in
            elim (Bool-cases (pt == 0)) [
              | inl z ↦ give_up-SetUp i s s2 r s' h2 (rw z at e')
              | inr z ↦
                  let p = ok-injective _ _ (rw z at e') in
                  let own : (i == i) ≡ true = ground arith in
                  record {
                    shape =
                        rw (← ap (λ x. x.1) p)
                          (Shape-put i s s2 _ w h2 (rw own (record { pid = refl; unused = refl })));
                    got = inl (
                      sym (ap (λ x. x.0) p),
                      rw (← ap (λ x. x.1) p, own) ep,
                      rw (← ap (λ x. x.1) p, own) es,
                    );
                  }
            ]
        | inr (inl q) ↦ let e' = rw (q, map_up) at e in cc
        | inr (inr q) ↦ let e' = rw (q, map_up) at e in cc
      ]

  set_up-SetUp :
      (i : ℕ) (s : Sys K) (r : Option ℕ) (s' : Sys K)
      → set_up K i s ≡ ok (r, s')
      → SysInv s
      → s.nextpid + 1 < 2 ^ 31
      → SetUp i s r s'
  unfolding set_up
  set_up-SetUp i s r s' e v few =
      let tf = (K.kalloc s.world).0 in
      let w = (K.kalloc s.world).1 in
      let p : Proc = record (s.procs i) { pid = s.nextpid; state = used; trapframe = tf } in
      let s1 : Sys K = record {
        procs = update s.procs i p;
        nextpid = (s.nextpid + 1) % 2 ^ 32;
        initproc = s.initproc;
        world = w;
      } in
      let own : (i == i) ≡ true = ground arith in
      let h : Shape i s s1 = record {
        inv =
            subst (TableInv s1.procs) (omega (arith, few))
              (TableInv-new s.procs s.nextpid i p refl refl v);
        next = refl;
        init = refl;
        others = λ j ne. ground arith;
      } in
      elim (Bool-cases (tf == 0)) [
        | inl z ↦ give_up-SetUp i s s1 r s' h (rw z at e)
        | inr z ↦ map_up-SetUp i s s1 r s' h (rw own refl) (rw own refl) (rw z at e)
      ]

  -- what `allocproc` has done: taken the first UNUSED process, given it the next pid and the state
  -- USED, and changed no other; or failed; and if no process was UNUSED it has changed nothing
  abbrev pub Allocated : Sys K → Option ℕ → Sys K → Type 0
  Allocated s r s' =
      (((i : ℕ) × (r ≡ some i)
          × (i < nproc)
          × (is_unused (s.procs i).state ≡ true)
          × ((j : ℕ) → j < i → is_unused (s.procs j).state ≡ false)
          × ((s'.procs i).pid ≡ s.nextpid)
          × ((s'.procs i).state ≡ used)
          × ((j : ℕ) → j ≢ i → s'.procs j ≡ s.procs j))
        ⊎ (r ≡ none))
      × (((j : ℕ) → j < nproc → is_unused (s.procs j).state ≡ false) → (r ≡ none) × (s' ≡ s))

  allocproc-found :
      (s : Sys K) (r : Option ℕ) (s' : Sys K)
      → SysInv s
      → s.nextpid + 1 < 2 ^ 31
      → (o : Option ℕ) → Sought (λ j. is_unused (s.procs j).state) 0 nproc o
      → (let found : Outcome (Option ℕ × Sys K) = elim o [
        | none ↦ ok (none, s)
        | some i ↦ set_up K i s
      ] in
          found)
        ≡ ok (r, s')
      → SysInv s' × Allocated s r s'
  allocproc-found s r s' v few none f e =
      let p = ok-injective _ _ e in
      let q : s ≡ s' = ap (λ x. x.1) p in
      let q' : r ≡ none = sym (ap (λ x. x.0) p) in (rw (← q) v, (inr q', λ _. (q', sym q)))
  allocproc-found s r s' v few (some i) (l, u, b, before) e =
      let su = set_up-SetUp i s r s' e v few in
      let full = (λ (all : (j : ℕ) → j < nproc → is_unused (s.procs j).state ≡ false).
        absurd (false≢true (sym (all i u) ∙ b))) in
      elim su.got [
        | inl (q, pid, st) ↦ (
          su.shape.inv,
          (inl (i, q, u, b, (λ j lt. before j (omega arith) lt), pid, st, su.shape.others), full),
        )
        | inr q ↦ (su.shape.inv, (inr q, full))
      ]

  -- As long as `nextpid` and the pid after it are below 2 ^ 31, so that no `int` overflows, a successful `allocproc` takes the first UNUSED process, gives it the next pid and the state USED,
  -- and changes no other process; a failed one returns null. Both keep the invariant. If no process
  -- is UNUSED it returns null and changes nothing.
  pub allocproc_lem :
      (s : Sys K) (r : Option ℕ) (s' : Sys K)
      → SysInv s
      → s.nextpid + 1 < 2 ^ 31
      → allocproc K s ≡ ok (r, s')
      → SysInv s' × Allocated s r s'
  unfolding allocproc
  allocproc_lem s r s' v few e =
      allocproc-found s r s' v few (find_unused nproc 0 s.procs)
        (find_unused-Sought nproc 0 s.procs) e
