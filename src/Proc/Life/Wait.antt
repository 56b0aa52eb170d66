-- ===== src/Proc/Life/Wait.antt =====
-- wait: which child it reaps, when it fails, and when it sleeps.
use xv6_riscv_private.Common.{
  ℕ, zero, suc, ◌+◌, ◌≤◌, ◌<◌, ◌≡◌, ◌≢◌, ◌⊎◌, sym, ap, Bool, true, false, ◌&&◌, ◌||◌, not, Option,
  none, some, if◌then◌else◌, arith, Bool-cases, inl, inr, update, ok, >>=-eq-ok, ok-injective, ℤ,
  pos, negsuc,
}
use xv6_riscv_private.Proc.{nproc, is_zombie, is_proc}
use xv6_riscv_private.Proc.Wake.{fall_asleep}
use xv6_riscv_private.Proc.Life.{
  Kernel, Sys, cleared, freeproc, copy_status, collect, reap, wait_loop, wait,
}
use xv6_riscv_private.Proc.Life.Inv.{freeproc-Freed}

module _ (K : Kernel) (me : ℕ) where
  abbrev pub is_child : Sys K → ℕ → Bool
  is_child s j = is_proc (s.procs j).parent me

  abbrev pub is_exited_child : Sys K → ℕ → Bool
  is_exited_child s j = is_child s j && is_zombie (s.procs j).state

  -- the child `c` was reaped: its pid returned, its slot cleared, nothing else changed
  pub record Reaped (c : ℕ) (s : Sys K) (r : Option ℤ) (s' : Sys K) : Type 0 where
    pub exited : is_exited_child s c ≡ true
    pub result : r ≡ some (pos (s.procs c).pid)
    pub procs : s'.procs ≡ update s.procs c (cleared (s.procs c))
    pub nextpid : s'.nextpid ≡ s.nextpid

  -- the status of the exited child `c` could not be copied out: the child stays
  pub record Refused (c addr : ℕ) (s : Sys K) (r : Option ℤ) (s' : Sys K) : Type 0 where
    pub exited : is_exited_child s c ≡ true
    pub wanted : addr ≢ 0
    pub result : r ≡ some (negsuc 0)
    pub procs : s'.procs ≡ s.procs
    pub nextpid : s'.nextpid ≡ s.nextpid

  collect-Reaped :
      (c msg_addr : ℕ) (s : Sys K) (r : Option ℤ) (s' : Sys K)
      → is_exited_child s c ≡ true
      → collect K c me msg_addr s ≡ ok (r, s')
      → Reaped c s r s'
  unfolding collect
  collect-Reaped c msg_addr s r s' x e =
      let w = (K.copyout_msg (s.procs me).pagetable msg_addr (s.procs c).exit_msg s.world).1 in
      let (t, e1, e2) =
        >>=-eq-ok {B = Option ℤ × Sys K} (freeproc K c (record s { world = w }))
          (λ t. ok (some (pos (s.procs c).pid), t)) e in
      let p = ok-injective _ _ e2 in
      let (q, q', _) = freeproc-Freed K c (record s { world = w }) t e1 in
      record {
        exited = x;
        result = sym (ap (λ x. x.0) p);
        procs = rw (← ap (λ x. x.1) p) q;
        nextpid = rw (← ap (λ x. x.1) p) q';
      }

  copy_status-false : (c addr : ℕ) (s : Sys K) → (copy_status K c me addr s).0 ≡ false → addr ≢ 0
  unfolding copy_status
  copy_status-false c addr s e z = ground arith

  reap_lem :
      (c addr msg_addr : ℕ) (s : Sys K) (r : Option ℤ) (s' : Sys K)
      → is_exited_child s c ≡ true
      → reap K c me addr msg_addr s ≡ ok (r, s')
      → Reaped c s r s' ⊎ Refused c addr s r s'
  unfolding reap
  reap_lem c addr msg_addr s r s' x e = elim (Bool-cases (copy_status K c me addr s).0) [
    | inl g ↦
        let h =
          collect-Reaped c msg_addr (record s { world = (copy_status K c me addr s).1 }) r s' x
            (rw g at e) in
        inl (record { exited = x; result = h.result; procs = h.procs; nextpid = h.nextpid })
    | inr b ↦
        let p = ok-injective _ _ (rw b at e) in
        inr (record {
          exited = x;
          wanted = copy_status-false c addr s b;
          result = sym (ap (λ x. x.0) p);
          procs = rw (← ap (λ x. x.1) p);
          nextpid = rw (← ap (λ x. x.1) p);
        })
  ]

  -- No exited child was found: `wait` fails if it has no child or was killed, and else sleeps.
  pub record Unanswered (havekids : Bool) (s : Sys K) (r : Option ℤ) (s' : Sys K) : Type 0 where
    pub result : r ≡ (if not havekids || (s.procs me).killed then some (negsuc 0) else none)
    pub procs : s'.procs ≡ (
        if not havekids || (s.procs me).killed
        then s.procs
        else fall_asleep me (K.proc_addr me) s.procs)
    pub nextpid : s'.nextpid ≡ s.nextpid

  -- whether one of the `n` processes from `i` on is a child
  pub any_child : ℕ → ℕ → Sys K → Bool
  any_child zero i s = false
  any_child (suc n) i s = is_child s i || any_child n (i + 1) s

  -- what a scan from index `i` on came to
  abbrev pub Scanned : ℕ → ℕ → Bool → ℕ → Sys K → Option ℤ → Sys K → Type 0
  Scanned i n havekids addr s r s' =
      ((c : ℕ) × (i ≤ c)
        × (c < i + n)
        × ((j : ℕ) → i ≤ j → j < c → is_exited_child s j ≡ false)
        × (Reaped c s r s' ⊎ Refused c addr s r s'))
      ⊎ (((j : ℕ) → i ≤ j → j < i + n → is_exited_child s j ≡ false)
          × Unanswered (havekids || any_child n i s) s r s')

  wait_end :
      (havekids : Bool) (s : Sys K) (r : Option ℤ) (s' : Sys K)
      → wait_loop K zero nproc havekids me 0 0 s ≡ ok (r, s')
      → Unanswered havekids s r s'
  unfolding wait_loop
  wait_end havekids s r s' e = elim (Bool-cases (not havekids || (s.procs me).killed)) [
    | inl q ↦
        let p = ok-injective _ _ (rw q at e) in
        record {
          result = rw q (sym (ap (λ x. x.0) p));
          procs = rw (q, ← ap (λ x. x.1) p);
          nextpid = rw (← ap (λ x. x.1) p);
        }
    | inr q ↦
        let p = ok-injective _ _ (rw q at e) in
        record {
          result = rw q (sym (ap (λ x. x.0) p));
          procs = rw (q, ← ap (λ x. x.1) p);
          nextpid = rw (← ap (λ x. x.1) p);
        }
  ]

  wait_loop-Scanned :
      (n i : ℕ) (havekids : Bool) (addr msg_addr : ℕ) (s : Sys K) (r : Option ℤ) (s' : Sys K)
      → wait_loop K n i havekids me addr msg_addr s ≡ ok (r, s')
      → Scanned i n havekids addr s r s'
  unfolding wait_loop any_child
  wait_loop-Scanned zero i havekids addr msg_addr s r s' e =
      let q : (havekids || false) ≡ havekids = ground arith in
      inr ((λ j l u. absurd (omega arith)), rw q (wait_end havekids s r s' e))
  wait_loop-Scanned (suc n) i havekids addr msg_addr s r s' e =
      elim (Bool-cases (is_exited_child s i)) [
        | inl x ↦ inl (
          i,
          omega arith,
          omega arith,
          (λ j l u. absurd (omega arith)),
          reap_lem i addr msg_addr s r s' x (rw x at e),
        )
        | inr x ↦ later x (
            wait_loop-Scanned n (i + 1) (havekids || is_child s i) addr msg_addr s r s' (rw x at e))
      ]
    where
      later :
          is_exited_child s i ≡ false
          → Scanned (i + 1) n (havekids || is_child s i) addr s r s'
          → Scanned i (suc n) havekids addr s r s'
      later x (inl (c, l, u, before, got)) =
          inl (c, omega arith, omega arith, (λ j l' u'. ground (arith, before j)), got)
      later x (inr (none_left, un)) =
          let q : (havekids || (is_child s i || any_child n (i + 1) s))
              ≡ ((havekids || is_child s i) || any_child n (i + 1) s) =
            ground arith in
          inr ((λ j l u. ground (arith, none_left j)), rw q un)

  -- A scan of `wait` takes the first exited child of the caller: it returns its pid and clears its
  -- slot and no other, or, if the status is wanted and cannot be copied out, returns -1 and
  -- leaves the child. Without an exited child it returns -1 if there is no child or the caller was
  -- killed, and puts the caller to sleep on its own address otherwise.
  pub wait_lem :
      (addr msg_addr : ℕ) (s : Sys K) (r : Option ℤ) (s' : Sys K)
      → wait K me addr msg_addr s ≡ ok (r, s')
      → ((c : ℕ) × (c < nproc)
          × ((j : ℕ) → j < c → is_exited_child s j ≡ false)
          × (Reaped c s r s' ⊎ Refused c addr s r s'))
        ⊎ (((j : ℕ) → j < nproc → is_exited_child s j ≡ false)
            × Unanswered (any_child nproc 0 s) s r s')
  unfolding wait
  wait_lem addr msg_addr s r s' e = elim (wait_loop-Scanned nproc 0 false addr msg_addr s r s' e) [
    | inl (c, l, u, before, got) ↦ inl (c, u, (λ j l'. before j (omega arith) l'), got)
    | inr (none_left, un) ↦ inr ((λ j u. none_left j (omega arith) u), un)
  ]
