-- ===== src/File/Refs.antt =====
-- A file's count is the number of references to it that its users hold.
use xv6_riscv_private.Common.{
  ℕ, zero, suc, ◌+◌, ◌-◌, ◌≤◌, ◌<◌, ◌≡◌, ◌≢◌, refl, subst, Bool, false, ◌&&◌, ◌==◌, ltb,
  if◌then◌else◌, update, Option, none, some, Outcome, ok, ◌>>=◌, arith, Bool-cases, inl, inr, List,
  [], ◌∷◌,
}
use xv6_riscv_private.File.{File, Table, nfile, fd_none, alloc_loop, filealloc, filedup, fileclose}

-- the calls of the users
pub data Call : Type 0 where
  alloc : Call
  dup : ℕ → Call
  close : ℕ → Call

-- the table, and the number of references held to each file
pub record State : Type 0 where
  pub files : Table
  pub held : ℕ → ℕ

abbrev pub holds : State → ℕ → Bool
holds s f = ltb f nfile && ltb 0 (s.held f)

unfoldable pub opened : Option ℕ × Table → State → State
opened (none, t) s = record s { files = t }
opened (some f, t) s = record { files = t; held = update s.held f (s.held f + 1) }

-- A user that has no reference to a file does not call with it.
unfoldable pub call : Call → State → Outcome State
call alloc s = ok (opened (filealloc s.files) s)
call (dup f) s =
    let done = (do
      t ← filedup f s.files
      ok (record { files = t; held = update s.held f (s.held f + 1) })) in
    if holds s f then done else ok s
call (close f) s =
    let done = (do
      (ff, t) ← fileclose f s.files
      ok (record { files = t; held = update s.held f (s.held f - 1) })) in
    if holds s f then done else ok s

unfoldable pub run : List Call → State → Outcome State
run [] s = ok s
run (c ∷ cs) s = do s' ← call c s; run cs s'

pub record IsCounted (s : State) : Type 0 where
  pub counts : (f : ℕ) → f < nfile → (s.files f).ref ≡ s.held f

-- what `filealloc` found
data Found (t : Table) (i : ℕ) : Option ℕ × Table → Type 0 where
  new :
      (f : ℕ)
      → i ≤ f
      → f < nfile
      → (t f).ref ≡ 0
      → Found t i (some f, update t f (record (t f) { ref = 1 }))
  full : ((f : ℕ) → i ≤ f → f < nfile → (t f).ref ≢ 0) → Found t i (none, t)

Found-suc :
    (t : Table) (i : ℕ) (o : Option ℕ × Table) → (t i).ref ≢ 0 → Found t (i + 1) o → Found t i o
Found-suc t i o ne (new f lo hi z) = new f (omega (arith, lo)) hi z
Found-suc t i o ne (full all) = full (λ f lo hi. elim (Bool-cases (i == f)) [
  | inl e ↦ subst (λ x. (t x).ref ≢ 0) (ground (arith, e)) ne
  | inr e ↦ all f (ground (arith, e, lo)) hi
])

alloc_loop-Found : (n i : ℕ) (t : Table) → i + n ≡ nfile → Found t i (alloc_loop n i t)
unfolding alloc_loop
alloc_loop-Found zero i t e = full (λ f lo hi. absurd (omega (arith, e, lo, hi)))
alloc_loop-Found (suc n) i t e = elim (Bool-cases ((t i).ref == 0)) [
  | inl z ↦ rw z (new i (omega arith) (omega (arith, e)) (ground (arith, z)))
  | inr ne ↦ rw ne (
      Found-suc t i (alloc_loop n (i + 1) t) (ground (arith, ne))
        (alloc_loop-Found n (i + 1) t (omega (arith, e))))
]

IsCounted-update :
    (s : State) (f : ℕ) (q : File) (n : ℕ)
    → q.ref ≡ n
    → IsCounted s
    → IsCounted (record { files = update s.files f q; held = update s.held f n })
IsCounted-update s f q n e h = record { counts = λ g lt. ground (arith, e, h.counts g lt) }

opened-IsCounted :
    (s : State) (o : Option ℕ × Table) → Found s.files 0 o → IsCounted s → IsCounted (opened o s)
unfolding opened
opened-IsCounted s o (new f lo hi z) h =
    IsCounted-update s f (record (s.files f) { ref = 1 }) (s.held f + 1)
      (ground (arith, z, h.counts f hi)) h
opened-IsCounted s o (full all) h = record { counts = h.counts }

call-IsCounted :
    (c : Call) (s : State) → IsCounted s → (s' : State) × (call c s ≡ ok s') × IsCounted s'
unfolding call filedup fileclose filealloc
call-IsCounted alloc s h = (
  opened (filealloc s.files) s,
  refl,
  opened-IsCounted s (filealloc s.files) (alloc_loop-Found nfile 0 s.files refl) h,
)
call-IsCounted (dup f) s h = elim (Bool-cases (holds s f)) [
  | inr out ↦ (s, rw out refl, h)
  | inl holding ↦
      let count = h.counts f (ground (arith, holding)) in
      let some_refs : ltb (s.files f).ref 1 ≡ false = ground (arith, holding, count) in
      (
        record {
          files = update s.files f (record (s.files f) { ref = (s.files f).ref + 1 });
          held = update s.held f (s.held f + 1);
        },
        rw (holding, some_refs) refl,
        IsCounted-update s f (record (s.files f) { ref = (s.files f).ref + 1 }) (s.held f + 1)
            (ground (arith, count)) h,
      )
]
call-IsCounted (close f) s h = elim (Bool-cases (holds s f)) [
  | inr out ↦ (s, rw out refl, h)
  | inl holding ↦
      let count = h.counts f (ground (arith, holding)) in
      let some_refs : ltb (s.files f).ref 1 ≡ false = ground (arith, holding, count) in
      let q : File = record (s.files f) { ref = (s.files f).ref - 1 } in
      elim (Bool-cases (ltb 0 q.ref)) [
        | inl more ↦ (
          record { files = update s.files f q; held = update s.held f (s.held f - 1) },
          rw (holding, some_refs, more) refl,
          IsCounted-update s f q (s.held f - 1) (ground (arith, count)) h,
        )
        | inr last ↦ (
          record {
            files = update s.files f (record q { ref = 0; type = fd_none });
            held = update s.held f (s.held f - 1);
          },
          rw (holding, some_refs, last) refl,
          IsCounted-update s f (record q { ref = 0; type = fd_none }) (s.held f - 1)
              (ground (arith, count, last)) h,
        )
      ]
]

-- Whatever calls of `filealloc`, `filedup` and `fileclose` the users make, each only with files that it holds a reference
-- to, none of them panics, and after them the count of every file is the number of references held to it.
pub run-IsCounted :
    (cs : List Call) (s : State) → IsCounted s → (s' : State) × (run cs s ≡ ok s') × IsCounted s'
unfolding run
run-IsCounted [] s h = (s, refl, h)
run-IsCounted (c ∷ cs) s h =
    let (s1, e, h1) = call-IsCounted c s h in
    let (s2, e', h2) = run-IsCounted cs s1 h1 in (s2, rw e e', h2)
