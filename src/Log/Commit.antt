-- ===== src/Log/Commit.antt =====
-- A commit is atomic: after recovery the disk has all of the transaction or nothing of it.
use xv6_riscv_private.Common.{
  ℕ, ◌+◌, ◌-◌, ◌≤◌, ◌<◌, ◌≡◌, inl, inr, ap, sym, ◌∙◌, subst, fun_ext, false, ltb, ◌==◌,
  if◌then◌else◌, arith, Bool-cases, List,
}
use xv6_riscv_private.Log.{
  Block, LogHeader, Device, reboot, write_log, write_head, install_trans, recover_from_log, commit,
  write_log_loop,
}
use xv6_riscv_private.Log.Header.{
  is_logged, head_block, write_head-disk, write_head-cache, write_head-budget, head_block-count,
  head_block-entry,
}
use xv6_riscv_private.Log.Writes.{
  Apart, write_log_loop-disk, write_log_loop-budget, write_log_loop-copies,
}
use xv6_riscv_private.Log.Install.{install_loop-off, install_loop-budget}
use xv6_riscv_private.Log.Disk.{IsClean, IsCommitted, Holds, Fits, clear-Holds}
use xv6_riscv_private.Log.Recovery.{recoveries, recover-Holds, recoveries-Holds}

-- what each block shall hold: once the header is written, after `n` log blocks, what the cache held
-- for the blocks of the transaction; and what the disk held before that, and for the other blocks
abbrev pub promised : LogHeader → Device → ℕ → Block
promised lh d b =
    if ltb lh.n d.budget
    then if is_logged lh.n 0 lh.block b then d.cache b else d.disk b
    else d.disk b

module _ (start m : ℕ) (lh : LogHeader) (fit : Fits start m lh) (d : Device) where
  logged : Device
  logged = write_log_loop start lh.n 0 lh d

  headed : Device
  headed = write_head start lh logged

  near : (b : ℕ) → Apart start m b → Apart start lh.n b
  near b far = let s = fit.small in ground (arith, far, s)

  apart : (j : ℕ) → j < lh.n → Apart start lh.n (lh.block j)
  apart j lt = near (lh.block j) (fit.apart j lt)

  headed-budget : headed.budget ≡ d.budget - lh.n - 1
  unfolding headed logged
  headed-budget =
      omega (arith, write_log_loop-budget start lh.n 0 lh d, write_head-budget start lh logged)

  -- The log has no header yet.
  headed-IsClean :
      d.disk start 0 ≡ 0 → d.budget ≤ lh.n → IsClean start m d.cache (promised lh d) headed.disk
  unfolding headed logged
  headed-IsClean clean short =
      let same : (b : ℕ) → headed.disk b ≡ logged.disk b = λ b.
        ground
          (arith, write_log_loop-budget start lh.n 0 lh d, write_head-disk start lh logged b) in
      let head : headed.disk start ≡ d.disk start =
        same start ∙ write_log_loop-disk start lh.n 0 lh d start (inl (omega arith)) in
      record {
        count = ap (λ (v : Block). v 0) head ∙ clean;
        home = λ b far. ground (arith, near b far, same b, write_log_loop-disk start lh.n 0 lh d b);
      }

  headed-cache : (j : ℕ) → j < lh.n → headed.cache (start + j + 1) ≡ d.cache (lh.block j)
  unfolding headed logged
  headed-cache j lt =
      let copies =
        write_log_loop-copies start lh.n lh.n 0 lh d (omega arith) apart j (omega arith)
          (omega arith) in
      ground (arith, copies.0, write_head-cache start lh logged (start + j + 1))

  headed-IsCommitted : lh.n < d.budget → IsCommitted start m d.cache (promised lh d) lh headed.disk
  unfolding headed logged
  headed-IsCommitted enough =
      let left : (logged.budget == 0) ≡ false =
        ground (arith, write_log_loop-budget start lh.n 0 lh d) in
      let head : headed.disk start ≡ head_block start lh logged =
        ground (arith, left, write_head-disk start lh logged start) in
      record {
        count = ap (λ (v : Block). v 0) head ∙ head_block-count start lh logged;
        entries =
            λ j lt. ap (λ (v : Block). v (1 + j)) head ∙ head_block-entry start lh logged j lt;
        contents = λ j lt.
            let copies =
              write_log_loop-copies start lh.n lh.n 0 lh d (omega arith) apart j (omega arith)
                (omega arith) in
            let there = copies.1 (omega arith) in
            ground (arith, there, left, write_head-disk start lh logged (start + j + 1));
        home = λ b far. ground (
          arith,
          near b far,
          left,
          write_head-disk start lh logged b,
          write_log_loop-disk start lh.n 0 lh d b,
        );
      }

  finished : Device
  finished =
      write_head start (record { n = 0; block = lh.block }) (install_trans start false lh headed)

  finished-eq-commit : 0 < lh.n → (commit start lh d).1 ≡ finished
  unfolding commit finished headed logged write_log
  finished-eq-commit h = ground arith

  finished-short : d.budget ≤ lh.n → (b : ℕ) → finished.disk b ≡ headed.disk b
  unfolding finished install_trans
  finished-short short b =
      let dead : headed.budget ≡ 0 = omega (arith, headed-budget) in
      let after = install_trans start false lh headed in
      ground (
        arith,
        dead,
        install_loop-budget false start lh.n 0 lh headed,
        install_loop-off false start lh.n 0 lh headed dead b,
        write_head-disk start (record { n = 0; block = lh.block }) after b,
      )

  finished-Holds :
      d.disk start 0 ≡ 0
      → Holds start m d.cache (promised lh d) lh finished.disk
        × (lh.n + lh.n + 1 < d.budget → IsClean start m d.cache (promised lh d) finished.disk)
  unfolding finished install_trans
  finished-Holds clean = elim (Bool-cases (ltb lh.n d.budget)) [
    | inl e ↦
        let r =
          clear-Holds start m d.cache (promised lh d) lh fit false headed
            (headed-IsCommitted (ground (arith, e))) headed-cache lh.block in
        (r.0, λ lt. r.1 (omega (arith, lt, headed-budget)))
    | inr e ↦
        let short : d.budget ≤ lh.n = ground (arith, e) in
        let same : finished.disk ≡ headed.disk = fun_ext (finished-short short) in
        (
          inl (
              subst (λ x. IsClean start m d.cache (promised lh d) x) (sym same)
                (headed-IsClean clean short)),
          λ lt. absurd (omega arith),
        )
  ]

  commit-none : lh.n ≡ 0 → (commit start lh d).1 ≡ d
  unfolding commit
  commit-none h = ground arith

  idle-promised : lh.n ≡ 0 → (b : ℕ) → d.disk b ≡ promised lh d b
  unfolding is_logged
  idle-promised h b = rw h (ground arith)

  commit-Holds :
      d.disk start 0 ≡ 0
      → Holds start m d.cache (promised lh d) lh (commit start lh d).1.disk
        × (lh.n + lh.n + 1 < d.budget
            → IsClean start m d.cache (promised lh d) (commit start lh d).1.disk)
  commit-Holds clean = elim (Bool-cases (ltb 0 lh.n)) [
    | inl e ↦ rw (finished-eq-commit (ground (arith, e))) (finished-Holds clean)
    | inr e ↦
        let none : lh.n ≡ 0 = ground (arith, e) in
        let idle : IsClean start m d.cache (promised lh d) (commit start lh d).1.disk =
          rw (commit-none none) (record { count = clean; home = λ b far. idle-promised none b }) in
        (inl idle, λ _. idle)
  ]

  -- The blocks of the transaction lie outside the log and fit in it. From a clean log, let the power fail after any number of disk writes of `commit`, and again in
  -- any number of recoveries. A recovery that gets through leaves a clean log, and each block outside
  -- the log with its contents of the cache, if it belongs to the transaction, or each with
  -- its contents from before; the former exactly if the header's write arrived.
  pub commit_atomic :
      (lh0 : LogHeader) (ks : List ℕ) (k : ℕ)
      → d.disk start 0 ≡ 0
      → lh.n < k
      → ((recover_from_log start lh0
              (reboot k (recoveries start lh0 ks (commit start lh d).1))).1.disk
            start 0
          ≡ 0)
        × ((b : ℕ)
            → Apart start m b
            → (recover_from_log start lh0
                  (reboot k (recoveries start lh0 ks (commit start lh d).1))).1.disk
                b
              ≡ promised lh d b)
  commit_atomic lh0 ks k clean enough =
      let held =
        recoveries-Holds start m d.cache (promised lh d) lh fit lh0 ks (commit start lh d).1
          (commit-Holds clean).0 in
      let done = (recover-Holds start m d.cache (promised lh d) lh fit k lh0 _ held).1 enough in
      (done.count, done.home)

  -- The blocks of the transaction lie outside the log and fit in it, and the log is clean. A `commit`
  -- with power for 2n + 2 writes, for n entries, installs the transaction: each of its blocks is on the disk as it was
  -- in the cache, every other block outside the log is unchanged, and the log is clean.
  pub commit_completes :
      d.disk start 0 ≡ 0
      → lh.n + lh.n + 1 < d.budget
      → ((commit start lh d).1.disk start 0 ≡ 0)
        × ((b : ℕ)
            → Apart start m b
            → (commit start lh d).1.disk b
              ≡ (if is_logged lh.n 0 lh.block b then d.cache b else d.disk b))
  commit_completes clean enough =
      let done = (commit-Holds clean).1 enough in
      (done.count, λ b far. ground (arith, done.home b far))
