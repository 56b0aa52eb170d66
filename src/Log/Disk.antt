-- ===== src/Log/Disk.antt =====
-- What the disk holds while a transaction is under way, and that installing and clearing the log
-- keeps it, wherever the power fails.
use xv6_riscv_private.Common.{
  ℕ, ◌+◌, ◌-◌, ◌≤◌, ◌<◌, ◌≡◌, ◌⊎◌, inl, inr, ap, sym, subst, fun_ext, ◌∙◌, Bool, true, false, ◌==◌,
  if◌then◌else◌, arith, Bool-cases,
}
use xv6_riscv_private.Log.{Block, LogHeader, Device, install_loop, write_head}
use xv6_riscv_private.Log.Header.{is_logged, head_block, write_head-disk, head_block-count}
use xv6_riscv_private.Log.Writes.{Apart}
use xv6_riscv_private.Log.Install.{install_loop-budget, install_loop-log, install_loop-disk}

-- a header whose entries are outside the log, and fit in it
pub record Fits (start m : ℕ) (lh : LogHeader) : Type 0 where
  pub small : lh.n ≤ m
  pub apart : (j : ℕ) → j < lh.n → Apart start m (lh.block j)

-- The log at block `start` has room for `m` blocks; `f` is the contents that the transaction gives
-- to the blocks, and `goal` what each block outside the log shall hold after recovery.
module _ (start m : ℕ) (f goal : ℕ → Block) where
  pub record IsClean (disk : ℕ → Block) : Type 0 where
    pub count : disk start 0 ≡ 0
    pub home : (b : ℕ) → Apart start m b → disk b ≡ goal b

  -- what the block `b` becomes once the entries of the header are installed
  abbrev pub installed : LogHeader → (ℕ → Block) → ℕ → Block
  installed lh disk b = if is_logged lh.n 0 lh.block b then f b else disk b

  pub record IsCommitted (lh : LogHeader) (disk : ℕ → Block) : Type 0 where
    pub count : disk start 0 ≡ lh.n
    pub entries : (j : ℕ) → j < lh.n → disk start (1 + j) ≡ lh.block j
    pub contents : (j : ℕ) → j < lh.n → disk (start + j + 1) ≡ f (lh.block j)
    pub home : (b : ℕ) → Apart start m b → installed lh disk b ≡ goal b

  abbrev pub Holds : LogHeader → (ℕ → Block) → Type 0
  Holds lh disk = IsClean disk ⊎ IsCommitted lh disk

  module _ (lh : LogHeader) (fit : Fits start m lh) (recovering : Bool) (d : Device)
      (h : IsCommitted lh d.disk)
      (cached : (j : ℕ) → j < lh.n → d.cache (start + j + 1) ≡ f (lh.block j)) where
    abbrev pub after : Device
    after = install_loop start recovering lh.n 0 lh d

    near : (b : ℕ) → Apart start m b → Apart start lh.n b
    near b far = let s = fit.small in ground (arith, far, s)

    apart : (j : ℕ) → j < lh.n → Apart start lh.n (lh.block j)
    apart j lt = near (lh.block j) (fit.apart j lt)

    after-log : (b : ℕ) → start ≤ b → b ≤ start + lh.n → after.disk b ≡ d.disk b
    after-log b lo hi =
        (install_loop-log recovering start lh.n lh apart lh.n 0 d (omega arith) b lo hi).0

    after-home :
        (b : ℕ)
        → Apart start m b
        → (installed lh after.disk b ≡ goal b) × (lh.n ≤ d.budget → after.disk b ≡ goal b)
    after-home b far = ground (
      arith,
      h.home b far,
      install_loop-disk recovering start lh.n lh apart f lh.n 0 d (omega arith) cached b,
    )

    after-IsCommitted : IsCommitted lh after.disk
    after-IsCommitted = record {
      count = ap (λ (v : Block). v 0) (after-log start (omega arith) (omega arith)) ∙ h.count;
      entries = λ j lt.
          ap (λ (v : Block). v (1 + j)) (after-log start (omega arith) (omega arith))
          ∙ h.entries j lt;
      contents = λ j lt. after-log (start + j + 1) (omega arith) (omega arith) ∙ h.contents j lt;
      home = λ b far. (after-home b far).0;
    }

    after-budget : after.budget ≡ d.budget - lh.n
    after-budget = install_loop-budget recovering start lh.n 0 lh d

    module _ (block : ℕ → ℕ) where
      abbrev pub blank : LogHeader
      blank = record { n = 0; block = block }

      unwritten : (after.budget == 0) ≡ true → (write_head start blank after).disk ≡ after.disk
      unwritten e = fun_ext (λ b. ground (arith, write_head-disk start blank after b))

      written :
          (after.budget == 0) ≡ false
          → lh.n ≤ d.budget
          → IsClean (write_head start blank after).disk
      written e enough = record {
        count =
            let head : (write_head start blank after).disk start ≡ head_block start blank after =
              ground (arith, write_head-disk start blank after start) in
            ap (λ (v : Block). v 0) head ∙ head_block-count start blank after;
        home = λ b far. ground (arith, write_head-disk start blank after b, after-home b far, far);
      }

      -- The header is cleared once the log is installed.
      pub clear-Holds :
          Holds lh (write_head start blank after).disk
          × (lh.n < d.budget → IsClean (write_head start blank after).disk)
      clear-Holds = elim (Bool-cases (after.budget == 0)) [
        | inl e ↦ (
          inr (subst (λ x. IsCommitted lh x) (sym (unwritten e)) after-IsCommitted),
          λ lt. absurd (ground (arith, after-budget)),
        )
        | inr e ↦ let clean = written e (ground (arith, after-budget)) in (inl clean, λ _. clean)
      ]
