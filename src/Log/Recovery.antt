-- ===== src/Log/Recovery.antt =====
-- Recovery, and that it may fail and start again.
use xv6_riscv_private.Common.{
  ℕ, ◌<◌, ◌≡◌, inl, inr, ap, sym, ◌∙◌, subst, true, arith, List, [], ◌∷◌,
}
use xv6_riscv_private.Log.{
  Block, LogHeader, Device, reboot, read_head, install_trans, recover_from_log,
}
use xv6_riscv_private.Log.Header.{is_logged, is_logged_eq, read_head-entry}
use xv6_riscv_private.Log.Writes.{Apart}
use xv6_riscv_private.Log.Disk.{IsClean, IsCommitted, Holds, Fits, clear-Holds}

-- the power fails in each of several recoveries, after so many disk writes
pub recoveries : ℕ → LogHeader → List ℕ → Device → Device
recoveries start lh0 [] d = d
recoveries start lh0 (k ∷ ks) d =
    recoveries start lh0 ks (recover_from_log start lh0 (reboot k d)).1

module _ (start m : ℕ) (f goal : ℕ → Block) where
  IsCommitted-same :
      (lh lh' : LogHeader) (disk : ℕ → Block)
      → lh'.n ≡ lh.n
      → ((j : ℕ) → j < lh.n → lh'.block j ≡ lh.block j)
      → IsCommitted start m f goal lh disk
      → IsCommitted start m f goal lh' disk
  IsCommitted-same lh lh' disk count same h = record {
    count = h.count ∙ sym count;
    entries =
        λ j lt. let lt' : j < lh.n = omega (arith, lt, count) in h.entries j lt' ∙ sym (same j lt');
    contents = λ j lt.
        let lt' : j < lh.n = omega (arith, lt, count) in h.contents j lt' ∙ ap f (sym (same j lt'));
    home = λ b far.
        let e : is_logged lh'.n 0 lh'.block b ≡ is_logged lh.n 0 lh.block b =
          ap (λ n. is_logged n 0 lh'.block b) count
          ∙ is_logged_eq lh.n 0 lh'.block lh.block b (λ j lo hi. same j (omega arith)) in
        rw e (h.home b far);
  }

  -- Without entries nothing is left to do.
  IsClean-IsCommitted :
      (lh : LogHeader) (disk : ℕ → Block)
      → lh.n ≡ 0
      → IsClean start m f goal disk
      → IsCommitted start m f goal lh disk
  unfolding is_logged
  IsClean-IsCommitted lh disk e h = record {
    count = h.count ∙ sym e;
    entries = λ j lt. absurd (omega arith);
    contents = λ j lt. absurd (omega arith);
    home = λ b far. rw e (h.home b far);
  }

  IsCommitted-IsClean :
      (lh : LogHeader) (disk : ℕ → Block)
      → lh.n ≡ 0
      → IsCommitted start m f goal lh disk
      → IsClean start m f goal disk
  unfolding is_logged
  IsCommitted-IsClean lh disk e h = record {
    count = h.count ∙ e;
    home = λ b far. rw e at (h.home b far);
  }

  -- Recovery with a header that has been read.
  recover-read :
      (k : ℕ) (lh0 : LogHeader) (d : Device)
      → Fits start m (read_head start lh0 (reboot k d))
      → IsCommitted start m f goal (read_head start lh0 (reboot k d)) d.disk
      → Holds start m f goal
          (read_head start lh0 (reboot k d))
          (recover_from_log start lh0 (reboot k d)).1.disk
        × ((read_head start lh0 (reboot k d)).n < k
            → IsClean start m f goal (recover_from_log start lh0 (reboot k d)).1.disk)
  unfolding recover_from_log install_trans reboot
  recover-read k lh0 d fit h =
      clear-Holds start m f goal (read_head start lh0 (reboot k d)) fit true (reboot k d) h
        h.contents (read_head start lh0 (reboot k d)).block

  -- Recovery, wherever it fails, keeps what the disk holds; if it does not fail it ends clean.
  pub recover-Holds :
      (lh : LogHeader)
      → Fits start m lh
      → (k : ℕ) (lh0 : LogHeader) (d : Device) → Holds start m f goal lh d.disk
      → Holds start m f goal lh (recover_from_log start lh0 (reboot k d)).1.disk
        × (lh.n < k → IsClean start m f goal (recover_from_log start lh0 (reboot k d)).1.disk)
  unfolding read_head reboot
  recover-Holds lh fit k lh0 d (inl h) =
      let lh' = read_head start lh0 (reboot k d) in
      let fit' : Fits start m lh' = record {
        small = omega (arith, h.count);
        apart = λ j lt. absurd (omega (arith, lt, h.count));
      } in
      let clean : IsClean start m f goal (recover_from_log start lh0 (reboot k d)).1.disk =
        elim (recover-read k lh0 d fit' (IsClean-IsCommitted lh' d.disk h.count h)).0 [
          | inl c ↦ c
          | inr c ↦ IsCommitted-IsClean lh' _ h.count c
        ] in
      (inl clean, λ _. clean)
  recover-Holds lh fit k lh0 d (inr h) =
      let lh' = read_head start lh0 (reboot k d) in
      let same : (j : ℕ) → j < lh.n → lh'.block j ≡ lh.block j = λ j lt.
        read_head-entry start lh0 (reboot k d) j (omega (arith, lt, h.count)) ∙ h.entries j lt in
      let small = fit.small in
      let fit' : Fits start m lh' = record {
        small = omega (arith, h.count, small);
        apart = λ j lt.
            let lt' : j < lh.n = omega (arith, lt, h.count) in
            subst (λ b. Apart start m b) (sym (same j lt')) (fit.apart j lt');
      } in
      let r = recover-read k lh0 d fit' (IsCommitted-same lh lh' d.disk h.count same h) in
      let back : (j : ℕ) → j < lh'.n → lh.block j ≡ lh'.block j =
        λ j lt. sym (same j (omega (arith, lt, h.count))) in
      (
        elim r.0 [ inl c ↦ inl c | inr c ↦ inr (IsCommitted-same lh' lh _ (sym h.count) back c) ],
        λ lt. r.1 (omega (arith, lt, h.count)),
      )

  pub recoveries-Holds :
      (lh : LogHeader)
      → Fits start m lh
      → (lh0 : LogHeader) (ks : List ℕ) (d : Device) → Holds start m f goal lh d.disk
      → Holds start m f goal lh (recoveries start lh0 ks d).disk
  unfolding recoveries
  recoveries-Holds lh fit lh0 [] d h = h
  recoveries-Holds lh fit lh0 (k ∷ ks) d h =
      recoveries-Holds lh fit lh0 ks _ (recover-Holds lh fit k lh0 d h).0
