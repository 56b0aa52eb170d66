-- ===== src/Vm/Copy.antt =====
-- copyin, copyout and copyinstr. `translate` is `walkaddr` of the page table, which the bytes copied are not part of:
-- the physical address of a page, or 0.
use xv6_riscv_private.Common.{
  ℕ, zero, suc, ◌+◌, ◌-◌, Bool, true, false, ◌==◌, ltb, if◌then◌else◌, update, Outcome, ok,
  out_of_fuel, ℤ, pos, negsuc,
}
use xv6_riscv_private.Riscv.{pgsize, pg_round_down}
use xv6_riscv_private.Str.{Bytes, memmove}

-- the bytes to be copied of the page of `va`: `n` in the source
abbrev pub chunk : ℕ → ℕ → ℕ
chunk va len = let n = pgsize - (va - pg_round_down va) in if ltb len n then len else n

module _ (translate : ℕ → ℕ) where
  -- `pa0 + (va - va0)`
  abbrev pub physical : ℕ → ℕ
  physical va = translate (pg_round_down va) + (va - pg_round_down va)

  -- the loops, with `f` rounds left
  unfoldable pub copyout_loop : ℕ → ℕ → ℕ → ℕ → Bytes → Outcome (ℤ × Bytes)
  copyout_loop zero dstva src len m = out_of_fuel
  copyout_loop (suc f) dstva src len m =
      let n = chunk dstva len in
      let rest =
        copyout_loop f (pg_round_down dstva + pgsize) (src + n) (len - n)
          (memmove (physical dstva) src n m) in
      if ltb 0 len
      then if translate (pg_round_down dstva) == 0 then ok (negsuc 0, m) else rest
      else ok (pos 0, m)

  unfoldable pub copyin_loop : ℕ → ℕ → ℕ → ℕ → Bytes → Outcome (ℤ × Bytes)
  copyin_loop zero dst srcva len m = out_of_fuel
  copyin_loop (suc f) dst srcva len m =
      let n = chunk srcva len in
      let rest =
        copyin_loop f (dst + n) (pg_round_down srcva + pgsize) (len - n)
          (memmove dst (physical srcva) n m) in
      if ltb 0 len
      then if translate (pg_round_down srcva) == 0 then ok (negsuc 0, m) else rest
      else ok (pos 0, m)

  -- Each round copies a byte at least.
  unfoldable pub copyout : ℕ → ℕ → ℕ → Bytes → Outcome (ℤ × Bytes)
  copyout dstva src len m = copyout_loop (len + 1) dstva src len m

  unfoldable pub copyin : ℕ → ℕ → ℕ → Bytes → Outcome (ℤ × Bytes)
  copyin dst srcva len m = copyin_loop (len + 1) dst srcva len m

  -- the inner loop of `copyinstr`: whether a NUL was copied, and `max` and `dst` at the end
  unfoldable pub copy_string : ℕ → ℕ → ℕ → ℕ → Bytes → Bool × ℕ × ℕ × Bytes
  copy_string zero p max dst m = (false, max, dst, m)
  copy_string (suc n) p max dst m =
      let rest = copy_string n (p + 1) (max - 1) (dst + 1) (update m dst (m p)) in
      if m p == 0 then (true, max, dst, update m dst 0) else rest

  unfoldable pub copyinstr_loop : ℕ → ℕ → ℕ → ℕ → Bytes → Outcome (ℤ × Bytes)
  copyinstr_loop zero dst srcva max m = out_of_fuel
  copyinstr_loop (suc f) dst srcva max m =
      let (got_null, max', dst', m') = copy_string (chunk srcva max) (physical srcva) max dst m in
      let rest = copyinstr_loop f dst' (pg_round_down srcva + pgsize) max' m' in
      if ltb 0 max
      then if translate (pg_round_down srcva) == 0
        then ok (negsuc 0, m)
        else if got_null
        then ok (pos 0, m')
        else rest
      else ok (negsuc 0, m)

  unfoldable pub copyinstr : ℕ → ℕ → ℕ → Bytes → Outcome (ℤ × Bytes)
  copyinstr dst srcva max m = copyinstr_loop (max + 1) dst srcva max m
