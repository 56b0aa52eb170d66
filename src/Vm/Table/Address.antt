-- ===== src/Vm/Table/Address.antt =====
-- walkaddr looks up the entry of its page.
use xv6_riscv_private.Common.{
  ℕ, zero, suc, ◌≡◌, refl, sym, ap, ◌∙◌, Bool, true, false, ◌&&◌, leb, if◌then◌else◌, Option, none,
  some, Bool-cases, inl, inr, Outcome, ok,
}
use xv6_riscv_private.Riscv.{maxva}
use xv6_riscv_private.Kalloc.{Kmem}
use xv6_riscv_private.Vm.{pte2pa, is_valid, is_user, pte_at, walk_step, walk_from, walk, walkaddr}
use xv6_riscv_private.Vm.Table.{lookup}

-- the physical page that a user may reach through an entry, or 0
abbrev pub user_page : Option ℕ → ℕ
user_page none = 0
user_page (some pte) = if is_user pte then pte2pa pte else 0

abbrev reached : Option ℕ → Kmem → ℕ
reached none k = 0
reached (some a) k = if is_valid (k.mem a) && is_user (k.mem a) then pte2pa (k.mem a) else 0

lost : (l va : ℕ) (k : Kmem) → walk_from false l none va k ≡ (none, k)
unfolding walk_from walk_step
lost zero va k = refl
lost (suc l) va k = refl

found :
    (l p va : ℕ) (k : Kmem)
    → is_valid (k.mem (pte_at p l va)) ≡ true
    → walk_step false l p va k ≡ (some (pte2pa (k.mem (pte_at p l va))), k)
unfolding walk_step
found l p va k e = rw e refl

missed :
    (l p va : ℕ) (k : Kmem)
    → is_valid (k.mem (pte_at p l va)) ≡ false
    → walk_step false l p va k ≡ (none, k)
unfolding walk_step
missed l p va k e = rw e refl

allowed_entry : (u : Bool) (x : ℕ) → (if u then x else 0) ≡ (if true && u then x else 0)
allowed_entry true x = refl
allowed_entry false x = refl

walk_from-lookup :
    (l p va : ℕ) (k : Kmem)
    → reached (walk_from false l (some p) va k).0 k ≡ user_page (lookup l p va k.mem)
unfolding walk_from lookup
walk_from-lookup zero p va k = elim (Bool-cases (is_valid (k.mem (pte_at p 0 va)))) [
  | inl valid ↦
      rw valid
        (sym (allowed_entry (is_user (k.mem (pte_at p 0 va))) (pte2pa (k.mem (pte_at p 0 va)))))
  | inr gap ↦ rw gap refl
]
walk_from-lookup (suc l) p va k = elim (Bool-cases (is_valid (k.mem (pte_at p (suc l) va)))) [
  | inl valid ↦
      ap (λ w. reached (walk_from false l w.0 va w.1).0 k) (found (suc l) p va k valid)
      ∙ rw valid (walk_from-lookup l (pte2pa (k.mem (pte_at p (suc l) va))) va k)
  | inr gap ↦
      ap (λ w. reached (walk_from false l w.0 va w.1).0 k) (missed (suc l) p va k gap)
      ∙ rw gap (ap (λ w. reached w.0 k) (lost l va k))
]

entry_of : (w : Option ℕ × Kmem) (k : Kmem) → Outcome ℕ
entry_of w k = ok (elim w.0 [
  | none ↦ 0
  | some a ↦ if is_valid (k.mem a) && is_user (k.mem a) then pte2pa (k.mem a) else 0
])

entry_of-reached : (a : Option ℕ) (x k : Kmem) → entry_of (a, x) k ≡ ok (reached a k)
unfolding entry_of
entry_of-reached none x k = refl
entry_of-reached (some a) x k = refl

-- `walkaddr` gives the page of the valid entry that the tables hold for the address, if the user may use it, and 0 if
-- there is none or the address is not below MAXVA.
pub walkaddr_lem :
    (root va : ℕ) (k : Kmem)
    → walkaddr root va k ≡ ok (if leb maxva va then 0 else user_page (lookup 2 root va k.mem))
unfolding walkaddr walk entry_of
walkaddr_lem root va k = elim (Bool-cases (leb maxva va)) [
  | inl out ↦ rw out refl
  | inr inside ↦
      let w = walk_from false 2 (some root) va k in
      rw inside (entry_of-reached w.0 w.1 k ∙ ap ok (walk_from-lookup 2 root va k))
]
