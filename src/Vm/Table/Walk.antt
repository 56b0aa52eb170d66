-- ===== src/Vm/Table/Walk.antt =====
-- What walk does when it adds the tables that are missing.
use xv6_riscv_private.Common.{
  ℕ, zero, suc, ◌+◌, ◌*◌, ◌<◌, ◌≡◌, refl, sym, ap, ◌∙◌, subst, true, false, ◌==◌, Option, none,
  some, List, [], ◌∷◌, arith, Bool-cases, inl, inr,
}
use xv6_riscv_private.Kalloc.{Kmem, Words, fill, kalloc}
use xv6_riscv_private.Kalloc.Chain.{IsFree}
use xv6_riscv_private.Kalloc.Laws.{kalloc-none}
use xv6_riscv_private.Vm.{pte2pa, pa2pte, is_valid, px, pte_at, walk_step, walk_from}
use xv6_riscv_private.Vm.Table.{Places, IsTable, lookup}
use xv6_riscv_private.Vm.Table.Step.{
  lab2, k2, m2, entered, lab2-old, table-ne, here2, entry_here, entry_kept, pte2pa-pa2pte,
  IsTable-entered, lookup-entered,
}

-- the upper bits at level 0 that the addresses of a table's entry have
unfoldable pub key : ℕ → ℕ → ℕ → ℕ
key zero q va = q
key (suc l) q va = key l (q * 512 + px (suc l) va) va

-- The tables for `va` are all there, down to `leaf`.
unfoldable pub Leads : ℕ → ℕ → ℕ → Words → ℕ → Type 0
Leads zero p va m leaf = leaf ≡ p
Leads (suc l) p va m leaf =
    (is_valid (m (pte_at p (suc l) va)) ≡ true)
    × Leads l (pte2pa (m (pte_at p (suc l) va))) va m leaf

module _ (end : ℕ) where
  -- Tables keep their places and their valid entries, and addresses their entries.
  pub record Kept (lab : Places) (k : Kmem) (lab' : Places) (pages' : List ℕ) (k' : Kmem)
      : Type 0 where
    pub table : IsTable end lab' pages' k'
    pub old : (p l q : ℕ) → lab p ≡ some (l, q) → lab' p ≡ some (l, q)
    pub entries :
        (p l q j : ℕ)
        → lab p ≡ some (suc l, q)
        → j < 512
        → is_valid (k.mem (p + 8 * j)) ≡ true
        → k'.mem (p + 8 * j) ≡ k.mem (p + 8 * j)
    pub lookups : (l p q va : ℕ) → lab p ≡ some (l, q) → lookup l p va k'.mem ≡ lookup l p va k.mem

  Kept-refl :
      (lab : Places) (pages : List ℕ) (k : Kmem) → IsTable end lab pages k → Kept lab k lab pages k
  Kept-refl lab pages k h = record {
    table = h;
    old = λ p l q e. e;
    entries = λ p l q j e jl v. refl;
    lookups = λ l p q va e. refl;
  }

  Kept-trans :
      (lab : Places) (k : Kmem) (lab1 : Places) (pages1 : List ℕ) (k1 : Kmem) (labx : Places)
      (pagesx : List ℕ) (kx : Kmem)
      → Kept lab k lab1 pages1 k1
      → Kept lab1 k1 labx pagesx kx
      → Kept lab k labx pagesx kx
  Kept-trans lab k lab1 pages1 k1 labx pagesx kx a b = record {
    table = b.table;
    old = λ p l q e. b.old p l q (a.old p l q e);
    entries = λ p l q j e jl v.
        let first = a.entries p l q j e jl v in
        b.entries p l q j (a.old p (suc l) q e) jl (rw first v) ∙ first;
    lookups = λ l p q va e. b.lookups l p q va (a.old p l q e) ∙ a.lookups l p q va e;
  }

  -- what a round of `walk` does at the table `p`: it finds or makes the next one, or no page is left
  pub data Stepped (lab : Places) (k : Kmem) (p l q va : ℕ) : Option ℕ × Kmem → Type 0 where
    next :
        (c : ℕ) (lab' : Places) (pages' : List ℕ) (k' : Kmem)
        → Kept lab k lab' pages' k'
        → lab' c ≡ some (l, q * 512 + px (suc l) va)
        → is_valid (k'.mem (pte_at p (suc l) va)) ≡ true
        → pte2pa (k'.mem (pte_at p (suc l) va)) ≡ c
        → Stepped lab k p l q va (some c, k')
    full : IsTable end lab [] k → Stepped lab k p l q va (none, k)

  Kept-entered :
      (lab : Places) (c : ℕ) (xs : List ℕ) (k : Kmem) (p l q i : ℕ) (h : IsTable end lab (c ∷ xs) k)
      (here : lab p ≡ some (suc l, q)) (small : i < 512)
      (gap : is_valid (k.mem (p + 8 * i)) ≡ false)
      → Kept lab k
          (lab2 end lab c xs k p l q i h here small gap)
          xs
          (k2 end lab c xs k p l q i h here small gap)
  unfolding k2
  Kept-entered lab c xs k p l q i h here small gap = record {
    table = IsTable-entered end lab c xs k p l q i h here small gap;
    old = λ p' l' q' e.
        lab2-old end lab c xs k p l q i h here small gap p'
          (table-ne end lab c xs k p l q i h here small gap p' l' q' e)
        ∙ e;
    entries =
        λ p' l' q' j e jl v. entry_kept end lab c xs k p l q i h here small gap p' l' q' j e jl v;
    lookups = λ l' p' q' va e. lookup-entered end lab c xs k p l q i h here small gap l' p' q' va e;
  }

  kalloc-eq :
      (c : ℕ) (xs : List ℕ) (k : Kmem)
      → 0 < end
      → IsFree end k (c ∷ xs)
      → kalloc k ≡ (c, record { freelist = k.mem c; mem = fill c 5 k.mem })
  unfolding kalloc
  kalloc-eq c xs k pos h =
      let first = h.linked.0 in
      let low = h.pages.0.1 in
      let some_page : (c == 0) ≡ false = ground (arith, low, pos) in rw (first, some_page) refl

  -- no entry is there yet
  grow :
      (lab : Places) (pages : List ℕ) (k : Kmem) (p l q va : ℕ)
      → 0 < end
      → IsTable end lab pages k
      → lab p ≡ some (suc l, q)
      → is_valid (k.mem (pte_at p (suc l) va)) ≡ false
      → Stepped lab k p l q va (walk_step true (suc l) p va k)
  unfolding walk_step k2 m2 entered
  grow lab [] k p l q va pos h here gap = rw (gap, kalloc-none end k h.free) (full h)
  grow lab (c ∷ xs) k p l q va pos h here gap =
      let i = px (suc l) va in
      let low = h.free.pages.0.1 in
      let some_page : (c == 0) ≡ false = ground (arith, low, pos) in
      let at : m2 end lab c xs k p l q i h here (omega arith) gap (p + 8 * i) ≡ pa2pte c + 1 =
        entry_here end lab c xs k p l q i h here (omega arith) gap in
      let page = h.free.pages.0 in
      let made : Stepped lab k p l q va
          (some c, k2 end lab c xs k p l q i h here (omega arith) gap) =
        next c (lab2 end lab c xs k p l q i h here (omega arith) gap) xs
          (k2 end lab c xs k p l q i h here (omega arith) gap)
          (Kept-entered lab c xs k p l q i h here (omega arith) gap)
          (here2 end lab c xs k p l q i h here (omega arith) gap) (ap is_valid at ∙ ground arith)
          (ap pte2pa at ∙ pte2pa-pa2pte c page.0 page.2) in
      rw (gap, kalloc-eq c xs k pos h.free, some_page) made

  walk_step_lem :
      (lab : Places) (pages : List ℕ) (k : Kmem) (p l q va : ℕ)
      → 0 < end
      → IsTable end lab pages k
      → lab p ≡ some (suc l, q)
      → Stepped lab k p l q va (walk_step true (suc l) p va k)
  unfolding walk_step
  walk_step_lem lab pages k p l q va pos h here =
      elim (Bool-cases (is_valid (k.mem (pte_at p (suc l) va)))) [
        | inl valid ↦ rw valid (
            next (pte2pa (k.mem (pte_at p (suc l) va))) lab pages k (Kept-refl lab pages k h)
              (h.child p l q (px (suc l) va) here (omega arith) valid) valid refl)
        | inr gap ↦ grow lab pages k p l q va pos h here gap
      ]

  -- what `walk` does from the table `p` of a level on
  pub data Walked (lab : Places) (k : Kmem) (level p q va : ℕ) : Option ℕ × Kmem → Type 0 where
    arrived :
        (leaf : ℕ) (lab' : Places) (pages' : List ℕ) (k' : Kmem)
        → Kept lab k lab' pages' k'
        → lab' leaf ≡ some (0, key level q va)
        → Leads level p va k'.mem leaf
        → Walked lab k level p q va (some (leaf + 8 * px 0 va), k')
    no_page :
        (lab' : Places) (k' : Kmem) → Kept lab k lab' [] k' → Walked lab k level p q va (none, k')

  -- A round and then the rest
  extend :
      (lab : Places) (k : Kmem) (p l q va c : ℕ) (lab' : Places) (pages' : List ℕ) (k' : Kmem)
      (out : Option ℕ × Kmem)
      → lab p ≡ some (suc l, q)
      → Kept lab k lab' pages' k'
      → is_valid (k'.mem (pte_at p (suc l) va)) ≡ true
      → pte2pa (k'.mem (pte_at p (suc l) va)) ≡ c
      → Walked lab' k' l c (q * 512 + px (suc l) va) va out
      → Walked lab k (suc l) p q va out
  unfolding Leads key
  extend lab k p l q va c lab' pages' k' out here kept valid target (no_page labx kx more) =
      no_page labx kx (Kept-trans lab k lab' pages' k' labx [] kx kept more)
  extend lab k p l q va c lab' pages' k' out here kept valid target
        (arrived leaf labx pagesx kx more place leads) =
      let same =
        more.entries p l q (px (suc l) va) (kept.old p (suc l) q here) (omega arith) valid in
      let to : c ≡ pte2pa (kx.mem (pte_at p (suc l) va)) = sym (ap pte2pa same ∙ target) in
      arrived leaf labx pagesx kx (Kept-trans lab k lab' pages' k' labx pagesx kx kept more) place
        (ap is_valid same ∙ valid, subst (λ x. Leads l x va kx.mem leaf) to leads)

  after :
      (lab : Places) (k : Kmem) (p l q va : ℕ)
      → lab p ≡ some (suc l, q)
      → (r : Option ℕ × Kmem) → Stepped lab k p l q va r
      → ((lab' : Places) (pages' : List ℕ) (k' : Kmem) (c : ℕ)
          → IsTable end lab' pages' k'
          → lab' c ≡ some (l, q * 512 + px (suc l) va)
          → Walked lab' k' l c (q * 512 + px (suc l) va) va (walk_from true l (some c) va k'))
      → Walked lab k (suc l) p q va (walk_from true l r.0 va r.1)
  unfolding walk_from
  after lab k p l q va here (none, kx) (full h) go = no_page lab k (Kept-refl lab [] k h)
  after lab k p l q va here (some d, kx) (next c lab' pages' k' kept place valid target) go =
      extend lab k p l q va c lab' pages' k' (walk_from true l (some c) va k') here kept valid
        target (go lab' pages' k' c kept.table place)

  pub walk_from_lem :
      (level : ℕ) (lab : Places) (pages : List ℕ) (k : Kmem) (p q va : ℕ)
      → 0 < end
      → IsTable end lab pages k
      → lab p ≡ some (level, q)
      → Walked lab k level p q va (walk_from true level (some p) va k)
  unfolding walk_from Leads key
  walk_from_lem zero lab pages k p q va pos h here =
      arrived p lab pages k (Kept-refl lab pages k h) here refl
  walk_from_lem (suc l) lab pages k p q va pos h here =
      after lab k p l q va here (walk_step true (suc l) p va k)
        (walk_step_lem lab pages k p l q va pos h here)
        (λ lab' pages' k' c h' place.
          walk_from_lem l lab' pages' k' c (q * 512 + px (suc l) va) va pos h' place)
