-- ===== src/Fs/Path/Element.antt =====
-- What skipelem takes off a path.
use xv6_riscv_private.Common.{
  ℕ, zero, suc, ◌+◌, ◌-◌, ◌≤◌, ◌<◌, ◌≡◌, sym, ap, ◌∙◌, subst, Bool, true, false, ◌&&◌, ◌==◌, ltb,
  if◌then◌else◌, Option, none, some, Outcome, ok, arith, Bool-cases, inl, inr, ◌⊎◌,
}
use xv6_riscv_private.Str.{Bytes}
use xv6_riscv_private.Str.Move.{within, memmove_lem}
use xv6_riscv_private.Fs.Dir.{dirsiz}
use xv6_riscv_private.Fs.Path.{is_slash, in_element, skip_while, copy_name, skipelem}

-- A run: the `k` bytes from `a` on pass the test, the one after them does not.
pub record IsRun (p : ℕ → Bool) (m : Bytes) (a k : ℕ) : Type 0 where
  pub all : (i : ℕ) → i < k → p (m (a + i)) ≡ true
  pub stop : p (m (a + k)) ≡ false

IsRun-suc :
    (p : ℕ → Bool) (m : Bytes) (a k : ℕ)
    → p (m a) ≡ true
    → IsRun p m (a + 1) k
    → IsRun p m a (k + 1)
IsRun-suc p m a k h r = record {
  all = λ i lt. elim (Bool-cases (i == 0)) [
    | inl z ↦ ap (λ x. p (m x)) (ground (arith, z)) ∙ h
    | inr s ↦ ap (λ x. p (m x)) (ground (arith, s)) ∙ r.all (i - 1) (ground (arith, s, lt))
  ];
  stop = ap (λ x. p (m x)) (omega arith) ∙ r.stop;
}

not_at_end :
    (p : ℕ → Bool) (m : Bytes) (a d : ℕ) → p (m a) ≡ true → p (m (a + d)) ≡ false → d ≡ 0 → ⊥
not_at_end p m a d h out z =
    let same : p (m (a + d)) ≡ p (m a) = ap (λ x. p (m x)) (omega (arith, z)) in
    ground (arith, h, out, same)

skip_while_lem :
    (p : ℕ → Bool) (f a d : ℕ) (m : Bytes)
    → d < f
    → p (m (a + d)) ≡ false
    → (k : ℕ) × (k ≤ d) × (skip_while p f a m ≡ ok (a + k)) × IsRun p m a k
unfolding skip_while
skip_while_lem p zero a d m lt out = absurd (omega arith)
skip_while_lem p (suc f) a d m lt out = elim (Bool-cases (p (m a))) [
  | inr here ↦ (
    0,
    omega arith,
    rw here (ap ok (omega arith)),
    record { all = λ i lt. absurd (omega arith); stop = ap (λ x. p (m x)) (omega arith) ∙ here },
  )
  | inl more ↦
      let far : 0 < d = elim (Bool-cases (ltb 0 d)) [
        | inl e ↦ ground (arith, e)
        | inr e ↦ absurd (not_at_end p m a d more out (ground (arith, e)))
      ] in
      let (k, le, e, run) =
        skip_while_lem p f (a + 1) (d - 1) m (omega (arith, lt, far))
          (ap (λ x. p (m x)) (omega (arith, far)) ∙ out) in
      (k + 1, omega (arith, le, far), rw more (e ∙ ap ok (omega arith)), IsRun-suc p m a k more run)
]

abbrev pub length_kept : ℕ → ℕ
length_kept len = if ltb len dirsiz then len else dirsiz

-- the byte at `x` once the element of `len` bytes at `s` is in `name`, and cut to DIRSIZ bytes or ended by NUL
abbrev pub named : ℕ → ℕ → ℕ → Bytes → ℕ → ℕ
named name s len m x =
    if within name (length_kept len) x
    then m (s + (x - name))
    else if ltb len dirsiz && x == name + len
    then 0
    else m x

copy_name_lem :
    (name s len : ℕ) (m : Bytes) (x : ℕ) → copy_name name s len m x ≡ named name s len m x
unfolding copy_name
copy_name_lem name s len m x =
    ground (arith, memmove_lem name s len m x, memmove_lem name s dirsiz m x)

-- what `skipelem` finds in a path of `n` bytes
pub data Element (path n name : ℕ) (m : Bytes) : Outcome (Option ℕ × Bytes) → Type 0 where
  ended :
      (k : ℕ) → IsRun is_slash m path k → m (path + k) ≡ 0 → Element path n name m (ok (none, m))
  taken :
      (k len j : ℕ) (m' : Bytes)
      → IsRun is_slash m path k
      → 0 < len
      → IsRun in_element m (path + k) len
      → IsRun is_slash m (path + k + len) j
      → k + len + j ≤ n
      → ((x : ℕ) → m' x ≡ named name (path + k) len m x)
      → Element path n name m (ok (some (path + k + len + j), m'))

IsRun-agree :
    (p : ℕ → Bool) (m m' : Bytes) (a k : ℕ)
    → ((i : ℕ) → i ≤ k → m' (a + i) ≡ m (a + i))
    → IsRun p m' a k
    → IsRun p m a k
IsRun-agree p m m' a k same r = record {
  all = λ i lt. ap p (sym (same i (omega (arith, lt)))) ∙ r.all i lt;
  stop = ap p (sym (same k (omega arith))) ∙ r.stop;
}

IsRun-positive : (p : ℕ → Bool) (m : Bytes) (a k : ℕ) → p (m a) ≡ true → IsRun p m a k → 0 < k
IsRun-positive p m a k h r = elim (Bool-cases (ltb 0 k)) [
  | inl e ↦ ground (arith, e)
  | inr e ↦ absurd (not_at_end p m a k h r.stop (ground (arith, e)))
]

module _ (f path n name : ℕ) (m : Bytes) (lt : n < f) (zero_at : m (path + n) ≡ 0)
    (apart : (name + dirsiz ≤ path) ⊎ (path + n < name)) where
  off_path : (s len i : ℕ) → i ≤ n → copy_name name s len m (path + i) ≡ m (path + i)
  off_path s len i le = copy_name_lem name s len m (path + i) ∙ ground (arith, apart, le)

  skip_element :
      (k : ℕ)
      → k ≤ n
      → IsRun is_slash m path k
      → (m (path + k) == 0) ≡ false
      → (len : ℕ) × (j : ℕ) × (0 < len)
        × (k + len + j ≤ n)
        × (skip_while in_element f (path + k) m ≡ ok (path + k + len))
        × (skip_while is_slash f (path + k + len) (copy_name name (path + k) len m)
            ≡ ok (path + k + len + j))
        × IsRun in_element m (path + k) len
        × IsRun is_slash m (path + k + len) j
  skip_element k le run nonzero =
      let here : in_element (m (path + k)) ≡ true = ground (arith, nonzero, run.stop) in
      let last : in_element (m (path + k + (n - k))) ≡ false =
        ap (λ x. in_element (m x)) (omega (arith, le)) ∙ ap in_element zero_at in
      let (len, len_le, e, elem) =
        skip_while_lem in_element f (path + k) (n - k) m (omega (arith, lt, le)) last in
      let m' = copy_name name (path + k) len m in
      let end : is_slash (m' (path + k + len + (n - k - len))) ≡ false =
        ap (λ x. is_slash (m' x)) (omega (arith, le, len_le))
        ∙ ap is_slash (off_path (path + k) len n (omega arith) ∙ zero_at) in
      let (j, j_le, e', run') =
        skip_while_lem is_slash f (path + k + len) (n - k - len) m' (omega (arith, lt, le)) end in
      let agree : (i : ℕ) → i ≤ j → m' (path + k + len + i) ≡ m (path + k + len + i) = λ i il.
        subst (λ x. m' x ≡ m x) (omega arith)
          (off_path (path + k) len (k + len + i) (omega (arith, le, len_le, j_le, il))) in
      (
        len,
        j,
        IsRun-positive in_element m (path + k) len here elem,
        omega (arith, le, len_le, j_le),
        e,
        e',
        elem,
        IsRun-agree is_slash m m' (path + k + len) j agree run',
      )

  -- For a path that ends within `f` bytes and does not overlap `name`, `skipelem` ends. It returns 0 and changes
  -- nothing if there is no element, only slashes. Otherwise it skips the slashes before the element, the longest run of bytes
  -- other than slashes, and the slashes after it, and puts the element into `name`: its first DIRSIZ bytes, and a NUL after it
  -- if it is shorter; it changes no other byte.
  pub skipelem_lem : Element path n name m (skipelem f path name m)
  unfolding skipelem
  skipelem_lem =
      let no_slash : is_slash (m (path + n)) ≡ false = ap is_slash zero_at in
      let (k, le, e, run) = skip_while_lem is_slash f path n m lt no_slash in
      elim (Bool-cases (m (path + k) == 0)) [
        | inl z ↦ rw (e, z) (ended k run (ground (arith, z)))
        | inr nonzero ↦
            let (len, j, pos, room, e1, e2, elem, tail) = skip_element k le run nonzero in
            let width : path + k + len - (path + k) ≡ len = omega arith in
            rw (e, nonzero, e1, width, e2)
              (taken k len j (copy_name name (path + k) len m) run pos elem tail room
                (copy_name_lem name (path + k) len m))
      ]
