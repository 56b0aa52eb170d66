-- ===== src/Pipe/Flow.antt =====
-- What goes through a pipe: bytes come out in the order in which they went in.
use xv6_riscv_private.Common.{
  ℕ, zero, suc, ◌+◌, ◌-◌, ◌≤◌, ◌<◌, ◌≡◌, ◌⊎◌, inl, inr, refl, sym, ◌∙◌, ap, subst, Bool, true,
  false, not, ◌||◌, Bool-cases, Option, none, some, Option-cases, ◌==◌, update, update-ne,
  update_self, arith, pos, negsuc, List, [], ◌∷◌,
}
use xv6_riscv_private.Pipe.{
  Pipe, pipesize, is_full, is_empty, push, pull, End, returned, asleep, write_loop, read_loop,
}
use xv6_riscv_private.Pipe.Ring.{IsPipe, is_full-eq, is_empty-eq, push-IsPipe, pull-IsPipe, pull-eq}

-- `m` bytes from index `i` on of the user's memory have followed the `w` bytes of the stream `s`.
pub record Wrote (copyin : ℕ → Option ℕ) (a : ℕ) (s : ℕ → ℕ) (r w m : ℕ) (s' : ℕ → ℕ) (pi' : Pipe)
    : Type 0 where
  pub ring : IsPipe s' r (w + m) pi'
  pub old : (j : ℕ) → j < w → s' j ≡ s j
  pub new : (j : ℕ) → j < m → copyin (a + j) ≡ some (s' (w + j))

Wrote-none :
    (copyin : ℕ → Option ℕ) (a : ℕ) (s : ℕ → ℕ) (r w : ℕ) (pi : Pipe)
    → IsPipe s r w pi
    → Wrote copyin a s r w 0 s pi
Wrote-none copyin a s r w pi h = record {
  ring = subst (λ x. IsPipe s r x pi) (omega arith) h;
  old = λ j lt. refl;
  new = λ j lt. absurd (omega arith);
}

Wrote-suc :
    (copyin : ℕ → Option ℕ) (a : ℕ) (s : ℕ → ℕ) (r w m ch : ℕ) (s' : ℕ → ℕ) (pi' : Pipe)
    → copyin a ≡ some ch
    → Wrote copyin (a + 1) (update s w ch) r (w + 1) m s' pi'
    → Wrote copyin a s r w (suc m) s' pi'
Wrote-suc copyin a s r w m ch s' pi' e h = record {
  ring = subst (λ x. IsPipe s' r x pi') (omega arith) h.ring;
  old = λ j lt. h.old j (omega arith) ∙ update-ne s w j ch (ground arith);
  new = λ j lt. elim (Bool-cases (j == 0)) [
    | inl z ↦
        let first : s' w ≡ ch = h.old w (omega arith) ∙ update_self s w ch in
        ground (arith, z, e, first)
    | inr z ↦ let next = h.new (j - 1) (ground (arith, z)) in ground (arith, z, next)
  ];
}

-- why the loop ended after `m` of the `n` bytes from index `i` on
abbrev pub Why : (ℕ → Option ℕ) → ℕ → ℕ → ℕ → ℕ → ℕ → ℕ → Bool → Bool → End → Type 0
Why copyin addr i n r w m killed readopen (returned (pos k)) =
    (k ≡ i + m) × ((m ≡ n) ⊎ (copyin (addr + (i + m)) ≡ none))
Why copyin addr i n r w m killed readopen (returned (negsuc _)) = (not readopen || killed) ≡ true
Why copyin addr i n r w m killed readopen asleep = (w + m ≡ r + pipesize) × (m < n)

Why-suc :
    (copyin : ℕ → Option ℕ) (addr i n r w m ch : ℕ) (killed : Bool) (pi : Pipe) (e : End)
    → Why copyin addr (i + 1) n r (w + 1) m killed (push ch pi).readopen e
    → Why copyin addr i (suc n) r w (suc m) killed pi.readopen e
unfolding push
Why-suc copyin addr i n r w m ch killed pi (returned (pos k)) (h, inl all) =
    (omega (arith, h), inl (ap suc all))
Why-suc copyin addr i n r w m ch killed pi (returned (pos k)) (h, inr stop) =
    (omega (arith, h), inr (ground (arith, stop)))
Why-suc copyin addr i n r w m ch killed pi (returned (negsuc k)) h = h
Why-suc copyin addr i n r w m ch killed pi asleep h = (omega (arith, h.0), omega (arith, h.1))

-- However a stretch of `pipewrite` ends, the bytes that it has taken from the user's memory follow in order those in the
-- pipe, which stay as they are; it returns their number when it has written all or cannot read more,
-- fails only if the read end is closed or the process was killed, and sleeps only on a full pipe.
pub write_loop_lem :
    (n i : ℕ) (copyin : ℕ → Option ℕ) (addr : ℕ) (killed : Bool) (pi : Pipe) (s : ℕ → ℕ) (r w : ℕ)
    → IsPipe s r w pi
    → (m : ℕ) × (s' : ℕ → ℕ) × (m ≤ n)
      × ((write_loop n i copyin addr killed pi).0 ≡ i + m)
      × Wrote copyin (addr + i) s r w m s' (write_loop n i copyin addr killed pi).1
      × Why copyin addr i n r w m killed pi.readopen (write_loop n i copyin addr killed pi).2
unfolding write_loop
write_loop_lem zero i copyin addr killed pi s r w h = (
  0,
  s,
  omega arith,
  omega arith,
  Wrote-none copyin (addr + i) s r w pi h,
  (omega arith, inl refl),
)
write_loop_lem (suc n) i copyin addr killed pi s r w h =
    elim (Bool-cases (not pi.readopen || killed)) [
      | inl e ↦ rw e (0, s, omega arith, omega arith, Wrote-none copyin (addr + i) s r w pi h, e)
      | inr e ↦ elim (Bool-cases (is_full pi)) [
        | inl full ↦
            rw (e, full)
              (
                0,
                s,
                omega arith,
                omega arith,
                Wrote-none copyin (addr + i) s r w pi h,
                (let q = (is_full-eq s r w pi h).0 full in omega (arith, q), omega arith),
              )
        | inr free ↦ elim (Option-cases (copyin (addr + i))) [
          | inl c ↦
              rw (e, free, c)
                (
                  0,
                  s,
                  omega arith,
                  omega arith,
                  Wrote-none copyin (addr + i) s r w pi h,
                  (omega arith, inr (ground (arith, c))),
                )
          | inr (ch, c) ↦
              let room : w < r + pipesize =
                let f = h.fits in let q = (is_full-eq s r w pi h).1 in ground (arith, free, q) in
              let (m, s', least, reached, wrote, why) =
                write_loop_lem n (i + 1) copyin addr killed (push ch pi) (update s w ch) r (w + 1)
                  (push-IsPipe s r w pi h ch room) in
              let last = write_loop n (i + 1) copyin addr killed (push ch pi) in
              rw (e, free, c)
                (
                  suc m,
                  s',
                  omega (arith, least),
                  omega (arith, reached),
                  Wrote-suc copyin (addr + i) s r w m ch s' last.1 c (
                      subst (λ x. Wrote copyin x (update s w ch) r (w + 1) m s' last.1)
                        (omega arith) wrote),
                  Why-suc copyin addr i n r w m ch killed pi last.2 why,
                )
        ]
      ]
    ]

-- the `m` bytes of the stream from position `r` on
pub segment : ℕ → ℕ → (ℕ → ℕ) → List ℕ
segment zero r s = []
segment (suc m) r s = s r ∷ segment m (r + 1) s

-- `m` bytes were copied out of a pipe, and `p` were taken from it
pub record Read (n i : ℕ) (copyout : ℕ → Bool) (addr : ℕ) (s : ℕ → ℕ) (r w m p : ℕ) (chs : List ℕ)
    (pi' : Pipe) (k : ℕ) : Type 0 where
  pub least : m ≤ n
  pub bytes : chs ≡ segment m r s
  pub result : k ≡ i + m
  pub ring : IsPipe s (r + p) w pi'
  pub stop :
      ((p ≡ m) × ((m ≡ n) ⊎ (r + m ≡ w))) ⊎ ((p ≡ m + 1) × (copyout (addr + (i + m)) ≡ false))

Read-none :
    (n i : ℕ) (copyout : ℕ → Bool) (addr : ℕ) (s : ℕ → ℕ) (r w : ℕ) (pi : Pipe)
    → IsPipe s r w pi
    → (0 ≡ n) ⊎ (r ≡ w)
    → Read n i copyout addr s r w 0 0 [] pi i
unfolding segment
Read-none n i copyout addr s r w pi h why = record {
  least = omega arith;
  bytes = refl;
  result = omega arith;
  ring = subst (λ x. IsPipe s x w pi) (omega arith) h;
  stop = inl (refl, ground (arith, why));
}

Read-suc :
    (n i : ℕ) (copyout : ℕ → Bool) (addr : ℕ) (s : ℕ → ℕ) (r w m p ch : ℕ) (chs : List ℕ)
    (pi' : Pipe) (k : ℕ)
    → ch ≡ s r
    → Read n (i + 1) copyout addr s (r + 1) w m p chs pi' k
    → Read (suc n) i copyout addr s r w (suc m) (suc p) (ch ∷ chs) pi' k
unfolding segment
Read-suc n i copyout addr s r w m p ch chs pi' k e h = record {
  least = let q = h.least in omega (arith, q);
  bytes = let q = h.bytes in cc;
  result = let q = h.result in omega (arith, q);
  ring = subst (λ x. IsPipe s x w pi') (omega arith) h.ring;
  stop = let q = h.stop in ground (arith, q);
}

Read-failed :
    (n i : ℕ) (copyout : ℕ → Bool) (addr : ℕ) (s : ℕ → ℕ) (r w : ℕ) (pi' : Pipe)
    → IsPipe s (r + 1) w pi'
    → copyout (addr + i) ≡ false
    → Read (suc n) i copyout addr s r w 0 1 [] pi' i
unfolding segment
Read-failed n i copyout addr s r w pi' h c = record {
  least = omega arith;
  bytes = refl;
  result = omega arith;
  ring = h;
  stop = inr (refl, ground (arith, c));
}

-- The loop of `piperead` copies out the next bytes of the pipe, in order, and returns their number: as many as it was
-- asked for, or all there were, or those before the first that could not be copied out, and that
-- one is taken from the pipe too.
pub read_loop_lem :
    (n i : ℕ) (copyout : ℕ → Bool) (addr : ℕ) (pi : Pipe) (s : ℕ → ℕ) (r w : ℕ)
    → IsPipe s r w pi
    → (m : ℕ) × (p : ℕ) × Read n i copyout addr s r w m p
        (read_loop n i copyout addr pi).0
        (read_loop n i copyout addr pi).1
        (read_loop n i copyout addr pi).2
unfolding read_loop
read_loop_lem zero i copyout addr pi s r w h =
    (0, 0, Read-none 0 i copyout addr s r w pi h (inl refl))
read_loop_lem (suc n) i copyout addr pi s r w h = elim (Bool-cases (is_empty pi)) [
  | inl e ↦
      rw e (
        0,
        0,
        Read-none (suc n) i copyout addr s r w pi h (inr (sym ((is_empty-eq s r w pi h).0 e))),
      )
  | inr e ↦
      let there : r < w =
        let b = h.behind in let q = (is_empty-eq s r w pi h).1 in ground (arith, e, q) in
      let taken = pull-IsPipe s r w pi h there in
      elim (Bool-cases (copyout (addr + i))) [
        | inl c ↦
            let (m, p, rest) = read_loop_lem n (i + 1) copyout addr (pull pi).1 s (r + 1) w taken in
            rw (e, c)
              (
                suc m,
                suc p,
                Read-suc n i copyout addr s r w m p _ _ _ _ (pull-eq s r w pi h there) rest,
              )
        | inr c ↦ rw (e, c) (0, 1, Read-failed n i copyout addr s r w (pull pi).1 taken c)
      ]
]
