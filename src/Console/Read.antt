-- ===== src/Console/Read.antt =====
-- What consoleread takes from the line.
use xv6_riscv_private.Common.{
  ℕ, zero, suc, ◌+◌, ◌-◌, ◌%◌, ◌^◌, ◌≤◌, ◌<◌, ◌≡◌, ◌≢◌, refl, sym, ap, ◌∙◌, subst, Bool, true, ◌==◌,
  ltb, if◌then◌else◌, arith, Bool-cases, inl, inr, negsuc, List, [], ◌∷◌,
}
use xv6_riscv_private.Console.{
  Console, ReadEnd, returned, asleep, input_buf_size, eof_key, newline, before, consoleread_loop,
}
use xv6_riscv_private.Console.Line.{Line, IsConsole}
use xv6_riscv_private.Console.Got.{stretch, Unbroken, Why, all, line, eof, fault, dry, Got}

take-IsConsole :
    (l : Line) (c : Console)
    → IsConsole l c
    → l.taken < l.ready
    → IsConsole (record l { taken = l.taken + 1 }) (record c { r = (c.r + 1) % 2 ^ 32 })
take-IsConsole l c h some_left = record {
  behind = omega (arith, some_left);
  ahead = h.ahead;
  fits = let f = h.fits in omega (arith, f);
  r = let r = h.r in omega (arith, r);
  w = h.w;
  e = h.e;
  bytes = λ j lo hi. h.bytes j (omega (arith, lo)) hi;
  unfinished = h.unfinished;
}

-- a position written in another way
moved-IsConsole :
    (l : Line) (c : Console) (p : ℕ)
    → l.taken ≡ p
    → IsConsole l c
    → IsConsole (record l { taken = p }) c
moved-IsConsole l c p q h = subst (λ x. IsConsole (record l { taken = x }) c) q h

module _ (l : Line) (c : Console) (h : IsConsole l c) where
  none_ready : (c.r == c.w) ≡ (l.taken == l.ready)
  none_ready =
      let a = h.behind in
      let b = h.ahead in
      let f = h.fits in let r = h.r in let w = h.w in ground (arith, a, b, f, r, w)

  next_char : l.taken < l.ready → c.buf (c.r % input_buf_size) ≡ l.text l.taken
  next_char some_left =
      let r = h.r in
      let b = h.ahead in
      let at : c.r % input_buf_size ≡ l.taken % input_buf_size = omega (arith, r) in
      ap c.buf at ∙ h.bytes l.taken (omega arith) (omega (arith, some_left, b))

  -- Taking a character and putting it back changes nothing.
  put_back : before ((c.r + 1) % 2 ^ 32) ≡ c.r
  put_back = let r = h.r in omega (arith, r)

  taken-zero : IsConsole (record l { taken = l.taken + 0 }) c
  taken-zero = moved-IsConsole l c (l.taken + 0) (omega arith) h

module _ (n target : ℕ) (copyout : ℕ → Bool) (dst : ℕ) (killed : Bool) (l : Line)
    (le : suc n ≤ target) where
  abbrev next_line : Line
  next_line = record l { taken = l.taken + 1 }

  Unbroken-suc : (m : ℕ) → l.text l.taken ≢ newline → Unbroken next_line m → Unbroken l (suc m)
  Unbroken-suc m ne u j lt e = elim (Bool-cases (j == 0)) [
    | inl first ↦
        let here : l.taken ≡ l.taken + j = ground (arith, first) in ne (ap l.text here ∙ e)
    | inr later ↦
        let here : l.taken + 1 + (j - 1) ≡ l.taken + j = ground (arith, later) in
        u (j - 1) (ground (arith, later, lt)) (ap l.text here ∙ e)
  ]

  Why-suc :
      (m p : ℕ) (e : ReadEnd)
      → l.text l.taken ≢ newline
      → Why copyout (dst + 1) n target killed next_line m p e
      → Why copyout dst (suc n) target killed l (suc m) (suc p) e
  Why-suc m p e ne (all q r u) = all (ap suc q) (ap suc r) (Unbroken-suc m ne u)
  Why-suc m p e ne (line v some_read r ch sum u) =
      line v (omega arith) (ap suc r) (ap l.text (omega (arith, some_read)) ∙ ch)
        (omega (arith, sum))
        (subst (Unbroken l) (omega (arith, some_read)) (Unbroken-suc (m - 1) ne u))
  Why-suc m p e ne (eof v lt at ch r sum u) =
      eof v (omega (arith, lt)) (omega (arith, at)) (ap l.text (omega arith) ∙ ch)
        (ground (arith, r)) (omega (arith, sum)) (Unbroken-suc m ne u)
  Why-suc m p e ne (fault v lt at can r sum u) =
      fault v (omega (arith, lt)) (omega (arith, at)) (ap copyout (omega arith) ∙ can)
        (omega (arith, r)) (omega (arith, sum)) (Unbroken-suc m ne u)
  Why-suc m p e ne (dry out lt at r q u) =
      dry out (omega (arith, lt)) (omega (arith, at)) (ap suc r)
        (q ∙ ap (λ x. if killed then returned (negsuc 0) else asleep x) (omega arith))
        (Unbroken-suc m ne u)

  Got-suc :
      (m p : ℕ) (chs : List ℕ) (c : Console) (e : ReadEnd)
      → l.text l.taken ≢ eof_key
      → copyout dst ≡ true
      → l.text l.taken ≢ newline
      → Got copyout (dst + 1) n target killed next_line m p (chs, c, e)
      → Got copyout dst (suc n) target killed l (suc m) (suc p) (l.text l.taken ∷ chs, c, e)
  unfolding stretch
  Got-suc m p chs c e no_eof can no_line g = record {
    most = let a = g.most in omega (arith, a);
    there = let a = g.there in omega (arith, a);
    copied = ap (λ x. l.text l.taken ∷ x) g.copied;
    stops = λ j lt. elim (Bool-cases (j == 0)) [
      | inl first ↦
          let q : j ≡ 0 = ground (arith, first) in
          let here : l.taken + j ≡ l.taken = omega (arith, q) in
          let to : dst + j ≡ dst = omega (arith, q) in
          ((λ e. no_eof (sym (ap l.text here) ∙ e)), ap copyout to ∙ can)
      | inr later ↦
          let old = g.stops (j - 1) (ground (arith, later, lt)) in
          let here : l.taken + 1 + (j - 1) ≡ l.taken + j = ground (arith, later) in
          let to : dst + 1 + (j - 1) ≡ dst + j = ground (arith, later) in
          ((λ e. old.0 (ap l.text here ∙ e)), sym (ap copyout to) ∙ old.1)
    ];
    left = subst (λ x. IsConsole (record l { taken = x }) c) (omega arith) g.left;
    why = Why-suc m p e no_line g.why;
  }

first_char : (l : Line) → l.text (l.taken + 0) ≡ l.text l.taken
first_char l = let q : l.taken + 0 ≡ l.taken = omega arith in ap l.text q

none_before : (l : Line) → Unbroken l 0
none_before l j lt e = omega (arith, lt)

-- Nothing is copied.
Got-nothing :
    (n target : ℕ) (copyout : ℕ → Bool) (dst : ℕ) (killed : Bool) (l : Line) (p : ℕ) (c : Console)
    (e : ReadEnd)
    → l.taken + p ≤ l.ready
    → IsConsole (record l { taken = l.taken + p }) c
    → Why copyout dst n target killed l 0 p e
    → Got copyout dst n target killed l 0 p ([], c, e)
unfolding stretch
Got-nothing n target copyout dst killed l p c e there left why = record {
  most = omega arith;
  there = there;
  copied = refl;
  stops = λ j lt. absurd (omega (arith, lt));
  left = left;
  why = why;
}

-- What a read of `n` more characters copies are the next characters of the line, in order: it ends after a newline, before a
-- control-D, when all are read, when memory cannot be written, or with nothing left to read. What is left in the
-- buffer is the rest of the line: what was copied is gone from it, a control-D only if nothing was read before
-- it, and a character that could not be copied is lost.
pub consoleread_loop_lem :
    (n target : ℕ) (copyout : ℕ → Bool) (dst : ℕ) (killed : Bool) (l : Line) (c : Console)
    → IsConsole l c
    → n ≤ target
    → (m : ℕ) × (p : ℕ) × Got copyout dst n target killed l m p
        (consoleread_loop n target copyout dst killed c)
unfolding consoleread_loop stretch
consoleread_loop_lem zero target copyout dst killed l c h le = (
  0,
  0,
  Got-nothing _ target copyout dst killed l _ _ _ (let b = h.behind in omega (arith, b))
      (taken-zero l c h) (all refl refl (none_before l)),
)
consoleread_loop_lem (suc n) target copyout dst killed l c h le =
    elim (Bool-cases (l.taken == l.ready)) [
      | inl none_left ↦
          rw (none_ready l c h, none_left)
            (
              0,
              0,
              Got-nothing _ target copyout dst killed l _ _ _ (let b = h.behind in omega (arith, b))
                  (taken-zero l c h)
                  (dry _ (omega arith) (ground (arith, none_left)) refl
                    (ap (λ x. if killed then returned (negsuc 0) else asleep x) (omega arith))
                    (none_before l)),
            )
      | inr left ↦
          let a = h.behind in
          let some_left : l.taken < l.ready = ground (arith, left, a) in
          let taken = take-IsConsole l c h some_left in
          elim (Bool-cases (l.text l.taken == eof_key)) [
            | inl end_of_file ↦
                let at_eof : l.text l.taken ≡ eof_key = ground (arith, end_of_file) in
                rw (none_ready l c h, left, next_char l c h some_left, end_of_file)
                  (elim (Bool-cases (ltb (suc n) target)) [
                    | inl keep ↦
                        rw (keep, put_back l c h)
                          (
                            0,
                            0,
                            Got-nothing _ target copyout dst killed l _ _ _
                                (omega (arith, some_left)) (taken-zero l c h)
                                (eof _ (omega arith) (omega (arith, some_left))
                                  (first_char l ∙ at_eof) (ground (arith, keep)) (omega (arith, le))
                                  (none_before l)),
                          )
                    | inr first ↦ rw first (
                      0,
                      1,
                      Got-nothing _ target copyout dst killed l _ _ _ (omega (arith, some_left))
                          (taken)
                          (eof _ (omega arith) (omega (arith, some_left)) (first_char l ∙ at_eof)
                            (ground (arith, first)) (omega (arith, le)) (none_before l)),
                    )
                  ])
            | inr no_eof ↦ elim (Bool-cases (copyout dst)) [
              | inr cannot ↦
                  rw (none_ready l c h, left, next_char l c h some_left, no_eof, cannot)
                    (
                      0,
                      1,
                      Got-nothing _ target copyout dst killed l _ _ _ (omega (arith, some_left))
                          (taken)
                          (fault _ (omega arith) (omega (arith, some_left))
                            (ap copyout (omega arith) ∙ cannot) refl (omega (arith, le))
                            (none_before l)),
                    )
              | inl can ↦ elim (Bool-cases (l.text l.taken == newline)) [
                | inl ends ↦
                    rw (none_ready l c h, left, next_char l c h some_left, no_eof, can, ends)
                      (
                        1,
                        1,
                        record {
                          most = omega arith;
                          there = omega (arith, some_left);
                          copied = refl;
                          stops = λ j lt.
                              let here : l.taken + j ≡ l.taken = omega (arith, lt) in
                              let to : dst + j ≡ dst = omega (arith, lt) in
                              (
                                (λ e.
                                    (let no : l.text l.taken ≢ eof_key = ground (arith, no_eof) in
                                      no (sym (ap l.text here) ∙ e))),
                                ap copyout to ∙ can,
                              );
                          left = taken;
                          why =
                              line _ (omega arith) refl (first_char l ∙ ground (arith, ends))
                                (omega (arith, le)) (none_before l);
                        },
                      )
                | inr goes_on ↦
                    let (m, p, got) =
                      consoleread_loop_lem n target copyout (dst + 1) killed
                        (next_line n target copyout dst killed l le)
                        (record c { r = (c.r + 1) % 2 ^ 32 }) taken (omega (arith, le)) in
                    rw (none_ready l c h, left, next_char l c h some_left, no_eof, can, goes_on)
                      (
                        suc m,
                        suc p,
                        Got-suc n target copyout dst killed l le m p _ _ _ (ground (arith, no_eof))
                            can (ground (arith, goes_on)) got,
                      )
              ]
            ]
          ]
    ]
