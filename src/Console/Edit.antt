-- ===== src/Console/Edit.antt =====
-- consoleintr edits the line.
use xv6_riscv_private.Common.{
  ℕ, zero, suc, ◌+◌, ◌-◌, ◌%◌, ◌^◌, ◌<◌, ◌≡◌, ◌≢◌, refl, sym, ap, ◌∙◌, subst, true, false, not,
  ◌&&◌, ◌||◌, ◌==◌, ltb, if◌then◌else◌, update, arith, Bool-cases, inl, inr, ◌⊎◌, [], ◌∷◌, ◌++◌,
}
use xv6_riscv_private.Console.{
  Console, sent, woken, input_buf_size, eof_key, dump_key, kill_key, erase_key, delete_key, newline,
  carriage_return, backspace, consputc, before, since, kill_line, put_char, accept, consoleintr,
}
use xv6_riscv_private.Console.Line.{Line, IsConsole, append, edit, erased, shown}

module _ (l : Line) (c : Console) (h : IsConsole l c) where
  since-ready : since c.e c.w ≡ l.last - l.ready
  since-ready =
      let a = h.behind in
      let b = h.ahead in
      let f = h.fits in let w = h.w in let e = h.e in omega (arith, a, b, f, w, e)

  since-taken : since c.e c.r ≡ l.last - l.taken
  since-taken =
      let a = h.behind in
      let b = h.ahead in
      let f = h.fits in let r = h.r in let e = h.e in omega (arith, a, b, f, r, e)

  nothing_left : (c.e == c.w) ≡ (l.last == l.ready)
  nothing_left =
      let a = h.behind in
      let b = h.ahead in
      let f = h.fits in let w = h.w in let e = h.e in ground (arith, a, b, f, w, e)

  -- the last character is taken back
  erase-IsConsole :
      l.ready < l.last → IsConsole (record l { last = l.last - 1 }) (record c { e = before c.e })
  erase-IsConsole some_left = record {
    behind = h.behind;
    ahead = omega (arith, some_left);
    fits = let f = h.fits in omega (arith, f);
    r = h.r;
    w = h.w;
    e = let e = h.e in omega (arith, e, some_left);
    bytes = λ j lo hi. h.bytes j lo (omega (arith, hi));
    unfinished = λ j lo hi. h.unfinished j lo (omega (arith, hi));
  }

  last_char : l.ready < l.last → c.buf (before c.e % input_buf_size) ≢ newline
  last_char some_left q =
      let e = h.e in
      let a = h.behind in
      let at : before c.e % input_buf_size ≡ (l.last - 1) % input_buf_size =
        omega (arith, e, some_left) in
      h.unfinished (l.last - 1) (omega (arith, some_left)) (omega (arith, some_left)) (
        sym (h.bytes (l.last - 1) (omega (arith, a, some_left)) (omega (arith, some_left)))
        ∙ ap c.buf (sym at)
        ∙ q)

  put_char-IsConsole :
      (ch : ℕ)
      → l.last < l.taken + input_buf_size
      → (ready : ℕ) → (ready ≡ l.last + 1) ⊎ ((ready ≡ l.ready) × (ch ≢ newline))
      → IsConsole
          (record {
            text = update l.text l.last ch;
            taken = l.taken;
            ready = ready;
            last = l.last + 1;
          })
          (record (put_char ch c) { w = ready % 2 ^ 32 })
  unfolding put_char
  put_char-IsConsole ch room ready which =
      let a = h.behind in
      let b = h.ahead in
      let e = h.e in
      let slot : c.e % input_buf_size ≡ l.last % input_buf_size = omega (arith, e) in
      record {
        behind = ground (arith, which, a, b);
        ahead = ground (arith, which, b);
        fits = omega (arith, room);
        r = h.r;
        w = refl;
        e = omega (arith, e);
        bytes = λ j lo hi. let old = h.bytes j lo in ground (arith, old, slot, hi, lo, room);
        unfinished = λ j lo hi q. let old = h.unfinished j in ground (arith, old, which, lo, hi, q);
      }

-- The loop that kills a line takes back the whole unfinished line.
kill_line_lem :
    (n : ℕ) (l : Line) (c : Console)
    → IsConsole l c
    → l.last ≡ l.ready + n
    → IsConsole (record l { last = l.ready }) (kill_line n c).1 × ((kill_line n c).0 ≡ erased n)
unfolding kill_line erased consputc
kill_line_lem zero l c h q =
    let same : l.last ≡ l.ready = omega (arith, q) in
    (
      record {
        behind = h.behind;
        ahead = omega arith;
        fits = let f = h.fits in omega (arith, f, same);
        r = h.r;
        w = h.w;
        e = h.e ∙ ap (λ x. x % 2 ^ 32) same;
        bytes = λ j lo hi. h.bytes j lo (omega (arith, hi, same));
        unfinished = λ j lo hi. absurd (omega (arith, lo, hi));
      },
      refl,
    )
kill_line_lem (suc n) l c h q =
    let some_left : l.ready < l.last = omega (arith, q) in
    let open_line : (c.e == c.w) ≡ false = nothing_left l c h ∙ ground (arith, some_left) in
    let no_newline = last_char l c h some_left in
    let char : (c.buf (before c.e % input_buf_size) == newline) ≡ false =
      ground (arith, no_newline) in
    let (rest, acts) =
      kill_line_lem n (record l { last = l.last - 1 }) (record c { e = before c.e })
        (erase-IsConsole l c h some_left) (omega (arith, q)) in
    rw (open_line, char) (rest, ap (λ x. sent 8 ∷ sent 32 ∷ sent 8 ∷ x) acts)

plain : (ch : ℕ) → ch < 256 → consputc ch ≡ sent ch ∷ []
unfolding consputc
plain ch lt = let other : (ch == backspace) ≡ false = ground (arith, lt) in rw other refl

put_char-e : (ch : ℕ) (c : Console) → (put_char ch c).e ≡ (c.e + 1) % 2 ^ 32
unfolding put_char
put_char-e ch c = refl

put_char-r : (ch : ℕ) (c : Console) → (put_char ch c).r ≡ c.r
unfolding put_char
put_char-r ch c = refl

put_char-w : (ch : ℕ) (c : Console) → (put_char ch c).w ≡ c.w
unfolding put_char
put_char-w ch c = refl

one_erased : consputc backspace ≡ erased 1
unfolding consputc erased
one_erased = refl

room_eq :
    (l : Line) (c : Console)
    → IsConsole l c
    → ltb (since c.e c.r) input_buf_size ≡ ltb l.last (l.taken + input_buf_size)
room_eq l c h =
    let a = h.behind in let b = h.ahead in let q = since-taken l c h in ground (arith, a, b, q)

-- a character that fits
accept_lem :
    (ch : ℕ) (l : Line) (c : Console)
    → IsConsole l c
    → ch < 256
    → l.last < l.taken + input_buf_size
    → IsConsole (append ch l) (accept ch c).1
      × ((accept ch c).0 ≡ sent ch ∷ (if ltb l.ready (append ch l).ready then woken ∷ [] else []))
unfolding accept append
accept_lem ch l c h lt room =
    let a = h.behind in
    let b = h.ahead in
    let r = h.r in
    let e = h.e in
    let e' : (put_char ch c).e ≡ (l.last + 1) % 2 ^ 32 = put_char-e ch c ∙ omega (arith, e) in
    let filled : (since (put_char ch c).e (put_char ch c).r == input_buf_size)
        ≡ (l.last + 1 == l.taken + input_buf_size) =
      ground (arith, e', put_char-r ch c, r, a, b, room) in
    elim (Bool-cases (ch == newline || ch == eof_key || l.last + 1 == l.taken + input_buf_size)) [
      | inl commit ↦
          let now : ltb l.ready (l.last + 1) ≡ true = ground (arith, b) in
          rw (filled, commit, now)
            (
              subst
                  (λ x.
                    IsConsole
                      (record {
                        text = update l.text l.last ch;
                        taken = l.taken;
                        ready = l.last + 1;
                        last = l.last + 1;
                      })
                      (record (put_char ch c) { w = x }))
                  (sym e') (put_char-IsConsole l c h ch room (l.last + 1) (inl refl)),
              ap (λ x. x ++ (woken ∷ [])) (plain ch lt),
            )
      | inr later ↦
          let no_newline : ch ≢ newline = ground (arith, later) in
          let not_now : ltb l.ready l.ready ≡ false = ground arith in
          rw (filled, later, not_now)
            (
              subst
                  (λ x.
                    IsConsole
                      (record {
                        text = update l.text l.last ch;
                        taken = l.taken;
                        ready = l.ready;
                        last = l.last + 1;
                      })
                      (record (put_char ch c) { w = x }))
                  (sym h.w ∙ sym (put_char-w ch c))
                  (put_char-IsConsole l c h ch room l.ready (inr (refl, no_newline))),
              plain ch lt,
            )
    ]

-- The console keeps in its buffer what the keys have edited. Whatever key below 256 arrives, the buffer
-- goes on to hold the line as the key edits it: control-U takes back the whole unfinished line, control-H and
-- delete its last character, other characters are added while fewer than 128 are waiting, and a newline, a control-D, or the
-- 128th character makes the line ready. The screen gets what `shown` says, and a reader is woken when a line gets ready.
pub consoleintr_lem :
    (key : ℕ) (l : Line) (c : Console)
    → IsConsole l c
    → key < 256
    → IsConsole (edit key l) (consoleintr key c).1 × ((consoleintr key c).0 ≡ shown key l)
unfolding consoleintr edit shown
consoleintr_lem key l c h lt = elim (Bool-cases (key == dump_key)) [
  | inl dump ↦ rw dump (h, refl)
  | inr no_dump ↦ elim (Bool-cases (key == kill_key)) [
    | inl kill ↦
        let n = l.last - l.ready in
        let b = h.ahead in
        rw (no_dump, kill, since-ready l c h)
          (kill_line_lem (l.last - l.ready) l c h (omega (arith, b)))
    | inr no_kill ↦ elim (Bool-cases (key == erase_key || key == delete_key)) [
      | inl erase ↦
          rw (no_dump, no_kill, erase, nothing_left l c h)
            (elim (Bool-cases (l.last == l.ready)) [
              | inl none_left ↦ rw none_left (h, refl)
              | inr left ↦
                  let b = h.ahead in
                  rw left (erase-IsConsole l c h (ground (arith, b, left)), one_erased)
            ])
      | inr no_erase ↦
          rw (no_dump, no_kill, no_erase, room_eq l c h)
            (elim (Bool-cases (not (key == 0) && ltb l.last (l.taken + input_buf_size))) [
              | inl room ↦ rw room (
                  accept_lem (if key == carriage_return then newline else key) l c h
                    (ground (arith, lt)) (ground (arith, room)))
              | inr full ↦ rw full (h, refl)
            ])
    ]
  ]
]
