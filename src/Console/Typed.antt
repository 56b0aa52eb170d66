-- ===== src/Console/Typed.antt =====
-- A line that is typed is read.
use xv6_riscv_private.Common.{
  length, ℕ, ◌+◌, ◌^◌, ◌≤◌, ◌<◌, ◌≡◌, refl, sym, ap, ◌∙◌, subst, Bool, true, update, update_self,
  update-ne, arith, pos, List, [], ◌∷◌, ◌++◌, All,
}
use xv6_riscv_private.Console.{Console, returned, input_buf_size, kill_key, newline, consoleread}
use xv6_riscv_private.Console.Line.{Line, IsConsole, edit}
use xv6_riscv_private.Console.Got.{stretch}
use xv6_riscv_private.Console.Read.{consoleread_loop_lem}
use xv6_riscv_private.Console.Keys.{
  typed, edits, IsPlain, typed-IsConsole, Added, edits-Added, small_keys, kill-eq, newline-eq,
  edits-++,
}
use xv6_riscv_private.Console.Whole.{IsTyped, stretch-same, read-Typed}

-- the line of a console with nothing in it
blank : Console → Line
blank c = record { text = c.buf; taken = c.r; ready = c.r; last = c.r }

-- A word on an empty line, and a newline
ended : Line → Line
ended l = record {
  text = update l.text l.last newline;
  taken = l.taken;
  ready = l.last + 1;
  last = l.last + 1;
}

ended-Typed :
    (word : List ℕ) (l l' : Line)
    → l.ready ≡ l.taken
    → l.last ≡ l.taken
    → Added word l l'
    → IsTyped word (ended l')
unfolding ended
ended-Typed word l l' r e a =
    let ta = a.taken in
    let la = a.last in
    let last_at : l'.taken + length word ≡ l'.last = omega (arith, ta, la, e) in
    record {
      ready = omega (arith, ta, la, e);
      last = refl;
      chars =
          stretch-same (update l'.text l'.last newline) l'.text l'.taken (length word)
            (λ j lt. update-ne l'.text l'.last j newline (λ q. omega (arith, q, lt, last_at)))
          ∙ ap (λ x. stretch l'.text x (length word)) (ta ∙ sym e)
          ∙ a.new;
      ends = ap (update l'.text l'.last newline) last_at ∙ update_self l'.text l'.last newline;
      plain = λ j lt.
          let (no_newline, no_eof) =
            a.plain (l'.taken + j) (omega (arith, ta, e)) (omega (arith, ta, e, lt)) in
          let same =
            update-ne l'.text l'.last (l'.taken + j) newline (λ q. omega (arith, q, lt, last_at)) in
          ((λ z. no_newline (sym same ∙ z)), (λ z. no_eof (sym same ∙ z)));
    }

-- the line after the keys
final : List ℕ → List ℕ → Line → Line
final junk word l = edit newline (edits word (edit kill_key (edits junk l)))

final-Typed :
    (junk word : List ℕ) (l : Line)
    → l.ready ≡ l.taken
    → l.last ≡ l.taken
    → All IsPlain junk
    → All IsPlain word
    → length junk < input_buf_size
    → length word < input_buf_size
    → IsTyped word (final junk word l) × ((final junk word l).taken ≡ l.taken)
unfolding final ended
final-Typed junk word l r e junk_plain plain few fits =
    let l1 = edits junk l in
    let a1 = edits-Added junk l junk_plain (omega (arith, few, e)) in
    let l2 : Line = record l1 { last = l1.ready } in
    let l3 = edits word l2 in
    let r1 = a1.ready in
    let t1 = a1.taken in
    let a2 = edits-Added word l2 plain (omega (arith, r1, t1, fits, r)) in
    let t2 = a2.taken in
    let q2 = a2.last in
    let goal = λ (x : Line). IsTyped word x × (x.taken ≡ l.taken) in
    subst (λ x. goal (edit newline (edits word x))) (sym (kill-eq l1))
      (subst goal (sym (newline-eq l3 (omega (arith, q2, t2, r1, t1, r, fits))))
        (ended-Typed word l2 l3 (omega (arith, r1, t1, r)) (omega (arith, r1, t1, r)) a2, t2 ∙ t1))

blank-IsConsole : (c : Console) → c.w ≡ c.r → c.e ≡ c.r → c.r < 2 ^ 32 → IsConsole (blank c) c
unfolding blank
blank-IsConsole c w e small = record {
  behind = omega arith;
  ahead = omega arith;
  fits = omega arith;
  r = omega (arith, small);
  w = omega (arith, w, small);
  e = omega (arith, e, small);
  bytes = λ j lo hi. absurd (omega (arith, lo, hi));
  unfinished = λ j lo hi. absurd (omega (arith, lo, hi));
}

edits-line :
    (junk word : List ℕ) (l : Line)
    → edits (junk ++ (kill_key ∷ word ++ (newline ∷ []))) l ≡ final junk word l
unfolding edits final
edits-line junk word l =
    edits-++ junk (kill_key ∷ word ++ (newline ∷ [])) l
    ∙ edits-++ word (newline ∷ []) (edit kill_key (edits junk l))

All-++ :
    (ks js : List ℕ) → All (λ k. k < 256) ks → All (λ k. k < 256) js → All (λ k. k < 256) (ks ++ js)
All-++ [] js a b = b
All-++ (k ∷ ks) js a b = (a.0, All-++ ks js a.1 b)

small_line :
    (junk word : List ℕ)
    → All IsPlain junk
    → All IsPlain word
    → All (λ k. k < 256) (junk ++ (kill_key ∷ word ++ (newline ∷ [])))
small_line junk word a b =
    All-++ junk (kill_key ∷ word ++ (newline ∷ [])) (small_keys junk a)
      (omega arith, All-++ word (newline ∷ []) (small_keys word b) (omega arith, tt))

-- The line discipline. On a console with nothing in it, let some plain keys arrive, then control-U, then the plain keys `word`,
-- each time less than 128, and a newline. A read with room for the line, into memory that can be written, then returns
-- exactly `word` and the newline, with their number as its result, and nothing is left in the console.
pub consoleread-typed :
    (junk word : List ℕ) (c : Console) (n dst : ℕ) (copyout : ℕ → Bool) (killed : Bool)
    → c.w ≡ c.r
    → c.e ≡ c.r
    → c.r < 2 ^ 32
    → All IsPlain junk
    → All IsPlain word
    → length junk < input_buf_size
    → length word < input_buf_size
    → length word + 1 ≤ n
    → ((a : ℕ) → copyout a ≡ true)
    → (c' : Console) × (consoleread copyout dst n killed
          (typed (junk ++ (kill_key ∷ word ++ (newline ∷ []))) c)
        ≡ (word ++ (newline ∷ []), c', returned (pos (length word + 1))))
      × (c'.r ≡ c'.w)
      × (c'.w ≡ c'.e)
unfolding consoleread blank
consoleread-typed junk word c n dst copyout killed w e small junk_plain plain few fits room can =
    let keys = junk ++ (kill_key ∷ word ++ (newline ∷ [])) in
    let h =
      typed-IsConsole keys (blank c) c (blank-IsConsole c w e small)
        (small_line junk word junk_plain plain) in
    let l4 = edits keys (blank c) in
    let (m, p, got) =
      consoleread_loop_lem n n copyout dst killed l4 (typed keys c) h (omega arith) in
    let t =
      subst (IsTyped word) (sym (edits-line junk word (blank c)))
        (final-Typed junk word (blank c) refl refl junk_plain plain few fits).0 in
    let (value, r_w, w_e) = read-Typed word n dst copyout killed l4 m p _ t room can got in
    (_, value, r_w, w_e)
