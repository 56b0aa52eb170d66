-- ===== src/Console.antt =====
-- kernel/console.c: the input buffer with its line editing, and the loops of consoleread and consolewrite from one
-- sleep to the next. Characters are their codes, below 256.
pub mod Line
pub mod Edit
pub mod Got
pub mod Read
pub mod Keys
pub mod Whole
pub mod Typed
mod Tests
use xv6_riscv_private.Common.{
  ℕ, zero, suc, ◌+◌, ◌-◌, ◌%◌, ◌^◌, Bool, true, false, not, ◌&&◌, ◌||◌, ◌==◌, ltb, if◌then◌else◌,
  update, Option, none, some, ℤ, pos, negsuc, List, [], ◌∷◌, ◌++◌,
}

abbrev pub input_buf_size : ℕ
input_buf_size = 128

-- `C(x)`
abbrev pub control : ℕ → ℕ
control x = x - 64

-- control-D, -P, -U, -H, the delete key, newline and carriage return
abbrev pub eof_key : ℕ
eof_key = control 68

abbrev pub dump_key : ℕ
dump_key = control 80

abbrev pub kill_key : ℕ
kill_key = control 85

abbrev pub erase_key : ℕ
erase_key = control 72

abbrev pub delete_key : ℕ
delete_key = 127

abbrev pub newline : ℕ
newline = 10

abbrev pub carriage_return : ℕ
carriage_return = 13

pub record Console : Type 0 where
  pub buf : ℕ → ℕ
  pub r : ℕ
  pub w : ℕ
  pub e : ℕ

-- What the handler does besides: `uartputc_sync`, `wakeup(&cons.r)`, and `procdump`
pub data Act : Type 0 where
  sent : ℕ → Act
  woken : Act
  dumped : Act

-- The code that is no character
abbrev pub backspace : ℕ
backspace = 0x100

unfoldable pub consputc : ℕ → List Act
consputc c = if c == backspace then sent 8 ∷ sent 32 ∷ sent 8 ∷ [] else sent c ∷ []

-- `x - 1` and `x - y` of `uint`s
abbrev pub before : ℕ → ℕ
before x = (x + (2 ^ 32 - 1)) % 2 ^ 32

abbrev pub since : ℕ → ℕ → ℕ
since x y = (x + (2 ^ 32 - y)) % 2 ^ 32

-- The loop that kills a line, by recursion on `cons.e - cons.w`, which every round makes smaller by 1.
unfoldable pub kill_line : ℕ → Console → List Act × Console
kill_line zero c = ([], c)
kill_line (suc n) c =
    let (acts, c') = kill_line n (record c { e = before c.e }) in
    if c.e == c.w || c.buf (before c.e % input_buf_size) == newline
    then ([], c)
    else (consputc backspace ++ acts, c')

-- `cons.buf[cons.e++ % INPUT_BUF_SIZE] = c`
unfoldable pub put_char : ℕ → Console → Console
put_char ch c = record c { buf = update c.buf (c.e % input_buf_size) ch; e = (c.e + 1) % 2 ^ 32 }

-- the default case, for a character that fits, after `c = (c == '\r') ? '\n' : c`
unfoldable pub accept : ℕ → Console → List Act × Console
accept ch c =
    let c' = put_char ch c in
    if ch == newline || ch == eof_key || since c'.e c'.r == input_buf_size
    then (consputc ch ++ (woken ∷ []), record c' { w = c'.e })
    else (consputc ch, c')

unfoldable pub consoleintr : ℕ → Console → List Act × Console
consoleintr key c =
    if key == dump_key
    then (dumped ∷ [], c)
    else if key == kill_key
    then kill_line (since c.e c.w) c
    else if key == erase_key || key == delete_key
    then if c.e == c.w then ([], c) else (consputc backspace, record c { e = before c.e })
    else if not (key == 0) && ltb (since c.e c.r) input_buf_size
    then accept (if key == carriage_return then newline else key) c
    else ([], c)

-- how a stretch under the lock ends: with a result, or asleep with `n` bytes left
pub data ReadEnd : Type 0 where
  returned : ℤ → ReadEnd
  asleep : ℕ → ReadEnd

-- The loop of `consoleread` with `n` bytes left; `copyout` says where memory can be written. The result has the bytes
-- copied out.
unfoldable pub consoleread_loop :
    ℕ → ℕ → (ℕ → Bool) → ℕ → Bool → Console → List ℕ × Console × ReadEnd
consoleread_loop zero target copyout dst killed c = ([], c, returned (pos target))
consoleread_loop (suc n) target copyout dst killed c =
    let ch = c.buf (c.r % input_buf_size) in
    let c' : Console = record c { r = (c.r + 1) % 2 ^ 32 } in
    let (chs, c'', end) = consoleread_loop n target copyout (dst + 1) killed c' in
    let got = returned (pos (target - suc n)) in
    if c.r == c.w
    then ([], c, if killed then returned (negsuc 0) else asleep (suc n))
    else if ch == eof_key
    then ([], if ltb (suc n) target then record c' { r = before c'.r } else c', got)
    else if copyout dst
    then if ch == newline then (ch ∷ [], c', returned (pos (target - n))) else (ch ∷ chs, c'', end)
    else ([], c', got)

-- from its start, for `n` that is not negative
unfoldable pub consoleread : (ℕ → Bool) → ℕ → ℕ → Bool → Console → List ℕ × Console × ReadEnd
consoleread copyout dst n killed c = consoleread_loop n n copyout dst killed c

-- The loop of `consolewrite` with `n` bytes left from index `i` on: the characters for `uartputc`, and the result
unfoldable pub put_loop : ℕ → ℕ → (ℕ → Option ℕ) → ℕ → List ℕ × ℕ
put_loop zero i copyin src = ([], i)
put_loop (suc n) i copyin src = elim (copyin (src + i)) [
  | none ↦ ([], i)
  | some ch ↦ let (chs, m) = put_loop n (i + 1) copyin src in (ch ∷ chs, m)
]

unfoldable pub consolewrite : (ℕ → Option ℕ) → ℕ → ℕ → List ℕ × ℕ
consolewrite copyin src n = put_loop n 0 copyin src
