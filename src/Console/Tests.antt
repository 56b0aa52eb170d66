-- ===== src/Console/Tests.antt =====
-- Tests, and the theorems at a console whose counters are about to wrap.
use xv6_riscv_private.Common.{
  length, ℕ, ◌+◌, ◌-◌, ◌^◌, ◌<◌, ◌≤◌, ◌≡◌, refl, true, false, leb, if◌then◌else◌, arith, pos, [],
  ◌∷◌, ◌++◌,
}
use xv6_riscv_private.Console.{
  Console, returned, newline, kill_key, consoleintr, consoleread_loop, consoleread,
}
use xv6_riscv_private.Console.Line.{Line, IsConsole, edit, shown}
use xv6_riscv_private.Console.Edit.{consoleintr_lem}
use xv6_riscv_private.Console.Got.{Got}
use xv6_riscv_private.Console.Read.{consoleread_loop_lem}
use xv6_riscv_private.Console.Keys.{typed, IsPlain}
use xv6_riscv_private.Console.Typed.{consoleread-typed}

abbrev wrap : ℕ
wrap = 2 ^ 32 - 2

-- "ls" and a newline have been typed, and then an "x".
abbrev codes : ℕ → ℕ
codes j =
    if leb j wrap
    then 108
    else if leb j (wrap + 1)
    then 115
    else if leb j (wrap + 2)
    then 10
    else 120

abbrev line : Line
line = record { text = codes; taken = wrap; ready = wrap + 3; last = wrap + 4 }

abbrev console : Console
console = record {
  buf = λ i. if leb 126 i then (if leb 127 i then 115 else 108) else if leb 1 i then 120 else 10;
  r = wrap;
  w = 1;
  e = 2;
}

console-IsConsole : IsConsole line console
console-IsConsole = record {
  behind = omega arith;
  ahead = omega arith;
  fits = omega arith;
  r = refl;
  w = refl;
  e = refl;
  bytes = λ j lo hi. ground arith;
  unfinished = λ j lo hi. ground arith;
}

-- The key is control-U.
consoleintr_lem_example :
    IsConsole (edit kill_key line) (consoleintr kill_key console).1
    × ((consoleintr kill_key console).0 ≡ shown kill_key line)
consoleintr_lem_example = consoleintr_lem kill_key line console console-IsConsole (omega arith)

consoleread_loop_lem_example :
    (m : ℕ) × (p : ℕ) × Got
      (λ a. true)
      500
      10
      10
      false
      line
      m
      p
      (consoleread_loop 10 10 (λ a. true) 500 false console)
consoleread_loop_lem_example =
    consoleread_loop_lem 10 10 (λ a. true) 500 false line console console-IsConsole (omega arith)

consoleread_loop-chars :
    (consoleread_loop 10 10 (λ a. true) 500 false console).0 ≡ 108 ∷ 115 ∷ 10 ∷ []
unfolding consoleread_loop
consoleread_loop-chars = refl

letter-IsPlain : (k : ℕ) → 97 ≤ k → k < 123 → IsPlain k
letter-IsPlain k lo hi = (
  omega (arith, hi),
  (λ e. omega (arith, e, lo)),
  (λ e. omega (arith, e, lo)),
  (λ e. omega (arith, e, lo)),
  (λ e. omega (arith, e, lo)),
  (λ e. omega (arith, e, lo)),
  (λ e. omega (arith, e, lo)),
  (λ e. omega (arith, e, lo)),
  (λ e. omega (arith, e, hi)),
)

abbrev idle : Console
idle = record { buf = λ i. 0; r = wrap; w = wrap; e = wrap }

-- "x", control-U, "ls" and a newline
consoleread-typed_example :
    (c' : Console) × (consoleread
        (λ a. true)
        500
        10
        false
        (typed ((120 ∷ []) ++ (kill_key ∷ (108 ∷ 115 ∷ []) ++ (newline ∷ []))) idle)
      ≡ ((108 ∷ 115 ∷ []) ++ (newline ∷ []), c', returned (pos 3)))
    × (c'.r ≡ c'.w)
    × (c'.w ≡ c'.e)
unfolding length
consoleread-typed_example =
    consoleread-typed (120 ∷ []) (108 ∷ 115 ∷ []) idle 10 500 (λ a. true) false refl refl
      (omega arith) (letter-IsPlain 120 (omega arith) (omega arith), tt)
      (
        letter-IsPlain 108 (omega arith) (omega arith),
        (letter-IsPlain 115 (omega arith) (omega arith), tt),
      )
      (omega arith) (omega arith) (omega arith) (λ a. refl)
