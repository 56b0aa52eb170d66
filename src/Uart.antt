-- ===== src/Uart.antt =====
-- kernel/uart.c: the ring of characters that wait to be sent, while the kernel has not panicked. A stretch of code goes
-- from one sleep to the next.
pub mod Order
mod Tests
use xv6_riscv_private.Common.{
  ℕ, zero, suc, ◌+◌, ◌%◌, ◌^◌, ◌==◌, if◌then◌else◌, update, Option, none, some, List, [], ◌∷◌, ◌++◌,
}
use xv6_riscv_private.Console.{Console, Act, consoleintr}

abbrev pub uart_tx_buf_size : ℕ
uart_tx_buf_size = 32

pub record Uart : Type 0 where
  pub tx_buf : ℕ → ℕ
  pub tx_w : ℕ
  pub tx_r : ℕ

-- `uartstart`, where LSR says `n` times that the device can take a character, and then not; the result has the
-- characters written to THR, each after a `wakeup(&uart_tx_r)`
unfoldable pub uartstart : ℕ → Uart → List ℕ × Uart
uartstart zero u = ([], u)
uartstart (suc n) u =
    let (cs, u') = uartstart n (record u { tx_r = (u.tx_r + 1) % 2 ^ 64 }) in
    if u.tx_w == u.tx_r then ([], u) else (u.tx_buf (u.tx_r % uart_tx_buf_size) ∷ cs, u')

-- `uartputc`; none where it sleeps because the ring is full
unfoldable pub uartputc : ℕ → ℕ → Uart → Option (List ℕ × Uart)
uartputc c n u =
    let u' : Uart = record u {
      tx_buf = update u.tx_buf (u.tx_w % uart_tx_buf_size) c;
      tx_w = (u.tx_w + 1) % 2 ^ 64;
    } in
    if u.tx_w == (u.tx_r + uart_tx_buf_size) % 2 ^ 64 then none else some (uartstart n u')

-- the loop of `uartintr` over the characters that `uartgetc` returns before -1
unfoldable pub receive : List ℕ → Console → List Act × Console
receive [] c = ([], c)
receive (k ∷ ks) c =
    let (acts, c') = consoleintr k c in let (more, c'') = receive ks c' in (acts ++ more, c'')

unfoldable pub uartintr : List ℕ → ℕ → Console → Uart → List Act × Console × List ℕ × Uart
uartintr ks n c u =
    let (acts, c') = receive ks c in let (cs, u') = uartstart n u in (acts, c', cs, u')
