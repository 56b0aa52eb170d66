-- ===== src/Uart/Tests.antt =====
-- The theorem at a ring whose counters are about to wrap.
use xv6_riscv_private.Common.{
  ℕ, ◌+◌, ◌-◌, ◌^◌, ◌<◌, ◌≡◌, refl, update, none, some, List, [], ◌∷◌, arith,
}
use xv6_riscv_private.Uart.{Uart, uart_tx_buf_size, uartputc, uartstart}
use xv6_riscv_private.Uart.Order.{IsUart, Sent, uartputc_lem}

abbrev start : ℕ
start = 2 ^ 64 - 1

-- Two characters wait.
abbrev uart : Uart
uart = record { tx_buf = λ i. 7; tx_w = 1; tx_r = start }

uart-IsUart : IsUart (λ j. 7) start (start + 2) uart
uart-IsUart = record {
  behind = omega arith;
  fits = omega arith;
  tx_r = refl;
  tx_w = refl;
  chars = λ j lo hi. refl;
}

uartputc_lem_example :
    (start + 2 ≡ start + uart_tx_buf_size → uartputc 9 3 uart ≡ none)
    × (start + 2 < start + uart_tx_buf_size
        → (m : ℕ) × (out : List ℕ × Uart) × (uartputc 9 3 uart ≡ some out)
          × Sent (update (λ j. 7) (start + 2) 9) 3 start (start + 2 + 1) m out)
uartputc_lem_example = uartputc_lem 9 3 (λ j. 7) start (start + 2) uart uart-IsUart

uartputc-sent :
    uartputc 9 3 uart
    ≡ some (7 ∷ 7 ∷ 9 ∷ [], record { tx_buf = update (λ i. 7) 1 9; tx_w = 2; tx_r = 2 })
unfolding uartputc uartstart
uartputc-sent = refl
