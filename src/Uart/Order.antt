-- ===== src/Uart/Order.antt =====
-- Characters are sent in the order in which they were put.
use xv6_riscv_private.Common.{
  ℕ, zero, suc, ◌+◌, ◌%◌, ◌^◌, ◌≤◌, ◌<◌, ◌≡◌, refl, ap, ◌∙◌, subst, true, false, ◌==◌, update,
  arith, Bool-cases, inl, inr, ◌⊎◌, none, some, List, [], ◌∷◌,
}
use xv6_riscv_private.Console.Got.{stretch}
use xv6_riscv_private.Uart.{Uart, uart_tx_buf_size, uartstart, uartputc}

-- Of the characters `s`, `w` have been put and `r` sent; the ring holds those in between.
pub record IsUart (s : ℕ → ℕ) (r w : ℕ) (u : Uart) : Type 0 where
  pub behind : r ≤ w
  pub fits : w ≤ r + uart_tx_buf_size
  pub tx_r : u.tx_r ≡ r % 2 ^ 64
  pub tx_w : u.tx_w ≡ w % 2 ^ 64
  pub chars : (j : ℕ) → r ≤ j → j < w → u.tx_buf (j % uart_tx_buf_size) ≡ s j

-- What `uartstart` sends are the next characters, as many as the device takes, or all that are left.
pub record Sent (s : ℕ → ℕ) (n r w m : ℕ) (out : List ℕ × Uart) : Type 0 where
  pub enough : (m ≡ n) ⊎ ((m < n) × (r + m ≡ w))
  pub sent : out.0 ≡ stretch s r m
  pub ring : IsUart s (r + m) w out.1

module _ (s : ℕ → ℕ) (r w : ℕ) (u : Uart) (h : IsUart s r w u) where
  none_left : (u.tx_w == u.tx_r) ≡ (r == w)
  none_left =
      let a = h.behind in
      let b = h.fits in let c = h.tx_r in let d = h.tx_w in ground (arith, a, b, c, d)

  full_at : (u.tx_w == (u.tx_r + uart_tx_buf_size) % 2 ^ 64) ≡ (w == r + uart_tx_buf_size)
  full_at =
      let a = h.behind in
      let b = h.fits in let c = h.tx_r in let d = h.tx_w in ground (arith, a, b, c, d)

  next_char : r < w → u.tx_buf (u.tx_r % uart_tx_buf_size) ≡ s r
  next_char lt =
      let c = h.tx_r in
      let at : u.tx_r % uart_tx_buf_size ≡ r % uart_tx_buf_size = omega (arith, c) in
      ap u.tx_buf at ∙ h.chars r (omega arith) lt

  sent_one : r < w → IsUart s (r + 1) w (record u { tx_r = (u.tx_r + 1) % 2 ^ 64 })
  sent_one lt = record {
    behind = omega (arith, lt);
    fits = let b = h.fits in omega (arith, b);
    tx_r = let c = h.tx_r in omega (arith, c);
    tx_w = h.tx_w;
    chars = λ j lo hi. h.chars j (omega (arith, lo)) hi;
  }

  put_one :
      (c : ℕ)
      → w < r + uart_tx_buf_size
      → IsUart (update s w c) r (w + 1) (record u {
        tx_buf = update u.tx_buf (u.tx_w % uart_tx_buf_size) c;
        tx_w = (u.tx_w + 1) % 2 ^ 64;
      })
  put_one c room =
      let d = h.tx_w in
      let slot : u.tx_w % uart_tx_buf_size ≡ w % uart_tx_buf_size = omega (arith, d) in
      record {
        behind = let a = h.behind in omega (arith, a);
        fits = omega (arith, room);
        tx_r = h.tx_r;
        tx_w = omega (arith, d);
        chars = λ j lo hi. let old = h.chars j lo in ground (arith, old, slot, hi, lo, room);
      }

  Sent-nothing : (n : ℕ) → (0 ≡ n) ⊎ ((0 < n) × (r + 0 ≡ w)) → Sent s n r w 0 ([], u)
  unfolding stretch
  Sent-nothing n why = record {
    enough = why;
    sent = refl;
    ring = let q : r ≡ r + 0 = omega arith in subst (λ x. IsUart s x w u) q h;
  }

uartstart_lem :
    (n : ℕ) (s : ℕ → ℕ) (r w : ℕ) (u : Uart)
    → IsUart s r w u
    → (m : ℕ) × Sent s n r w m (uartstart n u)
unfolding uartstart stretch
uartstart_lem zero s r w u h = (0, Sent-nothing s r w u h zero (inl refl))
uartstart_lem (suc n) s r w u h = elim (Bool-cases (r == w)) [
  | inl empty ↦
      rw (none_left s r w u h, empty)
        (0, Sent-nothing s r w u h (suc n) (inr (omega arith, ground (arith, empty))))
  | inr left ↦
      let a = h.behind in
      let lt : r < w = ground (arith, left, a) in
      let (m, p) =
        uartstart_lem n s (r + 1) w (record u { tx_r = (u.tx_r + 1) % 2 ^ 64 })
          (sent_one s r w u h lt) in
      rw (none_left s r w u h, left, next_char s r w u h lt)
        (
          suc m,
          record {
            enough = elim p.enough [
              | inl all ↦ inl (ap suc all)
              | inr (few, end) ↦ inr (omega (arith, few), omega (arith, end))
            ];
            sent = ap (λ x. s r ∷ x) p.sent;
            ring =
                let q : r + 1 + m ≡ r + suc m = omega arith in
                subst
                  (λ x. IsUart s x w (uartstart n (record u { tx_r = (u.tx_r + 1) % 2 ^ 64 })).1) q
                  p.ring;
          },
        )
]

-- `uartputc` sleeps exactly when 32 characters wait. Otherwise the character joins those that wait, behind them all, and
-- what goes to the device are the characters that have waited longest, in order, as many as the device
-- takes or all of them; the others stay in the ring.
pub uartputc_lem :
    (c n : ℕ) (s : ℕ → ℕ) (r w : ℕ) (u : Uart)
    → IsUart s r w u
    → (w ≡ r + uart_tx_buf_size → uartputc c n u ≡ none)
      × (w < r + uart_tx_buf_size
          → (m : ℕ) × (out : List ℕ × Uart) × (uartputc c n u ≡ some out)
            × Sent (update s w c) n r (w + 1) m out)
unfolding uartputc
uartputc_lem c n s r w u h = (
  (λ full.
      let f : (w == r + uart_tx_buf_size) ≡ true = ground (arith, full) in
      rw (full_at s r w u h, f) refl),
  (λ room.
      let f : (w == r + uart_tx_buf_size) ≡ false = ground (arith, room) in
      let (m, p) = uartstart_lem n (update s w c) r (w + 1) _ (put_one s r w u h c room) in
      (m, _, rw (full_at s r w u h, f) refl, p)),
)
