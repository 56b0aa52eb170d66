-- ===== src/Fs/Bitmap.antt =====
-- The bits of the free map, a byte for eight of them.
use Prim.Native.Nat.{bit_and, bit_or}
use xv6_riscv_private.Common.{
  ℕ, ◌-◌, ◌/◌, ◌%◌, ◌^◌, ◌<◌, ◌≡◌, refl, ap, Bool, true, false, not, ◌&&◌, ◌||◌, ◌==◌, ltb, update,
  arith, Bool-cases, inl, inr, every_below, every_below_sound,
}
use xv6_riscv_private.Fs.{Data}

-- `(data[bi/8] & (1 << (bi % 8))) == 0`
unfoldable pub bit_clear : ℕ → ℕ → Bool
bit_clear x k = bit_and x (2 ^ k) == 0

unfoldable pub is_free : Data → ℕ → Bool
is_free bytes bi = bit_clear (bytes (bi / 8)) (bi % 8)

-- `data[bi/8] |= m`
unfoldable pub mark : Data → ℕ → Data
mark bytes bi = update bytes (bi / 8) (bit_or (bytes (bi / 8)) (2 ^ (bi % 8)))

-- `data[bi/8] &= ~m`, on a byte
unfoldable pub unmark : Data → ℕ → Data
unmark bytes bi = update bytes (bi / 8) (bit_and (bytes (bi / 8)) (255 - 2 ^ (bi % 8)))

abbrev agree : Bool → Bool → Bool
agree true b = b
agree false b = not b

-- What marking and unmarking bit `k` of the byte `x` does to its bit `j`, checked at every byte
abbrev or_row : ℕ → ℕ → ℕ → Bool
or_row x k j =
    agree (bit_and (bit_or x (2 ^ k)) (2 ^ j) == 0) (not (k == j) && (bit_and x (2 ^ j) == 0))
    && (agree (ltb (bit_or x (2 ^ k)) 256) true)

abbrev and_row : ℕ → ℕ → ℕ → Bool
and_row x k j =
    agree (bit_and (bit_and x (255 - 2 ^ k)) (2 ^ j) == 0) (k == j || (bit_and x (2 ^ j) == 0))
    && (agree (ltb (bit_and x (255 - 2 ^ k)) 256) true)

table :
    every_below 256 (λ x. every_below 8 (λ k. every_below 8 (λ j. or_row x k j && and_row x k j)))
    ≡ true
unfolding every_below
table = refl

agree_eq : (a b : Bool) → agree a b ≡ true → a ≡ b
agree_eq true true h = refl
agree_eq true false h = cc
agree_eq false true h = cc
agree_eq false false h = refl

row_at : (x k j : ℕ) → x < 256 → k < 8 → j < 8 → (or_row x k j && and_row x k j) ≡ true
row_at x k j hx hk hj =
    let rows =
      every_below_sound 256
        (λ x. every_below 8 (λ k. every_below 8 (λ j. or_row x k j && and_row x k j))) table x hx in
    let row =
      every_below_sound 8 (λ k. every_below 8 (λ j. or_row x k j && and_row x k j)) rows k hk in
    every_below_sound 8 (λ j. or_row x k j && and_row x k j) row j hj

-- every element of the block is a byte
pub record AreBytes (d : Data) : Type 0 where
  pub small : (i : ℕ) → d i < 256

pub is_free-mark :
    (d : Data) (k j : ℕ) → AreBytes d → is_free (mark d k) j ≡ (not (k == j) && is_free d j)
unfolding is_free mark bit_clear
is_free-mark d k j h =
    let row = row_at (d (k / 8)) (k % 8) (j % 8) (h.small (k / 8)) (omega arith) (omega arith) in
    elim (Bool-cases (k / 8 == j / 8)) [
      | inl e ↦
          let byte : d (k / 8) ≡ d (j / 8) = ap d (ground (arith, e)) in
          let q : (k % 8 == j % 8) ≡ (k == j) = ground (arith, e) in ground (arith, e, row, q, byte)
      | inr e ↦ ground (arith, e)
    ]

pub is_free-unmark :
    (d : Data) (k j : ℕ) → AreBytes d → is_free (unmark d k) j ≡ (k == j || is_free d j)
unfolding is_free unmark bit_clear
is_free-unmark d k j h =
    let row = row_at (d (k / 8)) (k % 8) (j % 8) (h.small (k / 8)) (omega arith) (omega arith) in
    elim (Bool-cases (k / 8 == j / 8)) [
      | inl e ↦
          let byte : d (k / 8) ≡ d (j / 8) = ap d (ground (arith, e)) in
          let q : (k % 8 == j % 8) ≡ (k == j) = ground (arith, e) in ground (arith, e, row, q, byte)
      | inr e ↦ ground (arith, e)
    ]

pub AreBytes-mark : (d : Data) (k : ℕ) → AreBytes d → AreBytes (mark d k)
unfolding mark
AreBytes-mark d k h = record {
  small = λ i.
      let row = row_at (d (k / 8)) (k % 8) 0 (h.small (k / 8)) (omega arith) (omega arith) in
      let old = h.small i in ground (arith, row, old);
}

pub AreBytes-unmark : (d : Data) (k : ℕ) → AreBytes d → AreBytes (unmark d k)
unfolding unmark
AreBytes-unmark d k h = record {
  small = λ i.
      let row = row_at (d (k / 8)) (k % 8) 0 (h.small (k / 8)) (omega arith) (omega arith) in
      let old = h.small i in ground (arith, row, old);
}
