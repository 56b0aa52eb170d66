-- ===== src/Fs/Words.antt =====
-- Little-endian integers in a block.
use xv6_riscv_private.Common.{
  ℕ, ◌+◌, ◌*◌, ◌/◌, ◌%◌, ◌^◌, ◌<◌, ◌≡◌, ◌≢◌, sym, ◌==◌, if◌then◌else◌, update, arith, Bool-cases,
  inl, inr,
}
use xv6_riscv_private.Fs.{Data}

-- `((uint*)data)[i]`
unfoldable pub word : Data → ℕ → ℕ
word d i = d (4 * i) + 2 ^ 8 * d (4 * i + 1) + 2 ^ 16 * d (4 * i + 2) + 2 ^ 24 * d (4 * i + 3)

unfoldable pub set_word : Data → ℕ → ℕ → Data
set_word d i v =
    update
      (update (update (update d (4 * i) (v % 2 ^ 8)) (4 * i + 1) (v / 2 ^ 8 % 2 ^ 8)) (4 * i + 2)
        (v / 2 ^ 16 % 2 ^ 8))
      (4 * i + 3) (v / 2 ^ 24 % 2 ^ 8)

word-same : (d : Data) (i v : ℕ) → v < 2 ^ 32 → word (set_word d i v) i ≡ v
unfolding word set_word
word-same d i v h = ground arith

pub word-set_word :
    (d : Data) (i v j : ℕ) → v < 2 ^ 32 → word (set_word d i v) j ≡ (if i == j then v else word d j)
unfolding word set_word
word-set_word d i v j h = elim (Bool-cases (i == j)) [
  | inl e ↦ let q : i ≡ j = ground (arith, e) in rw e (rw (sym q) (word-same d i v h))
  | inr e ↦ rw e (ground (arith, e))
]

pub word-zero : (d : Data) (j : ℕ) → ((k : ℕ) → d k ≡ 0) → word d j ≡ 0
unfolding word
word-zero d j h = omega (arith, h (4 * j), h (4 * j + 1), h (4 * j + 2), h (4 * j + 3))

-- `((short*)data)[i]`, as its bits
unfoldable pub half : Data → ℕ → ℕ
half d i = d (2 * i) + 2 ^ 8 * d (2 * i + 1)

unfoldable pub set_half : Data → ℕ → ℕ → Data
set_half d i v = update (update d (2 * i) (v % 2 ^ 8)) (2 * i + 1) (v / 2 ^ 8 % 2 ^ 8)

half-same : (d : Data) (i v : ℕ) → v < 2 ^ 16 → half (set_half d i v) i ≡ v
unfolding half set_half
half-same d i v h = ground arith

pub half-set_half :
    (d : Data) (i v j : ℕ) → v < 2 ^ 16 → half (set_half d i v) j ≡ (if i == j then v else half d j)
unfolding half set_half
half-set_half d i v j h = elim (Bool-cases (i == j)) [
  | inl e ↦ let q : i ≡ j = ground (arith, e) in rw e (rw (sym q) (half-same d i v h))
  | inr e ↦ rw e (ground (arith, e))
]

pub half-set_word : (d : Data) (i v j : ℕ) → i ≢ j / 2 → half (set_word d i v) j ≡ half d j
unfolding half set_word
half-set_word d i v j h = ground arith

pub word-set_half : (d : Data) (i v j : ℕ) → j ≢ i / 2 → word (set_half d i v) j ≡ word d j
unfolding word set_half
word-set_half d i v j h = ground arith
