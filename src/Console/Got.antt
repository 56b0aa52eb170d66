-- ===== src/Console/Got.antt =====
-- What a read is to take from the line.
use xv6_riscv_private.Common.{
  ℕ, zero, suc, ◌+◌, ◌-◌, ◌≤◌, ◌<◌, ◌≡◌, ◌≢◌, Bool, true, false, ltb, if◌then◌else◌, pos, negsuc,
  List, [], ◌∷◌,
}
use xv6_riscv_private.Console.{Console, ReadEnd, returned, asleep, eof_key, newline}
use xv6_riscv_private.Console.Line.{Line, IsConsole}

-- `n` characters of `text` from position `i` on
unfoldable pub stretch : (ℕ → ℕ) → ℕ → ℕ → List ℕ
stretch text i zero = []
stretch text i (suc n) = text i ∷ stretch text (i + 1) n

-- no newline in the first `m` characters
abbrev pub Unbroken : Line → ℕ → Type 0
Unbroken l m = (j : ℕ) → j < m → l.text (l.taken + j) ≢ newline

-- how a read of `n` more characters, of `target`, to `dst` ends that has copied `m` characters of the line `l` and taken
-- `p`: it has them all, or a whole line, or control-D is next, which is left if anything was read, or the memory cannot be
-- written, which loses a character, or nothing is left to read
pub data Why (copyout : ℕ → Bool) (dst n target : ℕ) (killed : Bool) (l : Line) (m p : ℕ)
    : ReadEnd → Type 0 where
  all : m ≡ n → p ≡ m → Unbroken l m → Why copyout dst n target killed l m p (returned (pos target))
  line :
      (v : ℕ)
      → 0 < m
      → p ≡ m
      → l.text (l.taken + (m - 1)) ≡ newline
      → v + n ≡ target + m
      → Unbroken l (m - 1)
      → Why copyout dst n target killed l m p (returned (pos v))
  eof :
      (v : ℕ)
      → m < n
      → l.taken + m < l.ready
      → l.text (l.taken + m) ≡ eof_key
      → p ≡ (if ltb (n - m) target then m else m + 1)
      → v + n ≡ target + m
      → Unbroken l m
      → Why copyout dst n target killed l m p (returned (pos v))
  fault :
      (v : ℕ)
      → m < n
      → l.taken + m < l.ready
      → copyout (dst + m) ≡ false
      → p ≡ m + 1
      → v + n ≡ target + m
      → Unbroken l m
      → Why copyout dst n target killed l m p (returned (pos v))
  dry :
      (e : ReadEnd)
      → m < n
      → l.taken + m ≡ l.ready
      → p ≡ m
      → e ≡ (if killed then returned (negsuc 0) else asleep (n - m))
      → Unbroken l m
      → Why copyout dst n target killed l m p e

-- A read copies the next characters of the line, which stop after the first newline and before the first control-D.
pub record Got (copyout : ℕ → Bool) (dst n target : ℕ) (killed : Bool) (l : Line) (m p : ℕ)
    (out : List ℕ × Console × ReadEnd) : Type 0 where
  pub most : m ≤ n
  pub there : l.taken + p ≤ l.ready
  pub copied : out.0 ≡ stretch l.text l.taken m
  pub stops : (j : ℕ) → j < m → (l.text (l.taken + j) ≢ eof_key) × (copyout (dst + j) ≡ true)
  pub left : IsConsole (record l { taken = l.taken + p }) out.1
  pub why : Why copyout dst n target killed l m p out.2
