-- ===== src/Console/Line.antt =====
-- The input as a stream of characters with positions that never wrap.
use xv6_riscv_private.Common.{
  ℕ, zero, suc, ◌+◌, ◌-◌, ◌%◌, ◌^◌, ◌≤◌, ◌<◌, ◌≡◌, ◌≢◌, not, ◌&&◌, ◌||◌, ◌==◌, ltb, if◌then◌else◌,
  update, List, [], ◌∷◌, ◌++◌,
}
use xv6_riscv_private.Console.{
  Console, Act, sent, woken, dumped, input_buf_size, eof_key, dump_key, kill_key, erase_key,
  delete_key, newline, carriage_return,
}

-- Of the characters `text`, those below `taken` have been read, those below `ready` may be read, and those from there to
-- `last` can still be edited.
pub record Line : Type 0 where
  pub text : ℕ → ℕ
  pub taken : ℕ
  pub ready : ℕ
  pub last : ℕ

-- The buffer holds the characters from `taken` to `last`, and no newline is left to edit.
pub record IsConsole (l : Line) (c : Console) : Type 0 where
  pub behind : l.taken ≤ l.ready
  pub ahead : l.ready ≤ l.last
  pub fits : l.last ≤ l.taken + input_buf_size
  pub r : c.r ≡ l.taken % 2 ^ 32
  pub w : c.w ≡ l.ready % 2 ^ 32
  pub e : c.e ≡ l.last % 2 ^ 32
  pub bytes : (j : ℕ) → l.taken ≤ j → j < l.last → c.buf (j % input_buf_size) ≡ l.text j
  pub unfinished : (j : ℕ) → l.ready ≤ j → j < l.last → l.text j ≢ newline

-- the line after the character `ch`
unfoldable pub append : ℕ → Line → Line
append ch l = record {
  text = update l.text l.last ch;
  taken = l.taken;
  ready =
      if ch == newline || ch == eof_key || l.last + 1 == l.taken + input_buf_size
      then l.last + 1
      else l.ready;
  last = l.last + 1;
}

-- what a key does
unfoldable pub edit : ℕ → Line → Line
edit key l =
    if key == dump_key
    then l
    else if key == kill_key
    then record l { last = l.ready }
    else if key == erase_key || key == delete_key
    then if l.last == l.ready then l else record l { last = l.last - 1 }
    else if not (key == 0) && ltb l.last (l.taken + input_buf_size)
    then append (if key == carriage_return then newline else key) l
    else l

-- what the screen gets to erase `n` characters
unfoldable pub erased : ℕ → List Act
erased zero = []
erased (suc n) = (sent 8 ∷ sent 32 ∷ sent 8 ∷ []) ++ erased n

-- what a key, below 256, shows, and whether a reader is woken
unfoldable pub shown : ℕ → Line → List Act
shown key l =
    if key == dump_key
    then dumped ∷ []
    else if key == kill_key
    then erased (l.last - l.ready)
    else if key == erase_key || key == delete_key
    then if l.last == l.ready then [] else erased 1
    else if not (key == 0) && ltb l.last (l.taken + input_buf_size)
    then sent (if key == carriage_return then newline else key)
      ∷ (if ltb l.ready (edit key l).ready then woken ∷ [] else [])
    else []
