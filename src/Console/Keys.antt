-- ===== src/Console/Keys.antt =====
-- Keys one after the other, and lines with plain keys added.
use xv6_riscv_private.Common.{
  length, ℕ, ◌+◌, ◌≤◌, ◌<◌, ◌≡◌, ◌≢◌, refl, sym, ap, ◌∙◌, subst, true, false, not, ◌&&◌, ◌||◌, ◌==◌,
  ltb, update, update_self, update-ne, arith, Bool-cases, inl, inr, List, [], ◌∷◌, ◌++◌, All,
}
use xv6_riscv_private.Console.{
  Console, input_buf_size, eof_key, dump_key, kill_key, erase_key, delete_key, newline,
  carriage_return, consoleintr,
}
use xv6_riscv_private.Console.Line.{Line, IsConsole, append, edit}
use xv6_riscv_private.Console.Edit.{consoleintr_lem}
use xv6_riscv_private.Console.Got.{stretch}

-- the console after the keys, one interrupt each
unfoldable pub typed : List ℕ → Console → Console
typed [] c = c
typed (k ∷ ks) c = typed ks (consoleintr k c).1

unfoldable pub edits : List ℕ → Line → Line
edits [] l = l
edits (k ∷ ks) l = edits ks (edit k l)

-- a key that stands for itself
abbrev pub IsPlain : ℕ → Type 0
IsPlain k =
    (k < 256)
    × (k ≢ 0)
    × (k ≢ newline)
    × (k ≢ carriage_return)
    × (k ≢ eof_key)
    × (k ≢ dump_key)
    × (k ≢ kill_key)
    × (k ≢ erase_key)
    × (k ≢ delete_key)

pub typed-IsConsole :
    (ks : List ℕ) (l : Line) (c : Console)
    → IsConsole l c
    → All (λ k. k < 256) ks
    → IsConsole (edits ks l) (typed ks c)
unfolding typed edits
typed-IsConsole [] l c h small = h
typed-IsConsole (k ∷ ks) l c h small =
    typed-IsConsole ks (edit k l) (consoleintr k c).1 (consoleintr_lem k l c h small.0).0 small.1

plain-eq :
    (k : ℕ) (l : Line)
    → IsPlain k
    → l.last + 1 < l.taken + input_buf_size
    → edit k l ≡ record {
      text = update l.text l.last k;
      taken = l.taken;
      ready = l.ready;
      last = l.last + 1;
    }
unfolding edit append
plain-eq k l (lt, nz, nl, cr, eo, du, ki, er, de) room =
    let d : (k == dump_key) ≡ false = ground (arith, du) in
    let q : (k == kill_key) ≡ false = ground (arith, ki) in
    let e : (k == erase_key || k == delete_key) ≡ false = ground (arith, er, de) in
    let r : (not (k == 0) && ltb l.last (l.taken + input_buf_size)) ≡ true =
      ground (arith, nz, room) in
    let n : (k == carriage_return) ≡ false = ground (arith, cr) in
    let c : (k == newline || k == eof_key || l.last + 1 == l.taken + input_buf_size) ≡ false =
      ground (arith, nl, eo, room) in
    rw (d, q, e, r, n, c) refl

-- The line `l'` is `l` with plain keys added.
pub record Added (ks : List ℕ) (l l' : Line) : Type 0 where
  pub taken : l'.taken ≡ l.taken
  pub ready : l'.ready ≡ l.ready
  pub last : l'.last ≡ l.last + length ks
  pub old : (j : ℕ) → j < l.last → l'.text j ≡ l.text j
  pub new : stretch l'.text l.last (length ks) ≡ ks
  pub plain :
      (j : ℕ) → l.last ≤ j → j < l.last + length ks → (l'.text j ≢ newline) × (l'.text j ≢ eof_key)

Added-∷ :
    (k : ℕ) (ks : List ℕ) (l l' : Line)
    → IsPlain k
    → Added ks
        (record {
          text = update l.text l.last k;
          taken = l.taken;
          ready = l.ready;
          last = l.last + 1;
        })
        l'
    → Added (k ∷ ks) l l'
unfolding length stretch
Added-∷ k ks l l' (lt, nz, nl, cr, eo, du, ki, er, de) a =
    let first : l'.text l.last ≡ k = a.old l.last (omega arith) ∙ update_self l.text l.last k in
    record {
      taken = a.taken;
      ready = a.ready;
      last = let q = a.last in omega (arith, q);
      old = λ j lt'.
          a.old j (omega (arith, lt')) ∙ update-ne l.text l.last j k (λ e. omega (arith, e, lt'));
      new = ap (λ x. x ∷ stretch l'.text (l.last + 1) (length ks)) first ∙ ap (λ x. k ∷ x) a.new;
      plain = λ j lo hi. elim (Bool-cases (j == l.last)) [
        | inl here ↦
            let q : j ≡ l.last = ground (arith, here) in
            let char : l'.text j ≡ k = ap l'.text q ∙ first in
            ((λ e. nl (sym char ∙ e)), (λ e. eo (sym char ∙ e)))
        | inr after ↦ a.plain j (ground (arith, after, lo)) (ground (arith, hi))
      ];
    }

pub edits-Added :
    (ks : List ℕ) (l : Line)
    → All IsPlain ks
    → l.last + length ks < l.taken + input_buf_size
    → Added ks l (edits ks l)
unfolding edits length stretch
edits-Added [] l plain room = record {
  taken = refl;
  ready = refl;
  last = omega arith;
  old = λ j lt. refl;
  new = refl;
  plain = λ j lo hi. absurd (omega (arith, lo, hi));
}
edits-Added (k ∷ ks) l plain room =
    let q = plain-eq k l plain.0 (omega (arith, room)) in
    Added-∷ k ks l (edits ks (edit k l)) plain.0 (
      subst (λ x. Added ks x (edits ks (edit k l))) q
        (edits-Added ks (edit k l) plain.1 (rw q (omega (arith, room)))))

pub small_keys : (ks : List ℕ) → All IsPlain ks → All (λ k. k < 256) ks
small_keys [] plain = tt
small_keys (k ∷ ks) plain = (plain.0.0, small_keys ks plain.1)

pub kill-eq : (l : Line) → edit kill_key l ≡ record l { last = l.ready }
unfolding edit
kill-eq l = refl

pub newline-eq :
    (l : Line)
    → l.last < l.taken + input_buf_size
    → edit newline l ≡ record {
      text = update l.text l.last newline;
      taken = l.taken;
      ready = l.last + 1;
      last = l.last + 1;
    }
unfolding edit append
newline-eq l room =
    let fits : ltb l.last (l.taken + input_buf_size) ≡ true = ground (arith, room) in rw fits refl

pub edits-++ : (ks js : List ℕ) (l : Line) → edits (ks ++ js) l ≡ edits js (edits ks l)
unfolding edits
edits-++ [] js l = refl
edits-++ (k ∷ ks) js l = edits-++ ks js (edit k l)
