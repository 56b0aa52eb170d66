-- ===== src/Common/Panic.antt =====
-- The result of kernel code: a value, or a call of `panic` (kernel/printf.c), which never returns.
-- `out_of_fuel` is no behaviour of the code: the rounds given to the model of a loop ran out.
use mathlib.Core.Path.{◌≡◌, refl}
use mathlib.Core.Logic.{◌⊎◌, inl, inr}
use mathlib.Core.Bool.{Bool, true, false}

pub data Outcome {ℓ} (A : Type ℓ) : Type ℓ where
  ok : A → Outcome A
  panic : Outcome A
  out_of_fuel : Outcome A

-- Nothing runs after a panic.
infixl 5 ◌>>=◌ ◌>>◌
abbrev pub ◌>>=◌ {κ ℓ} : {A : Type κ} {B : Type ℓ} → Outcome A → (A → Outcome B) → Outcome B
out_of_fuel >>= rest = out_of_fuel
panic >>= rest = panic
ok value >>= rest = rest value

module _ {ℓ κ} {A : Type ℓ} {B : Type κ} where
  -- If the whole ends with a value, so does its first part, and the rest on that value.
  pub >>=-eq-ok :
      (first : Outcome A) (rest : A → Outcome B) {b : B}
      → (first >>= rest) ≡ ok b
      → (value : A) × (first ≡ ok value) × (rest value ≡ ok b)
  >>=-eq-ok panic rest e = cc
  >>=-eq-ok out_of_fuel rest e = cc
  >>=-eq-ok (ok value) rest e = (value, refl, e)

abbrev pub ◌>>◌ {κ} : {B : Type κ} → Outcome (Unit {0}) → Outcome B → Outcome B
check >> rest = check >>= λ _. rest

-- `if(b) panic(...)`
abbrev pub panic_if : Bool → Outcome (Unit {0})
panic_if true = panic
panic_if false = ok tt

-- To split on an outcome and keep the equation.
pub Outcome-cases {ℓ} :
    {A : Type ℓ} (m : Outcome A) → ((a : A) × (m ≡ ok a)) ⊎ ((m ≡ panic) ⊎ (m ≡ out_of_fuel))
Outcome-cases (ok a) = inl (a, refl)
Outcome-cases panic = inr (inl refl)
Outcome-cases out_of_fuel = inr (inr refl)

pub ok-injective {ℓ} : {A : Type ℓ} (a b : A) → ok a ≡ ok b → a ≡ b
ok-injective a b e = cc
