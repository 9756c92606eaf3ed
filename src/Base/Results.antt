-- ===== src/Base/Results.antt =====
-- How a call of the C code ends.
use mathlib.Core.Path.{◌≡◌, refl}

-- The exceptions that the modelled code raises. `injected` is one that another fiber hands over.
pub data Error : Type 0 where
  invalid_op : Error
  invalid_mode : Error
  buffer_starvation : Error
  read_failed : Error
  write_failed : Error
  os_error : Error
  injected : Error
  bad_delimiter : Error
  unsupported : Error
  cannot_encode : Error
  internal_error : Error

-- `blocked`: the fiber waits for a completion that the environment does not give.
-- `fault`: a null pointer is followed, or memory is read past its end.
-- `out_of_fuel`: a loop of the model has used up its rounds.
pub data Outcome {κ} (Value : Type κ) : Type κ where
  blocked fault out_of_fuel : Outcome Value
  raised : Error → Outcome Value
  ok : Value → Outcome Value

-- Goes on with the value of a call that returned.
infixl 5 ◌>>=◌
abbrev pub ◌>>=◌ {κ ℓ} :
    {Value : Type κ} {Next : Type ℓ} (call : Outcome Value) (continue : Value → Outcome Next)
    → Outcome Next
blocked >>= continue = blocked
fault >>= continue = fault
out_of_fuel >>= continue = out_of_fuel
raised error >>= continue = raised error
ok value >>= continue = continue value

-- A call that goes on with a pure step, and returns: it returned itself.
pub returned_before {κ ℓ} :
    {A : Type κ} {B : Type ℓ} (call : Outcome A) (f : A → B) (b : B)
    → (call >>= λ x. ok (f x)) ≡ ok b
    → (x : A) × (call ≡ ok x) × (f x ≡ b)
returned_before blocked f b h = cc
returned_before fault f b h = cc
returned_before out_of_fuel f b h = cc
returned_before (raised e) f b h = cc
returned_before (ok x) f b h = (x, refl, cc)

-- The same with any step.
pub returned_then {κ ℓ} :
    {A : Type κ} {B : Type ℓ} (call : Outcome A) (f : A → Outcome B) (b : B)
    → (call >>= f) ≡ ok b
    → (x : A) × (call ≡ ok x) × (f x ≡ ok b)
returned_then blocked f b h = cc
returned_then fault f b h = cc
returned_then out_of_fuel f b h = cc
returned_then (raised e) f b h = cc
returned_then (ok x) f b h = (x, refl, h)
