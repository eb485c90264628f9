-- ===== src/Base/Outcomes.antt =====
-- How a C function can end.
use luarunner.Base.Errors.{LuaError}
use mathlib.Core.Bool.{Bool, true, false}
use mathlib.Core.Option.{Option, none, some}

-- `die` is the call that ends the process with a message, `undefined` what C leaves undefined (a
-- write outside the block, an `int` that overflows), and `spent` a loop that ran out of the
-- model's fuel. `raise` is `luaL_error`, which leaves the function by a jump; the flag says
-- whether the buffer in use was freed before.
pub data Result {ℓ} (A : Type ℓ) : Type ℓ where
  ok : A → Result A
  die undefined spent : Result A
  raise : Bool → LuaError → Result A

infixl 5 ◌>>=◌ ◌>>◌
abbrev pub ◌>>=◌ {ℓ κ} : {A : Type ℓ} {B : Type κ} → Result A → (A → Result B) → Result B
ok a >>= f = f a
die >>= f = die
undefined >>= f = undefined
spent >>= f = spent
raise freed e >>= f = raise freed e

abbrev pub ◌>>◌ {ℓ} : {B : Type ℓ} → Result (Unit {0}) → Result B → Result B
m >> k = m >>= λ _. k

-- Continue only if the condition holds.
abbrev pub assert : Bool → Result (Unit {0})
assert true = ok tt
assert false = undefined

abbrev pub or_die {ℓ} : {A : Type ℓ} → Option A → Result A
or_die none = die
or_die (some a) = ok a
