-- ===== src/Cjson/Ends.antt =====
-- Loops that end, and errors: what a result is when no fuel runs out.
pub mod Strings
pub mod Tokens
pub mod Branches
pub mod Values
pub mod Decoder
pub mod ArrayLength
pub mod Buffer
pub mod Encoder
pub mod Nesting
mod Tests
use luarunner.Base.{Bool, Result, ok, die, undefined, spent, raise, ◌>>=◌}

-- A value with `P`, an error with `Q` of whether the buffer was freed before, the end of the
-- process or something undefined; but no loop runs on.
abbrev pub Ends {ℓ} : {A : Type ℓ} → (Bool → Type 0) → (A → Type 0) → Result A → Type 0
Ends Q P (ok a) = P a
Ends Q P die = Unit
Ends Q P undefined = Unit
Ends Q P spent = ⊥
Ends Q P (raise freed e) = Q freed

-- No error is raised.
abbrev pub Never : Bool → Type 0
Never freed = ⊥

pub Ends->>= {ℓ κ} :
    {A : Type ℓ} {B : Type κ} (Q : Bool → Type 0) (P : A → Type 0) (R : B → Type 0) (r : Result A)
    (f : A → Result B)
    → Ends Q P r
    → ((a : A) → P a → Ends Q R (f a))
    → Ends Q R (r >>= f)
Ends->>= Q P R (ok a) f h k = k a h
Ends->>= Q P R die f h k = tt
Ends->>= Q P R undefined f h k = tt
Ends->>= Q P R spent f h k = h
Ends->>= Q P R (raise freed e) f h k = h

pub Ends-Never {ℓ} :
    {A : Type ℓ} (Q : Bool → Type 0) (P : A → Type 0) (r : Result A) → Ends Never P r → Ends Q P r
Ends-Never Q P (ok a) h = h
Ends-Never Q P die h = tt
Ends-Never Q P undefined h = tt
Ends-Never Q P spent h = h
Ends-Never Q P (raise freed e) h = absurd h

pub Ends-weaken {ℓ} :
    {A : Type ℓ} (Q : Bool → Type 0) (P R : A → Type 0) (r : Result A)
    → ((a : A) → P a → R a)
    → Ends Q P r
    → Ends Q R r
Ends-weaken Q P R (ok a) k h = k a h
Ends-weaken Q P R die k h = tt
Ends-weaken Q P R undefined k h = tt
Ends-weaken Q P R spent k h = h
Ends-weaken Q P R (raise freed e) k h = h
