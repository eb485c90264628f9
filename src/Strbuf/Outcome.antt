-- ===== src/Strbuf/Outcome.antt =====
-- What a buffer operation ensures, and how that composes.
use luarunner.Base.{
  ℕ, List, Option, none, some, ◌≡◌, refl, ◌⊎◌, inr, Result, ok, die, undefined, spent, raise, ◌>>=◌,
  or_die,
}
use luarunner.Strbuf.{Allocator}

module _ (heap : Allocator) where
  -- The allocator turned a request down.
  abbrev pub Refuses : Type 0
  Refuses =
      ((n : ℕ) × (heap.malloc n ≡ none)) ⊎ ((old : List ℕ) × (n : ℕ) × (heap.realloc old n ≡ none))

  -- The operation returns a value with `P`, or the process ends because memory was refused.
  -- Nothing undefined happens, and no loop runs on.
  abbrev pub Ensures {ℓ} : {A : Type ℓ} → (A → Type 0) → Result A → Type 0
  Ensures P (ok a) = P a
  Ensures P die = Refuses
  Ensures P undefined = ⊥
  Ensures P spent = ⊥
  Ensures P (raise freed e) = ⊥

  module _ {ℓ κ} {A : Type ℓ} {B : Type κ} where
    pub Ensures->>= :
        (P : A → Type 0) (Q : B → Type 0) (r : Result A) (f : A → Result B)
        → Ensures P r
        → ((a : A) → P a → Ensures Q (f a))
        → Ensures Q (r >>= f)
    Ensures->>= P Q (ok a) f h k = k a h
    Ensures->>= P Q die f h k = h
    Ensures->>= P Q undefined f h k = h
    Ensures->>= P Q spent f h k = h
    Ensures->>= P Q (raise freed e) f h k = h

  pub Ensures-map {ℓ} :
      {A : Type ℓ} (P Q : A → Type 0) (r : Result A)
      → ((a : A) → P a → Q a)
      → Ensures P r
      → Ensures Q r
  Ensures-map P Q (ok a) k h = k a h
  Ensures-map P Q die k h = h
  Ensures-map P Q undefined k h = h
  Ensures-map P Q spent k h = h
  Ensures-map P Q (raise freed e) k h = h

  pub Ensures-realloc :
      (old : List ℕ) (n : ℕ)
      → Ensures (λ block. heap.realloc old n ≡ some block) (or_die (heap.realloc old n))
  Ensures-realloc old n = answered (heap.realloc old n) refl
    where
      answered :
          (o : Option (List ℕ))
          → heap.realloc old n ≡ o
          → Ensures (λ block. heap.realloc old n ≡ some block) (or_die o)
      answered none e = inr (old, n, e)
      answered (some block) e = e
