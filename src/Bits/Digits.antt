-- ===== src/Bits/Digits.antt =====
-- One binary digit at a time: what `&`, `|` and `^` do to the lowest digit and to the rest.
use Prim.Native.Nat.{min, max, differ, digits, bit_and-bitwise, bit_or-bitwise, bit_xor-bitwise}
use luarunner.Base.{
  ℕ, zero, suc, ◌+◌, ◌*◌, ◌/◌, ◌%◌, ◌≤◌, ◌<◌, bit_and, bit_or, bit_xor, ◌≡◌, refl, ap, arith,
}

-- The native operations count down from their first argument. Any larger count does as well.
module _ (past : ℕ → ℕ) (op : ℕ → ℕ → ℕ) where
  count_irrelevant : (c d x y : ℕ) → x ≤ c → x ≤ d → digits past op c x y ≡ digits past op d x y
  count_irrelevant zero zero x y p q = refl
  count_irrelevant zero (suc d) zero y p q = refl
  count_irrelevant (suc c) zero zero y p q = refl
  count_irrelevant (suc c) (suc d) zero y p q = refl
  count_irrelevant zero d (suc x) y p q = absurd (omega arith)
  count_irrelevant c zero (suc x) y p q = absurd (omega arith)
  count_irrelevant (suc c) (suc d) (suc x) y p q =
      ap (λ (t : ℕ). t * 2 + op (suc x % 2) (y % 2))
        (count_irrelevant c d (suc x / 2) (y / 2) (omega arith) (omega arith))

  digits_step :
      (x y : ℕ)
      → digits past op (suc x) (suc x) y
        ≡ digits past op (suc x / 2) (suc x / 2) (y / 2) * 2 + op (suc x % 2) (y % 2)
  digits_step x y =
      ap (λ (t : ℕ). t * 2 + op (suc x % 2) (y % 2))
        (count_irrelevant x (suc x / 2) (suc x / 2) (y / 2) (omega arith) (omega arith))

zero-bit_or : (y : ℕ) → bit_or 0 y ≡ y
zero-bit_or y = bit_or-bitwise 0 y

zero-bit_and : (y : ℕ) → bit_and 0 y ≡ 0
zero-bit_and y = bit_and-bitwise 0 y

pub zero-bit_xor : (y : ℕ) → bit_xor 0 y ≡ y
zero-bit_xor y = bit_xor-bitwise 0 y

differ_lem : (x y : ℕ) → x < 2 → y < 2 → differ x y ≡ (x + y) % 2
differ_lem zero y p q = omega arith
differ_lem (suc zero) zero p q = refl
differ_lem (suc zero) (suc zero) p q = refl
differ_lem (suc x) (suc (suc y)) p q = absurd (omega arith)
differ_lem (suc (suc x)) y p q = absurd (omega arith)

pub bit_or_digit : (x y : ℕ) → bit_or x y ≡ bit_or (x / 2) (y / 2) * 2 + max (x % 2) (y % 2)
bit_or_digit zero y = omega (arith, zero-bit_or y, zero-bit_or (y / 2))
bit_or_digit (suc x) y = omega (
  arith,
  bit_or-bitwise (suc x) y,
  bit_or-bitwise (suc x / 2) (y / 2),
  digits_step (λ t. t) max x y,
)

pub bit_and_digit : (x y : ℕ) → bit_and x y ≡ bit_and (x / 2) (y / 2) * 2 + min (x % 2) (y % 2)
bit_and_digit zero y = omega (arith, zero-bit_and y, zero-bit_and (y / 2))
bit_and_digit (suc x) y = omega (
  arith,
  bit_and-bitwise (suc x) y,
  bit_and-bitwise (suc x / 2) (y / 2),
  digits_step (λ t. 0) min x y,
)

pub bit_xor_digit : (x y : ℕ) → bit_xor x y ≡ bit_xor (x / 2) (y / 2) * 2 + (x + y) % 2
bit_xor_digit zero y = omega (arith, zero-bit_xor y, zero-bit_xor (y / 2))
bit_xor_digit (suc x) y = omega (
  arith,
  bit_xor-bitwise (suc x) y,
  bit_xor-bitwise (suc x / 2) (y / 2),
  digits_step (λ t. t) differ x y,
  differ_lem (suc x % 2) (y % 2) (omega arith) (omega arith),
)
