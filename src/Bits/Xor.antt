-- ===== src/Bits/Xor.antt =====
-- The laws of `^`, at every width.
use luarunner.Base.{
  ℕ, zero, suc, ◌+◌, ◌*◌, ◌/◌, ◌%◌, ◌^◌, ◌≤◌, ◌<◌, bit_xor, ◌≡◌, refl, sym, ◌∙◌, ap, arith,
}
use luarunner.Bits.Digits.{bit_xor_digit, zero-bit_xor}
use native.Mathlib.Nat.{pow-suc, div-one, mul-one, div-div-eq-div-mul}
use mathlib.Core.Path.{ap₂}

pub bit_xor-half : (x y : ℕ) → bit_xor x y / 2 ≡ bit_xor (x / 2) (y / 2)
bit_xor-half x y = omega (arith, bit_xor_digit x y)

pub bit_xor-parity : (x y : ℕ) → bit_xor x y % 2 ≡ (x + y) % 2
bit_xor-parity x y = omega (arith, bit_xor_digit x y)

-- Numbers with the same lowest digit and the same rest are the same.
by_digit : (x y : ℕ) → x / 2 ≡ y / 2 → x % 2 ≡ y % 2 → x ≡ y
by_digit x y p q = omega arith

comm_below : (n x y : ℕ) → x ≤ n → y ≤ n → bit_xor x y ≡ bit_xor y x
comm_below zero zero zero p q = refl
comm_below zero (suc x) y p q = absurd (omega arith)
comm_below zero x (suc y) p q = absurd (omega arith)
comm_below (suc n) x y p q = omega (
  arith,
  bit_xor_digit x y,
  bit_xor_digit y x,
  comm_below n (x / 2) (y / 2) (omega arith) (omega arith),
)

pub bit_xor_comm : (x y : ℕ) → bit_xor x y ≡ bit_xor y x
bit_xor_comm x y = comm_below (x + y) x y (omega arith) (omega arith)

assoc_below :
    (n x y z : ℕ) → x ≤ n → y ≤ n → z ≤ n → bit_xor (bit_xor x y) z ≡ bit_xor x (bit_xor y z)
assoc_below zero zero y z p q r = ap (λ t. bit_xor t z) (zero-bit_xor y) ∙ sym (zero-bit_xor _)
assoc_below zero (suc x) y z p q r = absurd (omega arith)
assoc_below (suc n) x y z p q r =
    by_digit _ _
      (bit_xor-half (bit_xor x y) z
        ∙ ap (λ t. bit_xor t (z / 2)) (bit_xor-half x y)
        ∙ assoc_below n (x / 2) (y / 2) (z / 2) (omega arith) (omega arith) (omega arith)
        ∙ ap (bit_xor (x / 2)) (sym (bit_xor-half y z))
        ∙ sym (bit_xor-half x (bit_xor y z)))
      (omega (
        arith,
        bit_xor-parity (bit_xor x y) z,
        bit_xor-parity x y,
        bit_xor-parity x (bit_xor y z),
        bit_xor-parity y z,
      ))

pub bit_xor_assoc : (x y z : ℕ) → bit_xor (bit_xor x y) z ≡ bit_xor x (bit_xor y z)
bit_xor_assoc x y z = assoc_below (x + y + z) x y z (omega arith) (omega arith) (omega arith)

self_below : (n x : ℕ) → x ≤ n → bit_xor x x ≡ 0
self_below zero zero p = refl
self_below zero (suc x) p = absurd (omega arith)
self_below (suc n) x p = omega (arith, bit_xor_digit x x, self_below n (x / 2) (omega arith))

pub bit_xor_self : (x : ℕ) → bit_xor x x ≡ 0
bit_xor_self x = self_below x x (omega arith)

pub bit_xor-zero : (x : ℕ) → bit_xor x 0 ≡ x
bit_xor-zero x = bit_xor_comm x 0 ∙ zero-bit_xor x

-- What was mixed in by `^` is taken out by the same `^`.
pub bit_xor_cancel : (x y : ℕ) → bit_xor (bit_xor x y) y ≡ x
bit_xor_cancel x y = bit_xor_assoc x y y ∙ ap (bit_xor x) (bit_xor_self y) ∙ bit_xor-zero x

pub bit_xor_exchange :
    (a b c d : ℕ) → bit_xor (bit_xor a b) (bit_xor c d) ≡ bit_xor (bit_xor a c) (bit_xor b d)
bit_xor_exchange a b c d =
    bit_xor_assoc a b (bit_xor c d)
    ∙ ap (bit_xor a) (sym (bit_xor_assoc b c d) ∙ ap (λ t. bit_xor t d) (bit_xor_comm b c))
    ∙ ap (bit_xor a) (bit_xor_assoc c b d)
    ∙ sym (bit_xor_assoc a c (bit_xor b d))

halve_after : (k x : ℕ) → x / 2 ^ suc k ≡ x / 2 ^ k / 2
halve_after k x = rw (pow-suc, div-div-eq-div-mul)

double_after : (k x : ℕ) → x * 2 ^ suc k ≡ 2 * (x * 2 ^ k)
double_after k x = omega (arith, ap (λ (t : ℕ). x * t) (pow-suc 2 k))

pub bit_xor-lt : (k x y : ℕ) → x < 2 ^ k → y < 2 ^ k → bit_xor x y < 2 ^ k
bit_xor-lt zero zero y p q = rw zero-bit_xor q
bit_xor-lt zero (suc x) y p q = absurd (omega arith)
bit_xor-lt (suc k) x y p q = omega (
  arith,
  bit_xor_digit x y,
  pow-suc 2 k,
  bit_xor-lt k (x / 2) (y / 2) (omega (arith, pow-suc 2 k)) (omega (arith, pow-suc 2 k)),
)

-- Shifts go through `^`.
pub bit_xor-shr : (k x y : ℕ) → bit_xor x y / 2 ^ k ≡ bit_xor (x / 2 ^ k) (y / 2 ^ k)
bit_xor-shr zero x y = rw (div-one, div-one, div-one)
bit_xor-shr (suc k) x y =
    rw (halve_after k (bit_xor x y), halve_after k x, halve_after k y, bit_xor-shr k x y)
      (bit_xor-half _ _)

pub bit_xor-shl : (k x y : ℕ) → bit_xor (x * 2 ^ k) (y * 2 ^ k) ≡ bit_xor x y * 2 ^ k
bit_xor-shl zero x y = rw (mul-one, mul-one, mul-one)
bit_xor-shl (suc k) x y =
    rw (double_after k x, double_after k y, double_after k (bit_xor x y))
      (omega (arith, bit_xor_digit (2 * (x * 2 ^ k)) (2 * (y * 2 ^ k)), halves, bit_xor-shl k x y))
  where
    halves : bit_xor (2 * (x * 2 ^ k) / 2) (2 * (y * 2 ^ k) / 2) ≡ bit_xor (x * 2 ^ k) (y * 2 ^ k)
    halves = ap₂ bit_xor (omega arith) (omega arith)
