-- ===== src/Bits/Fields.antt =====
-- `|` of parts that share no digit is `+`, `&` with a run of ones is `%`.
use luarunner.Base.{
  ℕ, zero, suc, ◌+◌, ◌*◌, ◌/◌, ◌%◌, ◌^◌, ◌≤◌, ◌<◌, bit_or, bit_and, ◌≡◌, refl, ap, ◌∙◌, arith,
}
use luarunner.Bits.Digits.{bit_or_digit, bit_and_digit}
use native.Mathlib.Nat.{
  pow-suc, one-le-pow, mod-lt, div-add-mod, add-mul-mod_self_left, mod-eq_of_lt, mul-one, div-one,
  pow-succ', div-div-eq-div-mul,
}

twice_part : (k x : ℕ) → x * 2 ^ suc k ≡ 2 * (x * 2 ^ k)
twice_part k x = omega (arith, ap (λ (t : ℕ). x * t) (pow-suc 2 k))

or_zero_below : (n x : ℕ) → x ≤ n → bit_or x 0 ≡ x
or_zero_below zero zero p = refl
or_zero_below zero (suc x) p = absurd (omega arith)
or_zero_below (suc n) x p = omega (arith, bit_or_digit x 0, or_zero_below n (x / 2) (omega arith))

-- The high part stands `k` digits up and the low part has at most `k`.
pub bit_or_parts : (k hi lo : ℕ) → lo < 2 ^ k → bit_or (hi * 2 ^ k) lo ≡ hi * 2 ^ k + lo
bit_or_parts zero hi zero p = omega (arith, or_zero_below (hi * 1) (hi * 1) (omega arith))
bit_or_parts zero hi (suc lo) p = absurd (omega arith)
bit_or_parts (suc k) hi lo p = rw (twice_part k hi) (
    omega (
      arith,
      bit_or_digit (2 * (hi * 2 ^ k)) lo,
      ap (λ (t : ℕ). bit_or t (lo / 2)) half,
      bit_or_parts k hi (lo / 2) (omega (arith, pow-suc 2 k)),
    ))
  where
    half : 2 * (hi * 2 ^ k) / 2 ≡ hi * 2 ^ k
    half = omega arith

and_zero_below : (n x : ℕ) → x ≤ n → bit_and x 0 ≡ 0
and_zero_below zero zero p = refl
and_zero_below zero (suc x) p = absurd (omega arith)
and_zero_below (suc n) x p =
    omega (arith, bit_and_digit x 0, and_zero_below n (x / 2) (omega arith))

pub mod_double : (t x : ℕ) → 0 < t → x % (2 * t) ≡ x / 2 % t * 2 + x % 2
mod_double t x p =
    ap (λ (s : ℕ). s % (2 * t)) whole
    ∙ add-mul-mod_self_left (x / 2 % t * 2 + x % 2) (2 * t) (x / 2 / t)
    ∙ mod-eq_of_lt (omega (arith, mod-lt (x / 2) p))
  where
    whole : x ≡ x / 2 % t * 2 + x % 2 + 2 * t * (x / 2 / t)
    whole = omega (arith, div-add-mod (x / 2) t)

-- A mask of `k` ones keeps the `k` lowest digits.
pub bit_and_ones : (k x m : ℕ) → m + 1 ≡ 2 ^ k → bit_and x m ≡ x % 2 ^ k
bit_and_ones zero x zero p = omega (arith, and_zero_below x x (omega arith))
bit_and_ones zero x (suc m) p = absurd (omega arith)
bit_and_ones (suc k) x m p = omega (
  arith,
  bit_and_digit x m,
  bit_and_ones k (x / 2) (m / 2) (omega (arith, pow-suc 2 k)),
  one-le-pow k 2,
  mod_double (2 ^ k) x (one-le-pow k 2 (omega arith)),
  ap (λ (t : ℕ). x % t) doubled,
  pow-suc 2 k,
)
  where
    doubled : 2 ^ suc k ≡ 2 * 2 ^ k
    doubled = omega (arith, pow-suc 2 k)

-- A mask that stands `k` digits up.
pub bit_and_shifted : (k x m : ℕ) → bit_and x (m * 2 ^ k) ≡ bit_and (x / 2 ^ k) m * 2 ^ k
bit_and_shifted zero x m = rw (mul-one, mul-one, div-one)
bit_and_shifted (suc k) x m =
    rw (twice_part k m, twice_part k (bit_and (x / 2 ^ suc k) m))
      (omega (
        arith,
        bit_and_digit x (2 * (m * 2 ^ k)),
        ap (λ (t : ℕ). bit_and (x / 2) t) half,
        bit_and_shifted k (x / 2) m,
        ap (λ (t : ℕ). bit_and t m * 2 ^ k) quotient,
      ))
  where
    half : 2 * (m * 2 ^ k) / 2 ≡ m * 2 ^ k
    half = omega arith

    quotient : x / 2 ^ suc k ≡ x / 2 / 2 ^ k
    quotient = rw (pow-succ', div-div-eq-div-mul)
