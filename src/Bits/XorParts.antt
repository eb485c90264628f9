-- ===== src/Bits/XorParts.antt =====
-- `^` works on the fields of a word one by one.
use luarunner.Base.{ℕ, zero, suc, ◌+◌, ◌*◌, ◌/◌, ◌%◌, ◌^◌, ◌<◌, bit_xor, ◌≡◌, sym, ◌∙◌, ap, arith}
use luarunner.Bits.Digits.{bit_xor_digit, zero-bit_xor}
use luarunner.Bits.Fields.{mod_double}
use luarunner.Bits.Xor.{bit_xor-half, bit_xor-parity, bit_xor-shr, bit_xor-zero}
use mathlib.Core.Path.{ap₂}
use native.Mathlib.Nat.{
  pow-succ', one-le-pow, mod-one, div-add-mod', div-eq_of_lt, mod-eq_of_lt, mul-mod_left,
  mul-div_cancel,
}

mod_two_pow_suc : (k x : ℕ) → x % 2 ^ suc k ≡ x / 2 % 2 ^ k * 2 + x % 2
mod_two_pow_suc k x = rw pow-succ' (mod_double (2 ^ k) x (one-le-pow k 2 (omega arith)))

pub bit_xor-mod : (k x y : ℕ) → bit_xor x y % 2 ^ k ≡ bit_xor (x % 2 ^ k) (y % 2 ^ k)
bit_xor-mod zero x y = rw (mod-one, mod-one, mod-one) (sym (zero-bit_xor 0))
bit_xor-mod (suc k) x y = omega (
  arith,
  mod_two_pow_suc k (bit_xor x y),
  ap (λ (t : ℕ). t % 2 ^ k) (bit_xor-half x y),
  bit_xor-mod k (x / 2) (y / 2),
  bit_xor-parity x y,
  bit_xor_digit (x % 2 ^ suc k) (y % 2 ^ suc k),
  ap₂ bit_xor (rest x) (rest y),
  mod_two_pow_suc k x,
  mod_two_pow_suc k y,
)
  where
    rest : (z : ℕ) → z % 2 ^ suc k / 2 ≡ z / 2 % 2 ^ k
    rest z = omega (arith, mod_two_pow_suc k z)

-- Parts that share no digit.
pub bit_xor_parts : (k hi lo : ℕ) → lo < 2 ^ k → bit_xor (hi * 2 ^ k) lo ≡ hi * 2 ^ k + lo
bit_xor_parts k hi lo p =
    sym (div-add-mod' (bit_xor (hi * 2 ^ k) lo) (2 ^ k)) ∙ ap₂ (λ (h l : ℕ). h * 2 ^ k + l) high low
  where
    pos : 0 < 2 ^ k
    pos = one-le-pow k 2 (omega arith)

    high : bit_xor (hi * 2 ^ k) lo / 2 ^ k ≡ hi
    high =
        bit_xor-shr k (hi * 2 ^ k) lo
        ∙ ap₂ bit_xor (mul-div_cancel hi pos) (div-eq_of_lt p)
        ∙ bit_xor-zero hi

    low : bit_xor (hi * 2 ^ k) lo % 2 ^ k ≡ lo
    low =
        bit_xor-mod k (hi * 2 ^ k) lo
        ∙ ap₂ bit_xor (mul-mod_left hi (2 ^ k)) (mod-eq_of_lt p)
        ∙ zero-bit_xor lo
