-- ===== src/Bits/Rotate.antt =====
-- Rotations as C writes them, `(x << r) | (x >> (w - r))`, at every width `w`.
use luarunner.Base.{ℕ, zero, suc, ◌+◌, ◌-◌, ◌*◌, ◌/◌, ◌%◌, ◌^◌, ◌<◌, bit_or, ◌≡◌, ap, ◌∙◌, arith}
use luarunner.Bits.Fields.{bit_or_parts}
use native.Mathlib.Nat.{
  pow-suc, one-le-pow, mod-lt, div-add-mod, add-mul-mod_self_left, mod-eq_of_lt, div-lt_iff_lt-mul,
  div-eq_of_lt, add-mul-div_right, mul-add-mod_self_right, add_comm, div-add-mod',
}

unfoldable pub rotl : ℕ → ℕ → ℕ → ℕ
rotl w x r = bit_or (x * 2 ^ r % 2 ^ w) (x / 2 ^ (w - r))

-- The exponent is a variable with an equation, since `a + b` is stuck.
pub pow_split : (a b c : ℕ) → a + b ≡ c → 2 ^ c ≡ 2 ^ a * 2 ^ b
pow_split zero b c e = let e' : c ≡ b = omega arith in rw e' (omega arith)
pow_split (suc a) b zero e = absurd (omega arith)
pow_split (suc a) b (suc c) e =
    rw (pow-suc, pow-suc 2 a, pow_split a b c (omega arith)) (grind arith)

mod_scaled : (s r x : ℕ) → 0 < s → 0 < r → x * r % (s * r) ≡ x % s * r
mod_scaled s r x p q =
    ap (λ (t : ℕ). t % (s * r)) whole
    ∙ add-mul-mod_self_left (x % s * r) (s * r) (x / s)
    ∙ mod-eq_of_lt below
  where
    whole : x * r ≡ x % s * r + s * r * (x / s)
    whole = omega (arith, ap (λ (t : ℕ). t * r) (div-add-mod x s))

    below : x % s * r < s * r
    below = let lt = mod-lt x p in grind arith

-- The rotation exchanges the top `r` digits and the others.
pub rotl_parts : (w x r s : ℕ) → r + s ≡ w → x < 2 ^ w → rotl w x r ≡ x % 2 ^ s * 2 ^ r + x / 2 ^ s
unfolding rotl
rotl_parts w x r s e h =
    let s-is : w - r ≡ s = omega arith in
    rw
      (
        s-is,
        pow_split s r w (omega arith),
        mod_scaled (2 ^ s) (2 ^ r) x (one-le-pow s 2 (omega arith)) (one-le-pow r 2 (omega arith)),
      )
      (bit_or_parts r (x % 2 ^ s) (x / 2 ^ s) low)
  where
    low : x / 2 ^ s < 2 ^ r
    low = (div-lt_iff_lt-mul (one-le-pow s 2 (omega arith))).1 (omega (arith, pow_split r s w e))

-- Of the two fields `hi` and `lo` in a number `hi * r + lo`.
module _ (r hi lo : ℕ) (fits : lo < r) where
  high_field : (hi * r + lo) / r ≡ hi
  high_field = omega (
    arith,
    add-mul-div_right lo hi {z = r} (omega arith),
    ap (λ (t : ℕ). t / r) (add_comm (hi * r) lo),
    div-eq_of_lt fits,
  )

  low_field : (hi * r + lo) % r ≡ lo
  low_field = mul-add-mod_self_right hi r lo ∙ mod-eq_of_lt fits

module _ (w x r s : ℕ) (e : r + s ≡ w) (h : x < 2 ^ w) where
  s_pos : 0 < 2 ^ s
  s_pos = one-le-pow s 2 (omega arith)

  top_fits : x / 2 ^ s < 2 ^ r
  top_fits = (div-lt_iff_lt-mul s_pos).1 (omega (arith, pow_split r s w e))

  pub rotl-lt : rotl w x r < 2 ^ w
  rotl-lt =
      rw (rotl_parts w x r s e h, pow_split s r w (omega arith))
        (let lt = mod-lt x s_pos in let top = top_fits in grind arith)

  -- Rotating on by the digits that are left to a full turn gives the word back.
  pub rotl_full : rotl w (rotl w x r) s ≡ x
  rotl_full =
      rw
        (
          rotl_parts w (rotl w x r) s r (omega arith) rotl-lt,
          rotl_parts w x r s e h,
          high_field (2 ^ r) (x % 2 ^ s) (x / 2 ^ s) top_fits,
          low_field (2 ^ r) (x % 2 ^ s) (x / 2 ^ s) top_fits,
        )
        (div-add-mod' x (2 ^ s))
