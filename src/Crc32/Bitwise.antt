-- ===== src/Crc32/Bitwise.antt =====
-- The CRC that the comment in crc32.c specifies (width 32, polynomial 0x04c11db7, nothing
-- reflected, nothing xored at the end), one bit at a time, and its agreement with the table.
use luarunner.Base.{
  ℕ, zero, suc, ◌+◌, ◌*◌, ◌/◌, ◌%◌, ◌^◌, ◌<◌, ◌≤◌, List, [], ◌∷◌, true, bit_xor, ltb, ltb→lt,
  lt→ltb, ltb→le, shr, Bool-cases, inl, inr, ◌==◌, ==_iff, if◌then◌else◌, shl32, ◌≡◌, refl, sym,
  ◌∙◌, ap, arith, check_all, check_all_lem,
}
use luarunner.Bits.{
  bit_xor_comm, bit_xor_exchange, bit_xor-zero, bit_xor-lt, bit_xor-shl, bit_xor-shr, bit_xor-mod,
  bit_xor_parts,
}
use luarunner.Crc32.{table_entry, step}
use mathlib.Core.Path.{ap₂}
use native.Mathlib.Nat.{pow-suc, one-le-pow, div-add-mod'}

abbrev pub poly : ℕ
poly = 0x04c11db7

-- One division step: shift left, and subtract the polynomial if a one falls out at the top.
unfoldable pub shift_bit : ℕ → ℕ
shift_bit x = if ltb x (2 ^ 31) then x * 2 else bit_xor (shl32 x 1) poly

unfoldable pub shift_bits : ℕ → ℕ → ℕ
unfolding shift_bit
shift_bits zero x = x
shift_bits (suc n) x = shift_bits n (shift_bit x)

-- The next byte is added at the top, and then divided out.
unfoldable pub divide_byte : ℕ → ℕ → ℕ
divide_byte crc b = shift_bits 8 (bit_xor crc (b * 2 ^ 24))

unfoldable pub divide : List ℕ → ℕ → ℕ
divide [] crc = crc
divide (b ∷ buf) crc = divide buf (divide_byte crc b)

pub shift_bit-lt : (x : ℕ) → x < 2 ^ 32 → shift_bit x < 2 ^ 32
unfolding shift_bit
shift_bit-lt x h = ground (arith, bit_xor-lt 32 (shl32 x 1) poly)

-- The step without its test: the bit that falls out selects the polynomial.
shift_bit_lem : (x : ℕ) → x < 2 ^ 32 → shift_bit x ≡ bit_xor (shl32 x 1) (x / 2 ^ 31 * poly)
unfolding shift_bit
shift_bit_lem x h = elim (Bool-cases (ltb x (2 ^ 31))) [
  | inl low ↦ rw (low, zero_top (ltb→lt _ _ low), bit_xor-zero) (omega (arith, ltb→lt _ _ low))
  | inr high ↦ rw (high, one_top (ltb→le _ _ high))
]
  where
    zero_top : x < 2 ^ 31 → x / 2 ^ 31 ≡ 0
    zero_top p = omega arith

    one_top : 2 ^ 31 ≤ x → x / 2 ^ 31 ≡ 1
    one_top p = omega arith

select-bit_xor : (a b : ℕ) → a < 2 → b < 2 → bit_xor a b * poly ≡ bit_xor (a * poly) (b * poly)
select-bit_xor zero zero p q = refl
select-bit_xor zero (suc zero) p q = refl
select-bit_xor (suc zero) zero p q = refl
select-bit_xor (suc zero) (suc zero) p q = refl
select-bit_xor (suc (suc a)) b p q = absurd (omega arith)
select-bit_xor a (suc (suc b)) p q = absurd (omega arith)

-- The step is linear over `^`.
pub shift_bit-bit_xor :
    (x y : ℕ)
    → x < 2 ^ 32
    → y < 2 ^ 32
    → shift_bit (bit_xor x y) ≡ bit_xor (shift_bit x) (shift_bit y)
shift_bit-bit_xor x y p q =
    shift_bit_lem (bit_xor x y) (bit_xor-lt 32 x y p q)
    ∙ ap₂ bit_xor doubled selected
    ∙ bit_xor_exchange (shl32 x 1) (shl32 y 1) (x / 2 ^ 31 * poly) (y / 2 ^ 31 * poly)
    ∙ sym (ap₂ bit_xor (shift_bit_lem x p) (shift_bit_lem y q))
  where
    doubled : shl32 (bit_xor x y) 1 ≡ bit_xor (shl32 x 1) (shl32 y 1)
    doubled =
        ap (λ (t : ℕ). t % 2 ^ 32) (sym (bit_xor-shl 1 x y))
        ∙ bit_xor-mod 32 (x * 2 ^ 1) (y * 2 ^ 1)

    selected : bit_xor x y / 2 ^ 31 * poly ≡ bit_xor (x / 2 ^ 31 * poly) (y / 2 ^ 31 * poly)
    selected =
        ap (λ (t : ℕ). t * poly) (bit_xor-shr 31 x y)
        ∙ select-bit_xor (x / 2 ^ 31) (y / 2 ^ 31) (omega arith) (omega arith)

pub shift_bits-bit_xor :
    (n x y : ℕ)
    → x < 2 ^ 32
    → y < 2 ^ 32
    → shift_bits n (bit_xor x y) ≡ bit_xor (shift_bits n x) (shift_bits n y)
unfolding shift_bits
shift_bits-bit_xor zero x y p q = refl
shift_bits-bit_xor (suc n) x y p q =
    ap (shift_bits n) (shift_bit-bit_xor x y p q)
    ∙ shift_bits-bit_xor n (shift_bit x) (shift_bit y) (shift_bit-lt x p) (shift_bit-lt y q)

-- Every entry of the table is the division of its index, eight digits long.
table_checked : check_all (λ i. table_entry i == shift_bits 8 (i * 2 ^ 24)) 256 ≡ true
unfolding check_all table_entry shift_bits
table_checked = refl

table_entry_lem : (i : ℕ) → i < 256 → table_entry i ≡ shift_bits 8 (i * 2 ^ 24)
table_entry_lem i h = (==_iff _ _).0 (check_all_lem _ 256 i h table_checked)

shift_bit_low : (x : ℕ) → x < 2 ^ 31 → shift_bit x ≡ x * 2
unfolding shift_bit
shift_bit_low x h = rw (lt→ltb _ _ h)

-- Digits that do not reach the top are only moved.
pub shift_bits_low : (n x : ℕ) → x * 2 ^ n < 2 ^ 32 → shift_bits n x ≡ x * 2 ^ n
unfolding shift_bits
shift_bits_low zero x h = omega arith
shift_bits_low (suc n) x h =
    ap (shift_bits n) (shift_bit_low x (omega (arith, moved, one-le-pow n 2 (omega arith), fits)))
    ∙ shift_bits_low n (x * 2) (omega (arith, moved))
    ∙ sym moved
  where
    moved : x * 2 ^ suc n ≡ x * 2 * 2 ^ n
    moved = rw pow-suc (grind arith)

    fits : x * 2 * 1 ≤ x * 2 * 2 ^ n
    fits = let pos = one-le-pow n 2 (omega arith) in grind arith

-- One look-up divides by eight digits at once.
pub step-divide_byte : (crc b : ℕ) → crc < 2 ^ 32 → b < 256 → step crc b ≡ divide_byte crc b
unfolding step divide_byte
step-divide_byte crc b h k =
    bit_xor_comm (shl32 crc 8) (table_entry top)
    ∙ ap₂ bit_xor (table_entry_lem top top_fits) low_moved
    ∙ sym (shift_bits-bit_xor 8 (top * 2 ^ 24) low (omega (arith, top_fits)) (omega arith))
    ∙ ap (shift_bits 8) (bit_xor_parts 24 top low (omega arith) ∙ whole)
  where
    top : ℕ
    top = bit_xor (shr crc 24) b

    low : ℕ
    low = crc % 2 ^ 24

    top_fits : top < 256
    top_fits = bit_xor-lt 8 (shr crc 24) b (omega arith) k

    low_moved : shl32 crc 8 ≡ shift_bits 8 low
    low_moved =
        let split : shl32 crc 8 ≡ low * 2 ^ 8 = omega arith in
        split ∙ sym (shift_bits_low 8 low (omega arith))

    top_is : top ≡ bit_xor crc (b * 2 ^ 24) / 2 ^ 24
    top_is =
        let alone : b * 2 ^ 24 / 2 ^ 24 ≡ b = omega arith in
        sym (bit_xor-shr 24 crc (b * 2 ^ 24) ∙ ap (bit_xor (shr crc 24)) alone)

    low_is : low ≡ bit_xor crc (b * 2 ^ 24) % 2 ^ 24
    low_is =
        let gone : b * 2 ^ 24 % 2 ^ 24 ≡ 0 = omega arith in
        sym (bit_xor-mod 24 crc (b * 2 ^ 24) ∙ ap (bit_xor low) gone ∙ bit_xor-zero low)

    whole : top * 2 ^ 24 + low ≡ bit_xor crc (b * 2 ^ 24)
    whole =
        ap₂ (λ (hi lo : ℕ). hi * 2 ^ 24 + lo) top_is low_is
        ∙ div-add-mod' (bit_xor crc (b * 2 ^ 24)) (2 ^ 24)
