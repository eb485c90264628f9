-- ===== src/Cjson/Encoding.antt =====
-- `codepoint_to_utf8` writes what UTF-8 prescribes.
use luarunner.Base.{
  ℕ, ◌+◌, ◌-◌, ◌*◌, ◌/◌, ◌%◌, ◌≤◌, ◌<◌, ◌≡◌, refl, ◌∙◌, ap, arith, true, false, Bool, ◌&&◌, Option,
  none, some, List, [], ◌∷◌, leb, ◌==◌, ==_iff, if◌then◌else◌, bit_and, bit_or, check_all,
  check_all_lem, IsBytes,
}
use luarunner.Bits.{bit_and_ones}
use native.Mathlib.Decide.{dec_lt}
use luarunner.Cjson.Utf8.{codepoint_to_utf8}

abbrev within : ℕ → ℕ → ℕ → Bool
within lo hi b = leb lo b && leb b hi

-- The number that a UTF-8 sequence stands for: by its length, with the prefix of each byte checked,
-- and only if no shorter sequence would do. This is the layout of RFC 3629, without its limits:
-- surrogates are taken, and so is what four bytes hold above 0x10FFFF, up to 0x1FFFFF.
unfoldable pub utf8_value : List ℕ → Option ℕ
utf8_value (a ∷ []) = if within 0 0x7F a then some a else none
utf8_value (a ∷ b ∷ []) =
    let value = (a - 0xC0) * 64 + (b - 0x80) in
    if within 0xC0 0xDF a && within 0x80 0xBF b && leb 0x80 value then some value else none
utf8_value (a ∷ b ∷ c ∷ []) =
    let value = (a - 0xE0) * 4096 + (b - 0x80) * 64 + (c - 0x80) in
    if within 0xE0 0xEF a && (within 0x80 0xBF b && within 0x80 0xBF c) && leb 0x800 value
    then some value
    else none
utf8_value (a ∷ b ∷ c ∷ d ∷ []) =
    let value = (a - 0xF0) * 262144 + (b - 0x80) * 4096 + (c - 0x80) * 64 + (d - 0x80) in
    if within 0xF0 0xF7 a
      && (within 0x80 0xBF b && (within 0x80 0xBF c && within 0x80 0xBF d))
      && leb 0x10000 value
    then some value
    else none
utf8_value _ = none

-- `|` with a prefix that lies above all digits of `x`.
prefixes :
    (check_all (λ x. bit_or x 0x80 == x + 0x80) 64 ≡ true)
    × (check_all (λ x. bit_or x 0xC0 == x + 0xC0) 32 ≡ true)
    × (check_all (λ x. bit_or x 0xE0 == x + 0xE0) 16 ≡ true)
    × (check_all (λ x. bit_or x 0xF0 == x + 0xF0) 8 ≡ true)
unfolding check_all
prefixes = (refl, refl, refl, refl)

continuation : (x : ℕ) → bit_or (bit_and x 0x3F) 0x80 ≡ x % 64 + 0x80
continuation x =
    ap (λ t. bit_or t 0x80) (bit_and_ones 6 x 0x3F refl)
    ∙ (==_iff _ _).0 (check_all_lem _ 64 (x % 64) (omega arith) prefixes.0)

two_lead : (x : ℕ) → x < 32 → bit_or x 0xC0 ≡ x + 0xC0
two_lead x h = (==_iff _ _).0 (check_all_lem _ 32 x h prefixes.1)

three_lead : (x : ℕ) → x < 16 → bit_or x 0xE0 ≡ x + 0xE0
three_lead x h = (==_iff _ _).0 (check_all_lem _ 16 x h prefixes.2)

four_lead : (x : ℕ) → x < 8 → bit_or x 0xF0 ≡ x + 0xF0
four_lead x h = (==_iff _ _).0 (check_all_lem _ 8 x h prefixes.3)

-- The sequences by their length, as sums.
module _ (cp : ℕ) where
  two_bytes :
      0x7F < cp → cp ≤ 0x7FF → codepoint_to_utf8 cp ≡ (cp / 64 + 0xC0) ∷ (cp % 64 + 0x80) ∷ []
  unfolding codepoint_to_utf8
  two_bytes p q =
      let long : leb cp 0x7F ≡ false = ground arith in
      let short : leb cp 0x7FF ≡ true = ground arith in
      rw (long, short) (cc (two_lead (cp / 64) (omega arith), continuation cp))

  three_bytes :
      0x7FF < cp
      → cp ≤ 0xFFFF
      → codepoint_to_utf8 cp ≡ (cp / 4096 + 0xE0) ∷ (cp / 64 % 64 + 0x80) ∷ (cp % 64 + 0x80) ∷ []
  unfolding codepoint_to_utf8
  three_bytes p q =
      let long : leb cp 0x7F ≡ false = ground arith in
      let longer : leb cp 0x7FF ≡ false = ground arith in
      let short : leb cp 0xFFFF ≡ true = ground arith in
      rw (long, longer, short)
        (cc (three_lead (cp / 4096) (omega arith), continuation (cp / 64), continuation cp))

  four_bytes :
      0xFFFF < cp
      → cp ≤ 0x1FFFFF
      → codepoint_to_utf8 cp
        ≡ (cp / 262144 + 0xF0)
          ∷ (cp / 4096 % 64 + 0x80)
          ∷ (cp / 64 % 64 + 0x80)
          ∷ (cp % 64 + 0x80)
          ∷ []
  unfolding codepoint_to_utf8
  four_bytes p q =
      let long : leb cp 0x7F ≡ false = ground arith in
      let longer : leb cp 0x7FF ≡ false = ground arith in
      let longest : leb cp 0xFFFF ≡ false = ground arith in
      let short : leb cp 0x1FFFFF ≡ true = ground arith in
      rw (long, longer, longest, short)
        (cc (
          four_lead (cp / 262144) (omega arith),
          continuation (cp / 4096),
          continuation (cp / 64),
          continuation cp,
        ))

-- Every code point up to 0x1FFFFF is written as a sequence of bytes which is its own shortest
-- UTF-8 form.
pub utf8_value-codepoint_to_utf8 :
    (cp : ℕ)
    → cp ≤ 0x1FFFFF
    → (utf8_value (codepoint_to_utf8 cp) ≡ some cp) × IsBytes (codepoint_to_utf8 cp)
utf8_value-codepoint_to_utf8 cp top = elim (dec_lt 0x7F cp) [
  | no one ↦
      let single : codepoint_to_utf8 cp ≡ cp ∷ [] = unfold codepoint_to_utf8 in ground arith in
      rw single (unfold utf8_value in ground arith, omega arith)
  | yes p ↦ elim (dec_lt 0x7FF cp) [
    | no two ↦ rw (two_bytes cp p (omega arith)) (unfold utf8_value in ground arith, omega arith)
    | yes q ↦ elim (dec_lt 0xFFFF cp) [
      | no three ↦
          rw (three_bytes cp q (omega arith)) (unfold utf8_value in ground arith, omega arith)
      | yes r ↦ rw (four_bytes cp r top) (unfold utf8_value in ground arith, omega arith)
    ]
  ]
]
