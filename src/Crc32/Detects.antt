-- ===== src/Crc32/Detects.antt =====
-- Which transmission errors `xcrc32` cannot miss.
use luarunner.Base.{
  ℕ, zero, suc, ◌+◌, ◌*◌, ◌/◌, ◌%◌, ◌^◌, ◌<◌, List, [], ◌∷◌, bit_xor, ◌≡◌, ◌≢◌, sym, ◌∙◌, ap, arith,
  IsBytes, shl32, ◌==◌, if◌then◌else◌,
}
use luarunner.Bits.{bit_xor_cancel, bit_xor_assoc, bit_xor_digit, bit_xor-lt, bit_xor_parts}
use luarunner.Crc32.{xcrc32}
use luarunner.Crc32.Bitwise.{
  poly, shift_bit, shift_bits, divide_byte, divide, shift_bit-lt, shift_bits-bit_xor,
  shift_bits_low,
}
use luarunner.Crc32.Laws.{divide_byte-lt, top_byte_fits, xcrc32-divide}

-- The division step backwards: the polynomial is odd, so the lowest digit tells what fell out.
unshift_bit : ℕ → ℕ
unshift_bit y = if y % 2 == 1 then bit_xor y poly / 2 + 2 ^ 31 else y / 2

unshift-shift : (x : ℕ) → x < 2 ^ 32 → unshift_bit (shift_bit x) ≡ x
unfolding unshift_bit shift_bit
unshift-shift x h = ground (arith, bit_xor_cancel (shl32 x 1) poly, bit_xor_digit (shl32 x 1) poly)

pub shift_bits-injective :
    (n x y : ℕ) → x < 2 ^ 32 → y < 2 ^ 32 → shift_bits n x ≡ shift_bits n y → x ≡ y
unfolding shift_bits
shift_bits-injective zero x y p q e = e
shift_bits-injective (suc n) x y p q e =
    sym (unshift-shift x p)
    ∙ ap unshift_bit
        (shift_bits-injective n (shift_bit x) (shift_bit y) (shift_bit-lt x p) (shift_bit-lt y q) e)
    ∙ unshift-shift y q

bit_xor-injective_left : (x y z : ℕ) → bit_xor x z ≡ bit_xor y z → x ≡ y
bit_xor-injective_left x y z e =
    sym (bit_xor_cancel x z) ∙ ap (λ t. bit_xor t z) e ∙ bit_xor_cancel y z

divide-injective :
    (buf : List ℕ) (x y : ℕ)
    → IsBytes buf
    → x < 2 ^ 32
    → y < 2 ^ 32
    → divide buf x ≡ divide buf y
    → x ≡ y
unfolding divide divide_byte
divide-injective [] x y bytes p q e = e
divide-injective (b ∷ buf) x y bytes p q e = bit_xor-injective_left x y (b * 2 ^ 24) (
    shift_bits-injective 8 _ _ (top_byte_fits x b p bytes.0) (top_byte_fits y b q bytes.0) (
      divide-injective buf _ _ bytes.1 (divide_byte-lt x b p bytes.0) (divide_byte-lt y b q bytes.0)
        e))

pub xcrc32-injective :
    (buf : List ℕ) (x y : ℕ)
    → IsBytes buf
    → x < 2 ^ 32
    → y < 2 ^ 32
    → xcrc32 buf x ≡ xcrc32 buf y
    → x ≡ y
xcrc32-injective buf x y bytes p q e =
    divide-injective buf x y bytes p q
      (sym (xcrc32-divide buf x bytes p).0 ∙ e ∙ (xcrc32-divide buf y bytes q).0)

-- The CRC register never forgets: over the same bytes, different 32-bit starting values lead to
-- different results.
pub xcrc32_distinct :
    (buf : List ℕ) (x y : ℕ)
    → IsBytes buf
    → x < 2 ^ 32
    → y < 2 ^ 32
    → x ≢ y
    → xcrc32 buf x ≢ xcrc32 buf y
xcrc32_distinct buf x y bytes p q differ e = differ (xcrc32-injective buf x y bytes p q e)

shift_bits_twice : (m n k x : ℕ) → m + n ≡ k → shift_bits n (shift_bits m x) ≡ shift_bits k x
unfolding shift_bits
shift_bits_twice zero n k x e = let same : n ≡ k = omega arith in rw same
shift_bits_twice (suc m) n zero x e = absurd (omega arith)
shift_bits_twice (suc m) n (suc k) x e = shift_bits_twice m n k (shift_bit x) (omega arith)

-- A byte that is added after `n` digits were shifted could have been added before, lower down.
add_later :
    (n k x b : ℕ)
    → b * 2 ^ n < 2 ^ 32
    → x < 2 ^ 32
    → b < 2 ^ 32
    → n + 8 ≡ k
    → shift_bits 8 (bit_xor (shift_bits n x) (b * 2 ^ n)) ≡ shift_bits k (bit_xor x b)
add_later n k x b fits p q e =
    ap (shift_bits 8) (ap (bit_xor (shift_bits n x)) (sym (shift_bits_low n b fits)))
    ∙ ap (shift_bits 8) (sym (shift_bits-bit_xor n x b p q))
    ∙ shift_bits_twice n 8 k (bit_xor x b) e

-- Four bytes as one word, highest first.
abbrev pub word4 : ℕ → ℕ → ℕ → ℕ → ℕ
word4 b₀ b₁ b₂ b₃ = b₀ * 2 ^ 24 + b₁ * 2 ^ 16 + b₂ * 2 ^ 8 + b₃

module _ (s b₀ b₁ b₂ b₃ : ℕ) (hs : s < 2 ^ 32) (h₀ : b₀ < 256) (h₁ : b₁ < 256) (h₂ : b₂ < 256)
    (h₃ : b₃ < 256) where
  with₀ : ℕ
  with₀ = bit_xor s (b₀ * 2 ^ 24)

  with₁ : ℕ
  unfolding with₀
  with₁ = bit_xor with₀ (b₁ * 2 ^ 16)

  with₂ : ℕ
  unfolding with₁
  with₂ = bit_xor with₁ (b₂ * 2 ^ 8)

  with₀-lt : with₀ < 2 ^ 32
  unfolding with₀
  with₀-lt = top_byte_fits s b₀ hs h₀

  with₁-lt : with₁ < 2 ^ 32
  unfolding with₁
  with₁-lt = bit_xor-lt 32 with₀ (b₁ * 2 ^ 16) with₀-lt (omega arith)

  with₂-lt : with₂ < 2 ^ 32
  unfolding with₂
  with₂-lt = bit_xor-lt 32 with₁ (b₂ * 2 ^ 8) with₁-lt (omega arith)

  divide_word : divide (b₀ ∷ b₁ ∷ b₂ ∷ b₃ ∷ []) s ≡ shift_bits 32 (bit_xor with₂ b₃)
  unfolding divide divide_byte with₂
  divide_word =
      let later₁ : b₁ * 2 ^ 24 ≡ b₁ * 2 ^ 16 * 2 ^ 8 = omega arith in
      let later₂ : b₂ * 2 ^ 24 ≡ b₂ * 2 ^ 8 * 2 ^ 16 = omega arith in
      ap (λ t. last (middle (shift_bits 8 (bit_xor (shift_bits 8 with₀) t)))) later₁
      ∙ ap (λ t. last (middle t))
          (add_later 8 16 with₀ (b₁ * 2 ^ 16) (omega arith) with₀-lt (omega arith) (omega arith))
      ∙ ap (λ t. last (shift_bits 8 (bit_xor (shift_bits 16 with₁) t))) later₂
      ∙ ap last
          (add_later 16 24 with₁ (b₂ * 2 ^ 8) (omega arith) with₁-lt (omega arith) (omega arith))
      ∙ add_later 24 32 with₂ b₃ (omega arith) with₂-lt (omega arith) (omega arith)
    where
      middle : ℕ → ℕ
      middle t = shift_bits 8 (bit_xor t (b₂ * 2 ^ 24))

      last : ℕ → ℕ
      last t = shift_bits 8 (bit_xor t (b₃ * 2 ^ 24))

  with_word : bit_xor with₂ b₃ ≡ bit_xor s (word4 b₀ b₁ b₂ b₃)
  unfolding with₂
  with_word =
      bit_xor_assoc with₁ (b₂ * 2 ^ 8) b₃
      ∙ ap (bit_xor with₁) (bit_xor_parts 8 b₂ b₃ h₃)
      ∙ bit_xor_assoc with₀ (b₁ * 2 ^ 16) (b₂ * 2 ^ 8 + b₃)
      ∙ ap (bit_xor with₀) (bit_xor_parts 16 b₁ (b₂ * 2 ^ 8 + b₃) (omega arith))
      ∙ bit_xor_assoc s (b₀ * 2 ^ 24) (b₁ * 2 ^ 16 + (b₂ * 2 ^ 8 + b₃))
      ∙ ap (bit_xor s)
          (bit_xor_parts 24 b₀ (b₁ * 2 ^ 16 + (b₂ * 2 ^ 8 + b₃)) (omega arith) ∙ omega arith)

-- Four bytes are divided at once, as one word.
pub divide_four :
    (s b₀ b₁ b₂ b₃ : ℕ)
    → s < 2 ^ 32
    → IsBytes (b₀ ∷ b₁ ∷ b₂ ∷ b₃ ∷ [])
    → divide (b₀ ∷ b₁ ∷ b₂ ∷ b₃ ∷ []) s ≡ shift_bits 32 (bit_xor s (word4 b₀ b₁ b₂ b₃))
divide_four s b₀ b₁ b₂ b₃ hs h =
    divide_word s b₀ b₁ b₂ b₃ hs h.0 h.1.0 h.1.1.0 h.1.1.1.0
    ∙ ap (shift_bits 32) (with_word s b₀ b₁ b₂ b₃ hs h.0 h.1.0 h.1.1.0 h.1.1.1.0)
