-- ===== src/Crc32/Burst.antt =====
-- Errors that stay within four neighbouring bytes.
use luarunner.Base.{
  ℕ, ◌^◌, ◌<◌, List, [], ◌∷◌, ◌++◌, bit_xor, ◌≡◌, ◌≢◌, sym, ◌∙◌, ap, arith, IsBytes,
}
use luarunner.Bits.{bit_xor_cancel, bit_xor_comm, bit_xor-lt}
use luarunner.Crc32.{xcrc32}
use luarunner.Crc32.Bitwise.{shift_bits}
use luarunner.Crc32.Laws.{xcrc32-divide, xcrc32-append}
use luarunner.Crc32.Detects.{word4, divide_four, shift_bits-injective, xcrc32-injective}

word4-lt : (a b c d : ℕ) → IsBytes (a ∷ b ∷ c ∷ d ∷ []) → word4 a b c d < 2 ^ 32
word4-lt a b c d h = omega arith

word4-injective :
    (a₀ a₁ a₂ a₃ b₀ b₁ b₂ b₃ : ℕ)
    → IsBytes (a₀ ∷ a₁ ∷ a₂ ∷ a₃ ∷ [])
    → IsBytes (b₀ ∷ b₁ ∷ b₂ ∷ b₃ ∷ [])
    → word4 a₀ a₁ a₂ a₃ ≡ word4 b₀ b₁ b₂ b₃
    → a₀ ∷ a₁ ∷ a₂ ∷ a₃ ∷ [] ≡ b₀ ∷ b₁ ∷ b₂ ∷ b₃ ∷ []
word4-injective a₀ a₁ a₂ a₃ b₀ b₁ b₂ b₃ h k e = ground arith

bit_xor-injective_right : (s x y : ℕ) → bit_xor s x ≡ bit_xor s y → x ≡ y
bit_xor-injective_right s x y e =
    sym (bit_xor_cancel x s)
    ∙ ap (λ t. bit_xor t s) (bit_xor_comm x s ∙ e ∙ bit_xor_comm s y)
    ∙ bit_xor_cancel y s

-- Four bytes in the middle of a message are determined by its CRC and the bytes around them.
middle_determined :
    (before after : List ℕ) (a₀ a₁ a₂ a₃ b₀ b₁ b₂ b₃ init : ℕ)
    → IsBytes before
    → IsBytes after
    → IsBytes (a₀ ∷ a₁ ∷ a₂ ∷ a₃ ∷ [])
    → IsBytes (b₀ ∷ b₁ ∷ b₂ ∷ b₃ ∷ [])
    → init < 2 ^ 32
    → xcrc32 (before ++ ((a₀ ∷ a₁ ∷ a₂ ∷ a₃ ∷ []) ++ after)) init
      ≡ xcrc32 (before ++ ((b₀ ∷ b₁ ∷ b₂ ∷ b₃ ∷ []) ++ after)) init
    → a₀ ∷ a₁ ∷ a₂ ∷ a₃ ∷ [] ≡ b₀ ∷ b₁ ∷ b₂ ∷ b₃ ∷ []
middle_determined before after a₀ a₁ a₂ a₃ b₀ b₁ b₂ b₃ init hb ha h k hi e =
    word4-injective a₀ a₁ a₂ a₃ b₀ b₁ b₂ b₃ h k (
      bit_xor-injective_right s _ _ (
        shift_bits-injective 32 _ _ (bit_xor-lt 32 s _ s-lt (word4-lt a₀ a₁ a₂ a₃ h))
          (bit_xor-lt 32 s _ s-lt (word4-lt b₀ b₁ b₂ b₃ k))
          (sym (divided a₀ a₁ a₂ a₃ h) ∙ same_middle ∙ divided b₀ b₁ b₂ b₃ k)))
  where
    s : ℕ
    s = xcrc32 before init

    s-lt : s < 2 ^ 32
    s-lt = (xcrc32-divide before init hb hi).1

    divided :
        (x y z w : ℕ)
        → IsBytes (x ∷ y ∷ z ∷ w ∷ [])
        → xcrc32 (x ∷ y ∷ z ∷ w ∷ []) s ≡ shift_bits 32 (bit_xor s (word4 x y z w))
    divided x y z w bytes =
        (xcrc32-divide (x ∷ y ∷ z ∷ w ∷ []) s bytes s-lt).0 ∙ divide_four s x y z w s-lt bytes

    pieces : (m : List ℕ) → xcrc32 (before ++ (m ++ after)) init ≡ xcrc32 after (xcrc32 m s)
    pieces m = xcrc32-append before (m ++ after) init ∙ xcrc32-append m after s

    same_middle : xcrc32 (a₀ ∷ a₁ ∷ a₂ ∷ a₃ ∷ []) s ≡ xcrc32 (b₀ ∷ b₁ ∷ b₂ ∷ b₃ ∷ []) s
    same_middle =
        xcrc32-injective after _ _ ha (xcrc32-divide (a₀ ∷ a₁ ∷ a₂ ∷ a₃ ∷ []) s h s-lt).1
          (xcrc32-divide (b₀ ∷ b₁ ∷ b₂ ∷ b₃ ∷ []) s k s-lt).1
          (sym (pieces (a₀ ∷ a₁ ∷ a₂ ∷ a₃ ∷ [])) ∙ e ∙ pieces (b₀ ∷ b₁ ∷ b₂ ∷ b₃ ∷ []))

-- Any change of four neighbouring bytes of a message, or of some of them, changes its CRC,
-- whatever bytes stand around them and from whatever 32-bit starting value.
pub xcrc32_burst :
    (before after : List ℕ) (a₀ a₁ a₂ a₃ b₀ b₁ b₂ b₃ init : ℕ)
    → IsBytes before
    → IsBytes after
    → IsBytes (a₀ ∷ a₁ ∷ a₂ ∷ a₃ ∷ [])
    → IsBytes (b₀ ∷ b₁ ∷ b₂ ∷ b₃ ∷ [])
    → init < 2 ^ 32
    → (a₀ ∷ a₁ ∷ a₂ ∷ a₃ ∷ []) ≢ (b₀ ∷ b₁ ∷ b₂ ∷ b₃ ∷ [])
    → xcrc32 (before ++ ((a₀ ∷ a₁ ∷ a₂ ∷ a₃ ∷ []) ++ after)) init
      ≢ xcrc32 (before ++ ((b₀ ∷ b₁ ∷ b₂ ∷ b₃ ∷ []) ++ after)) init
xcrc32_burst before after a₀ a₁ a₂ a₃ b₀ b₁ b₂ b₃ init hb ha h k hi differ e =
    differ (middle_determined before after a₀ a₁ a₂ a₃ b₀ b₁ b₂ b₃ init hb ha h k hi e)
