-- ===== src/Murmur3/Short.antt =====
-- MurmurHash3_x86_32 on keys of four bytes, such as the numbers of 32 bits: no two collide.
use luarunner.Base.{
  ℕ, ◌-◌, ◌^◌, ◌<◌, ◌≡◌, ◌≢◌, refl, sym, ◌∙◌, ap, arith, [], ◌∷◌, IsBytes, bit_xor, sub32, mul32,
  sub32-add32,
}
use luarunner.Bits.{bit_xor_cancel, bit_xor_comm, bit_xor-lt, rotl, rotl_full, rotl-lt}
use luarunner.HashFn.{Endian, little, big, load}
use luarunner.Murmur3.{body32, blocks32, tail32, murmur_x86_32}
use luarunner.Murmur3.Scramble.{rotl32, scramble32, fmix32}
use luarunner.Murmur3.Undo.{undo_mul, unfmix32, unfmix32-fmix32}

rotl32-lt : (x r : ℕ) → r < 32 → x < 2 ^ 32 → rotl32 x r < 2 ^ 32
unfolding rotl32 rotl
rotl32-lt x r h p = rotl-lt 32 x r (32 - r) (omega arith) p

rotl32-rotl32 : (x r : ℕ) → r < 32 → x < 2 ^ 32 → rotl32 (rotl32 x r) (32 - r) ≡ x
unfolding rotl32 rotl
rotl32-rotl32 x r h p = rotl_full 32 x r (32 - r) (omega arith) p

unscramble : ℕ → ℕ
unscramble k = mul32 (rotl32 (mul32 k 0x56ed309b) 17) 0xdee13bb1

unscramble-scramble32 :
    (k : ℕ) → k < 2 ^ 32 → unscramble (scramble32 0xcc9e2d51 0x1b873593 15 k) ≡ k
unfolding unscramble scramble32
unscramble-scramble32 k h =
    let m : ℕ = mul32 k 0xcc9e2d51 in
    ap (λ t. mul32 (rotl32 t 17) 0xdee13bb1)
      (undo_mul (2 ^ 32) (rotl32 m 15) 0x1b873593 0x56ed309b 0x958ed66 refl
        (rotl32-lt m 15 (omega arith) (omega arith)))
    ∙ ap (λ t. mul32 t 0xdee13bb1) (rotl32-rotl32 m 15 (omega arith) (omega arith))
    ∙ undo_mul (2 ^ 32) k 0xcc9e2d51 0xdee13bb1 0xb2253208 refl h

scramble32-lt : (c d r k : ℕ) → scramble32 c d r k < 2 ^ 32
unfolding scramble32
scramble32-lt c d r k = omega arith

-- What undoes the loop's body for a known `h1`.
unbody32 : ℕ → ℕ → ℕ
unbody32 h1 x = unscramble (bit_xor (rotl32 (mul32 (sub32 x 0xe6546b64) 0xcccccccd) 19) h1)

unbody32-body32 : (h1 k : ℕ) → h1 < 2 ^ 32 → k < 2 ^ 32 → unbody32 h1 (body32 h1 k) ≡ k
unfolding unbody32 body32
unbody32-body32 h1 k p q =
    let s : ℕ = scramble32 0xcc9e2d51 0x1b873593 15 k in
    let x : ℕ = bit_xor h1 s in
    let x-lt = bit_xor-lt 32 h1 s p (scramble32-lt _ _ 15 k) in
    let y : ℕ = rotl32 x 13 in
    ap (λ t. unscramble (bit_xor (rotl32 (mul32 t 0xcccccccd) 19) h1))
      (sub32-add32 (mul32 y 5) 0xe6546b64 (omega arith) (omega arith))
    ∙ ap (λ t. unscramble (bit_xor (rotl32 t 19) h1))
        (undo_mul (2 ^ 32) y 5 0xcccccccd 0x4 refl (rotl32-lt x 13 (omega arith) x-lt))
    ∙ ap (λ t. unscramble (bit_xor t h1)) (rotl32-rotl32 x 13 (omega arith) x-lt)
    ∙ ap unscramble (ap (λ t. bit_xor t h1) (bit_xor_comm h1 s) ∙ bit_xor_cancel s h1)
    ∙ unscramble-scramble32 k q

body32-lt : (h1 k : ℕ) → body32 h1 k < 2 ^ 32
unfolding body32
body32-lt h1 k = omega arith

word-lt :
    (e : Endian) (a b c d : ℕ)
    → IsBytes (a ∷ b ∷ c ∷ d ∷ [])
    → load e (a ∷ b ∷ c ∷ d ∷ []) 0 < 2 ^ 32
unfolding load
word-lt little a b c d h = omega arith
word-lt big a b c d h = omega arith

module _ (e : Endian) (a b c d : ℕ) (h : IsBytes (a ∷ b ∷ c ∷ d ∷ [])) where
  one_block :
      (seed : ℕ)
      → murmur_x86_32 e (a ∷ b ∷ c ∷ d ∷ []) seed
        ≡ fmix32 (bit_xor (body32 seed (load e (a ∷ b ∷ c ∷ d ∷ []) 0)) 4)
  unfolding murmur_x86_32 blocks32 tail32
  one_block seed = refl

  recovered :
      (seed : ℕ)
      → seed < 2 ^ 32
      → unbody32 seed (bit_xor (unfmix32 (murmur_x86_32 e (a ∷ b ∷ c ∷ d ∷ []) seed)) 4)
        ≡ load e (a ∷ b ∷ c ∷ d ∷ []) 0
  recovered seed p =
      let k : ℕ = load e (a ∷ b ∷ c ∷ d ∷ []) 0 in
      let x : ℕ = body32 seed k in
      ap (λ t. unbody32 seed (bit_xor (unfmix32 t) 4)) (one_block seed)
      ∙ ap (λ t. unbody32 seed (bit_xor t 4))
          (unfmix32-fmix32 (bit_xor x 4) (bit_xor-lt 32 x 4 (body32-lt seed k) (omega arith)))
      ∙ ap (unbody32 seed) (bit_xor_cancel x 4)
      ∙ unbody32-body32 seed k p (word-lt e a b c d h)

load-injective :
    (e : Endian) (a₀ a₁ a₂ a₃ b₀ b₁ b₂ b₃ : ℕ)
    → IsBytes (a₀ ∷ a₁ ∷ a₂ ∷ a₃ ∷ [])
    → IsBytes (b₀ ∷ b₁ ∷ b₂ ∷ b₃ ∷ [])
    → load e (a₀ ∷ a₁ ∷ a₂ ∷ a₃ ∷ []) 0 ≡ load e (b₀ ∷ b₁ ∷ b₂ ∷ b₃ ∷ []) 0
    → a₀ ∷ a₁ ∷ a₂ ∷ a₃ ∷ [] ≡ b₀ ∷ b₁ ∷ b₂ ∷ b₃ ∷ []
unfolding load
load-injective little a₀ a₁ a₂ a₃ b₀ b₁ b₂ b₃ h k same = ground arith
load-injective big a₀ a₁ a₂ a₃ b₀ b₁ b₂ b₃ h k same = ground arith

-- With the same 32-bit seed, different keys of four bytes have different 32-bit hashes, on
-- machines of either byte order.
pub murmur_x86_32_distinct :
    (e : Endian) (a₀ a₁ a₂ a₃ b₀ b₁ b₂ b₃ seed : ℕ)
    → IsBytes (a₀ ∷ a₁ ∷ a₂ ∷ a₃ ∷ [])
    → IsBytes (b₀ ∷ b₁ ∷ b₂ ∷ b₃ ∷ [])
    → seed < 2 ^ 32
    → (a₀ ∷ a₁ ∷ a₂ ∷ a₃ ∷ []) ≢ (b₀ ∷ b₁ ∷ b₂ ∷ b₃ ∷ [])
    → murmur_x86_32 e (a₀ ∷ a₁ ∷ a₂ ∷ a₃ ∷ []) seed ≢ murmur_x86_32 e (b₀ ∷ b₁ ∷ b₂ ∷ b₃ ∷ []) seed
murmur_x86_32_distinct e a₀ a₁ a₂ a₃ b₀ b₁ b₂ b₃ seed h k p differ same = differ (
    load-injective e a₀ a₁ a₂ a₃ b₀ b₁ b₂ b₃ h k (
      sym (recovered e a₀ a₁ a₂ a₃ h seed p)
      ∙ ap (λ t. unbody32 seed (bit_xor (unfmix32 t) 4)) same
      ∙ recovered e b₀ b₁ b₂ b₃ k seed p))
