-- ===== src/Murmur3/Undo.antt =====
-- The finalizers lose nothing: what undoes them.
use luarunner.Base.{
  ℕ, ◌+◌, ◌*◌, ◌/◌, ◌%◌, ◌^◌, ◌<◌, ◌≤◌, ◌≡◌, refl, sym, ◌∙◌, ap, arith, bit_xor, mul32, mul64, shr,
}
use luarunner.Bits.{bit_xor_cancel, bit_xor_assoc, bit_xor-zero, bit_xor-shr, bit_xor-lt}
use luarunner.Murmur3.Scramble.{xorshift, fmix32, fmix64}
use native.Mathlib.Nat.{div-add-mod, add-mul-mod_self_left, mod-eq_of_lt}

-- Multiplication by `c` is undone by its inverse `d` modulo `m`.
pub undo_mul : (m x c d q : ℕ) → c * d ≡ 1 + m * q → x < m → x * c % m * d % m ≡ x
undo_mul m x c d q e h =
    sym (add-mul-mod_self_left (x * c % m * d) m (x * c / m * d))
    ∙ ap (λ (t : ℕ). t % m) whole
    ∙ add-mul-mod_self_left x m (x * q)
    ∙ mod-eq_of_lt h
  where
    whole : x * c % m * d + m * (x * c / m * d) ≡ x + m * (x * q)
    whole = omega (arith, ap (λ (t : ℕ). t * d) (div-add-mod (x * c) m), ap (λ (t : ℕ). x * t) e)

-- A shift by at least half the width undoes itself, and one by at least a third needs the
-- second shift as well.
unxorshift : ℕ → ℕ → ℕ
unxorshift r h = bit_xor (xorshift r h) (shr (shr h r) r)

module _ (r h : ℕ) where
  shr_once : shr (xorshift r h) r ≡ bit_xor (shr h r) (shr (shr h r) r)
  shr_once = bit_xor-shr r h (shr h r)

  undo_xorshift : shr (shr h r) r ≡ 0 → xorshift r (xorshift r h) ≡ h
  undo_xorshift e =
      ap (bit_xor (xorshift r h)) (shr_once ∙ ap (bit_xor (shr h r)) e ∙ bit_xor-zero (shr h r))
      ∙ bit_xor_cancel h (shr h r)

  undo_xorshift_twice : shr (shr (shr h r) r) r ≡ 0 → unxorshift r (xorshift r h) ≡ h
  unfolding unxorshift
  undo_xorshift_twice e =
      let s₁ : ℕ = shr h r in
      let s₂ : ℕ = shr s₁ r in
      let second : shr (bit_xor s₁ s₂) r ≡ s₂ =
        bit_xor-shr r s₁ s₂ ∙ ap (bit_xor s₂) e ∙ bit_xor-zero s₂ in
      rw (shr_once, second)
        (ap (λ t. bit_xor t s₂)
            (sym (bit_xor_assoc (xorshift r h) s₁ s₂)
              ∙ ap (λ t. bit_xor t s₂) (bit_xor_cancel h s₁))
          ∙ bit_xor_cancel h s₂)

  xorshift-lt : (w : ℕ) → shr h r ≤ h → h < 2 ^ w → xorshift r h < 2 ^ w
  xorshift-lt w p q = bit_xor-lt w h (shr h r) q (omega arith)

unfoldable pub unfmix32 : ℕ → ℕ
unfolding unxorshift
unfmix32 h = xorshift 16 (mul32 (unxorshift 13 (mul32 (xorshift 16 h) 0x7ed1b41d)) 0xa5cb9243)

-- The finalizer of the 32-bit hashes loses nothing: any 32-bit word can be had back from what it
-- makes of it.
pub unfmix32-fmix32 : (h : ℕ) → h < 2 ^ 32 → unfmix32 (fmix32 h) ≡ h
unfolding unfmix32 fmix32
unfmix32-fmix32 h below =
    let a : ℕ = xorshift 16 h in
    let b : ℕ = mul32 a 0x85ebca6b in
    let c : ℕ = xorshift 13 b in
    let d : ℕ = mul32 c 0xc2b2ae35 in
    ap (λ t. xorshift 16 (mul32 (unxorshift 13 (mul32 t 0x7ed1b41d)) 0xa5cb9243))
      (undo_xorshift 16 d (omega arith))
    ∙ ap (λ t. xorshift 16 (mul32 (unxorshift 13 t) 0xa5cb9243))
        (undo_mul (2 ^ 32) c 0xc2b2ae35 0x7ed1b41d 0x60736e9a refl
          (xorshift-lt 13 b 32 (omega arith) (omega arith)))
    ∙ ap (λ t. xorshift 16 (mul32 t 0xa5cb9243)) (undo_xorshift_twice 13 b (omega arith))
    ∙ ap (xorshift 16) (
        undo_mul (2 ^ 32) a 0x85ebca6b 0xa5cb9243 0x56bb77f4 refl
          (xorshift-lt 16 h 32 (omega arith) below))
    ∙ undo_xorshift 16 h (omega arith)

unfoldable pub unfmix64 : ℕ → ℕ
unfmix64 k =
    xorshift 33 (mul64 (xorshift 33 (mul64 (xorshift 33 k) 0x9cb4b2f8129337db)) 0x4f74430c22a54005)

-- The finalizer of the 64-bit hash loses nothing: any 64-bit word can be had back from what it
-- makes of it.
pub unfmix64-fmix64 : (k : ℕ) → k < 2 ^ 64 → unfmix64 (fmix64 k) ≡ k
unfolding unfmix64 fmix64
unfmix64-fmix64 k below =
    let a : ℕ = xorshift 33 k in
    let b : ℕ = mul64 a 0xff51afd7ed558ccd in
    let c : ℕ = xorshift 33 b in
    let d : ℕ = mul64 c 0xc4ceb9fe1a85ec53 in
    ap (λ t. xorshift 33 (mul64 (xorshift 33 (mul64 t 0x9cb4b2f8129337db)) 0x4f74430c22a54005))
      (undo_xorshift 33 d (omega arith))
    ∙ ap (λ t. xorshift 33 (mul64 (xorshift 33 t) 0x4f74430c22a54005))
        (undo_mul (2 ^ 64) c 0xc4ceb9fe1a85ec53 0x9cb4b2f8129337db 0x7878e44812b2d581 refl
          (xorshift-lt 33 b 64 (omega arith) (omega arith)))
    ∙ ap (λ t. xorshift 33 (mul64 t 0x4f74430c22a54005)) (undo_xorshift 33 b (omega arith))
    ∙ ap (xorshift 33) (
        undo_mul (2 ^ 64) a 0xff51afd7ed558ccd 0x4f74430c22a54005 0x4f3e2925cb7c5b4e refl
          (xorshift-lt 33 k 64 (omega arith) below))
    ∙ undo_xorshift 33 k (omega arith)
