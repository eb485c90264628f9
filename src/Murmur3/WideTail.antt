-- ===== src/Murmur3/WideTail.antt =====
-- The switch over the last bytes in MurmurHash3_x64_128 against a block that is filled up with
-- zeros, whose two words are read as little-endian numbers.
use luarunner.Base.{
  ℕ, ◌+◌, ◌*◌, ◌^◌, ◌<◌, ◌≡◌, refl, sym, ◌∙◌, ap, arith, List, [], ◌∷◌, length, get_or, IsBytes,
  get_or-IsByte, leb, Bool-cases, inl, inr, if◌then◌else◌, bit_xor, shl64, mul64,
}
use luarunner.Bits.{bit_xor-zero, bit_xor_comm}
use luarunner.HashFn.{little, load}
use luarunner.Murmur3.{
  Pair, xor_case, byte64, load64, seven_bytes64, tail_pair, mix_first, mix_second,
}
use luarunner.Murmur3.Scramble.{rotl64, scramble64}
use luarunner.Murmur3.Tail.{get_or_past, disjoint, load_past}
use native.Mathlib.Nat.{zero-mul, zero-div}

fall64 :
    (tail : List ℕ) (m i s acc : ℕ)
    → m ≡ i + 1
    → xor_case m (length tail) (byte64 tail i s) acc ≡ bit_xor acc (byte64 tail i s)
fall64 tail m i s acc e = elim (Bool-cases (leb m (length tail))) [
  | inl reached ↦ rw reached
  | inr missed ↦
      let nothing : byte64 tail i s ≡ 0 =
        ap (λ (t : ℕ). shl64 t s) (get_or_past tail i (ground (arith, missed, e))) ∙ omega arith in
      rw (missed, nothing) (sym (bit_xor-zero acc))
]

module _ (b₀ b₁ b₂ b₃ b₄ b₅ b₆ b₇ : ℕ)
    (h : IsBytes (b₀ ∷ b₁ ∷ b₂ ∷ b₃ ∷ b₄ ∷ b₅ ∷ b₆ ∷ b₇ ∷ [])) where
  upper : ℕ
  upper = shl64 b₇ 56 + shl64 b₆ 48 + shl64 b₅ 40 + shl64 b₄ 32

  upper_parts :
      bit_xor
        (bit_xor (bit_xor (bit_xor 0 (shl64 b₇ 56)) (shl64 b₆ 48)) (shl64 b₅ 40))
        (shl64 b₄ 32)
      ≡ upper
  unfolding upper
  upper_parts =
      let x₁ : ℕ = shl64 b₇ 56 in
      let x₂ : ℕ = x₁ + shl64 b₆ 48 in
      let x₃ : ℕ = x₂ + shl64 b₅ 40 in
      rw
        (
          bit_xor_comm 0 x₁ ∙ bit_xor-zero x₁,
          disjoint 56 x₁ b₇ (shl64 b₆ 48) (omega arith) (omega arith),
          disjoint 48 x₂ (b₇ * 256 + b₆) (shl64 b₅ 40) (omega arith) (omega arith),
        )
        (disjoint 40 x₃ (b₇ * 65536 + b₆ * 256 + b₅) (shl64 b₄ 32) (omega arith) (omega arith))

  eight_parts :
      bit_xor
        (bit_xor (bit_xor (bit_xor upper (shl64 b₃ 24)) (shl64 b₂ 16)) (shl64 b₁ 8))
        (shl64 b₀ 0)
      ≡ b₀
        + 2 ^ 8 * b₁
        + 2 ^ 16 * b₂
        + 2 ^ 24 * b₃
        + 2 ^ 32 * (b₄ + 2 ^ 8 * b₅ + 2 ^ 16 * b₆ + 2 ^ 24 * b₇)
  unfolding upper
  eight_parts =
      let v : ℕ = b₄ + 2 ^ 8 * b₅ + 2 ^ 16 * b₆ + 2 ^ 24 * b₇ in
      let x₁ : ℕ = upper + shl64 b₃ 24 in
      let x₂ : ℕ = x₁ + shl64 b₂ 16 in
      let x₃ : ℕ = x₂ + shl64 b₁ 8 in
      rw
        (
          disjoint 32 upper v (shl64 b₃ 24) (omega arith) (omega arith),
          disjoint 24 x₁ (v * 256 + b₃) (shl64 b₂ 16) (omega arith) (omega arith),
          disjoint 16 x₂ (v * 65536 + b₃ * 256 + b₂) (shl64 b₁ 8) (omega arith) (omega arith),
          disjoint 8 x₃ (v * 16777216 + b₃ * 65536 + b₂ * 256 + b₁) (shl64 b₀ 0) (omega arith)
              (omega arith),
        )
        (omega arith)

-- The eight bytes of a tail from `i` on, as the cases of the switch gather them.
module _ (tail : List ℕ) (h : IsBytes tail) where
  byte : (i : ℕ) → get_or tail i 0 < 256
  byte i = get_or-IsByte tail i h

  first-load :
      seven_bytes64 (length tail) tail 0 (xor_case 8 (length tail) (byte64 tail 7 56) 0)
      ≡ load64 little tail 0
  unfolding load
  first-load =
      rw
        (
          fall64 tail 8 7 56 0 refl,
          fall64 tail 7 6 48 _ refl,
          fall64 tail 6 5 40 _ refl,
          fall64 tail 5 4 32 _ refl,
          fall64 tail 4 3 24 _ refl,
          fall64 tail 3 2 16 _ refl,
          fall64 tail 2 1 8 _ refl,
          fall64 tail 1 0 0 _ refl,
        )
        (ap
            (λ (t : ℕ).
              bit_xor
                (bit_xor (bit_xor (bit_xor t (byte64 tail 3 24)) (byte64 tail 2 16))
                  (byte64 tail 1 8))
                (byte64 tail 0 0))
            (upper_parts (get_or tail 0 0) (get_or tail 1 0) (get_or tail 2 0) (get_or tail 3 0)
              (get_or tail 4 0) (get_or tail 5 0) (get_or tail 6 0) (get_or tail 7 0)
              (byte 0, (byte 1, (byte 2, (byte 3, (byte 4, (byte 5, (byte 6, (byte 7, tt)))))))))
          ∙ eight_parts (get_or tail 0 0) (get_or tail 1 0) (get_or tail 2 0) (get_or tail 3 0)
              (get_or tail 4 0) (get_or tail 5 0) (get_or tail 6 0) (get_or tail 7 0)
              (byte 0, (byte 1, (byte 2, (byte 3, (byte 4, (byte 5, (byte 6, (byte 7, tt)))))))))

  second-load : length tail < 16 → seven_bytes64 (length tail) tail 8 0 ≡ load64 little tail 1
  unfolding load
  second-load short =
      let top : 0 ≡ bit_xor 0 (byte64 tail 15 56) =
        ap (λ (t : ℕ). bit_xor 0 (shl64 t 56)) (sym (get_or_past tail 15 (omega arith))) in
      rw
        (
          fall64 tail 15 14 48 0 refl,
          fall64 tail 14 13 40 _ refl,
          fall64 tail 13 12 32 _ refl,
          fall64 tail 12 11 24 _ refl,
          fall64 tail 11 10 16 _ refl,
          fall64 tail 10 9 8 _ refl,
          fall64 tail 9 8 0 _ refl,
        )
        (ap
            (λ (t : ℕ).
              bit_xor
                (bit_xor
                  (bit_xor
                    (bit_xor
                      (bit_xor (bit_xor (bit_xor t (byte64 tail 14 48)) (byte64 tail 13 40))
                        (byte64 tail 12 32))
                      (byte64 tail 11 24))
                    (byte64 tail 10 16))
                  (byte64 tail 9 8))
                (byte64 tail 8 0))
            top
          ∙ ap
              (λ (t : ℕ).
                bit_xor
                  (bit_xor (bit_xor (bit_xor t (byte64 tail 11 24)) (byte64 tail 10 16))
                    (byte64 tail 9 8))
                  (byte64 tail 8 0))
              (upper_parts (get_or tail 8 0) (get_or tail 9 0) (get_or tail 10 0) (get_or tail 11 0)
                (get_or tail 12 0) (get_or tail 13 0) (get_or tail 14 0) (get_or tail 15 0)
                (
                  byte 8,
                  (byte 9, (byte 10, (byte 11, (byte 12, (byte 13, (byte 14, (byte 15, tt))))))),
                ))
          ∙ eight_parts (get_or tail 8 0) (get_or tail 9 0) (get_or tail 10 0) (get_or tail 11 0)
              (get_or tail 12 0) (get_or tail 13 0) (get_or tail 14 0) (get_or tail 15 0)
              (
                byte 8,
                (byte 9, (byte 10, (byte 11, (byte 12, (byte 13, (byte 14, (byte 15, tt))))))),
              ))

scramble64-zero : (c d r : ℕ) → scramble64 c d r 0 ≡ 0
unfolding scramble64 rotl64
scramble64-zero c d r =
    let start : mul64 0 c ≡ 0 = omega arith in
    let high : shl64 0 r ≡ 0 = rw zero-mul refl in rw (start, high, zero-div) (omega arith)

guarded64 :
    (c d r m n h k : ℕ)
    → (n < m → k ≡ 0)
    → (if leb m n then bit_xor h (scramble64 c d r k) else h) ≡ bit_xor h (scramble64 c d r k)
guarded64 c d r m n h k zero_past = elim (Bool-cases (leb m n)) [
  | inl reached ↦ rw reached
  | inr missed ↦
      rw (missed, zero_past (ground (arith, missed)), scramble64-zero c d r) (sym (bit_xor-zero h))
]

load64_past : (tail : List ℕ) (j : ℕ) → length tail < 8 * j + 1 → load64 little tail j ≡ 0
load64_past tail j h =
    omega (arith, load_past tail (2 * j) (omega arith), load_past tail (2 * j + 1) (omega arith))

-- In the 128-bit hash for 64-bit machines, fewer than sixteen last bytes are mixed in as a block
-- filled up with zeros would be: each of its little-endian words into its own word of the state.
pub tail_pair-load64 :
    (tail : List ℕ) (s : Pair)
    → IsBytes tail
    → length tail < 16
    → tail_pair (length tail) tail s ≡ record {
      h1 = mix_first s.h1 (load64 little tail 0);
      h2 = mix_second s.h2 (load64 little tail 1);
    }
unfolding tail_pair
tail_pair-load64 tail s h short =
    rw (first-load tail h, second-load tail h short)
      (cc (
        guarded64 0x87c37b91114253d5 0x4cf5ad432745937f 31 1 (length tail) s.h1 _
            (load64_past tail 0),
        guarded64 0x4cf5ad432745937f 0x87c37b91114253d5 33 9 (length tail) s.h2 _
            (load64_past tail 1),
      ))
