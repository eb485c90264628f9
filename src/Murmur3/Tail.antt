-- ===== src/Murmur3/Tail.antt =====
-- The switches over the last bytes of a key against what they stand for: the key filled up with
-- zeros to a whole block. The words of that block are read as little-endian numbers.
use luarunner.Base.{
  ℕ, zero, suc, ◌+◌, ◌*◌, ◌^◌, ◌≤◌, ◌<◌, ◌≡◌, refl, sym, ◌∙◌, ap, arith, List, [], ◌∷◌, length,
  get_or, IsBytes, get_or-IsByte, leb, Bool-cases, inl, inr, if◌then◌else◌, bit_xor, shl32, mul32,
}
use luarunner.Bits.{bit_xor-zero, bit_xor_comm, bit_xor_parts}
use luarunner.HashFn.{little, load}
use luarunner.Murmur3.{
  Quad, xor_case, byte32, tail32, three_bytes32, four_bytes32, tail_quad, mix_h1, mix_h2, mix_h3,
  mix_h4,
}
use luarunner.Murmur3.Scramble.{rotl32, scramble32}
use native.Mathlib.Nat.{zero-mul, zero-div}

pub get_or_past : (xs : List ℕ) (i : ℕ) → length xs ≤ i → get_or xs i 0 ≡ 0
get_or_past [] i h = refl
get_or_past (x ∷ xs) zero h = absurd (omega arith)
get_or_past (x ∷ xs) (suc i) h = get_or_past xs i (omega arith)

-- A case that the switch does not reach would mix in a zero.
fall32 :
    (tail : List ℕ) (m i s acc : ℕ)
    → m ≡ i + 1
    → xor_case m (length tail) (byte32 tail i s) acc ≡ bit_xor acc (byte32 tail i s)
fall32 tail m i s acc e = elim (Bool-cases (leb m (length tail))) [
  | inl reached ↦ rw reached
  | inr missed ↦
      let nothing : byte32 tail i s ≡ 0 =
        ap (λ (t : ℕ). shl32 t s) (get_or_past tail i (ground (arith, missed, e))) ∙ omega arith in
      rw (missed, nothing) (sym (bit_xor-zero acc))
]

-- `^` adds what lies below all digits.
pub disjoint : (k x hi v : ℕ) → x ≡ hi * 2 ^ k → v < 2 ^ k → bit_xor x v ≡ x + v
disjoint k x hi v e h =
    ap (λ t. bit_xor t v) e ∙ bit_xor_parts k hi v h ∙ ap (λ (t : ℕ). t + v) (sym e)

module _ (a b c d : ℕ) (h : IsBytes (a ∷ b ∷ c ∷ d ∷ [])) where
  four_parts :
      bit_xor (bit_xor (bit_xor (bit_xor 0 (shl32 d 24)) (shl32 c 16)) (shl32 b 8)) (shl32 a 0)
      ≡ a + 2 ^ 8 * b + 2 ^ 16 * c + 2 ^ 24 * d
  four_parts =
      let top = bit_xor_comm 0 (shl32 d 24) ∙ bit_xor-zero (shl32 d 24) in
      let second = disjoint 24 (shl32 d 24) d (shl32 c 16) (omega arith) (omega arith) in
      let third =
        disjoint 16 (shl32 d 24 + shl32 c 16) (d * 256 + c) (shl32 b 8) (omega arith)
          (omega arith) in
      let fourth =
        disjoint 8 (shl32 d 24 + shl32 c 16 + shl32 b 8) (d * 65536 + c * 256 + b) (shl32 a 0)
          (omega arith) (omega arith) in
      rw (top, second, third, fourth) (omega arith)

module _ (tail : List ℕ) (h : IsBytes tail) where
  byte : (i : ℕ) → get_or tail i 0 < 256
  byte i = get_or-IsByte tail i h

  three-load :
      (j top : ℕ)
      → top ≡ bit_xor 0 (byte32 tail (4 * j + 3) 24)
      → three_bytes32 (length tail) tail (4 * j) top ≡ load little tail j
  unfolding load
  three-load j top e =
      rw
        (
          fall32 tail (4 * j + 3) (4 * j + 2) 16 top (omega arith),
          fall32 tail (4 * j + 2) (4 * j + 1) 8 _ (omega arith),
          fall32 tail (4 * j + 1) (4 * j) 0 _ refl,
          e,
        )
        (four_parts (get_or tail (4 * j) 0) (get_or tail (4 * j + 1) 0) (get_or tail (4 * j + 2) 0)
          (get_or tail (4 * j + 3) 0)
          (byte (4 * j), (byte (4 * j + 1), (byte (4 * j + 2), (byte (4 * j + 3), tt)))))

  four-load : (j : ℕ) → four_bytes32 (length tail) tail (4 * j) ≡ load little tail j
  four-load j = three-load j _ (fall32 tail (4 * j + 4) (4 * j + 3) 24 0 (omega arith))

-- A word of zeros is scrambled to zero, so that mixing it in changes nothing.
scramble32-zero : (c d r : ℕ) → scramble32 c d r 0 ≡ 0
unfolding scramble32 rotl32
scramble32-zero c d r =
    let start : mul32 0 c ≡ 0 = omega arith in
    let high : shl32 0 r ≡ 0 = rw zero-mul refl in rw (start, high, zero-div) (omega arith)

-- `if` guards a mixing that would do nothing otherwise.
guarded :
    (c d r m n h k : ℕ)
    → (n < m → k ≡ 0)
    → (if leb m n then bit_xor h (scramble32 c d r k) else h) ≡ bit_xor h (scramble32 c d r k)
guarded c d r m n h k zero_past = elim (Bool-cases (leb m n)) [
  | inl reached ↦ rw reached
  | inr missed ↦
      rw (missed, zero_past (ground (arith, missed)), scramble32-zero c d r) (sym (bit_xor-zero h))
]

pub load_past : (tail : List ℕ) (j : ℕ) → length tail < 4 * j + 1 → load little tail j ≡ 0
unfolding load
load_past tail j h = omega (
  arith,
  get_or_past tail (4 * j) (omega arith),
  get_or_past tail (4 * j + 1) (omega arith),
  get_or_past tail (4 * j + 2) (omega arith),
  get_or_past tail (4 * j + 3) (omega arith),
)

-- In the 32-bit hash, fewer than four last bytes are mixed in as the little-endian word that they
-- make with zeros behind them.
pub tail32-load :
    (tail : List ℕ) (h1 : ℕ)
    → IsBytes tail
    → length tail < 4
    → tail32 (length tail) tail h1
      ≡ bit_xor h1 (scramble32 0xcc9e2d51 0x1b873593 15 (load little tail 0))
unfolding tail32
tail32-load tail h1 h short =
    let top : 0 ≡ bit_xor 0 (byte32 tail 3 24) =
      ap (λ (t : ℕ). bit_xor 0 (shl32 t 24)) (sym (get_or_past tail 3 (omega arith))) in
    rw (three-load tail h 0 0 top) (guarded _ _ 15 1 (length tail) h1 _ (load_past tail 0))

-- In the 128-bit hash for 32-bit machines, fewer than sixteen last bytes are mixed in as a block
-- filled up with zeros would be: each of its little-endian words into its own word of the state.
pub tail_quad-load :
    (tail : List ℕ) (s : Quad)
    → IsBytes tail
    → length tail < 16
    → tail_quad (length tail) tail s ≡ record {
      h1 = mix_h1 s.h1 (load little tail 0);
      h2 = mix_h2 s.h2 (load little tail 1);
      h3 = mix_h3 s.h3 (load little tail 2);
      h4 = mix_h4 s.h4 (load little tail 3);
    }
unfolding tail_quad
tail_quad-load tail s h short =
    let top : 0 ≡ bit_xor 0 (byte32 tail 15 24) =
      ap (λ (t : ℕ). bit_xor 0 (shl32 t 24)) (sym (get_or_past tail 15 (omega arith))) in
    rw (four-load tail h 0, four-load tail h 1, four-load tail h 2, three-load tail h 3 0 top)
      (cc (
        guarded 0x239b961b 0xab0e9789 15 1 (length tail) s.h1 _ (load_past tail 0),
        guarded 0xab0e9789 0x38b34ae5 16 5 (length tail) s.h2 _ (load_past tail 1),
        guarded 0x38b34ae5 0xa1e38b93 17 9 (length tail) s.h3 _ (load_past tail 2),
        guarded 0xa1e38b93 0x239b961b 18 13 (length tail) s.h4 _ (load_past tail 3),
      ))
