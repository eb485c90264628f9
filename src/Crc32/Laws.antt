-- ===== src/Crc32/Laws.antt =====
-- What `xcrc32` promises to the one who calls it.
use luarunner.Base.{
  ℕ, zero, suc, ◌*◌, ◌%◌, ◌^◌, ◌<◌, List, [], ◌∷◌, ◌++◌, bit_xor, ◌≡◌, refl, ◌∙◌, ap, arith,
  IsBytes, shl32, shr,
}
use luarunner.Bits.{bit_xor_self, bit_xor-lt, bit_xor-zero}
use luarunner.Crc32.{table_entry, step, xcrc32}
use luarunner.Crc32.Bitwise.{
  shift_bit, shift_bits, divide_byte, divide, step-divide_byte, shift_bit-lt,
}

pub shift_bits-lt : (n x : ℕ) → x < 2 ^ 32 → shift_bits n x < 2 ^ 32
unfolding shift_bits
shift_bits-lt zero x h = h
shift_bits-lt (suc n) x h = shift_bits-lt n (shift_bit x) (shift_bit-lt x h)

pub top_byte_fits : (crc b : ℕ) → crc < 2 ^ 32 → b < 256 → bit_xor crc (b * 2 ^ 24) < 2 ^ 32
top_byte_fits crc b h k = bit_xor-lt 32 crc (b * 2 ^ 24) h (omega arith)

pub divide_byte-lt : (crc b : ℕ) → crc < 2 ^ 32 → b < 256 → divide_byte crc b < 2 ^ 32
unfolding divide_byte
divide_byte-lt crc b h k = shift_bits-lt 8 (bit_xor crc (b * 2 ^ 24)) (top_byte_fits crc b h k)

step-lt : (crc b : ℕ) → crc < 2 ^ 32 → b < 256 → step crc b < 2 ^ 32
step-lt crc b h k = rw (step-divide_byte crc b h k) (divide_byte-lt crc b h k)

-- The CRC of any byte string, from any 32-bit starting value, is a 32-bit value, and it is the
-- one that long division by the polynomial gives, bit by bit.
pub xcrc32-divide :
    (buf : List ℕ) (init : ℕ)
    → IsBytes buf
    → init < 2 ^ 32
    → (xcrc32 buf init ≡ divide buf init) × (xcrc32 buf init < 2 ^ 32)
unfolding xcrc32 divide
xcrc32-divide [] init bytes h = (refl, h)
xcrc32-divide (b ∷ buf) init bytes h =
    let (same, below) = xcrc32-divide buf (step init b) bytes.1 (step-lt init b h bytes.0) in
    (same ∙ ap (divide buf) (step-divide_byte init b h bytes.0), below)

-- Data may come in pieces: the CRC of one piece is the starting value for the next.
pub xcrc32-append : (a b : List ℕ) (init : ℕ) → xcrc32 (a ++ b) init ≡ xcrc32 b (xcrc32 a init)
unfolding xcrc32
xcrc32-append [] b init = refl
xcrc32-append (x ∷ a) b init = xcrc32-append a b (step init x)

-- A 32-bit value as the four bytes that are sent, highest first.
abbrev pub be_bytes : ℕ → List ℕ
be_bytes c = shr c 24 ∷ (shr c 16 % 256) ∷ (shr c 8 % 256) ∷ (c % 256) ∷ []

table_zero : table_entry 0 ≡ 0
unfolding table_entry
table_zero = refl

-- A byte that agrees with the top of the CRC selects the table's first entry.
step_match : (crc b : ℕ) → shr crc 24 ≡ b → step crc b ≡ shl32 crc 8
unfolding step
step_match crc b e =
    ap (λ t. bit_xor (shl32 crc 8) (table_entry (bit_xor t b))) e
    ∙ ap (λ t. bit_xor (shl32 crc 8) (table_entry t)) (bit_xor_self b)
    ∙ ap (bit_xor (shl32 crc 8)) table_zero
    ∙ bit_xor-zero (shl32 crc 8)

-- Once the first byte is matched, the others are as well, and the CRC runs out.
residue : (c : ℕ) → c < 2 ^ 32 → xcrc32 (be_bytes c) c ≡ 0
unfolding xcrc32
residue c h =
    ap (λ s. rest3 (rest2 (rest1 s))) (step_match c (shr c 24) refl)
    ∙ ap (λ s. rest3 (rest2 s)) (step_match (shl32 c 8) (shr c 16 % 256) (omega arith))
    ∙ ap rest3 (step_match (shl32 (shl32 c 8) 8) (shr c 8 % 256) (omega arith))
    ∙ step_match (shl32 (shl32 (shl32 c 8) 8) 8) (c % 256) (omega arith)
    ∙ omega arith
  where
    rest1 : ℕ → ℕ
    rest1 s = step s (shr c 16 % 256)

    rest2 : ℕ → ℕ
    rest2 s = step s (shr c 8 % 256)

    rest3 : ℕ → ℕ
    rest3 s = step s (c % 256)

-- A string of bytes followed by its own CRC, highest byte first, has the CRC 0, from any 32-bit
-- starting value.
pub xcrc32-be_bytes :
    (buf : List ℕ) (init : ℕ)
    → IsBytes buf
    → init < 2 ^ 32
    → xcrc32 (buf ++ be_bytes (xcrc32 buf init)) init ≡ 0
xcrc32-be_bytes buf init bytes h =
    xcrc32-append buf (be_bytes (xcrc32 buf init)) init
    ∙ residue (xcrc32 buf init) (xcrc32-divide buf init bytes h).1
