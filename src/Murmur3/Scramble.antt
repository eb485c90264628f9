-- ===== src/Murmur3/Scramble.antt =====
-- murmur3.c: rotations, the finalizers fmix32 and fmix64, and the scrambling of a block.
use luarunner.Base.{ℕ, ◌-◌, bit_or, bit_xor, mul32, mul64, shl32, shl64, shr}

unfoldable pub rotl32 : ℕ → ℕ → ℕ
rotl32 x r = bit_or (shl32 x r) (shr x (32 - r))

unfoldable pub rotl64 : ℕ → ℕ → ℕ
rotl64 x r = bit_or (shl64 x r) (shr x (64 - r))

-- `h ^= h >> r`.
abbrev pub xorshift : ℕ → ℕ → ℕ
xorshift r h = bit_xor h (shr h r)

unfoldable pub fmix32 : ℕ → ℕ
fmix32 h = xorshift 16 (mul32 (xorshift 13 (mul32 (xorshift 16 h) 0x85ebca6b)) 0xc2b2ae35)

unfoldable pub fmix64 : ℕ → ℕ
fmix64 k =
    xorshift 33 (mul64 (xorshift 33 (mul64 (xorshift 33 k) 0xff51afd7ed558ccd)) 0xc4ceb9fe1a85ec53)

-- `k *= c; k = ROTL(k, r); k *= d;`
unfoldable pub scramble32 : ℕ → ℕ → ℕ → ℕ → ℕ
scramble32 c d r k = mul32 (rotl32 (mul32 k c) r) d

unfoldable pub scramble64 : ℕ → ℕ → ℕ → ℕ → ℕ
scramble64 c d r k = mul64 (rotl64 (mul64 k c) r) d
