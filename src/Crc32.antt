-- ===== src/Crc32.antt =====
-- crc32.c: `xcrc32`, the table-driven CRC-32 of libiberty, one table look-up for each byte.
pub mod Table
pub mod Bitwise
pub mod Laws
pub mod Detects
pub mod Burst
mod Tests
use luarunner.Base.{ℕ, List, [], ◌∷◌, bit_and, bit_xor, get_or, shl32, shr}
use Table.{crc32_table}

-- `crc32_table[((crc >> 24) ^ *buf) & 255]`.
table_entry : ℕ → ℕ
table_entry i = get_or crc32_table (bit_and i 255) 0

-- One round of the loop.
pub step : ℕ → ℕ → ℕ
unfolding table_entry
step crc b = bit_xor (shl32 crc 8) (table_entry (bit_xor (shr crc 24) b))

-- `while (len--)` over the `len` bytes of `buf`.
unfoldable pub xcrc32 : List ℕ → ℕ → ℕ
unfolding step
xcrc32 [] init = init
xcrc32 (b ∷ buf) init = xcrc32 buf (step init b)
