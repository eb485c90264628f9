-- ===== src/Crc32/Tests.antt =====
-- crc32.c: runs on known inputs, and the laws of the checksum on them.
use luarunner.Base.{
  ℕ, List, [], ◌∷◌, ◌++◌, ◌^◌, ◌<◌, ◌≡◌, refl, arith, IsBytes, is_bytes_sound, ◌≢◌,
}
use luarunner.Crc32.{xcrc32}
use luarunner.Crc32.Bitwise.{divide}
use luarunner.Crc32.Laws.{xcrc32-divide, xcrc32-be_bytes, be_bytes}
use luarunner.Crc32.Detects.{xcrc32_distinct}
use luarunner.Crc32.Burst.{xcrc32_burst}

abbrev word : List ℕ
word = b'l' ∷ b'u' ∷ b'a' ∷ 0xFF ∷ []

abbrev digits : List ℕ
digits = b'1' ∷ b'2' ∷ b'3' ∷ b'4' ∷ b'5' ∷ b'6' ∷ b'7' ∷ b'8' ∷ b'9' ∷ []

word-IsBytes : IsBytes word
word-IsBytes = is_bytes_sound word refl

-- The check value of CRC-32/MPEG-2, which has this polynomial and starts from all ones.
xcrc32_check : xcrc32 digits 0xFFFFFFFF ≡ 0x0376E6E7
unfolding xcrc32
xcrc32_check = refl

xcrc32-divide_example :
    (xcrc32 word 0xFFFFFFFF ≡ divide word 0xFFFFFFFF) × (xcrc32 word 0xFFFFFFFF < 2 ^ 32)
xcrc32-divide_example = xcrc32-divide word 0xFFFFFFFF word-IsBytes (omega arith)

xcrc32-be_bytes_example : xcrc32 (word ++ be_bytes (xcrc32 word 7)) 7 ≡ 0
xcrc32-be_bytes_example = xcrc32-be_bytes word 7 word-IsBytes (omega arith)

xcrc32_distinct_example : xcrc32 word 7 ≢ xcrc32 word 8
xcrc32_distinct_example =
    xcrc32_distinct word 7 8 word-IsBytes (omega arith) (omega arith) (λ e. omega (arith, e))

abbrev sent : List ℕ
sent = 1 ∷ 2 ∷ 3 ∷ 4 ∷ []

abbrev received : List ℕ
received = 1 ∷ 0 ∷ 3 ∷ 5 ∷ []

differ : sent ≢ received
differ e = ground (arith, e)

xcrc32_burst_example : xcrc32 (word ++ (sent ++ word)) 7 ≢ xcrc32 (word ++ (received ++ word)) 7
xcrc32_burst_example =
    xcrc32_burst word word 1 2 3 4 1 0 3 5 7 word-IsBytes word-IsBytes (is_bytes_sound sent refl)
      (is_bytes_sound received refl) (omega arith) differ
