-- ===== src/HashFn/Tests.antt =====
-- hashfn.c: runs on concrete keys, and the theorems about the hashes on them.
use luarunner.Base.{
  ℕ, List, [], ◌∷◌, ◌^◌, ◌%◌, ◌<◌, ◌≡◌, true, false, refl, arith, IsBytes, is_bytes_sound,
}
use luarunner.HashFn.{
  little, big, load, hash_bytes, hash_bytes_extended, hash_bytes_uint32, hash_bytes_uint32_extended,
}
use luarunner.HashFn.Mix.{Words, IsWords, mix, final}
use luarunner.HashFn.Reversible.{unmix, unmix-mix}
use luarunner.HashFn.Final.{unfinal, unfinal-final}
use luarunner.HashFn.Paths.{hash_bytes_paths}
use luarunner.HashFn.Width.{hash_bytes_widths}
use luarunner.HashFn.Fixed.{word_bytes, hash_bytes_uint32_lem}

-- Two rounds' worth of bytes and a tail of one.
abbrev key : List ℕ
key = 9 ∷ 8 ∷ 7 ∷ 6 ∷ 5 ∷ 4 ∷ 3 ∷ 2 ∷ 1 ∷ 255 ∷ 254 ∷ 253 ∷ 252 ∷ []

abbrev name : List ℕ
name = b'l' ∷ b'u' ∷ b'a' ∷ 0 ∷ b'x' ∷ []

abbrev words : Words
words = record { a = 1; b = 2; c = 0xFFFFFFFF }

key-IsBytes : IsBytes key
key-IsBytes = is_bytes_sound key refl

words-IsWords : IsWords words
words-IsWords = (omega arith, omega arith, omega arith)

hash_bytes_paths_example :
    (hash_bytes big true key ≡ hash_bytes big false key)
    × (hash_bytes_extended big true key 5 ≡ hash_bytes_extended big false key 5)
hash_bytes_paths_example = hash_bytes_paths big key 5 key-IsBytes

unmix-mix_example : (unmix (mix words) ≡ words) × IsWords (mix words)
unmix-mix_example = unmix-mix words words-IsWords

unfinal-final_example : (unfinal (final words) ≡ words) × IsWords (final words)
unfinal-final_example = unfinal-final words words-IsWords

hash_bytes_widths_example :
    (hash_bytes little true key < 2 ^ 32)
    × (hash_bytes_extended little true key 5 < 2 ^ 64)
    × (hash_bytes_extended little true key 0 % 2 ^ 32 ≡ hash_bytes little true key)
hash_bytes_widths_example = hash_bytes_widths little true key 5

hash_bytes_uint32_lem_example :
    let k = load big (word_bytes 1 2 3 4) 0 in
    (hash_bytes_uint32 k ≡ hash_bytes big false (word_bytes 1 2 3 4))
    × (hash_bytes_uint32_extended k 9 ≡ hash_bytes_extended big false (word_bytes 1 2 3 4) 9)
hash_bytes_uint32_lem_example =
    hash_bytes_uint32_lem big false 1 2 3 4 9 (is_bytes_sound (word_bytes 1 2 3 4) refl)
