-- ===== src/Murmur3/Tests.antt =====
-- murmur3.c: published values, and the theorems on concrete keys.
use luarunner.Base.{ℕ, ◌≡◌, ◌≢◌, refl, arith, List, [], ◌∷◌, bit_xor, is_bytes_sound}
use luarunner.HashFn.{little, load}
use luarunner.Murmur3.{
  load64, mix_first, mix_second, tail_pair, Quad, Pair, murmur_x86_32, tail32, body32, blocks32,
  tail_quad, mix_h1, mix_h2, mix_h3, mix_h4, finish_pair,
}
use luarunner.Murmur3.Scramble.{fmix32, fmix64, rotl32, scramble32}
use luarunner.Murmur3.Undo.{unfmix32, unfmix32-fmix32, unfmix64, unfmix64-fmix64}
use luarunner.Murmur3.Tail.{tail32-load, tail_quad-load}
use luarunner.Murmur3.WideTail.{tail_pair-load64}
use luarunner.Murmur3.Short.{murmur_x86_32_distinct}
use luarunner.Murmur3.Finish.{IsPair, unfinish_pair, unfinish_pair-finish_pair}

empty_seeded : murmur_x86_32 little [] 1 ≡ 0x514E28B7
unfolding murmur_x86_32 fmix32 tail32 blocks32 body32 rotl32 scramble32 load
empty_seeded = refl

zeros_hashed : murmur_x86_32 little (0 ∷ 0 ∷ 0 ∷ 0 ∷ []) 0 ≡ 0x2362F9DE
unfolding murmur_x86_32 fmix32 tail32 blocks32 body32 rotl32 scramble32 load
zeros_hashed = refl

three_hashed : murmur_x86_32 little (0x21 ∷ 0x43 ∷ 0x65 ∷ []) 0 ≡ 0x7E4A8634
unfolding murmur_x86_32 fmix32 tail32 blocks32 body32 rotl32 scramble32 load
three_hashed = refl

abbrev sent : List ℕ
sent = 1 ∷ 2 ∷ 3 ∷ 4 ∷ []

abbrev received : List ℕ
received = 1 ∷ 2 ∷ 3 ∷ 5 ∷ []

abbrev last_bytes : List ℕ
last_bytes = 1 ∷ 2 ∷ 255 ∷ 4 ∷ 5 ∷ 6 ∷ []

abbrev quad : Quad
quad = record { h1 = 1; h2 = 2; h3 = 3; h4 = 4 }

abbrev pair : Pair
pair = record { h1 = 1; h2 = 0xFFFFFFFFFFFFFFFF }

sent_differs : sent ≢ received
sent_differs e = ground (arith, e)

unfmix32-fmix32_example : unfmix32 (fmix32 0xFFFFFFFF) ≡ 0xFFFFFFFF
unfmix32-fmix32_example = unfmix32-fmix32 0xFFFFFFFF (omega arith)

unfmix64-fmix64_example : unfmix64 (fmix64 7) ≡ 7
unfmix64-fmix64_example = unfmix64-fmix64 7 (omega arith)

murmur_x86_32_distinct_example : murmur_x86_32 little sent 9 ≢ murmur_x86_32 little received 9
murmur_x86_32_distinct_example =
    murmur_x86_32_distinct little 1 2 3 4 1 2 3 5 9 (is_bytes_sound sent refl)
      (is_bytes_sound received refl) (omega arith) sent_differs

abbrev odd : List ℕ
odd = 200 ∷ 100 ∷ 255 ∷ []

tail32-load_example :
    tail32 3 odd 5 ≡ bit_xor 5 (scramble32 0xcc9e2d51 0x1b873593 15 (load little odd 0))
tail32-load_example = tail32-load odd 5 (is_bytes_sound odd refl) (omega arith)

tail_quad-load_example : tail_quad 6 last_bytes quad ≡ record {
  h1 = mix_h1 1 (load little last_bytes 0);
  h2 = mix_h2 2 (load little last_bytes 1);
  h3 = mix_h3 3 (load little last_bytes 2);
  h4 = mix_h4 4 (load little last_bytes 3);
}
tail_quad-load_example =
    tail_quad-load last_bytes quad (is_bytes_sound last_bytes refl) (omega arith)

unfinish_pair-finish_pair_example :
    (unfinish_pair (finish_pair pair) ≡ pair) × IsPair (finish_pair pair)
unfinish_pair-finish_pair_example = unfinish_pair-finish_pair pair (omega arith, omega arith)

abbrev long_tail : List ℕ
long_tail = 1 ∷ 2 ∷ 255 ∷ 4 ∷ 5 ∷ 6 ∷ 7 ∷ 8 ∷ 9 ∷ 255 ∷ []

tail_pair-load64_example : tail_pair 10 long_tail pair ≡ record {
  h1 = mix_first 1 (load64 little long_tail 0);
  h2 = mix_second 0xFFFFFFFFFFFFFFFF (load64 little long_tail 1);
}
tail_pair-load64_example =
    tail_pair-load64 long_tail pair (is_bytes_sound long_tail refl) (omega arith)
