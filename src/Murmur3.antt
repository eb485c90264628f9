-- ===== src/Murmur3.antt =====
-- murmur3.c: the three hashes of MurmurHash3. The key is the list of its bytes, and `len` its
-- length. Each `for` runs over whole blocks, so that their number is the loop's count.
pub mod Scramble
pub mod Undo
pub mod Tail
pub mod Short
pub mod Finish
pub mod WideTail
mod Tests
use luarunner.Base.{
  ℕ, zero, suc, ◌+◌, ◌*◌, ◌/◌, ◌%◌, ◌^◌, List, leb, if◌then◌else◌, bit_xor, add32, mul32, u32, u64,
  add64, mul64, shl32, shl64, length, get_or, drop,
}
use luarunner.HashFn.{Endian, little, big, load}
use Scramble.{rotl32, rotl64, fmix32, fmix64, scramble32, scramble64}

-- `case i:` of a switch whose cases fall through, with `^=`.
abbrev pub xor_case : ℕ → ℕ → ℕ → ℕ → ℕ
xor_case i n v acc = if leb i n then bit_xor acc v else acc

-- `tail[i] << s`, which `k ^=` takes at 32 or 64 bits. (Without a cast the shift is one of an `int`;
-- a byte of 128 or more that is shifted by 24 there is taken to wrap, as compilers have it.)
abbrev pub byte32 : List ℕ → ℕ → ℕ → ℕ
byte32 tail i s = shl32 (get_or tail i 0) s

abbrev pub byte64 : List ℕ → ℕ → ℕ → ℕ
byte64 tail i s = shl64 (get_or tail i 0) s

-- The loop's body of MurmurHash3_x86_32, and the loop.
unfoldable pub body32 : ℕ → ℕ → ℕ
body32 h1 k1 =
    let h = bit_xor h1 (scramble32 0xcc9e2d51 0x1b873593 15 k1) in
    add32 (mul32 (rotl32 h 13) 5) 0xe6546b64

unfoldable pub blocks32 : Endian → ℕ → List ℕ → ℕ → ℕ
blocks32 e zero input h1 = h1
blocks32 e (suc n) input h1 = blocks32 e n (drop 4 input) (body32 h1 (load e input 0))

-- The switch over `len & 3`, which is `n` here.
unfoldable pub tail32 : ℕ → List ℕ → ℕ → ℕ
tail32 n tail h1 =
    let k1 =
      xor_case 1 n (byte32 tail 0 0)
        (xor_case 2 n (byte32 tail 1 8) (xor_case 3 n (byte32 tail 2 16) 0)) in
    if leb 1 n then bit_xor h1 (scramble32 0xcc9e2d51 0x1b873593 15 k1) else h1

unfoldable pub murmur_x86_32 : Endian → List ℕ → ℕ → ℕ
murmur_x86_32 e key seed =
    let len = length key in
    let nblocks = len / 4 in
    let h1 = tail32 (len % 4) (drop (4 * nblocks) key) (blocks32 e nblocks key seed) in
    fmix32 (bit_xor h1 (u32 len))

-- The four words of MurmurHash3_x86_128.
pub record Quad : Type 0 where
  pub h1 : ℕ
  pub h2 : ℕ
  pub h3 : ℕ
  pub h4 : ℕ

-- `h = ROTL32(h, r); h += other; h = h * 5 + c;`
abbrev pub turn32 : ℕ → ℕ → ℕ → ℕ → ℕ
turn32 r c h other = add32 (mul32 (add32 (rotl32 h r) other) 5) c

-- `k *= c; k = ROTL32(k, r); k *= d; h ^= k;` for each of the four words.
abbrev pub mix_h1 : ℕ → ℕ → ℕ
mix_h1 h k = bit_xor h (scramble32 0x239b961b 0xab0e9789 15 k)

abbrev pub mix_h2 : ℕ → ℕ → ℕ
mix_h2 h k = bit_xor h (scramble32 0xab0e9789 0x38b34ae5 16 k)

abbrev pub mix_h3 : ℕ → ℕ → ℕ
mix_h3 h k = bit_xor h (scramble32 0x38b34ae5 0xa1e38b93 17 k)

abbrev pub mix_h4 : ℕ → ℕ → ℕ
mix_h4 h k = bit_xor h (scramble32 0xa1e38b93 0x239b961b 18 k)

unfoldable pub blocks_quad : Endian → ℕ → List ℕ → Quad → Quad
blocks_quad e zero input s = s
blocks_quad e (suc n) input s =
    let h₁ = turn32 19 0x561ccd1b (mix_h1 s.h1 (load e input 0)) s.h2 in
    let h₂ = turn32 17 0x0bcaa747 (mix_h2 s.h2 (load e input 1)) s.h3 in
    let h₃ = turn32 15 0x96cd1c35 (mix_h3 s.h3 (load e input 2)) s.h4 in
    let h₄ = turn32 13 0x32ac3b17 (mix_h4 s.h4 (load e input 3)) h₁ in
    blocks_quad e n (drop 16 input) (record { h1 = h₁; h2 = h₂; h3 = h₃; h4 = h₄ })

-- The cases `i + 1` to `i + 3` and `i + 4` of the switch, for one word.
abbrev pub three_bytes32 : ℕ → List ℕ → ℕ → ℕ → ℕ
three_bytes32 n tail i k =
    xor_case (i + 1) n (byte32 tail i 0)
      (xor_case (i + 2) n (byte32 tail (i + 1) 8) (xor_case (i + 3) n (byte32 tail (i + 2) 16) k))

abbrev pub four_bytes32 : ℕ → List ℕ → ℕ → ℕ
four_bytes32 n tail i = three_bytes32 n tail i (xor_case (i + 4) n (byte32 tail (i + 3) 24) 0)

-- The switch over `len & 15`, which is `n` here.
unfoldable pub tail_quad : ℕ → List ℕ → Quad → Quad
tail_quad n tail s = record {
  h1 = if leb 1 n then mix_h1 s.h1 (four_bytes32 n tail 0) else s.h1;
  h2 = if leb 5 n then mix_h2 s.h2 (four_bytes32 n tail 4) else s.h2;
  h3 = if leb 9 n then mix_h3 s.h3 (four_bytes32 n tail 8) else s.h3;
  h4 = if leb 13 n then mix_h4 s.h4 (three_bytes32 n tail 12 0) else s.h4;
}

-- `h1 += h2; h1 += h3; h1 += h4; h2 += h1; h3 += h1; h4 += h1;`
unfoldable pub spread_quad : Quad → Quad
spread_quad s =
    let h = add32 (add32 (add32 s.h1 s.h2) s.h3) s.h4 in
    record { h1 = h; h2 = add32 s.h2 h; h3 = add32 s.h3 h; h4 = add32 s.h4 h }

unfoldable pub finish_quad : Quad → Quad
finish_quad s =
    let t = spread_quad s in
    spread_quad (record { h1 = fmix32 t.h1; h2 = fmix32 t.h2; h3 = fmix32 t.h3; h4 = fmix32 t.h4 })

unfoldable pub murmur_x86_128 : Endian → List ℕ → ℕ → Quad
murmur_x86_128 e key seed =
    let len = length key in
    let nblocks = len / 16 in
    let start : Quad = record { h1 = seed; h2 = seed; h3 = seed; h4 = seed } in
    let s = tail_quad (len % 16) (drop (16 * nblocks) key) (blocks_quad e nblocks key start) in
    let w = u32 len in
    finish_quad (record {
      h1 = bit_xor s.h1 w;
      h2 = bit_xor s.h2 w;
      h3 = bit_xor s.h3 w;
      h4 = bit_xor s.h4 w;
    })

-- The two words of MurmurHash3_x64_128.
pub record Pair : Type 0 where
  pub h1 : ℕ
  pub h2 : ℕ

abbrev pub load64 : Endian → List ℕ → ℕ → ℕ
load64 little input i = load little input (2 * i) + 2 ^ 32 * load little input (2 * i + 1)
load64 big input i = load big input (2 * i + 1) + 2 ^ 32 * load big input (2 * i)

abbrev pub turn64 : ℕ → ℕ → ℕ → ℕ → ℕ
turn64 r c h other = add64 (mul64 (add64 (rotl64 h r) other) 5) c

abbrev pub mix_first : ℕ → ℕ → ℕ
mix_first h k = bit_xor h (scramble64 0x87c37b91114253d5 0x4cf5ad432745937f 31 k)

abbrev pub mix_second : ℕ → ℕ → ℕ
mix_second h k = bit_xor h (scramble64 0x4cf5ad432745937f 0x87c37b91114253d5 33 k)

unfoldable pub blocks_pair : Endian → ℕ → List ℕ → Pair → Pair
blocks_pair e zero input s = s
blocks_pair e (suc n) input s =
    let h₁ = turn64 27 0x52dce729 (mix_first s.h1 (load64 e input 0)) s.h2 in
    let h₂ = turn64 31 0x38495ab5 (mix_second s.h2 (load64 e input 1)) h₁ in
    blocks_pair e n (drop 16 input) (record { h1 = h₁; h2 = h₂ })

-- The cases `i + 1` to `i + 7` of the switch, for one word.
abbrev pub seven_bytes64 : ℕ → List ℕ → ℕ → ℕ → ℕ
seven_bytes64 n tail i k =
    let k₇ = xor_case (i + 7) n (byte64 tail (i + 6) 48) k in
    let k₆ = xor_case (i + 6) n (byte64 tail (i + 5) 40) k₇ in
    let k₅ = xor_case (i + 5) n (byte64 tail (i + 4) 32) k₆ in
    let k₄ = xor_case (i + 4) n (byte64 tail (i + 3) 24) k₅ in
    let k₃ = xor_case (i + 3) n (byte64 tail (i + 2) 16) k₄ in
    xor_case (i + 1) n (byte64 tail i 0) (xor_case (i + 2) n (byte64 tail (i + 1) 8) k₃)

unfoldable pub tail_pair : ℕ → List ℕ → Pair → Pair
tail_pair n tail s = record {
  h1 =
      if leb 1 n
      then mix_first s.h1 (seven_bytes64 n tail 0 (xor_case 8 n (byte64 tail 7 56) 0))
      else s.h1;
  h2 = if leb 9 n then mix_second s.h2 (seven_bytes64 n tail 8 0) else s.h2;
}

-- `h1 += h2; h2 += h1;`
unfoldable pub spread_pair : Pair → Pair
spread_pair s = let h = add64 s.h1 s.h2 in record { h1 = h; h2 = add64 s.h2 h }

unfoldable pub finish_pair : Pair → Pair
finish_pair s = let t = spread_pair s in spread_pair (record { h1 = fmix64 t.h1; h2 = fmix64 t.h2 })

-- `len` is an `int`, which a key fits, and extends to 64 bits.
unfoldable pub murmur_x64_128 : Endian → List ℕ → ℕ → Pair
murmur_x64_128 e key seed =
    let len = length key in
    let nblocks = len / 16 in
    let s =
      tail_pair (len % 16) (drop (16 * nblocks) key)
        (blocks_pair e nblocks key (record { h1 = seed; h2 = seed })) in
    finish_pair (record { h1 = bit_xor s.h1 (u64 len); h2 = bit_xor s.h2 (u64 len) })
