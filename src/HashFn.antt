-- ===== src/HashFn.antt =====
-- hashfn.c and hashfn.h: PostgreSQL's hash functions. `mix` and `final` are in HashFn/Mix.
pub mod Mix
pub mod Reversible
pub mod Final
pub mod Bytes
pub mod Tail
pub mod Paths
pub mod Width
pub mod Fixed
pub mod Keys
mod Tests
use luarunner.Base.{
  ℕ, zero, suc, ◌+◌, ◌-◌, ◌*◌, ◌%◌, ◌^◌, Bool, true, false, List, [], ◌∷◌, ltb, leb, ◌==◌,
  if◌then◌else◌, bit_or, add32, shl32, shl64, shr, u32, length, get_or, drop, take, min,
}
use Mix.{Words, mix, final}

-- Whether WORDS_BIGENDIAN is defined.
pub data Endian : Type 0 where
  little big : Endian

-- By how much the j-th byte of a word is shifted, and the j-th byte of the last, partial word
-- `c`, whose lowest byte is reserved for the length.
abbrev pub word_shift : Endian → ℕ → ℕ
word_shift little j = 8 * j
word_shift big j = 24 - 8 * j

abbrev pub last_shift : Endian → ℕ → ℕ
last_shift little j = 8 * j + 8
last_shift big j = 24 - 8 * j

-- `ka[i]`: the number that the machine loads from the four bytes at `4 * i`.
unfoldable pub load : Endian → List ℕ → ℕ → ℕ
load little k i =
    get_or k (4 * i) 0
    + 2 ^ 8 * get_or k (4 * i + 1) 0
    + 2 ^ 16 * get_or k (4 * i + 2) 0
    + 2 ^ 24 * get_or k (4 * i + 3) 0
load big k i =
    get_or k (4 * i + 3) 0
    + 2 ^ 8 * get_or k (4 * i + 2) 0
    + 2 ^ 16 * get_or k (4 * i + 1) 0
    + 2 ^ 24 * get_or k (4 * i) 0

-- `(uint32) k[i] << shift`.
abbrev pub byte_at : List ℕ → ℕ → ℕ → ℕ
byte_at k i shift = shl32 (get_or k i 0) shift

-- `k[0] + ((uint32) k[1] << 8) + ((uint32) k[2] << 16) + ((uint32) k[3] << 24)`, from byte `4 * i`.
unfoldable pub gather : Endian → List ℕ → ℕ → ℕ
gather little k i =
    add32 (add32 (add32 (get_or k (4 * i) 0) (byte_at k (4 * i + 1) 8)) (byte_at k (4 * i + 2) 16))
      (byte_at k (4 * i + 3) 24)
gather big k i =
    add32
      (add32 (add32 (get_or k (4 * i + 3) 0) (byte_at k (4 * i + 2) 8)) (byte_at k (4 * i + 1) 16))
      (byte_at k (4 * i) 24)

-- `a = b = c = 0x9e3779b9 + len + 3923095`.
unfoldable pub start : ℕ → Words
start len = let w = u32 (0x9e3779b9 + len + 3923095) in record { a = w; b = w; c = w }

-- The body of `while (len >= 12)`, over either way of reading a word.
unfoldable pub absorb : (List ℕ → ℕ → ℕ) → List ℕ → Words → Words
absorb fetch k s =
    mix (record { a = add32 s.a (fetch k 0); b = add32 s.b (fetch k 1); c = add32 s.c (fetch k 2) })

-- What `while (len >= 12)` leaves: the state and the bytes not yet handled. The first argument
-- is fuel; there are at most as many rounds as bytes.
unfoldable pub rounds : (List ℕ → ℕ → ℕ) → ℕ → List ℕ → Words → Words × List ℕ
rounds fetch zero k s = (s, k)
rounds fetch (suc f) k s =
    let more = rounds fetch f (drop 12 k) (absorb fetch k s) in
    if leb 12 (length k) then more else (s, k)

-- `case i:` of a switch whose cases fall through: it is reached from every case above it.
abbrev pub from_case : ℕ → ℕ → ℕ → ℕ → ℕ
from_case i n v acc = if leb i n then add32 acc v else acc

-- "handle the last 11 bytes", one byte after the other.
unfoldable pub tail_bytes : Endian → List ℕ → Words → Words
tail_bytes e k s =
    let n = length k in
    let c₁ = from_case 11 n (byte_at k 10 (last_shift e 2)) s.c in
    let c₂ = from_case 10 n (byte_at k 9 (last_shift e 1)) c₁ in
    let c₃ = from_case 9 n (byte_at k 8 (last_shift e 0)) c₂ in
    let b₁ = from_case 8 n (byte_at k 7 (word_shift e 3)) s.b in
    let b₂ = from_case 7 n (byte_at k 6 (word_shift e 2)) b₁ in
    let b₃ = from_case 6 n (byte_at k 5 (word_shift e 1)) b₂ in
    let b₄ = from_case 5 n (byte_at k 4 (word_shift e 0)) b₃ in
    let a₁ = from_case 4 n (byte_at k 3 (word_shift e 3)) s.a in
    let a₂ = from_case 3 n (byte_at k 2 (word_shift e 2)) a₁ in
    let a₃ = from_case 2 n (byte_at k 1 (word_shift e 1)) a₂ in
    let a₄ = from_case 1 n (byte_at k 0 (word_shift e 0)) a₃ in record { a = a₄; b = b₄; c = c₃ }

-- "handle the last 11 bytes" on the aligned path: cases 8 and 4 load whole words and break.
unfoldable pub tail_words : Endian → List ℕ → Words → Words
tail_words e k s =
    let n = length k in
    let c₁ = from_case 11 n (byte_at k 10 (last_shift e 2)) s.c in
    let c₂ = from_case 10 n (byte_at k 9 (last_shift e 1)) c₁ in
    let c₃ = from_case 9 n (byte_at k 8 (last_shift e 0)) c₂ in
    let b₁ = from_case 7 n (byte_at k 6 (word_shift e 2)) s.b in
    let b₂ = from_case 6 n (byte_at k 5 (word_shift e 1)) b₁ in
    let b₃ = from_case 5 n (byte_at k 4 (word_shift e 0)) b₂ in
    let a₁ = from_case 3 n (byte_at k 2 (word_shift e 2)) s.a in
    let a₂ = from_case 2 n (byte_at k 1 (word_shift e 1)) a₁ in
    let a₃ = from_case 1 n (byte_at k 0 (word_shift e 0)) a₂ in
    if leb 8 n
    then record { a = add32 s.a (load e k 0); b = add32 s.b (load e k 1); c = c₃ }
    else if leb 4 n
    then record { a = add32 s.a (load e k 0); b = b₃; c = s.c }
    else record { a = a₃; b = s.b; c = s.c }

-- Everything between the set-up and `final`. The flag says whether `k` is word-aligned.
unfoldable pub digest : Endian → Bool → List ℕ → Words → Words
digest e true k s = let (t, rest) = rounds (load e) (length k) k s in tail_words e rest t
digest e false k s = let (t, rest) = rounds (gather e) (length k) k s in tail_bytes e rest t

unfoldable pub hash_bytes : Endian → Bool → List ℕ → ℕ
hash_bytes e aligned k = (final (digest e aligned k (start (length k)))).c

-- "If the seed is non-zero, use it to perturb the internal state."
unfoldable pub perturb : ℕ → Words → Words
perturb seed s =
    if seed == 0
    then s
    else mix (record { a = add32 s.a (u32 (shr seed 32)); b = add32 s.b (u32 seed); c = s.c })

-- `((uint64) b << 32) | c`.
abbrev pub pair64 : Words → ℕ
pair64 s = bit_or (shl64 s.b 32) s.c

unfoldable pub hash_bytes_extended : Endian → Bool → List ℕ → ℕ → ℕ
hash_bytes_extended e aligned k seed =
    pair64 (final (digest e aligned k (perturb seed (start (length k)))))

unfoldable pub hash_bytes_uint32 : ℕ → ℕ
hash_bytes_uint32 k = let s = start 4 in (final (record s { a = add32 s.a k })).c

unfoldable pub hash_bytes_uint32_extended : ℕ → ℕ → ℕ
hash_bytes_uint32_extended k seed =
    let s = perturb seed (start 4) in pair64 (final (record s { a = add32 s.a k }))
