-- ===== src/HashFn/Keys.antt =====
-- hashfn.c `string_hash`, `tag_hash` and `uint32_hash`: the entry points for hash tables. A key
-- is the memory from its address on, and a length fits the `int` that it is cast to.
use luarunner.Base.{
  ℕ, zero, suc, ◌+◌, ◌-◌, ◌<◌, ◌≤◌, ◌^◌, Bool, List, [], ◌∷◌, take, ltb, ◌==◌, Bool-cases, inl, inr,
  if◌then◌else◌, u64, ◌≡◌, refl, ◌∙◌, ap, arith, IsBytes,
}
use luarunner.HashFn.{Endian, little, big, load, hash_bytes, hash_bytes_uint32}
use luarunner.HashFn.Fixed.{word_bytes, hash_bytes_uint32_lem}

-- C's `strlen`: the bytes before the first NUL.
unfoldable pub strlen : List ℕ → ℕ
strlen [] = 0
strlen (b ∷ key) = if b == 0 then 0 else suc (strlen key)

-- `Min(s_len, keysize - 1)`; `keysize - 1` wraps as a `size_t`.
unfoldable pub string_hash : Endian → Bool → List ℕ → ℕ → ℕ
string_hash e aligned key keysize =
    let s_len = strlen key in
    let limit = u64 (keysize + 2 ^ 64 - 1) in
    hash_bytes e aligned (take (if ltb s_len limit then s_len else limit) key)

unfoldable pub tag_hash : Endian → Bool → List ℕ → ℕ → ℕ
tag_hash e aligned key keysize = hash_bytes e aligned (take keysize key)

unfoldable pub uint32_hash : Endian → List ℕ → ℕ
uint32_hash e key = hash_bytes_uint32 (load e key 0)

-- What a C string holds: everything before the NUL.
unfoldable pub c_string : List ℕ → List ℕ
c_string [] = []
c_string (b ∷ key) = if b == 0 then [] else b ∷ c_string key

take_below : (n : ℕ) (key : List ℕ) → n ≤ strlen key → take n key ≡ take n (c_string key)
unfolding strlen c_string
take_below zero key h = refl
take_below (suc n) [] h = refl
take_below (suc n) (b ∷ key) h = ground (arith, take_below n key)

take_all : (n : ℕ) (key : List ℕ) → strlen key ≤ n → take (strlen key) key ≡ take n (c_string key)
unfolding strlen c_string
take_all zero [] h = refl
take_all (suc n) [] h = refl
take_all zero (b ∷ key) h = elim (Bool-cases (b == 0)) [
  | inl nul ↦ rw nul
  | inr more ↦ absurd (ground (arith, h))
]
take_all (suc n) (b ∷ key) h = elim (Bool-cases (b == 0)) [
  | inl nul ↦ rw nul
  | inr more ↦ rw more (ap (λ t. b ∷ t) (take_all n key (ground arith)))
]

-- A string is hashed as the hash table will keep it: up to its NUL, and cut off after `keysize -
-- 1` bytes, for positive sizes below 2 ^ 31.
pub string_hash-take :
    (e : Endian) (aligned : Bool) (key : List ℕ) (keysize : ℕ)
    → 0 < keysize
    → keysize < 2 ^ 31
    → string_hash e aligned key keysize ≡ hash_bytes e aligned (take (keysize - 1) (c_string key))
unfolding string_hash
string_hash-take e aligned key keysize h k =
    let limit-is : u64 (keysize + 2 ^ 64 - 1) ≡ keysize - 1 = omega arith in
    rw limit-is (elim (Bool-cases (ltb (strlen key) (keysize - 1))) [
      | inl short ↦ rw short (ap (hash_bytes e aligned) (take_all _ key (ground arith)))
      | inr long ↦ rw long (ap (hash_bytes e aligned) (take_below _ key (ground arith)))
    ])

load_front :
    (e : Endian) (a b c d : ℕ) (rest : List ℕ)
    → load e (a ∷ b ∷ c ∷ d ∷ rest) 0 ≡ load e (word_bytes a b c d) 0
unfolding load
load_front little a b c d rest = refl
load_front big a b c d rest = refl

-- "tag_hash works for this case too": on a key of four bytes both give the same hash.
pub uint32_hash-tag_hash :
    (e : Endian) (aligned : Bool) (a b c d : ℕ) (rest : List ℕ)
    → IsBytes (word_bytes a b c d)
    → uint32_hash e (a ∷ b ∷ c ∷ d ∷ rest) ≡ tag_hash e aligned (a ∷ b ∷ c ∷ d ∷ rest) 4
unfolding uint32_hash tag_hash
uint32_hash-tag_hash e aligned a b c d rest h =
    ap hash_bytes_uint32 (load_front e a b c d rest)
    ∙ (hash_bytes_uint32_lem e aligned a b c d 0 h).0
