-- ===== src/HashFn/Width.antt =====
-- The widths of the results, and how the 64-bit hash extends the 32-bit one.
use luarunner.Base.{ℕ, ◌+◌, ◌*◌, ◌%◌, ◌<◌, ◌^◌, Bool, List, length, ◌≡◌, arith}
use luarunner.Bits.{bit_or_parts}
use luarunner.HashFn.{Endian, digest, start, perturb, pair64, hash_bytes, hash_bytes_extended}
use luarunner.HashFn.Mix.{Words, IsWords, final}
use luarunner.HashFn.Final.{final-IsWords}

pair64_lem : (s : Words) → IsWords s → pair64 s ≡ s.b * 2 ^ 32 + s.c
pair64_lem s h =
    let whole : s.b * 2 ^ 32 % 2 ^ 64 ≡ s.b * 2 ^ 32 = omega arith in
    rw whole (bit_or_parts 32 s.b s.c h.2)

-- `hash_bytes` gives 32 bits and `hash_bytes_extended` 64. With the seed 0, "no seed", the low
-- 32 bits of the latter are the former.
pub hash_bytes_widths :
    (e : Endian) (aligned : Bool) (k : List ℕ) (seed : ℕ)
    → (hash_bytes e aligned k < 2 ^ 32)
      × (hash_bytes_extended e aligned k seed < 2 ^ 64)
      × (hash_bytes_extended e aligned k 0 % 2 ^ 32 ≡ hash_bytes e aligned k)
unfolding hash_bytes hash_bytes_extended
hash_bytes_widths e aligned k seed = (
  (final-IsWords (digest e aligned k (start (length k)))).2,
  omega (
    arith,
    pair64_lem seeded (final-IsWords _),
    final-IsWords (digest e aligned k (perturb seed (start (length k)))),
  ),
  low,
)
  where
    seeded : Words
    seeded = final (digest e aligned k (perturb seed (start (length k))))

    plain : Words
    plain = final (digest e aligned k (start (length k)))

    low : pair64 (final (digest e aligned k (perturb 0 (start (length k))))) % 2 ^ 32 ≡ plain.c
    low =
        unfold perturb in
        let words : IsWords plain = final-IsWords _ in omega (arith, pair64_lem plain words)
