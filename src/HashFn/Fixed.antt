-- ===== src/HashFn/Fixed.antt =====
-- The hashes of a single word, and the entry points for hash tables.
use luarunner.Base.{
  ℕ, ◌+◌, ◌%◌, ◌^◌, Bool, true, false, List, [], ◌∷◌, ◌≡◌, refl, sym, ◌∙◌, ap, IsBytes,
}
use luarunner.HashFn.{
  Endian, load, rounds, tail_words, digest, start, perturb, pair64, hash_bytes, hash_bytes_extended,
  hash_bytes_uint32, hash_bytes_uint32_extended,
}
use luarunner.HashFn.Mix.{Words, final}
use luarunner.HashFn.Paths.{hash_bytes_paths}

abbrev pub word_bytes : ℕ → ℕ → ℕ → ℕ → List ℕ
word_bytes a b c d = a ∷ b ∷ c ∷ d ∷ []

digest_word :
    (e : Endian) (a b c d : ℕ) (s : Words)
    → digest e true (word_bytes a b c d) s
      ≡ record s { a = (s.a + load e (word_bytes a b c d) 0) % 2 ^ 32 }
unfolding digest rounds tail_words
digest_word e a b c d s = refl

aligned_word :
    (e : Endian) (a b c d seed : ℕ)
    → let k = load e (word_bytes a b c d) 0 in
      (hash_bytes_uint32 k ≡ hash_bytes e true (word_bytes a b c d))
      × (hash_bytes_uint32_extended k seed ≡ hash_bytes_extended e true (word_bytes a b c d) seed)
unfolding hash_bytes hash_bytes_uint32 hash_bytes_extended hash_bytes_uint32_extended
aligned_word e a b c d seed = (
  ap (λ s. (final s).c) (sym (digest_word e a b c d (start 4))),
  ap (λ s. pair64 (final s)) (sym (digest_word e a b c d (perturb seed (start 4)))),
)

-- "This has the same result as hash_bytes(&k, sizeof(uint32))", wherever the four bytes of `k`
-- lie and in whichever order the machine keeps them; and likewise with a seed.
pub hash_bytes_uint32_lem :
    (e : Endian) (aligned : Bool) (a b c d seed : ℕ)
    → IsBytes (word_bytes a b c d)
    → let k = load e (word_bytes a b c d) 0 in
      (hash_bytes_uint32 k ≡ hash_bytes e aligned (word_bytes a b c d))
      × (hash_bytes_uint32_extended k seed
          ≡ hash_bytes_extended e aligned (word_bytes a b c d) seed)
hash_bytes_uint32_lem e true a b c d seed h = aligned_word e a b c d seed
hash_bytes_uint32_lem e false a b c d seed h =
    let (plain, seeded) = aligned_word e a b c d seed in
    let (path, seeded_path) = hash_bytes_paths e (word_bytes a b c d) seed h in
    (plain ∙ path, seeded ∙ seeded_path)
