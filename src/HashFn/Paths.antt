-- ===== src/HashFn/Paths.antt =====
-- The two code paths of `hash_bytes` and `hash_bytes_extended` compute the same function.
use luarunner.Base.{ℕ, true, false, List, length, ◌≡◌, ◌∙◌, ap, IsBytes}
use luarunner.HashFn.{
  Endian, load, rounds, tail_bytes, digest, start, perturb, pair64, hash_bytes, hash_bytes_extended,
}
use luarunner.HashFn.Mix.{Words, final}
use luarunner.HashFn.Bytes.{rounds-load-gather, rounds_rest}
use luarunner.HashFn.Tail.{tail_words-tail_bytes}
use native.Mathlib.Nat.{le_refl}

digest-paths :
    (e : Endian) (k : List ℕ) (s : Words) → IsBytes k → digest e true k s ≡ digest e false k s
unfolding digest
digest-paths e k s h =
    tail_words-tail_bytes e (aligned.1) (aligned.0)
      (rounds_rest (load e) (length k) k s h (le_refl _)).1
    ∙ ap (λ (r : Words × List ℕ). tail_bytes e r.1 r.0) (rounds-load-gather e (length k) k s h)
  where
    aligned : Words × List ℕ
    aligned = rounds (load e) (length k) k s

-- The hash of a byte string does not depend on whether the string is word-aligned in memory,
-- on machines of either byte order; nor does the 64-bit hash, with any seed.
pub hash_bytes_paths :
    (e : Endian) (k : List ℕ) (seed : ℕ)
    → IsBytes k
    → (hash_bytes e true k ≡ hash_bytes e false k)
      × (hash_bytes_extended e true k seed ≡ hash_bytes_extended e false k seed)
unfolding hash_bytes hash_bytes_extended
hash_bytes_paths e k seed h = (
  ap (λ s. (final s).c) (digest-paths e k (start (length k)) h),
  ap (λ s. pair64 (final s)) (digest-paths e k (perturb seed (start (length k))) h),
)
