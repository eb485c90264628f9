-- ===== src/HashFn/Tail.antt =====
-- The switch at the end of `hash_bytes`: with whole words or byte by byte, the same is added.
use luarunner.Base.{
  ℕ, ◌+◌, ◌*◌, ◌<◌, ◌≤◌, true, false, List, leb, leb→le, add32, length, ◌≡◌, ◌∙◌, arith, IsBytes,
  get_or-IsByte, Bool-cases, inl, inr,
}
use luarunner.HashFn.{
  Endian, little, big, load, from_case, byte_at, word_shift, last_shift, tail_bytes, tail_words,
}
use luarunner.HashFn.Mix.{Words}

add_load :
    (e : Endian) (k : List ℕ) (i acc : ℕ)
    → IsBytes k
    → add32
        (add32
          (add32
            (add32 acc (byte_at k (4 * i + 3) (word_shift e 3)))
            (byte_at k (4 * i + 2) (word_shift e 2)))
          (byte_at k (4 * i + 1) (word_shift e 1)))
        (byte_at k (4 * i) (word_shift e 0))
      ≡ add32 acc (load e k i)
unfolding load
add_load little k i acc h = omega (
  arith,
  get_or-IsByte k (4 * i) h,
  get_or-IsByte k (4 * i + 1) h,
  get_or-IsByte k (4 * i + 2) h,
  get_or-IsByte k (4 * i + 3) h,
)
add_load big k i acc h = omega (
  arith,
  get_or-IsByte k (4 * i) h,
  get_or-IsByte k (4 * i + 1) h,
  get_or-IsByte k (4 * i + 2) h,
  get_or-IsByte k (4 * i + 3) h,
)

-- Which of the cases are reached.
module _ (n acc v₁ v₂ v₃ v₄ : ℕ) where
  abbrev high_cases : ℕ
  high_cases = from_case 9 n v₁ (from_case 10 n v₂ (from_case 11 n v₃ acc))

  abbrev middle_cases : ℕ
  middle_cases = from_case 5 n v₁ (from_case 6 n v₂ (from_case 7 n v₃ (from_case 8 n v₄ acc)))

  abbrev low_cases : ℕ
  low_cases = from_case 1 n v₁ (from_case 2 n v₂ (from_case 3 n v₃ (from_case 4 n v₄ acc)))

  no_high : n < 8 → high_cases ≡ acc
  no_high h = ground arith

  no_middle : n < 4 → middle_cases ≡ acc
  no_middle h = ground arith

  all_middle : 8 ≤ n → middle_cases ≡ add32 (add32 (add32 (add32 acc v₄) v₃) v₂) v₁
  all_middle h = ground arith

  not_eight : n < 8 → middle_cases ≡ from_case 5 n v₁ (from_case 6 n v₂ (from_case 7 n v₃ acc))
  not_eight h = ground arith

  all_low : 4 ≤ n → low_cases ≡ add32 (add32 (add32 (add32 acc v₄) v₃) v₂) v₁
  all_low h = ground arith

  not_four : n < 4 → low_cases ≡ from_case 1 n v₁ (from_case 2 n v₂ (from_case 3 n v₃ acc))
  not_four h = ground arith

-- The two switches do the same.
pub tail_words-tail_bytes :
    (e : Endian) (k : List ℕ) (s : Words) → IsBytes k → tail_words e k s ≡ tail_bytes e k s
unfolding tail_bytes
tail_words-tail_bytes e k s h = elim (Bool-cases (leb 8 n)) [
  | inl p ↦
      eight p
      ∙ cc (
        all_middle n s.b v₄ v₅ v₆ v₇ (leb→le 8 n p),
        all_low n s.a v₀ v₁ v₂ v₃ (omega (arith, leb→le 8 n p)),
        add_load e k 0 s.a h,
        add_load e k 1 s.b h,
      )
  | inr p ↦ elim (Bool-cases (leb 4 n)) [
    | inl q ↦
        four p q
        ∙ cc (
          no_high n s.c v₈ v₉ v₁₀ 0 (ground arith),
          not_eight n s.b v₄ v₅ v₆ v₇ (ground arith),
          all_low n s.a v₀ v₁ v₂ v₃ (leb→le 4 n q),
          add_load e k 0 s.a h,
        )
    | inr q ↦
        less p q
        ∙ cc (
          no_high n s.c v₈ v₉ v₁₀ 0 (ground arith),
          no_middle n s.b v₄ v₅ v₆ v₇ (ground arith),
          not_four n s.a v₀ v₁ v₂ v₃ (ground arith),
        )
  ]
]
  where
    n : ℕ
    n = length k

    v₀ : ℕ
    v₀ = byte_at k 0 (word_shift e 0)

    v₁ : ℕ
    v₁ = byte_at k 1 (word_shift e 1)

    v₂ : ℕ
    v₂ = byte_at k 2 (word_shift e 2)

    v₃ : ℕ
    v₃ = byte_at k 3 (word_shift e 3)

    v₄ : ℕ
    v₄ = byte_at k 4 (word_shift e 0)

    v₅ : ℕ
    v₅ = byte_at k 5 (word_shift e 1)

    v₆ : ℕ
    v₆ = byte_at k 6 (word_shift e 2)

    v₇ : ℕ
    v₇ = byte_at k 7 (word_shift e 3)

    v₈ : ℕ
    v₈ = byte_at k 8 (last_shift e 0)

    v₉ : ℕ
    v₉ = byte_at k 9 (last_shift e 1)

    v₁₀ : ℕ
    v₁₀ = byte_at k 10 (last_shift e 2)

    eight :
        leb 8 n ≡ true
        → tail_words e k s ≡ record {
          a = add32 s.a (load e k 0);
          b = add32 s.b (load e k 1);
          c = high_cases n s.c v₈ v₉ v₁₀ 0;
        }
    eight p = unfold tail_words in rw p

    four :
        leb 8 n ≡ false
        → leb 4 n ≡ true
        → tail_words e k s ≡ record {
          a = add32 s.a (load e k 0);
          b = from_case 5 n v₄ (from_case 6 n v₅ (from_case 7 n v₆ s.b));
          c = s.c;
        }
    four p q = unfold tail_words in rw (p, q)

    less :
        leb 8 n ≡ false
        → leb 4 n ≡ false
        → tail_words e k s ≡ record {
          a = from_case 1 n v₀ (from_case 2 n v₁ (from_case 3 n v₂ s.a));
          b = s.b;
          c = s.c;
        }
    less p q = unfold tail_words in rw (p, q)
