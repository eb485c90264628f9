-- ===== src/HashFn/Mix.antt =====
-- hashfn.h `pg_rotate_left32` and hashfn.c `mix` and `final`: the scrambling of three words.
use luarunner.Base.{ℕ, ◌-◌, ◌^◌, ◌<◌, bit_or, bit_xor, add32, sub32, shl32, shr}

-- The internal state (a, b, c) of the hash.
pub record Words : Type 0 where
  pub a : ℕ
  pub b : ℕ
  pub c : ℕ

abbrev pub IsWords : Words → Type 0
IsWords s = (s.a < 2 ^ 32) × (s.b < 2 ^ 32) × (s.c < 2 ^ 32)

unfoldable pub pg_rotate_left32 : ℕ → ℕ → ℕ
pg_rotate_left32 word n = bit_or (shl32 word n) (shr word (32 - n))

-- `x -= z; x ^= rot(z, k);`
unfoldable pub mix_line : ℕ → ℕ → ℕ → ℕ
mix_line k x z = bit_xor (sub32 x z) (pg_rotate_left32 z k)

-- Three lines of `mix`, with their rotations.
unfoldable pub mix_lines : ℕ → ℕ → ℕ → Words → Words
mix_lines i j k s =
    let a₁ = mix_line i s.a s.c in
    let c₁ = add32 s.c s.b in
    let b₁ = mix_line j s.b a₁ in
    let a₂ = add32 a₁ c₁ in
    let c₂ = mix_line k c₁ b₁ in let b₂ = add32 b₁ a₂ in record { a = a₂; b = b₂; c = c₂ }

unfoldable pub mix : Words → Words
mix s = mix_lines 16 19 4 (mix_lines 4 6 8 s)

-- `z ^= y; z -= rot(y, k);`
unfoldable pub final_line : ℕ → ℕ → ℕ → ℕ
final_line k z y = sub32 (bit_xor z y) (pg_rotate_left32 y k)

unfoldable pub final : Words → Words
final s =
    let c₁ = final_line 14 s.c s.b in
    let a₁ = final_line 11 s.a c₁ in
    let b₁ = final_line 25 s.b a₁ in
    let c₂ = final_line 16 c₁ b₁ in
    let a₂ = final_line 4 a₁ c₂ in
    let b₂ = final_line 14 b₁ a₂ in
    let c₃ = final_line 24 c₂ b₂ in record { a = a₂; b = b₂; c = c₃ }
