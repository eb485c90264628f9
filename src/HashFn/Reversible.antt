-- ===== src/HashFn/Reversible.antt =====
-- `mix` "is reversible, so any information in (a,b,c) before mix() is still in (a,b,c) after
-- mix()". So is `final`.
use luarunner.Base.{
  ℕ, ◌-◌, ◌^◌, ◌<◌, ◌≤◌, bit_xor, add32, sub32, sub32-add32, add32-sub32, ◌≡◌, ◌∙◌, ap, arith,
}
use luarunner.Bits.{rotl, rotl-lt, bit_xor_cancel, bit_xor-lt}
use luarunner.HashFn.Mix.{Words, IsWords, pg_rotate_left32, mix_line, mix_lines, mix}

pub rotate-lt : (x k : ℕ) → k ≤ 32 → x < 2 ^ 32 → pg_rotate_left32 x k < 2 ^ 32
unfolding pg_rotate_left32 rotl
rotate-lt x k h p = rotl-lt 32 x k (32 - k) (omega arith) p

unmix_line : ℕ → ℕ → ℕ → ℕ
unmix_line k x z = add32 (bit_xor x (pg_rotate_left32 z k)) z

unmix-mix_line : (k x z : ℕ) → x < 2 ^ 32 → z < 2 ^ 32 → unmix_line k (mix_line k x z) z ≡ x
unfolding unmix_line mix_line
unmix-mix_line k x z p q =
    ap (λ t. add32 t z) (bit_xor_cancel (sub32 x z) (pg_rotate_left32 z k)) ∙ add32-sub32 x z p q

mix_line-lt : (k x z : ℕ) → k ≤ 32 → z < 2 ^ 32 → mix_line k x z < 2 ^ 32
unfolding mix_line
mix_line-lt k x z h q =
    bit_xor-lt 32 (sub32 x z) (pg_rotate_left32 z k) (omega arith) (rotate-lt z k h q)

unmix_lines : ℕ → ℕ → ℕ → Words → Words
unmix_lines i j k s =
    let b₁ = sub32 s.b s.a in
    let c₁ = unmix_line k s.c b₁ in
    let a₁ = sub32 s.a c₁ in
    let b₀ = unmix_line j b₁ a₁ in
    let c₀ = sub32 c₁ b₀ in record { a = unmix_line i a₁ c₀; b = b₀; c = c₀ }

pub unmix : Words → Words
unmix s = unmix_lines 4 6 8 (unmix_lines 16 19 4 s)

module _ (i j k : ℕ) (hi : i ≤ 32) (hj : j ≤ 32) (hk : k ≤ 32) (s : Words) (h : IsWords s) where
  c₁ : ℕ
  c₁ = add32 s.c s.b

  a₁ : ℕ
  a₁ = mix_line i s.a s.c

  b₁ : ℕ
  b₁ = mix_line j s.b a₁

  a₁-lt : a₁ < 2 ^ 32
  unfolding a₁
  a₁-lt = mix_line-lt i s.a s.c hi h.2

  b₁-lt : b₁ < 2 ^ 32
  unfolding b₁
  b₁-lt = mix_line-lt j s.b a₁ hj a₁-lt

  c₁-lt : c₁ < 2 ^ 32
  unfolding c₁
  c₁-lt = omega arith

  mix_lines-IsWords : IsWords (mix_lines i j k s)
  unfolding mix_lines a₁ b₁ c₁
  mix_lines-IsWords = (omega arith, omega arith, mix_line-lt k c₁ b₁ hk b₁-lt)

  unmix-mix_lines : unmix_lines i j k (mix_lines i j k s) ≡ s
  unfolding mix_lines unmix_lines a₁ b₁ c₁
  unmix-mix_lines = cc (
    sub32-add32 b₁ (add32 a₁ c₁) b₁-lt (omega arith),
    unmix-mix_line k c₁ b₁ c₁-lt b₁-lt,
    sub32-add32 a₁ c₁ a₁-lt c₁-lt,
    unmix-mix_line j s.b a₁ h.1 a₁-lt,
    sub32-add32 s.c s.b h.2 h.1,
    unmix-mix_line i s.a s.c h.0 h.2,
  )

-- `mix` loses nothing: any three 32-bit words can be had back from what it makes of them, and
-- these are again three 32-bit words.
pub unmix-mix : (s : Words) → IsWords s → (unmix (mix s) ≡ s) × IsWords (mix s)
unfolding mix unmix
unmix-mix s h =
    let t = mix_lines 4 6 8 s in
    let t-words = mix_lines-IsWords 4 6 8 (omega arith) (omega arith) (omega arith) s h in
    (
      ap (unmix_lines 4 6 8)
            (unmix-mix_lines 16 19 4 (omega arith) (omega arith) (omega arith) t t-words)
          ∙ unmix-mix_lines 4 6 8 (omega arith) (omega arith) (omega arith) s h,
      mix_lines-IsWords 16 19 4 (omega arith) (omega arith) (omega arith) t t-words,
    )
