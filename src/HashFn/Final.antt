-- ===== src/HashFn/Final.antt =====
-- `final` can be undone as well, and so can the whole way from the state to the result.
use luarunner.Base.{ℕ, ◌^◌, ◌<◌, ◌≤◌, bit_xor, add32, add32-sub32, ◌≡◌, ◌∙◌, ap, arith}
use luarunner.Bits.{bit_xor_cancel, bit_xor-lt}
use luarunner.HashFn.Mix.{Words, IsWords, pg_rotate_left32, final_line, final}
use luarunner.HashFn.Reversible.{rotate-lt}

unfinal_line : ℕ → ℕ → ℕ → ℕ
unfinal_line k z y = bit_xor (add32 z (pg_rotate_left32 y k)) y

pub final_line-lt : (k z y : ℕ) → final_line k z y < 2 ^ 32
unfolding final_line
final_line-lt k z y = omega arith

undo : (k z y : ℕ) → k ≤ 32 → z < 2 ^ 32 → y < 2 ^ 32 → unfinal_line k (final_line k z y) y ≡ z
unfolding unfinal_line final_line
undo k z y h p q =
    ap (λ t. bit_xor t y)
      (add32-sub32 (bit_xor z y) (pg_rotate_left32 y k) (bit_xor-lt 32 z y p q) (rotate-lt y k h q))
    ∙ bit_xor_cancel z y

pub unfinal : Words → Words
unfinal s =
    let c₂ = unfinal_line 24 s.c s.b in
    let b₁ = unfinal_line 14 s.b s.a in
    let a₁ = unfinal_line 4 s.a c₂ in
    let c₁ = unfinal_line 16 c₂ b₁ in
    let b₀ = unfinal_line 25 b₁ a₁ in
    let a₀ = unfinal_line 11 a₁ c₁ in record { a = a₀; b = b₀; c = unfinal_line 14 c₁ b₀ }

-- `final` can be undone: three 32-bit words can be had back from the three that it makes of them,
-- which are again 32-bit words.
pub unfinal-final : (s : Words) → IsWords s → (unfinal (final s) ≡ s) × IsWords (final s)
unfolding final unfinal
unfinal-final s h = (
  cc (
    undo 24 c₂ b₂ (omega arith) (final_line-lt 16 c₁ b₁) (final_line-lt 14 b₁ a₂),
    undo 14 b₁ a₂ (omega arith) (final_line-lt 25 s.b a₁) (final_line-lt 4 a₁ c₂),
    undo 4 a₁ c₂ (omega arith) (final_line-lt 11 s.a c₁) (final_line-lt 16 c₁ b₁),
    undo 16 c₁ b₁ (omega arith) (final_line-lt 14 s.c s.b) (final_line-lt 25 s.b a₁),
    undo 25 s.b a₁ (omega arith) h.1 (final_line-lt 11 s.a c₁),
    undo 11 s.a c₁ (omega arith) h.0 (final_line-lt 14 s.c s.b),
    undo 14 s.c s.b (omega arith) h.2 h.1,
  ),
  (final_line-lt 4 a₁ c₂, final_line-lt 14 b₁ a₂, final_line-lt 24 c₂ b₂),
)
  where
    c₁ : ℕ
    c₁ = final_line 14 s.c s.b

    a₁ : ℕ
    a₁ = final_line 11 s.a c₁

    b₁ : ℕ
    b₁ = final_line 25 s.b a₁

    c₂ : ℕ
    c₂ = final_line 16 c₁ b₁

    a₂ : ℕ
    a₂ = final_line 4 a₁ c₂

    b₂ : ℕ
    b₂ = final_line 14 b₁ a₂

-- Whatever goes in, three 32-bit words come out.
pub final-IsWords : (s : Words) → IsWords (final s)
unfolding final
final-IsWords s = (final_line-lt _ _ _, final_line-lt _ _ _, final_line-lt _ _ _)
