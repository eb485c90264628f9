-- ===== src/Murmur3/Finish.antt =====
-- The last steps of MurmurHash3_x64_128 lose nothing.
use luarunner.Base.{ℕ, ◌+◌, ◌-◌, ◌^◌, ◌<◌, ◌≡◌, refl, ◌∙◌, ap, arith, u64, add64}
use luarunner.Bits.{bit_xor-lt}
use luarunner.Murmur3.{Pair, spread_pair, finish_pair}
use luarunner.Murmur3.Scramble.{fmix64}
use luarunner.Murmur3.Undo.{unfmix64, unfmix64-fmix64}

abbrev sub64 : ℕ → ℕ → ℕ
sub64 a b = u64 (a + 2 ^ 64 - b)

sub64-add64 : (a b : ℕ) → a < 2 ^ 64 → b < 2 ^ 64 → sub64 (add64 b a) b ≡ a
sub64-add64 a b p q = omega arith

abbrev pub IsPair : Pair → Type 0
IsPair s = (s.h1 < 2 ^ 64) × (s.h2 < 2 ^ 64)

unspread_pair : Pair → Pair
unspread_pair s = let h2 = sub64 s.h2 s.h1 in record { h1 = sub64 s.h1 h2; h2 = h2 }

unspread_pair-spread_pair :
    (s : Pair) → IsPair s → (unspread_pair (spread_pair s) ≡ s) × IsPair (spread_pair s)
unfolding unspread_pair spread_pair
unspread_pair-spread_pair s h =
    let second : sub64 (add64 s.h2 (add64 s.h1 s.h2)) (add64 s.h1 s.h2) ≡ s.h2 = omega arith in
    let first : sub64 (add64 s.h1 s.h2) s.h2 ≡ s.h1 = omega arith in
    (rw (second, first) refl, (omega arith, omega arith))

fmix64-lt : (k : ℕ) → fmix64 k < 2 ^ 64
unfolding fmix64
fmix64-lt k = bit_xor-lt 64 _ _ (omega arith) (omega arith)

unfoldable pub unfinish_pair : Pair → Pair
unfolding unspread_pair
unfinish_pair s =
    let t = unspread_pair s in unspread_pair (record { h1 = unfmix64 t.h1; h2 = unfmix64 t.h2 })

-- The finalization of the 128-bit hash for 64-bit machines can be undone: two 64-bit words can be
-- had back from the two that it makes of them, which are again 64-bit words.
pub unfinish_pair-finish_pair :
    (s : Pair) → IsPair s → (unfinish_pair (finish_pair s) ≡ s) × IsPair (finish_pair s)
unfolding unfinish_pair finish_pair
unfinish_pair-finish_pair s h =
    let t : Pair = spread_pair s in
    let (back, t-IsPair) = unspread_pair-spread_pair s h in
    let u : Pair = record { h1 = fmix64 t.h1; h2 = fmix64 t.h2 } in
    let (back', out) = unspread_pair-spread_pair u (fmix64-lt t.h1, fmix64-lt t.h2) in
    (
      ap (λ (w : Pair). unspread_pair (record { h1 = unfmix64 w.h1; h2 = unfmix64 w.h2 })) back'
          ∙ ap unspread_pair
              (rw (unfmix64-fmix64 t.h1 t-IsPair.0, unfmix64-fmix64 t.h2 t-IsPair.1) refl)
          ∙ back,
      out,
    )
