-- ===== src/Strbuf/Growth.antt =====
-- How far a buffer grows.
use luarunner.Base.{
  ℕ, zero, suc, ◌+◌, ◌-◌, ◌*◌, ◌/◌, ◌≤◌, ◌<◌, ◌≡◌, sym, ◌∙◌, ap, arith, false, ltb, ltb→lt, ltb→le,
  Bool-cases, inl, inr, if◌then◌else◌, ok, ◌==◌, pos, negsuc, int, int_max,
}
use native.Mathlib.Nat.{add-mul-div_right, div-eq_of_lt}
use luarunner.Strbuf.{Strbuf, grow, next_size, calculate_new_size}

pub int_ok : (n : ℕ) → n ≤ int_max → int n ≡ ok n
int_ok n h = ground arith

-- With the fuel given the loop ends, with room for the request and within the bound.
pub grow_lem :
    (fuel factor reqsize newsize bound : ℕ)
    → 2 ≤ factor
    → 0 < newsize
    → reqsize - newsize < fuel
    → reqsize * factor ≤ bound
    → newsize ≤ bound
    → bound ≤ int_max
    → (m : ℕ) × (grow fuel factor reqsize newsize ≡ ok m) × (reqsize ≤ m) × (m ≤ bound)
unfolding grow
grow_lem zero factor reqsize newsize bound two size_pos enough fits under top = absurd (omega arith)
grow_lem (suc fuel) factor reqsize newsize bound two size_pos enough fits under top =
    elim (Bool-cases (ltb newsize reqsize)) [
      | inl small ↦
          let below = ltb→lt _ _ small in
          let product : newsize * factor ≤ reqsize * factor = grind arith in
          let larger : newsize + newsize ≤ newsize * factor = grind arith in
          let (m, runs, room, bounded) =
            grow_lem fuel factor reqsize (newsize * factor) bound two (omega arith) (omega arith)
              fits (omega arith) top in
          (m, rw (small, int_ok (newsize * factor) (omega arith)) runs, room, bounded)
      | inr large ↦ (newsize, rw large, ltb→le _ _ large, under)
    ]

past_checks :
    (s : Strbuf) (len : ℕ)
    → 0 < len
    → len < int_max
    → calculate_new_size s len
      ≡ (if ltb (len + 1) s.size then ok (len + 1) else next_size s.increment s.size (len + 1))
unfolding calculate_new_size
past_checks s len p q =
    let asked : (len == 0) ≡ false = ground arith in rw (asked, int_ok (len + 1) (omega arith))

grown :
    (s : Strbuf) (len n : ℕ)
    → s.increment ≡ negsuc (suc n)
    → 0 < s.size
    → s.size ≤ int_max
    → (len + 1) * (n + 2) ≤ int_max
    → (m : ℕ) × (next_size s.increment s.size (len + 1) ≡ ok m) × (len + 1 ≤ m) × (m ≤ int_max)
unfolding next_size
grown s len n inc size_pos size_max fits =
    let factor : suc n + 1 ≡ n + 2 = omega arith in
    rw (inc, factor)
      (grow_lem (len + 1 + 1) (n + 2) (len + 1) s.size int_max (omega arith) size_pos (omega arith)
        fits size_max (omega arith))

-- For a request of `len` bytes, `len` not 0, `calculate_new_size` gives an `int` with room for
-- them and the terminator, if the buffer grows by a factor of two or more, its size is a positive
-- `int`, and the needed size times the factor is an `int`.
pub calculate_new_size_lem :
    (s : Strbuf) (len n : ℕ)
    → s.increment ≡ negsuc (suc n)
    → 0 < s.size
    → s.size ≤ int_max
    → 0 < len
    → (len + 1) * (n + 2) ≤ int_max
    → (m : ℕ) × (calculate_new_size s len ≡ ok m) × (len + 1 ≤ m) × (m ≤ int_max)
calculate_new_size_lem s len n inc size_pos size_max len_pos fits =
    let small : len < int_max = grind arith in
    elim (Bool-cases (ltb (len + 1) s.size)) [
      | inl shrink ↦
          (len + 1, past_checks s len len_pos small ∙ rw shrink, omega arith, omega arith)
      | inr keep ↦
          let (m, runs, room, max) = grown s len n inc size_pos size_max fits in
          (m, past_checks s len len_pos small ∙ rw keep runs, room, max)
    ]

-- In linear mode the request is not looked at: if the size is a multiple of the increment, a
-- request of `len` bytes that needs as much or more leaves the size as it is, where the numbers
-- are within `int`.
pub calculate_new_size_linear :
    (s : Strbuf) (len n q : ℕ)
    → s.increment ≡ pos (suc n)
    → s.size ≡ q * suc n
    → s.size ≤ len + 1
    → 0 < len
    → len < int_max
    → s.size + suc n ≤ int_max
    → calculate_new_size s len ≡ ok s.size
unfolding next_size
calculate_new_size_linear s len n q inc multiple more len_pos fits sum_fits =
    let keep : ltb (len + 1) s.size ≡ false = ground arith in
    past_checks s len len_pos fits
    ∙ rw (keep, inc, int_ok (s.size + suc n) sum_fits) (ap ok rounded)
  where
    rounded : (s.size + suc n - 1) / suc n * suc n ≡ s.size
    rounded =
        let over : s.size + suc n - 1 ≡ n + q * suc n = omega arith in
        let quotient : (s.size + suc n - 1) / suc n ≡ q =
          ap (λ (t : ℕ). t / suc n) over
          ∙ add-mul-div_right n q {z = suc n} (omega arith)
          ∙ omega (arith, div-eq_of_lt {n = n} {m = suc n} (omega arith)) in
        ap (λ (t : ℕ). t * suc n) quotient ∙ sym multiple
