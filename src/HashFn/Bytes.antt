-- ===== src/HashFn/Bytes.antt =====
-- The loop of `hash_bytes`: both ways of reading a word give the same number, and the loop stops.
use luarunner.Base.{
  ℕ, zero, suc, ◌+◌, ◌*◌, ◌<◌, ◌≤◌, List, leb, length, drop, ◌≡◌, refl, arith, IsBytes,
  get_or-IsByte, All-drop, length-drop, Bool-cases, inl, inr,
}
use luarunner.HashFn.{Endian, little, big, load, gather, absorb, rounds}
use luarunner.HashFn.Mix.{Words}

-- A word that is put together from its bytes is the word that the machine loads.
pub load-gather : (e : Endian) (k : List ℕ) (i : ℕ) → IsBytes k → load e k i ≡ gather e k i
unfolding load gather
load-gather little k i h = omega (
  arith,
  get_or-IsByte k (4 * i) h,
  get_or-IsByte k (4 * i + 1) h,
  get_or-IsByte k (4 * i + 2) h,
  get_or-IsByte k (4 * i + 3) h,
)
load-gather big k i h = omega (
  arith,
  get_or-IsByte k (4 * i) h,
  get_or-IsByte k (4 * i + 1) h,
  get_or-IsByte k (4 * i + 2) h,
  get_or-IsByte k (4 * i + 3) h,
)

absorb-load-gather :
    (e : Endian) (k : List ℕ) (s : Words) → IsBytes k → absorb (load e) k s ≡ absorb (gather e) k s
unfolding absorb
absorb-load-gather e k s h = cc (load-gather e k 0 h, load-gather e k 1 h, load-gather e k 2 h)

pub rounds-load-gather :
    (e : Endian) (f : ℕ) (k : List ℕ) (s : Words)
    → IsBytes k
    → rounds (load e) f k s ≡ rounds (gather e) f k s
unfolding rounds
rounds-load-gather e zero k s h = refl
rounds-load-gather e (suc f) k s h = cc (
  absorb-load-gather e k s h,
  rounds-load-gather e f (drop 12 k) (absorb (gather e) k s) (All-drop _ 12 k h),
)

-- With fuel for each byte the loop ends by its test: what it leaves are fewer than 12 bytes.
pub rounds_rest :
    (fetch : List ℕ → ℕ → ℕ) (f : ℕ) (k : List ℕ) (s : Words)
    → IsBytes k
    → length k ≤ f
    → let rest = (rounds fetch f k s).1 in (length rest < 12) × IsBytes rest
unfolding rounds
rounds_rest fetch zero k s h p = (omega arith, h)
rounds_rest fetch (suc f) k s h p = elim (Bool-cases (leb 12 (length k))) [
  | inl again ↦ rw again (
      rounds_rest fetch f (drop 12 k) (absorb fetch k s) (All-drop _ 12 k h)
        (omega (arith, length-drop 12 k)))
  | inr done ↦ rw done (ground arith, h)
]
