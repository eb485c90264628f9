-- ===== src/Strbuf/Samples.antt =====
-- A concrete allocator, whose memory starts as zeros, and a concrete buffer.
use luarunner.Base.{
  ℕ, zero, suc, ◌≤◌, ◌≡◌, refl, ap, arith, List, [], ◌∷◌, length, take, some, negsuc, false, ok,
}
use luarunner.Strbuf.{Allocator, Strbuf, strbuf_init, strbuf_ensure_null, poke}
use luarunner.Strbuf.Append.{IsValid}

-- `old` cut off or filled up with zeros to `n` bytes.
resized : ℕ → List ℕ → List ℕ
resized zero old = []
resized (suc n) [] = 0 ∷ resized n []
resized (suc n) (x ∷ old) = x ∷ resized n old

resized_length : (n : ℕ) (old : List ℕ) → length (resized n old) ≡ n
unfolding resized
resized_length zero old = refl
resized_length (suc n) [] = ap suc (resized_length n [])
resized_length (suc n) (x ∷ old) = ap suc (resized_length n old)

take-resized :
    (n m : ℕ) (old : List ℕ) → m ≤ n → m ≤ length old → take m (resized n old) ≡ take m old
unfolding resized
take-resized n zero old h k = refl
take-resized n (suc m) [] h k = absurd (omega arith)
take-resized zero (suc m) (x ∷ old) h k = absurd (omega arith)
take-resized (suc n) (suc m) (x ∷ old) h k =
    ap (λ t. x ∷ t) (take-resized n m old (omega arith) (omega arith))

abbrev pub heap : Allocator
unfolding resized resized_length take-resized
heap = record {
  malloc = λ n. some (resized n []);
  realloc = λ old n. some (resized n old);
  malloc_size = λ n {block} e. cc (e, resized_length n []);
  realloc_size = λ old n {block} e. cc (e, resized_length n old);
  realloc_keeps = λ old n m {block} e h k. cc (e, take-resized n m old h k);
}

-- "lu" in a block of eight bytes.
abbrev pub sample : Strbuf
sample = record {
  buf = b'l' ∷ b'u' ∷ 0 ∷ 0 ∷ 0 ∷ 0 ∷ 0 ∷ 0 ∷ [];
  size = 8;
  len = 2;
  increment = negsuc 1;
  dynamic = false;
  reallocs = 0;
}

pub sample-IsValid : IsValid sample
sample-IsValid = record { allocated = refl; room = omega arith; max = omega arith; doubling = refl }

-- The buffer that `strbuf_init` makes for the default size.
pub first_buffer : (s : Strbuf) × (strbuf_init heap 0 ≡ ok s)
unfolding heap resized strbuf_init strbuf_ensure_null poke
first_buffer = (_, refl)
