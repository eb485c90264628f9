-- ===== src/Strbuf/Append.antt =====
-- What the appending operations do to the string in the buffer.
use luarunner.Base.{
  ℕ, zero, suc, ◌+◌, ◌≤◌, ◌<◌, ◌≡◌, refl, sym, ◌∙◌, ap, arith, true, leb, List, [], ◌∷◌, ◌++◌,
  append_assoc, length, take, drop, length-append, length-take, length-drop, ok, negsuc, int_max,
}
use luarunner.Strbuf.{Strbuf, content, poke, strbuf_ensure_null, strbuf_append_mem_unsafe}

-- The block has the recorded size, and the string in it leaves room for the terminator. The
-- buffer grows by doubling, as `strbuf_init` sets it up.
pub record IsValid (s : Strbuf) : Type 0 where
  pub allocated : length s.buf ≡ s.size
  pub room : s.len < s.size
  pub max : s.size ≤ int_max
  pub doubling : s.increment ≡ negsuc 1

pub take_front {ℓ} : {A : Type ℓ} (n : ℕ) (xs ys : List A) → n ≡ length xs → take n (xs ++ ys) ≡ xs
take_front zero [] ys e = refl
take_front zero (x ∷ xs) ys e = absurd (omega arith)
take_front (suc n) [] ys e = absurd (omega arith)
take_front (suc n) (x ∷ xs) ys e = ap (λ t. x ∷ t) (take_front n xs ys (omega arith))

-- `t` is valid and holds the string of `s` with `bytes` behind it.
abbrev pub Appended : Strbuf → List ℕ → Strbuf → Type 0
Appended s bytes t = IsValid t × (content t ≡ content s ++ bytes) × (t.len ≡ s.len + length bytes)

module _ (s : Strbuf) (bytes : List ℕ) (v : IsValid s) (fits : s.len + length bytes < s.size) where
  written : List ℕ
  written = take s.len s.buf ++ (bytes ++ drop (s.len + length bytes) s.buf)

  front_length : length (take s.len s.buf) ≡ s.len
  front_length = omega (arith, length-take s.len s.buf, v.allocated, v.room)

  written-length : length written ≡ s.size
  unfolding written
  written-length = omega (
    arith,
    length-append (take s.len s.buf) (bytes ++ drop (s.len + length bytes) s.buf),
    length-append bytes (drop (s.len + length bytes) s.buf),
    length-drop (s.len + length bytes) s.buf,
    front_length,
    v.allocated,
  )

  written-content : take (s.len + length bytes) written ≡ content s ++ bytes
  unfolding written
  written-content =
      ap (take (s.len + length bytes))
        (sym (append_assoc (take s.len s.buf) bytes (drop (s.len + length bytes) s.buf)))
      ∙ take_front (s.len + length bytes) (take s.len s.buf ++ bytes) _
          (omega (arith, length-append (take s.len s.buf) bytes, front_length))

  -- Appending within the room that is there writes inside the block.
  pub append_unsafe_lem :
      (t : Strbuf) × (strbuf_append_mem_unsafe s bytes ≡ ok t)
      × Appended s bytes t
      × (t.size ≡ s.size)
  unfolding strbuf_append_mem_unsafe poke
  append_unsafe_lem = (
    record s { buf = written; len = s.len + length bytes },
    rw inside (unfold written in refl),
    (
      record { allocated = written-length; room = fits; max = v.max; doubling = v.doubling },
      written-content,
      refl,
    ),
    refl,
  )
    where
      inside : leb (s.len + length bytes) (length s.buf) ≡ true
      inside = ground (arith, v.allocated)

-- The NUL goes behind the string, which stays.
pub ensure_null_lem :
    (s : Strbuf)
    → IsValid s
    → (t : Strbuf) × (strbuf_ensure_null s ≡ ok t)
      × (content t ≡ content s)
      × IsValid t
      × (t.size ≡ s.size)
unfolding strbuf_ensure_null poke
ensure_null_lem s v = (
  record s { buf = block },
  rw inside,
  take_front s.len (take s.len s.buf) _ front,
  record { allocated = whole; room = v.room; max = v.max; doubling = v.doubling },
  refl,
)
  where
    block : List ℕ
    block = take s.len s.buf ++ ((0 ∷ []) ++ drop (s.len + 1) s.buf)

    inside : leb (s.len + 1) (length s.buf) ≡ true
    inside = ground (arith, v.allocated, v.room)

    whole : length block ≡ s.size
    whole = omega (
      arith,
      length-append (take s.len s.buf) ((0 ∷ []) ++ drop (s.len + 1) s.buf),
      length-drop (s.len + 1) s.buf,
      length-take s.len s.buf,
      v.allocated,
      v.room,
    )

    front : s.len ≡ length (take s.len s.buf)
    front = omega (arith, length-take s.len s.buf, v.allocated, v.room)
