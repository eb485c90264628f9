-- ===== src/Strbuf/Formatted.antt =====
-- strbuf.c: what formatted output appends.
use luarunner.Base.{
  ℕ, zero, suc, ◌+◌, ◌-◌, ◌*◌, ◌≤◌, ◌<◌, ◌≡◌, refl, sym, ◌∙◌, ap, arith, true, false, ltb, leb,
  Bool-cases, inl, inr, List, [], ◌∷◌, ◌++◌, append_assoc, append-nil, length, take, drop,
  length-append, length-take, length-drop, Result, ok, ℤ, pos, negsuc, int_max,
}
use luarunner.Strbuf.{Allocator, Strbuf, content, poke, strbuf_empty_length, strbuf_resize}
use luarunner.Strbuf.Growth.{int_ok}
use luarunner.Strbuf.Outcome.{Ensures, Ensures->>=, Ensures-map}
use luarunner.Strbuf.Append.{IsValid, Appended, take_front}
use luarunner.Strbuf.Resize.{HasRoom, strbuf_resize_lem}
use luarunner.Strbuf.Format.{strbuf_extend_length, after_fmt, fmt_loop, strbuf_append_fmt_retry}

-- What vsnprintf writes of `out` for a size.
unfoldable pub cut : ℕ → List ℕ → List ℕ
cut zero out = []
cut (suc n) out = take n out ++ (0 ∷ [])

-- As documented: every call writes as much of `out` as has room before a NUL, and returns its
-- length.
abbrev pub Formats : ((call size : ℕ) → List ℕ × ℤ) → List ℕ → Type 0
Formats vsnprintf out = (t n : ℕ) → vsnprintf t n ≡ (cut n out, pos (length out))

take_all : (n : ℕ) (xs : List ℕ) → length xs ≤ n → take n xs ≡ xs
take_all zero [] h = refl
take_all zero (x ∷ xs) h = absurd (omega arith)
take_all (suc n) [] h = refl
take_all (suc n) (x ∷ xs) h = ap (λ t. x ∷ t) (take_all n xs (omega arith))

length-cut : (n : ℕ) (out : List ℕ) → length (cut n out) ≤ n
unfolding cut
length-cut zero out = omega arith
length-cut (suc n) out = omega (arith, length-append (take n out) (0 ∷ []), length-take n out)

cut-whole : (n : ℕ) (out : List ℕ) → length out ≤ n → cut (n + 1) out ≡ out ++ (0 ∷ [])
unfolding cut
cut-whole n out h =
    let next : n + 1 ≡ suc n = omega arith in
    rw next (ap (λ (x : List ℕ). x ++ (0 ∷ [])) (take_all n out h))

-- Writing behind the string, up to the end of the block: what was there stays, and `front` follows.
Poked : Strbuf → List ℕ → List ℕ → Type 0
Poked s front bytes =
    (block : List ℕ) × (poke s.buf s.len bytes ≡ ok block)
    × (length block ≡ s.size)
    × (take (s.len + length front) block ≡ content s ++ front)

module _ (s : Strbuf) (v : IsValid s) where
  poke_lem :
      (front back : List ℕ)
      → s.len + length (front ++ back) ≤ s.size
      → Poked s front (front ++ back)
  unfolding Poked poke
  poke_lem front back h = (
    take s.len s.buf ++ ((front ++ back) ++ rest),
    rw inside refl,
    omega (
      arith,
      length-append (take s.len s.buf) ((front ++ back) ++ rest),
      length-append (front ++ back) rest,
      length-drop (s.len + length (front ++ back)) s.buf,
      front_length,
      v.allocated,
    ),
    ap (take (s.len + length front)) regrouped
        ∙ take_front (s.len + length front) (take s.len s.buf ++ front) (back ++ rest)
            (omega (arith, length-append (take s.len s.buf) front, front_length)),
  )
    where
      rest : List ℕ
      rest = drop (s.len + length (front ++ back)) s.buf

      inside : leb (s.len + length (front ++ back)) (length s.buf) ≡ true
      inside = ground (arith, v.allocated)

      front_length : length (take s.len s.buf) ≡ s.len
      front_length = omega (arith, length-take s.len s.buf, v.allocated, v.room)

      regrouped :
          take s.len s.buf ++ ((front ++ back) ++ rest)
          ≡ (take s.len s.buf ++ front) ++ (back ++ rest)
      regrouped =
          ap (λ (x : List ℕ). take s.len s.buf ++ x) (append_assoc front back rest)
          ∙ sym (append_assoc (take s.len s.buf) front (back ++ rest))

module _ (heap : Allocator) (vsnprintf : (call size : ℕ) → List ℕ × ℤ) (out : List ℕ)
    (documented : Formats vsnprintf out) where
  settled :
      (t : ℕ) (s : Strbuf) (block : List ℕ) (again : Strbuf → Result Strbuf)
      → IsValid s
      → length out ≤ strbuf_empty_length s
      → length block ≡ s.size
      → take (s.len + length out) block ≡ content s ++ out
      → Ensures heap
          (Appended s out)
          (after_fmt heap t (record s { buf = block }) again (pos (length out)))
  unfolding after_fmt strbuf_extend_length
  settled t s block again v h size holds =
      let fits : leb (length out) (strbuf_empty_length s) ≡ true = ground arith in
      rw (fits, after_fmt, int_ok (s.len + length out) (omega (arith, v.room, v.max)))
        (
          record {
            allocated = size;
            room = omega (arith, v.room);
            max = v.max;
            doubling = v.doubling;
          },
          holds,
          refl,
        )

  -- A round for which there is room.
  fmt_loop-fits :
      (fuel t : ℕ) (s : Strbuf)
      → IsValid s
      → length out ≤ strbuf_empty_length s
      → Ensures heap (Appended s out) (fmt_loop heap vsnprintf (suc fuel) t s)
  unfolding fmt_loop Poked
  fmt_loop-fits fuel t s v h =
      let (block, runs, size, holds) =
        poke_lem s v out (0 ∷ []) (omega (arith, length-append out (0 ∷ []), v.room)) in
      rw (documented t (strbuf_empty_length s + 1), cut-whole (strbuf_empty_length s) out h, runs)
        (settled t s block (fmt_loop heap vsnprintf fuel (t + 1)) v h size holds)

  resized :
      (s : Strbuf) (block : List ℕ)
      → IsValid s
      → strbuf_empty_length s < length out
      → length block ≡ s.size
      → take (s.len + 0) block ≡ content s ++ []
      → (s.len + length out + 1) * 2 ≤ int_max
      → Ensures heap (Appended s out) (
          after_fmt heap 0
            (record s { buf = block })
            (fmt_loop heap vsnprintf 1 1)
            (pos (length out)))
  unfolding after_fmt
  resized s block v h size holds bound =
      let full : leb (length out) (strbuf_empty_length s) ≡ false = ground arith in
      let u : Strbuf = record s { buf = block } in
      let end : s.len + 0 ≡ s.len = omega arith in
      let kept : take s.len block ≡ content s =
        ap (λ n. take n block) (sym end) ∙ holds ∙ append-nil (content s) in
      let valid : IsValid u = record {
        allocated = size;
        room = v.room;
        max = v.max;
        doubling = v.doubling;
      } in
      rw (full, after_fmt, int_ok (s.len + length out) (omega arith))
        (Ensures->>= heap (HasRoom u (s.len + length out)) (Appended s out)
          (strbuf_resize heap u (s.len + length out)) (fmt_loop heap vsnprintf 1 1)
          (strbuf_resize_lem heap u valid (s.len + length out) (omega arith) (omega arith) bound)
          λ w room.
            Ensures-map heap (Appended w out) (Appended s out) (fmt_loop heap vsnprintf 1 1 w)
              (λ r appended. (
                appended.0,
                appended.1 ∙ ap (λ (x : List ℕ). x ++ out) (room.1 ∙ kept),
                omega (arith, appended.2, room),
              ))
              (fmt_loop-fits 0 1 w room.0 (omega (arith, room))))

  -- The first round, when there is no room: the second has it.
  fmt_loop-grows :
      (s : Strbuf)
      → IsValid s
      → strbuf_empty_length s < length out
      → (s.len + length out + 1) * 2 ≤ int_max
      → Ensures heap (Appended s out) (fmt_loop heap vsnprintf 2 0 s)
  unfolding fmt_loop Poked
  fmt_loop-grows s v h bound =
      let (block, runs, size, holds) =
        poke_lem s v [] (cut (strbuf_empty_length s + 1) out)
          (omega (arith, length-cut (strbuf_empty_length s + 1) out, v.room)) in
      rw (documented 0 (strbuf_empty_length s + 1), runs) (resized s block v h size holds bound)

  -- If every call of vsnprintf formats `out`, the buffer is valid and twice the size needed is an
  -- `int`, `strbuf_append_fmt_retry` adds `out` at the end and leaves the buffer valid, with or
  -- without a second round, or the process ends because memory was refused. It never writes
  -- outside the block, and two rounds are enough.
  pub strbuf_append_fmt_retry_lem :
      (s : Strbuf)
      → IsValid s
      → (s.len + length out + 1) * 2 ≤ int_max
      → Ensures heap (Appended s out) (strbuf_append_fmt_retry heap vsnprintf s)
  unfolding strbuf_append_fmt_retry
  strbuf_append_fmt_retry_lem s v bound =
      elim (Bool-cases (leb (length out) (strbuf_empty_length s))) [
        | inl fits ↦ fmt_loop-fits 1 0 s v (ground arith)
        | inr full ↦ fmt_loop-grows s v (ground arith) bound
      ]

take-take : (m n : ℕ) (xs : List ℕ) → m ≤ n → take m (take n xs) ≡ take m xs
take-take zero n xs h = refl
take-take (suc m) zero xs h = absurd (omega arith)
take-take (suc m) (suc n) [] h = refl
take-take (suc m) (suc n) (x ∷ xs) h = ap (λ t. x ∷ t) (take-take m n xs (omega arith))

-- If vsnprintf returns -1, whatever it wrote within the size it was given, the error is not noticed:
-- a valid buffer that holds a string loses the last byte of it, and nothing is reported.
pub strbuf_append_fmt_retry_error :
    (heap : Allocator) (vsnprintf : (call size : ℕ) → List ℕ × ℤ) (s : Strbuf) (bytes : List ℕ)
    → IsValid s
    → 0 < s.len
    → vsnprintf 0 (strbuf_empty_length s + 1) ≡ (bytes, negsuc 0)
    → length bytes ≤ strbuf_empty_length s + 1
    → (t : Strbuf) × (strbuf_append_fmt_retry heap vsnprintf s ≡ ok t)
      × (content t ≡ take (s.len - 1) (content s))
      × (t.len ≡ s.len - 1)
unfolding strbuf_append_fmt_retry fmt_loop after_fmt strbuf_extend_length Poked
strbuf_append_fmt_retry_error heap vsnprintf s bytes v some_text error within =
    let (block, runs, size, holds) = poke_lem s v [] bytes (omega (arith, v.room)) in
    let left : ltb 0 s.len ≡ true = ground arith in
    let end : s.len + 0 ≡ s.len = omega arith in
    let kept : take s.len block ≡ content s =
      ap (λ n. take n block) (sym end) ∙ holds ∙ append-nil (content s) in
    (
      record s { buf = block; len = s.len - 1 },
      rw (error, runs, left) refl,
      sym (take-take (s.len - 1) s.len block (omega arith)) ∙ ap (take (s.len - 1)) kept,
      refl,
    )
