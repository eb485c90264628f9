-- ===== src/Strbuf/Resize.antt =====
-- Making room, and the appending operations that do so first.
use luarunner.Base.{
  ℕ, ◌+◌, ◌*◌, ◌≤◌, ◌<◌, ◌≡◌, refl, ◌∙◌, ap, arith, ltb, ltb→lt, ltb→le, Bool-cases, inl, inr, List,
  ◌++◌, length, some, or_die, int_max,
}
use luarunner.Strbuf.{
  Allocator, Strbuf, content, strbuf_empty_length, strbuf_resize, strbuf_ensure_empty_length,
  strbuf_append_mem,
}
use luarunner.Strbuf.Growth.{calculate_new_size_lem, int_ok}
use luarunner.Strbuf.Outcome.{Ensures, Ensures->>=, Ensures-realloc}
use luarunner.Strbuf.Append.{IsValid, Appended, append_unsafe_lem}

-- `t` holds the string of `s` and has room for a string of `len` bytes.
abbrev pub HasRoom : Strbuf → ℕ → Strbuf → Type 0
HasRoom s len t = IsValid t × (content t ≡ content s) × (t.len ≡ s.len) × (len < t.size)

module _ (heap : Allocator) (s : Strbuf) (v : IsValid s) where
  reallocated :
      (len m : ℕ) (block : List ℕ)
      → heap.realloc s.buf m ≡ some block
      → s.len ≤ len
      → len < m
      → m ≤ int_max
      → HasRoom s len (record s { buf = block; size = m; reallocs = s.reallocs + 1 })
  reallocated len m block got p q r = (
    record {
      allocated = heap.realloc_size s.buf m got;
      room = omega arith;
      max = r;
      doubling = v.doubling;
    },
    heap.realloc_keeps s.buf m s.len got (omega arith) (omega (arith, v.allocated, v.room)),
    refl,
    q,
  )

  -- Resizing keeps the string and makes the room that was asked for, or ends the process.
  pub strbuf_resize_lem :
      (len : ℕ)
      → s.len ≤ len
      → 0 < len
      → (len + 1) * 2 ≤ int_max
      → Ensures heap (HasRoom s len) (strbuf_resize heap s len)
  unfolding strbuf_resize
  strbuf_resize_lem len p q fits =
      let (m, runs, room, max) =
        calculate_new_size_lem s len 0 v.doubling (omega (arith, v.room)) v.max q fits in
      rw runs (
        Ensures->>= heap _ _ (or_die (heap.realloc s.buf m)) _ (Ensures-realloc heap s.buf m)
          λ block got. reallocated len m block got p (omega arith) max)

  pub strbuf_ensure_empty_length_lem :
      (n : ℕ)
      → (s.len + n + 1) * 2 ≤ int_max
      → Ensures heap (HasRoom s (s.len + n)) (strbuf_ensure_empty_length heap s n)
  unfolding strbuf_ensure_empty_length
  strbuf_ensure_empty_length_lem n fits = elim (Bool-cases (ltb (strbuf_empty_length s) n)) [
    | inl full ↦
        rw (full, int_ok (s.len + n) (omega arith))
          (strbuf_resize_lem (s.len + n) (omega arith) (omega (arith, ltb→lt _ _ full)) fits)
    | inr enough ↦ rw enough (v, refl, refl, omega (arith, ltb→le _ _ enough, v.room))
  ]

  -- If the buffer is valid and twice the size needed is an `int`, `strbuf_append_mem` adds the
  -- bytes at the end and leaves the buffer valid, or the process ends because memory was refused.
  -- It never writes outside the block.
  pub strbuf_append_mem_lem :
      (bytes : List ℕ)
      → (s.len + length bytes + 1) * 2 ≤ int_max
      → Ensures heap (Appended s bytes) (strbuf_append_mem heap s bytes)
  unfolding strbuf_append_mem
  strbuf_append_mem_lem bytes fits =
      Ensures->>= heap _ _ (strbuf_ensure_empty_length heap s (length bytes)) _
        (strbuf_ensure_empty_length_lem (length bytes) fits)
        λ t room.
          let (u, runs, appended, _) = append_unsafe_lem t bytes room.0 (omega (arith, room)) in
          rw runs (
            appended.0,
            appended.1 ∙ ap (λ (x : List ℕ). x ++ bytes) room.1,
            omega (arith, appended.2, room),
          )
