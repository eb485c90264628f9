-- ===== src/Strbuf/Format.antt =====
-- strbuf.c: formatted output, and the end of a buffer.
use luarunner.Base.{
  ℕ, zero, suc, ◌+◌, ◌-◌, true, false, ltb, leb, if◌then◌else◌, List, Result, ok, die, undefined,
  spent, ◌>>=◌, ℤ, pos, negsuc, int,
}
use luarunner.Strbuf.{
  Allocator, Strbuf, poke, strbuf_empty_length, strbuf_resize, strbuf_ensure_empty_length,
}

-- `strbuf_extend_length`, for what `vsnprintf` returned. A length of less than 0 counts as
-- undefined: what is written next would stand before the block.
unfoldable pub strbuf_extend_length : Strbuf → ℤ → Result Strbuf
strbuf_extend_length s (pos n) = do sum ← int (s.len + n); ok (record s { len = sum })
strbuf_extend_length s (negsuc n) =
    if ltb n s.len then ok (record s { len = s.len - suc n }) else undefined

module _ (heap : Allocator) where
  -- What follows the call of `vsnprintf` in a round of the loop of `strbuf_append_fmt_retry`; `again`
  -- is the next round.
  unfoldable pub after_fmt : (t : ℕ) → Strbuf → (again : Strbuf → Result Strbuf) → ℤ → Result Strbuf
  after_fmt t s again (negsuc n) = strbuf_extend_length s (negsuc n)
  after_fmt t s again (pos n) = elim (leb n (strbuf_empty_length s)) [
    | true ↦ strbuf_extend_length s (pos n)
    | false ↦ elim (ltb 0 t) [
      | true ↦ die
      | false ↦ do wanted ← int (s.len + n); u ← strbuf_resize heap s wanted; again u
    ]
  ]

-- `vsnprintf` with a format and its arguments is a parameter: what its calls, counted from 0, write
-- for a size, and return.
module _ (heap : Allocator) (vsnprintf : (call size : ℕ) → List ℕ × ℤ) where
  unfoldable pub strbuf_append_fmt : Strbuf → ℕ → Result Strbuf
  strbuf_append_fmt s len = do
    t ← strbuf_ensure_empty_length heap s len
    block ← poke t.buf t.len (vsnprintf 0 len).0
    elim ((vsnprintf 0 len).1) [
      | negsuc n ↦ die
      | pos n ↦ strbuf_extend_length (record t { buf = block }) (pos n)
    ]

  unfoldable pub fmt_loop : (fuel t : ℕ) → Strbuf → Result Strbuf
  fmt_loop zero t s = spent
  fmt_loop (suc fuel) t s = do
    block ← poke s.buf s.len (vsnprintf t (strbuf_empty_length s + 1)).0
    after_fmt heap t (record s { buf = block }) (fmt_loop fuel (t + 1))
        (vsnprintf t (strbuf_empty_length s + 1)).1

  -- The second round is the last.
  unfoldable pub strbuf_append_fmt_retry : Strbuf → Result Strbuf
  strbuf_append_fmt_retry s = fmt_loop 2 0 s
