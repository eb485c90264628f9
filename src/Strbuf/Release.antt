-- ===== src/Strbuf/Release.antt =====
-- strbuf.c and strbuf.h: the end of a buffer.
use luarunner.Base.{
  ℕ, zero, suc, ◌≡◌, refl, Bool, true, false, if◌then◌else◌, List, Option, none, some, Result, ok,
  undefined, ◌>>=◌,
}
use luarunner.Strbuf.{Strbuf, strbuf_ensure_null}

-- What `strbuf_free` looks at: `buf` is `none` for NULL, and `freed` is set once the `strbuf_t` is freed.
pub record Handle : Type 0 where
  pub buf : Option (List ℕ)
  pub dynamic : Bool
  pub freed : Bool

abbrev pub handle : Strbuf → Handle
handle s = record { buf = some s.buf; dynamic = s.dynamic; freed = false }

abbrev strbuf_allocated : Handle → Bool
strbuf_allocated h = elim h.buf [ none ↦ false | some block ↦ true ]

-- The block is freed where there is one, then the `strbuf_t` if it was allocated.
unfoldable pub strbuf_free : Handle → Result Handle
strbuf_free h = if h.freed then undefined else ok (record h { buf = none; freed = h.dynamic })

-- The block, the length of the string in it, and whether the `strbuf_t` was freed.
strbuf_free_to_string : Strbuf → Result (List ℕ × ℕ × Bool)
strbuf_free_to_string s = do t ← strbuf_ensure_null s; ok (t.buf, t.len, t.dynamic)

free_times : ℕ → Handle → Result Handle
free_times zero h = ok h
free_times (suc n) h = strbuf_free h >>= free_times n

-- A buffer that was not allocated can be freed any number of times, and is free after the first.
strbuf_free-free_times :
    (n : ℕ) (buf : Option (List ℕ))
    → free_times (suc n) (record { buf = buf; dynamic = false; freed = false })
      ≡ ok (record { buf = none; dynamic = false; freed = false })
unfolding free_times strbuf_free
strbuf_free-free_times zero buf = refl
strbuf_free-free_times (suc n) buf = strbuf_free-free_times n none
