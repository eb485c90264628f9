-- ===== src/Strbuf/New.antt =====
-- A new buffer: empty, valid, and as large as was asked for.
use luarunner.Base.{
  ℕ, ◌+◌, ◌≤◌, ◌<◌, ◌≡◌, refl, arith, Bool, List, [], some, ◌>>=◌, or_die, int_max, negsuc, false,
  ◌==◌, Option, none, inl,
}
use luarunner.Strbuf.{
  Allocator, Strbuf, content, sizeof_strbuf, strbuf_init, strbuf_new, strbuf_ensure_null,
}
use luarunner.Strbuf.Growth.{int_ok}
use luarunner.Strbuf.Outcome.{Ensures, Ensures->>=}
use luarunner.Strbuf.Append.{IsValid, ensure_null_lem}

module _ (heap : Allocator) where
  -- The buffer is valid and empty, and its block has room for `len` bytes and the terminator.
  abbrev pub IsNew : ℕ → Strbuf → Type 0
  IsNew size s = IsValid s × (content s ≡ []) × (s.size ≡ size)

  pub Ensures-malloc :
      (n : ℕ) → Ensures heap (λ block. heap.malloc n ≡ some block) (or_die (heap.malloc n))
  Ensures-malloc n = answered (heap.malloc n) refl
    where
      answered :
          (o : Option (List ℕ))
          → heap.malloc n ≡ o
          → Ensures heap (λ block. heap.malloc n ≡ some block) (or_die o)
      answered none e = inl (n, e)
      answered (some block) e = e

  abbrev fresh : List ℕ → ℕ → Bool → Strbuf
  fresh block size dynamic = record {
    buf = block;
    size = size;
    len = 0;
    increment = negsuc 1;
    dynamic = dynamic;
    reallocs = 0;
  }

  started :
      (size : ℕ)
      → 0 < size
      → size ≤ int_max
      → Ensures heap
          (IsNew size)
          (or_die (heap.malloc size) >>= λ block. strbuf_ensure_null (fresh block size false))
  started size p q =
      Ensures->>= heap _ _ (or_die (heap.malloc size)) _ (Ensures-malloc size) λ block got.
        let empty : IsValid (fresh block size false) = record {
          allocated = heap.malloc_size size got;
          room = p;
          max = q;
          doubling = refl;
        } in
        let (t, runs, same, valid, kept) = ensure_null_lem (fresh block size false) empty in
        rw runs (valid, same, kept)

  pub strbuf_init_lem :
      (len : ℕ) → 0 < len → len < int_max → Ensures heap (IsNew (len + 1)) (strbuf_init heap len)
  unfolding strbuf_init
  strbuf_init_lem len p q =
      let some_length : (len == 0) ≡ false = ground arith in
      rw (some_length, int_ok (len + 1) (omega arith))
        (started (len + 1) (omega arith) (omega arith))

  -- The length 0 stands for the default size.
  pub strbuf_init-default : Ensures heap (IsNew 1023) (strbuf_init heap 0)
  unfolding strbuf_init
  strbuf_init-default = started 1023 (omega arith) (omega arith)

  pub strbuf_new_lem :
      (len : ℕ) → 0 < len → len < int_max → Ensures heap (IsNew (len + 1)) (strbuf_new heap len)
  unfolding strbuf_new
  strbuf_new_lem len p q =
      Ensures->>= heap _ _ (or_die (heap.malloc sizeof_strbuf)) _ (Ensures-malloc sizeof_strbuf)
        λ itself got.
          Ensures->>= heap _ _ (strbuf_init heap len) _ (strbuf_init_lem len p q) λ s fresh. (
            record {
              allocated = fresh.0.allocated;
              room = fresh.0.room;
              max = fresh.0.max;
              doubling = fresh.0.doubling;
            },
            fresh.1,
            fresh.2,
          )
