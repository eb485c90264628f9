-- ===== src/Strbuf.antt =====
-- strbuf.c and strbuf.h: the growing byte buffer behind the JSON encoder and decoder.
pub mod Growth
pub mod Outcome
pub mod Append
pub mod Resize
pub mod Text
pub mod Reserved
pub mod New
pub mod Format
pub mod Formatted
pub mod Release
pub mod Samples
mod Tests
use luarunner.Base.{
  ℕ, zero, suc, ◌+◌, ◌-◌, ◌*◌, ◌/◌, ◌≤◌, ◌≡◌, Bool, true, false, Option, none, some, List, [], ◌∷◌,
  ◌++◌, ltb, leb, ◌==◌, if◌then◌else◌, length, take, drop, Result, ok, die, undefined, spent, ◌>>=◌,
  ◌>>◌, assert, or_die, ℤ, pos, negsuc, int,
}

-- The C library's allocator. A block is the list of its bytes; `none` is NULL.
pub record Allocator : Type 0 where
  pub malloc : ℕ → Option (List ℕ)
  pub realloc : List ℕ → ℕ → Option (List ℕ)
  pub malloc_size : (n : ℕ) {block : List ℕ} → malloc n ≡ some block → length block ≡ n
  pub realloc_size :
      (old : List ℕ) (n : ℕ) {block : List ℕ} → realloc old n ≡ some block → length block ≡ n
  pub realloc_keeps :
      (old : List ℕ) (n m : ℕ) {block : List ℕ}
      → realloc old n ≡ some block
      → m ≤ n
      → m ≤ length old
      → take m block ≡ take m old

-- `strbuf_t`, but for `debug`, which only prints. `buf` is the block that `s->buf` points to.
pub record Strbuf : Type 0 where
  pub buf : List ℕ
  pub size : ℕ
  pub len : ℕ
  pub increment : ℤ
  pub dynamic : Bool
  pub reallocs : ℕ

-- The string that the buffer holds.
abbrev pub content : Strbuf → List ℕ
content s = take s.len s.buf

-- With its length, a list.
abbrev pub strbuf_string : Strbuf → List ℕ
strbuf_string s = content s

-- A copy of `bytes` to `buf + i`; outside the block it is undefined.
unfoldable pub poke : List ℕ → ℕ → List ℕ → Result (List ℕ)
poke block i bytes =
    if leb (i + length bytes) (length block)
    then ok (take i block ++ (bytes ++ drop (i + length bytes) block))
    else undefined

unfoldable pub strbuf_set_increment : Strbuf → ℤ → Result Strbuf
strbuf_set_increment s (pos zero) = die
strbuf_set_increment s (negsuc zero) = die
strbuf_set_increment s increment = ok (record s { increment = increment })

abbrev pub strbuf_reset : Strbuf → Strbuf
strbuf_reset s = record s { len = 0 }

-- `s->size - s->length - 1`, for a buffer with room for the terminator.
abbrev pub strbuf_empty_length : Strbuf → ℕ
strbuf_empty_length s = s.size - s.len - 1

-- `s->buf[s->length] = 0`.
unfoldable pub strbuf_ensure_null : Strbuf → Result Strbuf
strbuf_ensure_null s = do block ← poke s.buf s.len (0 ∷ []); ok (record s { buf = block })

-- `memcpy(s->buf + s->length, c, len); s->length += len;`
unfoldable pub strbuf_append_mem_unsafe : Strbuf → List ℕ → Result Strbuf
strbuf_append_mem_unsafe s bytes = do
  block ← poke s.buf s.len bytes
  ok (record s { buf = block; len = s.len + length bytes })

abbrev pub strbuf_append_char_unsafe : Strbuf → ℕ → Result Strbuf
strbuf_append_char_unsafe s c = strbuf_append_mem_unsafe s (c ∷ [])

-- `while (newsize < reqsize) newsize *= factor;`
unfoldable pub grow : ℕ → ℕ → ℕ → ℕ → Result ℕ
grow zero factor reqsize newsize = spent
grow (suc fuel) factor reqsize newsize =
    let again = int (newsize * factor) >>= grow fuel factor reqsize in
    if ltb newsize reqsize then again else ok newsize

-- The sizes from which an unshrunk buffer grows: by a factor, or to a multiple.
unfoldable pub next_size : ℤ → ℕ → ℕ → Result ℕ
next_size (negsuc n) size reqsize = grow (reqsize + 1) (n + 1) reqsize size
next_size (pos n) size reqsize = do sum ← int (size + n); ok ((sum - 1) / n * n)

unfoldable pub calculate_new_size : Strbuf → ℕ → Result ℕ
calculate_new_size s len = if len == 0 then die else do
  reqsize ← int (len + 1)
  if ltb reqsize s.size then ok reqsize else next_size s.increment s.size reqsize

-- `sizeof(strbuf_t)`, with pointers of 64 bits.
abbrev pub sizeof_strbuf : ℕ
sizeof_strbuf = 32

module _ (heap : Allocator) where
  unfoldable pub strbuf_init : ℕ → Result Strbuf
  strbuf_init len = do
    size ← if len == 0 then ok 1023 else int (len + 1)
    block ← or_die (heap.malloc size)
    strbuf_ensure_null (record {
      buf = block;
      size = size;
      len = 0;
      increment = negsuc 1;
      dynamic = false;
      reallocs = 0;
    })

  unfoldable pub strbuf_new : ℕ → Result Strbuf
  strbuf_new len = do
    itself ← or_die (heap.malloc sizeof_strbuf)
    s ← strbuf_init len
    ok (record s { dynamic = true })

  unfoldable pub strbuf_resize : Strbuf → ℕ → Result Strbuf
  strbuf_resize s len = do
    newsize ← calculate_new_size s len
    block ← or_die (heap.realloc s.buf newsize)
    ok (record s { buf = block; size = newsize; reallocs = s.reallocs + 1 })

  unfoldable pub strbuf_ensure_empty_length : Strbuf → ℕ → Result Strbuf
  strbuf_ensure_empty_length s len =
      if ltb (strbuf_empty_length s) len
      then (do wanted ← int (s.len + len); strbuf_resize s wanted)
      else ok s

  unfoldable pub strbuf_append_mem : Strbuf → List ℕ → Result Strbuf
  strbuf_append_mem s bytes = do
    t ← strbuf_ensure_empty_length s (length bytes)
    strbuf_append_mem_unsafe t bytes

  abbrev pub strbuf_append_char : Strbuf → ℕ → Result Strbuf
  strbuf_append_char s c = strbuf_append_mem s (c ∷ [])

  -- The loop over the bytes before the NUL; `space` is looked up again only after a resize.
  unfoldable pub append_bytes : Strbuf → ℕ → List ℕ → Result Strbuf
  append_bytes s space [] = ok s
  append_bytes s space (c ∷ str) = elim (ltb space 1) [
    | true ↦ do
      wanted ← int (s.len + 1)
      t ← strbuf_resize s wanted
      u ← strbuf_append_mem_unsafe t (c ∷ [])
      append_bytes u (strbuf_empty_length t - 1) str
    | false ↦ do u ← strbuf_append_mem_unsafe s (c ∷ []); append_bytes u (space - 1) str
  ]

  unfoldable pub strbuf_append_string : Strbuf → List ℕ → Result Strbuf
  strbuf_append_string s str = append_bytes s (strbuf_empty_length s) str
