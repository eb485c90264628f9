-- ===== src/Cjson/Strings.antt =====
-- lua_cjson.c: `json_append_string`, which writes a JSON string, and `json_next_string_token`,
-- which reads one.
use luarunner.Base.{
  ℕ, zero, suc, ◌+◌, ◌*◌, Option, none, some, List, [], ◌∷◌, length, drop, ◌==◌, if◌then◌else◌,
  Result, ok, spent, ◌>>=◌, int, TokenError, unexpected_end, invalid_unicode_escape, invalid_escape,
}
use luarunner.Strbuf.{
  Allocator, Strbuf, content, strbuf_ensure_empty_length, strbuf_append_char_unsafe,
  strbuf_append_mem_unsafe, strbuf_append_string, strbuf_reset, strbuf_ensure_null,
}
use luarunner.Cjson.Escapes.{text, entry, escape2char}
use luarunner.Cjson.Utf8.{read}
use luarunner.Cjson.Unicode.{unicode_escape}

module _ (heap : Allocator) where
  -- `if (escstr) strbuf_append_string(...) else strbuf_append_char_unsafe(...)`.
  unfoldable pub append_escape : Strbuf → ℕ → Option (List ℕ) → Result Strbuf
  append_escape json c (some escstr) = strbuf_append_string heap json escstr
  append_escape json c none = strbuf_append_char_unsafe json c

  unfoldable pub append_chars : Strbuf → List ℕ → Result Strbuf
  append_chars json [] = ok json
  append_chars json (c ∷ str) = do
    next ← append_escape json c (text (entry c))
    append_chars next str

  -- The two quotes and what stands between them.
  unfoldable pub append_quoted : Strbuf → List ℕ → Result Strbuf
  append_quoted json str = do
    opened ← strbuf_append_char_unsafe json b'"'
    filled ← append_chars opened str
    strbuf_append_char_unsafe filled b'"'

  -- `str` is the Lua string on the stack. Room for the worst case, six bytes for each of `str`
  -- and the two quotes, is made first; the quotes and plain characters are written unchecked. (C
  -- leaves to the implementation what a `size_t` beyond `int` becomes; it counts as undefined.)
  unfoldable pub json_append_string : Strbuf → List ℕ → Result Strbuf
  json_append_string json str = do
    wanted ← int (length str * 6 + 2)
    roomy ← strbuf_ensure_empty_length heap json wanted
    append_quoted roomy str

-- `json_parse_t`: the memory from `json->ptr` on (with the NUL that ends the text), the offset
-- `json->ptr - json->data`, the buffer `json->tmp` and the depth of nesting.
pub record JsonParse : Type 0 where
  pub ptr : List ℕ
  pub offset : ℕ
  pub tmp : Strbuf
  pub current_depth : ℕ

-- T_STRING with its bytes, or T_ERROR with its index and message.
pub data StringToken : Type 0 where
  string : List ℕ → StringToken
  error : ℕ → TokenError → StringToken

abbrev pub advance : ℕ → JsonParse → JsonParse
advance n json = record json { ptr = drop n json.ptr; offset = json.offset + n }

abbrev pub set_token_error : JsonParse → TokenError → Result (StringToken × JsonParse)
set_token_error json errtype = ok (error json.offset errtype, json)

-- `strbuf_append_mem_unsafe(json->tmp, ...)`, and then the index moves on.
unfoldable pub accept : List ℕ → ℕ → JsonParse → Result JsonParse
accept bytes n json = do
  tmp ← strbuf_append_mem_unsafe json.tmp bytes
  ok (advance n (record json { tmp = tmp }))

-- What a character of the string does: it ends the string, it is wrong, or the loop goes on.
pub data Round : Type 0 where
  close : Round
  wrong : TokenError → Round
  next : JsonParse → Round

-- The part under `if (ch == '\\')`.
unfoldable pub escape_round : JsonParse → Result Round
escape_round json = read json.ptr 1 >>= λ e.
    let ch = escape2char e in
    if ch == b'u'
    then (unicode_escape json.ptr >>= λ found. elim found [
      | none ↦ ok (wrong invalid_unicode_escape)
      | some (utf8, escape_len) ↦ accept utf8 escape_len json >>= λ j. ok (next j)
    ])
    else if ch == 0
    then ok (wrong invalid_escape)
    else (accept (ch ∷ []) 2 json >>= λ j. ok (next j))

unfoldable pub string_round : JsonParse → Result Round
string_round json = read json.ptr 0 >>= λ ch.
    if ch == b'"'
    then ok close
    else if ch == 0
    then ok (wrong unexpected_end)
    else if ch == b'\\'
    then escape_round json
    else (accept (ch ∷ []) 1 json >>= λ j. ok (next j))

-- The loop, with fuel: each round moves the index on.
unfoldable pub string_loop : ℕ → JsonParse → Result (StringToken × JsonParse)
string_loop zero json = spent
string_loop (suc fuel) json = string_round json >>= λ r. elim r [
  | close ↦ (do
    tmp ← strbuf_ensure_null json.tmp
    ok (string (content tmp), advance 1 (record json { tmp = tmp })))
  | wrong e ↦ set_token_error json e
  | next j ↦ string_loop fuel j
]

-- The caller ensures that a quote stands at the index.
unfoldable pub json_next_string_token : JsonParse → Result (StringToken × JsonParse)
json_next_string_token json =
    let inside = advance 1 (record json { tmp = strbuf_reset json.tmp }) in
    string_loop (length json.ptr) inside
