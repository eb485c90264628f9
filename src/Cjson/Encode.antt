-- ===== src/Cjson/Encode.antt =====
-- lua_cjson.c: the encoder over Lua's values, and `json_encode`.
use luarunner.Base.{
  ℕ, zero, suc, ◌+◌, ◌*◌, Bool, true, false, ◌&&◌, Option, none, some, List, [], ◌∷◌, ◌++◌, ltb,
  leb, ◌==◌, if◌then◌else◌, Result, ok, raise, spent, undefined, ◌>>=◌, int, Reason, not_finite,
  sparse_array, bad_key, unsupported_type, cannot_serialise, excessive_nesting,
}
use luarunner.Lua.{
  Double, nan, infinite, positive, Value, nil, boolean, number, string, light_userdata, other,
  table, Entries, end, entry, rawgeti,
}
use luarunner.Fpconv.{Libc, fpconv_g_fmt, g_fmt_bufsize}
use luarunner.Strbuf.{
  Allocator, Strbuf, poke, strbuf_init, strbuf_reset, strbuf_string, strbuf_append_char,
  strbuf_append_mem, strbuf_ensure_empty_length,
}
use luarunner.Cjson.Strings.{json_append_string}
use luarunner.Cjson.Config.{JsonConfig}

abbrev pub not_kept : JsonConfig → Bool
not_kept cfg = cfg.encode_keep_buffer == 0

-- A buffer that is not kept is freed first.
abbrev pub json_encode_exception : {A : Type 0} → JsonConfig → Reason → Result A
json_encode_exception cfg reason = raise (not_kept cfg) (cannot_serialise reason)

abbrev pub is_infinity : Double → Bool
is_infinity (infinite false) = true
is_infinity _ = false

-- The `while` loop of `lua_array_length`: the largest key and the number of keys, if all are
-- positive integers or infinity, which passes the same test. To assign a `double` beyond INT_MAX to
-- an `int` is undefined.
unfoldable pub array_keys : Entries → ℕ → ℕ → Result (Option (ℕ × ℕ))
array_keys end max items = ok (some (max, items))
array_keys (entry (number k) item rest) max items = elim (is_infinity k) [
  | true ↦ undefined
  | false ↦ elim (positive k) [
    | none ↦ ok none
    | some n ↦ do
      larger ← if ltb max n then int n else ok max
      count ← int (items + 1)
      array_keys rest larger count
  ]
]
array_keys (entry key item rest) max items = ok none

-- "Encode excessively sparse arrays as objects (if enabled)"; `none` is -1.
unfoldable pub check_sparse : JsonConfig → ℕ → ℕ → Result (Option ℕ)
check_sparse cfg max items =
    if cfg.encode_sparse_ratio == 0
    then ok (some max)
    else (int (items * cfg.encode_sparse_ratio) >>= λ allowed.
        if ltb allowed max && ltb cfg.encode_sparse_safe max
        then (if cfg.encode_sparse_convert == 0
            then json_encode_exception cfg sparse_array
            else ok none)
        else ok (some max))

unfoldable pub lua_array_length : JsonConfig → Entries → Result (Option ℕ)
lua_array_length cfg entries = array_keys entries 0 0 >>= λ keys. elim keys [
  | none ↦ ok none
  | some (max, items) ↦ check_sparse cfg max items
]

-- What a number that is not finite becomes: an error, or a text.
abbrev pub text_of_infinity : Bool → List ℕ
text_of_infinity true = b'-' ∷ b'I' ∷ b'n' ∷ b'f' ∷ b'i' ∷ b'n' ∷ b'i' ∷ b't' ∷ b'y' ∷ []
text_of_infinity false = b'I' ∷ b'n' ∷ b'f' ∷ b'i' ∷ b'n' ∷ b'i' ∷ b't' ∷ b'y' ∷ []

abbrev pub null_text : List ℕ
null_text = b'n' ∷ b'u' ∷ b'l' ∷ b'l' ∷ []

-- `none` for a finite number.
unfoldable pub invalid_text : Double → Option (List ℕ)
invalid_text nan = some (b'N' ∷ b'a' ∷ b'N' ∷ [])
invalid_text (infinite negative) = some (text_of_infinity negative)
invalid_text _ = none

-- `checkstack depth slots`: whether `lua_checkstack` finds the slots at this depth.
module _ (heap : Allocator) (libc : Libc) (point : ℕ) (checkstack : ℕ → ℕ → Bool)
    (cfg : JsonConfig) where
  -- The first argument counts levels of nesting.
  unfoldable pub json_check_encode_depth : ℕ → Result (Unit {0})
  json_check_encode_depth current_depth =
      if leb current_depth cfg.encode_max_depth && checkstack current_depth 3
      then ok tt
      else raise (not_kept cfg) (excessive_nesting current_depth)

  -- `fpconv_g_fmt` writes to the reserved room, a NUL behind the text, and the length grows.
  unfoldable pub append_finite : Strbuf → Double → Result Strbuf
  append_finite json num = do
    roomy ← strbuf_ensure_empty_length heap json g_fmt_bufsize
    (text, len) ← fpconv_g_fmt libc point num cfg.encode_number_precision
    block ← poke roomy.buf roomy.len (text ++ (0 ∷ []))
    ok (record roomy { buf = block; len = roomy.len + len })

  unfoldable pub append_invalid : Strbuf → List ℕ → Result Strbuf
  append_invalid json text =
      if cfg.encode_invalid_numbers == 0
      then json_encode_exception cfg not_finite
      else if cfg.encode_invalid_numbers == 1
      then strbuf_append_mem heap json text
      else strbuf_append_mem heap json null_text

  unfoldable pub json_append_number : Strbuf → Double → Result Strbuf
  json_append_number json num = elim (invalid_text num) [
    | some text ↦ append_invalid json text
    | none ↦ append_finite json num
  ]

  unfoldable pub append_comma : Bool → Strbuf → Result Strbuf
  append_comma true json = strbuf_append_char heap json b','
  append_comma false json = ok json

  unfoldable pub append_key : Strbuf → Value → Result Strbuf
  append_key json (number k) = do
    opened ← strbuf_append_char heap json b'"'
    written ← json_append_number opened k
    strbuf_append_mem heap written (b'"' ∷ b':' ∷ [])
  append_key json (string k) = do
    written ← json_append_string heap json k
    strbuf_append_char heap written b':'
  append_key json _ = json_encode_exception cfg bad_key

  -- The loops over the items, with the function for the values in them.
  module _ (append_data : Value → Strbuf → Result Strbuf) where
    -- `count` items from index `i` on.
    unfoldable pub array_items : Entries → ℕ → ℕ → Bool → Strbuf → Result Strbuf
    array_items entries zero i comma json = ok json
    array_items entries (suc count) i comma json = do
      ready ← append_comma comma json
      written ← append_data (rawgeti i entries) ready
      array_items entries count (suc i) true written

    unfoldable pub json_append_array : Entries → ℕ → Strbuf → Result Strbuf
    json_append_array entries array_length json = do
      opened ← strbuf_append_char heap json b'['
      filled ← array_items entries array_length 1 false opened
      strbuf_append_char heap filled b']'

    unfoldable pub object_items : Entries → Bool → Strbuf → Result Strbuf
    object_items end comma json = ok json
    object_items (entry key item rest) comma json = do
      ready ← append_comma comma json
      keyed ← append_key ready key
      written ← append_data item keyed
      object_items rest true written

    unfoldable pub json_append_object : Entries → Strbuf → Result Strbuf
    json_append_object entries json = do
      opened ← strbuf_append_char heap json b'{'
      filled ← object_items entries false opened
      strbuf_append_char heap filled b'}'

    -- The case LUA_TTABLE, at the new depth.
    unfoldable pub append_table : ℕ → Entries → Strbuf → Result Strbuf
    append_table depth entries json = do
      _ ← json_check_encode_depth depth
      len ← lua_array_length cfg entries
      elim len [
        | some (suc n) ↦ json_append_array entries (suc n) json
        | _ ↦ json_append_object entries json
      ]

  -- The fuel bounds the nesting.
  unfoldable pub json_append_data : ℕ → ℕ → Value → Strbuf → Result Strbuf
  json_append_data fuel depth (string s) json = json_append_string heap json s
  json_append_data fuel depth (number d) json = json_append_number json d
  json_append_data fuel depth (boolean true) json =
      strbuf_append_mem heap json (b't' ∷ b'r' ∷ b'u' ∷ b'e' ∷ [])
  json_append_data fuel depth (boolean false) json =
      strbuf_append_mem heap json (b'f' ∷ b'a' ∷ b'l' ∷ b's' ∷ b'e' ∷ [])
  json_append_data zero depth (table entries) json = spent
  json_append_data (suc fuel) depth (table entries) json =
      append_table (json_append_data fuel (suc depth)) (suc depth) entries json
  json_append_data fuel depth nil json = strbuf_append_mem heap json null_text
  json_append_data fuel depth (light_userdata zero) json = strbuf_append_mem heap json null_text
  json_append_data fuel depth (light_userdata (suc p)) json =
      json_encode_exception cfg unsupported_type
  json_append_data fuel depth other json = json_encode_exception cfg unsupported_type

  -- "Use private buffer" or "Reuse existing buffer".
  unfoldable pub encode_buffer : Result Strbuf
  encode_buffer =
      if not_kept cfg
      then strbuf_init heap 0
      else elim cfg.encode_buf [ none ↦ undefined | some kept ↦ ok (strbuf_reset kept) ]

  -- The text, and the buffer as it is kept for the next call.
  unfoldable pub json_encode : Value → Result (List ℕ × Option Strbuf)
  json_encode v = do
    start ← encode_buffer
    filled ← json_append_data (suc cfg.encode_max_depth) 0 v start
    ok (strbuf_string filled, if not_kept cfg then none else some filled)
