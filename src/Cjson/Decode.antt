-- ===== src/Cjson/Decode.antt =====
-- lua_cjson.c: the parser over the tokens, and `json_decode`.
use luarunner.Base.{
  ℕ, zero, suc, ◌+◌, ◌-◌, Bool, true, false, ◌&&◌, ◌||◌, List, [], ◌∷◌, ◌++◌, leb, ◌==◌,
  if◌then◌else◌, length, Result, ok, raise, spent, ◌>>=◌, int, pos, Expected, object_key_string,
  colon_sign, value, comma_or_object_end, comma_or_array_end, the_end, Found, token_name, message,
  expected_but_found, too_many_nested, not_utf8,
}
use luarunner.Lua.{Double, Value, Entries, rawset, light_userdata, table}
use luarunner.Fpconv.{Libc}
use luarunner.Strbuf.{Allocator, strbuf_new}
use luarunner.Cjson.Strings.{JsonParse}
use luarunner.Cjson.Config.{JsonConfig}
use luarunner.Cjson.Tokens.{
  Token, obj_begin, obj_end, arr_begin, arr_end, colon, comma, end, null, string, number, boolean,
  error, token_type, JsonToken, json_next_token,
}

abbrev pub found : Token → Found
found (error e) = message e
found t = token_name (token_type t)

-- `json_throw_parse_error`, which frees `json->tmp` first.
abbrev pub json_throw_parse_error : {A : Type 0} → Expected → JsonToken → Result A
json_throw_parse_error exp token =
    raise true (expected_but_found exp (found token.token) (token.index + 1))

-- A parsed value is left on the Lua stack.
abbrev pub Parsed : Type 0
Parsed = Result (Value × JsonParse)

abbrev pub json_decode_ascend : JsonParse → JsonParse
json_decode_ascend json = record json { current_depth = json.current_depth - 1 }

-- "Detect Unicode other than UTF-8."
abbrev pub wide_text : List ℕ → Bool
wide_text (a ∷ b ∷ text) = (a == 0) || (b == 0)
wide_text _ = false

-- `checkstack depth slots`: whether `lua_checkstack` finds the slots at this depth.
module _ (heap : Allocator) (libc : Libc) (point : ℕ) (checkstack : ℕ → ℕ → Bool)
    (cfg : JsonConfig) where
  unfoldable pub json_decode_descend : ℕ → JsonParse → Result JsonParse
  json_decode_descend slots json =
      let depth = json.current_depth + 1 in
      if leb depth cfg.decode_max_depth && checkstack depth slots
      then ok (record json { current_depth = depth })
      else raise true (too_many_nested depth json.offset)

  abbrev pub next_token : JsonParse → Result (JsonToken × JsonParse)
  next_token json = json_next_token heap libc point cfg json

  -- The loops over the items of an object and of an array, on fuel, with the function for the
  -- values in them. The token is the first one of the item.
  module _ (process_value : JsonToken → JsonParse → Parsed) where
    -- Behind the value of a key: the end, or a comma and the first token of the next item.
    unfoldable pub object_loop : ℕ → Entries → JsonToken → JsonParse → Parsed
    object_loop zero items token json = spent
    object_loop (suc fuel) items token json = elim token.token [
      | string key ↦ do
        (colon_token, j₁) ← next_token json
        elim colon_token.token [
          | colon ↦ do
            (value_token, j₂) ← next_token j₁
            (item, j₃) ← process_value value_token j₂
            let all = rawset (Value.string key) item items
            (after, j₄) ← next_token j₃
            elim after.token [
              | obj_end ↦ ok (table all, json_decode_ascend j₄)
              | comma ↦ (next_token j₄ >>= λ (again, j₅). object_loop fuel all again j₅)
              | _ ↦ json_throw_parse_error comma_or_object_end after
            ]
          | _ ↦ json_throw_parse_error colon_sign colon_token
        ]
      | _ ↦ json_throw_parse_error object_key_string token
    ]

    unfoldable pub json_parse_object_context : ℕ → JsonParse → Parsed
    json_parse_object_context fuel json = do
      inside ← json_decode_descend 3 json
      (token, j) ← next_token inside
      elim token.token [
        | obj_end ↦ ok (table Entries.end, json_decode_ascend j)
        | _ ↦ object_loop fuel Entries.end token j
      ]

    unfoldable pub array_loop : ℕ → ℕ → Entries → JsonToken → JsonParse → Parsed
    array_loop zero i items token json = spent
    array_loop (suc fuel) i items token json = do
      (item, j₁) ← process_value token json
      let all = rawset (Value.number (Double.integer (pos i))) item items
      (after, j₂) ← next_token j₁
      elim after.token [
        | arr_end ↦ ok (table all, json_decode_ascend j₂)
        | comma ↦ (next_token j₂ >>= λ (again, j₃). array_loop fuel (suc i) all again j₃)
        | _ ↦ json_throw_parse_error comma_or_array_end after
      ]

    unfoldable pub json_parse_array_context : ℕ → JsonParse → Parsed
    json_parse_array_context fuel json = do
      inside ← json_decode_descend 2 json
      (token, j) ← next_token inside
      elim token.token [
        | arr_end ↦ ok (table Entries.end, json_decode_ascend j)
        | _ ↦ array_loop fuel 1 Entries.end token j
      ]

  -- Fuel bounds both the nesting and the items of one object or array.
  unfoldable pub json_process_value : ℕ → JsonToken → JsonParse → Parsed
  json_process_value zero token json = spent
  json_process_value (suc fuel) token json = elim token.token [
    | string s ↦ ok (Value.string s, json)
    | number d ↦ ok (Value.number d, json)
    | boolean b ↦ ok (Value.boolean b, json)
    | obj_begin ↦ json_parse_object_context (json_process_value fuel) fuel json
    | arr_begin ↦ json_parse_array_context (json_process_value fuel) fuel json
    | null ↦ ok (light_userdata 0, json)
    | _ ↦ json_throw_parse_error value token
  ]

  -- "Ensure there is no more input left."
  unfoldable pub no_more_input : Value → JsonParse → Result Value
  no_more_input v json = do
    (token, after) ← next_token json
    elim token.token [ end ↦ ok v | _ ↦ json_throw_parse_error the_end token ]

  -- `text` is the argument; Lua keeps a NUL behind it.
  unfoldable pub json_decode : List ℕ → Result Value
  json_decode text = if wide_text text then raise false not_utf8 else do
    json_len ← int (length text)
    tmp ← strbuf_new heap json_len
    let memory = text ++ (0 ∷ [])
    (token, json) ← next_token (record { ptr = memory; offset = 0; tmp = tmp; current_depth = 0 })
    (v, rest) ← json_process_value (length memory) token json
    no_more_input v rest
