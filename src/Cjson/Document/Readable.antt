-- ===== src/Cjson/Document/Readable.antt =====
-- Which documents the parser reads, and what it means to read one.
use luarunner.Base.{
  ℕ, ◌+◌, ◌<◌, ◌≡◌, refl, Bool, true, false, ◌&&◌, leb, List, length, IsBytes, Result, ok,
}
use luarunner.Lua.{Double, Value, Entries}
use luarunner.Fpconv.{Libc}
use luarunner.Strbuf.{Allocator, Strbuf}
use luarunner.Strbuf.Append.{IsValid}
use luarunner.Cjson.Config.{JsonConfig}
use luarunner.Cjson.Strings.{JsonParse}
use luarunner.Cjson.Tokens.{
  Token, JsonToken, json_next_token, obj_begin, obj_end, arr_begin, arr_end,
}
use luarunner.Cjson.Decode.{Parsed, object_loop, array_loop, json_process_value}
use luarunner.Cjson.Document.{
  Json, empty, number, string, array, object, Items, last, item, Fields, last_field, field,
}
use luarunner.Cjson.Document.Numbers.{Reads}

-- A token with which a value begins, or a key.
abbrev pub opens : Token → Bool
opens Token.null = true
opens (Token.string s) = true
opens (Token.number d) = true
opens (Token.boolean b) = true
opens obj_begin = true
opens arr_begin = true
opens _ = false

pub not_arr_end {ℓ} :
    {A : Type ℓ} (t : Token) (a b : A) → opens t ≡ true → elim t [ arr_end ↦ a | _ ↦ b ] ≡ b
not_arr_end arr_end a b h = cc
not_arr_end _ a b h = refl

pub not_obj_end {ℓ} :
    {A : Type ℓ} (t : Token) (a b : A) → opens t ≡ true → elim t [ obj_end ↦ a | _ ↦ b ] ≡ b
not_obj_end obj_end a b h = cc
not_obj_end _ a b h = refl

module _ (heap : Allocator) (libc : Libc) (point : ℕ) (checkstack : ℕ → ℕ → Bool) (cfg : JsonConfig)
    (digits : Double → List ℕ) (room : ℕ) where
  abbrev pub Descends : ℕ → ℕ → Type 0
  Descends depth slots =
      (leb (depth + 1) cfg.decode_max_depth && checkstack (depth + 1) slots) ≡ true

  -- The document nests no deeper than is allowed from `depth` on, its strings are shorter than
  -- `room`, and its numbers are read back.
  unfoldable mutual
    pub Readable : ℕ → Json → Type 0
    Readable depth (number d) = Reads heap libc point cfg (digits d) d
    Readable depth (string s) = IsBytes s × (length s < room)
    Readable depth empty = Descends depth 3
    Readable depth (array items) = Descends depth 2 × ReadableItems (depth + 1) items
    Readable depth (object fields) = Descends depth 3 × ReadableFields (depth + 1) fields
    Readable depth _ = Unit

    pub ReadableItems : ℕ → Items → Type 0
    ReadableItems depth (last j) = Readable depth j
    ReadableItems depth (item j items) = Readable depth j × ReadableItems depth items

    pub ReadableFields : ℕ → Fields → Type 0
    ReadableFields depth (last_field key j) = (IsBytes key × (length key < room)) × Readable depth j
    ReadableFields depth (field key j fields) =
        (IsBytes key × (length key < room)) × Readable depth j × ReadableFields depth fields

  abbrev pub next : JsonParse → Result (JsonToken × JsonParse)
  next json = json_next_token heap libc point cfg json

  -- The next token opens something that `continue` reads as `v`, up to `rest`.
  pub record ReadAs (continue : JsonToken → JsonParse → Parsed) (start : JsonParse) (v : Value)
      (after : Strbuf → JsonParse) : Type 0 where
    pub token : JsonToken
    pub inside : JsonParse
    pub tmp : Strbuf
    pub found : next start ≡ ok (token, inside)
    pub is_open : opens token.token ≡ true
    pub runs : continue token inside ≡ ok (v, after tmp)
    pub valid : IsValid tmp
    pub same : tmp.size ≡ room

  abbrev pub process : ℕ → JsonToken → JsonParse → Parsed
  process fuel = json_process_value heap libc point checkstack cfg fuel

  abbrev pub items_loop : ℕ → ℕ → ℕ → Entries → JsonToken → JsonParse → Parsed
  items_loop values fuel = array_loop heap libc point checkstack cfg (process values) fuel

  abbrev pub fields_loop : ℕ → ℕ → Entries → JsonToken → JsonParse → Parsed
  fields_loop values fuel = object_loop heap libc point checkstack cfg (process values) fuel
