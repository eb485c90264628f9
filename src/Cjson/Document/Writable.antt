-- ===== src/Cjson/Document/Writable.antt =====
-- Which documents the encoder writes, and how much room it asks for.
use luarunner.Base.{
  ℕ, suc, ◌+◌, ◌*◌, ◌≤◌, ◌<◌, ◌≡◌, arith, true, false, ◌&&◌, leb, Bool, List, [], ◌∷◌, ◌++◌, length,
  length-append, int_max, none, ok,
}
use luarunner.Lua.{Double}
use luarunner.Fpconv.{Libc, fpconv_g_fmt}
use luarunner.Cjson.Config.{JsonConfig}
use luarunner.Cjson.Encode.{invalid_text}
use luarunner.Cjson.Quote.{quoted, quoted_upper}
use luarunner.Cjson.Document.{
  Json, null, empty, boolean, number, string, array, object, Items, last, item, Fields, last_field,
  field, print, print_items, print_fields,
}

unfoldable pub count : Items → ℕ
count (last j) = 1
count (item j items) = suc (count items)

-- A bound of the length of the text, with the room that is reserved for strings and numbers.
unfoldable mutual
  pub room_for : Json → ℕ
  room_for (number d) = 32
  room_for (string s) = length s * 6 + 2
  room_for (array items) = room_for_items items + 2
  room_for (object fields) = room_for_fields fields + 2
  room_for _ = 5

  pub room_for_items : Items → ℕ
  room_for_items (last j) = room_for j + 1
  room_for_items (item j items) = room_for j + 1 + room_for_items items

  pub room_for_fields : Fields → ℕ
  room_for_fields (last_field key j) = length key * 6 + 4 + room_for j
  room_for_fields (field key j fields) = length key * 6 + 4 + room_for j + room_for_fields fields

module _ (libc : Libc) (point : ℕ) (checkstack : ℕ → ℕ → Bool) (cfg : JsonConfig)
    (digits : Double → List ℕ) where
  abbrev pub Nests : ℕ → Type 0
  Nests depth = (leb depth cfg.encode_max_depth && checkstack depth 3) ≡ true

  -- The number is finite, and `digits` is what is written for it.
  abbrev pub Digits : Double → Type 0
  Digits d =
      (invalid_text d ≡ none)
      × (fpconv_g_fmt libc point d cfg.encode_number_precision ≡ ok (digits d, length (digits d)))
      × (length (digits d) < 32)

  -- The document nests no deeper than is allowed from `depth` on, its numbers can be written, and
  -- the test for sparse arrays does not overflow.
  unfoldable mutual
    pub Writable : ℕ → Json → Type 0
    Writable depth (number d) = Digits d
    Writable depth empty = Nests (suc depth)
    Writable depth (array items) =
        Nests (suc depth)
        × (count items * suc cfg.encode_sparse_ratio ≤ int_max)
        × WritableItems (suc depth) items
    Writable depth (object fields) = Nests (suc depth) × WritableFields (suc depth) fields
    Writable depth _ = Unit

    pub WritableItems : ℕ → Items → Type 0
    WritableItems depth (last j) = Writable depth j
    WritableItems depth (item j items) = Writable depth j × WritableItems depth items

    pub WritableFields : ℕ → Fields → Type 0
    WritableFields depth (last_field key j) = Writable depth j
    WritableFields depth (field key j fields) = Writable depth j × WritableFields depth fields

  mutual
    unfolding print room_for Writable

    pub length-print :
        (j : Json) (depth : ℕ) → Writable depth j → length (print digits j) ≤ room_for j
    length-print null depth w = omega arith
    length-print empty depth w = omega arith
    length-print (boolean true) depth w = omega arith
    length-print (boolean false) depth w = omega arith
    length-print (number d) depth w = omega (arith, w.2)
    length-print (string s) depth w = quoted_upper s
    length-print (array items) depth w = omega (
      arith,
      length-append (print_items digits items) (b']' ∷ []),
      length-print_items items (suc depth) w.2,
    )
    length-print (object fields) depth w = omega (
      arith,
      length-append (print_fields digits fields) (b'}' ∷ []),
      length-print_fields fields (suc depth) w.1,
    )

    pub length-print_items :
        (items : Items) (depth : ℕ)
        → WritableItems depth items
        → length (print_items digits items) + 1 ≤ room_for_items items
    length-print_items (last j) depth w = omega (arith, length-print j depth w)
    length-print_items (item j items) depth w = omega (
      arith,
      length-append (print digits j) (b',' ∷ print_items digits items),
      length-print j depth w.0,
      length-print_items items depth w.1,
    )

    pub length-print_fields :
        (fields : Fields) (depth : ℕ)
        → WritableFields depth fields
        → length (print_fields digits fields) + 1 ≤ room_for_fields fields
    length-print_fields (last_field key j) depth w = omega (
      arith,
      length-append (quoted key) (b':' ∷ print digits j),
      quoted_upper key,
      length-print j depth w,
    )
    length-print_fields (field key j fields) depth w = omega (
      arith,
      length-append (quoted key) (b':' ∷ (print digits j ++ (b',' ∷ print_fields digits fields))),
      length-append (print digits j) (b',' ∷ print_fields digits fields),
      quoted_upper key,
      length-print j depth w.0,
      length-print_fields fields depth w.1,
    )
