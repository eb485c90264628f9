-- ===== src/Cjson/Document/Frames.antt =====
-- What the encoder appends around the values of a document: brackets, separators and keys.
use luarunner.Base.{
  ℕ, suc, ◌+◌, ◌*◌, ◌≤◌, ◌<◌, ◌≡◌, sym, arith, Bool, true, false, List, [], ◌∷◌, ◌++◌, append_assoc,
  length, length-append, append-nil, int_max, ok, Result, ◌>>=◌,
}
use luarunner.Lua.{Double, Value, Entries}
use luarunner.Fpconv.{Libc}
use luarunner.Strbuf.{Allocator, Strbuf, content, strbuf_append_char}
use luarunner.Strbuf.Outcome.{Ensures->>=}
use luarunner.Strbuf.Append.{IsValid, Appended}
use luarunner.Strbuf.Resize.{strbuf_append_mem_lem}
use luarunner.Cjson.Strings.{json_append_string}
use luarunner.Cjson.Config.{JsonConfig}
use luarunner.Cjson.Quote.{quoted, quoted_upper, json_append_string_lem}
use luarunner.Cjson.Encode.{
  json_append_data, array_items, object_items, json_append_array, json_append_object, append_table,
  append_key, append_comma, json_check_encode_depth,
}
use luarunner.Cjson.Document.{
  Json, Items, last, item, Fields, print_items, print_fields, entries_from, entries_of,
}
use luarunner.Cjson.Document.Writable.{count, Writable, WritableItems, WritableFields, Nests}
use luarunner.Cjson.Document.Tables.{
  lua_array_length-entries_from, lua_array_length-entries_of, lua_array_length_empty,
}
use luarunner.Cjson.Document.Pieces.{Fits, Appends, both, separator, append_comma_lem}

module _ (heap : Allocator) (libc : Libc) (point : ℕ) (checkstack : ℕ → ℕ → Bool) (cfg : JsonConfig)
    (digits : Double → List ℕ) where
  abbrev pub Good : ℕ → Json → Type 0
  Good = Writable libc point checkstack cfg digits

  abbrev pub GoodItems : ℕ → Items → Type 0
  GoodItems = WritableItems libc point checkstack cfg digits

  abbrev pub GoodFields : ℕ → Fields → Type 0
  GoodFields = WritableFields libc point checkstack cfg digits

  abbrev pub append : ℕ → ℕ → Value → Strbuf → Result Strbuf
  append = json_append_data heap libc point checkstack cfg

  abbrev pub Enough : ℕ → ℕ → Type 0
  Enough fuel depth = cfg.encode_max_depth < fuel + depth

  pub depth_bound :
      (depth : ℕ) → Nests libc point checkstack cfg digits depth → depth ≤ cfg.encode_max_depth
  depth_bound depth h = ground (arith, h)

  -- A sign, a text and a sign.
  enclosed :
      (a b : ℕ) (text : List ℕ) (s : Strbuf) (run : Strbuf → Result Strbuf)
      → IsValid s
      → Fits heap s (length text + 2)
      → ((t : Strbuf) → IsValid t → t.len ≡ s.len + 1 → Appends heap t text (run t))
      → Appends heap s (a ∷ (text ++ (b ∷ []))) (
          strbuf_append_char heap s a >>= λ opened.
          run opened >>= λ filled. strbuf_append_char heap filled b)
  enclosed a b text s run v fits k =
      both heap s (a ∷ []) (text ++ (b ∷ [])) (strbuf_append_char heap s a) _
        (strbuf_append_mem_lem heap s v (a ∷ []) (omega (arith, fits)))
        λ t opened. both heap t text (b ∷ []) (run t) _ (k t opened.0 opened.2) λ u filled.
          strbuf_append_mem_lem heap u filled.0 (b ∷ []) (omega (arith, fits, opened.2, filled.2))

  pub array_written :
      (run : Value → Strbuf → Result Strbuf) (depth : ℕ) (items : Items) (s : Strbuf)
      → Nests libc point checkstack cfg digits depth
      → count items * suc cfg.encode_sparse_ratio ≤ int_max
      → IsValid s
      → Fits heap s (length (print_items digits items) + 2)
      → ((t : Strbuf)
          → IsValid t
          → t.len ≡ s.len + 1
          → Appends heap t (print_items digits items) (
              array_items heap libc point checkstack cfg run
                (entries_from 1 items)
                (count items)
                1
                false
                t))
      → Appends heap s
          (b'[' ∷ (print_items digits items ++ (b']' ∷ [])))
          (append_table heap libc point checkstack cfg run depth (entries_from 1 items) s)
  unfolding append_table json_check_encode_depth json_append_array count
  array_written run depth (last j) s nests dense v fits k =
      rw (nests, lua_array_length-entries_from cfg (last j) dense)
        (enclosed b'[' b']' (print_items digits (last j)) s
          (array_items heap libc point checkstack cfg run (entries_from 1 (last j)) (count (last j))
            1 false)
          v fits k)
  array_written run depth (item j items) s nests dense v fits k =
      rw (nests, lua_array_length-entries_from cfg (item j items) dense)
        (enclosed b'[' b']' (print_items digits (item j items)) s
          (array_items heap libc point checkstack cfg run (entries_from 1 (item j items))
            (count (item j items)) 1 false)
          v fits k)

  pub object_written :
      (run : Value → Strbuf → Result Strbuf) (depth : ℕ) (fields : Fields) (s : Strbuf)
      → Nests libc point checkstack cfg digits depth
      → IsValid s
      → Fits heap s (length (print_fields digits fields) + 2)
      → ((t : Strbuf)
          → IsValid t
          → t.len ≡ s.len + 1
          → Appends heap t
              (print_fields digits fields)
              (object_items heap libc point checkstack cfg run (entries_of fields) false t))
      → Appends heap s
          (b'{' ∷ (print_fields digits fields ++ (b'}' ∷ [])))
          (append_table heap libc point checkstack cfg run depth (entries_of fields) s)
  unfolding append_table json_check_encode_depth json_append_object
  object_written run depth fields s nests v fits k =
      rw (nests, lua_array_length-entries_of cfg fields)
        (enclosed b'{' b'}' (print_fields digits fields) s
          (object_items heap libc point checkstack cfg run (entries_of fields) false) v fits k)

  pub empty_written :
      (run : Value → Strbuf → Result Strbuf) (depth : ℕ) (s : Strbuf)
      → Nests libc point checkstack cfg digits depth
      → IsValid s
      → Fits heap s 2
      → Appends heap s
          (b'{' ∷ b'}' ∷ [])
          (append_table heap libc point checkstack cfg run depth Entries.end s)
  unfolding append_table json_check_encode_depth json_append_object object_items
  empty_written run depth s nests v fits =
      rw (nests, lua_array_length_empty cfg)
        (enclosed b'{' b'}' [] s (λ t. ok t) v fits
          λ t valid one. (valid, sym (append-nil (content t)), omega arith))

  pub returned :
      (s : Strbuf) (a : List ℕ) (r : Result Strbuf)
      → Appends heap s a r
      → Appends heap s a (r >>= λ written. ok written)
  returned s a r h = Ensures->>= heap (Appended s a) (Appended s a) r _ h λ t more. more

  -- A separator, a value, and more.
  pub item_written :
      (comma : Bool) (s : Strbuf) (text : List ℕ) (run : Strbuf → Result Strbuf)
      → IsValid s
      → Fits heap s 1
      → ((t : Strbuf) → IsValid t → t.len ≤ s.len + 1 → Appends heap t text (run t))
      → Appends heap s
          (separator heap comma ++ text)
          (append_comma heap libc point checkstack cfg comma s >>= λ ready. run ready)
  item_written comma s text run v fits k =
      both heap s (separator heap comma) text (append_comma heap libc point checkstack cfg comma s)
        run (append_comma_lem heap libc point checkstack cfg digits comma s v fits)
        λ t more. k t more.0 (omega (arith, more.2, separator_length comma))
    where
      separator_length : (comma : Bool) → length (separator heap comma) ≤ 1
      separator_length true = omega arith
      separator_length false = omega arith

  key_written :
      (key : List ℕ) (s : Strbuf)
      → IsValid s
      → Fits heap s (length key * 6 + 3)
      → Appends heap s
          (quoted key ++ (b':' ∷ []))
          (append_key heap libc point checkstack cfg s (Value.string key))
  unfolding append_key
  key_written key s v fits =
      both heap s (quoted key) (b':' ∷ []) (json_append_string heap s key) _
        (json_append_string_lem heap s key v (omega (arith, fits)))
        λ t more.
          strbuf_append_mem_lem heap t more.0 (b':' ∷ [])
            (omega (arith, fits, more.2, quoted_upper key))

  -- A separator, a key, and more.
  pub field_written :
      (comma : Bool) (key : List ℕ) (s : Strbuf) (text : List ℕ) (run : Strbuf → Result Strbuf)
      → IsValid s
      → Fits heap s (length key * 6 + 4)
      → ((t : Strbuf)
          → IsValid t
          → t.len ≤ s.len + (length key * 6 + 4)
          → Appends heap t text (run t))
      → Appends heap s (separator heap comma ++ (quoted key ++ (b':' ∷ text))) (
          append_comma heap libc point checkstack cfg comma s >>= λ ready.
          append_key heap libc point checkstack cfg ready (Value.string key) >>= λ keyed. run keyed)
  field_written comma key s text run v fits k =
      item_written comma s (quoted key ++ (b':' ∷ text)) _ v (omega (arith, fits)) λ t valid sep.
        rw (← append_assoc (quoted key) (b':' ∷ []) text) (
          both heap t (quoted key ++ (b':' ∷ [])) text
            (append_key heap libc point checkstack cfg t (Value.string key)) run
            (key_written key t valid (omega (arith, fits, sep)))
            λ u more. k u more.0 (
              omega (arith, sep, more.2, length-append (quoted key) (b':' ∷ []), quoted_upper key)))
