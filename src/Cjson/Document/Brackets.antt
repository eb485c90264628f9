-- ===== src/Cjson/Document/Brackets.antt =====
-- The parser reads an array or an object in its brackets.
use luarunner.Base.{
  ℕ, suc, ◌+◌, ◌-◌, ◌≤◌, ◌≡◌, refl, sym, ◌∙◌, ap, arith, Bool, List, [], ◌∷◌, ◌++◌, append_assoc,
  length, length-append,
}
use luarunner.Lua.{Double, Value, Entries}
use luarunner.Fpconv.{Libc}
use luarunner.Strbuf.{Allocator, Strbuf}
use luarunner.Strbuf.Append.{IsValid}
use luarunner.Cjson.Config.{JsonConfig}
use luarunner.Cjson.Quote.{quoted}
use luarunner.Cjson.Unquote.{at}
use luarunner.Cjson.Strings.{JsonParse}
use luarunner.Cjson.Tokens.{JsonToken, obj_begin, arr_begin}
use luarunner.Cjson.Decode.{
  Parsed, json_decode_descend, json_parse_object_context, json_process_value,
}
use luarunner.Cjson.Document.{
  Json, array, object, Items, last, item, Fields, last_field, field, size, size_items, size_fields,
}
use luarunner.Cjson.Document.Tokens.{token_at, bracket_open, brace_open, brace_close}
use luarunner.Cjson.Document.Readable.{Descends}
use luarunner.Cjson.Document.Steps.{
  Reading, values_at, array_from, object_from, array_context, object_context,
}

pub size_pos : (j : Json) → 1 ≤ size j
unfolding size
size_pos (array items) = omega arith
size_pos (object fields) = omega arith
size_pos _ = omega arith

pub size_items_pos : (items : Items) → 1 ≤ size_items items
unfolding size
size_items_pos (last j) = size_pos j
size_items_pos (item j items) = omega (arith, size_pos j)

pub size_fields_pos : (fields : Fields) → 1 ≤ size_fields fields
unfolding size
size_fields_pos (last_field key j) = size_pos j
size_fields_pos (field key j fields) = omega (arith, size_pos j)

pub regroup :
    (key text others rest : List ℕ)
    → quoted key ++ (b':' ∷ (text ++ (b',' ∷ (others ++ rest))))
      ≡ (quoted key ++ (b':' ∷ (text ++ (b',' ∷ others)))) ++ rest
regroup key text others rest =
    ap (λ t. quoted key ++ (b':' ∷ t)) (sym (append_assoc text (b',' ∷ others) rest))
    ∙ sym (append_assoc (quoted key) (b':' ∷ (text ++ (b',' ∷ others))) rest)

module _ (heap : Allocator) (libc : Libc) (point : ℕ) (checkstack : ℕ → ℕ → Bool) (cfg : JsonConfig)
    (digits : Double → List ℕ) (room : ℕ) where
  abbrev pub Now :
      (JsonToken → JsonParse → Parsed) → JsonParse → Value → (Strbuf → JsonParse) → Type 0
  Now = Reading heap libc point checkstack cfg digits room

  abbrev pub values : ℕ → JsonToken → JsonParse → Parsed
  values = values_at heap libc point checkstack cfg digits room

  abbrev pub from_item : ℕ → ℕ → ℕ → Entries → JsonToken → JsonParse → Parsed
  from_item = array_from heap libc point checkstack cfg digits room

  abbrev pub from_field : ℕ → ℕ → Entries → JsonToken → JsonParse → Parsed
  from_field = object_from heap libc point checkstack cfg digits room

  -- The same reading, at equal places.
  pub adjust :
      (k : JsonToken → JsonParse → Parsed) (depth d d' o x x' : ℕ) (ptr ptr' rest : List ℕ)
      (tmp : Strbuf) (v : Value)
      → ptr ≡ ptr'
      → d ≡ d'
      → x ≡ x'
      → Now k (at depth ptr o tmp) v (at d rest x)
      → Now k (at depth ptr' o tmp) v (at d' rest x')
  adjust k depth d d' o x x' ptr ptr' rest tmp v p q e r = rw (← p, ← q, ← e) r

  module _ (f depth o : ℕ) (tmp : Strbuf) (c : ℕ) (rest : List ℕ) (valid : IsValid tmp)
      (same : tmp.size ≡ room) where
    pub array_read :
        (text : List ℕ) (v : Value)
        → Descends heap libc point checkstack cfg digits room depth 2
        → Now
            (from_item f f 1 Entries.end)
            (at (depth + 1) (text ++ (b']' ∷ (c ∷ rest))) (o + 1) tmp)
            v
            (at (depth + 1 - 1) (c ∷ rest) (o + 1 + length text + 1))
        → Now
            (values (suc f))
            (at depth ((b'[' ∷ (text ++ (b']' ∷ []))) ++ (c ∷ rest)) o tmp)
            v
            (at depth (c ∷ rest) (o + length (b'[' ∷ (text ++ (b']' ∷ [])))))
    unfolding json_process_value
    array_read text v down r =
        adjust (values (suc f)) depth (depth + 1 - 1) depth o _ _ _ _ (c ∷ rest) tmp v
          (ap (λ t. b'[' ∷ t) (sym (append_assoc text (b']' ∷ []) (c ∷ rest)))) (omega arith)
          (omega (arith, length-append text (b']' ∷ [])))
          (record {
            token = token_at arr_begin o;
            inside = at depth (text ++ (b']' ∷ (c ∷ rest))) (o + 1) tmp;
            tmp = r.tmp;
            found = bracket_open heap libc point cfg depth o tmp (text ++ (b']' ∷ (c ∷ rest)));
            is_open = refl;
            runs =
                array_context heap libc point checkstack cfg digits room f f depth (o + 1) tmp _ v _
                  down r;
            valid = r.valid;
            same = r.same;
          })

    pub object_read :
        (text : List ℕ) (v : Value)
        → Descends heap libc point checkstack cfg digits room depth 3
        → Now
            (from_field f f Entries.end)
            (at (depth + 1) (text ++ (b'}' ∷ (c ∷ rest))) (o + 1) tmp)
            v
            (at (depth + 1 - 1) (c ∷ rest) (o + 1 + length text + 1))
        → Now
            (values (suc f))
            (at depth ((b'{' ∷ (text ++ (b'}' ∷ []))) ++ (c ∷ rest)) o tmp)
            v
            (at depth (c ∷ rest) (o + length (b'{' ∷ (text ++ (b'}' ∷ [])))))
    unfolding json_process_value
    object_read text v down r =
        adjust (values (suc f)) depth (depth + 1 - 1) depth o _ _ _ _ (c ∷ rest) tmp v
          (ap (λ t. b'{' ∷ t) (sym (append_assoc text (b'}' ∷ []) (c ∷ rest)))) (omega arith)
          (omega (arith, length-append text (b'}' ∷ [])))
          (record {
            token = token_at obj_begin o;
            inside = at depth (text ++ (b'}' ∷ (c ∷ rest))) (o + 1) tmp;
            tmp = r.tmp;
            found = brace_open heap libc point cfg depth o tmp (text ++ (b'}' ∷ (c ∷ rest)));
            is_open = refl;
            runs =
                object_context heap libc point checkstack cfg digits room f f depth (o + 1) tmp _ v
                  _ down r;
            valid = r.valid;
            same = r.same;
          })

    pub empty_read :
        Descends heap libc point checkstack cfg digits room depth 3
        → Now
            (values (suc f))
            (at depth (b'{' ∷ b'}' ∷ (c ∷ rest)) o tmp)
            (Value.table Entries.end)
            (at depth (c ∷ rest) (o + 2))
    unfolding json_process_value json_parse_object_context json_decode_descend
    empty_read down =
        adjust (values (suc f)) depth (depth + 1 - 1) depth o (o + 1 + 1) (o + 2) _ _ (c ∷ rest) tmp
          _ refl (omega arith) (omega arith)
          (record {
            token = token_at obj_begin o;
            inside = at depth (b'}' ∷ (c ∷ rest)) (o + 1) tmp;
            tmp = tmp;
            found = brace_open heap libc point cfg depth o tmp (b'}' ∷ (c ∷ rest));
            is_open = refl;
            runs =
                rw (down, brace_close heap libc point cfg (depth + 1) (o + 1) tmp (c ∷ rest)) refl;
            valid = valid;
            same = same;
          })
