-- ===== src/Cjson/Document/Steps.antt =====
-- The parser over one item of an array or object, with the reading of its value given.
use luarunner.Base.{
  ℕ, suc, ◌+◌, ◌-◌, ◌<◌, ◌≡◌, refl, ◌∙◌, arith, Bool, List, ◌∷◌, ◌++◌, length, IsBytes, ok, pos,
}
use luarunner.Lua.{Double, Value, Entries, rawset, integer}
use luarunner.Fpconv.{Libc}
use luarunner.Strbuf.{Allocator, Strbuf}
use luarunner.Strbuf.Append.{IsValid}
use luarunner.Cjson.Config.{JsonConfig}
use luarunner.Cjson.Quote.{quoted}
use luarunner.Cjson.Unquote.{at}
use luarunner.Cjson.Strings.{JsonParse}
use luarunner.Cjson.Tokens.{Token, JsonToken}
use luarunner.Cjson.Decode.{
  Parsed, json_decode_descend, object_loop, json_parse_object_context, array_loop,
  json_parse_array_context,
}
use luarunner.Cjson.Document.{size}
use luarunner.Cjson.Document.Tokens.{
  token_at, bracket_close, brace_close, comma_sign, colon_sign, quoted_string,
}
use luarunner.Cjson.Document.Readable.{
  not_arr_end, not_obj_end, Descends, ReadAs, process, items_loop, fields_loop,
}

module _ (heap : Allocator) (libc : Libc) (point : ℕ) (checkstack : ℕ → ℕ → Bool) (cfg : JsonConfig)
    (digits : Double → List ℕ) (room : ℕ) where
  abbrev pub Reading :
      (JsonToken → JsonParse → Parsed) → JsonParse → Value → (Strbuf → JsonParse) → Type 0
  Reading = ReadAs heap libc point checkstack cfg digits room

  abbrev pub values_at : ℕ → JsonToken → JsonParse → Parsed
  values_at = process heap libc point checkstack cfg digits room

  abbrev pub array_from : ℕ → ℕ → ℕ → Entries → JsonToken → JsonParse → Parsed
  array_from = items_loop heap libc point checkstack cfg digits room

  abbrev pub object_from : ℕ → ℕ → Entries → JsonToken → JsonParse → Parsed
  object_from = fields_loop heap libc point checkstack cfg digits room

  pub last_item :
      (values f i depth offset : ℕ) (before : Entries) (tmp : Strbuf) (rest text : List ℕ)
      (v : Value)
      → Reading
          (values_at values)
          (at depth (text ++ (b']' ∷ rest)) offset tmp)
          v
          (at depth (b']' ∷ rest) (offset + length text))
      → Reading
          (array_from values (suc f) i before)
          (at depth (text ++ (b']' ∷ rest)) offset tmp)
          (Value.table (rawset (Value.number (integer (pos i))) v before))
          (at (depth - 1) rest (offset + length text + 1))
  unfolding array_loop
  last_item values f i depth offset before tmp rest text v r = record {
    token = r.token;
    inside = r.inside;
    tmp = r.tmp;
    found = r.found;
    is_open = r.is_open;
    runs = rw (r.runs, bracket_close heap libc point cfg depth (offset + length text) r.tmp rest);
    valid = r.valid;
    same = r.same;
  }

  pub next_item :
      (values f i depth offset : ℕ) (before : Entries) (tmp : Strbuf) (text more : List ℕ)
      (v w : Value) (after : Strbuf → JsonParse)
      → Reading
          (values_at values)
          (at depth (text ++ (b',' ∷ more)) offset tmp)
          v
          (at depth (b',' ∷ more) (offset + length text))
      → ((t : Strbuf)
          → IsValid t
          → t.size ≡ room
          → Reading
              (array_from values f (suc i) (rawset (Value.number (integer (pos i))) v before))
              (at depth more (offset + length text + 1) t)
              w
              after)
      → Reading
          (array_from values (suc f) i before)
          (at depth (text ++ (b',' ∷ more)) offset tmp)
          w
          after
  unfolding array_loop
  next_item values f i depth offset before tmp text more v w after r others =
      let o = others r.tmp r.valid r.same in
      record {
        token = r.token;
        inside = r.inside;
        tmp = o.tmp;
        found = r.found;
        is_open = r.is_open;
        runs =
            rw
              (
                r.runs,
                comma_sign heap libc point cfg depth (offset + length text) r.tmp more,
                o.found,
              )
              o.runs;
        valid = o.valid;
        same = o.same;
      }

  pub array_context :
      (values fuel depth offset : ℕ) (tmp : Strbuf) (ptr : List ℕ) (v : Value)
      (after : Strbuf → JsonParse)
      → Descends heap libc point checkstack cfg digits room depth 2
      → (r : Reading (array_from values fuel 1 Entries.end) (at (depth + 1) ptr offset tmp) v after)
      → json_parse_array_context heap libc point checkstack cfg
          (values_at values)
          fuel
          (at depth ptr offset tmp)
        ≡ ok (v, after r.tmp)
  unfolding json_parse_array_context json_decode_descend
  array_context values fuel depth offset tmp ptr v after down r =
      rw (down, r.found) (not_arr_end r.token.token _ _ r.is_open ∙ r.runs)

  pub object_context :
      (values fuel depth offset : ℕ) (tmp : Strbuf) (ptr : List ℕ) (v : Value)
      (after : Strbuf → JsonParse)
      → Descends heap libc point checkstack cfg digits room depth 3
      → (r : Reading (object_from values fuel Entries.end) (at (depth + 1) ptr offset tmp) v after)
      → json_parse_object_context heap libc point checkstack cfg
          (values_at values)
          fuel
          (at depth ptr offset tmp)
        ≡ ok (v, after r.tmp)
  unfolding json_parse_object_context json_decode_descend
  object_context values fuel depth offset tmp ptr v after down r =
      rw (down, r.found) (not_obj_end r.token.token _ _ r.is_open ∙ r.runs)

  -- The key and the colon in front of a value.
  module _ (values f depth offset : ℕ) (before : Entries) (tmp : Strbuf) (key : List ℕ)
      (bytes : IsBytes key) (fits : length key < room) (v : IsValid tmp)
      (same : tmp.size ≡ room) where
    abbrev pub behind : ℕ
    behind = offset + length (quoted key) + 1

    pub last_field_read :
        (text rest : List ℕ) (w : Value)
        → ((t : Strbuf)
            → IsValid t
            → t.size ≡ room
            → Reading
                (values_at values)
                (at depth (text ++ (b'}' ∷ rest)) behind t)
                w
                (at depth (b'}' ∷ rest) (behind + length text)))
        → Reading
            (object_from values (suc f) before)
            (at depth (quoted key ++ (b':' ∷ (text ++ (b'}' ∷ rest)))) offset tmp)
            (Value.table (rawset (Value.string key) w before))
            (at (depth - 1) rest (behind + length text + 1))
    unfolding object_loop
    last_field_read text rest w inner =
        let (t, found, valid, size) =
          quoted_string heap libc point cfg depth offset tmp key (b':' ∷ (text ++ (b'}' ∷ rest)))
            bytes v (omega arith) in
        let r = inner t valid (size ∙ same) in
        record {
          token = token_at (Token.string key) offset;
          inside = at depth (b':' ∷ (text ++ (b'}' ∷ rest))) (offset + length (quoted key)) t;
          tmp = r.tmp;
          found = found;
          is_open = refl;
          runs = rw (
            colon_sign heap libc point cfg depth (offset + length (quoted key)) t
                (text ++ (b'}' ∷ rest)),
            r.found,
            r.runs,
            brace_close heap libc point cfg depth (behind + length text) r.tmp rest,
          );
          valid = r.valid;
          same = r.same;
        }

    pub next_field_read :
        (text more : List ℕ) (w x : Value) (after : Strbuf → JsonParse)
        → ((t : Strbuf)
            → IsValid t
            → t.size ≡ room
            → Reading
                (values_at values)
                (at depth (text ++ (b',' ∷ more)) behind t)
                w
                (at depth (b',' ∷ more) (behind + length text)))
        → ((t : Strbuf)
            → IsValid t
            → t.size ≡ room
            → Reading
                (object_from values f (rawset (Value.string key) w before))
                (at depth more (behind + length text + 1) t)
                x
                after)
        → Reading
            (object_from values (suc f) before)
            (at depth (quoted key ++ (b':' ∷ (text ++ (b',' ∷ more)))) offset tmp)
            x
            after
    unfolding object_loop
    next_field_read text more w x after inner others =
        let (t, found, valid, size) =
          quoted_string heap libc point cfg depth offset tmp key (b':' ∷ (text ++ (b',' ∷ more)))
            bytes v (omega arith) in
        let r = inner t valid (size ∙ same) in
        let o = others r.tmp r.valid r.same in
        record {
          token = token_at (Token.string key) offset;
          inside = at depth (b':' ∷ (text ++ (b',' ∷ more))) (offset + length (quoted key)) t;
          tmp = o.tmp;
          found = found;
          is_open = refl;
          runs =
              rw
                (
                  colon_sign heap libc point cfg depth (offset + length (quoted key)) t
                      (text ++ (b',' ∷ more)),
                  r.found,
                  r.runs,
                  comma_sign heap libc point cfg depth (behind + length text) r.tmp more,
                  o.found,
                )
                o.runs;
          valid = o.valid;
          same = o.same;
        }
