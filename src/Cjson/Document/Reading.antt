-- ===== src/Cjson/Document/Reading.antt =====
-- The parser reads the text of a document: each lemma runs it over one piece, with any `rest`
-- behind it.
use luarunner.Base.{
  ℕ, zero, suc, ◌+◌, ◌-◌, ◌≤◌, ◌≡◌, refl, sym, ◌∙◌, arith, Bool, true, false, ◌==◌, List, ◌∷◌, ◌++◌,
  append_assoc, length, length-append,
}
use luarunner.Lua.{Double, Value, Entries}
use luarunner.Fpconv.{Libc}
use luarunner.Strbuf.{Allocator, Strbuf}
use luarunner.Strbuf.Append.{IsValid}
use luarunner.Cjson.Config.{JsonConfig}
use luarunner.Cjson.Quote.{quoted}
use luarunner.Cjson.Unquote.{at}
use luarunner.Cjson.Tokens.{Token}
use luarunner.Cjson.Decode.{json_process_value}
use luarunner.Cjson.Document.{
  Json, null, empty, boolean, number, string, array, object, Items, last, item, Fields, last_field,
  field, print, print_items, print_fields, size, size_items, size_fields, decoded, set_items,
  set_fields,
}
use luarunner.Cjson.Document.Tokens.{token_at, null_word, true_word, false_word, quoted_string}
use luarunner.Cjson.Document.Numbers.{ends_value, number_text}
use luarunner.Cjson.Document.Readable.{Readable, ReadableItems, ReadableFields}
use luarunner.Cjson.Document.Steps.{last_item, next_item, last_field_read, next_field_read}
use luarunner.Cjson.Document.Brackets.{
  size_pos, size_items_pos, size_fields_pos, regroup, adjust, array_read, object_read, empty_read,
  Now, values, from_item, from_field,
}

module _ (heap : Allocator) (libc : Libc) (point : ℕ) (checkstack : ℕ → ℕ → Bool) (cfg : JsonConfig)
    (digits : Double → List ℕ) (room : ℕ) where
  module _ (lenient : (cfg.decode_invalid_numbers == 0) ≡ false) where
    mutual
      unfolding print decoded size Readable json_process_value

      pub value-read :
          (j : Json) (fuel depth o : ℕ) (tmp : Strbuf) (c : ℕ) (rest : List ℕ)
          → Readable heap libc point checkstack cfg digits room depth j
          → size j ≤ fuel
          → ends_value c ≡ true
          → IsValid tmp
          → tmp.size ≡ room
          → Now heap libc point checkstack cfg digits room
              (values heap libc point checkstack cfg digits room fuel)
              (at depth (print digits j ++ (c ∷ rest)) o tmp)
              (decoded j)
              (at depth (c ∷ rest) (o + length (print digits j)))
      value-read j zero depth o tmp c rest r enough ends v same = absurd (omega (arith, size_pos j))
      value-read null (suc f) depth o tmp c rest r enough ends v same = record {
        token = token_at Token.null o;
        inside = at depth (c ∷ rest) (o + 4) tmp;
        tmp = tmp;
        found = null_word heap libc point cfg depth o tmp (c ∷ rest);
        is_open = refl;
        runs = refl;
        valid = v;
        same = same;
      }
      value-read empty (suc f) depth o tmp c rest r enough ends v same =
          empty_read heap libc point checkstack cfg digits room f depth o tmp c rest v same r
      value-read (boolean true) (suc f) depth o tmp c rest r enough ends v same = record {
        token = token_at (Token.boolean true) o;
        inside = at depth (c ∷ rest) (o + 4) tmp;
        tmp = tmp;
        found = true_word heap libc point cfg depth o tmp (c ∷ rest);
        is_open = refl;
        runs = refl;
        valid = v;
        same = same;
      }
      value-read (boolean false) (suc f) depth o tmp c rest r enough ends v same = record {
        token = token_at (Token.boolean false) o;
        inside = at depth (c ∷ rest) (o + 5) tmp;
        tmp = tmp;
        found = false_word heap libc point cfg depth o tmp (c ∷ rest);
        is_open = refl;
        runs = refl;
        valid = v;
        same = same;
      }
      value-read (number d) (suc f) depth o tmp c rest r enough ends v same = record {
        token = token_at (Token.number d) o;
        inside = at depth (c ∷ rest) (o + length (digits d)) tmp;
        tmp = tmp;
        found = number_text heap libc point cfg (digits d) d depth o tmp c rest r lenient ends;
        is_open = refl;
        runs = refl;
        valid = v;
        same = same;
      }
      value-read (string s) (suc f) depth o tmp c rest r enough ends v same =
          let (t, found, valid, size) =
            quoted_string heap libc point cfg depth o tmp s (c ∷ rest) r.0 v (omega arith) in
          record {
            token = token_at (Token.string s) o;
            inside = at depth (c ∷ rest) (o + length (quoted s)) t;
            tmp = t;
            found = found;
            is_open = refl;
            runs = refl;
            valid = valid;
            same = size ∙ same;
          }
      value-read (array items) (suc f) depth o tmp c rest r enough ends v same =
          array_read heap libc point checkstack cfg digits room f depth o tmp c rest v same
            (print_items digits items) _ r.0
            (items-read items f f 1 (depth + 1) (o + 1) Entries.end tmp (c ∷ rest) r.1 (omega arith)
              (omega arith) v same)
      value-read (object fields) (suc f) depth o tmp c rest r enough ends v same =
          object_read heap libc point checkstack cfg digits room f depth o tmp c rest v same
            (print_fields digits fields) _ r.0
            (fields-read fields f f (depth + 1) (o + 1) Entries.end tmp (c ∷ rest) r.1 (omega arith)
              (omega arith) v same)

      items-read :
          (items : Items) (fuel f i depth o : ℕ) (before : Entries) (tmp : Strbuf) (rest : List ℕ)
          → ReadableItems heap libc point checkstack cfg digits room depth items
          → size_items items ≤ fuel
          → size_items items ≤ f
          → IsValid tmp
          → tmp.size ≡ room
          → Now heap libc point checkstack cfg digits room
              (from_item heap libc point checkstack cfg digits room fuel f i before)
              (at depth (print_items digits items ++ (b']' ∷ rest)) o tmp)
              (Value.table (set_items i items before))
              (at (depth - 1) rest (o + length (print_items digits items) + 1))
      items-read items fuel zero i depth o before tmp rest r enough rounds v same =
          absurd (omega (arith, size_items_pos items))
      items-read (last j) fuel (suc f) i depth o before tmp rest r enough rounds v same =
          last_item heap libc point checkstack cfg digits room fuel f i depth o before tmp rest
            (print digits j) (decoded j)
            (value-read j fuel depth o tmp b']' rest r enough refl v same)
      items-read (item j items) fuel (suc f) i depth o before tmp rest r enough rounds v same =
          adjust heap libc point checkstack cfg digits room
            (from_item heap libc point checkstack cfg digits room fuel (suc f) i before) depth
            (depth - 1) (depth - 1) o _ _ _ _ rest tmp _
            (sym (append_assoc (print digits j) (b',' ∷ print_items digits items) (b']' ∷ rest)))
            refl (omega (arith, length-append (print digits j) (b',' ∷ print_items digits items)))
            (next_item heap libc point checkstack cfg digits room fuel f i depth o before tmp
              (print digits j) (print_items digits items ++ (b']' ∷ rest)) (decoded j) _ _
              (value-read j fuel depth o tmp b',' _ r.0 (omega (arith, size_items_pos items)) refl v
                same)
              λ t valid size.
                items-read items fuel f (suc i) depth (o + length (print digits j) + 1) _ t rest r.1
                  (omega arith) (omega (arith, size_pos j)) valid size)

      fields-read :
          (fields : Fields) (fuel f depth o : ℕ) (before : Entries) (tmp : Strbuf) (rest : List ℕ)
          → ReadableFields heap libc point checkstack cfg digits room depth fields
          → size_fields fields ≤ fuel
          → size_fields fields ≤ f
          → IsValid tmp
          → tmp.size ≡ room
          → Now heap libc point checkstack cfg digits room
              (from_field heap libc point checkstack cfg digits room fuel f before)
              (at depth (print_fields digits fields ++ (b'}' ∷ rest)) o tmp)
              (Value.table (set_fields fields before))
              (at (depth - 1) rest (o + length (print_fields digits fields) + 1))
      fields-read fields fuel zero depth o before tmp rest r enough rounds v same =
          absurd (omega (arith, size_fields_pos fields))
      fields-read (last_field key j) fuel (suc f) depth o before tmp rest r enough rounds v same =
          adjust heap libc point checkstack cfg digits room
            (from_field heap libc point checkstack cfg digits room fuel (suc f) before) depth
            (depth - 1) (depth - 1) o _ _ _ _ rest tmp _
            (sym (append_assoc (quoted key) (b':' ∷ print digits j) (b'}' ∷ rest))) refl
            (omega (arith, length-append (quoted key) (b':' ∷ print digits j)))
            (last_field_read heap libc point checkstack cfg digits room fuel f depth o before tmp
              key r.0.0 r.0.1 v same (print digits j) rest (decoded j)
              λ t valid size.
                value-read j fuel depth (o + length (quoted key) + 1) t b'}' rest r.1 enough refl
                  valid size)
      fields-read (field key j fields) fuel (suc f) depth o before tmp rest r enough rounds v same =
          adjust heap libc point checkstack cfg digits room
            (from_field heap libc point checkstack cfg digits room fuel (suc f) before) depth
            (depth - 1) (depth - 1) o _ _ _ _ rest tmp _
            (regroup key (print digits j) (print_fields digits fields) (b'}' ∷ rest)) refl
            (omega (
              arith,
              length-append (quoted key)
                  (b':' ∷ (print digits j ++ (b',' ∷ print_fields digits fields))),
              length-append (print digits j) (b',' ∷ print_fields digits fields),
            ))
            (next_field_read heap libc point checkstack cfg digits room fuel f depth o before tmp
              key r.0.0 r.0.1 v same (print digits j) (print_fields digits fields ++ (b'}' ∷ rest))
              (decoded j) _ _
              (λ t valid size.
                value-read j fuel depth (o + length (quoted key) + 1) t b',' _ r.1
                  (omega (arith, size_fields_pos fields)) refl valid size)
              λ t valid size.
                fields-read fields fuel f depth
                  (o + length (quoted key) + 1 + length (print digits j) + 1) _ t rest r.2
                  (omega arith) (omega (arith, size_pos j)) valid size)
