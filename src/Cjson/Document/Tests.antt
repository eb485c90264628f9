-- ===== src/Cjson/Document/Tests.antt =====
-- lua_cjson.c: a document with each kind of value, in a C library that knows the numbers of one
-- digit.
use luarunner.Base.{
  ℕ, ◌+◌, ◌-◌, ◌*◌, ◌≤◌, ◌<◌, ◌≡◌, refl, arith, Bool, true, ◌&&◌, leb, if◌then◌else◌, List, [], ◌∷◌,
  ◌++◌, length, some, inr, pos, int_max, ◌>>=◌, is_bytes_sound,
}
use luarunner.Lua.{Double, integer, Value, Entries}
use luarunner.Fpconv.{Libc, fpconv_strtod, fpconv_g_fmt, set_number_format}
use luarunner.Strbuf.Outcome.{Ensures}
use luarunner.Strbuf.Samples.{heap, sample, sample-IsValid}
use luarunner.Cjson.Config.{JsonConfig}
use luarunner.Cjson.Config.Configured.{HasBuffer, IsConfigured}
use luarunner.Cjson.Encode.{not_kept, json_encode, invalid_text}
use luarunner.Cjson.Decode.{json_decode}
use luarunner.Cjson.Document.{
  Json, null, empty, number, string, array, object, last, item, last_field, field, print, decoded,
  value_of,
}
use luarunner.Cjson.Quote.{escape}
use luarunner.Cjson.Escapes.{entry}
use luarunner.Cjson.Document.Numbers.{Reads}
use luarunner.Cjson.Document.Readable.{Readable}
use luarunner.Cjson.Document.Decoding.{json_decode-print, json_decode-nul}
use luarunner.Cjson.Document.Writable.{room_for, Writable, count}
use luarunner.Cjson.Document.Distinct.{Distinct, Fresh}
use luarunner.Cjson.Ends.{Ends}
use luarunner.Cjson.Ends.Strings.{Anything}
use luarunner.Cjson.Ends.Nesting.{json_encode-Ends}
use luarunner.Cjson.Ends.Decoder.{json_decode-Ends}
use luarunner.Cjson.Document.Encoding.{json_encode-value_of, json_decode-json_encode}

abbrev digit_value : List ℕ → Double × ℕ
digit_value (c ∷ rest) =
    if leb b'0' c && leb c b'9' then (integer (pos (c - b'0')), 1) else (integer (pos 0), 0)
digit_value [] = (integer (pos 0), 0)

abbrev digit_text : Double → List ℕ
digit_text (integer (pos n)) = (b'0' + n) ∷ []
digit_text _ = []

abbrev libc : Libc
libc = record { strtod = digit_value; print = λ fmt d. digit_text d }

abbrev checkstack : ℕ → ℕ → Bool
checkstack depth slots = true

abbrev cfg : JsonConfig
cfg = record {
  encode_buf = some sample;
  encode_sparse_convert = 0;
  encode_sparse_ratio = 2;
  encode_sparse_safe = 10;
  encode_max_depth = 1000;
  encode_invalid_numbers = 0;
  encode_number_precision = 14;
  encode_keep_buffer = 1;
  decode_invalid_numbers = 1;
  decode_max_depth = 1000;
}

-- The document `{"k":[7,null,"\n"],"e":{}}`.
abbrev seven : Double
seven = integer (pos 7)

abbrev newline : List ℕ
newline = 10 ∷ []

abbrev document : Json
document = object (
    field (b'k' ∷ []) (array (item (number seven) (item null (last (string newline)))))
      (last_field (b'e' ∷ []) empty))

seven-Reads : Reads heap libc b'.' cfg (digit_text seven) seven
unfolding fpconv_strtod
seven-Reads = record {
  first = b'7';
  others = [];
  begins = refl;
  is_start = refl;
  no_nul = tt;
  reads = λ c rest h. refl;
}

document-Readable : Readable heap libc b'.' checkstack cfg digit_text 4 0 document
unfolding Readable
document-Readable = (
  refl,
  (
    (is_bytes_sound (b'k' ∷ []) refl, omega arith),
    (refl, (seven-Reads, (tt, (is_bytes_sound newline refl, omega arith)))),
    ((is_bytes_sound (b'e' ∷ []) refl, omega arith), refl),
  ),
)

document-Writable : Writable libc b'.' checkstack cfg digit_text 0 document
unfolding Writable count invalid_text fpconv_g_fmt set_number_format
document-Writable = (refl, ((refl, omega arith, ((refl, refl, omega arith), (tt, tt))), refl))

document-Distinct : Distinct document
unfolding Distinct Fresh
document-Distinct = (refl, (tt, (tt, tt)), tt)

buffer : HasBuffer cfg.encode_keep_buffer cfg.encode_buf
buffer = inr (refl, sample, refl, sample-IsValid)

document_fits : (room_for document + 1) * 2 ≤ int_max
unfolding room_for
document_fits = omega arith

alone : length (print digit_text document) < int_max
unfolding print escape entry
alone = omega arith

two_bytes : 2 ≤ length (print digit_text document)
unfolding print escape entry
two_bytes = omega arith

nul_fits : length (print digit_text document ++ (0 ∷ b'x' ∷ [])) < int_max
unfolding print escape entry
nul_fits = omega arith

json_decode-print_example :
    Ensures heap
      (λ v. v ≡ decoded document)
      (json_decode heap libc b'.' checkstack cfg (print digit_text document))
json_decode-print_example =
    json_decode-print heap libc b'.' checkstack cfg digit_text document 4 refl document-Readable
      alone

json_decode-nul_example :
    Ensures heap
      (λ v. v ≡ decoded document)
      (json_decode heap libc b'.' checkstack cfg (print digit_text document ++ (0 ∷ b'x' ∷ [])))
json_decode-nul_example =
    json_decode-nul heap libc b'.' checkstack cfg digit_text document 4 (b'x' ∷ []) refl
      document-Readable two_bytes nul_fits

json_encode-value_of_example :
    Ensures heap
      (λ r. (r.0 ≡ print digit_text document) × HasBuffer 1 r.1)
      (json_encode heap libc b'.' checkstack cfg (value_of document))
json_encode-value_of_example =
    json_encode-value_of heap libc b'.' checkstack cfg digit_text document buffer document-Writable
      document_fits

json_decode-json_encode_example :
    Ensures heap
      (λ v. v ≡ value_of document)
      (json_encode heap libc b'.' checkstack cfg (value_of document) >>= λ (text, kept).
        json_decode heap libc b'.' checkstack cfg text)
json_decode-json_encode_example =
    json_decode-json_encode heap libc b'.' checkstack cfg digit_text document 4 document-Distinct
      buffer document-Writable document_fits refl document-Readable

-- `[7,` is refused.
json_decode-Ends_example :
    Ends
      (λ freed. freed ≡ true)
      Anything
      (json_decode heap libc b'.' checkstack cfg (b'[' ∷ b'7' ∷ b',' ∷ []))
json_decode-Ends_example = json_decode-Ends heap libc b'.' checkstack cfg (b'[' ∷ b'7' ∷ b',' ∷ [])

cfg-IsConfigured : IsConfigured cfg
cfg-IsConfigured = (
  inr (refl, sample, refl, sample-IsValid),
  omega arith,
  (omega arith, omega arith),
  (omega arith, omega arith),
  (omega arith, omega arith),
  omega arith,
  (omega arith, omega arith),
  omega arith,
  (omega arith, omega arith),
)

-- `{k = print}` is refused.
abbrev with_function : Value
with_function = Value.table (Entries.entry (Value.string (b'k' ∷ [])) Value.other Entries.end)

json_encode-Ends_example :
    Ends
      (λ freed. freed ≡ not_kept cfg)
      (λ r. Unit {0})
      (json_encode heap libc b'.' checkstack cfg with_function)
json_encode-Ends_example =
    json_encode-Ends heap libc b'.' checkstack cfg with_function cfg-IsConfigured
