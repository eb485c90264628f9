-- ===== src/Cjson/Tests.antt =====
-- lua_cjson.c: strings that need each kind of escape, written and read back.
use luarunner.Base.{
  ℕ, ◌+◌, ◌≡◌, ◌++◌, refl, arith, List, [], ◌∷◌, some, ok, length, IsBytes, is_bytes_sound,
}
use luarunner.Strbuf.{Strbuf}
use luarunner.Strbuf.Outcome.{Ensures}
use luarunner.Strbuf.Append.{Appended, IsValid}
use luarunner.Strbuf.Samples.{heap, sample, sample-IsValid}
use luarunner.Cjson.Utf8.{codepoint_to_utf8}
use luarunner.Cjson.Encoding.{utf8_value, utf8_value-codepoint_to_utf8}
use luarunner.Cjson.Strings.{string, json_append_string, json_next_string_token}
use luarunner.Cjson.Quote.{quoted, json_append_string_lem}
use luarunner.Cjson.Unquote.{at, json_next_string_token-quoted}

-- A plain character, a NUL, a newline and a quote.
abbrev str : List ℕ
str = b'a' ∷ 0 ∷ 10 ∷ b'"' ∷ 0xFF ∷ []

json_next_string_token-quoted_example :
    (t : Strbuf) × (json_next_string_token (at 1 (quoted str ++ (b',' ∷ 0 ∷ [])) 3 sample)
      ≡ ok (string str, at 1 (b',' ∷ 0 ∷ []) (3 + length (quoted str)) t))
    × IsValid t
    × (t.size ≡ sample.size)
json_next_string_token-quoted_example =
    json_next_string_token-quoted 1 str (b',' ∷ 0 ∷ []) 3 sample (is_bytes_sound str refl)
      sample-IsValid (omega arith)

json_append_string_lem_example :
    Ensures heap (Appended sample (quoted str)) (json_append_string heap sample str)
json_append_string_lem_example = json_append_string_lem heap sample str sample-IsValid (omega arith)

utf8_value-codepoint_to_utf8_example :
    (utf8_value (codepoint_to_utf8 0x1F600) ≡ some 0x1F600) × IsBytes (codepoint_to_utf8 0x1F600)
utf8_value-codepoint_to_utf8_example = utf8_value-codepoint_to_utf8 0x1F600 (omega arith)
