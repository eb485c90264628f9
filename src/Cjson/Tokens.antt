-- ===== src/Cjson/Tokens.antt =====
-- lua_cjson.c: the tokens of the decoder.
use luarunner.Base.{
  ℕ, ◌+◌, Bool, true, false, ◌&&◌, ◌||◌, List, [], ◌∷◌, leb, ◌==◌, if◌then◌else◌, bit_or, drop,
  Result, ok, undefined, ◌>>=◌, TokenType, t_obj_begin, t_obj_end, t_arr_begin, t_arr_end, t_string,
  t_number, t_boolean, t_null, t_colon, t_comma, t_end, t_whitespace, t_error, TokenError,
  invalid_number, invalid_token,
}
use luarunner.Lua.{Double}
use luarunner.Fpconv.{Libc, fpconv_strtod}
use luarunner.Strbuf.{Allocator}
use luarunner.Cjson.Utf8.{read}
use luarunner.Cjson.Strings.{JsonParse, StringToken, advance, json_next_string_token}
use luarunner.Cjson.Config.{JsonConfig, ch2token}

-- The type of a token with its value.
pub data Token : Type 0 where
  obj_begin obj_end arr_begin arr_end colon comma end null : Token
  string : List ℕ → Token
  number : Double → Token
  boolean : Bool → Token
  error : TokenError → Token

abbrev pub token_type : Token → TokenType
token_type obj_begin = t_obj_begin
token_type obj_end = t_obj_end
token_type arr_begin = t_arr_begin
token_type arr_end = t_arr_end
token_type colon = t_colon
token_type comma = t_comma
token_type end = t_end
token_type null = t_null
token_type (string s) = t_string
token_type (number d) = t_number
token_type (boolean b) = t_boolean
token_type (error e) = t_error

-- `json_token_t`.
pub record JsonToken : Type 0 where
  pub token : Token
  pub index : ℕ

abbrev pub Next : Type 0
Next = Result (JsonToken × JsonParse)

-- The token at the index, `n` bytes long.
abbrev pub found_token : Token → ℕ → JsonParse → Next
found_token t n json = ok (record { token = t; index = json.offset }, advance n json)

-- `json_set_token_error`, which does not advance.
abbrev pub token_error : TokenError → JsonParse → Next
token_error e json = ok (record { token = error e; index = json.offset }, json)

-- `!strncmp(ptr, word, n)` for a word of n characters.
unfoldable pub starts_with : List ℕ → List ℕ → Result Bool
starts_with [] ptr = ok true
starts_with (w ∷ word) [] = undefined
starts_with (w ∷ word) (c ∷ ptr) = if w == c then starts_with word ptr else ok false

abbrev pub to_lower : ℕ → ℕ
to_lower c = if leb b'A' c && leb c b'Z' then c + 32 else c

-- `!strncasecmp(ptr, word, n)` for a word of n small letters.
unfoldable pub starts_with_case : List ℕ → List ℕ → Result Bool
starts_with_case [] ptr = ok true
starts_with_case (w ∷ word) [] = undefined
starts_with_case (w ∷ word) (c ∷ ptr) =
    if w == to_lower c then starts_with_case word ptr else ok false

-- `json_is_invalid_number` behind the sign. A `char` above 127 ends in "no" either way.
unfoldable pub invalid_magnitude : List ℕ → Result Bool
invalid_magnitude p = read p 0 >>= λ c.
    if c == b'0'
    then (read p 1 >>= λ ch2. ok ((bit_or ch2 0x20 == b'x') || (leb b'0' ch2 && leb ch2 b'9')))
    else if leb c b'9'
    then ok false
    else (starts_with_case (b'i' ∷ b'n' ∷ b'f' ∷ []) p >>= λ inf.
        if inf then ok true else starts_with_case (b'n' ∷ b'a' ∷ b'n' ∷ []) p)

unfoldable pub json_is_invalid_number : List ℕ → Result Bool
json_is_invalid_number p = read p 0 >>= λ c.
    if c == b'+'
    then ok true
    else if c == b'-'
    then invalid_magnitude (drop 1 p)
    else invalid_magnitude p

-- `while (1)`: the memory from the first character on that is no white space, and its offset.
unfoldable pub eat_whitespace : List ℕ → ℕ → Result (List ℕ × ℕ)
eat_whitespace [] offset = undefined
eat_whitespace (ch ∷ ptr) offset =
    let rest = eat_whitespace ptr (offset + 1) in
    elim (ch2token ch) [ t_whitespace ↦ rest | _ ↦ ok (ch ∷ ptr, offset) ]

-- A string token keeps the index of its quote; an error has its own.
abbrev pub string_found : ℕ → StringToken × JsonParse → JsonToken × JsonParse
string_found index (StringToken.string s, json) = (record { token = string s; index = index }, json)
string_found index (StringToken.error at e, json) = (record { token = error e; index = at }, json)

module _ (heap : Allocator) (libc : Libc) (point : ℕ) (cfg : JsonConfig) where
  unfoldable pub json_next_number_token : JsonParse → Next
  json_next_number_token json = fpconv_strtod heap libc point json.ptr >>= λ (value, used).
      if used == 0 then token_error invalid_number json else found_token (number value) used json

  -- "Only attempt to process numbers we know are invalid JSON."
  unfoldable pub lenient_number : JsonParse → Next
  lenient_number json =
      if cfg.decode_invalid_numbers == 0
      then token_error invalid_token json
      else (json_is_invalid_number json.ptr >>= λ invalid.
          if invalid then json_next_number_token json else token_error invalid_token json)

  unfoldable pub strict_number : JsonParse → Next
  strict_number json =
      if cfg.decode_invalid_numbers == 0
      then (json_is_invalid_number json.ptr >>= λ invalid.
          if invalid then token_error invalid_number json else json_next_number_token json)
      else json_next_number_token json

  -- The tests of the first letters, one after the other.
  unfoldable pub word_token : JsonParse → Next
  word_token json = starts_with (b't' ∷ b'r' ∷ b'u' ∷ b'e' ∷ []) json.ptr >>= λ is_true.
      if is_true
      then found_token (boolean true) 4 json
      else (starts_with (b'f' ∷ b'a' ∷ b'l' ∷ b's' ∷ b'e' ∷ []) json.ptr >>= λ is_false.
          if is_false
          then found_token (boolean false) 5 json
          else (starts_with (b'n' ∷ b'u' ∷ b'l' ∷ b'l' ∷ []) json.ptr >>= λ is_null.
              if is_null then found_token null 4 json else lenient_number json))

  -- "Process characters which triggered T_UNKNOWN."
  unfoldable pub unknown_token : ℕ → JsonParse → Next
  unknown_token ch json =
      if ch == b'"'
      then (json_next_string_token json >>= λ r. ok (string_found json.offset r))
      else if (ch == b'-') || (leb b'0' ch && leb ch b'9')
      then strict_number json
      else word_token json

  -- What the type in the table says about the character at the index.
  unfoldable pub classified : TokenType → ℕ → JsonParse → Next
  classified t_error ch json = token_error invalid_token json
  classified t_end ch json = found_token end 0 json
  classified t_obj_begin ch json = found_token obj_begin 1 json
  classified t_obj_end ch json = found_token obj_end 1 json
  classified t_arr_begin ch json = found_token arr_begin 1 json
  classified t_arr_end ch json = found_token arr_end 1 json
  classified t_comma ch json = found_token comma 1 json
  classified t_colon ch json = found_token colon 1 json
  classified _ ch json = unknown_token ch json

  unfoldable pub json_next_token : JsonParse → Next
  json_next_token json = do
    (ptr, offset) ← eat_whitespace json.ptr json.offset
    ch ← read ptr 0
    classified (ch2token ch) ch (record json { ptr = ptr; offset = offset })
