-- ===== src/Cjson/Ends/Tokens.antt =====
-- The next token is found without a loop that runs on and without an error being raised, and what
-- begins a value or a key is taken off the text.
use luarunner.Base.{
  ℕ, ◌+◌, ◌-◌, ◌≤◌, ◌<◌, ◌≡◌, arith, Bool, true, false, ◌==◌, ◌&&◌, ◌||◌, if◌then◌else◌, Bool-cases,
  inl, inr, List, [], ◌∷◌, length, drop, length-drop, Option, none, some, Result, ok, leb,
  TokenType, t_obj_begin, t_obj_end, t_arr_begin, t_arr_end, t_colon, t_comma, t_end, t_whitespace,
  t_error, or_die, int, int_max, pos, TokenError, invalid_token, invalid_number,
}
use luarunner.Lua.{Double}
use luarunner.Strbuf.{Allocator}
use luarunner.Fpconv.{
  Libc, valid_number_character, number_characters, number_buffer, converted, fpconv_strtod,
  g_fmt_bufsize,
}
use luarunner.Cjson.Utf8.{read}
use luarunner.Cjson.Config.{JsonConfig, ch2token}
use luarunner.Cjson.Strings.{JsonParse, StringToken, json_next_string_token}
use luarunner.Cjson.Tokens.{
  Token, JsonToken, starts_with, starts_with_case, to_lower, invalid_magnitude,
  json_is_invalid_number, eat_whitespace, json_next_number_token, lenient_number, strict_number,
  word_token, unknown_token, classified, json_next_token, found_token, token_error, string_found,
}
use luarunner.Cjson.Document.Readable.{opens}
use luarunner.Cjson.Ends.{Ends, Never, Ends->>=, Ends-weaken}
use luarunner.Cjson.Ends.Strings.{Anything, Ends-read, Ends-json_next_string_token}

abbrev Left : List ℕ → List ℕ × ℕ → Type 0
Left ptr (left, offset) = (1 ≤ length left) × (length left ≤ length ptr)

Ends-eat_whitespace :
    (ptr : List ℕ) (offset : ℕ) → Ends Never (Left ptr) (eat_whitespace ptr offset)
unfolding eat_whitespace
Ends-eat_whitespace [] offset = tt
Ends-eat_whitespace (ch ∷ ptr) offset = skipped (ch2token ch) (Ends-eat_whitespace ptr (offset + 1))
  where
    skipped :
        (t : TokenType)
        → Ends Never (Left ptr) (eat_whitespace ptr (offset + 1))
        → Ends Never
            (Left (ch ∷ ptr))
            (elim t [ t_whitespace ↦ eat_whitespace ptr (offset + 1) | _ ↦ ok (ch ∷ ptr, offset) ])
    skipped t_whitespace others =
        Ends-weaken Never (Left ptr) (Left (ch ∷ ptr)) (eat_whitespace ptr (offset + 1))
          (λ a h. (h.0, omega (arith, h.1))) others
    skipped _ others = (omega arith, omega arith)

pub Ends-if :
    {A : Type 0} (Q : Bool → Type 0) (P : A → Type 0) (b : Bool) (r s : Result A)
    → Ends Q P r
    → Ends Q P s
    → Ends Q P (if b then r else s)
Ends-if Q P true r s h k = h
Ends-if Q P false r s h k = k

Ends-starts_with : (word ptr : List ℕ) → Ends Never Anything (starts_with word ptr)
unfolding starts_with
Ends-starts_with [] ptr = tt
Ends-starts_with (w ∷ word) [] = tt
Ends-starts_with (w ∷ word) (c ∷ ptr) =
    Ends-if Never Anything (w == c) (starts_with word ptr) (ok false) (Ends-starts_with word ptr) tt

Ends-starts_with_case : (word ptr : List ℕ) → Ends Never Anything (starts_with_case word ptr)
unfolding starts_with_case
Ends-starts_with_case [] ptr = tt
Ends-starts_with_case (w ∷ word) [] = tt
Ends-starts_with_case (w ∷ word) (c ∷ ptr) =
    Ends-if Never Anything (w == to_lower c) (starts_with_case word ptr) (ok false)
      (Ends-starts_with_case word ptr) tt

Ends-invalid_magnitude : (p : List ℕ) → Ends Never Anything (invalid_magnitude p)
unfolding invalid_magnitude
Ends-invalid_magnitude p = Ends->>= Never _ Anything (read p 0) _ (Ends-read p 0) λ c u.
    Ends-if Never Anything (c == b'0') _ _
      (Ends->>= Never _ Anything (read p 1) _ (Ends-read p 1) λ d v. tt)
      (Ends-if Never Anything (leb c b'9') (ok false) _ tt (
        Ends->>= Never Anything Anything (starts_with_case (b'i' ∷ b'n' ∷ b'f' ∷ []) p) _
          (Ends-starts_with_case (b'i' ∷ b'n' ∷ b'f' ∷ []) p)
          λ inf v.
            Ends-if Never Anything inf (ok true) _ tt
              (Ends-starts_with_case (b'n' ∷ b'a' ∷ b'n' ∷ []) p)))

Ends-json_is_invalid_number : (p : List ℕ) → Ends Never Anything (json_is_invalid_number p)
unfolding json_is_invalid_number
Ends-json_is_invalid_number p = Ends->>= Never _ Anything (read p 0) _ (Ends-read p 0) λ c u.
    Ends-if Never Anything (c == b'+') (ok true) _ tt (
      Ends-if Never Anything (c == b'-') (invalid_magnitude (drop 1 p)) (invalid_magnitude p)
        (Ends-invalid_magnitude (drop 1 p)) (Ends-invalid_magnitude p))

Ends-number_characters : (ptr : List ℕ) → Ends Never Anything (number_characters ptr)
unfolding number_characters
Ends-number_characters [] = tt
Ends-number_characters (ch ∷ ptr) =
    Ends-if Never Anything (valid_number_character ch) _ (ok [])
      (Ends->>= Never Anything Anything (number_characters ptr) _ (Ends-number_characters ptr)
        λ cs u. tt)
      tt

-- What a token leaves: no more than there was, and less if it opens something.
abbrev pub Took : JsonParse → JsonToken × JsonParse → Type 0
Took json (t, j) =
    (length j.ptr ≤ length json.ptr) × (opens t.token ≡ true → length j.ptr < length json.ptr)

pub Ends-or_die : {A : Type 0} (o : Option A) → Ends Never Anything (or_die o)
Ends-or_die none = tt
Ends-or_die (some a) = tt

pub Ends-int : (n : ℕ) → Ends Never Anything (int n)
Ends-int n = elim (Bool-cases (leb n int_max)) [ inl small ↦ rw small tt | inr large ↦ rw large tt ]

module _ (heap : Allocator) (libc : Libc) (point : ℕ) (cfg : JsonConfig) where
  Ends-fpconv_strtod : (ptr : List ℕ) → Ends Never Anything (fpconv_strtod heap libc point ptr)
  unfolding fpconv_strtod converted number_buffer
  Ends-fpconv_strtod ptr = Ends-if Never Anything (point == b'.') (ok (libc.strtod ptr)) _ tt (
      Ends->>= Never Anything Anything (number_characters ptr) _ (Ends-number_characters ptr)
        λ digits u.
          Ends-if Never Anything (length digits == 0) (ok (Double.integer (pos 0), 0)) _ tt (
            Ends->>= Never Anything Anything (number_buffer heap libc point (length digits)) _
              (Ends-if Never Anything (leb g_fmt_bufsize (length digits)) _ (ok [])
                (Ends->>= Never Anything Anything (int (length digits + 1)) _
                  (Ends-int (length digits + 1)) λ size v. Ends-or_die (heap.malloc size))
                tt)
              λ buf v. tt))

  Ends-number_token :
      (json : JsonParse)
      → 1 ≤ length json.ptr
      → Ends Never (Took json) (json_next_number_token heap libc point cfg json)
  unfolding json_next_number_token
  Ends-number_token json h =
      Ends->>= Never Anything (Took json) (fpconv_strtod heap libc point json.ptr) _
        (Ends-fpconv_strtod json.ptr)
        λ (value, used) u. elim (Bool-cases (used == 0)) [
          | inl none_used ↦ rw none_used (omega arith, λ e. absurd (cc))
          | inr some_used ↦
              rw some_used
                let used_some : 1 ≤ used = ground (arith, some_used) in
                  let less : length (drop used json.ptr) ≡ length json.ptr - used =
                    length-drop used json.ptr in
                  (omega (arith, less), λ e. omega (arith, less, h, used_some))
        ]

  -- A token of at least one byte, and an error.
  bytes_taken :
      (n : ℕ) (t : Token) (json : JsonParse)
      → 1 ≤ n
      → 1 ≤ length json.ptr
      → Ends Never (Took json) (found_token t n json)
  bytes_taken n t json h k =
      let less : length (drop n json.ptr) ≡ length json.ptr - n = length-drop n json.ptr in
      (omega (arith, less), λ e. omega (arith, less, h, k))

  error_reported : (e : TokenError) (json : JsonParse) → Ends Never (Took json) (token_error e json)
  error_reported e json = (omega arith, λ is_open. absurd (cc))

  Ends-lenient_number :
      (json : JsonParse)
      → 1 ≤ length json.ptr
      → Ends Never (Took json) (lenient_number heap libc point cfg json)
  unfolding lenient_number
  Ends-lenient_number json h =
      Ends-if Never (Took json) (cfg.decode_invalid_numbers == 0) _ _
        (error_reported invalid_token json)
        (Ends->>= Never Anything (Took json) (json_is_invalid_number json.ptr) _
          (Ends-json_is_invalid_number json.ptr)
          λ invalid u.
            Ends-if Never (Took json) invalid _ _ (Ends-number_token json h)
              (error_reported invalid_token json))

  Ends-strict_number :
      (json : JsonParse)
      → 1 ≤ length json.ptr
      → Ends Never (Took json) (strict_number heap libc point cfg json)
  unfolding strict_number
  Ends-strict_number json h =
      Ends-if Never (Took json) (cfg.decode_invalid_numbers == 0) _ _
        (Ends->>= Never Anything (Took json) (json_is_invalid_number json.ptr) _
          (Ends-json_is_invalid_number json.ptr)
          λ invalid u.
            Ends-if Never (Took json) invalid _ _ (error_reported invalid_number json)
              (Ends-number_token json h))
        (Ends-number_token json h)

  Ends-word_token :
      (json : JsonParse)
      → 1 ≤ length json.ptr
      → Ends Never (Took json) (word_token heap libc point cfg json)
  unfolding word_token
  Ends-word_token json h =
      Ends->>= Never Anything (Took json) (starts_with _ json.ptr) _ (Ends-starts_with _ json.ptr)
        λ is_true u.
          Ends-if Never (Took json) is_true _ _
            (bytes_taken 4 (Token.boolean true) json (omega arith) h)
            (Ends->>= Never Anything (Took json) (starts_with _ json.ptr) _
              (Ends-starts_with _ json.ptr)
              λ is_false v.
                Ends-if Never (Took json) is_false _ _
                  (bytes_taken 5 (Token.boolean false) json (omega arith) h)
                  (Ends->>= Never Anything (Took json) (starts_with _ json.ptr) _
                    (Ends-starts_with _ json.ptr)
                    λ is_null w.
                      Ends-if Never (Took json) is_null _ _
                        (bytes_taken 4 Token.null json (omega arith) h)
                        (Ends-lenient_number json h)))

  Ends-unknown_token :
      (ch : ℕ) (json : JsonParse)
      → 1 ≤ length json.ptr
      → Ends Never (Took json) (unknown_token heap libc point cfg ch json)
  unfolding unknown_token
  Ends-unknown_token ch json h =
      Ends-if Never (Took json) (ch == b'"') _ _
        (Ends->>= Never (λ (t, j). length j.ptr < length json.ptr) (Took json)
          (json_next_string_token json) _ (Ends-json_next_string_token json h)
          λ r less. string_took r less)
        (Ends-if Never (Took json) ((ch == b'-') || (leb b'0' ch && leb ch b'9')) _ _
          (Ends-strict_number json h) (Ends-word_token json h))
    where
      string_took :
          (r : StringToken × JsonParse)
          → length r.1.ptr < length json.ptr
          → Took json (string_found json.offset r)
      string_took (StringToken.string s, j) less = (omega (arith, less), λ e. less)
      string_took (StringToken.error at e, j) less = (omega (arith, less), λ is_open. less)

  Ends-classified :
      (t : TokenType) (ch : ℕ) (json : JsonParse)
      → 1 ≤ length json.ptr
      → Ends Never (Took json) (classified heap libc point cfg t ch json)
  unfolding classified
  Ends-classified t_error ch json h = error_reported invalid_token json
  Ends-classified t_end ch json h = (omega arith, λ is_open. absurd (cc))
  Ends-classified t_obj_begin ch json h = bytes_taken 1 Token.obj_begin json (omega arith) h
  Ends-classified t_obj_end ch json h = bytes_taken 1 Token.obj_end json (omega arith) h
  Ends-classified t_arr_begin ch json h = bytes_taken 1 Token.arr_begin json (omega arith) h
  Ends-classified t_arr_end ch json h = bytes_taken 1 Token.arr_end json (omega arith) h
  Ends-classified t_comma ch json h = bytes_taken 1 Token.comma json (omega arith) h
  Ends-classified t_colon ch json h = bytes_taken 1 Token.colon json (omega arith) h
  Ends-classified _ ch json h = Ends-unknown_token ch json h

  pub Ends-json_next_token :
      (json : JsonParse)
      → Ends Never
          (λ r. (1 ≤ length json.ptr) × Took json r)
          (json_next_token heap libc point cfg json)
  unfolding json_next_token
  Ends-json_next_token json =
      Ends->>= Never (Left json.ptr) _ (eat_whitespace json.ptr json.offset) _
        (Ends-eat_whitespace json.ptr json.offset)
        λ (ptr, offset) left. Ends->>= Never _ _ (read ptr 0) _ (Ends-read ptr 0) λ ch u.
          let j = record json { ptr = ptr; offset = offset } in
          Ends-weaken Never (Took j) _ (classified heap libc point cfg (ch2token ch) ch j)
            (λ a h.
              (omega (arith, left), (omega (arith, left, h.0), λ e. omega (arith, left, h.1 e))))
            (Ends-classified (ch2token ch) ch j left.0)
