-- ===== src/Cjson/Quote.antt =====
-- What `json_append_string` writes, and that its unchecked writes stay inside the buffer.
use luarunner.Base.{
  ℕ, ◌+◌, ◌*◌, ◌≤◌, ◌<◌, refl, sym, ◌∙◌, ap, arith, List, [], ◌∷◌, ◌++◌, append-nil, length,
  length-append, int_max,
}
use luarunner.Strbuf.{Allocator, Strbuf, content, strbuf_ensure_empty_length}
use luarunner.Strbuf.Growth.{int_ok}
use luarunner.Strbuf.Outcome.{Ensures, Ensures->>=}
use luarunner.Strbuf.Append.{IsValid, Appended, append_unsafe_lem}
use luarunner.Strbuf.Resize.{strbuf_ensure_empty_length_lem}
use luarunner.Strbuf.Reserved.{Written, Written-twice, strbuf_append_string-Written}
use luarunner.Cjson.Escapes.{Entry, plain, short, unicode, text, entry}
use luarunner.Cjson.Strings.{append_escape, append_chars, append_quoted, json_append_string}

abbrev pub escaped : ℕ → Entry → List ℕ
escaped c plain = c ∷ []
escaped c (short x) = b'\\' ∷ x ∷ []
escaped c (unicode h l) = b'\\' ∷ b'u' ∷ b'0' ∷ b'0' ∷ h ∷ l ∷ []

-- The characters of a string as JSON writes them, and with the quotes.
unfoldable pub escape : List ℕ → List ℕ
escape [] = []
escape (c ∷ str) = escaped c (entry c) ++ escape str

abbrev pub quoted : List ℕ → List ℕ
quoted str = b'"' ∷ (escape str ++ (b'"' ∷ []))

length-escaped : (c : ℕ) (e : Entry) → length (escaped c e) ≤ 6
length-escaped c plain = omega arith
length-escaped c (short x) = omega arith
length-escaped c (unicode h l) = omega arith

length-escape : (str : List ℕ) → length (escape str) ≤ 6 * length str
unfolding escape
length-escape [] = omega arith
length-escape (c ∷ str) = omega (
  arith,
  length-append (escaped c (entry c)) (escape str),
  length-escaped c (entry c),
  length-escape str,
)

pub quoted_upper : (str : List ℕ) → length (quoted str) ≤ length str * 6 + 2
quoted_upper str = omega (arith, length-append (escape str) (b'"' ∷ []), length-escape str)

module _ (heap : Allocator) where
  append_escape-Written :
      (s : Strbuf) (c : ℕ) (e : Entry)
      → IsValid s
      → s.len + 6 < s.size
      → Written s (escaped c e) (append_escape heap s c (text e))
  unfolding append_escape
  append_escape-Written s c plain v fits = append_unsafe_lem s (c ∷ []) v (omega arith)
  append_escape-Written s c (short x) v fits =
      strbuf_append_string-Written heap s (b'\\' ∷ x ∷ []) v (omega arith)
  append_escape-Written s c (unicode h l) v fits =
      strbuf_append_string-Written heap s (b'\\' ∷ b'u' ∷ b'0' ∷ b'0' ∷ h ∷ l ∷ []) v (omega arith)

  append_chars-Written :
      (str : List ℕ) (s : Strbuf)
      → IsValid s
      → s.len + 6 * length str < s.size
      → Written s (escape str) (append_chars heap s str)
  unfolding append_chars escape
  append_chars-Written [] s v fits = (s, refl, (v, sym (append-nil (content s)), omega arith), refl)
  append_chars-Written (c ∷ str) s v fits =
      let (t, runs, appended, same) = append_escape-Written s c (entry c) v (omega arith) in
      rw runs (
        Written-twice s t (escaped c (entry c)) (escape str) _ appended same (
          append_chars-Written str t appended.0
            (omega (arith, appended.2, same, length-escaped c (entry c)))))

  append_quoted-Written :
      (str : List ℕ) (s : Strbuf)
      → IsValid s
      → s.len + (length str * 6 + 2) < s.size
      → Written s (quoted str) (append_quoted heap s str)
  unfolding append_quoted
  append_quoted-Written str s v fits =
      let (t, runs, opened, same) = append_unsafe_lem s (b'"' ∷ []) v (omega arith) in
      let (u, runs', filled, same') =
        append_chars-Written str t opened.0 (omega (arith, opened.2, same)) in
      rw (runs, runs')
        (Written-twice s t (b'"' ∷ []) (escape str ++ (b'"' ∷ [])) _ opened same (
          Written-twice t u (escape str) (b'"' ∷ []) _ filled same' (
            append_unsafe_lem u (b'"' ∷ []) filled.0
              (omega (arith, opened.2, same, filled.2, same', length-escape str)))))

  -- If the buffer is valid and twice the size for the worst case is an `int`,
  -- `json_append_string` adds the quoted and escaped string to the buffer and leaves it valid, or
  -- the process ends because memory was refused. All writes stay inside the block, the unchecked
  -- ones as well, whatever the string holds.
  pub json_append_string_lem :
      (json : Strbuf) (str : List ℕ)
      → IsValid json
      → (json.len + (length str * 6 + 2) + 1) * 2 ≤ int_max
      → Ensures heap (Appended json (quoted str)) (json_append_string heap json str)
  unfolding json_append_string
  json_append_string_lem json str v fits = rw (int_ok (length str * 6 + 2) (omega arith)) (
      Ensures->>= heap _ _ (strbuf_ensure_empty_length heap json (length str * 6 + 2)) _
        (strbuf_ensure_empty_length_lem heap json v (length str * 6 + 2) fits)
        λ t room.
          let (u, runs, written, _) = append_quoted-Written str t room.0 (omega (arith, room)) in
          rw runs (
            written.0,
            written.1 ∙ ap (λ (x : List ℕ). x ++ quoted str) room.1,
            omega (arith, written.2, room),
          ))
