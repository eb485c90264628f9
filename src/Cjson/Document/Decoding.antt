-- ===== src/Cjson/Document/Decoding.antt =====
-- `json_decode` on the text of a document.
use luarunner.Base.{
  ℕ, ◌+◌, ◌≤◌, ◌<◌, ◌≡◌, refl, sym, ◌∙◌, ap, arith, Bool, false, ◌==◌, List, [], ◌∷◌, ◌++◌, length,
  length-append, append_assoc, int_max, Result, ok, ◌>>=◌,
}
use luarunner.Lua.{Double, Value}
use luarunner.Fpconv.{Libc}
use luarunner.Strbuf.{Allocator, Strbuf, strbuf_new}
use luarunner.Strbuf.Growth.{int_ok}
use luarunner.Strbuf.Outcome.{Ensures, Ensures->>=}
use luarunner.Strbuf.New.{IsNew, strbuf_new_lem}
use luarunner.Cjson.Config.{JsonConfig}
use luarunner.Cjson.Unquote.{at}
use luarunner.Cjson.Decode.{json_decode, wide_text, no_more_input, next_token, json_process_value}
use luarunner.Cjson.Document.{Json, print, decoded}
use luarunner.Cjson.Document.Tokens.{end_sign}
use luarunner.Cjson.Document.Readable.{Readable, ReadAs, process}
use luarunner.Cjson.Document.Reading.{value-read}
use luarunner.Cjson.Document.Text.{narrow-print, print_pos, size-print, refit}

wide_text-append :
    (xs ys : List ℕ) → 2 ≤ length xs → wide_text xs ≡ false → wide_text (xs ++ ys) ≡ false
wide_text-append [] ys two narrow = absurd (omega arith)
wide_text-append (x ∷ []) ys two narrow = absurd (omega arith)
wide_text-append (x ∷ y ∷ xs) ys two narrow = narrow

module _ (heap : Allocator) (libc : Libc) (point : ℕ) (checkstack : ℕ → ℕ → Bool) (cfg : JsonConfig)
    (digits : Double → List ℕ) (room : ℕ) where
  abbrev decode : List ℕ → Result Value
  decode = json_decode heap libc point checkstack cfg

  finished :
      (v : Value) (offset : ℕ) (tmp : Strbuf) (rest : List ℕ)
      → no_more_input heap libc point checkstack cfg v (at 0 (0 ∷ rest) offset tmp) ≡ ok v
  unfolding no_more_input
  finished v offset tmp rest = rw (end_sign heap libc point cfg 0 offset tmp rest) refl

  -- The rest of `json_decode`, once it has its buffer.
  abbrev parse : ℕ → List ℕ → Strbuf → Result Value
  parse fuel memory tmp = do
    (token, json) ← next_token heap libc point checkstack cfg (at 0 memory 0 tmp)
    (v, rest) ← json_process_value heap libc point checkstack cfg fuel token json
    no_more_input heap libc point checkstack cfg v rest

  parsed :
      (fuel : ℕ) (memory behind : List ℕ) (tmp : Strbuf) (offset : ℕ) (v : Value)
      → ReadAs heap libc point checkstack cfg digits room
          (process heap libc point checkstack cfg digits room fuel)
          (at 0 memory 0 tmp)
          v
          (at 0 (0 ∷ behind) offset)
      → parse fuel memory tmp ≡ ok v
  parsed fuel memory behind tmp offset v r = rw (r.found, r.runs) (finished v offset r.tmp behind)

  module _ (lenient : (cfg.decode_invalid_numbers == 0) ≡ false) where
    from_text :
        (j : Json) (text behind : List ℕ) (any : ℕ)
        → Readable heap libc point checkstack cfg digits any 0 j
        → text ++ (0 ∷ []) ≡ print digits j ++ (0 ∷ behind)
        → wide_text text ≡ false
        → room ≡ length text + 1
        → length text < int_max
        → Ensures heap (λ v. v ≡ decoded j) (decode text)
    unfolding json_decode
    from_text j text behind any r same narrow enough small =
        let memory = length-append (print digits j) (0 ∷ behind) in
        let ends : length (text ++ (0 ∷ [])) ≡ length text + 1 = length-append text (0 ∷ []) in
        let long : length (text ++ (0 ∷ [])) ≡ length (print digits j ++ (0 ∷ behind)) =
          ap length same in
        let some_bytes = print_pos heap libc point checkstack cfg digits any j 0 r in
        let whole = size-print heap libc point checkstack cfg digits any j 0 r in
        rw (narrow, int_ok (length text) (omega (arith, small)))
          (Ensures->>= heap (IsNew heap (length text + 1)) (λ v. v ≡ decoded j)
            (strbuf_new heap (length text)) _
            (strbuf_new_lem heap (length text) (omega (arith, memory, ends, long, some_bytes))
              small)
            λ tmp fresh.
              rw
                (
                  same,
                  parsed (length (print digits j ++ (0 ∷ behind))) (print digits j ++ (0 ∷ behind))
                      behind tmp _ (decoded j)
                      (value-read heap libc point checkstack cfg digits room lenient j _ 0 0 tmp 0
                        behind
                        (refit heap libc point checkstack cfg digits any room j 0 r
                          (omega (arith, memory, ends, long, enough)))
                        (omega (arith, memory, whole)) refl fresh.0 (fresh.2 ∙ sym enough)),
                )
                refl)

module _ (heap : Allocator) (libc : Libc) (point : ℕ) (checkstack : ℕ → ℕ → Bool) (cfg : JsonConfig)
    (digits : Double → List ℕ) where
  -- The decoder returns the value of a document from its text, or the process ends because memory
  -- was refused: where numbers are read leniently, as they are by default, each number's text is
  -- one that `strtod` reads back in front of what ends a value, the document nests no deeper than
  -- is allowed, its strings hold bytes, and the length of the text is below the largest `int`.
  pub json_decode-print :
      (j : Json) (room : ℕ)
      → (cfg.decode_invalid_numbers == 0) ≡ false
      → Readable heap libc point checkstack cfg digits room 0 j
      → length (print digits j) < int_max
      → Ensures heap
          (λ v. v ≡ decoded j)
          (json_decode heap libc point checkstack cfg (print digits j))
  json_decode-print j room lenient r small =
      from_text heap libc point checkstack cfg digits _ lenient j (print digits j) [] room r refl
        (narrow-print heap libc point checkstack cfg digits room j 0 r) refl small

  -- Behind the text of a document of at least two bytes, the decoder ignores a NUL byte and
  -- everything that follows it, under the conditions under which it reads the text alone.
  pub json_decode-nul :
      (j : Json) (room : ℕ) (ignored : List ℕ)
      → (cfg.decode_invalid_numbers == 0) ≡ false
      → Readable heap libc point checkstack cfg digits room 0 j
      → 2 ≤ length (print digits j)
      → length (print digits j ++ (0 ∷ ignored)) < int_max
      → Ensures heap
          (λ v. v ≡ decoded j)
          (json_decode heap libc point checkstack cfg (print digits j ++ (0 ∷ ignored)))
  json_decode-nul j room ignored lenient r two small =
      from_text heap libc point checkstack cfg digits _ lenient j (print digits j ++ (0 ∷ ignored))
        (ignored ++ (0 ∷ [])) room r (append_assoc (print digits j) (0 ∷ ignored) (0 ∷ []))
        (wide_text-append (print digits j) (0 ∷ ignored) two
          (narrow-print heap libc point checkstack cfg digits room j 0 r))
        refl small
