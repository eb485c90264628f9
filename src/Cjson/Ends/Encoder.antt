-- ===== src/Cjson/Ends/Encoder.antt =====
-- What the encoder does for strings, numbers and keys ends, and what it frees on an error.
use luarunner.Base.{
  ℕ, ◌+◌, ◌*◌, ◌≡◌, refl, ◌==◌, ◌&&◌, Bool, true, false, Bool-cases, inl, inr, leb, List, [], ◌∷◌,
  ◌++◌, length, Option, none, some, Result, ◌>>=◌, int,
}
use luarunner.Lua.{Double, Value, nil, boolean, number, string, light_userdata, other, table}
use luarunner.Fpconv.{Libc, fpconv_g_fmt, set_number_format, g_fmt_bufsize}
use luarunner.Strbuf.{
  Allocator, Strbuf, poke, strbuf_append_char, strbuf_append_char_unsafe, strbuf_append_mem,
  strbuf_ensure_empty_length,
}
use luarunner.Cjson.Config.{JsonConfig}
use luarunner.Cjson.Escapes.{text, entry as escape_entry}
use luarunner.Cjson.Strings.{append_escape, append_chars, append_quoted, json_append_string}
use luarunner.Cjson.Encode.{
  not_kept, append_finite, append_invalid, invalid_text, json_append_number, append_comma,
  append_key, null_text,
}
use luarunner.Cjson.Ends.{Ends, Ends->>=}
use luarunner.Cjson.Ends.Buffer.{
  IsDoubling, Ends-int, Ends-poke, Ends-strbuf_append_mem_unsafe, Ends-strbuf_append_mem,
  Ends-strbuf_append_string, Ends-strbuf_ensure_empty_length,
}

-- Writing strings raises no error; `Q` is whatever is said of those.
module _ (Q : Bool → Type 0) (heap : Allocator) where
  Ends-append_chars :
      (str : List ℕ) (json : Strbuf)
      → IsDoubling json
      → Ends Q IsDoubling (append_chars heap json str)
  unfolding append_chars append_escape
  Ends-append_chars [] json d = d
  Ends-append_chars (c ∷ str) json d =
      Ends->>= Q IsDoubling IsDoubling (append_escape heap json c (text (escape_entry c)))
        (λ next. append_chars heap next str) (escaped (text (escape_entry c)))
        λ next e. Ends-append_chars str next e
    where
      escaped : (o : Option (List ℕ)) → Ends Q IsDoubling (append_escape heap json c o)
      escaped none = Ends-strbuf_append_mem_unsafe Q json (c ∷ []) d
      escaped (some escstr) = Ends-strbuf_append_string Q heap json escstr d

  pub Ends-json_append_string :
      (json : Strbuf) (str : List ℕ)
      → IsDoubling json
      → Ends Q IsDoubling (json_append_string heap json str)
  unfolding json_append_string append_quoted
  Ends-json_append_string json str d =
      Ends->>= Q (λ m. m ≡ length str * 6 + 2) IsDoubling (int (length str * 6 + 2)) _
        (Ends-int Q (length str * 6 + 2))
        λ wanted e.
          Ends->>= Q IsDoubling IsDoubling (strbuf_ensure_empty_length heap json wanted) _
            (Ends-strbuf_ensure_empty_length Q heap json wanted d)
            λ roomy r.
              Ends->>= Q IsDoubling IsDoubling (strbuf_append_char_unsafe roomy b'"') _
                (Ends-strbuf_append_mem_unsafe Q roomy (b'"' ∷ []) r)
                λ opened o.
                  Ends->>= Q IsDoubling IsDoubling (append_chars heap opened str) _
                    (Ends-append_chars str opened o)
                    λ filled f. Ends-strbuf_append_mem_unsafe Q filled (b'"' ∷ []) f

module _ (heap : Allocator) (libc : Libc) (point : ℕ) (checkstack : ℕ → ℕ → Bool)
    (cfg : JsonConfig) where
  -- An error frees a buffer that is not kept, and only such a one.
  abbrev pub Frees : Bool → Type 0
  Frees freed = freed ≡ not_kept cfg

  -- The buffer goes on, or an error is raised.
  unfoldable pub Appends : Result Strbuf → Type 0
  Appends = Ends Frees IsDoubling

  pub then_append :
      (r : Result Strbuf) (f : Strbuf → Result Strbuf)
      → Appends r
      → ((t : Strbuf) → IsDoubling t → Appends (f t))
      → Appends (r >>= f)
  unfolding Appends
  then_append r f h k = Ends->>= Frees IsDoubling IsDoubling r f h k

  pub mem :
      (json : Strbuf) (bytes : List ℕ)
      → IsDoubling json
      → Appends (strbuf_append_mem heap json bytes)
  unfolding Appends
  mem json bytes d = Ends-strbuf_append_mem Frees heap json bytes d

  Ends-fpconv_g_fmt :
      (num : Double) (precision : ℕ)
      → Ends Frees (λ b. Unit {0}) (fpconv_g_fmt libc point num precision)
  unfolding fpconv_g_fmt set_number_format
  Ends-fpconv_g_fmt num precision = elim (Bool-cases (leb 1 precision && leb precision 14)) [
    | inl fits ↦ rw fits tt
    | inr wrong ↦ rw wrong tt
  ]

  Ends-append_finite :
      (json : Strbuf) (num : Double)
      → IsDoubling json
      → Appends (append_finite heap libc point checkstack cfg json num)
  unfolding append_finite Appends
  Ends-append_finite json num d =
      Ends->>= Frees IsDoubling IsDoubling (strbuf_ensure_empty_length heap json g_fmt_bufsize) _
        (Ends-strbuf_ensure_empty_length Frees heap json g_fmt_bufsize d)
        λ roomy r.
          Ends->>= Frees (λ b. Unit {0}) IsDoubling
            (fpconv_g_fmt libc point num cfg.encode_number_precision) _
            (Ends-fpconv_g_fmt num cfg.encode_number_precision)
            λ (text, len) u.
              Ends->>= Frees (λ b. Unit {0}) IsDoubling
                (poke roomy.buf roomy.len (text ++ (0 ∷ []))) _
                (Ends-poke Frees roomy.buf roomy.len (text ++ (0 ∷ []))) λ block w. r

  Ends-append_invalid :
      (json : Strbuf) (text : List ℕ)
      → IsDoubling json
      → Appends (append_invalid heap libc point checkstack cfg json text)
  unfolding append_invalid Appends
  Ends-append_invalid json text d = elim (Bool-cases (cfg.encode_invalid_numbers == 0)) [
    | inl refuse ↦ rw refuse refl
    | inr allow ↦ rw allow (elim (Bool-cases (cfg.encode_invalid_numbers == 1)) [
      | inl write ↦ rw write (mem json text d)
      | inr as_null ↦ rw as_null (mem json null_text d)
    ])
  ]

  pub Ends-json_append_number :
      (json : Strbuf) (num : Double)
      → IsDoubling json
      → Appends (json_append_number heap libc point checkstack cfg json num)
  unfolding json_append_number
  Ends-json_append_number json num d = of_text (invalid_text num)
    where
      of_text :
          (o : Option (List ℕ))
          → Appends (elim o [
            | some text ↦ append_invalid heap libc point checkstack cfg json text
            | none ↦ append_finite heap libc point checkstack cfg json num
          ])
      of_text none = Ends-append_finite json num d
      of_text (some text) = Ends-append_invalid json text d

  pub Ends-append_comma :
      (comma : Bool) (json : Strbuf)
      → IsDoubling json
      → Appends (append_comma heap libc point checkstack cfg comma json)
  unfolding append_comma Appends
  Ends-append_comma true json d = mem json (b',' ∷ []) d
  Ends-append_comma false json d = d

  pub Ends-append_key :
      (json : Strbuf) (key : Value)
      → IsDoubling json
      → Appends (append_key heap libc point checkstack cfg json key)
  unfolding append_key Appends
  Ends-append_key json (number k) d =
      then_append (strbuf_append_char heap json b'"') _ (mem json (b'"' ∷ []) d) λ opened o.
        then_append (json_append_number heap libc point checkstack cfg opened k) _
          (Ends-json_append_number opened k o) λ written w. mem written (b'"' ∷ b':' ∷ []) w
  Ends-append_key json (string k) d =
      then_append (json_append_string heap json k) _ (Ends-json_append_string Frees heap json k d)
        λ written w. mem written (b':' ∷ []) w
  Ends-append_key json nil d = refl
  Ends-append_key json (boolean b) d = refl
  Ends-append_key json (light_userdata p) d = refl
  Ends-append_key json other d = refl
  Ends-append_key json (table entries) d = refl
