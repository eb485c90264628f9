-- ===== src/Cjson/Document/Encoding.antt =====
-- `json_encode` on the value of a document, and `json_decode` behind it.
use luarunner.Base.{
  ℕ, suc, ◌+◌, ◌*◌, ◌≤◌, ◌≡◌, inl, inr, refl, ◌∙◌, ap, arith, Bool, false, if◌then◌else◌, ◌==◌,
  List, [], ◌++◌, length, length-take, none, some, int_max, ◌>>=◌,
}
use luarunner.Lua.{Double}
use luarunner.Fpconv.{Libc}
use luarunner.Strbuf.{Allocator, Strbuf, content, strbuf_init}
use luarunner.Strbuf.Outcome.{Ensures, Ensures->>=, Ensures-map}
use luarunner.Strbuf.Append.{IsValid, Appended}
use luarunner.Strbuf.New.{strbuf_init-default}
use luarunner.Cjson.Config.{JsonConfig}
use luarunner.Cjson.Config.Configured.{HasBuffer}
use luarunner.Cjson.Encode.{encode_buffer, json_encode, json_append_data}
use luarunner.Cjson.Decode.{json_decode}
use luarunner.Cjson.Document.{Json, print, decoded, value_of}
use luarunner.Cjson.Document.Readable.{Readable}
use luarunner.Cjson.Document.Decoding.{json_decode-print}
use luarunner.Cjson.Document.Distinct.{Distinct, decoded-value_of}
use luarunner.Cjson.Document.Writable.{room_for, Writable, length-print}
use luarunner.Cjson.Document.Written.{value_written}

-- Valid, and without a string.
abbrev IsEmpty : Strbuf → Type 0
IsEmpty s = IsValid s × (content s ≡ []) × (s.len ≡ 0)

empty_length : (s : Strbuf) → IsValid s → content s ≡ [] → s.len ≡ 0
empty_length s v e =
    let none_left : length (content s) ≡ 0 = ap length e in
    omega (arith, none_left, length-take s.len s.buf, v.allocated, v.room)

module _ (heap : Allocator) (libc : Libc) (point : ℕ) (checkstack : ℕ → ℕ → Bool) (cfg : JsonConfig)
    (digits : Double → List ℕ) where
  encode_buffer_lem :
      HasBuffer cfg.encode_keep_buffer cfg.encode_buf
      → Ensures heap IsEmpty (encode_buffer heap libc point checkstack cfg)
  unfolding encode_buffer
  encode_buffer_lem (inl (off, gone)) = rw off (
      Ensures-map heap _ IsEmpty (strbuf_init heap 0)
        (λ s new. (new.0, new.1, empty_length s new.0 new.1)) (strbuf_init-default heap))
  encode_buffer_lem (inr (on, s, kept, valid)) =
      rw (on, kept)
        (
          record {
            allocated = valid.allocated;
            room = omega (arith, valid.room);
            max = valid.max;
            doubling = valid.doubling;
          },
          refl,
          refl,
        )

  -- The encoder writes the text of a document for its value, or the process ends because memory
  -- was refused: where the buffer is as the settings say, the document nests no deeper than is
  -- allowed, `digits` is what is written for its finite numbers, the test for sparse arrays does
  -- not overflow, and twice the room that it needs is an `int`. The buffer that is kept for the
  -- next call is valid.
  pub json_encode-value_of :
      (j : Json)
      → HasBuffer cfg.encode_keep_buffer cfg.encode_buf
      → Writable libc point checkstack cfg digits 0 j
      → (room_for j + 1) * 2 ≤ int_max
      → Ensures heap
          (λ r. (r.0 ≡ print digits j) × HasBuffer cfg.encode_keep_buffer r.1)
          (json_encode heap libc point checkstack cfg (value_of j))
  unfolding json_encode
  json_encode-value_of j buffer w fits =
      Ensures->>= heap IsEmpty _ (encode_buffer heap libc point checkstack cfg) _
        (encode_buffer_lem buffer)
        λ s start.
          Ensures->>= heap (Appended s (print digits j)) _
            (json_append_data heap libc point checkstack cfg (suc cfg.encode_max_depth) 0
              (value_of j) s)
            _
            (value_written heap libc point checkstack cfg digits j (suc cfg.encode_max_depth) 0 s w
              (omega arith) start.0 (omega (arith, fits, start.2)))
            λ t done. (
              done.1 ∙ ap (λ (x : List ℕ). x ++ print digits j) start.1,
              kept_buffer buffer t done.0,
            )
    where
      kept_buffer :
          HasBuffer cfg.encode_keep_buffer cfg.encode_buf
          → (u : Strbuf) → IsValid u
          → HasBuffer cfg.encode_keep_buffer (if cfg.encode_keep_buffer == 0 then none else some u)
      kept_buffer (inl (off, gone)) u valid = inl (off, rw off refl)
      kept_buffer (inr (on, s, kept, was)) u valid = inr (on, u, rw on refl, valid)

-- The numbers of both directions are finite ones that `digits` writes and `strtod` reads back.
module _ (heap : Allocator) (libc : Libc) (point : ℕ) (checkstack : ℕ → ℕ → Bool) (cfg : JsonConfig)
    (digits : Double → List ℕ) where
  -- Decoding what the encoder returns for the value of a document gives this value, or the process
  -- ends because memory was refused: no object of the document has two fields of one name, the
  -- document meets the conditions for writing it and those for reading it, and numbers are read
  -- leniently.
  pub json_decode-json_encode :
      (j : Json) (room : ℕ)
      → Distinct j
      → HasBuffer cfg.encode_keep_buffer cfg.encode_buf
      → Writable libc point checkstack cfg digits 0 j
      → (room_for j + 1) * 2 ≤ int_max
      → (cfg.decode_invalid_numbers == 0) ≡ false
      → Readable heap libc point checkstack cfg digits room 0 j
      → Ensures heap
          (λ v. v ≡ value_of j)
          (json_encode heap libc point checkstack cfg (value_of j) >>= λ (text, kept).
            json_decode heap libc point checkstack cfg text)
  json_decode-json_encode j room distinct buffer w fits lenient r =
      Ensures->>= heap _ _ (json_encode heap libc point checkstack cfg (value_of j)) _
        (json_encode-value_of heap libc point checkstack cfg digits j buffer w fits)
        λ o written. rw written.0 (
          Ensures-map heap (λ v. v ≡ decoded j) (λ v. v ≡ value_of j)
            (json_decode heap libc point checkstack cfg (print digits j))
            (λ v e. e ∙ decoded-value_of j distinct)
            (json_decode-print heap libc point checkstack cfg digits j room lenient r
              (omega (arith, fits, length-print libc point checkstack cfg digits j 0 w))))
