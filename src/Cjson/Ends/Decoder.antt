-- ===== src/Cjson/Ends/Decoder.antt =====
-- `json_decode` ends on every text, and frees its buffer before it reports an error.
use luarunner.Base.{
  ℕ, ◌+◌, ◌≡◌, refl, Bool, not, if◌then◌else◌, Bool-cases, inl, inr, List, [], ◌∷◌, ◌++◌, length,
  ok, int, or_die, ◌==◌,
}
use luarunner.Lua.{Value}
use luarunner.Strbuf.{Allocator, sizeof_strbuf, strbuf_init, strbuf_new}
use luarunner.Fpconv.{Libc}
use luarunner.Cjson.Config.{JsonConfig}
use luarunner.Cjson.Strings.{JsonParse}
use luarunner.Cjson.Decode.{json_process_value, no_more_input, wide_text, json_decode}
use luarunner.Cjson.Ends.{Ends, Never, Ends->>=, Ends-Never}
use luarunner.Cjson.Ends.Branches.{at_end}
use luarunner.Cjson.Ends.Strings.{Anything, Ends-ensure_null}
use luarunner.Cjson.Ends.Tokens.{Ends-int, Ends-or_die, Ends-if}
use luarunner.Cjson.Ends.Values.{Freed, ValueRead, then_token, Ends-json_process_value}

module _ (heap : Allocator) (libc : Libc) (point : ℕ) (checkstack : ℕ → ℕ → Bool)
    (cfg : JsonConfig) where
  Ends-no_more_input :
      (v : Value) (json : JsonParse)
      → Ends Freed Anything (no_more_input heap libc point checkstack cfg v json)
  unfolding no_more_input
  Ends-no_more_input v json =
      then_token heap libc point checkstack cfg Anything json _
        λ t j some r. at_end Freed Anything _ refl t.token (ok v) tt

  Ends-strbuf_new : (len : ℕ) → Ends Never Anything (strbuf_new heap len)
  unfolding strbuf_new strbuf_init
  Ends-strbuf_new len =
      Ends->>= Never Anything Anything (or_die (heap.malloc sizeof_strbuf)) _
        (Ends-or_die (heap.malloc sizeof_strbuf))
        λ itself x.
          Ends->>= Never Anything Anything (strbuf_init heap len) _
            (Ends->>= Never Anything Anything (if len == 0 then ok 1023 else int (len + 1)) _
              (Ends-if Never Anything (len == 0) (ok 1023) (int (len + 1)) tt (Ends-int (len + 1)))
              λ size u.
                Ends->>= Never Anything Anything (or_die (heap.malloc size)) _
                  (Ends-or_die (heap.malloc size)) λ block v. Ends-ensure_null _)
            λ s w. tt

  -- On every text, without any condition on the libraries or the configuration, the decoder
  -- returns a value, reports an error, ends the process or does what C leaves undefined, but no
  -- loop runs on: the bytes of the text and the terminator are enough fuel. Where it reports an
  -- error, it has freed its buffer before, if it had one: always but for the error about texts
  -- that are not UTF-8, which is found before the buffer is made.
  pub json_decode-Ends :
      (text : List ℕ)
      → Ends
          (λ freed. freed ≡ not (wide_text text))
          Anything
          (json_decode heap libc point checkstack cfg text)
  unfolding json_decode
  json_decode-Ends text = elim (Bool-cases (wide_text text)) [
    | inl wide ↦ rw wide refl
    | inr narrow ↦ rw narrow (
        Ends->>= Freed Anything Anything (int (length text)) _
          (Ends-Never Freed Anything (int (length text)) (Ends-int (length text)))
          λ len u.
            Ends->>= Freed Anything Anything (strbuf_new heap len) _
              (Ends-Never Freed Anything (strbuf_new heap len) (Ends-strbuf_new len))
              λ tmp w. then_token heap libc point checkstack cfg Anything _ _ λ t j some r.
                Ends->>= Freed (ValueRead heap libc point checkstack cfg t j) Anything
                  (json_process_value heap libc point checkstack cfg (length (text ++ (0 ∷ []))) t
                    j)
                  _
                  (Ends-json_process_value heap libc point checkstack cfg
                    (length (text ++ (0 ∷ []))) t j (some, r.1))
                  λ (v, rest) x. Ends-no_more_input v rest)
  ]
