-- ===== src/Cjson/Ends/Nesting.antt =====
-- The encoder ends on every value, and what it does with its buffer when it raises an error.
use luarunner.Base.{
  ℕ, zero, suc, ◌+◌, ◌≤◌, ◌<◌, ◌≡◌, refl, arith, ◌==◌, ◌&&◌, Bool, true, false, Bool-cases, inl,
  inr, leb, [], ◌∷◌, Option, none, some, Result, ok, die, undefined, raise, spent,
}
use luarunner.Lua.{
  Value, nil, boolean, number, string, light_userdata, other, table, Entries, end, entry, rawgeti,
}
use luarunner.Fpconv.{Libc}
use luarunner.Strbuf.{Allocator, Strbuf, strbuf_append_char}
use luarunner.Cjson.Config.{JsonConfig}
use luarunner.Cjson.Encode.{
  not_kept, json_check_encode_depth, append_comma, append_key, array_items, json_append_array,
  object_items, json_append_object, append_table, json_append_data, encode_buffer, json_encode,
  lua_array_length, null_text,
}
use luarunner.Cjson.Ends.{Ends, Ends->>=}
use luarunner.Cjson.Ends.ArrayLength.{Decides, lua_array_length_lem}
use luarunner.Cjson.Ends.Buffer.{IsDoubling, Ends-strbuf_init}
use luarunner.Cjson.Config.Configured.{IsConfigured}
use luarunner.Cjson.Ends.Encoder.{
  Frees, Appends, then_append, mem, Ends-json_append_number, Ends-append_comma, Ends-append_key,
  Ends-json_append_string,
}

module _ (heap : Allocator) (libc : Libc) (point : ℕ) (checkstack : ℕ → ℕ → Bool)
    (cfg : JsonConfig) where
  Goes : Result Strbuf → Type 0
  Goes = Appends heap libc point checkstack cfg

  module _ (append_data : Value → Strbuf → Result Strbuf)
      (data_ends : (v : Value) (json : Strbuf) → IsDoubling json → Goes (append_data v json)) where
    Ends-array_items :
        (entries : Entries) (count i : ℕ) (comma : Bool) (json : Strbuf)
        → IsDoubling json
        → Goes (array_items heap libc point checkstack cfg append_data entries count i comma json)
    unfolding array_items Goes Appends
    Ends-array_items entries zero i comma json d = d
    Ends-array_items entries (suc count) i comma json d =
        then_append heap libc point checkstack cfg
          (append_comma heap libc point checkstack cfg comma json) _
          (Ends-append_comma heap libc point checkstack cfg comma json d)
          λ ready r.
            then_append heap libc point checkstack cfg (append_data (rawgeti i entries) ready) _
              (data_ends (rawgeti i entries) ready r)
              λ written w. Ends-array_items entries count (suc i) true written w

    Ends-json_append_array :
        (entries : Entries) (n : ℕ) (json : Strbuf)
        → IsDoubling json
        → Goes (json_append_array heap libc point checkstack cfg append_data entries n json)
    unfolding json_append_array Goes
    Ends-json_append_array entries n json d =
        then_append heap libc point checkstack cfg (strbuf_append_char heap json b'[') _
          (mem heap libc point checkstack cfg json (b'[' ∷ []) d)
          λ opened o.
            then_append heap libc point checkstack cfg
              (array_items heap libc point checkstack cfg append_data entries n 1 false opened) _
              (Ends-array_items entries n 1 false opened o)
              λ filled f. mem heap libc point checkstack cfg filled (b']' ∷ []) f

    Ends-object_items :
        (entries : Entries) (comma : Bool) (json : Strbuf)
        → IsDoubling json
        → Goes (object_items heap libc point checkstack cfg append_data entries comma json)
    unfolding object_items Goes Appends
    Ends-object_items end comma json d = d
    Ends-object_items (entry key item rest) comma json d =
        then_append heap libc point checkstack cfg
          (append_comma heap libc point checkstack cfg comma json) _
          (Ends-append_comma heap libc point checkstack cfg comma json d)
          λ ready r.
            then_append heap libc point checkstack cfg
              (append_key heap libc point checkstack cfg ready key) _
              (Ends-append_key heap libc point checkstack cfg ready key r)
              λ keyed k.
                then_append heap libc point checkstack cfg (append_data item keyed) _
                  (data_ends item keyed k) λ written w. Ends-object_items rest true written w

    Ends-json_append_object :
        (entries : Entries) (json : Strbuf)
        → IsDoubling json
        → Goes (json_append_object heap libc point checkstack cfg append_data entries json)
    unfolding json_append_object Goes
    Ends-json_append_object entries json d =
        then_append heap libc point checkstack cfg (strbuf_append_char heap json b'{') _
          (mem heap libc point checkstack cfg json (b'{' ∷ []) d)
          λ opened o.
            then_append heap libc point checkstack cfg
              (object_items heap libc point checkstack cfg append_data entries false opened) _
              (Ends-object_items entries false opened o)
              λ filled f. mem heap libc point checkstack cfg filled (b'}' ∷ []) f

  relaxed :
      (entries : Entries) (r : Result (Option ℕ))
      → Decides cfg entries r
      → Ends (Frees heap libc point checkstack cfg) (λ o. Unit {0}) r
  relaxed entries (ok a) h = tt
  relaxed entries die h = tt
  relaxed entries undefined h = tt
  relaxed entries spent h = h
  relaxed entries (raise freed e) h = h.2

  Ends-lua_array_length :
      (entries : Entries)
      → Ends (Frees heap libc point checkstack cfg) (λ o. Unit {0}) (lua_array_length cfg entries)
  Ends-lua_array_length entries =
      relaxed entries (lua_array_length cfg entries) (lua_array_length_lem cfg entries)

  Ends-append_table :
      (append_data : Value → Strbuf → Result Strbuf) (depth : ℕ) (entries : Entries) (json : Strbuf)
      → IsDoubling json
      → (depth ≤ cfg.encode_max_depth
          → (v : Value) (json : Strbuf) → IsDoubling json
          → Goes (append_data v json))
      → Goes (append_table heap libc point checkstack cfg append_data depth entries json)
  unfolding append_table json_check_encode_depth Goes Appends
  Ends-append_table append_data depth entries json d data_ends =
      elim (Bool-cases (leb depth cfg.encode_max_depth && checkstack depth 3)) [
        | inl within ↦ rw within (
            Ends->>= (Frees heap libc point checkstack cfg) (λ o. Unit {0}) IsDoubling
              (lua_array_length cfg entries) _ (Ends-lua_array_length entries)
              λ o u. of_length o (data_ends (ground (arith, within))))
        | inr beyond ↦ rw beyond refl
      ]
    where
      of_length :
          (o : Option ℕ)
          → ((v : Value) (json : Strbuf) → IsDoubling json → Goes (append_data v json))
          → Goes (elim o [
            | some (suc n) ↦
                json_append_array heap libc point checkstack cfg append_data entries (suc n) json
            | _ ↦ json_append_object heap libc point checkstack cfg append_data entries json
          ])
      of_length none h = Ends-json_append_object append_data h entries json d
      of_length (some zero) h = Ends-json_append_object append_data h entries json d
      of_length (some (suc n)) h = Ends-json_append_array append_data h entries (suc n) json d

  -- The fuel is enough: levels beyond the limit are refused.
  Ends-json_append_data :
      (fuel depth : ℕ) (v : Value) (json : Strbuf)
      → cfg.encode_max_depth < fuel + depth
      → depth ≤ cfg.encode_max_depth
      → IsDoubling json
      → Goes (json_append_data heap libc point checkstack cfg fuel depth v json)
  unfolding json_append_data Goes Appends
  Ends-json_append_data fuel depth (string s) json h k d =
      Ends-json_append_string (Frees heap libc point checkstack cfg) heap json s d
  Ends-json_append_data fuel depth (number num) json h k d =
      Ends-json_append_number heap libc point checkstack cfg json num d
  Ends-json_append_data fuel depth (boolean true) json h k d =
      mem heap libc point checkstack cfg json (b't' ∷ b'r' ∷ b'u' ∷ b'e' ∷ []) d
  Ends-json_append_data fuel depth (boolean false) json h k d =
      mem heap libc point checkstack cfg json (b'f' ∷ b'a' ∷ b'l' ∷ b's' ∷ b'e' ∷ []) d
  Ends-json_append_data zero depth (table entries) json h k d = absurd (omega (arith, h, k))
  Ends-json_append_data (suc fuel) depth (table entries) json h k d =
      Ends-append_table (json_append_data heap libc point checkstack cfg fuel (suc depth))
        (suc depth) entries json d
        λ within v t e. Ends-json_append_data fuel (suc depth) v t (omega (arith, h)) within e
  Ends-json_append_data fuel depth nil json h k d =
      mem heap libc point checkstack cfg json null_text d
  Ends-json_append_data fuel depth (light_userdata zero) json h k d =
      mem heap libc point checkstack cfg json null_text d
  Ends-json_append_data fuel depth (light_userdata (suc p)) json h k d = refl
  Ends-json_append_data fuel depth other json h k d = refl

  Ends-encode_buffer : IsConfigured cfg → Goes (encode_buffer heap libc point checkstack cfg)
  unfolding encode_buffer Goes Appends
  Ends-encode_buffer c = elim (Bool-cases (cfg.encode_keep_buffer == 0)) [
    | inl off ↦ rw off (Ends-strbuf_init (Frees heap libc point checkstack cfg) heap)
    | inr on ↦ rw on (elim c.0 [
      | inl unkept ↦ absurd (ground (arith, unkept.0, on))
      | inr (keep, kept, is, v) ↦ rw is (v.doubling, omega (arith, v.room))
    ])
  ]

  -- With a configuration in its ranges, no loop of `json_encode` runs on, whatever the value is, and
  -- if it raises an error, the buffer was freed if and only if it is not kept.
  pub json_encode-Ends :
      (v : Value)
      → IsConfigured cfg
      → Ends
          (λ freed. freed ≡ not_kept cfg)
          (λ r. Unit {0})
          (json_encode heap libc point checkstack cfg v)
  unfolding json_encode Goes Appends
  json_encode-Ends v c =
      Ends->>= (Frees heap libc point checkstack cfg) IsDoubling (λ r. Unit {0})
        (encode_buffer heap libc point checkstack cfg) _ (Ends-encode_buffer c)
        λ start d.
          Ends->>= (Frees heap libc point checkstack cfg) IsDoubling (λ r. Unit {0})
            (json_append_data heap libc point checkstack cfg (suc cfg.encode_max_depth) 0 v start) _
            (Ends-json_append_data (suc cfg.encode_max_depth) 0 v start (omega arith) (omega arith)
              d)
            λ filled e. tt
