-- ===== src/Cjson/Ends/Values.antt =====
-- The parser ends on every text: what opens a value or a key is taken off the text.
use luarunner.Base.{
  ℕ, zero, suc, ◌+◌, ◌≤◌, ◌<◌, ◌≡◌, refl, arith, Bool, true, ◌&&◌, Bool-cases, inl, inr, length,
  Result, ok, ◌>>=◌, leb, value,
}
use luarunner.Lua.{Value, Entries, light_userdata}
use luarunner.Strbuf.{Allocator}
use luarunner.Fpconv.{Libc}
use luarunner.Cjson.Config.{JsonConfig}
use luarunner.Cjson.Strings.{JsonParse}
use luarunner.Cjson.Tokens.{
  Token, JsonToken, json_next_token, obj_begin, arr_begin, string, number, boolean, null,
}
use luarunner.Cjson.Decode.{
  Parsed, json_throw_parse_error, json_decode_descend, object_loop, json_parse_object_context,
  array_loop, json_parse_array_context, json_process_value,
}
use luarunner.Cjson.Document.Readable.{opens}
use luarunner.Cjson.Ends.{Ends, Ends->>=, Ends-weaken, Ends-Never}
use luarunner.Cjson.Ends.Branches.{
  at_array_end, at_object_end, at_colon, at_key, if_array_end, if_object_end,
}
use luarunner.Cjson.Ends.Tokens.{Took, Ends-json_next_token}

-- An error is raised only after the buffer was freed.
abbrev pub Freed : Bool → Type 0
Freed freed = freed ≡ true

-- A value was read, and no more is left than there was.
abbrev pub Read : JsonParse → Value × JsonParse → Type 0
Read json (v, j) = length j.ptr ≤ length json.ptr

-- What opens a value was taken off the text before, so that less than the fuel is left.
abbrev pub Fuelled : ℕ → JsonToken → JsonParse → Type 0
Fuelled fuel t json = (1 ≤ fuel) × (opens t.token ≡ true → length json.ptr < fuel)

module _ (heap : Allocator) (libc : Libc) (point : ℕ) (checkstack : ℕ → ℕ → Bool)
    (cfg : JsonConfig) where
  -- A token is read, and then what follows.
  pub then_token :
      {B : Type 0} (R : B → Type 0) (json : JsonParse) (f : JsonToken × JsonParse → Result B)
      → ((t : JsonToken) (j : JsonParse)
          → 1 ≤ length json.ptr
          → Took json (t, j)
          → Ends Freed R (f (t, j)))
      → Ends Freed R (json_next_token heap libc point cfg json >>= f)
  then_token R json f k =
      Ends->>= Freed (λ r. (1 ≤ length json.ptr) × Took json r) R
        (json_next_token heap libc point cfg json) f
        (Ends-Never Freed _ (json_next_token heap libc point cfg json)
          (Ends-json_next_token heap libc point cfg json))
        λ (t, j) h. k t j h.0 h.1

  Ends-descend :
      (slots : ℕ) (json : JsonParse)
      → Ends Freed
          (λ j. length j.ptr ≡ length json.ptr)
          (json_decode_descend heap libc point checkstack cfg slots json)
  unfolding json_decode_descend
  Ends-descend slots json =
      elim (Bool-cases (
        leb (json.current_depth + 1) cfg.decode_max_depth
        && checkstack (json.current_depth + 1) slots)) [
          | inl fine ↦ rw fine refl
          | inr deep ↦ rw deep refl
        ]

  -- A value was read from what the token opens.
  abbrev pub ValueRead : JsonToken → JsonParse → Value × JsonParse → Type 0
  ValueRead t json r = (opens t.token ≡ true) × Read json r

  module _ (process : JsonToken → JsonParse → Parsed) (fuel : ℕ)
      (ends : (t : JsonToken) (json : JsonParse)
        → Fuelled fuel t json
        → Ends Freed (ValueRead t json) (process t json)) where
    Ends-array_loop :
        (f i : ℕ) (items : Entries) (t : JsonToken) (json : JsonParse)
        → f ≤ fuel
        → Fuelled f t json
        → Ends Freed
            (Read json)
            (array_loop heap libc point checkstack cfg process f i items t json)
    unfolding array_loop
    Ends-array_loop zero i items t json le h = absurd (omega (arith, h.0))
    Ends-array_loop (suc f) i items t json le h =
        Ends->>= Freed (ValueRead t json) (Read json) (process t json) _
          (ends t json (omega (arith, le), λ e. omega (arith, le, h.1 e)))
          λ (v, j₁) r₁. then_token (Read json) j₁ _ λ after j₂ some₁ r₂.
            at_array_end Freed (Read json) _ refl after.token _ _ (omega (arith, r₁.1, r₂.0)) (
              then_token (Read json) j₂ _ λ again j₃ some₂ r₃.
                Ends-weaken Freed (Read j₃) (Read json) _
                  (λ a g. omega (arith, g, r₁.1, r₂.0, r₃.0))
                  (Ends-array_loop f (suc i) _ again j₃ (omega (arith, le)) (
                    omega (arith, some₂, r₁.1, r₂.0, h.1 r₁.0),
                    λ e. omega (arith, r₁.1, r₂.0, r₃.1 e, h.1 r₁.0),
                  )))

    Ends-object_loop :
        (f : ℕ) (items : Entries) (t : JsonToken) (json : JsonParse)
        → f ≤ fuel
        → Fuelled f t json
        → Ends Freed (Read json) (object_loop heap libc point checkstack cfg process f items t json)
    unfolding object_loop
    Ends-object_loop zero items t json le h = absurd (omega (arith, h.0))
    Ends-object_loop (suc f) items t json le h =
        at_key Freed (Read json) _ refl t.token _ λ key is_open.
          then_token (Read json) json _ λ sign j₁ some₁ r₁.
            at_colon Freed (Read json) _ refl sign.token _ (
              then_token (Read json) j₁ _ λ first j₂ some₂ r₂.
                Ends->>= Freed (ValueRead first j₂) (Read json) (process first j₂) _
                  (ends first j₂
                    (omega (arith, le), λ e. omega (arith, le, r₂.1 e, r₁.0, h.1 is_open)))
                  λ (v, j₃) r₃. then_token (Read json) j₃ _ λ after j₄ some₄ r₄.
                    at_object_end Freed (Read json) _ refl after.token _ _
                      (omega (arith, r₁.0, r₂.0, r₃.1, r₄.0))
                      (then_token (Read json) j₄ _ λ again j₅ some₅ r₅.
                        Ends-weaken Freed (Read j₅) (Read json) _
                          (λ a g. omega (arith, g, r₁.0, r₂.0, r₃.1, r₄.0, r₅.0))
                          (Ends-object_loop f _ again j₅ (omega (arith, le)) (
                            omega (arith, some₅, r₁.0, r₂.0, r₃.1, r₄.0, h.1 is_open),
                            λ e. omega (arith, r₁.0, r₂.0, r₃.1, r₄.0, r₅.1 e, h.1 is_open),
                          ))))

    Ends-array_context :
        (json : JsonParse)
        → length json.ptr ≤ fuel
        → Ends Freed
            (Read json)
            (json_parse_array_context heap libc point checkstack cfg process fuel json)
    unfolding json_parse_array_context
    Ends-array_context json h =
        Ends->>= Freed _ (Read json) (json_decode_descend heap libc point checkstack cfg 2 json) _
          (Ends-descend 2 json)
          λ j₁ same. then_token (Read json) j₁ _ λ t j₂ some r.
            if_array_end Freed (Read json) _
              (Ends-weaken Freed (Read j₂) (Read json) _ (λ a g. omega (arith, g, r.0, same))
                (Ends-array_loop fuel 1 Entries.end t j₂ (omega arith)
                  (omega (arith, some, same, h), λ e. omega (arith, r.1 e, same, h))))
              t.token _ (omega (arith, r.0, same))

    Ends-object_context :
        (json : JsonParse)
        → length json.ptr ≤ fuel
        → Ends Freed
            (Read json)
            (json_parse_object_context heap libc point checkstack cfg process fuel json)
    unfolding json_parse_object_context
    Ends-object_context json h =
        Ends->>= Freed _ (Read json) (json_decode_descend heap libc point checkstack cfg 3 json) _
          (Ends-descend 3 json)
          λ j₁ same. then_token (Read json) j₁ _ λ t j₂ some r.
            if_object_end Freed (Read json) _
              (Ends-weaken Freed (Read j₂) (Read json) _ (λ a g. omega (arith, g, r.0, same))
                (Ends-object_loop fuel Entries.end t j₂ (omega arith)
                  (omega (arith, some, same, h), λ e. omega (arith, r.1 e, same, h))))
              t.token _ (omega (arith, r.0, same))

  pub Ends-json_process_value :
      (fuel : ℕ) (t : JsonToken) (json : JsonParse)
      → Fuelled fuel t json
      → Ends Freed
          (ValueRead t json)
          (json_process_value heap libc point checkstack cfg fuel t json)
  unfolding json_process_value
  Ends-json_process_value zero t json h = absurd (omega (arith, h.0))
  Ends-json_process_value (suc fuel) t json h = of_token t.token h.1 (Ends-json_process_value fuel)
    where
      process : JsonToken → JsonParse → Parsed
      process = json_process_value heap libc point checkstack cfg fuel

      of_token :
          (tok : Token)
          → (opens tok ≡ true → length json.ptr < suc fuel)
          → ((s : JsonToken) (j : JsonParse)
              → Fuelled fuel s j
              → Ends Freed (ValueRead s j) (process s j))
          → Ends Freed
              (λ r. (opens tok ≡ true) × Read json r)
              (elim tok [
                | string s ↦ ok (Value.string s, json)
                | number d ↦ ok (Value.number d, json)
                | boolean b ↦ ok (Value.boolean b, json)
                | obj_begin ↦
                    json_parse_object_context heap libc point checkstack cfg process fuel json
                | arr_begin ↦
                    json_parse_array_context heap libc point checkstack cfg process fuel json
                | null ↦ ok (light_userdata 0, json)
                | _ ↦ json_throw_parse_error value t
              ])
      of_token (string s) k ends = (refl, omega arith)
      of_token (number d) k ends = (refl, omega arith)
      of_token (boolean b) k ends = (refl, omega arith)
      of_token null k ends = (refl, omega arith)
      of_token obj_begin k ends =
          Ends-weaken Freed (Read json) _
            (json_parse_object_context heap libc point checkstack cfg process fuel json)
            (λ a g. (refl, g)) (Ends-object_context process fuel ends json (omega (arith, k refl)))
      of_token arr_begin k ends =
          Ends-weaken Freed (Read json) _
            (json_parse_array_context heap libc point checkstack cfg process fuel json)
            (λ a g. (refl, g)) (Ends-array_context process fuel ends json (omega (arith, k refl)))
      of_token _ k ends = refl
