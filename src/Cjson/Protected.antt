-- ===== src/Cjson/Protected.antt =====
-- lua_cjson.c: `json_protect_conversion`, with which cjson.safe calls `encode` and `decode`, and the
-- end of a configuration.
use luarunner.Base.{
  ℕ, ◌==◌, ◌≡◌, ◌⊎◌, inl, inr, refl, Bool, false, if◌then◌else◌, none, some, Result, ok, raise,
  ◌>>=◌, LuaError, bad_argument, no_memory,
}
use luarunner.Strbuf.Release.{Handle, handle, strbuf_free}
use luarunner.Cjson.Config.{JsonConfig}

-- What `lua_pcall` returns: 0 and the value, LUA_ERRRUN and the error, or another code.
data Status (A : Type 0) : Type 0 where
  success : A → Status A
  run_error : LuaError → Status A
  other_error : Status A

-- The value, or nil and the error.
protected : {A : Type 0} → Status A → Result (A ⊎ LuaError)
protected (success a) = ok (inl a)
protected (run_error e) = ok (inr e)
protected other_error = raise false no_memory

-- `lua_pcall` is a parameter, given what the protected function does.
json_protect_conversion :
    {A : Type 0}
    → (lua_pcall : Result A → Result (Status A)) → (arguments : ℕ) → (conversion : Result A)
    → Result (A ⊎ LuaError)
json_protect_conversion lua_pcall arguments conversion =
    if arguments == 1 then lua_pcall conversion >>= protected else raise false bad_argument

-- As documented: an error is caught, and nothing else changes.
abbrev Catches : {A : Type 0} → (Result A → Result (Status A)) → Type 0
Catches {A} lua_pcall =
    ((a : A) → lua_pcall (ok a) ≡ ok (success a))
    × ((freed : Bool) (e : LuaError) → lua_pcall (raise freed e) ≡ ok (run_error e))

-- With one argument, an error of the conversion comes back as nil and the error, and a value as it
-- is.
json_protect_conversion_lem :
    {A : Type 0} (lua_pcall : Result A → Result (Status A)) (a : A) (freed : Bool) (e : LuaError)
    → Catches lua_pcall
    → (json_protect_conversion lua_pcall 1 (ok a) ≡ ok (inl a))
      × (json_protect_conversion lua_pcall 1 (raise freed e) ≡ ok (inr e))
unfolding json_protect_conversion protected
json_protect_conversion_lem lua_pcall a freed e c = (rw (c.0 a) refl, rw (c.1 freed e) refl)

-- `__gc` of the configuration. A buffer that is not kept was freed before, and is NULL.
json_destroy_config : JsonConfig → Result Handle
json_destroy_config cfg = elim cfg.encode_buf [
  | none ↦ strbuf_free (record { buf = none; dynamic = false; freed = false })
  | some s ↦ strbuf_free (handle s)
]
