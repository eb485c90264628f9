-- ===== src/LuaExt.antt =====
-- lua_ext.c: the hashes as functions of Lua, `hash.postgres`, `hash.murmur3` and `hash.crc32`.
use luarunner.Base.{ℕ, Bool, List, [], Option, none, some, ℤ}
use luarunner.Crc32.{xcrc32}
use luarunner.HashFn.{Endian, hash_bytes}
use luarunner.Lua.{Value, number, integer}
use luarunner.Murmur3.{murmur_x86_32}

-- `lua_tolstring` is a parameter; it gives NULL for what is neither a string nor a number.
module _ (tolstring : Value → Option (List ℕ)) where
  -- The bytes that are hashed. Behind NULL the length is 0, and nothing is read.
  abbrev pub input : Value → List ℕ
  input arg = elim (tolstring arg) [ none ↦ [] | some bytes ↦ bytes ]

  -- `lua_pushinteger`, for a `lua_Integer` of 64 bits.
  abbrev pub push_hash : ℕ → Value
  push_hash hash = number (integer (ℤ.pos hash))

  unfoldable pub lua_pg_hash_bytes : Endian → (aligned : Bool) → Value → Value
  lua_pg_hash_bytes e aligned arg = push_hash (hash_bytes e aligned (input arg))

  unfoldable pub lua_murmur3 : Endian → Value → Value
  lua_murmur3 e arg = push_hash (murmur_x86_32 e (input arg) 0)

  unfoldable pub lua_crc32 : Value → Value
  lua_crc32 arg = push_hash (xcrc32 (input arg) 0xffffffff)
