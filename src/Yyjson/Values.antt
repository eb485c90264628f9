-- ===== src/Yyjson/Values.antt =====
-- lua_yyjson.c: a value of Lua as a new value of a document, and what is stored.
use luarunner.Base.{
  ℕ, ◌^◌, Bool, true, false, ◌==◌, ltb, if◌then◌else◌, Option, none, some, ℤ, pos, negsuc,
  undefined, invalid_value, bad_argument,
}
use luarunner.Lua.{Double, nan, infinite, integer, fraction}
use luarunner.Yyjson.{YyjsonType, Yyjson}
use luarunner.Yyjson.Nodes.{
  MutNode, Arg, nil, other, foreign, boolean, number, string, light_userdata, node, mut_node, table,
  Entries, end, entry, Checks, Action, bind, pure, fails, run, change, gets, check_mut_node,
  put_member, remove_member,
}

-- `(int64_t)n`, where it is defined.
unfoldable pub to_int64 : ℤ → Option ℤ
to_int64 (pos n) = if ltb n (2 ^ 63) then some (pos n) else none
to_int64 (negsuc n) = if ltb n (2 ^ 63) then some (negsuc n) else none

-- The bits of -0, which equals the integer 0.
abbrev pub minus_zero : ℕ
minus_zero = 2 ^ 63

module _ (y : Yyjson) where
  open y use {Memory, MutDoc, MutVal}

  infixl 5 ◌>>=◌
  abbrev ◌>>=◌ : {A B : Type 0} → Action y A → (A → Action y B) → Action y B
  ◌>>=◌ = bind y

  -- A new value.
  abbrev made : (Memory → MutVal × Memory) → Action y (Option MutVal)
  made f = run y f >>= λ v. pure y (some v)

  -- The case LUA_TNUMBER. A number that has no `int64_t` must not be converted.
  unfoldable pub int_val : MutDoc → Option ℤ → Action y MutVal
  int_val doc none = λ mem. (undefined, mem)
  int_val doc (some i) = run y (y.mut_int doc i)

  unfoldable pub number_val : MutDoc → Double → Action y MutVal
  number_val doc nan = λ mem. (undefined, mem)
  number_val doc (infinite negative) = λ mem. (undefined, mem)
  number_val doc (integer n) = int_val doc (to_int64 n)
  number_val doc (fraction bits) =
      if bits == minus_zero
      then int_val doc (some (pos 0))
      else run y (y.mut_real doc (fraction bits))

  -- `lua_touserdata`, which is NULL for what is no userdata.
  unfoldable pub is_null : Arg y → Bool
  is_null (light_userdata p) = p == 0
  is_null (node n) = false
  is_null (mut_node n) = false
  is_null foreign = false
  is_null _ = true

  -- The cases of `lua_yyjson_val` but for tables. `third` is the value at index 3 of the stack, at
  -- which the case LUA_TLIGHTUSERDATA looks.
  unfoldable pub scalar_val : MutDoc → (third : Arg y) → Arg y → Action y (Option MutVal)
  scalar_val doc third nil = pure y none
  scalar_val doc third (boolean b) = made (y.mut_bool doc b)
  scalar_val doc third (number d) = number_val doc d >>= λ v. pure y (some v)
  scalar_val doc third (string s) = made (y.mut_strncpy doc s)
  scalar_val doc third (mut_node n) = made (y.mut_val_mut_copy doc n.mut_root)
  scalar_val doc third (node n) = fails y bad_argument
  scalar_val doc third foreign = fails y bad_argument
  scalar_val doc third (light_userdata p) =
      if is_null third then made (y.mut_null doc) else fails y invalid_value
  scalar_val doc third other = fails y invalid_value
  scalar_val doc third (table entries) = fails y invalid_value

  -- The case LUA_TTABLE: an object, and the loop that fills it.
  unfoldable pub with_object : MutDoc → (MutVal → Action y (Unit {0})) → Action y (Option MutVal)
  with_object doc fill =
      run y (y.mut_obj doc) >>= λ newval. fill newval >>= λ _. pure y (some newval)

  unfoldable pub is_table : Arg y → Bool
  is_table (table entries) = true
  is_table _ = false

  -- `lua_yyjson_val(L, -2, dst_node)` in the loop, where `value` is `lua_yyjson_val(L, -1, dst_node)`.
  -- For a key that is a table, `lua_next` goes over what is below the nil on top of the stack: the
  -- value of the entry.
  unfoldable pub key_val :
      MutDoc
      → (third : Arg y) → (key item : Arg y) → (value : Action y (Option MutVal))
      → Action y (Option MutVal)
  key_val doc third key item value =
      if is_table key
      then (if is_table item then value else λ mem. (undefined, mem))
      else scalar_val doc third key

  -- `lua_yyjson_val` with the case LUA_TTABLE, and its loop. A table is a finite tree here: one that
  -- contains itself, on which the code recurses without bound, is not modelled. C leaves open which
  -- of the two arguments of `yyjson_mut_obj_add` is converted first; here it is the key.
  unfoldable mutual
    pub lua_yyjson_val : MutDoc → (third : Arg y) → Arg y → Action y (Option MutVal)
    lua_yyjson_val doc third (table entries) =
        with_object doc (λ o. add_entries doc third o entries)
    lua_yyjson_val doc third nil = scalar_val doc third nil
    lua_yyjson_val doc third other = scalar_val doc third other
    lua_yyjson_val doc third foreign = scalar_val doc third foreign
    lua_yyjson_val doc third (boolean b) = scalar_val doc third (boolean b)
    lua_yyjson_val doc third (number d) = scalar_val doc third (number d)
    lua_yyjson_val doc third (string s) = scalar_val doc third (string s)
    lua_yyjson_val doc third (light_userdata p) = scalar_val doc third (light_userdata p)
    lua_yyjson_val doc third (node n) = scalar_val doc third (node n)
    lua_yyjson_val doc third (mut_node n) = scalar_val doc third (mut_node n)

    pub add_entries : MutDoc → (third : Arg y) → MutVal → Entries y → Action y (Unit {0})
    add_entries doc third newval end = pure y tt
    add_entries doc third newval (entry key item rest) =
        let value = lua_yyjson_val doc third item in
        key_val doc third key item value >>= λ k. value >>= λ v.
        change y (y.mut_obj_add newval k v) >>= λ _. add_entries doc third newval rest

  module _ (lua : Checks y) where
    -- What is done with the new value: it is put where the key says, and nil removes what is there.
    unfoldable pub store : MutNode y → YyjsonType → Arg y → Option MutVal → Action y (Unit {0})
    store n node_type key (some newval) = put_member y lua n node_type key newval
    store n node_type key none = remove_member y lua n node_type key

    -- The type is looked at before the new value is made.
    unfoldable pub lua_yyjson_newindex_mut : (self key item : Arg y) → Action y (Unit {0})
    lua_yyjson_newindex_mut self key item = do
      n ← check_mut_node y self
      node_type ← gets y (λ mem. y.mut.get_type mem n.mut_root)
      newval ← lua_yyjson_val n.mut_doc item item
      store n node_type key newval
