-- ===== src/Yyjson/Nodes.antt =====
-- lua_yyjson.c: the functions that Lua calls.
use luarunner.Base.{
  ℕ, ◌-◌, ◌^◌, Bool, true, false, ◌==◌, if◌then◌else◌, List, [], ◌∷◌, Option, none, some, ◌⊎◌, inl,
  inr, ℤ, pos, negsuc, Result, ok, die, undefined, spent, raise, LuaError, error_parsing,
  index_scalar, readonly, bad_argument,
}
use luarunner.Lua.{Double}
use luarunner.Yyjson.{YyjsonType, Reader, Yyjson}

-- `(size_t)n` for an `int`.
abbrev pub to_size : ℤ → ℕ
to_size (pos n) = n
to_size (negsuc n) = 2 ^ 64 - 1 - n

-- The part of a string that C sees.
abbrev pub c_string : List ℕ → List ℕ
c_string [] = []
c_string (c ∷ s) = if c == 0 then [] else c ∷ c_string s

module _ (y : Yyjson) where
  open y use {Memory, Doc, Val, MutDoc, MutVal, fixed, mut}

  -- `yyjson_node` and `yyjson_mut_node`, which never change once they are made.
  pub record Node : Type 0 where
    pub doc : Doc
    pub root : Val
    pub is_root : Bool

  pub record MutNode : Type 0 where
    pub mut_doc : MutDoc
    pub mut_root : MutVal
    pub is_root : Bool

  -- Lua's values, with both kinds of nodes. `foreign` is a userdata of another kind, `other` a
  -- function or a thread. The entries of a table stand in the order of `lua_next`.
  mutual
    pub data Arg : Type 0 where
      nil other foreign : Arg
      boolean : Bool → Arg
      number : Double → Arg
      string : List ℕ → Arg
      light_userdata : ℕ → Arg
      node : Node → Arg
      mut_node : MutNode → Arg
      table : Entries → Arg

    pub data Entries : Type 0 where
      end : Entries
      entry : (key item : Arg) → Entries → Entries

  -- What is used of Lua for an argument: `luaL_checklstring` and `luaL_checkint`, `none` where they
  -- raise an error.
  pub record Checks : Type 0 where
    pub check_string : Arg → Option (List ℕ)
    pub check_int : Arg → Option ℤ

  -- The memory is as it was left also where an error is raised.
  abbrev pub Action : Type 0 → Type 0
  Action A = Memory → Result A × Memory

  abbrev pub bind : {A B : Type 0} → Action A → (A → Action B) → Action B
  bind m f mem =
      let (r, mem') = m mem in
      elim r [
        | ok a ↦ f a mem'
        | die ↦ (die, mem')
        | undefined ↦ (undefined, mem')
        | spent ↦ (spent, mem')
        | raise freed e ↦ (raise freed e, mem')
      ]

  infixl 5 ◌>>=◌ ◌>>◌
  abbrev ◌>>=◌ : {A B : Type 0} → Action A → (A → Action B) → Action B
  ◌>>=◌ = bind

  abbrev ◌>>◌ : {B : Type 0} → Action (Unit {0}) → Action B → Action B
  m >> k = m >>= λ _. k

  abbrev pub pure : {A : Type 0} → A → Action A
  pure a mem = (ok a, mem)

  -- `luaL_error`.
  abbrev pub fails : {A : Type 0} → LuaError → Action A
  fails e mem = (raise false e, mem)

  abbrev pub run : {A : Type 0} → (Memory → A × Memory) → Action A
  run f mem = let (a, mem') = f mem in (ok a, mem')

  abbrev pub change : (Memory → Memory) → Action (Unit {0})
  change f mem = (ok tt, f mem)

  abbrev pub gets : {A : Type 0} → (Memory → A) → Action A
  gets f mem = (ok (f mem), mem)

  abbrev pub checked : {A : Type 0} → Option A → Action A
  checked none = fails bad_argument
  checked (some a) = pure a

  -- `luaL_checkudata` for each of the two metatables.
  abbrev pub check_node : Arg → Action Node
  check_node (node n) = pure n
  check_node _ = fails bad_argument

  abbrev pub check_mut_node : Arg → Action MutNode
  check_mut_node (mut_node n) = pure n
  check_mut_node _ = fails bad_argument

  -- The value that is pushed for what was found. For a raw value, which is not read with the
  -- options in use, nothing is pushed, and the key on top of the stack is returned.
  unfoldable pub push_val :
      {V : Type 0} → Reader Memory V → (V → Arg) → Arg → Option V → Memory → Arg
  push_val reader new_node key none mem = nil
  push_val reader new_node key (some val) mem = elim (reader.get_type mem val) [
    | YyjsonType.none ↦ nil
    | YyjsonType.null ↦ light_userdata 0
    | YyjsonType.str ↦ string (c_string (reader.get_str mem val))
    | YyjsonType.bool ↦ boolean (reader.get_bool mem val)
    | YyjsonType.num ↦ number (reader.get_num mem val)
    | YyjsonType.arr ↦ new_node val
    | YyjsonType.obj ↦ new_node val
    | YyjsonType.raw ↦ key
  ]

  -- The node for a part has the document of the node it was reached from.
  abbrev pub part_of : Node → Val → Arg
  part_of n val = node (record { doc = n.doc; root = val; is_root = false })

  abbrev pub mut_part_of : MutNode → MutVal → Arg
  mut_part_of n val = mut_node (record { mut_doc = n.mut_doc; mut_root = val; is_root = false })

  unfoldable pub lua_yyjson_new : Action Arg
  lua_yyjson_new = do
    mut_doc ← run y.mut_doc_new
    mut_root ← run (y.mut_obj mut_doc)
    change (y.mut_doc_set_root mut_doc mut_root)
    pure (mut_node (record { mut_doc = mut_doc; mut_root = mut_root; is_root = true }))

  -- `luaL_checkudata(L, 1, "yyjson_mt")` and the test of `is_root`.
  unfoldable pub lua_yyjson_gc : Arg → Action (Unit {0})
  lua_yyjson_gc self = do
    n ← check_node self
    if n.is_root then change (y.doc_free n.doc) else pure tt

  unfoldable pub lua_yyjson_gc_mut : Arg → Action (Unit {0})
  lua_yyjson_gc_mut self = do
    n ← check_mut_node self
    if n.is_root then change (y.mut_doc_free n.mut_doc) else pure tt

  unfoldable pub lua_yyjson_write_mut : Arg → Action Arg
  lua_yyjson_write_mut self = do
    n ← check_mut_node self
    json ← gets (λ mem. y.mut_val_write mem n.mut_root)
    pure (string json)

  unfoldable pub lua_yyjson_newindex : Action (Unit {0})
  lua_yyjson_newindex = fails readonly

  -- What follows `yyjson_read_opts` in the two functions that parse.
  unfoldable pub loaded : (ℕ × List ℕ) ⊎ Doc → Action Arg
  loaded (inl (at, msg)) = fails (error_parsing at msg)
  loaded (inr doc) = do
    root ← gets (λ mem. y.doc_get_root mem doc)
    pure (node (record { doc = doc; root = root; is_root = true }))

  unfoldable pub loaded_mut : (ℕ × List ℕ) ⊎ Doc → Action Arg
  loaded_mut (inl (at, msg)) = fails (error_parsing at msg)
  loaded_mut (inr doc) = do
    mut_doc ← run (y.doc_mut_copy doc)
    mut_root ← gets (λ mem. y.mut_doc_get_root mem mut_doc)
    change (y.doc_free doc)
    pure (mut_node (record { mut_doc = mut_doc; mut_root = mut_root; is_root = true }))

  module _ (lua : Checks) where
    unfoldable pub lua_yyjson_load : Arg → Action Arg
    lua_yyjson_load text = do
      json ← checked (lua.check_string text)
      answer ← run (y.read_opts json)
      loaded answer

    unfoldable pub lua_yyjson_load_mut : Arg → Action Arg
    lua_yyjson_load_mut text = do
      json ← checked (lua.check_string text)
      answer ← run (y.read_opts json)
      loaded_mut answer

    -- `yyjson_obj_get` is given a C string, `yyjson_arr_get` a size.
    unfoldable pub member_of :
        {V : Type 0} → Reader Memory V → V → Arg → YyjsonType → Action (Option V)
    member_of reader root key YyjsonType.obj = do
      name ← checked (lua.check_string key)
      gets (λ mem. reader.obj_get mem root (c_string name))
    member_of reader root key YyjsonType.arr = do
      i ← checked (lua.check_int key)
      gets (λ mem. reader.arr_get mem root (to_size i))
    member_of reader root key _ = fails index_scalar

    -- What is found at a key.
    unfoldable pub member : {V : Type 0} → Reader Memory V → V → Arg → Action (Option V)
    member reader root key = gets (λ mem. reader.get_type mem root) >>= member_of reader root key

    unfoldable pub lua_yyjson_index : Arg → Arg → Action Arg
    lua_yyjson_index self key = do
      n ← check_node self
      val ← member fixed n.root key
      gets (push_val fixed (part_of n) key val)

    unfoldable pub lua_yyjson_index_mut : Arg → Arg → Action Arg
    lua_yyjson_index_mut self key = do
      n ← check_mut_node self
      val ← member mut n.mut_root key
      gets (push_val mut (mut_part_of n) key val)

    -- The branch of `lua_yyjson_newindex_mut` for a new value, and the one for nil.
    unfoldable pub put_member : MutNode → YyjsonType → Arg → MutVal → Action (Unit {0})
    put_member n YyjsonType.obj key newval = do
      name ← checked (lua.check_string key)
      k ← run (y.mut_strncpy n.mut_doc name)
      change (y.mut_obj_put n.mut_root k newval)
    put_member n YyjsonType.arr key newval = do
      i ← checked (lua.check_int key)
      change (y.mut_arr_remove n.mut_root (to_size i))
      change (y.mut_arr_insert n.mut_root newval (to_size i))
    put_member n _ key newval = fails index_scalar

    unfoldable pub remove_member : MutNode → YyjsonType → Arg → Action (Unit {0})
    remove_member n YyjsonType.obj key = do
      name ← checked (lua.check_string key)
      change (y.mut_obj_remove_keyn n.mut_root name)
    remove_member n YyjsonType.arr key = do
      i ← checked (lua.check_int key)
      change (y.mut_arr_remove n.mut_root (to_size i))
    remove_member n _ key = fails index_scalar
