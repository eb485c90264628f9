-- ===== src/Yyjson/World.antt =====
-- lua_yyjson.c as a program of Lua uses it: what `luaopen_yyjson` registers, and the values that
-- Lua keeps and collects.
use luarunner.Base.{
  ◌≡◌, ◌⊎◌, List, [], ◌∷◌, ◌++◌, Option, some, none, Result, ok, raise, die, undefined, spent,
}
use luarunner.Yyjson.{Yyjson}
use luarunner.Yyjson.Nodes.{
  Arg, nil, other, foreign, boolean, number, string, light_userdata, node, mut_node, table, Entries,
  end, entry, Checks, Action, bind, pure, lua_yyjson_new, lua_yyjson_load, lua_yyjson_load_mut,
  lua_yyjson_index, lua_yyjson_index_mut, lua_yyjson_newindex, lua_yyjson_write_mut, lua_yyjson_gc,
  lua_yyjson_gc_mut,
}
use luarunner.Yyjson.Values.{lua_yyjson_newindex_mut}
use luarunner.Yyjson.Ownership.{AnyDoc, fixed_doc, mut_doc, owns}

module _ (y : Yyjson) where
  open y use {Memory}

  -- The documents that a value and those inside it are of.
  unfoldable mutual
    pub refers : Arg y → List (AnyDoc y)
    refers (node n) = fixed_doc n.doc ∷ []
    refers (mut_node n) = mut_doc n.mut_doc ∷ []
    refers (table entries) = refers_entries entries
    refers nil = []
    refers other = []
    refers foreign = []
    refers (boolean b) = []
    refers (number d) = []
    refers (string s) = []
    refers (light_userdata p) = []

    pub refers_entries : Entries y → List (AnyDoc y)
    refers_entries end = []
    refers_entries (entry key item rest) = refers key ++ refers item ++ refers_entries rest

  -- The functions of the module, and the metamethods.
  pub data Call : Type 0 where
    new : Call
    load load_mut : (text : Arg y) → Call
    index index_mut : (self key : Arg y) → Call
    newindex newindex_mut : (self key item : Arg y) → Call
    write_mut : (self : Arg y) → Call

  unfoldable pub arguments : Call → List (AnyDoc y)
  arguments new = []
  arguments (load text) = refers text
  arguments (load_mut text) = refers text
  arguments (index self key) = refers self ++ refers key
  arguments (index_mut self key) = refers self ++ refers key
  arguments (newindex self key item) = refers self ++ refers key ++ refers item
  arguments (newindex_mut self key item) = refers self ++ refers key ++ refers item
  arguments (write_mut self) = refers self

  module _ (lua : Checks y) where
    -- What returns nothing is given nil.
    unfoldable pub perform : Call → Action y (Arg y)
    perform new = lua_yyjson_new y
    perform (load text) = lua_yyjson_load y lua text
    perform (load_mut text) = lua_yyjson_load_mut y lua text
    perform (index self key) = lua_yyjson_index y lua self key
    perform (index_mut self key) = lua_yyjson_index_mut y lua self key
    perform (newindex self key item) = bind y (lua_yyjson_newindex y) λ u. pure y nil
    perform (newindex_mut self key item) =
        bind y (lua_yyjson_newindex_mut y lua self key item) λ u. pure y nil
    perform (write_mut self) = lua_yyjson_write_mut y self

  -- The `__gc` of the value's metatable.
  unfoldable pub collect : Arg y → Action y (Unit {0})
  collect (node n) = lua_yyjson_gc y (node n)
  collect (mut_node n) = lua_yyjson_gc_mut y (mut_node n)
  collect _ = pure y tt

  -- What `lua_close` does with the values that are left.
  unfoldable pub collect_all : List (Arg y) → Action y (Unit {0})
  collect_all [] = pure y tt
  collect_all (a ∷ xs) = bind y (collect a) λ u. collect_all xs

  -- `held` are the values that were returned and are not collected yet.
  pub record World : Type 0 where
    pub mem : Memory
    pub held : List (Arg y)

  -- An error leaves the memory as it is by then. Nothing is said after the other results.
  unfoldable pub returned : List (Arg y) → Result (Arg y) × Memory → Option World
  returned held (ok a, mem) = some (record { mem = mem; held = a ∷ held })
  returned held (raise freed e, mem) = some (record { mem = mem; held = held })
  returned held (die, mem) = none
  returned held (undefined, mem) = none
  returned held (spent, mem) = none

  pub data TakenOut (a : Arg y) : List (Arg y) → List (Arg y) → Type 0 where
    first : {xs : List (Arg y)} → TakenOut a (a ∷ xs) xs
    later : {b : Arg y} {xs ys : List (Arg y)} → TakenOut a xs ys → TakenOut a (b ∷ xs) (b ∷ ys)

  abbrev pub All : (AnyDoc y → Type 0) → List (AnyDoc y) → Type 0
  All P [] = Unit
  All P (d ∷ ds) = P d × All P ds

  -- One call or one collection. A call is given values whose documents are allocated: a node is
  -- not used after its document was freed, which the code does not ensure where a part outlives
  -- its root. Any value that is held may be collected, once; a script that gets at `__gc` through
  -- `getmetatable` and calls it is not a step.
  module _ (lua : Checks y) (Alive : Memory → AnyDoc y → Type 0) where
    pub data Step (w : World) : World → Type 0 where
      called :
          {w' : World} (c : Call)
          → All (Alive w.mem) (arguments c)
          → returned w.held (perform lua c w.mem) ≡ some w'
          → Step w w'
      collected :
          {rest : List (Arg y)} (a : Arg y)
          → TakenOut a w.held rest
          → Step w (record { mem = (collect a w.mem).1; held = rest })

    pub data Steps (w : World) : World → Type 0 where
      here : Steps w w
      next : {u v : World} → Steps w u → Step u v → Steps w v

    -- Lua starts without documents.
    abbrev pub IsInitial : World → Type 0
    IsInitial w = (w.held ≡ []) × ((d : AnyDoc y) → ¬ Alive w.mem d)

  -- A value among these frees `d` when it is collected, and no two of them free the same.
  unfoldable pub IsRooted : AnyDoc y → List (Arg y) → Type 0
  IsRooted d [] = ⊥
  IsRooted d (a ∷ xs) = (owns y a ≡ some d) ⊎ IsRooted d xs

  unfoldable pub IsDistinct : List (Arg y) → Type 0
  IsDistinct [] = Unit
  IsDistinct (a ∷ xs) = ((d : AnyDoc y) → owns y a ≡ some d → ¬ IsRooted d xs) × IsDistinct xs
