-- ===== src/Yyjson/Cells/Tests.antt =====
-- A string with a NUL in it, stored in an object and read.
use luarunner.Base.{ℕ, ◌≡◌, refl, arith, true, List, [], ◌∷◌, Option, none, some, ℤ, ok}
use luarunner.Lua.{integer}
use luarunner.Yyjson.{YyjsonType}
use luarunner.Yyjson.Nodes.{MutNode, Arg, number, string, mut_node, Checks, lua_yyjson_index_mut}
use luarunner.Yyjson.Values.{lua_yyjson_newindex_mut}
use luarunner.Yyjson.RoundTrip.{index_mut-newindex_mut}
use luarunner.Yyjson.Cells.{Cells, add, blank, cells, cells_contents}

abbrev check_string : Arg cells → Option (List ℕ)
check_string (string s) = some s
check_string _ = none

abbrev check_int : Arg cells → Option ℤ
check_int (number (integer n)) = some n
check_int _ = none

abbrev strict : Checks cells
strict = record { check_string = check_string; check_int = check_int }

abbrev an_object : Cells
an_object = (add (blank YyjsonType.obj) (record { next = 0; cell = λ i. blank YyjsonType.none })).1

abbrev object_node : MutNode cells
object_node = record { mut_doc = tt; mut_root = 0; is_root = true }

index_mut-newindex_mut_example :
    (mem' : Cells) × (lua_yyjson_newindex_mut cells strict
        (mut_node object_node)
        (string (97 ∷ []))
        (string (98 ∷ 0 ∷ 99 ∷ []))
        an_object
      ≡ (ok tt, mem'))
    × (lua_yyjson_index_mut cells strict (mut_node object_node) (string (97 ∷ [])) mem'
        ≡ (ok (string (98 ∷ [])), mem'))
unfolding cells_contents
index_mut-newindex_mut_example =
    index_mut-newindex_mut cells cells_contents strict object_node (string (97 ∷ [])) (97 ∷ []) refl
      refl (string (98 ∷ 0 ∷ 99 ∷ [])) an_object (omega arith) refl tt
