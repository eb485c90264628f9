-- ===== src/Cjson/Ends/Tests.antt =====
-- lua_cjson.c: the table `{[1] = true, [3] = true}`.
use luarunner.Base.{true, none, pos}
use luarunner.Lua.{Value, Entries, integer}
use luarunner.Cjson.Config.{JsonConfig}
use luarunner.Cjson.Encode.{lua_array_length}
use luarunner.Cjson.Ends.ArrayLength.{Decides, lua_array_length_lem}

abbrev cfg : JsonConfig
cfg = record {
  encode_buf = none;
  encode_sparse_convert = 0;
  encode_sparse_ratio = 1;
  encode_sparse_safe = 2;
  encode_max_depth = 1000;
  encode_invalid_numbers = 0;
  encode_number_precision = 14;
  encode_keep_buffer = 0;
  decode_invalid_numbers = 1;
  decode_max_depth = 1000;
}

abbrev two_entries : Entries
two_entries =
    Entries.entry (Value.number (integer (pos 1))) (Value.boolean true)
      (Entries.entry (Value.number (integer (pos 3))) (Value.boolean true) Entries.end)

-- It is refused as too sparse.
lua_array_length_lem_example : Decides cfg two_entries (lua_array_length cfg two_entries)
lua_array_length_lem_example = lua_array_length_lem cfg two_entries
