-- ===== src/Base/Errors.antt =====
-- What the functions of lua_cjson.c and lua_yyjson.c report by `luaL_error`.
use Prim.Native.Nat.{ℕ}
use mathlib.Core.List.{List}

-- The types of tokens, `json_token_type_t`.
pub data TokenType : Type 0 where
  t_obj_begin t_obj_end t_arr_begin t_arr_end t_string t_number t_boolean t_null : TokenType
  t_colon t_comma t_end t_whitespace t_error t_unknown : TokenType

-- The messages of a T_ERROR token.
pub data TokenError : Type 0 where
  unexpected_end invalid_unicode_escape invalid_escape invalid_number invalid_token : TokenError

-- What a parse error names as expected, and as found.
pub data Expected : Type 0 where
  object_key_string colon_sign value comma_or_object_end comma_or_array_end the_end : Expected

pub data Found : Type 0 where
  token_name : TokenType → Found
  message : TokenError → Found

-- Why a value cannot be serialised.
pub data Reason : Type 0 where
  not_finite sparse_array bad_key unsupported_type : Reason

-- The numbers are the depth that was reached, and the position from which a message counts.
pub data LuaError : Type 0 where
  cannot_serialise : Reason → LuaError
  excessive_nesting : ℕ → LuaError
  expected_but_found : Expected → Found → ℕ → LuaError
  too_many_nested : ℕ → ℕ → LuaError
  not_utf8 out_of_range too_many_arguments bad_argument : LuaError
  error_parsing : (pos : ℕ) → (msg : List ℕ) → LuaError
  index_scalar readonly invalid_value no_memory : LuaError
