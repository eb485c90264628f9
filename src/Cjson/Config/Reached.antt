-- ===== src/Cjson/Config/Reached.antt =====
-- lua_cjson.c: the functions that `lua_cjson_new` registers to change settings, and what calls of
-- them reach.
use luarunner.Base.{◌≡◌, Bool, true, false, List, Result, ok, die, undefined, spent, raise}
use mathlib.Core.Path.{subst}
use luarunner.Lua.{Value}
use luarunner.Strbuf.{Allocator}
use luarunner.Strbuf.Outcome.{Ensures}
use luarunner.Cjson.Config.{
  JsonConfig, json_create_config, Argument, Outcome, json_cfg_encode_sparse_array,
  json_cfg_encode_max_depth, json_cfg_decode_max_depth, json_cfg_encode_number_precision,
  json_cfg_encode_invalid_numbers, json_cfg_decode_invalid_numbers, json_cfg_encode_keep_buffer,
}
use luarunner.Cjson.Config.Configured.{IsConfigured, Keeps}
use luarunner.Cjson.Config.Settings.{
  json_cfg_encode_sparse_array-Keeps, json_cfg_encode_max_depth-Keeps,
  json_cfg_decode_max_depth-Keeps, json_cfg_encode_number_precision-Keeps,
  json_cfg_encode_invalid_numbers-Keeps, json_cfg_decode_invalid_numbers-Keeps,
  json_cfg_encode_keep_buffer-Keeps, json_create_config-IsConfigured,
}

-- The functions of the module that change settings, as `lua_cjson_new` registers them.
pub data Setter : Type 0 where
  encode_sparse_array encode_max_depth decode_max_depth encode_number_precision : Setter
  encode_keep_buffer encode_invalid_numbers decode_invalid_numbers : Setter

unfoldable pub call_setter : Allocator → Setter → JsonConfig → List Argument → Outcome
call_setter heap encode_sparse_array cfg args = json_cfg_encode_sparse_array cfg args
call_setter heap encode_max_depth cfg args = json_cfg_encode_max_depth cfg args
call_setter heap decode_max_depth cfg args = json_cfg_decode_max_depth cfg args
call_setter heap encode_number_precision cfg args = json_cfg_encode_number_precision cfg args
call_setter heap encode_keep_buffer cfg args = json_cfg_encode_keep_buffer heap cfg args
call_setter heap encode_invalid_numbers cfg args = json_cfg_encode_invalid_numbers cfg args
call_setter heap decode_invalid_numbers cfg args = json_cfg_decode_invalid_numbers cfg args

-- The call returned, or raised an error; the process goes on.
abbrev pub goes_on : Result (List Value) → Bool
goes_on (ok values) = true
goes_on (raise freed e) = true
goes_on _ = false

-- The configurations that calls reach from the one a module starts with.
pub data Reached (heap : Allocator) : JsonConfig → Type 0 where
  created : {cfg : JsonConfig} → json_create_config heap ≡ ok cfg → Reached heap cfg
  called :
      (setter : Setter) (args : List Argument) {cfg : JsonConfig}
      → Reached heap cfg
      → goes_on (call_setter heap setter cfg args).1 ≡ true
      → Reached heap (call_setter heap setter cfg args).0

module _ (heap : Allocator) where
  -- Whatever its arguments, a function that changes settings keeps each setting in its range and
  -- the kept buffer valid and present exactly while it is to be kept, also where it raises an
  -- error; or the process ends because memory was refused.
  pub call_setter-Keeps :
      (setter : Setter) (cfg : JsonConfig) (args : List Argument)
      → IsConfigured cfg
      → Keeps heap (call_setter heap setter cfg args)
  unfolding call_setter
  call_setter-Keeps encode_sparse_array cfg args c =
      json_cfg_encode_sparse_array-Keeps heap cfg args c
  call_setter-Keeps encode_max_depth cfg args c = json_cfg_encode_max_depth-Keeps heap cfg args c
  call_setter-Keeps decode_max_depth cfg args c = json_cfg_decode_max_depth-Keeps heap cfg args c
  call_setter-Keeps encode_number_precision cfg args c =
      json_cfg_encode_number_precision-Keeps heap cfg args c
  call_setter-Keeps encode_keep_buffer cfg args c =
      json_cfg_encode_keep_buffer-Keeps heap cfg args c
  call_setter-Keeps encode_invalid_numbers cfg args c =
      json_cfg_encode_invalid_numbers-Keeps heap cfg args c
  call_setter-Keeps decode_invalid_numbers cfg args c =
      json_cfg_decode_invalid_numbers-Keeps heap cfg args c

  kept_on : (o : Outcome) → Keeps heap o → goes_on o.1 ≡ true → IsConfigured o.0
  kept_on (cfg, ok values) h e = h
  kept_on (cfg, raise freed e) h g = h
  kept_on (cfg, die) h e = absurd (cc)
  kept_on (cfg, undefined) h e = absurd h
  kept_on (cfg, spent) h e = absurd h

  -- Every configuration that is reached from a new module by calls of the functions that change
  -- settings, failing ones among them, has its settings in their ranges and its buffer as the
  -- settings say.
  pub Reached-IsConfigured : (cfg : JsonConfig) → Reached heap cfg → IsConfigured cfg
  Reached-IsConfigured cfg (created e) =
      subst (λ (r : Result JsonConfig). Ensures heap IsConfigured r) e
        (json_create_config-IsConfigured heap)
  Reached-IsConfigured cfg (called setter args {cfg = before} r e) =
      kept_on (call_setter heap setter before args)
        (call_setter-Keeps setter before args (Reached-IsConfigured before r)) e
