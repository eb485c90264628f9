-- ===== src/Cjson/Config/Tests.antt =====
-- lua_cjson.c: settings that are changed, with and without success.
use luarunner.Base.{◌≡◌, refl, arith, [], ◌∷◌, some, inr, ok}
use luarunner.Strbuf.Samples.{heap, sample, sample-IsValid, first_buffer}
use luarunner.Cjson.Config.{
  JsonConfig, word, json_create_config, json_cfg_encode_keep_buffer, json_enum_option, check_option,
  keep_or_free, switch_buffer,
}
use luarunner.Cjson.Config.Configured.{HasBuffer, IsConfigured, Keeps}
use luarunner.Cjson.Config.Reached.{encode_keep_buffer, call_setter, call_setter-Keeps}
use luarunner.Cjson.Config.Reached.{created, called, Reached-IsConfigured}

abbrev cfg : JsonConfig
cfg = record {
  encode_buf = some sample;
  encode_sparse_convert = 0;
  encode_sparse_ratio = 2;
  encode_sparse_safe = 10;
  encode_max_depth = 1000;
  encode_invalid_numbers = 0;
  encode_number_precision = 14;
  encode_keep_buffer = 1;
  decode_invalid_numbers = 1;
  decode_max_depth = 1000;
}

buffer : HasBuffer cfg.encode_keep_buffer cfg.encode_buf
buffer = inr (refl, sample, refl, sample-IsValid)

cfg-IsConfigured : IsConfigured cfg
cfg-IsConfigured = (
  buffer,
  omega arith,
  (omega arith, omega arith),
  (omega arith, omega arith),
  (omega arith, omega arith),
  omega arith,
  (omega arith, omega arith),
  omega arith,
  (omega arith, omega arith),
)

-- `encode_keep_buffer("off")`.
call_setter-Keeps_example :
    Keeps heap (call_setter heap encode_keep_buffer cfg (word (b'o' ∷ b'f' ∷ b'f' ∷ []) ∷ []))
call_setter-Keeps_example =
    call_setter-Keeps heap encode_keep_buffer cfg (word (b'o' ∷ b'f' ∷ b'f' ∷ []) ∷ [])
      cfg-IsConfigured

abbrev fresh : JsonConfig
fresh = record cfg { encode_buf = some first_buffer.0 }

fresh_created : json_create_config heap ≡ ok fresh
unfolding json_create_config
fresh_created = rw first_buffer.1 refl

-- A new module, then `encode_keep_buffer("off")`.
Reached-IsConfigured_example :
    IsConfigured (call_setter heap encode_keep_buffer fresh (word (b'o' ∷ b'f' ∷ b'f' ∷ []) ∷ [])).0
unfolding call_setter json_cfg_encode_keep_buffer json_enum_option check_option keep_or_free
    switch_buffer
Reached-IsConfigured_example =
    Reached-IsConfigured heap
      (call_setter heap encode_keep_buffer fresh (word (b'o' ∷ b'f' ∷ b'f' ∷ []) ∷ [])).0
      (called encode_keep_buffer (word (b'o' ∷ b'f' ∷ b'f' ∷ []) ∷ []) (created fresh_created) refl)
