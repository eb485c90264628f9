-- ===== src/Cjson/Config.antt =====
-- lua_cjson.c: the configuration and the functions that read and change it.
pub mod Configured
pub mod Settings
pub mod Reached
mod Tests
use luarunner.Base.{
  ℕ, suc, ◌*◌, ◌≤◌, ◌≡◌, Bool, true, false, ◌&&◌, not, ◌||◌, ltb, get_or, die, undefined, spent,
  too_many_arguments, Option, none, some, List, [], ◌∷◌, leb, ◌==◌, if◌then◌else◌, length, Result,
  ok, raise, ◌>>=◌, int_max, out_of_range, bad_argument, TokenType, t_obj_begin, t_obj_end,
  t_arr_begin, t_arr_end, t_comma, t_colon, t_end, t_whitespace, t_unknown, t_error, ℤ, pos, negsuc,
}
use luarunner.Lua.{Double, Value, boolean, number, string, bytes_eq}
use luarunner.Strbuf.{Allocator, Strbuf, strbuf_init}

-- `json_config_t`, but for the two tables, which never change: `ch2token` below and `escape2char`.
-- `encode_buf` is `none` while the buffer is not kept.
pub record JsonConfig : Type 0 where
  pub encode_buf : Option Strbuf
  pub encode_sparse_convert : ℕ
  pub encode_sparse_ratio : ℕ
  pub encode_sparse_safe : ℕ
  pub encode_max_depth : ℕ
  pub encode_invalid_numbers : ℕ
  pub encode_number_precision : ℕ
  pub encode_keep_buffer : ℕ
  pub decode_invalid_numbers : ℕ
  pub decode_max_depth : ℕ

-- The table that `json_create_config` fills.
unfoldable pub ch2token : ℕ → TokenType
ch2token ch =
    if ch == b'{'
    then t_obj_begin
    else if ch == b'}'
    then t_obj_end
    else if ch == b'['
    then t_arr_begin
    else if ch == b']'
    then t_arr_end
    else if ch == b','
    then t_comma
    else if ch == b':'
    then t_colon
    else if ch == 0
    then t_end
    else if ch == b' '
    then t_whitespace
    else if ch == b'\t'
    then t_whitespace
    else if ch == b'\n'
    then t_whitespace
    else if ch == b'\r'
    then t_whitespace
    else if ch == b'f'
    then t_unknown
    else if ch == b'i'
    then t_unknown
    else if ch == b'I'
    then t_unknown
    else if ch == b'n'
    then t_unknown
    else if ch == b'N'
    then t_unknown
    else if ch == b't'
    then t_unknown
    else if ch == b'"'
    then t_unknown
    else if ch == b'+'
    then t_unknown
    else if ch == b'-'
    then t_unknown
    else if leb b'0' ch && leb ch b'9'
    then t_unknown
    else t_error

unfoldable pub json_create_config : Allocator → Result JsonConfig
json_create_config heap = do
  buffer ← strbuf_init heap 0
  ok (record {
    encode_buf = some buffer;
    encode_sparse_convert = 0;
    encode_sparse_ratio = 2;
    encode_sparse_safe = 10;
    encode_max_depth = 1000;
    encode_invalid_numbers = 0;
    encode_number_precision = 14;
    encode_keep_buffer = 1;
    decode_invalid_numbers = 1;
    decode_max_depth = 1000;
  })

-- An argument of a configuration function, after padding with nil: an integer, as
-- `luaL_checkinteger` and the conversion to `int` give it, a Boolean or a string.
pub data Argument : Type 0 where
  absent : Argument
  integer : ℤ → Argument
  flag : Bool → Argument
  word : List ℕ → Argument

-- `json_integer_option`: the new setting, which is also what the function returns to Lua.
unfoldable pub json_integer_option : Argument → ℕ → ℕ → ℕ → Result ℕ
json_integer_option absent setting min max = ok setting
json_integer_option (integer (pos value)) setting min max =
    if leb min value && leb value max then ok value else raise false out_of_range
json_integer_option (integer (negsuc value)) setting min max = raise false out_of_range
json_integer_option _ setting min max = raise false bad_argument

-- `luaL_checkoption`: the position of the word among the options.
unfoldable pub check_option : List ℕ → List (List ℕ) → ℕ → Result ℕ
check_option str [] i = raise false bad_argument
check_option str (option ∷ options) i =
    if bytes_eq option str then ok i else check_option str options (suc i)

-- `json_enum_option`, where `bool_true` is not 0. What it pushes is a function of the setting.
unfoldable pub json_enum_option : Argument → ℕ → List (List ℕ) → ℕ → Result ℕ
json_enum_option absent setting options bool_true = ok setting
json_enum_option (flag on) setting options bool_true = ok (if on then bool_true else 0)
json_enum_option (word str) setting options bool_true = check_option str options 0
json_enum_option (integer n) setting options bool_true = raise false bad_argument

unfoldable pub shown : ℕ → List (List ℕ) → ℕ → Value
shown setting options bool_true =
    if (setting == 0) || (setting == bool_true)
    then boolean (not (setting == 0))
    else string (get_or options setting [])

abbrev pub bool_options : List (List ℕ)
bool_options = (b'o' ∷ b'f' ∷ b'f' ∷ []) ∷ (b'o' ∷ b'n' ∷ []) ∷ []

abbrev pub invalid_options : List (List ℕ)
invalid_options =
    (b'o' ∷ b'f' ∷ b'f' ∷ []) ∷ (b'o' ∷ b'n' ∷ []) ∷ (b'n' ∷ b'u' ∷ b'l' ∷ b'l' ∷ []) ∷ []

-- A configuration function ends with the configuration as it has changed it, also where it raises
-- an error, and with what it pushes.
abbrev pub Outcome : Type 0
Outcome = JsonConfig × Result (List Value)

-- `*setting = value`, if the option is accepted, and then the rest of the function.
abbrev pub store : JsonConfig → Result ℕ → (ℕ → JsonConfig) → (ℕ → JsonConfig → Outcome) → Outcome
store cfg (ok value) write rest = rest value (write value)
store cfg die write rest = (cfg, die)
store cfg undefined write rest = (cfg, undefined)
store cfg spent write rest = (cfg, spent)
store cfg (raise freed e) write rest = (cfg, raise freed e)

-- What `json_arg_init` and the last lines of a function with one option do.
abbrev pub checked : JsonConfig → ℕ → List Argument → Outcome → Outcome
checked cfg n args run = if ltb n (length args) then (cfg, raise false too_many_arguments) else run

abbrev pub push_integer : ℕ → JsonConfig → Outcome
push_integer value cfg = (cfg, ok (number (Double.integer (pos value)) ∷ []))

abbrev pub push_enum : List (List ℕ) → ℕ → JsonConfig → Outcome
push_enum options value cfg = (cfg, ok (shown value options 1 ∷ []))

abbrev pub argument : List Argument → ℕ → Argument
argument args i = get_or args i absent

unfoldable pub json_cfg_encode_sparse_array : JsonConfig → List Argument → Outcome
json_cfg_encode_sparse_array cfg args = checked cfg 3 args (
    store cfg (json_enum_option (argument args 0) cfg.encode_sparse_convert bool_options 1)
      (λ v. record cfg { encode_sparse_convert = v })
      λ convert c₁.
        store c₁ (json_integer_option (argument args 1) c₁.encode_sparse_ratio 0 int_max)
          (λ v. record c₁ { encode_sparse_ratio = v })
          λ ratio c₂.
            store c₂ (json_integer_option (argument args 2) c₂.encode_sparse_safe 0 int_max)
              (λ v. record c₂ { encode_sparse_safe = v })
              λ safe c₃. (
                c₃,
                ok (
                    shown convert bool_options 1
                    ∷ number (Double.integer (pos ratio))
                    ∷ number (Double.integer (pos safe))
                    ∷ []),
              ))

unfoldable pub json_cfg_encode_max_depth : JsonConfig → List Argument → Outcome
json_cfg_encode_max_depth cfg args = checked cfg 1 args (
    store cfg (json_integer_option (argument args 0) cfg.encode_max_depth 1 int_max)
      (λ v. record cfg { encode_max_depth = v }) push_integer)

unfoldable pub json_cfg_decode_max_depth : JsonConfig → List Argument → Outcome
json_cfg_decode_max_depth cfg args = checked cfg 1 args (
    store cfg (json_integer_option (argument args 0) cfg.decode_max_depth 1 int_max)
      (λ v. record cfg { decode_max_depth = v }) push_integer)

unfoldable pub json_cfg_encode_number_precision : JsonConfig → List Argument → Outcome
json_cfg_encode_number_precision cfg args = checked cfg 1 args (
    store cfg (json_integer_option (argument args 0) cfg.encode_number_precision 1 14)
      (λ v. record cfg { encode_number_precision = v }) push_integer)

unfoldable pub json_cfg_encode_invalid_numbers : JsonConfig → List Argument → Outcome
json_cfg_encode_invalid_numbers cfg args = checked cfg 1 args (
    store cfg (json_enum_option (argument args 0) cfg.encode_invalid_numbers invalid_options 1)
      (λ v. record cfg { encode_invalid_numbers = v }) (push_enum invalid_options))

unfoldable pub json_cfg_decode_invalid_numbers : JsonConfig → List Argument → Outcome
json_cfg_decode_invalid_numbers cfg args = checked cfg 1 args (
    store cfg (json_enum_option (argument args 0) cfg.decode_invalid_numbers bool_options 1)
      (λ v. record cfg { decode_invalid_numbers = v }) (push_enum bool_options))

-- "Init / free the buffer if the setting has changed": the new buffer.
unfoldable pub switch_buffer : Allocator → ℕ → JsonConfig → Result (Option Strbuf)
switch_buffer heap old_value cfg =
    if old_value == cfg.encode_keep_buffer
    then ok cfg.encode_buf
    else if cfg.encode_keep_buffer == 0
    then ok none
    else (strbuf_init heap 0 >>= λ buffer. ok (some buffer))

-- If memory is refused here, the process ends.
unfoldable pub keep_or_free : Allocator → ℕ → ℕ → JsonConfig → Outcome
keep_or_free heap old_value value cfg = elim (switch_buffer heap old_value cfg) [
  | ok buffer ↦ push_enum bool_options value (record cfg { encode_buf = buffer })
  | die ↦ (cfg, die)
  | undefined ↦ (cfg, undefined)
  | spent ↦ (cfg, spent)
  | raise freed e ↦ (cfg, raise freed e)
]

unfoldable pub json_cfg_encode_keep_buffer : Allocator → JsonConfig → List Argument → Outcome
json_cfg_encode_keep_buffer heap cfg args = checked cfg 1 args (
    store cfg (json_enum_option (argument args 0) cfg.encode_keep_buffer bool_options 1)
      (λ v. record cfg { encode_keep_buffer = v }) (keep_or_free heap cfg.encode_keep_buffer))
