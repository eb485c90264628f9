-- ===== src/Cjson/Config/Configured.antt =====
-- The settings stay in their ranges, and the kept buffer is there when the encoder counts on it.
use luarunner.Base.{
  ℕ, suc, ◌+◌, ◌≤◌, ◌<◌, ◌≡◌, ◌⊎◌, inl, inr, arith, true, false, ◌&&◌, leb, Bool-cases, List, [],
  ◌∷◌, length, Option, none, some, Result, ok, die, undefined, spent, raise, int_max, pos, negsuc,
}
use luarunner.Lua.{bytes_eq}
use luarunner.Strbuf.{Allocator, Strbuf}
use luarunner.Strbuf.Outcome.{Refuses}
use luarunner.Strbuf.Append.{IsValid}
use luarunner.Cjson.Config.{
  JsonConfig, Argument, absent, integer, flag, word, json_integer_option, check_option,
  json_enum_option, Outcome,
}

-- Either no buffer is kept, or a valid one.
abbrev pub HasBuffer : ℕ → Option Strbuf → Type 0
HasBuffer keep buf =
    ((keep ≡ 0) × (buf ≡ none)) ⊎ ((keep ≡ 1) × (s : Strbuf) × (buf ≡ some s) × IsValid s)

abbrev pub Between : ℕ → ℕ → ℕ → Type 0
Between min max v = (min ≤ v) × (v ≤ max)

-- The settings for sparse arrays, then the others in the order of the record.
abbrev pub IsConfigured : JsonConfig → Type 0
IsConfigured cfg =
    HasBuffer cfg.encode_keep_buffer cfg.encode_buf
    × (cfg.encode_sparse_convert < 2)
    × Between 0 int_max cfg.encode_sparse_ratio
    × Between 0 int_max cfg.encode_sparse_safe
    × Between 1 int_max cfg.encode_max_depth
    × (cfg.encode_invalid_numbers < 3)
    × Between 1 14 cfg.encode_number_precision
    × (cfg.decode_invalid_numbers < 2)
    × Between 1 int_max cfg.decode_max_depth

-- An option is accepted with `P`, or an error is raised.
abbrev pub Accepts : (ℕ → Type 0) → Result ℕ → Type 0
Accepts P (ok value) = P value
Accepts P (raise freed e) = Unit
Accepts P _ = ⊥

pub json_integer_option-Accepts :
    (arg : Argument) (setting min max : ℕ)
    → Between min max setting
    → Accepts (Between min max) (json_integer_option arg setting min max)
unfolding json_integer_option
json_integer_option-Accepts absent setting min max h = h
json_integer_option-Accepts (integer (pos value)) setting min max h =
    elim (Bool-cases (leb min value && leb value max)) [
      | inl within ↦ rw within (ground (arith, within), ground (arith, within))
      | inr outside ↦ rw outside tt
    ]
json_integer_option-Accepts (integer (negsuc value)) setting min max h = tt
json_integer_option-Accepts (flag on) setting min max h = tt
json_integer_option-Accepts (word str) setting min max h = tt

check_option-Accepts :
    (str : List ℕ) (options : List (List ℕ)) (i n : ℕ)
    → i + length options ≡ n
    → Accepts (λ v. v < n) (check_option str options i)
unfolding check_option
check_option-Accepts str [] i n e = tt
check_option-Accepts str (option ∷ options) i n e = elim (Bool-cases (bytes_eq option str)) [
  | inl same ↦ rw same (omega (arith, e))
  | inr other ↦ rw other (check_option-Accepts str options (suc i) n (omega (arith, e)))
]

pub json_enum_option-Accepts :
    (arg : Argument) (setting : ℕ) (options : List (List ℕ))
    → 2 ≤ length options
    → setting < length options
    → Accepts (λ v. v < length options) (json_enum_option arg setting options 1)
unfolding json_enum_option
json_enum_option-Accepts absent setting options two h = h
json_enum_option-Accepts (flag true) setting options two h = omega arith
json_enum_option-Accepts (flag false) setting options two h = omega arith
json_enum_option-Accepts (word str) setting options two h =
    check_option-Accepts str options 0 (length options) (omega arith)
json_enum_option-Accepts (integer n) setting options two h = tt

module _ (heap : Allocator) where
  -- The configuration is well formed also where the function raises an error; or the process ends
  -- because memory was refused.
  abbrev pub Keeps : Outcome → Type 0
  Keeps (cfg, ok values) = IsConfigured cfg
  Keeps (cfg, raise freed e) = IsConfigured cfg
  Keeps (cfg, die) = Refuses heap
  Keeps (cfg, undefined) = ⊥
  Keeps (cfg, spent) = ⊥
