-- ===== src/Cjson/Config/Settings.antt =====
-- Every function that changes a setting keeps the configuration well formed.
use luarunner.Base.{
  ℕ, ◌≤◌, ◌<◌, ◌≡◌, inl, inr, refl, arith, ltb, ◌==◌, Bool-cases, List, length, Option, Result, ok,
  die, undefined, spent, raise, int_max,
}
use luarunner.Strbuf.{Allocator, Strbuf, strbuf_init}
use luarunner.Strbuf.Outcome.{Ensures, Ensures->>=}
use luarunner.Strbuf.New.{IsNew, strbuf_init-default}
use luarunner.Cjson.Config.{
  JsonConfig, json_create_config, Argument, json_integer_option, json_enum_option, bool_options,
  invalid_options, Outcome, store, checked, argument, json_cfg_encode_sparse_array,
  json_cfg_encode_max_depth, json_cfg_decode_max_depth, json_cfg_encode_number_precision,
  json_cfg_encode_invalid_numbers, json_cfg_decode_invalid_numbers, json_cfg_encode_keep_buffer,
  keep_or_free, switch_buffer, push_enum,
}
use luarunner.Cjson.Config.Configured.{
  HasBuffer, Between, IsConfigured, Accepts, json_integer_option-Accepts, json_enum_option-Accepts,
  Keeps,
}

module _ (heap : Allocator) where
  store-Keeps :
      (P : ℕ → Type 0) (cfg : JsonConfig) (r : Result ℕ) (write : ℕ → JsonConfig)
      (rest : ℕ → JsonConfig → Outcome)
      → IsConfigured cfg
      → Accepts P r
      → ((v : ℕ) → P v → Keeps heap (rest v (write v)))
      → Keeps heap (store cfg r write rest)
  store-Keeps P cfg (ok value) write rest c h k = k value h
  store-Keeps P cfg (raise freed e) write rest c h k = c
  store-Keeps P cfg die write rest c h k = absurd h
  store-Keeps P cfg undefined write rest c h k = absurd h
  store-Keeps P cfg spent write rest c h k = absurd h

  checked-Keeps :
      (cfg : JsonConfig) (n : ℕ) (args : List Argument) (run : Outcome)
      → IsConfigured cfg
      → Keeps heap run
      → Keeps heap (checked cfg n args run)
  checked-Keeps cfg n args run c h = elim (Bool-cases (ltb n (length args))) [
    | inl many ↦ rw many c
    | inr fine ↦ rw fine h
  ]

  integer_setting :
      (cfg : JsonConfig) (args : List Argument) (i setting min max : ℕ) (write : ℕ → JsonConfig)
      (rest : ℕ → JsonConfig → Outcome)
      → IsConfigured cfg
      → Between min max setting
      → ((v : ℕ) → Between min max v → Keeps heap (rest v (write v)))
      → Keeps heap (store cfg (json_integer_option (argument args i) setting min max) write rest)
  integer_setting cfg args i setting min max write rest c h k =
      store-Keeps (Between min max) cfg _ write rest c
        (json_integer_option-Accepts (argument args i) setting min max h) k

  enum_setting :
      (cfg : JsonConfig) (args : List Argument) (setting : ℕ) (options : List (List ℕ))
      (write : ℕ → JsonConfig) (rest : ℕ → JsonConfig → Outcome)
      → 2 ≤ length options
      → IsConfigured cfg
      → setting < length options
      → ((v : ℕ) → v < length options → Keeps heap (rest v (write v)))
      → Keeps heap (store cfg (json_enum_option (argument args 0) setting options 1) write rest)
  enum_setting cfg args setting options write rest two c h k =
      store-Keeps (λ v. v < length options) cfg _ write rest c
        (json_enum_option-Accepts (argument args 0) setting options two h) k

  pub json_cfg_encode_max_depth-Keeps :
      (cfg : JsonConfig) (args : List Argument)
      → IsConfigured cfg
      → Keeps heap (json_cfg_encode_max_depth cfg args)
  unfolding json_cfg_encode_max_depth
  json_cfg_encode_max_depth-Keeps cfg args c = checked-Keeps cfg 1 args _ c (
      integer_setting cfg args 0 cfg.encode_max_depth 1 int_max
        (λ v. record cfg { encode_max_depth = v }) _ c c.4
        λ v h. (c.0, c.1, c.2, c.3, h, c.5, c.6, c.7, c.8))

  pub json_cfg_decode_max_depth-Keeps :
      (cfg : JsonConfig) (args : List Argument)
      → IsConfigured cfg
      → Keeps heap (json_cfg_decode_max_depth cfg args)
  unfolding json_cfg_decode_max_depth
  json_cfg_decode_max_depth-Keeps cfg args c = checked-Keeps cfg 1 args _ c (
      integer_setting cfg args 0 cfg.decode_max_depth 1 int_max
        (λ v. record cfg { decode_max_depth = v }) _ c c.8
        λ v h. (c.0, c.1, c.2, c.3, c.4, c.5, c.6, c.7, h))

  pub json_cfg_encode_number_precision-Keeps :
      (cfg : JsonConfig) (args : List Argument)
      → IsConfigured cfg
      → Keeps heap (json_cfg_encode_number_precision cfg args)
  unfolding json_cfg_encode_number_precision
  json_cfg_encode_number_precision-Keeps cfg args c = checked-Keeps cfg 1 args _ c (
      integer_setting cfg args 0 cfg.encode_number_precision 1 14
        (λ v. record cfg { encode_number_precision = v }) _ c c.6
        λ v h. (c.0, c.1, c.2, c.3, c.4, c.5, h, c.7, c.8))

  pub json_cfg_encode_invalid_numbers-Keeps :
      (cfg : JsonConfig) (args : List Argument)
      → IsConfigured cfg
      → Keeps heap (json_cfg_encode_invalid_numbers cfg args)
  unfolding json_cfg_encode_invalid_numbers
  json_cfg_encode_invalid_numbers-Keeps cfg args c = checked-Keeps cfg 1 args _ c (
      enum_setting cfg args cfg.encode_invalid_numbers invalid_options
        (λ v. record cfg { encode_invalid_numbers = v }) _ (omega arith) c c.5
        λ v h. (c.0, c.1, c.2, c.3, c.4, h, c.6, c.7, c.8))

  pub json_cfg_decode_invalid_numbers-Keeps :
      (cfg : JsonConfig) (args : List Argument)
      → IsConfigured cfg
      → Keeps heap (json_cfg_decode_invalid_numbers cfg args)
  unfolding json_cfg_decode_invalid_numbers
  json_cfg_decode_invalid_numbers-Keeps cfg args c = checked-Keeps cfg 1 args _ c (
      enum_setting cfg args cfg.decode_invalid_numbers bool_options
        (λ v. record cfg { decode_invalid_numbers = v }) _ (omega arith) c c.7
        λ v h. (c.0, c.1, c.2, c.3, c.4, c.5, c.6, h, c.8))

  pub json_cfg_encode_sparse_array-Keeps :
      (cfg : JsonConfig) (args : List Argument)
      → IsConfigured cfg
      → Keeps heap (json_cfg_encode_sparse_array cfg args)
  unfolding json_cfg_encode_sparse_array
  json_cfg_encode_sparse_array-Keeps cfg args c = checked-Keeps cfg 3 args _ c (
      enum_setting cfg args cfg.encode_sparse_convert bool_options
        (λ v. record cfg { encode_sparse_convert = v }) _ (omega arith) c c.1
        λ convert h.
          let c₁ = record cfg { encode_sparse_convert = convert } in
          integer_setting c₁ args 1 cfg.encode_sparse_ratio 0 int_max
            (λ v. record c₁ { encode_sparse_ratio = v }) _
            (c.0, h, c.2, c.3, c.4, c.5, c.6, c.7, c.8) c.2
            λ ratio k.
              let c₂ = record c₁ { encode_sparse_ratio = ratio } in
              integer_setting c₂ args 2 cfg.encode_sparse_safe 0 int_max
                (λ v. record c₂ { encode_sparse_safe = v }) _
                (c.0, h, k, c.3, c.4, c.5, c.6, c.7, c.8) c.3
                λ safe l. (c.0, h, k, l, c.4, c.5, c.6, c.7, c.8))

  switch_buffer_lem :
      (old v : ℕ) (cfg : JsonConfig)
      → HasBuffer old cfg.encode_buf
      → v < 2
      → Ensures heap (HasBuffer v) (switch_buffer heap old (record cfg { encode_keep_buffer = v }))
  unfolding switch_buffer
  switch_buffer_lem old v cfg h below = elim (Bool-cases (old == v)) [
    | inl same ↦ let e : old ≡ v = ground (arith, same) in rw (same, ← e) h
    | inr other ↦ rw other (elim (Bool-cases (v == 0)) [
      | inl off ↦ rw off (inl (ground (arith, off), refl))
      | inr on ↦ rw on (
          Ensures->>= heap (IsNew heap 1023) (HasBuffer v) (strbuf_init heap 0) _
            (strbuf_init-default heap) λ s new. inr (ground (arith, on, below), s, refl, new.0))
    ])
  ]

  -- The settings but for the buffer.
  abbrev Others : JsonConfig → Type 0
  Others cfg =
      (cfg.encode_sparse_convert < 2)
      × Between 0 int_max cfg.encode_sparse_ratio
      × Between 0 int_max cfg.encode_sparse_safe
      × Between 1 int_max cfg.encode_max_depth
      × (cfg.encode_invalid_numbers < 3)
      × Between 1 14 cfg.encode_number_precision
      × (cfg.decode_invalid_numbers < 2)
      × Between 1 int_max cfg.decode_max_depth

  settled :
      (v : ℕ) (cfg : JsonConfig) (r : Result (Option Strbuf))
      → Others cfg
      → Ensures heap (HasBuffer cfg.encode_keep_buffer) r
      → Keeps heap (elim r [
        | ok buffer ↦ push_enum bool_options v (record cfg { encode_buf = buffer })
        | die ↦ (cfg, die)
        | undefined ↦ (cfg, undefined)
        | spent ↦ (cfg, spent)
        | raise freed e ↦ (cfg, raise freed e)
      ])
  settled v cfg (ok buffer) c h = (h, c.0, c.1, c.2, c.3, c.4, c.5, c.6, c.7)
  settled v cfg die c h = h
  settled v cfg undefined c h = absurd h
  settled v cfg spent c h = absurd h
  settled v cfg (raise freed e) c h = absurd h

  pub json_cfg_encode_keep_buffer-Keeps :
      (cfg : JsonConfig) (args : List Argument)
      → IsConfigured cfg
      → Keeps heap (json_cfg_encode_keep_buffer heap cfg args)
  unfolding json_cfg_encode_keep_buffer keep_or_free
  json_cfg_encode_keep_buffer-Keeps cfg args c = checked-Keeps cfg 1 args _ c (
      enum_setting cfg args cfg.encode_keep_buffer bool_options
        (λ v. record cfg { encode_keep_buffer = v }) _ (omega arith) c (keep_bound c.0)
        λ v h.
          settled v _ _ (c.1, c.2, c.3, c.4, c.5, c.6, c.7, c.8)
            (switch_buffer_lem cfg.encode_keep_buffer v cfg c.0 h))
    where
      keep_bound : HasBuffer cfg.encode_keep_buffer cfg.encode_buf → cfg.encode_keep_buffer < 2
      keep_bound (inl (off, gone)) = omega (arith, off)
      keep_bound (inr (on, s, kept, valid)) = omega (arith, on)

  -- The configuration that a new module starts with.
  pub json_create_config-IsConfigured : Ensures heap IsConfigured (json_create_config heap)
  unfolding json_create_config
  json_create_config-IsConfigured =
      Ensures->>= heap (IsNew heap 1023) IsConfigured (strbuf_init heap 0) _
        (strbuf_init-default heap)
        λ s new. (
          inr (refl, s, refl, new.0),
          omega arith,
          (omega arith, omega arith),
          (omega arith, omega arith),
          (omega arith, omega arith),
          omega arith,
          (omega arith, omega arith),
          omega arith,
          (omega arith, omega arith),
        )
