-- ===== src/Cjson/Utf8.antt =====
-- lua_cjson.c: `hexdigit2int`, `decode_hex4` and `codepoint_to_utf8`.
use luarunner.Base.{
  ℕ, ◌+◌, ◌-◌, ◌*◌, ◌^◌, Option, none, some, List, [], ◌∷◌, Result, ok, undefined, ◌>>=◌, ◌&&◌, leb,
  if◌then◌else◌, bit_and, bit_or, shr, get_elem?,
}

-- `ptr[i]`. The list is the memory from `ptr` to the end of the string, the terminating NUL
-- included; past it is undefined.
abbrev pub read : List ℕ → ℕ → Result ℕ
read ptr i = elim (get_elem? ptr i) [ none ↦ undefined | some c ↦ ok c ]

-- `none` is the -1 of the source. A `char` above 127 is negative there and no digit here.
unfoldable pub hexdigit2int : ℕ → Option ℕ
hexdigit2int hex =
    if leb b'0' hex && leb hex b'9'
    then some (hex - b'0')
    else let lower = bit_or hex 0x20 in
      if leb b'a' lower && leb lower b'f' then some (10 + lower - b'a') else none

-- What is computed from a digit, if it is one.
abbrev pub with_digit : Option ℕ → (ℕ → Result (Option ℕ)) → Result (Option ℕ)
with_digit none f = ok none
with_digit (some d) f = f d

abbrev pub and_then : Result (Option ℕ) → (ℕ → Result (Option ℕ)) → Result (Option ℕ)
and_then r f = r >>= λ o. with_digit o f

abbrev pub hex_digit : List ℕ → ℕ → Result (Option ℕ)
hex_digit hex i = do c ← read hex i; ok (hexdigit2int c)

-- A digit is read only if those before it are valid.
unfoldable pub decode_hex4 : List ℕ → Result (Option ℕ)
decode_hex4 hex = and_then (hex_digit hex 0) λ d₀. and_then (hex_digit hex 1) λ d₁.
    and_then (hex_digit hex 2)
      λ d₂. and_then (hex_digit hex 3) λ d₃. ok (some (d₀ * 2 ^ 12 + d₁ * 2 ^ 8 + d₂ * 2 ^ 4 + d₃))

-- The bytes written; none for the length 0.
unfoldable pub codepoint_to_utf8 : ℕ → List ℕ
codepoint_to_utf8 cp =
    if leb cp 0x7F
    then cp ∷ []
    else if leb cp 0x7FF
    then bit_or (shr cp 6) 0xC0 ∷ bit_or (bit_and cp 0x3F) 0x80 ∷ []
    else if leb cp 0xFFFF
    then bit_or (shr cp 12) 0xE0
      ∷ bit_or (bit_and (shr cp 6) 0x3F) 0x80
      ∷ bit_or (bit_and cp 0x3F) 0x80
      ∷ []
    else if leb cp 0x1FFFFF
    then bit_or (shr cp 18) 0xF0
      ∷ bit_or (bit_and (shr cp 12) 0x3F) 0x80
      ∷ bit_or (bit_and (shr cp 6) 0x3F) 0x80
      ∷ bit_or (bit_and cp 0x3F) 0x80
      ∷ []
    else []
