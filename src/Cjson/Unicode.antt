-- ===== src/Cjson/Unicode.antt =====
-- lua_cjson.c: `json_append_unicode_escape`, up to the bytes that it appends.
use luarunner.Base.{
  ℕ, ◌+◌, ◌*◌, ◌^◌, Option, none, some, List, [], ◌∷◌, Result, ok, ◌>>=◌, ◌==◌, if◌then◌else◌,
  bit_and, bit_or, drop,
}
use luarunner.Cjson.Utf8.{read, decode_hex4, codepoint_to_utf8}

-- The bytes to append and the length of the escape; `none` is the return value -1.
abbrev pub Escape : Type 0
Escape = Option (List ℕ × ℕ)

-- `if (!len) return -1;`
abbrev pub sized : List ℕ → ℕ → Escape
sized [] escape_len = none
sized (b ∷ utf8) escape_len = some (b ∷ utf8, escape_len)

abbrev pub encoded : ℕ → ℕ → Escape
encoded codepoint escape_len = sized (codepoint_to_utf8 codepoint) escape_len

-- The second half of a surrogate pair, after the high surrogate `codepoint`.
unfoldable pub low_surrogate : ℕ → Option ℕ → Escape
low_surrogate codepoint none = none
low_surrogate codepoint (some low) =
    if bit_and low 0xFC00 == 0xDC00
    then encoded (bit_or (bit_and codepoint 0x3FF * 2 ^ 10) (bit_and low 0x3FF) + 0x10000) 12
    else none

-- Only a high surrogate is accepted first, and a second escape must follow it.
unfoldable pub surrogate_pair : List ℕ → ℕ → Result Escape
surrogate_pair ptr codepoint = read ptr 6 >>= λ slash.
    if slash == b'\\'
    then (read ptr 7 >>= λ u.
        if u == b'u'
        then (decode_hex4 (drop 8 ptr) >>= λ low. ok (low_surrogate codepoint low))
        else ok none)
    else ok none

unfoldable pub code_unit : List ℕ → ℕ → Result Escape
code_unit ptr codepoint =
    if bit_and codepoint 0xF800 == 0xD800
    then (if bit_and codepoint 0x400 == 0 then surrogate_pair ptr codepoint else ok none)
    else ok (encoded codepoint 6)

unfoldable pub unicode_escape : List ℕ → Result Escape
unicode_escape ptr = do
  unit ← decode_hex4 (drop 2 ptr)
  elim unit [ none ↦ ok none | some codepoint ↦ code_unit ptr codepoint ]
