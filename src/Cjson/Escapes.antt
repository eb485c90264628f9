-- ===== src/Cjson/Escapes.antt =====
-- lua_cjson.c: the tables of escapes, `char2escape` for encoding and `escape2char` for decoding.
use luarunner.Base.{ℕ, Option, none, some, List, [], ◌∷◌, ◌==◌, if◌then◌else◌, get_or}

-- The three shapes of an entry: NULL, a backslash and a character, `\\u00` and two digits.
pub data Entry : Type 0 where
  plain : Entry
  short : ℕ → Entry
  unicode : ℕ → ℕ → Entry

-- The 256 entries in the order of the source.
abbrev pub char2escape_table : List Entry
char2escape_table =
    unicode b'0' b'0'
    ∷ unicode b'0' b'1'
    ∷ unicode b'0' b'2'
    ∷ unicode b'0' b'3'
    ∷ unicode b'0' b'4'
    ∷ unicode b'0' b'5'
    ∷ unicode b'0' b'6'
    ∷ unicode b'0' b'7'
    ∷ short b'b'
    ∷ short b't'
    ∷ short b'n'
    ∷ unicode b'0' b'b'
    ∷ short b'f'
    ∷ short b'r'
    ∷ unicode b'0' b'e'
    ∷ unicode b'0' b'f'
    ∷ unicode b'1' b'0'
    ∷ unicode b'1' b'1'
    ∷ unicode b'1' b'2'
    ∷ unicode b'1' b'3'
    ∷ unicode b'1' b'4'
    ∷ unicode b'1' b'5'
    ∷ unicode b'1' b'6'
    ∷ unicode b'1' b'7'
    ∷ unicode b'1' b'8'
    ∷ unicode b'1' b'9'
    ∷ unicode b'1' b'a'
    ∷ unicode b'1' b'b'
    ∷ unicode b'1' b'c'
    ∷ unicode b'1' b'd'
    ∷ unicode b'1' b'e'
    ∷ unicode b'1' b'f'
    ∷ plain
    ∷ plain
    ∷ short b'"'
    ∷ plain
    ∷ plain
    ∷ plain
    ∷ plain
    ∷ plain
    ∷ plain
    ∷ plain
    ∷ plain
    ∷ plain
    ∷ plain
    ∷ plain
    ∷ plain
    ∷ short b'/'
    ∷ plain
    ∷ plain
    ∷ plain
    ∷ plain
    ∷ plain
    ∷ plain
    ∷ plain
    ∷ plain
    ∷ plain
    ∷ plain
    ∷ plain
    ∷ plain
    ∷ plain
    ∷ plain
    ∷ plain
    ∷ plain
    ∷ plain
    ∷ plain
    ∷ plain
    ∷ plain
    ∷ plain
    ∷ plain
    ∷ plain
    ∷ plain
    ∷ plain
    ∷ plain
    ∷ plain
    ∷ plain
    ∷ plain
    ∷ plain
    ∷ plain
    ∷ plain
    ∷ plain
    ∷ plain
    ∷ plain
    ∷ plain
    ∷ plain
    ∷ plain
    ∷ plain
    ∷ plain
    ∷ plain
    ∷ plain
    ∷ plain
    ∷ plain
    ∷ short b'\\'
    ∷ plain
    ∷ plain
    ∷ plain
    ∷ plain
    ∷ plain
    ∷ plain
    ∷ plain
    ∷ plain
    ∷ plain
    ∷ plain
    ∷ plain
    ∷ plain
    ∷ plain
    ∷ plain
    ∷ plain
    ∷ plain
    ∷ plain
    ∷ plain
    ∷ plain
    ∷ plain
    ∷ plain
    ∷ plain
    ∷ plain
    ∷ plain
    ∷ plain
    ∷ plain
    ∷ plain
    ∷ plain
    ∷ plain
    ∷ plain
    ∷ plain
    ∷ plain
    ∷ plain
    ∷ plain
    ∷ unicode b'7' b'f'
    ∷ plain
    ∷ plain
    ∷ plain
    ∷ plain
    ∷ plain
    ∷ plain
    ∷ plain
    ∷ plain
    ∷ plain
    ∷ plain
    ∷ plain
    ∷ plain
    ∷ plain
    ∷ plain
    ∷ plain
    ∷ plain
    ∷ plain
    ∷ plain
    ∷ plain
    ∷ plain
    ∷ plain
    ∷ plain
    ∷ plain
    ∷ plain
    ∷ plain
    ∷ plain
    ∷ plain
    ∷ plain
    ∷ plain
    ∷ plain
    ∷ plain
    ∷ plain
    ∷ plain
    ∷ plain
    ∷ plain
    ∷ plain
    ∷ plain
    ∷ plain
    ∷ plain
    ∷ plain
    ∷ plain
    ∷ plain
    ∷ plain
    ∷ plain
    ∷ plain
    ∷ plain
    ∷ plain
    ∷ plain
    ∷ plain
    ∷ plain
    ∷ plain
    ∷ plain
    ∷ plain
    ∷ plain
    ∷ plain
    ∷ plain
    ∷ plain
    ∷ plain
    ∷ plain
    ∷ plain
    ∷ plain
    ∷ plain
    ∷ plain
    ∷ plain
    ∷ plain
    ∷ plain
    ∷ plain
    ∷ plain
    ∷ plain
    ∷ plain
    ∷ plain
    ∷ plain
    ∷ plain
    ∷ plain
    ∷ plain
    ∷ plain
    ∷ plain
    ∷ plain
    ∷ plain
    ∷ plain
    ∷ plain
    ∷ plain
    ∷ plain
    ∷ plain
    ∷ plain
    ∷ plain
    ∷ plain
    ∷ plain
    ∷ plain
    ∷ plain
    ∷ plain
    ∷ plain
    ∷ plain
    ∷ plain
    ∷ plain
    ∷ plain
    ∷ plain
    ∷ plain
    ∷ plain
    ∷ plain
    ∷ plain
    ∷ plain
    ∷ plain
    ∷ plain
    ∷ plain
    ∷ plain
    ∷ plain
    ∷ plain
    ∷ plain
    ∷ plain
    ∷ plain
    ∷ plain
    ∷ plain
    ∷ plain
    ∷ plain
    ∷ plain
    ∷ plain
    ∷ plain
    ∷ plain
    ∷ plain
    ∷ plain
    ∷ plain
    ∷ plain
    ∷ plain
    ∷ plain
    ∷ plain
    ∷ plain
    ∷ plain
    ∷ []

abbrev pub text : Entry → Option (List ℕ)
text plain = none
text (short c) = some (b'\\' ∷ c ∷ [])
text (unicode h l) = some (b'\\' ∷ b'u' ∷ b'0' ∷ b'0' ∷ h ∷ l ∷ [])

-- `char2escape[c]`.
unfoldable pub entry : ℕ → Entry
entry c = get_or char2escape_table c plain

-- `cfg->escape2char[c]` as `json_create_config` sets it up; 0 is "String error".
unfoldable pub escape2char : ℕ → ℕ
escape2char c =
    if c == b'"'
    then b'"'
    else if c == b'\\'
    then b'\\'
    else if c == b'/'
    then b'/'
    else if c == b'b'
    then 8
    else if c == b't'
    then 9
    else if c == b'n'
    then 10
    else if c == b'f'
    then 12
    else if c == b'r'
    then 13
    else if c == b'u'
    then b'u'
    else 0
