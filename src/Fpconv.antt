-- ===== src/Fpconv.antt =====
-- fpconv.c: numbers in text with a decimal point, whatever the locale writes for it.
pub mod Locale
mod Tests
use luarunner.Base.{
  ℕ, ◌+◌, ◌/◌, ◌%◌, Bool, true, ◌&&◌, ◌||◌, List, [], ◌∷◌, ◌++◌, leb, ◌==◌, if◌then◌else◌, bit_or,
  length, take, Result, ok, die, undefined, ◌>>=◌, or_die, int, pos, ◌-◌,
}
use luarunner.Lua.{Double, integer}
use luarunner.Strbuf.{Allocator}

-- What is used of the C library, in the locale of the process. `strtod` is given the memory from
-- `nptr` on, and returns the value and how far `endptr` is behind `nptr`; `print` is given a
-- format for one `double`.
pub record Libc : Type 0 where
  pub strtod : List ℕ → Double × ℕ
  pub print : List ℕ → Double → List ℕ

-- `FPCONV_G_FMT_BUFSIZE`.
abbrev pub g_fmt_bufsize : ℕ
g_fmt_bufsize = 32

-- `fpconv_update_locale`, from the text that "%g" gives for 0.5 to `locale_decimal_point`.
unfoldable pub fpconv_update_locale : List ℕ → Result ℕ
fpconv_update_locale (zero_digit ∷ point ∷ five ∷ rest) =
    if zero_digit == b'0' && (five == b'5' && length rest == 0) then ok point else die
fpconv_update_locale _ = die

-- A `char` above 127 is no valid character, with or without a sign.
unfoldable pub valid_number_character : ℕ → Bool
valid_number_character ch =
    if leb b'0' ch && leb ch b'9'
    then true
    else if (ch == b'-') || ((ch == b'+') || (ch == b'.'))
    then true
    else let lower_ch = bit_or ch 0x20 in leb b'a' lower_ch && leb lower_ch b'y'

-- The loop of `strtod_buffer_size`, giving the characters that it counts; they are what
-- `fpconv_strtod` copies.
unfoldable pub number_characters : List ℕ → Result (List ℕ)
number_characters [] = undefined
number_characters (ch ∷ s) =
    if valid_number_character ch then (number_characters s >>= λ cs. ok (ch ∷ cs)) else ok []

-- `dp = strchr(buf, '.'); if (dp) *dp = locale_decimal_point;`
unfoldable pub replace_point : ℕ → List ℕ → List ℕ
replace_point point [] = []
replace_point point (ch ∷ s) = if ch == b'.' then point ∷ s else ch ∷ replace_point point s

module _ (heap : Allocator) (libc : Libc) (locale_decimal_point : ℕ) where
  -- Room for the copy: on the stack, or from the allocator for unusually large numbers.
  unfoldable pub number_buffer : ℕ → Result (List ℕ)
  number_buffer buflen =
      if leb g_fmt_bufsize buflen
      then (int (buflen + 1) >>= λ size. or_die (heap.malloc size))
      else ok []

  -- The value of the copy, or the return that stands for "no number".
  unfoldable pub converted : List ℕ → Result (Double × ℕ)
  converted digits =
      if length digits == 0
      then ok (integer (pos 0), 0)
      else (number_buffer (length digits) >>= λ buf.
          ok (libc.strtod (replace_point locale_decimal_point digits ++ (0 ∷ []))))

  unfoldable pub fpconv_strtod : List ℕ → Result (Double × ℕ)
  fpconv_strtod nptr =
      if locale_decimal_point == b'.'
      then ok (libc.strtod nptr)
      else do digits ← number_characters nptr; converted digits

-- "%.14g" for the precision 14; one digit below 10. The `assert` holds for the precisions that
-- can be configured.
unfoldable pub set_number_format : ℕ → Result (List ℕ)
set_number_format precision =
    if leb 1 precision && leb precision 14
    then (let d1 = precision / 10 in
        let last = (b'0' + precision % 10) ∷ b'g' ∷ [] in
        ok (b'%' ∷ b'.' ∷ (if d1 == 0 then last else (b'0' + d1) ∷ last)))
    else die

-- What the `do` loop copies: the text with its decimal point translated.
unfoldable pub translate_point : ℕ → List ℕ → List ℕ
translate_point locale_decimal_point [] = []
translate_point locale_decimal_point (b ∷ buf) =
    (if b == locale_decimal_point then b'.' else b) ∷ translate_point locale_decimal_point buf

-- The bytes written before the NUL, and the returned length: `snprintf` writes at most 31 bytes
-- and returns the length that the text has.
unfoldable pub fpconv_g_fmt : Libc → ℕ → Double → ℕ → Result (List ℕ × ℕ)
fpconv_g_fmt libc locale_decimal_point num precision = do
  fmt ← set_number_format precision
  let text = libc.print fmt num
  let buf = take (g_fmt_bufsize - 1) text
  ok (
    if locale_decimal_point == b'.' then buf else translate_point locale_decimal_point buf,
    length text,
  )
