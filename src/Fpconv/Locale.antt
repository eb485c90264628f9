-- ===== src/Fpconv/Locale.antt =====
-- The two translations of the decimal point, in a locale with a point of its own.
use luarunner.Base.{
  ℕ, zero, suc, ◌+◌, ◌/◌, ◌%◌, ◌-◌, ◌≤◌, ◌<◌, ◌≡◌, ◌≢◌, ◌⊎◌, refl, ap, sym, ◌∙◌, arith, Bool, true,
  false, ◌==◌, ◌&&◌, ◌||◌, leb, Bool-cases, inl, inr, List, [], ◌∷◌, ◌++◌, length, length-append,
  All, ok, check_all, check_all_lem, int_max, or_die, take, if◌then◌else◌, ltb,
}
use luarunner.Lua.{Double}
use luarunner.Strbuf.{Allocator}
use luarunner.Strbuf.Growth.{int_ok}
use luarunner.Strbuf.New.{Ensures-malloc}
use luarunner.Strbuf.Outcome.{Ensures, Ensures->>=}
use luarunner.Fpconv.{
  Libc, valid_number_character, number_characters, replace_point, translate_point, number_buffer,
  converted, fpconv_strtod, g_fmt_bufsize, set_number_format, fpconv_g_fmt,
}

-- "[-+0-9a-yA-Y.]", by the codes of the characters.
abbrev pub IsNumberCharacter : ℕ → Type 0
IsNumberCharacter ch =
    ((48 ≤ ch) × (ch ≤ 57))
    ⊎ (((97 ≤ ch) × (ch ≤ 121)) ⊎ (((65 ≤ ch) × (ch ≤ 89)) ⊎ ((ch ≡ 43) ⊎ ((ch ≡ 45) ⊎ (ch ≡ 46)))))

listed : ℕ → Bool
listed ch =
    (leb 48 ch && leb ch 57)
    || ((leb 97 ch && leb ch 121)
        || ((leb 65 ch && leb ch 89) || ((ch == 43) || ((ch == 45) || (ch == 46)))))

abbrev agree : Bool → Bool → Bool
agree true b = b
agree false true = false
agree false false = true

agree_lem : (a b : Bool) → agree a b ≡ true → a ≡ b
agree_lem true true e = refl
agree_lem true false e = sym e
agree_lem false true e = e
agree_lem false false e = refl

all_agree : check_all (λ ch. agree (valid_number_character ch) (listed ch)) 256 ≡ true
unfolding check_all valid_number_character listed
all_agree = refl

valid-listed : (ch : ℕ) → ch < 256 → valid_number_character ch ≡ listed ch
valid-listed ch h =
    agree_lem (valid_number_character ch) (listed ch)
      (check_all_lem (λ ch. agree (valid_number_character ch) (listed ch)) 256 ch h all_agree)

listed-true : (ch : ℕ) → IsNumberCharacter ch → listed ch ≡ true
unfolding listed
listed-true ch h = ground (arith, h)

listed-false : (ch : ℕ) → ¬ IsNumberCharacter ch → listed ch ≡ false
unfolding listed
listed-false ch h = ground (arith, h)

IsNumberCharacter-lt : (ch : ℕ) → IsNumberCharacter ch → ch < 256
IsNumberCharacter-lt ch h = ground (arith, h)

accepted : (ch : ℕ) → IsNumberCharacter ch → valid_number_character ch ≡ true
accepted ch h = valid-listed ch (IsNumberCharacter-lt ch h) ∙ listed-true ch h

refused : (ch : ℕ) → ch < 256 → ¬ IsNumberCharacter ch → valid_number_character ch ≡ false
refused ch h n = valid-listed ch h ∙ listed-false ch n

number_characters-append :
    (text : List ℕ) (c : ℕ) (rest : List ℕ)
    → All IsNumberCharacter text
    → valid_number_character c ≡ false
    → number_characters (text ++ (c ∷ rest)) ≡ ok text
unfolding number_characters
number_characters-append [] c rest h stop = rw stop refl
number_characters-append (ch ∷ text) c rest h stop =
    rw (accepted ch h.0, number_characters-append text c rest h.1 stop) refl

-- The characters of a number before its decimal point.
abbrev pub IsWhole : List ℕ → Type 0
IsWhole = All λ ch. IsNumberCharacter ch × (ch ≢ b'.')

IsWhole-All : (whole : List ℕ) → IsWhole whole → All IsNumberCharacter whole
IsWhole-All [] h = tt
IsWhole-All (ch ∷ whole) h = (h.0.0, IsWhole-All whole h.1)

All-append : (P : ℕ → Type 0) (xs ys : List ℕ) → All P xs → All P ys → All P (xs ++ ys)
All-append P [] ys h k = k
All-append P (x ∷ xs) ys h k = (h.0, All-append P xs ys h.1 k)

no_stop : (ch : ℕ) → ch ≢ b'.' → (ch == b'.') ≡ false
no_stop ch n = ground (arith, n)

replace_first :
    (point : ℕ) (whole fraction : List ℕ)
    → IsWhole whole
    → replace_point point (whole ++ (b'.' ∷ fraction)) ≡ whole ++ (point ∷ fraction)
unfolding replace_point
replace_first point [] fraction h = refl
replace_first point (ch ∷ whole) fraction h =
    rw (no_stop ch h.0.1) (ap (λ t. ch ∷ t) (replace_first point whole fraction h.1))

replace_none : (point : ℕ) (whole : List ℕ) → IsWhole whole → replace_point point whole ≡ whole
unfolding replace_point
replace_none point [] h = refl
replace_none point (ch ∷ whole) h =
    rw (no_stop ch h.0.1) (ap (λ t. ch ∷ t) (replace_none point whole h.1))

module _ (heap : Allocator) (libc : Libc) (point : ℕ) where
  -- `strtod` is given this string, or the process ends because memory was refused.
  abbrev pub Converts : List ℕ → List ℕ → Type 0
  Converts nptr text =
      Ensures heap (λ r. r ≡ libc.strtod (text ++ (0 ∷ []))) (fpconv_strtod heap libc point nptr)

  copied :
      (digits : List ℕ)
      → 1 ≤ length digits
      → length digits < int_max
      → Ensures heap
          (λ r. r ≡ libc.strtod (replace_point point digits ++ (0 ∷ [])))
          (converted heap libc point digits)
  unfolding converted number_buffer
  copied digits some_digits fits =
      let counted : (length digits == 0) ≡ false = ground arith in
      elim (Bool-cases (leb g_fmt_bufsize (length digits))) [
        | inl large ↦
            rw (counted, large, int_ok (length digits + 1) (omega arith))
              (Ensures->>= heap _ _ (or_die (heap.malloc (length digits + 1))) _
                (Ensures-malloc heap (length digits + 1)) λ block got. refl)
        | inr small ↦ rw (counted, small) refl
      ]

  reads :
      (digits text : List ℕ) (c : ℕ) (rest : List ℕ)
      → point ≢ b'.'
      → All IsNumberCharacter digits
      → replace_point point digits ≡ text
      → valid_number_character c ≡ false
      → 1 ≤ length digits
      → length digits < int_max
      → Converts (digits ++ (c ∷ rest)) text
  unfolding fpconv_strtod
  reads digits text c rest other valid e stop some_digits fits =
      rw (no_stop point other, number_characters-append digits c rest valid stop, sym e)
        (copied digits some_digits fits)

  -- In a locale with another decimal point, if a number, its characters listed by their codes,
  -- stands in memory before a byte that is none of them, `strtod` is given its characters and a
  -- NUL, whether it has a full stop or not, with the locale's point for the first full stop; or the
  -- process ends because memory was refused. The number does not begin with a full stop, and
  -- its length is below the largest `int`.
  pub fpconv_strtod_lem :
      (whole fraction : List ℕ) (c : ℕ) (rest : List ℕ)
      → point ≢ b'.'
      → IsWhole whole
      → All IsNumberCharacter fraction
      → c < 256
      → ¬ IsNumberCharacter c
      → 1 ≤ length whole
      → length whole + length fraction + 1 < int_max
      → Converts ((whole ++ (b'.' ∷ fraction)) ++ (c ∷ rest)) (whole ++ (point ∷ fraction))
        × Converts (whole ++ (c ∷ rest)) whole
  fpconv_strtod_lem whole fraction c rest other w f byte stop some_digits fits =
      let e = length-append whole (b'.' ∷ fraction) in
      (
        reads (whole ++ (b'.' ∷ fraction)) (whole ++ (point ∷ fraction)) c rest other
            (All-append IsNumberCharacter whole (b'.' ∷ fraction) (IsWhole-All whole w)
              (full_stop, f))
            (replace_first point whole fraction w) (refused c byte stop) (omega (arith, e))
            (omega (arith, e, fits)),
        reads whole whole c rest other (IsWhole-All whole w) (replace_none point whole w)
            (refused c byte stop) some_digits (omega (arith, fits)),
      )
    where
      full_stop : IsNumberCharacter b'.'
      full_stop = ground arith

-- The text that snprintf gives: `whole` and `fraction` are around the locale's point.
abbrev pub IsPlain : ℕ → List ℕ → Type 0
IsPlain point = All λ ch. ch ≢ point

not_point : (ch point : ℕ) → ch ≢ point → (ch == point) ≡ false
not_point ch point n = ground (arith, n)

translate_plain :
    (point : ℕ) (text : List ℕ) → IsPlain point text → translate_point point text ≡ text
unfolding translate_point
translate_plain point [] h = refl
translate_plain point (ch ∷ text) h =
    rw (not_point ch point h.0) (ap (λ t. ch ∷ t) (translate_plain point text h.1))

translate_one :
    (point : ℕ) (whole fraction : List ℕ)
    → IsPlain point whole
    → IsPlain point fraction
    → translate_point point (whole ++ (point ∷ fraction)) ≡ whole ++ (b'.' ∷ fraction)
unfolding translate_point
translate_one point [] fraction w f =
    let same : (point == point) ≡ true = ground arith in
    rw (same, translate_plain point fraction f) refl
translate_one point (ch ∷ whole) fraction w f =
    rw (not_point ch point w.0) (ap (λ t. ch ∷ t) (translate_one point whole fraction w.1 f))

take_whole : (n : ℕ) (xs : List ℕ) → length xs ≤ n → take n xs ≡ xs
take_whole zero [] h = refl
take_whole zero (x ∷ xs) h = absurd (omega arith)
take_whole (suc n) [] h = refl
take_whole (suc n) (x ∷ xs) h = ap (λ t. x ∷ t) (take_whole n xs (omega arith))

-- "%.", the precision in decimal, with one digit below 10, and "g".
abbrev pub number_format : ℕ → List ℕ
number_format precision =
    if ltb precision 10
    then b'%' ∷ b'.' ∷ (b'0' + precision) ∷ b'g' ∷ []
    else b'%' ∷ b'.' ∷ b'1' ∷ (b'0' + (precision - 10)) ∷ b'g' ∷ []

formats :
    (precision : ℕ)
    → 1 ≤ precision
    → precision ≤ 14
    → set_number_format precision ≡ ok (number_format precision)
unfolding set_number_format
formats precision h k =
    let allowed : (leb 1 precision && leb precision 14) ≡ true = ground arith in
    elim (Bool-cases (ltb precision 10)) [
      | inl one ↦
          let d1 : precision / 10 ≡ 0 = ground (arith, one) in
          let d2 : precision % 10 ≡ precision = ground (arith, one) in
          rw (allowed, one, d1, d2) refl
      | inr two ↦
          let d1 : precision / 10 ≡ 1 = ground (arith, two) in
          let d2 : precision % 10 ≡ precision - 10 = ground (arith, two) in
          rw (allowed, two, d1, d2) refl
    ]

-- `written` is `text` with a full stop for the locale's point, which is in it once or not at all.
abbrev pub Rewrites : ℕ → List ℕ → List ℕ → Type 0
Rewrites point text written =
    ((whole : List ℕ) × (fraction : List ℕ) × IsPlain point whole
      × IsPlain point fraction
      × (text ≡ whole ++ (point ∷ fraction))
      × (written ≡ whole ++ (b'.' ∷ fraction)))
    ⊎ (IsPlain point text × (written ≡ text))

translate-Rewrites :
    (point : ℕ) (text written : List ℕ)
    → Rewrites point text written
    → translate_point point text ≡ written
translate-Rewrites point text written (inl (whole, fraction, w, f, e, e')) =
    ap (translate_point point) e ∙ translate_one point whole fraction w f ∙ sym e'
translate-Rewrites point text written (inr (plain, e)) = translate_plain point text plain ∙ sym e

-- In a locale with another decimal point, if `snprintf`, with "%." and the precision and "g", gives
-- a text of at most 31 characters with the locale's point in it once or not at all,
-- `fpconv_g_fmt` writes this text with a full stop for the point, and returns its length; the
-- precision is one that can be configured.
pub fpconv_g_fmt_lem :
    (libc : Libc) (point precision : ℕ) (num : Double) (text written : List ℕ)
    → point ≢ b'.'
    → 1 ≤ precision
    → precision ≤ 14
    → libc.print (number_format precision) num ≡ text
    → length text ≤ 31
    → Rewrites point text written
    → fpconv_g_fmt libc point num precision ≡ ok (written, length text)
unfolding fpconv_g_fmt
fpconv_g_fmt_lem libc point precision num text written other h k e short r =
    rw
      (
        formats precision h k,
        e,
        no_stop point other,
        take_whole 31 text short,
        translate-Rewrites point text written r,
      )
      refl
