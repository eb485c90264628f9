-- ===== src/Fpconv/Tests.antt =====
-- fpconv.c: a number in a locale with a comma.
use luarunner.Base.{◌≡◌, ◌++◌, refl, arith, [], ◌∷◌, inl, length, ok}
use luarunner.Lua.{Double}
use luarunner.Strbuf.Samples.{heap}
use luarunner.Fpconv.{Libc, fpconv_g_fmt}
use luarunner.Fpconv.Locale.{IsNumberCharacter, Converts, fpconv_strtod_lem, fpconv_g_fmt_lem}

-- `strtod` takes everything for the number; `print` gives "1,5".
abbrev libc : Libc
libc = record {
  strtod = λ s. (Double.fraction 15, length s);
  print = λ fmt d. b'1' ∷ b',' ∷ b'5' ∷ [];
}

bracket_stops : ¬ IsNumberCharacter b']'
bracket_stops h = ground (arith, h)

-- "1.5]" and "1]".
fpconv_strtod_lem_example :
    Converts heap libc b','
      (((b'1' ∷ []) ++ (b'.' ∷ b'5' ∷ [])) ++ (b']' ∷ 0 ∷ []))
      ((b'1' ∷ []) ++ (b',' ∷ b'5' ∷ []))
    × Converts heap libc b',' ((b'1' ∷ []) ++ (b']' ∷ 0 ∷ [])) (b'1' ∷ [])
fpconv_strtod_lem_example =
    fpconv_strtod_lem heap libc b',' (b'1' ∷ []) (b'5' ∷ []) b']' (0 ∷ []) (λ e. omega (arith, e))
      ((inl (omega arith, omega arith), λ e. omega (arith, e)), tt)
      (inl (omega arith, omega arith), tt) (omega arith) bracket_stops (omega arith) (omega arith)

fpconv_g_fmt_lem_example :
    fpconv_g_fmt libc b',' (Double.fraction 15) 14 ≡ ok (b'1' ∷ b'.' ∷ b'5' ∷ [], 3)
fpconv_g_fmt_lem_example =
    fpconv_g_fmt_lem libc b',' 14 (Double.fraction 15) (b'1' ∷ b',' ∷ b'5' ∷ [])
      (b'1' ∷ b'.' ∷ b'5' ∷ []) (λ e. omega (arith, e)) (omega arith) (omega arith) refl
      (omega arith)
      (inl (
        b'1' ∷ [],
        b'5' ∷ [],
        ((λ e. omega (arith, e)), tt),
        ((λ e. omega (arith, e)), tt),
        refl,
        refl,
      ))
