-- ===== src/Cjson/Document/Numbers.antt =====
-- The token of a number, wherever `strtod` reads the number's text back.
use luarunner.Base.{
  All, ℕ, suc, ◌+◌, ◌<◌, ◌≡◌, refl, ◌∙◌, arith, Bool, true, false, not, ◌||◌, ◌&&◌, ◌==◌, List, [],
  ◌∷◌, ◌++◌, length, drop, ok, t_unknown, TokenType, if◌then◌else◌, check_all, check_all_lem,
}
use luarunner.Lua.{Double}
use luarunner.Fpconv.{Libc, fpconv_strtod}
use luarunner.Strbuf.{Allocator, Strbuf}
use luarunner.Cjson.Config.{JsonConfig, ch2token}
use luarunner.Cjson.Unquote.{at}
use luarunner.Cjson.Tokens.{
  number, json_next_token, eat_whitespace, classified, unknown_token, strict_number,
  json_next_number_token,
}
use luarunner.Cjson.Document.Tokens.{drop-append, token_at, starts_number, TokenIs}

-- What may follow a value.
abbrev pub ends_value : ℕ → Bool
ends_value c = (c == 0) || ((c == b',') || ((c == b']') || (c == b'}')))

is_unknown : TokenType → Bool
is_unknown t_unknown = true
is_unknown _ = false

unknown_checked :
    check_all (λ c. if starts_number c then is_unknown (ch2token c) && not (c == b'"') else true) 58
    ≡ true
unfolding check_all is_unknown ch2token
unknown_checked = refl

number_unknown :
    (c : ℕ) → starts_number c ≡ true → (is_unknown (ch2token c) ≡ true) × ((c == b'"') ≡ false)
number_unknown c h =
    let below : c < 58 = ground (arith, h) in
    let checked =
      check_all_lem
        (λ c. if starts_number c then is_unknown (ch2token c) && not (c == b'"') else true) 58 c
        below unknown_checked in
    ground (arith, h, checked)

from_unknown : (t : TokenType) → is_unknown t ≡ true → t ≡ t_unknown
unfolding is_unknown
from_unknown t_unknown h = refl
from_unknown _ h = cc

module _ (heap : Allocator) (libc : Libc) (point : ℕ) (cfg : JsonConfig) where
  -- The text begins as a number does, without a NUL, and in front of anything that may follow a value it is read
  -- back as `d`, to its end.
  pub record Reads (text : List ℕ) (d : Double) : Type 0 where
    pub first : ℕ
    pub others : List ℕ
    pub begins : text ≡ first ∷ others
    pub is_start : starts_number first ≡ true
    pub no_nul : All (λ b. (b == 0) ≡ false) others
    pub reads :
        (c : ℕ) (rest : List ℕ)
        → ends_value c ≡ true
        → fpconv_strtod heap libc point (text ++ (c ∷ rest)) ≡ ok (d, length text)

  not_white :
      (c : ℕ) (ptr : List ℕ) (offset : ℕ)
      → ch2token c ≡ t_unknown
      → eat_whitespace (c ∷ ptr) offset ≡ ok (c ∷ ptr, offset)
  unfolding eat_whitespace
  not_white c ptr offset e = rw (e, eat_whitespace)

  to_number :
      (first : ℕ) (others : List ℕ) (depth offset : ℕ) (tmp : Strbuf)
      → starts_number first ≡ true
      → (cfg.decode_invalid_numbers == 0) ≡ false
      → json_next_token heap libc point cfg (at depth (first ∷ others) offset tmp)
        ≡ json_next_number_token heap libc point cfg (at depth (first ∷ others) offset tmp)
  unfolding json_next_token classified unknown_token strict_number
  to_number first others depth offset tmp start lenient =
      let (unknown, no_quote) = number_unknown first start in
      let t = from_unknown (ch2token first) unknown in
      rw (not_white first others offset t, t, no_quote, start, lenient)

  read_number :
      (ptr rest : List ℕ) (d : Double) (n depth offset : ℕ) (tmp : Strbuf)
      → fpconv_strtod heap libc point ptr ≡ ok (d, suc n)
      → drop (suc n) ptr ≡ rest
      → json_next_number_token heap libc point cfg (at depth ptr offset tmp)
        ≡ ok (token_at (number d) offset, at depth rest (offset + suc n) tmp)
  unfolding json_next_number_token
  read_number ptr rest d n depth offset tmp e behind =
      let used : (suc n == 0) ≡ false = ground arith in rw (e, used, behind)

  pub number_text :
      (text : List ℕ) (d : Double) (depth offset : ℕ) (tmp : Strbuf) (c : ℕ) (rest : List ℕ)
      → Reads text d
      → (cfg.decode_invalid_numbers == 0) ≡ false
      → ends_value c ≡ true
      → TokenIs heap libc point cfg
          (at depth (text ++ (c ∷ rest)) offset tmp)
          (number d)
          (at depth (c ∷ rest) (offset + length text) tmp)
  number_text text d depth offset tmp c rest r lenient ends =
      starting text r.first r.others r.begins r.is_start (r.reads c rest ends)
    where
      starting :
          (text : List ℕ) (first : ℕ) (others : List ℕ)
          → text ≡ first ∷ others
          → starts_number first ≡ true
          → fpconv_strtod heap libc point (text ++ (c ∷ rest)) ≡ ok (d, length text)
          → TokenIs heap libc point cfg
              (at depth (text ++ (c ∷ rest)) offset tmp)
              (number d)
              (at depth (c ∷ rest) (offset + length text) tmp)
      starting [] first others e start reads = absurd (cc)
      starting (x ∷ text) first others e start reads =
          let same : x ≡ first = cc in
          to_number x (text ++ (c ∷ rest)) depth offset tmp (rw same start) lenient
          ∙ read_number _ (c ∷ rest) d (length text) depth offset tmp reads
              (drop-append text (c ∷ rest))
