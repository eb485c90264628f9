-- ===== src/Cjson/Document/Tokens.antt =====
-- What `json_next_token` finds at the beginning of each kind of text.
use luarunner.Base.{
  ℕ, ◌+◌, ◌<◌, ◌≡◌, refl, Bool, true, false, ◌||◌, ◌&&◌, leb, ◌==◌, List, [], ◌∷◌, ◌++◌, length,
  drop, IsBytes, ok,
}
use luarunner.Fpconv.{Libc}
use luarunner.Strbuf.{Allocator, Strbuf}
use luarunner.Strbuf.Append.{IsValid}
use luarunner.Cjson.Config.{JsonConfig, ch2token}
use luarunner.Cjson.Quote.{quoted}
use luarunner.Cjson.Unquote.{at, json_next_string_token-quoted}
use luarunner.Cjson.Strings.{JsonParse}
use luarunner.Cjson.Tokens.{
  Token, obj_begin, obj_end, arr_begin, arr_end, colon, comma, end, null, string, boolean,
  JsonToken, json_next_token, eat_whitespace, classified, unknown_token, word_token, starts_with,
}

pub drop-append {ℓ} : {A : Type ℓ} (xs ys : List A) → drop (length xs) (xs ++ ys) ≡ ys
drop-append [] ys = refl
drop-append (x ∷ xs) ys = drop-append xs ys

abbrev pub token_at : Token → ℕ → JsonToken
token_at t o = record { token = t; index = o }

-- The first character of the text of a number.
abbrev pub starts_number : ℕ → Bool
starts_number c = (c == b'-') || (leb b'0' c && leb c b'9')

module _ (heap : Allocator) (libc : Libc) (point : ℕ) (cfg : JsonConfig) where
  -- `json` holds `t`, and `after` is what follows it.
  abbrev pub TokenIs : JsonParse → Token → JsonParse → Type 0
  TokenIs json t after =
      json_next_token heap libc point cfg json ≡ ok (token_at t json.offset, after)

  module _ (depth offset : ℕ) (tmp : Strbuf) (rest : List ℕ) where
    abbrev after : ℕ → JsonParse
    after n = at depth rest (offset + n) tmp

    pub bracket_open :
        TokenIs (at depth (b'[' ∷ rest) offset tmp) arr_begin (at depth rest (offset + 1) tmp)
    unfolding json_next_token eat_whitespace ch2token classified
    bracket_open = refl

    pub bracket_close :
        TokenIs (at depth (b']' ∷ rest) offset tmp) arr_end (at depth rest (offset + 1) tmp)
    unfolding json_next_token eat_whitespace ch2token classified
    bracket_close = refl

    pub brace_open :
        TokenIs (at depth (b'{' ∷ rest) offset tmp) obj_begin (at depth rest (offset + 1) tmp)
    unfolding json_next_token eat_whitespace ch2token classified
    brace_open = refl

    pub brace_close :
        TokenIs (at depth (b'}' ∷ rest) offset tmp) obj_end (at depth rest (offset + 1) tmp)
    unfolding json_next_token eat_whitespace ch2token classified
    brace_close = refl

    pub comma_sign :
        TokenIs (at depth (b',' ∷ rest) offset tmp) comma (at depth rest (offset + 1) tmp)
    unfolding json_next_token eat_whitespace ch2token classified
    comma_sign = refl

    pub colon_sign :
        TokenIs (at depth (b':' ∷ rest) offset tmp) colon (at depth rest (offset + 1) tmp)
    unfolding json_next_token eat_whitespace ch2token classified
    colon_sign = refl

    pub end_sign :
        TokenIs (at depth (0 ∷ rest) offset tmp) end (at depth (0 ∷ rest) (offset + 0) tmp)
    unfolding json_next_token eat_whitespace ch2token classified
    end_sign = refl

    pub null_word :
        TokenIs
          (at depth (b'n' ∷ b'u' ∷ b'l' ∷ b'l' ∷ rest) offset tmp)
          null
          (at depth rest (offset + 4) tmp)
    unfolding json_next_token eat_whitespace ch2token classified unknown_token word_token
        starts_with
    null_word = refl

    pub true_word :
        TokenIs
          (at depth (b't' ∷ b'r' ∷ b'u' ∷ b'e' ∷ rest) offset tmp)
          (boolean true)
          (at depth rest (offset + 4) tmp)
    unfolding json_next_token eat_whitespace ch2token classified unknown_token word_token
        starts_with
    true_word = refl

    pub false_word :
        TokenIs
          (at depth (b'f' ∷ b'a' ∷ b'l' ∷ b's' ∷ b'e' ∷ rest) offset tmp)
          (boolean false)
          (at depth rest (offset + 5) tmp)
    unfolding json_next_token eat_whitespace ch2token classified unknown_token word_token
        starts_with
    false_word = refl

  pub quoted_string :
      (depth offset : ℕ) (tmp : Strbuf) (str rest : List ℕ)
      → IsBytes str
      → IsValid tmp
      → length str < tmp.size
      → (t : Strbuf) × TokenIs
          (at depth (quoted str ++ rest) offset tmp)
          (string str)
          (at depth rest (offset + length (quoted str)) t)
        × IsValid t
        × (t.size ≡ tmp.size)
  unfolding json_next_token eat_whitespace ch2token classified unknown_token
  quoted_string depth offset tmp str rest bytes v fits =
      let (t, runs, valid, same) =
        json_next_string_token-quoted depth str rest offset tmp bytes v fits in
      (t, rw runs refl, valid, same)
