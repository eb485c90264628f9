-- ===== src/Cjson/Ends/Strings.antt =====
-- The loop over a JSON string ends, whatever the memory holds.
use luarunner.Base.{
  ℕ, zero, suc, ◌+◌, ◌-◌, ◌≤◌, ◌<◌, ◌≡◌, arith, ◌==◌, Bool-cases, inl, inr, List, [], ◌∷◌, length,
  drop, length-drop, Option, none, some, Result, ok, undefined, ◌>>=◌, leb, get_elem?, bit_and,
  invalid_unicode_escape,
}
use luarunner.Strbuf.{
  Strbuf, strbuf_reset, poke, strbuf_append_mem_unsafe, strbuf_ensure_null, content,
}
use luarunner.Cjson.Escapes.{escape2char}
use luarunner.Cjson.Utf8.{read, with_digit, hex_digit, decode_hex4, codepoint_to_utf8}
use luarunner.Cjson.Unicode.{
  Escape, sized, low_surrogate, surrogate_pair, code_unit, unicode_escape,
}
use luarunner.Cjson.Strings.{
  JsonParse, StringToken, Round, close, wrong, next, advance, accept, escape_round, string_round,
  string_loop, json_next_string_token, string, set_token_error,
}
use luarunner.Cjson.Ends.{Ends, Never, Ends->>=, Ends-weaken}

abbrev pub Anything {ℓ} : {A : Type ℓ} → A → Type 0
Anything a = Unit

pub Ends-read : (ptr : List ℕ) (i : ℕ) → Ends Never (λ c. 1 ≤ length ptr) (read ptr i)
Ends-read [] zero = tt
Ends-read [] (suc i) = tt
Ends-read (c ∷ ptr) i = found (get_elem? (c ∷ ptr) i)
  where
    found :
        (o : Option ℕ)
        → Ends Never (λ x. 1 ≤ length (c ∷ ptr)) (elim o [ none ↦ undefined | some x ↦ ok x ])
    found none = tt
    found (some x) = omega arith

Ends-poke : (block : List ℕ) (i : ℕ) (bytes : List ℕ) → Ends Never Anything (poke block i bytes)
unfolding poke
Ends-poke block i bytes = elim (Bool-cases (leb (i + length bytes) (length block))) [
  | inl inside ↦ rw inside tt
  | inr outside ↦ rw outside tt
]

Ends-accept :
    (bytes : List ℕ) (n : ℕ) (json : JsonParse)
    → Ends Never (λ j. length j.ptr ≡ length json.ptr - n) (accept bytes n json)
unfolding accept strbuf_append_mem_unsafe
Ends-accept bytes n json =
    Ends->>= Never Anything _ (strbuf_append_mem_unsafe json.tmp bytes) _
      (Ends->>= Never Anything Anything (poke json.tmp.buf json.tmp.len bytes) _
        (Ends-poke json.tmp.buf json.tmp.len bytes) λ block u. tt)
      λ tmp u. length-drop n json.ptr

Ends-hex_digit : (hex : List ℕ) (i : ℕ) → Ends Never Anything (hex_digit hex i)
Ends-hex_digit hex i =
    Ends->>= Never (λ c. 1 ≤ length hex) Anything (read hex i) _ (Ends-read hex i) λ c u. tt

Ends-with_digit :
    (hex : List ℕ) (i : ℕ) (f : ℕ → Result (Option ℕ))
    → ((d : ℕ) → Ends Never Anything (f d))
    → Ends Never Anything (hex_digit hex i >>= λ o. with_digit o f)
Ends-with_digit hex i f k =
    Ends->>= Never Anything Anything (hex_digit hex i) _ (Ends-hex_digit hex i) λ o u. digit o
  where
    digit : (o : Option ℕ) → Ends Never Anything (with_digit o f)
    digit none = tt
    digit (some d) = k d

Ends-decode_hex4 : (hex : List ℕ) → Ends Never Anything (decode_hex4 hex)
unfolding decode_hex4
Ends-decode_hex4 hex = Ends-with_digit hex 0 _ λ d₀.
    Ends-with_digit hex 1 _ λ d₁. Ends-with_digit hex 2 _ λ d₂. Ends-with_digit hex 3 _ λ d₃. tt

-- The escape is not empty.
abbrev Positive : Escape → Type 0
Positive none = Unit
Positive (some (utf8, escape_len)) = 1 ≤ escape_len

sized-Positive : (utf8 : List ℕ) (n : ℕ) → 1 ≤ n → Positive (sized utf8 n)
sized-Positive [] n h = tt
sized-Positive (b ∷ utf8) n h = h

low_surrogate-Positive : (codepoint : ℕ) (low : Option ℕ) → Positive (low_surrogate codepoint low)
unfolding low_surrogate
low_surrogate-Positive codepoint none = tt
low_surrogate-Positive codepoint (some low) = elim (Bool-cases (bit_and low 0xFC00 == 0xDC00)) [
  | inl is_low ↦ rw is_low (sized-Positive _ 12 (omega arith))
  | inr other ↦ rw other tt
]

Ends-surrogate_pair :
    (ptr : List ℕ) (codepoint : ℕ) → Ends Never Positive (surrogate_pair ptr codepoint)
unfolding surrogate_pair
Ends-surrogate_pair ptr codepoint =
    Ends->>= Never _ Positive (read ptr 6) _ (Ends-read ptr 6) λ slash h.
      elim (Bool-cases (slash == b'\\')) [
        | inl is_slash ↦ rw is_slash (
            Ends->>= Never _ Positive (read ptr 7) _ (Ends-read ptr 7) λ u g.
              elim (Bool-cases (u == b'u')) [
                | inl is_u ↦ rw is_u (
                    Ends->>= Never Anything Positive (decode_hex4 (drop 8 ptr)) _
                      (Ends-decode_hex4 (drop 8 ptr)) λ low v. low_surrogate-Positive codepoint low)
                | inr other ↦ rw other tt
              ])
        | inr other ↦ rw other tt
      ]

Ends-code_unit : (ptr : List ℕ) (codepoint : ℕ) → Ends Never Positive (code_unit ptr codepoint)
unfolding code_unit
Ends-code_unit ptr codepoint = elim (Bool-cases (bit_and codepoint 0xF800 == 0xD800)) [
  | inl surrogate ↦ rw surrogate (elim (Bool-cases (bit_and codepoint 0x400 == 0)) [
    | inl high ↦ rw high (Ends-surrogate_pair ptr codepoint)
    | inr low ↦ rw low tt
  ])
  | inr other ↦ rw other (sized-Positive (codepoint_to_utf8 codepoint) 6 (omega arith))
]

Ends-unicode_escape : (ptr : List ℕ) → Ends Never Positive (unicode_escape ptr)
unfolding unicode_escape
Ends-unicode_escape ptr =
    Ends->>= Never Anything Positive (decode_hex4 (drop 2 ptr)) _ (Ends-decode_hex4 (drop 2 ptr))
      λ o u. unit o
  where
    unit :
        (o : Option ℕ)
        → Ends Never Positive (elim o [ none ↦ ok none | some codepoint ↦ code_unit ptr codepoint ])
    unit none = tt
    unit (some codepoint) = Ends-code_unit ptr codepoint

-- The loop goes on with less memory before it.
abbrev Shorter : JsonParse → Round → Type 0
Shorter json (next j) = length j.ptr < length json.ptr
Shorter json _ = Unit

Ends-accepted :
    (bytes : List ℕ) (n : ℕ) (json : JsonParse)
    → 1 ≤ n
    → 1 ≤ length json.ptr
    → Ends Never (Shorter json) (accept bytes n json >>= λ j. ok (next j))
Ends-accepted bytes n json h k =
    Ends->>= Never (λ j. length j.ptr ≡ length json.ptr - n) (Shorter json) (accept bytes n json) _
      (Ends-accept bytes n json) λ j e. omega (arith, e, h, k)

Ends-escape_round : (json : JsonParse) → Ends Never (Shorter json) (escape_round json)
unfolding escape_round
Ends-escape_round json =
    Ends->>= Never (λ c. 1 ≤ length json.ptr) (Shorter json) (read json.ptr 1) _
      (Ends-read json.ptr 1)
      λ e some_memory. elim (Bool-cases (escape2char e == b'u')) [
        | inl is_u ↦ rw is_u (
            Ends->>= Never Positive (Shorter json) (unicode_escape json.ptr) _
              (Ends-unicode_escape json.ptr) λ o positive. found some_memory o positive)
        | inr other ↦ rw other (elim (Bool-cases (escape2char e == 0)) [
          | inl unknown ↦ rw unknown tt
          | inr known ↦
              rw known (Ends-accepted (escape2char e ∷ []) 2 json (omega arith) some_memory)
        ])
      ]
  where
    found :
        1 ≤ length json.ptr
        → (o : Escape) → Positive o
        → Ends Never (Shorter json) (elim o [
          | none ↦ ok (wrong invalid_unicode_escape)
          | some (utf8, escape_len) ↦ accept utf8 escape_len json >>= λ j. ok (next j)
        ])
    found some_memory none h = tt
    found some_memory (some (utf8, escape_len)) h = Ends-accepted utf8 escape_len json h some_memory

Ends-string_round : (json : JsonParse) → Ends Never (Shorter json) (string_round json)
unfolding string_round
Ends-string_round json =
    Ends->>= Never (λ c. 1 ≤ length json.ptr) (Shorter json) (read json.ptr 0) _
      (Ends-read json.ptr 0)
      λ ch some_memory. elim (Bool-cases (ch == b'"')) [
        | inl quote ↦ rw quote tt
        | inr no_quote ↦ rw no_quote (elim (Bool-cases (ch == 0)) [
          | inl nul ↦ rw nul tt
          | inr no_nul ↦ rw no_nul (elim (Bool-cases (ch == b'\\')) [
            | inl slash ↦ rw slash (Ends-escape_round json)
            | inr usual ↦ rw usual (Ends-accepted (ch ∷ []) 1 json (omega arith) some_memory)
          ])
        ])
      ]

abbrev NotLonger : JsonParse → StringToken × JsonParse → Type 0
NotLonger json (t, j) = length j.ptr ≤ length json.ptr

pub Ends-ensure_null : (s : Strbuf) → Ends Never Anything (strbuf_ensure_null s)
unfolding strbuf_ensure_null
Ends-ensure_null s =
    Ends->>= Never Anything Anything (poke s.buf s.len (0 ∷ [])) _ (Ends-poke s.buf s.len (0 ∷ []))
      λ block u. tt

Ends-string_loop :
    (fuel : ℕ) (json : JsonParse)
    → length json.ptr < fuel
    → Ends Never (NotLonger json) (string_loop fuel json)
unfolding string_loop
Ends-string_loop zero json h = absurd (omega (arith, h))
Ends-string_loop (suc fuel) json h =
    Ends->>= Never (Shorter json) (NotLonger json) (string_round json) _ (Ends-string_round json)
      λ r shorter. round r shorter λ j k. Ends-string_loop fuel j (omega (arith, h, k))
  where
    round :
        (r : Round)
        → Shorter json r
        → ((j : JsonParse)
            → length j.ptr < length json.ptr
            → Ends Never (NotLonger j) (string_loop fuel j))
        → Ends Never (NotLonger json) (elim r [
          | close ↦ (do
            tmp ← strbuf_ensure_null json.tmp
            ok (string (content tmp), advance 1 (record json { tmp = tmp })))
          | wrong e ↦ set_token_error json e
          | next j ↦ string_loop fuel j
        ])
    round close k again =
        Ends->>= Never Anything (NotLonger json) (strbuf_ensure_null json.tmp) _
          (Ends-ensure_null json.tmp) λ tmp u. omega (arith, length-drop 1 json.ptr)
    round (wrong e) k again = omega arith
    round (next j) k again =
        Ends-weaken Never (NotLonger j) (NotLonger json) (string_loop fuel j)
          (λ a g. omega (arith, g, k)) (again j k)

pub Ends-json_next_string_token :
    (json : JsonParse)
    → 1 ≤ length json.ptr
    → Ends Never (λ (t, j). length j.ptr < length json.ptr) (json_next_string_token json)
unfolding json_next_string_token
Ends-json_next_string_token json h =
    let inside = advance 1 (record json { tmp = strbuf_reset json.tmp }) in
    let less : length (drop 1 json.ptr) ≡ length json.ptr - 1 = length-drop 1 json.ptr in
    Ends-weaken Never (NotLonger inside) _ (string_loop (length json.ptr) inside)
      (λ a g. omega (arith, g, less, h))
      (Ends-string_loop (length json.ptr) inside (omega (arith, less, h)))
