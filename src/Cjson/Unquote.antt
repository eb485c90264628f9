-- ===== src/Cjson/Unquote.antt =====
-- `json_next_string_token` reads what `json_append_string` writes.
use luarunner.Base.{
  ℕ, zero, suc, ◌+◌, ◌≤◌, ◌<◌, ◌≡◌, refl, sym, ◌∙◌, ap, arith, true, List, [], ◌∷◌, ◌++◌,
  append-nil, append_assoc, length, length-append, drop, Result, ok, ◌>>=◌, IsBytes,
}
use luarunner.Strbuf.{Strbuf, content, strbuf_reset}
use luarunner.Strbuf.Append.{IsValid, Appended, append_unsafe_lem, ensure_null_lem}
use luarunner.Cjson.Escapes.{Entry, plain, short, unicode, entry, escape2char}
use luarunner.Cjson.Quote.{escaped, escape, quoted}
use luarunner.Cjson.Entries.{check, entry_checked, check_plain, check_short, unicode_escape-unicode}
use luarunner.Cjson.Strings.{
  JsonParse, StringToken, string, Round, next, close, accept, escape_round, string_round,
  string_loop, json_next_string_token,
}

abbrev pub at : ℕ → List ℕ → ℕ → Strbuf → JsonParse
at depth ptr offset tmp = record { ptr = ptr; offset = offset; tmp = tmp; current_depth = depth }

-- The round goes on with `bytes` behind the string read so far, at `more`, `n` further on.
abbrev GoesOn : ℕ → List ℕ → List ℕ → ℕ → ℕ → Strbuf → Result Round → Type 0
GoesOn depth bytes more n offset tmp r =
    (t : Strbuf) × (r ≡ ok (next (at depth more (offset + n) t)))
    × Appended tmp bytes t
    × (t.size ≡ tmp.size)

module _ (depth : ℕ) (more : List ℕ) (offset : ℕ) (tmp : Strbuf) (c : ℕ) (v : IsValid tmp)
    (fits : tmp.len + 1 < tmp.size) where
  accepted :
      (n : ℕ) (ptr : List ℕ)
      → GoesOn depth
          (c ∷ [])
          (drop n ptr)
          n
          offset
          tmp
          (accept (c ∷ []) n (at depth ptr offset tmp) >>= λ j. ok (next j))
  unfolding accept
  accepted n ptr =
      let (t, runs, appended, same) = append_unsafe_lem tmp (c ∷ []) v fits in
      (t, rw runs, appended, same)

  round-escaped :
      (e : Entry)
      → check c e ≡ true
      → GoesOn depth
          (c ∷ [])
          more
          (length (escaped c e))
          offset
          tmp
          (string_round (at depth (escaped c e ++ more) offset tmp))
  unfolding string_round escape_round
  round-escaped plain h =
      let (quote, nul, slash) = check_plain c h in rw (quote, nul, slash) (accepted 1 (c ∷ more))
  round-escaped (short x) h =
      let (value, other, valid) = check_short c x h in
      rw (value, other, valid) (accepted 2 (b'\\' ∷ x ∷ more))
  round-escaped (unicode h l) e =
      rw (backslash_u, unicode_escape-unicode c h l more e)
        (accepted 6 (b'\\' ∷ b'u' ∷ b'0' ∷ b'0' ∷ h ∷ l ∷ more))
    where
      backslash_u : escape2char b'u' ≡ b'u'
      backslash_u = unfold escape2char in refl

closes :
    (depth : ℕ) (more : List ℕ) (offset : ℕ) (tmp : Strbuf)
    → string_round (at depth (b'"' ∷ more) offset tmp) ≡ ok close
unfolding string_round
closes depth more offset tmp = refl

found :
    (depth : ℕ) (s s' more : List ℕ) (o o' : ℕ) (t : Strbuf)
    → s ≡ s'
    → o ≡ o'
    → ◌≡◌ {A = Result (StringToken × JsonParse)}
        (ok (string s, at depth more o t))
        (ok (string s', at depth more o' t))
found depth s s' more o o' t p q = cc

-- The loop reads an escaped string up to its closing quote, behind what was read before.
loop-escape :
    (depth : ℕ) (str more : List ℕ) (fuel offset : ℕ) (tmp : Strbuf)
    → IsBytes str
    → IsValid tmp
    → tmp.len + length str < tmp.size
    → length str < fuel
    → (t : Strbuf) × (string_loop fuel (at depth (escape str ++ (b'"' ∷ more)) offset tmp)
        ≡ ok (string (content tmp ++ str), at depth more (offset + length (escape str) + 1) t))
      × IsValid t
      × (t.size ≡ tmp.size)
unfolding string_loop escape
loop-escape depth str more zero offset tmp bytes v fits enough = absurd (omega arith)
loop-escape depth [] more (suc fuel) offset tmp bytes v fits enough =
    let (t, runs, same, valid, size) = ensure_null_lem tmp v in
    (
      t,
      rw (closes depth more offset tmp, runs)
          (found depth _ _ more _ _ t (same ∙ sym (append-nil (content tmp))) (omega arith)),
      valid,
      size,
    )
loop-escape depth (c ∷ str) more (suc fuel) offset tmp bytes v fits enough =
    let rest = escape str ++ (b'"' ∷ more) in
    let first = escaped c (entry c) in
    let (u, runs, appended, same) =
      round-escaped depth rest offset tmp c v (omega arith) (entry c) (entry_checked c bytes.0) in
    let (t, runs', valid, size) =
      loop-escape depth str more fuel (offset + length first) u bytes.1 appended.0
        (omega (arith, appended.2, same)) (omega arith) in
    (
      t,
      rw (append_assoc first (escape str) (b'"' ∷ more), runs)
          (runs'
            ∙ found depth _ _ more _ _ t
                (ap (λ (x : List ℕ). x ++ str) appended.1 ∙ append_assoc (content tmp) (c ∷ []) str)
                (omega (arith, length-append first (escape str)))),
      valid,
      size ∙ same,
    )

escaped_nonempty : (c : ℕ) (e : Entry) → 1 ≤ length (escaped c e)
escaped_nonempty c plain = omega arith
escaped_nonempty c (short x) = omega arith
escaped_nonempty c (unicode h l) = omega arith

length_le_escape : (str : List ℕ) → length str ≤ length (escape str)
unfolding escape
length_le_escape [] = omega arith
length_le_escape (c ∷ str) = omega (
  arith,
  length-append (escaped c (entry c)) (escape str),
  escaped_nonempty c (entry c),
  length_le_escape str,
)

-- A string of bytes that was quoted and escaped is read back byte for byte, whatever follows it,
-- and the index is left behind its closing quote. The buffer for it must be valid, with a block
-- of more bytes than the string has, and stays so.
pub json_next_string_token-quoted :
    (depth : ℕ) (str more : List ℕ) (offset : ℕ) (tmp : Strbuf)
    → IsBytes str
    → IsValid tmp
    → length str < tmp.size
    → (t : Strbuf) × (json_next_string_token (at depth (quoted str ++ more) offset tmp)
        ≡ ok (string str, at depth more (offset + length (quoted str)) t))
      × IsValid t
      × (t.size ≡ tmp.size)
unfolding json_next_string_token
json_next_string_token-quoted depth str more offset tmp bytes v fits =
    let (t, runs, valid, size) =
      loop-escape depth str more (length (quoted str ++ more)) (offset + 1) (strbuf_reset tmp) bytes
        empty (omega arith) enough in
    (
      t,
      ap
            (λ p.
              string_loop (length (quoted str ++ more))
                (at depth p (offset + 1) (strbuf_reset tmp)))
            (append_assoc (escape str) (b'"' ∷ []) more)
          ∙ runs
          ∙ found depth str str more _ (offset + length (quoted str)) t refl
              (omega (arith, length-append (escape str) (b'"' ∷ []))),
      valid,
      size,
    )
  where
    empty : IsValid (strbuf_reset tmp)
    empty = record {
      allocated = v.allocated;
      room = omega arith;
      max = v.max;
      doubling = v.doubling;
    }

    enough : length str < length (quoted str ++ more)
    enough = omega (
      arith,
      length_le_escape str,
      length-append (escape str) (b'"' ∷ []),
      length-append (quoted str) more,
    )
