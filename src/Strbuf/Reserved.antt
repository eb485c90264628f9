-- ===== src/Strbuf/Reserved.antt =====
-- Appending within room that was reserved before: the buffer is not resized.
use luarunner.Base.{
  ℕ, ◌+◌, ◌-◌, ◌<◌, ◌≡◌, refl, sym, ◌∙◌, arith, false, ltb, List, [], ◌∷◌, ◌++◌, append-nil, length,
  length-append, Result, ok,
}
use luarunner.Strbuf.{
  Allocator, Strbuf, content, strbuf_empty_length, append_bytes, strbuf_append_string,
}
use luarunner.Strbuf.Append.{IsValid, Appended, append_unsafe_lem}
use luarunner.Strbuf.Text.{Appended-twice}

-- `r` is a normal return that put `bytes` behind the string of `s`, in the same block.
abbrev pub Written : Strbuf → List ℕ → Result Strbuf → Type 0
Written s bytes r = (t : Strbuf) × (r ≡ ok t) × Appended s bytes t × (t.size ≡ s.size)

pub Written-twice :
    (s t : Strbuf) (a b : List ℕ) (r : Result Strbuf)
    → Appended s a t
    → t.size ≡ s.size
    → Written t b r
    → Written s (a ++ b) r
Written-twice s t a b r first same (u, runs, second, same') =
    (u, runs, Appended-twice s t u a b (length-append a b) first second, same' ∙ same)

pub append_bytes-Written :
    (heap : Allocator) (str : List ℕ) (s : Strbuf) (space : ℕ)
    → IsValid s
    → space ≡ strbuf_empty_length s
    → s.len + length str < s.size
    → Written s str (append_bytes heap s space str)
unfolding append_bytes
append_bytes-Written heap [] s space v e fits =
    (s, refl, (v, sym (append-nil (content s)), omega arith), refl)
append_bytes-Written heap (c ∷ str) s space v e fits =
    let left : ltb space 1 ≡ false = ground arith in
    let (u, runs, appended, same) = append_unsafe_lem s (c ∷ []) v (omega arith) in
    rw (left, append_bytes, runs)
      (Written-twice s u (c ∷ []) str _ appended same (
        append_bytes-Written heap str u (space - 1) appended.0 (omega (arith, appended.2, same))
          (omega (arith, appended.2, same))))

pub strbuf_append_string-Written :
    (heap : Allocator) (s : Strbuf) (str : List ℕ)
    → IsValid s
    → s.len + length str < s.size
    → Written s str (strbuf_append_string heap s str)
unfolding strbuf_append_string
strbuf_append_string-Written heap s str v fits =
    append_bytes-Written heap str s (strbuf_empty_length s) v refl fits
