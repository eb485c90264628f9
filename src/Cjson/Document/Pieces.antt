-- ===== src/Cjson/Document/Pieces.antt =====
-- What the encoder appends for one number, one sign and one string, and how pieces are put
-- together.
use luarunner.Base.{
  ℕ, ◌+◌, ◌*◌, ◌≤◌, ◌<◌, ◌≡◌, refl, sym, ◌∙◌, ap, arith, Bool, true, false, List, [], ◌∷◌, ◌++◌,
  append_assoc, append-nil, length, length-append, length-take, length-drop, int_max, ok, Result,
  ◌>>=◌, leb, take, drop,
}
use luarunner.Lua.{Double}
use luarunner.Fpconv.{Libc}
use luarunner.Strbuf.{Allocator, Strbuf, content, poke, strbuf_ensure_empty_length}
use luarunner.Strbuf.Outcome.{Ensures, Ensures->>=, Ensures-map}
use luarunner.Strbuf.Append.{IsValid, Appended, take_front}
use luarunner.Strbuf.Resize.{strbuf_append_mem_lem, strbuf_ensure_empty_length_lem}
use luarunner.Strbuf.Text.{Appended-twice}
use luarunner.Cjson.Config.{JsonConfig}
use luarunner.Cjson.Encode.{append_comma, append_finite, json_append_number}
use luarunner.Cjson.Document.Writable.{Digits}

-- The text and its NUL are written within the room that is there, and the length grows.
module _ (t : Strbuf) (text : List ℕ) (v : IsValid t)
    (fits : t.len + length text + 1 < t.size) where
  block : List ℕ
  block = take t.len t.buf ++ ((text ++ (0 ∷ [])) ++ drop (t.len + length (text ++ (0 ∷ []))) t.buf)

  front : length (take t.len t.buf) ≡ t.len
  front = omega (arith, length-take t.len t.buf, v.allocated, v.room)

  with_nul : length (text ++ (0 ∷ [])) ≡ length text + 1
  with_nul = length-append text (0 ∷ [])

  whole : length block ≡ t.size
  unfolding block
  whole = omega (
    arith,
    length-append (take t.len t.buf)
        ((text ++ (0 ∷ [])) ++ drop (t.len + length (text ++ (0 ∷ []))) t.buf),
    length-append (text ++ (0 ∷ [])) (drop (t.len + length (text ++ (0 ∷ []))) t.buf),
    length-drop (t.len + length (text ++ (0 ∷ []))) t.buf,
    front,
    with_nul,
    v.allocated,
  )

  split :
      block
      ≡ (take t.len t.buf ++ text) ++ ((0 ∷ []) ++ drop (t.len + length (text ++ (0 ∷ []))) t.buf)
  unfolding block
  split =
      ap (λ x. take t.len t.buf ++ x)
        (append_assoc text (0 ∷ []) (drop (t.len + length (text ++ (0 ∷ []))) t.buf))
      ∙ sym (
          append_assoc (take t.len t.buf) text
            ((0 ∷ []) ++ drop (t.len + length (text ++ (0 ∷ []))) t.buf))

  extended :
      (after : List ℕ) × (poke t.buf t.len (text ++ (0 ∷ [])) ≡ ok after)
      × Appended t text (record t { buf = after; len = t.len + length text })
  unfolding poke
  extended = (
    block,
    rw inside (unfold block in refl),
    (
      record { allocated = whole; room = omega (arith, fits); max = v.max; doubling = v.doubling },
      ap (take (t.len + length text)) split
          ∙ take_front (t.len + length text) (take t.len t.buf ++ text) _
              (omega (arith, length-append (take t.len t.buf) text, front)),
      refl,
    ),
  )
    where
      inside : leb (t.len + length (text ++ (0 ∷ []))) (length t.buf) ≡ true
      inside = ground (arith, v.allocated, with_nul, fits)

module _ (heap : Allocator) where
  -- `m` more bytes can be appended.
  abbrev pub Fits : Strbuf → ℕ → Type 0
  Fits s m = (s.len + m + 1) * 2 ≤ int_max

  abbrev pub Appends : Strbuf → List ℕ → Result Strbuf → Type 0
  Appends s bytes r = Ensures heap (Appended s bytes) r

  pub both :
      (s : Strbuf) (a b : List ℕ) (r : Result Strbuf) (f : Strbuf → Result Strbuf)
      → Appends s a r
      → ((t : Strbuf) → Appended s a t → Appends t b (f t))
      → Appends s (a ++ b) (r >>= f)
  both s a b r f h k = Ensures->>= heap (Appended s a) (Appended s (a ++ b)) r f h λ t first.
      Ensures-map heap (Appended t b) (Appended s (a ++ b)) (f t)
        (λ u second. Appended-twice s t u a b (length-append a b) first second) (k t first)

  abbrev pub separator : Bool → List ℕ
  separator true = b',' ∷ []
  separator false = []

  module _ (libc : Libc) (point : ℕ) (checkstack : ℕ → ℕ → Bool) (cfg : JsonConfig)
      (digits : Double → List ℕ) where
    pub append_comma_lem :
        (comma : Bool) (s : Strbuf)
        → IsValid s
        → Fits s 1
        → Appends s (separator comma) (append_comma heap libc point checkstack cfg comma s)
    unfolding append_comma
    append_comma_lem true s v fits = strbuf_append_mem_lem heap s v (b',' ∷ []) fits
    append_comma_lem false s v fits = (v, sym (append-nil (content s)), omega arith)

    append_finite_lem :
        (s : Strbuf) (d : Double)
        → IsValid s
        → Digits libc point checkstack cfg digits d
        → Fits s 32
        → Appends s (digits d) (append_finite heap libc point checkstack cfg s d)
    unfolding append_finite
    append_finite_lem s d v w fits =
        Ensures->>= heap _ _ (strbuf_ensure_empty_length heap s 32) _
          (strbuf_ensure_empty_length_lem heap s v 32 fits)
          λ t room.
            let (block, runs, more) = extended t (digits d) room.0 (omega (arith, room, w.2)) in
            rw (w.1, runs)
              (more.0, more.1 ∙ ap (λ (x : List ℕ). x ++ digits d) room.1, omega (arith, room))

    pub json_append_number_lem :
        (s : Strbuf) (d : Double)
        → IsValid s
        → Digits libc point checkstack cfg digits d
        → Fits s 32
        → Appends s (digits d) (json_append_number heap libc point checkstack cfg s d)
    unfolding json_append_number
    json_append_number_lem s d v w fits =
        rw (json_append_number, w.0) (append_finite_lem s d v w fits)
