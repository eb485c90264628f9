-- ===== src/Strbuf/Text.antt =====
-- `strbuf_append_string`, the loop that looks at the room only when it has run out.
use luarunner.Base.{
  ℕ, ◌+◌, ◌-◌, ◌*◌, ◌≤◌, ◌≡◌, refl, sym, ◌∙◌, ap, arith, ltb, ltb→le, Bool-cases, inl, inr, List,
  [], ◌∷◌, ◌++◌, append_assoc, append-nil, length, int_max,
}
use luarunner.Strbuf.{
  Allocator, Strbuf, content, strbuf_empty_length, strbuf_resize, append_bytes,
  strbuf_append_string,
}
use luarunner.Strbuf.Growth.{int_ok}
use luarunner.Strbuf.Outcome.{Ensures, Ensures->>=, Ensures-map}
use luarunner.Strbuf.Append.{IsValid, Appended, append_unsafe_lem}
use luarunner.Strbuf.Resize.{HasRoom, strbuf_resize_lem}

-- Two appends are one.
pub Appended-twice :
    (s t u : Strbuf) (a b : List ℕ)
    → length (a ++ b) ≡ length a + length b
    → Appended s a t
    → Appended t b u
    → Appended s (a ++ b) u
Appended-twice s t u a b e p q = (
  q.0,
  q.1 ∙ ap (λ (x : List ℕ). x ++ b) p.1 ∙ append_assoc (content s) a b,
  omega (arith, e, p.2, q.2),
)

module _ (heap : Allocator) where
  append_bytes_lem :
      (str : List ℕ) (s : Strbuf) (space : ℕ)
      → IsValid s
      → space ≡ strbuf_empty_length s
      → (s.len + length str + 1) * 2 ≤ int_max
      → Ensures heap (Appended s str) (append_bytes heap s space str)
  unfolding append_bytes
  append_bytes_lem [] s space v e fits = (v, sym (append-nil (content s)), omega arith)
  append_bytes_lem (c ∷ str) s space v e fits = elim (Bool-cases (ltb space 1)) [
    | inl full ↦
        rw (full, append_bytes, int_ok (s.len + 1) (omega arith))
          (Ensures->>= heap _ _ (strbuf_resize heap s (s.len + 1)) _
            (strbuf_resize_lem heap s v (s.len + 1) (omega arith) (omega arith) (omega arith))
            λ t room.
              let (u, runs, appended, same) =
                append_unsafe_lem t (c ∷ []) room.0 (omega (arith, room)) in
              rw runs (
                Ensures-map heap _ _ (append_bytes heap u (strbuf_empty_length t - 1) str)
                  (λ r more.
                    Appended-twice s u r (c ∷ []) str (omega arith) (moved s t u c room appended)
                      more)
                  (append_bytes_lem str u (strbuf_empty_length t - 1) appended.0
                    (omega (arith, appended.2, same)) (omega (arith, appended.2, room)))))
    | inr left ↦
        let (u, runs, appended, same) =
          append_unsafe_lem s (c ∷ []) v (omega (arith, ltb→le _ _ left, v.room)) in
        rw (left, append_bytes, runs)
          (Ensures-map heap _ _ (append_bytes heap u (space - 1) str)
            (λ r more. Appended-twice s u r (c ∷ []) str (omega arith) appended more)
            (append_bytes_lem str u (space - 1) appended.0 (omega (arith, appended.2, same))
              (omega (arith, appended.2))))
  ]
    where
      moved :
          (s t u : Strbuf) (c : ℕ)
          → HasRoom s (s.len + 1) t
          → Appended t (c ∷ []) u
          → Appended s (c ∷ []) u
      moved s t u c room appended = (
        appended.0,
        appended.1 ∙ ap (λ (x : List ℕ). x ++ (c ∷ [])) room.1,
        omega (arith, appended.2, room),
      )

  -- If the buffer is valid and twice the size needed is an `int`, `strbuf_append_string` adds the
  -- bytes of the string at the end and leaves the buffer valid, growing it where needed, or the
  -- process ends because memory was refused. It never writes outside the block.
  pub strbuf_append_string_lem :
      (s : Strbuf) (str : List ℕ)
      → IsValid s
      → (s.len + length str + 1) * 2 ≤ int_max
      → Ensures heap (Appended s str) (strbuf_append_string heap s str)
  unfolding strbuf_append_string
  strbuf_append_string_lem s str v fits = append_bytes_lem str s (strbuf_empty_length s) v refl fits
