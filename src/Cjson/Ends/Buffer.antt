-- ===== src/Cjson/Ends/Buffer.antt =====
-- A buffer that doubles can be appended to on every input: its loops end.
use luarunner.Base.{
  ℕ, zero, suc, ◌+◌, ◌-◌, ◌*◌, ◌<◌, ◌≡◌, refl, arith, ◌==◌, Bool, Bool-cases, inl, inr,
  if◌then◌else◌, ltb, leb, List, [], ◌∷◌, length, Option, none, some, ok, negsuc, int, int_max,
  or_die,
}
use luarunner.Strbuf.{
  Allocator, Strbuf, poke, grow, next_size, calculate_new_size, strbuf_resize, strbuf_empty_length,
  strbuf_ensure_empty_length, strbuf_append_mem_unsafe, strbuf_append_mem, append_bytes,
  strbuf_append_string, strbuf_init, strbuf_ensure_null,
}
use luarunner.Cjson.Ends.{Ends, Ends->>=}

-- As `strbuf_init` sets it up.
abbrev pub IsDoubling : Strbuf → Type 0
IsDoubling s = (s.increment ≡ negsuc 1) × (0 < s.size)

-- `Q` is what is said of errors; none is raised here.
module _ (Q : Bool → Type 0) where
  pub Ends-int : (n : ℕ) → Ends Q (λ m. m ≡ n) (int n)
  Ends-int n = elim (Bool-cases (leb n int_max)) [
    | inl small ↦ rw small refl
    | inr large ↦ rw large tt
  ]

  Ends-grow :
      (fuel reqsize newsize : ℕ)
      → reqsize - newsize < fuel
      → 0 < newsize
      → Ends Q (λ m. 0 < m) (grow fuel 2 reqsize newsize)
  unfolding grow
  Ends-grow zero reqsize newsize h p = absurd (omega arith)
  Ends-grow (suc fuel) reqsize newsize h p = elim (Bool-cases (ltb newsize reqsize)) [
    | inl small ↦ rw small (
        Ends->>= Q (λ m. m ≡ newsize * 2) (λ m. 0 < m) (int (newsize * 2)) (grow fuel 2 reqsize)
          (Ends-int (newsize * 2))
          λ m e. Ends-grow fuel reqsize m (ground (arith, small)) (omega arith))
    | inr large ↦ rw large p
  ]

  Ends-calculate_new_size :
      (s : Strbuf) (len : ℕ) → IsDoubling s → Ends Q (λ m. 0 < m) (calculate_new_size s len)
  unfolding calculate_new_size next_size
  Ends-calculate_new_size s len d = elim (Bool-cases (len == 0)) [
    | inl none_asked ↦ rw none_asked tt
    | inr asked ↦ rw asked (
        Ends->>= Q (λ m. m ≡ len + 1) (λ m. 0 < m) (int (len + 1))
          (λ reqsize.
            if ltb reqsize s.size then ok reqsize else next_size s.increment s.size reqsize)
          (Ends-int (len + 1))
          λ reqsize e. elim (Bool-cases (ltb reqsize s.size)) [
            | inl shrink ↦ rw shrink (omega arith)
            | inr keep ↦ rw (keep, d.0) (Ends-grow (reqsize + 1) reqsize s.size (omega arith) d.1)
          ])
  ]

  pub Ends-poke :
      (block : List ℕ) (i : ℕ) (bytes : List ℕ) → Ends Q (λ b. Unit {0}) (poke block i bytes)
  unfolding poke
  Ends-poke block i bytes = elim (Bool-cases (leb (i + length bytes) (length block))) [
    | inl inside ↦ rw inside tt
    | inr outside ↦ rw outside tt
  ]

  pub Ends-strbuf_append_mem_unsafe :
      (s : Strbuf) (bytes : List ℕ)
      → IsDoubling s
      → Ends Q IsDoubling (strbuf_append_mem_unsafe s bytes)
  unfolding strbuf_append_mem_unsafe
  Ends-strbuf_append_mem_unsafe s bytes d =
      Ends->>= Q (λ b. Unit {0}) IsDoubling (poke s.buf s.len bytes) _ (Ends-poke s.buf s.len bytes)
        λ b u. d

  module _ (heap : Allocator) where
    Ends-realloc : (o : Option (List ℕ)) → Ends Q (λ b. Unit {0}) (or_die o)
    Ends-realloc none = tt
    Ends-realloc (some block) = tt

    Ends-strbuf_resize :
        (s : Strbuf) (len : ℕ) → IsDoubling s → Ends Q IsDoubling (strbuf_resize heap s len)
    unfolding strbuf_resize
    Ends-strbuf_resize s len d =
        Ends->>= Q (λ m. 0 < m) IsDoubling (calculate_new_size s len) _
          (Ends-calculate_new_size s len d)
          λ newsize p.
            Ends->>= Q (λ b. Unit {0}) IsDoubling (or_die (heap.realloc s.buf newsize)) _
              (Ends-realloc (heap.realloc s.buf newsize)) λ block u. (d.0, p)

    pub Ends-strbuf_ensure_empty_length :
        (s : Strbuf) (len : ℕ)
        → IsDoubling s
        → Ends Q IsDoubling (strbuf_ensure_empty_length heap s len)
    unfolding strbuf_ensure_empty_length
    Ends-strbuf_ensure_empty_length s len d = elim (Bool-cases (ltb (strbuf_empty_length s) len)) [
      | inl full ↦ rw full (
          Ends->>= Q (λ m. m ≡ s.len + len) IsDoubling (int (s.len + len)) (strbuf_resize heap s)
            (Ends-int (s.len + len)) λ wanted e. Ends-strbuf_resize s wanted d)
      | inr enough ↦ rw enough d
    ]

    pub Ends-strbuf_append_mem :
        (s : Strbuf) (bytes : List ℕ)
        → IsDoubling s
        → Ends Q IsDoubling (strbuf_append_mem heap s bytes)
    unfolding strbuf_append_mem
    Ends-strbuf_append_mem s bytes d =
        Ends->>= Q IsDoubling IsDoubling (strbuf_ensure_empty_length heap s (length bytes)) _
          (Ends-strbuf_ensure_empty_length s (length bytes) d)
          λ t e. Ends-strbuf_append_mem_unsafe t bytes e

    Ends-append_bytes :
        (str : List ℕ) (s : Strbuf) (space : ℕ)
        → IsDoubling s
        → Ends Q IsDoubling (append_bytes heap s space str)
    unfolding append_bytes
    Ends-append_bytes [] s space d = d
    Ends-append_bytes (c ∷ str) s space d = elim (Bool-cases (ltb space 1)) [
      | inl full ↦
          rw (full, append_bytes)
            (Ends->>= Q (λ m. m ≡ s.len + 1) IsDoubling (int (s.len + 1)) _ (Ends-int (s.len + 1))
              λ wanted e.
                Ends->>= Q IsDoubling IsDoubling (strbuf_resize heap s wanted) _
                  (Ends-strbuf_resize s wanted d)
                  λ t f.
                    Ends->>= Q IsDoubling IsDoubling (strbuf_append_mem_unsafe t (c ∷ [])) _
                      (Ends-strbuf_append_mem_unsafe t (c ∷ []) f)
                      λ u g. Ends-append_bytes str u (strbuf_empty_length t - 1) g)
      | inr left ↦
          rw (left, append_bytes)
            (Ends->>= Q IsDoubling IsDoubling (strbuf_append_mem_unsafe s (c ∷ [])) _
              (Ends-strbuf_append_mem_unsafe s (c ∷ []) d)
              λ u g. Ends-append_bytes str u (space - 1) g)
    ]

    pub Ends-strbuf_append_string :
        (s : Strbuf) (str : List ℕ)
        → IsDoubling s
        → Ends Q IsDoubling (strbuf_append_string heap s str)
    unfolding strbuf_append_string
    Ends-strbuf_append_string s str d = Ends-append_bytes str s (strbuf_empty_length s) d

    pub Ends-strbuf_init : Ends Q IsDoubling (strbuf_init heap 0)
    unfolding strbuf_init strbuf_ensure_null
    Ends-strbuf_init =
        Ends->>= Q (λ b. Unit {0}) IsDoubling (or_die (heap.malloc 1023)) _
          (Ends-realloc (heap.malloc 1023))
          λ block u.
            Ends->>= Q (λ b. Unit {0}) IsDoubling (poke block 0 (0 ∷ [])) _
              (Ends-poke block 0 (0 ∷ [])) λ b w. (refl, omega arith)
