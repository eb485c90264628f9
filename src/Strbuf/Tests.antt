-- ===== src/Strbuf/Tests.antt =====
-- strbuf.c: the theorems about the buffer on a concrete buffer and allocator.
use luarunner.Base.{
  ℕ, ◌+◌, ◌≤◌, ◌≡◌, refl, arith, List, [], ◌∷◌, ok, int_max, ℤ, pos, negsuc, take, length,
}
use luarunner.Strbuf.{Strbuf, content, calculate_new_size, strbuf_append_mem, strbuf_append_string}
use luarunner.Strbuf.Growth.{calculate_new_size_lem, calculate_new_size_linear}
use luarunner.Strbuf.Outcome.{Ensures}
use luarunner.Strbuf.Append.{Appended}
use luarunner.Strbuf.Resize.{strbuf_append_mem_lem}
use luarunner.Strbuf.Text.{strbuf_append_string_lem}
use luarunner.Strbuf.Format.{strbuf_append_fmt_retry}
use luarunner.Strbuf.Formatted.{strbuf_append_fmt_retry_lem, strbuf_append_fmt_retry_error, cut}
use luarunner.Strbuf.Samples.{heap, sample, sample-IsValid}

abbrev more : List ℕ
more = b'a' ∷ b'r' ∷ b'u' ∷ b'n' ∷ b'n' ∷ b'e' ∷ b'r' ∷ []

-- A buffer that is full, in linear mode with steps of four.
abbrev linear : Strbuf
linear = record sample { increment = pos 4 }

calculate_new_size_lem_example :
    (m : ℕ) × (calculate_new_size sample 20 ≡ ok m) × (20 + 1 ≤ m) × (m ≤ int_max)
calculate_new_size_lem_example =
    calculate_new_size_lem sample 20 0 refl (omega arith) (omega arith) (omega arith) (omega arith)

calculate_new_size_linear_example : calculate_new_size linear 20 ≡ ok 8
calculate_new_size_linear_example =
    calculate_new_size_linear linear 20 3 2 refl refl (omega arith) (omega arith) (omega arith)
      (omega arith)

strbuf_append_mem_lem_example :
    Ensures heap (Appended sample more) (strbuf_append_mem heap sample more)
strbuf_append_mem_lem_example = strbuf_append_mem_lem heap sample sample-IsValid more (omega arith)

strbuf_append_string_lem_example :
    Ensures heap (Appended sample more) (strbuf_append_string heap sample more)
strbuf_append_string_lem_example =
    strbuf_append_string_lem heap sample more sample-IsValid (omega arith)

-- A format that gives `more`, which has no room in the sample, and one that fails.
abbrev prints : (call size : ℕ) → List ℕ × ℤ
prints call size = (cut size more, pos (length more))

abbrev fails : (call size : ℕ) → List ℕ × ℤ
fails call size = ([], negsuc 0)

strbuf_append_fmt_retry_lem_example :
    Ensures heap (Appended sample more) (strbuf_append_fmt_retry heap prints sample)
strbuf_append_fmt_retry_lem_example =
    strbuf_append_fmt_retry_lem heap prints more (λ t n. refl) sample sample-IsValid (omega arith)

strbuf_append_fmt_retry_error_example :
    (t : Strbuf) × (strbuf_append_fmt_retry heap fails sample ≡ ok t)
    × (content t ≡ take 1 (content sample))
    × (t.len ≡ 1)
strbuf_append_fmt_retry_error_example =
    strbuf_append_fmt_retry_error heap fails sample [] sample-IsValid (omega arith) refl
      (omega arith)
