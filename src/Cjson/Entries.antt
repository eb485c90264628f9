-- ===== src/Cjson/Entries.antt =====
-- The two tables of escapes undo one another: reading the escape of a byte gives the byte.
use luarunner.Base.{
  ℕ, ◌+◌, ◌*◌, ◌≤◌, ◌<◌, ◌≡◌, refl, ap, arith, true, false, Bool, not, ◌&&◌, Option, none, some,
  List, [], ◌∷◌, leb, ◌==◌, ok, bit_and, check_all, check_all_lem,
}
use luarunner.Cjson.Escapes.{Entry, plain, short, unicode, entry, escape2char}
use luarunner.Cjson.Utf8.{hexdigit2int, decode_hex4, codepoint_to_utf8}
use luarunner.Cjson.Unicode.{unicode_escape, code_unit}

-- The number that two digits give.
pair : Option ℕ → Option ℕ → ℕ → Bool
pair (some a) (some b) c = (a * 16 + b == c) && leb c 0x7F
pair _ _ c = false

-- That an entry fits its byte.
pub check : ℕ → Entry → Bool
unfolding pair
check c plain = not (c == b'"') && (not (c == 0) && not (c == b'\\'))
check c (short x) = (escape2char x == c) && (not (c == b'u') && not (c == 0))
check c (unicode h l) = pair (hexdigit2int h) (hexdigit2int l) c

entries_checked : check_all (λ c. check c (entry c)) 256 ≡ true
unfolding check_all check entry escape2char hexdigit2int
entries_checked = refl

pub entry_checked : (c : ℕ) → c < 256 → check c (entry c) ≡ true
entry_checked c h = check_all_lem (λ c. check c (entry c)) 256 c h entries_checked

pub check_plain :
    (c : ℕ)
    → check c plain ≡ true
    → ((c == b'"') ≡ false) × ((c == 0) ≡ false) × ((c == b'\\') ≡ false)
unfolding check
check_plain c h = ground arith

pub check_short :
    (c x : ℕ)
    → check c (short x) ≡ true
    → (escape2char x ≡ c) × ((c == b'u') ≡ false) × ((c == 0) ≡ false)
unfolding check
check_short c x h = ground arith

pub check_unicode :
    (c h l : ℕ)
    → check c (unicode h l) ≡ true
    → (a : ℕ) × (b : ℕ) × (hexdigit2int h ≡ some a)
      × (hexdigit2int l ≡ some b)
      × (a * 16 + b ≡ c)
      × (c ≤ 0x7F)
unfolding check
check_unicode c h l e = of_digits (hexdigit2int h) (hexdigit2int l) refl refl e
  where
    of_digits :
        (x y : Option ℕ)
        → hexdigit2int h ≡ x
        → hexdigit2int l ≡ y
        → pair x y c ≡ true
        → (a : ℕ) × (b : ℕ) × (hexdigit2int h ≡ some a)
          × (hexdigit2int l ≡ some b)
          × (a * 16 + b ≡ c)
          × (c ≤ 0x7F)
    of_digits (some a) (some b) p q r = (a, b, p, q, ground arith, ground arith)
    of_digits none y p q r = cc
    of_digits (some a) none p q r = cc

zero_digit : hexdigit2int b'0' ≡ some 0
unfolding hexdigit2int
zero_digit = refl

decode_low :
    (h l a b : ℕ) (more : List ℕ)
    → hexdigit2int h ≡ some a
    → hexdigit2int l ≡ some b
    → decode_hex4 (b'0' ∷ b'0' ∷ h ∷ l ∷ more) ≡ ok (some (a * 16 + b))
unfolding decode_hex4
decode_low h l a b more p q = rw (zero_digit, p, q) (ap (λ (t : ℕ). ok (some t)) (omega arith))

-- Code points of ASCII are no surrogates.
ascii_checked : check_all (λ c. not (bit_and c 0xF800 == 0xD800)) 128 ≡ true
unfolding check_all
ascii_checked = refl

ascii_unit : (ptr : List ℕ) (c : ℕ) → c ≤ 0x7F → code_unit ptr c ≡ ok (some (c ∷ [], 6))
unfolding code_unit codepoint_to_utf8
ascii_unit ptr c h =
    let single : (bit_and c 0xF800 == 0xD800) ≡ false = ground (
      arith,
      check_all_lem (λ c. not (bit_and c 0xF800 == 0xD800)) 128 c (omega arith) ascii_checked,
    ) in
    let one : leb c 0x7F ≡ true = ground arith in rw (single, one)

pub unicode_escape-unicode :
    (c h l : ℕ) (more : List ℕ)
    → check c (unicode h l) ≡ true
    → unicode_escape (b'\\' ∷ b'u' ∷ b'0' ∷ b'0' ∷ h ∷ l ∷ more) ≡ ok (some (c ∷ [], 6))
unfolding unicode_escape
unicode_escape-unicode c h l more e =
    let (a, b, p, q, value, small) = check_unicode c h l e in
    rw (decode_low h l a b more p q, value) (ascii_unit _ c small)
