-- ===== src/Cjson/Document/Text.antt =====
-- The text of a document: how it begins, that it is at least as long as the document is large, and
-- that it has room for the strings in it.
use luarunner.Base.{
  ℕ, zero, suc, ◌+◌, ◌≤◌, ◌<◌, ◌≡◌, refl, arith, Bool, true, false, not, ◌==◌, List, [], ◌∷◌, ◌++◌,
  length, length-append, All,
}
use luarunner.Lua.{Double}
use luarunner.Fpconv.{Libc}
use luarunner.Strbuf.{Allocator}
use luarunner.Cjson.Escapes.{Entry, plain, short, unicode, entry}
use luarunner.Cjson.Quote.{quoted, escape, escaped}
use luarunner.Cjson.Config.{JsonConfig}
use luarunner.Cjson.Decode.{wide_text}
use luarunner.Cjson.Document.{
  Json, null, empty, boolean, number, string, array, object, Items, last, item, Fields, last_field,
  field, print, print_items, print_fields, size, size_items, size_fields,
}
use luarunner.Cjson.Document.Tokens.{starts_number}
use luarunner.Cjson.Document.Numbers.{Reads}
use luarunner.Cjson.Document.Readable.{Readable, ReadableItems, ReadableFields}

-- The text begins with another byte than 0.
abbrev begins : List ℕ → Bool
begins [] = false
begins (c ∷ text) = not (c == 0)

begins-append : (xs ys : List ℕ) → begins xs ≡ true → begins (xs ++ ys) ≡ true
begins-append [] ys h = absurd (cc)
begins-append (x ∷ xs) ys h = h

begins_length : (xs : List ℕ) → begins xs ≡ true → 1 ≤ length xs
begins_length [] h = absurd (cc)
begins_length (x ∷ xs) h = omega arith

wide_text_lem :
    (c : ℕ) (text : List ℕ) → (c == 0) ≡ false → begins text ≡ true → wide_text (c ∷ text) ≡ false
wide_text_lem c [] h k = refl
wide_text_lem c (d ∷ text) h k = ground (arith, h, k)

begins-escaped : (n : ℕ) (e : Entry) (ys : List ℕ) → begins (escaped (suc n) e ++ ys) ≡ true
begins-escaped n plain ys = ground arith
begins-escaped n (short x) ys = refl
begins-escaped n (unicode h l) ys = refl

begins-escape : (s ys : List ℕ) → begins (escape s ++ (b'"' ∷ ys)) ≡ true
unfolding escape entry
begins-escape [] ys = refl
begins-escape (zero ∷ s) ys = refl
begins-escape (suc n ∷ s) ys =
    begins-append (escaped (suc n) (entry (suc n)) ++ escape s) (b'"' ∷ ys)
      (begins-escaped n (entry (suc n)) (escape s))

length-escaped_pos : (c : ℕ) (e : Entry) → 1 ≤ length (escaped c e)
length-escaped_pos c plain = omega arith
length-escaped_pos c (short x) = omega arith
length-escaped_pos c (unicode h l) = omega arith

length-escape_lower : (s : List ℕ) → length s ≤ length (escape s)
unfolding escape
length-escape_lower [] = omega arith
length-escape_lower (c ∷ s) = omega (
  arith,
  length-append (escaped c (entry c)) (escape s),
  length-escaped_pos c (entry c),
  length-escape_lower s,
)

length-quoted : (s : List ℕ) → length s + 2 ≤ length (quoted s)
length-quoted s = omega (arith, length-append (escape s) (b'"' ∷ []), length-escape_lower s)

module _ (heap : Allocator) (libc : Libc) (point : ℕ) (checkstack : ℕ → ℕ → Bool) (cfg : JsonConfig)
    (digits : Double → List ℕ) where
  begins-number :
      (text : List ℕ) (d : Double) → Reads heap libc point cfg text d → begins text ≡ true
  begins-number text d r =
      rw r.begins (let start : starts_number r.first ≡ true = r.is_start in ground (arith, start))

  narrow-number :
      (text : List ℕ) (d : Double) → Reads heap libc point cfg text d → wide_text text ≡ false
  narrow-number text d r = rw r.begins (narrow r.first r.others r.is_start r.no_nul)
    where
      narrow :
          (first : ℕ) (others : List ℕ)
          → starts_number first ≡ true
          → All (λ b. (b == 0) ≡ false) others
          → wide_text (first ∷ others) ≡ false
      narrow first [] start bytes = refl
      narrow first (c ∷ others) start bytes = ground (arith, start, bytes.0)

  module _ (room : ℕ) where
    abbrev Good : ℕ → Json → Type 0
    Good = Readable heap libc point checkstack cfg digits room

    abbrev GoodItems : ℕ → Items → Type 0
    GoodItems = ReadableItems heap libc point checkstack cfg digits room

    abbrev GoodFields : ℕ → Fields → Type 0
    GoodFields = ReadableFields heap libc point checkstack cfg digits room

    mutual
      unfolding print Readable

      begins-print : (j : Json) (depth : ℕ) → Good depth j → begins (print digits j) ≡ true
      begins-print null depth r = refl
      begins-print empty depth r = refl
      begins-print (boolean true) depth r = refl
      begins-print (boolean false) depth r = refl
      begins-print (number d) depth r = begins-number (digits d) d r
      begins-print (string s) depth r = refl
      begins-print (array items) depth r = refl
      begins-print (object fields) depth r = refl

      begins-print_items :
          (items : Items) (depth : ℕ)
          → GoodItems depth items
          → begins (print_items digits items) ≡ true
      begins-print_items (last j) depth r = begins-print j depth r
      begins-print_items (item j items) depth r =
          begins-append (print digits j) (b',' ∷ print_items digits items)
            (begins-print j depth r.0)

    pub print_pos : (j : Json) (depth : ℕ) → Good depth j → 1 ≤ length (print digits j)
    print_pos j depth r = begins_length (print digits j) (begins-print j depth r)

    begins-print_fields : (fields : Fields) → begins (print_fields digits fields) ≡ true
    unfolding print
    begins-print_fields (last_field key j) = refl
    begins-print_fields (field key j fields) = refl

    pub narrow-print : (j : Json) (depth : ℕ) → Good depth j → wide_text (print digits j) ≡ false
    unfolding print Readable
    narrow-print null depth r = refl
    narrow-print empty depth r = refl
    narrow-print (boolean true) depth r = refl
    narrow-print (boolean false) depth r = refl
    narrow-print (number d) depth r = narrow-number (digits d) d r
    narrow-print (string s) depth r =
        wide_text_lem b'"' (escape s ++ (b'"' ∷ [])) refl (begins-escape s [])
    narrow-print (array items) depth r =
        wide_text_lem b'[' (print_items digits items ++ (b']' ∷ [])) refl (
          begins-append (print_items digits items) (b']' ∷ [])
            (begins-print_items items (depth + 1) r.1))
    narrow-print (object fields) depth r =
        wide_text_lem b'{' (print_fields digits fields ++ (b'}' ∷ [])) refl
          (begins-append (print_fields digits fields) (b'}' ∷ []) (begins-print_fields fields))

    mutual
      unfolding print size Readable

      pub size-print : (j : Json) (depth : ℕ) → Good depth j → size j ≤ length (print digits j)
      size-print null depth r = omega arith
      size-print empty depth r = omega arith
      size-print (boolean true) depth r = omega arith
      size-print (boolean false) depth r = omega arith
      size-print (number d) depth r = begins_length (digits d) (begins-number (digits d) d r)
      size-print (string s) depth r = omega (arith, length-quoted s)
      size-print (array items) depth r = omega (
        arith,
        length-append (print_items digits items) (b']' ∷ []),
        size-print_items items (depth + 1) r.1,
      )
      size-print (object fields) depth r = omega (
        arith,
        length-append (print_fields digits fields) (b'}' ∷ []),
        size-print_fields fields (depth + 1) r.1,
      )

      size-print_items :
          (items : Items) (depth : ℕ)
          → GoodItems depth items
          → size_items items ≤ length (print_items digits items)
      size-print_items (last j) depth r = size-print j depth r
      size-print_items (item j items) depth r = omega (
        arith,
        length-append (print digits j) (b',' ∷ print_items digits items),
        size-print j depth r.0,
        size-print_items items depth r.1,
      )

      size-print_fields :
          (fields : Fields) (depth : ℕ)
          → GoodFields depth fields
          → size_fields fields ≤ length (print_fields digits fields)
      size-print_fields (last_field key j) depth r =
          omega (arith, length-append (quoted key) (b':' ∷ print digits j), size-print j depth r.1)
      size-print_fields (field key j fields) depth r = omega (
        arith,
        length-append (quoted key) (b':' ∷ (print digits j ++ (b',' ∷ print_fields digits fields))),
        length-append (print digits j) (b',' ∷ print_fields digits fields),
        size-print j depth r.1,
        size-print_fields fields depth r.2,
      )

    -- Any room will do that is larger than the text.
    module _ (new : ℕ) where
      mutual
        unfolding print Readable

        pub refit :
            (j : Json) (depth : ℕ)
            → Good depth j
            → length (print digits j) < new
            → Readable heap libc point checkstack cfg digits new depth j
        refit (string s) depth r h = (r.0, omega (arith, length-quoted s))
        refit (array items) depth r h = (
          r.0,
          refit-items items (depth + 1) r.1
              (omega (arith, length-append (print_items digits items) (b']' ∷ []))),
        )
        refit (object fields) depth r h = (
          r.0,
          refit-fields fields (depth + 1) r.1
              (omega (arith, length-append (print_fields digits fields) (b'}' ∷ []))),
        )
        refit null depth r h = r
        refit empty depth r h = r
        refit (boolean b) depth r h = r
        refit (number d) depth r h = r

        refit-items :
            (items : Items) (depth : ℕ)
            → GoodItems depth items
            → length (print_items digits items) < new
            → ReadableItems heap libc point checkstack cfg digits new depth items
        refit-items (last j) depth r h = refit j depth r h
        refit-items (item j items) depth r h =
            let len = length-append (print digits j) (b',' ∷ print_items digits items) in
            (
              refit j depth r.0 (omega (arith, len)),
              refit-items items depth r.1 (omega (arith, len)),
            )

        refit-fields :
            (fields : Fields) (depth : ℕ)
            → GoodFields depth fields
            → length (print_fields digits fields) < new
            → ReadableFields heap libc point checkstack cfg digits new depth fields
        refit-fields (last_field key j) depth r h =
            let len = length-append (quoted key) (b':' ∷ print digits j) in
            ((r.0.0, omega (arith, len, length-quoted key)), refit j depth r.1 (omega (arith, len)))
        refit-fields (field key j fields) depth r h =
            let len =
              length-append (quoted key)
                (b':' ∷ (print digits j ++ (b',' ∷ print_fields digits fields))) in
            let behind = length-append (print digits j) (b',' ∷ print_fields digits fields) in
            (
              (r.0.0, omega (arith, len, length-quoted key)),
              refit j depth r.1 (omega (arith, len, behind)),
              refit-fields fields depth r.2 (omega (arith, len, behind)),
            )
