-- ===== src/Cjson/Ends/ArrayLength.antt =====
-- What `lua_array_length` says of a table, whatever its keys, and when it says nothing.
use luarunner.Base.{
  ℕ, zero, suc, ◌+◌, ◌*◌, ◌≤◌, ◌<◌, ◌≡◌, ◌≢◌, ◌⊎◌, inl, inr, refl, sym, ◌∙◌, arith, true, false,
  ◌==◌, ◌&&◌, if◌then◌else◌, Bool-cases, ltb, leb, Option, none, some, Result, ok, die, undefined,
  spent, raise, ◌>>=◌, cannot_serialise, sparse_array, int, int_max, pos, negsuc,
}
use mathlib.Core.Path.{subst}
use luarunner.Lua.{
  nan, infinite, integer, fraction, Value, nil, boolean, number, string, light_userdata, other,
  table, Entries, end, entry,
}
use luarunner.Cjson.Config.{JsonConfig}
use luarunner.Cjson.Encode.{not_kept, array_keys, check_sparse, lua_array_length}

-- The key is `n`, an integer of at least 1.
abbrev pub IsIndex : ℕ → Value → Type 0
IsIndex n key = (key ≡ number (integer (pos n))) × (1 ≤ n)

abbrev pub IsInfinite : Value → Type 0
IsInfinite key = key ≡ number (infinite false)

-- The key is no integer of at least 1, nor infinity.
abbrev pub IsOther : Value → Type 0
IsOther key = ((n : ℕ) → ¬ IsIndex n key) × ¬ IsInfinite key

abbrev pub entry_count : Entries → ℕ
entry_count end = 0
entry_count (entry key item rest) = suc (entry_count rest)

-- Some key has `P`, and each key is an integer from 1 to `n`.
abbrev pub SomeKey : (Value → Type 0) → Entries → Type 0
SomeKey P end = ⊥
SomeKey P (entry key item rest) = P key ⊎ SomeKey P rest

abbrev pub KeysWithin : ℕ → Entries → Type 0
KeysWithin n end = Unit
KeysWithin n (entry key item rest) = ((i : ℕ) × IsIndex i key × (i ≤ n)) × KeysWithin n rest

-- `n` is the largest key, or 0 for a table without entries.
abbrev pub IsLargest : ℕ → Entries → Type 0
IsLargest n entries = KeysWithin n entries × ((n ≡ 0) ⊎ SomeKey (IsIndex n) entries)

-- A key beyond INT_MAX, which is no `int`.
abbrev pub IsBeyond : Value → Type 0
IsBeyond key = IsInfinite key ⊎ ((i : ℕ) × IsIndex i key × (int_max < i))

-- What the loop finds, from a largest key and a number of keys on.
Finds : Entries → ℕ → ℕ → Result (Option (ℕ × ℕ)) → Type 0
Finds entries max items (ok none) = SomeKey IsOther entries
Finds entries max items (ok (some (m, k))) =
    KeysWithin m entries
    × (max ≤ m)
    × ((m ≡ max) ⊎ SomeKey (IsIndex m) entries)
    × (k ≡ items + entry_count entries)
Finds entries max items undefined =
    SomeKey IsBeyond entries ⊎ (int_max < items + entry_count entries)
Finds entries max items die = ⊥
Finds entries max items spent = ⊥
Finds entries max items (raise freed e) = ⊥

-- After a first key that is counted.
counted :
    (key item : Value) (rest : Entries) (max items n larger : ℕ) (r : Result (Option (ℕ × ℕ)))
    → IsIndex n key
    → n ≤ larger
    → max ≤ larger
    → (larger ≡ max) ⊎ (larger ≡ n)
    → Finds rest larger (items + 1) r
    → Finds (entry key item rest) max items r
unfolding Finds
counted key item rest max items n larger (ok none) i h k e f = inr f
counted key item rest max items n larger (ok (some (m, c))) i h k e f = (
  ((n, i, omega (arith, f.1, h)), f.0),
  omega (arith, f.1, k),
  attained e f.2,
  omega (arith, f.3),
)
  where
    attained :
        (larger ≡ max) ⊎ (larger ≡ n)
        → (m ≡ larger) ⊎ SomeKey (IsIndex m) rest
        → (m ≡ max) ⊎ (IsIndex m key ⊎ SomeKey (IsIndex m) rest)
    attained (inl p) (inl q) = inl (q ∙ p)
    attained (inr p) (inl q) = inr (inl (subst (λ j. IsIndex j key) (sym (q ∙ p)) i))
    attained p (inr q) = inr (inr q)
counted key item rest max items n larger undefined i h k e (inl b) = inl (inr b)
counted key item rest max items n larger undefined i h k e (inr over) = inr (omega (arith, over))
counted key item rest max items n larger die i h k e f = f
counted key item rest max items n larger spent i h k e f = f
counted key item rest max items n larger (raise freed x) i h k e f = f

int_cases : (n : ℕ) → ((n ≤ int_max) × (int n ≡ ok n)) ⊎ ((int_max < n) × (int n ≡ undefined))
int_cases n = elim (Bool-cases (leb n int_max)) [
  | inl small ↦ inl (ground (arith, small), rw small refl)
  | inr large ↦ inr (ground (arith, large), rw large refl)
]

-- A key that is an integer of at least 1.
index-Finds :
    (key item : Value) (rest : Entries) (max items n : ℕ)
    → IsIndex n key
    → ((max items : ℕ) → Finds rest max items (array_keys rest max items))
    → Finds (entry key item rest) max items (
        (if ltb max n then int n else ok max) >>= λ larger.
        int (items + 1) >>= λ count. array_keys rest larger count)
unfolding Finds
index-Finds key item rest max items n i others = elim (Bool-cases (ltb max n)) [
  | inl more ↦ elim (int_cases n) [
    | inl fits ↦ rw (more, fits.1) (from n (omega arith) (ground (arith, more)) (inr refl))
    | inr large ↦ rw (more, large.1) (inl (inl (inr (n, i, large.0))))
  ]
  | inr less ↦ rw less (from max (ground (arith, less)) (omega arith) (inl refl))
]
  where
    from :
        (larger : ℕ)
        → n ≤ larger
        → max ≤ larger
        → (larger ≡ max) ⊎ (larger ≡ n)
        → Finds
            (entry key item rest)
            max
            items
            (int (items + 1) >>= λ count. array_keys rest larger count)
    from larger h k e = elim (int_cases (items + 1)) [
      | inl fits ↦ rw (fits.1) (
          counted key item rest max items n larger (array_keys rest larger (items + 1)) i h k e
            (others larger (items + 1)))
      | inr large ↦ rw (large.1) (inr (omega (arith, large.0)))
    ]

not_zero : (n : ℕ) → number (integer (pos 0)) ≡ number (integer (pos n)) → ¬ (1 ≤ n)
not_zero n e h = let z : 0 ≡ n = cc in omega (arith, z, h)

array_keys_lem :
    (entries : Entries) (max items : ℕ) → Finds entries max items (array_keys entries max items)
unfolding array_keys Finds
array_keys_lem end max items = (tt, omega arith, inl refl, omega arith)
array_keys_lem (entry (number (integer (pos (suc n)))) item rest) max items =
    index-Finds (number (integer (pos (suc n)))) item rest max items (suc n) (refl, omega arith)
      (array_keys_lem rest)
array_keys_lem (entry (number (infinite false)) item rest) max items = inl (inl (inl refl))
array_keys_lem (entry (number (infinite true)) item rest) max items = inl ((λ n i. cc), λ i. cc)
array_keys_lem (entry (number nan) item rest) max items = inl ((λ n i. cc), λ i. cc)
array_keys_lem (entry (number (fraction bits)) item rest) max items = inl ((λ n i. cc), λ i. cc)
array_keys_lem (entry (number (integer (negsuc n))) item rest) max items =
    inl ((λ n i. cc), λ i. cc)
array_keys_lem (entry (number (integer (pos zero))) item rest) max items =
    inl ((λ n i. not_zero n i.0 i.1), λ i. cc)
array_keys_lem (entry nil item rest) max items = inl ((λ n i. cc), λ i. cc)
array_keys_lem (entry (boolean b) item rest) max items = inl ((λ n i. cc), λ i. cc)
array_keys_lem (entry (string s) item rest) max items = inl ((λ n i. cc), λ i. cc)
array_keys_lem (entry (light_userdata p) item rest) max items = inl ((λ n i. cc), λ i. cc)
array_keys_lem (entry other item rest) max items = inl ((λ n i. cc), λ i. cc)
array_keys_lem (entry (table t) item rest) max items = inl ((λ n i. cc), λ i. cc)

module _ (cfg : JsonConfig) where
  -- The test for sparse arrays is on, and `n` is more than the safe length and than `items` times the
  -- ratio.
  abbrev pub IsSparse : ℕ → ℕ → Type 0
  IsSparse n items =
      (cfg.encode_sparse_ratio ≢ 0)
      × (items * cfg.encode_sparse_ratio < n)
      × (cfg.encode_sparse_safe < n)

  abbrev pub IsSparseArray : Entries → Type 0
  IsSparseArray entries = (n : ℕ) × IsLargest n entries × IsSparse n (entry_count entries)

  -- What each result says of the table; the process does not end, and no loop runs on.
  abbrev pub Decides : Entries → Result (Option ℕ) → Type 0
  Decides entries (ok none) =
      SomeKey IsOther entries ⊎ (IsSparseArray entries × (cfg.encode_sparse_convert ≢ 0))
  Decides entries (ok (some n)) = IsLargest n entries × ¬ IsSparse n (entry_count entries)
  Decides entries (raise freed e) =
      IsSparseArray entries
      × (cfg.encode_sparse_convert ≡ 0)
      × (freed ≡ not_kept cfg)
      × (e ≡ cannot_serialise sparse_array)
  Decides entries undefined =
      SomeKey IsBeyond entries
      ⊎ ((int_max < entry_count entries)
          ⊎ (int_max < entry_count entries * cfg.encode_sparse_ratio))
  Decides entries die = ⊥
  Decides entries spent = ⊥

  check_sparse_lem :
      (entries : Entries) (n : ℕ)
      → IsLargest n entries
      → Decides entries (check_sparse cfg n (entry_count entries))
  unfolding check_sparse
  check_sparse_lem entries n l = elim (Bool-cases (cfg.encode_sparse_ratio == 0)) [
    | inl off ↦ rw off (l, λ s. s.0 (ground (arith, off)))
    | inr on ↦ elim (int_cases (entry_count entries * cfg.encode_sparse_ratio)) [
      | inl fits ↦
          rw (on, fits.1)
            (elim (Bool-cases (
              ltb (entry_count entries * cfg.encode_sparse_ratio) n
              && ltb cfg.encode_sparse_safe n)) [
                | inl sparse ↦
                    let is : IsSparse n (entry_count entries) = (
                      (λ e. ground (arith, on, e)),
                      ground (arith, sparse),
                      ground (arith, sparse),
                    ) in
                    rw sparse (elim (Bool-cases (cfg.encode_sparse_convert == 0)) [
                      | inl refuse ↦ rw refuse ((n, l, is), ground (arith, refuse), refl, refl)
                      | inr convert ↦ rw convert (inr ((n, l, is), λ e. ground (arith, convert, e)))
                    ])
                | inr dense ↦ rw dense (
                  l,
                  λ s.
                      both (entry_count entries * cfg.encode_sparse_ratio) n cfg.encode_sparse_safe
                        dense s.1 s.2,
                )
              ])
      | inr large ↦ rw (on, large.1) (inr (inr large.0))
    ]
  ]
    where
      both : (a n safe : ℕ) → (ltb a n && ltb safe n) ≡ false → a < n → ¬ (safe < n)
      both a n safe h p q = ground (arith, h, p, q)

  zero_add : (k : ℕ) → 0 + k ≡ k
  zero_add k = omega arith

  decided :
      (entries : Entries) (r : Result (Option (ℕ × ℕ)))
      → Finds entries 0 0 r
      → Decides entries (
          r >>= λ keys. elim keys [
            | none ↦ ok none
            | some (max, items) ↦ check_sparse cfg max items
          ])
  unfolding Finds
  decided entries (ok none) f = inl f
  decided entries (ok (some (n, items))) f =
      subst (λ k. Decides entries (check_sparse cfg n k))
        (sym (f.3 ∙ zero_add (entry_count entries))) (check_sparse_lem entries n (f.0, f.2))
  decided entries undefined (inl b) = inl b
  decided entries undefined (inr over) = inr (inl (omega (arith, over)))
  decided entries die f = f
  decided entries spent f = f
  decided entries (raise freed e) f = absurd f

  -- `lua_array_length` ends on every table, and does one of these: it gives a length, and then every
  -- key is an integer of at least 1, the length is the largest key, 0 for a table without entries,
  -- and the table is not too sparse; it gives -1, and then some key is neither such an integer nor
  -- infinity, or the table is too sparse and such tables are converted; it raises an error, and
  -- then the table is too sparse and such tables are not converted, and the buffer was freed unless
  -- it is kept; or it is undefined, and then there is a key beyond INT_MAX, such as infinity, or
  -- the number of entries, or this number times the ratio, is beyond it.
  pub lua_array_length_lem : (entries : Entries) → Decides entries (lua_array_length cfg entries)
  unfolding lua_array_length
  lua_array_length_lem entries =
      decided entries (array_keys entries 0 0) (array_keys_lem entries 0 0)
