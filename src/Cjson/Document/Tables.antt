-- ===== src/Cjson/Document/Tables.antt =====
-- The table of an array document: its length and its items, as the encoder finds them.
use luarunner.Base.{
  ℕ, zero, suc, ◌+◌, ◌*◌, ◌≤◌, ◌<◌, ◌≡◌, refl, ◌∙◌, arith, true, false, ltb, ◌==◌, ok, some, none,
  int_max, pos, Bool-cases, inl, inr,
}
use luarunner.Lua.{Value, Entries, rawgeti, integer}
use luarunner.Strbuf.Growth.{int_ok}
use luarunner.Cjson.Config.{JsonConfig}
use luarunner.Cjson.Encode.{array_keys, check_sparse, lua_array_length}
use luarunner.Cjson.Document.{
  Items, last, item, Fields, last_field, field, value_of, entries_from, entries_of,
}
use luarunner.Cjson.Document.Writable.{count}

array_keys-entries_from :
    (items : Items) (i n : ℕ)
    → i + count items ≡ n
    → n ≤ int_max
    → array_keys (entries_from (suc i) items) i i ≡ ok (some (n, n))
unfolding array_keys entries_from count
array_keys-entries_from (last j) i n e h =
    let larger : ltb i (suc i) ≡ true = ground arith in
    let next : suc i ≡ n = omega (arith, e) in
    let counted : i + 1 ≡ n = omega (arith, e) in
    rw (larger, int_ok (suc i) (omega arith), int_ok (i + 1) (omega arith), next, counted) refl
array_keys-entries_from (item j items) i n e h =
    let larger : ltb i (suc i) ≡ true = ground arith in
    let counted : i + 1 ≡ suc i = omega arith in
    rw (larger, int_ok (suc i) (omega arith), int_ok (i + 1) (omega arith), counted)
      (array_keys-entries_from items (suc i) n (omega (arith, e)) h)

le_mul : (n k : ℕ) → 1 ≤ k → n ≤ n * k
le_mul n zero h = absurd (omega arith)
le_mul n (suc k) h = grind arith

module _ (cfg : JsonConfig) where
  not_sparse :
      (n : ℕ) → n * suc cfg.encode_sparse_ratio ≤ int_max → check_sparse cfg n n ≡ ok (some n)
  unfolding check_sparse
  not_sparse n h = elim (Bool-cases (cfg.encode_sparse_ratio == 0)) [
    | inl off ↦ rw off refl
    | inr on ↦
        let allowed : n * cfg.encode_sparse_ratio ≤ int_max = grind arith in
        let within : ltb (n * cfg.encode_sparse_ratio) n ≡ false =
          ground (arith, le_mul n cfg.encode_sparse_ratio (ground (arith, on))) in
        rw (on, int_ok (n * cfg.encode_sparse_ratio) allowed, within) refl
  ]

  pub lua_array_length-entries_from :
      (items : Items)
      → count items * suc cfg.encode_sparse_ratio ≤ int_max
      → lua_array_length cfg (entries_from 1 items) ≡ ok (some (count items))
  unfolding lua_array_length
  lua_array_length-entries_from items h =
      rw
        (array_keys-entries_from items 0 (count items) (omega arith)
          (omega (arith, h, le_mul (count items) (suc cfg.encode_sparse_ratio) (omega arith))))
        (not_sparse (count items) h)

  pub lua_array_length_empty : lua_array_length cfg Entries.end ≡ ok (some 0)
  unfolding lua_array_length array_keys
  lua_array_length_empty = not_sparse 0 (omega arith)

  pub lua_array_length-entries_of :
      (fields : Fields) → lua_array_length cfg (entries_of fields) ≡ ok none
  unfolding lua_array_length array_keys entries_of
  lua_array_length-entries_of (last_field key j) = refl
  lua_array_length-entries_of (field key j fields) = refl

-- From index `i` on, the table holds these items.
unfoldable pub Holds : Entries → ℕ → Items → Type 0
Holds entries i (last j) = rawgeti i entries ≡ value_of j
Holds entries i (item j items) = (rawgeti i entries ≡ value_of j) × Holds entries (suc i) items

rawgeti_skip :
    (k i : ℕ) (v : Value) (entries : Entries)
    → suc k < i
    → rawgeti i (Entries.entry (Value.number (integer (pos (suc k)))) v entries) ≡ rawgeti i entries
unfolding rawgeti
rawgeti_skip k (suc i) v entries h =
    let other : (suc k == suc i) ≡ false = ground arith in rw other refl
rawgeti_skip k zero v entries h = absurd (omega arith)

rawgeti_here :
    (i : ℕ) (v : Value) (entries : Entries)
    → rawgeti (suc i) (Entries.entry (Value.number (integer (pos (suc i)))) v entries) ≡ v
unfolding rawgeti
rawgeti_here i v entries = let same : (suc i == suc i) ≡ true = ground arith in rw same refl

Holds-skip :
    (items : Items) (k i : ℕ) (v : Value) (entries : Entries)
    → suc k < i
    → Holds entries i items
    → Holds (Entries.entry (Value.number (integer (pos (suc k)))) v entries) i items
unfolding Holds
Holds-skip (last j) k i v entries h p = rawgeti_skip k i v entries h ∙ p
Holds-skip (item j items) k i v entries h p =
    (rawgeti_skip k i v entries h ∙ p.0, Holds-skip items k (suc i) v entries (omega arith) p.1)

pub Holds-entries_from : (items : Items) (i : ℕ) → Holds (entries_from (suc i) items) (suc i) items
unfolding Holds entries_from
Holds-entries_from (last j) i = rawgeti_here i (value_of j) Entries.end
Holds-entries_from (item j items) i = (
  rawgeti_here i (value_of j) (entries_from (suc (suc i)) items),
  Holds-skip items i (suc (suc i)) (value_of j) (entries_from (suc (suc i)) items) (omega arith)
      (Holds-entries_from items (suc i)),
)
