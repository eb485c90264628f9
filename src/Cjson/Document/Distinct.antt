-- ===== src/Cjson/Document/Distinct.antt =====
-- Documents whose fields have different names are decoded to the value that they stand for.
use luarunner.Base.{ℕ, suc, ◌≤◌, ◌<◌, ◌≡◌, refl, ◌∙◌, ap, arith, false, ◌==◌, List, pos}
use luarunner.Lua.{Value, Entries, end, entry, rawset, same_key, bytes_eq, integer}
use luarunner.Cjson.Document.{
  Json, null, empty, boolean, number, string, array, object, Items, last, item, Fields, last_field,
  field, value_of, entries_from, entries_of, decoded, set_items, set_fields,
}

-- The name is none of those of the fields.
unfoldable pub Fresh : List ℕ → Fields → Type 0
Fresh name (last_field key j) = bytes_eq name key ≡ false
Fresh name (field key j fields) = (bytes_eq name key ≡ false) × Fresh name fields

-- No object in the document has two fields of one name.
unfoldable mutual
  pub Distinct : Json → Type 0
  Distinct (array items) = DistinctItems items
  Distinct (object fields) = DistinctFields fields
  Distinct _ = Unit

  pub DistinctItems : Items → Type 0
  DistinctItems (last j) = Distinct j
  DistinctItems (item j items) = Distinct j × DistinctItems items

  pub DistinctFields : Fields → Type 0
  DistinctFields (last_field key j) = Distinct j
  DistinctFields (field key j fields) = Fresh key fields × Distinct j × DistinctFields fields

abbrev joined : Entries → Entries → Entries
joined end others = others
joined (entry key v rest) others = entry key v (joined rest others)

joined_assoc :
    (before : Entries) (key v : Value) (others : Entries)
    → joined (joined before (entry key v end)) others ≡ joined before (entry key v others)
joined_assoc end key v others = refl
joined_assoc (entry k w rest) key v others = ap (entry k w) (joined_assoc rest key v others)

-- The table has no entry for the key.
abbrev Unset : Value → Entries → Type 0
Unset key end = Unit
Unset key (entry k v rest) = (same_key k key ≡ false) × Unset key rest

rawset_new :
    (key v : Value) (before : Entries)
    → Unset key before
    → rawset key v before ≡ joined before (entry key v end)
unfolding rawset
rawset_new key v end h = refl
rawset_new key v (entry k w rest) h = rw h.0 (ap (entry k w) (rawset_new key v rest h.1))

Unset-joined :
    (key k v : Value) (before : Entries)
    → Unset key before
    → same_key k key ≡ false
    → Unset key (joined before (entry k v end))
Unset-joined key k v end h other = (other, tt)
Unset-joined key k v (entry l w rest) h other = (h.0, Unset-joined key k v rest h.1 other)

abbrev index : ℕ → Value
index i = Value.number (integer (pos i))

-- None of the names is in the table.
abbrev UnsetFields : Fields → Entries → Type 0
UnsetFields (last_field key j) before = Unset (Value.string key) before
UnsetFields (field key j fields) before =
    Unset (Value.string key) before × UnsetFields fields before

UnsetFields-joined :
    (fields : Fields) (name : List ℕ) (v : Value) (before : Entries)
    → Fresh name fields
    → UnsetFields fields before
    → UnsetFields fields (joined before (entry (Value.string name) v end))
unfolding Fresh
UnsetFields-joined (last_field key j) name v before fresh h =
    Unset-joined (Value.string key) (Value.string name) v before h fresh
UnsetFields-joined (field key j fields) name v before fresh h = (
  Unset-joined (Value.string key) (Value.string name) v before h.0 fresh.0,
  UnsetFields-joined fields name v before fresh.1 h.1,
)

UnsetFields-end : (fields : Fields) → UnsetFields fields end
UnsetFields-end (last_field key j) = tt
UnsetFields-end (field key j fields) = (tt, UnsetFields-end fields)

Unset-later :
    (i m : ℕ) (v : Value) (before : Entries)
    → i < m
    → Unset (index (suc m)) before
    → Unset (index (suc m)) (joined before (entry (index (suc i)) v end))
Unset-later i m v before h unset =
    Unset-joined (index (suc m)) (index (suc i)) v before unset
      (let other : (suc i == suc m) ≡ false = ground arith in other)

mutual
  unfolding decoded value_of Distinct

  -- The decoded value of a document without two fields of one name in one object is the value
  -- that it stands for.
  pub decoded-value_of : (j : Json) → Distinct j → decoded j ≡ value_of j
  decoded-value_of null d = refl
  decoded-value_of empty d = refl
  decoded-value_of (boolean b) d = refl
  decoded-value_of (number x) d = refl
  decoded-value_of (string s) d = refl
  decoded-value_of (array items) d = ap Value.table (set_items-entries_from items 0 end d λ m h. tt)
  decoded-value_of (object fields) d =
      ap Value.table (set_fields-entries_of fields end d (UnsetFields-end fields))

  set_items-entries_from :
      (items : Items) (i : ℕ) (before : Entries)
      → DistinctItems items
      → ((m : ℕ) → i ≤ m → Unset (index (suc m)) before)
      → set_items (suc i) items before ≡ joined before (entries_from (suc i) items)
  set_items-entries_from (last j) i before d unset =
      ap (λ v. rawset (index (suc i)) v before) (decoded-value_of j d)
      ∙ rawset_new (index (suc i)) (value_of j) before (unset i (omega arith))
  set_items-entries_from (item j items) i before d unset =
      ap (λ v. set_items (suc (suc i)) items (rawset (index (suc i)) v before))
        (decoded-value_of j d.0)
      ∙ ap (set_items (suc (suc i)) items)
          (rawset_new (index (suc i)) (value_of j) before (unset i (omega arith)))
      ∙ set_items-entries_from items (suc i)
          (joined before (entry (index (suc i)) (value_of j) end)) d.1
          (λ m h. Unset-later i m (value_of j) before (omega arith) (unset m (omega arith)))
      ∙ joined_assoc before (index (suc i)) (value_of j) (entries_from (suc (suc i)) items)

  set_fields-entries_of :
      (fields : Fields) (before : Entries)
      → DistinctFields fields
      → UnsetFields fields before
      → set_fields fields before ≡ joined before (entries_of fields)
  set_fields-entries_of (last_field key j) before d unset =
      ap (λ v. rawset (Value.string key) v before) (decoded-value_of j d)
      ∙ rawset_new (Value.string key) (value_of j) before unset
  set_fields-entries_of (field key j fields) before d unset =
      ap (λ v. set_fields fields (rawset (Value.string key) v before)) (decoded-value_of j d.1)
      ∙ ap (set_fields fields) (rawset_new (Value.string key) (value_of j) before unset.0)
      ∙ set_fields-entries_of fields (joined before (entry (Value.string key) (value_of j) end)) d.2
          (UnsetFields-joined fields key (value_of j) before d.0 unset.1)
      ∙ joined_assoc before (Value.string key) (value_of j) (entries_of fields)
