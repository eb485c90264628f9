-- ===== src/Cjson/Document.antt =====
-- JSON documents: what the encoder writes and the decoder reads. An empty object and an empty array
-- are one and the same Lua table, which is written `{}`.
pub mod Text
pub mod Tokens
pub mod Numbers
pub mod Readable
pub mod Steps
pub mod Brackets
pub mod Reading
pub mod Decoding
pub mod Writable
pub mod Tables
pub mod Pieces
pub mod Frames
pub mod Written
pub mod Distinct
pub mod Encoding
mod Tests
use luarunner.Base.{ℕ, suc, ◌+◌, Bool, List, [], ◌∷◌, ◌++◌, pos}
use luarunner.Lua.{Double, Value, Entries, rawset, integer}
use luarunner.Cjson.Quote.{quoted}

mutual
  pub data Json : Type 0 where
    null empty : Json
    boolean : Bool → Json
    number : Double → Json
    string : List ℕ → Json
    array : Items → Json
    object : Fields → Json

  pub data Items : Type 0 where
    last : Json → Items
    item : Json → Items → Items

  pub data Fields : Type 0 where
    last_field : (key : List ℕ) → Json → Fields
    field : (key : List ℕ) → Json → Fields → Fields

-- The Lua value of a document: the array `[x, y]` is a table with the keys 1 and 2.
unfoldable mutual
  pub value_of : Json → Value
  value_of null = Value.light_userdata 0
  value_of empty = Value.table Entries.end
  value_of (boolean b) = Value.boolean b
  value_of (number d) = Value.number d
  value_of (string s) = Value.string s
  value_of (array items) = Value.table (entries_from 1 items)
  value_of (object fields) = Value.table (entries_of fields)

  pub entries_from : ℕ → Items → Entries
  entries_from i (last j) = Entries.entry (Value.number (integer (pos i))) (value_of j) Entries.end
  entries_from i (item j items) =
      Entries.entry (Value.number (integer (pos i))) (value_of j) (entries_from (suc i) items)

  pub entries_of : Fields → Entries
  entries_of (last_field key j) = Entries.entry (Value.string key) (value_of j) Entries.end
  entries_of (field key j fields) =
      Entries.entry (Value.string key) (value_of j) (entries_of fields)

-- The same where each item is set in the table that the ones before it have made, so that the
-- last of several fields with one name counts.
unfoldable mutual
  pub decoded : Json → Value
  decoded null = Value.light_userdata 0
  decoded empty = Value.table Entries.end
  decoded (boolean b) = Value.boolean b
  decoded (number d) = Value.number d
  decoded (string s) = Value.string s
  decoded (array items) = Value.table (set_items 1 items Entries.end)
  decoded (object fields) = Value.table (set_fields fields Entries.end)

  pub set_items : ℕ → Items → Entries → Entries
  set_items i (last j) before = rawset (Value.number (integer (pos i))) (decoded j) before
  set_items i (item j items) before =
      set_items (suc i) items (rawset (Value.number (integer (pos i))) (decoded j) before)

  pub set_fields : Fields → Entries → Entries
  set_fields (last_field key j) before = rawset (Value.string key) (decoded j) before
  set_fields (field key j fields) before =
      set_fields fields (rawset (Value.string key) (decoded j) before)

-- The text of a document, for given texts of the numbers.
module _ (digits : Double → List ℕ) where
  unfoldable mutual
    pub print : Json → List ℕ
    print null = b'n' ∷ b'u' ∷ b'l' ∷ b'l' ∷ []
    print empty = b'{' ∷ b'}' ∷ []
    print (boolean Bool.true) = b't' ∷ b'r' ∷ b'u' ∷ b'e' ∷ []
    print (boolean Bool.false) = b'f' ∷ b'a' ∷ b'l' ∷ b's' ∷ b'e' ∷ []
    print (number d) = digits d
    print (string s) = quoted s
    print (array items) = b'[' ∷ (print_items items ++ (b']' ∷ []))
    print (object fields) = b'{' ∷ (print_fields fields ++ (b'}' ∷ []))

    pub print_items : Items → List ℕ
    print_items (last j) = print j
    print_items (item j items) = print j ++ (b',' ∷ print_items items)

    pub print_fields : Fields → List ℕ
    print_fields (last_field key j) = quoted key ++ (b':' ∷ print j)
    print_fields (field key j fields) =
        quoted key ++ (b':' ∷ (print j ++ (b',' ∷ print_fields fields)))

-- How many values a document holds, itself included.
unfoldable mutual
  pub size : Json → ℕ
  size (array items) = suc (size_items items)
  size (object fields) = suc (size_fields fields)
  size _ = 1

  pub size_items : Items → ℕ
  size_items (last j) = size j
  size_items (item j items) = size j + size_items items

  pub size_fields : Fields → ℕ
  size_fields (last_field key j) = size j
  size_fields (field key j fields) = size j + size_fields fields
