-- ===== src/Lua.antt =====
-- Lua's values and numbers, as far as the C code tells them apart.
use luarunner.Base.{
  ℕ, zero, suc, ◌==◌, Bool, true, false, ◌&&◌, Option, none, some, List, [], ◌∷◌, ℤ, pos,
  if◌then◌else◌,
}

-- A `double`. `fraction` numbers the finite values that are no integers, and -0, by their bits.
pub data Double : Type 0 where
  nan : Double
  infinite : (negative : Bool) → Double
  integer : ℤ → Double
  fraction : ℕ → Double

-- The value of an integer of at least 1: `floor(k) == k && k >= 1`.
abbrev pub positive : Double → Option ℕ
positive (integer (pos zero)) = none
positive (integer (pos (suc n))) = some (suc n)
positive _ = none

-- `light_userdata` holds a pointer, 0 for NULL. `other` is a function, a userdata or a thread. The
-- entries of a table stand in the order in which `lua_next` goes through them.
mutual
  pub data Value : Type 0 where
    nil : Value
    boolean : Bool → Value
    number : Double → Value
    string : List ℕ → Value
    light_userdata : ℕ → Value
    other : Value
    table : Entries → Value

  pub data Entries : Type 0 where
    end : Entries
    entry : (key item : Value) → Entries → Entries

abbrev pub bytes_eq : List ℕ → List ℕ → Bool
bytes_eq [] [] = true
bytes_eq [] (y ∷ ys) = false
bytes_eq (x ∷ xs) [] = false
bytes_eq (x ∷ xs) (y ∷ ys) = (x == y) && bytes_eq xs ys

-- Whether two keys are the same; keys are compared where they are strings or positive integers.
abbrev pub same_number : Option ℕ → Option ℕ → Bool
same_number (some i) (some k) = i == k
same_number (some i) none = false
same_number none k = false

abbrev pub same_key : Value → Value → Bool
same_key (string s) (string t) = bytes_eq s t
same_key (number d) (number e) = same_number (positive d) (positive e)
same_key _ _ = false

-- `lua_rawset` and `lua_rawseti`: a new key comes last.
unfoldable pub rawset : Value → Value → Entries → Entries
rawset key item end = entry key item end
rawset key item (entry k v rest) =
    if same_key k key then entry k item rest else entry k v (rawset key item rest)

-- `lua_rawgeti`.
unfoldable pub rawgeti : ℕ → Entries → Value
rawgeti i end = nil
rawgeti i (entry k v rest) = if same_key k (number (integer (pos i))) then v else rawgeti i rest
