-- ===== src/Yyjson.antt =====
-- lua_yyjson.c: JSON documents of the yyjson library as values of Lua. The library is a parameter,
-- a record of the functions that the code calls; `Memory` is what they change.
pub mod Nodes
pub mod Values
pub mod Ownership
pub mod Quiet
pub mod Parts
pub mod Stored
pub mod World
pub mod Grows
pub mod Lifetime
pub mod Reached
pub mod Contents
pub mod ReadBack
pub mod RoundTrip
mod Samples
mod Cells
use luarunner.Base.{ℕ, ◌≡◌, Bool, List, Option, ◌⊎◌, ℤ}
use luarunner.Lua.{Double}

-- `yyjson_type`; `none` is also the type of NULL.
pub data YyjsonType : Type 0 where
  none raw null bool num str arr obj : YyjsonType

-- The functions with which a value is read, of a document that cannot change or of one that can.
-- `get_str` gives the bytes of the string, without the NUL behind them.
pub record Reader (Memory Val : Type 0) : Type 0 where
  pub get_type : Memory → Val → YyjsonType
  pub obj_get : Memory → Val → List ℕ → Option Val
  pub arr_get : Memory → Val → ℕ → Option Val
  pub get_str : Memory → Val → List ℕ
  pub get_bool : Memory → Val → Bool
  pub get_num : Memory → Val → Double

pub record Yyjson : Type 1 where
  pub Memory : Type 0
  pub Doc : Type 0
  pub Val : Type 0
  pub MutDoc : Type 0
  pub MutVal : Type 0
  pub fixed : Reader Memory Val
  pub mut : Reader Memory MutVal
  -- An error is its position and its message.
  pub read_opts : List ℕ → Memory → ((ℕ × List ℕ) ⊎ Doc) × Memory
  pub doc_get_root : Memory → Doc → Val
  pub doc_free : Doc → Memory → Memory
  pub doc_mut_copy : Doc → Memory → MutDoc × Memory
  pub mut_doc_new : Memory → MutDoc × Memory
  pub mut_doc_set_root : MutDoc → MutVal → Memory → Memory
  pub mut_doc_get_root : Memory → MutDoc → MutVal
  pub mut_doc_free : MutDoc → Memory → Memory
  pub mut_obj : MutDoc → Memory → MutVal × Memory
  pub mut_null : MutDoc → Memory → MutVal × Memory
  pub mut_bool : MutDoc → Bool → Memory → MutVal × Memory
  pub mut_int : MutDoc → ℤ → Memory → MutVal × Memory
  pub mut_real : MutDoc → Double → Memory → MutVal × Memory
  pub mut_strncpy : MutDoc → List ℕ → Memory → MutVal × Memory
  pub mut_val_mut_copy : MutDoc → MutVal → Memory → MutVal × Memory
  -- Those with which an object or an array is changed; what they return is not looked at.
  pub mut_obj_add : MutVal → Option MutVal → Option MutVal → Memory → Memory
  pub mut_obj_put : MutVal → MutVal → MutVal → Memory → Memory
  pub mut_obj_remove_keyn : MutVal → List ℕ → Memory → Memory
  pub mut_arr_insert : MutVal → MutVal → ℕ → Memory → Memory
  pub mut_arr_remove : MutVal → ℕ → Memory → Memory
  pub mut_val_write : Memory → MutVal → List ℕ
