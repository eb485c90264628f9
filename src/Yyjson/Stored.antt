-- ===== src/Yyjson/Stored.antt =====
-- lua_yyjson.c: storing and writing a value neither makes nor frees a document.
use luarunner.Base.{
  Bool, true, false, ◌==◌, if◌then◌else◌, Option, none, some, ℤ, pos, refl, undefined,
  invalid_value,
}
use luarunner.Lua.{Double, nan, infinite, integer, fraction}
use luarunner.Yyjson.{YyjsonType, Yyjson}
use luarunner.Yyjson.Nodes.{
  MutNode, Arg, nil, other, foreign, boolean, number, string, light_userdata, node, mut_node, table,
  Entries, end, entry, Checks, Action, bind, pure, run, fails, change, gets, check_mut_node,
  put_member, remove_member, lua_yyjson_write_mut, to_size,
}
use luarunner.Yyjson.Values.{
  to_int64, int_val, number_val, minus_zero, is_null, scalar_val, with_object, is_table, key_val,
  add_entries, lua_yyjson_val, store, lua_yyjson_newindex_mut,
}
use luarunner.Yyjson.Ownership.{owns, Lifetimes, IsQuiet, Anything, Same-refl, IsQuiet-bind}
use luarunner.Yyjson.Quiet

module _ (y : Yyjson) (l : Lifetimes y) where
  open y use {Memory, MutDoc, MutVal}

  Still : {A : Type 0} → Action y A → Type 0
  Still = Quiet.Calm y l

  Still-if :
      {A : Type 0} (b : Bool) (f g : Action y A) → Still f → Still g → Still (if b then f else g)
  unfolding Still
  Still-if true f g p q = p
  Still-if false f g p q = q

  Still-int_val : (doc : MutDoc) (o : Option ℤ) → Still (int_val y doc o)
  unfolding int_val Still
  Still-int_val doc none = λ mem. tt
  Still-int_val doc (some i) = Quiet.Calm-run y l (y.mut_int doc i) (l.int doc i)

  Still-number_val : (doc : MutDoc) (d : Double) → Still (number_val y doc d)
  unfolding number_val Still
  Still-number_val doc nan = λ mem. tt
  Still-number_val doc (infinite negative) = λ mem. tt
  Still-number_val doc (integer n) = Still-int_val doc (to_int64 n)
  Still-number_val doc (fraction bits) =
      Still-if (bits == minus_zero) (int_val y doc (some (pos 0)))
        (run y (y.mut_real doc (fraction bits))) (Still-int_val doc (some (pos 0)))
        (Quiet.Calm-run y l (y.mut_real doc (fraction bits)) (l.real doc (fraction bits)))

  Still-scalar_val : (doc : MutDoc) (third a : Arg y) → Still (scalar_val y doc third a)
  unfolding scalar_val Still Still-if
  Still-scalar_val doc third nil = Quiet.Calm-pure y l {A = Option MutVal} none
  Still-scalar_val doc third (boolean b) = Quiet.Calm-made y l (y.mut_bool doc b) (l.bool doc b)
  Still-scalar_val doc third (number d) =
      Quiet.Calm-bind y l {B = Option MutVal} (number_val y doc d) (λ v. pure y (some v))
        (Still-number_val doc d) λ v. Quiet.Calm-pure y l (some v)
  Still-scalar_val doc third (string s) = Quiet.Calm-made y l (y.mut_strncpy doc s) (l.text doc s)
  Still-scalar_val doc third (mut_node n) =
      Quiet.Calm-made y l (y.mut_val_mut_copy doc n.mut_root) (l.val_copied doc n.mut_root)
  Still-scalar_val doc third (light_userdata p) = by_null (is_null y third)
    where
      by_null :
          (b : Bool)
          → Still (
              if b
              then bind y (run y (y.mut_null doc)) (λ v. pure y (some v))
              else fails y invalid_value)
      by_null true = Quiet.Calm-made y l (y.mut_null doc) (l.null doc)
      by_null false = Same-refl y l
  Still-scalar_val doc third (node n) = Same-refl y l
  Still-scalar_val doc third foreign = Same-refl y l
  Still-scalar_val doc third other = Same-refl y l
  Still-scalar_val doc third (table entries) = Same-refl y l

  Still-with_object :
      (doc : MutDoc) (fill : MutVal → Action y (Unit {0}))
      → ((o : MutVal) → Still (fill o))
      → Still (with_object y doc fill)
  unfolding with_object Still
  Still-with_object doc fill h =
      Quiet.Calm-bind y l (run y (y.mut_obj doc))
        (λ newval. bind y (fill newval) λ u. pure y (some newval))
        (Quiet.Calm-run y l (y.mut_obj doc) (l.obj doc))
        λ newval.
          Quiet.Calm-bind y l (fill newval) (λ u. pure y (some newval)) (h newval)
            λ u. Quiet.Calm-pure y l (some newval)

  Still-key_val :
      (doc : MutDoc) (third key item : Arg y) (value : Action y (Option MutVal))
      → Still value
      → Still (key_val y doc third key item value)
  unfolding key_val Still
  Still-key_val doc third key item value h =
      Still-if (is_table y key) (if is_table y item then value else λ mem. (undefined, mem))
        (scalar_val y doc third key)
        (Still-if (is_table y item) value (λ mem. (undefined, mem)) h λ mem. tt)
        (Still-scalar_val doc third key)

  mutual
    unfolding lua_yyjson_val add_entries Still

    Still-val : (doc : MutDoc) (third a : Arg y) → Still (lua_yyjson_val y doc third a)
    Still-val doc third (table entries) =
        Still-with_object doc (λ o. add_entries y doc third o entries)
          λ o. Still-entries doc third o entries
    Still-val doc third nil = Still-scalar_val doc third nil
    Still-val doc third other = Still-scalar_val doc third other
    Still-val doc third foreign = Still-scalar_val doc third foreign
    Still-val doc third (boolean b) = Still-scalar_val doc third (boolean b)
    Still-val doc third (number d) = Still-scalar_val doc third (number d)
    Still-val doc third (string s) = Still-scalar_val doc third (string s)
    Still-val doc third (light_userdata p) = Still-scalar_val doc third (light_userdata p)
    Still-val doc third (node n) = Still-scalar_val doc third (node n)
    Still-val doc third (mut_node n) = Still-scalar_val doc third (mut_node n)

    Still-entries :
        (doc : MutDoc) (third : Arg y) (o : MutVal) (entries : Entries y)
        → Still (add_entries y doc third o entries)
    Still-entries doc third o end = Quiet.Calm-pure y l tt
    Still-entries doc third o (entry key item rest) =
        Quiet.Calm-bind y l (key_val y doc third key item (lua_yyjson_val y doc third item))
          (λ k.
            bind y (lua_yyjson_val y doc third item)
              λ v. bind y (change y (y.mut_obj_add o k v)) λ u. add_entries y doc third o rest)
          (Still-key_val doc third key item (lua_yyjson_val y doc third item)
            (Still-val doc third item))
          λ k.
            Quiet.Calm-bind y l (lua_yyjson_val y doc third item)
              (λ v. bind y (change y (y.mut_obj_add o k v)) λ u. add_entries y doc third o rest)
              (Still-val doc third item)
              λ v.
                Quiet.Calm-bind y l (change y (y.mut_obj_add o k v))
                  (λ u. add_entries y doc third o rest)
                  (Quiet.Calm-change y l (y.mut_obj_add o k v) (l.added o k v))
                  λ u. Still-entries doc third o rest

  module _ (lua : Checks y) where
    Still-put_member :
        (n : MutNode y) (t : YyjsonType) (key : Arg y) (v : MutVal)
        → Still (put_member y lua n t key v)
    unfolding put_member Still
    Still-put_member n YyjsonType.obj key v =
        Quiet.Calm-string y l lua key
          (λ name.
            bind y (run y (y.mut_strncpy n.mut_doc name))
              λ k. change y (y.mut_obj_put n.mut_root k v))
          λ name.
            Quiet.Calm-bind y l (run y (y.mut_strncpy n.mut_doc name))
              (λ k. change y (y.mut_obj_put n.mut_root k v))
              (Quiet.Calm-run y l (y.mut_strncpy n.mut_doc name) (l.text n.mut_doc name))
              λ k. Quiet.Calm-change y l (y.mut_obj_put n.mut_root k v) (l.put n.mut_root k v)
    Still-put_member n YyjsonType.arr key v =
        Quiet.Calm-int y l lua key
          (λ i.
            bind y (change y (y.mut_arr_remove n.mut_root (to_size i)))
              λ u. change y (y.mut_arr_insert n.mut_root v (to_size i)))
          λ i.
            Quiet.Calm-bind y l (change y (y.mut_arr_remove n.mut_root (to_size i)))
              (λ u. change y (y.mut_arr_insert n.mut_root v (to_size i)))
              (Quiet.Calm-change y l (y.mut_arr_remove n.mut_root (to_size i))
                (l.removed n.mut_root (to_size i)))
              λ u.
                Quiet.Calm-change y l (y.mut_arr_insert n.mut_root v (to_size i))
                  (l.inserted n.mut_root v (to_size i))
    Still-put_member n YyjsonType.none key v = Same-refl y l
    Still-put_member n YyjsonType.raw key v = Same-refl y l
    Still-put_member n YyjsonType.null key v = Same-refl y l
    Still-put_member n YyjsonType.bool key v = Same-refl y l
    Still-put_member n YyjsonType.num key v = Same-refl y l
    Still-put_member n YyjsonType.str key v = Same-refl y l

    Still-remove_member :
        (n : MutNode y) (t : YyjsonType) (key : Arg y) → Still (remove_member y lua n t key)
    unfolding remove_member Still
    Still-remove_member n YyjsonType.obj key =
        Quiet.Calm-string y l lua key (λ name. change y (y.mut_obj_remove_keyn n.mut_root name))
          λ name.
            Quiet.Calm-change y l (y.mut_obj_remove_keyn n.mut_root name)
              (l.key_removed n.mut_root name)
    Still-remove_member n YyjsonType.arr key =
        Quiet.Calm-int y l lua key (λ i. change y (y.mut_arr_remove n.mut_root (to_size i)))
          λ i.
            Quiet.Calm-change y l (y.mut_arr_remove n.mut_root (to_size i))
              (l.removed n.mut_root (to_size i))
    Still-remove_member n YyjsonType.none key = Same-refl y l
    Still-remove_member n YyjsonType.raw key = Same-refl y l
    Still-remove_member n YyjsonType.null key = Same-refl y l
    Still-remove_member n YyjsonType.bool key = Same-refl y l
    Still-remove_member n YyjsonType.num key = Same-refl y l
    Still-remove_member n YyjsonType.str key = Same-refl y l

    Still-store :
        (n : MutNode y) (t : YyjsonType) (key : Arg y) (o : Option MutVal)
        → Still (store y lua n t key o)
    unfolding store
    Still-store n t key none = Still-remove_member n t key
    Still-store n t key (some v) = Still-put_member n t key v

    pub newindex_mut-IsQuiet :
        (self key item : Arg y)
        → IsQuiet y l (Anything y l) (lua_yyjson_newindex_mut y lua self key item)
    unfolding lua_yyjson_newindex_mut Still
    newindex_mut-IsQuiet self key item =
        Quiet.Calm-bind y l (check_mut_node y self)
          (λ n.
            bind y (gets y (λ mem. y.mut.get_type mem n.mut_root))
              λ t. bind y (lua_yyjson_val y n.mut_doc item item) λ o. store y lua n t key o)
          (Quiet.Calm-check_mut_node y l self)
          λ n.
            Quiet.Calm-bind y l (gets y (λ mem. y.mut.get_type mem n.mut_root))
              (λ t. bind y (lua_yyjson_val y n.mut_doc item item) λ o. store y lua n t key o)
              (Quiet.Calm-gets y l λ mem. y.mut.get_type mem n.mut_root)
              λ t.
                Quiet.Calm-bind y l (lua_yyjson_val y n.mut_doc item item)
                  (λ o. store y lua n t key o) (Still-val n.mut_doc item item)
                  λ o. Still-store n t key o

  pub write_mut-IsQuiet :
      (self : Arg y) → IsQuiet y l (Quiet.OwnsNone y l) (lua_yyjson_write_mut y self)
  unfolding lua_yyjson_write_mut owns
  write_mut-IsQuiet self =
      IsQuiet-bind y l (Anything y l) (Quiet.OwnsNone y l) (check_mut_node y self)
        (λ n. bind y (gets y (λ mem. y.mut_val_write mem n.mut_root)) λ json. pure y (string json))
        (Quiet.Calm-check_mut_node y l self)
        λ n u.
          IsQuiet-bind y l (Anything y l) (Quiet.OwnsNone y l)
            (gets y (λ mem. y.mut_val_write mem n.mut_root)) (λ json. pure y (string json))
            (Quiet.Calm-gets y l λ mem. y.mut_val_write mem n.mut_root)
            λ json u mem. (refl, Same-refl y l mem)
