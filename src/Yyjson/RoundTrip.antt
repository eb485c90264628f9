-- ===== src/Yyjson/RoundTrip.antt =====
-- lua_yyjson.c: storing a member of an object and reading it.
use luarunner.Base.{ℕ, ◌≡◌, refl, ◌∙◌, ap, List, Option, none, some, ok}
use luarunner.Yyjson.{YyjsonType, Yyjson}
use luarunner.Yyjson.Nodes.{
  checked, gets, change, member, member_of, put_member, remove_member, lua_yyjson_index_mut,
  MutNode, Arg, nil, other, foreign, boolean, number, string, light_userdata, node, mut_node, table,
  Checks, c_string, push_val, mut_part_of,
}
use luarunner.Yyjson.Values.{scalar_val, lua_yyjson_val, store, lua_yyjson_newindex_mut}
use luarunner.Yyjson.Contents.{Contents, Kept-trans}
use luarunner.Yyjson.ReadBack.{IsScalar, read_back, ReadAs, Makes, bind-pair, scalar-Makes}

module _ (y : Yyjson) (c : Contents y) where
  open y use {Memory, MutVal, mut}
  open c use {IsVal}

  module _ (lua : Checks y) (n : MutNode y) (key : Arg y) (name : List ℕ)
      (is_name : lua.check_string key ≡ some name) (no_nul : c_string name ≡ name) where
    -- What is found at the key is what is pushed.
    ReadsBack : Arg y → Memory → Type 0
    ReadsBack item mem =
        (mem' : Memory) × (lua_yyjson_newindex_mut y lua (mut_node n) key item mem ≡ (ok tt, mem'))
        × (lua_yyjson_index_mut y lua (mut_node n) key mem' ≡ (ok (read_back y item), mem'))

    named : (mem : Memory) → checked y (lua.check_string key) mem ≡ (ok name, mem)
    named mem = rw is_name refl

    member_found :
        (mem : Memory) (o : Option MutVal)
        → mut.get_type mem n.mut_root ≡ YyjsonType.obj
        → mut.obj_get mem n.mut_root name ≡ o
        → member y lua mut n.mut_root key mem ≡ (ok o, mem)
    unfolding member member_of
    member_found mem o t e =
        ap (λ t. member_of y lua mut n.mut_root key t mem) t
        ∙ bind-pair y c (checked y (lua.check_string key))
            (λ name. gets y (λ mem. mut.obj_get mem n.mut_root (c_string name))) mem name mem
            (named mem)
        ∙ ap (λ o. (ok o, mem)) (ap (mut.obj_get mem n.mut_root) no_nul ∙ e)

    found :
        (mem : Memory) (o : Option MutVal)
        → mut.get_type mem n.mut_root ≡ YyjsonType.obj
        → mut.obj_get mem n.mut_root name ≡ o
        → lua_yyjson_index_mut y lua (mut_node n) key mem
          ≡ (ok (push_val y mut (mut_part_of y n) key o mem), mem)
    unfolding lua_yyjson_index_mut
    found mem o t e =
        bind-pair y c (member y lua mut n.mut_root key)
          (λ val. gets y (push_val y mut (mut_part_of y n) key val)) mem o mem
          (member_found mem o t e)

    put :
        (v : MutVal) (mem : Memory)
        → put_member y lua n YyjsonType.obj key v mem ≡ (
          ok tt,
          y.mut_obj_put n.mut_root
              (y.mut_strncpy n.mut_doc name mem).0
              v
              (y.mut_strncpy n.mut_doc name mem).1,
        )
    unfolding put_member
    put v mem = rw is_name refl

    stored :
        (item : Arg y) (mem mem' : Memory) (o : Option MutVal)
        → mut.get_type mem n.mut_root ≡ YyjsonType.obj
        → lua_yyjson_val y n.mut_doc item item mem ≡ (ok o, mem')
        → lua_yyjson_newindex_mut y lua (mut_node n) key item mem
          ≡ store y lua n YyjsonType.obj key o mem'
    unfolding lua_yyjson_newindex_mut
    stored item mem mem' o t e =
        bind-pair y c (lua_yyjson_val y n.mut_doc item item)
          (λ newval. store y lua n (mut.get_type mem n.mut_root) key newval) mem o mem' e
        ∙ ap (λ t. store y lua n t key o mem') t

    written :
        (item : Arg y) (mem : Memory)
        → IsVal mem n.mut_root
        → mut.get_type mem n.mut_root ≡ YyjsonType.obj
        → IsScalar y item
        → ¬ (item ≡ nil)
        → ReadsBack item mem
    unfolding store Makes ReadAs ReadsBack
    written item mem val t h some_value =
        let (v, m1, made, v_val, kept, reads) = scalar-Makes y c n.mut_doc item mem h some_value in
        let ((k_val, k_type, k_kept), k_str) = c.text n.mut_doc name m1 in
        let k = (y.mut_strncpy n.mut_doc name m1).0 in
        let m2 = (y.mut_strncpy n.mut_doc name m1).1 in
        let m3 = y.mut_obj_put n.mut_root k v m2 in
        let val2 = k_kept.val n.mut_root (kept.val n.mut_root val) in
        let t2 =
          k_kept.same_type n.mut_root (kept.val n.mut_root val)
          ∙ kept.same_type n.mut_root val
          ∙ t in
        let (got, last) =
          c.put n.mut_root k v name m2 val2 k_val (k_kept.val v v_val) t2 k_type k_str no_nul in
        (
          m3,
          stored item mem m1 (some v) t made ∙ put v m1,
          found m3 (some v) (last.same_type n.mut_root val2 ∙ t2) got
              ∙ ap (λ a. (ok a, m3)) (reads n key m3 (Kept-trans y c m1 m2 m3 k_kept last)),
        )

    removed :
        (mem : Memory)
        → IsVal mem n.mut_root
        → mut.get_type mem n.mut_root ≡ YyjsonType.obj
        → ReadsBack nil mem
    unfolding store remove_member lua_yyjson_val scalar_val push_val ReadsBack
    removed mem val t =
        let (gone, last) = c.key_removed n.mut_root name mem val t no_nul in
        let m1 = y.mut_obj_remove_keyn n.mut_root name mem in
        (
          m1,
          stored nil mem mem none t refl
              ∙ bind-pair y c (checked y (lua.check_string key))
                  (λ name. change y (y.mut_obj_remove_keyn n.mut_root name)) mem name mem
                  (named mem),
          found m1 none (last.same_type n.mut_root val ∙ t) gone,
        )

    -- With a library as `Contents` describes it: if a key is a string without NUL and a node is an
    -- object, then `node[key] = item` returns for nil, a boolean, a string, NULL, an integer from
    -- -2 ^ 53 to 2 ^ 53, or a finite number that is no integer (-0 is taken for one of these), and
    -- after it `node[key]` returns what `read_back` says, and changes nothing.
    pub index_mut-newindex_mut :
        (item : Arg y) (mem : Memory)
        → IsVal mem n.mut_root
        → mut.get_type mem n.mut_root ≡ YyjsonType.obj
        → IsScalar y item
        → (mem' : Memory) × (lua_yyjson_newindex_mut y lua (mut_node n) key item mem
            ≡ (ok tt, mem'))
          × (lua_yyjson_index_mut y lua (mut_node n) key mem' ≡ (ok (read_back y item), mem'))
    unfolding ReadsBack
    index_mut-newindex_mut nil mem val t h = removed mem val t
    index_mut-newindex_mut (boolean b) mem val t h = written (boolean b) mem val t h λ e. cc
    index_mut-newindex_mut (string s) mem val t h = written (string s) mem val t h λ e. cc
    index_mut-newindex_mut (number d) mem val t h = written (number d) mem val t h λ e. cc
    index_mut-newindex_mut (light_userdata p) mem val t h =
        written (light_userdata p) mem val t h λ e. cc
    index_mut-newindex_mut other mem val t h = elim h [ ]
    index_mut-newindex_mut foreign mem val t h = elim h [ ]
    index_mut-newindex_mut (node _) mem val t h = elim h [ ]
    index_mut-newindex_mut (mut_node _) mem val t h = elim h [ ]
    index_mut-newindex_mut (table _) mem val t h = elim h [ ]
