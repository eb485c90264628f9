-- ===== src/Yyjson/Parts.antt =====
-- lua_yyjson.c: what reading a part of a document returns.
use luarunner.Base.{◌≡◌, ◌≢◌, refl, ok, List, [], ◌∷◌, true, Option, none, some}
use mathlib.Core.Path.{subst}
use luarunner.Yyjson.{YyjsonType, Reader, Yyjson}
use luarunner.Yyjson.Nodes.{
  Node, Arg, nil, other, foreign, boolean, number, string, light_userdata, node, mut_node, table,
  Checks, bind, gets, check_node, check_mut_node, part_of, mut_part_of, push_val, member,
  lua_yyjson_index, lua_yyjson_index_mut, lua_yyjson_gc, c_string,
}
use luarunner.Yyjson.World.{refers}
use luarunner.Yyjson.Ownership.{
  Quiet, AnyDoc, fixed_doc, owns, Lifetimes, IsQuiet, Anything, Same-refl, IsQuiet-bind,
}
use luarunner.Yyjson.Quiet.{OwnsNone, Calm-check_node, Calm-check_mut_node, Calm-member}

module _ (y : Yyjson) (l : Lifetimes y) where
  open y use {Memory, Val, MutVal, fixed, mut}

  -- What is pushed is a part or no userdata.
  push_val-elim :
      {V : Type 0} (P : Arg y → Type 0) (reader : Reader Memory V) (new_node : V → Arg y)
      (key : Arg y) (o : Option V) (mem : Memory)
      → ((m : Memory) (v : V) → reader.get_type m v ≢ YyjsonType.raw)
      → ((v : V) → P (new_node v))
      → ((a : Arg y) → refers y a ≡ [] → P a)
      → P (push_val y reader new_node key o mem)
  unfolding push_val refers
  push_val-elim P reader new_node key none mem never part plain = plain nil refl
  push_val-elim P reader new_node key (some v) mem never part plain =
      of_type (reader.get_type mem v) (never mem v)
    where
      of_type :
          (t : YyjsonType)
          → t ≢ YyjsonType.raw
          → P (elim t [
            | YyjsonType.none ↦ nil
            | YyjsonType.null ↦ light_userdata 0
            | YyjsonType.str ↦ string (c_string (reader.get_str mem v))
            | YyjsonType.bool ↦ boolean (reader.get_bool mem v)
            | YyjsonType.num ↦ number (reader.get_num mem v)
            | YyjsonType.arr ↦ new_node v
            | YyjsonType.obj ↦ new_node v
            | YyjsonType.raw ↦ key
          ])
      of_type YyjsonType.raw h = absurd (h refl)
      of_type YyjsonType.arr h = part v
      of_type YyjsonType.obj h = part v
      of_type YyjsonType.none h = plain nil refl
      of_type YyjsonType.null h = plain (light_userdata 0) refl
      of_type YyjsonType.bool h = plain (boolean (reader.get_bool mem v)) refl
      of_type YyjsonType.num h = plain (number (reader.get_num mem v)) refl
      of_type YyjsonType.str h = plain (string (c_string (reader.get_str mem v))) refl

  plain-OwnsNone : (a : Arg y) → refers y a ≡ [] → OwnsNone y l a
  unfolding refers owns
  plain-OwnsNone (node n) e = cc
  plain-OwnsNone (mut_node n) e = cc
  plain-OwnsNone nil e = refl
  plain-OwnsNone other e = refl
  plain-OwnsNone foreign e = refl
  plain-OwnsNone (boolean b) e = refl
  plain-OwnsNone (number d) e = refl
  plain-OwnsNone (string s) e = refl
  plain-OwnsNone (light_userdata p) e = refl
  plain-OwnsNone (table entries) e = refl

  module _ (lua : Checks y) where
    pub index-IsQuiet :
        (self key : Arg y) → IsQuiet y l (OwnsNone y l) (lua_yyjson_index y lua self key)
    unfolding lua_yyjson_index owns
    index-IsQuiet self key =
        IsQuiet-bind y l (Anything y l) (OwnsNone y l) (check_node y self)
          (λ n.
            bind y (member y lua fixed n.root key)
              λ val. gets y (push_val y fixed (part_of y n) key val))
          (Calm-check_node y l self)
          λ n u.
            IsQuiet-bind y l (Anything y l) (OwnsNone y l) (member y lua fixed n.root key)
              (λ val. gets y (push_val y fixed (part_of y n) key val))
              (Calm-member y l lua fixed n.root key)
              λ val w mem. (
                push_val-elim (OwnsNone y l) fixed (part_of y n) key val mem l.never_raw (λ v. refl)
                    plain-OwnsNone,
                Same-refl y l mem,
              )

    pub index_mut-IsQuiet :
        (self key : Arg y) → IsQuiet y l (OwnsNone y l) (lua_yyjson_index_mut y lua self key)
    unfolding lua_yyjson_index_mut owns
    index_mut-IsQuiet self key =
        IsQuiet-bind y l (Anything y l) (OwnsNone y l) (check_mut_node y self)
          (λ n.
            bind y (member y lua mut n.mut_root key)
              λ val. gets y (push_val y mut (mut_part_of y n) key val))
          (Calm-check_mut_node y l self)
          λ n u.
            IsQuiet-bind y l (Anything y l) (OwnsNone y l) (member y lua mut n.mut_root key)
              (λ val. gets y (push_val y mut (mut_part_of y n) key val))
              (Calm-member y l lua mut n.mut_root key)
              λ val w mem. (
                push_val-elim (OwnsNone y l) mut (mut_part_of y n) key val mem l.mut_never_raw
                    (λ v. refl) plain-OwnsNone,
                Same-refl y l mem,
              )

    -- A node for a part has the document of the node it was reached from.
    abbrev IsPartOf : Node y → Arg y → Type 0
    IsPartOf n a = (p : Node y) → a ≡ node p → p.doc ≡ n.doc

    plain-IsPartOf : (n : Node y) (a : Arg y) → refers y a ≡ [] → IsPartOf n a
    unfolding refers
    plain-IsPartOf n a r p e = absurd (not_plain (subst (λ b. refers y b ≡ []) e r))
      where
        not_plain : ¬ (◌≡◌ {A = List (AnyDoc y)} (fixed_doc p.doc ∷ []) [])
        not_plain q = cc

    index-IsPartOf :
        (n : Node y) (key : Arg y) → IsQuiet y l (IsPartOf n) (lua_yyjson_index y lua (node n) key)
    unfolding lua_yyjson_index
    index-IsPartOf n key =
        IsQuiet-bind y l (Anything y l) (IsPartOf n) (member y lua fixed n.root key)
          (λ val. gets y (push_val y fixed (part_of y n) key val))
          (Calm-member y l lua fixed n.root key)
          λ val w mem. (
            push_val-elim (IsPartOf n) fixed (part_of y n) key val mem l.never_raw
                (λ v p e. same_doc v p e) (plain-IsPartOf n),
            Same-refl y l mem,
          )
      where
        same_doc : (v : Val) (p : Node y) → part_of y n v ≡ node p → p.doc ≡ n.doc
        same_doc v p e = cc

    -- With a library as `Lifetimes` describes it: if indexing the root of an allocated document
    -- returns a node for a part, then after the root is collected the document of the part is not
    -- allocated, though the part may still be held.
    pub gc-index :
        (n p : Node y) (key : Arg y) (mem mem' : Memory)
        → n.is_root ≡ true
        → l.Alive mem (fixed_doc n.doc)
        → lua_yyjson_index y lua (node n) key mem ≡ (ok (node p), mem')
        → ¬ l.Alive (lua_yyjson_gc y (node n) mem').1 (fixed_doc p.doc)
    unfolding lua_yyjson_gc
    gc-index n p key mem mem' root alive e =
        let q = subst (λ o. Quiet y l (IsPartOf n) mem o) e (index-IsPartOf n key mem) in
        let same = q.0 p refl in
        let f = l.freed n.doc mem' ((q.1 (fixed_doc n.doc)).1 alive) in
        rw (same, root) (λ still. ((f (fixed_doc n.doc)).0 still).0 refl)
