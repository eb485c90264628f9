-- ===== src/Yyjson/Quiet.antt =====
-- Reading and changing documents neither makes nor frees one.
use luarunner.Base.{ℕ, ◌≡◌, List, Option, none, some, ℤ}
use luarunner.Yyjson.{YyjsonType, Reader, Yyjson}
use luarunner.Yyjson.Nodes.{
  Arg, nil, other, foreign, boolean, number, string, light_userdata, node, mut_node, table, Checks,
  Action, bind, pure, run, change, gets, checked, check_node, check_mut_node, member_of, member,
  to_size, c_string,
}
use luarunner.Yyjson.Ownership.{owns, Lifetimes, Same, IsQuiet, Anything, Same-refl, IsQuiet-bind}

module _ (y : Yyjson) (l : Lifetimes y) where
  open y use {Memory, Doc, Val, MutDoc, MutVal, fixed, mut}

  abbrev pub Calm : {A : Type 0} → Action y A → Type 0
  Calm = IsQuiet y l (Anything y l)

  -- What the action returns is no userdata that frees a document.
  abbrev pub OwnsNone : Arg y → Type 0
  OwnsNone a = owns y a ≡ none

  pub Calm-bind :
      {A B : Type 0} (f : Action y A) (k : A → Action y B)
      → Calm f
      → ((a : A) → Calm (k a))
      → Calm (bind y f k)
  Calm-bind f k h g = IsQuiet-bind y l (Anything y l) (Anything y l) f k h λ a u. g a

  pub Calm-pure : {A : Type 0} (a : A) → Calm (pure y a)
  Calm-pure a mem = (tt, Same-refl y l mem)

  pub Calm-gets : {A : Type 0} (f : Memory → A) → Calm (gets y f)
  Calm-gets f mem = (tt, Same-refl y l mem)

  pub Calm-checked : {A : Type 0} (o : Option A) → Calm (checked y o)
  Calm-checked none mem = Same-refl y l mem
  Calm-checked (some a) mem = (tt, Same-refl y l mem)

  pub Calm-check_mut_node : (a : Arg y) → Calm (check_mut_node y a)
  Calm-check_mut_node (mut_node n) = Calm-pure n
  Calm-check_mut_node (node n) = Same-refl y l
  Calm-check_mut_node nil = Same-refl y l
  Calm-check_mut_node other = Same-refl y l
  Calm-check_mut_node foreign = Same-refl y l
  Calm-check_mut_node (boolean b) = Same-refl y l
  Calm-check_mut_node (number d) = Same-refl y l
  Calm-check_mut_node (string s) = Same-refl y l
  Calm-check_mut_node (light_userdata p) = Same-refl y l
  Calm-check_mut_node (table entries) = Same-refl y l

  pub Calm-check_node : (a : Arg y) → Calm (check_node y a)
  Calm-check_node (node n) = Calm-pure n
  Calm-check_node (mut_node n) = Same-refl y l
  Calm-check_node nil = Same-refl y l
  Calm-check_node other = Same-refl y l
  Calm-check_node foreign = Same-refl y l
  Calm-check_node (boolean b) = Same-refl y l
  Calm-check_node (number d) = Same-refl y l
  Calm-check_node (string s) = Same-refl y l
  Calm-check_node (light_userdata p) = Same-refl y l
  Calm-check_node (table entries) = Same-refl y l

  pub Calm-change :
      (f : Memory → Memory) → ((mem : Memory) → Same y l.Alive mem (f mem)) → Calm (change y f)
  Calm-change f h mem = (tt, h mem)

  pub Calm-run :
      {A : Type 0} (f : Memory → A × Memory)
      → ((mem : Memory) → Same y l.Alive mem (f mem).1)
      → Calm (run y f)
  Calm-run f h mem = (tt, h mem)

  pub Calm-made :
      (f : Memory → MutVal × Memory)
      → ((mem : Memory) → Same y l.Alive mem (f mem).1)
      → Calm (bind y (run y f) λ v. pure y (some v))
  Calm-made f h =
      Calm-bind {B = Option MutVal} (run y f) (λ v. pure y (some v)) (Calm-run f h)
        λ v. Calm-pure (some v)

  module _ (lua : Checks y) where
    pub Calm-string :
        {B : Type 0} (key : Arg y) (k : List ℕ → Action y B)
        → ((name : List ℕ) → Calm (k name))
        → Calm (bind y (checked y (lua.check_string key)) k)
    Calm-string key k h =
        Calm-bind (checked y (lua.check_string key)) k (Calm-checked (lua.check_string key)) h

    pub Calm-int :
        {B : Type 0} (key : Arg y) (k : ℤ → Action y B)
        → ((i : ℤ) → Calm (k i))
        → Calm (bind y (checked y (lua.check_int key)) k)
    Calm-int key k h =
        Calm-bind (checked y (lua.check_int key)) k (Calm-checked (lua.check_int key)) h

    Calm-member_of :
        {V : Type 0} (reader : Reader Memory V) (root : V) (key : Arg y) (t : YyjsonType)
        → Calm (member_of y lua reader root key t)
    unfolding member_of
    Calm-member_of reader root key YyjsonType.obj =
        Calm-string key (λ name. gets y (λ mem. reader.obj_get mem root (c_string name)))
          λ name. Calm-gets (λ mem. reader.obj_get mem root (c_string name))
    Calm-member_of reader root key YyjsonType.arr =
        Calm-int key (λ i. gets y (λ mem. reader.arr_get mem root (to_size i)))
          λ i. Calm-gets (λ mem. reader.arr_get mem root (to_size i))
    Calm-member_of reader root key YyjsonType.none = Same-refl y l
    Calm-member_of reader root key YyjsonType.raw = Same-refl y l
    Calm-member_of reader root key YyjsonType.null = Same-refl y l
    Calm-member_of reader root key YyjsonType.bool = Same-refl y l
    Calm-member_of reader root key YyjsonType.num = Same-refl y l
    Calm-member_of reader root key YyjsonType.str = Same-refl y l

    pub Calm-member :
        {V : Type 0} (reader : Reader Memory V) (root : V) (key : Arg y)
        → Calm (member y lua reader root key)
    unfolding member
    Calm-member reader root key =
        Calm-bind (gets y (λ mem. reader.get_type mem root)) (member_of y lua reader root key)
          (Calm-gets λ mem. reader.get_type mem root) (Calm-member_of reader root key)
