-- ===== src/Yyjson/Contents.antt =====
-- What the yyjson library documents of the values in a document, and what Lua reads back of a value
-- that was stored.
use luarunner.Base.{ℕ, ◌^◌, ◌≤◌, ◌<◌, ◌≡◌, ◌∙◌, Bool, List, none, some, ℤ, pos, negsuc}
use luarunner.Lua.{Double, integer}
use luarunner.Yyjson.{YyjsonType, Yyjson}
use luarunner.Yyjson.Nodes.{c_string}

-- The integers that a `double` holds exactly, up to 2 ^ 53.
abbrev pub IsExact : ℤ → Type 0
IsExact (pos n) = n ≤ 2 ^ 53
IsExact (negsuc n) = n < 2 ^ 53

module _ (y : Yyjson) where
  open y use {Memory, MutDoc, MutVal, mut}

  module _ (IsVal : Memory → MutVal → Type 0) where
    -- The values there were are still there, and what they are and hold as scalars.
    pub record Kept (a b : Memory) : Type 0 where
      pub val : (v : MutVal) → IsVal a v → IsVal b v
      pub same_type : (v : MutVal) → IsVal a v → mut.get_type b v ≡ mut.get_type a v
      pub same_str : (v : MutVal) → IsVal a v → mut.get_str b v ≡ mut.get_str a v
      pub same_bool : (v : MutVal) → IsVal a v → mut.get_bool b v ≡ mut.get_bool a v
      pub same_num : (v : MutVal) → IsVal a v → mut.get_num b v ≡ mut.get_num a v

    -- A new value of type `t`.
    abbrev pub Fresh : Memory → YyjsonType → MutVal × Memory → Type 0
    Fresh mem t (v, mem') = IsVal mem' v × (mut.get_type mem' v ≡ t) × Kept mem mem'

  -- Strings are found by their bytes, for keys without NUL. An integer is read back as a double, where
  -- it is one.
  pub record Contents : Type 1 where
    pub IsVal : Memory → MutVal → Type 0
    pub null : (doc : MutDoc) (mem : Memory) → Fresh IsVal mem YyjsonType.null (y.mut_null doc mem)
    pub bool :
        (doc : MutDoc) (b : Bool) (mem : Memory)
        → Fresh IsVal mem YyjsonType.bool (y.mut_bool doc b mem)
          × (mut.get_bool (y.mut_bool doc b mem).1 (y.mut_bool doc b mem).0 ≡ b)
    pub int :
        (doc : MutDoc) (i : ℤ) (mem : Memory) → Fresh IsVal mem YyjsonType.num (y.mut_int doc i mem)
    pub int_num :
        (doc : MutDoc) (i : ℤ) (mem : Memory)
        → IsExact i
        → mut.get_num (y.mut_int doc i mem).1 (y.mut_int doc i mem).0 ≡ integer i
    pub real :
        (doc : MutDoc) (d : Double) (mem : Memory)
        → Fresh IsVal mem YyjsonType.num (y.mut_real doc d mem)
          × (mut.get_num (y.mut_real doc d mem).1 (y.mut_real doc d mem).0 ≡ d)
    pub text :
        (doc : MutDoc) (s : List ℕ) (mem : Memory)
        → Fresh IsVal mem YyjsonType.str (y.mut_strncpy doc s mem)
          × (mut.get_str (y.mut_strncpy doc s mem).1 (y.mut_strncpy doc s mem).0 ≡ s)
    pub put :
        (o k v : MutVal) (name : List ℕ) (mem : Memory)
        → IsVal mem o
        → IsVal mem k
        → IsVal mem v
        → mut.get_type mem o ≡ YyjsonType.obj
        → mut.get_type mem k ≡ YyjsonType.str
        → mut.get_str mem k ≡ name
        → c_string name ≡ name
        → (mut.obj_get (y.mut_obj_put o k v mem) o name ≡ some v)
          × Kept IsVal mem (y.mut_obj_put o k v mem)
    pub key_removed :
        (o : MutVal) (name : List ℕ) (mem : Memory)
        → IsVal mem o
        → mut.get_type mem o ≡ YyjsonType.obj
        → c_string name ≡ name
        → (mut.obj_get (y.mut_obj_remove_keyn o name mem) o name ≡ none)
          × Kept IsVal mem (y.mut_obj_remove_keyn o name mem)

  module _ (c : Contents) where
    open c use {IsVal}

    pub Kept-trans : (m n o : Memory) → Kept IsVal m n → Kept IsVal n o → Kept IsVal m o
    Kept-trans m n o p q = record {
      val = λ v h. q.val v (p.val v h);
      same_type = λ v h. q.same_type v (p.val v h) ∙ p.same_type v h;
      same_str = λ v h. q.same_str v (p.val v h) ∙ p.same_str v h;
      same_bool = λ v h. q.same_bool v (p.val v h) ∙ p.same_bool v h;
      same_num = λ v h. q.same_num v (p.val v h) ∙ p.same_num v h;
    }
