-- ===== src/Yyjson/ReadBack.antt =====
-- lua_yyjson.c: what Lua reads back of a value that was stored.
use luarunner.Base.{
  ℕ, ◌≡◌, refl, ◌∙◌, ap, arith, Bool, true, false, ◌==◌, if◌then◌else◌, List, Option, some, ℤ, pos,
  negsuc, Result, ok, die, undefined, spent, raise,
}
use luarunner.Lua.{Double, nan, infinite, integer, fraction}
use luarunner.Yyjson.{YyjsonType, Yyjson}
use luarunner.Yyjson.Nodes.{
  Action, bind, pure, MutNode, Arg, nil, other, foreign, boolean, number, string, light_userdata,
  node, mut_node, table, run, c_string, push_val, mut_part_of,
}
use luarunner.Yyjson.Values.{
  to_int64, int_val, number_val, minus_zero, is_null, scalar_val, lua_yyjson_val,
}
use luarunner.Yyjson.Contents.{IsExact, Contents, Kept}

-- The values whose storing is described: nil, booleans, strings, NULL, integers from
-- -2 ^ 53 to 2 ^ 53, and finite numbers that are no integers, with -0 among these (`fraction`).
-- Larger integers, infinities and NaN are left out.
abbrev pub IsStorable : Double → Type 0
IsStorable (integer i) = IsExact i
IsStorable (fraction bits) = Unit
IsStorable _ = ⊥

module _ (y : Yyjson) where
  abbrev pub IsScalar : Arg y → Type 0
  IsScalar nil = Unit
  IsScalar (boolean b) = Unit
  IsScalar (number d) = IsStorable d
  IsScalar (string s) = Unit
  IsScalar (light_userdata p) = p ≡ 0
  IsScalar _ = ⊥

  -- What is read back: strings are cut at the first NUL, and -0 is 0.
  abbrev pub read_back : Arg y → Arg y
  read_back (string s) = string (c_string s)
  read_back (number (fraction bits)) =
      number (if bits == minus_zero then integer (pos 0) else fraction bits)
  read_back (light_userdata p) = light_userdata 0
  read_back a = a

module _ (y : Yyjson) (c : Contents y) where
  open y use {Memory, MutDoc, MutVal, mut}
  open c use {IsVal}

  -- What Lua has of `v` later on is `a`.
  unfoldable pub ReadAs : Memory → MutVal → Arg y → Type 0
  ReadAs mem v a =
      (n : MutNode y) (key : Arg y) (later : Memory)
      → Kept y IsVal mem later
      → push_val y mut (mut_part_of y n) key (some v) later ≡ a

  read_null :
      (mem : Memory) (v : MutVal)
      → IsVal mem v
      → mut.get_type mem v ≡ YyjsonType.null
      → ReadAs mem v (light_userdata 0)
  unfolding ReadAs push_val
  read_null mem v h t n key later k = rw (k.same_type v h ∙ t, push_val) refl

  read_bool :
      (mem : Memory) (v : MutVal) (b : Bool)
      → IsVal mem v
      → mut.get_type mem v ≡ YyjsonType.bool
      → mut.get_bool mem v ≡ b
      → ReadAs mem v (boolean b)
  unfolding ReadAs push_val
  read_bool mem v b h t e n key later k =
      rw (k.same_type v h ∙ t, push_val) (ap boolean (k.same_bool v h ∙ e))

  read_num :
      (mem : Memory) (v : MutVal) (d : Double)
      → IsVal mem v
      → mut.get_type mem v ≡ YyjsonType.num
      → mut.get_num mem v ≡ d
      → ReadAs mem v (number d)
  unfolding ReadAs push_val
  read_num mem v d h t e n key later k =
      rw (k.same_type v h ∙ t, push_val) (ap number (k.same_num v h ∙ e))

  read_text :
      (mem : Memory) (v : MutVal) (s : List ℕ)
      → IsVal mem v
      → mut.get_type mem v ≡ YyjsonType.str
      → mut.get_str mem v ≡ s
      → ReadAs mem v (string (c_string s))
  unfolding ReadAs push_val
  read_text mem v s h t e n key later k =
      rw (k.same_type v h ∙ t, push_val) (ap (λ x. string (c_string x)) (k.same_str v h ∙ e))

  pub bind-pair :
      {A B : Type 0} (f : Action y A) (k : A → Action y B) (mem : Memory) (a : A) (mem' : Memory)
      → f mem ≡ (ok a, mem')
      → bind y f k mem ≡ k a mem'
  bind-pair f k mem a mem' e =
      ap
        (λ o. elim o.0 [
          | ok x ↦ k x o.1
          | die ↦ (die, o.1)
          | undefined ↦ (undefined, o.1)
          | spent ↦ (spent, o.1)
          | raise freed err ↦ (raise freed err, o.1)
        ])
        e

  -- The new value is made, and Lua will have `a` of it.
  unfoldable pub Makes : Arg y → Memory → Result (Option MutVal) × Memory → Type 0
  Makes a mem o =
      (v : MutVal) × (mem' : Memory) × (o ≡ (ok (some v), mem'))
      × IsVal mem' v
      × Kept y IsVal mem mem'
      × ReadAs mem' v a

  int_val-Makes :
      (doc : MutDoc) (i : ℤ) (mem : Memory)
      → IsExact i
      → (v : MutVal) × (mem' : Memory) × (int_val y doc (some i) mem ≡ (ok v, mem'))
        × IsVal mem' v
        × Kept y IsVal mem mem'
        × ReadAs mem' v (number (integer i))
  unfolding int_val
  int_val-Makes doc i mem h =
      let (val, type, kept) = c.int doc i mem in
      (
        (y.mut_int doc i mem).0,
        (y.mut_int doc i mem).1,
        refl,
        val,
        kept,
        read_num (y.mut_int doc i mem).1 (y.mut_int doc i mem).0 (integer i) val type
            (c.int_num doc i mem h),
      )

  exact_int64 : (i : ℤ) → IsExact i → to_int64 i ≡ some i
  unfolding to_int64
  exact_int64 (pos n) h = ground arith
  exact_int64 (negsuc n) h = ground arith

  -- A number, of which `lua_yyjson_val` makes an integer where it is one.
  Numbers : Double → Memory → Result MutVal × Memory → Type 0
  Numbers d mem o =
      (v : MutVal) × (mem' : Memory) × (o ≡ (ok v, mem'))
      × IsVal mem' v
      × Kept y IsVal mem mem'
      × ReadAs mem' v (number d)

  integer_made :
      (doc : MutDoc) (i : ℤ) (mem : Memory)
      → IsExact i
      → Numbers (integer i) mem (int_val y doc (some i) mem)
  unfolding Numbers
  integer_made doc i mem h = int_val-Makes doc i mem h

  real_made :
      (doc : MutDoc) (d : Double) (mem : Memory) → Numbers d mem (run y (y.mut_real doc d) mem)
  unfolding Numbers
  real_made doc d mem =
      let ((val, type, kept), num) = c.real doc d mem in
      (
        (y.mut_real doc d mem).0,
        (y.mut_real doc d mem).1,
        refl,
        val,
        kept,
        read_num (y.mut_real doc d mem).1 (y.mut_real doc d mem).0 d val type num,
      )

  fraction_made :
      (doc : MutDoc) (bits : ℕ) (zero : Bool) (mem : Memory)
      → Numbers (if zero then integer (pos 0) else fraction bits) mem (
          (if zero then int_val y doc (some (pos 0)) else run y (y.mut_real doc (fraction bits)))
            mem)
  fraction_made doc bits true mem = integer_made doc (pos 0) mem (omega arith)
  fraction_made doc bits false mem = real_made doc (fraction bits) mem

  number-Makes :
      (doc : MutDoc) (third : Arg y) (d e : Double) (mem : Memory)
      → Numbers e mem (number_val y doc d mem)
      → Makes (number e) mem (scalar_val y doc third (number d) mem)
  unfolding Numbers Makes scalar_val
  number-Makes doc third d e mem (v, mem', made, val, kept, reads) = (
    v,
    mem',
    bind-pair (number_val y doc d) (λ v. pure y (some v)) mem v mem' made,
    val,
    kept,
    reads,
  )

  pub scalar-Makes :
      (doc : MutDoc) (item : Arg y) (mem : Memory)
      → IsScalar y item
      → ¬ (item ≡ nil)
      → Makes (read_back y item) mem (lua_yyjson_val y doc item item mem)
  unfolding Makes Numbers lua_yyjson_val scalar_val number_val is_null
  scalar-Makes doc other mem h n = elim h [ ]
  scalar-Makes doc foreign mem h n = elim h [ ]
  scalar-Makes doc (number nan) mem h n = elim h [ ]
  scalar-Makes doc (number (infinite negative)) mem h n = elim h [ ]
  scalar-Makes doc (node _) mem h n = elim h [ ]
  scalar-Makes doc (mut_node _) mem h n = elim h [ ]
  scalar-Makes doc (table _) mem h n = elim h [ ]
  scalar-Makes doc nil mem h n = absurd (n refl)
  scalar-Makes doc (boolean b) mem h n =
      let ((val, type, kept), same) = c.bool doc b mem in
      (
        (y.mut_bool doc b mem).0,
        (y.mut_bool doc b mem).1,
        refl,
        val,
        kept,
        read_bool (y.mut_bool doc b mem).1 (y.mut_bool doc b mem).0 b val type same,
      )
  scalar-Makes doc (string s) mem h n =
      let ((val, type, kept), same) = c.text doc s mem in
      (
        (y.mut_strncpy doc s mem).0,
        (y.mut_strncpy doc s mem).1,
        refl,
        val,
        kept,
        read_text (y.mut_strncpy doc s mem).1 (y.mut_strncpy doc s mem).0 s val type same,
      )
  scalar-Makes doc (light_userdata p) mem h n =
      let (val, type, kept) = c.null doc mem in
      (
        (y.mut_null doc mem).0,
        (y.mut_null doc mem).1,
        rw h refl,
        val,
        kept,
        read_null (y.mut_null doc mem).1 (y.mut_null doc mem).0 val type,
      )
  scalar-Makes doc (number (integer i)) mem h n =
      number-Makes doc (number (integer i)) (integer i) (integer i) mem
        (rw (exact_int64 i h) (integer_made doc i mem h))
  scalar-Makes doc (number (fraction bits)) mem h n =
      number-Makes doc (number (fraction bits)) (fraction bits)
        (if bits == minus_zero then integer (pos 0) else fraction bits) mem
        (fraction_made doc bits (bits == minus_zero) mem)
