-- ===== src/Yyjson/Samples.antt =====
-- A library with which the hypotheses hold: documents are numbered, and what is in them does not
-- change.
mod Tests
use luarunner.Base.{
  ℕ, zero, suc, ◌<◌, ◌≡◌, ◌≢◌, ◌↔◌, ◌⊎◌, inl, inr, refl, ap, sym, arith, Bool, true, false,
  if◌then◌else◌, Bool-cases, ◌==◌, List, [], ◌∷◌, Option, none, some, ℤ,
}
use luarunner.Lua.{Double, integer}
use luarunner.Yyjson.{YyjsonType, Reader, Yyjson}
use luarunner.Yyjson.Nodes.{Arg, number, string, Checks}
use luarunner.Yyjson.Ownership.{AnyDoc, fixed_doc, mut_doc, Made, Freed, Same, Answered, Lifetimes}

-- The documents of one kind.
record Numbered : Type 0 where
  next : ℕ
  live : ℕ → Bool

abbrev IsLive : Numbered → ℕ → Type 0
IsLive h i = (i < h.next) × (h.live i ≡ true)

abbrev alloc : Numbered → Numbered
alloc h = record { next = suc h.next; live = λ i. if i == h.next then true else h.live i }

abbrev free : ℕ → Numbered → Numbered
free d h = record { next = h.next; live = λ i. if i == d then false else h.live i }

abbrev none_yet : Numbered
none_yet = record { next = 0; live = λ i. false }

IsLive-alloc : (h : Numbered) (i : ℕ) → IsLive (alloc h) i ↔ ((i ≡ h.next) ⊎ IsLive h i)
IsLive-alloc h i = bounded i h.next (h.live i)
  where
    bounded :
        (i n : ℕ) (b : Bool)
        → ((i < suc n) × ((if i == n then true else b) ≡ true)) ↔ ((i ≡ n) ⊎ ((i < n) × (b ≡ true)))
    bounded i n b = ground arith

IsLive-free : (d : ℕ) (h : Numbered) (i : ℕ) → IsLive (free d h) i ↔ ((i ≢ d) × IsLive h i)
IsLive-free d h i = kept i d h.next (h.live i)
  where
    kept :
        (i d n : ℕ) (b : Bool)
        → ((i < n) × ((if i == d then false else b) ≡ true)) ↔ ((i ≢ d) × ((i < n) × (b ≡ true)))
    kept i d n b = ground arith

record Store : Type 0 where
  fixed_docs : Numbered
  mut_docs : Numbered

abbrev no_docs : Store
no_docs = record { fixed_docs = none_yet; mut_docs = none_yet }

-- A value is its depth: an object in an object, and a number in that.
abbrev type_at : ℕ → YyjsonType
type_at zero = YyjsonType.obj
type_at (suc zero) = YyjsonType.obj
type_at (suc (suc n)) = YyjsonType.num

abbrev reader : Reader Store ℕ
reader = record {
  get_type = λ mem v. type_at v;
  obj_get = λ mem v name. some (suc v);
  arr_get = λ mem v i. none;
  get_str = λ mem v. [];
  get_bool = λ mem v. true;
  get_num = λ mem v. integer (ℤ.pos v);
}

-- The empty text is no JSON.
abbrev read_text : List ℕ → Store → ((ℕ × List ℕ) ⊎ ℕ) × Store
read_text [] mem = (inl (0, []), mem)
read_text (c ∷ text) mem =
    (inr mem.fixed_docs.next, record { fixed_docs = alloc mem.fixed_docs; mut_docs = mem.mut_docs })

abbrev new_mut : Store → ℕ × Store
new_mut mem =
    (mem.mut_docs.next, record { fixed_docs = mem.fixed_docs; mut_docs = alloc mem.mut_docs })

abbrev numbered : Yyjson
numbered = record {
  Memory = Store;
  Doc = ℕ;
  Val = ℕ;
  MutDoc = ℕ;
  MutVal = ℕ;
  fixed = reader;
  mut = reader;
  read_opts = read_text;
  doc_get_root = λ mem doc. 0;
  doc_free = λ doc mem. record { fixed_docs = free doc mem.fixed_docs; mut_docs = mem.mut_docs };
  doc_mut_copy = λ doc mem. new_mut mem;
  mut_doc_new = new_mut;
  mut_doc_set_root = λ doc v mem. mem;
  mut_doc_get_root = λ mem doc. 0;
  mut_doc_free =
      λ doc mem. record { fixed_docs = mem.fixed_docs; mut_docs = free doc mem.mut_docs };
  mut_obj = λ doc mem. (0, mem);
  mut_null = λ doc mem. (2, mem);
  mut_bool = λ doc b mem. (2, mem);
  mut_int = λ doc i mem. (2, mem);
  mut_real = λ doc d mem. (2, mem);
  mut_strncpy = λ doc s mem. (2, mem);
  mut_val_mut_copy = λ doc v mem. (v, mem);
  mut_obj_add = λ o k v mem. mem;
  mut_obj_put = λ o k v mem. mem;
  mut_obj_remove_keyn = λ o k mem. mem;
  mut_arr_insert = λ a v i mem. mem;
  mut_arr_remove = λ a i mem. mem;
  mut_val_write = λ mem v. 48 ∷ [];
}

abbrev IsAlive : Store → AnyDoc numbered → Type 0
IsAlive mem (fixed_doc d) = IsLive mem.fixed_docs d
IsAlive mem (mut_doc d) = IsLive mem.mut_docs d

same_fixed : (i j : ℕ) → ◌≡◌ {A = AnyDoc numbered} (fixed_doc i) (fixed_doc j) → i ≡ j
same_fixed i j p = cc

same_mut : (i j : ℕ) → ◌≡◌ {A = AnyDoc numbered} (mut_doc i) (mut_doc j) → i ≡ j
same_mut i j p = cc

kinds : (i j : ℕ) → ◌≢◌ {A = AnyDoc numbered} (mut_doc j) (fixed_doc i)
kinds i j p = cc

fixed-Made :
    (mem : Store)
    → Made numbered IsAlive mem
        (fixed_doc mem.fixed_docs.next)
        (record { fixed_docs = alloc mem.fixed_docs; mut_docs = mem.mut_docs })
fixed-Made mem = (λ alive. omega (arith, alive.0), of_kind)
  where
    of_kind :
        (e : AnyDoc numbered)
        → IsAlive (record { fixed_docs = alloc mem.fixed_docs; mut_docs = mem.mut_docs }) e
          ↔ ((e ≡ fixed_doc mem.fixed_docs.next) ⊎ IsAlive mem e)
    of_kind (fixed_doc i) = (
      λ h. elim ((IsLive-alloc mem.fixed_docs i).0 h) [
        | inl p ↦ inl (ap fixed_doc p)
        | inr before ↦ inr before
      ],
      λ h.
          (IsLive-alloc mem.fixed_docs i).1
            (elim h [ inl p ↦ inl (same_fixed i mem.fixed_docs.next p) | inr before ↦ inr before ]),
    )
    of_kind (mut_doc i) =
        (inr, λ h. elim h [ inl p ↦ absurd (kinds mem.fixed_docs.next i p) | inr before ↦ before ])

mut-Made : (mem : Store) → Made numbered IsAlive mem (mut_doc mem.mut_docs.next) (new_mut mem).1
mut-Made mem = (λ alive. omega (arith, alive.0), of_kind)
  where
    of_kind :
        (e : AnyDoc numbered)
        → IsAlive (new_mut mem).1 e ↔ ((e ≡ mut_doc mem.mut_docs.next) ⊎ IsAlive mem e)
    of_kind (mut_doc i) = (
      λ h. elim ((IsLive-alloc mem.mut_docs i).0 h) [
        | inl p ↦ inl (ap mut_doc p)
        | inr before ↦ inr before
      ],
      λ h.
          (IsLive-alloc mem.mut_docs i).1
            (elim h [ inl p ↦ inl (same_mut i mem.mut_docs.next p) | inr before ↦ inr before ]),
    )
    of_kind (fixed_doc i) = (
      inr,
      λ h. elim h [ inl p ↦ absurd (kinds i mem.mut_docs.next (sym p)) | inr before ↦ before ],
    )

answered : (text : List ℕ) (mem : Store) → Answered numbered IsAlive mem (read_text text mem)
answered [] mem = λ e. (λ h. h, λ h. h)
answered (c ∷ text) mem = fixed-Made mem

fixed-Freed :
    (d : ℕ) (mem : Store) → Freed numbered IsAlive mem (fixed_doc d) (numbered.doc_free d mem)
fixed-Freed d mem (fixed_doc i) = (
  λ h. (
    λ p. ((IsLive-free d mem.fixed_docs i).0 h).0 (same_fixed i d p),
    ((IsLive-free d mem.fixed_docs i).0 h).1,
  ),
  λ h. (IsLive-free d mem.fixed_docs i).1 (λ p. h.0 (ap fixed_doc p), h.1),
)
fixed-Freed d mem (mut_doc i) = (λ h. (λ p. kinds d i p, h), λ h. h.1)

mut-Freed :
    (d : ℕ) (mem : Store) → Freed numbered IsAlive mem (mut_doc d) (numbered.mut_doc_free d mem)
mut-Freed d mem (mut_doc i) = (
  λ h. (
    λ p. ((IsLive-free d mem.mut_docs i).0 h).0 (same_mut i d p),
    ((IsLive-free d mem.mut_docs i).0 h).1,
  ),
  λ h. (IsLive-free d mem.mut_docs i).1 (λ p. h.0 (ap mut_doc p), h.1),
)
mut-Freed d mem (fixed_doc i) = (λ h. (λ p. kinds i d (sym p), h), λ h. h.1)

same : (mem : Store) → Same numbered IsAlive mem mem
same mem e = (λ h. h, λ h. h)

no_raw : (v : ℕ) → type_at v ≢ YyjsonType.raw
no_raw zero p = cc
no_raw (suc zero) p = cc
no_raw (suc (suc n)) p = cc

numbered_lifetimes : Lifetimes numbered
numbered_lifetimes = record {
  Alive = IsAlive;
  made = mut-Made;
  read = answered;
  copied = λ doc mem. mut-Made mem;
  freed = λ doc mem alive. fixed-Freed doc mem;
  mut_freed = λ doc mem alive. mut-Freed doc mem;
  root_set = λ doc v. same;
  obj = λ doc. same;
  null = λ doc. same;
  bool = λ doc b. same;
  int = λ doc i. same;
  real = λ doc d. same;
  text = λ doc s. same;
  val_copied = λ doc v. same;
  added = λ o k v. same;
  put = λ o k v. same;
  key_removed = λ o k. same;
  inserted = λ a v i. same;
  removed = λ a i. same;
  never_raw = λ mem. no_raw;
  mut_never_raw = λ mem. no_raw;
}

abbrev checked_string : Arg numbered → Option (List ℕ)
checked_string (string s) = some s
checked_string _ = none

abbrev checked_int : Arg numbered → Option ℤ
checked_int (number (integer n)) = some n
checked_int _ = none

-- Numbers are not read as strings, nor strings as numbers.
abbrev strict : Checks numbered
strict = record { check_string = checked_string; check_int = checked_int }
