-- ===== src/Yyjson/Cells.antt =====
-- A library that stores what it is given: values are numbered cells.
mod Tests
use luarunner.Base.{
  ℕ, zero, suc, ◌+◌, ◌<◌, ◌≡◌, refl, sym, ◌∙◌, ap, arith, Bool, true, false, ◌&&◌, ◌==◌,
  if◌then◌else◌, List, [], ◌∷◌, Option, none, some, ◌⊎◌, inl, inr, ℤ, pos,
}
use luarunner.Lua.{Double, integer, bytes_eq}
use luarunner.Yyjson.{YyjsonType, Reader, Yyjson}
use luarunner.Yyjson.Nodes.{Arg, number, string, Checks, c_string}
use luarunner.Yyjson.Contents.{IsExact, Contents, Kept, Fresh}

record Cell : Type 0 where
  type : YyjsonType
  text : List ℕ
  flag : Bool
  num : Double
  member : List ℕ → Option ℕ

record Cells : Type 0 where
  next : ℕ
  cell : ℕ → Cell

abbrev blank : YyjsonType → Cell
blank t = record { type = t; text = []; flag = false; num = integer (pos 0); member = λ name. none }

abbrev add : Cell → Cells → ℕ × Cells
add c mem =
    (mem.next, record { next = suc mem.next; cell = λ i. if i == mem.next then c else mem.cell i })

-- The member of the cell `o` at `key`.
abbrev set_member : ℕ → List ℕ → Option ℕ → Cells → Cells
set_member o key item mem = record {
  next = mem.next;
  cell = λ i. record (mem.cell i) {
    member = λ name. if (i == o) && bytes_eq name key then item else (mem.cell i).member name;
  };
}

abbrev cell_reader : Reader Cells ℕ
cell_reader = record {
  get_type = λ mem v. (mem.cell v).type;
  obj_get = λ mem v name. (mem.cell v).member name;
  arr_get = λ mem v i. none;
  get_str = λ mem v. (mem.cell v).text;
  get_bool = λ mem v. (mem.cell v).flag;
  get_num = λ mem v. (mem.cell v).num;
}

abbrev cells : Yyjson
cells = record {
  Memory = Cells;
  Doc = Unit {0};
  Val = ℕ;
  MutDoc = Unit {0};
  MutVal = ℕ;
  fixed = cell_reader;
  mut = cell_reader;
  read_opts = λ text mem. (inl (0, []), mem);
  doc_get_root = λ mem doc. 0;
  doc_free = λ doc mem. mem;
  doc_mut_copy = λ doc mem. (tt, mem);
  mut_doc_new = λ mem. (tt, mem);
  mut_doc_set_root = λ doc v mem. mem;
  mut_doc_get_root = λ mem doc. 0;
  mut_doc_free = λ doc mem. mem;
  mut_obj = λ doc. add (blank YyjsonType.obj);
  mut_null = λ doc. add (blank YyjsonType.null);
  mut_bool = λ doc b. add (record (blank YyjsonType.bool) { flag = b });
  mut_int = λ doc i. add (record (blank YyjsonType.num) { num = integer i });
  mut_real = λ doc d. add (record (blank YyjsonType.num) { num = d });
  mut_strncpy = λ doc s. add (record (blank YyjsonType.str) { text = s });
  mut_val_mut_copy = λ doc v mem. (v, mem);
  mut_obj_add = λ o k v mem. mem;
  mut_obj_put = λ o k v mem. set_member o (mem.cell k).text (some v) mem;
  mut_obj_remove_keyn = λ o key. set_member o key none;
  mut_arr_insert = λ a v i mem. mem;
  mut_arr_remove = λ a i mem. mem;
  mut_val_write = λ mem v. [];
}

abbrev IsCell : Cells → ℕ → Type 0
IsCell mem v = v < mem.next

added :
    {A : Type 0} (read : Cell → A) (c : Cell) (mem : Cells) (v : ℕ)
    → v < mem.next
    → read ((add c mem).1.cell v) ≡ read (mem.cell v)
added read c mem v h = let old : (v == mem.next) ≡ false = ground arith in rw old refl

newest : (c : Cell) (mem : Cells) → (add c mem).1.cell mem.next ≡ c
newest c mem = let new : (mem.next == mem.next) ≡ true = ground arith in rw new refl

kept : (c : Cell) (mem : Cells) → Kept cells IsCell mem (add c mem).1
kept c mem = record {
  val = λ v h. omega (arith, h);
  same_type = added (λ c. c.type) c mem;
  same_str = added (λ c. c.text) c mem;
  same_bool = added (λ c. c.flag) c mem;
  same_num = added (λ c. c.num) c mem;
}

fresh : (c : Cell) (mem : Cells) → Fresh cells IsCell mem c.type (add c mem)
fresh c mem = (omega arith, ap (λ x. x.type) (newest c mem), kept c mem)

set :
    (o : ℕ) (key : List ℕ) (item : Option ℕ) (mem : Cells)
    → Kept cells IsCell mem (set_member o key item mem)
set o key item mem = record {
  val = λ v h. h;
  same_type = λ v h. refl;
  same_str = λ v h. refl;
  same_bool = λ v h. refl;
  same_num = λ v h. refl;
}

same_bytes : (s : List ℕ) → bytes_eq s s ≡ true
same_bytes [] = refl
same_bytes (c ∷ s) = let one : (c == c) ≡ true = ground arith in rw (one, same_bytes s) refl

got :
    (o : ℕ) (key : List ℕ) (item : Option ℕ) (mem : Cells)
    → ((set_member o key item mem).cell o).member key ≡ item
got o key item mem = let one : (o == o) ≡ true = ground arith in rw (one, same_bytes key) refl

cells_contents : Contents cells
cells_contents = record {
  IsVal = IsCell;
  null = λ doc. fresh (blank YyjsonType.null);
  bool = λ doc b mem. (
    fresh (record (blank YyjsonType.bool) { flag = b }) mem,
    ap (λ c. c.flag) (newest (record (blank YyjsonType.bool) { flag = b }) mem),
  );
  int = λ doc i. fresh (record (blank YyjsonType.num) { num = integer i });
  int_num = λ doc i mem h.
      ap (λ c. c.num) (newest (record (blank YyjsonType.num) { num = integer i }) mem);
  real = λ doc d mem. (
    fresh (record (blank YyjsonType.num) { num = d }) mem,
    ap (λ c. c.num) (newest (record (blank YyjsonType.num) { num = d }) mem),
  );
  text = λ doc s mem. (
    fresh (record (blank YyjsonType.str) { text = s }) mem,
    ap (λ c. c.text) (newest (record (blank YyjsonType.str) { text = s }) mem),
  );
  put = λ o k v name mem ho hk hv t kt kn nul. (
    ap (λ key. ((set_member o (mem.cell k).text (some v) mem).cell o).member key) (sym kn)
        ∙ got o (mem.cell k).text (some v) mem,
    set o (mem.cell k).text (some v) mem,
  );
  key_removed = λ o name mem ho t nul. (got o name none mem, set o name none mem);
}
