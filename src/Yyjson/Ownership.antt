-- ===== src/Yyjson/Ownership.antt =====
-- Which documents are allocated: what the yyjson library documents of it, and how that composes.
use luarunner.Base.{
  ℕ, ◌≡◌, ◌≢◌, ◌↔◌, ◌⊎◌, inl, inr, Bool, if◌then◌else◌, List, Option, none, some, ℤ, Result, ok,
  die, undefined, spent, raise,
}
use luarunner.Lua.{Double}
use luarunner.Yyjson.{YyjsonType, Yyjson}
use luarunner.Yyjson.Nodes.{Arg, node, mut_node, Action, bind}

module _ (y : Yyjson) where
  open y use {Memory, Doc, Val, MutDoc, MutVal, fixed, mut}

  pub data AnyDoc : Type 0 where
    fixed_doc : Doc → AnyDoc
    mut_doc : MutDoc → AnyDoc

  -- The document that a userdata frees when it is collected.
  unfoldable pub owns : Arg y → Option AnyDoc
  owns (node n) = if n.is_root then some (fixed_doc n.doc) else none
  owns (mut_node n) = if n.is_root then some (mut_doc n.mut_doc) else none
  owns _ = none

  -- A new document was allocated, one was freed, or neither happened.
  module _ (Alive : Memory → AnyDoc → Type 0) where
    abbrev pub Made : Memory → AnyDoc → Memory → Type 0
    Made mem d mem' = ¬ Alive mem d × ((e : AnyDoc) → Alive mem' e ↔ ((e ≡ d) ⊎ Alive mem e))

    abbrev pub Freed : Memory → AnyDoc → Memory → Type 0
    Freed mem d mem' = (e : AnyDoc) → Alive mem' e ↔ ((e ≢ d) × Alive mem e)

    abbrev pub Same : Memory → Memory → Type 0
    Same mem mem' = (e : AnyDoc) → Alive mem' e ↔ Alive mem e

    abbrev pub Answered : Memory → ((ℕ × List ℕ) ⊎ Doc) × Memory → Type 0
    Answered mem (inl err, mem') = Same mem mem'
    Answered mem (inr doc, mem') = Made mem (fixed_doc doc) mem'

  -- The functions that make documents, those that free them, and the others. Values are raw only
  -- where that is asked for.
  pub record Lifetimes : Type 1 where
    pub Alive : Memory → AnyDoc → Type 0
    pub made : (mem : Memory) → Made Alive mem (mut_doc (y.mut_doc_new mem).0) (y.mut_doc_new mem).1
    pub read : (text : List ℕ) (mem : Memory) → Answered Alive mem (y.read_opts text mem)
    pub copied :
        (doc : Doc) (mem : Memory)
        → Made Alive mem (mut_doc (y.doc_mut_copy doc mem).0) (y.doc_mut_copy doc mem).1
    pub freed :
        (doc : Doc) (mem : Memory)
        → Alive mem (fixed_doc doc)
        → Freed Alive mem (fixed_doc doc) (y.doc_free doc mem)
    pub mut_freed :
        (doc : MutDoc) (mem : Memory)
        → Alive mem (mut_doc doc)
        → Freed Alive mem (mut_doc doc) (y.mut_doc_free doc mem)
    pub root_set :
        (doc : MutDoc) (v : MutVal) (mem : Memory) → Same Alive mem (y.mut_doc_set_root doc v mem)
    pub obj : (doc : MutDoc) (mem : Memory) → Same Alive mem (y.mut_obj doc mem).1
    pub null : (doc : MutDoc) (mem : Memory) → Same Alive mem (y.mut_null doc mem).1
    pub bool : (doc : MutDoc) (b : Bool) (mem : Memory) → Same Alive mem (y.mut_bool doc b mem).1
    pub int : (doc : MutDoc) (i : ℤ) (mem : Memory) → Same Alive mem (y.mut_int doc i mem).1
    pub real : (doc : MutDoc) (d : Double) (mem : Memory) → Same Alive mem (y.mut_real doc d mem).1
    pub text :
        (doc : MutDoc) (s : List ℕ) (mem : Memory) → Same Alive mem (y.mut_strncpy doc s mem).1
    pub val_copied :
        (doc : MutDoc) (v : MutVal) (mem : Memory) → Same Alive mem (y.mut_val_mut_copy doc v mem).1
    pub added :
        (o : MutVal) (k v : Option MutVal) (mem : Memory) → Same Alive mem (y.mut_obj_add o k v mem)
    pub put : (o k v : MutVal) (mem : Memory) → Same Alive mem (y.mut_obj_put o k v mem)
    pub key_removed :
        (o : MutVal) (k : List ℕ) (mem : Memory) → Same Alive mem (y.mut_obj_remove_keyn o k mem)
    pub inserted :
        (a v : MutVal) (i : ℕ) (mem : Memory) → Same Alive mem (y.mut_arr_insert a v i mem)
    pub removed : (a : MutVal) (i : ℕ) (mem : Memory) → Same Alive mem (y.mut_arr_remove a i mem)
    pub never_raw : (mem : Memory) (v : Val) → fixed.get_type mem v ≢ YyjsonType.raw
    pub mut_never_raw : (mem : Memory) (v : MutVal) → mut.get_type mem v ≢ YyjsonType.raw

  module _ (l : Lifetimes) where
    open l use {Alive}

    -- Where the action goes on or raises an error, the same documents are allocated as before, and
    -- what it returns has `P`.
    abbrev pub Quiet : {A : Type 0} → (A → Type 0) → Memory → Result A × Memory → Type 0
    Quiet P mem (ok a, mem') = P a × Same Alive mem mem'
    Quiet P mem (raise freed e, mem') = Same Alive mem mem'
    Quiet P mem _ = Unit

    abbrev pub IsQuiet : {A : Type 0} → (A → Type 0) → Action y A → Type 0
    IsQuiet P f = (mem : Memory) → Quiet P mem (f mem)

    abbrev pub Anything : {A : Type 0} → A → Type 0
    Anything a = Unit

    pub Same-refl : (mem : Memory) → Same Alive mem mem
    Same-refl mem e = (λ h. h, λ h. h)

    pub Same-trans : (a b c : Memory) → Same Alive a b → Same Alive b c → Same Alive a c
    Same-trans a b c p q e = (λ h. (p e).0 ((q e).0 h), λ h. (q e).1 ((p e).1 h))

    later :
        {A : Type 0} (P : A → Type 0) (a b : Memory) (o : Result A × Memory)
        → Same Alive a b
        → Quiet P b o
        → Quiet P a o
    later P a b (ok x, c) p q = (q.0, Same-trans a b c p q.1)
    later P a b (raise freed e, c) p q = Same-trans a b c p q
    later P a b (die, c) p q = tt
    later P a b (undefined, c) p q = tt
    later P a b (spent, c) p q = tt

    pub IsQuiet-bind :
        {A B : Type 0} (P : A → Type 0) (Q : B → Type 0) (f : Action y A) (k : A → Action y B)
        → IsQuiet P f
        → ((a : A) → P a → IsQuiet Q (k a))
        → IsQuiet Q (bind y f k)
    IsQuiet-bind {A} {B} P Q f k h g mem = went (f mem) (h mem)
      where
        went :
            (o : Result A × Memory)
            → Quiet P mem o
            → Quiet Q mem (elim o.0 [
              | ok a ↦ k a o.1
              | die ↦ (die, o.1)
              | undefined ↦ (undefined, o.1)
              | spent ↦ (spent, o.1)
              | raise freed e ↦ (raise freed e, o.1)
            ])
        went (ok a, b) q = later Q mem b (k a b) q.1 (g a q.0 b)
        went (raise freed e, b) q = q
        went (die, b) q = tt
        went (undefined, b) q = tt
        went (spent, b) q = tt
