-- ===== src/Yyjson/Grows.antt =====
-- What each call does to the set of documents that are allocated.
use luarunner.Base.{
  true, ℕ, ◌≡◌, ◌≢◌, ◌↔◌, ◌⊎◌, inl, inr, refl, ap, sym, ◌∙◌, List, some, none, Result, ok, raise,
  die, undefined, spent,
}
use luarunner.Yyjson.{Yyjson}
use luarunner.Yyjson.Nodes.{
  Arg, node, mut_node, nil, Checks, Action, bind, pure, run, checked, loaded, loaded_mut,
  lua_yyjson_new, lua_yyjson_load, lua_yyjson_load_mut, lua_yyjson_newindex,
}
use luarunner.Yyjson.Ownership.{
  AnyDoc, fixed_doc, mut_doc, owns, Lifetimes, Made, Freed, Same, Answered, Quiet, IsQuiet,
  Anything, Same-refl, Same-trans,
}
use luarunner.Yyjson.Values.{lua_yyjson_newindex_mut}
use luarunner.Yyjson.Quiet.{OwnsNone, Calm-checked}
use luarunner.Yyjson.Parts.{index-IsQuiet, index_mut-IsQuiet}
use luarunner.Yyjson.Stored.{newindex_mut-IsQuiet, write_mut-IsQuiet}
use luarunner.Yyjson.World.{
  Call, new, load, load_mut, index, index_mut, newindex, newindex_mut, write_mut, perform,
}
use mathlib.Core.Path.{subst}

module _ (y : Yyjson) (l : Lifetimes y) where
  open y use {Memory, Doc, MutDoc}
  open l use {Alive}

  -- The document of the value that is returned is new, and is the only one that is.
  abbrev pub Grows : Memory → Result (Arg y) × Memory → Type 0
  Grows mem (ok a, mem') =
      (d : AnyDoc y)
      → (Alive mem' d ↔ ((owns y a ≡ some d) ⊎ Alive mem d)) × (owns y a ≡ some d → ¬ Alive mem d)
  Grows mem (raise freed e, mem') = Same y Alive mem mem'
  Grows mem _ = Unit

  pub no_owner : (a : Arg y) (d : AnyDoc y) → owns y a ≡ none → ¬ (owns y a ≡ some d)
  no_owner a d p q = cc

  pub same_owner : (a : Arg y) (d e : AnyDoc y) → owns y a ≡ some d → owns y a ≡ some e → e ≡ d
  same_owner a d e p q = cc

  Quiet-Grows :
      (mem : Memory) (o : Result (Arg y) × Memory) → Quiet y l (OwnsNone y l) mem o → Grows mem o
  Quiet-Grows mem (ok a, mem') q = λ d. (
    (
      λ h. inr ((q.1 d).0 h),
      λ h. elim h [ inl e ↦ absurd (no_owner a d q.0 e) | inr alive ↦ (q.1 d).1 alive ],
    ),
    λ e alive. no_owner a d q.0 e,
  )
  Quiet-Grows mem (raise freed e, mem') q = q
  Quiet-Grows mem (die, mem') q = tt
  Quiet-Grows mem (undefined, mem') q = tt
  Quiet-Grows mem (spent, mem') q = tt

  -- What returns a value that owns the one new document.
  made-Grows :
      (a : Arg y) (d : AnyDoc y) (mem mem' : Memory)
      → owns y a ≡ some d
      → Made y Alive mem d mem'
      → Grows mem (ok a, mem')
  made-Grows a d mem mem' o m e = (
    (
      λ h. elim ((m.1 e).0 h) [ inl p ↦ inl (o ∙ ap some (sym p)) | inr alive ↦ inr alive ],
      λ h. elim h [
        | inl p ↦ (m.1 e).1 (inl (same_owner a d e o p))
        | inr alive ↦ (m.1 e).1 (inr alive)
      ],
    ),
    λ p alive. m.0 (subst (λ d. Alive mem d) (same_owner a d e o p) alive),
  )

  made-same :
      (d : AnyDoc y) (a b c : Memory) → Made y Alive a d b → Same y Alive b c → Made y Alive a d c
  made-same d a b c m s = (m.0, λ e. (λ h. (m.1 e).0 ((s e).0 h), λ h. (s e).1 ((m.1 e).1 h)))

  fixed≢mut : (d : Doc) (e : MutDoc) → ◌≢◌ {A = AnyDoc y} (fixed_doc d) (mut_doc e)
  fixed≢mut d e p = cc

  -- A document is read, copied and freed: the copy is what is left.
  copy-left :
      (d : Doc) (e : MutDoc) (mem read copied freed : Memory)
      → Made y Alive mem (fixed_doc d) read
      → Made y Alive read (mut_doc e) copied
      → Freed y Alive copied (fixed_doc d) freed
      → Made y Alive mem (mut_doc e) freed
  copy-left d e mem read copied freed r c f = (
    λ alive. c.0 ((r.1 (mut_doc e)).1 (inr alive)),
    λ x. (
      λ h. elim ((c.1 x).0 ((f x).0 h).1) [
        | inl p ↦ inl p
        | inr alive ↦ elim ((r.1 x).0 alive) [
          | inl p ↦ absurd (((f x).0 h).0 p)
          | inr before ↦ inr before
        ]
      ],
      λ h. elim h [
        | inl p ↦ (f x).1 (λ q. fixed≢mut d e (sym q ∙ p), (c.1 x).1 (inl p))
        | inr before ↦
            (f x).1 (
              λ q. r.0 (subst (λ z. Alive mem z) q before),
              (c.1 x).1 (inr ((r.1 x).1 (inr before))),
            )
      ],
    ),
  )

  -- After an action that changes nothing.
  later : (b c : Memory) (o : Result (Arg y) × Memory) → Same y Alive b c → Grows c o → Grows b o
  later b c (ok a, mem') s g = λ d. (
    (
      λ h. elim ((g d).0.0 h) [ inl p ↦ inl p | inr alive ↦ inr ((s d).0 alive) ],
      λ h. elim h [ inl p ↦ (g d).0.1 (inl p) | inr alive ↦ (g d).0.1 (inr ((s d).1 alive)) ],
    ),
    λ p alive. (g d).1 p ((s d).1 alive),
  )
  later b c (raise freed e, mem') s g = Same-trans y l b c mem' s g
  later b c (die, mem') s g = tt
  later b c (undefined, mem') s g = tt
  later b c (spent, mem') s g = tt

  new-Grows : (mem : Memory) → Grows mem (lua_yyjson_new y mem)
  unfolding lua_yyjson_new owns
  new-Grows mem =
      let m1 = (y.mut_doc_new mem).1 in
      let doc = (y.mut_doc_new mem).0 in
      let root = (y.mut_obj doc m1).0 in
      let m2 = (y.mut_obj doc m1).1 in
      let m3 = y.mut_doc_set_root doc root m2 in
      made-Grows (mut_node (record { mut_doc = doc; mut_root = root; is_root = true }))
        (mut_doc doc) mem m3 refl
        (made-same (mut_doc doc) mem m1 m3 (l.made mem)
          (Same-trans y l m1 m2 m3 (l.obj doc m1) (l.root_set doc root m2)))

  calm_first :
      {A : Type 0} (f : Action y A) (k : A → Action y (Arg y)) (mem : Memory)
      → IsQuiet y l (Anything y l) f
      → ((a : A) (m : Memory) → Grows m (k a m))
      → Grows mem (bind y f k mem)
  calm_first {A} f k mem h g = went (f mem) (h mem)
    where
      went :
          (o : Result A × Memory)
          → Quiet y l (Anything y l) mem o
          → Grows mem (elim o.0 [
            | ok a ↦ k a o.1
            | die ↦ (die, o.1)
            | undefined ↦ (undefined, o.1)
            | spent ↦ (spent, o.1)
            | raise freed e ↦ (raise freed e, o.1)
          ])
      went (ok a, m) q = later mem m (k a m) q.1 (g a m)
      went (raise freed e, m) q = q
      went (die, m) q = tt
      went (undefined, m) q = tt
      went (spent, m) q = tt

  loaded-Grows :
      (mem : Memory) (o : ((ℕ × List ℕ) ⊎ Doc) × Memory)
      → Answered y Alive mem o
      → Grows mem (loaded y o.0 o.1)
  unfolding loaded owns
  loaded-Grows mem (inl err, m) s = s
  loaded-Grows mem (inr doc, m) s =
      made-Grows (node (record { doc = doc; root = y.doc_get_root m doc; is_root = true }))
        (fixed_doc doc) mem m refl s

  loaded_mut-Grows :
      (mem : Memory) (o : ((ℕ × List ℕ) ⊎ Doc) × Memory)
      → Answered y Alive mem o
      → Grows mem (loaded_mut y o.0 o.1)
  unfolding loaded_mut owns
  loaded_mut-Grows mem (inl err, m) s = s
  loaded_mut-Grows mem (inr doc, m) s =
      let copy = (y.doc_mut_copy doc m).0 in
      let m1 = (y.doc_mut_copy doc m).1 in
      let c = l.copied doc m in
      made-Grows
        (mut_node
          (record { mut_doc = copy; mut_root = y.mut_doc_get_root m1 copy; is_root = true }))
        (mut_doc copy) mem (y.doc_free doc m1) refl
        (copy-left doc copy mem m m1 (y.doc_free doc m1) s c
          (l.freed doc m1 ((c.1 (fixed_doc doc)).1 (inr ((s.1 (fixed_doc doc)).1 (inl refl))))))

  module _ (lua : Checks y) where
    load-Grows : (text : Arg y) (mem : Memory) → Grows mem (lua_yyjson_load y lua text mem)
    unfolding lua_yyjson_load
    load-Grows text mem =
        calm_first (checked y (lua.check_string text))
          (λ json. bind y (run y (y.read_opts json)) (loaded y)) mem
          (Calm-checked y l (lua.check_string text))
          λ json m. loaded-Grows m (y.read_opts json m) (l.read json m)

    load_mut-Grows : (text : Arg y) (mem : Memory) → Grows mem (lua_yyjson_load_mut y lua text mem)
    unfolding lua_yyjson_load_mut
    load_mut-Grows text mem =
        calm_first (checked y (lua.check_string text))
          (λ json. bind y (run y (y.read_opts json)) (loaded_mut y)) mem
          (Calm-checked y l (lua.check_string text))
          λ json m. loaded_mut-Grows m (y.read_opts json m) (l.read json m)

    pub perform-Grows : (c : Call y) (mem : Memory) → Grows mem (perform y lua c mem)
    unfolding perform lua_yyjson_newindex owns
    perform-Grows new mem = new-Grows mem
    perform-Grows (load text) mem = load-Grows text mem
    perform-Grows (load_mut text) mem = load_mut-Grows text mem
    perform-Grows (index self key) mem =
        Quiet-Grows mem (perform y lua (index self key) mem) (index-IsQuiet y l lua self key mem)
    perform-Grows (index_mut self key) mem =
        Quiet-Grows mem (perform y lua (index_mut self key) mem)
          (index_mut-IsQuiet y l lua self key mem)
    perform-Grows (newindex self key item) mem = Same-refl y l mem
    perform-Grows (newindex_mut self key item) mem =
        calm_first (lua_yyjson_newindex_mut y lua self key item) (λ u. pure y nil) mem
          (newindex_mut-IsQuiet y l lua self key item)
          λ u m. Quiet-Grows m (ok nil, m) (refl, Same-refl y l m)
    perform-Grows (write_mut self) mem =
        Quiet-Grows mem (perform y lua (write_mut self) mem) (write_mut-IsQuiet y l self mem)
