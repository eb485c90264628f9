-- ===== src/Yyjson/Lifetime.antt =====
-- Each allocated document is freed by the collection of exactly one value.
use luarunner.Base.{
  ◌≡◌, ◌≢◌, ◌↔◌, ◌⊎◌, inl, inr, refl, ap, sym, ◌∙◌, Bool, true, false, List, ◌∷◌, some, none,
  Result, ok, raise, die, undefined, spent,
}
use mathlib.Core.Path.{subst}
use luarunner.Yyjson.{Yyjson}
use luarunner.Yyjson.Nodes.{
  Arg, nil, other, foreign, boolean, number, string, light_userdata, table, node, mut_node,
  lua_yyjson_gc, lua_yyjson_gc_mut,
}
use luarunner.Yyjson.Ownership.{AnyDoc, fixed_doc, mut_doc, owns, Lifetimes, Freed, Same}
use luarunner.Yyjson.World.{World, collect, returned, TakenOut, first, later, IsRooted, IsDistinct}
use luarunner.Yyjson.Grows.{Grows, same_owner, no_owner}

module _ (y : Yyjson) (l : Lifetimes y) where
  open y use {Memory, Doc, Val, MutDoc, MutVal}
  open l use {Alive}

  -- Each allocated document is freed by one value that is held, and only those are.
  unfoldable pub IsOwned : World y → Type 0
  IsOwned w = ((d : AnyDoc y) → Alive w.mem d ↔ IsRooted y d w.held) × IsDistinct y w.held

  grown-IsOwned :
      (a : Arg y) (mem m : Memory) (held : List (Arg y))
      → Grows y l mem (ok a, m)
      → IsOwned (record { mem = mem; held = held })
      → IsOwned (record { mem = m; held = a ∷ held })
  unfolding IsOwned IsRooted IsDistinct
  grown-IsOwned a mem m held g h = (
    λ d. (
      λ alive. elim ((g d).0.0 alive) [ inl p ↦ inl p | inr before ↦ inr ((h.0 d).0 before) ],
      λ r. elim r [ inl p ↦ (g d).0.1 (inl p) | inr before ↦ (g d).0.1 (inr ((h.0 d).1 before)) ],
    ),
    (λ d p r. (g d).1 p ((h.0 d).1 r), h.1),
  )

  same-IsOwned :
      (mem m : Memory) (held : List (Arg y))
      → Same y Alive mem m
      → IsOwned (record { mem = mem; held = held })
      → IsOwned (record { mem = m; held = held })
  unfolding IsOwned
  same-IsOwned mem m held g h =
      (λ d. (λ alive. (h.0 d).0 ((g d).0 alive), λ r. (g d).1 ((h.0 d).1 r)), h.1)

  some_eq : {A : Type 0} (a b : A) → some a ≡ some b → a ≡ b
  some_eq a b e = cc

  none_eq : {A : Type 0} (a : A) → ¬ (none ≡ some a)
  none_eq a e = cc

  pub returned-IsOwned :
      (mem : Memory) (held : List (Arg y)) (o : Result (Arg y) × Memory) (w : World y)
      → Grows y l mem o
      → IsOwned (record { mem = mem; held = held })
      → returned y held o ≡ some w
      → IsOwned w
  unfolding returned
  returned-IsOwned mem held (ok a, m) w g h e =
      subst IsOwned (some_eq (record { mem = m; held = a ∷ held }) w e)
        (grown-IsOwned a mem m held g h)
  returned-IsOwned mem held (raise freed e', m) w g h e =
      subst IsOwned (some_eq (record { mem = m; held = held }) w e) (same-IsOwned mem m held g h)
  returned-IsOwned mem held (die, m) w g h e = absurd (none_eq w e)
  returned-IsOwned mem held (undefined, m) w g h e = absurd (none_eq w e)
  returned-IsOwned mem held (spent, m) w g h e = absurd (none_eq w e)

  -- Collecting a value frees the document that it owns, which is allocated, and goes on.
  Collects : Arg y → Memory → Result (Unit {0}) × Memory → Type 0
  Collects a mem o =
      (o.0 ≡ ok tt) × ((d : AnyDoc y) → Alive o.1 d ↔ ((owns y a ≢ some d) × Alive mem d))

  collect-none : (a : Arg y) (mem : Memory) → owns y a ≡ none → Collects a mem (ok tt, mem)
  unfolding Collects
  collect-none a mem p = (refl, λ d. (λ alive. (no_owner y l a d p, alive), λ h. h.1))

  collect-some :
      (a : Arg y) (d : AnyDoc y) (mem mem' : Memory)
      → owns y a ≡ some d
      → Freed y Alive mem d mem'
      → Collects a mem (ok tt, mem')
  unfolding Collects
  collect-some a d mem mem' o f = (
    refl,
    λ e. (
      λ alive. (λ p. ((f e).0 alive).0 (same_owner y l a d e o p), ((f e).0 alive).1),
      λ h. (f e).1 (λ q. h.0 (o ∙ ap some (sym q)), h.1),
    ),
  )

  node-Collects :
      (doc : Doc) (root : Val) (is_root : Bool) (mem : Memory)
      → ((d : AnyDoc y)
          → owns y (node (record { doc = doc; root = root; is_root = is_root })) ≡ some d
          → Alive mem d)
      → Collects
          (node (record { doc = doc; root = root; is_root = is_root }))
          mem
          (lua_yyjson_gc y (node (record { doc = doc; root = root; is_root = is_root })) mem)
  unfolding lua_yyjson_gc owns
  node-Collects doc root true mem h =
      collect-some (node (record { doc = doc; root = root; is_root = true })) (fixed_doc doc) mem
        (y.doc_free doc mem) refl (l.freed doc mem (h (fixed_doc doc) refl))
  node-Collects doc root false mem h =
      collect-none (node (record { doc = doc; root = root; is_root = false })) mem refl

  mut_node-Collects :
      (doc : MutDoc) (root : MutVal) (is_root : Bool) (mem : Memory)
      → ((d : AnyDoc y)
          → owns y (mut_node (record { mut_doc = doc; mut_root = root; is_root = is_root }))
            ≡ some d
          → Alive mem d)
      → Collects (mut_node (record { mut_doc = doc; mut_root = root; is_root = is_root })) mem (
          lua_yyjson_gc_mut y
            (mut_node (record { mut_doc = doc; mut_root = root; is_root = is_root }))
            mem)
  unfolding lua_yyjson_gc_mut owns
  mut_node-Collects doc root true mem h =
      collect-some (mut_node (record { mut_doc = doc; mut_root = root; is_root = true }))
        (mut_doc doc) mem (y.mut_doc_free doc mem) refl (l.mut_freed doc mem (h (mut_doc doc) refl))
  mut_node-Collects doc root false mem h =
      collect-none (mut_node (record { mut_doc = doc; mut_root = root; is_root = false })) mem refl

  collect-Collects :
      (a : Arg y) (mem : Memory)
      → ((d : AnyDoc y) → owns y a ≡ some d → Alive mem d)
      → Collects a mem (collect y a mem)
  unfolding collect owns
  collect-Collects (node n) mem h = node-Collects n.doc n.root n.is_root mem h
  collect-Collects (mut_node n) mem h = mut_node-Collects n.mut_doc n.mut_root n.is_root mem h
  collect-Collects nil mem h = collect-none nil mem refl
  collect-Collects other mem h = collect-none other mem refl
  collect-Collects foreign mem h = collect-none foreign mem refl
  collect-Collects (boolean b) mem h = collect-none (boolean b) mem refl
  collect-Collects (number d) mem h = collect-none (number d) mem refl
  collect-Collects (string s) mem h = collect-none (string s) mem refl
  collect-Collects (light_userdata p) mem h = collect-none (light_userdata p) mem refl
  collect-Collects (table entries) mem h = collect-none (table entries) mem refl

  module _ (a : Arg y) where
    taken-IsRooted :
        {xs ys : List (Arg y)} (d : AnyDoc y)
        → TakenOut y a xs ys
        → IsRooted y d xs ↔ ((owns y a ≡ some d) ⊎ IsRooted y d ys)
    unfolding IsRooted
    taken-IsRooted d first = (λ h. h, λ h. h)
    taken-IsRooted d (later t) = (
      λ h. elim h [
        | inl p ↦ inr (inl p)
        | inr r ↦ elim ((taken-IsRooted d t).0 r) [ inl p ↦ inl p | inr r' ↦ inr (inr r') ]
      ],
      λ h. elim h [
        | inl p ↦ inr ((taken-IsRooted d t).1 (inl p))
        | inr r ↦ elim r [ inl p ↦ inl p | inr r' ↦ inr ((taken-IsRooted d t).1 (inr r')) ]
      ],
    )

    taken-IsDistinct :
        {xs ys : List (Arg y)}
        → TakenOut y a xs ys
        → IsDistinct y xs
        → IsDistinct y ys × ((d : AnyDoc y) → owns y a ≡ some d → ¬ IsRooted y d ys)
    unfolding IsRooted IsDistinct
    taken-IsDistinct first h = (h.1, h.0)
    taken-IsDistinct (later t) h =
        let rest = taken-IsDistinct t h.1 in
        (
          (λ d p r. h.0 d p ((taken-IsRooted d t).1 (inr r)), rest.0),
          λ d p r. elim r [
            | inl q ↦ h.0 d q ((taken-IsRooted d t).1 (inl p))
            | inr r' ↦ rest.1 d p r'
          ],
        )

    pub collected-IsOwned :
        (w : World y) (rest : List (Arg y))
        → TakenOut y a w.held rest
        → IsOwned w
        → ((collect y a w.mem).0 ≡ ok tt)
          × IsOwned (record { mem = (collect y a w.mem).1; held = rest })
    unfolding IsOwned Collects
    collected-IsOwned w rest t h =
        let c = collect-Collects a w.mem (λ d p. (h.0 d).1 ((taken-IsRooted d t).1 (inl p))) in
        let u = taken-IsDistinct t h.1 in
        (
          c.0,
          (
            λ d. (
              λ alive. elim ((taken-IsRooted d t).0 ((h.0 d).0 ((c.1 d).0 alive).1)) [
                | inl p ↦ absurd (((c.1 d).0 alive).0 p)
                | inr r ↦ r
              ],
              λ r. (c.1 d).1 (λ p. u.1 d p r, (h.0 d).1 ((taken-IsRooted d t).1 (inr r))),
            ),
            u.0,
          ),
        )
