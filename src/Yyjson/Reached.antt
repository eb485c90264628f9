-- ===== src/Yyjson/Reached.antt =====
-- What holds of the documents in every state that a program of Lua reaches.
use luarunner.Base.{◌≡◌, refl, List, [], ◌∷◌, ok}
use luarunner.Yyjson.{Yyjson}
use luarunner.Yyjson.Nodes.{Arg, Checks, Action, bind}
use luarunner.Yyjson.Ownership.{AnyDoc, Lifetimes}
use luarunner.Yyjson.World.{
  World, perform, collect, collect_all, first, Step, called, collected, Steps, here, next,
  IsInitial, IsRooted, IsDistinct,
}
use luarunner.Yyjson.Grows.{perform-Grows}
use luarunner.Yyjson.Lifetime.{IsOwned, returned-IsOwned, collected-IsOwned}

module _ (y : Yyjson) (l : Lifetimes y) where
  open l use {Alive}

  module _ (lua : Checks y) where
    Step-IsOwned : {v w : World y} → Step y lua Alive v w → IsOwned y l v → IsOwned y l w
    Step-IsOwned {v} {w} (called c safe e) h =
        returned-IsOwned y l v.mem v.held (perform y lua c v.mem) w (perform-Grows y l lua c v.mem)
          h e
    Step-IsOwned {v} (collected {rest} a t) h = (collected-IsOwned y l a v rest t h).1

    initial-IsOwned : (v : World y) → IsInitial y lua Alive v → IsOwned y l v
    unfolding IsOwned IsRooted IsDistinct
    initial-IsOwned v i = rw i.0 (λ d. (λ alive. i.1 d alive, λ r. absurd r), tt)

    -- With a library as `Lifetimes` describes it: in every state that Lua reaches from one without
    -- documents, by calls whose arguments' documents are still allocated (so no part is used after
    -- its root was collected) and by collections of held values, in any order and with no other
    -- call of `__gc`, the allocated documents are those that the values that are held free when
    -- they are collected, and no two of these free the same.
    pub Steps-IsOwned :
        (v w : World y) → IsInitial y lua Alive v → Steps y lua Alive v w → IsOwned y l w
    Steps-IsOwned v w i here = initial-IsOwned v i
    Steps-IsOwned v w i (next {u} s st) = Step-IsOwned st (Steps-IsOwned v u i s)

  bind-ok :
      {A B : Type 0} (f : Action y A) (k : A → Action y B) (mem : y.Memory) (a : A)
      → (f mem).0 ≡ ok a
      → bind y f k mem ≡ k a (f mem).1
  bind-ok f k mem a e = rw (e, bind) refl

  closed :
      (held : List (Arg y)) (mem : y.Memory)
      → IsOwned y l (record { mem = mem; held = held })
      → ((collect_all y held mem).0 ≡ ok tt)
        × ((d : AnyDoc y) → ¬ Alive (collect_all y held mem).1 d)
  unfolding IsOwned IsRooted collect_all
  closed [] mem h = (refl, λ d alive. (h.0 d).0 alive)
  closed (a ∷ xs) mem h =
      let c = collected-IsOwned y l a (record { mem = mem; held = a ∷ xs }) xs first h in
      rw (bind-ok (collect y a) (λ u. collect_all y xs) mem tt c.0)
        (closed xs (collect y a mem).1 c.1)

  module _ (lua : Checks y) where
    -- With a library as `Lifetimes` describes it: in every state that Lua reaches from one without
    -- documents, by calls whose arguments' documents are still allocated (so no part is used after
    -- its root was collected) and by collections of held values, in any order and with no other
    -- call of `__gc`, collecting all the values that are held raises no error and leaves no
    -- document allocated.
    pub collect_all-Steps :
        (v w : World y)
        → IsInitial y lua Alive v
        → Steps y lua Alive v w
        → ((collect_all y w.held w.mem).0 ≡ ok tt)
          × ((d : AnyDoc y) → ¬ Alive (collect_all y w.held w.mem).1 d)
    collect_all-Steps v w i s = closed w.held w.mem (Steps-IsOwned lua v w i s)
