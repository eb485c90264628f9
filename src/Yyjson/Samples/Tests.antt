-- ===== src/Yyjson/Samples/Tests.antt =====
-- A run in which Lua makes a document, loads one, reads a part of it and collects its root.
use luarunner.Base.{◌≡◌, refl, arith, true, false, [], ◌∷◌, some, none, ok}
use luarunner.Yyjson.Nodes.{
  Node, Arg, string, node, lua_yyjson_new, lua_yyjson_load, lua_yyjson_index, lua_yyjson_gc, loaded,
  member, member_of, push_val,
}
use luarunner.Yyjson.Ownership.{AnyDoc, fixed_doc, mut_doc}
use luarunner.Yyjson.World.{
  World, Call, new, load, index, perform, arguments, refers, collect, collect_all, returned, first,
  later, Steps, called, collected, here, next, IsInitial,
}
use luarunner.Yyjson.Lifetime.{IsOwned}
use luarunner.Yyjson.Reached.{Steps-IsOwned, collect_all-Steps}
use luarunner.Yyjson.Parts.{gc-index}
use luarunner.Yyjson.Samples.{no_docs, numbered, numbered_lifetimes, strict}

abbrev start_world : World numbered
start_world = record { mem = no_docs; held = [] }

abbrev after : Call numbered → World numbered → World numbered
unfolding returned perform lua_yyjson_new lua_yyjson_load lua_yyjson_index loaded member member_of
    push_val
after c w = elim (returned numbered w.held (perform numbered strict c w.mem)) [
  | none ↦ w
  | some v ↦ v
]

abbrev key_a : Arg numbered
key_a = string (97 ∷ [])

abbrev root : Node numbered
root = record { doc = 0; root = 0; is_root = true }

abbrev part : Node numbered
part = record { doc = 0; root = 1; is_root = false }

abbrev made : World numbered
made = after new start_world

abbrev read_world : World numbered
read_world = after (load (string (123 ∷ 125 ∷ []))) made

abbrev reached : World numbered
reached = after (index (node root) key_a) read_world

abbrev parted : World numbered
parted = record { mem = (collect numbered (node root) reached.mem).1; held = node part ∷ made.held }

run : Steps numbered strict numbered_lifetimes.Alive start_world parted
unfolding returned perform lua_yyjson_new lua_yyjson_load lua_yyjson_index loaded member member_of
    push_val numbered_lifetimes arguments refers
run =
    next
      (next
        (next (next here (called new tt refl)) (called (load (string (123 ∷ 125 ∷ []))) tt refl))
        (called (index (node root) key_a) ((omega arith, refl), tt) refl))
      (collected (node root) (later first))

start-IsInitial : IsInitial numbered strict numbered_lifetimes.Alive start_world
unfolding numbered_lifetimes
start-IsInitial = (refl, λ d. none_alive d)
  where
    none_alive : (d : AnyDoc numbered) → ¬ numbered_lifetimes.Alive no_docs d
    none_alive (fixed_doc i) h = omega (arith, h.0)
    none_alive (mut_doc i) h = omega (arith, h.0)

Steps-IsOwned_example : IsOwned numbered numbered_lifetimes parted
Steps-IsOwned_example =
    Steps-IsOwned numbered numbered_lifetimes strict start_world parted start-IsInitial run

collect_all-Steps_example :
    ((collect_all numbered parted.held parted.mem).0 ≡ ok tt)
    × ((d : AnyDoc numbered)
        → ¬ numbered_lifetimes.Alive (collect_all numbered parted.held parted.mem).1 d)
collect_all-Steps_example =
    collect_all-Steps numbered numbered_lifetimes strict start_world parted start-IsInitial run

root-found :
    lua_yyjson_index numbered strict (node root) key_a read_world.mem
    ≡ (ok (node part), reached.mem)
unfolding lua_yyjson_index member member_of push_val lua_yyjson_new lua_yyjson_load returned perform
    loaded
root-found = refl

root-Alive : numbered_lifetimes.Alive read_world.mem (fixed_doc 0)
unfolding numbered_lifetimes lua_yyjson_new lua_yyjson_load returned perform loaded after
root-Alive = (omega arith, refl)

gc-index_example :
    ¬ numbered_lifetimes.Alive (lua_yyjson_gc numbered (node root) reached.mem).1 (fixed_doc 0)
gc-index_example =
    gc-index numbered numbered_lifetimes strict root part key_a read_world.mem reached.mem refl
      root-Alive root-found
