-- ===== src/Cjson/Ends/Branches.antt =====
-- The parser's tests of a token, with one result for every other token.
use luarunner.Base.{◌≡◌, refl, Bool, true, ℕ, List, Result}
use luarunner.Cjson.Tokens.{Token, obj_end, arr_end, comma, colon, end, string}
use luarunner.Cjson.Document.Readable.{opens}
use luarunner.Cjson.Ends.{Ends}

module _ {A : Type 0} (Q : Bool → Type 0) (P : A → Type 0) (other : Result A)
    (no : Ends Q P other) where
  pub at_array_end :
      (tok : Token) (a b : Result A)
      → Ends Q P a
      → Ends Q P b
      → Ends Q P (elim tok [ arr_end ↦ a | comma ↦ b | _ ↦ other ])
  at_array_end arr_end a b h k = h
  at_array_end comma a b h k = k
  at_array_end _ a b h k = no

  pub at_object_end :
      (tok : Token) (a b : Result A)
      → Ends Q P a
      → Ends Q P b
      → Ends Q P (elim tok [ obj_end ↦ a | comma ↦ b | _ ↦ other ])
  at_object_end obj_end a b h k = h
  at_object_end comma a b h k = k
  at_object_end _ a b h k = no

  pub at_colon :
      (tok : Token) (a : Result A) → Ends Q P a → Ends Q P (elim tok [ colon ↦ a | _ ↦ other ])
  at_colon colon a h = h
  at_colon _ a h = no

  pub at_end :
      (tok : Token) (a : Result A) → Ends Q P a → Ends Q P (elim tok [ end ↦ a | _ ↦ other ])
  at_end end a h = h
  at_end _ a h = no

  pub at_key :
      (tok : Token) (a : List ℕ → Result A)
      → ((key : List ℕ) → opens tok ≡ true → Ends Q P (a key))
      → Ends Q P (elim tok [ string key ↦ a key | _ ↦ other ])
  at_key (string key) a h = h key refl
  at_key _ a h = no

  pub if_array_end :
      (tok : Token) (a : Result A) → Ends Q P a → Ends Q P (elim tok [ arr_end ↦ a | _ ↦ other ])
  if_array_end arr_end a h = h
  if_array_end _ a h = no

  pub if_object_end :
      (tok : Token) (a : Result A) → Ends Q P a → Ends Q P (elim tok [ obj_end ↦ a | _ ↦ other ])
  if_object_end obj_end a h = h
  if_object_end _ a h = no
