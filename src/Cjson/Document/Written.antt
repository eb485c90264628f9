-- ===== src/Cjson/Document/Written.antt =====
-- The encoder over the value of a document.
use luarunner.Base.{ℕ, zero, suc, arith, Bool, true, false, List, [], ◌∷◌, ◌++◌}
use luarunner.Lua.{Double, Entries}
use luarunner.Fpconv.{Libc}
use luarunner.Strbuf.{Allocator, Strbuf}
use luarunner.Strbuf.Append.{IsValid}
use luarunner.Strbuf.Resize.{strbuf_append_mem_lem}
use luarunner.Cjson.Config.{JsonConfig}
use luarunner.Cjson.Quote.{json_append_string_lem}
use luarunner.Cjson.Encode.{json_append_data, array_items, object_items}
use luarunner.Cjson.Document.{
  Json, null, empty, boolean, number, string, array, object, Items, last, item, Fields, last_field,
  field, print, print_items, print_fields, value_of, entries_from, entries_of,
}
use luarunner.Cjson.Document.Writable.{
  count, room_for, room_for_items, room_for_fields, Writable, length-print, length-print_items,
  length-print_fields,
}
use luarunner.Cjson.Document.Tables.{Holds, Holds-entries_from}
use luarunner.Cjson.Document.Pieces.{Fits, Appends, both, separator, json_append_number_lem}
use luarunner.Cjson.Document.Frames.{
  depth_bound, empty_written, array_written, object_written, item_written, field_written, returned,
  Good, GoodItems, GoodFields, append, Enough,
}

module _ (heap : Allocator) (libc : Libc) (point : ℕ) (checkstack : ℕ → ℕ → Bool) (cfg : JsonConfig)
    (digits : Double → List ℕ) where
  mutual
    unfolding print value_of room_for Writable json_append_data array_items object_items count Holds

    pub value_written :
        (j : Json) (fuel depth : ℕ) (s : Strbuf)
        → Good heap libc point checkstack cfg digits depth j
        → Enough heap libc point checkstack cfg digits fuel depth
        → IsValid s
        → Fits heap s (room_for j)
        → Appends heap s
            (print digits j)
            (append heap libc point checkstack cfg digits fuel depth (value_of j) s)
    value_written null fuel depth s w enough v fits =
        strbuf_append_mem_lem heap s v (b'n' ∷ b'u' ∷ b'l' ∷ b'l' ∷ []) (omega (arith, fits))
    value_written (boolean true) fuel depth s w enough v fits =
        strbuf_append_mem_lem heap s v (b't' ∷ b'r' ∷ b'u' ∷ b'e' ∷ []) (omega (arith, fits))
    value_written (boolean false) fuel depth s w enough v fits =
        strbuf_append_mem_lem heap s v (b'f' ∷ b'a' ∷ b'l' ∷ b's' ∷ b'e' ∷ []) (omega (arith, fits))
    value_written (number d) fuel depth s w enough v fits =
        json_append_number_lem heap libc point checkstack cfg digits s d v w fits
    value_written (string str) fuel depth s w enough v fits =
        json_append_string_lem heap s str v fits
    value_written empty zero depth s w enough v fits =
        absurd
          (omega (arith, depth_bound heap libc point checkstack cfg digits (suc depth) w, enough))
    value_written empty (suc fuel) depth s w enough v fits =
        empty_written heap libc point checkstack cfg digits
          (append heap libc point checkstack cfg digits fuel (suc depth)) (suc depth) s w v
          (omega (arith, fits))
    value_written (array items) zero depth s w enough v fits =
        absurd
          (omega (arith, depth_bound heap libc point checkstack cfg digits (suc depth) w.0, enough))
    value_written (array items) (suc fuel) depth s w enough v fits =
        array_written heap libc point checkstack cfg digits
          (append heap libc point checkstack cfg digits fuel (suc depth)) (suc depth) items s w.0
          w.1 v
          (omega (
            arith,
            fits,
            length-print_items libc point checkstack cfg digits items (suc depth) w.2,
          ))
          λ t valid one.
            items_written items fuel (suc depth) 1 (entries_from 1 items) false t
              (Holds-entries_from items 0) w.2 (omega (arith, enough)) valid
              (omega (arith, fits, one))
    value_written (object fields) zero depth s w enough v fits =
        absurd
          (omega (arith, depth_bound heap libc point checkstack cfg digits (suc depth) w.0, enough))
    value_written (object fields) (suc fuel) depth s w enough v fits =
        object_written heap libc point checkstack cfg digits
          (append heap libc point checkstack cfg digits fuel (suc depth)) (suc depth) fields s w.0 v
          (omega (
            arith,
            fits,
            length-print_fields libc point checkstack cfg digits fields (suc depth) w.1,
          ))
          λ t valid one.
            fields_written fields fuel (suc depth) false t w.1 (omega (arith, enough)) valid
              (omega (arith, fits, one))

    items_written :
        (items : Items) (fuel depth i : ℕ) (entries : Entries) (comma : Bool) (s : Strbuf)
        → Holds entries i items
        → GoodItems heap libc point checkstack cfg digits depth items
        → Enough heap libc point checkstack cfg digits fuel depth
        → IsValid s
        → Fits heap s (room_for_items items)
        → Appends heap s (separator heap comma ++ print_items digits items) (
            array_items heap libc point checkstack cfg
              (append heap libc point checkstack cfg digits fuel depth)
              entries
              (count items)
              i
              comma
              s)
    items_written (last j) fuel depth i entries comma s holds w enough v fits =
        item_written heap libc point checkstack cfg digits comma s (print digits j) _ v
          (omega (arith, fits))
          λ t valid sep. rw holds (
            returned heap libc point checkstack cfg digits t (print digits j)
              (append heap libc point checkstack cfg digits fuel depth (value_of j) t)
              (value_written j fuel depth t w enough valid (omega (arith, fits, sep))))
    items_written (item j items) fuel depth i entries comma s holds w enough v fits =
        item_written heap libc point checkstack cfg digits comma s
          (print digits j ++ (b',' ∷ print_items digits items)) _ v (omega (arith, fits))
          λ t valid sep. rw holds.0 (
            both heap t (print digits j) (b',' ∷ print_items digits items)
              (append heap libc point checkstack cfg digits fuel depth (value_of j) t) _
              (value_written j fuel depth t w.0 enough valid (omega (arith, fits, sep)))
              λ u more.
                items_written items fuel depth (suc i) entries true u holds.1 w.1 enough more.0 (
                  omega (
                    arith,
                    fits,
                    sep,
                    more.2,
                    length-print libc point checkstack cfg digits j depth w.0,
                  )))

    fields_written :
        (fields : Fields) (fuel depth : ℕ) (comma : Bool) (s : Strbuf)
        → GoodFields heap libc point checkstack cfg digits depth fields
        → Enough heap libc point checkstack cfg digits fuel depth
        → IsValid s
        → Fits heap s (room_for_fields fields)
        → Appends heap s (separator heap comma ++ print_fields digits fields) (
            object_items heap libc point checkstack cfg
              (append heap libc point checkstack cfg digits fuel depth)
              (entries_of fields)
              comma
              s)
    fields_written (last_field key j) fuel depth comma s w enough v fits =
        field_written heap libc point checkstack cfg digits comma key s (print digits j) _ v
          (omega (arith, fits))
          λ t valid sep.
            returned heap libc point checkstack cfg digits t (print digits j)
              (append heap libc point checkstack cfg digits fuel depth (value_of j) t)
              (value_written j fuel depth t w enough valid (omega (arith, fits, sep)))
    fields_written (field key j fields) fuel depth comma s w enough v fits =
        field_written heap libc point checkstack cfg digits comma key s
          (print digits j ++ (b',' ∷ print_fields digits fields)) _ v (omega (arith, fits))
          λ t valid sep.
            both heap t (print digits j) (b',' ∷ print_fields digits fields)
              (append heap libc point checkstack cfg digits fuel depth (value_of j) t) _
              (value_written j fuel depth t w.0 enough valid (omega (arith, fits, sep)))
              λ u more. fields_written fields fuel depth true u w.1 enough more.0 (
                omega (
                  arith,
                  fits,
                  sep,
                  more.2,
                  length-print libc point checkstack cfg digits j depth w.0,
                ))
