-- ===== src/Adapter/Payload.antt =====
-- The payload that src/runtime/event_adapter.py builds, key by key.
use mathlib.Core.Option.{or_else}
use phantom_runtime_lite.Prelude.{
  String, Bool, false, ◌&&◌, ◌||◌, Option, none, List, [], ◌∷◌, ◌≡◌, refl, ◌∙◌, arith, ◌==◌,
  contains, Option-cases, inl, inr, string_eq, if◌then◌else◌,
}
use phantom_runtime_lite.Prelude.Dict.{Dict, lookup, has, insert, lookup-insert}
use phantom_runtime_lite.Value.{Value}
use phantom_runtime_lite.Adapter.{rename_fields, carry_fields, field_map_of, translate_payload}

-- The value that the renames give to `k`: that of the last one to `k` whose source is there.
unfoldable pub renamed : String → Dict String String → Dict String Value → Option Value
renamed k [] raw = none
renamed k ((src, dst) ∷ renames) raw =
    or_else (renamed k renames raw) (if k == dst then lookup src raw else none)

-- Whether `k` is read by a rename.
unfoldable pub is_source : String → Dict String String → Bool
is_source k [] = false
is_source k ((src, dst) ∷ renames) = k == src || is_source k renames

lookup-rename :
    (k : String) (renames : Dict String String) (raw mapped : Dict String Value)
    (consumed : List String)
    → lookup k (rename_fields renames raw mapped consumed).0
      ≡ or_else (renamed k renames raw) (lookup k mapped)
unfolding rename_fields renamed or_else
lookup-rename k [] raw mapped consumed = refl
lookup-rename k ((src, dst) ∷ renames) raw mapped consumed = elim (Option-cases (lookup src raw)) [
  | inl e ↦ rw (e, rename_fields) (lookup-rename k renames raw mapped consumed ∙ ground arith)
  | inr (v, e) ↦
      rw (e, rename_fields)
        (lookup-rename k renames raw (insert dst v mapped) (src ∷ consumed)
          ∙ ground (arith, lookup-insert k dst v mapped))
]

consumed-rename :
    (k : String) (renames : Dict String String) (raw mapped : Dict String Value)
    (consumed : List String)
    → contains (rename_fields renames raw mapped consumed).1 k
      ≡ (contains consumed k || (is_source k renames && has k raw))
unfolding rename_fields is_source has
consumed-rename k [] raw mapped consumed = ground arith
consumed-rename k ((src, dst) ∷ renames) raw mapped consumed =
    elim (Option-cases (lookup src raw)) [
      | inl e ↦ rw (e, rename_fields) (consumed-rename k renames raw mapped consumed ∙ ground arith)
      | inr (v, e) ↦
          rw (e, rename_fields)
            (consumed-rename k renames raw (insert dst v mapped) (src ∷ consumed) ∙ ground arith)
    ]

lookup-carry :
    (k : String) (raw mapped : Dict String Value) (consumed : List String)
    → lookup k (carry_fields raw consumed mapped)
      ≡ or_else (lookup k mapped) (if contains consumed k then none else lookup k raw)
unfolding carry_fields or_else has lookup
lookup-carry k [] mapped consumed = ground arith
lookup-carry k ((j, v) ∷ raw) mapped consumed =
    lookup-carry k raw (if contains consumed j || has j mapped then mapped else insert j v mapped)
      consumed
    ∙ ground (arith, lookup-insert k j v mapped)

-- A key of the translated payload has the value that a rename gives it; otherwise, unless a rename
-- reads it, its value in the source. Nothing else is there, so a field that the source lacks and no
-- rename writes is absent.
pub lookup-translate_payload :
    (t : Option String) (raw : Dict String Value) (k : String)
    → lookup k (translate_payload t raw)
      ≡ or_else
          (renamed k (field_map_of t) raw)
          (if is_source k (field_map_of t) then none else lookup k raw)
unfolding translate_payload or_else
lookup-translate_payload t raw k =
    lookup-carry k raw (rename_fields (field_map_of t) raw [] []).0
      (rename_fields (field_map_of t) raw [] []).1
    ∙ rw (lookup-rename k (field_map_of t) raw [] [], consumed-rename k (field_map_of t) raw [] [])
        (unfold has lookup in ground arith)
