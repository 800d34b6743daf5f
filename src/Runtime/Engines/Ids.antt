-- ===== src/Runtime/Engines/Ids.antt =====
-- Which runtimes share an engine, in GetOrCreateEngine of
-- pkg/controllers/v1alpha1/alluxio/implement.go.
use mathlib.Core.List.{append_assoc}
use fluid_data_table.Base.{
  none, some, ◌∷◌, ◌++◌, ◌≡◌, sym, ap, ◌∙◌, arith, if◌then◌else◌, Option-cases, inl, inr,
}
use fluid_data_table.Base.Text.{Text, str_eq, str_eq_refl}
use fluid_data_table.Base.Dict.{Dict, lookup, lookup-insert, lookup-erase}
use fluid_data_table.Base.Result.{Result, ok}
use fluid_data_table.Runtime.Engines.{
  Request, generate_engine_id, get_or_create_engine, remove_engine,
}

same_id :
    (space part name type : Text)
    → generate_engine_id
        (record { namespace = space ++ b'-' ∷ part; name = name; runtime_type = type })
      ≡ generate_engine_id
          (record { namespace = space; name = part ++ b'-' ∷ name; runtime_type = type })
unfolding generate_engine_id
same_id space part name type = append_assoc space (b'-' ∷ part) (b'-' ∷ name)

-- After RemoveEngine the map has no engine of the runtime, and has those of other names still.
pub lookup-remove_engine :
    {E : Type 0} (request : Request) (engines : Dict E) (id : Text)
    → lookup id (remove_engine request engines)
      ≡ (if str_eq (generate_engine_id request) id then none else lookup id engines)
unfolding remove_engine
lookup-remove_engine request engines id = lookup-erase (generate_engine_id request) id engines

module _ {E S : Type 0} (build : Text → Request → S → Result E × S) where
  kept :
      (request : Request) (engine : E) (engines engines' : Dict E) (s s' : S)
      → get_or_create_engine build request (engines, s) ≡ (ok engine, (engines', s'))
      → lookup (generate_engine_id request) engines' ≡ some engine
  unfolding get_or_create_engine
  kept request engine engines engines' s s' h =
      let id = generate_engine_id request in
      elim (Option-cases (lookup id engines)) [
        | inl new ↦ ground (arith, str_eq_refl id, lookup-insert id id engine engines)
        | inr (old, e) ↦ ground arith
      ]

  found :
      (request : Request) (engine : E) (engines : Dict E) (s : S)
      → lookup (generate_engine_id request) engines ≡ some engine
      → get_or_create_engine build request (engines, s) ≡ (ok engine, (engines, s))
  unfolding get_or_create_engine
  found request engine engines s h = ground arith

  -- The engine of a runtime is found again by every other runtime whose namespace and name read the
  -- same with a dash between them: a runtime `name` of the namespace `space-part` and a runtime
  -- `part-name` of the namespace `space` share one engine, which is that of the first of them.
  pub get_or_create_engine_shared :
      (space part name type : Text) (engine : E) (engines engines' : Dict E) (s s' : S)
      → get_or_create_engine build
          (record { namespace = space ++ b'-' ∷ part; name = name; runtime_type = type })
          (engines, s)
        ≡ (ok engine, (engines', s'))
      → get_or_create_engine build
          (record { namespace = space; name = part ++ b'-' ∷ name; runtime_type = type })
          (engines', s')
        ≡ (ok engine, (engines', s'))
  get_or_create_engine_shared space part name type engine engines engines' s s' h =
      found (record { namespace = space; name = part ++ b'-' ∷ name; runtime_type = type }) engine
        engines' s'
        (ap (λ id. lookup id engines') (sym (same_id space part name type))
          ∙ kept (record { namespace = space ++ b'-' ∷ part; name = name; runtime_type = type })
              engine engines engines' s s' h)
