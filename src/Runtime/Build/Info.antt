-- ===== src/Runtime/Build/Info.antt =====
-- The runtime info of an engine: when it is made, and that it stays.
use fluid_data_table.Base.{false, Option, none, some, ◌≡◌, refl, arith, List, inl, inr}
use fluid_data_table.Base.Text.{Text}
use fluid_data_table.Base.Result.{Error, Result, ok, err, Result-cases}
use fluid_data_table.Schedule.Info.{RuntimeInfo}
use fluid_data_table.Alluxio.Names.{has_deprecated_common_labelname}
use fluid_data_table.Schedule.Tiers.{LevelSpec}
use fluid_data_table.Runtime.Engines.{Request}
use fluid_data_table.Runtime.Build.{
  AlluxioEngine, RuntimeObject, no_object, alluxio_object, other_object, built, BuildApi,
  build_runtime_info, check_deprecated, get_runtime_info, new_engine, build_engine, build,
}

-- An info with the names that are given, and without deprecated labels.
abbrev pub IsInfoOf : Text → Text → Text → RuntimeInfo → Type 0
IsInfoOf name namespace runtime_type info =
    (info.name ≡ name) × (info.namespace ≡ namespace) × (info.runtime_type ≡ runtime_type)

-- An engine that has the names that are given, and an info with them.
abbrev pub IsNamed : Text → Text → Text → AlluxioEngine → Type 0
IsNamed name namespace runtime_type e =
    (e.name ≡ name) × (e.namespace ≡ namespace) × (e.runtime_type ≡ runtime_type)

abbrev pub HasInfo : Text → Text → Text → AlluxioEngine → Type 0
HasInfo name namespace runtime_type e =
    (info : RuntimeInfo) × IsInfoOf name namespace runtime_type info
    × (e.runtime_info ≡ some info)
    × IsNamed name namespace runtime_type e

module _ {S : Type 0} (api : BuildApi S) where
  build_runtime_info-IsInfoOf :
      (name namespace runtime_type : Text) (tiers : List LevelSpec) {info : RuntimeInfo}
      → build_runtime_info api name namespace runtime_type tiers ≡ ok info
      → IsInfoOf name namespace runtime_type info × (info.deprecated_node_label ≡ false)
  unfolding build_runtime_info
  build_runtime_info-IsInfoOf name namespace runtime_type tiers h = ground arith

  check_deprecated-IsInfoOf :
      (base info : RuntimeInfo) (e e1 : AlluxioEngine) (s : S) (name namespace runtime_type : Text)
      → IsInfoOf name namespace runtime_type base
      → check_deprecated api base e s ≡ (ok info, e1)
      → IsInfoOf name namespace runtime_type info
        × (e1.runtime_info ≡ some info)
        × IsNamed e.name e.namespace e.runtime_type e1
  unfolding check_deprecated
  check_deprecated-IsInfoOf base info e e1 s name namespace runtime_type b h = ground arith

  get_runtime_info-IsInfoOf :
      (e e1 : AlluxioEngine) (info : RuntimeInfo) (s : S)
      → e.runtime_info ≡ none
      → get_runtime_info api e s ≡ (ok info, e1)
      → IsInfoOf e.name e.namespace e.runtime_type info
        × (e1.runtime_info ≡ some info)
        × IsNamed e.name e.namespace e.runtime_type e1
  unfolding get_runtime_info
  get_runtime_info-IsInfoOf e e1 info s n h = elim (Result-cases (api.get_tiered_store s)) [
    | inr (x, k) ↦ ground arith
    | inl (tiers, k) ↦
        (elim (Result-cases (build_runtime_info api e.name e.namespace e.runtime_type tiers)) [
          | inr (x, b) ↦ ground arith
          | inl (base, b) ↦ ground (
            arith,
            build_runtime_info-IsInfoOf e.name e.namespace e.runtime_type tiers {info = base} b,
            check_deprecated-IsInfoOf base info e e1 s e.name e.namespace e.runtime_type,
          )
        ])
  ]

  get_runtime_info_kept :
      (e : AlluxioEngine) (info : RuntimeInfo) (s : S)
      → e.runtime_info ≡ some info
      → get_runtime_info api e s ≡ (ok info, e)
  unfolding get_runtime_info
  get_runtime_info_kept e info s h = ground arith

  build_engine-HasInfo :
      (id id1 : Text) (request : Request) (e e0 : AlluxioEngine) (x : Option Error) (s s1 : S)
      (r : Result RuntimeInfo)
      → get_runtime_info api (new_engine request) s ≡ (r, e0)
      → build_engine api id request s ≡ (built id1 e x, s1)
      → HasInfo request.name request.namespace request.runtime_type e
  unfolding build_engine new_engine
  build_engine-HasInfo id id1 request e e0 x s s1 (err y) k h = ground arith
  build_engine-HasInfo id id1 request e e0 x s s1 (ok info) k h =
      let known = get_runtime_info-IsInfoOf (new_engine request) e0 info s refl k in
      (info, known.0, ground (arith, known), ground (arith, known))

  -- Every engine that Build returns, with an error or without, has the names of the request and an
  -- info with them.
  pub build-HasInfo :
      (id id1 : Text) (request : Request) (runtime : RuntimeObject) (e : AlluxioEngine)
      (x : Option Error) (s s1 : S)
      → build api id request runtime s ≡ (built id1 e x, s1)
      → HasInfo request.name request.namespace request.runtime_type e
  unfolding build
  build-HasInfo id id1 request no_object e x s s1 h = ground arith
  build-HasInfo id id1 request other_object e x s s1 h = ground arith
  build-HasInfo id id1 request alluxio_object e x s s1 h =
      let (r, e0) = get_runtime_info api (new_engine request) s in
      build_engine-HasInfo id id1 request e e0 x s s1 r refl h

  -- Every engine that Build returns, with an error or without, has its runtime info: the info has
  -- the request's name, namespace and type, and from then on getRuntimeInfo returns it without an
  -- error and changes nothing, whatever becomes of the cluster.
  pub build-IsInfoOf :
      (id id1 : Text) (request : Request) (runtime : RuntimeObject) (e : AlluxioEngine)
      (x : Option Error) (s s1 s2 : S)
      → build api id request runtime s ≡ (built id1 e x, s1)
      → (info : RuntimeInfo) × IsInfoOf request.name request.namespace request.runtime_type info
        × (get_runtime_info api e s2 ≡ (ok info, e))
  build-IsInfoOf id id1 request runtime e x s s1 s2 h =
      let (info, named, has, same) = build-HasInfo id id1 request runtime e x s s1 h in
      (info, named, get_runtime_info_kept e info s2 has)

  -- If the deprecation of the labels cannot be checked, then getRuntimeInfo fails, but keeps the
  -- info: the next call returns it without an error, as if the labels were not deprecated.
  pub get_runtime_info_again :
      (e : AlluxioEngine) (info : RuntimeInfo) (tiers : List LevelSpec) (x : Error) (s s1 : S)
      → e.runtime_info ≡ none
      → e.unit_test ≡ false
      → api.get_tiered_store s ≡ ok tiers
      → build_runtime_info api e.name e.namespace e.runtime_type tiers ≡ ok info
      → has_deprecated_common_labelname
          (record { name = e.name; namespace = e.namespace })
          (api.get_worker_selector s)
        ≡ err x
      → ((get_runtime_info api e s).0 ≡ err x)
        × ((get_runtime_info api (get_runtime_info api e s).1 s1).0 ≡ ok info)
        × (info.deprecated_node_label ≡ false)
  unfolding get_runtime_info check_deprecated
  get_runtime_info_again e info tiers x s s1 h u t b d =
      ground
        (arith, build_runtime_info-IsInfoOf e.name e.namespace e.runtime_type tiers {info = info} b)
