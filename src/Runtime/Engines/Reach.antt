-- ===== src/Runtime/Engines/Reach.antt =====
-- The map of engines of pkg/controllers/v1alpha1/alluxio over any sequence of calls: engines that
-- Build makes are stored and removed, and the stored ones change their own fields.
use fluid_data_table.Base.{
  ℕ, none, some, [], ◌++◌, ◌≡◌, inl, inr, refl, arith, Option-cases, Bool-cases,
}
use fluid_data_table.Base.Text.{Text, codes, str_eq, str_eq_iff}
use fluid_data_table.Base.Dict.{Dict, lookup, insert, erase, lookup-insert, lookup-erase}
use fluid_data_table.Base.Result.{Result, ok, err}
use fluid_data_table.Schedule.Info.{RuntimeInfo}
use fluid_data_table.Runtime.Shutdown.{Channel}
use fluid_data_table.Runtime.Engines.{
  Request, generate_engine_id, remove_engine, create_engine, get_or_create_engine,
}
use fluid_data_table.Runtime.Build.{
  AlluxioEngine, RuntimeObject, Built, built, not_built, BuildApi, build, as_result,
}
use fluid_data_table.Runtime.Build.Info.{IsInfoOf, HasInfo, build-HasInfo}

-- An engine that stands under its own id and has its info.
abbrev pub IsOwn : Text → AlluxioEngine → Type 0
IsOwn id e =
    (id ≡ e.namespace ++ (codes "-" ++ e.name))
    × ((info : RuntimeInfo) × IsInfoOf e.name e.namespace e.runtime_type info
        × (e.runtime_info ≡ some info))

abbrev pub IsSound : Dict AlluxioEngine → Type 0
IsSound engines = (id : Text) (e : AlluxioEngine) → lookup id engines ≡ some e → IsOwn id e

nil-IsSound : IsSound []
unfolding lookup
nil-IsSound id e h = absurd (ground arith)

insert-IsSound :
    (m : Dict AlluxioEngine) (id : Text) (e : AlluxioEngine)
    → IsSound m
    → IsOwn id e
    → IsSound (insert id e m)
insert-IsSound m id e h k id1 e1 l = elim (Bool-cases (str_eq id id1)) [
  | inl same ↦
      (let p : id ≡ id1 = (str_eq_iff id id1).0 same in
        let q : e ≡ e1 = ground (arith, lookup-insert id id1 e m) in rw (← p, ← q) k)
  | inr other ↦ h id1 e1 (ground (arith, lookup-insert id id1 e m))
]

erase-IsSound : (m : Dict AlluxioEngine) (id : Text) → IsSound m → IsSound (erase id m)
erase-IsSound m id h id1 e1 l = h id1 e1 (ground (arith, lookup-erase id id1 m))

module _ {S : Type 0} (api : BuildApi S) where
  -- Build as CreateEngine calls it, for the object that the request carries.
  abbrev pub builder : RuntimeObject → Text → Request → S → Result AlluxioEngine × S
  builder runtime id request s = as_result (build api id request runtime s)

  -- One call: GetOrCreateEngine, RemoveEngine, or the work of a stored engine, which changes its
  -- fields for the shutdown and the cluster.
  pub data Step (m : Dict AlluxioEngine) (s : S) (m1 : Dict AlluxioEngine) (s1 : S) : Type 0 where
    created :
        (request : Request) (runtime : RuntimeObject) (r : Result AlluxioEngine)
        → get_or_create_engine (builder runtime) request (m, s) ≡ (r, (m1, s1))
        → Step m s m1 s1
    removed : (request : Request) → m1 ≡ remove_engine request m → Step m s m1 s1
    worked :
        (id : Text) (e : AlluxioEngine) (tries : ℕ) (channel : Channel)
        → lookup id m ≡ some e
        → m1 ≡ insert id (record e { retry_shutdown = tries; metadata_sync_done = channel }) m
        → Step m s m1 s1

  -- What can become of a map by such calls.
  pub data Reach (m : Dict AlluxioEngine) (s : S) : Dict AlluxioEngine → S → Type 0 where
    here : Reach m s m s
    next :
        {m1 m2 : Dict AlluxioEngine} {s1 s2 : S}
        → Reach m s m1 s1
        → Step m1 s1 m2 s2
        → Reach m s m2 s2

  built-HasInfo :
      (request : Request) (runtime : RuntimeObject) (e : AlluxioEngine) (id : Text) (b : Built)
      (s s1 s2 : S)
      → build api id request runtime s ≡ (b, s1)
      → as_result (b, s1) ≡ (ok e, s2)
      → HasInfo request.name request.namespace request.runtime_type e
  built-HasInfo request runtime e id (not_built x) s s1 s2 h k = ground arith
  built-HasInfo request runtime e id (built id1 e1 (some x)) s s1 s2 h k = ground arith
  built-HasInfo request runtime e id (built id1 e1 none) s s1 s2 h k =
      let q : e1 ≡ e = ground arith in
      rw (← q) (build-HasInfo api id id1 request runtime e1 none s s1 h)

  named-IsOwn :
      (request : Request) (e : AlluxioEngine)
      → HasInfo request.name request.namespace request.runtime_type e
      → IsOwn (generate_engine_id request) e
  unfolding generate_engine_id
  named-IsOwn request e (info, named, has, same) = (ground arith, (info, ground arith, has))

  create_engine-IsOwn :
      (request : Request) (runtime : RuntimeObject) (e : AlluxioEngine) (s s2 : S)
      → create_engine (builder runtime) (generate_engine_id request) request s ≡ (ok e, s2)
      → IsOwn (generate_engine_id request) e
  unfolding create_engine
  create_engine-IsOwn request runtime e s s2 h =
      let id = generate_engine_id request in
      let (b, s1) = build api id request runtime s in
      named-IsOwn request e (built-HasInfo request runtime e id b s s1 s2 refl (ground arith))

  stored-IsSound :
      (request : Request) (runtime : RuntimeObject) (m m1 : Dict AlluxioEngine) (s s1 s2 : S)
      (r c : Result AlluxioEngine)
      → IsSound m
      → lookup (generate_engine_id request) m ≡ none
      → create_engine (builder runtime) (generate_engine_id request) request s ≡ (c, s2)
      → get_or_create_engine (builder runtime) request (m, s) ≡ (r, (m1, s1))
      → IsSound m1
  unfolding get_or_create_engine
  stored-IsSound request runtime m m1 s s1 s2 r (err x) h n k g =
      let q : m ≡ m1 = ground arith in rw (← q) h
  stored-IsSound request runtime m m1 s s1 s2 r (ok e) h n k g =
      let q : insert (generate_engine_id request) e m ≡ m1 = ground arith in
      rw (← q) (
        insert-IsSound m (generate_engine_id request) e h
          (create_engine-IsOwn request runtime e s s2 k))

  created-IsSound :
      (request : Request) (runtime : RuntimeObject) (m m1 : Dict AlluxioEngine) (s s1 : S)
      (r : Result AlluxioEngine)
      → IsSound m
      → get_or_create_engine (builder runtime) request (m, s) ≡ (r, (m1, s1))
      → IsSound m1
  unfolding get_or_create_engine
  created-IsSound request runtime m m1 s s1 r h g =
      elim (Option-cases (lookup (generate_engine_id request) m)) [
        | inl n ↦
            (let (c, s2) = create_engine (builder runtime) (generate_engine_id request) request s in
              stored-IsSound request runtime m m1 s s1 s2 r c h n refl g)
        | inr (e, k) ↦ (let q : m ≡ m1 = ground arith in rw (← q) h)
      ]

  Step-IsSound : {m m1 : Dict AlluxioEngine} {s s1 : S} → Step m s m1 s1 → IsSound m → IsSound m1
  unfolding remove_engine
  Step-IsSound {m = m} {m1 = m1} {s = s} {s1 = s1} (created request runtime r g) h =
      created-IsSound request runtime m m1 s s1 r h g
  Step-IsSound {m = m} (removed request e) h = rw e (erase-IsSound m (generate_engine_id request) h)
  Step-IsSound {m = m} (worked id e tries channel k q) h = rw q (insert-IsSound m id _ h (h id e k))

  Reach-IsSound :
      {m : Dict AlluxioEngine} {s : S} {m1 : Dict AlluxioEngine} {s1 : S}
      → IsSound m
      → Reach m s m1 s1
      → IsSound m1
  Reach-IsSound h here = h
  Reach-IsSound h (next r st) = Step-IsSound st (Reach-IsSound h r)

  -- However GetOrCreateEngine, RemoveEngine and the work of stored engines follow one another, if
  -- the map is empty at first, then every engine in it stands under the id that its own namespace
  -- and name make, and has an info with its own name, namespace and type.
  pub Reach-IsOwn :
      (m : Dict AlluxioEngine) (s s1 : S) (id : Text) (e : AlluxioEngine)
      → Reach [] s m s1
      → lookup id m ≡ some e
      → IsOwn id e
  Reach-IsOwn m s s1 id e r k = Reach-IsSound nil-IsSound r id e k
