-- ===== src/Runtime/Shutdown/Cache.antt =====
-- invokeCleanCache of pkg/ddc/alluxio/cache.go under Shutdown, and the tries of Shutdown
-- (pkg/ddc/alluxio/shutdown.go).
use fluid_data_table.Base.{
  ℕ, zero, suc, ◌+◌, ◌≤◌, ◌<◌, ◌==◌, Bool, true, ltb, Option, none, some, ◌≡◌, arith, if◌then◌else◌,
  Bool-cases, Option-cases, inl, inr, ltb→lt, ◌⊎◌,
}
use fluid_data_table.Base.Text.{Text, codes}
use fluid_data_table.Base.Result.{Error, Result, ok, err, message, is_not_found}
use fluid_data_table.Datatable.World.{Outcome, returned, failed, panicked}
use fluid_data_table.Alluxio.Shell.{Pod}
use fluid_data_table.Alluxio.Operations.{clean_cache}
use fluid_data_table.Runtime.Types.{StatefulSet}
use fluid_data_table.Runtime.Shutdown.{
  EngineState, ShutdownApi, cleanup_cache, shutdown, close_channel,
}
use fluid_data_table.Runtime.Shutdown.Order.{shutdown_of_cleaned_cache}

-- Whether there is no master that could clean the cache: it is missing, or no replica is ready.
abbrev pub is_gone : Result StatefulSet → Bool
is_gone (err e) = is_not_found e
is_gone (ok master) = master.ready_replicas == 0

-- The text of an operation's error.
abbrev pub text_of {ℓ} : {A : Type ℓ} → (Error → Text) → Outcome A → Option Text
text_of error_text (returned a) = none
text_of error_text (failed e) = some (error_text e)
text_of error_text panicked = none

module _ {S : Type 0} (get_master : S → Result StatefulSet) (pod : Pod S)
    (error_text : Error → Text) where
  -- invokeCleanCache
  unfoldable pub invoke_clean_cache : Text → S → Option Text × S
  invoke_clean_cache path s = elim (get_master s) [
    | err e ↦ if is_not_found e then (none, s) else (some (error_text e), s)
    | ok master ↦
        if master.ready_replicas == 0
        then (none, s)
        else (let (o, s1) = clean_cache pod path s in (text_of error_text o, s1))
  ]

  -- The engine whose cache is cleaned in this way.
  abbrev pub with_clean_cache : ShutdownApi S → ShutdownApi S
  with_clean_cache api = record api { invoke_clean_cache = invoke_clean_cache (codes "/") }

  skipped : (s : S) → is_gone (get_master s) ≡ true → invoke_clean_cache (codes "/") s ≡ (none, s)
  unfolding invoke_clean_cache
  skipped s h = ground arith

  -- If the master is missing or not ready, so that there is no cache to clean, then a shutdown whose
  -- retries are not used up fails all the same, as it does after a cache that was cleaned: it counts
  -- the try and changes nothing else.
  pub shutdown_of_gone_master :
      (api : ShutdownApi S) (s : EngineState S)
      → s.retry_shutdown < api.graceful_shutdown_limits
      → is_gone (get_master s.cluster) ≡ true
      → shutdown (with_clean_cache api) s ≡ (
        failed (message (codes "the remaining cached is not cleaned up, check again")),
        record s { retry_shutdown = s.retry_shutdown + 1 },
      )
  shutdown_of_gone_master api s h g =
      shutdown_of_cleaned_cache (with_clean_cache api) s s.cluster h (skipped s.cluster g)

module _ {S : Type 0} (api : ShutdownApi S) where
  -- The state after some tries.
  abbrev pub after_tries : ℕ → EngineState S → EngineState S
  after_tries zero s = s
  after_tries (suc n) s = after_tries n (shutdown api s).1

  -- A shutdown that goes on after the cache.
  abbrev pub PastCache : EngineState S → Type 0
  PastCache s = (c : S) × (shutdown api s ≡ close_channel api (record s { cluster = c }))

  past_or_counted :
      (s : EngineState S)
      → s.retry_shutdown < api.graceful_shutdown_limits
      → PastCache s ⊎ ((shutdown api s).1.retry_shutdown ≡ s.retry_shutdown + 1)
  unfolding shutdown
  past_or_counted s h = elim (Option-cases (cleanup_cache api s.cluster).0) [
    | inl clean ↦ inl ((cleanup_cache api s.cluster).1, ground arith)
    | inr (e, dirty) ↦ inr (ground arith)
  ]

  forced : (s : EngineState S) → api.graceful_shutdown_limits ≤ s.retry_shutdown → PastCache s
  unfolding shutdown
  forced s h = (s.cluster, ground arith)

  tries :
      (left : ℕ) (s : EngineState S)
      → api.graceful_shutdown_limits ≤ left + s.retry_shutdown
      → (n : ℕ) × (n ≤ left) × PastCache (after_tries n s)
  tries zero s h = (0, omega arith, forced s (omega (arith, h)))
  tries (suc left) s h = elim (Bool-cases (ltb s.retry_shutdown api.graceful_shutdown_limits)) [
    | inr done ↦ (0, omega arith, forced s (ground arith))
    | inl more ↦ (elim (past_or_counted s (ltb→lt _ _ more)) [
      | inl past ↦ (0, omega arith, past)
      | inr counted ↦
          (let (n, le, past) = tries left (shutdown api s).1 (omega (arith, counted, h)) in
            (suc n, omega (arith, le), past))
    ])
  ]

  -- Whatever Alluxio and the API server answer, a shutdown that is tried again and again gets past
  -- the cache, and that after no more tries than are left of its retries.
  pub shutdown-PastCache :
      (s : EngineState S) (left : ℕ)
      → api.graceful_shutdown_limits ≡ left + s.retry_shutdown
      → (n : ℕ) × (n ≤ left) × PastCache (after_tries n s)
  shutdown-PastCache s left h = tries left s (omega (arith, h))
