-- ===== src/Runtime/Shutdown.antt =====
-- pkg/ddc/alluxio/shutdown.go: the end of an Alluxio engine.
pub mod Order
pub mod Cache
pub mod Candidates
use fluid_data_table.Base.{
  ℕ, ◌+◌, ◌-◌, Bool, true, false, not, ◌||◌, ◌&&◌, ltb, Option, none, some, List, [], ◌∷◌, ◌++◌,
  if◌then◌else◌, is_empty, length, keep, leb,
}
use fluid_data_table.Base.Text.{Text, codes, contains}
use fluid_data_table.Base.Dict.{Dict, lookup, has_key}
use fluid_data_table.Base.Int.{ℤ, pos, negsuc, ltb_ℤ, ◌-ℤ◌}
use fluid_data_table.Base.Result.{Error, Result, ok, err, message}
use fluid_data_table.Datatable.World.{Outcome, returned, failed, panicked}
use fluid_data_table.Runtime.Types.{Step}
use fluid_data_table.Runtime.Labels.{LabelToModify, label_value_pair, delete}
use fluid_data_table.Schedule.Node.{
  Node, NodeAddress, AddressType, internal_ip, internal_dns, other_address,
}
use fluid_data_table.Schedule.Info.{RuntimeInfo, get_common_label_name, get_exclusive_key}
use fluid_data_table.Schedule.Assign.{NodeApi, deletions, owned}

-- MetadataSyncDoneCh
pub data Channel : Type 0 where
  nil_channel open_channel closed_channel : Channel

-- The fields of AlluxioEngine that Shutdown uses, beside the state of the cluster.
pub record EngineState (S : Type 0) : Type 0 where
  pub retry_shutdown : ℕ
  pub metadata_sync_done : Channel
  pub cluster : S

-- What Shutdown calls: Helm, Alluxio's command line and the API server.
pub record ShutdownApi (S : Type 0) : Type 1 where
  pub nodes : NodeApi S
  pub name : Text
  pub runtime_type : Text
  pub graceful_shutdown_limits : ℕ
  -- invokeCleanCache("/"): the text of its error
  pub invoke_clean_cache : S → Option Text × S
  pub check_release : S → Result Bool × S
  pub delete_release : Step S
  pub delete_config_map : Text → Step S
  pub get_runtime_info : S → Result RuntimeInfo × S
  pub get_pvc_mount_nodes : S → Result (Dict ℕ) × S
  -- GetWorkerUsedCapacity: nil if it fails
  pub get_worker_used_capacity : S → Option (Dict ℕ) × S
  -- sort.Slice
  pub sort_slice : (Node → Node → Bool) → List Node → List Node

-- lookUpUsedCapacity of utils.go: the last address of each kind.
unfoldable pub last_address : AddressType → List NodeAddress → Text → Text
last_address kind [] found = found
last_address internal_ip (a ∷ addresses) found =
    last_address internal_ip addresses
      (elim a.type [ internal_ip ↦ a.address | internal_dns ↦ found | other_address ↦ found ])
last_address internal_dns (a ∷ addresses) found =
    last_address internal_dns addresses
      (elim a.type [ internal_ip ↦ found | internal_dns ↦ a.address | other_address ↦ found ])
last_address other_address (a ∷ addresses) found = last_address other_address addresses found

abbrev pub capacity_at : Text → Dict ℕ → Option ℕ
capacity_at key m = if is_empty key then none else lookup key m

unfoldable pub look_up_used_capacity : Node → Dict ℕ → ℕ
unfolding last_address
look_up_used_capacity node m = elim (capacity_at (last_address internal_ip node.addresses []) m) [
  | some used ↦ used
  | none ↦ (elim (capacity_at (last_address internal_dns node.addresses []) m) [
    | some used ↦ used
    | none ↦ 0
  ])
]

module _ {S : Type 0} (api : ShutdownApi S) where
  -- cleanupCache: an error of Alluxio that is not about a missing pod, and also a success, end with
  -- an error.
  unfoldable pub cleanup_cache : Step S
  cleanup_cache s =
      let (e, s1) = api.invoke_clean_cache s in
      elim e [
        | some text ↦
            if contains text (codes "not found")
              || contains text (codes "does not have a host assigned")
            then (none, s1)
            else (some (message text), s1)
        | none ↦ (some (message (codes "the remaining cached is not cleaned up, check again")), s1)
      ]

  -- destroyMaster
  unfoldable pub destroy_master : Step S
  destroy_master s =
      let (r, s1) = api.check_release s in
      elim r [
        | err e ↦ (some e, s1)
        | ok found ↦ if found then api.delete_release s1 else (none, s1)
      ]

  unfoldable pub delete_config_maps : List Text → Step S
  delete_config_maps [] s = (none, s)
  delete_config_maps (cm ∷ cms) s =
      let (e, s1) = api.delete_config_map cm s in
      elim e [ some x ↦ (some x, s1) | none ↦ delete_config_maps cms s1 ]

  -- cleanAll
  unfoldable pub clean_all : Step S
  clean_all = delete_config_maps (
      (api.name ++ (codes "-" ++ (api.runtime_type ++ codes "-values")))
      ∷ (api.name ++ codes "-config")
      ∷ [])

  -- The function that destroyWorkers retries.
  unfoldable pub destroy_step : RuntimeInfo → Text → Step (List LabelToModify × S)
  destroy_step info name (labels, s) =
      let (n, s1) = api.nodes.get_node name s in
      elim n [
        | err e ↦ (some e, (labels, s1))
        | ok node ↦
            (let gone : List LabelToModify =
                if owned api.nodes info node
                then delete (deletions api.nodes info labels) get_exclusive_key
                else deletions api.nodes info labels in
              let (x, s2) = api.nodes.patch_node name (label_value_pair gone []) s1 in
              (x, (gone, s2)))
      ]

  -- Whether `expectedWorkers == currentWorkers`.
  abbrev pub reached : ℤ → ℤ → Bool
  reached expected current = not (ltb_ℤ expected current) && not (ltb_ℤ current expected)

  -- The end of a round: its error, or what the other rounds come to.
  abbrev pub round_result : Option Error → ℤ → S → (ℤ × Option Error) × S → (ℤ × Option Error) × S
  round_result none current s gone = gone
  round_result (some e) current s gone = ((current, some e), s)

  -- The loop over the nodes: how many workers are left, and an error.
  unfoldable pub destroy_loop : RuntimeInfo → ℤ → List Node → ℤ → S → (ℤ × Option Error) × S
  destroy_loop info expected [] current s = ((current, none), s)
  destroy_loop info expected (node ∷ nodes) current s =
      let (x, (_, s1)) =
        api.nodes.retry_on_conflict (List LabelToModify × S) (destroy_step info node.name)
          ([], s) in
      let skip = destroy_loop info expected nodes current s in
      let gone = destroy_loop info expected nodes (current -ℤ pos 1) s1 in
      if reached expected current
      then ((current, none), s)
      else if is_empty node.labels
      then skip
      else round_result x current s1 gone

  -- Before the sort of sortNodesToShutdown: nodes where a pod mounts the volume are left out, unless
  -- fuses are deployed globally.
  unfoldable pub shutdown_candidates : List Node → Bool → S → Result (List Node) × S
  shutdown_candidates nodes true s = (ok nodes, s)
  shutdown_candidates nodes false s =
      let (r, s1) = api.get_pvc_mount_nodes s in
      elim r [
        | err e ↦ (err e, s1)
        | ok mounts ↦ (ok (keep (λ (n : Node). not (has_key n.name mounts)) nodes), s1)
      ]

  abbrev pub less_used : Dict ℕ → Node → Node → Bool
  less_used used a b = ltb (look_up_used_capacity a used) (look_up_used_capacity b used)

  abbrev pub sorted_by_use : Option (Dict ℕ) → List Node → List Node
  sorted_by_use none nodes = nodes
  sorted_by_use (some used) nodes =
      if leb 2 (length nodes) then api.sort_slice (less_used used) nodes else nodes

  -- sortNodesToShutdown
  unfoldable pub sort_nodes_to_shutdown : List Node → Bool → S → Result (List Node) × S
  sort_nodes_to_shutdown nodes fuse_global s =
      let (r, s1) = shutdown_candidates nodes fuse_global s in
      elim r [
        | err e ↦ (err e, s1)
        | ok candidates ↦
            (let (used, s2) = api.get_worker_used_capacity s1 in
              (ok (sorted_by_use used candidates), s2))
      ]

  -- The nodes of the loop: sorted for a number of workers that stay, as they are for -1.
  unfoldable pub nodes_to_destroy : ℤ → List Node → S → Result (List Node) × S
  nodes_to_destroy (pos n) nodes s = sort_nodes_to_shutdown nodes true s
  nodes_to_destroy (negsuc n) nodes s = (ok nodes, s)

  -- destroyWorkers: the nodes are those with the value "true" for the common label.
  unfoldable pub destroy_workers : ℤ → S → (ℤ × Option Error) × S
  destroy_workers expected s =
      let (r, s1) = api.get_runtime_info s in
      elim r [
        | err e ↦ ((pos 0, some e), s1)
        | ok info ↦ (elim (api.nodes.parse_selector (get_common_label_name info)) [
          | some e ↦ ((pos 0, some e), s1)
          | none ↦
              (let (l, s2) = api.nodes.list_labelled (get_common_label_name info) s1 in
                elim l [
                  | err e ↦ ((pos 0, some e), s2)
                  | ok listed ↦
                      if not (ltb_ℤ expected (pos (length listed)))
                      then ((pos (length listed), none), s2)
                      else (let (n, s3) = nodes_to_destroy expected listed s2 in
                          elim n [
                            | err e ↦ ((pos (length listed), some e), s3)
                            | ok nodes ↦ destroy_loop info expected nodes (pos (length listed)) s3
                          ])
                ])
        ])
      ]

  -- A step on the cluster as a step of the engine; `close` of a channel that is closed panics.
  abbrev pub on_cluster :
      Option Error × S
      → EngineState S
      → (S → Outcome (Unit {0}) × EngineState S)
      → Outcome (Unit {0}) × EngineState S
  on_cluster (some e, c) s next = (failed e, record s { cluster = c })
  on_cluster (none, c) s next = next c

  abbrev pub finished : Option Error × S → EngineState S → Outcome (Unit {0}) × EngineState S
  finished (some e, c) s = (failed e, record s { cluster = c })
  finished (none, c) s = (returned tt, record s { cluster = c })

  -- Shutdown after the cache and the channel: the workers, the master and the rest.
  unfoldable pub destroy_all : EngineState S → Outcome (Unit {0}) × EngineState S
  destroy_all s =
      let (w, s1) = destroy_workers (negsuc 0) s.cluster in
      on_cluster (w.1, s1) s λ s1. on_cluster (destroy_master s1) s λ s2. finished (clean_all s2) s

  unfoldable pub close_channel : EngineState S → Outcome (Unit {0}) × EngineState S
  close_channel s = elim s.metadata_sync_done [
    | nil_channel ↦ destroy_all s
    | open_channel ↦ destroy_all (record s { metadata_sync_done = closed_channel })
    | closed_channel ↦ (panicked, s)
  ]

  -- Shutdown
  unfoldable pub shutdown : EngineState S → Outcome (Unit {0}) × EngineState S
  shutdown s =
      if ltb s.retry_shutdown api.graceful_shutdown_limits
      then (let (e, c) = cleanup_cache s.cluster in
          elim e [
            | some x ↦ (failed x, record s { retry_shutdown = s.retry_shutdown + 1; cluster = c })
            | none ↦ close_channel (record s { cluster = c })
          ])
      else close_channel s
