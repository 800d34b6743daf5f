-- ===== src/Runtime/Shutdown/Candidates.antt =====
-- The nodes that sortNodesToShutdown of pkg/ddc/alluxio/shutdown.go takes, with the count of mounting
-- pods of pkg/utils/kubeclient/volume.go.
use mathlib.Core.Path.{subst}
use fluid_data_table.Base.{
  ℕ, zero, suc, true, false, not, none, List, ◌≡◌, refl, sym, ◌∙◌, arith, All, All-keep, keep, inl,
  inr,
}
use fluid_data_table.Base.Text.{Text}
use fluid_data_table.Base.Dict.{Dict, lookup, has_key}
use fluid_data_table.Base.Result.{Result-cases, ok}
use fluid_data_table.Schedule.Node.{Node}
use fluid_data_table.Kube.{Pod, KubeApi}
use fluid_data_table.Kube.Volumes.{get_pvc_mount_nodes}
use fluid_data_table.Kube.Volumes.Use.{plus, node_uses, lookup-get_pvc_mount_nodes}
use fluid_data_table.Runtime.Shutdown.{ShutdownApi, shutdown_candidates}

no_uses : (n : ℕ) → plus none n ≡ none → n ≡ 0
no_uses zero h = refl
no_uses (suc n) h = cc

absent : (k : Text) (m : Dict ℕ) → not (has_key k m) ≡ true → lookup k m ≡ none
absent k m h = ground arith

module _ {S : Type 0} (api : ShutdownApi S) (kube : KubeApi S) (namespace : Text) (s : S) where
  idle_nodes :
      (pods : List Pod) (m : Dict ℕ) (nodes : List Node)
      → kube.list_pods namespace s ≡ ok pods
      → get_pvc_mount_nodes kube api.name namespace s ≡ ok m
      → All
          (λ (n : Node). node_uses api.name n.name pods ≡ 0)
          (keep (λ (n : Node). not (has_key n.name m)) nodes)
  idle_nodes pods m nodes h k =
      All-keep (λ (n : Node). node_uses api.name n.name pods ≡ 0)
        (λ (n : Node). not (has_key n.name m)) nodes
        λ n unused. no_uses (node_uses api.name n.name pods) (
          sym (lookup-get_pvc_mount_nodes kube api.name namespace s n.name pods m h k)
          ∙ absent n.name m unused)

  -- Where the mounting pods are counted by GetPvcMountNodes and fuses are not global, a node that is
  -- taken for a shutdown has no running pod that mounts the engine's volume.
  pub shutdown_candidates-All :
      (pods : List Pod) (nodes candidates : List Node) (s1 : S)
      → api.get_pvc_mount_nodes s ≡ (get_pvc_mount_nodes kube api.name namespace s, s)
      → kube.list_pods namespace s ≡ ok pods
      → shutdown_candidates api nodes false s ≡ (ok candidates, s1)
      → All (λ (n : Node). node_uses api.name n.name pods ≡ 0) candidates
  unfolding shutdown_candidates
  shutdown_candidates-All pods nodes candidates s1 h k e =
      elim (Result-cases (get_pvc_mount_nodes kube api.name namespace s)) [
        | inl (m, counted) ↦
            (let same : keep (λ (n : Node). not (has_key n.name m)) nodes ≡ candidates =
                ground arith in
              subst (All (λ (n : Node). node_uses api.name n.name pods ≡ 0)) same
                (idle_nodes pods m nodes k counted))
        | inr (x, failed) ↦ ground arith
      ]
