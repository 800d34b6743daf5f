-- ===== src/Kube/Volumes/Use.antt =====
-- Which pods and nodes use a claim: GetPvcMountNodes and ShouldDeleteDataset of
-- pkg/utils/kubeclient/volume.go against a plain count over the pods of the namespace.
use fluid_data_table.Base.{
  ℕ, zero, suc, ◌+◌, Bool, true, false, not, ◌||◌, ◌&&◌, Option, none, some, List, [], ◌∷◌, ◌++◌,
  ◌≡◌, ◌↔◌, refl, ◌∙◌, arith, if◌then◌else◌, is_empty, keep, any, all,
}
use fluid_data_table.Base.Text.{Text, str_eq, str_eq_iff}
use fluid_data_table.Base.Dict.{Dict, lookup, insert, lookup-insert}
use fluid_data_table.Base.Result.{ok}
use fluid_data_table.Kube.{Volume, Pod, Claim, KubeApi}
use fluid_data_table.Kube.Pods.{is_complete_pod}
use fluid_data_table.Kube.Volumes.{
  mounts_claim, is_claim, get_pvcs_from_pod, mounts_of, mount_pods, one_more, count_nodes,
  first_running, get_pvc_mount_pods, get_pvc_mount_nodes, should_delete_dataset,
  expected_fluid_annotations, has_annotations, is_persistent_volume_claim_exist,
}

-- Whether a pod that is not complete has been put on a node.
abbrev pub runs_on : Text → Pod → Bool
runs_on node pod =
    not (is_complete_pod (some pod) || is_empty pod.node_name) && str_eq pod.node_name node

-- How many of the volumes are the claim's.
abbrev pub volume_uses : Text → List Volume → ℕ
volume_uses claim [] = 0
volume_uses claim (volume ∷ volumes) =
    (if mounts_claim claim volume then 1 else 0) + volume_uses claim volumes

-- How many volumes of running pods on a node are the claim's.
abbrev pub node_uses : Text → Text → List Pod → ℕ
node_uses claim node [] = 0
node_uses claim node (pod ∷ pods) =
    (if runs_on node pod then volume_uses claim pod.volumes else 0) + node_uses claim node pods

-- A count of a map, which has no entry for zero.
abbrev pub plus : Option ℕ → ℕ → Option ℕ
plus o zero = o
plus none (suc n) = some (suc n)
plus (some k) (suc n) = some (k + suc n)

plus-plus : (o : Option ℕ) (a b : ℕ) → plus (plus o a) b ≡ plus o (a + b)
plus-plus o zero b = ground arith
plus-plus none (suc a) zero = ground arith
plus-plus none (suc a) (suc b) = ground arith
plus-plus (some k) (suc a) zero = ground arith
plus-plus (some k) (suc a) (suc b) = ground arith

pods_on : Text → List Pod → ℕ
pods_on node [] = 0
pods_on node (pod ∷ pods) = (if runs_on node pod then 1 else 0) + pods_on node pods

counted_once :
    (node place : Text) (m : Dict ℕ)
    → lookup node (insert place (one_more (lookup place m)) m)
      ≡ plus (lookup node m) (if str_eq place node then 1 else 0)
counted_once node place m =
    ground (arith, lookup-insert place node (one_more (lookup place m)) m, str_eq_iff place node)

lookup-count_nodes :
    (node : Text) (pods : List Pod) (m : Dict ℕ)
    → lookup node (count_nodes pods m) ≡ plus (lookup node m) (pods_on node pods)
unfolding count_nodes pods_on
lookup-count_nodes node [] m = refl
lookup-count_nodes node (pod ∷ pods) m =
    let place = pod.node_name in
    ground (
      arith,
      lookup-count_nodes node pods m,
      lookup-count_nodes node pods (insert place (one_more (lookup place m)) m),
      counted_once node place m,
      plus-plus (lookup node m) (if str_eq place node then 1 else 0) (pods_on node pods),
    )

pods_on-append :
    (node : Text) (xs ys : List Pod) → pods_on node (xs ++ ys) ≡ pods_on node xs + pods_on node ys
unfolding pods_on
pods_on-append node [] ys = omega arith
pods_on-append node (x ∷ xs) ys = ground (arith, pods_on-append node xs ys)

pods_on-mounts_of :
    (claim node : Text) (pod : Pod) (volumes : List Volume)
    → pods_on node (mounts_of claim pod (keep is_claim volumes))
      ≡ (if runs_on node pod then volume_uses claim volumes else 0)
unfolding pods_on mounts_of
pods_on-mounts_of claim node pod [] = ground arith
pods_on-mounts_of claim node pod (volume ∷ volumes) =
    ground (arith, pods_on-mounts_of claim node pod volumes)

pods_on-mount_pods :
    (claim node : Text) (pods : List Pod)
    → pods_on node (mount_pods claim pods) ≡ node_uses claim node pods
unfolding mount_pods pods_on get_pvcs_from_pod
pods_on-mount_pods claim node [] = refl
pods_on-mount_pods claim node (pod ∷ pods) =
    pods_on-append node (mounts_of claim pod (keep is_claim pod.volumes)) (mount_pods claim pods)
    ∙ ground
        (arith, pods_on-mounts_of claim node pod pod.volumes, pods_on-mount_pods claim node pods)

-- Whether a pod is complete or mounts no volume of the claim.
abbrev pub is_idle : Text → Pod → Bool
is_idle claim pod = not (any (mounts_claim claim) pod.volumes) || is_complete_pod (some pod)

first_running-append :
    (xs ys : List Pod) → first_running xs ≡ none → first_running (xs ++ ys) ≡ first_running ys
unfolding first_running
first_running-append [] ys h = refl
first_running-append (x ∷ xs) ys h = ground (arith, first_running-append xs ys)

first_running_of_pod :
    (claim : Text) (pod : Pod) (volumes : List Volume)
    → is_complete_pod (some pod) ≡ true
    → first_running (mounts_of claim pod (keep is_claim volumes)) ≡ none
unfolding first_running mounts_of
first_running_of_pod claim pod [] h = refl
first_running_of_pod claim pod (volume ∷ volumes) h =
    ground (arith, first_running_of_pod claim pod volumes h)

mounts_of_idle :
    (claim : Text) (pod : Pod) (volumes : List Volume)
    → any (mounts_claim claim) volumes ≡ false
    → mounts_of claim pod (keep is_claim volumes) ≡ []
unfolding mounts_of
mounts_of_idle claim pod [] h = refl
mounts_of_idle claim pod (volume ∷ volumes) h = ground (arith, mounts_of_idle claim pod volumes)

mounts_of_user :
    (claim : Text) (pod : Pod) (volumes : List Volume) (ys : List Pod)
    → is_complete_pod (some pod) ≡ false
    → any (mounts_claim claim) volumes ≡ true
    → first_running (mounts_of claim pod (keep is_claim volumes) ++ ys) ≡ some pod
unfolding mounts_of first_running
mounts_of_user claim pod [] ys c h = ground arith
mounts_of_user claim pod (volume ∷ volumes) ys c h =
    ground (arith, mounts_of_user claim pod volumes ys c)

-- The pod that stands in the way is the first one that is not idle.
pub first_running_iff :
    (claim : Text) (pods : List Pod)
    → (first_running (mount_pods claim pods) ≡ none) ↔ (all (is_idle claim) pods ≡ true)
unfolding mount_pods get_pvcs_from_pod first_running
first_running_iff claim [] = (λ _. refl, λ _. refl)
first_running_iff claim (pod ∷ pods) =
    let own = mounts_of claim pod (keep is_claim pod.volumes) in
    ground (
      arith,
      first_running_iff claim pods,
      first_running_of_pod claim pod pod.volumes,
      first_running-append own (mount_pods claim pods),
      mounts_of_idle claim pod pod.volumes,
      mounts_of_user claim pod pod.volumes (mount_pods claim pods),
    )

module _ {S : Type 0} (api : KubeApi S) (name namespace : Text) (s : S) where
  -- Where the pods of the namespace can be listed, GetPvcMountNodes gives for every node how many
  -- volumes of the pods that run there are the claim's, and has no entry for a node without one.
  pub lookup-get_pvc_mount_nodes :
      (node : Text) (pods : List Pod) (m : Dict ℕ)
      → api.list_pods namespace s ≡ ok pods
      → get_pvc_mount_nodes api name namespace s ≡ ok m
      → lookup node m ≡ plus none (node_uses name node pods)
  unfolding get_pvc_mount_nodes get_pvc_mount_pods lookup
  lookup-get_pvc_mount_nodes node pods m h e =
      ground (
        arith,
        lookup-count_nodes node (mount_pods name pods) [],
        pods_on-mount_pods name node pods,
      )

  -- If the claim is there and is one of Fluid's, and the pods of its namespace can be listed, then
  -- ShouldDeleteDataset returns no error exactly if every pod of the namespace is complete or
  -- mounts no volume of the claim.
  pub should_delete_dataset_iff :
      (pvc : Claim) (pods : List Pod)
      → api.get_claim namespace name s ≡ ok pvc
      → has_annotations expected_fluid_annotations pvc.annotations ≡ true
      → api.list_pods namespace s ≡ ok pods
      → (should_delete_dataset api name namespace s ≡ none) ↔ (all (is_idle name) pods ≡ true)
  unfolding should_delete_dataset get_pvc_mount_pods is_persistent_volume_claim_exist
  should_delete_dataset_iff pvc pods h1 h2 h3 = ground (arith, first_running_iff name pods)
