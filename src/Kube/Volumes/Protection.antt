-- ===== src/Kube/Volumes/Protection.antt =====
-- The protection of a claim and its deletion, of pkg/utils/kubeclient/volume.go, over an API server
-- that keeps what is written to it.
use fluid_data_table.Base.{
  ℕ, ◌+◌, ◌≤◌, true, false, not, ◌&&◌, none, some, List, [], ◌≡◌, arith, all, Bool-cases,
  Option-cases, inl, inr,
}
use fluid_data_table.Base.Text.{Text, str_eq}
use fluid_data_table.Base.Dict.{Dict}
use fluid_data_table.Base.Result.{Result-cases, ok, err, not_found}
use fluid_data_table.Datatable.Reconcile.{contains_string, remove_string}
use fluid_data_table.Datatable.Reconcile.Finalizer.{contains_string-remove_string}
use fluid_data_table.Kube.{Pod, Claim, KubeApi}
use fluid_data_table.Kube.Volumes.{
  protection_finalizer, first_running, mount_pods, get_pvc_mount_pods, pods_are_complete, is_stuck,
  should_remove_protection_finalizer, remove_protection_finalizer, delete_persistent_volume_claim,
  is_persistent_volume_claim_exist,
}
use fluid_data_table.Kube.Volumes.Use.{is_idle, first_running_iff}

-- What the API server promises: a claim that is read after a write is the written one (a claim that
-- is being deleted goes away with its last finalizer), and one without finalizers that was deleted
-- is not found.
pub record KubeLaws {S : Type 0} (api : KubeApi S) : Type 0 where
  pub written :
      (pvc after : Claim) (s s' : S)
      → api.update_claim pvc s ≡ (none, s')
      → api.get_claim pvc.namespace pvc.name s' ≡ ok after
      → after ≡ pvc
  pub deleted :
      (pvc : Claim) (s s' : S)
      → pvc.finalizers ≡ []
      → api.delete_claim pvc s ≡ (none, s')
      → api.get_claim pvc.namespace pvc.name s' ≡ err not_found
  pub named :
      (namespace name : Text) (pvc : Claim) (s : S)
      → api.get_claim namespace name s ≡ ok pvc
      → (pvc.namespace ≡ namespace) × (pvc.name ≡ name)

module _ {S : Type 0} (api : KubeApi S) (name namespace : Text) where
  stuck :
      (pvc : Claim) (s : S)
      → is_stuck api pvc s ≡ true
      → (contains_string pvc.finalizers protection_finalizer ≡ true)
        × ((deleted : ℕ) × (pvc.deletion_timestamp ≡ some deleted) × (deleted + 30 ≤ api.now s))
  stuck pvc s h = elim (Option-cases pvc.deletion_timestamp) [
    | inl e ↦ ground arith
    | inr (deleted, e) ↦ (ground arith, (deleted, e, ground arith))
  ]

  answered :
      (s : S) (pvc : Claim) (pods : List Pod)
      → api.get_claim namespace name s ≡ ok pvc
      → api.list_pods namespace s ≡ ok pods
      → should_remove_protection_finalizer api name namespace s ≡ ok true
      → (is_stuck api pvc s ≡ true) × (first_running (mount_pods name pods) ≡ none)
  unfolding should_remove_protection_finalizer pods_are_complete get_pvc_mount_pods
  answered s pvc pods h1 h2 h3 = elim (Bool-cases (is_stuck api pvc s)) [
    | inl e ↦ ground arith
    | inr e ↦ ground arith
  ]

  -- The answer of ShouldRemoveProtectionFinalizer is yes only if the claim has its finalizer, has
  -- been terminating for at least 30 seconds, and every pod of the namespace is complete or mounts
  -- no volume of the claim; the claim and the pods of the namespace are those that are read.
  pub should_remove_protection_finalizer_safe :
      (s : S) (pvc : Claim) (pods : List Pod)
      → api.get_claim namespace name s ≡ ok pvc
      → api.list_pods namespace s ≡ ok pods
      → should_remove_protection_finalizer api name namespace s ≡ ok true
      → (contains_string pvc.finalizers protection_finalizer ≡ true)
        × ((deleted : ℕ) × (pvc.deletion_timestamp ≡ some deleted) × (deleted + 30 ≤ api.now s))
        × (all (is_idle name) pods ≡ true)
  should_remove_protection_finalizer_safe s pvc pods h1 h2 h3 =
      let a = answered s pvc pods h1 h2 h3 in
      let st = stuck pvc s a.0 in (st.0, st.1, (first_running_iff name pods).0 a.1)

  -- If the API server keeps what is written, then a claim from which RemoveProtectionFinalizer takes
  -- the finalizer without an error, where it is read again, is without it and has all its other
  -- finalizers.
  pub remove_protection_finalizer_lem :
      (laws : KubeLaws api) (s s' : S) (pvc : Claim)
      → api.get_claim namespace name s ≡ ok pvc
      → remove_protection_finalizer api name namespace s ≡ (none, s')
      → (other : Text) → (after : Claim) → api.get_claim namespace name s' ≡ ok after
      → contains_string after.finalizers other
        ≡ (not (str_eq protection_finalizer other) && contains_string pvc.finalizers other)
  unfolding remove_protection_finalizer
  remove_protection_finalizer_lem laws s s' pvc h1 h2 other after h3 =
      let new : Claim = record pvc {
        finalizers = remove_string pvc.finalizers protection_finalizer;
      } in
      let named = laws.named namespace name pvc s h1 in
      let k : api.update_claim new s ≡ (none, s') = ground arith in
      let read : api.get_claim pvc.namespace pvc.name s' ≡ ok after = ground arith in
      let same : after ≡ new = laws.written new after s s' k read in
      ground (arith, contains_string-remove_string pvc.finalizers protection_finalizer other)

  -- If the API server forgets what is deleted, then after a deletion without an error of a claim
  -- that has no finalizers, or is missing, the claim does not exist, whatever annotations are asked
  -- for.
  pub is_persistent_volume_claim_exist-delete :
      (laws : KubeLaws api) (annotations : Dict Text) (s s' : S)
      → (bare : (pvc : Claim) → api.get_claim namespace name s ≡ ok pvc → pvc.finalizers ≡ [])
      → delete_persistent_volume_claim api name namespace s ≡ (none, s')
      → is_persistent_volume_claim_exist api name namespace annotations s' ≡ ok false
  unfolding delete_persistent_volume_claim is_persistent_volume_claim_exist
  is_persistent_volume_claim_exist-delete laws annotations s s' bare h =
      elim (Result-cases (api.get_claim namespace name s)) [
        | inl (pvc, e) ↦
            (let named = laws.named namespace name pvc s e in
              let k : api.delete_claim pvc s ≡ (none, s') = ground arith in
              let gone = laws.deleted pvc s s' (bare pvc e) k in ground arith)
        | inr (e, h2) ↦ ground arith
      ]
