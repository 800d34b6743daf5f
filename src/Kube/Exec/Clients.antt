-- ===== src/Kube/Exec/Clients.antt =====
-- The client of pkg/utils/kubeclient/exec.go: who makes it, and who needs it.
use fluid_data_table.Base.{true, false, none, List, [], ◌∷◌, ◌≡◌, ◌↔◌, ◌⊎◌, inl, inr, refl, arith}
use fluid_data_table.Base.Text.{Text}
use fluid_data_table.Base.Result.{Error, Result, ok, err}
use fluid_data_table.Datatable.World.{panicked}
use fluid_data_table.Kube.Exec.{Globals, ExecApi, init_client, exec_command_in_pod}

no_containers :
    (r : Result (List Text))
    → (r ≡ ok [])
      ⊎ (((c : Text) × (cs : List Text) × (r ≡ ok (c ∷ cs))) ⊎ ((e : Error) × (r ≡ err e)))
no_containers (ok []) = inl refl
no_containers (ok (c ∷ cs)) = inr (inl (c, cs, refl))
no_containers (err e) = inr (inr (e, refl))

module _ {C S : Type 0} (api : ExecApi C S) where
  -- Once it has been made, the client stays.
  pub init_client_once :
      (g g1 : Globals C)
      → init_client api g ≡ (none, g1)
      → (g1.clientset ≡ true) × (init_client api g1 ≡ (none, g1))
  unfolding init_client
  init_client_once g g1 h = ground arith

  -- ExecCommandInPod panics exactly if no client has been made before or the pod that it reads has
  -- no container.
  pub exec_command_in_pod_panics :
      (pod_name namespace : Text) (command : List Text) (g : Globals C) (s : S)
      → ((exec_command_in_pod api pod_name namespace command (g, s)).0 ≡ panicked)
        ↔ ((g.clientset ≡ false) ⊎ (api.get_containers namespace pod_name s ≡ ok []))
  unfolding exec_command_in_pod
  exec_command_in_pod_panics pod_name namespace command g s =
      elim (no_containers (api.get_containers namespace pod_name s)) [
        | inl k ↦ (λ h. inr k, λ h. ground arith)
        | inr (inl (c, cs, k)) ↦
            (λ h. inl (ground arith), λ h. elim h [ inl n ↦ ground arith | inr n ↦ ground arith ])
        | inr (inr (e, k)) ↦
            (λ h. inl (ground arith), λ h. elim h [ inl n ↦ ground arith | inr n ↦ ground arith ])
      ]
