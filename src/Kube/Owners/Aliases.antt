-- ===== src/Kube/Owners/Aliases.antt =====
-- The pointers that GetPodsForStatefulSet of pkg/utils/kubeclient/statefulset.go returns.
use fluid_data_table.Base.{ℕ, ◌+◌, Bool, false, none, List, [], ◌∷◌, ◌++◌, ◌≡◌, arith, length, keep}
use fluid_data_table.Base.Text.{Text}
use fluid_data_table.Base.Result.{Result, ok, err}
use fluid_data_table.Kube.{Pod}
use fluid_data_table.Kube.Objects.{empty_pod}
use fluid_data_table.Kube.Owners.{
  Target, OwnerApi, matches, match_loop, get_pods_for_stateful_set, replicate,
}

abbrev pub is_ok_true : Result Bool → Bool
is_ok_true (ok b) = b
is_ok_true (err e) = false

module _ {S : Type 0} (api : OwnerApi S) (set : Target) (s : S) where
  match_loop_lem :
      (pods : List Pod) (last start : Pod) (n : ℕ)
      → (match_loop api set s (pods ++ (last ∷ [])) n start).1 ≡ none
      → match_loop api set s (pods ++ (last ∷ [])) n start ≡ (
        (
          n + length (keep (λ (p : Pod). is_ok_true (matches api set s p)) (pods ++ (last ∷ []))),
          last,
        ),
        none,
      )
  unfolding match_loop
  match_loop_lem [] last start n h = ground arith
  match_loop_lem (pod ∷ pods) last start n h =
      ground (arith, match_loop_lem pods last pod (n + 1), match_loop_lem pods last pod n)

  -- Where no read fails, GetPodsForStatefulSet returns as many pods as belong to the set, but each of
  -- them is the last pod of the list that it has searched, also if that one does not belong to it.
  pub get_pods_for_stateful_set_aliased :
      (selector : Text) (pods : List Pod) (last : Pod)
      → api.list_selected selector s ≡ ok (pods ++ (last ∷ []))
      → (get_pods_for_stateful_set api set selector s).1 ≡ none
      → (get_pods_for_stateful_set api set selector s).0
        ≡ replicate
            (length (keep (λ (p : Pod). is_ok_true (matches api set s p)) (pods ++ (last ∷ []))))
            last
  unfolding get_pods_for_stateful_set
  get_pods_for_stateful_set_aliased selector pods last h e =
      ground (arith, match_loop_lem pods last empty_pod 0)
