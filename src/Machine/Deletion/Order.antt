-- ===== src/Machine/Deletion/Order.antt =====
-- The order of a deletion (DeleteMachineWithDependencies of controller/machine/scope.go): what
-- runs on the Hardware goes first, then the Hardware is given back, and the machine's finalizers
-- go last.
use cluster_api_provider_tin.Prelude.{String, ◌≡◌, refl, subst, true, Option, [], ◌∷◌}
use cluster_api_provider_tin.Objects.{Hardware}
use cluster_api_provider_tin.Kube.{
  Env, Result, ok, err, Call, Family, ScopeState, Scope, Exec, gets, ask, attempt, modify, continue,
  ◌>>=◌,
}
use cluster_api_provider_tin.Kube.Sends.{claim_read_target, address_target, after}
use cluster_api_provider_tin.Machine.Ownership.{
  disowned, released, reservation_to_clear, release_hardware,
}
use cluster_api_provider_tin.Machine.Ownership.Calls.{reservation_to_clear-Sends}
use cluster_api_provider_tin.Machine.Deletion.{
  default_namespace, hardware_key, remove_dependencies, power_off, release_claim_and_finalizer,
  delete_with_hardware, get_hardware_for_machine, delete_machine_with_dependencies,
}
use cluster_api_provider_tin.Machine.Deletion.GivenUp.{release_claim_and_finalizer-GivenUp}
use cluster_api_provider_tin.Machine.Deletion.Cleanup.{
  CleanedUp, start-CleanedUp, cleanup, Deletion, refused, given_back, bind_cleanup,
  remove_dependencies-Sends, power_off-IsCleanup,
}

continue_assoc :
    {A B C : Type 0}
    → (f : A → Exec B) → (g : B → Exec C) → (r : Result A) → (s : ScopeState)
    → continue r (λ a. f a >>= g) s ≡ continue (continue r f s).0 g (continue r f s).1
unfolding ◌>>=◌
continue_assoc f g (ok a) s = refl
continue_assoc f g (err x) s = refl

module _ (e : Env) (sc : Scope) (hw : Hardware) where
  -- The answer to the release of the Hardware.
  answered :
      (reservation : Option (String × Option Family)) (r : Result Hardware) (s : ScopeState)
      → e.patch_hardware s.trace hw (released e hw reservation) true ≡ r
      → Deletion e hw s (
          continue r
            (λ h. release_claim_and_finalizer e sc)
            (after (Call.patch_hardware hw (released e hw reservation) true ∷ []) s))
  answered reservation (err x) s h = refused x reservation [] refl h tt
  answered reservation (ok answer) s h =
      let release = Call.patch_hardware hw (released e hw reservation) true in
      given_back reservation answer [] h tt
        (release_claim_and_finalizer-GivenUp e (after (release ∷ []) s) sc)

  send_release : Option (String × Option Family) → Exec (Unit {0})
  send_release reservation =
      let hw' = released e hw reservation in
      ask (Call.patch_hardware hw hw' true) (λ t. e.patch_hardware t hw hw' true) >>= λ h.
      release_claim_and_finalizer e sc

  send_release_order :
      (reservation : Option (String × Option Family)) (s : ScopeState)
      → Deletion e hw s (send_release reservation s)
  unfolding send_release ◌>>=◌ ask
  send_release_order reservation s =
      answered reservation (e.patch_hardware s.trace hw (released e hw reservation) true) s refl

  release_order :
      (s : ScopeState)
      → Deletion e hw s ((release_hardware e hw >>= λ h. release_claim_and_finalizer e sc) s)
  unfolding release_hardware gets send_release ◌>>=◌
  release_order s =
      let pool = s.machine.spec.address_from_pool in
      let first = reservation_to_clear e (disowned hw) pool in
      subst (Deletion e hw s)
        (continue_assoc _ (λ h. release_claim_and_finalizer e sc) (first s).0 (first s).1)
        (bind_cleanup first send_release
          (reservation_to_clear-Sends (cleanup claim_read_target refl) (cleanup address_target refl)
            e (disowned hw) pool)
          send_release_order s)

  delete_with_hardware_order :
      (s : ScopeState)
      → Deletion e hw s (delete_with_hardware e sc (ok hw) s)
        × CleanedUp e s (delete_with_hardware e sc (ok hw) s)
  unfolding delete_with_hardware
  delete_with_hardware_order s =
      let rest = λ (u : Unit {0}).
        bind_cleanup (power_off e sc hw) _ (power_off-IsCleanup e sc hw) λ v. release_order in
      (
        bind_cleanup (remove_dependencies e sc) _ (remove_dependencies-Sends e sc) rest s,
        start-CleanedUp e sc hw _ rest s,
      )

  -- A deletion whose machine has a Hardware first removes the Template, the Tasks and the Workflow,
  -- and if one of them does not go it fails and gives up nothing. Then it makes calls that give up
  -- nothing; it fails there, or it asks for the release of the Hardware, and ends if that is
  -- refused. Only once the release is accepted does it give up the rest: the server refuses a step
  -- of the release of the claim of the address, and the machine keeps its finalizers, or the claim
  -- is gone and then the last call removes the machine's finalizers, and its answer is the result.
  pub delete_machine_order :
      (s : ScopeState)
      → e.get_hardware s.trace (hardware_key (default_namespace s.machine)) ≡ ok hw
      → let key = hardware_key (default_namespace s.machine) in
        let s' : ScopeState = record s {
          machine = default_namespace s.machine;
          trace = Call.get_hardware key ∷ s.trace;
        } in
        let r = delete_machine_with_dependencies e sc s in Deletion e hw s' r × CleanedUp e s' r
  unfolding delete_machine_with_dependencies get_hardware_for_machine modify gets ask attempt ◌>>=◌
  delete_machine_order s found = rw found (delete_with_hardware_order _)
