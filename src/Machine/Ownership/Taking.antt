-- ===== src/Machine/Ownership/Taking.antt =====
-- What claiming a Hardware and writing its user data (controller/machine/hardware.go) send.
use cluster_api_provider_tin.Prelude.{String, refl}
use cluster_api_provider_tin.Objects.{Hardware}
use cluster_api_provider_tin.Kube.{Env, Call, Scope}
use cluster_api_provider_tin.Kube.Sends.{
  Allows, hardware_target, Sends, Sends-pure, Sends-raise, Sends-gets, Sends-ask, Sends-if,
  Sends-bind,
}
use cluster_api_provider_tin.Machine.Ownership.{
  owned_by_other, hardware_already_claimed, take_hardware_ownership, ensure_hardware_user_data,
}

module _ {Q : Call → Type 0} (allow : Allows Q hardware_target) (e : Env) where
  pub take-Sends : (hw : Hardware) → Sends Q (take_hardware_ownership e hw)
  unfolding take_hardware_ownership
  take-Sends hw = Sends-bind _ _ (Sends-gets _) λ m.
      Sends-if (owned_by_other m hw) _ _ (Sends-raise _) (
        Sends-if (hardware_already_claimed e m hw) _ _ (Sends-pure hw)
          (Sends-ask _ _ (allow _ refl)))

  pub user_data-Sends :
      (sc : Scope) (hw : Hardware) (id : String) → Sends Q (ensure_hardware_user_data e sc hw id)
  unfolding ensure_hardware_user_data
  user_data-Sends sc hw id = Sends-if _ _ _ (Sends-pure hw) (Sends-ask _ _ (allow _ refl))
