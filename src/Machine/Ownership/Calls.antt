-- ===== src/Machine/Ownership/Calls.antt =====
-- What the release of a Hardware sends before its patch (controller/machine/hardware.go).
use cluster_api_provider_tin.Prelude.{Option, none, some}
use cluster_api_provider_tin.Objects.{Hardware, IpPoolReference}
use cluster_api_provider_tin.Kube.{Env, Call}
use cluster_api_provider_tin.Kube.Sends.{
  Allows, claim_read_target, address_target, Sends, Sends-pure, Sends-bind,
}
use cluster_api_provider_tin.Machine.Ipam.Calls.{reservation-Sends}
use cluster_api_provider_tin.Machine.Ownership.{reservation_to_clear}

pub reservation_to_clear-Sends :
    {Q : Call → Type 0} (reads : Allows Q claim_read_target) (addresses : Allows Q address_target)
    (e : Env) (hw : Hardware) (pool : Option IpPoolReference)
    → Sends Q (reservation_to_clear e hw pool)
unfolding reservation_to_clear
reservation_to_clear-Sends reads addresses e hw none = Sends-pure none
reservation_to_clear-Sends reads addresses e hw (some pool) =
    Sends-bind _ _ (reservation-Sends reads addresses e hw pool) λ r. Sends-pure _
