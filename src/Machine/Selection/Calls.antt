-- ===== src/Machine/Selection/Calls.antt =====
-- What hardwareForMachine (controller/machine/hardware.go) sends.
use cluster_api_provider_tin.Prelude.{Option, none, some, List, [], ◌∷◌, refl}
use cluster_api_provider_tin.Objects.{Hardware, HardwareAffinity, HardwareAffinityTerm}
use cluster_api_provider_tin.Kube.{Env, Call}
use cluster_api_provider_tin.Kube.Sends.{
  Allows, hardware_target, Sends, Sends-pure, Sends-raise, Sends-lift, Sends-gets, Sends-ask,
  Sends-if, Sends-bind,
}
use cluster_api_provider_tin.Machine.Selection.{
  unowned, list_term, list_terms, assigned_hardware, or_select, hardware_for_machine,
}

module _ {Q : Call → Type 0} (allow : Allows Q hardware_target) (e : Env) where
  list_term-Sends : (t : HardwareAffinityTerm) → Sends Q (list_term e t)
  unfolding list_term
  list_term-Sends t =
      Sends-if (e.selector_valid (unowned t)) _ _ (Sends-ask _ _ (allow _ refl)) (Sends-raise _)

  list_terms-Sends : (ts : List HardwareAffinityTerm) → Sends Q (list_terms e ts)
  unfolding list_terms
  list_terms-Sends [] = Sends-pure []
  list_terms-Sends (t ∷ ts) =
      let later = list_terms-Sends ts in
      Sends-bind _ _ (list_term-Sends t) λ matched. Sends-bind _ _ later λ rest. Sends-pure _

  assigned-Sends : Sends Q (assigned_hardware e)
  unfolding assigned_hardware
  assigned-Sends =
      Sends-bind _ _ (Sends-gets _)
        λ m. Sends-bind _ _ (Sends-ask _ _ (allow _ refl)) λ owned. Sends-pure _

  or_select-Sends : (a : Option HardwareAffinity) (o : Option Hardware) → Sends Q (or_select e a o)
  unfolding or_select
  or_select-Sends a (some hw) = Sends-pure hw
  or_select-Sends a none = Sends-bind _ _ (list_terms-Sends _) λ hardware. Sends-lift _

  pub hardware_for_machine-Sends : Sends Q (hardware_for_machine e)
  unfolding hardware_for_machine
  hardware_for_machine-Sends =
      Sends-bind _ _ (Sends-gets _) λ m. Sends-bind _ _ assigned-Sends (or_select-Sends _)
