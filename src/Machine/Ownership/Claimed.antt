-- ===== src/Machine/Ownership/Claimed.antt =====
-- Claiming a Hardware: what is sent, and that a claim is taken once.
use cluster_api_provider_tin.Prelude.{
  ◌≡◌, refl, ◌∙◌, ◌≢◌, ◌⊎◌, inl, inr, true, false, none, some, ◌∷◌, arith, eq_iff, eq_refl, lookup,
  lookup-insert, value, Bool-cases,
}
use cluster_api_provider_tin.Objects.{Hardware, TinkerbellMachine}
use cluster_api_provider_tin.Kube.{
  Env, FinalizerLaws, ok, err, hardware_claim_requeue, Call, ScopeState, pure, raise, lift, gets,
  ask, attempt, modify, ◌>>=◌,
}
use cluster_api_provider_tin.Machine.Ownership.{
  hardware_owner_name_label, hardware_owner_namespace_label, machine_finalizer,
  machine_legacy_finalizer, owned_by_other, hardware_already_claimed, claim,
  take_hardware_ownership,
}

-- No machine owns the Hardware, or this one does.
abbrev pub IsClaimable : TinkerbellMachine → Hardware → Type 0
IsClaimable m hw =
    (lookup hardware_owner_name_label hw.meta.labels ≡ none)
    ⊎ ((lookup hardware_owner_name_label hw.meta.labels ≡ some m.meta.name)
        × (value hardware_owner_namespace_label hw.meta.labels ≡ m.meta.namespace))

owner_differs_lem :
    (m : TinkerbellMachine) (hw : Hardware) → owned_by_other m hw ≡ false → IsClaimable m hw
unfolding owned_by_other
owner_differs_lem m hw h = ground (
  arith,
  eq_iff (value hardware_owner_namespace_label hw.meta.labels) m.meta.namespace,
  eq_iff (value hardware_owner_name_label hw.meta.labels) m.meta.name,
)

-- Taking ownership sends nothing, or one patch with the optimistic lock that carries the claim of
-- this machine; and it sends one only for a Hardware that no machine owns or that this one owns.
pub take_hardware_ownership-Sends :
    (e : Env) (hw : Hardware) (s : ScopeState)
    → ((take_hardware_ownership e hw s).1 ≡ s)
      ⊎ (((take_hardware_ownership e hw s).1
            ≡ record s { trace = Call.patch_hardware hw (claim e s.machine hw) true ∷ s.trace })
          × IsClaimable s.machine hw)
unfolding take_hardware_ownership pure raise lift gets ask attempt modify ◌>>=◌
take_hardware_ownership-Sends e hw s = elim (Bool-cases (owned_by_other s.machine hw)) [
  | inl other ↦ inl (rw other refl)
  | inr mine ↦ rw mine (ground (arith, owner_differs_lem s.machine hw mine))
]

claim_labels :
    (e : Env) (m : TinkerbellMachine) (hw : Hardware)
    → (lookup hardware_owner_name_label (claim e m hw).meta.labels ≡ some m.meta.name)
      × (value hardware_owner_namespace_label (claim e m hw).meta.labels ≡ m.meta.namespace)
unfolding claim
claim_labels e m hw = (simp lookup-insert refl, simp lookup-insert refl)

claim_finalizers :
    (e : Env) (laws : FinalizerLaws e) (m : TinkerbellMachine) (hw : Hardware)
    → (e.contains_finalizer (claim e m hw).meta.finalizers machine_finalizer ≡ true)
      × (e.contains_finalizer (claim e m hw).meta.finalizers machine_legacy_finalizer ≡ false)
unfolding claim
claim_finalizers e laws m hw =
    let without = e.remove_finalizer hw.meta.finalizers machine_legacy_finalizer in
    (
      laws.contains-add_self without machine_finalizer,
      laws.contains-add_ne without machine_finalizer machine_legacy_finalizer
            (λ p. ground (arith, eq_iff machine_finalizer machine_legacy_finalizer))
          ∙ laws.contains-remove_self hw.meta.finalizers machine_legacy_finalizer,
    )

-- A Hardware that a machine has claimed is already claimed for it: a second claim sends nothing
-- and succeeds.
take_hardware_ownership-claim :
    (e : Env) (hw : Hardware) (s : ScopeState)
    → FinalizerLaws e
    → take_hardware_ownership e (claim e s.machine hw) s ≡ (ok (claim e s.machine hw), s)
unfolding take_hardware_ownership owned_by_other hardware_already_claimed pure raise lift gets ask
    attempt modify ◌>>=◌
take_hardware_ownership-claim e hw s laws =
    let (name, namespace) = claim_labels e s.machine hw in
    let (new, legacy) = claim_finalizers e laws s.machine hw in
    rw (name, namespace, new, legacy, eq_refl s.machine.meta.name, eq_refl s.machine.meta.namespace)
      refl

-- A machine with another name or namespace cannot take a Hardware that a machine has claimed: it
-- sends nothing and is told to come back.
pub take_hardware_ownership_excludes :
    (e : Env) (m : TinkerbellMachine) (hw : Hardware) (s : ScopeState)
    → (s.machine.meta.name ≢ m.meta.name) ⊎ (s.machine.meta.namespace ≢ m.meta.namespace)
    → take_hardware_ownership e (claim e m hw) s ≡ (err hardware_claim_requeue, s)
unfolding take_hardware_ownership owned_by_other pure raise lift gets ask attempt modify ◌>>=◌
take_hardware_ownership_excludes e m hw s other = ground (
  arith,
  claim_labels e m hw,
  eq_iff m.meta.name s.machine.meta.name,
  eq_iff m.meta.namespace s.machine.meta.namespace,
)
