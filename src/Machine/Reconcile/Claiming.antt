-- ===== src/Machine/Reconcile/Claiming.antt =====
-- That ensureHardware (controller/machine/hardware.go) succeeds only with its Hardware claimed.
use cluster_api_provider_tin.Prelude.{
  ◌≡◌, refl, sym, ◌∙◌, ap, ◌⊎◌, inl, inr, Bool, true, false, List, ◌∷◌, ◌++◌, subst, if◌then◌else◌,
}
use cluster_api_provider_tin.Objects.{Hardware, TinkerbellMachine}
use cluster_api_provider_tin.Kube.{
  Env, Result, ok, hardware_claim_requeue, requeue_conflict, Call, ScopeState, Scope, Exec, pure,
  raise, gets, ask, ◌>>=◌,
}
use cluster_api_provider_tin.Kube.Ensures.{err-ne-ok}
use cluster_api_provider_tin.Kube.Patched.{
  Patched, Patched-later, Patched-last, continue-ok, requeue_conflict-ok,
}
use cluster_api_provider_tin.Kube.Sends.{Sends-pure, Sends-gets, Sends-ask, Sends-if, after}
use cluster_api_provider_tin.Kube.Traces.{Traces, Traces-Sends, Traces-modify, Traces-bind}
use cluster_api_provider_tin.Machine.Selection.{hardware_for_machine}
use cluster_api_provider_tin.Machine.Selection.Calls.{hardware_for_machine-Sends}
use cluster_api_provider_tin.Machine.Ownership.{
  hardware_already_claimed, owned_by_other, claim, take_hardware_ownership,
  ensure_hardware_user_data,
}
use cluster_api_provider_tin.Machine.Ownership.Taking.{user_data-Sends}
use cluster_api_provider_tin.Machine.Reconcile.{
  bind_hardware, change_machine, watch_namespace, ensure_hardware,
}

module _ (e : Env) where
  -- The Hardware carries the claim of the machine already, or the server has accepted the patch
  -- that puts it there.
  abbrev pub IsClaimed : TinkerbellMachine → List Call → List Call → Hardware → Type 0
  IsClaimed m first calls found =
      (hardware_already_claimed e m found ≡ true)
      ⊎ ((answer : Hardware) × Patched e first calls found (claim e m found) answer)

  IsClaimed-later :
      (m : TinkerbellMachine) (first calls calls' more : List Call) (found : Hardware)
      → calls' ≡ more ++ calls
      → IsClaimed m first calls found
      → IsClaimed m first calls' found
  IsClaimed-later m first calls calls' more found same (inl claimed) = inl claimed
  IsClaimed-later m first calls calls' more found same (inr (answer, p)) =
      inr (answer, Patched-later e first calls calls' more found (claim e m found) answer same p)

  IsClaimed-by_patch :
      (found hw : Hardware) (first earlier : List Call) (s : ScopeState)
      → s.trace ≡ earlier ++ first
      → requeue_conflict (e.patch_hardware s.trace found (claim e s.machine found) true) ≡ ok hw
      → IsClaimed s.machine first
          (Call.patch_hardware found (claim e s.machine found) true ∷ s.trace)
          found
  IsClaimed-by_patch found hw first earlier s same h = inr (
    hw,
    Patched-last e first s.trace earlier found (claim e s.machine found) hw same
        (requeue_conflict-ok _ hw h),
  )

  -- What the success of taking ownership says, by the answers to its two questions.
  take_case :
      (found hw : Hardware) (first earlier : List Call) (s : ScopeState) (other already : Bool)
      → hardware_already_claimed e s.machine found ≡ already
      → s.trace ≡ earlier ++ first
      → let r : Result Hardware × ScopeState =
          (if other
              then raise hardware_claim_requeue
              else (if already
                  then pure found
                  else ask (Call.patch_hardware found (claim e s.machine found) true) (λ t.
                    requeue_conflict (e.patch_hardware t found (claim e s.machine found) true))))
            s in
        r.0 ≡ ok hw → IsClaimed s.machine first r.1.trace found
  unfolding raise pure ask
  take_case found hw first earlier s true already claimed same h = absurd (err-ne-ok _ hw h)
  take_case found hw first earlier s false true claimed same h = inl claimed
  take_case found hw first earlier s false false claimed same h =
      IsClaimed-by_patch found hw first earlier s same h

  take-IsClaimed :
      (found hw : Hardware) (first earlier : List Call) (s : ScopeState)
      → s.trace ≡ earlier ++ first
      → (take_hardware_ownership e found s).0 ≡ ok hw
      → IsClaimed s.machine first (take_hardware_ownership e found s).1.trace found
  unfolding take_hardware_ownership gets ◌>>=◌
  take-IsClaimed found hw first earlier s same h =
      take_case found hw first earlier s (owned_by_other s.machine found)
        (hardware_already_claimed e s.machine found) refl same h

abbrev AnyCall : Call → Type 0
AnyCall c = Unit

abbrev nothing_of : TinkerbellMachine → Unit {0}
nothing_of m = tt

module _ (e : Env) (sc : Scope) where
  -- What ensureHardware does with the claimed Hardware.
  abbrev after_claim : Hardware → Exec Hardware
  after_claim hw = change_machine (bind_hardware hw) >>= λ u. watch_namespace e sc hw >>= λ v.
      gets (λ s. s.machine) >>= λ m. ensure_hardware_user_data e sc hw m.spec.provider_id

  after_claim-Traces : (hw : Hardware) → Traces AnyCall nothing_of (after_claim hw)
  unfolding watch_namespace
  after_claim-Traces hw = Traces-bind _ _ (Traces-modify _ λ s. (refl, refl)) λ u.
      Traces-bind _ _
        (Traces-Sends _ (Sends-if sc.has_watch_manager _ _ (Sends-ask _ _ tt) (Sends-pure tt)))
        λ v.
          Traces-bind _ _ (Traces-Sends _ (Sends-gets _))
            λ m. Traces-Sends _ (user_data-Sends (λ c p. tt) e sc hw m.spec.provider_id)

  -- The Hardware that was selected for the machine, and its claim.
  abbrev pub HasClaimed : ScopeState → List Call → Type 0
  HasClaimed s calls =
      (found : Hardware) × ((hardware_for_machine e s).0 ≡ ok found)
      × IsClaimed e s.machine s.trace calls found

  pub HasClaimed-later :
      (s : ScopeState) (calls calls' more : List Call)
      → calls' ≡ more ++ calls
      → HasClaimed s calls
      → HasClaimed s calls'
  HasClaimed-later s calls calls' more same (found, selected, claimed) =
      (found, selected, IsClaimed-later e s.machine s.trace calls calls' more found same claimed)

  claimed_from :
      (s u : ScopeState) (new : List Call) (found hw : Hardware)
      → (hardware_for_machine e s).0 ≡ ok found
      → u ≡ after new s
      → ((take_hardware_ownership e found >>= after_claim) u).0 ≡ ok hw
      → HasClaimed s ((take_hardware_ownership e found >>= after_claim) u).1.trace
  unfolding ◌>>=◌
  claimed_from s u new found hw selected same h =
      let v = take_hardware_ownership e found u in
      let (taken, done, rest) = continue-ok v.0 after_claim v.1 hw h in
      let claimed =
        take-IsClaimed e found taken s.trace new u (ap (λ (t : ScopeState). t.trace) same) done in
      let p = (after_claim-Traces taken).at v.1 in
      (
        found,
        selected,
        IsClaimed-later e s.machine s.trace v.1.trace _ p.new found
            (ap (λ x. x.1.trace) rest ∙ p.sent)
            (subst (λ (m : TinkerbellMachine). IsClaimed e m s.trace v.1.trace found)
              (ap (λ (t : ScopeState). t.machine) same) claimed),
      )

  pub ensure_hardware-HasClaimed :
      (s : ScopeState) (hw : Hardware)
      → (ensure_hardware e sc s).0 ≡ ok hw
      → HasClaimed s (ensure_hardware e sc s).1.trace
  unfolding ensure_hardware ◌>>=◌
  ensure_hardware-HasClaimed s hw h =
      let (new, same, any) = (hardware_for_machine-Sends {Q = AnyCall} (λ c p. tt) e).at s in
      let u = hardware_for_machine e s in
      let (found, selected, rest) = continue-ok u.0 _ u.1 hw h in
      subst (λ (x : Result Hardware × ScopeState). HasClaimed s x.1.trace) (sym rest)
        (claimed_from s u.1 new found hw selected same (ap (λ x. x.0) (sym rest) ∙ h))
