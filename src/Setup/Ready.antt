-- ===== src/Setup/Ready.antt =====
-- What the start of the program (main.go) leaves behind, and how it ends where a step fails.
use cluster_api_provider_tin.Prelude.{
  String, ◌≡◌, refl, ap, ◌≢◌, ◌⊎◌, inl, inr, Bool, true, false, Option, none, some, List, [], ◌∷◌,
  arith, All, lookup, if◌then◌else◌,
}
use cluster_api_provider_tin.Watch.{
  WatchManager, start, is_watched, second_check, set_controller, set_context,
}
use cluster_api_provider_tin.Setup.{
  Config, init_flags, SetupCall, start_manager, RestError, no_config, call_failed, external_config,
  SetupEnv, done, exits, pure, ◌>>=◌, continue, TinkerbellClientResult, call, exit, rest_config,
  client_for, build_tinkerbell_client, read_failed, parse_failed, new_direct_client,
}
use cluster_api_provider_tin.Setup.Start.{
  with_controller, new_scheme, setup_machine_controller, setup_reconcilers, setup_webhooks,
  add_health_checks, prepare, run, main,
}
use cluster_api_provider_tin.Setup.Runs.{
  IsPreparation, Outcomes, Prepared, Done, Runs, Runs-bind, Runs-pure, Runs-call, Runs-then,
  Runs-after, Runs-next, Runs-next,
}

module _ (e : SetupEnv) where
  module _ (cfg : Config) where
    -- The clients: those of the manager if there is no kubeconfig, else those of the cluster that it
    -- names, with a watch manager of which `P` holds.
    abbrev pub IsClientFor : (WatchManager → Type 0) → TinkerbellClientResult → Type 0
    IsClientFor P r =
        ((rest_config e cfg.external_kubeconfig ≡ some no_config)
          × (r.external ≡ false)
          × (r.watch_manager ≡ none))
        ⊎ ((rest_config e cfg.external_kubeconfig ≡ none)
            × (r.external ≡ true)
            × ((wm : WatchManager) × (r.watch_manager ≡ some wm) × P wm))

    -- A watch manager that has its context and watches nothing yet.
    record HasContext (wm : WatchManager) : Type 0 where
      context : wm.has_context ≡ true
      unwatched : wm.namespaces ≡ []

    exits_with :
        (x : RestError)
        → x ≢ no_config
        → rest_config e cfg.external_kubeconfig ≡ some x
        → (t : List SetupCall) → All (IsPreparation e) t
        → Outcomes e cfg (Prepared e (IsClientFor HasContext)) (exits (external_config x), t)
    exits_with x n same t good = (good, n, same)

    client-Runs :
        (o : Option RestError)
        → rest_config e cfg.external_kubeconfig ≡ o
        → Runs e cfg (Prepared e (IsClientFor HasContext)) (client_for e o)
    unfolding client_for pure exit set_context
    client-Runs (some no_config) same = record { at = λ t good. (good, inl (same, refl, refl)) }
    client-Runs (some read_failed) same = record {
      at = λ t good. (good, (λ p. ground (arith, p)), same);
    }
    client-Runs (some parse_failed) same = record {
      at = λ t good. (good, (λ p. ground (arith, p)), same);
    }
    client-Runs none same =
        Runs-then e cfg (Prepared e (IsClientFor HasContext)) new_direct_client _ refl (
          Runs-pure e cfg (IsClientFor HasContext) _
            (inr (same, refl, (_, refl, record { context = refl; unwatched = refl }))))

    -- Whatever namespace is asked for, the watch manager can start its watches.
    pub record IsUsable (wm : WatchManager) : Type 0 where
      pub usable : (ns : String) → second_check ns wm ≡ start

    controller-IsUsable : (wm : WatchManager) → HasContext wm → IsUsable (set_controller true wm)
    unfolding second_check is_watched set_controller lookup
    controller-IsUsable wm h = record { usable = λ ns. rw (h.context, h.unwatched) refl }

    set_up :
        (r : TinkerbellClientResult)
        → IsClientFor HasContext r
        → IsClientFor IsUsable (record r { watch_manager = with_controller r.watch_manager })
    set_up r (inl (same, local, unset)) = inl (same, local, ap with_controller unset)
    set_up r (inr (same, external, (wm, is, h))) =
        inr (
          same,
          external,
          (set_controller true wm, ap with_controller is, controller-IsUsable wm h),
        )

    machine-Runs :
        (r : TinkerbellClientResult)
        → IsClientFor HasContext r
        → Runs e cfg (Prepared e (IsClientFor IsUsable)) (setup_machine_controller e cfg r)
    unfolding setup_machine_controller
    machine-Runs r h =
        let D = Prepared e (IsClientFor IsUsable) in
        Runs-then e cfg D _ _ refl
          (Runs-then e cfg D _ _ refl (Runs-pure e cfg (IsClientFor IsUsable) _ (set_up r h)))

    reconcilers-Runs : Runs e cfg (Prepared e (IsClientFor IsUsable)) (setup_reconcilers e cfg)
    unfolding setup_reconcilers build_tinkerbell_client
    reconcilers-Runs =
        Runs-bind e cfg (IsClientFor HasContext) (Prepared e (IsClientFor IsUsable)) _ _
          (client-Runs _ refl)
          (λ r h. Runs-then e cfg (Prepared e (IsClientFor IsUsable)) _ _ refl (machine-Runs r h))

    scheme-Runs : Runs e cfg (Done e cfg) (new_scheme e)
    unfolding new_scheme
    scheme-Runs = Runs-next e cfg _ _ refl (
        Runs-next e cfg _ _ refl (
          Runs-next e cfg _ _ refl (
            Runs-next e cfg _ _ refl
              (Runs-next e cfg _ _ refl (Runs-next e cfg _ _ refl (Runs-call e cfg _ refl))))))

    webhooks-Runs : Runs e cfg (Done e cfg) (setup_webhooks e)
    unfolding setup_webhooks
    webhooks-Runs =
        Runs-next e cfg _ _ refl
          (Runs-next e cfg _ _ refl (Runs-next e cfg _ _ refl (Runs-call e cfg _ refl)))

    checks-Runs : Runs e cfg (Done e cfg) (add_health_checks e)
    unfolding add_health_checks
    checks-Runs = Runs-next e cfg _ _ refl (Runs-call e cfg _ refl)

    prepare-Runs : Runs e cfg (Prepared e (IsClientFor IsUsable)) (prepare e cfg)
    unfolding prepare
    prepare-Runs =
        let D = Prepared e (IsClientFor IsUsable) in
        Runs-after e cfg D _ _ scheme-Runs (
          Runs-then e cfg D _ _ refl (
            Runs-bind e cfg (IsClientFor IsUsable) D _ _ reconcilers-Runs (λ r h.
              Runs-after e cfg D _ _ webhooks-Runs
                (Runs-after e cfg D _ _ checks-Runs (Runs-pure e cfg (IsClientFor IsUsable) r h)))))

    -- The manager was started by the last call, after a start of which no call has failed.
    abbrev pub Started : TinkerbellClientResult → List SetupCall → Type 0
    Started r t =
        IsClientFor IsUsable r
        × ((before : List SetupCall) × (t ≡ start_manager ∷ before)
            × (e.succeeds start_manager ≡ true)
            × All (IsPreparation e) before)

    manager_called :
        (r : TinkerbellClientResult) (t : List SetupCall) (b : Bool)
        → e.succeeds start_manager ≡ b
        → IsClientFor IsUsable r
        → All (IsPreparation e) t
        → Outcomes e cfg Started (
            continue
              (if b then done tt else exits (call_failed start_manager))
              (λ u. pure r)
              (start_manager ∷ t))
    unfolding pure
    manager_called r t true y h good = (h, (t, refl, y, good))
    manager_called r t false y h good = (t, refl, y, good)

    run-Runs : Runs e cfg Started (run e cfg)
    unfolding run ◌>>=◌ call
    run-Runs =
        Runs-bind e cfg (IsClientFor IsUsable) Started _ _ prepare-Runs (λ r h. record {
          at = λ t good. manager_called r t (e.succeeds start_manager) refl h good;
        })

  -- The program ends before the manager is started, its last call having failed or its kubeconfig
  -- being one that cannot be read or does not parse, and no other call having failed; or the
  -- manager is started, by the last call, and then the machine controller works on its own cluster
  -- if there is no kubeconfig, and else on the cluster of the kubeconfig, with a watch manager that
  -- can start the watches of every namespace.
  pub main-Outcomes : Outcomes e (e.parsed init_flags) (Started (e.parsed init_flags)) (main e [])
  unfolding main
  main-Outcomes =
      (Runs-then e (e.parsed init_flags) (Started (e.parsed init_flags)) _ _ refl
          (run-Runs (e.parsed init_flags))).at
        [] tt
