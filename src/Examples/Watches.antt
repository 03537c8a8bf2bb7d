-- ===== src/Examples/Watches.antt =====
-- The theorems on the watch manager, at concrete states.
use cluster_api_provider_tin.Prelude.{
  ◌+◌, ◌*◌, ◌≤◌, ◌≡◌, refl, ◌⊎◌, true, none, some, [], arith, lookup,
}
use cluster_api_provider_tin.Watch.{
  backoff_base, backoff_max, pow2, backoff_duration, WatchManager, start_failed, is_watched,
  fast_check, second_check, ensure_watch, set_controller,
}
use cluster_api_provider_tin.Watch.Backoff.{backoff_duration_bounds}
use cluster_api_provider_tin.Watch.States.{
  new, step, given_controller, new_flight, IsConsistent, Reachable-IsConsistent,
}
use cluster_api_provider_tin.Watch.Retry.{failures_of, ensure_watch_retries}

one : 1 ≤ 3
one = ground arith

backoff_duration_bounds_example :
    (2 * backoff_base ≤ backoff_duration 3)
    × (backoff_duration 3 ≤ backoff_max)
    × (backoff_duration 3 ≤ backoff_duration (3 + 1))
    × ((backoff_duration (3 + 1) ≡ 2 * backoff_duration 3)
        ⊎ (backoff_duration (3 + 1) ≡ backoff_max))
backoff_duration_bounds_example = backoff_duration_bounds 3 one

abbrev manager : WatchManager
manager = record {
  has_controller = true;
  has_context = true;
  namespaces = [];
  failures = [];
  cancelled = [];
}

failing : (ensure_watch "ns" 0 0 none manager).0 ≡ some start_failed
unfolding ensure_watch fast_check second_check is_watched lookup
failing = refl

late : 0 + backoff_duration (failures_of "ns" manager + 1) ≤ 10000000000
unfolding backoff_duration pow2 lookup
late = ground arith

ensure_watch_retries_example :
    let m' = (ensure_watch "ns" 0 0 none manager).1 in
    let (r, m'') = ensure_watch "ns" 10000000000 10000000001 (some 1) m' in
    (r ≡ none) × (is_watched "ns" m'' ≡ true) × (failures_of "ns" m'' ≡ 0)
ensure_watch_retries_example =
    ensure_watch_retries "ns" 0 0 10000000000 10000000001 1 none manager failing late

Reachable-IsConsistent_example :
    IsConsistent
      (record new_flight { manager = record new_flight.manager { has_controller = true } })
unfolding set_controller
Reachable-IsConsistent_example =
    Reachable-IsConsistent _ (step new (given_controller new_flight true))
