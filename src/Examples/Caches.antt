-- ===== src/Examples/Caches.antt =====
-- The theorems on the caches and the phases of the watch manager, at concrete states.
use cluster_api_provider_tin.Prelude.{ℕ, ◌≡◌, refl, ◌⊎◌, true, false, [], ◌∷◌, lookup, insert}
use cluster_api_provider_tin.Watch.{
  WatchManager, established, is_watched, second_check, fast_check, set_controller, set_context,
}
use cluster_api_provider_tin.Watch.States.{
  new_flight, Flight, new, step, given_controller, given_context, begun, Step,
}
use cluster_api_provider_tin.Watch.Phases.{Move, phase, watch_refines}
use cluster_api_provider_tin.Watch.Start.{
  workflow_kind, task_kind, job_kind, CacheAnswers, StartError, started, refused,
  start_and_register, running, kinds, all_answers, start_and_register_iff,
}
use cluster_api_provider_tin.Watch.Caches.{
  has, Caches, no_caches, Reached, begin, next, controller_given, context_given, start_begun,
  cache_launched,
}
use cluster_api_provider_tin.Watch.Accounted.{accounted, Reached-accounts}
use cluster_api_provider_tin.Watch.Stale.{IsLive, registered_late, ended_cache_established}

abbrev ready : WatchManager
ready = record {
  has_controller = true;
  has_context = true;
  namespaces = [];
  failures = [];
  cancelled = [];
}

abbrev ready_flight : Flight
ready_flight = record { manager = ready; starting = [] }

abbrev busy_flight : Flight
busy_flight = record { manager = ready; starting = ("ns", tt) ∷ [] }

begins_ns : Step ready_flight busy_flight
unfolding insert lookup second_check is_watched
begins_ns = begun ready_flight "ns" refl refl

watch_refines_example : Move (phase "ns" ready_flight) (phase "ns" busy_flight)
unfolding set_controller set_context
watch_refines_example =
    watch_refines ready_flight busy_flight
      (step (step new (given_controller new_flight true)) (given_context _ true)) begins_ns "ns"

abbrev tasks_refused : CacheAnswers
tasks_refused = record {
  cache_created = true;
  synced = true;
  watched = λ k. elim k [ task_kind ↦ false | _ ↦ true ];
}

start_and_register_iff_example :
    let (calls, r) = start_and_register tasks_refused 7 "ns" in
    ((all_answers tasks_refused ≡ true)
      × (r ≡ started 7)
      × (running calls [] ≡ 7 ∷ [])
      × (kinds calls ≡ workflow_kind ∷ task_kind ∷ job_kind ∷ []))
    ⊎ ((all_answers tasks_refused ≡ false)
        × ((x : StartError) × (r ≡ refused x))
        × (running calls [] ≡ []))
start_and_register_iff_example = start_and_register_iff tasks_refused 7 "ns"

-- A start of the namespace `ns` that has launched the cache 1.
abbrev launched_one : Caches
launched_one = record {
  flight = busy_flight;
  holding = ("ns", 1) ∷ [];
  launched = (1, "ns") ∷ [];
  abandoned = [];
  ended_caches = [];
  dropped = [];
}

Reached-one : Reached launched_one
unfolding set_controller set_context insert lookup second_check is_watched
Reached-one =
    next
      (next (next (next begin (controller_given no_caches true)) (context_given _ true))
        (start_begun _ "ns" refl refl))
      (cache_launched _ "ns" 1 refl refl refl)

Reached-accounts_example : accounted 1 "ns" launched_one ≡ true
Reached-accounts_example = Reached-accounts launched_one Reached-one 1 "ns" refl

IsLive-one : IsLive "ns" 1 launched_one
unfolding lookup
IsLive-one = record { busy = refl; held = refl; known = refl; uncancelled = refl; undropped = refl }

ended_cache_established_example :
    let v = registered_late "ns" 5 1 launched_one in
    Reached v
    × (has 1 "ns" v.ended_caches ≡ true)
    × ((t : ℕ) → fast_check "ns" t v.flight.manager ≡ established)
ended_cache_established_example =
    ended_cache_established launched_one "ns" 1 5 Reached-one IsLive-one refl
