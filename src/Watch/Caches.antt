-- ===== src/Watch/Caches.antt =====
-- pkg/cluster/watch.go: the caches behind the watches, each with its goroutine, and what becomes of
-- them however the calls of the manager interleave. A goroutine whose cache has ended reads the
-- cache's context before it takes the mutex, so the two are steps of their own.
use cluster_api_provider_tin.Prelude.{
  ℕ, String, ◌≡◌, Bool, true, false, ◌&&◌, ◌||◌, Option, none, some, List, [], ◌∷◌, ◌++◌, nat_eq,
  ◌==◌, lookup, insert, delete,
}
use cluster_api_provider_tin.Watch.{
  WatchManager, start, second_check, finish, stop_watch, stop_all, cache_stopped, set_controller,
  set_context,
}
use cluster_api_provider_tin.Watch.States.{
  Flight, is_starting, given_controller, given_context, begun, finished, stopped, all_stopped,
  ended, new_flight, Reachable, new, step,
}

abbrev pub mem : ℕ → List ℕ → Bool
mem c [] = false
mem c (d ∷ ds) = nat_eq d c || mem c ds

-- Caches with the namespaces that they are for.
abbrev pub has : ℕ → String → List (ℕ × String) → Bool
has c ns [] = false
has c ns (entry ∷ rest) = (nat_eq entry.0 c && (entry.1 == ns)) || has c ns rest

abbrev pub has_namespace : String → List (ℕ × String) → Bool
has_namespace ns [] = false
has_namespace ns (entry ∷ rest) = (entry.1 == ns) || has_namespace ns rest

abbrev is_known : ℕ → List (ℕ × String) → Bool
is_known c [] = false
is_known c (entry ∷ rest) = nat_eq entry.0 c || is_known c rest

abbrev pub is_cache : ℕ → Option ℕ → Bool
is_cache c none = false
is_cache c (some d) = nat_eq d c

abbrev pub cache_list : Option ℕ → List ℕ
cache_list none = []
cache_list (some c) = c ∷ []

-- The manager; the caches of the starts in progress; the caches started so far; those that a
-- failed start has cancelled; those that have ended before they were cancelled, and which of these
-- have taken their namespace off the manager.
pub record Caches : Type 0 where
  pub flight : Flight
  pub holding : List (String × ℕ)
  pub launched : List (ℕ × String)
  pub abandoned : List ℕ
  pub ended_caches : List (ℕ × String)
  pub dropped : List ℕ

abbrev with_manager : WatchManager → Caches → Caches
with_manager m w = let f = w.flight in record w { flight = record f { manager = m } }

abbrev is_cancelled : ℕ → Caches → Bool
is_cancelled c w = mem c w.flight.manager.cancelled || mem c w.abandoned

pub data CacheStep : Caches → Caches → Type 0 where
  controller_given :
      (w : Caches) (b : Bool) → CacheStep w (with_manager (set_controller b w.flight.manager) w)
  context_given :
      (w : Caches) (b : Bool) → CacheStep w (with_manager (set_context b w.flight.manager) w)
  start_begun :
      (w : Caches) (ns : String)
      → is_starting ns w.flight ≡ false
      → second_check ns w.flight.manager ≡ start
      → CacheStep w (record w {
        flight = record { manager = w.flight.manager; starting = insert ns tt w.flight.starting };
      })
  -- cache.New has succeeded, and the goroutine runs.
  cache_launched :
      (w : Caches) (ns : String) (c : ℕ)
      → is_starting ns w.flight ≡ true
      → lookup ns w.holding ≡ none
      → is_known c w.launched ≡ false
      → CacheStep w (record w { holding = insert ns c w.holding; launched = (c, ns) ∷ w.launched })
  start_succeeded :
      (w : Caches) (ns : String) (now c : ℕ)
      → is_starting ns w.flight ≡ true
      → lookup ns w.holding ≡ some c
      → CacheStep w (record w {
        flight = record {
          manager = finish ns now (some c) w.flight.manager;
          starting = delete ns w.flight.starting;
        };
        holding = delete ns w.holding;
      })
  -- The cache of the start, if there is one, is cancelled.
  start_failed :
      (w : Caches) (ns : String) (now : ℕ)
      → is_starting ns w.flight ≡ true
      → CacheStep w (record w {
        flight = record {
          manager = finish ns now none w.flight.manager;
          starting = delete ns w.flight.starting;
        };
        holding = delete ns w.holding;
        abandoned = w.abandoned ++ cache_list (lookup ns w.holding);
      })
  watch_stopped :
      (w : Caches) (ns : String) → CacheStep w (with_manager (stop_watch ns w.flight.manager) w)
  watches_stopped : (w : Caches) → CacheStep w (with_manager (stop_all w.flight.manager) w)
  -- `cacheCtx.Err() == nil`, after the cache has ended.
  end_seen :
      (w : Caches) (ns : String) (c : ℕ)
      → has c ns w.launched ≡ true
      → is_cancelled c w ≡ false
      → CacheStep w (record w { ended_caches = (c, ns) ∷ w.ended_caches })
  namespace_dropped :
      (w : Caches) (ns : String) (c : ℕ)
      → has c ns w.ended_caches ≡ true
      → mem c w.dropped ≡ false
      → CacheStep w (record w {
        flight = record {
          manager = cache_stopped ns w.flight.manager;
          starting = w.flight.starting;
        };
        dropped = c ∷ w.dropped;
      })

abbrev pub no_caches : Caches
no_caches = record {
  flight = new_flight;
  holding = [];
  launched = [];
  abandoned = [];
  ended_caches = [];
  dropped = [];
}

pub data Reached : Caches → Type 0 where
  begin : Reached no_caches
  next : {w v : Caches} → Reached w → CacheStep w v → Reached v

-- Every step of the caches is one of the manager, or leaves it alone.
flight-Reachable : (w v : Caches) → CacheStep w v → Reachable w.flight → Reachable v.flight
flight-Reachable w _ (controller_given _ b) r = step r (given_controller w.flight b)
flight-Reachable w _ (context_given _ b) r = step r (given_context w.flight b)
flight-Reachable w _ (start_begun _ ns free checked) r = step r (begun w.flight ns free checked)
flight-Reachable w _ (cache_launched _ ns c busy unheld fresh) r = r
flight-Reachable w _ (start_succeeded _ ns now c busy held) r =
    step r (finished w.flight ns now (some c) busy)
flight-Reachable w _ (start_failed _ ns now busy) r = step r (finished w.flight ns now none busy)
flight-Reachable w _ (watch_stopped _ ns) r = step r (stopped w.flight ns)
flight-Reachable w _ (watches_stopped _) r = step r (all_stopped w.flight)
flight-Reachable w _ (end_seen _ ns c known live) r = r
flight-Reachable w _ (namespace_dropped _ ns c over once) r = step r (ended w.flight ns)

pub Reached-Reachable : (w : Caches) → Reached w → Reachable w.flight
Reached-Reachable _ begin = new
Reached-Reachable _ (next {w = w} {v = v} r s) = flight-Reachable w v s (Reached-Reachable w r)
