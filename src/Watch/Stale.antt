-- ===== src/Watch/Stale.antt =====
-- pkg/cluster/watch.go: a cache that ends between its sync and the end of EnsureWatch.
use cluster_api_provider_tin.Prelude.{
  ℕ, String, ◌≡◌, ◌||◌, true, false, some, ◌∷◌, arith, delete, lookup, ◌==◌, eq_refl, lookup-insert,
}
use cluster_api_provider_tin.Watch.{established, is_watched, finish, cache_stopped, fast_check}
use cluster_api_provider_tin.Watch.States.{is_starting}
use cluster_api_provider_tin.Watch.Caches.{
  mem, has, Caches, start_succeeded, end_seen, namespace_dropped, Reached, next,
}

-- Where the cache of a start in progress has neither been cancelled nor ended.
pub record IsLive (ns : String) (c : ℕ) (w : Caches) : Type 0 where
  pub busy : is_starting ns w.flight ≡ true
  pub held : lookup ns w.holding ≡ some c
  pub known : has c ns w.launched ≡ true
  pub uncancelled : (mem c w.flight.manager.cancelled || mem c w.abandoned) ≡ false
  pub undropped : mem c w.dropped ≡ false

abbrev after_end : String → ℕ → Caches → Caches
after_end ns c w = record w { ended_caches = (c, ns) ∷ w.ended_caches }

abbrev after_drop : String → ℕ → Caches → Caches
after_drop ns c w = record w {
  flight = record { manager = cache_stopped ns w.flight.manager; starting = w.flight.starting };
  dropped = c ∷ w.dropped;
}

abbrev after_start : String → ℕ → ℕ → Caches → Caches
after_start ns now c w = record w {
  flight = record {
    manager = finish ns now (some c) w.flight.manager;
    starting = delete ns w.flight.starting;
  };
  holding = delete ns w.holding;
}

-- The cache ends, its goroutine drops the namespace, and then the start registers the cache.
abbrev pub registered_late : String → ℕ → ℕ → Caches → Caches
registered_late ns now c w = after_start ns now c (after_drop ns c (after_end ns c w))

-- If the cache of a start in progress ends after it has synced, its goroutine may drop the
-- namespace before the start records it: then the cache is over, and yet every later call of
-- EnsureWatch for the namespace finds its watch established and does nothing.
pub ended_cache_established :
    (w : Caches) (ns : String) (c now : ℕ)
    → Reached w
    → IsLive ns c w
    → (ns == "") ≡ false
    → let v = registered_late ns now c w in
      Reached v
      × (has c ns v.ended_caches ≡ true)
      × ((t : ℕ) → fast_check ns t v.flight.manager ≡ established)
unfolding fast_check is_watched finish cache_stopped
ended_cache_established w ns c now r live named = (
  next
      (next (next r (end_seen w ns c live.known live.uncancelled))
        (namespace_dropped (after_end ns c w) ns c (ground (arith, eq_refl ns)) live.undropped))
      (start_succeeded (after_drop ns c (after_end ns c w)) ns now c live.busy live.held),
  ground (arith, eq_refl ns),
  λ t. ground (arith, eq_refl ns, lookup-insert ns ns c (delete ns w.flight.manager.namespaces)),
)
