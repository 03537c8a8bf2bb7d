-- ===== src/Watch/Accounted.antt =====
-- No cache of the watch manager (pkg/cluster/watch.go) is lost: what becomes of those that are
-- started.
use cluster_api_provider_tin.Prelude.{
  ℕ, String, ◌≡◌, refl, Bool, true, ◌||◌, List, [], ◌∷◌, ◌++◌, arith, eq_iff, lookup, lookup-insert,
  lookup-delete,
}
use cluster_api_provider_tin.Watch.{
  is_watched, finish, stop_watch, stop_all, cache_stopped, set_controller, set_context, cancels,
  cancel_of,
}
use cluster_api_provider_tin.Watch.States.{IsConsistent, Reachable-IsConsistent}
use cluster_api_provider_tin.Watch.Caches.{
  cache_list, mem, has, has_namespace, is_cache, Caches, CacheStep, controller_given, context_given,
  start_begun, cache_launched, start_succeeded, start_failed, watch_stopped, watches_stopped,
  end_seen, namespace_dropped, Reached, begin, next, Reached-Reachable,
}

-- The manager has the cache under its namespace, or a start in progress holds it.
abbrev is_tracked : ℕ → String → Caches → Bool
is_tracked c ns w =
    is_cache c (lookup ns w.flight.manager.namespaces) || is_cache c (lookup ns w.holding)

-- The cache is cancelled, tracked, or has a namespace of which a cache has ended by itself.
abbrev pub accounted : ℕ → String → Caches → Bool
accounted c ns w =
    mem c w.flight.manager.cancelled
    || (mem c w.abandoned || (has_namespace ns w.ended_caches || is_tracked c ns w))

mem-append : (c : ℕ) (xs ys : List ℕ) → mem c (xs ++ ys) ≡ (mem c xs || mem c ys)
mem-append c [] ys = refl
mem-append c (x ∷ xs) ys = ground (arith, mem-append c xs ys)

mem-cancels :
    (c : ℕ) (ns : String) (m : List (String × ℕ))
    → is_cache c (lookup ns m) ≡ true
    → mem c (cancels m) ≡ true
unfolding lookup
mem-cancels c ns [] h = h
mem-cancels c ns ((i, d) ∷ m) h = ground (arith, mem-cancels c ns m)

has-namespace :
    (c : ℕ) (ns : String) (m : List (ℕ × String)) → has c ns m ≡ true → has_namespace ns m ≡ true
has-namespace c ns [] h = h
has-namespace c ns ((d, i) ∷ m) h = ground (arith, has-namespace c ns m)

Step-accounted :
    (d : ℕ) (i : String) (w v : Caches)
    → CacheStep w v
    → IsConsistent w.flight
    → (has d i w.launched ≡ true → accounted d i w ≡ true)
    → has d i v.launched ≡ true
    → accounted d i v ≡ true
unfolding set_controller set_context finish stop_watch stop_all cache_stopped is_watched
Step-accounted d i w _ (controller_given _ b) k ih h = ih h
Step-accounted d i w _ (context_given _ b) k ih h = ih h
Step-accounted d i w _ (start_begun _ ns free checked) k ih h = ih h
Step-accounted d i w _ (cache_launched _ ns c busy unheld fresh) k ih h =
    ground (arith, lookup-insert ns i c w.holding, eq_iff ns i)
Step-accounted d i w _ (start_succeeded _ ns now c busy held) k ih h = ground (
  arith,
  lookup-insert ns i c w.flight.manager.namespaces,
  lookup-delete ns i w.holding,
  eq_iff ns i,
  k.unwatched ns,
)
Step-accounted d i w _ (start_failed _ ns now busy) k ih h = ground (
  arith,
  mem-append d w.abandoned (cache_list (lookup ns w.holding)),
  lookup-delete ns i w.holding,
  eq_iff ns i,
)
Step-accounted d i w _ (watch_stopped _ ns) k ih h = ground (
  arith,
  mem-append d w.flight.manager.cancelled (cancel_of (lookup ns w.flight.manager.namespaces)),
  lookup-delete ns i w.flight.manager.namespaces,
  eq_iff ns i,
)
Step-accounted d i w _ (watches_stopped _) k ih h = ground (
  arith,
  mem-append d w.flight.manager.cancelled (cancels w.flight.manager.namespaces),
  mem-cancels d i w.flight.manager.namespaces,
)
Step-accounted d i w _ (end_seen _ ns c known live) k ih h = ground arith
Step-accounted d i w _ (namespace_dropped _ ns c over once) k ih h = ground (
  arith,
  has-namespace c ns w.ended_caches,
  lookup-delete ns i w.flight.manager.namespaces,
  eq_iff ns i,
)

-- However the calls of the manager and the ends of the caches interleave, a cache that was started
-- for a namespace has been cancelled, or is held by the start in progress, or is the one that the
-- manager has for the namespace and will cancel, unless a cache of that namespace has ended by
-- itself.
pub Reached-accounts :
    (w : Caches)
    → Reached w
    → (c : ℕ) (ns : String) → has c ns w.launched ≡ true
    → accounted c ns w ≡ true
Reached-accounts _ begin c ns h = absurd (ground (arith, h))
Reached-accounts _ (next {w = w} {v = v} r s) c ns h =
    Step-accounted c ns w v s (Reachable-IsConsistent w.flight (Reached-Reachable w r))
      (Reached-accounts w r c ns) h
