-- ===== src/Watch/States.antt =====
-- The watch manager under interleaved calls: the blocks that its mutex makes atomic, in any order
-- that singleflight allows.
use cluster_api_provider_tin.Prelude.{
  ℕ, ◌+◌, String, ◌≡◌, refl, Bool, true, false, Option, none, some, List, [], arith, eq_iff, lookup,
  insert, delete, lookup-insert, lookup-delete, is_set,
}
use cluster_api_provider_tin.Watch.{
  FailureRecord, WatchManager, start, is_watched, count_of, second_check, finish, stop_watch,
  stop_all, cache_stopped, set_controller, set_context,
}

-- The manager and the namespaces whose start singleflight has in progress.
pub record Flight : Type 0 where
  pub manager : WatchManager
  pub starting : List (String × Unit {0})

abbrev pub is_starting : String → Flight → Bool
is_starting ns f = is_set (lookup ns f.starting)

pub data Step : Flight → Flight → Type 0 where
  given_controller :
      (f : Flight) (b : Bool) → Step f (record f { manager = set_controller b f.manager })
  given_context : (f : Flight) (b : Bool) → Step f (record f { manager = set_context b f.manager })
  begun :
      (f : Flight) (ns : String)
      → is_starting ns f ≡ false
      → second_check ns f.manager ≡ start
      → Step f (record f { starting = insert ns tt f.starting })
  finished :
      (f : Flight) (ns : String) (now : ℕ) (started : Option ℕ)
      → is_starting ns f ≡ true
      → Step f
          (record { manager = finish ns now started f.manager; starting = delete ns f.starting })
  stopped : (f : Flight) (ns : String) → Step f (record f { manager = stop_watch ns f.manager })
  all_stopped : (f : Flight) → Step f (record f { manager = stop_all f.manager })
  ended : (f : Flight) (ns : String) → Step f (record f { manager = cache_stopped ns f.manager })

-- NewNamespaceWatchManager.
abbrev pub new_flight : Flight
new_flight = record {
  manager = record {
    has_controller = false;
    has_context = false;
    namespaces = [];
    failures = [];
    cancelled = [];
  };
  starting = [];
}

pub data Reachable : Flight → Type 0 where
  new : Reachable new_flight
  step : {f g : Flight} → Reachable f → Step f g → Reachable g

-- A watched namespace has no failure on record, and none is watched while its start is in
-- progress.
pub record IsConsistent (f : Flight) : Type 0 where
  pub no_failure :
      (ns : String) → is_watched ns f.manager ≡ true → is_set (lookup ns f.manager.failures) ≡ false
  pub unwatched : (ns : String) → is_starting ns f ≡ true → is_watched ns f.manager ≡ false

second_check_unwatched :
    (ns : String) (m : WatchManager) → second_check ns m ≡ start → is_watched ns m ≡ false
unfolding second_check
second_check_unwatched ns m h = ground arith

Step-IsConsistent : (f g : Flight) → Step f g → IsConsistent f → IsConsistent g
unfolding finish is_watched stop_watch stop_all cache_stopped set_controller set_context lookup
Step-IsConsistent f _ (given_controller _ b) c = record {
  no_failure = c.no_failure;
  unwatched = c.unwatched;
}
Step-IsConsistent f _ (given_context _ b) c = record {
  no_failure = c.no_failure;
  unwatched = c.unwatched;
}
Step-IsConsistent f _ (begun _ ns free checked) c = record {
  no_failure = c.no_failure;
  unwatched = λ i h. ground (
    arith,
    lookup-insert ns i tt f.starting,
    eq_iff ns i,
    second_check_unwatched ns f.manager checked,
    c.unwatched i,
  );
}
Step-IsConsistent f _ (finished _ ns now none busy) c = record {
  no_failure = λ i h.
      let now_failed : FailureRecord = record {
        count = count_of (lookup ns f.manager.failures) + 1;
        last_attempt = now;
      } in
      ground (
        arith,
        lookup-insert ns i now_failed f.manager.failures,
        eq_iff ns i,
        c.no_failure i,
        c.unwatched ns,
      );
  unwatched = λ i h. ground (arith, lookup-delete ns i f.starting, c.unwatched i);
}
Step-IsConsistent f _ (finished _ ns now (some cancel) busy) c = record {
  no_failure = λ i h. ground (
    arith,
    lookup-delete ns i f.manager.failures,
    lookup-insert ns i cancel f.manager.namespaces,
    c.no_failure i,
  );
  unwatched = λ i h. ground (
    arith,
    lookup-delete ns i f.starting,
    lookup-insert ns i cancel f.manager.namespaces,
    c.unwatched i,
  );
}
Step-IsConsistent f _ (stopped _ ns) c = record {
  no_failure = λ i h. ground (
    arith,
    lookup-delete ns i f.manager.namespaces,
    lookup-delete ns i f.manager.failures,
    c.no_failure i,
  );
  unwatched = λ i h. ground (arith, lookup-delete ns i f.manager.namespaces, c.unwatched i);
}
Step-IsConsistent f _ (all_stopped _) c = record {
  no_failure = λ i h. refl;
  unwatched = λ i h. refl;
}
Step-IsConsistent f _ (ended _ ns) c = record {
  no_failure = λ i h. ground (arith, lookup-delete ns i f.manager.namespaces, c.no_failure i);
  unwatched = λ i h. ground (arith, lookup-delete ns i f.manager.namespaces, c.unwatched i);
}

-- However the calls of the manager interleave, a namespace that is watched has no failure on
-- record, and a namespace is not watched while its watch is being started.
pub Reachable-IsConsistent : (f : Flight) → Reachable f → IsConsistent f
unfolding is_watched lookup
Reachable-IsConsistent _ new = record { no_failure = λ ns h. refl; unwatched = λ ns h. refl }
Reachable-IsConsistent _ (step {f = f} {g = g} r s) =
    Step-IsConsistent f g s (Reachable-IsConsistent f r)
