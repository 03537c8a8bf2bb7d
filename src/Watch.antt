-- ===== src/Watch.antt =====
-- pkg/cluster/watch.go: the manager of the per-namespace watches. Its mutex makes each block of
-- steps below atomic; singleflight runs at most one start of a namespace at a time.
pub mod Backoff
pub mod States
pub mod Retry
pub mod Phases
pub mod Start
pub mod Caches
pub mod Accounted
pub mod Stale
use cluster_api_provider_tin.Prelude.{
  ℕ, zero, suc, ◌+◌, ◌*◌, String, Bool, true, false, ◌||◌, Option, none, some, List, [], ◌∷◌, ◌++◌,
  ◌==◌, ltb, leb, is_set, lookup, insert, delete, value, if◌then◌else◌,
}
use cluster_api_provider_tin.Objects.{NamespacedName}

-- Times and durations are in nanoseconds.
abbrev pub backoff_base : ℕ
backoff_base = 5000000000

abbrev pub backoff_max : ℕ
backoff_max = 300000000000

-- `math.Pow(2, n)`, exact below 2 ^ 6.
unfoldable pub pow2 : ℕ → ℕ
pow2 zero = 1
pow2 (suc n) = 2 * pow2 n

unfoldable pub backoff_duration : ℕ → ℕ
unfolding pow2
backoff_duration failures =
    if leb 6 failures
    then backoff_max
    else (if ltb backoff_max (pow2 failures * backoff_base)
        then backoff_max
        else pow2 failures * backoff_base)

pub record FailureRecord : Type 0 where
  pub count : ℕ
  pub last_attempt : ℕ

-- A cancel function is known by a number.
pub record WatchManager : Type 0 where
  pub has_controller : Bool
  pub has_context : Bool
  pub namespaces : List (String × ℕ)
  pub failures : List (String × FailureRecord)
  pub cancelled : List ℕ

pub data WatchError : Type 0 where
  empty_namespace in_backoff controller_not_set context_not_set start_failed : WatchError

-- What a caller of EnsureWatch finds at a check.
pub data Check : Type 0 where
  established start : Check
  rejected : WatchError → Check

unfoldable pub is_watched : String → WatchManager → Bool
is_watched ns m = is_set (lookup ns m.namespaces)

-- `elapsed < wait`, with the time passed to the other side.
abbrev pub within_backoff : Option FailureRecord → ℕ → Bool
within_backoff none now = false
within_backoff (some fr) now = ltb now (fr.last_attempt + backoff_duration fr.count)

-- The fast path of EnsureWatch, under the mutex.
unfoldable pub fast_check : String → ℕ → WatchManager → Check
fast_check ns now m =
    if ns == ""
    then rejected empty_namespace
    else if is_watched ns m
    then established
    else if within_backoff (lookup ns m.failures) now
    then rejected in_backoff
    else start

-- The check again under singleflight.
unfoldable pub second_check : String → WatchManager → Check
second_check ns m =
    if is_watched ns m
    then established
    else if m.has_controller
    then (if m.has_context then start else rejected context_not_set)
    else rejected controller_not_set

abbrev pub count_of : Option FailureRecord → ℕ
count_of none = 0
count_of (some fr) = fr.count

-- The end of a start: startAndRegister has given a cancel function, or has failed.
unfoldable pub finish : String → ℕ → Option ℕ → WatchManager → WatchManager
finish ns now (some cancel) m = record m {
  namespaces = insert ns cancel m.namespaces;
  failures = delete ns m.failures;
}
finish ns now none m = record m {
  failures =
      insert ns (record { count = count_of (lookup ns m.failures) + 1; last_attempt = now })
        m.failures;
}

abbrev cancel_of : Option ℕ → List ℕ
cancel_of none = []
cancel_of (some c) = c ∷ []

unfoldable pub stop_watch : String → WatchManager → WatchManager
stop_watch ns m = record m {
  namespaces = delete ns m.namespaces;
  failures = delete ns m.failures;
  cancelled = m.cancelled ++ cancel_of (lookup ns m.namespaces);
}

abbrev cancels : List (String × ℕ) → List ℕ
cancels [] = []
cancels ((ns, c) ∷ m) = c ∷ cancels m

unfoldable pub stop_all : WatchManager → WatchManager
stop_all m = record m {
  namespaces = [];
  failures = [];
  cancelled = m.cancelled ++ cancels m.namespaces;
}

-- The goroutine of a cache that ends by itself.
unfoldable pub cache_stopped : String → WatchManager → WatchManager
cache_stopped ns m = record m { namespaces = delete ns m.namespaces }

unfoldable pub set_controller : Bool → WatchManager → WatchManager
set_controller given m = record m { has_controller = given }

unfoldable pub set_context : Bool → WatchManager → WatchManager
set_context given m = record m { has_context = given }

after_second : String → ℕ → Option ℕ → Check → WatchManager → Option WatchError × WatchManager
after_second ns now started established m = (none, m)
after_second ns now started (rejected x) m = (some x, m)
after_second ns now none start m = (some start_failed, finish ns now none m)
after_second ns now (some cancel) start m = (none, finish ns now (some cancel) m)

after_fast : String → ℕ → Option ℕ → Check → WatchManager → Option WatchError × WatchManager
unfolding after_second
after_fast ns now started established m = (none, m)
after_fast ns now started (rejected x) m = (some x, m)
after_fast ns now started start m = after_second ns now started (second_check ns m) m

-- EnsureWatch with no other call between its blocks: `now` is the time at the fast path, `later`
-- the time after the start, which gave `started`.
unfoldable pub ensure_watch :
    String → ℕ → ℕ → Option ℕ → WatchManager → Option WatchError × WatchManager
unfolding after_fast
ensure_watch ns now later started m = after_fast ns later started (fast_check ns now m) m

-- The requests to which labelMapper maps an object with the labels.
unfoldable pub label_mapper : String → String → List (String × String) → List NamespacedName
label_mapper label_name label_namespace labels =
    let name = value label_name labels in
    let namespace = value label_namespace labels in
    if (name == "") || (namespace == "")
    then []
    else record { namespace = namespace; name = name } ∷ []
