-- ===== src/Watch/Retry.antt =====
-- EnsureWatch with no other call between its blocks: its success, and the wait after a failure.
use cluster_api_provider_tin.Prelude.{
  ℕ, ◌+◌, ◌≤◌, ◌<◌, String, ◌≡◌, refl, ◌≢◌, true, false, Option, none, some, List, arith, eq_iff,
  eq_refl, lookup, insert, lookup-insert, lookup-delete, is_set,
}
use cluster_api_provider_tin.Watch.{
  FailureRecord, WatchManager, in_backoff, start_failed, start, backoff_duration, is_watched,
  count_of, fast_check, second_check, finish, after_second, after_fast, ensure_watch,
}

inserted : (ns : String) (c : ℕ) (m : List (String × ℕ)) → is_set (lookup ns (insert ns c m)) ≡ true
inserted ns c m = rw (lookup-insert ns ns c m, eq_refl ns) refl

-- A call of EnsureWatch that succeeds leaves the namespace watched.
ensure_watch_watched :
    (ns : String) (now later : ℕ) (started : Option ℕ) (m : WatchManager)
    → (ensure_watch ns now later started m).0 ≡ none
    → is_watched ns (ensure_watch ns now later started m).1 ≡ true
unfolding ensure_watch after_fast after_second fast_check second_check is_watched finish
ensure_watch_watched ns now later none m h = ground arith
ensure_watch_watched ns now later (some c) m h = ground (arith, inserted ns c m.namespaces)

abbrev pub failures_of : String → WatchManager → ℕ
failures_of ns m = count_of (lookup ns m.failures)

failed_start :
    (ns : String) (now later : ℕ) (started : Option ℕ) (m : WatchManager)
    → (ensure_watch ns now later started m).0 ≡ some start_failed
    → ((ensure_watch ns now later started m).1 ≡ finish ns later none m)
      × (is_watched ns m ≡ false)
      × (ns ≢ "")
      × (second_check ns m ≡ start)
unfolding ensure_watch after_fast after_second fast_check second_check
failed_start ns now later none m h = ground (arith, eq_iff ns "")
failed_start ns now later (some c) m h = ground (arith, eq_iff ns "")

waits :
    (ns : String) (later next next' : ℕ) (started : Option ℕ) (m : WatchManager)
    → is_watched ns m ≡ false
    → ns ≢ ""
    → next < later + backoff_duration (failures_of ns m + 1)
    → ensure_watch ns next next' started (finish ns later none m)
      ≡ (some in_backoff, finish ns later none m)
unfolding ensure_watch after_fast fast_check finish is_watched
waits ns later next next' started m unwatched named early =
    let now_failed : FailureRecord = record {
      count = failures_of ns m + 1;
      last_attempt = later;
    } in
    rw (unwatched, lookup-insert ns ns now_failed m.failures, eq_refl ns)
      (ground (arith, eq_iff ns ""))

retries :
    (ns : String) (later next next' cancel : ℕ) (m : WatchManager)
    → is_watched ns m ≡ false
    → ns ≢ ""
    → second_check ns m ≡ start
    → later + backoff_duration (failures_of ns m + 1) ≤ next
    → let (r, m') = ensure_watch ns next next' (some cancel) (finish ns later none m) in
      (r ≡ none) × (is_watched ns m' ≡ true) × (failures_of ns m' ≡ 0)
unfolding ensure_watch after_fast after_second fast_check second_check finish is_watched
retries ns later next next' cancel m unwatched named ready late =
    let now_failed : FailureRecord = record {
      count = failures_of ns m + 1;
      last_attempt = later;
    } in
    ground (
      arith,
      eq_iff ns "",
      eq_refl ns,
      lookup-insert ns ns now_failed m.failures,
      inserted ns cancel m.namespaces,
      lookup-delete ns ns (insert ns now_failed m.failures),
    )

-- After a start that failed, a call for the namespace before the wait is over is refused and
-- changes nothing; the wait is that of one failure more than before the start.
ensure_watch_waits :
    (ns : String) (now later next next' : ℕ) (started started' : Option ℕ) (m : WatchManager)
    → (ensure_watch ns now later started m).0 ≡ some start_failed
    → next < later + backoff_duration (failures_of ns m + 1)
    → let m' = (ensure_watch ns now later started m).1 in
      ensure_watch ns next next' started' m' ≡ (some in_backoff, m')
ensure_watch_waits ns now later next next' started started' m h early =
    let (same, unwatched, named, ready) = failed_start ns now later started m h in
    rw same (waits ns later next next' started' m unwatched named early)

-- Once the wait is over, a call for the namespace starts it again, and if that start succeeds the
-- namespace is watched and its failures are forgotten.
pub ensure_watch_retries :
    (ns : String) (now later next next' cancel : ℕ) (started : Option ℕ) (m : WatchManager)
    → (ensure_watch ns now later started m).0 ≡ some start_failed
    → later + backoff_duration (failures_of ns m + 1) ≤ next
    → let m' = (ensure_watch ns now later started m).1 in
      let (r, m'') = ensure_watch ns next next' (some cancel) m' in
      (r ≡ none) × (is_watched ns m'' ≡ true) × (failures_of ns m'' ≡ 0)
ensure_watch_retries ns now later next next' cancel started m h late =
    let (same, unwatched, named, ready) = failed_start ns now later started m h in
    rw same (retries ns later next next' cancel m unwatched named ready late)
