-- ===== src/Watch/Phases.antt =====
-- The life of one namespace under the watch manager (pkg/cluster/watch.go), as an abstract machine
-- that the manager's atomic blocks refine.
use cluster_api_provider_tin.Prelude.{
  ℕ, ◌+◌, String, ◌≡◌, refl, inl, inr, Bool, true, false, Option, none, some, arith, eq_iff, ◌==◌,
  lookup, insert, delete, lookup-insert, lookup-delete, is_set, Bool-cases,
}
use cluster_api_provider_tin.Watch.{
  FailureRecord, WatchManager, start, is_watched, count_of, second_check, finish, stop_watch,
  stop_all, cache_stopped, set_controller, set_context,
}
use cluster_api_provider_tin.Watch.States.{
  Flight, is_starting, Step, given_controller, given_context, begun, finished, stopped, all_stopped,
  ended, Reachable, IsConsistent, Reachable-IsConsistent,
}

-- `waiting n` and `starting n` have `n` failed starts on record.
pub data Phase : Type 0 where
  waiting starting : ℕ → Phase
  established : Phase

-- What may happen to a namespace.
pub data Move : Phase → Phase → Type 0 where
  kept : (p : Phase) → Move p p
  begins : (n : ℕ) → Move (waiting n) (starting n)
  fails : (n : ℕ) → Move (starting n) (waiting (n + 1))
  succeeds : (n : ℕ) → Move (starting n) established
  ends : Move established (waiting 0)
  forgets : (n : ℕ) → Move (waiting n) (waiting 0)
  forgets_starting : (n : ℕ) → Move (starting n) (starting 0)

abbrev pub phase_of : Bool → Bool → ℕ → Phase
phase_of true _ n = established
phase_of false true n = starting n
phase_of false false n = waiting n

-- The phase of a namespace in a state of the manager.
unfoldable pub phase : String → Flight → Phase
phase ns f =
    phase_of (is_watched ns f.manager) (is_starting ns f) (count_of (lookup ns f.manager.failures))

Move-eq : {p q p' q' : Phase} → p ≡ p' → q ≡ q' → Move p' q' → Move p q
Move-eq e h m = rw (e, h) m

check_unwatched :
    (ns : String) (m : WatchManager) → second_check ns m ≡ start → is_watched ns m ≡ false
unfolding second_check
check_unwatched ns m h = ground arith

no_count : (o : Option FailureRecord) → is_set o ≡ false → count_of o ≡ 0
no_count none h = refl
no_count (some r) h = ground arith

-- What a stop makes of a namespace that is not both watched and starting.
stop-Move :
    (w s : Bool) (n : ℕ) → (s ≡ true → w ≡ false) → Move (phase_of w s n) (phase_of false s 0)
stop-Move true true n h = absurd (ground (arith, h refl))
stop-Move true false n h = ends
stop-Move false true n h = forgets_starting n
stop-Move false false n h = forgets n

end-Move :
    (w s : Bool) (n : ℕ)
    → (s ≡ true → w ≡ false)
    → (w ≡ true → n ≡ 0)
    → Move (phase_of w s n) (phase_of false s n)
end-Move true true n h k = absurd (ground (arith, h refl))
end-Move true false n h k = rw (k refl) ends
end-Move false true n h k = kept (starting n)
end-Move false false n h k = kept (waiting n)

module _ (i : String) (f : Flight) (c : IsConsistent f) where
  watched_count : is_watched i f.manager ≡ true → count_of (lookup i f.manager.failures) ≡ 0
  watched_count h = no_count (lookup i f.manager.failures) (c.no_failure i h)

  begun-Move :
      (ns : String)
      → is_starting ns f ≡ false
      → second_check ns f.manager ≡ start
      → Move (phase i f) (phase i (record f { starting = insert ns tt f.starting }))
  unfolding phase
  begun-Move ns free checked = elim (Bool-cases (ns == i)) [
    | inl same ↦
        Move-eq {p' = waiting (count_of (lookup i f.manager.failures))}
          {q' = starting (count_of (lookup i f.manager.failures))}
          (ground (arith, eq_iff ns i, check_unwatched ns f.manager checked))
          (ground (
            arith,
            eq_iff ns i,
            lookup-insert ns i tt f.starting,
            check_unwatched ns f.manager checked,
          ))
          (begins _)
    | inr other ↦ Move-eq refl (ground (arith, lookup-insert ns i tt f.starting)) (kept (phase i f))
  ]

  finished-Move :
      (ns : String) (now : ℕ) (started : Option ℕ)
      → is_starting ns f ≡ true
      → Move (phase i f) (
          phase i
            (record { manager = finish ns now started f.manager; starting = delete ns f.starting }))
  unfolding phase finish is_watched
  finished-Move ns now none busy =
      let fr : FailureRecord = record {
        count = count_of (lookup ns f.manager.failures) + 1;
        last_attempt = now;
      } in
      elim (Bool-cases (ns == i)) [
        | inl same ↦
            Move-eq {p' = starting (count_of (lookup i f.manager.failures))}
              {q' = waiting (count_of (lookup i f.manager.failures) + 1)}
              (ground (arith, eq_iff ns i, c.unwatched ns))
              (ground (
                arith,
                eq_iff ns i,
                lookup-insert ns i fr f.manager.failures,
                lookup-delete ns i f.starting,
                c.unwatched ns,
              ))
              (fails _)
        | inr other ↦
            Move-eq refl
              (ground
                (arith, lookup-insert ns i fr f.manager.failures, lookup-delete ns i f.starting))
              (kept (phase i f))
      ]
  finished-Move ns now (some cancel) busy = elim (Bool-cases (ns == i)) [
    | inl same ↦
        Move-eq {p' = starting (count_of (lookup i f.manager.failures))} {q' = established}
          (ground (arith, eq_iff ns i, c.unwatched ns))
          (ground (arith, eq_iff ns i, lookup-insert ns i cancel f.manager.namespaces)) (succeeds _)
    | inr other ↦
        Move-eq refl
          (ground (
            arith,
            lookup-insert ns i cancel f.manager.namespaces,
            lookup-delete ns i f.manager.failures,
            lookup-delete ns i f.starting,
          ))
          (kept (phase i f))
  ]

  stopped-Move :
      (ns : String) → Move (phase i f) (phase i (record f { manager = stop_watch ns f.manager }))
  unfolding phase stop_watch is_watched
  stopped-Move ns = elim (Bool-cases (ns == i)) [
    | inl same ↦
        Move-eq refl
          (ground
            (arith, lookup-delete ns i f.manager.namespaces, lookup-delete ns i f.manager.failures))
          (stop-Move (is_watched i f.manager) (is_starting i f)
            (count_of (lookup i f.manager.failures)) (c.unwatched i))
    | inr other ↦
        Move-eq refl
          (ground
            (arith, lookup-delete ns i f.manager.namespaces, lookup-delete ns i f.manager.failures))
          (kept (phase i f))
  ]

  all_stopped-Move : Move (phase i f) (phase i (record f { manager = stop_all f.manager }))
  unfolding phase stop_all is_watched lookup
  all_stopped-Move =
      stop-Move (is_watched i f.manager) (is_starting i f) (count_of (lookup i f.manager.failures))
        (c.unwatched i)

  ended-Move :
      (ns : String) → Move (phase i f) (phase i (record f { manager = cache_stopped ns f.manager }))
  unfolding phase cache_stopped is_watched
  ended-Move ns = elim (Bool-cases (ns == i)) [
    | inl same ↦ Move-eq refl (ground (arith, lookup-delete ns i f.manager.namespaces)) (
        end-Move (is_watched i f.manager) (is_starting i f) (count_of (lookup i f.manager.failures))
          (c.unwatched i) watched_count)
    | inr other ↦
        Move-eq refl (ground (arith, lookup-delete ns i f.manager.namespaces)) (kept (phase i f))
  ]

Step-Move : (i : String) (f g : Flight) → Step f g → IsConsistent f → Move (phase i f) (phase i g)
unfolding phase set_controller set_context is_watched
Step-Move i f _ (given_controller _ b) c = kept (phase i f)
Step-Move i f _ (given_context _ b) c = kept (phase i f)
Step-Move i f _ (begun _ ns free checked) c = begun-Move i f c ns free checked
Step-Move i f _ (finished _ ns now started busy) c = finished-Move i f c ns now started busy
Step-Move i f _ (stopped _ ns) c = stopped-Move i f c ns
Step-Move i f _ (all_stopped _) c = all_stopped-Move i f c
Step-Move i f _ (ended _ ns) c = ended-Move i f c ns

-- Whatever block of the manager runs next, every namespace stays in its phase or makes a move of
-- its life: a start begins while it waits, and ends with one failure more or with the namespace
-- established; an established namespace leaves only to wait with no failure; and what is forgotten
-- are failures.
pub watch_refines :
    (f g : Flight) → Reachable f → Step f g → (ns : String) → Move (phase ns f) (phase ns g)
watch_refines f g r s ns = Step-Move ns f g s (Reachable-IsConsistent f r)
