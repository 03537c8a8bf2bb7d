-- ===== src/Watch/Start.antt =====
-- pkg/cluster/watch.go: startAndRegister, the start of the watches of one namespace. What the
-- third-party caches and the controller answer is an argument.
use cluster_api_provider_tin.Prelude.{
  ℕ, String, ◌≡◌, refl, ◌⊎◌, inl, inr, Bool, true, false, ◌&&◌, List, [], ◌∷◌, ◌++◌, arith, nat_eq,
  Bool-cases, if◌then◌else◌,
}

-- The kinds of object that are watched.
pub data WatchedKind : Type 0 where
  workflow_kind task_kind job_kind : WatchedKind

-- What startAndRegister does to caches and to the controller. A cache is known by a number, and
-- so is its cancel function.
pub data CacheCall : Type 0 where
  new_cache : String → CacheCall
  start_cache : ℕ → CacheCall
  wait_for_cache_sync : ℕ → CacheCall
  watch : ℕ → WatchedKind → CacheCall
  cancel : ℕ → CacheCall

-- The answers of cache.New, WaitForCacheSync and the controller's Watch.
pub record CacheAnswers : Type 0 where
  pub cache_created : Bool
  pub synced : Bool
  pub watched : WatchedKind → Bool

pub data StartError : Type 0 where
  cache_refused not_synced : StartError
  watch_failed : WatchedKind → StartError

pub data Start : Type 0 where
  started : ℕ → Start
  refused : StartError → Start

-- The calls made, the first one first, and the result.
abbrev Started : Type 0
Started = List CacheCall × Start

abbrev then_calls : List CacheCall → Started → Started
then_calls cs (ds, r) = (cs ++ ds, r)

-- `cacheCancel(); return nil, err`
abbrev give_up : ℕ → StartError → Started
give_up c x = (cancel c ∷ [], refused x)

module _ (answers : CacheAnswers) (c : ℕ) where
  -- One controller.Watch: on its error the cache is cancelled.
  register : WatchedKind → Started → Started
  register kind rest =
      then_calls (watch c kind ∷ [])
        (if answers.watched kind then rest else give_up c (watch_failed kind))

  registered : Started
  unfolding register
  registered = register workflow_kind (register task_kind (register job_kind ([], started c)))

  unfoldable pub start_and_register : String → Started
  unfolding registered
  start_and_register ns = then_calls (new_cache ns ∷ []) (
      if answers.cache_created
      then then_calls (start_cache c ∷ wait_for_cache_sync c ∷ [])
          (if answers.synced then registered else give_up c not_synced)
      else ([], refused cache_refused))

-- The caches that run after the calls: those started and not cancelled.
unfoldable pub without : ℕ → List ℕ → List ℕ
without c [] = []
without c (d ∷ ds) = let rest = without c ds in if nat_eq d c then rest else d ∷ rest

unfoldable pub running : List CacheCall → List ℕ → List ℕ
unfolding without
running [] live = live
running (start_cache c ∷ cs) live = running cs (c ∷ live)
running (cancel c ∷ cs) live = running cs (without c live)
running (_ ∷ cs) live = running cs live

-- The kinds that are registered with the controller by the calls.
unfoldable pub kinds : List CacheCall → List WatchedKind
kinds [] = []
kinds (watch c k ∷ cs) = k ∷ kinds cs
kinds (_ ∷ cs) = kinds cs

abbrev pub all_answers : CacheAnswers → Bool
all_answers a =
    a.cache_created
    && (a.synced && (a.watched workflow_kind && (a.watched task_kind && a.watched job_kind)))

-- The start succeeds exactly if the cache is created and synced and the three kinds are watched;
-- then its cache alone runs, with a watch of each kind, and otherwise no cache is left running.
pub start_and_register_iff :
    (answers : CacheAnswers) (c : ℕ) (ns : String)
    → let (calls, r) = start_and_register answers c ns in
      ((all_answers answers ≡ true)
        × (r ≡ started c)
        × (running calls [] ≡ c ∷ [])
        × (kinds calls ≡ workflow_kind ∷ task_kind ∷ job_kind ∷ []))
      ⊎ ((all_answers answers ≡ false)
          × ((x : StartError) × (r ≡ refused x))
          × (running calls [] ≡ []))
unfolding start_and_register running kinds
start_and_register_iff answers c ns = elim (Bool-cases answers.cache_created) [
  | inr n ↦ rw n (inr (refl, (cache_refused, refl), refl))
  | inl y ↦ rw y (elim (Bool-cases answers.synced) [
    | inr n ↦ rw n (inr (refl, (not_synced, refl), ground arith))
    | inl z ↦ rw z (elim (Bool-cases (answers.watched workflow_kind)) [
      | inr n ↦ rw n (inr (refl, (watch_failed workflow_kind, refl), ground arith))
      | inl w ↦ rw w (elim (Bool-cases (answers.watched task_kind)) [
        | inr n ↦ rw n (inr (refl, (watch_failed task_kind, refl), ground arith))
        | inl t ↦ rw t (elim (Bool-cases (answers.watched job_kind)) [
          | inr n ↦ rw n (inr (refl, (watch_failed job_kind, refl), ground arith))
          | inl j ↦ rw j (inl (refl, refl, refl, refl))
        ])
      ])
    ])
  ])
]
