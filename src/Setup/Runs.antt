-- ===== src/Setup/Runs.antt =====
-- What a part of the start of the program (main.go) does: its calls, and how it ends.
use cluster_api_provider_tin.Prelude.{
  ◌≡◌, refl, ◌≢◌, Bool, true, false, some, List, ◌∷◌, All, if◌then◌else◌,
}
use cluster_api_provider_tin.Setup.{
  Config, SetupCall, start_manager, no_config, SetupError, call_failed, external_config, SetupEnv,
  Outcome, done, exits, Startup, pure, ◌>>=◌, continue, call, rest_config,
}

abbrev is_start : SetupCall → Bool
is_start start_manager = true
is_start _ = false

module _ (e : SetupEnv) where
  -- A call that has succeeded and does not start the manager.
  pub record IsPreparation (c : SetupCall) : Type 0 where
    pub succeeded : e.succeeds c ≡ true
    pub no_start : is_start c ≡ false

  -- How the start has ended without the manager: the last call has failed, after others that have
  -- not, or there is a kubeconfig that cannot be read or does not parse.
  abbrev pub Exited : Config → SetupError → List SetupCall → Type 0
  Exited cfg (call_failed c) t =
      (before : List SetupCall) × (t ≡ c ∷ before)
      × (e.succeeds c ≡ false)
      × All IsPreparation before
  Exited cfg (external_config x) t =
      All IsPreparation t × (x ≢ no_config) × (rest_config e cfg.external_kubeconfig ≡ some x)

  abbrev pub Outcomes :
      {A : Type 0} → Config → (A → List SetupCall → Type 0) → Outcome A × List SetupCall → Type 0
  Outcomes cfg D (done a, t) = D a t
  Outcomes cfg D (exits x, t) = Exited cfg x t

  abbrev pub Prepared : {A : Type 0} → (A → Type 0) → A → List SetupCall → Type 0
  Prepared Q a t = All IsPreparation t × Q a

  module _ (cfg : Config) where
    pub record Runs {A : Type 0} (D : A → List SetupCall → Type 0) (m : Startup A) : Type 0 where
      pub at : (t : List SetupCall) → All IsPreparation t → Outcomes cfg D (m t)

    module _ {A B : Type 0} (Q : A → Type 0) (D : B → List SetupCall → Type 0)
        (f : A → Startup B) where
      carry :
          (x : Outcome A × List SetupCall)
          → Outcomes cfg (Prepared Q) x
          → ((a : A) → Q a → Runs D (f a))
          → Outcomes cfg D (continue x.0 f x.1)
      carry (done a, t) (good, q) k = (k a q).at t good
      carry (exits x, t) h k = h

      pub Runs-bind :
          (m : Startup A) → Runs (Prepared Q) m → ((a : A) → Q a → Runs D (f a)) → Runs D (m >>= f)
      unfolding ◌>>=◌
      Runs-bind m r k = record { at = λ t good. carry (m t) (r.at t good) k }

    pub Runs-pure : {A : Type 0} → (Q : A → Type 0) → (a : A) → Q a → Runs (Prepared Q) (pure a)
    unfolding pure
    Runs-pure Q a q = record { at = λ t good. (good, q) }

    called :
        (c : SetupCall) (t : List SetupCall) (b : Bool)
        → e.succeeds c ≡ b
        → is_start c ≡ false
        → All IsPreparation t
        → Outcomes cfg
            (Prepared (λ (u : Unit). Unit {0}))
            (if b then done tt else exits (call_failed c), c ∷ t)
    called c t true y n good = ((record { succeeded = y; no_start = n }, good), tt)
    called c t false y n good = (t, refl, y, good)

    pub Runs-call :
        (c : SetupCall) → is_start c ≡ false → Runs (Prepared (λ u. Unit {0})) (call e c)
    unfolding call
    Runs-call c n = record { at = λ t good. called c t (e.succeeds c) refl n good }

    pub Runs-then :
        {A : Type 0} (D : A → List SetupCall → Type 0) (c : SetupCall) (m : Startup A)
        → is_start c ≡ false
        → Runs D m
        → Runs D (call e c >>= λ u. m)
    Runs-then D c m n r =
        Runs-bind (λ (u : Unit). Unit {0}) D (λ u. m) (call e c) (Runs-call c n) (λ u q. r)

    abbrev pub Done : Unit {0} → List SetupCall → Type 0
    Done = Prepared (λ u. Unit {0})

    pub Runs-after :
        {A : Type 0} (D : A → List SetupCall → Type 0) (m : Startup (Unit {0})) (n : Startup A)
        → Runs Done m
        → Runs D n
        → Runs D (m >>= λ u. n)
    Runs-after D m n r s = Runs-bind (λ (u : Unit). Unit {0}) D (λ u. n) m r (λ u q. s)

    pub Runs-next :
        (c : SetupCall) (m : Startup (Unit {0}))
        → is_start c ≡ false
        → Runs Done m
        → Runs Done (call e c >>= λ u. m)
    Runs-next c m n r = Runs-then Done c m n r
