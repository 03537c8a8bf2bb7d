-- ===== src/Kube/Ensures.antt =====
-- What the success of an action promises about the state after it: one rule for each way to build
-- an action.
use cluster_api_provider_tin.Prelude.{
  ◌≡◌, refl, ◌≢◌, ◌⊎◌, subst, Bool, true, false, List, ◌∷◌, arith, if◌then◌else◌,
}
use cluster_api_provider_tin.Kube.Errors.{Error, Result, ok, err, is_not_found}
use cluster_api_provider_tin.Kube.Environment.{Call}
use cluster_api_provider_tin.Kube.Actions.{
  ScopeState, Exec, pure, raise, lift, gets, ask, attempt, continue, ◌>>=◌,
}

pub err-ne-ok : {A : Type 0} → (x : Error) → (a : A) → err x ≢ ok a
err-ne-ok x a p = ground arith

pub ok-injective : {A : Type 0} → (a b : A) → ok a ≡ ok b → a ≡ b
ok-injective a b p = ground arith

-- A deletion that is accepted, or of what is not there.
abbrev pub Tolerated : Result (Unit {0}) → Type 0
Tolerated r = (r ≡ ok tt) ⊎ ((x : Error) × (r ≡ err x) × (is_not_found x ≡ true))

-- From a state with `P`, if `m` succeeds with `a`, then `R a` holds of the state after it.
pub record Ensures (P : ScopeState → Type 0) {A : Type 0} (m : Exec A) (R : A → ScopeState → Type 0)
    : Type 0 where
  pub at : (s : ScopeState) → P s → (a : A) → (m s).0 ≡ ok a → R a (m s).1

module _ {A : Type 0} {P : ScopeState → Type 0} {R : A → ScopeState → Type 0} where
  pub Ensures-pure : (a : A) → ((s : ScopeState) → P s → R a s) → Ensures P (pure a) R
  unfolding pure
  Ensures-pure a h = record { at = λ s p b e. subst (λ x. R x s) (ok-injective a b e) (h s p) }

  pub Ensures-raise : (x : Error) → Ensures P (raise x) R
  unfolding raise
  Ensures-raise x = record { at = λ s p b e. absurd (err-ne-ok x b e) }

  pub Ensures-lift :
      (r : Result A) → ((s : ScopeState) (a : A) → r ≡ ok a → P s → R a s) → Ensures P (lift r) R
  unfolding lift
  Ensures-lift r h = record { at = λ s p a e. h s a e p }

  pub Ensures-gets :
      (f : ScopeState → A) → ((s : ScopeState) → P s → R (f s) s) → Ensures P (gets f) R
  unfolding gets
  Ensures-gets f h = record { at = λ s p b e. subst (λ x. R x s) (ok-injective (f s) b e) (h s p) }

  -- The state after a call has the call in its trace.
  pub Ensures-ask :
      (c : Call) (answer : List Call → Result A)
      → ((s : ScopeState) (a : A)
          → answer s.trace ≡ ok a
          → P s
          → R a (record s { trace = c ∷ s.trace }))
      → Ensures P (ask c answer) R
  unfolding ask
  Ensures-ask c answer h = record { at = λ s p a e. h s a e p }

  pub Ensures-if :
      (b : Bool) (m n : Exec A)
      → (b ≡ true → Ensures P m R)
      → (b ≡ false → Ensures P n R)
      → Ensures P (if b then m else n) R
  Ensures-if true m n h k = h refl
  Ensures-if false m n h k = k refl

  pub Ensures-both :
      {T : A → ScopeState → Type 0}
      → (m : Exec A) → Ensures P m R
      → Ensures P m T
      → Ensures P m (λ a s. R a s × T a s)
  Ensures-both m h k = record { at = λ s p a e. (h.at s p a e, k.at s p a e) }

-- The result of an attempt is a value, whatever it is.
pub Ensures-attempt :
    {A : Type 0} {P : ScopeState → Type 0} {R : Result A → ScopeState → Type 0}
    → (m : Exec A) → ((s : ScopeState) → P s → R (m s).0 (m s).1)
    → Ensures P (attempt m) R
unfolding attempt
Ensures-attempt {R = R} m h = record {
  at = λ s p r e. subst (λ x. R x (m s).1) (ok-injective (m s).0 r e) (h s p);
}

module _ {A B : Type 0} {R : A → ScopeState → Type 0} {T : B → ScopeState → Type 0} where
  continue-Ensures :
      (f : A → Exec B)
      → ((a : A) → Ensures (R a) (f a) T)
      → (r : Result A) → (s : ScopeState) → ((a : A) → r ≡ ok a → R a s)
      → (b : B) → (continue r f s).0 ≡ ok b
      → T b (continue r f s).1
  continue-Ensures f h (ok a) s k b e = (h a).at s (k a refl) b e
  continue-Ensures f h (err x) s k b e = absurd (err-ne-ok x b e)

  pub Ensures-bind :
      {P : ScopeState → Type 0}
      → (m : Exec A) → (f : A → Exec B) → Ensures P m R
      → ((a : A) → Ensures (R a) (f a) T)
      → Ensures P (m >>= f) T
  unfolding ◌>>=◌
  Ensures-bind m f h k = record {
    at = λ s p b e. continue-Ensures f k (m s).0 (m s).1 (h.at s p) b e;
  }

-- A stronger premise.
module _ {A : Type 0} {P P' : ScopeState → Type 0} {R : A → ScopeState → Type 0} {m : Exec A} where
  pub Ensures-from : ((s : ScopeState) → P' s → P s) → Ensures P m R → Ensures P' m R
  Ensures-from f h = record { at = λ s p. h.at s (f s p) }

-- A fact that does not depend on the state.
pub Ensures-keep :
    {A : Type 0} {P : ScopeState → Type 0} {R : A → ScopeState → Type 0}
    → (X : Type 0) → (m : Exec A) → Ensures P m R
    → Ensures (λ s. X × P s) m (λ a s. X × R a s)
Ensures-keep X m h = record { at = λ s p a e. (p.0, h.at s p.1 a e) }
