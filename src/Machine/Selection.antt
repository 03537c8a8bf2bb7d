-- ===== src/Machine/Selection.antt =====
-- controller/machine/hardware.go: which Hardware a machine gets.
pub mod Preference
pub mod Calls
pub mod Candidates
pub mod Offered
use cluster_api_provider_tin.Prelude.{
  ℕ, String, Bool, true, false, ◌&&◌, ◌||◌, not, Option, none, some, List, [], ◌∷◌, ◌++◌, ◌==◌,
  str_lt, ltb, sort_by, if◌then◌else◌,
}
use cluster_api_provider_tin.Objects.{
  Int32, nonneg, int32_lt, LabelSelector, LabelSelectorRequirement, does_not_exist, Hardware,
  HardwareAffinity, HardwareAffinityTerm, WeightedHardwareAffinityTerm, TinkerbellMachine,
}
use cluster_api_provider_tin.Kube.{
  Env, Error, Result, ok, err, no_hardware_available, bad_selector, Call, Exec, pure, raise, lift,
  gets, ask, continue, ◌>>=◌,
}
use cluster_api_provider_tin.Machine.Ownership.{hardware_owner_name_label}

abbrev empty_term : HardwareAffinityTerm
empty_term = record { label_selector = record { match_labels = []; match_expressions = [] } }

abbrev or_empty_term : List HardwareAffinityTerm → List HardwareAffinityTerm
or_empty_term [] = empty_term ∷ []
or_empty_term (t ∷ ts) = t ∷ ts

-- The required terms of the affinity; with none, one that every Hardware meets.
unfoldable pub required_terms : Option HardwareAffinity → List HardwareAffinityTerm
required_terms none = empty_term ∷ []
required_terms (some a) = or_empty_term a.required

unfoldable pub preferred_terms : Option HardwareAffinity → List WeightedHardwareAffinityTerm
preferred_terms none = []
preferred_terms (some a) = a.preferred

-- The selector of a required term, for Hardware without an owner.
unfoldable pub unowned : HardwareAffinityTerm → LabelSelector
unowned t =
    let sel = t.label_selector in
    record sel {
      match_expressions =
          sel.match_expressions
          ++ record { key = hardware_owner_name_label; operator = does_not_exist; values = [] }
            ∷ [];
    }

abbrev same_key : Hardware → Hardware → Bool
same_key a b = (a.meta.namespace == b.meta.namespace) && (a.meta.name == b.meta.name)

module _ (e : Env) where
  -- Whether a Hardware of the list with the key of `hw` meets the selector.
  unfoldable pub any_match : LabelSelector → Hardware → List Hardware → Bool
  any_match sel hw [] = false
  any_match sel hw (x ∷ xs) =
      (same_key x hw && e.selector_matches sel x.meta.labels) || any_match sel hw xs

  -- `scores[key]` after the loop over the preferred terms: each term that matches writes its
  -- weight over the weight before it. `acc` is the score so far, 0 for a key not in the map.
  unfoldable pub score :
      List WeightedHardwareAffinityTerm → List Hardware → Int32 → Hardware → Int32
  unfolding any_match
  score [] hardware acc hw = acc
  score (t ∷ ts) hardware acc hw =
      score ts hardware
        (if any_match t.hardware_affinity_term.label_selector hw hardware then t.weight else acc) hw

  unfoldable pub all_valid : List WeightedHardwareAffinityTerm → Bool
  all_valid [] = true
  all_valid (t ∷ ts) = e.selector_valid t.hardware_affinity_term.label_selector && all_valid ts

  -- The less function of byHardwareAffinity, with the score as a function.
  unfoldable pub less : (Hardware → Int32) → Hardware → Hardware → Bool
  less points x y =
      if int32_lt (points y) (points x)
      then true
      else if int32_lt (points x) (points y)
      then false
      else if not (x.meta.namespace == y.meta.namespace)
      then str_lt x.meta.namespace y.meta.namespace
      else str_lt x.meta.name y.meta.name

  abbrev first_hardware : List Hardware → Result Hardware
  first_hardware [] = err no_hardware_available
  first_hardware (hw ∷ _) = ok hw

  -- The end of hardwareForMachine: the candidates sorted by preference, and the first of them.
  unfoldable pub select_hardware :
      List WeightedHardwareAffinityTerm → List Hardware → Result Hardware
  unfolding all_valid
  select_hardware preferred hardware =
      if all_valid preferred
      then first_hardware (sort_by (less (score preferred hardware (nonneg 0))) hardware)
      else err bad_selector

  list_term : HardwareAffinityTerm → Exec (List Hardware)
  unfolding unowned
  list_term t =
      if e.selector_valid (unowned t)
      then ask (Call.list_hardware (unowned t)) (λ c. e.list_hardware c (unowned t))
      else raise bad_selector

  pub list_terms : List HardwareAffinityTerm → Exec (List Hardware)
  unfolding list_term
  list_terms [] = pure []
  list_terms (t ∷ ts) = do matched ← list_term t; rest ← list_terms ts; pure (matched ++ rest)

  abbrev head? : List Hardware → Option Hardware
  head? [] = none
  head? (hw ∷ _) = some hw

  unfoldable pub assigned_hardware : Exec (Option Hardware)
  assigned_hardware = do
    m ← gets (λ s. s.machine)
    owned ←
        ask (Call.list_owned_hardware m.meta.name m.meta.namespace)
          (λ c. e.list_owned_hardware c m.meta.name m.meta.namespace)
    pure (head? owned)

  or_select : Option HardwareAffinity → Option Hardware → Exec Hardware
  unfolding list_terms select_hardware required_terms preferred_terms
  or_select affinity (some hw) = pure hw
  or_select affinity none = do
    hardware ← list_terms (required_terms affinity)
    lift (select_hardware (preferred_terms affinity) hardware)

  unfoldable pub hardware_for_machine : Exec Hardware
  unfolding assigned_hardware or_select
  hardware_for_machine = do
    m ← gets (λ s. s.machine)
    assigned ← assigned_hardware
    or_select m.spec.hardware_affinity assigned
