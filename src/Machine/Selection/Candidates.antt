-- ===== src/Machine/Selection/Candidates.antt =====
-- The lists of Hardware for the required terms (hardwareForMachine of controller/machine/hardware.go),
-- and what the documented behaviour of selectors makes true of them.
use cluster_api_provider_tin.Prelude.{
  String, ◌≡◌, refl, sym, ◌∙◌, ap, inl, inr, true, none, List, [], ◌∷◌, ◌++◌, lookup, All,
  All-append, Member, All-of_members,
}
use cluster_api_provider_tin.Objects.{
  LabelSelector, LabelSelectorRequirement, does_not_exist, Hardware, HardwareAffinityTerm,
}
use cluster_api_provider_tin.Kube.{Env, ok, Call}
use cluster_api_provider_tin.Kube.Ensures.{
  Ensures, Ensures-pure, Ensures-raise, Ensures-ask, Ensures-if, Ensures-bind, Ensures-keep,
}
use cluster_api_provider_tin.Machine.Ownership.{hardware_owner_name_label}
use cluster_api_provider_tin.Machine.Selection.{unowned, list_term, list_terms}

-- The documented behaviour of List with a label selector, and of selectors.
pub record SelectorLaws (e : Env) : Type 0 where
  -- The server answers with what the selector matches.
  pub listed_match :
      (calls : List Call) (sel : LabelSelector) (list : List Hardware)
      → e.list_hardware calls sel ≡ ok list
      → (hw : Hardware) → Member hw list
      → e.selector_matches sel hw.meta.labels ≡ true
  -- DoesNotExist matches where the label is missing.
  pub missing :
      (sel : LabelSelector) (r : LabelSelectorRequirement) (labels : List (String × String))
      → e.selector_matches sel labels ≡ true
      → Member r sel.match_expressions
      → r.operator ≡ does_not_exist
      → lookup r.key labels ≡ none
  -- A further requirement narrows a selector.
  pub narrower :
      (sel : LabelSelector) (more : List LabelSelectorRequirement) (labels : List (String × String))
      → e.selector_matches (record sel { match_expressions = sel.match_expressions ++ more }) labels
        ≡ true
      → e.selector_matches sel labels ≡ true

-- A Hardware that no machine owns, and that meets one of the terms.
pub record IsCandidate (e : Env) (terms : List HardwareAffinityTerm) (hw : Hardware) : Type 0 where
  pub term : HardwareAffinityTerm
  pub required : Member term terms
  pub meets : e.selector_matches term.label_selector hw.meta.labels ≡ true
  pub no_owner : lookup hardware_owner_name_label hw.meta.labels ≡ none

Member-last : {A : Type 0} (x : A) (xs : List A) → Member x (xs ++ (x ∷ []))
Member-last x [] = inl refl
Member-last x (y ∷ ys) = inr (Member-last x ys)

pub All-both :
    {A : Type 0} (P Q : A → Type 0) (xs : List A) → All P xs → All Q xs → All (λ x. P x × Q x) xs
All-both P Q [] h k = tt
All-both P Q (x ∷ xs) (p, h) (q, k) = ((p, q), All-both P Q xs h k)

later_term :
    (e : Env) (t : HardwareAffinityTerm) (ts : List HardwareAffinityTerm) (hws : List Hardware)
    → All (IsCandidate e ts) hws
    → All (IsCandidate e (t ∷ ts)) hws
later_term e t ts [] h = tt
later_term e t ts (hw ∷ hws) (c, h) = (
  record { term = c.term; required = inr c.required; meets = c.meets; no_owner = c.no_owner },
  later_term e t ts hws h,
)

-- What the server lists for the terms, one call after the other: the Hardware without an owner that
-- the selector of each term matches, for all the terms and in their order.
pub data Listed (e : Env) : List Call → List HardwareAffinityTerm → List Hardware → Type 0 where
  no_term : (calls : List Call) → Listed e calls [] []
  next_term :
      (calls : List Call) (t : HardwareAffinityTerm) (ts : List HardwareAffinityTerm)
      (matched rest : List Hardware)
      → e.list_hardware calls (unowned t) ≡ ok matched
      → Listed e (Call.list_hardware (unowned t) ∷ calls) ts rest
      → Listed e calls (t ∷ ts) (matched ++ rest)

module _ (e : Env) (laws : SelectorLaws e) where
  listed-IsCandidate :
      (t : HardwareAffinityTerm) (ts : List HardwareAffinityTerm) (calls : List Call)
      (list : List Hardware)
      → e.list_hardware calls (unowned t) ≡ ok list
      → All (IsCandidate e (t ∷ ts)) list
  unfolding unowned
  listed-IsCandidate t ts calls list answered = All-of_members _ list λ hw m.
      let matched = laws.listed_match calls (unowned t) list answered hw m in
      record {
        term = t;
        required = inl refl;
        meets = laws.narrower t.label_selector _ hw.meta.labels matched;
        no_owner =
            laws.missing (unowned t) _ hw.meta.labels matched
              (Member-last _ t.label_selector.match_expressions) refl;
      }

  list_term-Ensures :
      (t : HardwareAffinityTerm) (calls : List Call)
      → Ensures
          (λ s. s.trace ≡ calls)
          (list_term e t)
          (λ list s.
            (e.list_hardware calls (unowned t) ≡ ok list)
            × (s.trace ≡ Call.list_hardware (unowned t) ∷ calls))
  unfolding list_term
  list_term-Ensures t calls =
      Ensures-if (e.selector_valid (unowned t)) _ _
        (λ h. Ensures-ask _ _ λ s list answered p. (
          ap (λ c. e.list_hardware c (unowned t)) (sym p) ∙ answered,
          ap (λ c. Call.list_hardware (unowned t) ∷ c) p,
        ))
        (λ h. Ensures-raise _)

  -- The Hardware that is listed, and what is true of it.
  abbrev pub IsOffered : List Call → List HardwareAffinityTerm → List Hardware → Type 0
  IsOffered calls ts list = Listed e calls ts list × All (IsCandidate e ts) list

  IsOffered-next :
      (calls : List Call) (t : HardwareAffinityTerm) (ts : List HardwareAffinityTerm)
      (matched rest : List Hardware)
      → e.list_hardware calls (unowned t) ≡ ok matched
      → IsOffered (Call.list_hardware (unowned t) ∷ calls) ts rest
      → IsOffered calls (t ∷ ts) (matched ++ rest)
  IsOffered-next calls t ts matched rest answered (listed, every) = (
    next_term calls t ts matched rest answered listed,
    All-append _ matched rest (listed-IsCandidate t ts calls matched answered)
        (later_term e t ts rest every),
  )

  pub list_terms-Ensures :
      (ts : List HardwareAffinityTerm) (calls : List Call)
      → Ensures (λ s. s.trace ≡ calls) (list_terms e ts) (λ list s. IsOffered calls ts list)
  unfolding list_terms
  list_terms-Ensures [] calls = Ensures-pure [] λ s p. (no_term calls, tt)
  list_terms-Ensures (t ∷ ts) calls = Ensures-bind _ _ (list_term-Ensures t calls) λ matched.
      Ensures-bind _ _
        (Ensures-keep (e.list_hardware calls (unowned t) ≡ ok matched) _
          (list_terms-Ensures ts (Call.list_hardware (unowned t) ∷ calls)))
        λ rest. Ensures-pure _ λ s p. IsOffered-next calls t ts matched rest p.0 p.1
