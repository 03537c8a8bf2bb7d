-- ===== src/Machine/Selection/Offered.antt =====
-- The Hardware that a machine gets (hardwareForMachine of controller/machine/hardware.go): its own,
-- or one that no machine owns and that meets a required term.
use cluster_api_provider_tin.Prelude.{
  subst, ◌≡◌, refl, sym, ◌∙◌, ap, ◌⊎◌, inl, inr, Option, List, [], ◌∷◌, All, Member, All-of_members,
}
use cluster_api_provider_tin.Objects.{nonneg, Hardware, TinkerbellMachine}
use cluster_api_provider_tin.Kube.{Env, ok, Call, ScopeState, gets, ◌>>=◌}
use cluster_api_provider_tin.Kube.Ensures.{
  Ensures, Ensures-pure, Ensures-gets, Ensures-lift, Ensures-ask, Ensures-bind,
}
use cluster_api_provider_tin.Machine.Selection.{
  required_terms, preferred_terms, score, head?, assigned_hardware, or_select, hardware_for_machine,
}
use cluster_api_provider_tin.Machine.Selection.Preference.{NoBetter, select_hardware_best}
use cluster_api_provider_tin.Machine.Selection.Candidates.{
  SelectorLaws, IsCandidate, All-both, Listed, list_terms-Ensures,
}

-- The machine owns the Hardware already, or it is the best of those that are listed.
abbrev pub Chosen : Env → TinkerbellMachine → List Call → Hardware → Type 0
Chosen e m calls hw =
    ((rest : List Hardware) × (e.list_owned_hardware calls m.meta.name m.meta.namespace
        ≡ ok (hw ∷ rest)))
    ⊎ ((candidates : List Hardware) × (e.list_owned_hardware calls m.meta.name m.meta.namespace
          ≡ ok [])
        × Listed e (Call.list_owned_hardware m.meta.name m.meta.namespace ∷ calls)
            (required_terms m.spec.hardware_affinity) candidates
        × Member hw candidates
        × IsCandidate e (required_terms m.spec.hardware_affinity) hw
        × All
            (NoBetter (score e (preferred_terms m.spec.hardware_affinity) candidates (nonneg 0)) hw)
            candidates)

module _ (e : Env) (laws : SelectorLaws e) where
  or_select-Chosen :
      (m : TinkerbellMachine) (calls : List Call) (owned : List Hardware)
      → e.list_owned_hardware calls m.meta.name m.meta.namespace ≡ ok owned
      → Ensures
          (λ s. s.trace ≡ Call.list_owned_hardware m.meta.name m.meta.namespace ∷ calls)
          (or_select e m.spec.hardware_affinity (head? e owned))
          (λ hw s. Chosen e m calls hw)
  unfolding or_select
  or_select-Chosen m calls (hw ∷ rest) answered = Ensures-pure hw λ s p. inl (rest, answered)
  or_select-Chosen m calls [] answered =
      Ensures-bind _ _
        (list_terms-Ensures e laws (required_terms m.spec.hardware_affinity)
          (Call.list_owned_hardware m.meta.name m.meta.namespace ∷ calls))
        λ candidates. Ensures-lift _ λ s hw chosen (listed, every).
          let ((there, candidate), best) =
            select_hardware_best e (preferred_terms m.spec.hardware_affinity) candidates hw
              (λ h. Member h candidates × IsCandidate e (required_terms m.spec.hardware_affinity) h)
              (All-both _ _ candidates
                (All-of_members (λ h. Member h candidates) candidates (λ h m'. m')) every)
              chosen in
          inr (candidates, answered, listed, there, candidate, best)

  assigned-Ensures :
      (m : TinkerbellMachine) (calls : List Call)
      → Ensures
          (λ s. (s.machine ≡ m) × (s.trace ≡ calls))
          (assigned_hardware e)
          (λ o s.
            (owned : List Hardware) × (o ≡ head? e owned)
            × (e.list_owned_hardware calls m.meta.name m.meta.namespace ≡ ok owned)
            × (s.trace ≡ Call.list_owned_hardware m.meta.name m.meta.namespace ∷ calls))
  unfolding assigned_hardware
  assigned-Ensures m calls =
      Ensures-bind _ _
        (Ensures-gets {R = λ (m' : TinkerbellMachine) s. (m' ≡ m) × (s.trace ≡ calls)} _ λ s p. p)
        λ m'.
          Ensures-bind _ _
            (Ensures-ask
              {R = λ owned s.
                (e.list_owned_hardware calls m.meta.name m.meta.namespace ≡ ok owned)
                × (s.trace ≡ Call.list_owned_hardware m.meta.name m.meta.namespace ∷ calls)}
              _ _
              λ s owned q p. (
                sym (
                      ap
                        (λ (n : TinkerbellMachine).
                          e.list_owned_hardware s.trace n.meta.name n.meta.namespace)
                        p.0
                      ∙ ap (λ c. e.list_owned_hardware c m.meta.name m.meta.namespace) p.1)
                    ∙ q,
                ap
                      (λ (n : TinkerbellMachine).
                        Call.list_owned_hardware n.meta.name n.meta.namespace ∷ s.trace)
                      p.0
                    ∙ ap (λ c. Call.list_owned_hardware m.meta.name m.meta.namespace ∷ c) p.1,
              ))
            λ owned. Ensures-pure _ λ s q. (owned, refl, q.0, q.1)

  assigned_choice :
      (m : TinkerbellMachine) (calls : List Call) (o : Option Hardware)
      → Ensures
          (λ s.
            (owned : List Hardware) × (o ≡ head? e owned)
            × (e.list_owned_hardware calls m.meta.name m.meta.namespace ≡ ok owned)
            × (s.trace ≡ Call.list_owned_hardware m.meta.name m.meta.namespace ∷ calls))
          (or_select e m.spec.hardware_affinity o)
          (λ hw s. Chosen e m calls hw)
  assigned_choice m calls o = record {
    at = λ s (owned, same, answered, sent) hw done.
        (subst
            (λ o'.
              Ensures (λ t. t.trace ≡ Call.list_owned_hardware m.meta.name m.meta.namespace ∷ calls)
                (or_select e m.spec.hardware_affinity o') (λ h t. Chosen e m calls h))
            (sym same) (or_select-Chosen m calls owned answered)).at
          s sent hw done;
  }

  -- The Hardware that a machine gets is the first of those listed as its own; or it has none, and
  -- the Hardware is one of those that the server has listed for the required terms, which no
  -- machine owned then; it meets a required term, and none of those listed is better by the
  -- preferred terms.
  pub hardware_for_machine-Chosen :
      (s : ScopeState) (hw : Hardware)
      → (hardware_for_machine e s).0 ≡ ok hw
      → Chosen e s.machine s.trace hw
  unfolding hardware_for_machine gets ◌>>=◌
  hardware_for_machine-Chosen s hw done =
      (Ensures-bind _ _ (assigned-Ensures s.machine s.trace) (assigned_choice s.machine s.trace)).at
        s (refl, refl) hw done
