-- ===== src/Examples/Selectors.antt =====
-- Label selectors as the API server evaluates them, and the choice of a Hardware with them.
use cluster_api_provider_tin.Prelude.{
  String, ◌≡◌, refl, sym, subst, Bool-cases, ap, ◌∙◌, inl, inr, Bool, true, false, ◌&&◌, ◌||◌, not,
  Option, none, some, List, [], ◌∷◌, ◌++◌, arith, ◌==◌, lookup, is_set, sort_by, Member,
  if◌then◌else◌,
}
use cluster_api_provider_tin.Objects.{
  SelectorOperator, in_set, not_in_set, exists, does_not_exist, LabelSelector,
  LabelSelectorRequirement, Hardware,
}
use cluster_api_provider_tin.Kube.{Env, ok, pure, raise, lift, gets, ask, ◌>>=◌}
use cluster_api_provider_tin.Machine.Ownership.{hardware_owner_name_label}
use cluster_api_provider_tin.Kube.Ensures.{ok-injective}
use cluster_api_provider_tin.Machine.Selection.{
  required_terms, preferred_terms, unowned, score, less, select_hardware, assigned_hardware,
  hardware_for_machine,
}
use cluster_api_provider_tin.Machine.Selection.Candidates.{SelectorLaws}
use cluster_api_provider_tin.Machine.Selection.Offered.{Chosen, hardware_for_machine-Chosen}
use cluster_api_provider_tin.Examples.World.{world, server_a, server_b, start}

abbrev has_value : List String → Option String → Bool
has_value vs none = false
has_value [] (some v) = false
has_value (w ∷ ws) (some v) = (w == v) || has_value ws (some v)

unfoldable pub holds : SelectorOperator → List String → Option String → Bool
holds in_set vs o = has_value vs o
holds not_in_set vs o = not (has_value vs o)
holds exists vs o = is_set o
holds does_not_exist vs o = not (is_set o)

unfoldable pub has_labels : List (String × String) → List (String × String) → Bool
has_labels [] labels = true
has_labels ((k, v) ∷ wanted) labels =
    has_value (v ∷ []) (lookup k labels) && has_labels wanted labels

unfoldable pub meets_all : List LabelSelectorRequirement → List (String × String) → Bool
unfolding holds
meets_all [] labels = true
meets_all (r ∷ rs) labels = holds r.operator r.values (lookup r.key labels) && meets_all rs labels

unfoldable pub matches : LabelSelector → List (String × String) → Bool
unfolding has_labels meets_all
matches sel labels = has_labels sel.match_labels labels && meets_all sel.match_expressions labels

-- The Hardware that a selector matches.
abbrev matching : LabelSelector → List Hardware → List Hardware
matching sel [] = []
matching sel (hw ∷ hws) =
    let rest = matching sel hws in if matches sel hw.meta.labels then hw ∷ rest else rest

abbrev selecting : List Hardware → Env
selecting hws = record world {
  selector_matches = matches;
  list_hardware = λ calls sel. ok (matching sel hws);
}

and_left : (a b : Bool) → (a && b) ≡ true → a ≡ true
and_left true b h = refl
and_left false b h = h

and_right : (a b : Bool) → (a && b) ≡ true → b ≡ true
and_right true b h = h
and_right false b h = absurd (ground (arith, h))

and_both : (a b : Bool) → a ≡ true → b ≡ true → (a && b) ≡ true
and_both true b p q = q
and_both false b p q = absurd (ground (arith, p))

matching-matches :
    (sel : LabelSelector) (hws : List Hardware) (hw : Hardware)
    → Member hw (matching sel hws)
    → matches sel hw.meta.labels ≡ true
matching-matches sel [] hw m = elim m [ ]
matching-matches sel (x ∷ xs) hw m = elim (Bool-cases (matches sel x.meta.labels)) [
  | inl fits ↦
      elim (subst (Member hw) (ap (λ b. if b then x ∷ matching sel xs else matching sel xs) fits)
        m) [
          | inl same ↦ ap (λ h. matches sel h.meta.labels) (sym same) ∙ fits
          | inr later ↦ matching-matches sel xs hw later
        ]
  | inr other ↦
      matching-matches sel xs hw
        (subst (Member hw) (ap (λ b. if b then x ∷ matching sel xs else matching sel xs) other) m)
]

not_set : (o : Option String) → not (is_set o) ≡ true → o ≡ none
not_set none h = refl
not_set (some v) h = absurd (ground (arith, h))

holds_missing :
    (r : LabelSelectorRequirement) (labels : List (String × String))
    → r.operator ≡ does_not_exist
    → holds r.operator r.values (lookup r.key labels) ≡ true
    → lookup r.key labels ≡ none
unfolding holds
holds_missing r labels p h =
    not_set (lookup r.key labels) (ap (λ o. holds o r.values (lookup r.key labels)) (sym p) ∙ h)

meets_missing :
    (rs : List LabelSelectorRequirement) (r : LabelSelectorRequirement)
    (labels : List (String × String))
    → meets_all rs labels ≡ true
    → Member r rs
    → r.operator ≡ does_not_exist
    → lookup r.key labels ≡ none
unfolding meets_all
meets_missing [] r labels h m p = elim m [ ]
meets_missing (x ∷ xs) r labels h (inl same) p = holds_missing r labels p (
    ap (λ (q : LabelSelectorRequirement). holds q.operator q.values (lookup q.key labels))
      (sym same)
    ∙ and_left _ _ h)
meets_missing (x ∷ xs) r labels h (inr later) p =
    meets_missing xs r labels (and_right _ _ h) later p

meets_narrower :
    (rs more : List LabelSelectorRequirement) (labels : List (String × String))
    → meets_all (rs ++ more) labels ≡ true
    → meets_all rs labels ≡ true
unfolding meets_all
meets_narrower [] more labels h = refl
meets_narrower (r ∷ rs) more labels h =
    and_both _ _ (and_left _ _ h) (meets_narrower rs more labels (and_right _ _ h))

selecting-SelectorLaws : (hws : List Hardware) → SelectorLaws (selecting hws)
unfolding matches
selecting-SelectorLaws hws = record {
  listed_match = λ calls sel list answered hw m.
      matching-matches sel hws hw (subst (Member hw) (sym (ok-injective _ list answered)) m);
  missing =
      λ sel r labels h m p. meets_missing sel.match_expressions r labels (and_right _ _ h) m p;
  narrower = λ sel more labels h.
      and_both _ _ (and_left _ _ h)
        (meets_narrower sel.match_expressions more labels (and_right _ _ h));
}

abbrev owned_server : Hardware
owned_server =
    let meta = server_a.meta in
    record server_a { meta = record meta { labels = (hardware_owner_name_label, "m2") ∷ [] } }

-- The first server has an owner, so the second is chosen.
chosen : (hardware_for_machine (selecting (owned_server ∷ server_b ∷ [])) start).0 ≡ ok server_b
unfolding hardware_for_machine matches assigned_hardware lookup pure raise lift gets ask ◌>>=◌
    sort_by less score select_hardware unowned required_terms preferred_terms
chosen = refl

hardware_for_machine-Chosen_example :
    Chosen (selecting (owned_server ∷ server_b ∷ [])) start.machine [] server_b
hardware_for_machine-Chosen_example =
    hardware_for_machine-Chosen (selecting (owned_server ∷ server_b ∷ []))
      (selecting-SelectorLaws (owned_server ∷ server_b ∷ [])) start server_b chosen
