-- ===== src/Conversion/RoundTrip.antt =====
-- Machines through the spoke version, and the stash that every kind of object uses.
use cluster_api_provider_tin.Prelude.{
  String, ◌≡◌, refl, ◌∙◌, ap, subst, Option, none, some, List, [], ◌∷◌, arith, eq_iff, eq_refl,
  lookup, insert, delete, lookup-insert,
}
use cluster_api_provider_tin.Objects.{ObjectMeta, TinkerbellMachine}
use cluster_api_provider_tin.Conversion.Spoke.{SpokeMachine}
use cluster_api_provider_tin.Conversion.Fields.{
  init_to-from, affinity_to-from, boot_to-from, status_to-from,
}
use cluster_api_provider_tin.Conversion.Objects.{
  config_to_hub, machine_status_to_hub, machine_status_from_hub, machine_to_hub_with,
  restore_machine, convert_machine_to_hub, machine_from_hub_with, stashed_machine,
  convert_machine_from_hub,
}
use cluster_api_provider_tin.Conversion.Stash.{
  data_annotation, Codec, Restores, stashed_text, with_annotations, marshal_data, unmarshal_data,
}

delete-insert : (k v : String) (m : List (String × String)) → delete k (insert k v m) ≡ delete k m
unfolding delete insert
delete-insert k v [] = ground (arith, eq_refl k)
delete-insert k v ((j, w) ∷ m) = ground (arith, eq_refl k, eq_iff j k, delete-insert k v m)

delete_absent : (k : String) (m : List (String × String)) → lookup k m ≡ none → delete k m ≡ m
unfolding delete lookup
delete_absent k [] h = refl
delete_absent k ((j, w) ∷ m) h = ground (arith, delete_absent k m)

module _ {H F : Type 0} (c : Codec H) (field : H → F) (h : H) (r : Restores c field h) where
  -- The metadata with a stashed text gives back what the text decodes to.
  unstash :
      (text : String) (meta : ObjectMeta)
      → lookup data_annotation meta.annotations ≡ none
      → c.encode h ≡ some text
      → let meta' = with_annotations meta (insert data_annotation text meta.annotations) in
        (h' : H) × (unmarshal_data c meta' ≡ some (some h', meta)) × (field h' ≡ field h)
  unfolding unmarshal_data with_annotations
  unstash text meta fresh encoded =
      let (h', decodes, same) = r.restored text encoded in
      (
        h',
        rw
            (
              lookup-insert data_annotation data_annotation text meta.annotations,
              decodes,
              delete-insert data_annotation text meta.annotations,
              delete_absent data_annotation meta.annotations fresh,
            )
            refl,
        same,
      )

  -- What an object with the stash of `h` in its metadata gives back.
  stash_back :
      (meta meta' : ObjectMeta) (o : Option String)
      → lookup data_annotation meta.annotations ≡ none
      → c.encode h ≡ o
      → stashed_text o meta ≡ some meta'
      → (h' : H) × (unmarshal_data c meta' ≡ some (some h', meta)) × (field h' ≡ field h)
  stash_back meta meta' none fresh encoded stashed = ground (arith, stashed)
  stash_back meta meta' (some text) fresh encoded stashed =
      let same : with_annotations meta (insert data_annotation text meta.annotations) ≡ meta' =
        cc in
      subst (λ m. (h' : H) × (unmarshal_data c m ≡ some (some h', meta)) × (field h' ≡ field h))
        same (unstash text meta fresh encoded)

  pub unstashed :
      (meta meta' : ObjectMeta)
      → lookup data_annotation meta.annotations ≡ none
      → marshal_data c h meta ≡ some meta'
      → (h' : H) × (unmarshal_data c meta' ≡ some (some h', meta)) × (field h' ≡ field h)
  unfolding marshal_data
  unstashed meta meta' fresh stashed = stash_back meta meta' (c.encode h) fresh refl stashed

machine_back :
    (hub : TinkerbellMachine) (meta : ObjectMeta)
    → machine_to_hub_with
        (machine_from_hub_with hub meta)
        hub.meta
        hub.spec.template_ref
        hub.spec.address_from_pool
      ≡ hub
unfolding machine_to_hub_with machine_from_hub_with config_to_hub machine_status_to_hub
    machine_status_from_hub
machine_back hub meta =
    rw
      (
        affinity_to-from hub.spec.hardware_affinity,
        boot_to-from hub.spec.boot_options,
        init_to-from hub.status.initialization,
        status_to-from hub.status.state,
      )
      refl

-- The metadata of the spoke object is the hub's with its stash.
pub machine_stash :
    (hub : TinkerbellMachine) (o : Option ObjectMeta) (spoke : SpokeMachine)
    → stashed_machine hub o ≡ some spoke
    → (meta : ObjectMeta) × (o ≡ some meta) × (spoke ≡ machine_from_hub_with hub meta)
unfolding stashed_machine
machine_stash hub none spoke h = ground (arith, h)
machine_stash hub (some meta) spoke h = (meta, refl, cc)

-- A machine of v1beta1 with the stash of the hub machine, as it is written back.
machine_written :
    (c : Codec TinkerbellMachine) (hub : TinkerbellMachine) (spoke edited : SpokeMachine)
    → Restores c (λ m. m.spec) hub
    → lookup data_annotation hub.meta.annotations ≡ none
    → convert_machine_from_hub c hub ≡ some spoke
    → edited.meta ≡ spoke.meta
    → convert_machine_to_hub c edited
      ≡ some (machine_to_hub_with edited hub.meta hub.spec.template_ref hub.spec.address_from_pool)
unfolding convert_machine_from_hub convert_machine_to_hub restore_machine machine_from_hub_with
machine_written c hub spoke edited r fresh converted kept =
    let (meta, marshalled, same) =
      machine_stash hub (marshal_data c hub hub.meta) spoke converted in
    let (h', unmarshalled, spec) = unstashed c (λ m. m.spec) hub r hub.meta meta fresh marshalled in
    rw (kept ∙ ap (λ m. m.meta) same, unmarshalled, spec) refl

-- A hub machine that is read and written through v1beta1 is the same again, where its metadata has
-- no stash: nothing that only the hub has is lost.
pub machine_round_trip :
    (c : Codec TinkerbellMachine) (hub : TinkerbellMachine) (spoke : SpokeMachine)
    → Restores c (λ m. m.spec) hub
    → lookup data_annotation hub.meta.annotations ≡ none
    → convert_machine_from_hub c hub ≡ some spoke
    → convert_machine_to_hub c spoke ≡ some hub
unfolding convert_machine_from_hub
machine_round_trip c hub spoke r fresh converted =
    let (meta, marshalled, same) =
      machine_stash hub (marshal_data c hub hub.meta) spoke converted in
    machine_written c hub spoke spoke r fresh converted refl
    ∙ rw same (ap some (machine_back hub meta))
