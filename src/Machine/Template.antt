-- ===== src/Machine/Template.antt =====
-- controller/machine/template.go: where a machine's template comes from, the v1alpha1 Template
-- that may hold it, and the machine's Tasks.
pub mod Calls
pub mod Gone
use cluster_api_provider_tin.Prelude.{
  String, Bool, true, false, ◌&&◌, ◌||◌, not, Option, none, some, List, [], ◌∷◌, ◌==◌, lookup,
  value, is_set, if◌then◌else◌,
}
use cluster_api_provider_tin.Objects.{
  NamespacedName, ObjectMeta, Hardware, TinkerbellMachine, ObjectRef, Task, Template, object_key,
}
use cluster_api_provider_tin.Kube.{
  Env, Error, Result, ok, err, api, is_not_found, is_no_match, missing_disk, template_ref_no_data,
  templates_not_served, no_template_found, Call, Scope, Exec, pure, raise, lift, gets, ask, attempt,
  continue, ◌>>=◌, ◌>>◌,
}
use cluster_api_provider_tin.Machine.Claims.{label_machine_name, label_machine_namespace}
use cluster_api_provider_tin.Machine.Bmc.{named, machine_key, resource_ownership}

abbrev pub hardware_template_override_annotation : String
hardware_template_override_annotation = "hardware.tinkerbell.org/capt-template-override"

-- `cmp.Or(a, b)`
abbrev or_text : String → String → String
or_text a b = if a == "" then b else a

abbrev text_of : Option String → Result String
text_of none = err template_ref_no_data
text_of (some text) = ok text

abbrev fetched : Result Template → Result String
fetched (err x) = if is_no_match x then err templates_not_served else err x
fetched (ok t) = text_of t.template_text

abbrev pub exists_answer : Result Template → Result Bool
exists_answer (ok t) = ok true
exists_answer (err x) = if is_not_found x || is_no_match x then ok false else err x

abbrev no_disks : List String → Bool
no_disks [] = true
no_disks (_ ∷ _) = false

abbrev pub mem_text : String → List String → Bool
mem_text x [] = false
mem_text x (y ∷ ys) = (y == x) || mem_text x ys

-- ownsResource
unfoldable pub owns_resource : TinkerbellMachine → ObjectMeta → Bool
owns_resource m meta =
    (value label_machine_name meta.labels == m.meta.name)
    && (value label_machine_namespace meta.labels == m.meta.namespace)

module _ (e : Env) (sc : Scope) where
  unfoldable pub fetch_template_ref_data : String → String → Exec String
  fetch_template_ref_data name namespace = do
    m ← gets (λ s. s.machine)
    let key : NamespacedName = record {
      namespace = or_text namespace m.status.target_namespace;
      name = name;
    }
    ask (Call.get_template key) (λ t. fetched (e.get_template t key))

  unfoldable pub template_exists : Exec Bool
  template_exists = do
    m ← gets (λ s. s.machine)
    ask (Call.get_template (machine_key m)) (λ t. exists_answer (e.get_template t (machine_key m)))

  from_ref : Option ObjectRef → Exec String → Exec String
  from_ref none otherwise = otherwise
  from_ref (some r) otherwise = fetch_template_ref_data r.name r.namespace

  cluster_template : Exec String
  unfolding from_ref
  cluster_template =
      if sc.tinkerbell_cluster.spec.template_inline == ""
      then from_ref sc.tinkerbell_cluster.spec.template_ref (pure "")
      else pure sc.tinkerbell_cluster.spec.template_inline

  annotation_data : Hardware → Option String → Exec String
  annotation_data hw none = pure ""
  annotation_data hw (some name) = fetch_template_ref_data name hw.meta.namespace

  template_from_annotation : Hardware → Exec String
  unfolding annotation_data
  template_from_annotation hw =
      annotation_data hw (lookup hardware_template_override_annotation hw.meta.annotations)

  or_cluster : String → Exec String
  unfolding cluster_template
  or_cluster text = if text == "" then cluster_template else pure text

  unfoldable pub resolve_template_data : Hardware → Exec String
  unfolding from_ref or_cluster template_from_annotation fetch_template_ref_data
  resolve_template_data hw = do
    m ← gets (λ s. s.machine)
    if m.spec.config.template_inline == ""
        then from_ref m.spec.config.template_ref (template_from_annotation hw >>= or_cluster)
        else pure m.spec.config.template_inline

  some_template : String → Exec String
  some_template text = if text == "" then raise no_template_found else pure text

  unfoldable pub template_data : Hardware → Exec String
  unfolding resolve_template_data some_template
  template_data hw =
      if no_disks hw.storage_devices
      then raise missing_disk
      else (resolve_template_data hw >>= some_template)

  unfoldable pub template_object : TinkerbellMachine → String → Template
  template_object m text = record {
    meta = named m.status.target_namespace m.meta.name;
    template_text = some text;
  }

  abbrev not_served : Result (Unit {0}) → Result (Unit {0})
  not_served (ok u) = ok u
  not_served (err x) = if is_no_match x then err templates_not_served else err x

  unfoldable pub create_template : String → Exec (Unit {0})
  unfolding template_object
  create_template text = do
    m ← gets (λ s. s.machine)
    meta ← lift (resource_ownership e sc m (template_object m text).meta)
    let t : Template = record { meta = meta; template_text = some text }
    ask (Call.create_template t) (λ c. not_served (e.create_template c t))

  remove_found : Result Template → Exec (Unit {0})
  remove_found (err x) = if is_not_found x || is_no_match x then pure tt else raise x
  remove_found (ok t) = ask (Call.delete_template t) (λ c. e.delete_template c t)

  unfoldable pub remove_template : Exec (Unit {0})
  unfolding remove_found
  remove_template = do
    m ← gets (λ s. s.machine)
    found ←
        attempt (ask (Call.get_template (machine_key m)) (λ t. e.get_template t (machine_key m)))
    remove_found found
