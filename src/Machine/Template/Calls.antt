-- ===== src/Machine/Template/Calls.antt =====
-- What the code of controller/machine/template.go sends about the Template.
use cluster_api_provider_tin.Prelude.{String, Option, none, some, refl, ◌==◌}
use cluster_api_provider_tin.Objects.{Hardware, Template, ObjectRef}
use cluster_api_provider_tin.Kube.{Env, Result, ok, err, Call, Scope, Exec}
use cluster_api_provider_tin.Kube.Sends.{
  Allows, template_target, Sends, Sends-pure, Sends-raise, Sends-lift, Sends-gets, Sends-ask,
  Sends-attempt, Sends-if, Sends-bind,
}
use cluster_api_provider_tin.Machine.Template.{
  fetch_template_ref_data, template_exists, from_ref, cluster_template, annotation_data,
  template_from_annotation, or_cluster, resolve_template_data, some_template, template_data,
  create_template, remove_found, remove_template,
}

module _ {Q : Call → Type 0} (allow : Allows Q template_target) (e : Env) (sc : Scope) where
  remove_found-Sends : (r : Result Template) → Sends Q (remove_found e sc r)
  unfolding remove_found
  remove_found-Sends (ok t) = Sends-ask _ _ (allow _ refl)
  remove_found-Sends (err x) = Sends-if _ _ _ (Sends-pure tt) (Sends-raise x)

  pub remove_template-Sends : Sends Q (remove_template e sc)
  unfolding remove_template
  remove_template-Sends =
      Sends-bind _ _ (Sends-gets _)
        λ m. Sends-bind _ _ (Sends-attempt _ (Sends-ask _ _ (allow _ refl))) remove_found-Sends

  pub create_template-Sends : (text : String) → Sends Q (create_template e sc text)
  unfolding create_template
  create_template-Sends text =
      Sends-bind _ _ (Sends-gets _)
        λ m. Sends-bind _ _ (Sends-lift _) λ meta. Sends-ask _ _ (allow _ refl)

  pub template_exists-Sends : Sends Q (template_exists e sc)
  unfolding template_exists
  template_exists-Sends = Sends-bind _ _ (Sends-gets _) λ m. Sends-ask _ _ (allow _ refl)

  fetch-Sends : (name namespace : String) → Sends Q (fetch_template_ref_data e sc name namespace)
  unfolding fetch_template_ref_data
  fetch-Sends name namespace = Sends-bind _ _ (Sends-gets _) λ m. Sends-ask _ _ (allow _ refl)

  from_ref-Sends :
      (r : Option ObjectRef) (m : Exec String) → Sends Q m → Sends Q (from_ref e sc r m)
  unfolding from_ref
  from_ref-Sends none m h = h
  from_ref-Sends (some r) m h = fetch-Sends r.name r.namespace

  or_cluster-Sends : (text : String) → Sends Q (or_cluster e sc text)
  unfolding or_cluster cluster_template
  or_cluster-Sends text =
      let spec = sc.tinkerbell_cluster.spec in
      Sends-if (text == "") _ _
        (Sends-if (spec.template_inline == "") _ _
          (from_ref-Sends spec.template_ref _ (Sends-pure "")) (Sends-pure _))
        (Sends-pure text)

  annotation-Sends : (hw : Hardware) (o : Option String) → Sends Q (annotation_data e sc hw o)
  unfolding annotation_data
  annotation-Sends hw none = Sends-pure ""
  annotation-Sends hw (some name) = fetch-Sends name hw.meta.namespace

  resolve-Sends : (hw : Hardware) → Sends Q (resolve_template_data e sc hw)
  unfolding resolve_template_data template_from_annotation
  resolve-Sends hw = Sends-bind _ _ (Sends-gets _) λ m.
      Sends-if _ _ _ (from_ref-Sends _ _ (Sends-bind _ _ (annotation-Sends hw _) or_cluster-Sends))
        (Sends-pure _)

  pub template_data-Sends : (hw : Hardware) → Sends Q (template_data e sc hw)
  unfolding template_data some_template
  template_data-Sends hw =
      Sends-if _ _ _ (Sends-raise _)
        (Sends-bind _ _ (resolve-Sends hw) λ text. Sends-if _ _ _ (Sends-raise _) (Sends-pure text))
