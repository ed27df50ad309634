-- ===== src/Webhook/Tags.antt =====
-- The tag by which a machine's server is found again.
use text.Mathlib.Text.{starts_with}
use text.Mathlib.TextLemmas.{append_assoc}
use text.Mathlib.TextPositions.{starts_with-append}
use cluster_api_provider_clo.Base.{
  false-true, String, ◌≡◌, ◌≢◌, refl, sym, ap, ◌∙◌, subst, true, false, Option, none, some, [], ◌∷◌,
  ◌++◌, arith, ◌==◌, eq_iff, eq_refl, if◌then◌else◌, ◌<>◌, append-empty,
}
use cluster_api_provider_clo.Api.Cluster.{name_cloudscale_provider_prefix}
use cluster_api_provider_clo.Sdk.{TagMap}
use cluster_api_provider_clo.Machine.Scope.{MachineScope}
use cluster_api_provider_clo.Machine.Interfaces.{
  machine_tag_key, machine_lookup_tag, put_tag, copy_tags, machine_create_tags,
}
use cluster_api_provider_clo.Webhook.Field.{FieldPath, child}
use cluster_api_provider_clo.Webhook.Machines.{
  FlavorInfo, validate_flavor, validate_tags, validate_machine_spec, machine_spec_path,
  validate_machine_create,
}
use cluster_api_provider_clo.Webhook.Reports.{report-empty}

-- The value under a key, in a map of tags.
abbrev pub find_tag : String → TagMap → Option String
find_tag key [] = none
find_tag key ((k, v) ∷ rest) = if k == key then some v else find_tag key rest

find_tag-put_tag :
    (key k v : String) (tags : TagMap)
    → k ≢ key
    → find_tag key (put_tag k v tags) ≡ find_tag key tags
unfolding put_tag
find_tag-put_tag key k v [] n = ground (arith, eq_iff k key)
find_tag-put_tag key k v ((l, w) ∷ rest) n =
    ground (arith, eq_iff k key, eq_iff l k, eq_iff l key, find_tag-put_tag key k v rest n)

-- A key that has the reserved prefix is not the key of a tag that validateTags lets through.
unreserved :
    (k key : String)
    → starts_with key name_cloudscale_provider_prefix ≡ true
    → starts_with k name_cloudscale_provider_prefix ≡ false
    → k ≢ key
unreserved k key r u e =
    false-true (sym u ∙ ap (λ s. starts_with s name_cloudscale_provider_prefix) e ∙ r)

find_tag-copy_tags :
    (key : String) (tags dst : TagMap) (path : FieldPath)
    → starts_with key name_cloudscale_provider_prefix ≡ true
    → validate_tags tags path ≡ []
    → find_tag key (copy_tags dst tags) ≡ find_tag key dst
unfolding copy_tags validate_tags
find_tag-copy_tags key [] dst path r h = refl
find_tag-copy_tags key ((k, v) ∷ rest) dst path r h =
    let both = append-empty _ (validate_tags rest path) h in
    find_tag-copy_tags key rest (put_tag k v dst) path r both.1
    ∙ find_tag-put_tag key k v dst (unreserved k key r ((report-empty _ _).0 both.0))

machine_tag_key-reserved :
    (name : String) → starts_with (machine_tag_key name) name_cloudscale_provider_prefix ≡ true
unfolding machine_tag_key
machine_tag_key-reserved name =
    subst (λ t. starts_with t name_cloudscale_provider_prefix ≡ true)
      (sym (append_assoc "capcs-" "cluster-" name))
      (starts_with-append "capcs-" ("cluster-" <> name))

-- Where the webhook admits the machine, its server is created with the tag by which it is looked up
-- afterwards, whatever tags the spec has.
pub machine_create_tags-owned :
    {W : Type 0} (info : Option FlavorInfo) (s : MachineScope W)
    → validate_machine_create info s.cloudscale_machine ≡ []
    → find_tag (machine_tag_key s.cluster.name) (machine_create_tags s)
      ≡ some (s.cluster.namespace <> "/" <> s.cluster.name <> "/" <> s.cloudscale_machine.name)
unfolding validate_machine_create validate_machine_spec machine_create_tags machine_lookup_tag
machine_create_tags-owned info s h =
    let first =
      append-empty
        (validate_flavor info s.cloudscale_machine.spec.flavor machine_spec_path
          ++ validate_tags s.cloudscale_machine.spec.tags (child machine_spec_path "tags"))
        _ h in
    let tags =
      (append-empty (validate_flavor info s.cloudscale_machine.spec.flavor machine_spec_path) _
        first.0).1 in
    find_tag-copy_tags (machine_tag_key s.cluster.name) s.cloudscale_machine.spec.tags
      (machine_lookup_tag s) (child machine_spec_path "tags")
      (machine_tag_key-reserved s.cluster.name) tags
    ∙ rw (eq_refl (machine_tag_key s.cluster.name)) refl
