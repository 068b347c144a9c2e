-- ===== src/Console/Labels.antt =====
-- The labels of generated objects: `FilteredOverlay`, `CommonLabels` and `SelectorLabels` of
-- internal/controller/shared/application.go, `LabelsContain` of objects.go, and `exposureLabels` of
-- internal/controller/pgconsole/exposure.go.
pub mod Overlay
use pg_tool_box.Common.{
  Bool, true, false, List, [], ◌∷◌, Text, codes, ◌==◌, text_eq, ◌&&◌, if◌then◌else◌, starts_with,
}
use pg_tool_box.Common.Dict

abbrev pub Labels : Type 0
Labels = List (Text × Text)

abbrev pub reserved_key_prefix : Text
reserved_key_prefix = codes "pgtoolbox.fyannk.dev/"

unfoldable pub filtered_overlay : Labels → Labels
filtered_overlay [] = []
filtered_overlay ((key, value) ∷ values) =
    let filtered = filtered_overlay values in
    if starts_with key reserved_key_prefix then filtered else (key, value) ∷ filtered

unfoldable pub common_labels : Text → Labels
common_labels instance_name =
    (codes "app.kubernetes.io/name", codes "pgconsole")
    ∷ (codes "app.kubernetes.io/instance", instance_name)
    ∷ (codes "app.kubernetes.io/managed-by", codes "pgtoolbox")
    ∷ (codes "pgtoolbox.fyannk.dev/pgconsole", instance_name)
    ∷ []

unfoldable pub selector_labels : Text → Labels
selector_labels instance_name =
    (codes "app.kubernetes.io/name", codes "pgconsole")
    ∷ (codes "app.kubernetes.io/instance", instance_name)
    ∷ []

unfoldable pub labels_contain : Labels → Labels → Bool
labels_contain existing [] = true
labels_contain existing ((key, value) ∷ desired) =
    let rest = labels_contain existing desired in Dict.value_at key existing == value && rest

-- `for key, value := range values { merged[key] = value }`
unfoldable pub merge : Labels → Labels → Labels
merge merged [] = merged
merge merged ((key, value) ∷ values) = merge (Dict.insert key value merged) values

-- `labels` are `Spec.Exposure.Labels`.
unfoldable pub exposure_labels : Text → Labels → Labels
exposure_labels instance_name labels = merge (filtered_overlay labels) (common_labels instance_name)
