-- ===== src/Console/Labels/Overlay.antt =====
-- The operator's own labels win.
use pg_tool_box.Common.{
  true, Option, none, some, [], ◌∷◌, ◌≡◌, inl, inr, refl, arith, Text, text_eq, text_beq,
  text_beq_iff, ◌==◌, starts_with, if◌then◌else◌, Bool-cases,
}
use pg_tool_box.Common.Dict
use pg_tool_box.Console.Labels.{
  Labels, reserved_key_prefix, filtered_overlay, common_labels, selector_labels, labels_contain,
  merge, exposure_labels,
}

lookup-filtered_overlay :
    (k : Text) (l : Labels)
    → Dict.lookup k (filtered_overlay l)
      ≡ (if starts_with k reserved_key_prefix then none else Dict.lookup k l)
unfolding filtered_overlay Dict.lookup
lookup-filtered_overlay k [] = ground arith
lookup-filtered_overlay k ((j, v) ∷ l) = elim (Bool-cases (j == k)) [
  | inl e ↦ ground (arith, lookup-filtered_overlay k l, text_beq_iff j k)
  | inr e ↦ ground (arith, lookup-filtered_overlay k l)
]

abbrev pub or_else : Option Text → Option Text → Option Text
or_else none b = b
or_else (some v) b = some v

-- No key occurs twice.
abbrev IsMap : Labels → Type 0
IsMap [] = Unit
IsMap ((key, value) ∷ l) = (Dict.lookup key l ≡ none) × IsMap l

lookup-merge :
    (k : Text) (m l : Labels)
    → IsMap l
    → Dict.lookup k (merge m l) ≡ or_else (Dict.lookup k l) (Dict.lookup k m)
unfolding merge Dict.lookup
lookup-merge k m [] h = refl
lookup-merge k m ((key, value) ∷ l) h =
    rw (lookup-merge k (Dict.insert key value m) l h.1, Dict.lookup-insert key k value m)
      (elim (Bool-cases (key == k)) [
        | inl e ↦
            let gone : Dict.lookup k l ≡ none = rw (← (text_beq_iff key k).0 e) h.0 in ground arith
        | inr e ↦ ground arith
      ])

common_labels-IsMap : (instance_name : Text) → IsMap (common_labels instance_name)
unfolding common_labels Dict.lookup text_beq
common_labels-IsMap instance_name = (refl, (refl, (refl, (refl, tt))))

-- The labels of an exposure object: those that identify it, whatever the user says, then the user's
-- own, of which the ones in the operator's namespace are dropped.
pub lookup-exposure_labels :
    (instance_name k : Text) (l : Labels)
    → Dict.lookup k (exposure_labels instance_name l)
      ≡ or_else
          (Dict.lookup k (common_labels instance_name))
          (if starts_with k reserved_key_prefix then none else Dict.lookup k l)
unfolding exposure_labels
lookup-exposure_labels instance_name k l = rw (← lookup-filtered_overlay k l) (
    lookup-merge k (filtered_overlay l) (common_labels instance_name)
      (common_labels-IsMap instance_name))

-- The selector of a workload selects what the common labels are stamped on.
pub selector_selects :
    (instance_name : Text)
    → labels_contain (common_labels instance_name) (selector_labels instance_name) ≡ true
unfolding labels_contain common_labels selector_labels Dict.value_at Dict.lookup text_beq
selector_selects instance_name = ground (arith, text_beq_iff instance_name instance_name)
