-- ===== src/Plan/Parse.antt =====
-- ParsePlan.
use text.Mathlib.Text.{◌==◌ as str_eq}
use terraform_provider_pyxcl.Prelude.{
  ◌+◌, String, Bool, false, ◌&&◌, ◌||◌, Option, none, some, List, [], ◌∷◌, ◌++◌, any, if◌then◌else◌,
}
use terraform_provider_pyxcl.GoLang.Float.{Float64}
use terraform_provider_pyxcl.GoLang.Value.{
  Value, str, object, Items, nil, cons, Fields, get, string_or_empty, list_or_nil,
}
use terraform_provider_pyxcl.Plan.{
  ChangeAction, replace, create, delete, update, DriftDetail, PlanSummary, empty_summary,
}
use terraform_provider_pyxcl.Plan.Diff.{diff_attributes}

-- The strings among the actions.
unfoldable pub action_names : {F : Float64} → Items F → List String
action_names nil = []
action_names (cons (str s) xs) = s ∷ action_names xs
action_names (cons _ xs) = action_names xs

unfoldable pub is_noop : List String → Bool
is_noop (a ∷ []) = str_eq a "no-op" || str_eq a "read"
is_noop _ = false

-- isCreate, isDelete, isUpdate and the choice of `actionStr`; `none` is the `continue`.
unfoldable pub classify : List String → Option ChangeAction
classify actions =
    let has = λ (name : String). any (λ a. str_eq a name) actions in
    if has "create" && has "delete"
    then some replace
    else if has "create"
    then some create
    else if has "delete"
    then some delete
    else if has "update"
    then some update
    else none

-- The counter that an action increments, and the new detail at the end.
unfoldable pub record_change : ChangeAction → DriftDetail → PlanSummary → PlanSummary
record_change replace d s = record s {
  changed = s.changed + 1;
  drift_details = s.drift_details ++ d ∷ [];
}
record_change create d s = record s {
  added = s.added + 1;
  drift_details = s.drift_details ++ d ∷ [];
}
record_change delete d s = record s {
  removed = s.removed + 1;
  drift_details = s.drift_details ++ d ∷ [];
}
record_change update d s = record s {
  changed = s.changed + 1;
  drift_details = s.drift_details ++ d ∷ [];
}

-- detail.ChangedAttrs, which only an update or a replacement has
unfoldable pub changed_attrs_of : {F : Float64} → ChangeAction → Fields F → List String
unfolding get diff_attributes
changed_attrs_of update change = diff_attributes (get "before" change) (get "after" change)
changed_attrs_of replace change = diff_attributes (get "before" change) (get "after" change)
changed_attrs_of _ change = []

unfoldable pub new_detail : {F : Float64} → Fields F → Fields F → ChangeAction → DriftDetail
new_detail rc change a = record {
  address = string_or_empty (get "address" rc);
  resource_type = string_or_empty (get "type" rc);
  change_action = a;
  changed_attrs = changed_attrs_of a change;
}

-- The loop's body from the actions on.
unfoldable pub parse_actions :
    {F : Float64} → Fields F → Fields F → List String → PlanSummary → PlanSummary
parse_actions rc change actions s =
    if is_noop actions
    then s
    else elim (classify actions) [ none ↦ s | some a ↦ record_change a (new_detail rc change a) s ]

-- An entry with an empty list of actions is passed over.
unfoldable pub parse_change :
    {F : Float64} → Fields F → Fields F → Items F → PlanSummary → PlanSummary
parse_change rc change nil s = s
parse_change rc change (cons a as') s = parse_actions rc change (action_names (cons a as')) s

-- change, ok := rc["change"].(map[string]interface{})
unfoldable pub parse_resource : {F : Float64} → Fields F → Value F → PlanSummary → PlanSummary
parse_resource rc (object change) s = parse_change rc change (list_or_nil (get "actions" change)) s
parse_resource rc _ s = s

-- One round of the loop over `resource_changes`.
unfoldable pub parse_item : {F : Float64} → Value F → PlanSummary → PlanSummary
parse_item (object rc) s = parse_resource rc (get "change" rc) s
parse_item _ s = s

unfoldable pub parse_items : {F : Float64} → Items F → PlanSummary → PlanSummary
parse_items nil s = s
parse_items (cons x xs) s = parse_items xs (parse_item x s)

-- ParsePlan; `none` is a nil map.
unfoldable pub parse_plan : {F : Float64} → Option (Fields F) → PlanSummary
parse_plan none = empty_summary
parse_plan (some plan) =
    let s = parse_items (list_or_nil (get "resource_changes" plan)) empty_summary in
    record s { resources_changed = s.added + s.changed + s.removed }
