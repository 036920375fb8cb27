-- ===== src/Plan/Tests.antt =====
-- Runs of the plan parser, and instances of the theorems on it.
use terraform_provider_pyxcl.Prelude.{String, ◌≡◌, refl, true, Option, some, List, [], ◌∷◌, length}
use terraform_provider_pyxcl.Prelude.Int.{pos}
use terraform_provider_pyxcl.GoLang.Value.{
  Value, deep_equal, null, float, str, list, object, Items, nil, cons, Fields, end, field, get,
  list_or_nil, string_or_empty,
}
use terraform_provider_pyxcl.GoLang.Exact.{exact}
use terraform_provider_pyxcl.Plan.Diff.{recursive_diff}
use terraform_provider_pyxcl.Plan.Parse.{
  parse_plan, parse_items, parse_item, parse_resource, parse_change, parse_actions, new_detail,
  record_change, classify, is_noop, action_names, changed_attrs_of,
}
use terraform_provider_pyxcl.Plan.Diff.Equal.{is_empty, unique_keys, recursive_diff-deep_equal}
use terraform_provider_pyxcl.Plan.Diff.Keys.{distinct, has_key}
use terraform_provider_pyxcl.Plan.Counts.{is_create, is_delete, is_modify, tally, parse_plan-counts}

abbrev actions : List (Value exact) → Items exact
actions [] = nil
actions (v ∷ vs) = cons v (actions vs)

abbrev change : List (Value exact) → Value exact → Value exact → Value exact
change as' before after =
    object (field "actions" (list (actions as')) (field "before" before (field "after" after end)))

abbrev resource : Value exact → Value exact → Value exact
resource type chg =
    object (field "address" (str "a.b") (field "type" type (field "change" chg end)))

abbrev tags : Value exact → Value exact
tags v = object (field "tags" (object (field "env" v end)) (field "size" (float (pos 3)) end))

abbrev sample_plan : Option (Fields exact)
sample_plan = some (
    field "resource_changes"
      (list (
        actions (
          resource (str "aws_instance") (change (str "create" ∷ []) null null)
          ∷ resource (str "aws_db")
              (change (str "update" ∷ []) (tags (str "dev")) (tags (str "prod")))
          ∷ resource (str "aws_vpc") (change (str "delete" ∷ str "create" ∷ []) null (tags null))
          ∷ resource (str "aws_lb") (change (str "no-op" ∷ []) null null)
          ∷ null
          ∷ [])))
      end)

plan_run : Unit {0}
unfolding parse_plan parse_items parse_item parse_resource parse_change parse_actions new_detail
    record_change classify is_noop action_names changed_attrs_of get list_or_nil string_or_empty
plan_run = tt

sample_counts : let s = parse_plan sample_plan in (s.added ≡ 1) × (s.changed ≡ 2) × (s.removed ≡ 0)
unfolding plan_run
sample_counts = (refl, refl, refl)

nested_diff : recursive_diff (tags (str "dev")) (tags (str "prod")) "" ≡ "tags.env" ∷ []
unfolding recursive_diff
nested_diff = refl

parse_plan-counts_example :
    let s = parse_plan sample_plan in
    (s.added ≡ tally is_create s.drift_details)
    × (s.removed ≡ tally is_delete s.drift_details)
    × (s.changed ≡ tally is_modify s.drift_details)
    × (s.resources_changed ≡ length s.drift_details)
parse_plan-counts_example = parse_plan-counts sample_plan

tags_unique : (v : Value exact) → unique_keys v ≡ true → unique_keys (tags v) ≡ true
unfolding unique_keys distinct has_key
tags_unique v h = rw h

names_unique : (name : String) → unique_keys {F = exact} (str name) ≡ true
unfolding unique_keys
names_unique name = refl

recursive_diff-deep_equal_example :
    is_empty (recursive_diff (tags (str "dev")) (tags (str "prod")) "spec")
    ≡ deep_equal (tags (str "dev")) (tags (str "prod"))
recursive_diff-deep_equal_example =
    recursive_diff-deep_equal (tags (str "dev")) (tags (str "prod")) "spec"
      (tags_unique (str "dev") (names_unique "dev"))
      (tags_unique (str "prod") (names_unique "prod"))
