-- ===== src/Plan/Counts.antt =====
-- The counters of a plan summary agree with its details.
use Prim.Native.String.{String}
use terraform_provider_pyxcl.Prelude.{
  ℕ, ◌+◌, ◌≡◌, refl, Bool, true, false, Option, none, some, List, [], ◌∷◌, ◌++◌, if◌then◌else◌,
  length, length-append, arith, inl, inr, Bool-cases,
}
use terraform_provider_pyxcl.GoLang.Float.{Float64}
use terraform_provider_pyxcl.GoLang.Value.{
  Value, Items, nil, cons, object, Fields, list_or_nil, get,
}
use terraform_provider_pyxcl.Plan.{
  ChangeAction, replace, create, delete, update, DriftDetail, PlanSummary, empty_summary,
}
use terraform_provider_pyxcl.Plan.Parse.{
  action_names, is_noop, new_detail, classify, record_change, parse_actions, parse_change,
  parse_resource, parse_item, parse_items, parse_plan,
}

abbrev pub is_create : ChangeAction → Bool
is_create create = true
is_create _ = false

abbrev pub is_delete : ChangeAction → Bool
is_delete delete = true
is_delete _ = false

abbrev pub is_modify : ChangeAction → Bool
is_modify replace = true
is_modify update = true
is_modify _ = false

-- How many details have an action that passes the test.
abbrev pub tally : (ChangeAction → Bool) → List DriftDetail → ℕ
tally p [] = 0
tally p (d ∷ ds) = (if p d.change_action then 1 else 0) + tally p ds

tally-append :
    (p : ChangeAction → Bool) (ds es : List DriftDetail)
    → tally p (ds ++ es) ≡ tally p ds + tally p es
tally-append p [] es = omega arith
tally-append p (d ∷ ds) es = omega (arith, tally-append p ds es)

-- The counters agree with the details.
pub record IsTallied (s : PlanSummary) : Type 0 where
  pub creations : s.added ≡ tally is_create s.drift_details
  pub deletions : s.removed ≡ tally is_delete s.drift_details
  pub modifications : s.changed ≡ tally is_modify s.drift_details
  pub total : s.added + s.changed + s.removed ≡ length s.drift_details

module _ (a : ChangeAction) (d : DriftDetail) (s : PlanSummary) (e : d.change_action ≡ a) where
  record_change-IsTallied : IsTallied s → IsTallied (record_change a d s)
  unfolding record_change
  record_change-IsTallied h = ground (
    arith,
    tally-append is_create s.drift_details (d ∷ []),
    tally-append is_delete s.drift_details (d ∷ []),
    tally-append is_modify s.drift_details (d ∷ []),
    length-append s.drift_details (d ∷ []),
  )

module _ {F : Float64} where
  parse_actions-IsTallied :
      (rc change : Fields F) (actions : List String) (s : PlanSummary)
      → IsTallied s
      → IsTallied (parse_actions rc change actions s)
  unfolding parse_actions new_detail
  parse_actions-IsTallied rc change actions s h = elim (Bool-cases (is_noop actions)) [
    | inl idle ↦ rw idle h
    | inr busy ↦ rw busy (recorded (classify actions))
  ]
    where
      recorded :
          (o : Option ChangeAction)
          → IsTallied (elim o [ none ↦ s | some a ↦ record_change a (new_detail rc change a) s ])
      recorded none = h
      recorded (some a) = record_change-IsTallied a (new_detail rc change a) s refl h

  parse_item-IsTallied : (x : Value F) (s : PlanSummary) → IsTallied s → IsTallied (parse_item x s)
  unfolding parse_item parse_resource parse_change
  parse_item-IsTallied (object rc) s h = in_resource (get "change" rc)
    where
      in_change :
          (change : Fields F) (actions : Items F) → IsTallied (parse_change rc change actions s)
      in_change change nil = h
      in_change change (cons a more) =
          parse_actions-IsTallied rc change (action_names (cons a more)) s h

      in_resource : (v : Value F) → IsTallied (parse_resource rc v s)
      in_resource (object change) = in_change change (list_or_nil (get "actions" change))
      in_resource _ = h
  parse_item-IsTallied _ s h = h

  parse_items-IsTallied :
      (xs : Items F) (s : PlanSummary) → IsTallied s → IsTallied (parse_items xs s)
  unfolding parse_items
  parse_items-IsTallied nil s h = h
  parse_items-IsTallied (cons x xs) s h =
      parse_items-IsTallied xs (parse_item x s) (parse_item-IsTallied x s h)

-- In the summary of any plan each counter is the number of details with its actions (additions are
-- creations, removals deletions, changes updates and replacements), and ResourcesChanged is the
-- number of all details.
pub parse_plan-counts :
    {F : Float64} (plan : Option (Fields F))
    → let s = parse_plan plan in
      (s.added ≡ tally is_create s.drift_details)
      × (s.removed ≡ tally is_delete s.drift_details)
      × (s.changed ≡ tally is_modify s.drift_details)
      × (s.resources_changed ≡ length s.drift_details)
unfolding parse_plan
parse_plan-counts none = (refl, refl, refl, refl)
parse_plan-counts (some plan) =
    let items = list_or_nil (get "resource_changes" plan) in
    let h = parse_items-IsTallied items empty_summary (omega arith) in
    (h.creations, h.deletions, h.modifications, h.total)
