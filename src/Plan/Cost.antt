-- ===== src/Plan/Cost.antt =====
-- The cost signals of a plan and the two rules on them (internal/tfplanparser/parser.go).
use terraform_provider_pyxcl.Prelude.{
  String, Option, none, some, List, [], ◌∷◌, ◌++◌, if◌then◌else◌,
}
use terraform_provider_pyxcl.Prelude.Int.{ℤ, pos}
use terraform_provider_pyxcl.GoLang.Float.{Float64}
use terraform_provider_pyxcl.GoLang.Strconv.{atoi}
use terraform_provider_pyxcl.GoLang.Value.{
  Value, float, int, int64, str, object, Fields, lookup, get, size,
}

-- One entry of `resource_changes` as json.Unmarshal fills the anonymous struct of
-- ExtractCostSignals; `after` is none where the map is nil.
pub record ResourceChange (F : Float64) : Type 0 where
  pub address : String
  pub resource_type : String
  pub actions : List String
  pub after : Option (Fields F)

-- The bytes of a plan, as far as the code looks at them: none at all, no JSON of the expected shape,
-- or the changes that json.Unmarshal gives.
pub data PlanJson (F : Float64) : Type 0 where
  no_bytes : PlanJson F
  malformed : PlanJson F
  decoded : List (ResourceChange F) → PlanJson F

-- A field that the code fills by `toString` is the value that it prints; nil prints as "".
pub record CostSignal (F : Float64) : Type 0 where
  pub resource_addr : String
  pub resource_type : String
  pub action : String
  pub monthly_cost : F.Num
  pub hourly_cost : F.Num
  pub currency : Value F
  pub provider : Value F
  pub region : Value F
  pub instance_type : Value F
  pub storage_gb : F.Num
  pub count : ℤ

-- toFloat64
unfoldable pub to_float64 : {F : Float64} → Value F → F.Num
to_float64 {F} (float x) = x
to_float64 {F} (str s) = elim (F.parse s) [ none ↦ F.lit 0 | some x ↦ x ]
to_float64 {F} (int n) = F.of_int n
to_float64 {F} (int64 n) = F.of_int n
to_float64 {F} _ = F.lit 0

-- toInt, which rounds where the scanner's namesake truncates
unfoldable pub to_int : {F : Float64} → Value F → ℤ
to_int {F} (float x) = F.truncate (F.round x)
to_int (str s) = elim (atoi s) [ none ↦ pos 0 | some n ↦ n ]
to_int (int n) = n
to_int (int64 n) = n
to_int _ = pos 0

-- The count from `for_each`, and 1 where that is missing too.
unfoldable pub for_each_count : {F : Float64} → Option (Value F) → ℤ
for_each_count none = pos 1
for_each_count (some (object m)) = pos (size m)
for_each_count (some _) = pos 0

unfoldable pub signal_count : {F : Float64} → Fields F → ℤ
signal_count after = elim (lookup "count" after) [
  | none ↦ for_each_count (lookup "for_each" after)
  | some v ↦ to_int v
]

-- A missing key leaves the zero value, which is also what nil gives.
unfoldable pub signal_of : {F : Float64} → String → String → String → Fields F → CostSignal F
signal_of address type action after = record {
  resource_addr = address;
  resource_type = type;
  action = action;
  monthly_cost = to_float64 (get "monthly_cost" after);
  hourly_cost = to_float64 (get "hourly_cost" after);
  currency = get "currency" after;
  provider = get "provider" after;
  region = get "region" after;
  instance_type = get "instance_type" after;
  storage_gb = to_float64 (get "storage_gb" after);
  count = signal_count after;
}

-- A change with no action or no `after` gives no signal.
unfoldable pub signals_of_change :
    {F : Float64} → String → String → List String → Option (Fields F) → List (CostSignal F)
signals_of_change address type (action ∷ more) (some after) =
    signal_of address type action after ∷ []
signals_of_change _ _ _ _ = []

unfoldable pub signals_of : {F : Float64} → List (ResourceChange F) → List (CostSignal F)
signals_of [] = []
signals_of (rc ∷ rcs) =
    signals_of_change rc.address rc.resource_type rc.actions rc.after ++ signals_of rcs

-- ExtractCostSignals; `none` is the error.
unfoldable pub extract_cost_signals : {F : Float64} → PlanJson F → Option (List (CostSignal F))
extract_cost_signals no_bytes = none
extract_cost_signals malformed = none
extract_cost_signals (decoded rcs) = some (signals_of rcs)

-- The advisory messages, as the data that they print.
pub data CostMessage (F : Float64) : Type 0 where
  over_threshold : String → String → F.Num → F.Num → CostMessage F
  over_budget : F.Num → F.Num → CostMessage F

module _ {F : Float64} (max_monthly_cost_per_unit : F.Num) where
  -- The loop of EvaluateOverProvisioning.
  unfoldable pub over_provisioned : List (CostSignal F) → List (CostMessage F)
  over_provisioned [] = []
  over_provisioned (s ∷ ss) =
      let rest = over_provisioned ss in
      if F.lt max_monthly_cost_per_unit s.monthly_cost
      then over_threshold s.resource_addr s.resource_type s.monthly_cost max_monthly_cost_per_unit
        ∷ rest
      else rest

  -- EvaluateOverProvisioning
  unfoldable pub evaluate_over_provisioning : List (CostSignal F) → List (CostMessage F)
  evaluate_over_provisioning ss =
      if F.le max_monthly_cost_per_unit (F.lit 0) then [] else over_provisioned ss

module _ {F : Float64} where
  -- total += s.MonthlyCost
  unfoldable pub total_cost : F.Num → List (CostSignal F) → F.Num
  total_cost total [] = total
  total_cost total (s ∷ ss) = total_cost (F.add total s.monthly_cost) ss

-- EvaluateCostTrend
unfoldable pub evaluate_cost_trend :
    {F : Float64} → F.Num → List (CostSignal F) → List (CostMessage F)
evaluate_cost_trend {F} monthly_budget ss =
    if F.le monthly_budget (F.lit 0)
    then []
    else if F.lt monthly_budget (total_cost (F.lit 0) ss)
    then over_budget (total_cost (F.lit 0) ss) monthly_budget ∷ []
    else []
