-- ===== src/ArchMismatch.antt =====
-- internal/archmismatch/detector.go: three rules on a graph of modules. A message is kept as the data
-- that it prints.
pub mod Sets
pub mod Symmetric
pub mod Boundary
pub mod Copies
mod Tests
use terraform_provider_pyxcl.Prelude.{
  ℕ, ◌+◌, ◌-◌, ◌==◌, String, Bool, true, false, not, ◌&&◌, ◌||◌, Option, none, some, List, [], ◌∷◌,
  ◌++◌, length, if◌then◌else◌,
}
use terraform_provider_pyxcl.Prelude.Int.{pos}
use terraform_provider_pyxcl.GoLang.Float.{Float64}
use terraform_provider_pyxcl.GoLang.Map.{Map, lookup_runes, set}
use terraform_provider_pyxcl.GoLang.Text.{Runes, codes, text_eq}
use terraform_provider_pyxcl.Catalog.Names.{is_empty}
use terraform_provider_pyxcl.ArchMismatch.Sets.{to_set, has_key, shared_keys}

-- RuleType
abbrev pub premature_split : Runes
premature_split = codes "premature_split"

abbrev pub copied_layout : Runes
copied_layout = codes "copied_layout"

abbrev pub cross_boundary_dependency : Runes
cross_boundary_dependency = codes "cross_boundary_dependency"

-- Module
pub record Module : Type 0 where
  pub name : Runes
  pub resource_types : List Runes
  pub tier : Runes
  pub depends_on : List Runes

module _ (F : Float64) where
  -- Rule
  pub record Rule : Type 0 where
    pub id : Runes
    pub rule_type : Runes
    pub threshold : F.Num
    pub severity : Runes
    pub enabled : Bool
    pub description : Runes
    pub allowed_tier_edges : List Runes

  -- What a message prints.
  pub data Message : Type 0 where
    few_types : Runes → ℕ → F.Num → Message
    overlap : Runes → Runes → F.Num → Message
    crosses : Runes → Runes → Runes → Runes → Message

  -- Finding
  pub record Finding : Type 0 where
    pub rule_id : Runes
    pub rule_type : Runes
    pub name : Runes
    pub related : Runes
    pub severity : Runes
    pub message : Message
    pub remediation : String

-- distinctCount
unfoldable pub distinct_count : List Runes → ℕ
distinct_count types = length (to_set types)

-- jaccardSimilarity
unfoldable pub jaccard_similarity : (F : Float64) → List Runes → List Runes → F.Num
jaccard_similarity F a b =
    let shared = shared_keys (to_set a) (to_set b) in
    let union = length (to_set a) + length (to_set b) - shared in
    if length (to_set a) == 0 && length (to_set b) == 0
    then F.lit 1
    else if union == 0
    then F.lit 0
    else F.div (F.of_int (pos shared)) (F.of_int (pos union))

-- The map from the names to the tiers; a later module of the same name wins.
unfoldable pub tiers_from : Map Runes → List Module → Map Runes
tiers_from tiers [] = tiers
tiers_from tiers (m ∷ ms) = tiers_from (set m.name m.tier tiers) ms

module _ {F : Float64} where
  unfoldable pub few_types_finding : Rule F → Module → List (Finding F)
  unfolding distinct_count
  few_types_finding r m =
      let distinct = distinct_count m.resource_types in
      if F.lt (F.of_int (pos distinct)) r.threshold
      then record {
        rule_id = r.id;
        rule_type = r.rule_type;
        name = m.name;
        related = [];
        severity = r.severity;
        message = few_types m.name distinct r.threshold;
        remediation =
            "Consolidate this module with its parent until at least 3 distinct resource type clusters with independent lifecycles are identified.";
      }
        ∷ []
      else []

  -- evalPrematureSplit
  unfoldable pub eval_premature_split : Rule F → List Module → List (Finding F)
  eval_premature_split r [] = []
  eval_premature_split r (m ∷ ms) = few_types_finding r m ++ eval_premature_split r ms

  unfoldable pub overlap_finding : Rule F → Module → Module → List (Finding F)
  overlap_finding r a b =
      let sim = jaccard_similarity F a.resource_types b.resource_types in
      if F.le r.threshold sim
      then record {
        rule_id = r.id;
        rule_type = r.rule_type;
        name = a.name;
        related = b.name;
        severity = r.severity;
        message = overlap a.name b.name sim;
        remediation =
            "Extract a shared base module that both services import, or verify whether these services should be unified.";
      }
        ∷ []
      else []

  -- The inner loop of evalCopiedLayout.
  unfoldable pub overlaps_with : Rule F → Module → List Module → List (Finding F)
  overlaps_with r a [] = []
  overlaps_with r a (b ∷ bs) = overlap_finding r a b ++ overlaps_with r a bs

  -- evalCopiedLayout
  unfoldable pub eval_copied_layout : Rule F → List Module → List (Finding F)
  eval_copied_layout r [] = []
  eval_copied_layout r (a ∷ ms) = overlaps_with r a ms ++ eval_copied_layout r ms

  -- allowed[edge]
  unfoldable pub is_allowed : Rule F → Runes → Runes → Bool
  is_allowed r from to = has_key (from ++ (codes "->" ++ to)) r.allowed_tier_edges

  crossing : Rule F → Module → Runes → Runes → List (Finding F)
  crossing r m dep tier =
      if is_empty tier || text_eq tier m.tier || is_allowed r m.tier tier
      then []
      else record {
        rule_id = r.id;
        rule_type = r.rule_type;
        name = m.name;
        related = dep;
        severity = r.severity;
        message = crosses m.name m.tier dep tier;
        remediation =
            "Introduce an interface layer (SSM parameter, published output, or API contract) between the tiers instead of a direct module dependency.";
      }
        ∷ []

  unfoldable pub dependency_finding : Rule F → Module → Runes → Option Runes → List (Finding F)
  unfolding crossing
  dependency_finding r m dep none = []
  dependency_finding r m dep (some tier) = crossing r m dep tier

  -- The loop over the dependencies of a module.
  unfoldable pub dependency_findings : Rule F → Map Runes → Module → List Runes → List (Finding F)
  dependency_findings r tiers m [] = []
  dependency_findings r tiers m (dep ∷ deps) =
      dependency_finding r m dep (lookup_runes dep tiers) ++ dependency_findings r tiers m deps

  unfoldable pub boundary_findings : Rule F → Map Runes → List Module → List (Finding F)
  boundary_findings r tiers [] = []
  boundary_findings r tiers (m ∷ ms) =
      (if is_empty m.tier then [] else dependency_findings r tiers m m.depends_on)
      ++ boundary_findings r tiers ms

  -- evalCrossBoundary
  unfoldable pub eval_cross_boundary : Rule F → List Module → List (Finding F)
  eval_cross_boundary r ms = boundary_findings r (tiers_from [] ms) ms

  -- The body of the loop of Analyze.
  unfoldable pub run_rule : Rule F → List Module → List (Finding F)
  run_rule r ms =
      if not r.enabled
      then []
      else if text_eq r.rule_type premature_split
      then eval_premature_split r ms
      else if text_eq r.rule_type copied_layout
      then eval_copied_layout r ms
      else if text_eq r.rule_type cross_boundary_dependency
      then eval_cross_boundary r ms
      else []

  -- Analyze, on the rules of the detector
  unfoldable pub analyze : List (Rule F) → List Module → List (Finding F)
  analyze [] ms = []
  analyze (r ∷ rs) ms = run_rule r ms ++ analyze rs ms
