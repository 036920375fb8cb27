-- ===== src/ArchMismatch/Tests.antt =====
-- A small graph of modules, and instances of the theorems on it.
use terraform_provider_pyxcl.Prelude.{ℕ, ◌≡◌, refl, true, false, [], ◌∷◌, ◌++◌, all}
use terraform_provider_pyxcl.Prelude.Int.{pos}
use terraform_provider_pyxcl.GoLang.Exact.{exact}
use terraform_provider_pyxcl.GoLang.Map.{lookup_runes, set}
use terraform_provider_pyxcl.GoLang.Text.{Runes, codes, trim_space}
use terraform_provider_pyxcl.Catalog.Names.{is_empty}
use terraform_provider_pyxcl.ArchMismatch.Sets.{to_set, add_key}
use terraform_provider_pyxcl.ArchMismatch.{
  Module, Rule, premature_split, copied_layout, cross_boundary_dependency, jaccard_similarity,
  few_types_finding, eval_premature_split, overlap_finding, overlaps_with, eval_copied_layout,
  tiers_from, is_allowed, dependency_finding, dependency_findings, boundary_findings,
  eval_cross_boundary, run_rule, analyze,
}
use terraform_provider_pyxcl.ArchMismatch.Boundary.{is_layered, eval_cross_boundary-is_layered}

abbrev rule : Runes → Runes → ℕ → Rule exact
rule id kind threshold = record {
  id = id;
  rule_type = kind;
  threshold = pos threshold;
  severity = codes "HIGH";
  enabled = true;
  description = [];
  allowed_tier_edges = codes "compute->data" ∷ codes "presentation->compute" ∷ [];
}

abbrev layered : Rule exact
layered = rule (codes "layers") cross_boundary_dependency 0

abbrev store : Module
store = record {
  name = codes "store";
  resource_types = codes "aws_s3_bucket" ∷ codes " aws_s3_bucket" ∷ codes "aws_iam_role" ∷ [];
  tier = codes "data";
  depends_on = [];
}

abbrev site : Module
site = record {
  name = codes "site";
  resource_types = codes "aws_iam_role" ∷ codes "aws_s3_bucket " ∷ [];
  tier = codes "presentation";
  depends_on = codes "store" ∷ codes "elsewhere" ∷ [];
}

-- The site skips a layer, both modules have two types, and these are the same.
finds :
    analyze
      (rule (codes "few") premature_split 3 ∷ rule (codes "copy") copied_layout 1 ∷ layered ∷ [])
      (store ∷ site ∷ [])
    ≡ few_types_finding (rule (codes "few") premature_split 3) store
      ++ few_types_finding (rule (codes "few") premature_split 3) site
      ++ overlap_finding (rule (codes "copy") copied_layout 1) store site
      ++ eval_cross_boundary layered (store ∷ site ∷ [])
unfolding analyze run_rule eval_premature_split eval_copied_layout overlaps_with eval_cross_boundary
    few_types_finding overlap_finding to_set trim_space jaccard_similarity boundary_findings
    dependency_findings dependency_finding lookup_runes tiers_from set is_allowed
finds = refl

site_crosses : is_empty (eval_cross_boundary layered (store ∷ site ∷ [])) ≡ false
unfolding eval_cross_boundary boundary_findings dependency_findings dependency_finding is_allowed
    tiers_from set lookup_runes
site_crosses = refl

same_types : jaccard_similarity exact store.resource_types site.resource_types ≡ pos 1
unfolding jaccard_similarity to_set add_key trim_space
same_types = refl

eval_cross_boundary-is_layered_example :
    is_empty (eval_cross_boundary layered (store ∷ site ∷ []))
    ≡ all (is_layered layered (store ∷ site ∷ [])) (store ∷ site ∷ [])
eval_cross_boundary-is_layered_example = eval_cross_boundary-is_layered layered (store ∷ site ∷ [])
