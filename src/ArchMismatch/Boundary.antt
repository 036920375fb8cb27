-- ===== src/ArchMismatch/Boundary.antt =====
-- Which dependencies cross a boundary (internal/archmismatch/detector.go).
use terraform_provider_pyxcl.Prelude.{
  ◌≡◌, refl, sym, ◌∙◌, Bool, true, ◌&&◌, ◌||◌, Option, none, some, List, [], ◌∷◌, ◌++◌, all, arith,
  or_else, if◌then◌else◌, Bool-cases, inl, inr,
}
use terraform_provider_pyxcl.GoLang.Float.{Float64}
use terraform_provider_pyxcl.GoLang.Map.{Map, lookup_runes, lookup_runes-set, set, or_else-none}
use terraform_provider_pyxcl.GoLang.Text.{Runes, text_eq}
use terraform_provider_pyxcl.Catalog.Names.{is_empty}
use terraform_provider_pyxcl.ArchMismatch.{
  Module, Rule, Finding, tiers_from, is_allowed, crossing, dependency_finding, dependency_findings,
  boundary_findings, eval_cross_boundary,
}

-- The tier of the last module of this name.
abbrev pub tier_of : Runes → List Module → Option Runes
tier_of name [] = none
tier_of name (m ∷ ms) =
    or_else (tier_of name ms) (if text_eq m.name name then some m.tier else none)

or_else_assoc {ℓ} :
    {A : Type ℓ} (o p q : Option A) → or_else (or_else o p) q ≡ or_else o (or_else p q)
or_else_assoc none p q = refl
or_else_assoc (some a) p q = refl

tiers_from-tier_of :
    (name : Runes) (tiers : Map Runes) (ms : List Module)
    → lookup_runes name (tiers_from tiers ms) ≡ or_else (tier_of name ms) (lookup_runes name tiers)
unfolding tiers_from
tiers_from-tier_of name tiers [] = refl
tiers_from-tier_of name tiers (m ∷ ms) =
    rw
      (
        tiers_from-tier_of name (set m.name m.tier tiers) ms,
        lookup_runes-set m.name m.tier tiers name,
        or_else_assoc (tier_of name ms) (if text_eq m.name name then some m.tier else none)
            (lookup_runes name tiers),
      )
      (elim (Bool-cases (text_eq m.name name)) [ inl e ↦ rw e refl | inr e ↦ rw e refl ])

module _ {F : Float64} (r : Rule F) where
  -- A dependency on a module of no tier, of the same tier, or over an edge that the rule allows.
  abbrev pub stays_within : Module → Option Runes → Bool
  stays_within m none = true
  stays_within m (some tier) = is_empty tier || text_eq tier m.tier || is_allowed r m.tier tier

  abbrev pub is_layered : List Module → Module → Bool
  is_layered ms m = is_empty m.tier || all (λ dep. stays_within m (tier_of dep ms)) m.depends_on

  is_empty-append : (xs ys : List (Finding F)) → is_empty (xs ++ ys) ≡ (is_empty xs && is_empty ys)
  is_empty-append [] ys = refl
  is_empty-append (x ∷ xs) ys = refl

  dependency_finding-stays_within :
      (m : Module) (dep : Runes) (tier : Option Runes)
      → is_empty (dependency_finding r m dep tier) ≡ stays_within m tier
  unfolding dependency_finding crossing
  dependency_finding-stays_within m dep none = refl
  dependency_finding-stays_within m dep (some tier) = ground arith

  module _ (all_modules : List Module) where
    abbrev tiers : Map Runes
    tiers = tiers_from [] all_modules

    tiers-tier_of : (dep : Runes) → lookup_runes dep tiers ≡ tier_of dep all_modules
    unfolding lookup_runes
    tiers-tier_of dep =
        tiers_from-tier_of dep [] all_modules ∙ sym (or_else-none (tier_of dep all_modules))

    dependency_findings-all :
        (m : Module) (deps : List Runes)
        → is_empty (dependency_findings r tiers m deps)
          ≡ all (λ dep. stays_within m (tier_of dep all_modules)) deps
    unfolding dependency_findings
    dependency_findings-all m [] = refl
    dependency_findings-all m (dep ∷ deps) =
        rw
          (
            is_empty-append (dependency_finding r m dep (lookup_runes dep tiers))
                (dependency_findings r tiers m deps),
            dependency_finding-stays_within m dep (lookup_runes dep tiers),
            tiers-tier_of dep,
            dependency_findings-all m deps,
          )
          refl

    boundary_findings-all :
        (ms : List Module)
        → is_empty (boundary_findings r tiers ms) ≡ all (is_layered all_modules) ms
    unfolding boundary_findings
    boundary_findings-all [] = refl
    boundary_findings-all (m ∷ ms) =
        rw
          (
            is_empty-append
                (if is_empty m.tier then [] else dependency_findings r tiers m m.depends_on)
                (boundary_findings r tiers ms),
            boundary_findings-all ms,
          )
          (ground (arith, dependency_findings-all m m.depends_on))

  -- The rule finds nothing exactly when every module that has a tier depends only on modules that are
  -- not in the graph, have no tier, have its own tier, or have one that the rule allows it to depend
  -- on, where the last module of a name gives that name's tier.
  pub eval_cross_boundary-is_layered :
      (ms : List Module) → is_empty (eval_cross_boundary r ms) ≡ all (is_layered ms) ms
  unfolding eval_cross_boundary
  eval_cross_boundary-is_layered ms = boundary_findings-all ms ms
