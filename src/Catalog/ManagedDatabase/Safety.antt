-- ===== src/Catalog/ManagedDatabase/Safety.antt =====
-- The data-safety guard of internal/catalog/manageddatabase.go: the changes to a database that would
-- replace it, and so destroy its data. The folding of letters outside of ASCII is the argument `fold`.
use terraform_provider_pyxcl.Prelude.{
  ℕ, ◌≡◌, refl, Bool, true, false, not, ◌&&◌, Option, none, some, List, [], ◌∷◌, ◌++◌, map, any,
  if◌then◌else◌, arith,
}
use terraform_provider_pyxcl.Prelude.Int.{ℤ}
use terraform_provider_pyxcl.Prelude.Results.{Result, ok, err, is_ok}
use terraform_provider_pyxcl.GoLang.Text.{Runes, codes, text_eq}
use terraform_provider_pyxcl.Catalog.ManagedDatabase.{ManagedDatabasePlan}

-- DataSafetyViolation
pub record DataSafetyViolation : Type 0 where
  pub attribute : Runes
  pub from : Runes
  pub to : Runes

-- ErrDataSafetyForceReplace
pub record ForceReplace : Type 0 where
  pub db_name : Runes
  pub provider : Runes
  pub violations : List DataSafetyViolation

-- boolStr
unfoldable pub bool_str : Bool → Runes
bool_str b = if b then codes "true" else codes "false"

abbrev pub encrypted : Runes
encrypted = codes "encrypted"

abbrev pub engine : Runes
engine = codes "engine"

abbrev pub identifier : Runes
identifier = codes "identifier"

abbrev pub class_family : Runes
class_family = codes "storage_type/class_family"

abbrev pub bool_eq : Bool → Bool → Bool
bool_eq true b = b
bool_eq false b = not b

-- The violation that a test appends, if any.
abbrev changed : Bool → Runes → Runes → Runes → List DataSafetyViolation
changed same attribute from to =
    if same then [] else record { attribute = attribute; from = from; to = to } ∷ []

module _ (fold : ℕ → ℕ) where
  -- strings.EqualFold
  unfoldable pub equal_fold : Runes → Runes → Bool
  equal_fold s t = text_eq (map fold s) (map fold t)

  unfoldable pub violations : ManagedDatabasePlan → ManagedDatabasePlan → List DataSafetyViolation
  violations prior next =
      changed (bool_eq prior.encrypted next.encrypted) encrypted (bool_str prior.encrypted)
        (bool_str next.encrypted)
      ++ (changed (equal_fold prior.engine next.engine) engine prior.engine next.engine
          ++ (changed (text_eq prior.db_name next.db_name) identifier prior.db_name next.db_name
              ++ changed (equal_fold prior.family next.family) class_family prior.family
                  next.family))

  abbrev refusal : ManagedDatabasePlan → List DataSafetyViolation → Result ForceReplace (Unit {0})
  refusal next [] = ok tt
  refusal next (v ∷ vs) =
      err (record { db_name = next.db_name; provider = next.provider; violations = v ∷ vs })

  -- CheckManagedDatabaseDataSafety; `none` is a nil pointer.
  unfoldable pub check_data_safety :
      Option ManagedDatabasePlan → Option ManagedDatabasePlan → Result ForceReplace (Unit {0})
  check_data_safety none next = ok tt
  check_data_safety (some prior) none = ok tt
  check_data_safety (some prior) (some next) = refusal next (violations prior next)

-- The refusal has a violation of an attribute.
abbrev pub is_reported : Runes → Result ForceReplace (Unit {0}) → Bool
is_reported attribute (ok u) = false
is_reported attribute (err e) = any (λ v. text_eq v.attribute attribute) e.violations

-- What the guard tells of two plans.
pub record IsGuarded (fold : ℕ → ℕ) (prior next : ManagedDatabasePlan)
    (result : Result ForceReplace (Unit {0})) : Type 0 where
  pub allowed : is_ok result ≡ (
      bool_eq prior.encrypted next.encrypted
      && equal_fold fold prior.engine next.engine
      && text_eq prior.db_name next.db_name
      && equal_fold fold prior.family next.family)
  pub of_encryption : is_reported encrypted result ≡ not (bool_eq prior.encrypted next.encrypted)
  pub of_engine : is_reported engine result ≡ not (equal_fold fold prior.engine next.engine)
  pub of_identifier : is_reported identifier result ≡ not (text_eq prior.db_name next.db_name)
  pub of_family : is_reported class_family result ≡ not (equal_fold fold prior.family next.family)
  pub blind :
      (version : Runes) (class : Runes) (storage : ℤ) (cpu : ℤ) (ram : ℤ) (ha : Bool)
      → check_data_safety fold (some prior) (
          some (record next {
            engine_version = version;
            db_class = class;
            storage_gb = storage;
            cpu = cpu;
            ram = ram;
            ha = ha;
          }))
        ≡ result

-- On a live database the guard passes a plan exactly if its encryption and its identifier are the prior
-- ones, and its engine and the family of its class are, up to the case of letters; a refusal names
-- exactly the ones among these four that changed. Nothing else is compared: whatever the engine's version,
-- the class, the storage, the size and the availability of the new plan, the answer is the same.
pub check_data_safety-IsGuarded :
    (fold : ℕ → ℕ) (prior next : ManagedDatabasePlan)
    → IsGuarded fold prior next (check_data_safety fold (some prior) (some next))
unfolding check_data_safety violations
check_data_safety-IsGuarded fold prior next = record {
  allowed = ground arith;
  of_encryption = ground arith;
  of_engine = ground arith;
  of_identifier = ground arith;
  of_family = ground arith;
  blind = λ version class storage cpu ram ha. refl;
}
