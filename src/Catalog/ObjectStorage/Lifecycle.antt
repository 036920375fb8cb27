-- ===== src/Catalog/ObjectStorage/Lifecycle.antt =====
-- The lifecycle rules of a bucket's plan (resolveLifecycle of internal/catalog/objectstorage.go).
use mathlib.Core.List.{Perm}
use terraform_provider_pyxcl.Prelude.{
  ◌≡◌, refl, sym, ap, Bool, true, false, not, List, [], ◌∷◌, map, any, all, All, arith,
}
use terraform_provider_pyxcl.Prelude.Results.{OnOk, OnOk-bind, OnOk-guard}
use terraform_provider_pyxcl.GoLang.Sort.{
  is_sorted, sort-perm, sort-All, are_apart, sort-ascends, ltb_runes, ltb_runes_leb,
  ltb_runes_total,
}
use terraform_provider_pyxcl.GoLang.Text.{Runes, text_eq, text_eq_iff, trim_space}
use terraform_provider_pyxcl.Catalog.Names.{is_empty}
use terraform_provider_pyxcl.Catalog.ObjectStorage.{
  LifecycleRule, no_rule_id, duplicate_rule, negative_days, no_action, has_negative, is_idle,
  resolve_rules, by_id, resolve_lifecycle,
}

-- A rule with an id that does something, after a number of days that is not negative.
pub record IsActive (r : LifecycleRule) : Type 0 where
  pub identified : is_empty r.id ≡ false
  pub not_negative : has_negative r ≡ false
  pub acts : is_idle r ≡ false

-- A rule as a plan has it.
abbrev pub trimmed : LifecycleRule → LifecycleRule
trimmed r = record r { id = trim_space r.id; prefix = trim_space r.prefix }

-- The id of a rule is less than that of the next.
abbrev pub is_before : LifecycleRule → LifecycleRule → Bool
is_before a b = ltb_runes a.id b.id

abbrev is_apart : LifecycleRule → LifecycleRule → Bool
is_apart a b = not (text_eq b.id a.id)

abbrev is_fresh : List Runes → LifecycleRule → Bool
is_fresh seen r = not (any (text_eq r.id) seen)

above_is_before : (a b : LifecycleRule) → by_id a b ≡ false → is_before b a ≡ true
above_is_before a b h = ground (arith, ltb_runes_leb b.id a.id)

below_is_before :
    (a b : LifecycleRule) → by_id a b ≡ true → is_apart a b ≡ true → is_before a b ≡ true
below_is_before a b h k =
    ground (arith, ltb_runes_leb b.id a.id, ltb_runes_total b.id a.id, text_eq_iff b.id a.id)

-- All rules, each with an id of its own that was not seen.
record AreResolved (seen : List Runes) (rules out : List LifecycleRule) : Type 0 where
  same : out ≡ map trimmed rules
  active : All IsActive out
  fresh : all (is_fresh seen) out ≡ true
  apart : are_apart is_apart out ≡ true

is_fresh-cons :
    (seen : List Runes) (id : Runes) (r : LifecycleRule) (out : List LifecycleRule)
    → r.id ≡ id
    → all (is_fresh (id ∷ seen)) out ≡ true
    → (all (is_apart r) out ≡ true) × (all (is_fresh seen) out ≡ true)
is_fresh-cons seen id r [] e h = (refl, refl)
is_fresh-cons seen id r (s ∷ out) e h =
    let rest = is_fresh-cons seen id r out e (ground arith) in
    (rw e (ground (arith, rest.0)), ground (arith, rest.1))

resolve_rules-AreResolved :
    (seen : List Runes) (rules : List LifecycleRule)
    → OnOk (AreResolved seen rules) (resolve_rules seen rules)
unfolding resolve_rules
resolve_rules-AreResolved seen [] = record { same = refl; active = tt; fresh = refl; apart = refl }
resolve_rules-AreResolved seen (r ∷ rs) =
    let id = trim_space r.id in
    OnOk-guard _ (not (is_empty id)) no_rule_id _ (λ f.
      OnOk-guard _ (not (any (text_eq id) seen)) (duplicate_rule id) _ (λ new.
        OnOk-guard _ (not (has_negative r)) (negative_days id) _ (λ g.
          OnOk-guard _ (not (is_idle r)) (no_action id) _ (λ h.
            OnOk-bind (AreResolved (id ∷ seen) rs) _ (resolve_rules (id ∷ seen) rs) _
              (resolve_rules-AreResolved (id ∷ seen) rs)
              (λ out k.
                let others = is_fresh-cons seen id (trimmed r) out refl k.fresh in
                record {
                  same = ap (λ rest. trimmed r ∷ rest) k.same;
                  active = (
                    record {
                      identified = ground arith;
                      not_negative = ground arith;
                      acts = ground arith;
                    },
                    k.active,
                  );
                  fresh = ground (arith, others.1);
                  apart = ground (arith, others.0, k.apart);
                })))))

-- All of the spec's rules, by strictly ascending ids, each of which does something.
pub record AreOrdered (rules out : List LifecycleRule) : Type 0 where
  pub complete : Perm out (map trimmed rules)
  pub active : All IsActive out
  pub ordered : is_sorted is_before out ≡ true

pub resolve_lifecycle-AreOrdered :
    (rules : List LifecycleRule) → OnOk (AreOrdered rules) (resolve_lifecycle rules)
unfolding resolve_lifecycle
resolve_lifecycle-AreOrdered rules =
    OnOk-bind (AreResolved [] rules) (AreOrdered rules) (resolve_rules [] rules) _
      (resolve_rules-AreResolved [] rules)
      (λ out h. record {
        complete = rw (sym h.same) (sort-perm by_id out);
        active = sort-All by_id IsActive out h.active;
        ordered = sort-ascends by_id is_before is_apart below_is_before above_is_before out h.apart;
      })
