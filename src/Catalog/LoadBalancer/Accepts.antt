-- ===== src/Catalog/LoadBalancer/Accepts.antt =====
-- Which load balancers are translated (internal/catalog/loadbalancer.go).
use terraform_provider_pyxcl.Prelude.{
  ◌≡◌, refl, ap, ◌∙◌, Bool, true, false, Option, none, some, not, ◌&&◌, ◌||◌, List, [], ◌∷◌, map,
  all, length, leb, arith, is_some,
}
use terraform_provider_pyxcl.Prelude.Int.{pos, eq_ℤ}
use terraform_provider_pyxcl.Prelude.Results.{Result, ok, err, is_ok, ◌>>=◌}
use terraform_provider_pyxcl.GoLang.Sort.{sort, insert}
use terraform_provider_pyxcl.GoLang.Text.{Runes, text_eq, trim_space}
use terraform_provider_pyxcl.Catalog.Names.{
  digitalocean, normal, provider_to_csp, RegionRow, RegionCatalog, is_empty,
}
use terraform_provider_pyxcl.Catalog.LoadBalancer.{
  LbListenerSpec, LbListenerPlan, LoadBalancerSpec, is_lb_proto, is_target_kind, is_port, is_aws,
  check_listener, check_listeners, validate_load_balancer_spec, resolve_listener, resolve_listeners,
  LbFault, index_panic, checked_rules, lb_region, by_port, first_listener, binds_droplet,
  translate_load_balancer,
}
use terraform_provider_pyxcl.Catalog.LoadBalancer.Routing.{
  RuleFault, values_max, is_rule, validate_routing_rules, no_duplicates,
  validate_routing_rules-is_rule,
}

-- A listener with a port in range, a protocol that is known or left out, at most five conditions on
-- AWS, and rules of different priorities.
abbrev pub is_listener : Runes → LbListenerSpec → Bool
is_listener provider l =
    is_port l.port
    && is_lb_proto (normal l.protocol)
    && (not (is_aws provider) || leb (length l.conditions) values_max)
    && (all (is_rule (is_aws provider)) l.rules && no_duplicates [] l.rules)

-- A spec with a region, a known provider, listeners, and a target and a health check that are known or
-- left out.
abbrev pub is_valid_lb : LoadBalancerSpec → Bool
is_valid_lb spec =
    not (is_empty (trim_space spec.region))
    && not (is_empty (trim_space spec.provider))
    && is_some (provider_to_csp spec.provider)
    && not (is_empty spec.listeners)
    && all (is_listener spec.provider) spec.listeners
    && is_target_kind (normal spec.target_kind)
    && (eq_ℤ spec.health_check.port (pos 0) || is_port spec.health_check.port)
    && is_lb_proto (normal spec.health_check.protocol)

-- A stable address is of a droplet on DigitalOcean.
abbrev pub is_bound : LoadBalancerSpec → Bool
is_bound spec =
    not spec.stable_ip || (text_eq (normal spec.provider) digitalocean && binds_droplet spec)

check_listener-is_listener :
    (provider : Runes) (l : LbListenerSpec)
    → is_ok (check_listener provider l) ≡ is_listener provider l
unfolding check_listener
check_listener-is_listener provider l =
    ground (arith, validate_routing_rules-is_rule (is_aws provider) l.rules)

check_listeners-is_listener :
    (provider : Runes) (ls : List LbListenerSpec)
    → is_ok (check_listeners provider ls) ≡ all (is_listener provider) ls
unfolding check_listeners
check_listeners-is_listener provider [] = refl
check_listeners-is_listener provider (l ∷ ls) =
    ground (arith, check_listener-is_listener provider l, check_listeners-is_listener provider ls)

pub validate_load_balancer_spec-is_valid_lb :
    (spec : LoadBalancerSpec) → is_ok (validate_load_balancer_spec spec) ≡ is_valid_lb spec
unfolding validate_load_balancer_spec
validate_load_balancer_spec-is_valid_lb spec =
    ground (arith, check_listeners-is_listener spec.provider spec.listeners)

has_first-insert :
    (l : LbListenerPlan) (ls : List LbListenerPlan)
    → is_ok (first_listener (insert by_port l ls)) ≡ true
unfolding insert
has_first-insert l [] = refl
has_first-insert l (m ∷ ms) = ground arith

-- The index of the first listener is in range.
has_first :
    (ls : List LbListenerSpec) → is_ok (first_listener (resolve_listeners ls)) ≡ not (is_empty ls)
unfolding resolve_listeners sort
has_first [] = refl
has_first (l ∷ ls) = has_first-insert (resolve_listener l) (sort by_port (map resolve_listener ls))

abbrev is_panic : LbFault → Bool
is_panic index_panic = true
is_panic _ = false

-- The code panics.
abbrev pub panics {ℓ} : {A : Type ℓ} → Result LbFault A → Bool
panics (ok a) = false
panics (err e) = is_panic e

panics-bind :
    {A B : Type 0} (m : Result LbFault A) (f : A → Result LbFault B)
    → panics m ≡ false
    → ((a : A) → m ≡ ok a → panics (f a) ≡ false)
    → panics (m >>= f) ≡ false
panics-bind (ok a) f h k = k a refl
panics-bind (err e) f h k = h

checked_rules-panics : (r : Result RuleFault (Unit {0})) → panics (checked_rules r) ≡ false
checked_rules-panics (ok u) = refl
checked_rules-panics (err e) = refl

check_listener-panics :
    (provider : Runes) (l : LbListenerSpec) → panics (check_listener provider l) ≡ false
unfolding check_listener
check_listener-panics provider l =
    ground (arith, checked_rules-panics (validate_routing_rules (is_aws provider) l.rules))

check_listeners-panics :
    (provider : Runes) (ls : List LbListenerSpec) → panics (check_listeners provider ls) ≡ false
unfolding check_listeners
check_listeners-panics provider [] = refl
check_listeners-panics provider (l ∷ ls) =
    panics-bind (check_listener provider l) _ (check_listener-panics provider l)
      (λ u e. check_listeners-panics provider ls)

validate_load_balancer_spec-panics :
    (spec : LoadBalancerSpec) → panics (validate_load_balancer_spec spec) ≡ false
unfolding validate_load_balancer_spec
validate_load_balancer_spec-panics spec =
    ground (arith, check_listeners-panics spec.provider spec.listeners)

-- Behind the validation there is a first listener.
first_listener-panics :
    (spec : LoadBalancerSpec)
    → is_ok (validate_load_balancer_spec spec) ≡ true
    → panics (first_listener (resolve_listeners spec.listeners)) ≡ false
first_listener-panics spec h =
    some_first (resolve_listeners spec.listeners)
      (has_first spec.listeners ∙ ground (arith, validate_load_balancer_spec-is_valid_lb spec))
  where
    some_first :
        (ls : List LbListenerPlan)
        → is_ok (first_listener ls) ≡ true
        → panics (first_listener ls) ≡ false
    some_first [] h = cc h
    some_first (l ∷ ls) h = refl

lb_region-panics : (row : Option RegionRow) → panics (lb_region row) ≡ false
lb_region-panics none = refl
lb_region-panics (some row) = refl

translate_load_balancer-panics :
    (resolve : RegionCatalog) (spec : LoadBalancerSpec)
    → panics (translate_load_balancer resolve spec) ≡ false
unfolding translate_load_balancer
translate_load_balancer-panics resolve spec =
    panics-bind (validate_load_balancer_spec spec) _ (validate_load_balancer_spec-panics spec)
      (λ u valid.
        panics-bind (lb_region (resolve spec.region spec.provider)) _ (lb_region-panics _) (λ row _.
          panics-bind (first_listener (resolve_listeners spec.listeners)) _
            (first_listener-panics spec (ap is_ok valid)) (λ first _. ground arith)))

-- Whatever its spec, the translation of a load balancer never panics; and it succeeds exactly when region
-- and provider are not blank, the provider is known, there is a listener, each listener has a port in
-- range, a protocol that is known or left out, at most five conditions on AWS and rules of different
-- priorities, each with a condition, a priority in range and, on AWS, at most five values; target and
-- health check are known or left out; the catalog has the region; and a stable address is asked for on
-- DigitalOcean only, for a named machine.
pub translate_load_balancer-accepts :
    (resolve : RegionCatalog) (spec : LoadBalancerSpec)
    → (panics (translate_load_balancer resolve spec) ≡ false)
      × (is_ok (translate_load_balancer resolve spec)
          ≡ (is_valid_lb spec && is_some (resolve spec.region spec.provider) && is_bound spec))
unfolding translate_load_balancer
translate_load_balancer-accepts resolve spec = (
  translate_load_balancer-panics resolve spec,
  ground (arith, validate_load_balancer_spec-is_valid_lb spec, has_first spec.listeners),
)
