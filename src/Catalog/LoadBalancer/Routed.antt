-- ===== src/Catalog/LoadBalancer/Routed.antt =====
-- The listeners of a plan and where they lead (internal/catalog/loadbalancer.go).
use mathlib.Core.List.{Perm}
use terraform_provider_pyxcl.Prelude.{
  ◌≡◌, refl, Bool, true, false, not, ◌||◌, ◌⊎◌, List, [], ◌∷◌, map, all, length, leb, arith, All,
  ◌∙◌,
}
use terraform_provider_pyxcl.Prelude.Int.{pos, eq_ℤ}
use terraform_provider_pyxcl.Prelude.Results.{ok, OnOk, OnOk-bind_eq, OnOk-guard, OnOk_apply}
use terraform_provider_pyxcl.GoLang.Sort.{
  is_sorted, sort-perm, sort-is_sorted, sort-All, leb_ℤ_total,
}
use terraform_provider_pyxcl.GoLang.Text.{Runes, codes, text_eq, text_eq_iff}
use terraform_provider_pyxcl.Catalog.Names.{aws, digitalocean, normal, RegionCatalog, is_empty}
use terraform_provider_pyxcl.Catalog.LoadBalancer.{
  LbListenerSpec, LbListenerPlan, LoadBalancerSpec, LoadBalancerPlan, LbHealthCheckSpec, http,
  https, tcp, target_vm, stable_ip_elsewhere, stable_ip_target, canonical_lb_proto,
  canonical_target_kind, is_port, is_aws, validate_load_balancer_spec, resolve_listener,
  resolve_listeners, by_port, first_listener, binds_droplet, default_health_check, lb_resource_type,
  lb_region, load_balancer_plan, translate_load_balancer,
}
use terraform_provider_pyxcl.Catalog.LoadBalancer.Accepts.{
  is_listener, validate_load_balancer_spec-is_valid_lb,
}
use terraform_provider_pyxcl.Catalog.LoadBalancer.Routing.{
  values_max, is_before, is_rule_plan, resolve_routing_rules-is_before,
  resolve_routing_rules-is_rule,
}

-- One of the three protocols.
abbrev pub IsLbProto : Runes → Type 0
IsLbProto p = (p ≡ http) ⊎ (p ≡ https) ⊎ (p ≡ tcp)

canonical_lb_proto-IsLbProto : (p : Runes) → IsLbProto (canonical_lb_proto p)
unfolding canonical_lb_proto
canonical_lb_proto-IsLbProto p = ground arith

-- A listener that a provider can be given: the priorities of its rules ascend.
pub record IsRoutedListener (on_aws : Bool) (l : LbListenerPlan) : Type 0 where
  pub port : is_port l.port ≡ true
  pub protocol : IsLbProto l.protocol
  pub few : (not on_aws || leb (length l.conditions) values_max) ≡ true
  pub rules : all (is_rule_plan on_aws) l.rules ≡ true
  pub ordered : is_sorted is_before l.rules ≡ true

resolve_listener-IsRoutedListener :
    (provider : Runes) (l : LbListenerSpec)
    → is_listener provider l ≡ true
    → IsRoutedListener (is_aws provider) (resolve_listener l)
unfolding resolve_listener
resolve_listener-IsRoutedListener provider l h = record {
  port = ground arith;
  protocol = canonical_lb_proto-IsLbProto l.protocol;
  few = ground arith;
  rules = resolve_routing_rules-is_rule (is_aws provider) l.rules ∙ ground arith;
  ordered = resolve_routing_rules-is_before [] l.rules (ground arith);
}

all_routed :
    (provider : Runes) (ls : List LbListenerSpec)
    → all (is_listener provider) ls ≡ true
    → All (IsRoutedListener (is_aws provider)) (map resolve_listener ls)
all_routed provider [] h = tt
all_routed provider (l ∷ ls) h = (
  resolve_listener-IsRoutedListener provider l (ground arith),
  all_routed provider ls (ground arith),
)

resolve_listeners-All :
    (provider : Runes) (ls : List LbListenerSpec)
    → all (is_listener provider) ls ≡ true
    → All (IsRoutedListener (is_aws provider)) (resolve_listeners ls)
unfolding resolve_listeners
resolve_listeners-All provider ls h =
    sort-All by_port (IsRoutedListener (is_aws provider)) (map resolve_listener ls)
      (all_routed provider ls h)

first_listener-All :
    (P : LbListenerPlan → Type 0) (ls : List LbListenerPlan) → All P ls → OnOk P (first_listener ls)
first_listener-All P [] h = tt
first_listener-All P (l ∷ ls) (p, h) = p

checked_port :
    (hc : LbHealthCheckSpec) (first : LbListenerPlan)
    → is_port first.port ≡ true
    → (eq_ℤ hc.port (pos 0) || is_port hc.port) ≡ true
    → is_port (default_health_check hc first).port ≡ true
unfolding default_health_check
checked_port hc first h k = ground arith

checked_protocol :
    (hc : LbHealthCheckSpec) (first : LbListenerPlan)
    → IsLbProto first.protocol
    → IsLbProto (default_health_check hc first).protocol
unfolding default_health_check
checked_protocol hc first h = ground (arith, canonical_lb_proto-IsLbProto hc.protocol)

-- A stable address is a reserved address of one named machine on DigitalOcean.
pub record IsReserved (plan : LoadBalancerPlan) : Type 0 where
  pub on_digitalocean : plan.provider ≡ digitalocean
  pub of_vm : plan.target_kind ≡ target_vm
  pub named : is_empty plan.target_name ≡ false
  pub reserved : plan.resource_type ≡ codes "digitalocean_reserved_ip"

reserved_type :
    (p : Runes) → p ≡ digitalocean → lb_resource_type p true ≡ codes "digitalocean_reserved_ip"
unfolding lb_resource_type
reserved_type p e = rw e refl

-- A plan with the spec's listeners by ascending port.
pub record IsRouted (spec : LoadBalancerSpec) (plan : LoadBalancerPlan) : Type 0 where
  pub listed : Perm plan.listeners (map resolve_listener spec.listeners)
  pub ordered : is_sorted by_port plan.listeners ≡ true
  pub routed : All (IsRoutedListener (text_eq plan.provider aws)) plan.listeners
  pub checked_port : is_port plan.health_check.port ≡ true
  pub checked_protocol : IsLbProto plan.health_check.protocol
  pub stable : plan.stable_ip ≡ true → IsReserved plan

module _ (resolve : RegionCatalog) (spec : LoadBalancerSpec) where
  routed : OnOk (IsRouted spec) (translate_load_balancer resolve spec)
  unfolding translate_load_balancer load_balancer_plan resolve_listeners
  routed = OnOk-bind_eq _ (validate_load_balancer_spec spec) _ (λ u valid.
      OnOk-bind_eq _ (lb_region (resolve spec.region spec.provider)) _ (λ row _.
        OnOk-bind_eq _ (first_listener (resolve_listeners spec.listeners)) _ (λ first e.
          OnOk-guard _ (not spec.stable_ip || text_eq (normal spec.provider) digitalocean)
            stable_ip_elsewhere _
            (λ on_do.
              OnOk-guard _ (not spec.stable_ip || binds_droplet spec) stable_ip_target _ (λ bound.
                let is_valid = validate_load_balancer_spec-is_valid_lb spec in
                let listeners = resolve_listeners-All spec.provider spec.listeners (ground arith) in
                let head = OnOk_apply _ _ first (first_listener-All _ _ listeners) e in
                record {
                  listed = sort-perm by_port (map resolve_listener spec.listeners);
                  ordered =
                      sort-is_sorted by_port (λ a b h. leb_ℤ_total a.port b.port h)
                        (map resolve_listener spec.listeners);
                  routed = listeners;
                  checked_port = checked_port spec.health_check first head.port (ground arith);
                  checked_protocol = checked_protocol spec.health_check first head.protocol;
                  stable = λ s.
                      let there =
                        (text_eq_iff (normal spec.provider) digitalocean).0 (ground arith) in
                      record {
                        on_digitalocean = there;
                        of_vm =
                            (text_eq_iff (canonical_target_kind spec.target_kind) target_vm).0
                              (ground arith);
                        named = ground arith;
                        reserved = rw s (reserved_type (normal spec.provider) there);
                      };
                })))))

  -- A plan has the listeners of its spec by ascending port, each with a port in range, one of the three
  -- protocols, and rules by strictly ascending priority, each with a host or a path and a priority
  -- between 1 and 50000; on AWS a listener has at most five conditions and a rule at most five values.
  -- The health check has a port in range and one of the three protocols. A stable address is a reserved
  -- one, of a named machine on DigitalOcean.
  pub translate_load_balancer-IsRouted :
      (plan : LoadBalancerPlan)
      → translate_load_balancer resolve spec ≡ ok plan
      → IsRouted spec plan
  translate_load_balancer-IsRouted plan h = OnOk_apply _ _ plan routed h
