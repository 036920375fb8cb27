-- ===== src/Catalog/LoadBalancer/Tests.antt =====
-- A load balancer on AWS, and instances of the theorems on it.
use terraform_provider_pyxcl.Prelude.{◌≡◌, refl, false, ◌&&◌, some, List, [], ◌∷◌, is_some}
use terraform_provider_pyxcl.Prelude.Int.{ℤ, pos}
use terraform_provider_pyxcl.Prelude.Results.{ok, err, is_ok}
use terraform_provider_pyxcl.GoLang.Sort.{sort, insert}
use terraform_provider_pyxcl.GoLang.Text.{Runes, codes, to_lower, trim_space}
use terraform_provider_pyxcl.Catalog.Names.{normal, provider_to_csp, RegionRow, RegionCatalog}
use terraform_provider_pyxcl.Catalog.LoadBalancer.{
  LbListenerSpec, LbListenerPlan, LoadBalancerSpec, LoadBalancerPlan, bad_rule, canonical_lb_proto,
  check_listener, check_listeners, validate_load_balancer_spec, resolve_listener, resolve_listeners,
  load_balancer_plan, translate_load_balancer,
}
use terraform_provider_pyxcl.Catalog.LoadBalancer.Accepts.{
  panics, is_valid_lb, is_bound, translate_load_balancer-accepts,
}
use terraform_provider_pyxcl.Catalog.LoadBalancer.Routed.{
  IsRouted, translate_load_balancer-IsRouted,
}
use terraform_provider_pyxcl.Catalog.LoadBalancer.Routing.{
  LbRoutingRule, duplicate_priority, check_rules, validate_routing_rules, resolve_routing_rule,
  resolve_routing_rules,
}

abbrev ireland : RegionRow
ireland = record {
  macro_region = codes "europe";
  country = codes "Ireland";
  region_name = codes "Dublin";
  csp_region = codes "eu-west-1";
  csp_region_description = [];
  csp = codes "aws";
}

abbrev one_region : RegionCatalog
one_region = λ region provider. some ireland

abbrev rule : ℤ → Runes → List Runes → LbRoutingRule
rule priority path cidrs = record {
  priority = priority;
  host_headers = [];
  path_patterns = path ∷ [];
  admin_vpn_cidrs = cidrs;
  target_name = [];
}

abbrev api : LbRoutingRule
api = rule (pos 20) (codes "/api/*") []

abbrev admin : LbRoutingRule
admin = rule (pos 10) (codes "/admin/*") (codes "10.0.0.0/8" ∷ [])

abbrev listener : ℤ → Runes → List LbRoutingRule → LbListenerSpec
listener port protocol rules = record {
  port = port;
  protocol = protocol;
  conditions = [];
  rules = rules;
}

abbrev balancer : List LbListenerSpec → LoadBalancerSpec
balancer listeners = record {
  name = codes "web-lb";
  region = codes "Dublin";
  provider = codes "aws";
  listeners = listeners;
  health_check = record {
    protocol = [];
    port = pos 0;
    path = [];
    interval_seconds = pos 0;
    healthy_threshold = pos 0;
    unhealthy_threshold = pos 0;
  };
  stickiness = false;
  target_kind = [];
  target_name = codes "fleet";
  target_tag = [];
  stable_ip = false;
  network = [];
  subnets = [];
  security_group = [];
}

abbrev secure : LbListenerSpec
secure = listener (pos 443) (codes "SSL") (api ∷ admin ∷ [])

abbrev plain : LbListenerSpec
plain = listener (pos 80) [] []

abbrev web_lb : LoadBalancerSpec
web_lb = balancer (secure ∷ plain ∷ [])

abbrev plain_plan : LbListenerPlan
plain_plan = record { port = pos 80; protocol = codes "http"; conditions = []; rules = [] }

abbrev secure_plan : LbListenerPlan
secure_plan = record {
  port = pos 443;
  protocol = codes "https";
  conditions = [];
  rules = resolve_routing_rule admin ∷ resolve_routing_rule api ∷ [];
}

abbrev web_lb_plan : LoadBalancerPlan
web_lb_plan = load_balancer_plan web_lb ireland (plain_plan ∷ secure_plan ∷ []) plain_plan

translates_web_lb : translate_load_balancer one_region web_lb ≡ ok web_lb_plan
unfolding translate_load_balancer validate_load_balancer_spec normal provider_to_csp trim_space
    to_lower check_listeners check_listener validate_routing_rules check_rules resolve_listeners
    resolve_listener resolve_routing_rules resolve_routing_rule canonical_lb_proto sort insert
translates_web_lb = refl

refuses_duplicate :
    translate_load_balancer one_region (balancer (listener (pos 80) [] (api ∷ api ∷ []) ∷ []))
    ≡ err (bad_rule duplicate_priority)
unfolding translate_load_balancer validate_load_balancer_spec normal provider_to_csp trim_space
    to_lower check_listeners check_listener validate_routing_rules check_rules
refuses_duplicate = refl

translate_load_balancer-IsRouted_example : IsRouted web_lb web_lb_plan
translate_load_balancer-IsRouted_example =
    translate_load_balancer-IsRouted one_region web_lb web_lb_plan translates_web_lb

translate_load_balancer-accepts_example :
    (panics (translate_load_balancer one_region web_lb) ≡ false)
    × (is_ok (translate_load_balancer one_region web_lb) ≡ (
        is_valid_lb web_lb
        && is_some (one_region web_lb.region web_lb.provider)
        && is_bound web_lb))
translate_load_balancer-accepts_example = translate_load_balancer-accepts one_region web_lb
