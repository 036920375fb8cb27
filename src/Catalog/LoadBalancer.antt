-- ===== src/Catalog/LoadBalancer.antt =====
-- internal/catalog/loadbalancer.go: a load balancer, its plan and the translation. The routing rules are
-- in `Routing`.
pub mod Routing
pub mod Routed
pub mod Accepts
mod Tests
use terraform_provider_pyxcl.Prelude.{
  ℕ, Bool, true, false, not, ◌&&◌, ◌||◌, Option, none, some, List, [], ◌∷◌, map, if◌then◌else◌,
  is_some, length, leb,
}
use terraform_provider_pyxcl.Prelude.Int.{ℤ, pos, leb_ℤ, eq_ℤ}
use terraform_provider_pyxcl.Prelude.Results.{Result, ok, err, ◌>>=◌, ◌>>◌, guard}
use terraform_provider_pyxcl.GoLang.Sort.{sort}
use terraform_provider_pyxcl.GoLang.Text.{Runes, codes, text_eq, trim_space}
use terraform_provider_pyxcl.Catalog.Names.{
  aws, gcp, digitalocean, azure, linode, oracle, ibm, alibaba, stackit, normal, provider_to_csp,
  RegionRow, RegionCatalog, is_empty, or_default,
}
use terraform_provider_pyxcl.Catalog.Network.Zones.{derive_zones}
use terraform_provider_pyxcl.Catalog.LoadBalancer.Routing.{
  LbRoutingRule, LbRoutingRulePlan, RuleFault, values_max, resolve_routing_rules,
  validate_routing_rules,
}

abbrev pub http : Runes
http = codes "http"

abbrev pub https : Runes
https = codes "https"

abbrev pub tcp : Runes
tcp = codes "tcp"

abbrev pub target_scale_group : Runes
target_scale_group = codes "scale-group"

abbrev pub target_vm : Runes
target_vm = codes "vm"

-- LBListenerSpec
pub record LbListenerSpec : Type 0 where
  pub port : ℤ
  pub protocol : Runes
  pub conditions : List Runes
  pub rules : List LbRoutingRule

-- LBHealthCheckSpec
pub record LbHealthCheckSpec : Type 0 where
  pub protocol : Runes
  pub port : ℤ
  pub path : Runes
  pub interval_seconds : ℤ
  pub healthy_threshold : ℤ
  pub unhealthy_threshold : ℤ

-- LoadBalancerSpec
pub record LoadBalancerSpec : Type 0 where
  pub name : Runes
  pub region : Runes
  pub provider : Runes
  pub listeners : List LbListenerSpec
  pub health_check : LbHealthCheckSpec
  pub stickiness : Bool
  pub target_kind : Runes
  pub target_name : Runes
  pub target_tag : Runes
  pub stable_ip : Bool
  pub network : Runes
  pub subnets : List Runes
  pub security_group : Runes

-- LBListenerPlan
pub record LbListenerPlan : Type 0 where
  pub port : ℤ
  pub protocol : Runes
  pub conditions : List Runes
  pub rules : List LbRoutingRulePlan

-- LBHealthCheckPlan
pub record LbHealthCheckPlan : Type 0 where
  pub protocol : Runes
  pub port : ℤ
  pub path : Runes
  pub interval_seconds : ℤ
  pub healthy_threshold : ℤ
  pub unhealthy_threshold : ℤ

-- LoadBalancerPlan
pub record LoadBalancerPlan : Type 0 where
  pub provider : Runes
  pub csp : Runes
  pub region_name : Runes
  pub csp_region : Runes
  pub lb_name : Runes
  pub listeners : List LbListenerPlan
  pub health_check : LbHealthCheckPlan
  pub stickiness : Bool
  pub target_kind : Runes
  pub target_name : Runes
  pub target_tag : Runes
  pub stable_ip : Bool
  pub zones : List Runes
  pub network_name : Runes
  pub subnet_names : List Runes
  pub security_group : Runes
  pub resource_type : Runes

-- What TranslateLoadBalancer complains of. `index_panic` is an index out of range, which panics.
pub data LbFault : Type 0 where
  no_region : LbFault
  no_provider : LbFault
  unknown_provider : LbFault
  no_listener : LbFault
  bad_port : LbFault
  bad_protocol : LbFault
  too_many_conditions : LbFault
  bad_rule : RuleFault → LbFault
  bad_target_kind : LbFault
  bad_health_port : LbFault
  bad_health_protocol : LbFault
  region_not_found : LbFault
  index_panic : LbFault
  stable_ip_elsewhere : LbFault
  stable_ip_target : LbFault

abbrev is_https : Runes → Bool
is_https p = text_eq p https || text_eq p (codes "ssl")

abbrev is_tcp : Runes → Bool
is_tcp p = text_eq p tcp || text_eq p (codes "l4")

-- A protocol that is known or left out.
abbrev pub is_lb_proto : Runes → Bool
is_lb_proto p = is_empty p || text_eq p http || is_https p || is_tcp p

-- canonicalLBProto
unfoldable pub canonical_lb_proto : Runes → Runes
canonical_lb_proto p =
    if is_https (normal p) then https else if is_tcp (normal p) then tcp else http

abbrev is_vm : Runes → Bool
is_vm k = text_eq k target_vm || text_eq k (codes "virtual-machine") || text_eq k (codes "instance")

-- A kind of target that is known or left out.
abbrev pub is_target_kind : Runes → Bool
is_target_kind k =
    is_empty k
    || text_eq k target_scale_group
    || text_eq k (codes "asg")
    || text_eq k (codes "scalegroup")
    || is_vm k

-- canonicalTargetKind
unfoldable pub canonical_target_kind : Runes → Runes
canonical_target_kind k = if is_vm (normal k) then target_vm else target_scale_group

abbrev pub is_port : ℤ → Bool
is_port p = leb_ℤ (pos 1) p && leb_ℤ p (pos 65535)

abbrev pub is_aws : Runes → Bool
is_aws provider = text_eq (normal provider) aws

abbrev pub checked_rules : Result RuleFault (Unit {0}) → Result LbFault (Unit {0})
checked_rules (ok u) = ok u
checked_rules (err fault) = err (bad_rule fault)

-- The loop's body over the listeners.
unfoldable pub check_listener : Runes → LbListenerSpec → Result LbFault (Unit {0})
check_listener provider l = do
  guard (is_port l.port) bad_port
  guard (is_lb_proto (normal l.protocol)) bad_protocol
  guard (not (is_aws provider) || leb (length l.conditions) values_max) too_many_conditions
  checked_rules (validate_routing_rules (is_aws provider) l.rules)

unfoldable pub check_listeners : Runes → List LbListenerSpec → Result LbFault (Unit {0})
check_listeners provider [] = ok tt
check_listeners provider (l ∷ ls) =
    let rest = check_listeners provider ls in check_listener provider l >> rest

-- validateLoadBalancerSpec
unfoldable pub validate_load_balancer_spec : LoadBalancerSpec → Result LbFault (Unit {0})
validate_load_balancer_spec spec = do
  guard (not (is_empty (trim_space spec.region))) no_region
  guard (not (is_empty (trim_space spec.provider))) no_provider
  guard (is_some (provider_to_csp spec.provider)) unknown_provider
  guard (not (is_empty spec.listeners)) no_listener
  check_listeners spec.provider spec.listeners
  guard (is_target_kind (normal spec.target_kind)) bad_target_kind
  guard (eq_ℤ spec.health_check.port (pos 0) || is_port spec.health_check.port) bad_health_port
  guard (is_lb_proto (normal spec.health_check.protocol)) bad_health_protocol

-- A number that is not positive is left out.
abbrev or_number : ℤ → ℤ → ℤ
or_number default n = if leb_ℤ n (pos 0) then default else n

abbrev checked_protocol : LbHealthCheckSpec → LbListenerPlan → Runes
checked_protocol hc first =
    if is_empty (trim_space hc.protocol) then first.protocol else canonical_lb_proto hc.protocol

abbrev checked_path : Runes → Runes → Runes
checked_path protocol path =
    if is_empty path && (text_eq protocol http || text_eq protocol https) then codes "/" else path

-- defaultHealthCheck
unfoldable pub default_health_check : LbHealthCheckSpec → LbListenerPlan → LbHealthCheckPlan
default_health_check hc first = record {
  protocol = checked_protocol hc first;
  port = or_number first.port hc.port;
  path = checked_path (checked_protocol hc first) (trim_space hc.path);
  interval_seconds = or_number (pos 30) hc.interval_seconds;
  healthy_threshold = or_number (pos 3) hc.healthy_threshold;
  unhealthy_threshold = or_number (pos 3) hc.unhealthy_threshold;
}

-- The body of the loop that builds the listeners.
unfoldable pub resolve_listener : LbListenerSpec → LbListenerPlan
resolve_listener l = record {
  port = l.port;
  protocol = canonical_lb_proto l.protocol;
  conditions = l.conditions;
  rules = resolve_routing_rules l.rules;
}

abbrev pub by_port : LbListenerPlan → LbListenerPlan → Bool
by_port a b = leb_ℤ a.port b.port

-- The listeners in the order of their ports.
unfoldable pub resolve_listeners : List LbListenerSpec → List LbListenerPlan
resolve_listeners ls = sort by_port (map resolve_listener ls)

-- listeners[0]
abbrev pub first_listener : List LbListenerPlan → Result LbFault LbListenerPlan
first_listener [] = err index_panic
first_listener (l ∷ ls) = ok l

abbrev pub binds_droplet : LoadBalancerSpec → Bool
binds_droplet spec =
    text_eq (canonical_target_kind spec.target_kind) target_vm
    && not (is_empty (trim_space spec.target_name))

-- The switch over the provider; others have no resource type.
unfoldable pub lb_resource_type : Runes → Bool → Runes
lb_resource_type p stable_ip =
    if text_eq p aws
    then codes "aws_lb"
    else if text_eq p gcp
    then codes "google_compute_forwarding_rule"
    else if text_eq p digitalocean
    then (if stable_ip then codes "digitalocean_reserved_ip" else codes "digitalocean_loadbalancer")
    else if text_eq p azure
    then codes "azurerm_lb"
    else if text_eq p linode
    then codes "linode_nodebalancer"
    else if text_eq p oracle
    then codes "oci_load_balancer_load_balancer"
    else if text_eq p ibm
    then codes "ibm_is_lb"
    else if text_eq p alibaba
    then codes "alicloud_alb_load_balancer"
    else if text_eq p stackit
    then codes "stackit_loadbalancer"
    else []

abbrev zone_count : List Runes → ℕ
zone_count subnets = if is_empty subnets then 1 else length subnets

unfoldable pub load_balancer_plan :
    LoadBalancerSpec → RegionRow → List LbListenerPlan → LbListenerPlan → LoadBalancerPlan
load_balancer_plan spec row listeners first = record {
  provider = normal spec.provider;
  csp = row.csp;
  region_name = row.region_name;
  csp_region = row.csp_region;
  lb_name = or_default (codes "pyxcloud-lb") spec.name;
  listeners = listeners;
  health_check = default_health_check spec.health_check first;
  stickiness = spec.stickiness;
  target_kind = canonical_target_kind spec.target_kind;
  target_name = trim_space spec.target_name;
  target_tag = trim_space spec.target_tag;
  stable_ip = spec.stable_ip;
  zones = derive_zones (normal spec.provider) row.csp_region (zone_count spec.subnets);
  network_name = spec.network;
  subnet_names = spec.subnets;
  security_group = spec.security_group;
  resource_type = lb_resource_type (normal spec.provider) spec.stable_ip;
}

abbrev pub lb_region : Option RegionRow → Result LbFault RegionRow
lb_region none = err region_not_found
lb_region (some row) = ok row

-- TranslateLoadBalancer
unfoldable pub translate_load_balancer :
    RegionCatalog → LoadBalancerSpec → Result LbFault LoadBalancerPlan
translate_load_balancer resolve spec = do
  validate_load_balancer_spec spec
  row ← lb_region (resolve spec.region spec.provider)
  first ← first_listener (resolve_listeners spec.listeners)
  guard (not spec.stable_ip || text_eq (normal spec.provider) digitalocean) stable_ip_elsewhere
  guard (not spec.stable_ip || binds_droplet spec) stable_ip_target
  ok (load_balancer_plan spec row (resolve_listeners spec.listeners) first)
