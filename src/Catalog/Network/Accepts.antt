-- ===== src/Catalog/Network/Accepts.antt =====
-- Which networks are translated (internal/catalog/network.go).
use terraform_provider_pyxcl.Prelude.{
  ◌≡◌, refl, Bool, false, not, ◌&&◌, Option, none, some, List, [], ◌∷◌, all, leb, arith,
  Option-cases, inl, inr, is_some,
}
use terraform_provider_pyxcl.Prelude.Results.{is_ok}
use terraform_provider_pyxcl.GoLang.Text.{Runes, trim_space}
use terraform_provider_pyxcl.Catalog.Names.{provider_to_csp, RegionCatalog, is_empty}
use terraform_provider_pyxcl.Catalog.Network.{
  Net, NetworkSpec, check_subnet, check_subnets, validate_spec, translate_network,
}

abbrev pub is_named : NetworkSpec → Bool
is_named spec =
    not (is_empty (trim_space spec.region))
    && not (is_empty (trim_space spec.provider))
    && is_some (provider_to_csp spec.provider)
    && not (is_empty (trim_space spec.cidr))

module _ (net : Net) where
  -- A CIDR that lies in the VPC and is no wider.
  abbrev pub lies_in : net.IpNet → Option (net.Ip × net.IpNet) → Bool
  lies_in vpc none = false
  lies_in vpc (some (ip, sub)) = net.contains vpc ip && leb (net.ones vpc) (net.ones sub)

  abbrev pub all_lie_in : List Runes → Option (net.Ip × net.IpNet) → Bool
  all_lie_in subnets none = false
  all_lie_in subnets (some (ip, vpc)) = all (λ s. lies_in vpc (net.parse_cidr s)) subnets

  check_subnet-lies_in :
      (vpc : net.IpNet) (s : Runes)
      → is_ok (check_subnet net vpc s) ≡ lies_in vpc (net.parse_cidr s)
  unfolding check_subnet
  check_subnet-lies_in vpc s = ground arith

  check_subnets-all :
      (vpc : net.IpNet) (ss : List Runes)
      → is_ok (check_subnets net vpc ss) ≡ all (λ s. lies_in vpc (net.parse_cidr s)) ss
  unfolding check_subnets
  check_subnets-all vpc [] = refl
  check_subnets-all vpc (s ∷ ss) =
      ground (arith, check_subnet-lies_in vpc s, check_subnets-all vpc ss)

  validate_spec-all_lie_in :
      (spec : NetworkSpec)
      → is_ok (validate_spec net spec)
        ≡ (is_named spec && all_lie_in spec.subnets (net.parse_cidr spec.cidr))
  unfolding validate_spec
  validate_spec-all_lie_in spec = elim (Option-cases (net.parse_cidr spec.cidr)) [
    | inl e ↦ rw e (ground arith)
    | inr ((ip, vpc), e) ↦ rw e (ground (arith, check_subnets-all vpc spec.subnets))
  ]

-- A network is translated exactly when its region, provider and CIDR are not blank, the provider is
-- known, the CIDR and those of the subnets parse, each subnet's address lies in the VPC and its prefix
-- is no shorter than the VPC's, and the catalog has the region for the provider.
pub translate_network-accepts :
    (net : Net) (resolve : RegionCatalog) (spec : NetworkSpec)
    → is_ok (translate_network net resolve spec) ≡ (
        is_named spec
        && all_lie_in net spec.subnets (net.parse_cidr spec.cidr)
        && is_some (resolve spec.region spec.provider))
unfolding translate_network
translate_network-accepts net resolve spec = ground (arith, validate_spec-all_lie_in net spec)
