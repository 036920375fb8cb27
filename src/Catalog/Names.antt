-- ===== src/Catalog/Names.antt =====
-- The provider names and their catalog tokens, and the region boundary (internal/catalog/catalog.go).
use terraform_provider_pyxcl.Prelude.{Bool, true, false, Option, List, [], ◌∷◌, if◌then◌else◌}
use terraform_provider_pyxcl.GoLang.Map.{lookup_runes}
use terraform_provider_pyxcl.GoLang.Text.{Runes, codes, to_lower, trim_space}

abbrev pub aws : Runes
aws = codes "aws"

abbrev pub gcp : Runes
gcp = codes "gcp"

abbrev pub digitalocean : Runes
digitalocean = codes "digitalocean"

abbrev pub azure : Runes
azure = codes "azure"

abbrev pub linode : Runes
linode = codes "linode"

abbrev pub ubicloud : Runes
ubicloud = codes "ubicloud"

abbrev pub oracle : Runes
oracle = codes "oracle"

abbrev pub ibm : Runes
ibm = codes "ibm"

abbrev pub alibaba : Runes
alibaba = codes "alicloud"

abbrev pub ovh : Runes
ovh = codes "ovh"

abbrev pub stackit : Runes
stackit = codes "stackit"

abbrev pub cloudflare : Runes
cloudflare = codes "cloudflare"

-- providerToCSP
unfoldable pub csp_tokens : List (Runes × Runes)
csp_tokens =
    (aws, codes "aws")
    ∷ (gcp, codes "gcp")
    ∷ (digitalocean, codes "do")
    ∷ (azure, codes "azure")
    ∷ (linode, codes "linode")
    ∷ (ubicloud, codes "ubicloud")
    ∷ (oracle, codes "oci")
    ∷ (ibm, codes "ibm")
    ∷ (alibaba, codes "alicloud")
    ∷ (ovh, codes "ovh")
    ∷ (stackit, codes "stackit")
    ∷ (codes "tencent", codes "tencent")
    ∷ (codes "hetzner", codes "hetzner")
    ∷ (codes "vultr", codes "vultr")
    ∷ (codes "scaleway", codes "scaleway")
    ∷ (codes "rackspace", codes "rackspace")
    ∷ (cloudflare, codes "cloudflare")
    ∷ (codes "huawei", codes "huawei")
    ∷ (codes "akamai", codes "akamai")
    ∷ (codes "fastly", codes "fastly")
    ∷ (codes "vsphere", codes "vsphere")
    ∷ []

-- strings.ToLower(strings.TrimSpace(s))
unfoldable pub normal : Runes → Runes
unfolding to_lower trim_space
normal s = to_lower (trim_space s)

-- ProviderToCSP
unfoldable pub provider_to_csp : Runes → Option Runes
unfolding lookup_runes csp_tokens normal
provider_to_csp provider = lookup_runes (normal provider) csp_tokens

-- RegionRow
pub record RegionRow : Type 0 where
  pub macro_region : Runes
  pub country : Runes
  pub region_name : Runes
  pub csp_region : Runes
  pub csp_region_description : Runes
  pub csp : Runes

-- RegionCatalog: the region name and the provider; `none` is an error.
abbrev pub RegionCatalog : Type 0
RegionCatalog = Runes → Runes → Option RegionRow

abbrev pub is_empty {ℓ} : {A : Type ℓ} → List A → Bool
is_empty [] = true
is_empty (x ∷ xs) = false

-- A name, or a default for the empty one.
abbrev pub or_default : Runes → Runes → Runes
or_default default name = if is_empty name then default else name
