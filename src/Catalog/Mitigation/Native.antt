-- ===== src/Catalog/Mitigation/Native.antt =====
-- The table of the providers with a managed service (internal/catalog/mitigation.go).
use terraform_provider_pyxcl.Prelude.{List, [], ◌∷◌}
use terraform_provider_pyxcl.GoLang.Map.{Map}
use terraform_provider_pyxcl.GoLang.Text.{Runes, codes}
use terraform_provider_pyxcl.Catalog.Names.{
  aws, gcp, digitalocean, azure, linode, ubicloud, oracle, ibm, alibaba, ovh, stackit, cloudflare,
}

-- nativeSupport; a map to Booleans, which has `true` alone, is the list of its keys.
unfoldable pub native_support : Map (List Runes)
native_support =
    (
      codes "managed-database",
      aws
          ∷ gcp
          ∷ digitalocean
          ∷ azure
          ∷ linode
          ∷ ubicloud
          ∷ oracle
          ∷ ibm
          ∷ alibaba
          ∷ ovh
          ∷ stackit
          ∷ (codes "tencent")
          ∷ (codes "vultr")
          ∷ (codes "scaleway")
          ∷ (codes "huawei")
          ∷ [],
    )
    ∷ (codes "cache", aws ∷ gcp ∷ digitalocean ∷ azure ∷ oracle ∷ ibm ∷ alibaba ∷ [])
    ∷ (
      codes "object-storage",
      aws ∷ gcp ∷ digitalocean ∷ azure ∷ linode ∷ oracle ∷ ibm ∷ alibaba ∷ ovh ∷ stackit ∷ [],
    )
    ∷ (
      codes "blob-storage",
      aws ∷ gcp ∷ digitalocean ∷ azure ∷ linode ∷ oracle ∷ ibm ∷ alibaba ∷ ovh ∷ stackit ∷ [],
    )
    ∷ (
      codes "secrets-manager",
      aws ∷ gcp ∷ azure ∷ oracle ∷ ibm ∷ alibaba ∷ stackit ∷ digitalocean ∷ [],
    )
    ∷ (codes "managed-queue", aws ∷ gcp ∷ azure ∷ oracle ∷ alibaba ∷ digitalocean ∷ [])
    ∷ (codes "message-queue", aws ∷ gcp ∷ azure ∷ oracle ∷ alibaba ∷ digitalocean ∷ [])
    ∷ (codes "event-streaming", aws ∷ gcp ∷ azure ∷ oracle ∷ ibm ∷ alibaba ∷ digitalocean ∷ [])
    ∷ (codes "event-bus", aws ∷ gcp ∷ azure ∷ oracle ∷ ibm ∷ alibaba ∷ digitalocean ∷ [])
    ∷ (codes "kms", aws ∷ gcp ∷ digitalocean ∷ [])
    ∷ (codes "encryption-key", aws ∷ gcp ∷ digitalocean ∷ [])
    ∷ (codes "monitoring", aws ∷ gcp ∷ digitalocean ∷ [])
    ∷ (codes "synthetics", aws ∷ gcp ∷ digitalocean ∷ [])
    ∷ (codes "uptime-check", aws ∷ gcp ∷ digitalocean ∷ [])
    ∷ (codes "waf-service", aws ∷ gcp ∷ azure ∷ oracle ∷ ibm ∷ alibaba ∷ digitalocean ∷ linode ∷ [])
    ∷ (codes "waf", aws ∷ gcp ∷ azure ∷ oracle ∷ ibm ∷ alibaba ∷ digitalocean ∷ linode ∷ [])
    ∷ (codes "serverless-function", aws ∷ gcp ∷ digitalocean ∷ azure ∷ oracle ∷ ibm ∷ alibaba ∷ [])
    ∷ (
      codes "managed-kubernetes",
      aws ∷ gcp ∷ digitalocean ∷ azure ∷ linode ∷ oracle ∷ ibm ∷ alibaba ∷ ovh ∷ stackit ∷ [],
    )
    ∷ (
      codes "container-service",
      aws ∷ gcp ∷ digitalocean ∷ azure ∷ linode ∷ oracle ∷ ibm ∷ alibaba ∷ ovh ∷ stackit ∷ [],
    )
    ∷ (
      codes "load-balancer",
      aws ∷ gcp ∷ digitalocean ∷ azure ∷ linode ∷ oracle ∷ ibm ∷ alibaba ∷ stackit ∷ [],
    )
    ∷ (codes "cdn-service", aws ∷ gcp ∷ digitalocean ∷ azure ∷ alibaba ∷ cloudflare ∷ [])
    ∷ (codes "cdn", aws ∷ gcp ∷ digitalocean ∷ azure ∷ alibaba ∷ cloudflare ∷ [])
    ∷ (codes "email-service", aws ∷ digitalocean ∷ [])
    ∷ (codes "email", aws ∷ digitalocean ∷ [])
    ∷ (codes "vm-volume", aws ∷ gcp ∷ digitalocean ∷ [])
    ∷ (codes "block-storage", aws ∷ gcp ∷ digitalocean ∷ [])
    ∷ []
