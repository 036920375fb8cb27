-- ===== src/Catalog/Mitigation/Recipes.antt =====
-- The table of the substitutes that run on a machine (internal/catalog/mitigation.go).
use terraform_provider_pyxcl.Prelude.{ℕ, Bool, true, false, String, [], ◌∷◌}
use terraform_provider_pyxcl.Prelude.Int.{ℤ, pos}
use terraform_provider_pyxcl.GoLang.Map.{Map}
use terraform_provider_pyxcl.GoLang.Text.{Runes, codes}

-- selfHostRecipe; every port of the table is positive.
pub record SelfHostRecipe : Type 0 where
  pub image : Runes
  pub port : ℕ
  pub cpu : ℤ
  pub ram : ℤ
  pub env_note : Runes
  pub degraded : Bool

abbrev recipe : String → String → ℕ → ℤ → ℤ → String → Bool → Runes × SelfHostRecipe
recipe component_type image port cpu ram env_note degraded = (
  codes component_type,
  record {
    image = codes image;
    port = port;
    cpu = cpu;
    ram = ram;
    env_note = codes env_note;
    degraded = degraded;
  },
)

-- selfHostRecipes
unfoldable pub self_host_recipes : Map SelfHostRecipe
self_host_recipes =
    recipe "cache" "redis:7" 6379 (pos 2) (pos 4) "Redis (cache)" false
    ∷ recipe "managed-database" "postgres:16" 5432 (pos 2) (pos 4) "PostgreSQL (managed-database)"
        false
    ∷ recipe "managed-queue" "rabbitmq:3" 5672 (pos 2) (pos 4) "RabbitMQ (managed-queue)" false
    ∷ recipe "message-queue" "rabbitmq:3" 5672 (pos 2) (pos 4) "RabbitMQ (message-queue)" false
    ∷ recipe "secrets-manager" "hashicorp/vault:latest" 8200 (pos 2) (pos 4)
        "Vault (secrets-manager)" false
    ∷ recipe "object-storage" "minio/minio:latest" 9000 (pos 2) (pos 4)
        "MinIO (S3-compatible object-storage)" false
    ∷ recipe "blob-storage" "minio/minio:latest" 9000 (pos 2) (pos 4)
        "MinIO (S3-compatible blob-storage)" false
    ∷ recipe "event-streaming" "docker.redpanda.com/redpandadata/redpanda:latest" 9092 (pos 2)
        (pos 4) "Redpanda (Kafka-compatible event-streaming)" false
    ∷ recipe "event-bus" "docker.redpanda.com/redpandadata/redpanda:latest" 9092 (pos 2) (pos 4)
        "Redpanda (event-bus)" false
    ∷ recipe "kms" "hashicorp/vault:latest" 8200 (pos 2) (pos 4)
        "Vault Transit (kms-compatible key service)" false
    ∷ recipe "encryption-key" "hashicorp/vault:latest" 8200 (pos 2) (pos 4)
        "Vault Transit (encryption-key substitute)" false
    ∷ recipe "monitoring" "prom/prometheus:latest" 9090 (pos 2) (pos 4) "Prometheus (monitoring)"
        false
    ∷ recipe "synthetics" "prom/blackbox-exporter:latest" 9115 (pos 1) (pos 2)
        "Blackbox Exporter (synthetics)" false
    ∷ recipe "uptime-check" "prom/blackbox-exporter:latest" 9115 (pos 1) (pos 2)
        "Blackbox Exporter (uptime-check)" false
    ∷ recipe "waf-service" "owasp/modsecurity-crs:nginx" 80 (pos 2) (pos 4)
        "OWASP CRS / NGINX (waf-service)" true
    ∷ recipe "waf" "owasp/modsecurity-crs:nginx" 80 (pos 2) (pos 4) "OWASP CRS / NGINX (waf)" true
    ∷ recipe "serverless-function" "quay.io/nuclio/dashboard:stable-amd64" 8070 (pos 2) (pos 4)
        "Nuclio container FaaS (serverless-function)" true
    ∷ recipe "managed-kubernetes" "rancher/k3s:v1.30.6-k3s1" 6443 (pos 2) (pos 8)
        "k3s (managed-kubernetes substitute)" true
    ∷ recipe "container-service" "rancher/k3s:v1.30.6-k3s1" 6443 (pos 2) (pos 8)
        "k3s (container-service substitute)" true
    ∷ recipe "load-balancer" "haproxy:2.9" 80 (pos 1) (pos 2) "HAProxy (load-balancer substitute)"
        true
    ∷ recipe "cdn-service" "varnish:7" 80 (pos 2) (pos 4) "Varnish HTTP cache (cdn-service)" true
    ∷ recipe "cdn" "varnish:7" 80 (pos 2) (pos 4) "Varnish HTTP cache (cdn)" true
    ∷ recipe "email-service" "bytemark/smtp:latest" 25 (pos 1) (pos 2)
        "SMTP relay (email-service substitute)" true
    ∷ recipe "email" "bytemark/smtp:latest" 25 (pos 1) (pos 2) "SMTP relay (email substitute)" true
    ∷ recipe "vm-volume" "itsthenetwork/nfs-server-alpine:latest" 2049 (pos 1) (pos 2)
        "NFS server (vm-volume substitute)" true
    ∷ recipe "block-storage" "itsthenetwork/nfs-server-alpine:latest" 2049 (pos 1) (pos 2)
        "NFS server (vm-volume substitute)" true
    ∷ []
