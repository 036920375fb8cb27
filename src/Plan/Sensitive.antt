-- ===== src/Plan/Sensitive.antt =====
-- isSecuritySensitive, which tfplanparser, driftdeploygate and driftsignalrule each declare alike.
use terraform_provider_pyxcl.Prelude.{String, Bool, ◌||◌, List, [], ◌∷◌, any}
use terraform_provider_pyxcl.GoLang.Text.{codes, to_lower, text_eq, contains}

abbrev pub sensitive_words : List String
sensitive_words =
    "sg" ∷ "security_group" ∷ "iam" ∷ "role" ∷ "policy" ∷ "vpc" ∷ "subnet" ∷ "nacl" ∷ "firewall"
    ∷ "network" ∷ []

unfoldable pub is_security_sensitive : String → Bool
unfolding to_lower contains
is_security_sensitive resource_type =
    let norm = to_lower (codes resource_type) in
    any (λ k. text_eq norm (codes k) || contains norm (codes k)) sensitive_words
