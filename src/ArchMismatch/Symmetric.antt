-- ===== src/ArchMismatch/Symmetric.antt =====
-- The similarity of two modules (internal/archmismatch/detector.go).
use terraform_provider_pyxcl.Prelude.{◌≡◌, List, arith}
use terraform_provider_pyxcl.GoLang.Float.{Float64}
use terraform_provider_pyxcl.GoLang.Text.{Runes}
use terraform_provider_pyxcl.ArchMismatch.Sets.{to_set, to_set-is_distinct, shared_keys_sym}
use terraform_provider_pyxcl.ArchMismatch.{jaccard_similarity}

-- The similarity of two lists of resource types does not depend on which is first, whatever the
-- arithmetic of float64 does.
pub jaccard_similarity_sym :
    (F : Float64) (a b : List Runes) → jaccard_similarity F a b ≡ jaccard_similarity F b a
unfolding jaccard_similarity
jaccard_similarity_sym F a b =
    let shared =
      shared_keys_sym (to_set a) (to_set b) (to_set-is_distinct a) (to_set-is_distinct b) in
    rw shared (ground arith)
