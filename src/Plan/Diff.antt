-- ===== src/Plan/Diff.antt =====
-- recursiveDiff: the dotted paths of the attributes that differ between two values.
-- The code ranges over a map in an unspecified order; here the keys of the first map come first, then
-- those that only the second has. The paths are the same whatever the order.
pub mod Keys
pub mod Equal
use Prim.Native.String
use text.Mathlib.Text.{◌==◌ as str_eq}
use terraform_provider_pyxcl.Prelude.{
  String, Bool, true, false, ◌&&◌, Option, none, some, List, [], ◌∷◌, ◌++◌, if◌then◌else◌,
}
use terraform_provider_pyxcl.GoLang.Float.{Float64}
use terraform_provider_pyxcl.GoLang.Value.{Value, object, Fields, end, field, lookup, deep_equal}

-- keyPath
unfoldable pub key_path : String → String → String
key_path prefix k = if str_eq prefix "" then k else String.◌++◌ (String.◌++◌ prefix ".") k

unfoldable pub is_object : {F : Float64} → Value F → Bool
is_object (object m) = true
is_object _ = false

-- What one key adds to the result: `recur` is the recursive call at its first value.
unfoldable pub entry_paths :
    {F : Float64}
    → (Value F → String → List String)
    → Value F
    → Option (Value F)
    → String
    → List String
unfolding is_object deep_equal
entry_paths recur v none path = path ∷ []
entry_paths recur v (some w) path =
    if is_object v && is_object w then recur w path else if deep_equal v w then [] else path ∷ []

-- The keys of the first map that the second lacks.
unfoldable pub added_paths : {F : Float64} → Fields F → Fields F → String → List String
unfolding lookup key_path
added_paths end m prefix = []
added_paths (field k w n) m prefix = elim (lookup k m) [
  | none ↦ key_path prefix k ∷ added_paths n m prefix
  | some v ↦ added_paths n m prefix
]

unfoldable mutual
  unfolding lookup key_path entry_paths added_paths deep_equal

  pub recursive_diff : {F : Float64} → Value F → Value F → String → List String
  recursive_diff (object m) (object n) prefix = diff_entries m n prefix ++ added_paths n m prefix
  recursive_diff v w prefix =
      if deep_equal v w then [] else (if str_eq prefix "" then "value" else prefix) ∷ []

  pub diff_entries : {F : Float64} → Fields F → Fields F → String → List String
  diff_entries end n prefix = []
  diff_entries (field k v m) n prefix =
      entry_paths (recursive_diff v) v (lookup k n) (key_path prefix k) ++ diff_entries m n prefix

-- diffAttributes
unfoldable pub diff_attributes : {F : Float64} → Value F → Value F → List String
unfolding recursive_diff
diff_attributes before after = recursive_diff before after ""
