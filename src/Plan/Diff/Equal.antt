-- ===== src/Plan/Diff/Equal.antt =====
-- recursiveDiff finds nothing exactly where reflect.DeepEqual holds.
use text.Mathlib.Text.{◌==◌ as str_eq}
use terraform_provider_pyxcl.Prelude.{
  String, ◌≡◌, refl, ◌∙◌, sym, Bool, true, false, ◌&&◌, Option, none, some, List, [], ◌∷◌, ◌++◌,
  arith, ◌==◌, if◌then◌else◌, Bool-cases, Option-cases, inl, inr,
}
use mathlib.Core.Bool.{and-true, and-false, and-eq-true_iff}
use terraform_provider_pyxcl.GoLang.Float.{Float64}
use terraform_provider_pyxcl.GoLang.Value.{
  Value, at, object, Fields, end, field, lookup, size, deep_equal, deep_equal_fields,
}
use terraform_provider_pyxcl.Plan.Diff.{
  key_path, is_object, entry_paths, added_paths, recursive_diff, diff_entries,
}
use terraform_provider_pyxcl.Plan.Diff.Keys.{has_key, subset, distinct, subset-size}

abbrev pub is_empty {ℓ} : {A : Type ℓ} → List A → Bool
is_empty [] = true
is_empty (x ∷ xs) = false

is_empty-append {ℓ} :
    {A : Type ℓ} (xs ys : List A) → is_empty (xs ++ ys) ≡ (is_empty xs && is_empty ys)
is_empty-append [] ys = refl
is_empty-append (x ∷ xs) ys = refl

-- Every map that stands in the value, outside of lists, has distinct keys, as a Go map has.
unfoldable mutual
  unfolding distinct has_key

  pub unique_keys : {F : Float64} → Value F → Bool
  unique_keys (object m) = distinct m && unique_values m
  unique_keys _ = true

  pub unique_values : {F : Float64} → Fields F → Bool
  unique_values end = true
  unique_values (field k v m) = unique_keys v && unique_values m

-- A leaf's path is reported exactly if the values differ.
leaf : (same : Bool) (path : String) → is_empty (if same then [] else path ∷ []) ≡ same
leaf true path = refl
leaf false path = refl

-- The clauses at a map, as equations under which the functions stay shut.
module _ {F : Float64} (k : String) (v : Value F) (m n : Fields F) (prefix : String) where
  unique_values-field : unique_values (field k v m) ≡ (unique_keys v && unique_values m)
  unfolding unique_values
  unique_values-field = refl

  deep_equal_fields-field :
      deep_equal_fields (field k v m) n ≡ (at (deep_equal v) (lookup k n) && deep_equal_fields m n)
  unfolding deep_equal
  deep_equal_fields-field = refl

  diff_entries-field :
      diff_entries (field k v m) n prefix
      ≡ entry_paths (recursive_diff v) v (lookup k n) (key_path prefix k) ++ diff_entries m n prefix
  unfolding recursive_diff
  diff_entries-field = refl

module _ {F : Float64} where
  entries-end :
      (n : Fields F) (prefix : String)
      → is_empty (diff_entries end n prefix) ≡ deep_equal_fields end n
  unfolding recursive_diff deep_equal
  entries-end n prefix = refl

  unique_keys-object : (m : Fields F) → unique_keys (object m) ≡ (distinct m && unique_values m)
  unfolding unique_keys
  unique_keys-object m = refl

  deep_equal-object :
      (m n : Fields F)
      → deep_equal (object m) (object n) ≡ ((size m == size n) && deep_equal_fields m n)
  unfolding deep_equal
  deep_equal-object m n = refl

  recursive_diff-object :
      (m n : Fields F) (prefix : String)
      → recursive_diff (object m) (object n) prefix
        ≡ diff_entries m n prefix ++ added_paths n m prefix
  unfolding recursive_diff
  recursive_diff-object m n prefix = refl

  recursive_diff-leaf :
      (v w : Value F) (prefix : String)
      → (is_object v && is_object w) ≡ false
      → is_empty (recursive_diff v w prefix) ≡ deep_equal v w
  unfolding recursive_diff is_object
  recursive_diff-leaf (object m) (object n) prefix h = cc
  recursive_diff-leaf v w prefix h =
      leaf (deep_equal v w) (if str_eq prefix "" then "value" else prefix)

  lookup_unique :
      (k : String) (m : Fields F) (w : Value F)
      → unique_values m ≡ true
      → lookup k m ≡ some w
      → unique_keys w ≡ true
  unfolding lookup
  lookup_unique k end w u e = cc
  lookup_unique k (field j v m) w u e =
      ground (arith, unique_values-field j v m m "", lookup_unique k m w)

  has_key-lookup : (k : String) (m : Fields F) → lookup k m ≡ none → has_key k m ≡ false
  unfolding lookup has_key
  has_key-lookup k end e = refl
  has_key-lookup k (field j v m) e = ground (arith, has_key-lookup k m)

  has_key-lookup-some :
      (k : String) (m : Fields F) (w : Value F) → lookup k m ≡ some w → has_key k m ≡ true
  unfolding lookup has_key
  has_key-lookup-some k end w e = cc
  has_key-lookup-some k (field j v m) w e = ground (arith, has_key-lookup-some k m w)

  added_paths-empty :
      (n m : Fields F) (prefix : String) → is_empty (added_paths n m prefix) ≡ subset n m
  unfolding added_paths subset
  added_paths-empty end m prefix = refl
  added_paths-empty (field k w n) m prefix = elim (Option-cases (lookup k m)) [
    | inl e ↦ rw (e, added_paths, has_key-lookup k m e)
    | inr (v, e) ↦ rw (e, added_paths, has_key-lookup-some k m v e) (added_paths-empty n m prefix)
  ]

  -- What a key of the first map contributes, by the value at that key in the second.
  entry_paths-empty :
      (recur : Value F → String → List String) (v : Value F) (o : Option (Value F)) (path : String)
      → ((w : Value F) → o ≡ some w → is_empty (recur w path) ≡ deep_equal v w)
      → is_empty (entry_paths recur v o path) ≡ at (deep_equal v) o
  unfolding entry_paths is_object
  entry_paths-empty recur v none path h = refl
  entry_paths-empty recur v (some w) path h = elim (Bool-cases (is_object v && is_object w)) [
    | inl maps ↦ rw maps (h w refl)
    | inr other ↦ rw other (leaf (deep_equal v w) path)
  ]

  deep_equal_fields-subset : (m n : Fields F) → deep_equal_fields m n ≡ true → subset m n ≡ true
  unfolding subset
  deep_equal_fields-subset end n h = refl
  deep_equal_fields-subset (field k v m) n h = elim (Option-cases (lookup k n)) [
    | inl e ↦ let h' = rw (deep_equal_fields-field k v m n "", e) at h in cc h'
    | inr (w, e) ↦ ground (
      arith,
      deep_equal_fields-field k v m n "",
      deep_equal_fields-subset m n,
      has_key-lookup-some k n w e,
    )
  ]

  -- With distinct keys the two counts of keys and the two inclusions say the same.
  same_keys :
      (m n : Fields F)
      → distinct m ≡ true
      → distinct n ≡ true
      → (deep_equal_fields m n && subset n m) ≡ ((size m == size n) && deep_equal_fields m n)
  same_keys m n d e = elim (Bool-cases (deep_equal_fields m n)) [
    | inl equal ↦
        rw (equal, subset-size m n d e (deep_equal_fields-subset m n equal)) (sym (and-true _))
    | inr differ ↦ rw differ (sym (and-false _))
  ]

mutual
  unfolding is_object

  diff-empty :
      {F : Float64} (v w : Value F) (prefix : String)
      → unique_keys v ≡ true
      → unique_keys w ≡ true
      → is_empty (recursive_diff v w prefix) ≡ deep_equal v w
  diff-empty (object m) (object n) prefix u t =
      let (d, us) = (and-eq-true_iff _ _).0 (sym (unique_keys-object m) ∙ u) in
      let (e, ts) = (and-eq-true_iff _ _).0 (sym (unique_keys-object n) ∙ t) in
      rw
        (
          recursive_diff-object m n prefix,
          is_empty-append (diff_entries m n prefix) (added_paths n m prefix),
          entries-empty m n prefix us ts,
          added_paths-empty n m prefix,
          deep_equal-object m n,
        )
        (same_keys m n d e)
  diff-empty v w prefix u t = recursive_diff-leaf v w prefix refl

  entries-empty :
      {F : Float64} (m n : Fields F) (prefix : String)
      → unique_values m ≡ true
      → unique_values n ≡ true
      → is_empty (diff_entries m n prefix) ≡ deep_equal_fields m n
  entries-empty end n prefix u t = entries-end n prefix
  entries-empty (field k v m) n prefix u t =
      let (uv, us) = (and-eq-true_iff _ _).0 (sym (unique_values-field k v m n prefix) ∙ u) in
      rw (
        diff_entries-field k v m n prefix,
        is_empty-append (entry_paths (recursive_diff v) v (lookup k n) (key_path prefix k))
            (diff_entries m n prefix),
        entry_paths-empty (recursive_diff v) v (lookup k n) (key_path prefix k)
            (λ w e. diff-empty v w (key_path prefix k) uv (lookup_unique k n w t e)),
        entries-empty m n prefix us t,
        deep_equal_fields-field k v m n prefix,
      )

-- Where maps have distinct keys, as Go's maps do, the diff of two values reports no path exactly if
-- reflect.DeepEqual holds of them, at any prefix.
pub recursive_diff-deep_equal :
    {F : Float64} (before after : Value F) (prefix : String)
    → unique_keys before ≡ true
    → unique_keys after ≡ true
    → is_empty (recursive_diff before after prefix) ≡ deep_equal before after
recursive_diff-deep_equal before after prefix u t = diff-empty before after prefix u t
