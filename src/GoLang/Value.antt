-- ===== src/GoLang/Value.antt =====
-- A value of type interface{} as encoding/json decodes it, or as Go code passes it on: nil, bool,
-- float64, int, int64, string, []interface{} and map[string]interface{}. A map is a list of entries;
-- the code reads it by key, and what depends on the order of its keys is said where it arises.
use text.Mathlib.Text.{◌==◌ as str_eq}
use terraform_provider_pyxcl.Prelude.{
  ℕ, suc, String, Bool, true, false, ◌&&◌, Option, none, some, ◌==◌, if◌then◌else◌,
}
use terraform_provider_pyxcl.Prelude.Int.{ℤ, leb_ℤ}
use terraform_provider_pyxcl.GoLang.Float.{Float64}

mutual
  pub data Value (F : Float64) : Type 0 where
    null : Value F
    bool : Bool → Value F
    float : F.Num → Value F
    int : ℤ → Value F
    int64 : ℤ → Value F
    str : String → Value F
    list : Items F → Value F
    object : Fields F → Value F

  -- []interface{}
  pub data Items (F : Float64) : Type 0 where
    nil : Items F
    cons : Value F → Items F → Items F

  -- map[string]interface{}
  pub data Fields (F : Float64) : Type 0 where
    end : Fields F
    field : String → Value F → Fields F → Fields F

-- v, ok := m[k]
unfoldable pub lookup : {F : Float64} → String → Fields F → Option (Value F)
lookup k end = none
lookup k (field j v m) = if str_eq j k then some v else lookup k m

-- m[k], which is nil where the key is missing
unfoldable pub get : {F : Float64} → String → Fields F → Value F
unfolding lookup
get k m = elim (lookup k m) [ none ↦ null | some v ↦ v ]

-- len(m)
unfoldable pub size : {F : Float64} → Fields F → ℕ
size end = 0
size (field k v m) = suc (size m)

-- s, ok := v.(string), with the zero value where it is none
unfoldable pub string_or_empty : {F : Float64} → Value F → String
string_or_empty (str s) = s
string_or_empty _ = ""

-- l, _ := v.([]interface{})
unfoldable pub list_or_nil : {F : Float64} → Value F → Items F
list_or_nil (list xs) = xs
list_or_nil _ = nil

-- A test on the value at a key, which a missing key fails.
abbrev pub at : {F : Float64} → (Value F → Bool) → Option (Value F) → Bool
at p none = false
at p (some w) = p w

-- reflect.DeepEqual on such values
unfoldable mutual
  unfolding lookup size

  pub deep_equal : {F : Float64} → Value F → Value F → Bool
  deep_equal null null = true
  deep_equal (bool true) (bool true) = true
  deep_equal (bool false) (bool false) = true
  deep_equal {F} (float x) (float y) = F.eq x y
  deep_equal (int m) (int n) = leb_ℤ m n && leb_ℤ n m
  deep_equal (int64 m) (int64 n) = leb_ℤ m n && leb_ℤ n m
  deep_equal (str s) (str t) = str_eq s t
  deep_equal (list xs) (list ys) = deep_equal_items xs ys
  deep_equal (object m) (object n) = (size m == size n) && deep_equal_fields m n
  deep_equal _ _ = false

  pub deep_equal_items : {F : Float64} → Items F → Items F → Bool
  deep_equal_items nil nil = true
  deep_equal_items (cons x xs) (cons y ys) = deep_equal x y && deep_equal_items xs ys
  deep_equal_items _ _ = false

  -- every key of the first map stands in the second, with an equal value
  pub deep_equal_fields : {F : Float64} → Fields F → Fields F → Bool
  deep_equal_fields end n = true
  deep_equal_fields (field k v m) n = at (deep_equal v) (lookup k n) && deep_equal_fields m n
