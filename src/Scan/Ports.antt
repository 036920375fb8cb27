-- ===== src/Scan/Ports.antt =====
-- checkOpenPorts and isOpenIngress of pkg/iacsecscan/scanner.go.
use text.Mathlib.Text.{◌==◌ as str_eq}
use terraform_provider_pyxcl.Prelude.{
  ℕ, String, Bool, false, ◌&&◌, ◌||◌, Option, none, some, List, [], ◌∷◌, ◌++◌, any, if◌then◌else◌,
}
use terraform_provider_pyxcl.Prelude.Int.{ℤ, pos, leb_ℤ}
use terraform_provider_pyxcl.GoLang.Float.{Float64}
use terraform_provider_pyxcl.GoLang.Value.{
  Value, str, list, object, Items, nil, cons, Fields, end, field, lookup, get,
}
use terraform_provider_pyxcl.Scan.Types.{Resource, Finding, make_finding, to_int}

abbrev pub sensitive_ports : List ℕ
sensitive_ports =
    22 ∷ 3389 ∷ 3306 ∷ 5432 ∷ 6379 ∷ 27017 ∷ 11211 ∷ 9200 ∷ 9300 ∷ 8080 ∷ 8443 ∷ 9090 ∷ 3000 ∷ 5000
    ∷ 8000 ∷ 8888 ∷ []

-- v == s, for a string s
unfoldable pub is_string : {F : Float64} → String → Value F → Bool
is_string s (str t) = str_eq t s
is_string s _ = false

-- hasOpen
unfoldable pub has_open : {F : Float64} → Items F → Bool
unfolding is_string
has_open nil = false
has_open (cons c cs) = is_string "0.0.0.0/0" c || has_open cs

abbrev is_zero : ℤ → Bool
is_zero n = leb_ℤ n (pos 0) && leb_ℤ (pos 0) n

-- from and to are 0, or the range has a sensitive port.
unfoldable pub ports_open : ℤ → ℤ → Bool
ports_open from to =
    is_zero from && is_zero to || any (λ p. leb_ℤ from (pos p) && leb_ℤ (pos p) to) sensitive_ports

-- The part of isOpenIngress that reads the ports; a missing `to_port` is the `from_port`.
unfoldable pub range_open : {F : Float64} → Option (Value F) → Option (Value F) → Bool
unfolding to_int ports_open
range_open none t = false
range_open (some f) none = ports_open (to_int f) (to_int f)
range_open (some f) (some t) = ports_open (to_int f) (to_int t)

-- The part of isOpenIngress that reads the CIDR blocks.
unfoldable pub blocks_open : {F : Float64} → Option (Value F) → Bool
unfolding has_open
blocks_open (some (list cs)) = has_open cs
blocks_open _ = false

-- isOpenIngress
unfoldable pub is_open_ingress : {F : Float64} → Fields F → Bool
is_open_ingress attrs =
    blocks_open (lookup "cidr_blocks" attrs)
    && range_open (lookup "from_port" attrs) (lookup "to_port" attrs)

-- if v, ok := src[k]; ok { dst[k] = v }
unfoldable pub copy_key : {F : Float64} → String → Fields F → Fields F → Fields F
unfolding lookup
copy_key k src dst = elim (lookup k src) [ none ↦ dst | some v ↦ field k v dst ]

-- The temporary attributes of an ingress block.
unfoldable pub ingress_attrs : {F : Float64} → Fields F → Fields F
ingress_attrs ing =
    copy_key "protocol" ing
      (copy_key "to_port" ing (copy_key "from_port" ing (copy_key "cidr_blocks" ing end)))

abbrev advice : String
advice = "Restrict the source CIDR to a specific IP range or use a security group reference."

-- The loop over the ingress blocks; an entry that is no map is passed over.
unfoldable pub check_ingress : {F : Float64} → Resource F → Items F → List (Finding F)
check_ingress r nil = []
check_ingress r (cons (object ing) xs) =
    (if is_open_ingress (ingress_attrs ing)
      then make_finding r "OPEN-PORT-SG"
          "Security group ingress rule allows inbound from 0.0.0.0/0 on a sensitive port" advice
        ∷ []
      else [])
    ++ check_ingress r xs
check_ingress r (cons _ xs) = check_ingress r xs

unfoldable pub check_ingress_list : {F : Float64} → Resource F → Value F → List (Finding F)
check_ingress_list r (list xs) = check_ingress r xs
check_ingress_list r _ = []

-- checkOpenPorts
unfoldable pub check_open_ports : {F : Float64} → Resource F → List (Finding F)
check_open_ports r =
    if str_eq r.resource_type "aws_security_group_rule"
    then if is_open_ingress r.attributes
      then make_finding r "OPEN-PORT-SGR"
          "Security group rule allows inbound from 0.0.0.0/0 on a sensitive port" advice
        ∷ []
      else []
    else if str_eq r.resource_type "aws_security_group"
    then check_ingress_list r (get "ingress" r.attributes)
    else []
