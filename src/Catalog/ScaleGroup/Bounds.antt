-- ===== src/Catalog/ScaleGroup/Bounds.antt =====
-- The bounds of a scale group (internal/catalog/scalegroup.go).
use terraform_provider_pyxcl.Prelude.{◌≡◌, Bool, true, false, not, ◌&&◌, if◌then◌else◌, arith}
use terraform_provider_pyxcl.Prelude.Int.{ℤ, pos, leb_ℤ, ltb_ℤ}
use terraform_provider_pyxcl.GoLang.Text.{Runes, text_eq}
use terraform_provider_pyxcl.Catalog.Names.{digitalocean}

pub record GroupBounds : Type 0 where
  pub min : ℤ
  pub max : ℤ
  pub desired : ℤ

abbrev max_of : ℤ → ℤ → ℤ
max_of min max = if leb_ℤ max (pos 0) then (if leb_ℤ (pos 1) min then min else pos 1) else max

-- The three tests of the desired number, in their order.
abbrev desired_of : ℤ → ℤ → ℤ → ℤ
desired_of min max desired =
    let filled = if leb_ℤ desired (pos 0) then min else desired in
    let raised = if ltb_ℤ filled min then min else filled in
    if ltb_ℤ max raised then max else raised

-- normalizeBounds
unfoldable pub normalize_bounds : ℤ → ℤ → ℤ → GroupBounds
normalize_bounds min max desired = record {
  min = min;
  max = max_of min max;
  desired = desired_of min (max_of min max) desired;
}

abbrev at_least : ℤ → ℤ → ℤ
at_least low x = if ltb_ℤ x low then low else x

-- The bounds that TranslateScaleGroup passes on: DigitalOcean needs a machine at least.
unfoldable pub bounds_for : Runes → GroupBounds → GroupBounds
bounds_for provider b =
    let low = at_least (pos 1) b.min in
    if text_eq provider digitalocean
    then record { min = low; max = at_least low b.max; desired = at_least low b.desired }
    else b

-- The tests of a spec's bounds.
abbrev pub are_bounds : ℤ → ℤ → ℤ → Bool
are_bounds min max desired =
    leb_ℤ (pos 0) min
    && leb_ℤ (pos 0) max
    && leb_ℤ (pos 0) desired
    && not (ltb_ℤ (pos 0) max && ltb_ℤ max min)
    && not (ltb_ℤ (pos 0) desired && ltb_ℤ desired min)
    && not (ltb_ℤ (pos 0) desired && ltb_ℤ (pos 0) max && ltb_ℤ max desired)

-- Bounds in their order, which differ from a spec's only where it leaves them out, or asks for no
-- machine on DigitalOcean.
pub record AreBounded (provider : Runes) (min max desired : ℤ) (b : GroupBounds) : Type 0 where
  pub lower : leb_ℤ b.min b.desired ≡ true
  pub upper : leb_ℤ b.desired b.max ≡ true
  pub positive : leb_ℤ (pos 1) b.max ≡ true
  pub min_same : text_eq provider digitalocean ≡ false → b.min ≡ min
  pub min_raised : text_eq provider digitalocean ≡ true → leb_ℤ (pos 1) b.min ≡ true
  pub min_kept : leb_ℤ (pos 1) min ≡ true → b.min ≡ min
  pub max_kept : leb_ℤ (pos 1) max ≡ true → b.max ≡ max
  pub desired_kept : leb_ℤ (pos 1) max ≡ true → leb_ℤ (pos 1) desired ≡ true → b.desired ≡ desired
  pub desired_filled : desired ≡ pos 0 → b.desired ≡ b.min

pub normalize_bounds-AreBounded :
    (provider : Runes) (min max desired : ℤ)
    → are_bounds min max desired ≡ true
    → AreBounded provider min max desired (bounds_for provider (normalize_bounds min max desired))
unfolding normalize_bounds bounds_for
normalize_bounds-AreBounded provider min max desired h = record {
  lower = ground arith;
  upper = ground arith;
  positive = ground arith;
  min_same = ground arith;
  min_raised = ground arith;
  min_kept = ground arith;
  max_kept = ground arith;
  desired_kept = ground arith;
  desired_filled = ground arith;
}
