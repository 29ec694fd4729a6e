-- ===== src/Assets/Totals.antt =====
-- The totals of `ListAssets`, and the texts of its amounts.
use my_finance.Common.{
  ◌≡◌, refl, ap, sym, ◌∙◌, false, List, [], ◌∷◌, any, arith, Bool-cases, inl, inr,
}
use my_finance.Common.Int.{pos, ◌+ℤ◌, int_laws}
use my_finance.Text.{Text}
use my_finance.Money.{Amount}
use my_finance.Assets.{
  AssetType, real_estate_asset, securities, business, vehicle_asset, collectibles, other_asset,
}
use my_finance.Assets.Views.{
  Valued, total_value, type_value, allocations, allocated, asset_types, of_type,
}

-- A type that no asset has adds nothing.
absent-type_value :
    (kind : AssetType) (vs : List Valued)
    → any (of_type kind) vs ≡ false
    → type_value kind vs ≡ pos 0
unfolding type_value any
absent-type_value kind [] h = refl
absent-type_value kind (v ∷ vs) h = ground (arith, absent-type_value kind vs)

-- The sum over some types, each with its value.
by_types : List AssetType → List Valued → Amount
by_types [] vs = pos 0
by_types (kind ∷ kinds) vs = type_value kind vs +ℤ by_types kinds vs

allocated-by_types :
    (kinds : List AssetType) (vs : List Valued)
    → allocated (allocations kinds vs) ≡ by_types kinds vs
unfolding allocated allocations by_types
allocated-by_types [] vs = refl
allocated-by_types (kind ∷ kinds) vs = elim (Bool-cases (any (of_type kind) vs)) [
  | inl there ↦ rw there (ap (λ z. type_value kind vs +ℤ z) (allocated-by_types kinds vs))
  | inr gone ↦
      rw (gone, absent-type_value kind vs gone) (allocated-by_types kinds vs ∙ omega int_laws)
]

-- Each asset is of one of the types.
by_types-total : (vs : List Valued) → by_types asset_types vs ≡ total_value vs
unfolding by_types type_value total_value
by_types-total [] = omega int_laws
by_types-total (v ∷ vs) = go v.kind (by_types-total vs)
  where
    go :
        (kind : AssetType)
        → by_types asset_types vs ≡ total_value vs
        → by_types asset_types (record { kind = kind; value = v.value } ∷ vs)
          ≡ v.value +ℤ total_value vs
    go real_estate_asset ih = rw (sym ih) (omega int_laws)
    go securities ih = rw (sym ih) (omega int_laws)
    go business ih = rw (sym ih) (omega int_laws)
    go vehicle_asset ih = rw (sym ih) (omega int_laws)
    go collectibles ih = rw (sym ih) (omega int_laws)
    go other_asset ih = rw (sym ih) (omega int_laws)

-- The allocations that `ListAssets` lists sum to the total that it shows.
pub allocated-total_value :
    (vs : List Valued) → allocated (allocations asset_types vs) ≡ total_value vs
allocated-total_value vs = allocated-by_types asset_types vs ∙ by_types-total vs
