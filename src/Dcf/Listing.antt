-- ===== src/Dcf/Listing.antt =====
-- The order of the list of `get_filtered_list` in services/analysis/dcf_service.py.
use stock_advisor.Prelude.{
  List, Option, arith, false, none, refl, some, true, ◌≡◌, Bool, String, length,
}
use stock_advisor.Dcf.{DcfRow, key_below, get_filtered_list, row_below}
use stock_advisor.Floats.{Double, IsOrdered}
use stock_advisor.Prelude.Sorting.{IsDescending, length-sort_desc, sort_desc-IsDescending}

module _ {F : Type 0} ⦃d : Double F⦄ where
  key_below-asym : (o : IsOrdered F) (a b : Option F) → key_below a b ≡ true → key_below b a ≡ false
  key_below-asym o none none e = refl
  key_below-asym o none (some y) e = refl
  key_below-asym o (some x) none e = ground (arith, e)
  key_below-asym o (some x) (some y) e = o.not-lt_of_le x y (o.le_of_lt x y e)

  -- The list is sorted by upside, the greatest first and the missing ones last, and its count is
  -- its length.
  pub get_filtered_list-IsDescending :
      (o : IsOrdered F) (market : Option String) (has_value : Bool) (rows : List (DcfRow F))
      → let r = get_filtered_list market has_value rows in
        IsDescending row_below r.1 × (length r.1 ≡ r.0)
  unfolding get_filtered_list
  get_filtered_list-IsDescending o market has_value rows = (
    sort_desc-IsDescending row_below (λ r s. key_below-asym o r.row_upside s.row_upside) _,
    length-sort_desc row_below _,
  )
