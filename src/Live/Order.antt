-- ===== src/Live/Order.antt =====
-- core/livequery/order.go: the keyset cursor of a row, and the order of cursors.
use fabriq.Prelude.{
  Bool, true, false, List, [], ◌∷◌, ◌++◌, Option, none, some, GoString, str_lt, lookup, last?, map,
  if◌then◌else◌,
}
use fabriq.Query.Value.{Runtime, Value, null, text, Row}
use fabriq.Match.Compare.{Sign, before, same, after, negate, order}
use fabriq.Live.Types.{SortKey, Cursor, columns}

-- `row[column]`: a missing column reads as nil.
abbrev pub or_null : {F : Type 0} → Option (Value F) → Value F
or_null none = null
or_null (some v) = v

unfoldable pub sort_key_of : {F : Type 0} → Option (Row F) → List SortKey → GoString → Cursor F
sort_key_of row sort id = record {
  values = map (λ (s : SortKey). or_null (lookup s.column (columns row))) sort ++ text id ∷ [];
}

-- `v.(string)` with the failure ignored.
abbrev pub as_string : {F : Type 0} → Option (Value F) → GoString
as_string (some (text s)) = s
as_string _ = []

-- The first key on which the two differ, then the trailing id.
abbrev pub first_of_signs : Sign → Sign → Sign
first_of_signs same later = later
first_of_signs s later = s

abbrev pub compare_ids : GoString → GoString → Sign
compare_ids a b = if str_lt a b then before else if str_lt b a then after else same

abbrev pub directed : Bool → Sign → Sign
directed true s = negate s
directed false s = s

module _ {F : Type 0} ⦃rt : Runtime F⦄ where
  -- The loop over the sort keys. Cursors come from `sort_key_of` under the same sort; on shorter ones
  -- Go would panic, and the loop ends here.
  unfoldable pub compare_keys : List SortKey → List (Value F) → List (Value F) → Sign
  compare_keys (s ∷ ss) (a ∷ as') (b ∷ bs) =
      first_of_signs (directed s.desc (order a b)) (compare_keys ss as' bs)
  compare_keys _ as' bs = same

  unfoldable pub compare_cursors : Cursor F → Cursor F → List SortKey → Sign
  unfolding compare_keys
  compare_cursors a b sort =
      first_of_signs (compare_keys sort a.values b.values)
        (compare_ids (as_string (last? a.values)) (as_string (last? b.values)))
