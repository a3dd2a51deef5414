-- ===== src/Live/FieldDelta.antt =====
-- core/livequery/fielddelta.go: the fields in which two versions of a row differ.
pub mod Fields
use fabriq.Prelude.{
  Bool, false, [], ◌∷◌, Option, none, some, GoString, lookup, insert, if◌then◌else◌,
}
use fabriq.Query.Value.{Runtime, Value, null, Row}
use fabriq.Match.Compare.{same_value}
use fabriq.Live.Types.{LiveDelta}

module _ {F : Type 0} ⦃rt : Runtime F⦄ where
  -- `changes[k] = v`, allocating the map first when it is nil.
  abbrev pub add_change : GoString → Value F → Option (Row F) → Option (Row F)
  add_change k v none = some (insert k v [])
  add_change k v (some m) = some (insert k v m)

  -- `had && reflect.DeepEqual(pv, nv)`: scalars are deeply equal when they are the same value. A value
  -- that is a slice or a map is not modelled.
  abbrev pub unchanged : Option (Value F) → Value F → Bool
  unchanged none nv = false
  unchanged (some pv) nv = same_value pv nv

  unfoldable pub changed_fields : Row F → Row F → Option (Row F) → Option (Row F)
  changed_fields prev [] acc = acc
  changed_fields prev ((k, nv) ∷ next) acc =
      changed_fields prev next (if unchanged (lookup k prev) nv then acc else add_change k nv acc)

  unfoldable pub dropped_fields : Row F → Row F → Option (Row F) → Option (Row F)
  dropped_fields next [] acc = acc
  dropped_fields next ((k, pv) ∷ prev) acc =
      dropped_fields next prev
        (elim (lookup k next) [ some v ↦ acc | none ↦ add_change k null acc ])

  unfoldable pub diff_vals : Option (Row F) → Option (Row F) → Option (Row F)
  unfolding changed_fields dropped_fields
  diff_vals none next = none
  diff_vals (some prev) none = none
  diff_vals (some prev) (some next) = dropped_fields next prev (changed_fields prev next none)

abbrev pub with_changes : {F : Type 0} → LiveDelta F → Option (Row F) → LiveDelta F
with_changes d c = record d { changes = c }
