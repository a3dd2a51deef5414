-- ===== src/Live/Types.antt =====
-- core/livequery/types.go and ports.go: queries, rows, changes and deltas.
use fabriq.Prelude.{
  ℕ, ◌==◌, Bool, not, List, [], ◌∷◌, Option, none, some, GoString, beq, Result, ok, err, ◌>>◌,
  if◌then◌else◌,
}
use fabriq.Query.Value.{Value, Row}
use fabriq.Query.Filter.{Conds, FilterError, validate_conds}

pub data Mode : Type 0 where
  maintained streamed : Mode

pub record SortKey : Type 0 where
  pub column : GoString
  pub desc : Bool

pub record Cursor (F : Type 0) : Type 0 where
  pub values : List (Value F)

-- `limit` is a Go int; a negative one is refused like 0 and is not represented.
pub record LiveQuery (F : Type 0) : Type 0 where
  pub entity : GoString
  pub conds : Conds F
  pub sort : List SortKey
  pub limit : ℕ
  pub cursor : Option (Cursor F)
  pub mode : Mode
  pub field_deltas : Bool

pub data QueryError : Type 0 where
  empty_entity no_limit : QueryError
  bad_filter : FilterError → QueryError
  empty_sort_column : QueryError
  not_sortable : GoString → QueryError

lift_filter : Result FilterError (Unit {0}) → Result QueryError (Unit {0})
lift_filter (ok u) = ok u
lift_filter (err e) = err (bad_filter e)

-- The loop over the sort keys.
unfoldable pub validate_sort : (GoString → Bool) → List SortKey → Result QueryError (Unit {0})
validate_sort sortable [] = ok tt
validate_sort sortable (k ∷ ks) =
    let rest = validate_sort sortable ks in
    if beq k.column []
    then err empty_sort_column
    else if not (sortable k.column)
    then err (not_sortable k.column)
    else rest

unfoldable pub validate_query :
    {F : Type 0}
    → (GoString → Bool)
    → (GoString → Bool)
    → LiveQuery F
    → Result QueryError (Unit {0})
unfolding lift_filter validate_sort
validate_query has sortable q =
    if beq q.entity []
    then err empty_entity
    else if q.limit == 0
    then err no_limit
    else lift_filter (validate_conds has q.conds) >> validate_sort sortable q.sort

pub data DeltaOp : Type 0 where
  enter leave move update reset matched unmatched : DeltaOp

-- An index of -1 is `none`. `changes` is nil or a map.
pub record LiveDelta (F : Type 0) : Type 0 where
  pub op : DeltaOp
  pub agg_id : GoString
  pub version : ℕ
  pub row : GoString
  pub old_index : Option ℕ
  pub new_index : Option ℕ
  pub cursor : Cursor F
  pub stream_id : GoString
  pub at : ℕ
  pub changes : Option (Row F)

-- `Row`: `raw` is its JSON text, `vals` its columns or nil.
pub record LiveRow (F : Type 0) : Type 0 where
  pub agg_id : GoString
  pub version : ℕ
  pub cursor : Cursor F
  pub raw : GoString
  pub vals : Option (Row F)

pub record Change (F : Type 0) : Type 0 where
  pub agg_id : GoString
  pub version : ℕ
  pub deleted : Bool
  pub vals : Option (Row F)
  pub raw : GoString
  pub stream_id : GoString
  pub at : ℕ

-- Reading a nil map is reading an empty one.
abbrev pub columns : {F : Type 0} → Option (Row F) → Row F
columns none = []
columns (some row) = row

-- The `Refiller` port: the next rows after a cursor, or an error.
abbrev pub Refiller : Type 0 → Type 0
Refiller F = LiveQuery F → Cursor F → ℕ → Option (List (LiveRow F))
