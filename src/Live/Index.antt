-- ===== src/Live/Index.antt =====
-- core/livequery/index.go: the predicate index, which picks the subscriptions that a change may concern.
pub mod Keys
pub mod Count
pub mod Sound
pub mod Candidates
mod Tests
use fabriq.Prelude.{
  ℕ, suc, Bool, false, not, ◌&&◌, ◌||◌, List, [], ◌∷◌, ◌++◌, any, filter, length, leb, Option, none,
  some, GoString, beq, if◌then◌else◌,
}
use fabriq.Query.Value.{
  Runtime, Value, int, int32, int64, float32, float64, Operand, one, many, other, Row,
}
use fabriq.Query.Filter.{Op, eq, in_set, cond, Conds, end, more}
use fabriq.Match.Compare.{same_value}

-- A value that a subscription accepts in a column: an element of the nested maps `byColVal`.
pub record Gate (F : Type 0) : Type 0 where
  pub column : GoString
  pub value : Value F

pub record Entry (F : Type 0) : Type 0 where
  pub gate : Gate F
  pub id : GoString

-- The nested maps of sets are the list of their entries, in which an entry may stand twice, `want` is
-- the list of its pairs, each id once, and `residual`
-- the list of its members.
pub record PredicateIndex (F : Type 0) : Type 0 where
  pub by_col_val : List (Entry F)
  pub want : List (GoString × ℕ)
  pub residual : List GoString

unfoldable pub new_index : {F : Type 0} → PredicateIndex F
new_index = record { by_col_val = []; want = []; residual = [] }

module _ {F : Type 0} ⦃rt : Runtime F⦄ where
  unfoldable pub norm_val : Value F → Value F
  norm_val (int n) = float64 (rt.of_int n)
  norm_val (int32 n) = float64 (rt.of_int n)
  norm_val (int64 n) = float64 (rt.of_int n)
  norm_val (float32 x) = float64 x
  norm_val v = v

  abbrev pub gates_of : GoString → List (Value F) → List (Gate F)
  gates_of c [] = []
  gates_of c (v ∷ vs) = record { column = c; value = norm_val v } ∷ gates_of c vs

  -- `toAnySlice`: nil for a slice of any other type, and for a value that is no slice.
  abbrev pub to_any_slice : Operand F → List (Value F)
  to_any_slice (many other vs) = []
  to_any_slice (many t vs) = vs
  to_any_slice (one v) = []

  -- The body of the loop on a condition that is no group; `none` is the panic on a slice as map key.
  unfoldable pub leaf_gates : GoString → Op → Operand F → Option (List (Gate F))
  leaf_gates c eq (one v) = some (gates_of c (v ∷ []))
  leaf_gates c eq (many t vs) = none
  leaf_gates c in_set operand = some (gates_of c (to_any_slice operand))
  leaf_gates c op operand = some []

  abbrev pub append_gates : Option (List (Gate F)) → Option (List (Gate F)) → Option (List (Gate F))
  append_gates none rest = none
  append_gates (some gs) none = none
  append_gates (some gs) (some rest) = some (gs ++ rest)

  -- `equalityColumns`: the columns with their values, one gate for each value.
  unfoldable pub equality_columns : Conds F → Option (List (Gate F))
  equality_columns end = some []
  equality_columns (more (cond c op v (more s ss)) cs) = equality_columns cs
  equality_columns (more (cond c op v end) cs) =
      append_gates (leaf_gates c op v) (equality_columns cs)

-- The keys of the map of columns, each once.
unfoldable pub columns_of : {F : Type 0} → List (Gate F) → List GoString
columns_of [] = []
columns_of (g ∷ gs) =
    let rest = columns_of gs in if any (beq g.column) rest then rest else g.column ∷ rest

abbrev pub entries_of : {F : Type 0} → GoString → List (Gate F) → List (Entry F)
entries_of id [] = []
entries_of id (g ∷ gs) = record { gate = g; id = id } ∷ entries_of id gs

unfoldable pub without_want : GoString → List (GoString × ℕ) → List (GoString × ℕ)
without_want id [] = []
without_want id ((i, n) ∷ want) =
    let rest = without_want id want in if beq i id then rest else (i, n) ∷ rest

unfoldable pub with_gates :
    {F : Type 0} → GoString → PredicateIndex F → List (Gate F) → PredicateIndex F
unfolding without_want
with_gates id ix [] = record ix {
  residual = if any (beq id) ix.residual then ix.residual else id ∷ ix.residual;
}
with_gates id ix (g ∷ gs) = record ix {
  by_col_val = entries_of id (g ∷ gs) ++ ix.by_col_val;
  want = (id, length (columns_of (g ∷ gs))) ∷ without_want id ix.want;
}

unfoldable pub added :
    {F : Type 0} → GoString → PredicateIndex F → Option (List (Gate F)) → Option (PredicateIndex F)
unfolding with_gates
added id ix none = none
added id ix (some gs) = some (with_gates id ix gs)

module _ {F : Type 0} ⦃rt : Runtime F⦄ where
  -- `Add`; of an id that is there it sets the number of columns anew and keeps its entries.
  unfoldable pub add : GoString → Conds F → PredicateIndex F → Option (PredicateIndex F)
  unfolding added
  add id w ix = added id ix (equality_columns w)

  -- The entries that the row's value in a column finds.
  unfoldable pub accepts : List (Entry F) → GoString → GoString → Value F → Bool
  accepts [] id c raw = false
  accepts (e ∷ es) id c raw =
      beq e.id id && beq e.gate.column c && same_value (norm_val raw) e.gate.value
      || accepts es id c raw

  -- `hits[id]`: the columns of the row that find an entry of the id.
  unfoldable pub hits : List (Entry F) → GoString → Row F → ℕ
  hits es id [] = 0
  hits es id ((c, raw) ∷ row) =
      let rest = hits es id row in if accepts es id c raw then suc rest else rest

  unfoldable pub hit_ids : List (Entry F) → Row F → List (GoString × ℕ) → List GoString
  hit_ids es row [] = []
  hit_ids es row ((id, n) ∷ want) =
      let rest = hit_ids es row want in if leb n (hits es id row) then id ∷ rest else rest

  -- `Candidates`; `none` is the nil row of a delete.
  unfoldable pub candidates : PredicateIndex F → Option (Row F) → List GoString
  candidates ix none = ix.residual
  candidates ix (some row) = ix.residual ++ hit_ids ix.by_col_val row ix.want

unfoldable pub without_entries : {F : Type 0} → GoString → List (Entry F) → List (Entry F)
without_entries id [] = []
without_entries id (e ∷ es) =
    let rest = without_entries id es in if beq e.id id then rest else e ∷ rest

-- `Remove`
unfoldable pub remove : {F : Type 0} → GoString → PredicateIndex F → PredicateIndex F
unfolding without_entries without_want
remove id ix = record {
  by_col_val = without_entries id ix.by_col_val;
  want = without_want id ix.want;
  residual = filter (λ i. not (beq i id)) ix.residual;
}
