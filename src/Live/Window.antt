-- ===== src/Live/Window.antt =====
-- core/livequery/window.go: an ordered prefix of a query's result, spliced by each change.
pub mod Keyset
pub mod Search
pub mod Bounds
pub mod Shown
pub mod Steps
pub mod Replay
use fabriq.Prelude.{
  ℕ, zero, suc, ◌+◌, ◌-◌, ◌/◌, ◌<◌, ◌≤◌, Bool, true, false, not, ◌&&◌, ◌||◌, List, [], ◌∷◌, ◌++◌,
  Option, none, some, GoString, beq, length, get_elem?, set, take, insert_at, remove_at, last?, ltb,
  leb, if◌then◌else◌,
}
use fabriq.Query.Value.{Runtime, Value, Row}
use fabriq.Match.Compare.{Sign, before, same, after}
use fabriq.Match.Predicate.{Predicate, eval}
use fabriq.Live.Types.{
  SortKey, Cursor, LiveQuery, LiveRow, Change, LiveDelta, DeltaOp, enter, leave, move, update,
  columns, Refiller,
}
use fabriq.Live.Order.{sort_key_of, compare_cursors}
use fabriq.Live.FieldDelta.{diff_vals, with_changes}

pub record Window (F : Type 0) : Type 0 where
  pub q : LiveQuery F
  pub pred : Predicate F
  pub n : ℕ
  pub cushion : ℕ
  pub rows : List (LiveRow F)
  pub complete : Bool

unfoldable pub new_window :
    {F : Type 0} → LiveQuery F → Predicate F → List (LiveRow F) → Bool → ℕ → Window F
new_window q pred seed complete cushion = record {
  q = q;
  pred = pred;
  n = q.limit;
  cushion = cushion;
  rows = seed;
  complete = complete;
}

abbrev pub cap_of : {F : Type 0} → Window F → ℕ
cap_of w = w.n + w.cushion

-- `indexOf`; -1 is `none`.
unfoldable pub index_of : {F : Type 0} → GoString → List (LiveRow F) → Option ℕ
index_of id [] = none
index_of id (r ∷ rows) =
    let later = index_of id rows in
    if beq r.agg_id id then some 0 else elim later [ none ↦ none | some i ↦ some (suc i) ]

-- `sort.Search`: binary search for the first index at which `f` holds.
unfoldable pub search_loop : ℕ → (ℕ → Bool) → ℕ → ℕ → ℕ
search_loop zero f i j = i
search_loop (suc fuel) f i j =
    let h = (i + j) / 2 in
    let right = search_loop fuel f (h + 1) j in
    let left = search_loop fuel f i h in if ltb i j then (if f h then left else right) else i

-- Each round shrinks `j - i`, so `n + 1` rounds are enough.
unfoldable pub sort_search : ℕ → (ℕ → Bool) → ℕ
unfolding search_loop
sort_search n f = search_loop (n + 1) f 0 n

abbrev pub is_after : Sign → Bool
is_after after = true
is_after _ = false

abbrev pub is_same : Sign → Bool
is_same same = true
is_same _ = false

module _ {F : Type 0} ⦃rt : Runtime F⦄ where
  -- The test of `insertPos` at an index, which the search keeps in range.
  abbrev pub sorts_after : List SortKey → Cursor F → Option (LiveRow F) → Bool
  sorts_after sort cur none = true
  sorts_after sort cur (some r) = is_after (compare_cursors r.cursor cur sort)

  unfoldable pub insert_pos : List SortKey → List (LiveRow F) → Cursor F → ℕ
  unfolding sort_search
  insert_pos sort rows cur =
      sort_search (length rows) (λ i. sorts_after sort cur (get_elem? rows i))

  unfoldable pub row_from_change : Window F → Change F → LiveRow F
  row_from_change w ch = record {
    agg_id = ch.agg_id;
    version = ch.version;
    cursor = sort_key_of ch.vals w.q.sort ch.agg_id;
    raw = ch.raw;
    vals = ch.vals;
  }

  abbrev pub delta : DeltaOp → LiveRow F → Option ℕ → Option ℕ → LiveDelta F
  delta op r old_index new_index = record {
    op = op;
    agg_id = r.agg_id;
    version = r.version;
    row = r.raw;
    old_index = old_index;
    new_index = new_index;
    cursor = r.cursor;
    stream_id = [];
    at = 0;
    changes = none;
  }

  unfoldable pub trim_tail : Window F → Window F
  trim_tail w =
      if ltb (cap_of w) (length w.rows)
      then record w { rows = take (cap_of w) w.rows; complete = false }
      else w

  -- The anchor of a refill: the last row, else the query's own cursor, else the zero cursor.
  abbrev pub anchor : Option (LiveRow F) → Option (Cursor F) → Cursor F
  anchor (some r) c = r.cursor
  anchor none (some c) = c
  anchor none none = record { values = [] }

  abbrev pub refilled : Window F → ℕ → Option (List (LiveRow F)) → Window F
  refilled w need none = w
  refilled w need (some more) = record w {
    rows = w.rows ++ more;
    complete = ltb (length more) need || w.complete;
  }

  unfoldable pub maybe_refill : Refiller F → Window F → Window F
  maybe_refill refill w =
      let need = cap_of w - length w.rows in
      let fetched = refilled w need (refill w.q (anchor (last? w.rows) w.q.cursor) need) in
      if w.complete || leb (w.n + w.cushion / 2) (length w.rows) then w else fetched

  abbrev pub leave_of : ℕ → Option (LiveRow F) → List (LiveDelta F)
  leave_of i none = []
  leave_of i (some r) = delta leave r (some i) none ∷ []

  abbrev pub enter_of : ℕ → Option (LiveRow F) → List (LiveDelta F)
  enter_of i none = []
  enter_of i (some r) = delta enter r none (some i) ∷ []

  -- The row at the visible boundary, which an insert before it pushes into the cushion.
  abbrev pub evicted : Window F → ℕ → Option (LiveRow F)
  evicted w pos =
      if ltb pos w.n && leb w.n (length w.rows) then get_elem? w.rows (w.n - 1) else none

  unfoldable pub insert_row : Refiller F → Window F → Change F → Window F × List (LiveDelta F)
  insert_row refill w ch =
      let r = row_from_change w ch in
      let pos = insert_pos w.q.sort w.rows r.cursor in
      let spliced = record w { rows = insert_at pos r w.rows } in
      let deltas =
        if ltb pos w.n then delta enter r none (some pos) ∷ leave_of w.n (evicted w pos) else [] in
      if leb (length w.rows) pos && leb (cap_of w) (length w.rows) && not w.complete
      then (w, [])
      else (maybe_refill refill (trim_tail spliced), deltas)

  -- The first row behind the visible window moves up, if there is one.
  unfoldable pub remove_row : Refiller F → Window F → ℕ → Window F × List (LiveDelta F)
  remove_row refill w pos =
      let spliced = record w { rows = remove_at pos w.rows } in
      let deltas =
        if ltb pos w.n
        then leave_of pos (get_elem? w.rows pos)
          ++ enter_of (w.n - 1) (get_elem? spliced.rows (w.n - 1))
        else [] in
      (maybe_refill refill spliced, deltas)

  unfoldable pub field_changes : Window F → Option (Row F) → LiveRow F → Option (Row F)
  field_changes w prev next = if w.q.field_deltas then diff_vals prev next.vals else none

  -- The `switch` of `reposition` on whether the row was and is visible.
  abbrev pub moved :
      Window F → LiveRow F → ℕ → ℕ → List (LiveRow F) → Option (Row F) → List (LiveDelta F)
  moved w r old pos rows changes =
      if ltb old w.n
      then (if ltb pos w.n
          then with_changes (delta move r (some old) (some pos)) changes ∷ []
          else delta leave r (some old) none ∷ enter_of (w.n - 1) (get_elem? rows (w.n - 1)))
      else if ltb pos w.n
      then delta enter r none (some pos) ∷ []
      else []

  -- The two ways of `reposition`: the row keeps its place, or is taken out and inserted again.
  unfoldable pub update_in_place :
      Window F → ℕ → LiveRow F → Option (Row F) → Window F × List (LiveDelta F)
  update_in_place w old r changes = (
    record w { rows = set w.rows old r },
    if ltb old w.n then with_changes (delta update r (some old) (some old)) changes ∷ [] else [],
  )

  unfoldable pub reinsert :
      Refiller F → Window F → ℕ → LiveRow F → Option (Row F) → Window F × List (LiveDelta F)
  reinsert refill w old r changes =
      let out = remove_at old w.rows in
      let pos = insert_pos w.q.sort out r.cursor in
      let rows = insert_at pos r out in
      (maybe_refill refill (trim_tail (record w { rows = rows })), moved w r old pos rows changes)

  -- `held` is `w.rows[old]`.
  unfoldable pub reposition :
      Refiller F → Window F → ℕ → LiveRow F → Change F → Window F × List (LiveDelta F)
  reposition refill w old held ch =
      let r = row_from_change w ch in
      let changes = field_changes w held.vals r in
      if is_same (compare_cursors held.cursor r.cursor w.q.sort)
      then update_in_place w old r changes
      else reinsert refill w old r changes

  abbrev pub reposition_at :
      Refiller F → Window F → ℕ → Option (LiveRow F) → Change F → Window F × List (LiveDelta F)
  reposition_at refill w old none ch = (w, [])
  reposition_at refill w old (some held) ch = reposition refill w old held ch

  -- The `switch` of `Apply`. `old` is in range, so `reposition_at` always finds the row.
  unfoldable pub apply_at :
      Refiller F → Window F → Option ℕ → Bool → Change F → Window F × List (LiveDelta F)
  apply_at refill w none false ch = (w, [])
  apply_at refill w none true ch = insert_row refill w ch
  apply_at refill w (some old) false ch = remove_row refill w old
  apply_at refill w (some old) true ch = reposition_at refill w old (get_elem? w.rows old) ch

  unfoldable pub apply : Refiller F → Window F → Change F → Window F × List (LiveDelta F)
  apply refill w ch =
      apply_at refill w (index_of ch.agg_id w.rows)
        (not ch.deleted && eval w.pred (columns ch.vals)) ch

  abbrev pub visible : Window F → List (LiveRow F)
  visible w = take w.n w.rows

abbrev is_some {ℓ} : {A : Type ℓ} → Option A → Bool
is_some none = false
is_some (some a) = true

unfoldable pub contains : {F : Type 0} → GoString → Window F → Bool
unfolding index_of
contains id w = is_some (index_of id w.rows)
