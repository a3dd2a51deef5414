-- ===== src/Live/Tests.antt =====
-- Runs of the live-query engine, and the instances of its theorems.
use fabriq.Prelude.{
  lookup, insert, ℕ, zero, suc, get_elem?, ◌≤◌, ◌<◌, ◌≡◌, refl, inr, Bool, true, false, List, [],
  ◌∷◌, map, none, some, GoString, codes, arith, beq, str_lt, length, ltb, ◌==◌,
}
use fabriq.Query.Value.{pos, negsuc, Runtime, Row, null, bool, text}
use fabriq.Query.Filter.{end}
use fabriq.Match.Compare.{same_value}
use fabriq.Match.Predicate.{eval}
use fabriq.Live.Types.{
  LiveQuery, LiveRow, Cursor, Change, LiveDelta, DeltaOp, maintained, enter, leave, Refiller,
}
use fabriq.Live.Order.{sort_key_of, compare_cursors}
use fabriq.Live.FieldDelta.{diff_vals}
use fabriq.Live.FieldDelta.Fields.{IsDelta, diff_vals-IsDelta}
use fabriq.Live.Window.{
  Window, index_of, insert_pos, row_from_change, insert_row, reposition, apply_at, apply,
  sort_search,
}
use fabriq.Live.Window.Search.{insert_pos-splits}
use fabriq.Live.Window.Keyset.{KeysBehind, RowBehind}
use fabriq.Live.Window.Bounds.{Serves, IsSound, apply-IsSound}
use fabriq.Live.Window.Replay.{replay-apply, reposition_misses_leave}
use fabriq.Live.Window.Shown.{screen, replay}

-- Doubles that hold whole numbers.
instance abbrev whole : Runtime ℕ
whole = record {
  feq = λ a b. a == b;
  flt = λ a b. ltb a b;
  of_int = λ z. elim z [ pos n ↦ n | negsuc n ↦ 0 ];
  parse_time = λ s. none;
  to_lower = λ s. s;
}

abbrev by_id : LiveQuery ℕ
by_id = record {
  entity = codes "note";
  conds = end;
  sort = [];
  limit = 2;
  cursor = none;
  mode = maintained;
  field_deltas = false;
}

abbrev row_at : GoString → ℕ → LiveRow ℕ
row_at id v = record {
  agg_id = id;
  version = v;
  cursor = record { values = text id ∷ [] };
  raw = [];
  vals = some [];
}

abbrev four_rows : Window ℕ
four_rows = record {
  q = by_id;
  pred = record { conds = end };
  n = 2;
  cushion = 2;
  rows =
      row_at (codes "b") 1
      ∷ row_at (codes "d") 1
      ∷ row_at (codes "f") 1
      ∷ row_at (codes "h") 1
      ∷ [];
  complete = false;
}

abbrev change_to : GoString → Bool → Change ℕ
change_to id gone = record {
  agg_id = id;
  version = 2;
  deleted = gone;
  vals = some [];
  raw = [];
  stream_id = [];
  at = 0;
}

abbrev no_more : Refiller ℕ
no_more q c need = some []

no_more-Serves : Serves no_more
no_more-Serves = record {
  answer = λ q c need. ([], refl);
  at_most = λ q c need more e. ground arith;
}

four_rows-IsSound : IsSound four_rows
four_rows-IsSound = record { fits = omega arith; spare = inr (omega arith) }

abbrev op_and_id : LiveDelta ℕ → DeltaOp × GoString
op_and_id d = (d.op, d.agg_id)

-- "c" enters between "b" and "d", and "d" leaves the visible window.
apply_enters :
    map op_and_id (apply no_more four_rows (change_to (codes "c") false)).1
    ≡ (enter, codes "c") ∷ (leave, codes "d") ∷ []
unfolding apply apply_at insert_row index_of insert_pos sort_search row_from_change sort_key_of
    compare_cursors beq str_lt eval
apply_enters = refl

apply-IsSound_example : IsSound (apply no_more four_rows (change_to (codes "b") true)).0
apply-IsSound_example =
    apply-IsSound no_more four_rows (change_to (codes "b") true) no_more-Serves (omega arith)
      four_rows-IsSound

replay-apply_example :
    replay (screen four_rows) (apply no_more four_rows (change_to (codes "b") true)).1
    ≡ screen (apply no_more four_rows (change_to (codes "b") true)).0
unfolding index_of beq
replay-apply_example =
    replay-apply no_more four_rows (change_to (codes "b") true) four_rows-IsSound
      (λ old e h. ground arith)

abbrev two_rows : List (LiveRow ℕ)
two_rows = row_at (codes "b") 1 ∷ row_at (codes "d") 1 ∷ []

abbrev between : Cursor ℕ
between = record { values = text (codes "c") ∷ [] }

ordered_behind_c :
    (a b : ℕ)
    → a ≤ b
    → b < 2
    → RowBehind [] between (get_elem? two_rows a)
    → RowBehind [] between (get_elem? two_rows b)
unfolding KeysBehind str_lt
ordered_behind_c zero zero h k e = e
ordered_behind_c zero (suc zero) h k e = refl
ordered_behind_c zero (suc (suc b)) h k e = absurd (omega arith)
ordered_behind_c (suc a) zero h k e = absurd (omega arith)
ordered_behind_c (suc a) (suc zero) h k e = refl
ordered_behind_c (suc a) (suc (suc b)) h k e = absurd (omega arith)

insert_pos-splits_example :
    (insert_pos [] two_rows between ≤ 2)
    × ((k : ℕ) → k < insert_pos [] two_rows between → ¬ RowBehind [] between (get_elem? two_rows k))
    × ((k : ℕ)
        → insert_pos [] two_rows between ≤ k
        → k < 2
        → RowBehind [] between (get_elem? two_rows k))
insert_pos-splits_example = insert_pos-splits [] two_rows between ordered_behind_c

-- A window over one sort column, in which row "z" of the cushion is re-sorted to the front.
abbrev ranked : Window ℕ
ranked = record four_rows {
  rows = row_at (codes "b") 1 ∷ row_at (codes "d") 1 ∷ row_at (codes "f") 1 ∷ [];
}

abbrev moved_up : Change ℕ
moved_up = change_to (codes "a") false

reposition_misses_leave_example :
    (length (replay (screen ranked) (reposition no_more ranked 2 (row_at (codes "f") 1) moved_up).1)
      ≡ 3)
    × (length (screen (reposition no_more ranked 2 (row_at (codes "f") 1) moved_up).0) ≡ 2)
unfolding insert_pos sort_search row_from_change sort_key_of compare_cursors beq str_lt
reposition_misses_leave_example =
    reposition_misses_leave no_more ranked 2 (row_at (codes "f") 1) moved_up (omega arith)
      (omega arith) refl (omega arith)

abbrev old_task : Row ℕ
old_task =
    (codes "title", text (codes "a"))
    ∷ (codes "done", bool false)
    ∷ (codes "owner", text (codes "x"))
    ∷ []

abbrev new_task : Row ℕ
new_task =
    (codes "title", text (codes "a"))
    ∷ (codes "done", bool true)
    ∷ (codes "due", text (codes "z"))
    ∷ []

task_delta :
    diff_vals (some old_task) (some new_task)
    ≡ some
        ((codes "done", bool true) ∷ (codes "due", text (codes "z")) ∷ (codes "owner", null) ∷ [])
unfolding diff_vals lookup insert beq same_value
task_delta = refl

diff_vals-IsDelta_example : IsDelta old_task new_task (diff_vals (some old_task) (some new_task))
unfolding lookup beq
diff_vals-IsDelta_example = diff_vals-IsDelta old_task new_task (refl, (refl, (refl, tt)))
