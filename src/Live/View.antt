-- ===== src/Live/View.antt =====
-- core/livequery/dispatcher.go: the view that the subscribers of one query shape share.
pub mod Members
mod Tests
use fabriq.Prelude.{
  ℕ, Bool, true, false, not, ◌&&◌, ◌||◌, List, [], ◌∷◌, ◌++◌, any, map, Option, none, some,
  GoString, beq, Assoc, lookup, insert, delete, leb, if◌then◌else◌,
}
use fabriq.Query.Value.{Runtime, Row}
use fabriq.Match.Predicate.{Predicate, eval}
use fabriq.Live.Types.{
  Mode, maintained, streamed, LiveQuery, Cursor, LiveRow, Change, LiveDelta, DeltaOp, update,
  matched, unmatched, columns, Refiller,
}
use fabriq.Live.Order.{sort_key_of}
use fabriq.Live.FieldDelta.{diff_vals}
use fabriq.Live.Index.{PredicateIndex, candidates}
use fabriq.Live.Window.{Window, contains as window_contains, apply as apply_window}

-- `win` is nil before the window is seeded; `stream_vals` is nil unless the query asks for field deltas.
pub record View (F : Type 0) : Type 0 where
  pub id : GoString
  pub q : LiveQuery F
  pub pred : Predicate F
  pub mode : Mode
  pub win : Option (Window F)
  pub stream_members : Assoc Bool
  pub stream_vals : Option (Assoc (Option (Row F)))
  pub seen : Assoc ℕ
  pub members : Assoc Bool
  pub ready : Bool
  pub pending : List (Change F)

abbrev pub is_streamed : Mode → Bool
is_streamed streamed = true
is_streamed maintained = false

unfoldable pub new_view : {F : Type 0} → GoString → LiveQuery F → Predicate F → View F
new_view id q pred = record {
  id = id;
  q = q;
  pred = pred;
  mode = q.mode;
  win = none;
  stream_members = [];
  stream_vals = if is_streamed q.mode && q.field_deltas then some [] else none;
  seen = [];
  members = [];
  ready = false;
  pending = [];
}

-- `m[k]` of a map to Booleans.
abbrev pub is_set_to_true : Option Bool → Bool
is_set_to_true none = false
is_set_to_true (some b) = b

abbrev pub has : Assoc Bool → GoString → Bool
has m k = is_set_to_true (lookup k m)

abbrev pub held_by : {F : Type 0} → GoString → Option (Window F) → Bool
held_by id none = false
held_by id (some w) = window_contains id w

-- `view.contains`
abbrev pub contains_in : {F : Type 0} → Mode → View F → GoString → Bool
contains_in streamed v id = has v.stream_members id
contains_in maintained v id = held_by id v.win

-- `setMember`, in the set of the view; that of the partition is its reverse.
abbrev pub set_member : {F : Type 0} → GoString → Bool → View F → View F
set_member id true v = record v { members = insert id true v.members }
set_member id false v = record v { members = delete id v.members }

abbrev pub is_seen : Option ℕ → ℕ → Bool
is_seen none version = false
is_seen (some seen) version = leb version seen

module _ {F : Type 0} ⦃rt : Runtime F⦄ where
  abbrev pub baseline : Option (Option (Row F)) → Option (Row F)
  baseline none = none
  baseline (some vals) = vals

  abbrev pub changes_since : Option (Assoc (Option (Row F))) → Change F → Option (Row F)
  changes_since none ch = none
  changes_since (some vals) ch = diff_vals (baseline (lookup ch.agg_id vals)) ch.vals

  abbrev pub remember_vals :
      Option (Assoc (Option (Row F))) → Change F → Option (Assoc (Option (Row F)))
  remember_vals none ch = none
  remember_vals (some vals) ch = some (insert ch.agg_id ch.vals vals)

  abbrev pub forget_vals :
      Option (Assoc (Option (Row F))) → GoString → Option (Assoc (Option (Row F)))
  forget_vals none id = none
  forget_vals (some vals) id = some (delete id vals)

  -- The indices are the zero values of the struct.
  abbrev pub stream_delta : DeltaOp → Change F → GoString → Cursor F → Option (Row F) → LiveDelta F
  stream_delta op ch raw cursor changes = record {
    op = op;
    agg_id = ch.agg_id;
    version = ch.version;
    row = raw;
    old_index = some 0;
    new_index = some 0;
    cursor = cursor;
    stream_id = [];
    at = 0;
    changes = changes;
  }

  -- The `switch` of `applyStreamed`, on whether the change matches and the id was a member.
  unfoldable pub stream_step : View F → Change F → Bool → Bool → View F × List (LiveDelta F)
  stream_step v ch true false = (
    record v {
      stream_members = insert ch.agg_id true v.stream_members;
      stream_vals = remember_vals v.stream_vals ch;
    },
    stream_delta matched ch ch.raw (sort_key_of ch.vals v.q.sort ch.agg_id) none ∷ [],
  )
  stream_step v ch false true = (
    record v {
      stream_members = delete ch.agg_id v.stream_members;
      stream_vals = forget_vals v.stream_vals ch.agg_id;
    },
    stream_delta unmatched ch [] (record { values = [] }) none ∷ [],
  )
  stream_step v ch true true = (
    record v { stream_vals = remember_vals v.stream_vals ch },
    stream_delta update ch ch.raw (sort_key_of ch.vals v.q.sort ch.agg_id)
          (changes_since v.stream_vals ch)
        ∷ [],
  )
  stream_step v ch false false = (v, [])

  -- The match test of a change.
  abbrev pub passes : View F → Change F → Bool
  passes v ch = not ch.deleted && eval v.pred (columns ch.vals)

  unfoldable pub apply_streamed : View F → Change F → View F × List (LiveDelta F)
  apply_streamed v ch = stream_step v ch (passes v ch) (has v.stream_members ch.agg_id)

  abbrev pub with_window : View F → Window F × List (LiveDelta F) → View F × List (LiveDelta F)
  with_window v (w, ds) = (record v { win = some w }, ds)

  -- A nil window would be a nil dereference.
  abbrev pub apply_maintained :
      Refiller F → Option (Window F) → View F → Change F → View F × List (LiveDelta F)
  apply_maintained refill none v ch = (v, [])
  apply_maintained refill (some w) v ch = with_window v (apply_window refill w ch)

  abbrev pub apply_mode : Refiller F → Mode → View F → Change F → View F × List (LiveDelta F)
  apply_mode refill streamed v ch = apply_streamed v ch
  apply_mode refill maintained v ch = apply_maintained refill v.win v ch

  -- `if after != before { p.setMember(v, ch.AggID, after) }`
  abbrev pub moved_member : GoString → Bool → Bool → View F → View F
  moved_member id true false v = set_member id false v
  moved_member id false true v = set_member id true v
  moved_member id _ _ v = v

  abbrev pub stamped : Change F → List (LiveDelta F) → List (LiveDelta F)
  stamped ch [] = []
  stamped ch (d ∷ ds) = record d { stream_id = ch.stream_id; at = ch.at } ∷ stamped ch ds

  abbrev pub after_apply :
      Mode → Change F → Bool → View F × List (LiveDelta F) → View F × List (LiveDelta F)
  after_apply mode ch before (v, ds) =
      (moved_member ch.agg_id before (contains_in mode v ch.agg_id) v, stamped ch ds)

  abbrev pub apply_new : Refiller F → Mode → View F → Change F → View F × List (LiveDelta F)
  apply_new refill mode v ch =
      after_apply mode ch (contains_in mode v ch.agg_id)
        (apply_mode refill mode (record v { seen = insert ch.agg_id ch.version v.seen }) ch)

  -- `applyReady`: the view and the deltas that it sends.
  unfoldable pub apply_ready : Refiller F → View F → Change F → View F × List (LiveDelta F)
  apply_ready refill v ch =
      if is_seen (lookup ch.agg_id v.seen) ch.version then (v, []) else apply_new refill v.mode v ch

  -- `view.apply`
  unfoldable pub apply : Refiller F → View F → Change F → View F × List (LiveDelta F)
  apply refill v ch =
      if v.ready then apply_ready refill v ch else (record v { pending = v.pending ++ ch ∷ [] }, [])

  -- Whether `dispatch` hands a change to a view.
  unfoldable pub dispatched : PredicateIndex F → View F → Change F → Bool
  dispatched index v ch = any (beq v.id) (candidates index ch.vals) || has v.members ch.agg_id
