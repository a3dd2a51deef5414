-- ===== src/Live/View/Tests.antt =====
-- A streamed and a maintained view, and the instances of the theorems on views.
use fabriq.Prelude.{
  ℕ, ◌≡◌, refl, Bool, true, false, [], ◌∷◌, none, some, GoString, codes, beq, lookup, insert, ltb,
  ◌==◌, if◌then◌else◌,
}
use fabriq.Query.Value.{pos, negsuc, Runtime, text}
use fabriq.Query.Filter.{end}
use fabriq.Match.Predicate.{eval, eval_all}
use fabriq.Live.Types.{Mode, maintained, streamed, LiveQuery, LiveRow, Change, Refiller}
use fabriq.Live.Index.{PredicateIndex}
use fabriq.Live.Window.{
  apply as apply_window, apply_at, index_of, remove_row, maybe_refill, contains,
}
use fabriq.Live.View.{
  View, new_view, has, contains_in, apply_ready, apply_streamed, stream_step, dispatched,
}
use fabriq.Live.View.Members.{IsExact, Follows, apply_ready-Follows, refilled_row_unreachable}

-- Doubles that hold whole numbers.
instance abbrev whole : Runtime ℕ
whole = record {
  feq = λ a b. a == b;
  flt = λ a b. ltb a b;
  of_int = λ z. elim z [ pos n ↦ n | negsuc n ↦ 0 ];
  parse_time = λ s. none;
  to_lower = λ s. s;
}

abbrev every : Mode → LiveQuery ℕ
every mode = record {
  entity = codes "note";
  conds = end;
  sort = [];
  limit = 1;
  cursor = none;
  mode = mode;
  field_deltas = false;
}

abbrev change_of : GoString → Bool → Change ℕ
change_of id deleted = record {
  agg_id = id;
  version = 2;
  deleted = deleted;
  vals = if deleted then none else some [];
  raw = [];
  stream_id = codes "s";
  at = 1;
}

abbrev row_of : GoString → LiveRow ℕ
row_of id = record {
  agg_id = id;
  version = 1;
  cursor = record { values = text id ∷ [] };
  raw = [];
  vals = some [];
}

-- The database has one more row, "z".
abbrev one_more : Refiller ℕ
one_more q after need = some (row_of (codes "z") ∷ [])

abbrev fresh : View ℕ
unfolding new_view
fresh = new_view (codes "v") (every streamed) (record { conds = end })

fresh_matches :
    has (apply_ready one_more fresh (change_of (codes "a") false)).0.stream_members (codes "a")
    ≡ true
unfolding apply_ready apply_streamed stream_step eval eval_all lookup insert beq fresh
fresh_matches = refl

apply_ready-Follows_example :
    IsExact (apply_ready one_more fresh (change_of (codes "a") false)).0
    × Follows fresh
        (change_of (codes "a") false)
        (apply_ready one_more fresh (change_of (codes "a") false))
unfolding new_view lookup
apply_ready-Follows_example =
    apply_ready-Follows one_more fresh (change_of (codes "a") false) refl (λ j. refl)

-- A view that holds "b" and misses "z".
abbrev holding : View ℕ
unfolding new_view
holding = record (new_view (codes "v") (every maintained) (record { conds = end })) {
  win = some (record {
    q = every maintained;
    pred = record { conds = end };
    n = 1;
    cushion = 2;
    rows = row_of (codes "b") ∷ [];
    complete = false;
  });
  members = (codes "b", true) ∷ [];
  ready = true;
}

abbrev gated : PredicateIndex ℕ
gated = record { by_col_val = []; want = (codes "v", 1) ∷ []; residual = [] }

-- The refill brings "z" into the window.
refill_holds :
    contains_in maintained (apply_ready one_more holding (change_of (codes "b") true)).0 (codes "z")
    ≡ true
unfolding apply_ready apply_window apply_at index_of remove_row maybe_refill contains lookup beq
    holding
refill_holds = refl

refilled_row_unreachable_example :
    dispatched gated
      (apply_ready one_more holding (change_of (codes "b") true)).0
      (change_of (codes "z") true)
    ≡ false
unfolding beq lookup holding
refilled_row_unreachable_example =
    refilled_row_unreachable one_more holding (change_of (codes "b") true) gated
      (change_of (codes "z") true) refl refl refl refl refl
