-- ===== src/Live/Window/Replay.antt =====
-- core/livequery/window.go: the deltas of `Apply`, as a client folds them over its rows.
use fabriq.Prelude.{
  ℕ, ◌+◌, ◌≤◌, ◌<◌, ◌≡◌, refl, sym, ◌∙◌, ◌⊎◌, inl, inr, Bool, true, false, not, ◌&&◌, map, Option,
  none, some, arith, Bool-cases, Option-cases, length, length-take, length-insert_at,
  length-remove_at, get_elem?, insert_at, remove_at, ltb,
}
use fabriq.Prelude.Splice.{length-map}
use fabriq.Query.Value.{Runtime, Row}
use fabriq.Match.Predicate.{eval}
use fabriq.Live.Types.{LiveRow, Change, Refiller, columns}
use fabriq.Live.Order.{compare_cursors}
use fabriq.Live.Window.{
  Window, index_of, row_from_change, insert_pos, reinsert, reposition, apply_at, apply, is_same,
  field_changes,
}
use fabriq.Live.Window.Search.{insert_pos-le}
use fabriq.Live.Window.Bounds.{IsSound, index_of-lt}
use fabriq.Live.Window.Shown.{shown, replay, screen, Covers, screen-trimmed}
use fabriq.Live.Window.Steps.{
  Shows, insert_row-Shows, remove_row-Shows, update_in_place-Shows, moved-Shows,
}

module _ {F : Type 0} ⦃rt : Runtime F⦄ where
  -- A row of the cushion does not move up into the visible window.
  abbrev pub StaysHidden : Window F → Change F → Type 0
  StaysHidden w ch =
      (old : ℕ)
      → index_of ch.agg_id w.rows ≡ some old
      → w.n ≤ old
      → w.n ≤ insert_pos w.q.sort (remove_at old w.rows) (row_from_change w ch).cursor

  reinsert-Shows :
      (refill : Refiller F) (w : Window F) (old : ℕ) (r : LiveRow F) (c : Option (Row F))
      → old < length w.rows
      → (w.n ≤ old → w.n ≤ insert_pos w.q.sort (remove_at old w.rows) r.cursor)
      → IsSound w
      → Shows w (reinsert refill w old r c)
  unfolding reinsert
  reinsert-Shows refill w old r c l stays h =
      let out = remove_at old w.rows in
      let pos = insert_pos w.q.sort out r.cursor in
      moved-Shows w r old pos c l (insert_pos-le w.q.sort out r.cursor) stays
      ∙ sym (screen-trimmed refill (record w { rows = insert_at pos r out }) (covered pos h.spare))
    where
      covered :
          (pos : ℕ)
          → (w.complete ≡ true) ⊎ (w.n < length w.rows)
          → Covers (record w { rows = insert_at pos r (remove_at old w.rows) })
      covered pos (inl c) = inl c
      covered pos (inr k) = inr (
          omega
            (arith, length-insert_at pos r (remove_at old w.rows), length-remove_at old w.rows l))

  reposition-Shows :
      (refill : Refiller F) (w : Window F) (old : ℕ) (held : LiveRow F) (ch : Change F)
      → old < length w.rows
      → (w.n ≤ old → w.n ≤ insert_pos w.q.sort (remove_at old w.rows) (row_from_change w ch).cursor)
      → IsSound w
      → Shows w (reposition refill w old held ch)
  unfolding reposition
  reposition-Shows refill w old held ch l stays h =
      let r = row_from_change w ch in
      elim (Bool-cases (is_same (compare_cursors held.cursor r.cursor w.q.sort))) [
        | inl kept ↦ rw kept (update_in_place-Shows w old r (field_changes w held.vals r))
        | inr gone ↦ rw gone (reinsert-Shows refill w old r (field_changes w held.vals r) l stays h)
      ]

  apply_at-Shows :
      (refill : Refiller F) (w : Window F) (o : Option ℕ) (b : Bool) (ch : Change F)
      → index_of ch.agg_id w.rows ≡ o
      → StaysHidden w ch
      → IsSound w
      → Shows w (apply_at refill w o b ch)
  unfolding apply_at
  apply_at-Shows refill w none false ch e stays h = refl
  apply_at-Shows refill w none true ch e stays h = insert_row-Shows refill w ch h
  apply_at-Shows refill w (some i) false ch e stays h =
      remove_row-Shows refill w i (index_of-lt ch.agg_id w.rows e) h
  apply_at-Shows refill w (some i) true ch e stays h = elim (Option-cases (get_elem? w.rows i)) [
    | inl n ↦ rw n
    | inr (held, g) ↦
        rw g (reposition-Shows refill w i held ch (index_of-lt ch.agg_id w.rows e) (stays i e) h)
  ]

  -- A client that holds the visible rows and folds the deltas of `Apply` over them, in order, holds
  -- the visible rows of the new window: in a window that is exhausted or keeps a row behind the
  -- visible ones, for any change but one that moves a row of the cushion up into view, and whatever
  -- the refill port answers.
  pub replay-apply :
      (refill : Refiller F) (w : Window F) (ch : Change F)
      → IsSound w
      → StaysHidden w ch
      → replay (screen w) (apply refill w ch).1 ≡ screen (apply refill w ch).0
  unfolding apply
  replay-apply refill w ch h stays =
      apply_at-Shows refill w (index_of ch.agg_id w.rows)
        (not ch.deleted && eval w.pred (columns ch.vals)) ch refl stays h

  -- A row that moves from the cushion up into the visible window is entered, and no row leaves: a
  -- client that folds the deltas then holds N + 1 rows, while the visible window has N.
  pub reposition_misses_leave :
      (refill : Refiller F) (w : Window F) (old : ℕ) (held : LiveRow F) (ch : Change F)
      → w.n ≤ old
      → old < length w.rows
      → is_same (compare_cursors held.cursor (row_from_change w ch).cursor w.q.sort) ≡ false
      → insert_pos w.q.sort (remove_at old w.rows) (row_from_change w ch).cursor < w.n
      → (length (replay (screen w) (reposition refill w old held ch).1) ≡ w.n + 1)
        × (length (screen (reposition refill w old held ch).0) ≡ w.n)
  unfolding reposition reinsert
  reposition_misses_leave refill w old held ch hidden l differ up =
      let r = row_from_change w ch in
      let out = remove_at old w.rows in
      let pos = insert_pos w.q.sort out r.cursor in
      let was : ltb old w.n ≡ false = ground arith in
      let is : ltb pos w.n ≡ true = ground arith in
      let n_rows : length (insert_at pos r out) ≡ length w.rows =
        omega (arith, length-insert_at pos r out, length-remove_at old w.rows l) in
      rw differ (
        rw was (
          rw is (
            omega (
              arith,
              length-insert_at pos (shown r) (screen w),
              length-take w.n (map shown w.rows),
              length-map shown w.rows,
            ),
            rw
                (screen-trimmed refill (record w { rows = insert_at pos r out })
                  (inr (omega (arith, n_rows))))
                (omega (
                  arith,
                  length-take w.n (map shown (insert_at pos r out)),
                  length-map shown (insert_at pos r out),
                  n_rows,
                )),
          )))
