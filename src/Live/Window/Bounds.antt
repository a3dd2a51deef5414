-- ===== src/Live/Window/Bounds.antt =====
-- core/livequery/window.go: the size of a window's buffer.
use fabriq.Prelude.{
  ℕ, ◌+◌, ◌-◌, ◌/◌, ◌≤◌, ◌<◌, ◌≡◌, refl, ◌⊎◌, inl, inr, Bool, true, false, ◌||◌, not, ◌&&◌, List,
  [], ◌∷◌, Option, none, some, arith, Bool-cases, Option-cases, length, length-append, length-take,
  length-remove_at, length-set, get_elem?, insert_at, remove_at, ltb, leb, last?, GoString,
}
use fabriq.Query.Value.{Runtime}
use fabriq.Live.Types.{LiveQuery, LiveRow, Cursor, Change, Refiller, columns}
use fabriq.Match.Predicate.{eval}
use fabriq.Live.Order.{compare_cursors}
use fabriq.Live.Window.{
  Window, cap_of, index_of, row_from_change, insert_pos, trim_tail, anchor, refilled, maybe_refill,
  is_same, insert_row, remove_row, update_in_place, reinsert, reposition, apply_at, apply,
}

-- The contract of the `Refiller` port: it answers, with at most the rows that were asked for.
pub record Serves {F : Type 0} (refill : Refiller F) : Type 0 where
  pub answer :
      (q : LiveQuery F) (c : Cursor F) (need : ℕ)
      → (more : List (LiveRow F)) × (refill q c need ≡ some more)
  pub at_most :
      (q : LiveQuery F) (c : Cursor F) (need : ℕ) (more : List (LiveRow F))
      → refill q c need ≡ some more
      → length more ≤ need

-- The buffer fits, and unless the result is exhausted it holds a row behind the visible ones.
pub record IsSound {F : Type 0} (w : Window F) : Type 0 where
  pub fits : length w.rows ≤ cap_of w
  pub spare : (w.complete ≡ true) ⊎ (w.n < length w.rows)

module _ {F : Type 0} ⦃rt : Runtime F⦄ where
  trim_tail-le : (w : Window F) → length (trim_tail w).rows ≤ cap_of (trim_tail w)
  unfolding trim_tail
  trim_tail-le w = ground (arith, length-take (cap_of w) w.rows)

  refilled-IsSound :
      (w : Window F) (more : List (LiveRow F))
      → 2 ≤ w.cushion
      → length w.rows ≤ cap_of w
      → length more ≤ cap_of w - length w.rows
      → IsSound (refilled w (cap_of w - length w.rows) (some more))
  refilled-IsSound w more c h m = elim (Bool-cases (ltb (length more) (cap_of w - length w.rows))) [
    | inl few ↦ record { fits = omega (arith, length-append w.rows more); spare = inl (rw few) }
    | inr many ↦ record {
      fits = omega (arith, length-append w.rows more);
      spare = inr (ground (arith, length-append w.rows more));
    }
  ]

  -- Whatever the splice left, a refill that answers makes the window sound.
  maybe_refill-IsSound :
      (refill : Refiller F) (w : Window F)
      → Serves refill
      → 2 ≤ w.cushion
      → length w.rows ≤ cap_of w
      → IsSound (maybe_refill refill w)
  unfolding maybe_refill
  maybe_refill-IsSound refill w s c h =
      elim (Bool-cases (w.complete || leb (w.n + w.cushion / 2) (length w.rows))) [
        | inl enough ↦ rw enough (record { fits = h; spare = ground arith })
        | inr low ↦ rw low (
            let cur = anchor (last? w.rows) w.q.cursor in
            let need = cap_of w - length w.rows in
            let (more, e) = s.answer w.q cur need in
            rw e (refilled-IsSound w more c h (s.at_most w.q cur need more e)))
      ]

  trimmed-IsSound :
      (refill : Refiller F) (w : Window F)
      → Serves refill
      → 2 ≤ w.cushion
      → IsSound (maybe_refill refill (trim_tail w))
  trimmed-IsSound refill w s c =
      maybe_refill-IsSound refill (trim_tail w) s (same_cushion w c) (trim_tail-le w)
    where
      same_cushion : (w : Window F) → 2 ≤ w.cushion → 2 ≤ (trim_tail w).cushion
      same_cushion w c = unfold trim_tail in ground arith

  insert_row-IsSound :
      (refill : Refiller F) (w : Window F) (ch : Change F)
      → Serves refill
      → 2 ≤ w.cushion
      → IsSound w
      → IsSound (insert_row refill w ch).0
  unfolding insert_row
  insert_row-IsSound refill w ch s c h =
      let r = row_from_change w ch in
      let pos = insert_pos w.q.sort w.rows r.cursor in
      elim (Bool-cases
        (leb (length w.rows) pos && leb (cap_of w) (length w.rows) && not w.complete)) [
          | inl outside ↦ rw outside h
          | inr inside ↦
              rw inside (trimmed-IsSound refill (record w { rows = insert_at pos r w.rows }) s c)
        ]

  remove_row-IsSound :
      (refill : Refiller F) (w : Window F) (i : ℕ)
      → Serves refill
      → 2 ≤ w.cushion
      → i < length w.rows
      → IsSound w
      → IsSound (remove_row refill w i).0
  unfolding remove_row
  remove_row-IsSound refill w i s c l h =
      maybe_refill-IsSound refill (record w { rows = remove_at i w.rows }) s c
        (omega (arith, length-remove_at i w.rows l, h.fits))

  reposition-IsSound :
      (refill : Refiller F) (w : Window F) (i : ℕ) (held : LiveRow F) (ch : Change F)
      → Serves refill
      → 2 ≤ w.cushion
      → IsSound w
      → IsSound (reposition refill w i held ch).0
  unfolding reposition update_in_place reinsert
  reposition-IsSound refill w i held ch s c h =
      let r = row_from_change w ch in
      let out = remove_at i w.rows in
      elim (Bool-cases (is_same (compare_cursors held.cursor r.cursor w.q.sort))) [
        | inl kept ↦ rw kept (record {
          fits = omega (arith, length-set w.rows i r, h.fits);
          spare = rw (length-set w.rows i r) h.spare;
        })
        | inr moved ↦ rw moved (
            trimmed-IsSound refill
              (record w { rows = insert_at (insert_pos w.q.sort out r.cursor) r out }) s c)
      ]

  pub index_of-lt :
      (id : GoString) (rows : List (LiveRow F)) {i : ℕ}
      → index_of id rows ≡ some i
      → i < length rows
  unfolding index_of
  index_of-lt id [] h = absurd (ground arith)
  index_of-lt id (r ∷ rows) {i} h = elim (Option-cases (index_of id rows)) [
    | inl e ↦ ground (arith, e)
    | inr (j, e) ↦ ground (arith, e, index_of-lt id rows e)
  ]

  apply_at-IsSound :
      (refill : Refiller F) (w : Window F) (o : Option ℕ) (b : Bool) (ch : Change F)
      → index_of ch.agg_id w.rows ≡ o
      → Serves refill
      → 2 ≤ w.cushion
      → IsSound w
      → IsSound (apply_at refill w o b ch).0
  unfolding apply_at
  apply_at-IsSound refill w none false ch e s c h = h
  apply_at-IsSound refill w none true ch e s c h = insert_row-IsSound refill w ch s c h
  apply_at-IsSound refill w (some i) false ch e s c h =
      remove_row-IsSound refill w i s c (index_of-lt ch.agg_id w.rows e) h
  apply_at-IsSound refill w (some i) true ch e s c h = elim (Option-cases (get_elem? w.rows i)) [
    | inl n ↦ rw n h
    | inr (held, g) ↦ rw g (reposition-IsSound refill w i held ch s c h)
  ]

  -- `Apply` keeps the buffer within N + cushion rows and, unless the result is exhausted, at least one
  -- row behind the visible ones, if it did so before, the cushion is at least 2 and the refill port
  -- always answers, never with an error, and with at most the rows asked for.
  pub apply-IsSound :
      (refill : Refiller F) (w : Window F) (ch : Change F)
      → Serves refill
      → 2 ≤ w.cushion
      → IsSound w
      → IsSound (apply refill w ch).0
  unfolding apply
  apply-IsSound refill w ch s c h =
      apply_at-IsSound refill w (index_of ch.agg_id w.rows)
        (not ch.deleted && eval w.pred (columns ch.vals)) ch refl s c h
