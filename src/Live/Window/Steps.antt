-- ===== src/Live/Window/Steps.antt =====
-- core/livequery/window.go: the deltas of each way in which `Apply` changes the rows.
use fabriq.Prelude.{
  ℕ, zero, suc, ◌-◌, ◌≤◌, ◌<◌, ◌≡◌, sym, ◌∙◌, ◌⊎◌, inl, inr, true, false, not, ◌&&◌, List, [], ◌∷◌,
  ◌++◌, map, Option, none, some, arith, Bool-cases, length, length-take, length-insert_at,
  length-remove_at, get_elem?, take, insert_at, remove_at, ltb, leb, if◌then◌else◌,
}
use fabriq.Prelude.Splice.{
  get_elem?_in_range, take-insert_at_full, take-insert_at_short, take-insert_at_beyond,
  take-remove_at_beyond, take-move, take-set, set_beyond, map-insert_at, map-remove_at, map-set,
  length-map, get_elem?-insert_at_before,
}
use fabriq.Query.Value.{Runtime, Row}
use fabriq.Live.Types.{LiveRow, Change, LiveDelta, enter, Refiller}
use fabriq.Live.Window.{
  Window, cap_of, row_from_change, insert_pos, evicted, leave_of, enter_of, delta, moved,
  insert_row, remove_row, update_in_place,
}
use fabriq.Live.Window.Search.{insert_pos-le}
use fabriq.Live.Window.Bounds.{IsSound}
use fabriq.Live.Window.Shown.{
  shown, replay, screen, promote, Covers, screen-maybe_refill, screen-trimmed,
}

module _ {F : Type 0} ⦃rt : Runtime F⦄ where
  -- The deltas of a window step, replayed on what the client saw, give what it should see.
  abbrev pub Shows : Window F → Window F × List (LiveDelta F) → Type 0
  Shows w (w', deltas) = replay (screen w) deltas ≡ screen w'

  pub enter-Shows :
      (w : Window F) (pos : ℕ) (r : LiveRow F)
      → pos ≤ length w.rows
      → replay
          (screen w)
          (if ltb pos w.n then delta enter r none (some pos) ∷ leave_of w.n (evicted w pos) else [])
        ≡ screen (record w { rows = insert_at pos r w.rows })
  enter-Shows w pos r k = rw (map-insert_at shown pos r w.rows) (elim (Bool-cases (ltb pos w.n)) [
    | inl vis ↦ rw vis (elim (Bool-cases (leb w.n (length w.rows))) [
      | inl full ↦ rw full (
          let (ev, e) = get_elem?_in_range w.rows (w.n - 1) (ground arith) in
          rw e (
            take-insert_at_full w.n pos (shown r) (map shown w.rows) (ground arith)
              (ground (arith, length-map shown w.rows))))
      | inr short ↦ rw short (
          take-insert_at_short w.n pos (shown r) (map shown w.rows) (ground arith)
            (ground (arith, length-map shown w.rows)))
    ])
    | inr hidden ↦ rw hidden (
        sym (
          take-insert_at_beyond w.n pos (shown r) (map shown w.rows) (ground arith)
            (omega (arith, length-map shown w.rows))))
  ])

  pub insert_row-Shows :
      (refill : Refiller F) (w : Window F) (ch : Change F)
      → IsSound w
      → Shows w (insert_row refill w ch)
  unfolding insert_row
  insert_row-Shows refill w ch h =
      let r = row_from_change w ch in
      let pos = insert_pos w.q.sort w.rows r.cursor in
      elim (Bool-cases
        (leb (length w.rows) pos && leb (cap_of w) (length w.rows) && not w.complete)) [
          | inl outside ↦ rw outside
          | inr inside ↦ rw inside (
              enter-Shows w pos r (insert_pos-le w.q.sort w.rows r.cursor)
              ∙ sym (
                  screen-trimmed refill (record w { rows = insert_at pos r w.rows })
                    (covered pos r h.spare)))
        ]
    where
      covered :
          (pos : ℕ) (r : LiveRow F)
          → (w.complete ≡ true) ⊎ (w.n < length w.rows)
          → Covers (record w { rows = insert_at pos r w.rows })
      covered pos r (inl c) = inl c
      covered pos r (inr l) = inr (omega (arith, length-insert_at pos r w.rows))

  pub remove_row-Shows :
      (refill : Refiller F) (w : Window F) (i : ℕ)
      → i < length w.rows
      → IsSound w
      → Shows w (remove_row refill w i)
  unfolding remove_row
  remove_row-Shows refill w i l h =
      spliced
      ∙ sym (screen-maybe_refill refill (record w { rows = remove_at i w.rows }) (covered h.spare))
    where
      covered :
          (w.complete ≡ true) ⊎ (w.n < length w.rows)
          → Covers (record w { rows = remove_at i w.rows })
      covered (inl c) = inl c
      covered (inr k) = inr (omega (arith, length-remove_at i w.rows l))

      spliced :
          replay (screen w) (
            if ltb i w.n
            then leave_of i (get_elem? w.rows i)
              ++ enter_of (w.n - 1) (get_elem? (remove_at i w.rows) (w.n - 1))
            else [])
          ≡ take w.n (map shown (remove_at i w.rows))
      spliced = elim (Bool-cases (ltb i w.n)) [
        | inl vis ↦ rw vis (
            let (r, e) = get_elem?_in_range w.rows i l in
            rw e (promote w.n i w.rows (ground arith) l))
        | inr hidden ↦ rw hidden (
            rw (map-remove_at shown i w.rows)
              (sym (take-remove_at_beyond w.n i (map shown w.rows) (ground arith))))
      ]

  pub update_in_place-Shows :
      (w : Window F) (i : ℕ) (r : LiveRow F) (c : Option (Row F))
      → Shows w (update_in_place w i r c)
  unfolding update_in_place
  update_in_place-Shows w i r c = rw (map-set shown w.rows i r) (
      rw (take-set w.n i (shown r) (map shown w.rows)) (elim (Bool-cases (ltb i w.n)) [
        | inl vis ↦ rw vis
        | inr hidden ↦ rw hidden (
            sym (
              set_beyond i (shown r) (take w.n (map shown w.rows))
                (ground (arith, length-take w.n (map shown w.rows)))))
      ]))

  pub moved-Shows :
      (w : Window F) (r : LiveRow F) (old pos : ℕ) (c : Option (Row F))
      → old < length w.rows
      → pos ≤ length (remove_at old w.rows)
      → (w.n ≤ old → w.n ≤ pos)
      → replay (screen w) (moved w r old pos (insert_at pos r (remove_at old w.rows)) c)
        ≡ take w.n (map shown (insert_at pos r (remove_at old w.rows)))
  moved-Shows w r old pos c l k stays = elim (Bool-cases (ltb old w.n)) [
    | inl was ↦ rw was (elim (Bool-cases (ltb pos w.n)) [
      | inl is ↦ rw is (both w.n (ground arith) (ground arith))
      | inr is ↦ rw is (
          rw (get_elem?-insert_at_before pos (w.n - 1) r (remove_at old w.rows) (ground arith) k)
            (promote w.n old w.rows (ground arith) l ∙ sym (outside (ground arith))))
    ])
    | inr was ↦ rw was (
        let hidden : ltb pos w.n ≡ false = ground arith in
        rw hidden (
          sym (
            outside (ground arith)
            ∙ rw (map-remove_at shown old w.rows)
                (take-remove_at_beyond w.n old (map shown w.rows) (ground arith)))))
  ]
    where
      outside :
          w.n ≤ pos
          → take w.n (map shown (insert_at pos r (remove_at old w.rows)))
            ≡ take w.n (map shown (remove_at old w.rows))
      outside h = rw (map-insert_at shown pos r (remove_at old w.rows)) (
          take-insert_at_beyond w.n pos (shown r) (map shown (remove_at old w.rows)) h
            (omega (arith, length-map shown (remove_at old w.rows))))

      both :
          (n : ℕ)
          → old < n
          → pos < n
          → insert_at pos (shown r) (remove_at old (take n (map shown w.rows)))
            ≡ take n (map shown (insert_at pos r (remove_at old w.rows)))
      both zero h g = absurd (omega arith)
      both (suc m) h g = rw (map-insert_at shown pos r (remove_at old w.rows)) (
          rw (map-remove_at shown old w.rows) (
            take-move m old pos (shown r) (map shown w.rows) (omega arith) (omega arith)
              (omega (arith, length-map shown w.rows))))
