-- ===== src/Live/Window/Shown.antt =====
-- core/livequery/window.go: what a client holds of a window, and the splices that trim and refill.
use mathlib.Core.List.{map-append}
use fabriq.Prelude.{
  ℕ, zero, suc, ◌+◌, ◌-◌, ◌≤◌, ◌<◌, ◌≡◌, refl, ◌∙◌, ◌⊎◌, inl, inr, true, ◌||◌, List, [], ◌∷◌, map,
  Option, none, some, GoString, arith, Bool-cases, Option-cases, length, length-take,
  length-remove_at, get_elem?, take, set, take-append_le, take-take_le, insert_at, remove_at, ltb,
  leb, ◌/◌, last?,
}
use fabriq.Prelude.Splice.{
  get_elem?_in_range, take-remove_at_promote, take-remove_at_exhausted, map-take, map-remove_at,
  length-map, get_elem?-map-some,
}
use fabriq.Query.Value.{Runtime}
use fabriq.Live.Types.{LiveRow, Cursor, LiveDelta, DeltaOp, enter, leave, move, update, Refiller}
use fabriq.Live.Window.{Window, cap_of, trim_tail, maybe_refill, enter_of, anchor, refilled}

-- What a client keeps of a row: all that a delta carries.
pub record Shown (F : Type 0) : Type 0 where
  pub agg_id : GoString
  pub version : ℕ
  pub row : GoString
  pub cursor : Cursor F

abbrev pub shown : {F : Type 0} → LiveRow F → Shown F
shown r = record { agg_id = r.agg_id; version = r.version; row = r.raw; cursor = r.cursor }

abbrev pub carried : {F : Type 0} → LiveDelta F → Shown F
carried d = record { agg_id = d.agg_id; version = d.version; row = d.row; cursor = d.cursor }

-- `enter` inserts at the new index, `leave` removes at the old one, `move` does both, `update`
-- overwrites in place.
abbrev pub splice :
    {F : Type 0} → DeltaOp → Option ℕ → Option ℕ → Shown F → List (Shown F) → List (Shown F)
splice enter _ (some j) r rows = insert_at j r rows
splice leave (some i) _ r rows = remove_at i rows
splice move (some i) (some j) r rows = insert_at j r (remove_at i rows)
splice update (some i) _ r rows = set rows i r
splice _ _ _ r rows = rows

abbrev pub replay : {F : Type 0} → List (Shown F) → List (LiveDelta F) → List (Shown F)
replay rows [] = rows
replay rows (d ∷ ds) = replay (splice d.op d.old_index d.new_index (carried d) rows) ds

abbrev pub screen : {F : Type 0} → Window F → List (Shown F)
screen w = take w.n (map shown w.rows)

-- Removing and promoting, as a list lemma.
module _ {F : Type 0} ⦃rt : Runtime F⦄ where
  pub promote :
      (n i : ℕ) (rows : List (LiveRow F))
      → i < n
      → i < length rows
      → replay
          (remove_at i (take n (map shown rows)))
          (enter_of (n - 1) (get_elem? (remove_at i rows) (n - 1)))
        ≡ take n (map shown (remove_at i rows))
  promote zero i rows h l = absurd (omega arith)
  promote (suc m) i rows h l =
      let e : suc m - 1 ≡ m = omega arith in
      rw e (elim (Option-cases (get_elem? (remove_at i rows) m)) [
        | inl e ↦ rw e (
            rw (map-remove_at shown i rows) (
              take-remove_at_exhausted m i (map shown rows) (omega arith)
                (omega (arith, length-map shown rows))
                (omega (arith, length-map shown rows, length-remove_at i rows l, short e))))
        | inr (v, e) ↦ rw e (
            rw (map-remove_at shown i rows) (
              take-remove_at_promote m i (map shown rows) (shown v) (omega arith) (
                rw (← map-remove_at shown i rows)
                  (get_elem?-map-some shown (remove_at i rows) m v e))))
      ])
    where
      short : get_elem? (remove_at i rows) m ≡ none → length (remove_at i rows) ≤ m
      short e = elim (Bool-cases (ltb m (length (remove_at i rows)))) [
        | inl lt ↦
            let (v, g) = get_elem?_in_range (remove_at i rows) m (ground arith) in
            absurd (ground arith)
        | inr ge ↦ ground arith
      ]

  -- Neither trimming nor refilling touches the visible rows of a window that is exhausted or holds N.
  pub screen-trim_tail : (w : Window F) → screen (trim_tail w) ≡ screen w
  unfolding trim_tail
  screen-trim_tail w = elim (Bool-cases (ltb (cap_of w) (length w.rows))) [
    | inl long ↦ rw long (
        rw (map-take shown (cap_of w) w.rows)
          (take-take_le w.n (cap_of w) (map shown w.rows) (omega arith)))
    | inr fits ↦ rw fits
  ]

  abbrev pub Covers : Window F → Type 0
  Covers w = (w.complete ≡ true) ⊎ (w.n ≤ length w.rows)

  pub Covers-trim_tail : (w : Window F) → Covers w → Covers (trim_tail w)
  unfolding trim_tail
  Covers-trim_tail w h = elim (Bool-cases (ltb (cap_of w) (length w.rows))) [
    | inl long ↦ rw long (inr (ground (arith, length-take (cap_of w) w.rows)))
    | inr fits ↦ rw fits h
  ]

  pub screen-maybe_refill :
      (refill : Refiller F) (w : Window F) → Covers w → screen (maybe_refill refill w) ≡ screen w
  unfolding maybe_refill
  screen-maybe_refill refill w h =
      elim (Bool-cases (w.complete || leb (w.n + w.cushion / 2) (length w.rows))) [
        | inl enough ↦ rw enough
        | inr low ↦ rw low (
            fetched (refill w.q (anchor (last? w.rows) w.q.cursor) (cap_of w - length w.rows))
              (ground arith))
      ]
    where
      fetched :
          (o : Option (List (LiveRow F)))
          → w.n ≤ length w.rows
          → screen (refilled w (cap_of w - length w.rows) o) ≡ screen w
      fetched none k = refl
      fetched (some more) k = rw map-append (
          take-append_le w.n (map shown w.rows) (map shown more)
            (omega (arith, length-map shown w.rows)))

  pub screen-trimmed :
      (refill : Refiller F) (w : Window F)
      → Covers w
      → screen (maybe_refill refill (trim_tail w)) ≡ screen w
  screen-trimmed refill w h =
      screen-maybe_refill refill (trim_tail w) (Covers-trim_tail w h) ∙ screen-trim_tail w
