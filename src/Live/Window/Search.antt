-- ===== src/Live/Window/Search.antt =====
-- core/livequery/window.go: `insertPos` and its binary search, in the keyset order of order.go.
use fabriq.Prelude.{
  ℕ, zero, suc, ◌+◌, ◌-◌, ◌/◌, ◌≤◌, ◌<◌, ◌≡◌, inl, inr, Bool, true, false, List, arith, Bool-cases,
  ltb, length, get_elem?,
}
use fabriq.Query.Value.{Runtime}
use fabriq.Live.Types.{SortKey, Cursor, LiveRow}
use fabriq.Live.Window.Keyset.{RowBehind, sorts_after-RowBehind}
use fabriq.Live.Window.{search_loop, sort_search, sorts_after, insert_pos}

-- Once the test holds it holds further on.
abbrev IsMonotone : ℕ → (ℕ → Bool) → Type 0
IsMonotone n f = (a b : ℕ) → a ≤ b → b < n → f a ≡ true → f b ≡ true

abbrev FalseBelow : (ℕ → Bool) → ℕ → Type 0
FalseBelow f i = (k : ℕ) → k < i → f k ≡ false

abbrev TrueFrom : ℕ → (ℕ → Bool) → ℕ → Type 0
TrueFrom n f j = (k : ℕ) → j ≤ k → k < n → f k ≡ true

search_loop_bounds :
    (fuel : ℕ) (f : ℕ → Bool) (i j : ℕ)
    → i ≤ j
    → (i ≤ search_loop fuel f i j) × (search_loop fuel f i j ≤ j)
unfolding search_loop
search_loop_bounds zero f i j h = (omega arith, h)
search_loop_bounds (suc fuel) f i j h = ground (
  arith,
  search_loop_bounds fuel f ((i + j) / 2 + 1) j,
  search_loop_bounds fuel f i ((i + j) / 2),
)

false_of_later :
    (n : ℕ) (f : ℕ → Bool) (h : ℕ) → IsMonotone n f → h < n → f h ≡ false → FalseBelow f (h + 1)
false_of_later n f h mono lt e k l = elim (Bool-cases (f k)) [
  | inl t ↦ absurd (ground (arith, mono k h (omega arith) lt t))
  | inr t ↦ t
]

true_of_earlier : (n : ℕ) (f : ℕ → Bool) (h : ℕ) → IsMonotone n f → f h ≡ true → TrueFrom n f h
true_of_earlier n f h mono e k l lt = mono h k l lt e

search_loop_lem :
    (fuel n : ℕ) (f : ℕ → Bool) (i j : ℕ)
    → IsMonotone n f
    → i ≤ j
    → j ≤ n
    → j - i < fuel
    → FalseBelow f i
    → TrueFrom n f j
    → FalseBelow f (search_loop fuel f i j) × TrueFrom n f (search_loop fuel f i j)
unfolding search_loop
search_loop_lem zero n f i j mono h k l below above = absurd (omega arith)
search_loop_lem (suc fuel) n f i j mono h k l below above = elim (Bool-cases (ltb i j)) [
  | inl more ↦ rw more (elim (Bool-cases (f ((i + j) / 2))) [
    | inl t ↦ rw t (
        search_loop_lem fuel n f i ((i + j) / 2) mono (ground arith) (ground arith) (ground arith)
          below (true_of_earlier n f ((i + j) / 2) mono t))
    | inr t ↦ rw t (
        search_loop_lem fuel n f ((i + j) / 2 + 1) j mono (ground arith) k (ground arith)
          (false_of_later n f ((i + j) / 2) mono (ground arith) t) above)
  ])
  | inr shut ↦ rw shut (below, λ m a b. above m (ground arith) b)
]

sort_search-first :
    (n : ℕ) (f : ℕ → Bool)
    → IsMonotone n f
    → (sort_search n f ≤ n) × FalseBelow f (sort_search n f) × TrueFrom n f (sort_search n f)
unfolding sort_search
sort_search-first n f mono =
    let found =
      search_loop_lem (n + 1) n f 0 n mono (omega arith) (omega arith) (omega arith)
        (λ k l. absurd (omega arith)) (λ k l m. absurd (omega arith)) in
    ((search_loop_bounds (n + 1) f 0 n (omega arith)).1, found.0, found.1)

no_both : {b : Bool} → b ≡ true → b ≡ false → ⊥
no_both e f = ground arith

module _ {F : Type 0} ⦃rt : Runtime F⦄ where
  -- The insert position is a position, whatever the rows.
  pub insert_pos-le :
      (sort : List SortKey) (rows : List (LiveRow F)) (cur : Cursor F)
      → insert_pos sort rows cur ≤ length rows
  unfolding insert_pos
  insert_pos-le sort rows cur =
      (search_loop_bounds (length rows + 1) (λ i. sorts_after sort cur (get_elem? rows i)) 0
        (length rows) (omega arith)).1

  -- Where a row is inserted: in rows among which, once one comes behind the cursor in the keyset order,
  -- all later ones do, `insertPos` is the place before which no row comes behind the cursor and from which
  -- on every row does. The order is by the first sort key that tells the two apart, backwards where it is
  -- descending, then by the ids; values are in the order of the SQL side, but that Booleans are level.
  pub insert_pos-splits :
      (sort : List SortKey) (rows : List (LiveRow F)) (cur : Cursor F)
      → ((a b : ℕ)
          → a ≤ b
          → b < length rows
          → RowBehind sort cur (get_elem? rows a)
          → RowBehind sort cur (get_elem? rows b))
      → (insert_pos sort rows cur ≤ length rows)
        × ((k : ℕ) → k < insert_pos sort rows cur → ¬ RowBehind sort cur (get_elem? rows k))
        × ((k : ℕ)
            → insert_pos sort rows cur ≤ k
            → k < length rows
            → RowBehind sort cur (get_elem? rows k))
  unfolding insert_pos
  insert_pos-splits sort rows cur mono =
      let behind = λ (i : ℕ). sorts_after-RowBehind sort cur (get_elem? rows i) in
      let (le, below, above) =
        sort_search-first (length rows) (λ i. sorts_after sort cur (get_elem? rows i))
          (λ a b l m e. (behind b).1 (mono a b l m ((behind a).0 e))) in
      (le, (λ k l h. no_both ((behind k).1 h) (below k l)), (λ k l m. (behind k).0 (above k l m)))
