-- ===== src/Live/Window/Keyset.antt =====
-- core/livequery/order.go: the keyset order of rows, on the order of values that the SQL side of Match
-- has, and the test of `insertPos` in window.go against it.
use mathlib.Core.Path.{subst}
use fabriq.Prelude.{
  sym, ◌≡◌, ◌↔◌, ◌⊎◌, inl, inr, refl, Bool, true, false, List, [], ◌∷◌, Option, none, some,
  GoString, str_lt, str_lt_asym, last?, arith,
}
use fabriq.Query.Value.{Runtime, Value, null, bool}
use fabriq.Match.Compare.{Sign, same, order, compare}
use fabriq.Match.Sql.{sql_order}
use fabriq.Match.Values.{signed, compare-sql_order}
use fabriq.Live.Types.{SortKey, Cursor, LiveRow}
use fabriq.Live.Order.{
  as_string, first_of_signs, compare_ids, directed, compare_keys, compare_cursors,
}
use fabriq.Live.Window.{is_after, sorts_after}

-- Of whether a value is less than another and whether it is greater: it comes behind it under a sort key,
-- or the key does not tell them apart.
abbrev pub Behind : Bool → Option (Bool × Bool) → Type 0
Behind false (some (false, true)) = Unit
Behind true (some (true, _)) = Unit
Behind _ _ = ⊥

abbrev pub Level : Option (Bool × Bool) → Type 0
Level none = Unit
Level (some (false, false)) = Unit
Level _ = ⊥

-- A first key whose sign is `s`, before the others and the ids.
abbrev with_key : Sign → Sign → Sign → Sign
with_key rest ids s = first_of_signs (first_of_signs s rest) ids

abbrev sign_or_same : Option Sign → Sign
sign_or_same c = elim c [ some s ↦ s | none ↦ same ]

module _ (rest ids : Sign) (R : Type 0) (p : (is_after (first_of_signs rest ids) ≡ true) ↔ R) where
  later : (is_after (first_of_signs rest ids) ≡ true) ↔ (⊥ ⊎ (Unit {0} × R))
  later = (λ e. inr (tt, p.0 e), λ h. elim h [ inl x ↦ absurd x | inr x ↦ p.1 x.1 ])

  neither : {A : Type 0} → ⊥ ⊎ (⊥ × R) → A
  neither h = elim h [ inl x ↦ absurd x | inr x ↦ absurd x.0 ]

  Behind-step :
      (desc : Bool) (o : Option (Bool × Bool))
      → (is_after (with_key rest ids (directed desc (sign_or_same (signed o)))) ≡ true)
        ↔ (Behind desc o ⊎ (Level o × R))
  Behind-step false none = later
  Behind-step true none = later
  Behind-step false (some (false, false)) = later
  Behind-step true (some (false, false)) = later
  Behind-step false (some (false, true)) = (λ e. inl tt, λ h. refl)
  Behind-step true (some (true, g)) = (λ e. inl tt, λ h. refl)
  Behind-step false (some (true, g)) = (λ e. absurd (ground arith), neither)
  Behind-step true (some (false, true)) = (λ e. absurd (ground arith), neither)

compare_ids-after : (a b : GoString) → (is_after (compare_ids a b) ≡ true) ↔ (str_lt b a ≡ true)
compare_ids-after a b = (λ e. ground arith, λ e. ground (arith, str_lt_asym b a e))

module _ {F : Type 0} ⦃rt : Runtime F⦄ where
  -- The order of values as sort keys: that of the SQL side, but that a Boolean tells nothing apart.
  abbrev pub key_order : Value F → Value F → Option (Bool × Bool)
  key_order x (bool b) = none
  key_order x y = sql_order x y

  compare-bool : (x : Value F) (b : Bool) → compare x (bool b) ≡ none
  unfolding compare
  compare-bool null b = refl
  compare-bool _ b = refl

  compare-key_order : (x y : Value F) → compare x y ≡ signed (key_order x y)
  compare-key_order x (bool b) = compare-bool x b
  compare-key_order x y = compare-sql_order x y (λ h. h)

  -- The keyset order, of a row with id `a` against one with id `b`: the first key that tells the two
  -- apart, backwards where it is descending, and past the keys the greater id.
  unfoldable pub KeysBehind :
      GoString → GoString → List SortKey → List (Value F) → List (Value F) → Type 0
  KeysBehind a b (s ∷ ss) (x ∷ xs) (y ∷ ys) =
      Behind s.desc (key_order x y) ⊎ (Level (key_order x y) × KeysBehind a b ss xs ys)
  KeysBehind a b _ xs ys = str_lt b a ≡ true

  -- A row comes behind a cursor; past the rows there is none.
  abbrev pub RowBehind : List SortKey → Cursor F → Option (LiveRow F) → Type 0
  RowBehind sort cur none = Unit
  RowBehind sort cur (some r) =
      KeysBehind (as_string (last? r.cursor.values)) (as_string (last? cur.values)) sort
        r.cursor.values cur.values

  compare_keys-KeysBehind :
      (a b : GoString) (sort : List SortKey) (xs ys : List (Value F))
      → (is_after (first_of_signs (compare_keys sort xs ys) (compare_ids a b)) ≡ true)
        ↔ KeysBehind a b sort xs ys
  unfolding compare_keys KeysBehind order
  compare_keys-KeysBehind a b (s ∷ ss) (x ∷ xs) (y ∷ ys) =
      subst
        (λ c.
          (is_after (
              with_key (compare_keys ss xs ys) (compare_ids a b) (directed s.desc (sign_or_same c)))
            ≡ true)
          ↔ (Behind s.desc (key_order x y) ⊎ (Level (key_order x y) × KeysBehind a b ss xs ys)))
        (sym (compare-key_order x y))
        (Behind-step (compare_keys ss xs ys) (compare_ids a b) (KeysBehind a b ss xs ys)
          (compare_keys-KeysBehind a b ss xs ys) s.desc (key_order x y))
  compare_keys-KeysBehind a b [] xs ys = compare_ids-after a b
  compare_keys-KeysBehind a b (s ∷ ss) [] ys = compare_ids-after a b
  compare_keys-KeysBehind a b (s ∷ ss) (x ∷ xs) [] = compare_ids-after a b

  pub sorts_after-RowBehind :
      (sort : List SortKey) (cur : Cursor F) (o : Option (LiveRow F))
      → (sorts_after sort cur o ≡ true) ↔ RowBehind sort cur o
  unfolding compare_cursors
  sorts_after-RowBehind sort cur none = (λ e. tt, λ e. refl)
  sorts_after-RowBehind sort cur (some r) =
      compare_keys-KeysBehind (as_string (last? r.cursor.values)) (as_string (last? cur.values))
        sort r.cursor.values cur.values
