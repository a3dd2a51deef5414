-- ===== src/Live/FieldDelta/Fields.antt =====
-- core/livequery/fielddelta.go: the delta of `diffVals`, field by field.
use fabriq.Prelude.{
  ◌≡◌, ◌≢◌, refl, inl, inr, [], ◌∷◌, Option, none, some, GoString, arith, Bool-cases, Option-cases,
  beq, beq_iff, lookup, insert, lookup-insert, if◌then◌else◌,
}
use fabriq.Query.Value.{Runtime, Value, null, Row}
use fabriq.Match.Compare.{same_value}
use fabriq.Live.FieldDelta.{add_change, unchanged, changed_fields, dropped_fields, diff_vals}

-- `m[k]` of a map that may be nil.
abbrev pub field : {F : Type 0} → GoString → Option (Row F) → Option (Value F)
field k none = none
field k (some m) = lookup k m

-- A Go map has a key once.
abbrev pub IsMap : {F : Type 0} → Row F → Type 0
IsMap [] = Unit
IsMap ((k, v) ∷ m) = (lookup k m ≡ none) × IsMap m

module _ {F : Type 0} ⦃rt : Runtime F⦄ where
  -- What the delta should say of a field, by what the two rows hold there.
  abbrev pub moved : Option (Value F) → Option (Value F) → Option (Value F)
  moved none none = none
  moved (some p) none = some null
  moved none (some n) = some n
  moved (some p) (some n) = if same_value p n then none else some n

  field-add_change :
      (k j : GoString) (v : Value F) (acc : Option (Row F))
      → field k (add_change j v acc) ≡ (if beq j k then some v else field k acc)
  unfolding lookup
  field-add_change k j v none = lookup-insert j k v []
  field-add_change k j v (some m) = lookup-insert j k v m

  abbrev or_kept : Option (Value F) → Option (Value F) → Option (Value F) → Option (Value F)
  or_kept p none kept = kept
  or_kept p (some n) kept = if unchanged p n then kept else some n

  -- One round of the loop over the new row.
  field-kept :
      (k j : GoString) (n : Value F) (prev : Row F) (acc : Option (Row F))
      → field k (if unchanged (lookup j prev) n then acc else add_change j n acc)
        ≡ (if beq j k then or_kept (lookup k prev) (some n) (field k acc) else field k acc)
  field-kept k j n prev acc = elim (Bool-cases (unchanged (lookup j prev) n)) [
    | inl e ↦ ground (arith, beq_iff j k, e)
    | inr e ↦ ground (arith, beq_iff j k, e, field-add_change k j n acc)
  ]

  field-changed_fields :
      (k : GoString) (prev next : Row F) (acc : Option (Row F))
      → IsMap next
      → field k (changed_fields prev next acc)
        ≡ or_kept (lookup k prev) (lookup k next) (field k acc)
  unfolding changed_fields lookup
  field-changed_fields k prev [] acc u = refl
  field-changed_fields k prev ((j, n) ∷ next) acc (a, u) = elim (Bool-cases (beq j k)) [
    | inl e ↦ ground (
      arith,
      beq_iff j k,
      e,
      a,
      field-changed_fields k prev next
          (if unchanged (lookup j prev) n then acc else add_change j n acc) u,
      field-kept k j n prev acc,
    )
    | inr e ↦ ground (
      arith,
      e,
      field-changed_fields k prev next
          (if unchanged (lookup j prev) n then acc else add_change j n acc) u,
      field-kept k j n prev acc,
    )
  ]

  abbrev or_dropped : Option (Value F) → Option (Value F) → Option (Value F) → Option (Value F)
  or_dropped (some n) p kept = kept
  or_dropped none none kept = kept
  or_dropped none (some p) kept = some null

  -- The loop over the old row: a field that the new row holds is left as it is.
  field-drop_round :
      (k j : GoString) (next : Row F) (acc : Option (Row F))
      → field k (elim (lookup j next) [ some v ↦ acc | none ↦ add_change j null acc ])
        ≡ (if beq j k then or_dropped (lookup k next) (some null) (field k acc) else field k acc)
  field-drop_round k j next acc = ground (arith, beq_iff j k, field-add_change k j null acc)

  field-dropped_fields :
      (k : GoString) (next prev : Row F) (acc : Option (Row F))
      → field k (dropped_fields next prev acc)
        ≡ or_dropped (lookup k next) (lookup k prev) (field k acc)
  unfolding dropped_fields lookup
  field-dropped_fields k next [] acc = ground arith
  field-dropped_fields k next ((j, p) ∷ prev) acc = ground (
    arith,
    beq_iff j k,
    field-drop_round k j next acc,
    field-dropped_fields k next prev
        (elim (lookup j next) [ some v ↦ acc | none ↦ add_change j null acc ]),
  )

  add_change-filled :
      (k : GoString) (v : Value F) (acc : Option (Row F)) → add_change k v acc ≢ some []
  unfolding insert
  add_change-filled k v none = ground arith
  add_change-filled k v (some []) = ground arith
  add_change-filled k v (some ((j, w) ∷ m)) = elim (Bool-cases (beq j k)) [
    | inl e ↦ rw e (ground arith)
    | inr e ↦ rw e (ground arith)
  ]

  changed_fields-filled :
      (prev next : Row F) (acc : Option (Row F))
      → acc ≢ some []
      → changed_fields prev next acc ≢ some []
  unfolding changed_fields
  changed_fields-filled prev [] acc h = h
  changed_fields-filled prev ((k, n) ∷ next) acc h =
      elim (Bool-cases (unchanged (lookup k prev) n)) [
        | inl e ↦ rw e (changed_fields-filled prev next acc h)
        | inr e ↦
            rw e (changed_fields-filled prev next (add_change k n acc) (add_change-filled k n acc))
      ]

  dropped_fields-filled :
      (next prev : Row F) (acc : Option (Row F))
      → acc ≢ some []
      → dropped_fields next prev acc ≢ some []
  unfolding dropped_fields
  dropped_fields-filled next [] acc h = h
  dropped_fields-filled next ((k, p) ∷ prev) acc h = elim (Option-cases (lookup k next)) [
    | inl e ↦
        rw e
          (dropped_fields-filled next prev (add_change k null acc) (add_change-filled k null acc))
    | inr (n, e) ↦ rw e (dropped_fields-filled next prev acc h)
  ]

  -- What a client reads off a delta: every field as it moved, and never an empty map.
  abbrev pub IsDelta : Row F → Row F → Option (Row F) → Type 0
  IsDelta prev next d =
      ((k : GoString) → field k d ≡ moved (lookup k prev) (lookup k next)) × (d ≢ some [])

  -- The field delta of two rows, of which the new one has each key once, holds exactly the fields
  -- that moved: a changed or added field with its new value and a dropped one with nil. If no
  -- field moved it is nil, never an empty map.
  pub diff_vals-IsDelta :
      (prev next : Row F) → IsMap next → IsDelta prev next (diff_vals (some prev) (some next))
  unfolding diff_vals
  diff_vals-IsDelta prev next u = (
    λ k. ground (
      arith,
      field-dropped_fields k next prev (changed_fields prev next none),
      field-changed_fields k prev next none u,
    ),
    dropped_fields-filled next prev (changed_fields prev next none)
        (changed_fields-filled prev next none (ground arith)),
  )
