-- ===== src/Command/Stamp.antt =====
-- core/command/validate.go: the structural columns of `stampedValues`.
use fabriq.Prelude.{
  ℕ, ◌≡◌, refl, Bool, true, false, not, ◌&&◌, ◌||◌, [], Option, none, some, GoString, beq, lookup,
  lookup-insert, arith, if◌then◌else◌, inl, inr, Bool-cases,
}
use fabriq.Query.Value.{Value, text, int64, pos, Row}
use fabriq.Command.Prepare.{
  Prepared, stamped_values, stamped_row, row_or_empty, is_delete, column_id, column_tenant,
  column_version, column_scope,
}

-- `vals` carries the identity of `p` at `version`; the scope too, when `p` has one and the entity a
-- column for it.
abbrev pub IsStamped : {F P : Type 0} → Prepared F P → ℕ → Row F → Type 0
IsStamped p version vals =
    (lookup column_id vals ≡ some (text p.agg_id))
    × (lookup column_tenant vals ≡ some (text p.tenant_id))
    × (lookup column_version vals ≡ some (int64 (pos version)))
    × (not (beq p.scope_id []) && p.entity.has_column column_scope ≡ true
        → lookup column_scope vals ≡ some (text p.scope_id))

abbrev pub structural : GoString → Bool
structural c = beq column_id c || beq column_tenant c || beq column_version c || beq column_scope c

module _ {F P : Type 0} (p : Prepared F P) (version : ℕ) (vals : Row F) where
  abbrev identified : GoString → Option (Value F) → Option (Value F)
  identified c other =
      if beq column_version c
      then some (int64 (pos version))
      else if beq column_tenant c
      then some (text p.tenant_id)
      else if beq column_id c
      then some (text p.agg_id)
      else other

  abbrev scoped : Bool
  scoped = not (beq p.scope_id []) && p.entity.has_column column_scope

  lookup-stamped_row :
      (c : GoString)
      → lookup c (stamped_row p version vals) ≡ (
          if scoped
          then (if beq column_scope c then some (text p.scope_id) else identified c (lookup c vals))
          else identified c (lookup c vals))
  lookup-stamped_row c = elim (Bool-cases scoped) [
    | inl s ↦ rw (s, lookup-insert, lookup-insert, lookup-insert, lookup-insert) refl
    | inr s ↦ rw (s, lookup-insert, lookup-insert, lookup-insert) refl
  ]

  stamped_row-IsStamped : IsStamped p version (stamped_row p version vals)
  unfolding beq
  stamped_row-IsStamped = (
    ground (arith, lookup-stamped_row column_id),
    ground (arith, lookup-stamped_row column_tenant),
    ground (arith, lookup-stamped_row column_version),
    λ s. ground (arith, lookup-stamped_row column_scope),
  )

  stamped_row-other :
      (c : GoString) → structural c ≡ false → lookup c (stamped_row p version vals) ≡ lookup c vals
  stamped_row-other c h = rw lookup-stamped_row (ground arith)

  stamped_row-unscoped :
      not (beq p.scope_id []) && p.entity.has_column column_scope ≡ false
      → lookup column_scope (stamped_row p version vals) ≡ lookup column_scope vals
  unfolding beq
  stamped_row-unscoped h = ground (arith, lookup-stamped_row column_scope, h)

module _ {F P : Type 0} (p : Prepared F P) (version : ℕ) where
  -- A write that is no delete carries the executor's id, tenant and version whatever the payload held
  -- there, and the payload's value in every column that is not one of the executor's; in the scope column it
  -- carries the executor's scope if there is one and the entity has that column, else what the payload
  -- held. A delete carries no row.
  pub stamped_values-IsStamped :
      (is_delete p.cmd.op ≡ true → stamped_values p version ≡ none)
      × (is_delete p.cmd.op ≡ false
          → (vals : Row F) × (stamped_values p version ≡ some vals)
            × IsStamped p version vals
            × ((c : GoString)
                → structural c ≡ false
                → lookup c vals ≡ lookup c (row_or_empty p.vals))
            × (not (beq p.scope_id []) && p.entity.has_column column_scope ≡ false
                → lookup column_scope vals ≡ lookup column_scope (row_or_empty p.vals)))
  unfolding stamped_values
  stamped_values-IsStamped = (
    λ h. rw h refl,
    λ h. (
      stamped_row p version (row_or_empty p.vals),
      rw h refl,
      stamped_row-IsStamped p version (row_or_empty p.vals),
      stamped_row-other p version (row_or_empty p.vals),
      stamped_row-unscoped p version (row_or_empty p.vals),
    ),
  )
