-- ===== src/Query/Filter.antt =====
-- core/query/filter.go: the operators, the condition tree and its validation.
use fabriq.Prelude.{
  Bool, true, false, not, [], ◌∷◌, GoString, beq, Result, ok, err, ◌>>◌, if◌then◌else◌,
}
use fabriq.Query.Value.{Operand, one, many, null}

pub data Op : Type 0 where
  eq ne gt gte lt lte in_set not_in like ilike is_null is_not_null : Op
  unknown : GoString → Op

abbrev pub is_set : Op → Bool
is_set (unknown name) = false
is_set _ = true

abbrev pub needs_value : Op → Bool
needs_value is_null = false
needs_value is_not_null = false
needs_value _ = true

-- `cond column op value or`: with a non-empty `or` it is a group, and the other fields are ignored.
mutual
  pub data Cond (F : Type 0) : Type 0 where
    cond : GoString → Op → Operand F → Conds F → Cond F

  pub data Conds (F : Type 0) : Type 0 where
    end : Conds F
    more : Cond F → Conds F → Conds F

pub data FilterError : Type 0 where
  empty_column : FilterError
  unknown_column : GoString → FilterError
  unknown_operator : Op → FilterError
  needs_slice needs_non_empty_slice missing_value : FilterError

-- The `switch` of `validate` on the operator's value.
unfoldable pub check_operand : {F : Type 0} → Op → Operand F → Result FilterError (Unit {0})
check_operand in_set (one v) = err needs_slice
check_operand in_set (many t []) = err needs_non_empty_slice
check_operand in_set (many t (v ∷ vs)) = ok tt
check_operand not_in (one v) = err needs_slice
check_operand not_in (many t []) = err needs_non_empty_slice
check_operand not_in (many t (v ∷ vs)) = ok tt
check_operand is_null v = ok tt
check_operand is_not_null v = ok tt
check_operand _ (one null) = err missing_value
check_operand _ v = ok tt

-- `Cond.validate` and `ValidateConds`; `has` tells whether the entity has a column.
unfoldable mutual
  pub validate : {F : Type 0} → (GoString → Bool) → Cond F → Result FilterError (Unit {0})
  validate has (cond c op v (more s ss)) = validate_conds has (more s ss)
  validate has (cond c op v end) =
      if beq c []
      then err empty_column
      else if not (has c)
      then err (unknown_column c)
      else if not (is_set op)
      then err (unknown_operator op)
      else check_operand op v

  pub validate_conds : {F : Type 0} → (GoString → Bool) → Conds F → Result FilterError (Unit {0})
  validate_conds has end = ok tt
  validate_conds has (more c cs) = validate has c >> validate_conds has cs
