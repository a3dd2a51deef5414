-- ===== src/Catalog/Entry.antt =====
-- core/catalog/catalog.go and the codes of core/fabriqerr/errors.go.
use fabriq.Prelude.{
  ℕ, Bool, true, false, not, ◌&&◌, ◌||◌, [], ◌∷◌, ◌++◌, Option, none, some, GoString, codes, beq,
  Assoc, Result, ok, err, if◌then◌else◌,
}

pub data State : Type 0 where
  pending creating migrating active suspended failed : State
  unknown : GoString → State

abbrev pub is_valid : State → Bool
is_valid (unknown s) = false
is_valid _ = true

pub record Entry : Type 0 where
  pub tenant_id : GoString
  pub cluster_id : GoString
  pub database : GoString
  pub state : State
  pub version : GoString
  pub schema : GoString
  pub updated_at : ℕ
  pub from_replica : Bool

-- `ShardID`
unfoldable pub shard_id : Entry → GoString
shard_id e = e.cluster_id ++ codes "/" ++ e.database

pub data Code : Type 0 where
  not_found already_exists constraint_violation schema_mismatch invalid_input version_conflict :
      Code
  unauthorized permission_denied unavailable timeout serialization not_configured internal : Code

-- An error chain: it carries a structured `*Error` with its code and `Meta.Detail`, or none.
pub data Error : Type 0 where
  structured : Code → Assoc GoString → Error
  plain : GoString → Error

-- `CodeOf`; the empty code is `none`.
abbrev pub code_of : Error → Option Code
code_of (structured c detail) = some c
code_of (plain s) = none

-- `ValidateEntry`; `valid_schema` is `pathctx.ValidSchema`.
unfoldable pub validate_entry : (GoString → Bool) → Entry → Result Error (Unit {0})
validate_entry valid_schema e =
    if beq e.tenant_id [] || beq e.cluster_id [] || beq e.database []
    then err (structured invalid_input [])
    else if not (is_valid e.state)
    then err (structured invalid_input ((codes "state", name e.state) ∷ []))
    else if not (beq e.schema []) && not (valid_schema e.schema)
    then err (structured invalid_input ((codes "schema", e.schema) ∷ []))
    else ok tt
  where
    name : State → GoString
    name (unknown s) = s
    name _ = []
