-- ===== src/Command/Model.antt =====
-- core/command/command.go, hook.go, outbox.go and core/tenant/context.go: commands, the store's
-- unit of work, the envelope of a change and the context that carries tenant and scope.
use fabriq.Prelude.{
  ℕ, Bool, ◌&&◌, ◌||◌, List, [], Option, none, some, GoString, codes, beq, all, length, leb, Result,
  if◌then◌else◌, ◌==◌,
}
use fabriq.Query.Value.{Row}
use fabriq.Event.Envelope.{Envelope, verb_created, verb_updated, verb_deleted}

-- A context: the values stamped under the two private keys.
pub record Context : Type 0 where
  pub tenant : Option GoString
  pub scope : Option GoString

abbrev pub background : Context
background = record { tenant = none; scope = none }

-- A byte of `[a-zA-Z0-9_-]`.
abbrev pub id_byte : ℕ → Bool
id_byte c =
    leb b'a' c && leb c b'z'
    || leb b'A' c && leb c b'Z'
    || leb b'0' c && leb c b'9'
    || c == b'_'
    || c == b'-'

-- `Valid`: the pattern `^[a-zA-Z0-9_-]{1,64}$`.
unfoldable pub valid : GoString → Bool
valid id = leb 1 (length id) && leb (length id) 64 && all id_byte id

unfoldable pub with_tenant : Context → GoString → Option Context
unfolding valid
with_tenant ctx id = if valid id then some (record ctx { tenant = some id }) else none

unfoldable pub with_scope : Context → GoString → Option Context
unfolding valid
with_scope ctx scope = if valid scope then some (record ctx { scope = some scope }) else none

abbrev pub non_empty : Option GoString → Option GoString
non_empty none = none
non_empty (some id) = if beq id [] then none else some id

-- `FromContext` and `Require`; `none` is ErrNoTenant.
unfoldable pub from_context : Context → Option GoString
from_context ctx = non_empty ctx.tenant

unfoldable pub scope_from_context : Context → Option GoString
scope_from_context ctx = non_empty ctx.scope

unfoldable pub scope_or_empty : Context → GoString
unfolding scope_from_context
scope_or_empty ctx = elim (scope_from_context ctx) [ none ↦ [] | some s ↦ s ]

pub data Op : Type 0 where
  create update delete upsert : Op
  unknown : ℕ → Op

-- `Verb`
abbrev pub verb : Op → GoString
verb create = verb_created
verb update = verb_updated
verb delete = verb_deleted
verb upsert = codes "upsert"
verb (unknown n) = codes "unknown"

pub data Kind : Type 0 where
  aggregate document : Kind

-- What the command plane reads of a registry entity. `P` is the type of payloads: `values` is the
-- binding that reads a payload by column, `coerce` is `CoerceRow` and `validate` the optional check
-- of the spec, which fail with an error text.
pub record Entity (F : Type 0) (P : Type 0) : Type 0 where
  pub name : GoString
  pub kind : Kind
  pub has_column : GoString → Bool
  pub required : List GoString
  pub values : P → Result GoString (Row F)
  pub coerce : Row F → Result GoString (Row F)
  pub no_type_check : Bool
  pub validate : Option (Row F → Option GoString)

pub record Command (P : Type 0) : Type 0 where
  pub entity : GoString
  pub op : Op
  pub agg_id : GoString
  pub payload : Option P
  pub expected_version : Option ℕ
  pub skip_type_check : Bool

pub record Outcome : Type 0 where
  pub agg_id : GoString
  pub version : ℕ
  pub event_id : GoString

pub data CommandError : Type 0 where
  no_tenant : CommandError
  unknown_entity not_aggregate : GoString → CommandError
  requires_agg_id requires_payload : Op → CommandError
  unknown_op : ℕ → CommandError
  delete_with_payload : CommandError
  binding coercion validation : GoString → CommandError
  foreign_tenant : GoString → GoString → CommandError
  missing_column empty_column : GoString → GoString → CommandError
  version_conflict : GoString → GoString → ℕ → ℕ → CommandError
  not_found : GoString → GoString → CommandError
  store : GoString → CommandError
  hook : CommandError → CommandError
  at_command : ℕ → CommandError → CommandError

-- `Change`: the entity's name, the resolved op and the event.
pub record Change : Type 0 where
  pub entity : GoString
  pub op : Op
  pub envelope : Envelope

-- The port `Tx` over the states `S` of the store, with the optional fence of `ErasureTx` and the two
-- ends of a transaction. `S` is what the transaction sees; a call returns the state that it leaves.
pub record Tx (F S : Type 0) : Type 0 where
  pub begin : S → Result CommandError S
  pub current_version : S → GoString → GoString → Result CommandError ℕ
  pub apply_change : S → GoString → Op → GoString → ℕ → Option (Row F) → Result CommandError S
  pub append_outbox : S → Envelope → Result CommandError S
  pub fence : Option (S → GoString → GoString → Result CommandError S)
  pub commit : S → Result CommandError S
