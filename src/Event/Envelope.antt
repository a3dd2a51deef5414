-- ===== src/Event/Envelope.antt =====
-- core/event/event.go and core/registry/derive.go: the wire shape of an event and its type string.
use fabriq.Prelude.{ℕ, GoString, codes, ◌++◌}

pub record Envelope : Type 0 where
  pub id : GoString
  pub tenant_id : GoString
  pub scope_id : GoString
  pub aggregate : GoString
  pub agg_id : GoString
  pub version : ℕ
  pub type : GoString
  pub at : ℕ
  pub payload_schema_version : ℕ
  pub payload : GoString
  pub traceparent : GoString

abbrev pub verb_created : GoString
verb_created = codes "created"

abbrev pub verb_updated : GoString
verb_updated = codes "updated"

abbrev pub verb_deleted : GoString
verb_deleted = codes "deleted"

-- `EventType`: "<entity>.<verb>".
unfoldable pub event_type : GoString → GoString → GoString
event_type entity verb = entity ++ codes "." ++ verb
