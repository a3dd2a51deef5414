-- ===== src/Subscribe/Delta.antt =====
-- core/query/delta.go: what a subscription carries.
use fabriq.Prelude.{ℕ, GoString}
use fabriq.Event.Envelope.{Envelope}

pub record Delta : Type 0 where
  pub stream_id : GoString
  pub channel : GoString
  pub tenant_id : GoString
  pub aggregate : GoString
  pub agg_id : GoString
  pub version : ℕ
  pub type : GoString
  pub at : ℕ
  pub payload : GoString

unfoldable pub delta_from_envelope : GoString → GoString → Envelope → Delta
delta_from_envelope channel stream_id env = record {
  stream_id = stream_id;
  channel = channel;
  tenant_id = env.tenant_id;
  aggregate = env.aggregate;
  agg_id = env.agg_id;
  version = env.version;
  type = env.type;
  at = env.at;
  payload = env.payload;
}
