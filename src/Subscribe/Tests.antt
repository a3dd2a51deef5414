-- ===== src/Subscribe/Tests.antt =====
-- Deltas that are conflated, raw frames that are read late, and the instances of the theorems.
use fabriq.Prelude.{
  inl, ℕ, ◌≡◌, refl, inl, true, false, List, [], ◌∷◌, ◌++◌, Option, none, some, GoString, codes,
  beq, str_lt, lookup, insert, length, ok,
}
use fabriq.Query.Value.{pos, Row}
use fabriq.Event.Envelope.{Envelope}
use fabriq.Command.Model.{Context, from_context, valid}
use fabriq.Subscribe.Delta.{Delta}
use fabriq.Subscribe.Conflator.{new_conflator, key, offer, drain, before}
use fabriq.Subscribe.Conflator.Latest.{conflate}
use fabriq.Subscribe.Hub.{Subscriber, ChannelState, Hub, subscribe, cancel, publish}
use fabriq.Subscribe.Hub.Run.{publishes, reads, run, frames}
use fabriq.Subscribe.Hub.Live.{IsLive, Follows}
use fabriq.Subscribe.Hub.Raw.{run-Follows}
use fabriq.Subscribe.Hub.Silent.{subscribe-cancel}
use fabriq.Subscribe.Channel.{
  by_id, by_tenant, channel_name, Registry, resolve_channel, channels_for_envelope,
}
use fabriq.Subscribe.Channel.Isolation.{resolve_channel-isolated}

abbrev delta : GoString → GoString → ℕ → Delta
delta stream_id id version = record {
  stream_id = stream_id;
  channel = codes "c";
  tenant_id = codes "t";
  aggregate = codes "note";
  agg_id = id;
  version = version;
  type = codes "note.updated";
  at = 0;
  payload = [];
}

-- The latest first.
abbrev burst : List Delta
burst =
    delta (codes "1-10") (codes "b") 1
    ∷ delta (codes "1-9") (codes "a") 3
    ∷ delta (codes "1-8") (codes "a") 2
    ∷ []

-- Stream entry 1-10 comes after 1-9, but not as a text.
burst_flushed :
    (drain (conflate burst)).0
    ≡ delta (codes "1-10") (codes "b") 1 ∷ delta (codes "1-9") (codes "a") 3 ∷ []
unfolding conflate drain offer key before lookup insert beq str_lt
burst_flushed = refl

abbrev raw_state : ChannelState
raw_state = record {
  subs = (0, record { address = 0; capacity = 1; queue = []; read = [] }) ∷ [];
  next_sub = 1;
  conf = new_conflator;
  armed = false;
  pumping = true;
  raw = true;
}

abbrev raw_hub : Hub
raw_hub = record {
  channels = (codes "doc", raw_state) ∷ [];
  tailed = true;
  closed = false;
  ended = [];
  opened = 1;
}

raw_hub_made :
    subscribe (record raw_hub { channels = []; opened = 0 }) (codes "doc") (pos 1) true
    ≡ ok (raw_hub, 0)
unfolding subscribe lookup insert
raw_hub_made = refl

raw_hub-IsLive : IsLive (codes "doc") 0 [] raw_hub
unfolding lookup beq
raw_hub-IsLive = record {
  open_hub = refl;
  state = raw_state;
  there = refl;
  in_order = refl;
  unbuffered = refl;
  has = inl (refl, refl);
}

abbrev first : Delta
first = delta (codes "1-1") (codes "a") 1

abbrev second : Delta
second = delta (codes "1-2") (codes "a") 2

-- The buffer of one is full at the third frame, so the Go channel is closed.
overflowed :
    (run raw_hub (
      publishes (codes "doc") first
      ∷ reads 0
      ∷ publishes (codes "doc") second
      ∷ publishes (codes "doc") first
      ∷ [])).ended
    ≡ record { address = 0; capacity = 1; queue = second ∷ []; read = first ∷ [] } ∷ []
unfolding run publish lookup insert beq
overflowed = refl

run-Follows_example :
    Follows
      (codes "doc")
      0
      ([]
        ++ frames
            (codes "doc")
            (publishes (codes "doc") first ∷ reads 0 ∷ publishes (codes "doc") second ∷ []))
      (run raw_hub (publishes (codes "doc") first ∷ reads 0 ∷ publishes (codes "doc") second ∷ []))
run-Follows_example =
    run-Follows (codes "doc") 0 [] raw_hub
      (publishes (codes "doc") first ∷ reads 0 ∷ publishes (codes "doc") second ∷ [])
      (inl raw_hub-IsLive)

abbrev reader : Subscriber
reader = record { address = 0; capacity = 64; queue = []; read = [] }

abbrev waiting_state : ChannelState
waiting_state = record raw_state {
  conf = record { pending = (codes "note/a", first) ∷ [] };
  armed = true;
  raw = false;
  subs = (0, reader) ∷ [];
}

abbrev waiting_hub : Hub
waiting_hub = record raw_hub { channels = (codes "c", waiting_state) ∷ [] }

subscribe-cancel_example :
    (h' : Hub) × (n : ℕ) × (st : ChannelState) × (subscribe
        (cancel waiting_hub (codes "c") 0)
        (codes "c")
        (pos 0)
        false
      ≡ ok (h', n))
    × (lookup (codes "c") h'.channels ≡ some st)
    × (length st.subs ≡ 1)
    × (st.pumping ≡ false)
unfolding lookup beq cancel
subscribe-cancel_example =
    subscribe-cancel waiting_hub (codes "c") waiting_state 0 0 reader (pos 0) refl refl refl

abbrev one_entity : Registry
one_entity e = some (by_id ∷ by_tenant ∷ [])

abbrev ctx_t : Context
ctx_t = record { tenant = some (codes "t"); scope = none }

abbrev note_changed : Envelope
note_changed = record {
  id = codes "e1";
  tenant_id = codes "t";
  scope_id = [];
  aggregate = codes "note";
  agg_id = codes "a";
  version = 1;
  type = codes "note.updated";
  at = 0;
  payload_schema_version = 1;
  payload = [];
  traceparent = [];
}

abbrev no_payload : GoString → Option (Row ℕ)
no_payload s = none

resolve_channel-isolated_example : codes "t" ≡ codes "t"
unfolding resolve_channel from_context channels_for_envelope channel_name beq valid
resolve_channel-isolated_example =
    resolve_channel-isolated no_payload one_entity ctx_t
      (record { entity = codes "note"; scope = codes "id"; id = codes "a" }) note_changed
      (codes "t") (codes "changes:t:id:a")
      (codes "changes:t:id:a" ∷ codes "changes:t:tenant:t" ∷ []) refl refl refl refl refl (inl refl)
