-- ===== src/Subscribe/Hub/Run.antt =====
-- core/subscribe/hub.go: any order of the hub's calls and of its clients' reads.
use fabriq.Prelude.{
  ℕ, Bool, List, [], ◌∷◌, ◌++◌, GoString, Assoc, map, beq, ◌==◌, Result, ok, err, if◌then◌else◌,
}
use fabriq.Query.Value.{ℤ}
use fabriq.Subscribe.Delta.{Delta}
use fabriq.Subscribe.Hub.{
  Subscriber, Subs, ChannelState, Hub, HubError, subscribe, cancel, publish, publish_raw, flush,
  close,
}

pub data Event : Type 0 where
  subscribes : GoString → ℤ → Bool → Event
  cancels : GoString → ℕ → Event
  publishes publishes_raw : GoString → Delta → Event
  flushes : GoString → Event
  reads : ℕ → Event
  closes : Event

-- `<-sub`, if something waits there.
abbrev pub take_next : List Delta → Subscriber → Subscriber
take_next [] s = s
take_next (d ∷ ds) s = record s { queue = ds; read = s.read ++ d ∷ [] }

abbrev pub receive : ℕ → Subscriber → Subscriber
receive n s = if s.address == n then take_next s.queue s else s

abbrev pub receive_live : ℕ → Subs → Subs
receive_live n [] = []
receive_live n ((i, s) ∷ subs) = (i, receive n s) ∷ receive_live n subs

abbrev pub receive_in : ℕ → Assoc ChannelState → Assoc ChannelState
receive_in n [] = []
receive_in n ((name, cs) ∷ m) = (name, record cs { subs = receive_live n cs.subs }) ∷ receive_in n m

abbrev pub after_subscribe : Hub → Result HubError (Hub × ℕ) → Hub
after_subscribe h (ok (h', id)) = h'
after_subscribe h (err x) = h

unfoldable pub step : Hub → Event → Hub
step h (subscribes channel buffer raw) = after_subscribe h (subscribe h channel buffer raw)
step h (cancels channel id) = cancel h channel id
step h (publishes channel d) = publish h channel d
step h (publishes_raw channel d) = publish_raw h channel d
step h (flushes channel) = flush h channel
step h (reads n) = record h { channels = receive_in n h.channels; ended = map (receive n) h.ended }
step h closes = close h

unfoldable pub run : Hub → List Event → Hub
unfolding step
run h [] = h
run h (ev ∷ evs) = run (step h ev) evs

-- The deltas that the events publish on a channel.
abbrev pub frames_of : GoString → Event → List Delta
frames_of channel (publishes name d) = if beq name channel then d ∷ [] else []
frames_of channel (publishes_raw name d) = if beq name channel then d ∷ [] else []
frames_of channel _ = []

abbrev pub frames : GoString → List Event → List Delta
frames channel [] = []
frames channel (ev ∷ evs) = frames_of channel ev ++ frames channel evs
