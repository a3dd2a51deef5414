-- ===== src/Subscribe/Hub.antt =====
-- core/subscribe/hub.go: the fan-out of deltas to the subscribers of a channel. Go channels are the
-- records `Subscriber`; each call of the hub holds its lock, so calls follow one another.

pub mod Run
pub mod Streams
pub mod Live
pub mod Joins
pub mod Delivers
pub mod Silent
pub mod Raw
use fabriq.Prelude.{
  ℕ, zero, suc, ◌+◌, Bool, true, false, not, ◌&&◌, List, [], ◌∷◌, ◌++◌, Option, none, some,
  GoString, Assoc, lookup, insert, delete, length, ltb, ◌==◌, Result, ok, err, if◌then◌else◌,
}
use fabriq.Query.Value.{ℤ, pos, negsuc}
use fabriq.Subscribe.Delta.{Delta}
use fabriq.Subscribe.Conflator.{Conflator, new_conflator, offer, drain, depth}

-- A buffered Go channel: what waits in its buffer and what its client has read, the oldest first.
-- `address` is its address.
pub record Subscriber : Type 0 where
  pub address : ℕ
  pub capacity : ℕ
  pub queue : List Delta
  pub read : List Delta

abbrev pub Subs : Type 0
Subs = List (ℕ × Subscriber)

-- `armed` says that `conf.timer` is set, `pumping` that `pumpCancel` is.
pub record ChannelState : Type 0 where
  pub subs : Subs
  pub next_sub : ℕ
  pub conf : Conflator
  pub armed : Bool
  pub pumping : Bool
  pub raw : Bool

-- `ended` holds the Go channels that the hub has closed, which their clients may still drain, and
-- `opened` counts those that it has made.
pub record Hub : Type 0 where
  pub channels : Assoc ChannelState
  pub tailed : Bool
  pub closed : Bool
  pub ended : List Subscriber
  pub opened : ℕ

pub data HubError : Type 0 where
  hub_closed mixed_modes : HubError

-- `if buffer <= 0 { buffer = 64 }`
abbrev pub buffer_size : ℤ → ℕ
buffer_size (pos (suc n)) = suc n
buffer_size _ = 64

abbrev pub with_channel : Hub → GoString → ChannelState → Hub
with_channel h channel cs = record h { channels = insert channel cs h.channels }

abbrev pub without_channel : Hub → GoString → Hub
without_channel h channel = record h { channels = delete channel h.channels }

abbrev pub attach : Hub → GoString → ℕ → ChannelState → Hub × ℕ
attach h channel size cs = (
  record (with_channel h channel (record cs {
    next_sub = suc cs.next_sub;
    subs =
        cs.subs
        ++ (cs.next_sub, record { address = h.opened; capacity = size; queue = []; read = [] })
          ∷ [];
  })) { opened = suc h.opened },
  cs.next_sub,
)

-- The pump goes on with the first subscriber of a channel that is not there yet.
abbrev pub fresh_channel : Hub → Bool → ChannelState
fresh_channel h raw = record {
  subs = [];
  next_sub = 0;
  conf = new_conflator;
  armed = false;
  pumping = h.tailed;
  raw = raw;
}

abbrev pub same_mode : Bool → Bool → Bool
same_mode true b = b
same_mode false b = not b

abbrev pub join : Hub → GoString → ℕ → Bool → Option ChannelState → Result HubError (Hub × ℕ)
join h channel size raw none = ok (attach h channel size (fresh_channel h raw))
join h channel size raw (some cs) =
    if same_mode cs.raw raw then ok (attach h channel size cs) else err mixed_modes

-- `Subscribe` and `SubscribeRaw`; the number stands for the cancel function.
unfoldable pub subscribe : Hub → GoString → ℤ → Bool → Result HubError (Hub × ℕ)
subscribe h channel buffer raw =
    if h.closed
    then err hub_closed
    else join h channel (buffer_size buffer) raw (lookup channel h.channels)

abbrev pub others : ℕ → Subs → Subs
others id [] = []
others id ((i, s) ∷ subs) = let rest = others id subs in if i == id then rest else (i, s) ∷ rest

abbrev pub named : ℕ → Subs → List Subscriber
named id [] = []
named id ((i, s) ∷ subs) = let rest = named id subs in if i == id then s ∷ rest else rest

abbrev pub is_empty {ℓ} : {A : Type ℓ} → List A → Bool
is_empty [] = true
is_empty (_ ∷ _) = false

-- The last subscriber stops the pump, and the channel goes if its buffer is empty.
abbrev pub left : Hub → GoString → ChannelState → Hub
left h channel cs =
    if is_empty cs.subs
    then if depth cs.conf == 0
      then without_channel h channel
      else with_channel h channel (record cs { pumping = false })
    else with_channel h channel cs

abbrev pub cancel_in : Hub → GoString → ℕ → Option ChannelState → Hub
cancel_in h channel id none = h
cancel_in h channel id (some cs) =
    left (record h { ended = named id cs.subs ++ h.ended }) channel
      (record cs { subs = others id cs.subs })

-- The function that a subscription returns, which `once` and the context run.
unfoldable pub cancel : Hub → GoString → ℕ → Hub
unfolding depth
cancel h channel id = cancel_in h channel id (lookup channel h.channels)

-- `select { case sub <- d: default: ... }` for one subscriber: those that stay, and those closed.
abbrev pub send : Bool → Delta → ℕ × Subscriber → Subs × List Subscriber → Subs × List Subscriber
send raw d (i, s) (kept, gone) =
    if ltb (length s.queue) s.capacity
    then ((i, record s { queue = s.queue ++ d ∷ [] }) ∷ kept, gone)
    else if raw
    then (kept, s ∷ gone)
    else ((i, s) ∷ kept, gone)

unfoldable pub send_all : Bool → Delta → Subs → Subs × List Subscriber
send_all raw d [] = ([], [])
send_all raw d (s ∷ subs) = send raw d s (send_all raw d subs)

-- `deliverLocked`: the channel's state, and the subscribers that were closed.
unfoldable pub deliver_locked : ChannelState → List Delta → ChannelState × List Subscriber
unfolding send_all
deliver_locked cs [] = (cs, [])
deliver_locked cs (d ∷ ds) =
    let (kept, gone) = send_all cs.raw d cs.subs in
    let (cs', more) = deliver_locked (record cs { subs = kept }) ds in (cs', gone ++ more)

abbrev pub deliver_to : Hub → GoString → ChannelState × List Subscriber → Hub
deliver_to h channel (cs, gone) = with_channel (record h { ended = gone ++ h.ended }) channel cs

-- `armed` is set by the first pending delta.
abbrev pub offered : ChannelState → Conflator × Bool → ChannelState
offered cs (conf, arm) = record cs { conf = conf; armed = if arm then true else cs.armed }

abbrev pub publish_in : Hub → GoString → Delta → Option ChannelState → Hub
publish_in h channel d none = h
publish_in h channel d (some cs) =
    if cs.raw
    then deliver_to h channel (deliver_locked cs (d ∷ []))
    else with_channel h channel (offered cs (offer cs.conf d))

unfoldable pub publish : Hub → GoString → Delta → Hub
unfolding deliver_locked offer
publish h channel d = if h.closed then h else publish_in h channel d (lookup channel h.channels)

abbrev pub publish_raw_in : Hub → GoString → Delta → Option ChannelState → Hub
publish_raw_in h channel d none = h
publish_raw_in h channel d (some cs) = deliver_to h channel (deliver_locked cs (d ∷ []))

unfoldable pub publish_raw : Hub → GoString → Delta → Hub
unfolding deliver_locked
publish_raw h channel d =
    if h.closed then h else publish_raw_in h channel d (lookup channel h.channels)

abbrev pub after_flush : Hub → GoString → ChannelState × List Subscriber → Hub
after_flush h channel (cs, gone) =
    if is_empty cs.subs && depth cs.conf == 0
    then without_channel (record h { ended = gone ++ h.ended }) channel
    else with_channel (record h { ended = gone ++ h.ended }) channel cs

abbrev pub flush_in : Hub → GoString → Option ChannelState → Hub
flush_in h channel none = h
flush_in h channel (some cs) =
    let (deltas, conf) = drain cs.conf in
    after_flush h channel (deliver_locked (record cs { armed = false; conf = conf }) deltas)

-- `flush`, which the timer of the channel and `Flush` call.
unfoldable pub flush : Hub → GoString → Hub
unfolding deliver_locked drain depth
flush h channel = flush_in h channel (lookup channel h.channels)

abbrev pub subscribers : Subs → List Subscriber
subscribers [] = []
subscribers ((i, s) ∷ subs) = s ∷ subscribers subs

abbrev pub all_subscribers : Assoc ChannelState → List Subscriber
all_subscribers [] = []
all_subscribers ((name, cs) ∷ m) = subscribers cs.subs ++ all_subscribers m

unfoldable pub close : Hub → Hub
close h =
    if h.closed
    then h
    else record h { closed = true; ended = all_subscribers h.channels ++ h.ended; channels = [] }

unfoldable pub conflation_depth : Assoc ChannelState → ℕ
unfolding depth
conflation_depth [] = 0
conflation_depth ((name, cs) ∷ m) = depth cs.conf + conflation_depth m

-- `Flush` over the names that it collects.
unfoldable pub flush_all : List GoString → Hub → Hub
unfolding flush
flush_all [] h = h
flush_all (name ∷ names) h = flush_all names (flush h name)
