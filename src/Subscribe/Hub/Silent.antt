-- ===== src/Subscribe/Hub/Silent.antt =====
-- core/subscribe/hub.go: a subscriber that comes while the buffer of the last one waits for its flush.
use fabriq.Prelude.{
  ℕ, suc, ◌≡◌, refl, ◌∙◌, true, false, [], ◌∷◌, some, GoString, arith, beq_refl, lookup,
  lookup-insert, insert, ok, ◌==◌, length,
}
use fabriq.Query.Value.{ℤ}
use fabriq.Subscribe.Conflator.{depth}
use fabriq.Subscribe.Hub.{
  Subscriber, ChannelState, Hub, buffer_size, attach, subscribe, cancel, with_channel,
}
use fabriq.Subscribe.Hub.Live.{subscribe-open}

-- The channel as its only subscriber has it.
abbrev pub only : ChannelState → ℕ → Subscriber → ChannelState
only cs id s = record cs { subs = (id, s) ∷ []; raw = false }

-- The channel after that subscriber has gone: its pump is stopped, its buffer keeps it.
abbrev pub abandoned : ChannelState → ChannelState
abandoned cs = record cs { subs = []; raw = false; pumping = false }

abbrev pub vacated : Hub → GoString → ChannelState → Subscriber → Hub
vacated h channel cs s = record (with_channel h channel (abandoned cs)) { ended = s ∷ h.ended }

module _ (h : Hub) (channel : GoString) (cs : ChannelState) (id k : ℕ) (s : Subscriber) (size : ℤ)
    (open_hub : h.closed ≡ false) (there : lookup channel h.channels ≡ some (only cs id s))
    (buffered : depth cs.conf ≡ suc k) where
  same_id : (id == id) ≡ true
  same_id = ground arith

  not_empty : (depth cs.conf == 0) ≡ false
  not_empty = ground (arith, buffered)

  cancel-only : cancel h channel id ≡ vacated h channel cs s
  unfolding cancel
  cancel-only = rw (there, same_id, not_empty) refl

  joined : ChannelState
  joined = record (abandoned cs) {
    subs =
        (
          cs.next_sub,
          record { address = h.opened; capacity = buffer_size size; queue = []; read = [] },
        )
        ∷ [];
    next_sub = suc cs.next_sub;
  }

  -- If the last subscriber of a conflated channel leaves while deltas wait for their flush, the next
  -- one is alone on a channel whose pump does not run.
  pub subscribe-cancel :
      (h' : Hub) × (n : ℕ) × (st : ChannelState) × (subscribe
          (cancel h channel id)
          channel
          size
          false
        ≡ ok (h', n))
      × (lookup channel h'.channels ≡ some st)
      × (length st.subs ≡ 1)
      × (st.pumping ≡ false)
  unfolding joined
  subscribe-cancel = (
    (attach (vacated h channel cs s) channel (buffer_size size) (abandoned cs)).0,
    cs.next_sub,
    joined,
    rw cancel-only (
        subscribe-open (vacated h channel cs s) channel size false open_hub
        ∙ rw (lookup-insert channel channel (abandoned cs) h.channels, beq_refl channel) refl),
    rw
        (
          lookup-insert channel channel joined (insert channel (abandoned cs) h.channels),
          beq_refl channel,
        )
        refl,
    refl,
    refl,
  )
