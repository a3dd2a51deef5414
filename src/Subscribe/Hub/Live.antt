-- ===== src/Subscribe/Hub/Live.antt =====
-- core/subscribe/hub.go: a subscriber of a raw channel, and what leaves it there.
use fabriq.Prelude.{
  ℕ, ◌≡◌, refl, ◌⊎◌, Bool, true, false, List, [], ◌∷◌, some, GoString, beq, beq_refl, lookup,
  lookup-insert, lookup-delete, if◌then◌else◌,
}
use fabriq.Query.Value.{ℤ}
use fabriq.Subscribe.Delta.{Delta}
use fabriq.Subscribe.Hub.{
  Subscriber, Subs, ChannelState, Hub, buffer_size, join, subscribe, is_empty, publish_in, publish,
  publish_raw_in, publish_raw, subscribers, with_channel, without_channel,
}
use fabriq.Subscribe.Hub.Streams.{Has, HasPrefix}

-- The Go channel `n` is subscribed to the raw channel, and `str` went into it.
pub record IsLive (channel : GoString) (n : ℕ) (str : List Delta) (h : Hub) : Type 0 where
  pub open_hub : h.closed ≡ false
  pub state : ChannelState
  pub there : lookup channel h.channels ≡ some state
  pub in_order : state.raw ≡ true
  pub unbuffered : state.conf.pending ≡ []
  pub has : Has n str (subscribers state.subs)

-- It still is, or the hub has closed it after a first part of `str`.
abbrev pub Follows : GoString → ℕ → List Delta → Hub → Type 0
Follows channel n str h = IsLive channel n str h ⊎ HasPrefix n str h.ended

-- An open hub goes past its first test.
pub past_closed : {A : Type 0} (b : Bool) (x y : A) → b ≡ false → (if b then x else y) ≡ y
past_closed b x y e = rw e refl

pub subscribe-open :
    (h : Hub) (name : GoString) (size : ℤ) (raw : Bool)
    → h.closed ≡ false
    → subscribe h name size raw ≡ join h name (buffer_size size) raw (lookup name h.channels)
unfolding subscribe
subscribe-open h name size raw e = past_closed h.closed _ _ e

pub publish-open :
    (h : Hub) (name : GoString) (d : Delta)
    → h.closed ≡ false
    → publish h name d ≡ publish_in h name d (lookup name h.channels)
unfolding publish
publish-open h name d e = past_closed h.closed _ _ e

pub publish_raw-open :
    (h : Hub) (name : GoString) (d : Delta)
    → h.closed ≡ false
    → publish_raw h name d ≡ publish_raw_in h name d (lookup name h.channels)
unfolding publish_raw
publish_raw-open h name d e = past_closed h.closed _ _ e

module _ (channel : GoString) (n : ℕ) where
  -- A hub where only another channel has changed, and some more Go channels may be closed.
  pub IsLive-elsewhere :
      (str : List Delta) (h : Hub) (name : GoString) (cs : ChannelState)
      → beq name channel ≡ false
      → IsLive channel n str h
      → IsLive channel n str (with_channel h name cs)
  IsLive-elsewhere str h name cs b l = record {
    open_hub = l.open_hub;
    state = l.state;
    there = rw (lookup-insert name channel cs h.channels, b) l.there;
    in_order = l.in_order;
    unbuffered = l.unbuffered;
    has = l.has;
  }

  pub IsLive-removed :
      (str : List Delta) (h : Hub) (name : GoString)
      → beq name channel ≡ false
      → IsLive channel n str h
      → IsLive channel n str (without_channel h name)
  IsLive-removed str h name b l = record {
    open_hub = l.open_hub;
    state = l.state;
    there = rw (lookup-delete name channel h.channels, b) l.there;
    in_order = l.in_order;
    unbuffered = l.unbuffered;
    has = l.has;
  }

  -- Our channel with its subscribers replaced.
  pub IsLive-here :
      (str : List Delta) (h : Hub) (cs : ChannelState)
      → h.closed ≡ false
      → cs.raw ≡ true
      → cs.conf.pending ≡ []
      → Has n str (subscribers cs.subs)
      → IsLive channel n str (with_channel h channel cs)
  IsLive-here str h cs o r p has = record {
    open_hub = o;
    state = cs;
    there = rw (lookup-insert channel channel cs h.channels, beq_refl channel) refl;
    in_order = r;
    unbuffered = p;
    has = has;
  }

  pub IsLive-kept :
      (str : List Delta) (h : Hub) (ended : List Subscriber) (opened : ℕ)
      → IsLive channel n str h
      → IsLive channel n str (record h { ended = ended; opened = opened })
  IsLive-kept str h ended opened l = record {
    open_hub = l.open_hub;
    state = l.state;
    there = l.there;
    in_order = l.in_order;
    unbuffered = l.unbuffered;
    has = l.has;
  }

  pub Has-not_empty :
      (str : List Delta) (subs : Subs) → Has n str (subscribers subs) → is_empty subs ≡ false
  Has-not_empty str [] h = elim h [ ]
  Has-not_empty str (s ∷ subs) h = refl
