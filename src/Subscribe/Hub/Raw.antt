-- ===== src/Subscribe/Hub/Raw.antt =====
-- core/subscribe/hub.go: a raw channel delivers complete and in order, or it is closed.
use mathlib.Core.Path.{subst}
use mathlib.Core.List.{append-nil, append_assoc}
use fabriq.Prelude.{
  ℕ, ◌≡◌, sym, inl, inr, ◌&&◌, Bool, true, false, List, [], ◌∷◌, ◌++◌, Option, none, some, GoString,
  arith, Bool-cases, Option-cases, beq, beq_iff, beq_refl, lookup, if◌then◌else◌, ◌==◌,
}
use fabriq.Query.Value.{ℤ}
use fabriq.Subscribe.Delta.{Delta}
use fabriq.Subscribe.Conflator.{offer, drain, depth}
use fabriq.Subscribe.Hub.{
  Subscriber, ChannelState, Hub, subscribe, others, named, is_empty, cancel, deliver_locked,
  deliver_to, offered, publish_in, publish, publish_raw_in, publish_raw, flush_in, after_flush,
  flush, all_subscribers, close, with_channel,
}
use fabriq.Subscribe.Hub.Run.{
  Event, subscribes, cancels, publishes, publishes_raw, flushes, reads, closes, after_subscribe,
  step, run, frames_of, frames,
}
use fabriq.Subscribe.Hub.Streams.{HasPrefix, HasPrefix-append, HasPrefix-right, HasPrefix-receive}
use fabriq.Subscribe.Hub.Live.{IsLive, Follows}
use fabriq.Subscribe.Hub.Joins.{
  subscribe-elsewhere, subscribe-here, cancel-elsewhere, cancel-here, left-ended,
}
use fabriq.Subscribe.Hub.Delivers.{
  publish-here, publish_raw-here, publish-elsewhere, publish_raw-elsewhere, flush-elsewhere,
  flush-here, reads-IsLive, close-HasPrefix,
}

module _ (channel : GoString) (n : ℕ) (str : List Delta) where
  -- What the hub has closed stays closed.
  deliver_to-ended :
      (h : Hub) (name : GoString) (r : ChannelState × List Subscriber)
      → HasPrefix n str h.ended
      → HasPrefix n str (deliver_to h name r).ended
  deliver_to-ended h name (cs, gone) g = HasPrefix-right n str gone h.ended g

  after_flush-ended :
      (h : Hub) (name : GoString) (r : ChannelState × List Subscriber)
      → HasPrefix n str h.ended
      → HasPrefix n str (after_flush h name r).ended
  unfolding depth
  after_flush-ended h name (cs, gone) g =
      elim (Bool-cases (is_empty cs.subs && depth cs.conf == 0)) [
        | inl e ↦ rw e (HasPrefix-right n str gone h.ended g)
        | inr e ↦ rw e (HasPrefix-right n str gone h.ended g)
      ]

  subscribe-ended :
      (h : Hub) (name : GoString) (size : ℤ) (raw : Bool)
      → (after_subscribe h (subscribe h name size raw)).ended ≡ h.ended
  unfolding subscribe
  subscribe-ended h name size raw = ground arith

  cancel-ended :
      (h : Hub) (name : GoString) (id : ℕ)
      → HasPrefix n str h.ended
      → HasPrefix n str (cancel h name id).ended
  unfolding cancel
  cancel-ended h name id g = elim (Option-cases (lookup name h.channels)) [
    | inl e ↦ rw e g
    | inr (cs, e) ↦ rw e (
        subst (HasPrefix n str)
          (sym (
            left-ended channel n (record h { ended = named id cs.subs ++ h.ended }) name
              (record cs { subs = others id cs.subs })))
          (HasPrefix-right n str (named id cs.subs) h.ended g))
  ]

  publish_in-ended :
      (h : Hub) (name : GoString) (d : Delta) (o : Option ChannelState)
      → HasPrefix n str h.ended
      → HasPrefix n str (publish_in h name d o).ended
  publish_in-ended h name d none g = g
  publish_in-ended h name d (some cs) g = by_mode cs.raw
    where
      by_mode :
          (b : Bool)
          → HasPrefix n str
              (if b
                then deliver_to h name (deliver_locked cs (d ∷ []))
                else with_channel h name (offered cs (offer cs.conf d))).ended
      by_mode true = deliver_to-ended h name (deliver_locked cs (d ∷ [])) g
      by_mode false = g

  publish-ended :
      (h : Hub) (name : GoString) (d : Delta)
      → HasPrefix n str h.ended
      → HasPrefix n str (publish h name d).ended
  unfolding publish
  publish-ended h name d g = by_state h.closed
    where
      by_state :
          (b : Bool)
          → HasPrefix n str (if b then h else publish_in h name d (lookup name h.channels)).ended
      by_state true = g
      by_state false = publish_in-ended h name d (lookup name h.channels) g

  publish_raw-ended :
      (h : Hub) (name : GoString) (d : Delta)
      → HasPrefix n str h.ended
      → HasPrefix n str (publish_raw h name d).ended
  unfolding publish_raw
  publish_raw-ended h name d g = by_state h.closed (lookup name h.channels)
    where
      by_state :
          (b : Bool) (o : Option ChannelState)
          → HasPrefix n str (if b then h else publish_raw_in h name d o).ended
      by_state true o = g
      by_state false none = g
      by_state false (some cs) = deliver_to-ended h name (deliver_locked cs (d ∷ [])) g

  flush-ended :
      (h : Hub) (name : GoString) → HasPrefix n str h.ended → HasPrefix n str (flush h name).ended
  unfolding flush
  flush-ended h name g = by_state (lookup name h.channels)
    where
      by_state : (o : Option ChannelState) → HasPrefix n str (flush_in h name o).ended
      by_state none = g
      by_state (some cs) =
          after_flush-ended h name
            (deliver_locked (record cs { armed = false; conf = (drain cs.conf).1 })
              (drain cs.conf).0)
            g

  close-ended : (h : Hub) → HasPrefix n str h.ended → HasPrefix n str (close h).ended
  unfolding close
  close-ended h g = by_state h.closed
    where
      by_state :
          (b : Bool)
          → HasPrefix n str
              (if b then h else record h {
                closed = true;
                ended = all_subscribers h.channels ++ h.ended;
                channels = [];
              }).ended
      by_state true = g
      by_state false = HasPrefix-right n str (all_subscribers h.channels) h.ended g

  step-ended : (h : Hub) (ev : Event) → HasPrefix n str h.ended → HasPrefix n str (step h ev).ended
  unfolding step
  step-ended h (subscribes name size raw) g =
      subst (HasPrefix n str) (sym (subscribe-ended h name size raw)) g
  step-ended h (cancels name id) g = cancel-ended h name id g
  step-ended h (publishes name d) g = publish-ended h name d g
  step-ended h (publishes_raw name d) g = publish_raw-ended h name d g
  step-ended h (flushes name) g = flush-ended h name g
  step-ended h (reads m) g = HasPrefix-receive n str m h.ended g
  step-ended h closes g = close-ended h g

  -- An event of the channel `name`, by whether it is ours.
  at_channel :
      (name : GoString) (P : GoString → Type 0)
      → P channel
      → (beq name channel ≡ false → P name)
      → P name
  at_channel name P ours theirs = elim (Bool-cases (beq name channel)) [
    | inl b ↦ subst P (sym ((beq_iff name channel).0 b)) ours
    | inr b ↦ theirs b
  ]

  quiet : (h : Hub) → Follows channel n str h → Follows channel n (str ++ []) h
  quiet h = subst (λ x. Follows channel n x h) (sym (append-nil str))

  step-Follows_live :
      (h : Hub) (ev : Event)
      → IsLive channel n str h
      → Follows channel n (str ++ frames_of channel ev) (step h ev)
  unfolding step
  step-Follows_live h (subscribes name size raw) l =
      quiet (after_subscribe h (subscribe h name size raw)) (
        at_channel name (λ x. Follows channel n str (after_subscribe h (subscribe h x size raw)))
          (inl (subscribe-here channel n str h size raw l))
          (λ b. inl (subscribe-elsewhere channel n str h name size raw b l)))
  step-Follows_live h (cancels name id) l = quiet (cancel h name id) (
      at_channel name (λ x. Follows channel n str (cancel h x id))
        (cancel-here channel n str h id l)
        (λ b. inl (cancel-elsewhere channel n str h name id b l)))
  step-Follows_live h (publishes name d) l =
      at_channel name
        (λ x. Follows channel n (str ++ frames_of channel (publishes x d)) (publish h x d))
        (rw (beq_refl channel) (publish-here channel n str h d l))
        (λ b. rw b (quiet (publish h name d) (inl (publish-elsewhere channel n str h name d b l))))
  step-Follows_live h (publishes_raw name d) l =
      at_channel name
        (λ x. Follows channel n (str ++ frames_of channel (publishes_raw x d)) (publish_raw h x d))
        (rw (beq_refl channel) (publish_raw-here channel n str h d l))
        (λ b.
          rw b
            (quiet (publish_raw h name d) (inl (publish_raw-elsewhere channel n str h name d b l))))
  step-Follows_live h (flushes name) l = quiet (flush h name) (
      at_channel name (λ x. Follows channel n str (flush h x)) (inl (flush-here channel n str h l))
        (λ b. inl (flush-elsewhere channel n str h name b l)))
  step-Follows_live h (reads m) l =
      quiet (step h (reads m)) (inl (reads-IsLive channel n str h m l))
  step-Follows_live h closes l = quiet (close h) (inr (close-HasPrefix channel n str h l))

step-Follows :
    (channel : GoString) (n : ℕ) (str : List Delta) (h : Hub) (ev : Event)
    → Follows channel n str h
    → Follows channel n (str ++ frames_of channel ev) (step h ev)
step-Follows channel n str h ev (inl l) = step-Follows_live channel n str h ev l
step-Follows channel n str h ev (inr g) = inr (
    HasPrefix-append n str (frames_of channel ev) (step h ev).ended
      (step-ended channel n str h ev g))

-- Whatever else happens to the hub, what went into the Go channel of a raw subscriber is what it
-- held and then every frame that was published on its channel, in order; or the hub has closed the
-- Go channel, and what went into it is a first part of that.
pub run-Follows :
    (channel : GoString) (n : ℕ) (str : List Delta) (h : Hub) (evs : List Event)
    → Follows channel n str h
    → Follows channel n (str ++ frames channel evs) (run h evs)
unfolding run
run-Follows channel n str h [] f = subst (λ x. Follows channel n x h) (sym (append-nil str)) f
run-Follows channel n str h (ev ∷ evs) f =
    subst (λ x. Follows channel n x (run (step h ev) evs))
      (append_assoc str (frames_of channel ev) (frames channel evs))
      (run-Follows channel n (str ++ frames_of channel ev) (step h ev) evs
        (step-Follows channel n str h ev f))
