-- ===== src/Subscribe/Hub/Joins.antt =====
-- core/subscribe/hub.go: what a subscription and a cancel do to a subscriber of a raw channel.
use mathlib.Core.Path.{subst}
use fabriq.Prelude.{
  ℕ, ◌≡◌, sym, inl, inr, Bool, false, List, [], ◌∷◌, ◌++◌, GoString, arith, Bool-cases,
  Option-cases, beq, lookup, ◌==◌,
}
use fabriq.Query.Value.{ℤ}
use fabriq.Subscribe.Delta.{Delta}
use fabriq.Subscribe.Conflator.{depth}
use fabriq.Subscribe.Hub.{
  Subs, ChannelState, Hub, buffer_size, attach, fresh_channel, same_mode, subscribe, others, named,
  is_empty, left, cancel, subscribers, with_channel,
}
use fabriq.Subscribe.Hub.Run.{after_subscribe}
use fabriq.Subscribe.Hub.Streams.{Has, HasPrefix, Has-HasPrefix, HasPrefix-left, Has-cancelled}
use fabriq.Subscribe.Hub.Live.{
  IsLive, Follows, subscribe-open, IsLive-elsewhere, IsLive-removed, IsLive-here, IsLive-kept,
  Has-not_empty,
}

module _ (channel : GoString) (n : ℕ) where
  attach-elsewhere :
      (str : List Delta) (h : Hub) (name : GoString) (size : ℕ) (cs : ChannelState)
      → beq name channel ≡ false
      → IsLive channel n str h
      → IsLive channel n str (attach h name size cs).0
  attach-elsewhere str h name size cs b l =
      IsLive-kept channel n str (with_channel h name _) h.ended _
        (IsLive-elsewhere channel n str h name _ b l)

  pub subscribe-elsewhere :
      (str : List Delta) (h : Hub) (name : GoString) (size : ℤ) (raw : Bool)
      → beq name channel ≡ false
      → IsLive channel n str h
      → IsLive channel n str (after_subscribe h (subscribe h name size raw))
  subscribe-elsewhere str h name size raw b l =
      rw (subscribe-open h name size raw l.open_hub) (elim (Option-cases (lookup name h.channels)) [
        | inl e ↦ rw e (attach-elsewhere str h name (buffer_size size) (fresh_channel h raw) b l)
        | inr (cs, e) ↦ rw e (elim (Bool-cases (same_mode cs.raw raw)) [
          | inl m ↦ rw m (attach-elsewhere str h name (buffer_size size) cs b l)
          | inr m ↦ rw m l
        ])
      ])

  Has-joined :
      (str : List Delta) (subs more : Subs)
      → Has n str (subscribers subs)
      → Has n str (subscribers (subs ++ more))
  Has-joined str [] more h = elim h [ ]
  Has-joined str ((i, s) ∷ subs) more (inl p) = inl p
  Has-joined str ((i, s) ∷ subs) more (inr h) = inr (Has-joined str subs more h)

  attach-here :
      (str : List Delta) (h : Hub) (size : ℕ) (l : IsLive channel n str h)
      → IsLive channel n str (attach h channel size l.state).0
  attach-here str h size l = IsLive-kept channel n str (with_channel h channel _) h.ended _ (
      IsLive-here channel n str h _ l.open_hub l.in_order l.unbuffered
        (Has-joined str l.state.subs _ l.has))

  pub subscribe-here :
      (str : List Delta) (h : Hub) (size : ℤ) (raw : Bool)
      → IsLive channel n str h
      → IsLive channel n str (after_subscribe h (subscribe h channel size raw))
  subscribe-here str h size raw l =
      rw (subscribe-open h channel size raw l.open_hub, l.there)
        (elim (Bool-cases (same_mode l.state.raw raw)) [
          | inl m ↦ rw m (attach-here str h (buffer_size size) l)
          | inr m ↦ rw m l
        ])

  left-elsewhere :
      (str : List Delta) (h : Hub) (name : GoString) (cs : ChannelState)
      → beq name channel ≡ false
      → IsLive channel n str h
      → IsLive channel n str (left h name cs)
  unfolding depth
  left-elsewhere str h name cs b l = elim (Bool-cases (is_empty cs.subs)) [
    | inl e ↦ rw e (elim (Bool-cases (depth cs.conf == 0)) [
      | inl z ↦ rw z (IsLive-removed channel n str h name b l)
      | inr z ↦ rw z (IsLive-elsewhere channel n str h name _ b l)
    ])
    | inr e ↦ rw e (IsLive-elsewhere channel n str h name _ b l)
  ]

  pub cancel-elsewhere :
      (str : List Delta) (h : Hub) (name : GoString) (id : ℕ)
      → beq name channel ≡ false
      → IsLive channel n str h
      → IsLive channel n str (cancel h name id)
  unfolding cancel
  cancel-elsewhere str h name id b l = elim (Option-cases (lookup name h.channels)) [
    | inl e ↦ rw e l
    | inr (cs, e) ↦ rw e (
        left-elsewhere str (record h { ended = named id cs.subs ++ h.ended }) name
          (record cs { subs = others id cs.subs }) b
          (IsLive-kept channel n str h (named id cs.subs ++ h.ended) h.opened l))
  ]

  pub left-ended :
      (h : Hub) (name : GoString) (cs : ChannelState) → (left h name cs).ended ≡ h.ended
  unfolding depth
  left-ended h name cs = ground arith

  pub cancel-here :
      (str : List Delta) (h : Hub) (id : ℕ)
      → IsLive channel n str h
      → Follows channel n str (cancel h channel id)
  unfolding cancel
  cancel-here str h id l = rw l.there (elim (Has-cancelled n str id l.state.subs l.has) [
    | inl stays ↦ rw (Has-not_empty channel n str (others id l.state.subs) stays) (
        inl (
          IsLive-here channel n str (record h { ended = named id l.state.subs ++ h.ended })
            (record l.state { subs = others id l.state.subs }) l.open_hub l.in_order l.unbuffered
            stays))
    | inr goes ↦ inr (
        subst (HasPrefix n str)
          (sym (
            left-ended (record h { ended = named id l.state.subs ++ h.ended }) channel
              (record l.state { subs = others id l.state.subs })))
          (HasPrefix-left n str (named id l.state.subs) h.ended (Has-HasPrefix n str _ goes)))
  ])
