-- ===== src/Subscribe/Hub/Delivers.antt =====
-- core/subscribe/hub.go: what a delivery, a flush, a read and the close do to a subscriber of a raw
-- channel.
use mathlib.Core.Path.{subst}
use fabriq.Prelude.{
  ℕ, ◌≡◌, refl, ap, sym, inl, inr, ◌&&◌, Bool, false, List, [], ◌∷◌, ◌++◌, some, GoString, arith,
  Bool-cases, Option-cases, beq, Assoc, lookup, if◌then◌else◌, ◌==◌,
}
use fabriq.Subscribe.Delta.{Delta}
use fabriq.Subscribe.Conflator.{Conflator, offer, values, drain, sort, depth}
use fabriq.Subscribe.Hub.{
  Subscriber, ChannelState, Hub, is_empty, send_all, deliver_locked, deliver_to, offered, publish,
  publish_raw, after_flush, flush, all_subscribers, close, with_channel,
}
use fabriq.Subscribe.Hub.Run.{reads, receive_live, receive_in, step}
use fabriq.Subscribe.Hub.Streams.{
  HasPrefix, Has-HasPrefix, HasPrefix-append, HasPrefix-left, Has-send_all, Has-receive,
  Has-all_subscribers,
}
use fabriq.Subscribe.Hub.Live.{
  IsLive, Follows, past_closed, publish-open, publish_raw-open, IsLive-elsewhere, IsLive-removed,
  IsLive-here, IsLive-kept, Has-not_empty,
}

module _ (channel : GoString) (n : ℕ) where
  deliver-Follows :
      (str : List Delta) (h : Hub) (d : Delta) (l : IsLive channel n str h)
      → Follows channel n (str ++ d ∷ []) (deliver_to h channel (deliver_locked l.state (d ∷ [])))
  unfolding deliver_locked
  deliver-Follows str h d l =
      rw (ap (λ (b : Bool). send_all b d l.state.subs) l.in_order)
        (elim (Has-send_all n str d l.state.subs l.has) [
          | inl stays ↦
              inl
                (IsLive-here channel n (str ++ d ∷ []) _ _ l.open_hub l.in_order l.unbuffered stays)
          | inr goes ↦ inr (
              HasPrefix-left n (str ++ d ∷ []) _ h.ended (
                HasPrefix-left n (str ++ d ∷ []) _ []
                  (HasPrefix-append n str (d ∷ []) _ (Has-HasPrefix n str _ goes))))
        ])

  pub publish-here :
      (str : List Delta) (h : Hub) (d : Delta)
      → IsLive channel n str h
      → Follows channel n (str ++ d ∷ []) (publish h channel d)
  publish-here str h d l =
      rw (publish-open h channel d l.open_hub, l.there)
        (subst
          (λ x. Follows channel n (str ++ d ∷ []) (
            if x
            then deliver_to h channel (deliver_locked l.state (d ∷ []))
            else with_channel h channel (offered l.state (offer l.state.conf d))))
          (sym l.in_order) (deliver-Follows str h d l))

  pub publish_raw-here :
      (str : List Delta) (h : Hub) (d : Delta)
      → IsLive channel n str h
      → Follows channel n (str ++ d ∷ []) (publish_raw h channel d)
  publish_raw-here str h d l =
      rw (publish_raw-open h channel d l.open_hub, l.there) (deliver-Follows str h d l)

  deliver-elsewhere :
      (str : List Delta) (h : Hub) (name : GoString) (r : ChannelState × List Subscriber)
      → beq name channel ≡ false
      → IsLive channel n str h
      → IsLive channel n str (deliver_to h name r)
  deliver-elsewhere str h name (cs, gone) b l =
      IsLive-elsewhere channel n str (record h { ended = gone ++ h.ended }) name cs b
        (IsLive-kept channel n str h (gone ++ h.ended) h.opened l)

  pub publish-elsewhere :
      (str : List Delta) (h : Hub) (name : GoString) (d : Delta)
      → beq name channel ≡ false
      → IsLive channel n str h
      → IsLive channel n str (publish h name d)
  publish-elsewhere str h name d b l =
      rw (publish-open h name d l.open_hub) (elim (Option-cases (lookup name h.channels)) [
        | inl e ↦ rw e l
        | inr (cs, e) ↦ rw e (elim (Bool-cases cs.raw) [
          | inl r ↦
              subst
                (λ x. IsLive channel n str (
                  if x
                  then deliver_to h name (deliver_locked cs (d ∷ []))
                  else with_channel h name (offered cs (offer cs.conf d))))
                (sym r) (deliver-elsewhere str h name (deliver_locked cs (d ∷ [])) b l)
          | inr r ↦
              subst
                (λ x. IsLive channel n str (
                  if x
                  then deliver_to h name (deliver_locked cs (d ∷ []))
                  else with_channel h name (offered cs (offer cs.conf d))))
                (sym r) (IsLive-elsewhere channel n str h name (offered cs (offer cs.conf d)) b l)
        ])
      ])

  pub publish_raw-elsewhere :
      (str : List Delta) (h : Hub) (name : GoString) (d : Delta)
      → beq name channel ≡ false
      → IsLive channel n str h
      → IsLive channel n str (publish_raw h name d)
  publish_raw-elsewhere str h name d b l =
      rw (publish_raw-open h name d l.open_hub) (elim (Option-cases (lookup name h.channels)) [
        | inl e ↦ rw e l
        | inr (cs, e) ↦ rw e (deliver-elsewhere str h name (deliver_locked cs (d ∷ [])) b l)
      ])

  after_flush-elsewhere :
      (str : List Delta) (h : Hub) (name : GoString) (r : ChannelState × List Subscriber)
      → beq name channel ≡ false
      → IsLive channel n str h
      → IsLive channel n str (after_flush h name r)
  unfolding depth
  after_flush-elsewhere str h name (cs, gone) b l =
      elim (Bool-cases (is_empty cs.subs && depth cs.conf == 0)) [
        | inl e ↦ rw e (
            IsLive-removed channel n str (record h { ended = gone ++ h.ended }) name b
              (IsLive-kept channel n str h (gone ++ h.ended) h.opened l))
        | inr e ↦ rw e (deliver-elsewhere str h name (cs, gone) b l)
      ]

  pub flush-elsewhere :
      (str : List Delta) (h : Hub) (name : GoString)
      → beq name channel ≡ false
      → IsLive channel n str h
      → IsLive channel n str (flush h name)
  unfolding flush
  flush-elsewhere str h name b l = elim (Option-cases (lookup name h.channels)) [
    | inl e ↦ rw e l
    | inr (cs, e) ↦ rw e (
        after_flush-elsewhere str h name
          (deliver_locked (record cs { armed = false; conf = (drain cs.conf).1 }) (drain cs.conf).0)
          b l)
  ]

  drain-empty : (c : Conflator) → c.pending ≡ [] → (drain c).0 ≡ []
  unfolding drain
  drain-empty c e = ap (λ m. sort (values m)) e

  pub flush-here :
      (str : List Delta) (h : Hub) → IsLive channel n str h → IsLive channel n str (flush h channel)
  unfolding flush drain
  flush-here str h l =
      rw
        (
          l.there,
          drain-empty l.state.conf l.unbuffered,
          Has-not_empty channel n str l.state.subs l.has,
        )
        (IsLive-here channel n str (record h { ended = h.ended })
          (record l.state { armed = false; conf = (drain l.state.conf).1 }) l.open_hub l.in_order
          refl l.has)

  lookup-receive_in :
      (m : ℕ) (cs : ChannelState) (a : Assoc ChannelState)
      → lookup channel a ≡ some cs
      → lookup channel (receive_in m a) ≡ some (record cs { subs = receive_live m cs.subs })
  unfolding lookup
  lookup-receive_in m cs [] e = absurd (ground arith)
  lookup-receive_in m cs ((name, c) ∷ a) e = elim (Bool-cases (beq name channel)) [
    | inl b ↦
        let q : c ≡ cs = ground (arith, e, b) in
        rw b (ap (λ (x : ChannelState). some (record x { subs = receive_live m x.subs })) q)
    | inr b ↦ rw b (lookup-receive_in m cs a (ground (arith, e, b)))
  ]

  pub reads-IsLive :
      (str : List Delta) (h : Hub) (m : ℕ)
      → IsLive channel n str h
      → IsLive channel n str (step h (reads m))
  unfolding step
  reads-IsLive str h m l = record {
    open_hub = l.open_hub;
    state = record l.state { subs = receive_live m l.state.subs };
    there = lookup-receive_in m l.state h.channels l.there;
    in_order = l.in_order;
    unbuffered = l.unbuffered;
    has = Has-receive n str m l.state.subs l.has;
  }

  pub close-HasPrefix :
      (str : List Delta) (h : Hub) → IsLive channel n str h → HasPrefix n str (close h).ended
  unfolding close
  close-HasPrefix str h l =
      subst (λ x. HasPrefix n str x.ended) (sym (past_closed h.closed h _ l.open_hub))
        (HasPrefix-left n str (all_subscribers h.channels) h.ended (
          Has-HasPrefix n str _
            (Has-all_subscribers n str channel l.state h.channels l.there l.has)))
