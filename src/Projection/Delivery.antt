-- ===== src/Projection/Delivery.antt =====
-- core/projection/engine.go: the calls that `handle` makes and what it returns.
use fabriq.Prelude.{
  ◌≡◌, refl, ◌⊎◌, inl, inr, false, List, [], ◌∷◌, Option, none, some, GoString, Result, ok, err,
  Bool-cases, true,
}
use fabriq.Event.Envelope.{Envelope}
use fabriq.Command.Model.{valid}
use fabriq.Projection.Mutation.{Mutation}
use fabriq.Projection.Applier.{ApplyError, apply_chain}
use fabriq.Projection.Engine.{
  Call, apply_mutations, Engine, Handled, recorded, answered, call, record_applied, apply_targets,
  to_targets, apply, acknowledged, handle_muts, handle_upcast, handle,
}

module _ {F : Type 0} (e : Engine F) where
  -- The calls that a full delivery makes: every target in turn, and the record last.
  abbrev pub delivery : Envelope → List (Mutation F) → List GoString → List (Call F)
  delivery env muts [] = recorded e env ∷ []
  delivery env muts (t ∷ ts) = apply_mutations t muts ∷ delivery env muts ts

  -- The calls made are those of a delivery up to the first that failed.
  pub data Ran : List (Call F) → Handled F → Type 0 where
    nothing_left : Ran [] (record { failure = none; calls = [] })
    stopped :
        {c : Call F} {cs : List (Call F)} (x : GoString)
        → e.answer c ≡ some x
        → Ran (c ∷ cs) (record { failure = some x; calls = c ∷ [] })
    went_on :
        {c : Call F} {cs : List (Call F)} {h : Handled F}
        → e.answer c ≡ none
        → Ran cs h
        → Ran (c ∷ cs) (record { failure = h.failure; calls = c ∷ h.calls })

  Ran-answered :
      (c : Call F) (cs : List (Call F)) (h : Handled F) (o : Option GoString)
      → e.answer c ≡ o
      → Ran cs h
      → Ran (c ∷ cs) (answered e c o h)
  Ran-answered c cs h none n r = Ran.went_on n r
  Ran-answered c cs h (some x) s r = Ran.stopped x s

  Ran-call :
      (c : Call F) (cs : List (Call F)) (h : Handled F) → Ran cs h → Ran (c ∷ cs) (call e c h)
  Ran-call c cs h r = Ran-answered c cs h (e.answer c) refl r

  record_applied-Ran : (env : Envelope) → Ran (delivery env [] []) (record_applied e env)
  unfolding record_applied
  record_applied-Ran env =
      Ran-call (recorded e env) [] (record { failure = none; calls = [] }) Ran.nothing_left

  apply_targets-Ran :
      (env : Envelope) (muts : List (Mutation F)) (ts : List GoString)
      → Ran (delivery env muts ts) (apply_targets e env muts ts)
  unfolding apply_targets
  apply_targets-Ran env muts [] = record_applied-Ran env
  apply_targets-Ran env muts (t ∷ ts) =
      Ran-call (apply_mutations t muts) (delivery env muts ts) (apply_targets e env muts ts)
        (apply_targets-Ran env muts ts)

  -- How an event may end.
  pub data Outcome (env : Envelope) : Handled F → Type 0 where
    -- it can never apply, and is acknowledged with no call
    poison_upcast : (x : GoString) → e.upcast env ≡ err x → Outcome env (acknowledged e)
    poison_payload :
        (up : Envelope) (x : ApplyError)
        → e.upcast env ≡ ok up
        → apply_chain e.applier e.custom e.projection up ≡ err x
        → Outcome env (acknowledged e)
    poison_tenant :
        (up : Envelope)
        → e.upcast env ≡ ok up
        → valid up.tenant_id ≡ false
        → Outcome env (acknowledged e)
    -- the targets are not known now
    no_targets :
        (up : Envelope) (m : Mutation F) (muts : List (Mutation F)) (x : GoString)
        → e.upcast env ≡ ok up
        → valid up.tenant_id ≡ true
        → apply_chain e.applier e.custom e.projection up ≡ ok (m ∷ muts)
        → e.targets_for up.tenant_id ≡ err x
        → Outcome env (record { failure = some x; calls = [] })
    -- with no mutation only the version is recorded
    delivered :
        (up : Envelope) (muts : List (Mutation F)) (ts : List GoString) {h : Handled F}
        → e.upcast env ≡ ok up
        → valid up.tenant_id ≡ true
        → apply_chain e.applier e.custom e.projection up ≡ ok muts
        → (muts ≡ []) × (ts ≡ []) ⊎ (e.targets_for up.tenant_id ≡ ok ts)
        → Ran (delivery up muts ts) h
        → Outcome env h

  module _ (env up : Envelope) (u : e.upcast env ≡ ok up) where
    to_targets-Outcome :
        (m : Mutation F) (muts : List (Mutation F)) (r : Result GoString (List GoString))
        → valid up.tenant_id ≡ true
        → e.targets_for up.tenant_id ≡ r
        → apply_chain e.applier e.custom e.projection up ≡ ok (m ∷ muts)
        → Outcome env (to_targets e up (m ∷ muts) r)
    to_targets-Outcome m muts (err x) v t c = Outcome.no_targets up m muts x u v c t
    to_targets-Outcome m muts (ok ts) v t c =
        Outcome.delivered up (m ∷ muts) ts u v c (inr t) (apply_targets-Ran up (m ∷ muts) ts)

    apply-Outcome :
        (muts : List (Mutation F))
        → valid up.tenant_id ≡ true
        → apply_chain e.applier e.custom e.projection up ≡ ok muts
        → Outcome env (apply e up muts)
    unfolding apply
    apply-Outcome [] v c =
        Outcome.delivered up [] [] u v c (inl (refl, refl)) (record_applied-Ran up)
    apply-Outcome (m ∷ muts) v c = to_targets-Outcome m muts (e.targets_for up.tenant_id) v refl c

    handle_muts-Outcome :
        (r : Result ApplyError (List (Mutation F)))
        → apply_chain e.applier e.custom e.projection up ≡ r
        → Outcome env (handle_muts e up r)
    handle_muts-Outcome (err x) c = Outcome.poison_payload up x u c
    handle_muts-Outcome (ok muts) c = elim (Bool-cases (valid up.tenant_id)) [
      | inl v ↦ rw v (apply-Outcome muts v c)
      | inr n ↦ rw n (Outcome.poison_tenant up u n)
    ]

  -- How the handler of an event ends: it acknowledges with no call an event that can never apply (its
  -- migration fails, an applier refuses it, its tenant id is malformed); else it calls every target in
  -- turn and last the recorder, stops at the first error and returns it. So the version is recorded
  -- only after all targets took the mutations, and the event is acknowledged only then.
  pub handle-Outcome : (env : Envelope) → Outcome env (handle e env)
  unfolding handle
  handle-Outcome env = by_upcast (e.upcast env) refl
    where
      by_upcast :
          (r : Result GoString Envelope) → e.upcast env ≡ r → Outcome env (handle_upcast e r)
      by_upcast (err x) u = Outcome.poison_upcast x u
      by_upcast (ok up) u =
          handle_muts-Outcome env up u (apply_chain e.applier e.custom e.projection up) refl
