-- ===== src/Projection/Engine.antt =====
-- core/projection/engine.go: the handler of one consumed event. The calls of the sink and of the
-- recorder are listed in their order; what they answer comes with the engine.
use fabriq.Prelude.{ℕ, List, [], ◌∷◌, Option, none, some, GoString, Result, ok, err, if◌then◌else◌}
use fabriq.Event.Envelope.{Envelope}
use fabriq.Command.Model.{valid}
use fabriq.Projection.Mutation.{Mutation}
use fabriq.Projection.Applier.{ApplyError, CustomApplier, apply_chain}

pub data Call (F : Type 0) : Type 0 where
  apply_mutations : GoString → List (Mutation F) → Call F
  -- tenant, projection, aggregate, id, version
  set_applied : GoString → GoString → GoString → GoString → ℕ → Call F

-- `upcast` is `Upcasters.Apply`, or the identity where the engine has none; `answer` gives the error of
-- a call, if it fails; `targets_for` is `TargetsFor`, or the live target alone.
pub record Engine (F : Type 0) : Type 0 where
  pub projection : GoString
  pub applier : Envelope → Result ApplyError (List (Mutation F))
  pub custom : List (CustomApplier F)
  pub upcast : Envelope → Result GoString Envelope
  pub targets_for : GoString → Result GoString (List GoString)
  pub answer : Call F → Option GoString

-- The error that goes back to the source, `none` to acknowledge, and the calls made.
pub record Handled (F : Type 0) : Type 0 where
  pub failure : Option GoString
  pub calls : List (Call F)

module _ {F : Type 0} (e : Engine F) where
  abbrev pub recorded : Envelope → Call F
  recorded env = set_applied env.tenant_id e.projection env.aggregate env.agg_id env.version

  abbrev pub answered : Call F → Option GoString → Handled F → Handled F
  answered c (some x) next = record { failure = some x; calls = c ∷ [] }
  answered c none next = record { failure = next.failure; calls = c ∷ next.calls }

  abbrev pub call : Call F → Handled F → Handled F
  call c next = answered c (e.answer c) next

  unfoldable pub record_applied : Envelope → Handled F
  record_applied env = call (recorded env) (record { failure = none; calls = [] })

  -- The loop over the targets.
  unfoldable pub apply_targets : Envelope → List (Mutation F) → List GoString → Handled F
  apply_targets env muts [] = record_applied env
  apply_targets env muts (t ∷ ts) = call (apply_mutations t muts) (apply_targets env muts ts)

  abbrev pub to_targets : Envelope → List (Mutation F) → Result GoString (List GoString) → Handled F
  to_targets env muts (err x) = record { failure = some x; calls = [] }
  to_targets env muts (ok ts) = apply_targets env muts ts

  -- `apply`: with no mutation only the version is recorded.
  unfoldable pub apply : Envelope → List (Mutation F) → Handled F
  apply env [] = record_applied env
  apply env (m ∷ muts) = to_targets env (m ∷ muts) (e.targets_for env.tenant_id)

  abbrev pub acknowledged : Handled F
  acknowledged = record { failure = none; calls = [] }

  abbrev pub handle_muts : Envelope → Result ApplyError (List (Mutation F)) → Handled F
  handle_muts env (err x) = acknowledged
  handle_muts env (ok muts) = if valid env.tenant_id then apply env muts else acknowledged

  abbrev pub handle_upcast : Result GoString Envelope → Handled F
  handle_upcast (err x) = acknowledged
  handle_upcast (ok env) = handle_muts env (apply_chain e.applier e.custom e.projection env)

  -- `handle`
  unfoldable pub handle : Envelope → Handled F
  handle env = handle_upcast (e.upcast env)
