-- ===== src/Command/Executor.antt =====
-- core/command/executor.go and outbox.go, and the transaction of adapters/postgres/adapter.go: the
-- commands of a batch run in one transaction.
use fabriq.Prelude.{
  ℕ, suc, ◌+◌, List, [], ◌∷◌, Option, none, some, GoString, codes, Result, ok, err, ◌>>=◌, ◌>>◌,
  if◌then◌else◌, ◌==◌,
}
use fabriq.Query.Value.{Row}
use fabriq.Event.Envelope.{Envelope, event_type, verb_created, verb_updated}
use fabriq.Command.Model.{
  Context, from_context, Op, create, update, upsert, verb, Entity, Command, Outcome, CommandError,
  no_tenant, store, hook, at_command, Change, Tx,
}
use fabriq.Command.Prepare.{Prepared, prepare, stamped_values, check_version, with_error}

-- `resolveOp`: the write that an op amounts to at a stored version, and the verb of its event.
unfoldable pub resolve_op : Op → ℕ → Op × GoString
resolve_op upsert current = if current == 0 then (create, verb_created) else (update, verb_updated)
resolve_op op current = (op, verb op)

-- What the surroundings give to one command: the id that a create mints, the id of the event, the
-- clock and the trace parent.
pub record Ambient : Type 0 where
  pub new_id : GoString
  pub event_id : GoString
  pub now : ℕ
  pub traceparent : GoString

pub record Executor (F P S : Type 0) : Type 0 where
  pub reg : GoString → Option (Entity F P)
  pub tx : Tx F S
  pub hooks : List (S → Change → Result CommandError S)
  pub marshal : Row F → Result GoString GoString

abbrev pub marshalled :
    {F : Type 0}
    → (Row F → Result GoString GoString)
    → Option (Row F)
    → Result CommandError GoString
marshalled marshal none = ok (codes "{}")
marshalled marshal (some vals) = with_error store (marshal vals)

-- `newEnvelope`
unfoldable pub new_envelope :
    {F P : Type 0}
    → (Row F → Result GoString GoString)
    → Prepared F P
    → ℕ
    → Option (Row F)
    → GoString
    → Ambient
    → Result CommandError Envelope
unfolding event_type
new_envelope marshal p version vals by amb = do
  payload ← marshalled marshal vals
  ok (record {
    id = amb.event_id;
    tenant_id = p.tenant_id;
    scope_id = p.scope_id;
    aggregate = p.entity.name;
    agg_id = p.agg_id;
    version = version;
    type = event_type p.entity.name by;
    at = amb.now;
    payload_schema_version = 1;
    payload = payload;
    traceparent = amb.traceparent;
  })

abbrev pub hook_error : {S : Type 0} → Result CommandError S → Result CommandError S
hook_error (ok s) = ok s
hook_error (err e) = err (hook e)

-- The lifecycle hooks, in their order; the first error ends the command.
unfoldable pub run_hooks :
    {S : Type 0} → List (S → Change → Result CommandError S) → Change → S → Result CommandError S
run_hooks [] change s = ok s
run_hooks (h ∷ hs) change s = hook_error (h s change) >>= run_hooks hs change

unfoldable pub fence_aggregate :
    {S : Type 0}
    → Option (S → GoString → GoString → Result CommandError S)
    → S
    → GoString
    → GoString
    → Result CommandError S
fence_aggregate none s entity id = ok s
fence_aggregate (some f) s entity id = f s entity id

abbrev pub change_of : GoString → Op → Envelope → Change
change_of entity op env = record { entity = entity; op = op; envelope = env }

pub record Applied (S : Type 0) : Type 0 where
  pub outcome : Outcome
  pub change : Change
  pub state : S

module _ {F P S : Type 0} (x : Executor F P S) (amb : Ambient) (p : Prepared F P) where
  -- `apply` from the resolved op and the stamped row on.
  unfoldable pub write_change :
      S → ℕ → Op × GoString → Option (Row F) → Result CommandError (Applied S)
  write_change s next (op, by) vals = do
    written ← x.tx.apply_change s p.entity.name op p.agg_id next vals
    env ← new_envelope x.marshal p next vals by amb
    staged ← x.tx.append_outbox written env
    done ← run_hooks x.hooks (change_of p.entity.name op env) staged
    ok (record {
      outcome = record { agg_id = p.agg_id; version = next; event_id = env.id };
      change = change_of p.entity.name op env;
      state = done;
    })

  -- `apply`: one prepared command inside the transaction.
  unfoldable pub apply : S → Result CommandError (Applied S)
  apply s = do
    fenced ← fence_aggregate x.tx.fence s p.entity.name p.agg_id
    current ← x.tx.current_version fenced p.entity.name p.agg_id
    check_version p current
    write_change fenced (current + 1) (resolve_op p.cmd.op current) (stamped_values p (current + 1))

pub record Batch (S : Type 0) : Type 0 where
  pub outcomes : List Outcome
  pub changes : List Change
  pub state : S

abbrev pub with_applied : {S : Type 0} → Applied S → Batch S → Batch S
with_applied a b = record {
  outcomes = a.outcome ∷ b.outcomes;
  changes = a.change ∷ b.changes;
  state = b.state;
}

-- What a batch returns, and the changes that the hooks after the commit get.
pub record Report : Type 0 where
  pub outcomes : List Outcome
  pub changes : List Change

-- `errorf` of the loop that prepares: the index of the command and its error.
abbrev pub at_index : {A : Type 0} → ℕ → Result CommandError A → Result CommandError A
at_index i (ok a) = ok a
at_index i (err e) = err (at_command i e)

module _ {F P S : Type 0} (x : Executor F P S) (ambs : ℕ → Ambient) where
  -- The loop before the transaction, from command `i` on.
  unfoldable pub prepare_all :
      Context → ℕ → List (Command P) → Result CommandError (List (Prepared F P))
  prepare_all ctx i [] = ok []
  prepare_all ctx i (cmd ∷ cmds) = do
    p ← at_index i (prepare x.reg ctx (ambs i).new_id cmd)
    ps ← prepare_all ctx (suc i) cmds
    ok (p ∷ ps)

  -- The closure of the transaction, from command `i` on.
  unfoldable pub apply_all : ℕ → List (Prepared F P) → S → Result CommandError (Batch S)
  apply_all i [] s = ok (record { outcomes = []; changes = []; state = s })
  apply_all i (p ∷ ps) s = do
    a ← apply x (ambs i) p s
    b ← apply_all (suc i) ps a.state
    ok (with_applied a b)

  -- The body of `inTenantTx`, up to its commit.
  unfoldable pub run_tx : List (Prepared F P) → S → Result CommandError (Batch S)
  run_tx ps s = do
    begun ← x.tx.begin s
    b ← apply_all 0 ps begun
    done ← x.tx.commit b.state
    ok (record b { state = done })

  -- `Rollback` unless the commit succeeded.
  unfoldable pub in_tenant_tx : Result CommandError (Batch S) → S → Result CommandError Report × S
  in_tenant_tx (ok b) s = (ok (record { outcomes = b.outcomes; changes = b.changes }), b.state)
  in_tenant_tx (err e) s = (err e, s)

  abbrev pub execute :
      Result CommandError (List (Prepared F P)) → S → Result CommandError Report × S
  execute (ok ps) s = in_tenant_tx (run_tx ps s) s
  execute (err e) s = (err e, s)

  abbrev pub exec_some : Context → List (Command P) → S → Result CommandError Report × S
  exec_some ctx [] s = (ok (record { outcomes = []; changes = [] }), s)
  exec_some ctx (cmd ∷ cmds) s = execute (prepare_all ctx 0 (cmd ∷ cmds)) s

  -- `ExecBatch`
  unfoldable pub exec_batch : Context → List (Command P) → S → Result CommandError Report × S
  exec_batch ctx cmds s = elim (from_context ctx) [
    | none ↦ (err no_tenant, s)
    | some tenant ↦ exec_some ctx cmds s
  ]

  abbrev only : Result CommandError Report × S → Option (Result CommandError Outcome) × S
  only (err e, s) = (some (err e), s)
  only (ok r, s) = (first r.outcomes, s)
    where
      first : List Outcome → Option (Result CommandError Outcome)
      first [] = none
      first (o ∷ os) = some (ok o)

  -- `Exec`; `none` would be the panic of `results[0]`.
  unfoldable pub exec : Context → Command P → S → Option (Result CommandError Outcome) × S
  exec ctx cmd s = only (exec_batch ctx (cmd ∷ []) s)
