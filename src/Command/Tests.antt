-- ===== src/Command/Tests.antt =====
-- A store in memory, runs of the executor over it, and the instances of its theorems.
use fabriq.Prelude.{
  not, ◌&&◌, ℕ, ◌≡◌, refl, ap, true, false, List, [], ◌∷◌, ◌++◌, Option, none, some, GoString,
  codes, beq, lookup, insert, arith, Result, ok, err, if◌then◌else◌,
}
use fabriq.Query.Value.{text, Row}
use fabriq.Event.Envelope.{Envelope, event_type}
use fabriq.Command.Model.{
  Context, background, from_context, scope_or_empty, Kind, Op, create, update, upsert, Entity,
  Command, CommandError, version_conflict, foreign_tenant, Tx,
}
use fabriq.Command.Prepare.{
  column_scope, Prepared, prepare, check_version, is_delete, stamped_values, resolve_id,
  payload_values, check_values, check_tenant, validate_required, check_spec, row_or_empty,
}
use fabriq.Command.Executor.{
  Ambient, Executor, Applied, apply, run_hooks, fence_aggregate, resolve_op, write_change,
  new_envelope, exec_batch, prepare_all, apply_all, run_tx, in_tenant_tx,
}
use fabriq.Command.Stamp.{IsStamped, structural, stamped_values-IsStamped}
use fabriq.Command.Admit.{IsPrepared, prepare-IsPrepared}
use fabriq.Command.Batch.{IsStore, same_aggregate, IsApplied, apply-IsApplied}
use fabriq.Command.Atomic.{IsAtomic, exec_batch-IsAtomic}
use fabriq.Command.Concurrency.{Later, expected_version-once}

record Memory : Type 0 where
  log : List Envelope
  versions : GoString → GoString → ℕ

abbrev memory_tx : Tx ℕ Memory
memory_tx = record {
  begin = λ s. ok s;
  current_version = λ s e i. ok (s.versions e i);
  apply_change = λ s e op i v vals. ok (record s {
    versions = λ e' i'.
        if same_aggregate e i e' i' then (if is_delete op then 0 else v) else s.versions e' i';
  });
  append_outbox = λ s env. ok (record s { log = s.log ++ env ∷ [] });
  fence = none;
  commit = λ s. ok s;
}

of_ok : {A : Type 0} {s s' : A} → ◌≡◌ {A = Result CommandError A} (ok s) (ok s') → s' ≡ s
of_ok h = ground arith

unchanged :
    {s s' : Memory}
    → ◌≡◌ {A = Result CommandError Memory} (ok s) (ok s')
    → (s'.log ≡ s.log) × (s'.versions ≡ s.versions)
unchanged h = (ap (λ s. s.log) (of_ok h), ap (λ s. s.versions) (of_ok h))

abbrev memory_store : IsStore memory_tx
unfolding fence_aggregate
memory_store = record {
  outbox = λ s. s.log;
  version = λ s. s.versions;
  begin_keeps = λ h. unchanged h;
  commit_keeps = λ h. unchanged h;
  fence_keeps = λ e i h. unchanged h;
  reads = λ e i h. of_ok h;
  writes = λ e i h. (ap (λ s. s.log) (of_ok h), λ e' i'. ap (λ s. s.versions e' i') (of_ok h));
  appends = λ env h. (ap (λ s. s.log) (of_ok h), ap (λ s. s.versions) (of_ok h));
}

-- A note with a required title and no scope column.
abbrev note : Entity ℕ (Row ℕ)
note = record {
  name = codes "note";
  kind = Kind.aggregate;
  has_column = λ c. false;
  required = codes "title" ∷ [];
  values = λ row. ok row;
  coerce = λ row. ok row;
  no_type_check = false;
  validate = none;
}

abbrev registry : GoString → Option (Entity ℕ (Row ℕ))
registry name = if beq name (codes "note") then some note else none

abbrev executor : Executor ℕ (Row ℕ) Memory
executor = record { reg = registry; tx = memory_tx; hooks = []; marshal = λ row. ok (codes "row") }

abbrev acme : Context
acme = record background { tenant = some (codes "acme") }

abbrev ambient : Ambient
ambient = record { new_id = codes "01"; event_id = codes "e1"; now = 5; traceparent = [] }

abbrev titled : Row ℕ
titled = (codes "title", text (codes "a")) ∷ []

abbrev command : Op → Option ℕ → Option (Row ℕ) → Command (Row ℕ)
command op expected payload = record {
  entity = codes "note";
  op = op;
  agg_id = codes "n1";
  payload = payload;
  expected_version = expected;
  skip_type_check = false;
}

abbrev prepared : Op → Option ℕ → Option (Row ℕ) → Prepared ℕ (Row ℕ)
prepared op expected payload = record {
  cmd = command op expected payload;
  entity = note;
  tenant_id = codes "acme";
  scope_id = [];
  agg_id = codes "n1";
  vals = payload;
}

abbrev start : Memory
start = record { log = []; versions = λ e i. 0 }

prepares :
    prepare registry acme (codes "01") (command create none (some titled))
    ≡ ok (prepared create none (some titled))
unfolding prepare beq resolve_id payload_values check_values check_tenant validate_required
    check_spec lookup from_context scope_or_empty
prepares = refl

forges :
    prepare registry acme
      (codes "01")
      (command create none (some ((codes "tenant_id", text (codes "evil")) ∷ titled)))
    ≡ err (foreign_tenant (codes "evil") (codes "acme"))
unfolding prepare beq resolve_id payload_values check_values check_tenant validate_required
    check_spec lookup from_context scope_or_empty
forges = refl

prepare-IsPrepared_example :
    IsPrepared registry acme
      (codes "01")
      (command create none (some titled))
      (prepared create none (some titled))
prepare-IsPrepared_example =
    prepare-IsPrepared registry acme (codes "01") (command create none (some titled))
      (prepared create none (some titled)) prepares

abbrev forged : Prepared ℕ (Row ℕ)
forged = record (prepared create (some 0) (some ((codes "version", text (codes "9")) ∷ titled))) {
  scope_id = codes "s";
}

stamped_values-IsStamped_example :
    (is_delete forged.cmd.op ≡ true → stamped_values forged 1 ≡ none)
    × (is_delete forged.cmd.op ≡ false
        → (vals : Row ℕ) × (stamped_values forged 1 ≡ some vals)
          × IsStamped forged 1 vals
          × ((c : GoString)
              → structural c ≡ false
              → lookup c vals ≡ lookup c (row_or_empty forged.vals))
          × (not (beq forged.scope_id []) && forged.entity.has_column column_scope ≡ false
              → lookup column_scope vals ≡ lookup column_scope (row_or_empty forged.vals)))
stamped_values-IsStamped_example = stamped_values-IsStamped forged 1

abbrev created : Envelope
unfolding event_type
created = record {
  id = codes "e1";
  tenant_id = codes "acme";
  scope_id = [];
  aggregate = codes "note";
  agg_id = codes "n1";
  version = 1;
  type = codes "note.created";
  at = 5;
  payload_schema_version = 1;
  payload = codes "row";
  traceparent = [];
}

abbrev applied : Applied Memory
applied = record {
  outcome = record { agg_id = codes "n1"; version = 1; event_id = codes "e1" };
  change = record { entity = codes "note"; op = create; envelope = created };
  state = record {
    log = created ∷ [];
    versions = λ e i. if same_aggregate (codes "note") (codes "n1") e i then 1 else 0;
  };
}

applies : apply executor ambient (prepared create (some 0) (some titled)) start ≡ ok applied
unfolding apply fence_aggregate check_version write_change new_envelope run_hooks resolve_op
    stamped_values insert beq event_type
applies = refl

apply-IsApplied_example :
    IsApplied executor memory_store (prepared create (some 0) (some titled)) start applied
apply-IsApplied_example =
    apply-IsApplied executor memory_store tt ambient (prepared create (some 0) (some titled)) start
      applied applies

exec_batch-IsAtomic_example :
    IsAtomic executor memory_store acme
      (λ i. ambient)
      (command create none (some titled) ∷ command update (some 1) (some titled) ∷ [])
      start
      (exec_batch executor
        (λ i. ambient)
        acme
        (command create none (some titled) ∷ command update (some 1) (some titled) ∷ [])
        start)
exec_batch-IsAtomic_example =
    exec_batch-IsAtomic executor memory_store tt acme (λ i. ambient)
      (command create none (some titled) ∷ command update (some 1) (some titled) ∷ []) start

-- The second create of a batch fails, and takes the first one with it.
batch_rolls_back :
    exec_batch executor
      (λ i. ambient)
      acme
      (command create none (some titled) ∷ command create none (some titled) ∷ [])
      start
    ≡ (err (version_conflict (codes "note") (codes "n1") 0 1), start)
unfolding exec_batch prepare_all apply_all run_tx in_tenant_tx prepare beq resolve_id payload_values
    check_values check_tenant validate_required check_spec lookup from_context scope_or_empty apply
    fence_aggregate check_version write_change new_envelope run_hooks resolve_op stamped_values
    insert event_type
batch_rolls_back = refl

expected_version-once_example : ¬ (
    (b : Applied Memory) × (apply executor ambient
        (prepared upsert (some 0) (some titled))
        applied.state
      ≡ ok b))
expected_version-once_example =
    expected_version-once executor memory_store tt ambient ambient
      (prepared create (some 0) (some titled)) (prepared upsert (some 0) (some titled)) 0 start
      applied.state applied refl refl refl (refl, refl) applies Later.now
