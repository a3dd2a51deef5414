-- ===== src/Command/Prepare.antt =====
-- core/command/validate.go and version.go: all checks of a command, before and inside the transaction.
use fabriq.Prelude.{
  ℕ, Bool, true, false, not, ◌&&◌, ◌||◌, List, [], ◌∷◌, Option, none, some, GoString, codes, beq,
  lookup, insert, Result, ok, err, ◌>>=◌, ◌>>◌, if◌then◌else◌, ◌==◌,
}
use fabriq.Query.Value.{Value, null, text, int64, pos, Row}
use fabriq.Command.Model.{
  Context, from_context, scope_or_empty, Op, create, update, delete, upsert, unknown, Kind,
  aggregate, document, Entity, Command, CommandError, no_tenant, unknown_entity, not_aggregate,
  requires_agg_id, requires_payload, unknown_op, delete_with_payload, binding, coercion, validation,
  foreign_tenant, missing_column, empty_column, version_conflict, not_found,
}

abbrev pub column_id : GoString
column_id = codes "id"

abbrev pub column_tenant : GoString
column_tenant = codes "tenant_id"

abbrev pub column_version : GoString
column_version = codes "version"

abbrev pub column_scope : GoString
column_scope = codes "scope_id"

pub record Prepared (F P : Type 0) : Type 0 where
  pub cmd : Command P
  pub entity : Entity F P
  pub tenant_id : GoString
  pub scope_id : GoString
  pub agg_id : GoString
  pub vals : Option (Row F)

abbrev pub with_error :
    {A : Type 0} → (GoString → CommandError) → Result GoString A → Result CommandError A
with_error f (ok a) = ok a
with_error f (err e) = err (f e)

-- The `switch` on the op: the aggregate id, minted for a create that has none.
unfoldable pub resolve_id : GoString → Op → GoString → Result CommandError GoString
resolve_id fresh create id = ok (if beq id [] then fresh else id)
resolve_id fresh update id = if beq id [] then err (requires_agg_id update) else ok id
resolve_id fresh delete id = if beq id [] then err (requires_agg_id delete) else ok id
resolve_id fresh upsert id = if beq id [] then err (requires_agg_id upsert) else ok id
resolve_id fresh (unknown n) id = err (unknown_op n)

-- The tenant forgery check.
unfoldable pub check_tenant :
    {F : Type 0} → GoString → Option (Value F) → Result CommandError (Unit {0})
check_tenant tenant (some (text v)) =
    if not (beq v []) && not (beq v tenant) then err (foreign_tenant v tenant) else ok tt
check_tenant tenant _ = ok tt

abbrev pub check_required :
    {F : Type 0} → GoString → GoString → Option (Value F) → Result CommandError (Unit {0})
check_required name col none = err (missing_column name col)
check_required name col (some null) = err (missing_column name col)
check_required name col (some (text s)) = if beq s [] then err (empty_column name col) else ok tt
check_required name col (some v) = ok tt

unfoldable pub validate_required :
    {F : Type 0} → GoString → List GoString → Row F → Result CommandError (Unit {0})
validate_required name [] vals = ok tt
validate_required name (col ∷ cols) vals =
    check_required name col (lookup col vals) >> validate_required name cols vals

unfoldable pub check_spec :
    {F : Type 0} → Option (Row F → Option GoString) → Row F → Result CommandError (Unit {0})
check_spec none vals = ok tt
check_spec (some validate) vals = elim (validate vals) [
  | none ↦ ok tt
  | some e ↦ err (validation e)
]

-- From the reading of the payload on.
unfoldable pub check_values :
    {F P : Type 0} → Entity F P → GoString → Bool → P → Result CommandError (Row F)
unfolding check_tenant validate_required check_spec
check_values ent tenant skip payload = do
  vals ← with_error binding (ent.values payload)
  check_tenant tenant (lookup column_tenant vals)
  validate_required ent.name ent.required vals
  coerced ← if skip || ent.no_type_check then ok vals else with_error coercion (ent.coerce vals)
  check_spec ent.validate coerced
  ok coerced

-- From the `if cmd.Op == OpDelete` on; `none` is the nil row of a delete.
unfoldable pub payload_values :
    {F P : Type 0}
    → Entity F P
    → GoString
    → Bool
    → Op
    → Option P
    → Result CommandError (Option (Row F))
unfolding check_values
payload_values ent tenant skip delete none = ok none
payload_values ent tenant skip delete (some p) = err delete_with_payload
payload_values ent tenant skip op none = err (requires_payload op)
payload_values ent tenant skip op (some p) = do
  vals ← check_values ent tenant skip p
  ok (some vals)

abbrev pub check_kind : Kind → GoString → Result CommandError (Unit {0})
check_kind aggregate name = ok tt
check_kind document name = err (not_aggregate name)

abbrev pub or_error : {A : Type 0} → CommandError → Option A → Result CommandError A
or_error e none = err e
or_error e (some a) = ok a

-- `prepare`; `reg` is the registry and `fresh` the id that a create would mint.
unfoldable pub prepare :
    {F P : Type 0}
    → (GoString → Option (Entity F P))
    → Context
    → GoString
    → Command P
    → Result CommandError (Prepared F P)
unfolding from_context resolve_id payload_values scope_or_empty
prepare reg ctx fresh cmd = do
  tenant ← or_error no_tenant (from_context ctx)
  ent ← or_error (unknown_entity cmd.entity) (reg cmd.entity)
  check_kind ent.kind cmd.entity
  id ← resolve_id fresh cmd.op cmd.agg_id
  vals ← payload_values ent tenant cmd.skip_type_check cmd.op cmd.payload
  ok (record {
    cmd = cmd;
    entity = ent;
    tenant_id = tenant;
    scope_id = scope_or_empty ctx;
    agg_id = id;
    vals = vals;
  })

abbrev pub stamped_row : {F P : Type 0} → Prepared F P → ℕ → Row F → Row F
stamped_row p version vals =
    let out =
      insert column_version (int64 (pos version))
        (insert column_tenant (text p.tenant_id) (insert column_id (text p.agg_id) vals)) in
    if not (beq p.scope_id []) && p.entity.has_column column_scope
    then insert column_scope (text p.scope_id) out
    else out

abbrev pub row_or_empty : {F : Type 0} → Option (Row F) → Row F
row_or_empty none = []
row_or_empty (some vals) = vals

abbrev pub is_delete : Op → Bool
is_delete delete = true
is_delete _ = false

-- `stampedValues`: the structural columns always come from the executor; nil for a delete.
unfoldable pub stamped_values : {F P : Type 0} → Prepared F P → ℕ → Option (Row F)
stamped_values p version =
    if is_delete p.cmd.op then none else some (stamped_row p version (row_or_empty p.vals))

-- `checkVersion`: existence, then the expected version.
abbrev pub check_existence : {F P : Type 0} → Prepared F P → Op → ℕ → Result CommandError (Unit {0})
check_existence p create current =
    if current == 0 then ok tt else err (version_conflict p.entity.name p.agg_id 0 current)
check_existence p update current =
    if current == 0 then err (not_found p.entity.name p.agg_id) else ok tt
check_existence p delete current =
    if current == 0 then err (not_found p.entity.name p.agg_id) else ok tt
check_existence p _ current = ok tt

abbrev pub check_expected :
    {F P : Type 0} → Prepared F P → Option ℕ → ℕ → Result CommandError (Unit {0})
check_expected p none current = ok tt
check_expected p (some v) current =
    if v == current then ok tt else err (version_conflict p.entity.name p.agg_id v current)

unfoldable pub check_version : {F P : Type 0} → Prepared F P → ℕ → Result CommandError (Unit {0})
check_version p current =
    check_existence p p.cmd.op current >> check_expected p p.cmd.expected_version current
