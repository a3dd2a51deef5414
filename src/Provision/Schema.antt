-- ===== src/Provision/Schema.antt =====
-- core/provision/schema.go: `SchemaProvisioner`, for tenants that are schemas of one database.
use fabriq.Prelude.{not, ◌||◌, [], GoString, codes, beq, Result, ok, err, if◌then◌else◌}
use fabriq.Catalog.Entry.{creating, migrating, active, Entry, Error, structured, invalid_input}
use fabriq.Provision.Store.{
  ensure_bootstrap, create_schema, migrate_schema, Env, M, ◌>>=◌, ◌>>◌, return, throw, perform,
}
use fabriq.Provision.Lifecycle.{
  new_entry, transition, fail, required, Start, already, resume_from, find_or_create,
}

-- `schema_name` is the field of that name, `pathctx.SchemaForTenant` by default.
pub record SchemaProvisioner : Type 0 where
  pub shared_schema : GoString
  pub schema_name : GoString → Result Error GoString

unfoldable pub new_schema_provisioner :
    (GoString → Result Error GoString) → GoString → SchemaProvisioner
new_schema_provisioner schema_for_tenant shared = record {
  shared_schema = if beq shared [] then codes "fabriq_shared" else shared;
  schema_name = schema_for_tenant;
}

-- The steps of `SchemaProvisioner.Provision` below the switch.
unfoldable pub advance : SchemaProvisioner → Env → Start → M Entry
unfolding transition fail
advance p env (already e) = return e
advance p env (resume_from e) = do
  made ← transition env e creating
  bootstrapped ← perform env (ensure_bootstrap made.cluster_id made.database p.shared_schema)
  required env made bootstrapped
  created ← perform env (create_schema made.cluster_id made.database made.schema)
  required env made created
  moved ← transition env made migrating
  migrated ←
      perform env (migrate_schema moved.cluster_id moved.database moved.schema p.shared_schema)
  version ← required env moved migrated
  transition env (record moved { version = version }) active

abbrev pub in_schema :
    SchemaProvisioner → Env → GoString → GoString → GoString → Result Error GoString → M Entry
in_schema p env tenant cluster database (err x) = throw x
in_schema p env tenant cluster database (ok schema) =
    find_or_create env (new_entry tenant cluster database schema)
      (λ c d. not (beq c cluster) || not (beq d database))
    >>= advance p env

unfoldable pub provision : SchemaProvisioner → Env → GoString → GoString → GoString → M Entry
unfolding find_or_create advance
provision p env tenant cluster database =
    if beq tenant [] || beq cluster [] || beq database []
    then throw (structured invalid_input [])
    else in_schema p env tenant cluster database (p.schema_name tenant)
