-- ===== src/Provision/Lifecycle.antt =====
-- core/provision/provision.go and schema.go: creating, suspending and resuming a tenant.
use fabriq.Prelude.{
  Bool, false, not, ◌||◌, [], GoString, codes, ◌++◌, beq, Result, ok, err, if◌then◌else◌,
}
use fabriq.Catalog.Entry.{
  State, pending, creating, migrating, active, suspended, failed, Entry, Error, structured,
  unavailable, invalid_input, constraint_violation,
}
use fabriq.Catalog.Failover.{is_not_found}
use fabriq.Provision.Store.{
  create_database, migrate, Env, World, M, ◌>>=◌, ◌>>◌, return, throw, get, put, perform,
}

-- `Provisioner` is the pair of the catalog and the cluster operations, which `Env` holds, with the
-- name of the database that it gives a tenant.
unfoldable pub database_name : GoString → GoString
database_name tenant = codes "fabriq_" ++ tenant

-- `catalog.Entry{...}` with the fields left out at their zero values.
abbrev pub new_entry : GoString → GoString → GoString → GoString → Entry
new_entry tenant cluster database schema = record {
  tenant_id = tenant;
  cluster_id = cluster;
  database = database;
  state = pending;
  version = [];
  schema = schema;
  updated_at = 0;
  from_replica = false;
}

-- `transitionEntry`
unfoldable pub transition : Env → Entry → State → M Entry
transition env e s = put env (record e { state = s })

-- `failEntry`: what `Put` answers is dropped.
unfoldable pub fail : {A : Type 0} → Env → Entry → M A
fail env e w = (err (structured unavailable []), (put env (record e { state = failed }) w).1)

-- `if opErr != nil { return fail(...) }`
abbrev pub required : Env → Entry → Result Error GoString → M GoString
required env e (ok version) = return version
required env e (err x) = fail env e

-- What the switch at the head of `Provision` decides: the tenant is active, or it goes on.
pub data Start : Type 0 where
  already resume_from : Entry → Start

abbrev pub by_state : State → Entry → M Start
by_state active e = return (already e)
by_state suspended e = throw (structured unavailable [])
by_state _ e = return (resume_from e)

-- The cases of the switch; `fresh` is the entry of a new tenant, and `elsewhere` tests the cluster and
-- the database of the stored one.
abbrev pub on_get :
    Env
    → Entry
    → (GoString → GoString → Bool)
    → Result Error Entry × World
    → Result Error Start × World
on_get env fresh elsewhere (err x, w) =
    if is_not_found x then (put env fresh >>= λ e. return (resume_from e)) w else (err x, w)
on_get env fresh elsewhere (ok e, w) =
    if elsewhere e.cluster_id e.database
    then (err (structured constraint_violation []), w)
    else by_state e.state e w

unfoldable pub find_or_create : Env → Entry → (GoString → GoString → Bool) → M Start
find_or_create env fresh elsewhere w = on_get env fresh elsewhere (get env fresh.tenant_id w)

-- The steps of `Provisioner.Provision` below the switch.
unfoldable pub advance : Env → Start → M Entry
unfolding transition fail
advance env (already e) = return e
advance env (resume_from e) = do
  made ← transition env e creating
  created ← perform env (create_database made.cluster_id made.database)
  required env made created
  moved ← transition env made migrating
  migrated ← perform env (migrate moved.cluster_id moved.database)
  version ← required env moved migrated
  transition env (record moved { version = version }) active

-- `entry.ClusterID != clusterID`
abbrev pub elsewhere : GoString → GoString → GoString → Bool
elsewhere cluster c d = not (beq c cluster)

unfoldable pub provision : Env → GoString → GoString → M Entry
unfolding find_or_create advance database_name
provision env tenant cluster =
    if beq tenant [] || beq cluster []
    then throw (structured invalid_input [])
    else find_or_create env (new_entry tenant cluster (database_name tenant) []) (elsewhere cluster)
      >>= advance env

-- `Provisioner.setState`
unfoldable pub set_state : Env → GoString → State → M Entry
unfolding transition
set_state env tenant s = get env tenant >>= λ e. transition env e s

unfoldable pub suspend : Env → GoString → M Entry
unfolding set_state
suspend env tenant = set_state env tenant suspended

abbrev pub if_suspended : Env → State → Entry → M Entry
if_suspended env suspended e = transition env e active
if_suspended env _ e = throw (structured constraint_violation [])

unfoldable pub resume : Env → GoString → M Entry
unfolding transition
resume env tenant = get env tenant >>= λ e. if_suspended env e.state e
