-- ===== src/Provision/Store.antt =====
-- adapters/postgres/catalog.go: the tenant catalog in the Postgres control database, and the world
-- that the provisioners of core/provision act on.
use fabriq.Prelude.{
  ℕ, suc, Bool, false, List, [], ◌∷◌, Option, none, some, GoString, Assoc, lookup, insert, Result,
  ok, err, ◌==◌, if◌then◌else◌,
}
use fabriq.Catalog.Entry.{
  Entry, Error, structured, not_found, already_exists, version_conflict, unavailable,
  validate_entry,
}
use fabriq.Tenant.Schema.{valid_schema}

-- How a request to the control database fares: it is answered, it is refused before it has an
-- effect, or it takes effect and its answer is lost.
pub data Link : Type 0 where
  up : Link
  refused lost : Error → Link

-- The operations of `ClusterOps` and `SchemaClusterOps`, with their arguments after the context.
pub data Work : Type 0 where
  create_database migrate : GoString → GoString → Work
  ensure_bootstrap create_schema : GoString → GoString → GoString → Work
  migrate_schema : GoString → GoString → GoString → GoString → Work

-- What the outside answers: the fate of the n-th request to the control database, and the result
-- of the n-th operation on a cluster, a migration version if it is a migration.
pub record Env : Type 0 where
  pub read_only : Bool
  pub link : ℕ → Link
  pub outcome : ℕ → Result Error GoString

-- `fabriq_tenant_catalog` by its primary key, the last `clock_timestamp()`, the requests sent so
-- far, and the operations on the clusters, the latest first with its number.
pub record World : Type 0 where
  pub rows : Assoc Entry
  pub clock : ℕ
  pub requests : ℕ
  pub attempts : ℕ
  pub work : List Work

abbrev pub M : Type 0 → Type 0
M A = World → Result Error A × World

abbrev pub next : {A B : Type 0} → (A → M B) → Result Error A × World → Result Error B × World
next k (ok a, w) = k a w
next k (err x, w) = (err x, w)

infixl 5 ◌>>=◌ ◌>>◌
abbrev pub ◌>>=◌ : {A B : Type 0} → M A → (A → M B) → M B
◌>>=◌ m k w = next k (m w)

abbrev pub ◌>>◌ : {A B : Type 0} → M A → M B → M B
m >> k = m >>= λ _. k

abbrev pub return : {A : Type 0} → A → M A
return a w = (ok a, w)

abbrev pub throw : {A : Type 0} → Error → M A
throw x w = (err x, w)

abbrev pub sent : World → World
sent w = record w { requests = suc w.requests }

abbrev pub send : {A : Type 0} → Link → M A → M A
send up m w = m (sent w)
send (refused x) m w = (err x, sent w)
send (lost x) m w = (err x, (m (sent w)).1)

abbrev pub found : Option Entry → World → Result Error Entry × World
found none w = (err (structured not_found []), w)
found (some e) w = (ok e, w)

-- `CatalogStore.Get`
unfoldable pub get : Env → GoString → M Entry
get env tenant w = send (env.link w.requests) (λ v. found (lookup tenant v.rows) v) w

-- `RETURNING updated_at`, which goes into the entry that the caller passed. The column
-- `from_replica` does not exist.
abbrev pub write : Entry → World → Result Error Entry × World
write e w = (
  ok (record e { updated_at = suc w.clock }),
  record w {
    clock = suc w.clock;
    rows = insert e.tenant_id (record e { updated_at = suc w.clock; from_replica = false }) w.rows;
  },
)

-- `INSERT ... ON CONFLICT (tenant_id) DO NOTHING`
abbrev pub create_row : Entry → Option Entry → World → Result Error Entry × World
create_row e none w = write e w
create_row e (some old) w = (err (structured already_exists []), w)

-- `UPDATE ... WHERE tenant_id = $1 AND updated_at = $7`
abbrev pub update_row : Entry → Option Entry → World → Result Error Entry × World
update_row e none w = (err (structured version_conflict []), w)
update_row e (some old) w =
    if old.updated_at == e.updated_at then write e w else (err (structured version_conflict []), w)

abbrev pub put_row : Entry → World → Result Error Entry × World
put_row e w =
    if e.updated_at == 0
    then create_row e (lookup e.tenant_id w.rows) w
    else update_row e (lookup e.tenant_id w.rows) w

abbrev pub put_checked : Env → Entry → Result Error (Unit {0}) → World → Result Error Entry × World
put_checked env e (err x) w = (err x, w)
put_checked env e (ok u) w = send (env.link w.requests) (put_row e) w

-- `CatalogStore.Put`
unfoldable pub put : Env → Entry → M Entry
put env e w =
    if env.read_only
    then (err (structured unavailable []), w)
    else put_checked env e (validate_entry valid_schema e) w

-- An operation on a cluster.
unfoldable pub perform : Env → Work → M (Result Error GoString)
perform env op w =
    (ok (env.outcome w.attempts), record w { attempts = suc w.attempts; work = op ∷ w.work })
