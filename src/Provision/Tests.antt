-- ===== src/Provision/Tests.antt =====
-- Tenants that are provisioned in spite of failures, fleets that are rolled, and the instances of the
-- theorems on both.
use fabriq.Prelude.{
  ◌+◌, ◌≤◌, ◌≡◌, ◌↔◌, refl, inl, false, List, [], ◌∷◌, ◌++◌, some, GoString, codes, arith, beq,
  lookup, insert, length, Result, ok, err,
}
use fabriq.Query.Value.{pos}
use fabriq.Tenant.Schema.{valid_schema, schema_for_tenant}
use fabriq.Tenant.Schema.Shared.{AllPlain, Alike, schema_for_tenant-shared}
use fabriq.Catalog.Entry.{active, Entry, Error, plain, validate_entry}
use fabriq.Provision.Store.{up, lost, Env, World, get, perform, put}
use fabriq.Provision.Lifecycle.{new_entry, elsewhere, provision, suspend, resume}
use fabriq.Provision.Writes.{Ends}
use fabriq.Provision.Healthy.{IsHealthy, IsActive, Never}
use fabriq.Provision.Converges.{runs, provision-converges}
use fabriq.Provision.Resumed.{resume-suspend}
use fabriq.Provision.Fleet.{MigrateAllOpts, Event, start, loops, lands, roll, finish}
use fabriq.Provision.Fleet.Bounds.{roll-within_budget}
use fabriq.Provision.Fleet.Accounts.{total, is_result, is_listed, finish-accounts}

abbrev acme : GoString
acme = codes "acme"

abbrev c1 : GoString
c1 = codes "c1"

abbrev empty : World
empty = record { rows = []; clock = 0; requests = 0; attempts = 0; work = [] }

abbrev calm : Env
calm = record { read_only = false; link = λ n. up; outcome = λ n. ok (codes "v1") }

abbrev calm-IsHealthy : IsHealthy calm
calm-IsHealthy = record { writable = refl; answers = λ n. refl; works = λ n. (codes "v1", refl) }

-- Every answer of the control database is lost.
abbrev deaf : Env
deaf = record calm { link = λ n. lost (plain (codes "reset")) }

-- Every operation on a cluster fails.
abbrev no_cluster : Env
no_cluster = record calm { outcome = λ n. err (plain (codes "down")) }

failed_then_active :
    lookup acme (provision calm acme c1 (provision no_cluster acme c1 empty).1).1.rows
    ≡ some (record (new_entry acme c1 (codes "fabriq_acme") []) {
      state = active;
      version = codes "v1";
      updated_at = 6;
    })
unfolding provision get put perform valid_schema validate_entry lookup insert beq
failed_then_active = refl

provision-converges_example :
    Ends
      (IsActive acme (elsewhere c1))
      Never
      (provision calm acme c1 (runs (deaf ∷ no_cluster ∷ []) acme c1 empty))
unfolding lookup beq
provision-converges_example =
    provision-converges (deaf ∷ no_cluster ∷ []) calm acme c1 empty calm-IsHealthy refl refl
      (inl refl)

abbrev stuck : Entry
stuck = record (new_entry acme c1 (codes "fabriq_acme") []) { updated_at = 1 }

abbrev with_stuck : World
with_stuck = record empty { rows = (acme, stuck) ∷ []; clock = 1 }

resume-suspend_example :
    Ends
      (λ a v. (a.state ≡ active) × (a.version ≡ []) × (v.work ≡ []))
      Never
      (resume calm acme (suspend calm acme with_stuck).1)
unfolding lookup beq validate_entry
resume-suspend_example = resume-suspend calm calm-IsHealthy stuck with_stuck refl refl (omega arith)

schema_for_tenant-shared_example :
    ((t : GoString) × (codes "tenant_a_b" ≡ codes "tenant_" ++ t)
      × (1 ≤ length t)
      × (length t ≤ 54)
      × AllPlain t
      × Alike t (codes "a-b"))
    × ((schema_for_tenant (codes "a_b") ≡ some (codes "tenant_a_b"))
        ↔ Alike (codes "a_b") (codes "a-b"))
unfolding schema_for_tenant
schema_for_tenant-shared_example =
    schema_for_tenant-shared (codes "a-b") (codes "a_b") (codes "tenant_a_b") refl

same_schema : schema_for_tenant (codes "a-b") ≡ schema_for_tenant (codes "a_b")
unfolding schema_for_tenant
same_schema = refl

abbrev tight : MigrateAllOpts
tight = record { batch = pos 1; max_failures = pos 1; target_version = [] }

abbrev tenant_row : GoString → Entry
tenant_row t = record (new_entry t c1 t []) { state = active; updated_at = 1 }

abbrev two : List Entry
two = tenant_row (codes "a") ∷ tenant_row (codes "b") ∷ []

abbrev down : Result Error GoString
down = err (plain (codes "down"))

-- The second tenant is admitted while the first one still runs, so the budget of one is overrun.
overrun :
    (roll tight calm
      (start two empty)
      (loops ∷ loops ∷ loops ∷ lands 0 down ∷ loops ∷ lands 0 down ∷ [])).failed
    ≡ 2
unfolding roll beq
overrun = refl

roll-within_budget_example :
    (length (roll tight calm (start two empty) (loops ∷ loops ∷ loops ∷ lands 0 down ∷ [])).flying
      ≤ 1)
    × ((roll tight calm (start two empty) (loops ∷ loops ∷ loops ∷ lands 0 down ∷ [])).failed ≤ 2)
roll-within_budget_example =
    roll-within_budget tight calm two empty (loops ∷ loops ∷ loops ∷ lands 0 down ∷ [])

abbrev roomy : MigrateAllOpts
roomy = record { batch = pos 0; max_failures = pos 0; target_version = codes "v1" }

abbrev good : Result Error GoString
good = ok (codes "v1")

abbrev both_land : List Event
both_land = loops ∷ loops ∷ loops ∷ loops ∷ lands 1 good ∷ lands 0 good ∷ []

finish-accounts_example :
    ((t : GoString)
      → total (is_result t) (finish roomy (roll roomy calm (start two empty) both_land)).0.results
        ≡ total (is_listed t) two)
    × ((finish roomy (roll roomy calm (start two empty) both_land)).0.migrated
          + (finish roomy (roll roomy calm (start two empty) both_land)).0.skipped
          + (finish roomy (roll roomy calm (start two empty) both_land)).0.failed
        ≡ total (λ _. 1) (finish roomy (roll roomy calm (start two empty) both_land)).0.results)
unfolding finish roll beq
finish-accounts_example =
    finish-accounts roomy calm two empty both_land
      (finish roomy (roll roomy calm (start two empty) both_land)).0 (refl, refl, refl) refl
