-- ===== src/Provision/Converges.antt =====
-- core/provision/provision.go: a run of `Provision` on which nothing fails, after any that did.
use fabriq.Prelude.{◌≡◌, refl, false, [], List, ◌∷◌, GoString, beq}
use fabriq.Catalog.Entry.{Entry}
use fabriq.Provision.Store.{Env, World}
use fabriq.Provision.Lifecycle.{
  new_entry, database_name, find_or_create, advance, elsewhere, provision,
}
use fabriq.Provision.Writes.{Ends}
use fabriq.Provision.Keeps.{IsOurs-new_entry, Saved, provision-Saved}
use fabriq.Provision.Healthy.{
  IsHealthy, IsActive, Gives-bind, Started, find_or_create-Started, advance-IsActive,
}

-- After any number of runs that fail anywhere, be it with an answer that is lost, one run on which
-- nothing fails ends with the tenant active in the catalog.
pub runs : List Env → GoString → GoString → World → World
runs [] tenant cluster w = w
runs (env ∷ envs) tenant cluster w = runs envs tenant cluster (provision env tenant cluster w).1

runs-Saved :
    (envs : List Env) (tenant cluster : GoString) (w : World)
    → Saved tenant (elsewhere cluster) w
    → Saved tenant (elsewhere cluster) (runs envs tenant cluster w)
unfolding runs
runs-Saved [] tenant cluster w h = h
runs-Saved (env ∷ envs) tenant cluster w h =
    runs-Saved envs tenant cluster (provision env tenant cluster w).1
      (provision-Saved env tenant cluster w h)

pub provision-converges :
    (envs : List Env) (env : Env) (tenant cluster : GoString) (w : World)
    → IsHealthy env
    → beq tenant [] ≡ false
    → beq cluster [] ≡ false
    → Saved tenant (elsewhere cluster) w
    → Ends
        (IsActive tenant (elsewhere cluster))
        (λ _. ⊥)
        (provision env tenant cluster (runs envs tenant cluster w))
unfolding provision
provision-converges envs env tenant cluster w healthy nt nc h =
    rw (nt, nc)
      (Gives-bind (Saved tenant (elsewhere cluster))
        (Started env healthy tenant (elsewhere cluster)) (IsActive tenant (elsewhere cluster))
        (find_or_create env fresh (elsewhere cluster)) (advance env)
        (λ v.
          find_or_create-Started env healthy tenant (elsewhere cluster) fresh v
            (IsOurs-new_entry tenant cluster nt nc) refl)
        (advance-IsActive env healthy tenant (elsewhere cluster)) (runs envs tenant cluster w)
        (runs-Saved envs tenant cluster w h))
  where
    fresh : Entry
    fresh = new_entry tenant cluster (database_name tenant) []
