-- ===== src/Provision/Resumed.antt =====
-- core/provision/provision.go: `Suspend` and then `Resume` on a tenant in any state.
use fabriq.Prelude.{suc, ◌<◌, ◌≡◌, refl, false, some, arith, beq_refl, lookup, lookup-insert, ok}
use fabriq.Tenant.Schema.{valid_schema}
use fabriq.Catalog.Entry.{active, suspended, Entry, validate_entry}
use fabriq.Provision.Store.{Env, World, write, sent}
use fabriq.Provision.Lifecycle.{transition, set_state, suspend, resume}
use fabriq.Provision.Writes.{Ends, validate_entry-progress}
use fabriq.Provision.Healthy.{IsHealthy, Never, put-current, get-healthy}

module _ (env : Env) (healthy : IsHealthy env) (e : Entry) (w : World)
    (valid : validate_entry valid_schema e ≡ ok tt) (row : lookup e.tenant_id w.rows ≡ some e)
    (pos : 0 < e.updated_at) where
  suspend_lem : suspend env e.tenant_id w ≡ write (record e { state = suspended }) (sent (sent w))
  unfolding suspend set_state transition
  suspend_lem =
      rw (get-healthy env healthy e.tenant_id w, row)
        (put-current env healthy (record e { state = suspended }) e (sent w)
          (validate_entry-progress e suspended e.version e.updated_at e.from_replica refl valid) row
          refl pos)

  held : Entry
  held = record e { state = suspended; updated_at = suc w.clock; from_replica = false }

  after : World
  unfolding held
  after = (write (record e { state = suspended }) (sent (sent w))).1

  held-after : lookup e.tenant_id after.rows ≡ some held
  unfolding after held
  held-after = rw (lookup-insert e.tenant_id e.tenant_id held w.rows, beq_refl e.tenant_id) refl

  resume_lem :
      resume env e.tenant_id after ≡ write (record held { state = active }) (sent (sent after))
  unfolding resume transition held
  resume_lem =
      rw (get-healthy env healthy e.tenant_id after, held-after)
        (put-current env healthy (record held { state = active }) held (sent after)
          (validate_entry-progress e active e.version (suc w.clock) false refl valid) held-after
          refl (omega arith))

  -- A suspension followed by a resumption makes any stored tenant active, whatever its state was
  -- before, at the version that it had, and without an operation on a cluster.
  pub resume-suspend :
      Ends
        (λ a v. (a.state ≡ active) × (a.version ≡ e.version) × (v.work ≡ w.work))
        Never
        (resume env e.tenant_id (suspend env e.tenant_id w).1)
  unfolding after held
  resume-suspend = rw (suspend_lem, resume_lem) (refl, refl, refl)
