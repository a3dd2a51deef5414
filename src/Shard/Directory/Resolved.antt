-- ===== src/Shard/Directory/Resolved.antt =====
-- adapters/shard/catalogdir.go: which tenants `resolve` routes.
use fabriq.Prelude.{
  ◌≡◌, refl, ◌⊎◌, inl, inr, true, false, [], ◌∷◌, GoString, Bool-cases, codes, Assoc, lookup,
  lookup-insert, beq, beq_refl, none, some, Result, ok, err,
}
use fabriq.Catalog.Entry.{Entry, shard_id, unavailable, Error, code_of}
use fabriq.Catalog.Failover.{mark_degraded_detail, is_degraded, degraded_key, degraded_value}
use fabriq.Provision.Fleet.{is_active}
use fabriq.Shard.Directory.{state_name, below, refusal, resolve}

-- The tenant is routed exactly if the catalog knows it as active and not below the floor; a refusal is
-- marked as degraded exactly if a replica answered.
pub data Routes (floor : GoString) (read : Result Error Entry) (out : Result Error GoString)
    : Type 0 where
  routed :
      (e : Entry)
      → read ≡ ok e
      → is_active e.state ≡ true
      → below floor e ≡ false
      → out ≡ ok (shard_id e)
      → Routes floor read out
  refused :
      (e : Entry) (x : Error)
      → read ≡ ok e
      → (is_active e.state ≡ false) ⊎ (below floor e ≡ true)
      → out ≡ err x
      → code_of x ≡ some unavailable
      → is_degraded x ≡ e.from_replica
      → Routes floor read out
  unread : (x : Error) → read ≡ err x → out ≡ err x → Routes floor read out

refusal-is_degraded :
    (e : Entry) (detail : Assoc GoString)
    → lookup degraded_key detail ≡ none
    → is_degraded (refusal e detail) ≡ e.from_replica
unfolding is_degraded mark_degraded_detail
refusal-is_degraded e detail h = elim (Bool-cases e.from_replica) [
  | inl r ↦ rw r (
      rw (lookup-insert degraded_key degraded_key degraded_value detail, beq_refl degraded_key)
        (beq_refl degraded_value))
  | inr r ↦ rw (r, h) (unfold beq in refl)
]

pub resolve-Routes :
    (floor : GoString) (read : Result Error Entry) → Routes floor read (resolve floor read)
unfolding resolve refusal
resolve-Routes floor (err x) = Routes.unread x refl refl
resolve-Routes floor (ok e) = elim (Bool-cases (is_active e.state)) [
  | inr a ↦ rw a (
      Routes.refused e (refusal e ((codes "state", state_name e.state) ∷ [])) refl (inl a) refl refl
        (refusal-is_degraded e _ (unfold lookup beq in refl)))
  | inl a ↦ elim (Bool-cases (below floor e)) [
    | inl b ↦
        rw (a, b)
          (Routes.refused e (refusal e ((codes "version", e.version) ∷ (codes "floor", floor) ∷ []))
            refl (inr b) refl refl (refusal-is_degraded e _ (unfold lookup beq in refl)))
    | inr b ↦ rw (a, b) (Routes.routed e refl a b refl)
  ]
]
