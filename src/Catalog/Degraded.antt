-- ===== src/Catalog/Degraded.antt =====
-- core/catalog/failover.go: the answers of `Get` while the primary is down.
use fabriq.Prelude.{
  ◌≡◌, refl, inl, inr, true, false, List, [], ◌∷◌, GoString, arith, Bool-cases, beq, lookup, insert,
  Result, ok, err,
}
use fabriq.Catalog.Entry.{Entry, Error}
use fabriq.Catalog.Failover.{
  Catalog, Failover, is_not_found, degraded, is_degraded, served_by_replica, replica_answer,
  get_replicas, get_after, get,
}

-- A replica that is unreachable: it answers neither with an entry nor with "not found".
abbrev pub IsUnreachable : Catalog → GoString → Type 0
IsUnreachable r tenant = (x : Error) × (r.get tenant ≡ err x) × (is_not_found x ≡ false)

-- No replica can be reached.
abbrev pub NoneReachable : GoString → List Catalog → Type 0
NoneReachable tenant [] = Unit
NoneReachable tenant (r ∷ rs) = IsUnreachable r tenant × NoneReachable tenant rs

-- `r` is the first replica that can be reached.
pub data FirstReachable (tenant : GoString) (r : Catalog) : List Catalog → Type 0 where
  here : {others : List Catalog} → FirstReachable tenant r (r ∷ others)
  later :
      {s : Catalog} {others : List Catalog}
      → IsUnreachable s tenant
      → FirstReachable tenant r others
      → FirstReachable tenant r (s ∷ others)

-- What a read that the primary could not serve returns.
pub data ReplicaRead (f : Failover) (tenant : GoString) (x : Error) (rs : List Catalog)
    (out : Result Error Entry × Failover) : Type 0 where
  entry :
      (r : Catalog) (e : Entry)
      → FirstReachable tenant r rs
      → r.get tenant ≡ ok e
      → out ≡ (ok (record e { from_replica = true }), served_by_replica f)
      → ReplicaRead f tenant x rs out
  absent :
      (r : Catalog) (y : Error)
      → FirstReachable tenant r rs
      → r.get tenant ≡ err y
      → is_not_found y ≡ true
      → out ≡ (err degraded, served_by_replica f)
      → ReplicaRead f tenant x rs out
  nobody : NoneReachable tenant rs → out ≡ (err x, f) → ReplicaRead f tenant x rs out

skip :
    (f : Failover) (tenant : GoString) (x : Error) (r : Catalog) (rs : List Catalog)
    (out : Result Error Entry × Failover)
    → IsUnreachable r tenant
    → ReplicaRead f tenant x rs out
    → ReplicaRead f tenant x (r ∷ rs) out
skip f tenant x r rs out u (ReplicaRead.entry s e first g o) =
    ReplicaRead.entry s e (FirstReachable.later u first) g o
skip f tenant x r rs out u (ReplicaRead.absent s y first g n o) =
    ReplicaRead.absent s y (FirstReachable.later u first) g n o
skip f tenant x r rs out u (ReplicaRead.nobody shut o) = ReplicaRead.nobody (u, shut) o

answered :
    (f : Failover) (tenant : GoString) (x : Error) (r : Catalog) (rs : List Catalog)
    (a : Result Error Entry) (others : Result Error Entry × Failover)
    → r.get tenant ≡ a
    → ReplicaRead f tenant x rs others
    → ReplicaRead f tenant x (r ∷ rs) (replica_answer f a others)
unfolding replica_answer
answered f tenant x r rs (ok e) others g ih = ReplicaRead.entry r e FirstReachable.here g refl
answered f tenant x r rs (err y) others g ih = elim (Bool-cases (is_not_found y)) [
  | inl n ↦ rw n (ReplicaRead.absent r y FirstReachable.here g n refl)
  | inr n ↦ rw n (skip f tenant x r rs others (y, g, n) ih)
]

get_replicas-ReplicaRead :
    (f : Failover) (tenant : GoString) (x : Error) (rs : List Catalog)
    → ReplicaRead f tenant x rs (get_replicas f tenant x rs)
unfolding get_replicas
get_replicas-ReplicaRead f tenant x [] = ReplicaRead.nobody tt refl
get_replicas-ReplicaRead f tenant x (r ∷ rs) =
    answered f tenant x r rs (r.get tenant) (get_replicas f tenant x rs) refl
      (get_replicas-ReplicaRead f tenant x rs)

-- When the primary fails with anything but "not found", `Get` takes the first replica that can be
-- reached: an entry comes back marked as from a replica, "not found" comes back as the degraded
-- error, and one replica read and one failover are counted; with no such replica the primary's own
-- error comes back and nothing is counted.
pub get-ReplicaRead :
    (f : Failover) (tenant : GoString) (x : Error)
    → f.primary.get tenant ≡ err x
    → is_not_found x ≡ false
    → ReplicaRead f tenant x f.replicas (get f tenant)
unfolding get
get-ReplicaRead f tenant x e n =
    rw (e, get_after) (rw n (get_replicas-ReplicaRead f tenant x f.replicas))

degraded-is_degraded : (is_degraded degraded ≡ true) × (is_not_found degraded ≡ true)
unfolding degraded is_degraded insert lookup beq
degraded-is_degraded = (refl, refl)

-- An answer that a lagging replica may have got wrong is never taken for the primary's: if `Get` says
-- "not found" and that answer is not marked degraded, the primary itself said so.
pub get-authoritative :
    (f : Failover) (tenant : GoString) (x : Error)
    → (get f tenant).0 ≡ err x
    → is_not_found x ≡ true
    → is_degraded x ≡ false
    → f.primary.get tenant ≡ err x
get-authoritative f tenant x e n d = by_primary (f.primary.get tenant) refl
  where
    from_replica :
        (y : Error) → is_not_found y ≡ false → ReplicaRead f tenant y f.replicas (get f tenant) → ⊥
    from_replica y m (ReplicaRead.entry r z first g o) = ground arith
    from_replica y m (ReplicaRead.absent r z first g k o) = ground (arith, degraded-is_degraded)
    from_replica y m (ReplicaRead.nobody shut o) = ground arith

    by_primary : (a : Result Error Entry) → f.primary.get tenant ≡ a → f.primary.get tenant ≡ err x
    by_primary (ok z) g = absurd (unfold get in ground arith)
    by_primary (err y) g = elim (Bool-cases (is_not_found y)) [
      | inl m ↦ unfold get in ground arith
      | inr m ↦ absurd (from_replica y m (get-ReplicaRead f tenant y g m))
    ]
