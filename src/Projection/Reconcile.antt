-- ===== src/Projection/Reconcile.antt =====
-- core/projection/reconcile.go: the drift between the truth and one projection.
use fabriq.Prelude.{
  ℕ, Bool, true, false, ◌&&◌, List, [], ◌∷◌, ◌++◌, Option, none, some, GoString, beq, str_lt, Assoc,
  lookup, Result, ok, err, ◌>>=◌, if◌then◌else◌, ltb,
}
use fabriq.Projection.Mutation.{EntitySpec}

pub record Drift : Type 0 where
  pub entity : GoString
  pub agg_id : GoString
  pub truth_version : ℕ
  pub projected_version : ℕ

abbrev pub Versions : Type 0
Versions = Assoc ℕ

-- A missing key reads as 0.
abbrev pub or_zero : Option ℕ → ℕ
or_zero none = 0
or_zero (some v) = v

-- The loop over the truth: missing or stale.
unfoldable pub stale : GoString → Versions → Versions → List Drift
stale entity [] projected = []
stale entity ((id, tv) ∷ truth) projected =
    let rest = stale entity truth projected in
    let pv = or_zero (lookup id projected) in
    if ltb pv tv
    then record { entity = entity; agg_id = id; truth_version = tv; projected_version = pv } ∷ rest
    else rest

abbrev pub is_missing : Option ℕ → Bool
is_missing none = true
is_missing (some v) = false

-- The loop over the projection: zombies.
unfoldable pub zombies : GoString → Versions → Versions → List Drift
zombies entity [] truth = []
zombies entity ((id, pv) ∷ projected) truth =
    let rest = zombies entity projected truth in
    if is_missing (lookup id truth)
    then record { entity = entity; agg_id = id; truth_version = 0; projected_version = pv } ∷ rest
    else rest

unfoldable pub entity_drifts : GoString → Versions → Versions → List Drift
unfolding stale zombies
entity_drifts entity truth projected =
    stale entity truth projected ++ zombies entity projected truth

abbrev pub drift_lt : Drift → Drift → Bool
drift_lt a b = if beq a.entity b.entity then str_lt a.agg_id b.agg_id else str_lt a.entity b.entity

-- `sort.Slice` by entity, then id.
unfoldable pub insert_drift : Drift → List Drift → List Drift
insert_drift d [] = d ∷ []
insert_drift d (e ∷ es) =
    let rest = insert_drift d es in if drift_lt e d then e ∷ rest else d ∷ e ∷ es

unfoldable pub sort_drifts : List Drift → List Drift
unfolding insert_drift
sort_drifts [] = []
sort_drifts (d ∷ ds) = insert_drift d (sort_drifts ds)

-- The reads from Postgres and from the projection, and the repair, fail with an error text.
pub record Reconciler : Type 0 where
  pub entities : List EntitySpec
  pub include : EntitySpec → Bool
  pub truth : GoString → Result GoString Versions
  pub projected : EntitySpec → Result GoString Versions
  pub repair : Drift → Option GoString

-- The loop over the registry's entities.
unfoldable pub scan : Reconciler → List EntitySpec → Result GoString (List Drift)
unfolding entity_drifts
scan r [] = ok []
scan r (ent ∷ ents) =
    let rest = scan r ents in
    if ent.aggregate && r.include ent
    then (do
      truth ← r.truth ent.name
      projected ← r.projected ent
      others ← rest
      ok (entity_drifts ent.name truth projected ++ others))
    else rest

-- The loop that repairs, up to the first failure: the drifts it was called on, and the error.
unfoldable pub repair_all : Reconciler → List Drift → List Drift × Option GoString
repair_all r [] = ([], none)
repair_all r (d ∷ ds) = repaired (r.repair d) (repair_all r ds)
  where
    repaired : Option GoString → List Drift × Option GoString → List Drift × Option GoString
    repaired (some x) rest = (d ∷ [], some x)
    repaired none rest = (d ∷ rest.0, rest.1)

pub record Reconciled : Type 0 where
  pub drifts : List Drift
  pub repaired : List Drift
  pub failure : Option GoString

-- `Reconcile`
unfoldable pub reconcile : Reconciler → Bool → Reconciled
unfolding scan sort_drifts repair_all
reconcile r repair = of_scan (scan r r.entities)
  where
    of_scan : Result GoString (List Drift) → Reconciled
    of_scan (err x) = record { drifts = []; repaired = []; failure = some x }
    of_scan (ok ds) =
        let sorted = sort_drifts ds in
        let run = repair_all r sorted in
        if repair
        then record { drifts = sorted; repaired = run.0; failure = run.1 }
        else record { drifts = sorted; repaired = []; failure = none }
