-- ===== src/Sweep/Tests.antt =====
-- Passes that are run, and the instance of the theorem on them.
use fabriq.Prelude.{
  ◌+◌, ◌≤◌, ◌≡◌, refl, false, true, [], ◌∷◌, some, GoString, codes, beq, lookup, insert, delete,
  List, length, ok, err,
}
use fabriq.Query.Value.{pos}
use fabriq.Catalog.Entry.{Entry, active, plain}
use fabriq.Sweep.Table.{Config, PassResult, or_fresh, new_config}
use fabriq.Sweep.Engine.{
  between, new_engine, Event, wakes, begins, lists, visits, admits, lands, ends, run,
}
use fabriq.Sweep.Engine.Flights.{flights, awaiting, marked}
use fabriq.Sweep.Engine.Backoff.{most}
use fabriq.Sweep.Engine.OneSweep.{run-one_sweep}

abbrev acme : GoString
acme = codes "acme"

abbrev beta : GoString
beta = codes "beta"

abbrev entry : GoString → Entry
entry t = record {
  tenant_id = t;
  cluster_id = codes "c";
  database = codes "d";
  state = active;
  version = codes "v1";
  schema = [];
  updated_at = 0;
  from_replica = false;
}

abbrev cfg : Config
cfg = record {
  workers = 1;
  backoff_base = 10;
  backoff_cap = 60;
  compact_every = 30;
  min_version = [];
}

abbrev nothing : PassResult
nothing = record { relayed = 0; materialized = 0; compacted = 0; claimed = false }

-- The sweep of acme finds nothing; while it runs, `beta` waits for the only slot.
abbrev crowded : List Event
crowded =
    begins 100
    ∷ lists (ok (entry acme ∷ entry beta ∷ [], []))
    ∷ visits
    ∷ admits
    ∷ visits
    ∷ admits
    ∷ []

beta_waits : (run cfg new_engine crowded).waiting ≡ some (record { tenant = beta; compact = true })
unfolding run lookup insert beq
beta_waits = refl

run-one_sweep_example :
    let g = run cfg new_engine crowded in
    (flights beta g.running + awaiting beta g.waiting ≡ marked beta g.state)
    × ((or_fresh (lookup beta g.state)).backoff ≤ most cfg)
    × (length g.running ≤ cfg.workers)
    × (g.phase ≡ between → marked beta g.state ≡ 0)
    × (g.stats.errors + g.stats.busy_count + length g.running ≤ g.stats.swept)
    × (g.stats.swept ≤ g.stats.eligible_count)
    × (g.stats.eligible_count ≤ g.stats.scanned)
run-one_sweep_example = run-one_sweep cfg crowded beta

-- A wake that comes while the tenant's sweep is in flight is forgotten when that sweep finds nothing.
abbrev woken_in_flight : List Event
woken_in_flight =
    begins 100
    ∷ lists (ok (entry acme ∷ [], []))
    ∷ visits
    ∷ admits
    ∷ wakes acme
    ∷ lands 0 (ok nothing) 100 (λ half. half)
    ∷ ends 100
    ∷ []

wake_in_flight : (or_fresh (lookup acme (run cfg new_engine woken_in_flight).state)).next_due ≡ 110
unfolding run lookup insert beq
wake_in_flight = refl

-- A catalog that cannot be listed costs the tenants their rows, with the backoff in them.
abbrev outage : List Event
outage =
    begins 100
    ∷ lists (ok (entry acme ∷ [], []))
    ∷ visits
    ∷ admits
    ∷ lands 0 (ok nothing) 100 (λ half. half)
    ∷ ends 100
    ∷ begins 101
    ∷ lists (err (plain []))
    ∷ ends 101
    ∷ []

outage_rows : (run cfg new_engine outage).state ≡ []
unfolding run lookup insert delete beq
outage_rows = refl

default_workers : (new_config (pos 0) (pos 0) (pos 0) (pos 0) []).workers ≡ 16
unfolding new_config
default_workers = refl
