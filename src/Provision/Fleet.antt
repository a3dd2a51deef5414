-- ===== src/Provision/Fleet.antt =====
-- core/provision/provision.go: `fleetMigrate`, once it has listed the catalog.
pub mod Bounds
pub mod Accounts
use fabriq.Prelude.{
  ℕ, zero, suc, ◌+◌, Bool, true, false, not, ◌&&◌, List, [], ◌∷◌, Option, none, some, GoString, beq,
  length, get_elem?, remove_at, ltb, leb, str_lt, Result, ok, err, if◌then◌else◌,
}
use fabriq.Query.Value.{ℤ, pos, negsuc}
use fabriq.Catalog.Entry.{State, active, Entry, Error, structured, unavailable}
use fabriq.Provision.Store.{Work, Env, World, put}

pub record MigrateAllOpts : Type 0 where
  pub batch : ℤ
  pub max_failures : ℤ
  pub target_version : GoString

-- `if n <= 0 { n = default }`
abbrev pub positive_or : ℤ → ℕ → ℕ
positive_or (pos zero) d = d
positive_or (pos (suc n)) d = suc n
positive_or (negsuc n) d = d

pub record TenantResult : Type 0 where
  pub tenant_id : GoString
  pub version : GoString
  pub skipped : Bool
  pub error : Option Error

-- The loop and its goroutines: the entries that the loop has not reached, the one that waits for
-- the semaphore, those that are being migrated, and the report, its results the latest first.
pub record Roll : Type 0 where
  pub todo : List Entry
  pub waiting : Option Entry
  pub flying : List Entry
  pub stopped : Bool
  pub failures : ℕ
  pub migrated : ℕ
  pub skipped : ℕ
  pub failed : ℕ
  pub results : List TenantResult
  pub world : World

abbrev pub start : List Entry → World → Roll
start entries w = record {
  todo = entries;
  waiting = none;
  flying = [];
  stopped = false;
  failures = 0;
  migrated = 0;
  skipped = 0;
  failed = 0;
  results = [];
  world = w;
}

abbrev pub is_active : State → Bool
is_active active = true
is_active _ = false

abbrev pub reported : Entry → GoString → Bool → Option Error → TenantResult
reported e version skipped error = record {
  tenant_id = e.tenant_id;
  version = version;
  skipped = skipped;
  error = error;
}

module _ (opts : MigrateAllOpts) (env : Env) where
  abbrev pub batch : ℕ
  batch = positive_or opts.batch 8

  abbrev pub max_failures : ℕ
  max_failures = positive_or opts.max_failures 3

  -- The entry is recorded at the target already.
  abbrev pub at_target : Entry → Bool
  at_target e = not (beq opts.target_version []) && beq e.version opts.target_version

  -- The body of the loop up to `sem <- struct{}{}`.
  abbrev pub visit : Entry → List Entry → Roll → Roll
  visit e rest r =
      if not (is_active e.state)
      then record r { todo = rest }
      else if at_target e
      then record r {
        todo = rest;
        skipped = r.skipped + 1;
        results = reported e e.version true none ∷ r.results;
      }
      else if leb max_failures r.failures
      then record r { todo = []; stopped = true }
      else record r { todo = rest; waiting = some e }

  abbrev pub next_entry : List Entry → Roll → Roll
  next_entry [] r = r
  next_entry (e ∷ rest) r = visit e rest r

  -- The loop takes its next step, if the semaphore lets it.
  abbrev pub loop_step : Option Entry → Roll → Roll
  loop_step none r = next_entry r.todo r
  loop_step (some e) r =
      if ltb (length r.flying) batch then record r { waiting = none; flying = e ∷ r.flying } else r

  -- The end of a goroutine, on what `per` returned to it.
  abbrev pub landed : Entry → Result Error GoString → Roll → Roll
  landed e (ok version) r = record r {
    migrated = r.migrated + 1;
    results = reported e version false none ∷ r.results;
    world = (put env (record e { version = version }) r.world).1;
  }
  landed e (err x) r = record r {
    failures = r.failures + 1;
    failed = r.failed + 1;
    results = reported e [] false (some x) ∷ r.results;
  }

  abbrev pub land_at : ℕ → Option Entry → Result Error GoString → Roll → Roll
  land_at i none result r = r
  land_at i (some e) result r = landed e result (record r { flying = remove_at i r.flying })

-- What happens next: the loop goes on, or the migration at a place of `flying` ends.
pub data Event : Type 0 where
  loops : Event
  lands : ℕ → Result Error GoString → Event

unfoldable pub step : MigrateAllOpts → Env → Roll → Event → Roll
step opts env r loops = loop_step opts env r.waiting r
step opts env r (lands i result) = land_at opts env i (get_elem? r.flying i) result r

unfoldable pub roll : MigrateAllOpts → Env → Roll → List Event → Roll
unfolding step
roll opts env r [] = r
roll opts env r (ev ∷ evs) = roll opts env (step opts env r ev) evs

-- `sort.Slice` by tenant id.
unfoldable pub insert_result : TenantResult → List TenantResult → List TenantResult
insert_result a [] = a ∷ []
insert_result a (b ∷ bs) =
    let rest = insert_result a bs in if str_lt b.tenant_id a.tenant_id then b ∷ rest else a ∷ b ∷ bs

unfoldable pub sort_results : List TenantResult → List TenantResult
unfolding insert_result
sort_results [] = []
sort_results (a ∷ as') = insert_result a (sort_results as')

-- What `fleetMigrate` returns after `wg.Wait()`.
unfoldable pub finish : MigrateAllOpts → Roll → Roll × Option Error
unfolding sort_results
finish opts r = (
  record r { results = sort_results r.results },
  if leb (positive_or opts.max_failures 3) r.failed then some (structured unavailable []) else none,
)
