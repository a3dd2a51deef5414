-- ===== src/Sweep/Engine.antt =====
-- core/sweep/sweep.go: `Engine`, its `Pass` and `Wake`, as steps that come in any order that the
-- goroutines allow. Passes do not overlap: `Run` calls them in turn.
pub mod Flights
pub mod Backoff
pub mod Sound
pub mod OneSweep
use fabriq.Prelude.{
  ℕ, zero, suc, ◌+◌, ◌-◌, Bool, true, false, not, ◌&&◌, ◌||◌, List, [], ◌∷◌, Option, none, some,
  GoString, Assoc, lookup, insert, beq, length, get_elem?, remove_at, ltb, Result, ok, err,
  if◌then◌else◌,
}
use fabriq.Catalog.Entry.{Entry, Error}
use fabriq.Sweep.Table.{
  Config, PassResult, busy, TenantState, or_fresh, wake_row, unseen, decay_rows, eligible, due,
  compact_due, backoff_locked, compacted_at,
}

pub record Stats : Type 0 where
  pub duration : ℕ
  pub scanned : ℕ
  pub eligible_count : ℕ
  pub swept : ℕ
  pub busy_count : ℕ
  pub errors : ℕ

abbrev pub no_stats : Stats
no_stats = record {
  duration = 0;
  scanned = 0;
  eligible_count = 0;
  swept = 0;
  busy_count = 0;
  errors = 0;
}

-- What a dispatched goroutine is given.
pub record Job : Type 0 where
  pub tenant : GoString
  pub compact : Bool

-- Where a pass stands: between two passes, or in one that began at `now`, with the rest of the page
-- and the cursor of the next page, if there is one.
pub data Phase : Type 0 where
  between : Phase
  scanning : ℕ → List Entry → Option GoString → Phase

-- `waiting` is the job that waits for the semaphore, `running` those that hold it.
pub record Engine : Type 0 where
  pub state : Assoc TenantState
  pub waiting : Option Job
  pub running : List Job
  pub phase : Phase
  pub stats : Stats
  pub woken : Bool

abbrev pub new_engine : Engine
new_engine = record {
  state = [];
  waiting = none;
  running = [];
  phase = between;
  stats = no_stats;
  woken = false;
}

pub data Event : Type 0 where
  wakes : GoString → Event
  begins : ℕ → Event
  lists : Result Error (List Entry × GoString) → Event
  visits : Event
  admits : Event
  lands : ℕ → Result Error PassResult → ℕ → (ℕ → ℕ) → Event
  ends : ℕ → Event

-- `Wake`: the nudge is dropped when one is pending already.
unfoldable pub wake : GoString → Engine → Engine
unfolding wake_row
wake tenant g = record g { state = wake_row tenant g.state; woken = true }

unfoldable pub begin : ℕ → Engine → Engine
unfolding unseen
begin now g = record g {
  state = unseen g.state;
  phase = scanning now [] (some []);
  stats = no_stats;
}

-- The answer of `List`: an error ends the scan, and so does an empty next cursor.
abbrev pub listed : ℕ → Result Error (List Entry × GoString) → Engine → Engine
listed now (err x) g = record g { phase = scanning now [] none }
listed now (ok (page, next)) g = record g {
  phase = scanning now page (if beq next [] then none else some next);
}

-- The part of the loop body under the lock.
abbrev pub claim : Config → ℕ → GoString → TenantState → Engine → Engine
claim cfg now tenant st g =
    if due now st
    then record g {
      state = insert tenant (record st { in_flight = true; seen = true }) g.state;
      waiting = some (record { tenant = tenant; compact = compact_due cfg now st });
      stats = record g.stats { swept = g.stats.swept + 1 };
    }
    else record g { state = insert tenant (record st { seen = true }) g.state }

-- The loop body for one entry.
unfoldable pub visit : Config → ℕ → Entry → Engine → Engine
visit cfg now e g =
    let g' = record g { stats = record g.stats { scanned = g.stats.scanned + 1 } } in
    let g'' = record g' {
      stats = record g'.stats { eligible_count = g'.stats.eligible_count + 1 };
    } in
    let claimed = claim cfg now e.tenant_id (or_fresh (lookup e.tenant_id g.state)) g'' in
    if eligible cfg e then claimed else g'

-- What the goroutine does to its row once the sweep has returned at `done`.
unfoldable pub landed_row :
    Config → (ℕ → ℕ) → ℕ → Bool → Result Error PassResult → TenantState → TenantState
unfolding backoff_locked busy
landed_row cfg jitter done compact (err x) st =
    backoff_locked cfg jitter done (record st { in_flight = false })
landed_row cfg jitter done compact (ok r) st = compacted_at compact done (
    if busy r
    then record st { in_flight = false; backoff = 0; next_due = done }
    else backoff_locked cfg jitter done (record st { in_flight = false }))

abbrev pub counted : Result Error PassResult → Stats → Stats
counted (err x) s = record s { errors = s.errors + 1 }
counted (ok r) s = if busy r then record s { busy_count = s.busy_count + 1 } else s

-- The goroutine's pointer is its tenant's row as long as the table has one.
abbrev pub set_row :
    GoString
    → (TenantState → TenantState)
    → Option TenantState
    → Assoc TenantState
    → Assoc TenantState
set_row tenant f none m = m
set_row tenant f (some st) m = insert tenant (f st) m

unfoldable pub land : Config → (ℕ → ℕ) → ℕ → Result Error PassResult → Job → Engine → Engine
unfolding landed_row
land cfg jitter done result job g = record g {
  state =
      set_row job.tenant (landed_row cfg jitter done job.compact result) (lookup job.tenant g.state)
        g.state;
  stats = counted result g.stats;
}

unfoldable pub end_pass : ℕ → ℕ → Engine → Engine
unfolding decay_rows
end_pass start now g = record g {
  state = decay_rows g.state g.state;
  phase = between;
  stats = record g.stats { duration = now - start };
}

-- A step that the code is not at changes nothing.
unfoldable pub visit_step : Config → Phase → Option Job → Engine → Engine
unfolding visit
visit_step cfg (scanning now (e ∷ es) more) none g =
    visit cfg now e (record g { phase = scanning now es more })
visit_step cfg ph w g = g

unfoldable pub admit_step : Config → Option Job → Engine → Engine
admit_step cfg none g = g
admit_step cfg (some job) g =
    if ltb (length g.running) cfg.workers
    then record g { waiting = none; running = job ∷ g.running }
    else g

unfoldable pub begin_step : ℕ → Phase → Engine → Engine
unfolding begin
begin_step now between g = begin now g
begin_step now (scanning s es more) g = g

unfoldable pub list_step : Result Error (List Entry × GoString) → Phase → Engine → Engine
list_step answer (scanning now [] (some cursor)) g = listed now answer g
list_step answer ph g = g

unfoldable pub end_step : ℕ → Phase → Option Job → List Job → Engine → Engine
unfolding end_pass
end_step now (scanning start [] none) none [] g = end_pass start now g
end_step now ph w js g = g

unfoldable pub land_step :
    Config → (ℕ → ℕ) → ℕ → Result Error PassResult → ℕ → Option Job → Engine → Engine
unfolding land
land_step cfg jitter done result i none g = g
land_step cfg jitter done result i (some job) g =
    land cfg jitter done result job (record g { running = remove_at i g.running })

unfoldable pub step : Config → Engine → Event → Engine
unfolding wake begin_step list_step visit_step admit_step land_step end_step
step cfg g (wakes tenant) = wake tenant g
step cfg g (begins now) = begin_step now g.phase g
step cfg g (lists answer) = list_step answer g.phase g
step cfg g visits = visit_step cfg g.phase g.waiting g
step cfg g admits = admit_step cfg g.waiting g
step cfg g (lands i result done jitter) =
    land_step cfg jitter done result i (get_elem? g.running i) g
step cfg g (ends now) = end_step now g.phase g.waiting g.running g

unfoldable pub run : Config → Engine → List Event → Engine
unfolding step
run cfg g [] = g
run cfg g (ev ∷ evs) = run cfg (step cfg g ev) evs
