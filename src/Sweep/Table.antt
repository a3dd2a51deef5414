-- ===== src/Sweep/Table.antt =====
-- core/sweep/sweep.go: the idle accounting of each tenant. Times count from Go's zero time, which is
-- 0, and durations are in the clock's unit and do not wrap.
use fabriq.Prelude.{
  ℕ, zero, ◌+◌, ◌*◌, ◌/◌, Bool, false, not, ◌&&◌, ◌||◌, [], ◌∷◌, Option, none, some, GoString,
  Assoc, lookup, insert, delete, beq, ltb, leb, str_lt, ◌==◌, if◌then◌else◌,
}
use fabriq.Query.Value.{ℤ}
use fabriq.Catalog.Entry.{Entry}
use fabriq.Provision.Fleet.{is_active, positive_or}

pub record Config : Type 0 where
  pub workers : ℕ
  pub backoff_base : ℕ
  pub backoff_cap : ℕ
  pub compact_every : ℕ
  pub min_version : GoString

-- The defaults of `New`, in nanoseconds; the scan interval and the timeout of a sweep only time the
-- calls and are left out.
unfoldable pub new_config : ℤ → ℤ → ℤ → ℤ → GoString → Config
new_config workers base cap every floor = record {
  workers = positive_or workers 16;
  backoff_base = positive_or base (5 * second);
  backoff_cap = positive_or cap (5 * 60 * second);
  compact_every = positive_or every (30 * second);
  min_version = floor;
}
  where
    second : ℕ
    second = 1000000000

-- `Result`
pub record PassResult : Type 0 where
  pub relayed : ℕ
  pub materialized : ℕ
  pub compacted : ℕ
  pub claimed : Bool

unfoldable pub busy : PassResult → Bool
busy r = ltb 0 r.relayed || ltb 0 r.materialized || ltb 0 r.compacted

pub record TenantState : Type 0 where
  pub next_due : ℕ
  pub backoff : ℕ
  pub last_compact : ℕ
  pub in_flight : Bool
  pub seen : Bool

abbrev pub fresh_state : TenantState
fresh_state = record {
  next_due = 0;
  backoff = 0;
  last_compact = 0;
  in_flight = false;
  seen = false;
}

-- `st := e.state[tenantID]`, with a new row where there is none.
abbrev pub or_fresh : Option TenantState → TenantState
or_fresh none = fresh_state
or_fresh (some st) = st

-- The table's part of `Wake`.
unfoldable pub wake_row : GoString → Assoc TenantState → Assoc TenantState
wake_row tenant m =
    insert tenant (record (or_fresh (lookup tenant m)) { backoff = 0; next_due = 0 }) m

-- `st.seen = false` for every row.
unfoldable pub unseen : Assoc TenantState → Assoc TenantState
unseen [] = []
unseen ((tenant, st) ∷ m) = (tenant, record st { seen = false }) ∷ unseen m

-- The deletions at the end of `Pass`, for the tenants of a `range` over the table.
abbrev pub decayed : GoString → Option TenantState → Assoc TenantState → Assoc TenantState
decayed tenant none m = m
decayed tenant (some st) m = if not st.seen && not st.in_flight then delete tenant m else m

unfoldable pub decay_one : GoString → Assoc TenantState → Assoc TenantState
decay_one tenant m = decayed tenant (lookup tenant m) m

unfoldable pub decay_rows : Assoc TenantState → Assoc TenantState → Assoc TenantState
unfolding decay_one
decay_rows [] m = m
decay_rows ((tenant, st) ∷ rows) m = decay_rows rows (decay_one tenant m)

-- The entry is active and not below the binary's floor.
abbrev pub eligible : Config → Entry → Bool
eligible cfg e =
    is_active e.state && not (not (beq cfg.min_version []) && str_lt e.version cfg.min_version)

abbrev pub due : ℕ → TenantState → Bool
due now st = not (st.in_flight || ltb now st.next_due)

abbrev pub compact_due : Config → ℕ → TenantState → Bool
compact_due cfg now st = (st.last_compact == 0) || leb (st.last_compact + cfg.compact_every) now

abbrev pub next_backoff : Config → ℕ → ℕ
next_backoff cfg zero = cfg.backoff_base
next_backoff cfg b = if ltb cfg.backoff_cap (b * 2) then cfg.backoff_cap else b * 2

-- `backoffLocked`; `jitter` is `time.Duration(e.cfg.Jitter() * float64(half))`, of the half.
unfoldable pub backoff_locked : Config → (ℕ → ℕ) → ℕ → TenantState → TenantState
backoff_locked cfg jitter now st =
    let b = next_backoff cfg st.backoff in
    let half = b / 2 in record st { backoff = b; next_due = now + (half + jitter half) }

-- `if err == nil && compact { st.lastCompact = done }`
abbrev pub compacted_at : Bool → ℕ → TenantState → TenantState
compacted_at compact done st = if compact then record st { last_compact = done } else st
