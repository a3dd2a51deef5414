-- ===== src/Shard/Directory.antt =====
-- adapters/shard/catalogdir.go: the directory that routes tenants by the catalog and remembers the
-- answers. Its cache is all it shares: a lookup in it and a write to it are the steps that concurrent
-- calls interleave.
pub mod Resolved
pub mod Fresh
use fabriq.Prelude.{
  ℕ, ◌+◌, Bool, true, false, not, ◌&&◌, ◌||◌, List, [], ◌∷◌, Option, none, some, GoString, codes,
  beq, Assoc, lookup, insert, ltb, str_lt, Result, ok, err, if◌then◌else◌,
}
use fabriq.Query.Value.{ℤ}
use fabriq.Catalog.Entry.{
  State, pending, creating, migrating, active, suspended, failed, unknown, Entry, shard_id, Code,
  not_found, unavailable, Error, structured, plain,
}
use fabriq.Catalog.Failover.{mark_degraded_detail, is_degraded}
use fabriq.Provision.Fleet.{positive_or, is_active}

-- `catalogCacheEntry`
pub record Cached : Type 0 where
  pub answer : Result Error GoString
  pub exp : ℕ

pub record CatalogDirectory : Type 0 where
  pub ttl : ℕ
  pub min_version : GoString
  pub cache : Assoc Cached

unfoldable pub catalog_directory : ℤ → GoString → CatalogDirectory
catalog_directory ttl floor = record {
  ttl = positive_or ttl 30000000000;
  min_version = floor;
  cache = [];
}

abbrev pub state_name : State → GoString
state_name pending = codes "pending"
state_name creating = codes "creating"
state_name migrating = codes "migrating"
state_name active = codes "active"
state_name suspended = codes "suspended"
state_name failed = codes "failed"
state_name (unknown s) = s

-- The tenant's database is recorded below the floor.
abbrev pub below : GoString → Entry → Bool
below floor e = not (beq floor []) && str_lt e.version floor

-- The refusal, with its detail marked if the entry is a replica's.
abbrev pub refusal : Entry → Assoc GoString → Error
unfolding mark_degraded_detail
refusal e detail =
    structured unavailable (if e.from_replica then mark_degraded_detail detail else detail)

-- `resolve`, on what the catalog answers.
unfoldable pub resolve : GoString → Result Error Entry → Result Error GoString
unfolding shard_id
resolve floor (err x) = err x
resolve floor (ok e) =
    if not (is_active e.state)
    then err (refusal e ((codes "state", state_name e.state) ∷ []))
    else if below floor e
    then err (refusal e ((codes "version", e.version) ∷ (codes "floor", floor) ∷ []))
    else ok (shard_id e)

abbrev pub is_answer_code : Code → Bool
is_answer_code not_found = true
is_answer_code unavailable = true
is_answer_code _ = false

unfoldable pub is_catalog_answer : Error → Bool
is_catalog_answer (structured c detail) = is_answer_code c
is_catalog_answer (plain s) = false

-- The answer is stable enough to be remembered.
unfoldable pub cacheable : Result Error GoString → Bool
unfolding is_catalog_answer is_degraded
cacheable (ok id) = true
cacheable (err x) = is_catalog_answer x && not (is_degraded x)

-- The first part of `Shard`, at the time `now`.
abbrev pub fresh : ℕ → Option Cached → Option (Result Error GoString)
fresh now none = none
fresh now (some c) = if ltb now c.exp then some c.answer else none

unfoldable pub look : CatalogDirectory → GoString → ℕ → Option (Result Error GoString)
look d tenant now = fresh now (lookup tenant d.cache)

-- The last part, at the time `now`.
unfoldable pub remember : CatalogDirectory → GoString → Result Error GoString → ℕ → CatalogDirectory
unfolding cacheable
remember d tenant answer now =
    if cacheable answer
    then record d { cache = insert tenant (record { answer = answer; exp = now + d.ttl }) d.cache }
    else d

abbrev pub answered :
    CatalogDirectory
    → GoString
    → Result Error GoString
    → ℕ
    → Option (Result Error GoString)
    → Result Error GoString × CatalogDirectory
unfolding remember
answered d tenant resolved later (some answer) = (answer, d)
answered d tenant resolved later none = (resolved, remember d tenant resolved later)

-- `Shard`: `read` is what the catalog answers if it is asked.
unfoldable pub shard :
    CatalogDirectory
    → GoString
    → Result Error Entry
    → ℕ
    → ℕ
    → Result Error GoString × CatalogDirectory
unfolding look resolve
shard d tenant read now later =
    answered d tenant (resolve d.min_version read) later (look d tenant now)

-- A call that has asked the catalog about `tenant` stores the answer at the time `later`.
pub record Read : Type 0 where
  pub tenant : GoString
  pub read : Result Error Entry
  pub later : ℕ

-- The directory after the stores of other calls, the latest first.
unfoldable pub after : CatalogDirectory → List Read → CatalogDirectory
unfolding remember resolve
after d [] = d
after d (r ∷ rs) =
    let before = after d rs in remember before r.tenant (resolve before.min_version r.read) r.later
