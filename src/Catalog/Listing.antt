-- ===== src/Catalog/Listing.antt =====
-- adapters/postgres/catalog.go: `CatalogStore.List`, and the loop of core/provision/provision.go that
-- collects its pages. The order of the database's texts is a parameter.
pub mod Sorted
pub mod Behind
pub mod Complete
use fabriq.Prelude.{
  ℕ, zero, suc, Bool, true, false, List, [], ◌∷◌, ◌++◌, Option, none, some, GoString, beq, length,
  take, filter, last?, ◌==◌, Result, ok, err, if◌then◌else◌,
}
use fabriq.Query.Value.{ℤ}
use fabriq.Provision.Fleet.{positive_or}
use fabriq.Catalog.Entry.{Entry, Error}
use fabriq.Catalog.Failover.{Catalog}

abbrev last_id : Option Entry → GoString
last_id none = []
last_id (some e) = e.tenant_id

-- `ORDER BY tenant_id` and `WHERE tenant_id > $1`; `lt` is the order of the column's collation.
module _ (lt : GoString → GoString → Bool) where
  unfoldable pub place : Entry → List Entry → List Entry
  place e [] = e ∷ []
  place e (f ∷ fs) =
      let rest = place e fs in if lt e.tenant_id f.tenant_id then e ∷ f ∷ fs else f ∷ rest

  unfoldable pub sort : List Entry → List Entry
  unfolding place
  sort [] = []
  sort (e ∷ es) = place e (sort es)

  abbrev pub after : GoString → Entry → Bool
  after cursor e = lt cursor e.tenant_id

  -- The query's rows, of a table with the rows `rows`.
  unfoldable pub select : GoString → ℕ → List Entry → List Entry
  unfolding sort
  select cursor limit rows = take limit (sort (filter (after cursor) rows))

  -- The cursor of the page that follows.
  abbrev pub next_cursor : ℕ → List Entry → GoString
  next_cursor limit out = if length out == limit then last_id (last? out) else []

  -- `List`, while the database answers.
  unfoldable pub list : List Entry → GoString → ℤ → List Entry × GoString
  unfolding select
  list rows cursor limit =
      let n = positive_or limit 100 in let out = select cursor n rows in (out, next_cursor n out)

-- The loop, on fuel; `none` is a loop that goes on.
abbrev pub paged :
    Result Error (List Entry × GoString)
    → (GoString → Option (Result Error (List Entry)))
    → Option (Result Error (List Entry))
paged (err x) again = some (err x)
paged (ok (page, next)) again = if beq next [] then some (ok page) else prepended page (again next)
  where
    prepended : List Entry → Option (Result Error (List Entry)) → Option (Result Error (List Entry))
    prepended page none = none
    prepended page (some (err x)) = some (err x)
    prepended page (some (ok es)) = some (ok (page ++ es))

unfoldable pub collect :
    ℕ
    → (GoString → Result Error (List Entry × GoString))
    → GoString
    → Option (Result Error (List Entry))
collect zero answer cursor = none
collect (suc fuel) answer cursor = paged (answer cursor) (collect fuel answer)
