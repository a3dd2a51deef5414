-- ===== src/Catalog/Tests.antt =====
-- A primary that is down, and the instances of the catalog's theorems.
use fabriq.Prelude.{
  ◌≡◌, arith, refl, [], ◌∷◌, codes, beq, lookup, Result, ok, err, false, true, arith, ◌≢◌, List,
  some, GoString, str_lt, str_lt_trans, str_lt_irrefl, str_lt_total,
}
use fabriq.Catalog.Entry.{Entry, active, Error, structured, plain, not_found, unavailable}
use fabriq.Catalog.Failover.{Catalog, Failover, new_failover, get, is_degraded}
use fabriq.Catalog.Degraded.{ReplicaRead, get-ReplicaRead, get-authoritative}
use fabriq.Query.Value.{pos}
use fabriq.Catalog.Listing.{list, collect}
use fabriq.Catalog.Listing.Sorted.{IsOrder, IsSorted}
use fabriq.Catalog.Listing.Complete.{collect_complete}
use mathlib.Core.List.{Perm}

abbrev acme : Entry
acme = record {
  tenant_id = codes "acme";
  cluster_id = codes "c1";
  database = codes "acme_db";
  state = active;
  version = [];
  schema = [];
  updated_at = 7;
  from_replica = false;
}

abbrev answering : Result Error Entry → Catalog
answering a = record { get = λ t. a; put = λ e. ok e; list = λ c n. ok ([], []) }

abbrev two_replicas : Failover
unfolding new_failover
two_replicas =
    new_failover (answering (err (structured unavailable [])))
      (answering (err (plain (codes "dial"))) ∷ answering (ok acme) ∷ [])

get-ReplicaRead_example :
    ReplicaRead two_replicas
      (codes "acme")
      (structured unavailable [])
      two_replicas.replicas
      (get two_replicas (codes "acme"))
unfolding new_failover
get-ReplicaRead_example =
    get-ReplicaRead two_replicas (codes "acme") (structured unavailable []) refl refl

abbrev healthy : Failover
unfolding new_failover
healthy = new_failover (answering (err (structured not_found []))) (answering (ok acme) ∷ [])

get-authoritative_example : healthy.primary.get (codes "acme") ≡ err (structured not_found [])
unfolding new_failover get is_degraded lookup beq
get-authoritative_example =
    get-authoritative healthy (codes "acme") (structured not_found []) refl refl refl

-- The collation "C" is the order of the bytes.
abbrev bytes-IsOrder : IsOrder str_lt
unfolding str_lt
bytes-IsOrder = record {
  trans = str_lt_trans;
  irrefl = str_lt_irrefl;
  total = str_lt_total;
  least = λ a n. first a n;
}
  where
    first : (a : GoString) → a ≢ [] → str_lt [] a ≡ true
    first [] n = absurd (n refl)
    first (x ∷ xs) n = refl

abbrev two_rows : List Entry
two_rows = record acme { tenant_id = codes "beta" } ∷ acme ∷ []

-- Pages of one row: three calls, the last of an empty page.
two_pages :
    collect 3 (λ c. ok (list str_lt two_rows c (pos 1))) []
    ≡ some (ok (acme ∷ record acme { tenant_id = codes "beta" } ∷ []))
unfolding collect list str_lt beq
two_pages = refl

collect_complete_example :
    (es : List Entry) × (collect 3 (λ c. ok (list str_lt two_rows c (pos 1))) [] ≡ some (ok es))
    × Perm es two_rows
    × IsSorted str_lt bytes-IsOrder es
collect_complete_example =
    collect_complete str_lt bytes-IsOrder two_rows
      (λ e. ground arith, (λ e. ground arith, tt), (λ e. ground arith, tt, tt)) 0 3 (omega arith)
