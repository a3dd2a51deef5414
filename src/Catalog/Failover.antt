-- ===== src/Catalog/Failover.antt =====
-- core/catalog/failover.go: reads go to the primary first, and to replicas when it is unreachable.
use fabriq.Prelude.{
  ℕ, ◌+◌, Bool, true, false, List, [], ◌∷◌, Option, none, some, GoString, codes, beq, Assoc, lookup,
  insert, Result, ok, err, if◌then◌else◌,
}
use fabriq.Catalog.Entry.{Entry, not_found, Error, structured, plain}

-- What a catalog answers at the moment of the call.
pub record Catalog : Type 0 where
  pub get : GoString → Result Error Entry
  pub put : Entry → Result Error Entry
  pub list : GoString → ℕ → Result Error (List Entry × GoString)

pub record Failover : Type 0 where
  pub primary : Catalog
  pub replicas : List Catalog
  pub primary_reads : ℕ
  pub replica_reads : ℕ
  pub failover_reads : ℕ

unfoldable pub new_failover : Catalog → List Catalog → Failover
new_failover primary replicas = record {
  primary = primary;
  replicas = replicas;
  primary_reads = 0;
  replica_reads = 0;
  failover_reads = 0;
}

abbrev pub is_not_found : Error → Bool
is_not_found (structured not_found detail) = true
is_not_found _ = false

unfoldable pub primary_definitive : Result Error Entry → Bool
primary_definitive (ok e) = true
primary_definitive (err x) = is_not_found x

abbrev pub degraded_key : GoString
degraded_key = codes "catalog"

abbrev pub degraded_value : GoString
degraded_value = codes "degraded"

-- A nil detail map is the empty one.
unfoldable pub mark_degraded_detail : Assoc GoString → Assoc GoString
mark_degraded_detail detail = insert degraded_key degraded_value detail

unfoldable pub degraded : Error
unfolding mark_degraded_detail
degraded = structured not_found (mark_degraded_detail [])

abbrev or_empty : Option GoString → GoString
or_empty none = []
or_empty (some s) = s

unfoldable pub is_degraded : Error → Bool
is_degraded (structured c detail) = beq (or_empty (lookup degraded_key detail)) degraded_value
is_degraded (plain s) = false

abbrev pub served_by_replica : Failover → Failover
served_by_replica f = record f {
  replica_reads = f.replica_reads + 1;
  failover_reads = f.failover_reads + 1;
}

-- The loop over the replicas, on what the current one answered and the loop over the others.
unfoldable pub replica_answer :
    Failover → Result Error Entry → (Result Error Entry × Failover) → Result Error Entry × Failover
replica_answer f (ok e) others = (ok (record e { from_replica = true }), served_by_replica f)
replica_answer f (err x) others =
    if is_not_found x then (err degraded, served_by_replica f) else others

unfoldable pub get_replicas :
    Failover → GoString → Error → List Catalog → Result Error Entry × Failover
unfolding replica_answer
get_replicas f tenant primary_err [] = (err primary_err, f)
get_replicas f tenant primary_err (r ∷ rs) =
    replica_answer f (r.get tenant) (get_replicas f tenant primary_err rs)

abbrev pub get_after : Failover → GoString → Result Error Entry → Result Error Entry × Failover
get_after f tenant (ok e) = (ok e, record f { primary_reads = f.primary_reads + 1 })
get_after f tenant (err x) =
    if is_not_found x
    then (err x, record f { primary_reads = f.primary_reads + 1 })
    else get_replicas f tenant x f.replicas

unfoldable pub get : Failover → GoString → Result Error Entry × Failover
unfolding get_replicas
get f tenant = get_after f tenant (f.primary.get tenant)

abbrev pub first_list :
    Result Error (List Entry × GoString)
    → Result Error (List Entry × GoString)
    → Result Error (List Entry × GoString)
first_list (ok page) others = ok page
first_list (err x) others = others

unfoldable pub list_replicas :
    GoString → ℕ → Error → List Catalog → Result Error (List Entry × GoString)
list_replicas cursor limit primary_err [] = err primary_err
list_replicas cursor limit primary_err (r ∷ rs) =
    first_list (r.list cursor limit) (list_replicas cursor limit primary_err rs)

abbrev pub list_after :
    Failover
    → GoString
    → ℕ
    → Result Error (List Entry × GoString)
    → Result Error (List Entry × GoString)
list_after f cursor limit (ok page) = ok page
list_after f cursor limit (err x) = list_replicas cursor limit x f.replicas

unfoldable pub list : Failover → GoString → ℕ → Result Error (List Entry × GoString)
unfolding list_replicas
list f cursor limit = list_after f cursor limit (f.primary.list cursor limit)

unfoldable pub put : Failover → Entry → Result Error Entry
put f e = f.primary.put e

unfoldable pub read_stats : Failover → ℕ × ℕ × ℕ
read_stats f = (f.primary_reads, f.replica_reads, f.failover_reads)
