-- ===== src/Shard/Tests.antt =====
-- A directory whose tenant is suspended, and the instance of the theorem on it.
use fabriq.Prelude.{
  ℕ, ◌+◌, ◌-◌, ◌*◌, ◌/◌, ◌≤◌, arith, ltb, leb, ◌≡◌, refl, false, true, [], ◌∷◌, List, GoString,
  codes, beq, str_lt, lookup, insert, ok, err,
}
use fabriq.Query.Value.{pos}
use fabriq.Catalog.Entry.{Entry, active, suspended, plain, shard_id}
use fabriq.Catalog.Failover.{mark_degraded_detail}
use fabriq.Shard.Directory.{CatalogDirectory, catalog_directory, shard, Read, after}
use fabriq.Shard.Autoscaler.{
  Doubles, RawConfig, Signals, new_autoscaler, with_defaults, decide, ticks,
}
use fabriq.Shard.Autoscaler.Measured.{PressedFor, SlackFor}
use fabriq.Shard.Autoscaler.InBounds.{ticks-IsMove, IsMove, with_defaults-IsConfig}
use fabriq.Shard.Directory.Fresh.{Answers, shard-Answers}

abbrev acme : GoString
acme = codes "acme"

abbrev entry : Entry
entry = record {
  tenant_id = acme;
  cluster_id = codes "c1";
  database = codes "db";
  state = active;
  version = codes "0002";
  schema = [];
  updated_at = 0;
  from_replica = false;
}

abbrev directory : CatalogDirectory
unfolding catalog_directory
directory = catalog_directory (pos 10) (codes "0001")

abbrev kept : List Read
kept = record { tenant = acme; read = ok entry; later = 100 } ∷ []

-- Within the TTL the tenant is still routed, whatever the catalog says.
suspended_later :
    (shard (after directory kept) acme (ok (record entry { state = suspended })) 105 106).0
    ≡ ok (codes "c1/db")
unfolding shard after lookup insert beq str_lt catalog_directory shard_id
suspended_later = refl

-- A replica's refusal is given, and not kept.
replica_refusal :
    (after directory (
      record {
        tenant = acme;
        read = ok (record entry { state = suspended; from_replica = true });
        later = 100;
      }
      ∷ [])).cache
    ≡ []
unfolding after catalog_directory lookup insert beq mark_degraded_detail
replica_refusal = refl

shard-Answers_example :
    Answers 10
      (codes "0001")
      acme
      kept
      (err (plain []))
      105
      (shard (after directory kept) acme (err (plain [])) 105 106).0
unfolding catalog_directory
shard-Answers_example = shard-Answers directory refl acme kept (err (plain [])) 105 106

-- Doubles as quotients of natural numbers.
abbrev quotients : Doubles (ℕ × ℕ)
quotients = record {
  of_nat = λ n. (n, 1);
  of_ratio = λ a b. (a, b);
  mul = λ x y. (x.0 * y.0, x.1 * y.1);
  div = λ x y. (x.0 * y.1, x.1 * y.0);
  lt = λ x y. ltb (x.0 * y.1) (y.0 * x.1);
  le = λ x y. leb (x.0 * y.1) (y.0 * x.1);
  ceil = λ x. (x.0 + (x.1 - 1)) / x.1;
  truncated = λ x. x.0 / x.1;
}

abbrev raw : RawConfig (ℕ × ℕ)
raw = record {
  min = pos 8;
  max = pos 100;
  conn_budget = pos 48;
  per_shard_conns = pos 4;
  shrink_step = pos 0;
  confirm_ticks = pos 2;
  cooldown_ticks = pos 1;
  heap_soft_limit = 0;
  grow_factor = (0, 1);
  miss_ratio_high = (0, 1);
  evict_rate_high = (0, 1);
  open_fill_low = (0, 1);
  held_util_low = (0, 1);
  heap_shrink_mult = (0, 1);
}

-- Half of the acquisitions miss.
abbrev thrashing : Signals
thrashing = record {
  acquires = 100;
  misses = 50;
  evictions = 0;
  waits = 0;
  timeouts = 0;
  open_count = 8;
  held = 8;
  cap = 0;
  heap_in_use = 0;
}

-- The second tick grows by a half, and the budget of 48 connections allows 12 shards.
grows_to_budget :
    (ticks quotients
      (with_defaults quotients raw)
      (8, new_autoscaler)
      (thrashing ∷ thrashing ∷ [])).0
    ≡ 12
unfolding ticks with_defaults
grows_to_budget = refl

ticks-IsMove_example :
    let c = with_defaults quotients raw in
    let k = with_defaults-IsConfig quotients raw in
    let p = ticks quotients c (8, new_autoscaler) (thrashing ∷ []) in
    let t = record thrashing { cap = p.0 } in
    (c.min ≤ p.0)
    × (p.0 ≤ c.max)
    × IsMove quotients c k p.1.cooldown
        (PressedFor quotients c c.confirm_ticks (thrashing ∷ thrashing ∷ []))
        (SlackFor quotients c 8 c.confirm_ticks (thrashing ∷ thrashing ∷ []))
        t
        (decide quotients c p.1 t)
unfolding with_defaults
ticks-IsMove_example =
    ticks-IsMove quotients raw 8 (thrashing ∷ []) thrashing (omega arith) (omega arith)
