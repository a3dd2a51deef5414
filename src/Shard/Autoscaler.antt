-- ===== src/Shard/Autoscaler.antt =====
-- adapters/shard/autoscaler.go: the size of the pool of shards, tick by tick. Doubles are a type
-- parameter with the operations that the code uses.
pub mod InBounds
pub mod Measured
use fabriq.Prelude.{
  ℕ, ◌+◌, ◌-◌, ◌/◌, Bool, true, false, not, ◌&&◌, ◌||◌, List, [], ◌∷◌, ltb, leb, ◌==◌,
  if◌then◌else◌,
}
use fabriq.Query.Value.{ℤ}
use fabriq.Provision.Fleet.{positive_or}

-- `of_ratio` is the literal nearest to a quotient; `ceil` and `truncated` end in an integer.
pub record Doubles (F : Type 0) : Type 0 where
  pub of_nat : ℕ → F
  pub of_ratio : ℕ → ℕ → F
  pub mul : F → F → F
  pub div : F → F → F
  pub lt : F → F → Bool
  pub le : F → F → Bool
  pub ceil : F → ℕ
  pub truncated : F → ℕ

pub data ScaleDir : Type 0 where
  hold grow shrink : ScaleDir

-- `AutoscaleConfig` as the caller fills it in, less the interval of the ticks.
pub record RawConfig (F : Type 0) : Type 0 where
  pub min : ℤ
  pub max : ℤ
  pub conn_budget : ℤ
  pub per_shard_conns : ℤ
  pub shrink_step : ℤ
  pub confirm_ticks : ℤ
  pub cooldown_ticks : ℤ
  pub heap_soft_limit : ℕ
  pub grow_factor : F
  pub miss_ratio_high : F
  pub evict_rate_high : F
  pub open_fill_low : F
  pub held_util_low : F
  pub heap_shrink_mult : F

-- The same after the defaults; a budget of 0 is no budget.
pub record Config (F : Type 0) : Type 0 where
  pub min : ℕ
  pub max : ℕ
  pub conn_budget : ℕ
  pub per_shard_conns : ℕ
  pub shrink_step : ℕ
  pub confirm_ticks : ℕ
  pub cooldown_ticks : ℕ
  pub heap_soft_limit : ℕ
  pub grow_factor : F
  pub miss_ratio_high : F
  pub evict_rate_high : F
  pub open_fill_low : F
  pub held_util_low : F
  pub heap_shrink_mult : F

-- `poolSignals`
pub record Signals : Type 0 where
  pub acquires : ℕ
  pub misses : ℕ
  pub evictions : ℕ
  pub waits : ℕ
  pub timeouts : ℕ
  pub open_count : ℕ
  pub held : ℕ
  pub cap : ℕ
  pub heap_in_use : ℕ

-- `autoscaler`, less its configuration.
pub record Autoscaler : Type 0 where
  pub pressure_streak : ℕ
  pub slack_streak : ℕ
  pub cooldown : ℕ

abbrev pub new_autoscaler : Autoscaler
new_autoscaler = record { pressure_streak = 0; slack_streak = 0; cooldown = 0 }

module _ {F : Type 0} (fl : Doubles F) where
  open fl use {of_nat, of_ratio, mul, div, lt, le, ceil, truncated}

  -- `if x <= 0 { x = default }` and `if x < least { x = default }`
  abbrev positive_double : F → F → F
  positive_double x d = if le x (of_nat 0) then d else x

  abbrev at_least : F → F → F → F
  at_least least x d = if lt x least then d else x

  unfoldable pub with_defaults : RawConfig F → Config F
  with_defaults r =
      let lo = positive_or r.min 8 in
      let hi = positive_or r.max 128 in
      record {
        min = lo;
        max = if ltb hi lo then lo else hi;
        conn_budget = positive_or r.conn_budget 0;
        per_shard_conns = positive_or r.per_shard_conns 4;
        shrink_step = positive_or r.shrink_step 1;
        confirm_ticks = positive_or r.confirm_ticks 3;
        cooldown_ticks = positive_or r.cooldown_ticks 3;
        heap_soft_limit = r.heap_soft_limit;
        grow_factor = at_least (of_ratio 11 10) r.grow_factor (of_ratio 3 2);
        miss_ratio_high = positive_double r.miss_ratio_high (of_ratio 1 5);
        evict_rate_high = positive_double r.evict_rate_high (of_ratio 1 10);
        open_fill_low = positive_double r.open_fill_low (of_ratio 3 4);
        held_util_low = positive_double r.held_util_low (of_ratio 1 2);
        heap_shrink_mult = at_least (of_nat 1) r.heap_shrink_mult (of_ratio 11 10);
      }

  -- `effectiveCeiling`, its two results.
  unfoldable pub ceiling_of : Config F → ℕ
  ceiling_of c =
      let budget = c.conn_budget / c.per_shard_conns in
      let ceiling = if ltb 0 c.conn_budget && ltb budget c.max then budget else c.max in
      if ltb ceiling c.min then c.min else ceiling

  unfoldable pub heap_critical : Config F → ℕ → Bool
  heap_critical c heap =
      ltb 0 c.heap_soft_limit
      && ltb (truncated (mul (of_nat c.heap_soft_limit) c.heap_shrink_mult)) heap

  -- `lo`
  unfoldable pub floor_of : Config F → Signals → ℕ
  unfolding ceiling_of
  floor_of c s =
      let lo = if ltb c.min s.held then s.held else c.min in
      if ltb (ceiling_of c) lo then ceiling_of c else lo

  abbrev ratio : ℕ → ℕ → F
  ratio n total = if ltb 0 total then div (of_nat n) (of_nat total) else of_nat 0

  unfoldable pub pressure : Config F → Signals → Bool
  pressure c s =
      lt c.miss_ratio_high (ratio s.misses s.acquires)
      || lt c.evict_rate_high (ratio s.evictions s.acquires)
      || (ltb 0 s.waits || ltb 0 s.timeouts)

  unfoldable pub slack : Config F → Signals → Bool
  slack c s =
      lt (of_nat s.open_count) (mul (of_nat s.cap) c.open_fill_low)
      && (s.open_count == 0 || lt (of_nat s.held) (mul (of_nat s.open_count) c.held_util_low))

  abbrev pub bumped : Config F → ℕ → ℕ
  bumped c streak = if ltb streak c.confirm_ticks then streak + 1 else streak

  -- `s.cap - cfg.ShrinkStep`, not below `lo`.
  abbrev pub shrunk : Config F → Signals → ℕ
  shrunk c s =
      if ltb (s.cap - c.shrink_step) (floor_of c s) then floor_of c s else s.cap - c.shrink_step

  abbrev pub grown : Config F → Signals → ℕ
  grown c s =
      let g = ceil (mul (of_nat s.cap) c.grow_factor) in
      let g' = if leb g s.cap then s.cap + 1 else g in
      let g'' = if ltb (ceiling_of c) g' then ceiling_of c else g' in
      if ltb g'' (floor_of c s) then floor_of c s else g''

  abbrev pub can_grow : Config F → Signals → Bool
  can_grow c s =
      ltb s.cap (ceiling_of c)
      && not (ltb 0 c.heap_soft_limit && ltb c.heap_soft_limit s.heap_in_use)

  abbrev pub settled : ℕ → Autoscaler
  settled cooldown = record { pressure_streak = 0; slack_streak = 0; cooldown = cooldown }

  abbrev pub pressed : Config F → Autoscaler → Signals → ℕ × ScaleDir × Autoscaler
  pressed c a s =
      let streak = bumped c a.pressure_streak in
      if leb c.confirm_ticks streak && can_grow c s
      then (grown c s, grow, settled c.cooldown_ticks)
      else (s.cap, hold, record a { pressure_streak = streak; slack_streak = 0 })

  abbrev pub slackened : Config F → Autoscaler → Signals → ℕ × ScaleDir × Autoscaler
  slackened c a s =
      let streak = bumped c a.slack_streak in
      if leb c.confirm_ticks streak && ltb (floor_of c s) s.cap
      then (shrunk c s, shrink, settled c.cooldown_ticks)
      else (s.cap, hold, record a { pressure_streak = 0; slack_streak = streak })

  -- `decide`, less the reason.
  unfoldable pub decide : Config F → Autoscaler → Signals → ℕ × ScaleDir × Autoscaler
  unfolding floor_of heap_critical pressure slack
  decide c a s =
      if heap_critical c s.heap_in_use && ltb (floor_of c s) s.cap
      then (shrunk c s, shrink, settled c.cooldown_ticks)
      else if ltb 0 a.cooldown
      then (s.cap, hold, settled (a.cooldown - 1))
      else if pressure c s
      then pressed c a s
      else if slack c s
      then slackened c a s
      else (s.cap, hold, settled a.cooldown)

  -- The ticks from a start, the latest first: each samples the pool at the size that the last one set.
  unfoldable pub ticks : Config F → ℕ × Autoscaler → List Signals → ℕ × Autoscaler
  unfolding decide
  ticks c start [] = start
  ticks c start (s ∷ ss) =
      let p = ticks c start ss in let d = decide c p.1 (record s { cap = p.0 }) in (d.0, d.2)
