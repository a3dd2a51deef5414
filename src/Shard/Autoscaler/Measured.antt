-- ===== src/Shard/Autoscaler/Measured.antt =====
-- adapters/shard/autoscaler.go: what the streaks of the scaler count.
use fabriq.Prelude.{
  ◌↔◌, Bool, ℕ, zero, suc, ◌+◌, ◌≤◌, ◌<◌, ◌≡◌, inl, inr, ◌⊎◌, true, false, List, [], ◌∷◌, arith,
  Bool-cases, if◌then◌else◌,
}
use fabriq.Shard.Autoscaler.{
  Doubles, Config, Signals, Autoscaler, new_autoscaler, pressure, slack, decide, ticks,
}

no_both : {b : Bool} → b ≡ true → b ≡ false → ⊥
no_both e f = ground arith

module _ {F : Type 0} (fl : Doubles F) where
  abbrev pub share : ℕ → ℕ → F
  share n zero = fl.of_nat 0
  share n (suc total) = fl.div (fl.of_nat n) (fl.of_nat (suc total))

  -- More than the high ratio of the acquisitions missed or evicted, or a caller waited or timed out. Without
  -- acquisitions the ratio is 0.
  abbrev pub UnderPressure : Config F → Signals → Type 0
  UnderPressure c s =
      (fl.lt c.miss_ratio_high (share s.misses s.acquires) ≡ true)
      ⊎ (fl.lt c.evict_rate_high (share s.evictions s.acquires) ≡ true)
      ⊎ (0 < s.waits)
      ⊎ (0 < s.timeouts)

  -- Few shards of the size are open, and of those that are few are held.
  abbrev pub HasSlack : Config F → Signals → Type 0
  HasSlack c s =
      (fl.lt (fl.of_nat s.open_count) (fl.mul (fl.of_nat s.cap) c.open_fill_low) ≡ true)
      × ((s.open_count ≡ 0)
          ⊎ (fl.lt (fl.of_nat s.held) (fl.mul (fl.of_nat s.open_count) c.held_util_low) ≡ true))

  pressure-UnderPressure :
      (c : Config F) (s : Signals) → (pressure fl c s ≡ true) ↔ UnderPressure c s
  unfolding pressure
  pressure-UnderPressure c s = ground arith

  slack-HasSlack : (c : Config F) (s : Signals) → slack fl c s ≡ true → HasSlack c s
  unfolding slack
  slack-HasSlack c s h = ground (arith, h)

  module _ (c : Config F) where
    pub decide-streaks :
        (a : Autoscaler) (s : Signals)
        → ((decide fl c a s).2.pressure_streak
            ≤ (if pressure fl c s then a.pressure_streak + 1 else 0))
          × ((decide fl c a s).2.slack_streak
              ≤ (if pressure fl c s then 0 else if slack fl c s then a.slack_streak + 1 else 0))
    unfolding decide
    decide-streaks a s = ground arith

    -- Of ticks that are given the latest first, how many in a row measured pressure.
    unfoldable pub pressed_run : List Signals → ℕ
    pressed_run [] = 0
    pressed_run (s ∷ ss) = let rest = pressed_run ss in if pressure fl c s then rest + 1 else 0

    -- The last `n` ticks, the latest first, were all under pressure.
    unfoldable pub PressedFor : ℕ → List Signals → Type 0
    PressedFor zero ss = Unit
    PressedFor (suc n) [] = ⊥
    PressedFor (suc n) (s ∷ ss) = UnderPressure c s × PressedFor n ss

    pub pressed_run-PressedFor : (n : ℕ) (ss : List Signals) → n ≤ pressed_run ss → PressedFor n ss
    unfolding pressed_run PressedFor
    pressed_run-PressedFor zero ss h = tt
    pressed_run-PressedFor (suc n) [] h = absurd (omega arith)
    pressed_run-PressedFor (suc n) (s ∷ ss) h = elim (Bool-cases (pressure fl c s)) [
      | inl y ↦
          ((pressure-UnderPressure c s).0 y, pressed_run-PressedFor n ss (ground (arith, h, y)))
      | inr y ↦ absurd (ground (arith, h, y))
    ]

    module _ (cap : ℕ) where
      -- The sample that a tick after `ss` takes.
      abbrev pub sampled : List Signals → Signals → Signals
      sampled ss s = record s { cap = (ticks fl c (cap, new_autoscaler) ss).0 }

      -- The same of slack, without pressure.
      unfoldable pub slack_run : List Signals → ℕ
      slack_run [] = 0
      slack_run (s ∷ ss) =
          let rest = slack_run ss in
          if pressure fl c s then 0 else if slack fl c (sampled ss s) then rest + 1 else 0

      pub ticks-streaks :
          (ss : List Signals)
          → let a = (ticks fl c (cap, new_autoscaler) ss).1 in
            (a.pressure_streak ≤ pressed_run ss) × (a.slack_streak ≤ slack_run ss)
      unfolding ticks pressed_run slack_run pressure
      ticks-streaks [] = (omega arith, omega arith)
      ticks-streaks (s ∷ ss) =
          let (hp, hq) = decide-streaks (ticks fl c (cap, new_autoscaler) ss).1 (sampled ss s) in
          let (ip, iq) = ticks-streaks ss in (ground (arith, hp, ip), ground (arith, hq, iq))

      -- The last `n` ticks, the latest first, all found slack and no pressure.
      unfoldable pub SlackFor : ℕ → List Signals → Type 0
      SlackFor zero ss = Unit
      SlackFor (suc n) [] = ⊥
      SlackFor (suc n) (s ∷ ss) = (¬ UnderPressure c s) × HasSlack c (sampled ss s) × SlackFor n ss

      pub slack_run-SlackFor : (n : ℕ) (ss : List Signals) → n ≤ slack_run ss → SlackFor n ss
      unfolding slack_run SlackFor
      slack_run-SlackFor zero ss h = tt
      slack_run-SlackFor (suc n) [] h = absurd (omega arith)
      slack_run-SlackFor (suc n) (s ∷ ss) h = elim (Bool-cases (pressure fl c s)) [
        | inl y ↦ absurd (ground (arith, h, y))
        | inr y ↦ elim (Bool-cases (slack fl c (sampled ss s))) [
          | inl z ↦ (
            (λ u. no_both ((pressure-UnderPressure c s).1 u) y),
            slack-HasSlack c (sampled ss s) z,
            slack_run-SlackFor n ss (ground (arith, h, y, z)),
          )
          | inr z ↦ absurd (ground (arith, h, y, z))
        ]
      ]
