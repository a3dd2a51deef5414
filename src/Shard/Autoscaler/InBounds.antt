-- ===== src/Shard/Autoscaler/InBounds.antt =====
-- adapters/shard/autoscaler.go: where the size of the pool moves, and when.
use fabriq.Prelude.{
  ℕ, zero, suc, ◌≤◌, ◌<◌, ◌≡◌, refl, inl, inr, ◌⊎◌, true, false, ◌-◌, ◌&&◌, List, [], ◌∷◌, arith,
  Bool-cases, ltb, leb,
}
use fabriq.Query.Value.{ℤ, pos, negsuc}
use fabriq.Provision.Fleet.{positive_or}
use fabriq.Shard.Autoscaler.Measured.{
  PressedFor, SlackFor, sampled, pressed_run, slack_run, ticks-streaks, pressed_run-PressedFor,
  slack_run-SlackFor,
}
use fabriq.Shard.Autoscaler.{
  Doubles, ScaleDir, hold, grow, shrink, RawConfig, Config, Signals, Autoscaler, new_autoscaler,
  with_defaults, ceiling_of, heap_critical, floor_of, pressure, slack, bumped, shrunk, grown,
  can_grow, pressed, slackened, decide, ticks,
}

positive_or-lt : (x : ℤ) (d : ℕ) → 0 < d → 0 < positive_or x d
positive_or-lt (pos zero) d h = h
positive_or-lt (pos (suc n)) d h = omega arith
positive_or-lt (negsuc n) d h = h

module _ {F : Type 0} (fl : Doubles F) where
  -- What the defaults see to.
  pub record IsConfig (c : Config F) : Type 0 where
    pub ordered : c.min ≤ c.max
    pub steps : 0 < c.shrink_step

  pub with_defaults-IsConfig : (r : RawConfig F) → IsConfig (with_defaults fl r)
  unfolding with_defaults
  with_defaults-IsConfig r = record {
    ordered = ground arith;
    steps = positive_or-lt r.shrink_step 1 (omega arith);
  }

  module _ (c : Config F) (k : IsConfig c) where
    ceiling_of-bounds : (c.min ≤ ceiling_of fl c) × (ceiling_of fl c ≤ c.max)
    unfolding ceiling_of
    ceiling_of-bounds = ground (arith, k.ordered)

    floor_of-bounds :
        (s : Signals) → (c.min ≤ floor_of fl c s) × (floor_of fl c s ≤ ceiling_of fl c)
    unfolding floor_of
    floor_of-bounds s = ground (arith, ceiling_of-bounds)

    -- A tick grows the pool only if `P`, outside a cooldown and with the heap within its soft limit, to at
    -- most the ceiling; it shrinks it to at least the floor when the heap is critical, or outside a cooldown
    -- if `Q`; either starts a cooldown. Else the size stays and the cooldown runs down.
    abbrev pub IsMove : ℕ → Type 0 → Type 0 → Signals → ℕ × ScaleDir × Autoscaler → Type 0
    IsMove cooldown P Q s (n, grow, a') =
        (s.cap < n)
        × (n ≤ ceiling_of fl c)
        × (cooldown ≡ 0)
        × P
        × (0 < c.heap_soft_limit → s.heap_in_use ≤ c.heap_soft_limit)
        × (a'.cooldown ≡ c.cooldown_ticks)
    IsMove cooldown P Q s (n, shrink, a') =
        (n < s.cap)
        × (floor_of fl c s ≤ n)
        × ((heap_critical fl c s.heap_in_use ≡ true) ⊎ ((cooldown ≡ 0) × Q))
        × (a'.cooldown ≡ c.cooldown_ticks)
    IsMove cooldown P Q s (n, hold, a') = (n ≡ s.cap) × (a'.cooldown ≡ cooldown - 1)

    IsMove-map :
        (w : ℕ) (P P' Q Q' : Type 0) (s : Signals) (n : ℕ) (d : ScaleDir) (a' : Autoscaler)
        → (P → P')
        → (Q → Q')
        → IsMove w P Q s (n, d, a')
        → IsMove w P' Q' s (n, d, a')
    IsMove-map w P P' Q Q' s n grow a' f g (h1, h2, h3, h4, h5, h6) = (h1, h2, h3, f h4, h5, h6)
    IsMove-map w P P' Q Q' s n shrink a' f g (h1, h2, inl h, h4) = (h1, h2, inl h, h4)
    IsMove-map w P P' Q Q' s n shrink a' f g (h1, h2, inr h, h4) = (h1, h2, inr (h.0, g h.1), h4)
    IsMove-map w P P' Q Q' s n hold a' f g h = h

    shrunk-bounds :
        (s : Signals)
        → floor_of fl c s < s.cap
        → (shrunk fl c s < s.cap) × (floor_of fl c s ≤ shrunk fl c s)
    shrunk-bounds s h = ground (arith, k.steps)

    grown-bounds :
        (s : Signals)
        → can_grow fl c s ≡ true
        → (s.cap < grown fl c s) × (grown fl c s ≤ ceiling_of fl c)
    grown-bounds s h = ground (arith, (floor_of-bounds s).1)

    module _ (a : Autoscaler) (s : Signals) (p q : ℕ) where
      pressed-IsMove :
          a.cooldown ≡ 0
          → a.pressure_streak < p
          → IsMove a.cooldown (c.confirm_ticks ≤ p) (c.confirm_ticks ≤ q) s (pressed fl c a s)
      pressed-IsMove z m =
          elim (Bool-cases
            (leb c.confirm_ticks (bumped fl c a.pressure_streak) && can_grow fl c s)) [
              | inr b ↦ rw b (refl, ground arith)
              | inl b ↦ rw b (
                (grown-bounds s (ground arith)).0,
                (grown-bounds s (ground arith)).1,
                z,
                ground arith,
                (λ w. ground arith),
                refl,
              )
            ]

      slackened-IsMove :
          a.cooldown ≡ 0
          → a.slack_streak < q
          → IsMove a.cooldown (c.confirm_ticks ≤ p) (c.confirm_ticks ≤ q) s (slackened fl c a s)
      slackened-IsMove z m =
          elim (Bool-cases
            (leb c.confirm_ticks (bumped fl c a.slack_streak) && ltb (floor_of fl c s) s.cap)) [
              | inr b ↦ rw b (refl, ground arith)
              | inl b ↦ rw b (
                (shrunk-bounds s (ground arith)).0,
                (shrunk-bounds s (ground arith)).1,
                inr (z, ground arith),
                refl,
              )
            ]

      decide-IsMove :
          (pressure fl c s ≡ true → a.pressure_streak < p)
          → (pressure fl c s ≡ false → slack fl c s ≡ true → a.slack_streak < q)
          → IsMove a.cooldown (c.confirm_ticks ≤ p) (c.confirm_ticks ≤ q) s (decide fl c a s)
      unfolding decide
      decide-IsMove hp hq =
          elim (Bool-cases (heap_critical fl c s.heap_in_use && ltb (floor_of fl c s) s.cap)) [
            | inl b ↦ rw b (
              (shrunk-bounds s (ground arith)).0,
              (shrunk-bounds s (ground arith)).1,
              inl (ground arith),
              refl,
            )
            | inr b ↦ elim (Bool-cases (ltb 0 a.cooldown)) [
              | inl w ↦ rw (b, w) (refl, refl)
              | inr w ↦ elim (Bool-cases (pressure fl c s)) [
                | inl y ↦ rw (b, w, y) (pressed-IsMove (ground arith) (hp y))
                | inr y ↦ elim (Bool-cases (slack fl c s)) [
                  | inl z ↦ rw (b, w, y, z) (slackened-IsMove (ground arith) (hq y z))
                  | inr z ↦ rw (b, w, y, z) (refl, ground arith)
                ]
              ]
            ]
          ]

    -- A move leaves the pool between `Min` and `Max`.
    IsMove-bounds :
        (w : ℕ) (P Q : Type 0) (s : Signals) (n : ℕ) (d : ScaleDir) (a' : Autoscaler)
        → IsMove w P Q s (n, d, a')
        → c.min ≤ s.cap
        → s.cap ≤ c.max
        → (c.min ≤ n) × (n ≤ c.max)
    IsMove-bounds w P Q s n hold a' m l h = ground (arith, m.0)
    IsMove-bounds w P Q s n grow a' m l h =
        (omega (arith, m.0), omega (arith, m.1, ceiling_of-bounds.1))
    IsMove-bounds w P Q s n shrink a' m l h =
        (omega (arith, m.1, (floor_of-bounds s).0), omega (arith, m.0))

    module _ (cap : ℕ) where
      next-IsMove :
          (ss : List Signals) (s : Signals)
          → let a = (ticks fl c (cap, new_autoscaler) ss).1 in
            IsMove a.cooldown
              (PressedFor fl c c.confirm_ticks (s ∷ ss))
              (SlackFor fl c cap c.confirm_ticks (s ∷ ss))
              (sampled fl c cap ss s)
              (decide fl c a (sampled fl c cap ss s))
      unfolding pressed_run slack_run pressure
      next-IsMove ss s =
          let (ip, iq) = ticks-streaks fl c cap ss in
          let a : Autoscaler = (ticks fl c (cap, new_autoscaler) ss).1 in
          let d : ℕ × ScaleDir × Autoscaler = decide fl c a (sampled fl c cap ss s) in
          IsMove-map a.cooldown (c.confirm_ticks ≤ pressed_run fl c (s ∷ ss))
            (PressedFor fl c c.confirm_ticks (s ∷ ss))
            (c.confirm_ticks ≤ slack_run fl c cap (s ∷ ss))
            (SlackFor fl c cap c.confirm_ticks (s ∷ ss)) (sampled fl c cap ss s) d.0 d.1 d.2
            (pressed_run-PressedFor fl c c.confirm_ticks (s ∷ ss))
            (slack_run-SlackFor fl c cap c.confirm_ticks (s ∷ ss))
            (decide-IsMove a (sampled fl c cap ss s) (pressed_run fl c (s ∷ ss))
              (slack_run fl c cap (s ∷ ss)) (λ y. rw y (omega (arith, ip)))
              (λ y z. rw (y, z) (omega (arith, iq))))

      ticks-bounds :
          (ss : List Signals)
          → c.min ≤ cap
          → cap ≤ c.max
          → (c.min ≤ (ticks fl c (cap, new_autoscaler) ss).0)
            × ((ticks fl c (cap, new_autoscaler) ss).0 ≤ c.max)
      unfolding ticks
      ticks-bounds [] l h = (l, h)
      ticks-bounds (s ∷ ss) l h =
          let a : Autoscaler = (ticks fl c (cap, new_autoscaler) ss).1 in
          let d : ℕ × ScaleDir × Autoscaler = decide fl c a (sampled fl c cap ss s) in
          let (l', h') = ticks-bounds ss l h in
          IsMove-bounds a.cooldown (PressedFor fl c c.confirm_ticks (s ∷ ss))
            (SlackFor fl c cap c.confirm_ticks (s ∷ ss)) (sampled fl c cap ss s) d.0 d.1 d.2
            (next-IsMove ss s) l' h'

  -- Whatever is measured and however doubles are rounded, a pool whose size starts between `Min` and
  -- `Max` stays there, and from wherever the ticks have brought it the next one makes a legal move: it grows
  -- only after `ConfirmTicks` ticks in a row under pressure, this one included, and shrinks only with a
  -- critical heap or after as many in a row with slack and no pressure.
  pub ticks-IsMove :
      (r : RawConfig F) (cap : ℕ) (ss : List Signals) (s : Signals)
      → (with_defaults fl r).min ≤ cap
      → cap ≤ (with_defaults fl r).max
      → let c = with_defaults fl r in
        let k = with_defaults-IsConfig r in
        let p = ticks fl c (cap, new_autoscaler) ss in
        let t = record s { cap = p.0 } in
        (c.min ≤ p.0)
        × (p.0 ≤ c.max)
        × IsMove c k p.1.cooldown
            (PressedFor fl c c.confirm_ticks (s ∷ ss))
            (SlackFor fl c cap c.confirm_ticks (s ∷ ss))
            t
            (decide fl c p.1 t)
  ticks-IsMove r cap ss s l h =
      let c = with_defaults fl r in
      let k = with_defaults-IsConfig r in
      let b = ticks-bounds c k cap ss l h in (b.0, b.1, next-IsMove c k cap ss s)
