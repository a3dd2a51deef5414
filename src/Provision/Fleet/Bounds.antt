-- ===== src/Provision/Fleet/Bounds.antt =====
-- core/provision/provision.go: how far `fleetMigrate` may run over its failure budget.
use fabriq.Prelude.{
  ℕ, ◌+◌, ◌≤◌, ◌≡◌, refl, inl, inr, List, [], ◌∷◌, Option, none, some, GoString, arith, Bool-cases,
  Option-cases, length, length-remove_at, get_elem?, get_elem?-lt, remove_at, ltb, leb, Result, ok,
  err,
}
use fabriq.Catalog.Entry.{Entry, Error}
use fabriq.Provision.Store.{Env, World}
use fabriq.Provision.Fleet.{
  MigrateAllOpts, Roll, start, batch, max_failures, at_target, is_active, next_entry, loop_step,
  landed, Event, loops, lands, step, roll,
}

abbrev waiters : Option Entry → ℕ
waiters none = 0
waiters (some e) = 1

-- The failures that are counted, and those that the admitted migrations may still add.
pub record IsBounded (opts : MigrateAllOpts) (env : Env) (r : Roll) : Type 0 where
  pub slots : length r.flying ≤ batch opts env
  pub budget :
      r.failures + length r.flying + waiters r.waiting ≤ max_failures opts env + batch opts env
  pub counted : r.failed ≡ r.failures

module _ (opts : MigrateAllOpts) (env : Env) where
  next_entry-IsBounded :
      (es : List Entry) (r : Roll)
      → r.waiting ≡ none
      → IsBounded opts env r
      → IsBounded opts env (next_entry opts env es r)
  next_entry-IsBounded [] r p h = h
  next_entry-IsBounded (e ∷ es) r p h = elim (Bool-cases (is_active e.state)) [
    | inr a ↦ rw a (record { slots = h.slots; budget = h.budget; counted = h.counted })
    | inl a ↦ elim (Bool-cases (at_target opts env e)) [
      | inl t ↦ rw (a, t) (record { slots = h.slots; budget = h.budget; counted = h.counted })
      | inr t ↦ elim (Bool-cases (leb (max_failures opts env) r.failures)) [
        | inl m ↦ rw (a, t, m) (record { slots = h.slots; budget = h.budget; counted = h.counted })
        | inr m ↦
            rw (a, t, m)
              (record { slots = h.slots; budget = ground (arith, h.slots); counted = h.counted })
      ]
    ]
  ]

  loop_step-IsBounded :
      (w : Option Entry) (r : Roll)
      → r.waiting ≡ w
      → IsBounded opts env r
      → IsBounded opts env (loop_step opts env w r)
  loop_step-IsBounded none r p h = next_entry-IsBounded r.todo r p h
  loop_step-IsBounded (some e) r p h = elim (Bool-cases (ltb (length r.flying) (batch opts env))) [
    | inl b ↦ rw b (record {
      slots = ground (arith, h.slots);
      budget = ground (arith, h.budget);
      counted = h.counted;
    })
    | inr b ↦ rw b h
  ]

  landed-IsBounded :
      (i : ℕ) (e : Entry) (result : Result Error GoString) (r : Roll)
      → get_elem? r.flying i ≡ some e
      → IsBounded opts env r
      → IsBounded opts env (landed opts env e result (record r { flying = remove_at i r.flying }))
  landed-IsBounded i e (ok version) r q h = record {
    slots = omega (arith, shorter, h.slots);
    budget = omega (arith, shorter, h.budget);
    counted = h.counted;
  }
    where
      shorter : length (remove_at i r.flying) + 1 ≡ length r.flying
      shorter = length-remove_at i r.flying (get_elem?-lt r.flying i e q)
  landed-IsBounded i e (err x) r q h = record {
    slots = omega (arith, shorter, h.slots);
    budget = omega (arith, shorter, h.budget);
    counted = omega (arith, h.counted);
  }
    where
      shorter : length (remove_at i r.flying) + 1 ≡ length r.flying
      shorter = length-remove_at i r.flying (get_elem?-lt r.flying i e q)

  step-IsBounded :
      (r : Roll) (ev : Event) → IsBounded opts env r → IsBounded opts env (step opts env r ev)
  unfolding step
  step-IsBounded r loops h = loop_step-IsBounded r.waiting r refl h
  step-IsBounded r (lands i result) h = elim (Option-cases (get_elem? r.flying i)) [
    | inl n ↦ rw n h
    | inr (e, n) ↦ rw n (landed-IsBounded i e result r n h)
  ]

  roll-IsBounded :
      (r : Roll) (evs : List Event)
      → IsBounded opts env r
      → IsBounded opts env (roll opts env r evs)
  unfolding roll
  roll-IsBounded r [] h = h
  roll-IsBounded r (ev ∷ evs) h = roll-IsBounded (step opts env r ev) evs (step-IsBounded r ev h)

  -- At every moment of a roll at most `Batch` migrations run, and at most `Batch` more tenants have
  -- failed than the budget allows.
  pub roll-within_budget :
      (entries : List Entry) (w : World) (evs : List Event)
      → let r = roll opts env (start entries w) evs in
        (length r.flying ≤ batch opts env) × (r.failed ≤ max_failures opts env + batch opts env)
  roll-within_budget entries w evs = (h.slots, omega (arith, h.budget, h.counted))
    where
      h : IsBounded opts env (roll opts env (start entries w) evs)
      h =
          roll-IsBounded (start entries w) evs
            (record { slots = omega arith; budget = omega arith; counted = refl })
