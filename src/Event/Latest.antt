-- ===== src/Event/Latest.antt =====
-- core/event/upcast.go: the results of `Register` and `Apply`.
use fabriq.Prelude.{
  ℕ, zero, suc, ◌+◌, ◌-◌, ◌≤◌, ◌<◌, ◌≡◌, refl, [], ◌∷◌, Option, none, some, arith, inl, inr,
  Option-cases, GoString, beq, lookup, insert, lookup-insert, Result, ok, err, ◌==◌, if◌then◌else◌,
}
use fabriq.Event.Envelope.{Envelope}
use fabriq.Event.Upcast.{
  Migration, Steps, step_at, UpcasterChain, Upcaster, steps_of, register, UpcastError, migrated,
  apply_loop, ceiling, apply, after_migration, apply_step,
}

step_at-ceiling :
    (v : ℕ) (steps : Steps) {m : Migration} → step_at v steps ≡ some m → v < ceiling steps
unfolding step_at
step_at-ceiling v [] h = absurd (ground arith)
step_at-ceiling v ((u, n) ∷ steps) {m} h = ground (arith, step_at-ceiling v steps {m = m})

abbrev IsSomeStep : Option Migration → Type 0
IsSomeStep none = ⊥
IsSomeStep (some m) = Unit

-- What `Apply` may return: an envelope past every step, changed in payload and schema version only,
-- or the error of a step that was there and whose migration failed.
abbrev pub IsLatest : Steps → Envelope → Result UpcastError Envelope → Type 0
IsLatest steps env (ok env') =
    (step_at env'.payload_schema_version steps ≡ none)
    × (env.payload_schema_version ≤ env'.payload_schema_version)
    × (env' ≡ record env {
      payload = env'.payload;
      payload_schema_version = env'.payload_schema_version;
    })
IsLatest steps env (err e) =
    (m : Migration) × (step_at e.version steps ≡ some m)
    × (env.payload_schema_version ≤ e.version)
    × (payload : GoString) × (m payload ≡ err e.cause)

IsLatest-migrated :
    (steps : Steps) (env : Envelope) (payload : GoString) (r : Result UpcastError Envelope)
    → IsLatest steps (migrated env payload) r
    → IsLatest steps env r
IsLatest-migrated steps env payload (ok env') (done, le, same) = (done, omega arith, same)
IsLatest-migrated steps env payload (err e) (m, found, le, p, bad) = (m, found, omega arith, p, bad)

module _ (steps : Steps) (env : Envelope)
    (again : Envelope → Option (Result UpcastError Envelope)) where
  abbrev Ends : Option (Result UpcastError Envelope) → Type 0
  Ends o = (r : Result UpcastError Envelope) × (o ≡ some r) × IsLatest steps env r

  after_migration-Ends :
      (m : Migration)
      → step_at env.payload_schema_version steps ≡ some m
      → (res : Result GoString GoString) → m env.payload ≡ res
      → ((payload : GoString)
          → (r : Result UpcastError Envelope) × (again (migrated env payload) ≡ some r)
            × IsLatest steps (migrated env payload) r)
      → Ends (after_migration res env again)
  after_migration-Ends m found (err e) bad next = (
    err (record { type = env.type; version = env.payload_schema_version; cause = e }),
    refl,
    (m, found, omega arith, env.payload, bad),
  )
  after_migration-Ends m found (ok payload) good next =
      let (r, e, l) = next payload in (r, e, IsLatest-migrated steps env payload r l)

  apply_step-Ends :
      (o : Option Migration)
      → step_at env.payload_schema_version steps ≡ o
      → ((payload : GoString)
          → IsSomeStep o
          → (r : Result UpcastError Envelope) × (again (migrated env payload) ≡ some r)
            × IsLatest steps (migrated env payload) r)
      → Ends (apply_step o env again)
  apply_step-Ends none done next = (ok env, refl, (done, omega arith, refl))
  apply_step-Ends (some m) found next =
      after_migration-Ends m found (m env.payload) refl (λ payload. next payload tt)

apply_loop_lem :
    (fuel : ℕ) (steps : Steps) (env : Envelope)
    → ceiling steps - env.payload_schema_version < fuel
    → (r : Result UpcastError Envelope) × (apply_loop fuel steps env ≡ some r)
      × IsLatest steps env r
unfolding apply_loop
apply_loop_lem zero steps env h = absurd (omega arith)
apply_loop_lem (suc fuel) steps env h =
    apply_step-Ends steps env (λ env'. apply_loop fuel steps env')
      (step_at env.payload_schema_version steps) refl
      (λ payload step.
        apply_loop_lem fuel steps (migrated env payload)
          (smaller (step_at env.payload_schema_version steps) refl step))
  where
    smaller :
        (o : Option Migration)
        → step_at env.payload_schema_version steps ≡ o
        → IsSomeStep o
        → ceiling steps - (env.payload_schema_version + 1) < fuel
    smaller none e s = absurd s
    smaller (some m) e s = omega (arith, step_at-ceiling env.payload_schema_version steps e)

-- `Apply` always ends. Its result is the envelope at a schema version that no step migrates any
-- further, changed in payload and schema version only, or the error of a migration that failed on
-- some payload at a version it was registered for.
pub apply-IsLatest :
    (c : UpcasterChain) (env : Envelope)
    → (r : Result UpcastError Envelope) × (apply c env ≡ some r)
      × IsLatest (steps_of (lookup env.type c.steps)) env r
unfolding apply
apply-IsLatest c env =
    let steps = steps_of (lookup env.type c.steps) in
    apply_loop_lem (suc (ceiling steps)) steps env (omega arith)

module _ (c : UpcasterChain) (u : Upcaster) where
  abbrev here : Steps
  here = steps_of (lookup u.type c.steps)

  -- `Register` adds the one step (type, from version), which was not there, and keeps all others.
  pub register-adds :
      (c' : UpcasterChain)
      → register c u ≡ ok c'
      → (m : Migration) × (u.fn ≡ some m)
        × (step_at u.from_version here ≡ none)
        × ((type : GoString) (v : ℕ)
            → step_at v (steps_of (lookup type c'.steps)) ≡ (
                if beq u.type type
                then (if u.from_version == v then some m else step_at v here)
                else step_at v (steps_of (lookup type c.steps))))
  unfolding register
  register-adds c' h = elim (Option-cases u.fn) [
    | inl nil ↦ absurd (ground arith)
    | inr (m, fn) ↦ elim (Option-cases (step_at u.from_version here)) [
      | inl fresh ↦ (m, fn, fresh, λ type v. rw (added m fn fresh) (found m type v))
      | inr (dup, e) ↦ absurd (ground arith)
    ]
  ]
    where
      added :
          (m : Migration)
          → u.fn ≡ some m
          → step_at u.from_version here ≡ none
          → c' ≡ record { steps = insert u.type ((u.from_version, m) ∷ here) c.steps }
      added m fn fresh = ground arith

      found :
          (m : Migration) (type : GoString) (v : ℕ)
          → step_at v (steps_of (lookup type (insert u.type ((u.from_version, m) ∷ here) c.steps)))
            ≡ (if beq u.type type
                then (if u.from_version == v then some m else step_at v here)
                else step_at v (steps_of (lookup type c.steps)))
      found m type v = rw lookup-insert (unfold step_at in ground arith)
