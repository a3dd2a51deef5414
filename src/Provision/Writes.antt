-- ===== src/Provision/Writes.antt =====
-- core/provision and adapters/postgres/catalog.go: what a run ends with, and what a write of the catalog
-- leaves behind, however its request fares.
use fabriq.Prelude.{
  ℕ, suc, ◌≡◌, refl, ◌⊎◌, inl, inr, Bool, true, false, GoString, arith, ◌==◌, Bool-cases,
  Option-cases, lookup, insert, Result, ok, err,
}
use fabriq.Tenant.Schema.{valid_schema}
use fabriq.Catalog.Entry.{State, is_valid, Entry, Error, validate_entry}
use fabriq.Provision.Store.{
  Link, up, refused, lost, Env, World, M, next, send, put_checked, ◌>>=◌, put_row, put, sent,
}

-- A postcondition of a run: `P` of the value and the world if there is a value, `Q` of the world
-- otherwise.
abbrev pub Ends :
    {A : Type 0} → (A → World → Type 0) → (World → Type 0) → Result Error A × World → Type 0
Ends P Q (ok a, w) = P a w
Ends P Q (err x, w) = Q w

pub Ends-bind :
    {A B : Type 0} (P : A → World → Type 0) (R : B → World → Type 0) (Q : World → Type 0) (m : M A)
    (k : A → M B) (w : World)
    → Ends P Q (m w)
    → ((a : A) (v : World) → P a v → Ends R Q (k a v))
    → Ends R Q ((m >>= k) w)
Ends-bind {A} {B} P R Q m k w h after = from (m w) h
  where
    from : (r : Result Error A × World) → Ends P Q r → Ends R Q (next k r)
    from (ok a, v) h = after a v h
    from (err x, v) h = h

pub Ends-weaken :
    {A : Type 0} (P R : A → World → Type 0) (Q : World → Type 0) (r : Result Error A × World)
    → ((a : A) (v : World) → P a v → R a v)
    → Ends P Q r
    → Ends R Q r
Ends-weaken P R Q (ok a, v) f h = f a v h
Ends-weaken P R Q (err x, v) f h = h

-- Two entries that differ in their progress only are valid together.
pub validate_entry-progress :
    (e : Entry) (s : State) (v : GoString) (t : ℕ) (r : Bool)
    → is_valid s ≡ true
    → validate_entry valid_schema e ≡ ok tt
    → validate_entry valid_schema
        (record e { state = s; version = v; updated_at = t; from_replica = r })
      ≡ ok tt
unfolding validate_entry
validate_entry-progress e s v t r hs h = ground arith

-- The row that a write of `e` leaves.
abbrev pub stamped : Entry → ℕ → Entry
stamped e clock = record e { updated_at = suc clock; from_replica = false }

abbrev pub IsWritten : Entry → World → World → Type 0
IsWritten e w v = v.rows ≡ insert e.tenant_id (stamped e w.clock) w.rows

put_row-Ends :
    (e : Entry) (w : World)
    → Ends
        (λ e' v. (e' ≡ record e { updated_at = suc w.clock }) × IsWritten e w v)
        (λ v. (v.rows ≡ w.rows) ⊎ IsWritten e w v)
        (put_row e w)
put_row-Ends e w = elim (Bool-cases (e.updated_at == 0)) [
  | inl z ↦ elim (Option-cases (lookup e.tenant_id w.rows)) [
    | inl n ↦ rw (z, n) (refl, refl)
    | inr (old, n) ↦ rw (z, n) (inl refl)
  ]
  | inr z ↦ elim (Option-cases (lookup e.tenant_id w.rows)) [
    | inl n ↦ rw (z, n) (inl refl)
    | inr (old, n) ↦ elim (Bool-cases (old.updated_at == e.updated_at)) [
      | inl b ↦ rw (z, n, b) (refl, refl)
      | inr b ↦ rw (z, n, b) (inl refl)
    ]
  ]
]

module _ (e : Entry) (w : World) where
  abbrev pub Answered : Entry → World → Type 0
  Answered e' v = (e' ≡ record e { updated_at = suc w.clock }) × IsWritten e w v

  abbrev pub MayBeWritten : World → Type 0
  MayBeWritten v = (v.rows ≡ w.rows) ⊎ IsWritten e w v

  lost_answer : (r : Result Error Entry × World) → Ends Answered MayBeWritten r → MayBeWritten r.1
  lost_answer (ok a, v) h = inr h.1
  lost_answer (err x, v) h = h

  send-Ends : (l : Link) → Ends Answered MayBeWritten (send l (put_row e) w)
  send-Ends up = put_row-Ends e (sent w)
  send-Ends (refused x) = inl refl
  send-Ends (lost x) = lost_answer (put_row e (sent w)) (put_row-Ends e (sent w))

  put_checked-Ends :
      (env : Env) (r : Result Error (Unit {0})) → Ends Answered MayBeWritten (put_checked env e r w)
  put_checked-Ends env (err x) = inl refl
  put_checked-Ends env (ok u) = send-Ends (env.link w.requests)

  -- A write answers with the entry under its new token, or it fails; then the row may have been
  -- written.
  pub put-Ends : (env : Env) → Ends Answered MayBeWritten (put env e w)
  unfolding put
  put-Ends env = elim (Bool-cases env.read_only) [
    | inl b ↦ rw b (inl refl)
    | inr b ↦ rw b (put_checked-Ends env (validate_entry valid_schema e))
  ]
