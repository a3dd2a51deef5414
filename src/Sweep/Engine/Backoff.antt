-- ===== src/Sweep/Engine/Backoff.antt =====
-- core/sweep/sweep.go: how far an idle tenant backs off.
use fabriq.Prelude.{
  ℕ, zero, suc, ◌≤◌, max, ◌≡◌, refl, inl, inr, Bool, true, false, not, ◌&&◌, [], ◌∷◌, Option, none,
  some, GoString, arith, Bool-cases, beq, Assoc, lookup, insert, lookup-insert, lookup-delete,
  Result, ok, err, if◌then◌else◌,
}
use fabriq.Catalog.Entry.{Error}
use fabriq.Sweep.Table.{
  Config, PassResult, busy, TenantState, or_fresh, wake_row, unseen, decayed, decay_one, decay_rows,
  next_backoff, backoff_locked, compacted_at,
}
use fabriq.Sweep.Engine.{landed_row, set_row}

module _ (cfg : Config) where
  abbrev pub most : ℕ
  most = max cfg.backoff_base cfg.backoff_cap

  -- No row backs off for longer than the cap, or than the base if that is longer.
  abbrev pub IsBacked : Assoc TenantState → Type 0
  IsBacked m = (t : GoString) → (or_fresh (lookup t m)).backoff ≤ most

  pub IsBacked-insert :
      (k : GoString) (st : TenantState) (m : Assoc TenantState)
      → st.backoff ≤ most
      → IsBacked m
      → IsBacked (insert k st m)
  IsBacked-insert k st m b h t = elim (Bool-cases (beq k t)) [
    | inl e ↦ rw (lookup-insert k t st m, e) b
    | inr e ↦ rw (lookup-insert k t st m, e) (h t)
  ]

  pub IsBacked-wake_row :
      (k : GoString) (m : Assoc TenantState) → IsBacked m → IsBacked (wake_row k m)
  unfolding wake_row
  IsBacked-wake_row k m h = IsBacked-insert k _ m (omega arith) h

  pub IsBacked-unseen : (m : Assoc TenantState) → IsBacked m → IsBacked (unseen m)
  unfolding unseen lookup
  IsBacked-unseen m h t = rw (same m t) (h t)
    where
      same :
          (m : Assoc TenantState) (t : GoString)
          → (or_fresh (lookup t (unseen m))).backoff ≡ (or_fresh (lookup t m)).backoff
      same [] t = refl
      same ((j, st) ∷ m) t = elim (Bool-cases (beq j t)) [
        | inl e ↦ rw e refl
        | inr e ↦ rw e (same m t)
      ]

  IsBacked-decayed :
      (k : GoString) (o : Option TenantState) (m : Assoc TenantState)
      → IsBacked m
      → IsBacked (decayed k o m)
  IsBacked-decayed k none m h t = h t
  IsBacked-decayed k (some st) m h t = elim (Bool-cases (not st.seen && not st.in_flight)) [
    | inr d ↦ rw d (h t)
    | inl d ↦ elim (Bool-cases (beq k t)) [
      | inl e ↦ rw (d, lookup-delete k t m, e) (omega arith)
      | inr e ↦ rw (d, lookup-delete k t m, e) (h t)
    ]
  ]

  pub IsBacked-decay_rows : (rows m : Assoc TenantState) → IsBacked m → IsBacked (decay_rows rows m)
  unfolding decay_rows decay_one
  IsBacked-decay_rows [] m h = h
  IsBacked-decay_rows ((k, st) ∷ rows) m h =
      IsBacked-decay_rows rows (decay_one k m) (IsBacked-decayed k (lookup k m) m h)

  next_backoff-le : (b : ℕ) → next_backoff cfg b ≤ most
  next_backoff-le zero = omega arith
  next_backoff-le (suc b) = ground arith

  pub landed_row-backoff :
      (jitter : ℕ → ℕ) (done : ℕ) (compact : Bool) (result : Result Error PassResult)
      (st : TenantState)
      → (landed_row cfg jitter done compact result st).backoff ≤ most
  unfolding landed_row backoff_locked
  landed_row-backoff jitter done compact (err x) st = next_backoff-le st.backoff
  landed_row-backoff jitter done compact (ok r) st = either compact (busy r)
    where
      either :
          (c b : Bool)
          → (compacted_at c done (
              if b
              then record st { in_flight = false; backoff = 0; next_due = done }
              else backoff_locked cfg jitter done (record st { in_flight = false }))).backoff
            ≤ most
      either true true = omega arith
      either false true = omega arith
      either true false = next_backoff-le st.backoff
      either false false = next_backoff-le st.backoff

  pub IsBacked-set_row :
      (k : GoString) (f : TenantState → TenantState) (o : Option TenantState)
      (m : Assoc TenantState)
      → ((st : TenantState) → (f st).backoff ≤ most)
      → IsBacked m
      → IsBacked (set_row k f o m)
  IsBacked-set_row k f none m b h = h
  IsBacked-set_row k f (some st) m b h = IsBacked-insert k (f st) m (b st) h
