-- ===== src/Provision/Keeps.antt =====
-- core/provision: what a run of `Provision` leaves behind, however its requests fare.
use fabriq.Prelude.{
  ℕ, suc, ◌<◌, ◌≡◌, ◌≢◌, refl, ◌⊎◌, inl, inr, Bool, true, false, [], none, some, GoString, arith,
  Bool-cases, beq, beq_refl, lookup, lookup-insert, Result, ok, err,
}
use fabriq.Tenant.Schema.{valid_schema}
use fabriq.Catalog.Entry.{
  State, pending, creating, migrating, active, suspended, failed, unknown, is_valid, Entry, Error,
  validate_entry,
}
use fabriq.Catalog.Failover.{is_not_found}
use fabriq.Provision.Store.{
  Link, up, refused, lost, Work, Env, World, M, send, ◌>>=◌, return, get, put, perform, sent, found,
}
use fabriq.Provision.Lifecycle.{
  new_entry, database_name, transition, fail, required, Start, already, resume_from, by_state,
  on_get, find_or_create, advance, elsewhere, provision,
}
use fabriq.Provision.Writes.{
  Ends, Ends-bind, validate_entry-progress, stamped, IsWritten, Answered, MayBeWritten, put-Ends,
}

-- The life of the tenant `t`, where `away` tells another place from the one that is asked for.
module _ (t : GoString) (away : GoString → GoString → Bool) where
  pub record IsOurs (e : Entry) : Type 0 where
    pub tenant : e.tenant_id ≡ t
    pub placed : away e.cluster_id e.database ≡ false
    pub valid : validate_entry valid_schema e ≡ ok tt
    pub served : e.state ≢ suspended

  pub IsOurs-progress :
      (e : Entry) (s : State) (v : GoString) (at : ℕ) (r : Bool)
      → IsOurs e
      → is_valid s ≡ true
      → s ≢ suspended
      → IsOurs (record e { state = s; version = v; updated_at = at; from_replica = r })
  IsOurs-progress e s v at r o h n = record {
    tenant = o.tenant;
    placed = o.placed;
    valid = validate_entry-progress e s v at r h o.valid;
    served = n;
  }

  pub IsOurs-stamped :
      (e : Entry) (version : GoString) (at : ℕ) (r : Bool)
      → IsOurs e
      → IsOurs (record e { version = version; updated_at = at; from_replica = r })
  unfolding validate_entry
  IsOurs-stamped e version at r o = record {
    tenant = o.tenant;
    placed = o.placed;
    valid = o.valid;
    served = o.served;
  }

  -- The row is missing, or it is one that `Provision` may take up.
  abbrev pub Saved : World → Type 0
  Saved w =
      (lookup t w.rows ≡ none)
      ⊎ ((e : Entry) × (lookup t w.rows ≡ some e) × IsOurs e × (0 < e.updated_at))

  Saved-same : (w v : World) → v.rows ≡ w.rows → Saved w → Saved v
  Saved-same w v e h = rw e h

  Saved-written : (e : Entry) (w v : World) → IsOurs e → IsWritten e w v → Saved v
  Saved-written e w v o h = inr (
    stamped e w.clock,
    rw (h, lookup-insert e.tenant_id t (stamped e w.clock) w.rows, o.tenant, beq_refl t) refl,
    IsOurs-stamped e e.version (suc w.clock) false o,
    omega arith,
  )

  -- Runs that keep the row so, with entries of ours as values.
  abbrev pub Keeps : {A : Type 0} → (A → Type 0) → M A → Type 0
  Keeps P m = (w : World) → Saved w → Ends (λ a v. P a × Saved v) Saved (m w)

  Keeps-bind :
      {A B : Type 0} (P : A → Type 0) (R : B → Type 0) (m : M A) (k : A → M B)
      → Keeps P m
      → ((a : A) → P a → Keeps R (k a))
      → Keeps R (m >>= k)
  Keeps-bind P R m k hm hk w h =
      Ends-bind (λ a v. P a × Saved v) (λ b v. R b × Saved v) Saved m k w (hm w h)
        λ a v p. hk a p.0 v p.1

  MayBeWritten-Saved : (e : Entry) (w v : World) → IsOurs e → Saved w → MayBeWritten e w v → Saved v
  MayBeWritten-Saved e w v o h (inl same) = Saved-same w v same h
  MayBeWritten-Saved e w v o h (inr new) = Saved-written e w v o new

  put-Keeps : (env : Env) (e : Entry) → IsOurs e → Keeps IsOurs (put env e)
  put-Keeps env e o w h = from (put env e w) (put-Ends e w env)
    where
      from :
          (r : Result Error Entry × World)
          → Ends (Answered e w) (MayBeWritten e w) r
          → Ends (λ a v. IsOurs a × Saved v) Saved r
      from (ok a, v) (p, q) = (
        rw p (IsOurs-stamped e e.version (suc w.clock) e.from_replica o),
        Saved-written e w v o q,
      )
      from (err x, v) q = MayBeWritten-Saved e w v o h q

  transition-Keeps :
      (env : Env) (e : Entry) (s : State)
      → IsOurs e
      → is_valid s ≡ true
      → s ≢ suspended
      → Keeps IsOurs (transition env e s)
  unfolding transition
  transition-Keeps env e s o hs n =
      put-Keeps env (record e { state = s })
        (IsOurs-progress e s e.version e.updated_at e.from_replica o hs n)

  perform-Keeps : (env : Env) (op : Work) → Keeps (λ _. Unit {0}) (perform env op)
  unfolding perform
  perform-Keeps env op w h = (tt, h)

  Saved-after :
      {A : Type 0} (P : A → Type 0) (r : Result Error A × World)
      → Ends (λ a v. P a × Saved v) Saved r
      → Saved r.1
  Saved-after P (ok a, v) h = h.1
  Saved-after P (err x, v) h = h

  fail-Keeps :
      {A : Type 0} (P : A → Type 0) (env : Env) (e : Entry) → IsOurs e → Keeps P (fail env e)
  unfolding fail
  fail-Keeps P env e o w h = Saved-after IsOurs (put env (record e { state = failed }) w) (
      put-Keeps env (record e { state = failed })
        (IsOurs-progress e failed e.version e.updated_at e.from_replica o refl (cc)) w h)

  required-Keeps :
      (env : Env) (e : Entry) (r : Result Error GoString)
      → IsOurs e
      → Keeps (λ _. Unit {0}) (required env e r)
  required-Keeps env e (ok v) o = λ w h. (tt, h)
  required-Keeps env e (err x) o = fail-Keeps (λ _. Unit {0}) env e o

  abbrev pub StartsOurs : Start → Type 0
  StartsOurs (already e) = IsOurs e
  StartsOurs (resume_from e) = IsOurs e

  by_state-Keeps : (s : State) (e : Entry) → IsOurs e → Keeps StartsOurs (by_state s e)
  by_state-Keeps active e o = λ w h. (o, h)
  by_state-Keeps suspended e o = λ w h. h
  by_state-Keeps pending e o = λ w h. (o, h)
  by_state-Keeps creating e o = λ w h. (o, h)
  by_state-Keeps migrating e o = λ w h. (o, h)
  by_state-Keeps failed e o = λ w h. (o, h)
  by_state-Keeps (unknown s) e o = λ w h. (o, h)

  found-Keeps :
      (w : World) → Saved w → Ends (λ a v. IsOurs a × Saved v) Saved (found (lookup t w.rows) w)
  found-Keeps w (inl n) = rw n (inl n)
  found-Keeps w (inr (e, n, o, p)) = rw n (o, inr (e, n, o, p))

  get_sent-Keeps : (l : Link) → Keeps IsOurs (send l (λ v. found (lookup t v.rows) v))
  get_sent-Keeps up = λ w h. found-Keeps (sent w) h
  get_sent-Keeps (refused x) = λ w h. h
  get_sent-Keeps (lost x) = λ w h. Saved-after IsOurs _ (found-Keeps (sent w) h)

  get-Keeps : (env : Env) → Keeps IsOurs (get env t)
  unfolding get
  get-Keeps env w h = get_sent-Keeps (env.link w.requests) w h

  on_get-Keeps :
      (env : Env) (fresh : Entry) (r : Result Error Entry × World)
      → IsOurs fresh
      → Ends (λ a v. IsOurs a × Saved v) Saved r
      → Ends (λ a v. StartsOurs a × Saved v) Saved (on_get env fresh away r)
  on_get-Keeps env fresh (ok e, w) o h = rw h.0.placed (by_state-Keeps e.state e h.0 w h.1)
  on_get-Keeps env fresh (err x, w) o h = elim (Bool-cases (is_not_found x)) [
    | inl b ↦ rw b (
        Keeps-bind IsOurs StartsOurs (put env fresh) (λ e. return (resume_from e))
          (put-Keeps env fresh o) (λ e p v q. (p, q)) w h)
    | inr b ↦ rw b h
  ]

  find_or_create-Keeps :
      (env : Env) (fresh : Entry) → IsOurs fresh → Keeps StartsOurs (find_or_create env fresh away)
  unfolding find_or_create
  find_or_create-Keeps env fresh o w h =
      on_get-Keeps env fresh (get env fresh.tenant_id w) o (rw o.tenant (get-Keeps env w h))

  advance-Keeps : (env : Env) (s : Start) → StartsOurs s → Keeps IsOurs (advance env s)
  unfolding advance
  advance-Keeps env (already e) o = λ w h. (o, h)
  advance-Keeps env (resume_from e) o =
      Keeps-bind IsOurs _ (transition env e creating) _
        (transition-Keeps env e creating o refl (cc))
        λ made m.
          Keeps-bind (λ _. Unit {0}) _ _ _ (perform-Keeps env _)
            λ created _.
              Keeps-bind (λ _. Unit {0}) _ _ _ (required-Keeps env made created m)
                λ _ _.
                  Keeps-bind IsOurs _ _ _ (transition-Keeps env made migrating m refl (cc))
                    λ moved n.
                      Keeps-bind (λ _. Unit {0}) _ _ _ (perform-Keeps env _)
                        λ migrated _.
                          Keeps-bind (λ _. Unit {0}) _ _ _ (required-Keeps env moved migrated n)
                            λ version _.
                              transition-Keeps env (record moved { version = version }) active
                                (IsOurs-stamped moved version moved.updated_at moved.from_replica n)
                                refl (cc)

-- The entry that `Provision` makes for a tenant may be stored.
pub IsOurs-new_entry :
    (tenant cluster : GoString)
    → beq tenant [] ≡ false
    → beq cluster [] ≡ false
    → IsOurs tenant (elsewhere cluster) (new_entry tenant cluster (database_name tenant) [])
unfolding validate_entry database_name beq
IsOurs-new_entry tenant cluster nt nc = record {
  tenant = refl;
  placed = rw (beq_refl cluster) refl;
  valid = ground (arith, nt, nc);
  served = cc;
}

-- Whatever fails in a run, the row of the tenant stays one that a later run takes up.
pub provision-Saved :
    (env : Env) (tenant cluster : GoString) (w : World)
    → Saved tenant (elsewhere cluster) w
    → Saved tenant (elsewhere cluster) (provision env tenant cluster w).1
unfolding provision
provision-Saved env tenant cluster w h = elim (Bool-cases (beq tenant [])) [
  | inl b ↦ rw b h
  | inr nt ↦ elim (Bool-cases (beq cluster [])) [
    | inl b ↦ rw (nt, b) h
    | inr nc ↦
        rw (nt, nc)
          (Saved-after tenant (elsewhere cluster) (IsOurs tenant (elsewhere cluster)) _ (
            Keeps-bind tenant (elsewhere cluster) (StartsOurs tenant (elsewhere cluster))
              (IsOurs tenant (elsewhere cluster)) (find_or_create env fresh (elsewhere cluster))
              (advance env)
              (find_or_create-Keeps tenant (elsewhere cluster) env fresh
                (IsOurs-new_entry tenant cluster nt nc))
              (advance-Keeps tenant (elsewhere cluster) env) w h))
  ]
]
  where
    fresh : Entry
    fresh = new_entry tenant cluster (database_name tenant) []
