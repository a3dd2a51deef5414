-- ===== src/Provision/Healthy.antt =====
-- core/provision/provision.go: the steps of `Provision` where nothing fails.
use mathlib.Core.Path.{subst}
use fabriq.Prelude.{
  ℕ, suc, ◌<◌, ◌≡◌, ◌≢◌, refl, ap, sym, inl, inr, Bool, true, false, some, none, GoString, arith,
  ◌==◌, beq_refl, lookup, insert, lookup-insert, Result, ok,
}
use fabriq.Tenant.Schema.{valid_schema}
use fabriq.Catalog.Entry.{
  State, pending, creating, migrating, active, suspended, failed, unknown, is_valid, Entry, Error,
  validate_entry,
}
use fabriq.Provision.Store.{
  up, Work, create_database, migrate, Env, World, M, return, get, put, write, perform, sent, found,
  ◌>>=◌,
}
use fabriq.Provision.Lifecycle.{
  transition, required, Start, already, resume_from, by_state, on_get, find_or_create, advance,
}
use fabriq.Provision.Writes.{Ends, Ends-bind, Ends-weaken}
use fabriq.Provision.Keeps.{IsOurs, IsOurs-stamped, IsOurs-progress, Saved}

-- The control database takes writes and answers, and every operation on a cluster succeeds.
pub record IsHealthy (env : Env) : Type 0 where
  pub writable : env.read_only ≡ false
  pub answers : (n : ℕ) → env.link n ≡ up
  pub works : (n : ℕ) → (version : GoString) × (env.outcome n ≡ ok version)

abbrev pub Never : World → Type 0
Never w = ⊥

-- The stored row is the entry, but for the column that does not exist.
abbrev pub Holds : Entry → World → Type 0
Holds e w = (b : Bool) × (lookup e.tenant_id w.rows ≡ some (record e { from_replica = b }))

-- An entry of the tenant at its place that is active and stored.
abbrev pub IsActive : GoString → (GoString → GoString → Bool) → Entry → World → Type 0
IsActive t away e w = IsOurs t away e × (e.state ≡ active) × Holds e w

Holds-written :
    (e : Entry) (clock : ℕ) (w : World)
    → Holds
        (record e { updated_at = suc clock })
        (record w {
          clock = suc clock;
          rows =
              insert e.tenant_id (record e { updated_at = suc clock; from_replica = false }) w.rows;
        })
Holds-written e clock w = (
  false,
  rw
      (
        lookup-insert e.tenant_id e.tenant_id
            (record e { updated_at = suc clock; from_replica = false }) w.rows,
        beq_refl e.tenant_id,
      )
      refl,
)

-- Runs that do not fail from the worlds where `Before` holds.
abbrev pub Gives : {A : Type 0} → (World → Type 0) → (A → World → Type 0) → M A → Type 0
Gives Before P m = (w : World) → Before w → Ends P Never (m w)

pub Gives-bind :
    {A B : Type 0} (Before : World → Type 0) (P : A → World → Type 0) (R : B → World → Type 0)
    (m : M A) (k : A → M B)
    → Gives Before P m
    → ((a : A) → Gives (P a) R (k a))
    → Gives Before R (m >>= k)
Gives-bind Before P R m k hm hk w h = Ends-bind P R Never m k w (hm w h) hk

module _ (env : Env) (healthy : IsHealthy env) where
  abbrev Renewed : Entry → World → Entry → World → Type 0
  Renewed e w e' v = (e' ≡ record e { updated_at = suc w.clock }) × Holds e' v

  -- A write from the stored token goes through.
  pub put-current :
      (e old : Entry) (w : World)
      → validate_entry valid_schema e ≡ ok tt
      → lookup e.tenant_id w.rows ≡ some old
      → old.updated_at ≡ e.updated_at
      → 0 < e.updated_at
      → put env e w ≡ write e (sent w)
  unfolding put
  put-current e old w valid row token pos =
      rw (healthy.writable, valid, healthy.answers w.requests, zero_test, row, token_test) refl
    where
      zero_test : (e.updated_at == 0) ≡ false
      zero_test = ground arith

      token_test : (old.updated_at == e.updated_at) ≡ true
      token_test = ground arith

  pub get-healthy :
      (tenant : GoString) (w : World) → get env tenant w ≡ found (lookup tenant w.rows) (sent w)
  unfolding get
  get-healthy tenant w = rw (healthy.answers w.requests) refl

  put-fresh :
      (e : Entry) (w : World)
      → validate_entry valid_schema e ≡ ok tt
      → lookup e.tenant_id w.rows ≡ none
      → e.updated_at ≡ 0
      → Ends (Renewed e w) Never (put env e w)
  unfolding put
  put-fresh e w valid row token =
      rw (healthy.writable, valid, healthy.answers w.requests, zero_test, row)
        (refl, Holds-written e w.clock (sent w))
    where
      zero_test : (e.updated_at == 0) ≡ true
      zero_test = ground arith

  module _ (t : GoString) (away : GoString → GoString → Bool) where
    -- An entry of ours with the stored token.
    abbrev pub Ready : Entry → World → Type 0
    Ready e w =
        IsOurs t away e
        × ((old : Entry) × (lookup e.tenant_id w.rows ≡ some old)
            × (old.updated_at ≡ e.updated_at)
            × (0 < e.updated_at))

    abbrev pub Moved : State → Entry → World → Type 0
    Moved s e w = (e.state ≡ s) × Holds e w × Ready e w

    Ready-Holds :
        (e : Entry) (w : World) → IsOurs t away e → 0 < e.updated_at → Holds e w → Ready e w
    Ready-Holds e w o pos (b, row) = (o, (record e { from_replica = b }, row, refl, pos))

    Moved-Renewed :
        (e : Entry) (w : World)
        → IsOurs t away e
        → (e' : Entry) (v : World) → Renewed e w e' v
        → Moved e.state e' v
    Moved-Renewed e w o e' v (p, h) = (
      ap (λ (x : Entry). x.state) p,
      h,
      Ready-Holds e' v (rw p (IsOurs-stamped t away e e.version (suc w.clock) e.from_replica o))
          (rw p (omega arith)) h,
    )

    pub transition-Moved :
        (e : Entry) (s : State) (w : World)
        → is_valid s ≡ true
        → s ≢ suspended
        → Ready e w
        → Ends (Moved s) Never (transition env e s w)
    unfolding transition
    transition-Moved e s w hs n (o, (old, row, token, pos)) =
        Ends-weaken (Renewed next_entry w) (Moved s) Never (put env next_entry w)
          (Moved-Renewed next_entry w ours)
          (rw (put-current next_entry old w ours.valid row token pos)
            (refl, Holds-written next_entry w.clock (sent w)))
      where
        next_entry : Entry
        next_entry = record e { state = s }

        ours : IsOurs t away next_entry
        ours = IsOurs-progress t away e s e.version e.updated_at e.from_replica o hs n

    abbrev Performed : Entry → Result Error GoString → World → Type 0
    Performed e r w = ((version : GoString) × (r ≡ ok version)) × Ready e w

    perform-Ready :
        (e : Entry) (op : Work) (w : World)
        → Ready e w
        → Ends
            (λ r v. ((version : GoString) × (r ≡ ok version)) × Ready e v)
            Never
            (perform env op w)
    unfolding perform
    perform-Ready e op w h = (healthy.works w.attempts, h)

    required-Ready :
        (e : Entry) (r : Result Error GoString) (w : World)
        → Performed e r w
        → Ends (λ version v. Ready e v) Never (required env e r w)
    required-Ready e r w ((version, p), h) = rw p h

    -- A start of ours: it is active and stored, or it can go on.
    abbrev pub Started : Start → World → Type 0
    Started (already e) w = IsActive t away e w
    Started (resume_from e) w = Ready e w

    -- A step after which the tenant ends active.
    IsActive-bind :
        {A : Type 0} (Before : World → Type 0) (P : A → World → Type 0) (m : M A) (k : A → M Entry)
        → Gives Before P m
        → ((a : A) → Gives (P a) (IsActive t away) (k a))
        → Gives Before (IsActive t away) (m >>= k)
    IsActive-bind Before P m k = Gives-bind Before P (IsActive t away) m k

    pub advance-IsActive : (s : Start) → Gives (Started s) (IsActive t away) (advance env s)
    unfolding advance
    advance-IsActive (already e) = λ w h. h
    advance-IsActive (resume_from e) =
        IsActive-bind (Ready e) (Moved creating) (transition env e creating) _
          (λ w. transition-Moved e creating w refl (cc))
          λ made.
            IsActive-bind (Moved creating made) (Performed made)
              (perform env (create_database made.cluster_id made.database)) _
              (λ w m. perform-Ready made (create_database made.cluster_id made.database) w m.2)
              λ created.
                IsActive-bind (Performed made created) (λ _ v. Ready made v)
                  (required env made created) _ (required-Ready made created)
                  λ _.
                    IsActive-bind (Ready made) (Moved migrating) (transition env made migrating) _
                      (λ w. transition-Moved made migrating w refl (cc))
                      λ moved.
                        IsActive-bind (Moved migrating moved) (Performed moved)
                          (perform env (migrate moved.cluster_id moved.database)) _
                          (λ w m.
                            perform-Ready moved (migrate moved.cluster_id moved.database) w m.2)
                          λ migrated.
                            IsActive-bind (Performed moved migrated) (λ _ v. Ready moved v)
                              (required env moved migrated) _ (required-Ready moved migrated)
                              λ version w z.
                                Ends-weaken (Moved active) (IsActive t away) Never _
                                  (λ a v q. (q.2.0, q.0, q.1))
                                  (transition-Moved (record moved { version = version }) active w
                                    refl (cc)
                                    (
                                      IsOurs-stamped t away moved version moved.updated_at
                                          moved.from_replica z.0,
                                      z.1,
                                    ))

    by_state-Started :
        (s : State) (e : Entry) (w : World)
        → e.state ≡ s
        → IsOurs t away e
        → 0 < e.updated_at
        → lookup e.tenant_id w.rows ≡ some e
        → Ends Started Never (by_state s e w)
    by_state-Started active e w q o pos row = (o, q, (e.from_replica, row))
    by_state-Started suspended e w q o pos row = o.served q
    by_state-Started pending e w q o pos row = (o, (e, row, refl, pos))
    by_state-Started creating e w q o pos row = (o, (e, row, refl, pos))
    by_state-Started migrating e w q o pos row = (o, (e, row, refl, pos))
    by_state-Started failed e w q o pos row = (o, (e, row, refl, pos))
    by_state-Started (unknown s) e w q o pos row = (o, (e, row, refl, pos))

    found-Started :
        (fresh : Entry) (w : World)
        → IsOurs t away fresh
        → fresh.updated_at ≡ 0
        → Saved t away w
        → Ends Started Never (on_get env fresh away (found (lookup t w.rows) w))
    found-Started fresh w o z (inl n) = rw n (
        Ends-bind (Renewed fresh w) Started Never (put env fresh) (λ e. return (resume_from e)) w
          (put-fresh fresh w o.valid (subst (λ x. lookup x w.rows ≡ none) (sym o.tenant) n) z)
          λ e v h. (Moved-Renewed fresh w o e v h).2)
    found-Started fresh w o z (inr (e, row, ours, pos)) =
        rw (row, ours.placed)
          (by_state-Started e.state e w refl ours pos
            (subst (λ x. lookup x w.rows ≡ some e) (sym ours.tenant) row))

    pub find_or_create-Started :
        (fresh : Entry) (w : World)
        → IsOurs t away fresh
        → fresh.updated_at ≡ 0
        → Saved t away w
        → Ends Started Never (find_or_create env fresh away w)
    unfolding find_or_create get
    find_or_create-Started fresh w o z h = rw (healthy.answers w.requests) (
        subst (λ x. Ends Started Never (on_get env fresh away (found (lookup x w.rows) (sent w))))
          (sym o.tenant) (found-Started fresh (sent w) o z h))
