-- ===== src/Command/Batch.antt =====
-- core/command/executor.go: the outbox and the versions of the store under `apply` and `ExecBatch`.
use fabriq.Prelude.{
  ℕ, ◌+◌, ◌≡◌, refl, sym, ◌∙◌, ap, Bool, ◌&&◌, List, [], ◌∷◌, ◌++◌, Option, GoString, beq, arith,
  Result, ok, err, get-ok, if◌then◌else◌,
}
use fabriq.Query.Value.{Row}
use fabriq.Event.Envelope.{Envelope}
use fabriq.Command.Model.{Op, CommandError, Change, Tx}
use fabriq.Command.Prepare.{Prepared, stamped_values, check_version, is_delete}
use fabriq.Command.Executor.{
  resolve_op, Ambient, Executor, new_envelope, marshalled, hook_error, run_hooks, fence_aggregate,
  change_of, Applied, write_change, apply,
}

abbrev pub same_aggregate : GoString → GoString → GoString → GoString → Bool
same_aggregate entity id entity' id' = beq entity entity' && beq id id'

-- What the port `Tx` documents, seen through the outbox and the stored versions: only `AppendOutbox`
-- adds to the outbox, one envelope, and only `ApplyChange` moves a version, that of its aggregate; 0
-- stands for a row that is not there.
pub record IsStore {F S : Type 0} (tx : Tx F S) : Type 0 where
  pub outbox : S → List Envelope
  pub version : S → GoString → GoString → ℕ
  pub begin_keeps :
      {s s' : S} → tx.begin s ≡ ok s' → (outbox s' ≡ outbox s) × (version s' ≡ version s)
  pub commit_keeps :
      {s s' : S} → tx.commit s ≡ ok s' → (outbox s' ≡ outbox s) × (version s' ≡ version s)
  pub fence_keeps :
      {s s' : S} (entity id : GoString)
      → fence_aggregate tx.fence s entity id ≡ ok s'
      → (outbox s' ≡ outbox s) × (version s' ≡ version s)
  pub reads :
      {s : S} {v : ℕ} (entity id : GoString)
      → tx.current_version s entity id ≡ ok v
      → v ≡ version s entity id
  pub writes :
      {s s' : S} {op : Op} {v : ℕ} {vals : Option (Row F)} (entity id : GoString)
      → tx.apply_change s entity op id v vals ≡ ok s'
      → (outbox s' ≡ outbox s)
        × ((e i : GoString)
            → version s' e i ≡ (
                if same_aggregate entity id e i
                then (if is_delete op then 0 else v)
                else version s e i))
  pub appends :
      {s s' : S} (env : Envelope)
      → tx.append_outbox s env ≡ ok s'
      → (outbox s' ≡ outbox s ++ env ∷ []) × (version s' ≡ version s)

-- The event of an applied command names the aggregate, the tenant and the version.
abbrev pub Names : {F P : Type 0} → Envelope → Prepared F P → ℕ → Type 0
Names env p v =
    (env.tenant_id ≡ p.tenant_id)
    × (env.scope_id ≡ p.scope_id)
    × (env.aggregate ≡ p.entity.name)
    × (env.agg_id ≡ p.agg_id)
    × (env.version ≡ v)

abbrev pub version_after : Op → ℕ → ℕ
version_after op v = if is_delete op then 0 else v

module _ {F P S : Type 0} (x : Executor F P S) (store : IsStore x.tx) where
  abbrev pub SameLog : S → S → Type 0
  SameLog s s' = (store.outbox s' ≡ store.outbox s) × (store.version s' ≡ store.version s)

  -- No hook touches the outbox or a version: they write rows of their own.
  abbrev pub HooksKeep : List (S → Change → Result CommandError S) → Type 0
  HooksKeep [] = Unit
  HooksKeep (h ∷ hs) =
      ((s s' : S) (change : Change) → h s change ≡ ok s' → SameLog s s') × HooksKeep hs

  hook_error-ok : (r : Result CommandError S) (s : S) → hook_error r ≡ ok s → r ≡ ok s
  hook_error-ok (ok s') s h = h
  hook_error-ok (err e) s h = absurd (ground arith)

  run_hooks-SameLog :
      (hs : List (S → Change → Result CommandError S)) (change : Change) (s s' : S)
      → HooksKeep hs
      → run_hooks hs change s ≡ ok s'
      → SameLog s s'
  unfolding run_hooks
  run_hooks-SameLog [] change s s' keep h = same (ground arith)
    where
      same : s ≡ s' → SameLog s s'
      same e = rw e (refl, refl)
  run_hooks-SameLog (k ∷ hs) change s s' (keeps, keep) h =
      let (t, e) = get-ok (hook_error (k s change)) (λ e q. ground arith) in
      let (o, v) = keeps s t change (hook_error-ok (k s change) t e) in
      let (o', v') = run_hooks-SameLog hs change t s' keep (ground arith) in (o' ∙ o, v' ∙ v)

  new_envelope-Names :
      (p : Prepared F P) (v : ℕ) (vals : Option (Row F)) (by : GoString) (amb : Ambient)
      (env : Envelope)
      → new_envelope x.marshal p v vals by amb ≡ ok env
      → Names env p v
  unfolding new_envelope
  new_envelope-Names p v vals by amb env h =
      let (payload, e) = get-ok (marshalled x.marshal vals) (λ e q. ground arith) in
      (ground arith, ground arith, ground arith, ground arith, ground arith)

  pub record Written (p : Prepared F P) (s : S) (next : ℕ) (op : Op) (a : Applied S) : Type 0 where
    pub logged : store.outbox a.state ≡ store.outbox s ++ a.change.envelope ∷ []
    pub named : Names a.change.envelope p next
    pub resolved : a.change.op ≡ op
    pub answered : (a.outcome.version ≡ next) × (a.outcome.agg_id ≡ p.agg_id)
    pub versions :
        (e i : GoString)
        → store.version a.state e i ≡ (
            if same_aggregate p.entity.name p.agg_id e i
            then version_after op next
            else store.version s e i)

  abbrev assembled : Prepared F P → ℕ → Op → Envelope → S → Applied S
  assembled p next op env done = record {
    outcome = record { agg_id = p.agg_id; version = next; event_id = env.id };
    change = change_of p.entity.name op env;
    state = done;
  }

  assembled-Written :
      (p : Prepared F P) (s written staged done : S) (next : ℕ) (op : Op) (env : Envelope)
      (vals : Option (Row F))
      → x.tx.apply_change s p.entity.name op p.agg_id next vals ≡ ok written
      → Names env p next
      → x.tx.append_outbox written env ≡ ok staged
      → SameLog staged done
      → Written p s next op (assembled p next op env done)
  assembled-Written p s written staged done next op env vals e1 names e3 (o4, v4) =
      let (o1, v1) = store.writes p.entity.name p.agg_id e1 in
      let (o3, v3) = store.appends env e3 in
      record {
        logged = o4 ∙ o3 ∙ ap (λ log. log ++ env ∷ []) o1;
        named = names;
        resolved = refl;
        answered = (refl, refl);
        versions = λ e i. ap (λ f. f e i) (v4 ∙ v3) ∙ v1 e i;
      }

  write_change-Written :
      HooksKeep x.hooks
      → (amb : Ambient) (p : Prepared F P) (s : S) (next : ℕ) (op : Op) (by : GoString)
        (vals : Option (Row F)) (a : Applied S)
      → write_change x amb p s next (op, by) vals ≡ ok a
      → Written p s next op a
  unfolding write_change
  write_change-Written keep amb p s next op by vals a h =
      let (written, e1) =
        get-ok (x.tx.apply_change s p.entity.name op p.agg_id next vals) (λ e q. ground arith) in
      let (env, e2) = get-ok (new_envelope x.marshal p next vals by amb) (λ e q. ground arith) in
      let (staged, e3) = get-ok (x.tx.append_outbox written env) (λ e q. ground arith) in
      let (done, e4) =
        get-ok (run_hooks x.hooks (change_of p.entity.name op env) staged) (λ e q. ground arith) in
      let a_eq : a ≡ assembled p next op env done = ground arith in
      rw a_eq (
        assembled-Written p s written staged done next op env vals e1
          (new_envelope-Names p next vals by amb env e2) e3
          (run_hooks-SameLog x.hooks (change_of p.entity.name op env) staged done keep e4))

  -- The state of the log before `apply` and after it.
  pub record IsApplied (p : Prepared F P) (s : S) (a : Applied S) : Type 0 where
    pub allowed : check_version p (store.version s p.entity.name p.agg_id) ≡ ok tt
    pub written :
        Written p s
          (store.version s p.entity.name p.agg_id + 1)
          (resolve_op p.cmd.op (store.version s p.entity.name p.agg_id)).0
          a

  Written-fence :
      (p : Prepared F P) (s t : S) (next : ℕ) (op : Op) (a : Applied S)
      → SameLog s t
      → Written p t next op a
      → Written p s next op a
  Written-fence p s t next op a (o, v) w = record {
    logged = w.logged ∙ ap (λ log. log ++ a.change.envelope ∷ []) o;
    named = w.named;
    resolved = w.resolved;
    answered = w.answered;
    versions = λ e i.
        w.versions e i
        ∙ ap
            (λ f.
              if same_aggregate p.entity.name p.agg_id e i then version_after op next else f e i)
            v;
  }

  IsApplied-read :
      (p : Prepared F P) (s : S) (current : ℕ) (u : Unit {0}) (a : Applied S)
      → current ≡ store.version s p.entity.name p.agg_id
      → check_version p current ≡ ok u
      → Written p s (current + 1) (resolve_op p.cmd.op current).0 a
      → IsApplied p s a
  IsApplied-read p s current u a e c w = record {
    allowed = ap (check_version p) (sym e) ∙ c;
    written = coe 0 1 (i. Written p s (e i + 1) (resolve_op p.cmd.op (e i)).0 a) w;
  }

  -- When one command is applied, the version check passed on the stored version, the outbox grows by
  -- exactly one event, the answer and the event carry the stored version plus one and the identity of
  -- the aggregate, and no version moves but that of the aggregate, to the event's or to 0 on a delete.
  pub apply-IsApplied :
      HooksKeep x.hooks
      → (amb : Ambient) (p : Prepared F P) (s : S) (a : Applied S) → apply x amb p s ≡ ok a
      → IsApplied p s a
  unfolding apply
  apply-IsApplied keep amb p s a h =
      let (fenced, e1) =
        get-ok (fence_aggregate x.tx.fence s p.entity.name p.agg_id) (λ e q. ground arith) in
      let (current, e2) =
        get-ok (x.tx.current_version fenced p.entity.name p.agg_id) (λ e q. ground arith) in
      let (checked, e3) = get-ok (check_version p current) (λ e q. ground arith) in
      let (o, v) = store.fence_keeps p.entity.name p.agg_id e1 in
      let read = store.reads p.entity.name p.agg_id e2 ∙ ap (λ f. f p.entity.name p.agg_id) v in
      let wrote : write_change x amb p fenced (current + 1) (resolve_op p.cmd.op current)
            (stamped_values p (current + 1))
          ≡ ok a =
        ground arith in
      IsApplied-read p s current checked a read e3 (
        Written-fence p s fenced (current + 1) (resolve_op p.cmd.op current).0 a (o, v)
          (write_change-Written keep amb p fenced (current + 1) (resolve_op p.cmd.op current).0
            (resolve_op p.cmd.op current).1 (stamped_values p (current + 1)) a wrote))
