-- ===== src/Command/Atomic.antt =====
-- core/command/executor.go: `ExecBatch` seen through the outbox.
use fabriq.Prelude.{
  ℕ, suc, ◌≡◌, refl, sym, ◌∙◌, ap, List, [], ◌∷◌, ◌++◌, Option, none, some, GoString, arith, Result,
  ok, err, get-ok,
}
use fabriq.Event.Envelope.{Envelope}
use fabriq.Command.Model.{Context, from_context, Command, Outcome, CommandError, no_tenant, Change}
use fabriq.Command.Prepare.{Prepared}
use fabriq.Command.Executor.{
  Ambient, Executor, Applied, apply, Batch, with_applied, Report, prepare_all, apply_all, run_tx,
  in_tenant_tx, execute, exec_some, exec_batch,
}
use mathlib.Core.List.{append_assoc, append-nil}
use fabriq.Command.Batch.{IsStore, HooksKeep, Names, IsApplied, apply-IsApplied}

module _ {F P S : Type 0} (x : Executor F P S) (store : IsStore x.tx) where
  abbrev pub events : List Change → List Envelope
  events [] = []
  events (c ∷ cs) = c.envelope ∷ events cs

  -- One answer and one event for each command, in the order of the commands.
  pub data Recorded : List (Prepared F P) → List Outcome → List Change → Type 0 where
    nothing : Recorded [] [] []
    next :
        {p : Prepared F P} {ps : List (Prepared F P)} {o : Outcome} {os : List Outcome} {c : Change}
        {cs : List Change}
        → Names c.envelope p o.version
        → o.agg_id ≡ p.agg_id
        → Recorded ps os cs
        → Recorded (p ∷ ps) (o ∷ os) (c ∷ cs)

  abbrev Logged : List (Prepared F P) → S → Batch S → Type 0
  Logged ps s b =
      (store.outbox b.state ≡ store.outbox s ++ events b.changes) × Recorded ps b.outcomes b.changes

  Logged-apply :
      (p : Prepared F P) (ps : List (Prepared F P)) (s : S) (a : Applied S) (b : Batch S)
      → IsApplied x store p s a
      → Logged ps a.state b
      → Logged (p ∷ ps) s (with_applied a b)
  Logged-apply p ps s a b one (log, others) =
      let w = one.written in
      (
        log
            ∙ ap (λ l. l ++ events b.changes) w.logged
            ∙ append_assoc (store.outbox s) (a.change.envelope ∷ []) (events b.changes),
        Recorded.next (coe 0 1 (i. Names a.change.envelope p (sym (w.answered.0) i)) w.named)
            (w.answered.1) others,
      )

  apply_all-Logged :
      HooksKeep x store x.hooks
      → (ambs : ℕ → Ambient) (i : ℕ) (ps : List (Prepared F P)) (s : S) (b : Batch S)
      → apply_all x ambs i ps s ≡ ok b
      → Logged ps s b
  unfolding apply_all
  apply_all-Logged keep ambs i [] s b h =
      let b_eq : b ≡ record { outcomes = []; changes = []; state = s } = ground arith in
      rw b_eq (sym (append-nil (store.outbox s)), Recorded.nothing)
  apply_all-Logged keep ambs i (p ∷ ps) s b h =
      let (a, e1) = get-ok (apply x (ambs i) p s) (λ e q. ground arith) in
      let (rest, e2) = get-ok (apply_all x ambs (suc i) ps a.state) (λ e q. ground arith) in
      let b_eq : b ≡ with_applied a rest = ground arith in
      rw b_eq (
        Logged-apply p ps s a rest (apply-IsApplied x store keep (ambs i) p s a e1)
          (apply_all-Logged keep ambs (suc i) ps a.state rest e2))

  -- What a caller of `ExecBatch` sees: on an error the store as it was; else the batch in one piece.
  abbrev pub IsAtomic :
      Context → (ℕ → Ambient) → List (Command P) → S → Result CommandError Report × S → Type 0
  IsAtomic ctx ambs cmds s (err e, s') = s' ≡ s
  IsAtomic ctx ambs cmds s (ok r, s') =
      (ps : List (Prepared F P)) × (prepare_all x ambs ctx 0 cmds ≡ ok ps)
      × (store.outbox s' ≡ store.outbox s ++ events r.changes)
      × Recorded ps r.outcomes r.changes

  run_tx-Logged :
      HooksKeep x store x.hooks
      → (ambs : ℕ → Ambient) (ps : List (Prepared F P)) (s : S) (b : Batch S)
      → run_tx x ambs ps s ≡ ok b
      → Logged ps s b
  unfolding run_tx
  run_tx-Logged keep ambs ps s b h =
      let (begun, e1) = get-ok (x.tx.begin s) (λ e q. ground arith) in
      let (run, e2) = get-ok (apply_all x ambs 0 ps begun) (λ e q. ground arith) in
      let (done, e3) = get-ok (x.tx.commit run.state) (λ e q. ground arith) in
      let b_eq : b ≡ record run { state = done } = ground arith in
      let (log, each) = apply_all-Logged keep ambs 0 ps begun run e2 in
      rw b_eq (
        (store.commit_keeps e3).0
            ∙ log
            ∙ ap (λ l. l ++ events run.changes) ((store.begin_keeps e1).0),
        each,
      )

  execute-IsAtomic :
      HooksKeep x store x.hooks
      → (ctx : Context) (ambs : ℕ → Ambient) (cmds : List (Command P)) (s : S)
        (r : Result CommandError (List (Prepared F P)))
      → prepare_all x ambs ctx 0 cmds ≡ r
      → IsAtomic ctx ambs cmds s (execute x ambs r s)
  unfolding in_tenant_tx
  execute-IsAtomic keep ctx ambs cmds s (err e) prep = refl
  execute-IsAtomic keep ctx ambs cmds s (ok ps) prep = by_run (run_tx x ambs ps s) refl
    where
      by_run :
          (b : Result CommandError (Batch S))
          → run_tx x ambs ps s ≡ b
          → IsAtomic ctx ambs cmds s (in_tenant_tx x ambs b s)
      by_run (err e) q = refl
      by_run (ok b) q = let (log, each) = run_tx-Logged keep ambs ps s b q in (ps, prep, log, each)

  -- `ExecBatch` is all or nothing: on an error the store is as it was; else every command was prepared,
  -- and the outbox grew by exactly one event for each command, in the order of the commands, each with
  -- the identity of its prepared command and the version that its answer reports.
  pub exec_batch-IsAtomic :
      HooksKeep x store x.hooks
      → (ctx : Context) (ambs : ℕ → Ambient) (cmds : List (Command P)) (s : S)
      → IsAtomic ctx ambs cmds s (exec_batch x ambs ctx cmds s)
  unfolding exec_batch
  exec_batch-IsAtomic keep ctx ambs cmds s = by_tenant (from_context ctx) cmds
    where
      by_commands :
          (cmds : List (Command P)) → IsAtomic ctx ambs cmds s (exec_some x ambs ctx cmds s)
      by_commands [] =
          unfold prepare_all in ([], refl, sym (append-nil (store.outbox s)), Recorded.nothing)
      by_commands (cmd ∷ cmds) =
          execute-IsAtomic keep ctx ambs (cmd ∷ cmds) s (prepare_all x ambs ctx 0 (cmd ∷ cmds)) refl

      by_tenant :
          (t : Option GoString) (cmds : List (Command P))
          → IsAtomic ctx ambs cmds s
              (elim t [ none ↦ (err no_tenant, s) | some t ↦ exec_some x ambs ctx cmds s ])
      by_tenant none cmds = refl
      by_tenant (some t) cmds = by_commands cmds
