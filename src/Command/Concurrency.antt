-- ===== src/Command/Concurrency.antt =====
-- core/command/version.go and executor.go: optimistic concurrency, `checkVersion` against the
-- versions that `apply` writes.
use fabriq.Prelude.{
  ℕ, ◌+◌, ◌≤◌, ◌<◌, ◌≡◌, refl, ◌∙◌, ap, true, false, some, GoString, beq_refl, beq_iff, arith, ok,
  get-ok, if◌then◌else◌, inl, inr, Bool-cases,
}
use fabriq.Command.Model.{Op}
use fabriq.Command.Prepare.{Prepared, check_version, check_existence, check_expected, is_delete}
use fabriq.Command.Executor.{resolve_op, Ambient, Executor, Applied, apply}
use fabriq.Command.Batch.{IsStore, HooksKeep, apply-IsApplied, same_aggregate}

check_version-expected :
    {F P : Type 0} (p : Prepared F P) (v current : ℕ) (u : Unit {0})
    → p.cmd.expected_version ≡ some v
    → check_version p current ≡ ok u
    → v ≡ current
unfolding check_version
check_version-expected p v current u e h =
    let (w, existence) = get-ok (check_existence p p.cmd.op current) (λ e q. ground arith) in
    let expected : check_expected p (some v) current ≡ ok u = ground arith in ground arith

resolve_op-is_delete : (op : Op) (current : ℕ) → is_delete (resolve_op op current).0 ≡ is_delete op
unfolding resolve_op
resolve_op-is_delete Op.create current = refl
resolve_op-is_delete Op.update current = refl
resolve_op-is_delete Op.delete current = refl
resolve_op-is_delete Op.upsert current = ground arith
resolve_op-is_delete (Op.unknown n) current = refl

module _ {F P S : Type 0} (x : Executor F P S) (store : IsStore x.tx) where
  -- Further commands, none of them a delete, that take the store from one state to another.
  pub data Later : S → S → Type 0 where
    now : {s : S} → Later s s
    after :
        {s t : S} (amb : Ambient) (p : Prepared F P) (a : Applied S)
        → apply x amb p s ≡ ok a
        → is_delete p.cmd.op ≡ false
        → Later a.state t
        → Later s t

  module _ (keep : HooksKeep x store x.hooks) where
    same_aggregate-eq :
        (entity id e i : GoString) → same_aggregate entity id e i ≡ true → (entity ≡ e) × (id ≡ i)
    same_aggregate-eq entity id e i h = ground (arith, beq_iff entity e, beq_iff id i)

    -- The version of an aggregate under a command that deletes nothing.
    moved :
        (amb : Ambient) (p : Prepared F P) (s : S) (a : Applied S) (e i : GoString)
        → apply x amb p s ≡ ok a
        → is_delete p.cmd.op ≡ false
        → store.version a.state e i ≡ (
            if same_aggregate p.entity.name p.agg_id e i
            then store.version s p.entity.name p.agg_id + 1
            else store.version s e i)
    moved amb p s a e i h d =
        let current = store.version s p.entity.name p.agg_id in
        let w = (apply-IsApplied x store keep amb p s a h).written in
        w.versions e i
        ∙ ap
            (λ b.
              if same_aggregate p.entity.name p.agg_id e i
              then (if b then 0 else current + 1)
              else store.version s e i)
            (resolve_op-is_delete p.cmd.op current ∙ d)

    apply-version :
        (amb : Ambient) (p : Prepared F P) (s : S) (a : Applied S) (e i : GoString)
        → apply x amb p s ≡ ok a
        → is_delete p.cmd.op ≡ false
        → (store.version s e i ≤ store.version a.state e i)
          × (same_aggregate p.entity.name p.agg_id e i ≡ true
              → store.version s e i < store.version a.state e i)
    apply-version amb p s a e i h d =
        let to = moved amb p s a e i h d in
        elim (Bool-cases (same_aggregate p.entity.name p.agg_id e i)) [
          | inl y ↦
              let (name, id) = same_aggregate-eq p.entity.name p.agg_id e i y in
              let here : store.version s p.entity.name p.agg_id ≡ store.version s e i =
                ap (λ n. store.version s n p.agg_id) name ∙ ap (store.version s e) id in
              ground arith
          | inr n ↦ ground arith
        ]

    Later-version :
        {s t : S} (e i : GoString) → Later s t → store.version s e i ≤ store.version t e i
    Later-version e i Later.now = omega arith
    Later-version {t = t} e i (Later.after {s} amb p a h d l) =
        omega (arith, (apply-version amb p s a e i h d).0, Later-version e i l)

    -- No lost update: once a command that expects version `v` of an aggregate and is no delete is applied,
    -- and whatever further commands that are no deletes are applied after it, no other command that
    -- expects `v` of the same aggregate is applied.
    pub expected_version-once :
        (amb amb' : Ambient) (p q : Prepared F P) (v : ℕ) (s t : S) (a : Applied S)
        → p.cmd.expected_version ≡ some v
        → q.cmd.expected_version ≡ some v
        → is_delete p.cmd.op ≡ false
        → (q.entity.name ≡ p.entity.name) × (q.agg_id ≡ p.agg_id)
        → apply x amb p s ≡ ok a
        → Later a.state t
        → ¬ ((b : Applied S) × (apply x amb' q t ≡ ok b))
    expected_version-once amb amb' p q v s t a ep eq d (name, id) h later (b, h') =
        let first =
          check_version-expected p v (store.version s p.entity.name p.agg_id) tt ep
            (apply-IsApplied x store keep amb p s a h).allowed in
        let second =
          check_version-expected q v (store.version t q.entity.name q.agg_id) tt eq
            (apply-IsApplied x store keep amb' q t b h').allowed in
        let here : store.version t q.entity.name q.agg_id ≡ store.version t p.entity.name p.agg_id =
          ap (λ n. store.version t n q.agg_id) name ∙ ap (store.version t p.entity.name) id in
        let grown =
          (apply-version amb p s a p.entity.name p.agg_id h d).1
            (ground (arith, beq_refl p.entity.name, beq_refl p.agg_id)) in
        let kept = Later-version p.entity.name p.agg_id later in omega arith
