-- ===== src/Projection/Flip.antt =====
-- core/projection/rebuild.go: the stored state after `Rebuild`.
use fabriq.Prelude.{
  ◌+◌, ◌≡◌, refl, ◌⊎◌, inl, inr, Bool, true, false, List, [], ◌∷◌, Option, none, some, GoString,
  arith, Result, ok, err, Option-cases,
}
use fabriq.Event.Envelope.{Envelope}
use fabriq.Command.Model.{valid}
use fabriq.Projection.Mutation.{Mutation}
use fabriq.Projection.Applier.{ApplyError, apply_chain}
use fabriq.Projection.Rebuild.{
  Status, live, building, soaking, State, Rebuilder, RebuildError, in_progress, Rebuilt, written,
  Replay, sent, replay_one, stream_end, replay_all, failed, reverted, flipped, after_flip, flip,
  after_replay, after_drop, with_tenant_checked, after_mark, mark, by_status, after_get, rebuild,
}

module _ {F : Type 0} (r : Rebuilder F) where
  -- The mutations of every envelope reached the target, in the order of the envelopes.
  pub data Complete (target : GoString) : List Envelope → List (List (Mutation F)) → Type 0 where
    ended : Complete target [] []
    nothing :
        {env : Envelope} {envs : List Envelope} {sents : List (List (Mutation F))}
        → apply_chain r.applier r.custom r.projection env ≡ ok []
        → Complete target envs sents
        → Complete target (env ∷ envs) sents
    applied :
        {env : Envelope} {envs : List Envelope} {sents : List (List (Mutation F))}
        (muts : List (Mutation F))
        → apply_chain r.applier r.custom r.projection env ≡ ok muts
        → r.apply_fails target muts ≡ none
        → Complete target envs sents
        → Complete target (env ∷ envs) (muts ∷ sents)

  stream_end-none :
      (x : Option GoString)
      → (stream_end r x).failure ≡ none
      → (x ≡ none) × ((stream_end r x).applied ≡ [])
  stream_end-none none h = (refl, refl)
  stream_end-none (some x) h = absurd (ground arith)

  module _ (target : GoString) (x : Option GoString) where
    abbrev Replayed : List Envelope → Replay r → Type 0
    Replayed envs run = run.failure ≡ none → (x ≡ none) × Complete target envs run.applied

    sent-Replayed :
        (env : Envelope) (envs : List Envelope) (m : Mutation F) (muts : List (Mutation F))
        (rest : Replay r)
        → apply_chain r.applier r.custom r.projection env ≡ ok (m ∷ muts)
        → Replayed envs rest
        → Replayed (env ∷ envs) (sent r target (m ∷ muts) rest)
    sent-Replayed env envs m muts rest c ih h =
        elim (Option-cases (r.apply_fails target (m ∷ muts))) [
          | inr (y, s) ↦ absurd (ground arith)
          | inl n ↦
              let (e, whole) = ih (ground arith) in
              (e, rw n (Complete.applied (m ∷ muts) c n whole))
        ]

    replay_one-Replayed :
        (env : Envelope) (envs : List Envelope) (a : Result ApplyError (List (Mutation F)))
        (rest : Replay r)
        → apply_chain r.applier r.custom r.projection env ≡ a
        → Replayed envs rest
        → Replayed (env ∷ envs) (replay_one r target a rest)
    replay_one-Replayed env envs (err y) rest c ih h = absurd (ground arith)
    replay_one-Replayed env envs (ok []) rest c ih h =
        let (e, whole) = ih h in (e, Complete.nothing c whole)
    replay_one-Replayed env envs (ok (m ∷ muts)) rest c ih h =
        sent-Replayed env envs m muts rest c ih h

    replay_all-Replayed : (envs : List Envelope) → Replayed envs (replay_all r target x envs)
    unfolding replay_all
    replay_all-Replayed [] h =
        let (e, none_left) = stream_end-none x h in (e, rw none_left Complete.ended)
    replay_all-Replayed (env ∷ envs) h =
        replay_one-Replayed env envs (apply_chain r.applier r.custom r.projection env)
          (replay_all r target x envs) refl (replay_all-Replayed envs) h

  module _ (tenant : GoString) (st : State) where
    abbrev pub new_target : GoString
    new_target = r.target_name tenant (st.model_version + 1)

    -- How a rebuild may end.
    pub data Ending (out : Rebuilt F) : Type 0 where
      held :
          (x : RebuildError)
          → out.result ≡ err x
          → out.stored.target_name ≡ st.target_name
          → out.stored.model_version ≡ st.model_version
          → Ending out
      moved :
          (out.result ≡ ok (st.target_name, new_target))
            ⊎ ((x : GoString) × (out.result ≡ err (RebuildError.cutover x)))
          → out.stored ≡ record {
            status = soaking;
            target_name = new_target;
            model_version = st.model_version + 1;
          }
          → (r.snapshot tenant).1 ≡ none
          → Complete new_target (r.snapshot tenant).0 out.replayed
          → Ending out

    abbrev marked : State
    marked = mark r st

    written-pointer :
        (o : Option GoString)
        → ((written r o (record marked { status = live }) marked).target_name ≡ st.target_name)
          × ((written r o (record marked { status = live }) marked).model_version
              ≡ st.model_version)
    written-pointer none = (refl, refl)
    written-pointer (some x) = (refl, refl)

    reverted-held :
        (x : RebuildError) (muts : List (List (Mutation F)))
        → Ending (failed r x (reverted r marked) muts)
    reverted-held x muts =
        let (t, m) = written-pointer (r.upsert_fails (record marked { status = live })) in
        Ending.held x refl t m

    abbrev run : Replay r
    run = replay_all r new_target (r.snapshot tenant).1 (r.snapshot tenant).0

    after_flip-Ending :
        (o : Option GoString) → run.failure ≡ none → Ending (after_flip r o marked new_target run)
    after_flip-Ending (some x) h =
        let (e, whole) =
          replay_all-Replayed new_target (r.snapshot tenant).1 (r.snapshot tenant).0 h in
        Ending.moved (inr (x, refl)) refl e whole
    after_flip-Ending none h =
        let (e, whole) =
          replay_all-Replayed new_target (r.snapshot tenant).1 (r.snapshot tenant).0 h in
        Ending.moved (inl refl) refl e whole

    flip-Ending :
        (o : Option GoString) → run.failure ≡ none → Ending (flip r o tenant marked new_target run)
    flip-Ending (some x) h = Ending.held (RebuildError.dependency x) refl refl refl
    flip-Ending none h =
        after_flip-Ending (r.on_flip tenant st.model_version (st.model_version + 1)) h

    after_replay-Ending :
        (o : Option RebuildError)
        → run.failure ≡ o
        → Ending (after_replay r o tenant marked new_target run)
    after_replay-Ending (some x) h = reverted-held x run.applied
    after_replay-Ending none h = flip-Ending (r.upsert_fails (flipped r marked new_target)) h

    after_drop-Ending : (o : Option GoString) → Ending (after_drop r o tenant marked new_target)
    after_drop-Ending (some x) = reverted-held (RebuildError.dependency x) []
    after_drop-Ending none = after_replay-Ending run.failure refl

    with_tenant-Ending : (b : Bool) → Ending (with_tenant_checked r b tenant marked new_target)
    with_tenant-Ending false = reverted-held (RebuildError.bad_tenant tenant) []
    with_tenant-Ending true = after_drop-Ending (r.drop_fails new_target)

    after_mark-Ending : (o : Option GoString) → Ending (after_mark r o tenant st marked new_target)
    after_mark-Ending (some x) = Ending.held (RebuildError.dependency x) refl refl refl
    after_mark-Ending none = with_tenant-Ending (valid tenant)

    by_status-Ending : (s : Status) → Ending (by_status r s tenant st)
    by_status-Ending building = Ending.held in_progress refl refl refl
    by_status-Ending live = after_mark-Ending (r.upsert_fails marked)
    by_status-Ending soaking = after_mark-Ending (r.upsert_fails marked)

    after_get-Ending : (o : Option GoString) → Ending (after_get r o tenant st)
    after_get-Ending (some x) = Ending.held (RebuildError.dependency x) refl refl refl
    after_get-Ending none = by_status-Ending st.status

    -- How `Rebuild` ends: either with an error, and the stored pointer (target and model version) is the
    -- old one; or the pointer is the new target at the next model version, soaking, and then the whole
    -- snapshot was streamed without error and the mutations of every envelope in it reached the new
    -- target. In the second case the call succeeds and returns both targets, or the cutover failed.
    pub rebuild-Ending : Ending (rebuild r tenant st)
    unfolding rebuild
    rebuild-Ending = after_get-Ending r.get_fails

    -- A rebuild whose last write, of the flipped state, fails leaves the status at "building", and every
    -- rebuild after it is refused as already in progress.
    pub rebuild-stays_building :
        (x : GoString)
        → r.get_fails ≡ none
        → st.status ≡ live
        → r.upsert_fails marked ≡ none
        → valid tenant ≡ true
        → r.drop_fails new_target ≡ none
        → run.failure ≡ none
        → r.upsert_fails (flipped r marked new_target) ≡ some x
        → ((rebuild r tenant st).stored ≡ marked)
          × ((rebuild r tenant marked).result ≡ err in_progress)
    unfolding rebuild
    rebuild-stays_building x g s m v d f u = (ground arith, ground arith)
