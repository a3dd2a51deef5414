-- ===== src/Projection/Rebuild.antt =====
-- core/projection/rebuild.go: the blue-green rebuild over the bookkeeping of one tenant's projection.
use fabriq.Prelude.{
  ℕ, ◌+◌, Bool, true, false, ◌||◌, List, [], ◌∷◌, Option, none, some, GoString, beq, Result, ok,
  err, if◌then◌else◌,
}
use fabriq.Event.Envelope.{Envelope}
use fabriq.Command.Model.{valid}
use fabriq.Projection.Mutation.{Mutation}
use fabriq.Projection.Applier.{ApplyError, CustomApplier, apply_chain}

pub data Status : Type 0 where
  live building soaking : Status

-- A row of projection_state.
pub record State : Type 0 where
  pub status : Status
  pub target_name : GoString
  pub model_version : ℕ

-- What the repository, the sink, the snapshot and the cutover answer; `upsert_fails` is asked for each
-- state to be written. The snapshot is the envelopes that it streams, and the error that ends it.
pub record Rebuilder (F : Type 0) : Type 0 where
  pub projection : GoString
  pub get_fails : Option GoString
  pub upsert_fails : State → Option GoString
  pub drop_fails : GoString → Option GoString
  pub apply_fails : GoString → List (Mutation F) → Option GoString
  pub snapshot : GoString → List Envelope × Option GoString
  pub applier : Envelope → Result ApplyError (List (Mutation F))
  pub custom : List (CustomApplier F)
  pub target_name : GoString → ℕ → GoString
  pub on_flip : GoString → ℕ → ℕ → Option GoString

pub data RebuildError : Type 0 where
  dependency : GoString → RebuildError
  in_progress : RebuildError
  bad_tenant : GoString → RebuildError
  replay : GoString → RebuildError
  refused : ApplyError → RebuildError
  cutover : GoString → RebuildError

-- The result, with the state that is stored and the mutations that reached the new target.
pub record Rebuilt (F : Type 0) : Type 0 where
  pub result : Result RebuildError (GoString × GoString)
  pub stored : State
  pub replayed : List (List (Mutation F))

module _ {F : Type 0} (r : Rebuilder F) where
  -- A write that fails leaves what was stored.
  abbrev pub written : Option GoString → State → State → State
  written none st stored = st
  written (some x) st stored = stored

  abbrev pub upsert : State → State → State
  upsert st stored = written (r.upsert_fails st) st stored

  pub record Replay : Type 0 where
    pub applied : List (List (Mutation F))
    pub failure : Option RebuildError

  abbrev pub sent : GoString → List (Mutation F) → Replay → Replay
  sent target muts rest = after_send (r.apply_fails target muts)
    where
      after_send : Option GoString → Replay
      after_send (some x) = record { applied = []; failure = some (replay x) }
      after_send none = record { applied = muts ∷ rest.applied; failure = rest.failure }

  abbrev pub replay_one : GoString → Result ApplyError (List (Mutation F)) → Replay → Replay
  replay_one target (err x) rest = record { applied = []; failure = some (refused x) }
  replay_one target (ok []) rest = rest
  replay_one target (ok (m ∷ muts)) rest = sent target (m ∷ muts) rest

  abbrev pub stream_end : Option GoString → Replay
  stream_end none = record { applied = []; failure = none }
  stream_end (some x) = record { applied = []; failure = some (replay x) }

  -- `SnapshotEntities` with the closure of `Rebuild`.
  unfoldable pub replay_all : GoString → Option GoString → List Envelope → Replay
  replay_all target x [] = stream_end x
  replay_all target x (env ∷ envs) =
      replay_one target (apply_chain r.applier r.custom r.projection env) (replay_all target x envs)

  abbrev pub failed : RebuildError → State → List (List (Mutation F)) → Rebuilt F
  failed x st muts = record { result = err x; stored = st; replayed = muts }

  abbrev pub reverted : State → State
  reverted st = upsert (record st { status = live }) st

  abbrev pub flipped : State → GoString → State
  flipped st target = record st {
    status = soaking;
    target_name = target;
    model_version = st.model_version + 1;
  }

  abbrev pub after_flip : Option GoString → State → GoString → Replay → Rebuilt F
  after_flip (some x) st target run = failed (cutover x) (flipped st target) run.applied
  after_flip none st target run = record {
    result = ok (st.target_name, target);
    stored = flipped st target;
    replayed = run.applied;
  }

  -- From the flip of the pointer on; `st` is the building state.
  abbrev pub flip : Option GoString → GoString → State → GoString → Replay → Rebuilt F
  flip (some x) tenant st target run = failed (dependency x) st run.applied
  flip none tenant st target run =
      after_flip (r.on_flip tenant st.model_version (st.model_version + 1)) st target run

  abbrev pub after_replay : Option RebuildError → GoString → State → GoString → Replay → Rebuilt F
  after_replay (some x) tenant st target run = failed x (reverted st) run.applied
  after_replay none tenant st target run =
      flip (r.upsert_fails (flipped st target)) tenant st target run

  abbrev pub after_drop : Option GoString → GoString → State → GoString → Rebuilt F
  after_drop (some x) tenant st target = failed (dependency x) (reverted st) []
  after_drop none tenant st target =
      let run = replay_all target (r.snapshot tenant).1 (r.snapshot tenant).0 in
      after_replay run.failure tenant st target run

  abbrev pub with_tenant_checked : Bool → GoString → State → GoString → Rebuilt F
  with_tenant_checked false tenant st target = failed (bad_tenant tenant) (reverted st) []
  with_tenant_checked true tenant st target = after_drop (r.drop_fails target) tenant st target

  -- From the building marker on; `st` is the state to mark.
  abbrev pub after_mark : Option GoString → GoString → State → State → GoString → Rebuilt F
  after_mark (some x) tenant stored st target = failed (dependency x) stored []
  after_mark none tenant stored st target = with_tenant_checked (valid tenant) tenant st target

  abbrev pub mark : State → State
  mark st = record st { status = building }

  abbrev pub start : GoString → State → Rebuilt F
  start tenant st =
      after_mark (r.upsert_fails (mark st)) tenant st (mark st)
        (r.target_name tenant (st.model_version + 1))

  abbrev pub by_status : Status → GoString → State → Rebuilt F
  by_status building tenant st = failed in_progress st []
  by_status live tenant st = start tenant st
  by_status soaking tenant st = start tenant st

  abbrev pub after_get : Option GoString → GoString → State → Rebuilt F
  after_get (some x) tenant st = failed (dependency x) st []
  after_get none tenant st = by_status st.status tenant st

  -- `Rebuild`, over the stored state.
  unfoldable pub rebuild : GoString → State → Rebuilt F
  rebuild tenant st = after_get r.get_fails tenant st

  abbrev pub after_cleanup : Option GoString → State → Option GoString × State
  after_cleanup (some x) st = (some x, st)
  after_cleanup none st =
      (r.upsert_fails (record st { status = live }), upsert (record st { status = live }) st)

  abbrev pub cleanup : GoString → GoString → State → Option GoString
  cleanup tenant old st =
      if beq old [] || beq old st.target_name
      then none
      else if valid tenant
      then r.drop_fails old
      else some tenant

  abbrev pub finalize_after :
      Option GoString → GoString → GoString → State → Option GoString × State
  finalize_after (some x) tenant old st = (some x, st)
  finalize_after none tenant old st = after_cleanup (cleanup tenant old st) st

  -- `Finalize`: its error, if any, and the stored state.
  unfoldable pub finalize : GoString → GoString → State → Option GoString × State
  finalize tenant old st = finalize_after r.get_fails tenant old st
