-- ===== src/Live/View/Members.antt =====
-- core/livequery/dispatcher.go: the members of a view, its reverse index and what is handed to it.
use fabriq.Prelude.{
  ℕ, ◌≤◌, ◌<◌, [], ◌≡◌, refl, ap, ◌∙◌, inl, inr, Bool, true, false, not, ◌&&◌, List, any, Option,
  none, some, GoString, beq, beq_iff, beq_refl, Assoc, lookup, insert, delete, lookup-insert,
  lookup-delete, arith, Bool-cases, if◌then◌else◌,
}
use fabriq.Query.Value.{Runtime}
use fabriq.Match.Predicate.{eval}
use fabriq.Live.Types.{columns, LiveDelta, maintained, streamed, Change, Refiller}
use fabriq.Live.Index.{PredicateIndex, candidates}
use fabriq.Live.Window.{Window}
use fabriq.Live.View.{
  View, has, contains_in, stream_step, passes, apply_streamed, moved_member, is_seen,
  apply_maintained, apply_new, apply_ready, dispatched,
}

has-insert :
    (k j : GoString) (b : Bool) (m : Assoc Bool)
    → has (insert k b m) j ≡ (if beq k j then b else has m j)
has-insert k j b m = rw lookup-insert (ground arith)

has-delete :
    (k j : GoString) (m : Assoc Bool) → has (delete k m) j ≡ (if beq k j then false else has m j)
has-delete k j m = rw lookup-delete (ground arith)

module _ {F : Type 0} ⦃rt : Runtime F⦄ where
  moved_member-has :
      (id j : GoString) (before after : Bool) (v : View F)
      → has v.members id ≡ before
      → has (moved_member id before after v).members j
        ≡ (if beq id j then after else has v.members j)
  moved_member-has id j true false v h = has-delete id j v.members
  moved_member-has id j false true v h = has-insert id j true v.members
  moved_member-has id j true true v h = ground (arith, beq_iff id j)
  moved_member-has id j false false v h = ground (arith, beq_iff id j)

  stream_step-has :
      (v : View F) (ch : Change F) (match was : Bool) (j : GoString)
      → has v.stream_members ch.agg_id ≡ was
      → has (stream_step v ch match was).0.stream_members j
        ≡ (if beq ch.agg_id j then match else has v.stream_members j)
  unfolding stream_step
  stream_step-has v ch true false j h = has-insert ch.agg_id j true v.stream_members
  stream_step-has v ch false true j h = has-delete ch.agg_id j v.stream_members
  stream_step-has v ch true true j h = ground (arith, beq_iff ch.agg_id j)
  stream_step-has v ch false false j h = ground (arith, beq_iff ch.agg_id j)

  stream_step-members :
      (v : View F) (ch : Change F) (match was : Bool)
      → (stream_step v ch match was).0.members ≡ v.members
  unfolding stream_step
  stream_step-members v ch true false = refl
  stream_step-members v ch false true = refl
  stream_step-members v ch true true = refl
  stream_step-members v ch false false = refl

  stream_step-seen :
      (v : View F) (ch : Change F) (match was : Bool) → (stream_step v ch match was).0.seen ≡ v.seen
  unfolding stream_step
  stream_step-seen v ch true false = refl
  stream_step-seen v ch false true = refl
  stream_step-seen v ch true true = refl
  stream_step-seen v ch false false = refl

  moved_member-seen :
      (id : GoString) (before after : Bool) (v : View F)
      → (moved_member id before after v).seen ≡ v.seen
  moved_member-seen id true false v = refl
  moved_member-seen id false true v = refl
  moved_member-seen id true true v = refl
  moved_member-seen id false false v = refl

  moved_member-stream :
      (id : GoString) (before after : Bool) (v : View F)
      → (moved_member id before after v).stream_members ≡ v.stream_members
  moved_member-stream id true false v = refl
  moved_member-stream id false true v = refl
  moved_member-stream id true true v = refl
  moved_member-stream id false false v = refl

  -- The reverse index of a streamed view is its membership.
  abbrev pub IsExact : View F → Type 0
  IsExact v = (j : GoString) → has v.members j ≡ has v.stream_members j

  -- A change at a version that is not above the last one that the view took of its aggregate does
  -- nothing. One above it, or the first, sets the membership of the aggregate to whether the change
  -- matches, records its version, and keeps every other membership and version.
  abbrev pub Follows : View F → Change F → View F × List (LiveDelta F) → Type 0
  Follows v ch (v', sent) =
      ((n : ℕ) → lookup ch.agg_id v.seen ≡ some n → ch.version ≤ n → (v' ≡ v) × (sent ≡ []))
      × (((n : ℕ) → lookup ch.agg_id v.seen ≡ some n → n < ch.version)
          → ((j : GoString)
              → (has v'.stream_members j ≡ (
                  if beq ch.agg_id j
                  then not ch.deleted && eval v.pred (columns ch.vals)
                  else has v.stream_members j))
                × (lookup j v'.seen
                    ≡ (if beq ch.agg_id j then some ch.version else lookup j v.seen))))

  module _ (refill : Refiller F) (v : View F) (ch : Change F) where
    abbrev stepped : View F
    stepped =
        (stream_step (record v { seen = insert ch.agg_id ch.version v.seen }) ch (passes v ch)
          (has v.stream_members ch.agg_id)).0

    stepped-has :
        (j : GoString)
        → has stepped.stream_members j
          ≡ (if beq ch.agg_id j then passes v ch else has v.stream_members j)
    stepped-has j =
        stream_step-has (record v { seen = insert ch.agg_id ch.version v.seen }) ch (passes v ch)
          (has v.stream_members ch.agg_id) j refl

    stepped-members : stepped.members ≡ v.members
    stepped-members =
        stream_step-members (record v { seen = insert ch.agg_id ch.version v.seen }) ch
          (passes v ch) (has v.stream_members ch.agg_id)

    abbrev settled : View F
    settled =
        moved_member ch.agg_id (has v.stream_members ch.agg_id)
          (has stepped.stream_members ch.agg_id) stepped

    settled-stream :
        (j : GoString)
        → has settled.stream_members j
          ≡ (if beq ch.agg_id j then passes v ch else has v.stream_members j)
    settled-stream j =
        ap (λ m. has m j)
          (moved_member-stream ch.agg_id (has v.stream_members ch.agg_id)
            (has stepped.stream_members ch.agg_id) stepped)
        ∙ stepped-has j

    settled-IsExact : IsExact v → IsExact settled
    settled-IsExact h j =
        let before : has stepped.members ch.agg_id ≡ has v.stream_members ch.agg_id =
          ap (λ m. has m ch.agg_id) stepped-members ∙ h ch.agg_id in
        let moved =
          moved_member-has ch.agg_id j (has v.stream_members ch.agg_id)
            (has stepped.stream_members ch.agg_id) stepped before in
        let kept : has stepped.members j ≡ has v.members j = ap (λ m. has m j) stepped-members in
        ground (arith, beq_refl ch.agg_id, stepped-has ch.agg_id, settled-stream j, h j)

    settled-seen :
        (j : GoString)
        → lookup j settled.seen ≡ (if beq ch.agg_id j then some ch.version else lookup j v.seen)
    settled-seen j =
        ap (lookup j) (
          moved_member-seen ch.agg_id (has v.stream_members ch.agg_id)
            (has stepped.stream_members ch.agg_id) stepped
          ∙ stream_step-seen (record v { seen = insert ch.agg_id ch.version v.seen }) ch
              (passes v ch) (has v.stream_members ch.agg_id))
        ∙ lookup-insert ch.agg_id j ch.version v.seen

    streamed_new : (apply_new refill streamed v ch).0 ≡ settled
    unfolding apply_streamed
    streamed_new = refl

    -- A streamed view holds an aggregate exactly when the last change that it took of it matches: a change
    -- at a version above the one that is recorded of its aggregate sets the membership of the aggregate to
    -- whether it matches, records the version and keeps every other membership and version; a change at no
    -- higher version does nothing and sends nothing; and the reverse index by which the partition finds the
    -- holders of an aggregate stays exact.
    pub apply_ready-Follows :
        v.mode ≡ streamed
        → IsExact v
        → IsExact (apply_ready refill v ch).0 × Follows v ch (apply_ready refill v ch)
    unfolding apply_ready
    apply_ready-Follows m h = elim (Bool-cases (is_seen (lookup ch.agg_id v.seen) ch.version)) [
      | inl old ↦
          rw old (
            h,
            ((λ n e l. (refl, refl)), λ f. absurd (seen_recent (lookup ch.agg_id v.seen) f old)),
          )
      | inr new ↦
          let result : (apply_new refill v.mode v ch).0 ≡ settled =
            ap (λ k. (apply_new refill k v ch).0) m ∙ streamed_new in
          rw new (
            coe 1 0 (i. IsExact (result i)) (settled-IsExact h),
            (
              (λ n e l. absurd (not_seen_recent (lookup ch.agg_id v.seen) new n e l)),
              λ f j. (
                ap (λ (x : View F). has x.stream_members j) result ∙ settled-stream j,
                ap (λ (x : View F). lookup j x.seen) result ∙ settled-seen j,
              ),
            ),
          )
    ]
      where
        seen_recent :
            (o : Option ℕ)
            → ((n : ℕ) → o ≡ some n → n < ch.version)
            → is_seen o ch.version ≡ true
            → ⊥
        seen_recent none f e = ground arith
        seen_recent (some n) f e = ground (arith, f n refl)

        not_seen_recent :
            (o : Option ℕ)
            → is_seen o ch.version ≡ false
            → (n : ℕ) → o ≡ some n
            → ch.version ≤ n
            → ⊥
        not_seen_recent none e n q l = ground arith
        not_seen_recent (some m) e n q l = ground arith

    maintained_keeps :
        (o : Option (Window F)) (x : View F)
        → ((apply_maintained refill o x ch).0.members ≡ x.members)
          × ((apply_maintained refill o x ch).0.id ≡ x.id)
    maintained_keeps none x = (refl, refl)
    maintained_keeps (some w) x = (refl, refl)

    moved_member-other :
        (j : GoString) (before after : Bool) (x : View F)
        → beq ch.agg_id j ≡ false
        → (has (moved_member ch.agg_id before after x).members j ≡ has x.members j)
          × ((moved_member ch.agg_id before after x).id ≡ x.id)
    moved_member-other j true false x h =
        (has-delete ch.agg_id j x.members ∙ ap (λ b. if b then false else has x.members j) h, refl)
    moved_member-other j false true x h = (
      has-insert ch.agg_id j true x.members ∙ ap (λ b. if b then true else has x.members j) h,
      refl,
    )
    moved_member-other j true true x h = (refl, refl)
    moved_member-other j false false x h = (refl, refl)

    maintained_new :
        (j : GoString)
        → beq ch.agg_id j ≡ false
        → (has (apply_new refill maintained v ch).0.members j ≡ has v.members j)
          × ((apply_new refill maintained v ch).0.id ≡ v.id)
    maintained_new j h =
        let seen : View F = record v { seen = insert ch.agg_id ch.version v.seen } in
        let after : View F = (apply_maintained refill v.win seen ch).0 in
        let (members, id) = maintained_keeps v.win seen in
        let (same, name) =
          moved_member-other j (contains_in maintained v ch.agg_id)
            (contains_in maintained after ch.agg_id) after h in
        (same ∙ ap (λ m. has m j) members, name ∙ id)

    maintained_ready :
        (j : GoString)
        → v.mode ≡ maintained
        → beq ch.agg_id j ≡ false
        → (has (apply_ready refill v ch).0.members j ≡ has v.members j)
          × ((apply_ready refill v ch).0.id ≡ v.id)
    unfolding apply_ready
    maintained_ready j m h = elim (Bool-cases (is_seen (lookup ch.agg_id v.seen) ch.version)) [
      | inl old ↦ rw old (refl, refl)
      | inr new ↦ rw new (
          coe 1 0
            (i.
              (has (apply_new refill (m i) v ch).0.members j ≡ has v.members j)
              × ((apply_new refill (m i) v ch).0.id ≡ v.id))
            (maintained_new j h))
    ]

    -- A change never makes another aggregate a member of a maintained view, though a refill may take its
    -- row into the window. A delete of such a row, which carries no values, is then not handed to a view
    -- that is not residual in the index, and the row stays in the window.
    pub refilled_row_unreachable :
        (index : PredicateIndex F) (gone : Change F)
        → v.mode ≡ maintained
        → beq ch.agg_id gone.agg_id ≡ false
        → has v.members gone.agg_id ≡ false
        → any (beq v.id) index.residual ≡ false
        → gone.vals ≡ none
        → dispatched index (apply_ready refill v ch).0 gone ≡ false
    unfolding dispatched candidates
    refilled_row_unreachable index gone m other absent gated nil =
        let (members, id) = maintained_ready gone.agg_id m other in
        let out : candidates index gone.vals ≡ index.residual = ap (candidates index) nil in
        let first : any (beq (apply_ready refill v ch).0.id) (candidates index gone.vals) ≡ false =
          ap (λ (x : GoString). any (beq x) (candidates index gone.vals)) id
          ∙ (ap (λ (l : List GoString). any (beq v.id) l) out ∙ gated) in
        ground arith
