-- ===== src/Live/Index/Candidates.antt =====
-- core/livequery/index.go: what `Add` and `Remove` leave of a registered subscription.
use fabriq.Prelude.{
  ℕ, ◌≤◌, ◌≡◌, refl, ap, ◌⊎◌, inl, inr, true, false, not, ◌||◌, List, [], ◌∷◌, ◌++◌, filter, length,
  some, GoString, beq, beq_iff, beq_refl, arith, Bool-cases, Option-cases,
}
use fabriq.Query.Value.{Runtime, Value, Row}
use fabriq.Query.Filter.{Conds}
use fabriq.Match.Predicate.{eval_all}
use fabriq.Live.Index.{
  Gate, Entry, PredicateIndex, equality_columns, columns_of, entries_of, with_gates, added, add,
  accepts, hits, hit_ids, candidates, without_entries, without_want, remove,
}
use fabriq.Live.Index.Count.{member, Distinct-columns_of, length-hits}
use fabriq.Live.Index.Sound.{takes, gated, Taken, Timeless, filter-Taken}

abbrev Wants : GoString → ℕ → List (GoString × ℕ) → Type 0
Wants id n [] = ⊥
Wants id n ((i, m) ∷ want) = ((i ≡ id) × (m ≡ n)) ⊎ Wants id n want

member-append :
    (k : GoString) (xs ys : List GoString) → member k (xs ++ ys) ≡ (member k xs || member k ys)
member-append k [] ys = refl
member-append k (x ∷ xs) ys = ground (arith, member-append k xs ys)

Wants-without :
    (id i : GoString) (n : ℕ) (want : List (GoString × ℕ))
    → beq i id ≡ false
    → Wants id n want
    → Wants id n (without_want i want)
unfolding without_want
Wants-without id i n [] d h = h
Wants-without id i n ((j, m) ∷ want) d h = elim (Bool-cases (beq j i)) [
  | inl e ↦ rw e (elim h [
    | inl (a, b) ↦ absurd (ground (arith, beq_iff j i, beq_iff i id))
    | inr r ↦ Wants-without id i n want d r
  ])
  | inr e ↦ rw e (elim h [ inl p ↦ inl p | inr r ↦ inr (Wants-without id i n want d r) ])
]

member-filter :
    (id i : GoString) (ks : List GoString)
    → beq i id ≡ false
    → member id ks ≡ true
    → member id (filter (λ k. not (beq k i)) ks) ≡ true
member-filter id i [] d h = h
member-filter id i (k ∷ ks) d h =
    ground (arith, beq_iff id k, beq_iff k i, beq_iff i id, member-filter id i ks d)

module _ {F : Type 0} ⦃rt : Runtime F⦄ where
  accepts-append :
      (es fs : List (Entry F)) (id c : GoString) (raw : Value F)
      → accepts (es ++ fs) id c raw ≡ (accepts es id c raw || accepts fs id c raw)
  unfolding accepts
  accepts-append [] fs id c raw = refl
  accepts-append (e ∷ es) fs id c raw = ground (arith, accepts-append es fs id c raw)

  accepts-entries_of :
      (id c : GoString) (raw : Value F) (gs : List (Gate F))
      → accepts (entries_of id gs) id c raw ≡ takes gs c raw
  unfolding accepts
  accepts-entries_of id c raw [] = refl
  accepts-entries_of id c raw (g ∷ gs) = ground (arith, beq_refl id, accepts-entries_of id c raw gs)

  accepts-without :
      (id i c : GoString) (raw : Value F) (es : List (Entry F))
      → beq i id ≡ false
      → accepts es id c raw ≡ true
      → accepts (without_entries i es) id c raw ≡ true
  unfolding accepts without_entries
  accepts-without id i c raw [] d h = h
  accepts-without id i c raw (e ∷ es) d h =
      ground (arith, beq_iff e.id i, beq_iff e.id id, beq_iff i id, accepts-without id i c raw es d)

  member-hit_ids :
      (es : List (Entry F)) (row : Row F) (id : GoString) (n : ℕ) (want : List (GoString × ℕ))
      → Wants id n want
      → n ≤ hits es id row
      → member id (hit_ids es row want) ≡ true
  unfolding hit_ids
  member-hit_ids es row id n [] h l = absurd h
  member-hit_ids es row id n ((i, m) ∷ want) (inl (a, b)) l =
      let same_hits : hits es i row ≡ hits es id row = ap (λ j. hits es j row) a in
      ground (arith, beq_iff id i)
  member-hit_ids es row id n ((i, m) ∷ want) (inr r) l =
      ground (arith, member-hit_ids es row id n want r l)

  -- The subscription `id` stands in the index with these gates.
  abbrev pub IsRegistered : GoString → List (Gate F) → PredicateIndex F → Type 0
  IsRegistered id [] ix = member id ix.residual ≡ true
  IsRegistered id (g ∷ gs) ix =
      Wants id (length (columns_of (g ∷ gs))) ix.want
      × ((c : GoString) (raw : Value F)
          → takes (g ∷ gs) c raw ≡ true
          → accepts ix.by_col_val id c raw ≡ true)

  IsRegistered-with_gates :
      (id : GoString) (gs : List (Gate F)) (ix : PredicateIndex F)
      → IsRegistered id gs (with_gates id ix gs)
  unfolding with_gates
  IsRegistered-with_gates id [] ix = ground (arith, beq_refl id)
  IsRegistered-with_gates id (g ∷ gs) ix = (
    inl (refl, refl),
    λ c raw t. ground (
      arith,
      accepts-append (entries_of id (g ∷ gs)) ix.by_col_val id c raw,
      accepts-entries_of id c raw (g ∷ gs),
    ),
  )

  IsRegistered-other :
      (id i : GoString) (gs hs : List (Gate F)) (ix : PredicateIndex F)
      → beq i id ≡ false
      → IsRegistered id gs ix
      → IsRegistered id gs (with_gates i ix hs)
  unfolding with_gates
  IsRegistered-other id i [] [] ix d r = ground arith
  IsRegistered-other id i [] (h ∷ hs) ix d r = r
  IsRegistered-other id i (g ∷ gs) [] ix d r = r
  IsRegistered-other id i (g ∷ gs) (h ∷ hs) ix d (w, a) = (
    inr (Wants-without id i _ ix.want d w),
    λ c raw t.
        ground (arith, accepts-append (entries_of i (h ∷ hs)) ix.by_col_val id c raw, a c raw t),
  )

  IsRegistered-remove :
      (id i : GoString) (gs : List (Gate F)) (ix : PredicateIndex F)
      → beq i id ≡ false
      → IsRegistered id gs ix
      → IsRegistered id gs (remove i ix)
  unfolding remove
  IsRegistered-remove id i [] ix d r = member-filter id i ix.residual d r
  IsRegistered-remove id i (g ∷ gs) ix d (w, a) = (
    Wants-without id i (length (columns_of (g ∷ gs))) ix.want d w,
    λ c raw t. accepts-without id i c raw ix.by_col_val d (a c raw t),
  )

  -- Later registrations and removals of other subscriptions.
  pub data Since (id : GoString) : PredicateIndex F → PredicateIndex F → Type 0 where
    now : {ix : PredicateIndex F} → Since id ix ix
    then_add :
        {ix next last : PredicateIndex F} (i : GoString) (w : Conds F)
        → beq i id ≡ false
        → add i w ix ≡ some next
        → Since id next last
        → Since id ix last
    then_remove :
        {ix last : PredicateIndex F} (i : GoString)
        → beq i id ≡ false
        → Since id (remove i ix) last
        → Since id ix last

  add-gates :
      (i : GoString) (w : Conds F) (ix next : PredicateIndex F)
      → add i w ix ≡ some next
      → (hs : List (Gate F)) × (equality_columns w ≡ some hs) × (next ≡ with_gates i ix hs)
  unfolding add added
  add-gates i w ix next h = elim (Option-cases (equality_columns w)) [
    | inl n ↦ absurd (ground arith)
    | inr (hs, e) ↦ (hs, e, ground arith)
  ]

  IsRegistered-Since :
      (id : GoString) (gs : List (Gate F)) {ix last : PredicateIndex F}
      → Since id ix last
      → IsRegistered id gs ix
      → IsRegistered id gs last
  IsRegistered-Since id gs Since.now r = r
  IsRegistered-Since id gs (Since.then_add {ix} {next} i w d a s) r =
      let (hs, e, known) = add-gates i w ix next a in
      IsRegistered-Since id gs s
        (coe 1 0 (k. IsRegistered id gs (known k)) (IsRegistered-other id i gs hs ix d r))
  IsRegistered-Since id gs (Since.then_remove {ix} i d s) r =
      IsRegistered-Since id gs s (IsRegistered-remove id i gs ix d r)

  gated-member :
      (gs : List (Gate F)) (c : GoString) → member c (columns_of gs) ≡ true → gated gs c ≡ true
  unfolding columns_of
  gated-member [] c h = h
  gated-member (g ∷ gs) c h =
      ground (arith, beq_iff c g.column, beq_iff g.column c, gated-member gs c)

  registered-candidate :
      (id : GoString) (gs : List (Gate F)) (ix : PredicateIndex F) (row : Row F)
      → IsRegistered id gs ix
      → ((c : GoString) → gated gs c ≡ true → Taken row gs c)
      → member id (candidates ix (some row)) ≡ true
  unfolding candidates
  registered-candidate id [] ix row r t =
      ground (arith, member-append id ix.residual (hit_ids ix.by_col_val row ix.want))
  registered-candidate id (g ∷ gs) ix row (w, a) t =
      let enough =
        length-hits ix.by_col_val id row (columns_of (g ∷ gs)) (Distinct-columns_of (g ∷ gs))
          (λ k m.
            let (raw, l, taken) = t k (gated-member (g ∷ gs) k m) in (raw, l, a k raw taken)) in
      let hit =
        member-hit_ids ix.by_col_val row id (length (columns_of (g ∷ gs))) ix.want w enough in
      ground (arith, member-append id ix.residual (hit_ids ix.by_col_val row ix.want))

  -- The index never leaves out a subscription that matches: once `Add` has registered a filter, and
  -- whatever other subscriptions are added and removed later, `Candidates` returns the subscription for
  -- every row that passes the filter and holds no instant.
  pub candidates_sound :
      (id : GoString) (w : Conds F) (ix first last : PredicateIndex F) (row : Row F)
      → add id w ix ≡ some first
      → Since id first last
      → Timeless row
      → eval_all rt w row ≡ true
      → member id (candidates last (some row)) ≡ true
  candidates_sound id w ix first last row h s t e =
      let (gs, known, made) = add-gates id w ix first h in
      registered-candidate id gs last row
        (IsRegistered-Since id gs s
          (coe 1 0 (k. IsRegistered id gs (made k)) (IsRegistered-with_gates id gs ix)))
        (λ c g. filter-Taken row c w gs t known e g)
