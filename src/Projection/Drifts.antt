-- ===== src/Projection/Drifts.antt =====
-- core/projection/reconcile.go: the aggregates that a scan reports.
use fabriq.Prelude.{
  ℕ, ◌<◌, ◌≡◌, refl, sym, ap, ◌∙◌, ◌⊎◌, inl, inr, ◌↔◌, true, List, [], ◌∷◌, ◌++◌, GoString, lookup,
  arith, Bool-cases, ltb,
}
use fabriq.Projection.Reconcile.{
  Drift, Versions, or_zero, stale, is_missing, zombies, entity_drifts, drift_lt, insert_drift,
  sort_drifts,
}

abbrev pub In : {A : Type 0} → A → List A → Type 0
In x [] = ⊥
In x (y ∷ ys) = (x ≡ y) ⊎ In x ys

In-append :
    {A : Type 0} (x : A) (xs ys : List A)
    → (In x (xs ++ ys) → In x xs ⊎ In x ys) × (In x xs ⊎ In x ys → In x (xs ++ ys))
In-append x [] ys = (λ h. inr h, λ h. elim h [ inl n ↦ absurd n | inr m ↦ m ])
In-append x (z ∷ xs) ys =
    let (f, g) = In-append x xs ys in
    (
      λ h. elim h [
        | inl e ↦ inl (inl e)
        | inr m ↦ elim (f m) [ inl a ↦ inl (inr a) | inr b ↦ inr b ]
      ],
      λ h. elim h [
        | inl a ↦ elim a [ inl e ↦ inl e | inr m ↦ inr (g (inl m)) ]
        | inr b ↦ inr (g (inr b))
      ],
    )

-- Sorting keeps exactly the same drifts.
In-insert_drift :
    (x d : Drift) (ds : List Drift)
    → (In x (insert_drift d ds) → In x (d ∷ ds)) × (In x (d ∷ ds) → In x (insert_drift d ds))
unfolding insert_drift
In-insert_drift x d [] = (λ h. h, λ h. h)
In-insert_drift x d (e ∷ es) =
    let (f, g) = In-insert_drift x d es in
    elim (Bool-cases (drift_lt e d)) [
      | inr n ↦ rw n (λ h. h, λ h. h)
      | inl y ↦ rw y (
        λ h. elim h [
          | inl p ↦ inr (inl p)
          | inr m ↦ elim (f m) [ inl p ↦ inl p | inr q ↦ inr (inr q) ]
        ],
        λ h. elim h [
          | inl p ↦ inr (g (inl p))
          | inr m ↦ elim m [ inl p ↦ inl p | inr q ↦ inr (g (inr q)) ]
        ],
      )
    ]

In-sort_drifts :
    (x : Drift) (ds : List Drift)
    → (In x (sort_drifts ds) → In x ds) × (In x ds → In x (sort_drifts ds))
unfolding sort_drifts
In-sort_drifts x [] = (λ h. h, λ h. h)
In-sort_drifts x (d ∷ ds) =
    let (f, g) = In-sort_drifts x ds in
    let (f', g') = In-insert_drift x d (sort_drifts ds) in
    (
      λ h. elim (f' h) [ inl e ↦ inl e | inr m ↦ inr (f m) ],
      λ h. g' (elim h [ inl e ↦ inl e | inr m ↦ inr (g m) ]),
    )

module _ (entity : GoString) (d : Drift) where
  -- The truth has the aggregate at a version that the projection is behind of.
  abbrev pub IsStale : Versions → Versions → Type 0
  IsStale truth projected =
      (d.entity ≡ entity)
      × In (d.agg_id, d.truth_version) truth
      × (d.projected_version ≡ or_zero (lookup d.agg_id projected))
      × (d.projected_version < d.truth_version)

  -- The projection has an aggregate that the truth has not.
  abbrev pub IsZombie : Versions → Versions → Type 0
  IsZombie truth projected =
      (d.entity ≡ entity)
      × In (d.agg_id, d.projected_version) projected
      × (is_missing (lookup d.agg_id truth) ≡ true)
      × (d.truth_version ≡ 0)

  reported :
      (id : GoString) (tv pv : ℕ) (f : GoString → ℕ)
      → d.entity ≡ entity
      → ◌≡◌ {A = GoString × ℕ} (d.agg_id, d.truth_version) (id, tv)
      → d.projected_version ≡ f d.agg_id
      → pv ≡ f id
      → d ≡ record { entity = entity; agg_id = id; truth_version = tv; projected_version = pv }
  reported id tv pv f n e v w = λ i. record {
    entity = n i;
    agg_id = (e i).0;
    truth_version = (e i).1;
    projected_version = (v ∙ ap (λ x. f x.0) e ∙ sym w) i;
  }

  stale-IsStale :
      (truth projected : Versions)
      → (In d (stale entity truth projected) → IsStale truth projected)
        × (IsStale truth projected → In d (stale entity truth projected))
  unfolding stale
  stale-IsStale [] projected = (λ h. absurd h, λ h. absurd (h.1))
  stale-IsStale ((id, tv) ∷ truth) projected =
      let (f, g) = stale-IsStale truth projected in
      let version_of : GoString → ℕ = λ x. or_zero (lookup x projected) in
      let pv : ℕ = version_of id in
      elim (Bool-cases (ltb pv tv)) [
        | inl y ↦ rw y (
          λ h. elim h [
            | inl e ↦ (
              ap (λ x. x.entity) e,
              inl (λ i. ((e i).agg_id, (e i).truth_version)),
              ap (λ x. x.projected_version) e ∙ ap version_of (sym (ap (λ x. x.agg_id) e)),
              ground arith,
            )
            | inr m ↦ let (p, q, r, s) = f m in (p, inr q, r, s)
          ],
          λ h.
              let (p, q, r, s) = h in
              elim q [
                | inl e ↦ inl (reported id tv pv version_of p e r refl)
                | inr m ↦ inr (g (p, m, r, s))
              ],
        )
        | inr n ↦ rw n (
          λ h. let (p, q, r, s) = f h in (p, inr q, r, s),
          λ h.
              let (p, q, r, s) = h in
              elim q [
                | inl e ↦
                    let same : d ≡ record {
                      entity = entity;
                      agg_id = id;
                      truth_version = tv;
                      projected_version = pv;
                    } =
                      reported id tv pv version_of p e r refl in
                    absurd (ground arith)
                | inr m ↦ g (p, m, r, s)
              ],
        )
      ]

  zombies-IsZombie :
      (projected truth : Versions)
      → (In d (zombies entity projected truth) → IsZombie truth projected)
        × (IsZombie truth projected → In d (zombies entity projected truth))
  unfolding zombies
  zombies-IsZombie [] truth = (λ h. absurd h, λ h. absurd (h.1))
  zombies-IsZombie ((id, pv) ∷ projected) truth =
      let (f, g) = zombies-IsZombie projected truth in
      elim (Bool-cases (is_missing (lookup id truth))) [
        | inl y ↦ rw y (
          λ h. elim h [
            | inl e ↦ (
              ap (λ x. x.entity) e,
              inl (λ i. ((e i).agg_id, (e i).projected_version)),
              ap (λ x. is_missing (lookup x.agg_id truth)) e ∙ y,
              ap (λ x. x.truth_version) e,
            )
            | inr m ↦ let (p, q, r, s) = f m in (p, inr q, r, s)
          ],
          λ h.
              let (p, q, r, s) = h in
              elim q [
                | inl e ↦ inl (λ i. record {
                  entity = p i;
                  agg_id = (e i).0;
                  truth_version = s i;
                  projected_version = (e i).1;
                })
                | inr m ↦ inr (g (p, m, r, s))
              ],
        )
        | inr n ↦ rw n (
          λ h. let (p, q, r, s) = f h in (p, inr q, r, s),
          λ h.
              let (p, q, r, s) = h in
              elim q [
                | inl e ↦
                    let found : is_missing (lookup id truth) ≡ true =
                      ap (λ x. is_missing (lookup x.0 truth)) (sym e) ∙ r in
                    absurd (ground arith)
                | inr m ↦ g (p, m, r, s)
              ],
        )
      ]

  -- The scan of one entity, sorted, reports exactly the aggregates that the projection is behind on and
  -- the zombies, which the projection has and the truth has not. A projection that is ahead is no drift.
  pub entity_drifts_complete :
      (truth projected : Versions)
      → In d (sort_drifts (entity_drifts entity truth projected))
        ↔ (IsStale truth projected ⊎ IsZombie truth projected)
  unfolding entity_drifts
  entity_drifts_complete truth projected =
      let (f, g) =
        In-sort_drifts d (stale entity truth projected ++ zombies entity projected truth) in
      let (f', g') = In-append d (stale entity truth projected) (zombies entity projected truth) in
      let (s, s') = stale-IsStale truth projected in
      let (z, z') = zombies-IsZombie projected truth in
      (
        λ h. elim (f' (f h)) [ inl a ↦ inl (s a) | inr b ↦ inr (z b) ],
        λ h. g (g' (elim h [ inl a ↦ inl (s' a) | inr b ↦ inr (z' b) ])),
      )
