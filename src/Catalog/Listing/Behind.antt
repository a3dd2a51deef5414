-- ===== src/Catalog/Listing/Behind.antt =====
-- adapters/postgres/catalog.go: the rows behind a cursor.
use fabriq.Prelude.{
  ℕ, zero, suc, ◌≤◌, ◌≡◌, refl, ap, inl, inr, Bool, true, false, List, [], ◌∷◌, GoString, arith,
  Bool-cases, beq, beq_iff, length, take, drop, filter, last?,
}
use fabriq.Catalog.Entry.{Entry}
use fabriq.Catalog.Listing.{last_id, after}
use fabriq.Catalog.Listing.Sorted.{IsOrder, IsAbove, IsSorted}

module _ (lt : GoString → GoString → Bool) (o : IsOrder lt) where
  -- The rows behind a text are all of those that stand above it.
  pub filter-IsAbove :
      (c : GoString) (es : List Entry) → IsAbove lt o c es → filter (after lt c) es ≡ es
  filter-IsAbove c [] h = refl
  filter-IsAbove c (e ∷ es) h = rw h.0 (ap (◌∷◌ e) (filter-IsAbove c es h.1))

  filter-IsAbove_kept :
      (b c : GoString) (es : List Entry)
      → IsAbove lt o c es
      → IsAbove lt o c (filter (after lt b) es)
  filter-IsAbove_kept b c [] h = tt
  filter-IsAbove_kept b c (e ∷ es) h = elim (Bool-cases (after lt b e)) [
    | inl k ↦ rw k (h.0, filter-IsAbove_kept b c es h.1)
    | inr k ↦ rw k (filter-IsAbove_kept b c es h.1)
  ]

  pub filter-IsSorted :
      (c : GoString) (es : List Entry) → IsSorted lt o es → IsSorted lt o (filter (after lt c) es)
  filter-IsSorted c [] h = tt
  filter-IsSorted c (e ∷ es) h = elim (Bool-cases (after lt c e)) [
    | inl k ↦ rw k (filter-IsAbove_kept c e.tenant_id es h.0, filter-IsSorted c es h.1)
    | inr k ↦ rw k (filter-IsSorted c es h.1)
  ]

  -- Behind a cursor that stands above another, the other filters nothing more.
  pub filter-filter :
      (b c : GoString) (es : List Entry)
      → lt b c ≡ true
      → filter (after lt c) (filter (after lt b) es) ≡ filter (after lt c) es
  filter-filter b c [] l = refl
  filter-filter b c (e ∷ es) l = ground (arith, o.trans b c e.tenant_id l, filter-filter b c es l)

  pub last-above :
      (c : GoString) (e : Entry) (es : List Entry) (n : ℕ)
      → IsAbove lt o c (e ∷ es)
      → lt c (last_id (last? (e ∷ take n es))) ≡ true
  last-above c e es zero h = h.0
  last-above c e [] (suc n) h = h.0
  last-above c e (f ∷ fs) (suc n) h = last-above c f fs n h.1

  -- Behind the last row of a page stand the rows after the page.
  pub filter-last :
      (n : ℕ) (e : Entry) (es : List Entry)
      → n ≤ length es
      → IsSorted lt o (e ∷ es)
      → filter (after lt (last_id (last? (take (suc n) (e ∷ es))))) (e ∷ es) ≡ drop n es
  filter-last zero e es l h = rw (o.irrefl e.tenant_id) (filter-IsAbove e.tenant_id es h.0)
  filter-last (suc n) e [] l h = absurd (omega arith)
  filter-last (suc n) e (f ∷ fs) l h =
      rw
        (not_after (lt _ e.tenant_id)
          (o.trans e.tenant_id _ e.tenant_id (last-above e.tenant_id f fs n h.0)))
        (filter-last n f fs (omega arith) h.1)
    where
      not_after : (b : Bool) → (b ≡ true → lt e.tenant_id e.tenant_id ≡ true) → b ≡ false
      not_after true p = absurd (ground (arith, o.irrefl e.tenant_id, p refl))
      not_after false p = refl

  pub IsAbove-filter : (c : GoString) (es : List Entry) → IsAbove lt o c (filter (after lt c) es)
  IsAbove-filter c [] = tt
  IsAbove-filter c (e ∷ es) = elim (Bool-cases (after lt c e)) [
    | inl k ↦ rw k (k, IsAbove-filter c es)
    | inr k ↦ rw k (IsAbove-filter c es)
  ]

  -- A text that stands above another is not empty.
  pub above-nonempty : (c d : GoString) → lt c d ≡ true → beq d [] ≡ false
  above-nonempty c d l = elim (Bool-cases (beq d [])) [
    | inr n ↦ n
    | inl e ↦
        absurd (ground (arith, beq_iff d [], beq_iff c [], o.least c, o.trans c d c, o.irrefl c))
  ]
