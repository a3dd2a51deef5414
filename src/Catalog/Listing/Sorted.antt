-- ===== src/Catalog/Listing/Sorted.antt =====
-- adapters/postgres/catalog.go: the order of the rows that `CatalogStore.List` reads.
use mathlib.Core.List.{Perm}
use mathlib.Core.List.Perm
use fabriq.Prelude.{
  length, suc, ◌≡◌, ◌≢◌, refl, ap, ◌⊎◌, inl, inr, Bool, true, false, List, [], ◌∷◌, GoString, arith,
  Bool-cases, filter, if◌then◌else◌,
}
use fabriq.Catalog.Entry.{Entry}
use fabriq.Catalog.Listing.{place, sort, after}

-- A collation that tells different texts apart: a strict order, in which "" comes first.
pub record IsOrder (lt : GoString → GoString → Bool) : Type 0 where
  pub trans : (a b c : GoString) → lt a b ≡ true → lt b c ≡ true → lt a c ≡ true
  pub irrefl : (a : GoString) → lt a a ≡ false
  pub total : (a b : GoString) → (lt a b ≡ true) ⊎ (a ≡ b) ⊎ (lt b a ≡ true)
  pub least : (a : GoString) → a ≢ [] → lt [] a ≡ true

-- The primary key is unique, and no tenant id is empty.
abbrev pub Differs : GoString → List Entry → Type 0
Differs t [] = Unit
Differs t (e ∷ es) = (t ≢ e.tenant_id) × Differs t es

abbrev pub IsKeyed : List Entry → Type 0
IsKeyed [] = Unit
IsKeyed (e ∷ es) = (e.tenant_id ≢ []) × Differs e.tenant_id es × IsKeyed es

place-Perm :
    (lt : GoString → GoString → Bool) (e : Entry) (es : List Entry) → Perm (place lt e es) (e ∷ es)
unfolding place
place-Perm lt e [] = Perm.refl (e ∷ [])
place-Perm lt e (f ∷ fs) = elim (Bool-cases (lt e.tenant_id f.tenant_id)) [
  | inl l ↦ rw l (Perm.refl (e ∷ f ∷ fs))
  | inr l ↦ rw l (Perm.trans (Perm.cons f (place-Perm lt e fs)) (Perm.swap e f fs))
]

pub sort-Perm : (lt : GoString → GoString → Bool) (es : List Entry) → Perm (sort lt es) es
unfolding sort
sort-Perm lt [] = Perm.refl []
sort-Perm lt (e ∷ es) = Perm.trans (place-Perm lt e (sort lt es)) (Perm.cons e (sort-Perm lt es))

length-place :
    (lt : GoString → GoString → Bool) (e : Entry) (es : List Entry)
    → length (place lt e es) ≡ suc (length es)
unfolding place
length-place lt e [] = refl
length-place lt e (f ∷ fs) = ground (arith, length-place lt e fs)

pub length-sort :
    (lt : GoString → GoString → Bool) (es : List Entry) → length (sort lt es) ≡ length es
unfolding sort
length-sort lt [] = refl
length-sort lt (e ∷ es) = omega (arith, length-place lt e (sort lt es), length-sort lt es)

module _ (lt : GoString → GoString → Bool) (o : IsOrder lt) where
  abbrev pub IsAbove : GoString → List Entry → Type 0
  IsAbove c [] = Unit
  IsAbove c (e ∷ es) = (lt c e.tenant_id ≡ true) × IsAbove c es

  abbrev pub IsSorted : List Entry → Type 0
  IsSorted [] = Unit
  IsSorted (e ∷ es) = IsAbove e.tenant_id es × IsSorted es

  pub IsAbove-trans :
      (b c : GoString) (es : List Entry) → lt b c ≡ true → IsAbove c es → IsAbove b es
  IsAbove-trans b c [] l h = tt
  IsAbove-trans b c (e ∷ es) l h = (o.trans b c e.tenant_id l h.0, IsAbove-trans b c es l h.1)

  place-IsAbove :
      (c : GoString) (e : Entry) (es : List Entry)
      → lt c e.tenant_id ≡ true
      → IsAbove c es
      → IsAbove c (place lt e es)
  unfolding place
  place-IsAbove c e [] l h = (l, tt)
  place-IsAbove c e (f ∷ fs) l h = elim (Bool-cases (lt e.tenant_id f.tenant_id)) [
    | inl k ↦ rw k (l, h)
    | inr k ↦ rw k (h.0, place-IsAbove c e fs l h.1)
  ]

  sort-IsAbove : (c : GoString) (es : List Entry) → IsAbove c es → IsAbove c (sort lt es)
  unfolding sort
  sort-IsAbove c [] h = tt
  sort-IsAbove c (e ∷ es) h = place-IsAbove c e (sort lt es) h.0 (sort-IsAbove c es h.1)

  -- The first cursor, "", leaves no row out.
  pub sort-IsAbove_first : (es : List Entry) → IsKeyed es → IsAbove [] (sort lt es)
  sort-IsAbove_first es h = sort-IsAbove [] es (named es h)
    where
      named : (fs : List Entry) → IsKeyed fs → IsAbove [] fs
      named [] k = tt
      named (f ∷ fs) k = (o.least f.tenant_id k.0, named fs k.2)

  place-Differs :
      (t : GoString) (e : Entry) (es : List Entry)
      → t ≢ e.tenant_id
      → Differs t es
      → Differs t (place lt e es)
  unfolding place
  place-Differs t e [] n h = (n, tt)
  place-Differs t e (f ∷ fs) n h = elim (Bool-cases (lt e.tenant_id f.tenant_id)) [
    | inl k ↦ rw k (n, h)
    | inr k ↦ rw k (h.0, place-Differs t e fs n h.1)
  ]

  pub sort-Differs : (t : GoString) (es : List Entry) → Differs t es → Differs t (sort lt es)
  unfolding sort
  sort-Differs t [] h = tt
  sort-Differs t (e ∷ es) h = place-Differs t e (sort lt es) h.0 (sort-Differs t es h.1)

  place-IsSorted :
      (e : Entry) (es : List Entry)
      → Differs e.tenant_id es
      → IsSorted es
      → IsSorted (place lt e es)
  unfolding place
  place-IsSorted e [] d h = (tt, tt)
  place-IsSorted e (f ∷ fs) d h = elim (Bool-cases (lt e.tenant_id f.tenant_id)) [
    | inl k ↦ rw k ((k, IsAbove-trans e.tenant_id f.tenant_id fs k h.0), h)
    | inr k ↦ rw k (
      place-IsAbove f.tenant_id e fs (below k (o.total e.tenant_id f.tenant_id)) h.0,
      place-IsSorted e fs d.1 h.1,
    )
  ]
    where
      below :
          lt e.tenant_id f.tenant_id ≡ false
          → (lt e.tenant_id f.tenant_id ≡ true)
            ⊎ (e.tenant_id ≡ f.tenant_id)
            ⊎ (lt f.tenant_id e.tenant_id ≡ true)
          → lt f.tenant_id e.tenant_id ≡ true
      below k (inl l) = absurd (ground (arith, k, l))
      below k (inr (inl q)) = absurd (d.0 q)
      below k (inr (inr l)) = l

  pub sort-IsSorted : (es : List Entry) → IsKeyed es → IsSorted (sort lt es)
  unfolding sort
  sort-IsSorted [] h = tt
  sort-IsSorted (e ∷ es) h =
      place-IsSorted e (sort lt es) (sort-Differs e.tenant_id es h.1) (sort-IsSorted es h.2)

  filter-place :
      (c : GoString) (e : Entry) (es : List Entry)
      → filter (after lt c) (place lt e es)
        ≡ (if after lt c e then place lt e (filter (after lt c) es) else filter (after lt c) es)
  unfolding place
  filter-place c e [] = refl
  filter-place c e (f ∷ fs) = ground (arith, o.trans c e.tenant_id f.tenant_id, filter-place c e fs)

  -- The rows behind a cursor, sorted, are the sorted rows behind it.
  pub sort-filter :
      (c : GoString) (es : List Entry)
      → sort lt (filter (after lt c) es) ≡ filter (after lt c) (sort lt es)
  unfolding sort
  sort-filter c [] = refl
  sort-filter c (e ∷ es) = elim (Bool-cases (after lt c e)) [
    | inl k ↦ rw (filter-place c e (sort lt es), k) (ap (place lt e) (sort-filter c es))
    | inr k ↦ rw (filter-place c e (sort lt es), k) (sort-filter c es)
  ]
