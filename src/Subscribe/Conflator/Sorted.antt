-- ===== src/Subscribe/Conflator/Sorted.antt =====
-- core/subscribe/conflate.go: the sort of a flush.
use mathlib.Core.Path.{subst}
use fabriq.Prelude.{
  ◌≤◌, ◌≡◌, ◌↔◌, ◌⊎◌, inl, inr, true, false, List, [], ◌∷◌, arith, Bool-cases, beq_iff, str_lt,
  str_lt_asym, str_lt_irrefl, if◌then◌else◌,
}
use fabriq.Subscribe.Delta.{Delta}
use fabriq.Subscribe.Conflator.{before, place, sort}

abbrev pub Occurs : Delta → List Delta → Type 0
Occurs d [] = ⊥
Occurs d (x ∷ xs) = (d ≡ x) ⊎ Occurs d xs

-- The order of the stream ids as texts, then of the versions.
abbrev pub InOrder : List Delta → Type 0
InOrder [] = Unit
InOrder (a ∷ []) = Unit
InOrder (a ∷ b ∷ l) =
    (str_lt b.stream_id a.stream_id ≡ false)
    × (a.stream_id ≡ b.stream_id → a.version ≤ b.version)
    × InOrder (b ∷ l)

Occurs-place : (d a : Delta) (bs : List Delta) → Occurs d (place a bs) ↔ ((d ≡ a) ⊎ Occurs d bs)
unfolding place
Occurs-place d a [] = (λ o. o, λ o. o)
Occurs-place d a (b ∷ bs) = elim (Bool-cases (before b a)) [
  | inl t ↦ rw t (
    λ o. elim o [
      | inl e ↦ inr (inl e)
      | inr q ↦ elim ((Occurs-place d a bs).0 q) [ inl e ↦ inl e | inr z ↦ inr (inr z) ]
    ],
    λ o. elim o [
      | inl e ↦ inr ((Occurs-place d a bs).1 (inl e))
      | inr (inl e) ↦ inl e
      | inr (inr z) ↦ inr ((Occurs-place d a bs).1 (inr z))
    ],
  )
  | inr t ↦ rw t (λ o. o, λ o. o)
]

pub Occurs-sort : (d : Delta) (xs : List Delta) → Occurs d (sort xs) ↔ Occurs d xs
unfolding sort
Occurs-sort d [] = (λ o. o, λ o. o)
Occurs-sort d (x ∷ xs) = (
  λ o. elim ((Occurs-place d x (sort xs)).0 o) [
    | inl e ↦ inl e
    | inr q ↦ inr ((Occurs-sort d xs).0 q)
  ],
  λ o.
      (Occurs-place d x (sort xs)).1
        (elim o [ inl e ↦ inl e | inr q ↦ inr ((Occurs-sort d xs).1 q) ]),
)

-- Sorted by `before`.
abbrev IsSorted : List Delta → Type 0
IsSorted [] = Unit
IsSorted (a ∷ []) = Unit
IsSorted (a ∷ b ∷ l) = (before b a ≡ false) × IsSorted (b ∷ l)

before_asym : (a b : Delta) → before a b ≡ true → before b a ≡ false
unfolding before
before_asym a b h = ground (
  arith,
  beq_iff a.stream_id b.stream_id,
  beq_iff b.stream_id a.stream_id,
  str_lt_asym a.stream_id b.stream_id,
)

place-IsSorted : (a : Delta) (bs : List Delta) → IsSorted bs → IsSorted (place a bs)
unfolding place
place-IsSorted a [] h = tt
place-IsSorted a (b ∷ []) h = elim (Bool-cases (before b a)) [
  | inl t ↦ rw t (before_asym b a t, tt)
  | inr t ↦ rw t (t, tt)
]
place-IsSorted a (b ∷ c ∷ l) (h, hs) = elim (Bool-cases (before b a)) [
  | inl t ↦ rw t (elim (Bool-cases (before c a)) [
    | inl u ↦ rw u (
      h,
      subst (λ x. IsSorted (if x then c ∷ place a l else a ∷ c ∷ l)) u
          (place-IsSorted a (c ∷ l) hs),
    )
    | inr u ↦ rw u (before_asym b a t, (u, hs))
  ])
  | inr t ↦ rw t (t, (h, hs))
]

sort-IsSorted : (xs : List Delta) → IsSorted (sort xs)
unfolding sort
sort-IsSorted [] = tt
sort-IsSorted (x ∷ xs) = place-IsSorted x (sort xs) (sort-IsSorted xs)

IsSorted-InOrder : (xs : List Delta) → IsSorted xs → InOrder xs
unfolding before
IsSorted-InOrder [] h = tt
IsSorted-InOrder (a ∷ []) h = tt
IsSorted-InOrder (a ∷ b ∷ l) h = (
  ground (arith, h.0, beq_iff b.stream_id a.stream_id, str_lt_irrefl a.stream_id),
  (λ e. ground (arith, h.0, beq_iff b.stream_id a.stream_id, e)),
  IsSorted-InOrder (b ∷ l) h.1,
)

pub sort-InOrder : (xs : List Delta) → InOrder (sort xs)
sort-InOrder xs = IsSorted-InOrder (sort xs) (sort-IsSorted xs)
