-- ===== src/Live/Index/Count.antt =====
-- core/livequery/index.go: the counting of `Candidates`.
use fabriq.Prelude.{
  ◌+◌, ◌≤◌, ◌≡◌, refl, ap, ◌∙◌, Bool, true, false, List, [], ◌∷◌, any, length, some, inl, inr,
  GoString, beq, beq_iff, beq_refl, lookup, arith, Bool-cases, if◌then◌else◌,
}
use fabriq.Query.Value.{Runtime, Value, Row}
use fabriq.Live.Index.{Entry, Gate, accepts, hits, columns_of}

abbrev pub member : GoString → List GoString → Bool
member k ks = any (beq k) ks

abbrev pub Distinct : List GoString → Type 0
Distinct [] = Unit
Distinct (k ∷ ks) = (member k ks ≡ false) × Distinct ks

abbrev without : GoString → List GoString → List GoString
without c [] = []
without c (k ∷ ks) = let rest = without c ks in if beq c k then rest else k ∷ rest

length-without_absent :
    (c : GoString) (ks : List GoString) → member c ks ≡ false → length (without c ks) ≡ length ks
length-without_absent c [] h = refl
length-without_absent c (k ∷ ks) h = ground (arith, length-without_absent c ks)

length-without :
    (c : GoString) (ks : List GoString) → Distinct ks → length ks ≤ length (without c ks) + 1
length-without c [] d = omega arith
length-without c (k ∷ ks) (n, d) =
    ground (arith, beq_iff c k, length-without c ks d, length-without_absent k ks n)

member-without :
    (c k : GoString) (ks : List GoString)
    → member k (without c ks) ≡ true
    → (member k ks ≡ true) × (beq c k ≡ false)
member-without c k [] h = absurd (ground arith)
member-without c k (j ∷ ks) h = (
  ground (arith, beq_iff c k, beq_iff k j, beq_iff c j, member-without c k ks),
  ground (arith, beq_iff c k, beq_iff k j, beq_iff c j, member-without c k ks),
)

absent-without :
    (c k : GoString) (ks : List GoString) → member k ks ≡ false → member k (without c ks) ≡ false
absent-without c k [] h = refl
absent-without c k (j ∷ ks) h = ground (arith, absent-without c k ks)

Distinct-without : (c : GoString) (ks : List GoString) → Distinct ks → Distinct (without c ks)
Distinct-without c [] d = tt
Distinct-without c (k ∷ ks) (n, d) = elim (Bool-cases (beq c k)) [
  | inl e ↦ rw e (Distinct-without c ks d)
  | inr e ↦ rw e (absent-without c k ks n, Distinct-without c ks d)
]

pub Distinct-columns_of : {F : Type 0} (gs : List (Gate F)) → Distinct (columns_of gs)
unfolding columns_of
Distinct-columns_of [] = tt
Distinct-columns_of (g ∷ gs) = elim (Bool-cases (member g.column (columns_of gs))) [
  | inl e ↦ rw e (Distinct-columns_of gs)
  | inr e ↦ rw e (e, Distinct-columns_of gs)
]

lookup-first :
    {F : Type 0} (c : GoString) (v raw : Value F) (row : Row F)
    → lookup c ((c, v) ∷ row) ≡ some raw
    → v ≡ raw
unfolding lookup
lookup-first c v raw row h = ground (arith, beq_refl c)

module _ {F : Type 0} ⦃rt : Runtime F⦄ (es : List (Entry F)) (id : GoString) where
  -- Each column is in the row, with a value that finds an entry of the id.
  abbrev pub AllHit : Row F → List GoString → Type 0
  AllHit row ks =
      (k : GoString)
      → member k ks ≡ true
      → (raw : Value F) × (lookup k row ≡ some raw) × (accepts es id k raw ≡ true)

  AllHit-without :
      (c : GoString) (v : Value F) (row : Row F) (ks : List GoString)
      → AllHit ((c, v) ∷ row) ks
      → AllHit row (without c ks)
  unfolding lookup
  AllHit-without c v row ks h k m =
      let (m', n) = member-without c k ks m in let (raw, l, a) = h k m' in (raw, ground arith, a)

  -- The row hits at least as many columns as there are.
  pub length-hits :
      (row : Row F) (ks : List GoString) → Distinct ks → AllHit row ks → length ks ≤ hits es id row
  unfolding hits
  length-hits [] [] d h = omega arith
  length-hits [] (k ∷ ks) d h =
      let (raw, l, a) = h k (ground (arith, beq_iff k k)) in absurd (unfold lookup in ground arith)
  length-hits ((c, v) ∷ row) ks d h =
      let ih =
        length-hits row (without c ks) (Distinct-without c ks d) (AllHit-without c v row ks h) in
      elim (Bool-cases (member c ks)) [
        | inl m ↦
            let (raw, l, a) = h c m in
            let found : accepts es id c v ≡ true =
              ap (accepts es id c) (lookup-first c v raw row l) ∙ a in
            ground (arith, length-without c ks d)
        | inr n ↦ ground (arith, length-without_absent c ks n)
      ]
