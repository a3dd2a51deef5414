-- ===== src/Prelude/Splice.antt =====
-- What a prefix of a list becomes when the list is spliced.
use Prim.Native.Nat.{ℕ, zero, suc, ◌≤◌, ◌<◌}
use mathlib.Core.Path.{◌≡◌, refl, sym, ap}
use mathlib.Core.List.{List, [], ◌∷◌, map}
use mathlib.Core.Option.{none, some}
use native.Mathlib.Omega.{arith}
use fabriq.Prelude.Lists.{length, get_elem?, set, take, insert_at, remove_at, take_of_length-le}

module _ {ℓ} {A : Type ℓ} where
  pub get_elem?_in_range :
      (xs : List A) (i : ℕ) → i < length xs → (x : A) × (get_elem? xs i ≡ some x)
  get_elem?_in_range [] i h = absurd (omega arith)
  get_elem?_in_range (x ∷ xs) zero h = (x, refl)
  get_elem?_in_range (x ∷ xs) (suc i) h = get_elem?_in_range xs i (omega arith)

  pub get_elem?_out_of_range : (xs : List A) (i : ℕ) → length xs ≤ i → get_elem? xs i ≡ none
  get_elem?_out_of_range [] i h = refl
  get_elem?_out_of_range (x ∷ xs) zero h = absurd (omega arith)
  get_elem?_out_of_range (x ∷ xs) (suc i) h = get_elem?_out_of_range xs i (omega arith)

  pub lt_of_get_elem? : (xs : List A) (i : ℕ) {x : A} → get_elem? xs i ≡ some x → i < length xs
  lt_of_get_elem? [] i h = absurd (ground arith)
  lt_of_get_elem? (x ∷ xs) zero h = omega arith
  lt_of_get_elem? (x ∷ xs) (suc i) h = omega (arith, lt_of_get_elem? xs i h)

  -- An insert into a full prefix pushes its last element out.
  pub take-insert_at_full :
      (n i : ℕ) (v : A) (xs : List A)
      → i < n
      → n ≤ length xs
      → remove_at n (insert_at i v (take n xs)) ≡ take n (insert_at i v xs)
  take-insert_at_full zero i v xs h k = absurd (omega arith)
  take-insert_at_full (suc n) zero v [] h k = absurd (omega arith)
  take-insert_at_full (suc n) zero v (x ∷ xs) h k = ap (◌∷◌ v) (pushed n x xs (omega arith))
    where
      pushed :
          (n : ℕ) (x : A) (xs : List A)
          → n ≤ length xs
          → remove_at n (x ∷ take n xs) ≡ take n (x ∷ xs)
      pushed zero x xs k = refl
      pushed (suc n) x [] k = absurd (omega arith)
      pushed (suc n) x (y ∷ xs) k = ap (◌∷◌ x) (pushed n y xs (omega arith))
  take-insert_at_full (suc n) (suc i) v [] h k = absurd (omega arith)
  take-insert_at_full (suc n) (suc i) v (x ∷ xs) h k =
      ap (◌∷◌ x) (take-insert_at_full n i v xs (omega arith) (omega arith))

  pub take-insert_at_short :
      (n i : ℕ) (v : A) (xs : List A)
      → i < n
      → length xs < n
      → insert_at i v (take n xs) ≡ take n (insert_at i v xs)
  take-insert_at_short zero i v xs h k = absurd (omega arith)
  take-insert_at_short (suc n) zero v xs h k = ap (◌∷◌ v) (cut n xs (omega arith))
    where
      cut : (n : ℕ) (xs : List A) → length xs ≤ n → take (suc n) xs ≡ take n xs
      cut zero [] k = refl
      cut (suc n) [] k = refl
      cut zero (x ∷ xs) k = absurd (omega arith)
      cut (suc n) (x ∷ xs) k = ap (◌∷◌ x) (cut n xs (omega arith))
  take-insert_at_short (suc zero) (suc i) v xs h k = absurd (omega arith)
  take-insert_at_short (suc (suc n)) (suc i) v [] h k = refl
  take-insert_at_short (suc (suc n)) (suc i) v (x ∷ xs) h k =
      ap (◌∷◌ x) (take-insert_at_short (suc n) i v xs (omega arith) (omega arith))

  pub take-insert_at_beyond :
      (n i : ℕ) (v : A) (xs : List A)
      → n ≤ i
      → i ≤ length xs
      → take n (insert_at i v xs) ≡ take n xs
  take-insert_at_beyond zero i v xs h k = refl
  take-insert_at_beyond (suc n) zero v xs h k = absurd (omega arith)
  take-insert_at_beyond (suc n) (suc i) v [] h k = absurd (omega arith)
  take-insert_at_beyond (suc n) (suc i) v (x ∷ xs) h k =
      ap (◌∷◌ x) (take-insert_at_beyond n i v xs (omega arith) (omega arith))

  pub take-remove_at_beyond : (n i : ℕ) (xs : List A) → n ≤ i → take n (remove_at i xs) ≡ take n xs
  take-remove_at_beyond zero i xs h = refl
  take-remove_at_beyond (suc n) i [] h = refl
  take-remove_at_beyond (suc n) zero (x ∷ xs) h = absurd (omega arith)
  take-remove_at_beyond (suc n) (suc i) (x ∷ xs) h =
      ap (◌∷◌ x) (take-remove_at_beyond n i xs (omega arith))

  -- A removal from the prefix lets the next element move up.
  pub take-remove_at_promote :
      (n i : ℕ) (xs : List A) (v : A)
      → i ≤ n
      → get_elem? (remove_at i xs) n ≡ some v
      → insert_at n v (remove_at i (take (suc n) xs)) ≡ take (suc n) (remove_at i xs)
  take-remove_at_promote n i [] v h e = absurd (ground arith)
  take-remove_at_promote n zero (x ∷ xs) v h e = promoted n xs e
    where
      promoted :
          (n : ℕ) (xs : List A)
          → get_elem? xs n ≡ some v
          → insert_at n v (take n xs) ≡ take (suc n) xs
      promoted n [] e = absurd (ground arith)
      promoted zero (y ∷ xs) e = ground arith
      promoted (suc n) (y ∷ xs) e = ap (◌∷◌ y) (promoted n xs e)
  take-remove_at_promote zero (suc i) (x ∷ xs) v h e = absurd (omega arith)
  take-remove_at_promote (suc n) (suc i) (x ∷ xs) v h e =
      ap (◌∷◌ x) (take-remove_at_promote n i xs v (omega arith) e)

  pub take-remove_at_exhausted :
      (n i : ℕ) (xs : List A)
      → i ≤ n
      → i < length xs
      → length xs ≤ suc n
      → remove_at i (take (suc n) xs) ≡ take (suc n) (remove_at i xs)
  take-remove_at_exhausted n i [] h k l = absurd (omega arith)
  take-remove_at_exhausted n zero (x ∷ xs) h k l = short n xs (omega arith)
    where
      short : (n : ℕ) (xs : List A) → length xs ≤ n → take n xs ≡ take (suc n) xs
      short zero [] l = refl
      short zero (x ∷ xs) l = absurd (omega arith)
      short (suc n) [] l = refl
      short (suc n) (x ∷ xs) l = ap (◌∷◌ x) (short n xs (omega arith))
  take-remove_at_exhausted zero (suc i) (x ∷ xs) h k l = absurd (omega arith)
  take-remove_at_exhausted (suc n) (suc i) (x ∷ xs) h k l =
      ap (◌∷◌ x) (take-remove_at_exhausted n i xs (omega arith) (omega arith) (omega arith))

  -- A move within the prefix.
  pub take-move :
      (n i j : ℕ) (v : A) (xs : List A)
      → i ≤ n
      → j ≤ n
      → i < length xs
      → insert_at j v (remove_at i (take (suc n) xs))
        ≡ take (suc n) (insert_at j v (remove_at i xs))
  take-move n i j v [] h k l = absurd (omega arith)
  take-move n zero j v (x ∷ xs) h k l = inserted n j xs (omega arith)
    where
      inserted :
          (n j : ℕ) (xs : List A)
          → j ≤ n
          → insert_at j v (take n xs) ≡ take (suc n) (insert_at j v xs)
      inserted zero zero xs k = refl
      inserted (suc n) zero xs k = refl
      inserted zero (suc j) xs k = absurd (omega arith)
      inserted (suc n) (suc j) [] k = refl
      inserted (suc n) (suc j) (y ∷ xs) k = ap (◌∷◌ y) (inserted n j xs (omega arith))
  take-move zero (suc i) j v (x ∷ xs) h k l = absurd (omega arith)
  take-move (suc n) (suc i) zero v (x ∷ xs) h k l = ap (λ t. v ∷ x ∷ t) (kept n i xs (omega arith))
    where
      kept :
          (n i : ℕ) (xs : List A) → i ≤ n → remove_at i (take (suc n) xs) ≡ take n (remove_at i xs)
      kept n i [] h = sym (take_of_length-le n [] (omega arith))
      kept n zero (x ∷ xs) h = refl
      kept zero (suc i) (x ∷ xs) h = absurd (omega arith)
      kept (suc n) (suc i) (x ∷ xs) h = ap (◌∷◌ x) (kept n i xs (omega arith))
  take-move (suc n) (suc i) (suc j) v (x ∷ xs) h k l =
      ap (◌∷◌ x) (take-move n i j v xs (omega arith) (omega arith) (omega arith))

  pub take-set : (n i : ℕ) (v : A) (xs : List A) → take n (set xs i v) ≡ set (take n xs) i v
  take-set zero i v xs = refl
  take-set (suc n) i v [] = refl
  take-set (suc n) zero v (x ∷ xs) = refl
  take-set (suc n) (suc i) v (x ∷ xs) = ap (◌∷◌ x) (take-set n i v xs)

  pub set_beyond : (i : ℕ) (v : A) (xs : List A) → length xs ≤ i → set xs i v ≡ xs
  set_beyond i v [] h = refl
  set_beyond zero v (x ∷ xs) h = absurd (omega arith)
  set_beyond (suc i) v (x ∷ xs) h = ap (◌∷◌ x) (set_beyond i v xs (omega arith))

module _ {ℓ κ} {A : Type ℓ} {B : Type κ} (f : A → B) where
  pub map-take : (n : ℕ) (xs : List A) → map f (take n xs) ≡ take n (map f xs)
  map-take zero xs = refl
  map-take (suc n) [] = refl
  map-take (suc n) (x ∷ xs) = ap (◌∷◌ (f x)) (map-take n xs)

  pub map-insert_at :
      (i : ℕ) (v : A) (xs : List A) → map f (insert_at i v xs) ≡ insert_at i (f v) (map f xs)
  map-insert_at zero v xs = refl
  map-insert_at (suc i) v [] = refl
  map-insert_at (suc i) v (x ∷ xs) = ap (◌∷◌ (f x)) (map-insert_at i v xs)

  pub map-remove_at : (i : ℕ) (xs : List A) → map f (remove_at i xs) ≡ remove_at i (map f xs)
  map-remove_at i [] = refl
  map-remove_at zero (x ∷ xs) = refl
  map-remove_at (suc i) (x ∷ xs) = ap (◌∷◌ (f x)) (map-remove_at i xs)

  pub map-set : (xs : List A) (i : ℕ) (v : A) → map f (set xs i v) ≡ set (map f xs) i (f v)
  map-set [] i v = refl
  map-set (x ∷ xs) zero v = refl
  map-set (x ∷ xs) (suc i) v = ap (◌∷◌ (f x)) (map-set xs i v)

  pub length-map : (xs : List A) → length (map f xs) ≡ length xs
  length-map [] = refl
  length-map (x ∷ xs) = ap suc (length-map xs)

  pub get_elem?-map-some :
      (xs : List A) (i : ℕ) (x : A) → get_elem? xs i ≡ some x → get_elem? (map f xs) i ≡ some (f x)
  get_elem?-map-some [] i x h = absurd (ground arith)
  get_elem?-map-some (y ∷ xs) zero x h = ground arith
  get_elem?-map-some (y ∷ xs) (suc i) x h = get_elem?-map-some xs i x h

module _ {ℓ} {A : Type ℓ} where
  pub get_elem?-insert_at_before :
      (i j : ℕ) (v : A) (xs : List A)
      → j < i
      → i ≤ length xs
      → get_elem? (insert_at i v xs) j ≡ get_elem? xs j
  get_elem?-insert_at_before zero j v xs h k = absurd (omega arith)
  get_elem?-insert_at_before (suc i) j v [] h k = absurd (omega arith)
  get_elem?-insert_at_before (suc i) zero v (x ∷ xs) h k = refl
  get_elem?-insert_at_before (suc i) (suc j) v (x ∷ xs) h k =
      get_elem?-insert_at_before i j v xs (omega arith) (omega arith)
