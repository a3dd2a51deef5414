-- ===== src/Subscribe/Conflator/Latest.antt =====
-- core/subscribe/conflate.go: what a flush delivers of the deltas that were offered.
use fabriq.Prelude.{ℕ, ◌≤◌, ◌≡◌, List, [], ◌∷◌, Option, none, some, GoString, Assoc, lookup}
use fabriq.Subscribe.Delta.{Delta}
use fabriq.Subscribe.Conflator.Keys.{SameAggregate}
use fabriq.Subscribe.Conflator.Sorted.{Occurs, InOrder}
use fabriq.Subscribe.Conflator.{Conflator, new_conflator, key, offer}

-- A conflator after offers, the latest first.
unfoldable pub conflate : List Delta → Conflator
conflate [] = new_conflator
conflate (d ∷ ds) = (offer (conflate ds) d).0

pub record Flushes (ds out : List Delta) : Type 0 where
  pub offered :
      (d : Delta)
      → Occurs d out
      → Occurs d ds × ((x : Delta) → Occurs x ds → SameAggregate x d → x.version ≤ d.version)
  pub complete : (d : Delta) → Occurs d ds → (w : Delta) × Occurs w out × SameAggregate w d
  pub once : (a b : Delta) → Occurs a out → Occurs b out → SameAggregate a b → a ≡ b
  pub sorted : InOrder out

-- No delta of the key `k` has a version above `v`.
abbrev AtMost : GoString → ℕ → List Delta → Type 0
AtMost k v [] = Unit
AtMost k v (x ∷ xs) = (key x ≡ k → x.version ≤ v) × AtMost k v xs

abbrev IsLatest : GoString → List Delta → Option Delta → Type 0
IsLatest k ds none = (d : Delta) → Occurs d ds → key d ≡ k → ⊥
IsLatest k ds (some d) = Occurs d ds × (key d ≡ k) × AtMost k d.version ds

-- The buffer holds a delta under its own key, and a key once.
abbrev IsKeyed : Assoc Delta → Type 0
IsKeyed [] = Unit
IsKeyed ((k, d) ∷ m) = (key d ≡ k) × (lookup k m ≡ none) × IsKeyed m
