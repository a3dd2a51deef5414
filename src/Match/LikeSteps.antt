-- ===== src/Match/LikeSteps.antt =====
-- core/livequery/match/setstring.go: the laws of `like`, one byte of the pattern at a time.
use fabriq.Prelude.{ℕ, ◌≡◌, ◌≢◌, refl, true, false, ◌||◌, [], ◌∷◌, GoString, arith}
use fabriq.Match.Like.{percent, like, only_percents, matches_here, at_percent, rest}

abbrev pub HasNoPercent : GoString → Type 0
HasNoPercent [] = Unit
HasNoPercent (c ∷ s) = (c ≢ percent) × HasNoPercent s

pub HasNoPercent-rest : (s : GoString) → HasNoPercent s → HasNoPercent (rest s)
HasNoPercent-rest [] h = h
HasNoPercent-rest (c ∷ s) h = h.1

pub like-nil : (p : GoString) → like [] p ≡ only_percents p
unfolding like only_percents
like-nil [] = refl
like-nil (x ∷ p) = ground (arith, like-nil p)

-- A `%` may take one more byte.
pub like-absorb :
    (s q : GoString) → like (rest s) (percent ∷ q) ≡ true → like s (percent ∷ q) ≡ true
unfolding like
like-absorb [] q h = h
like-absorb (c ∷ s) q h = ground arith

pub like-percent_nil : (q : GoString) → like [] (percent ∷ q) ≡ like [] q
unfolding like
like-percent_nil q = ground arith

pub like-percent :
    (c : ℕ) (s q : GoString) → like (c ∷ s) (percent ∷ q) ≡ (like (c ∷ s) q || like s (percent ∷ q))
unfolding like
like-percent c s q = ground arith

-- Two `%` in a row are one.
pub like-percent-percent :
    (s q : GoString) → like s (percent ∷ percent ∷ q) ≡ true → like s (percent ∷ q) ≡ true
like-percent-percent [] q h = rw like-percent_nil at h
like-percent-percent (c ∷ s) q h =
    ground (arith, like-percent c s (percent ∷ q), like-percent-percent s q, like-absorb (c ∷ s) q)

-- A byte of the pattern that is no `%` takes a byte of the text.
like-literal_nil : (x : ℕ) (p : GoString) → x ≢ percent → like [] (x ∷ p) ≡ false
unfolding like
like-literal_nil x p h = ground arith

like-step : (c x : ℕ) (s p : GoString) → x ≢ percent → like (c ∷ s) (x ∷ p) ≡ true → like s p ≡ true
unfolding like
like-step c x s p h k = ground arith

pub like-skip :
    (c x : ℕ) (s p : GoString)
    → x ≢ percent
    → like (c ∷ s) (percent ∷ x ∷ p) ≡ true
    → like s (percent ∷ p) ≡ true
like-skip c x [] p h k = ground (
  arith,
  like-percent c [] (x ∷ p),
  like-percent_nil (x ∷ p),
  like-percent_nil p,
  like-literal_nil x p h,
  like-step c x [] p h,
)
like-skip c x (d ∷ s) p h k = ground (
  arith,
  like-percent c (d ∷ s) (x ∷ p),
  like-percent d s p,
  like-step c x (d ∷ s) p h,
  like-skip d x s p h,
)

pub like-matches_here :
    (c : ℕ) (s p : GoString)
    → c ≢ percent
    → matches_here c p ≡ true
    → like (c ∷ s) p ≡ like s (rest p)
unfolding like
like-matches_here c s [] n h = ground arith
like-matches_here c s (x ∷ p) n h = ground arith

pub like-mismatch :
    (c : ℕ) (s p : GoString)
    → matches_here c p ≡ false
    → at_percent p ≡ false
    → like (c ∷ s) p ≡ false
unfolding like
like-mismatch c s [] n h = refl
like-mismatch c s (x ∷ p) n h = ground arith
