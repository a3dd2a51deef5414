-- ===== src/Match/LikeCorrect.antt =====
-- core/livequery/match/setstring.go: the loop of `likeAnchored` against `like`.
use Prim.Native.Nat.{◌*◌}
use mathlib.Core.Bool.{false≢true}
use mathlib.Core.Path.{subst}
use fabriq.Prelude.{
  ℕ, zero, suc, ◌+◌, ◌≤◌, ◌<◌, ◌≡◌, ◌≢◌, refl, ap, inl, inr, Bool, true, false, ◌||◌, Option, none,
  some, [], ◌∷◌, GoString, arith, length, Bool-cases,
}
use fabriq.Match.Like.{
  percent, like, only_percents, Star, matches_here, at_percent, rest, like_loop, like_fuel,
  like_anchored,
}
use fabriq.Match.LikeSteps.{
  HasNoPercent, HasNoPercent-rest, like-nil, like-absorb, like-percent_nil, like-percent,
  like-percent-percent, like-skip, like-matches_here, like-mismatch,
}

-- What the star may still give: a match that starts further right.
abbrev retry : Option Star → Bool
retry none = false
retry (some r) = like (rest r.mark) (percent ∷ r.after)

-- Whatever the star may still give is also found by a `%` at the current place: an older star is
-- never needed.
abbrev IsCovered : GoString → GoString → Option Star → Type 0
IsCovered s p star = retry star ≡ true → like s (percent ∷ p) ≡ true

-- `k` bounds the backtracks to come, and `b` the rounds between two of them.
abbrev InBounds : ℕ → ℕ → GoString → Option Star → Type 0
InBounds k b s none = length s < k
InBounds k b s (some r) =
    (length s ≤ length r.mark)
    × (length r.mark ≤ k)
    × (0 < length r.mark)
    × (length r.mark + length r.after < b)
    × HasNoPercent r.mark

IsCovered-step :
    (c : ℕ) (s p : GoString) (star : Option Star)
    → c ≢ percent
    → matches_here c p ≡ true
    → IsCovered (c ∷ s) p star
    → IsCovered s (rest p) star
IsCovered-step c s [] star n h cov = λ r. absurd (false≢true h)
IsCovered-step c s (x ∷ p) star n h cov = λ r. like-skip c x s p (ground arith) (cov r)

IsCovered-star :
    (c : ℕ) (s q : GoString) → IsCovered (c ∷ s) q (some (record { after = q; mark = c ∷ s }))
IsCovered-star c s q = λ r. like-absorb (c ∷ s) q r

-- A step of the `%` case: what the old star gave is found from the new one.
found_at_percent :
    (c : ℕ) (s p : GoString) (star : Option Star)
    → at_percent p ≡ true
    → IsCovered (c ∷ s) p star
    → (like (c ∷ s) p || retry star) ≡ (like (c ∷ s) (rest p) || like s (percent ∷ rest p))
found_at_percent c s [] star h cov = absurd (false≢true h)
found_at_percent c s (x ∷ q) star h cov =
    let e : x ≡ percent = ground arith in
    let cov' : retry star ≡ true → like (c ∷ s) (percent ∷ percent ∷ q) ≡ true =
      λ r. rw e at (cov r) in
    rw e (elim (Bool-cases (retry star)) [
      | inl y ↦ ground (arith, like-percent c s q, like-percent-percent (c ∷ s) q (cov' y))
      | inr n ↦ rw n (ground (arith, like-percent c s q))
    ])

length-rest-le : (s : GoString) → 0 < length s → length (rest s) + 1 ≡ length s
length-rest-le [] h = absurd (omega arith)
length-rest-le (c ∷ s) h = omega arith

length-rest-le_any : (s : GoString) → length (rest s) ≤ length s
length-rest-le_any [] = omega arith
length-rest-le_any (c ∷ s) = omega arith

loop_at_end :
    (p : GoString) (star : Option Star)
    → IsCovered [] p star
    → only_percents p ≡ (like [] p || retry star)
loop_at_end p star cov = elim (Bool-cases (retry star)) [
  | inl y ↦ ground (arith, like-nil p, like-percent_nil p, cov y)
  | inr n ↦ rw n (ground (arith, like-nil p))
]

InBounds-step :
    (k b c : ℕ) (s : GoString) (star : Option Star)
    → InBounds k b (c ∷ s) star
    → InBounds k b s star
InBounds-step k b c s none h = omega arith
InBounds-step k b c s (some r) h = (omega arith, h.1, h.2, h.3, h.4)

InBounds-star :
    (k b c : ℕ) (s p : GoString) (star : Option Star)
    → InBounds k b (c ∷ s) star
    → HasNoPercent (c ∷ s)
    → at_percent p ≡ true
    → length (c ∷ s) + length p < b
    → InBounds k b (c ∷ s) (some (record { after = rest p; mark = c ∷ s }))
InBounds-star k b c s [] star h n t l = absurd (false≢true t)
InBounds-star k b c s (x ∷ p) none h n t l = (omega arith, omega arith, omega arith, omega arith, n)
InBounds-star k b c s (x ∷ p) (some r) h n t l =
    (omega arith, omega arith, omega arith, omega arith, n)

length-rest_matching :
    (c : ℕ) (p : GoString) → matches_here c p ≡ true → length (rest p) + 1 ≡ length p
length-rest_matching c [] h = absurd (false≢true h)
length-rest_matching c (x ∷ p) h = omega arith

length-rest_percent : (p : GoString) → at_percent p ≡ true → length (rest p) + 1 ≡ length p
length-rest_percent [] h = absurd (false≢true h)
length-rest_percent (x ∷ p) h = omega arith

-- After a backtrack the text starts at the new mark.
InBounds-retry :
    (k b : ℕ) (r : Star) (d : ℕ) (m : GoString)
    → rest r.mark ≡ d ∷ m
    → (length r.mark ≤ suc k) × (0 < length r.mark)
    → length r.mark + length r.after < b
    → HasNoPercent r.mark
    → InBounds k b (d ∷ m) (some (record { after = r.after; mark = d ∷ m }))
InBounds-retry k b r d m e h l n = (
  omega arith,
  omega (arith, length-rest-le r.mark h.1, ap length e),
  omega arith,
  omega (arith, length-rest-le r.mark h.1, ap length e),
  subst HasNoPercent e (HasNoPercent-rest r.mark n),
)

-- A backtrack, from the loop's result at the new mark.
retried :
    (f k b : ℕ) (r : Star) (m : GoString)
    → rest r.mark ≡ m
    → ((star : Option Star)
        → InBounds k b m star
        → HasNoPercent m
        → IsCovered m r.after star
        → like_loop f m r.after star ≡ some (like m r.after || retry star))
    → (length r.mark ≤ suc k) × (0 < length r.mark)
    → length r.mark + length r.after < b
    → HasNoPercent r.mark
    → 0 < f
    → like_loop f m r.after (some (record r { mark = m })) ≡ some (like m (percent ∷ r.after))
unfolding like_loop
retried zero k b r m e go h l n pos = absurd (omega arith)
retried (suc f) k b r [] e go h l n pos = rw like-percent_nil (ground (arith, like-nil r.after))
retried (suc f) k b r (d ∷ m) e go h l n pos = rw like-percent (
    go (some (record r { mark = d ∷ m })) (InBounds-retry k b r d m e h l n)
      (subst HasNoPercent e (HasNoPercent-rest r.mark n)) (IsCovered-star d m r.after))

abbrev LoopGives : ℕ → ℕ → ℕ → GoString → GoString → Option Star → Type 0
LoopGives f k b s p star =
    InBounds k b s star
    → length s + length p < b
    → HasNoPercent s
    → IsCovered s p star
    → k * b + length s + length p < f
    → like_loop f s p star ≡ some (like s p || retry star)

-- One round, from the result of the backtrack and those of the later rounds.
like_loop_round :
    (f k b c : ℕ) (s p : GoString) (star : Option Star)
    → ((s' p' : GoString) (star' : Option Star) → LoopGives f k b s' p' star')
    → (elim star as (λ _. Option Bool) [
      | none ↦ some false
      | some r ↦ like_loop f (rest r.mark) r.after (some (record r { mark = rest r.mark }))
    ])
      ≡ some (retry star)
    → LoopGives (suc f) k b (c ∷ s) p star
unfolding like_loop
like_loop_round f k b c s p star ih back inb l n cov fuel = elim (Bool-cases (matches_here c p)) [
  | inl here ↦ rw here (
      rw (like-matches_here c s p n.0 here) (
        ih s (rest p) star (InBounds-step k b c s star inb)
          (omega (arith, length-rest_matching c p here)) n.1
          (IsCovered-step c s p star n.0 here cov) (omega (arith, length-rest_matching c p here))))
  | inr no_match ↦ rw no_match (elim (Bool-cases (at_percent p)) [
    | inl wild ↦ rw wild (
        rw (found_at_percent c s p star wild cov) (
          ih (c ∷ s) (rest p) (some (record { after = rest p; mark = c ∷ s }))
            (InBounds-star k b c s p star inb n wild l) (omega (arith, length-rest_percent p wild))
            n (IsCovered-star c s (rest p)) (omega (arith, length-rest_percent p wild))))
    | inr closed ↦ rw closed (rw (like-mismatch c s p no_match closed) back)
  ])
]

-- The loop finds a match from the current place, or one that the last star still gives.
like_loop_lem : (f k b : ℕ) (s p : GoString) (star : Option Star) → LoopGives f k b s p star
like_loop_lem zero k b s p star inb l n cov fuel = absurd (omega arith)
like_loop_lem (suc f) k b [] p star inb l n cov fuel =
    unfold like_loop in ap some (loop_at_end p star cov)
like_loop_lem (suc f) k b (c ∷ s) p none inb l n cov fuel =
    like_loop_round f k b c s p none (like_loop_lem f k b) refl inb l n cov fuel
like_loop_lem (suc f) zero b (c ∷ s) p (some r) inb l n cov fuel = absurd (omega arith)
like_loop_lem (suc f) (suc k) b (c ∷ s) p (some r) inb l n cov fuel =
    like_loop_round f (suc k) b c s p (some r) (like_loop_lem f (suc k) b)
      (retried f k b r (rest r.mark) refl
        (λ star i m v.
          like_loop_lem f k b (rest r.mark) r.after star i
            (omega (arith, length-rest-le_any r.mark)) m v
            (omega (arith, length-rest-le_any r.mark, spare k b)))
        (inb.1, inb.2) inb.3 inb.4 (omega arith))
      inb l n cov fuel
  where
    spare : (k b : ℕ) → suc k * b ≡ k * b + b
    spare k b = omega arith

-- On a text without `%` the loop of `likeAnchored` ends, and its answer is whether the text matches
-- the LIKE pattern.
pub like_anchored-eq-like : (s p : GoString) → HasNoPercent s → like_anchored s p ≡ some (like s p)
unfolding like_anchored
like_anchored-eq-like s p n = or_nothing (like s p) (
    like_loop_lem (like_fuel s p) (length s + 1) (length s + length p + 1) s p none (omega arith)
      (omega arith) n (λ r. absurd (false≢true r)) (omega arith))
  where
    or_nothing :
        (b : Bool)
        → like_loop (like_fuel s p) s p none ≡ some (b || false)
        → like_loop (like_fuel s p) s p none ≡ some b
    or_nothing true h = h
    or_nothing false h = h
