-- ===== src/Match/Like.antt =====
-- `likeAnchored` of core/livequery/match/setstring.go, and the meaning of a LIKE pattern.
use Prim.Native.Nat.{◌*◌}
use fabriq.Prelude.{
  ℕ, zero, suc, ◌+◌, Bool, true, false, ◌&&◌, ◌||◌, Option, none, some, [], ◌∷◌, GoString, ◌==◌,
  if◌then◌else◌, length,
}

abbrev pub percent : ℕ
percent = 37

abbrev pub underscore : ℕ
underscore = 95

-- The reference: does the whole of the text match the pattern? `%` is any run of bytes and `_` is
-- any single byte.
unfoldable pub like : GoString → GoString → Bool
like [] [] = true
like (c ∷ s) [] = false
like [] (x ∷ p) = let rest = like [] p in (x == percent) && rest
like (c ∷ s) (x ∷ p) =
    let skip = like (c ∷ s) p in
    let absorb = like s (x ∷ p) in
    let step = like s p in
    if x == percent then skip || absorb else (x == underscore || x == c) && step

-- The last `for`: are only `%` left?
unfoldable pub only_percents : GoString → Bool
only_percents [] = true
only_percents (x ∷ p) = x == percent && only_percents p

-- The last `%` seen: what follows it in the pattern, and the text from `mark` on.
pub record Star : Type 0 where
  pub after : GoString
  pub mark : GoString

-- The first case of the `switch`: a literal byte or `_`.
abbrev pub matches_here : ℕ → GoString → Bool
matches_here c [] = false
matches_here c (x ∷ p) = x == underscore || x == c

abbrev pub at_percent : GoString → Bool
at_percent [] = false
at_percent (x ∷ p) = x == percent

abbrev pub rest : GoString → GoString
rest [] = []
rest (x ∷ p) = p

-- The loop. The indices `si` and `pi` are kept as the rests of the text and of the pattern from
-- there on, `star` and `mark` as a `Star`. `none` means that the fuel ran out.
unfoldable pub like_loop : ℕ → GoString → GoString → Option Star → Option Bool
like_loop zero s p star = none
like_loop (suc f) [] p star = some (only_percents p)
like_loop (suc f) (c ∷ s) p star =
    let step = like_loop f s (rest p) star in
    let open_star = like_loop f (c ∷ s) (rest p) (some (record { after = rest p; mark = c ∷ s })) in
    if matches_here c p then step else if at_percent p then open_star else elim star [
      | none ↦ some false
      | some r ↦ like_loop f (rest r.mark) r.after (some (record r { mark = rest r.mark }))
    ]

-- Rounds enough for any text and pattern of these lengths.
abbrev pub like_fuel : GoString → GoString → ℕ
like_fuel s p = (length s + 2) * (length s + length p + 2)

unfoldable pub like_anchored : GoString → GoString → Option Bool
unfolding like_loop only_percents
like_anchored s p = like_loop (like_fuel s p) s p none
