-- ===== src/Match/Tests.antt =====
-- Runs of the matcher, and the instances of its theorems.
use fabriq.Prelude.{
  ℕ, ◌≡◌, refl, none, some, true, false, Bool, [], ◌∷◌, GoString, codes, ltb, ◌==◌, arith, ok, ◌>>◌,
  ◌↔◌,
}
use fabriq.Query.Value.{pos, negsuc, Runtime, text, int64, one, many, anys, Row}
use fabriq.Query.Filter.{eq, gt, not_in, cond, Conds, end, more, validate_conds}
use fabriq.Match.Like.{like, like_anchored}
use fabriq.Match.LikeCorrect.{like_anchored-eq-like}
use fabriq.Match.Predicate.{compile}
use fabriq.Match.Guard.{
  leaves_of, check_each, known_op, AllLeaves, IsValidLeaf, compile-leaves, validate_conds_sound,
}

-- Doubles that hold whole numbers.
abbrev whole : Runtime ℕ
whole = record {
  feq = λ a b. a == b;
  flt = λ a b. ltb a b;
  of_int = λ z. elim z [ pos n ↦ n | negsuc n ↦ 0 ];
  parse_time = λ s. none;
  to_lower = λ s. s;
}

like_runs : like_anchored (codes "banana") (codes "b%n_n%") ≡ some true
unfolding like_anchored
like_runs = refl

like_retries : like_anchored (codes "abcabd") (codes "%ab_") ≡ some true
unfolding like_anchored
like_retries = refl

-- A `%` in the text is taken for a literal match of the pattern's `%`.
like_percent_in_text : like_anchored (codes "%a") (codes "%") ≡ some false
unfolding like_anchored
like_percent_in_text = refl

like_percent_meant : like (codes "%a") (codes "%") ≡ true
unfolding like
like_percent_meant = refl

like_anchored-eq-like_example :
    like_anchored (codes "abcabd") (codes "%ab_") ≡ some (like (codes "abcabd") (codes "%ab_"))
like_anchored-eq-like_example =
    like_anchored-eq-like (codes "abcabd") (codes "%ab_")
      (omega arith, (omega arith, (omega arith, (omega arith, (omega arith, (omega arith, tt))))))

-- kind = 'a' AND (size > 3 OR kind NOT IN ('b'))
abbrev filter : Conds ℕ
filter = more (cond (codes "kind") eq (one (text (codes "a"))) end) (
    more
      (cond [] eq (one (text [])) (
        more (cond (codes "size") gt (one (int64 (pos 3))) end)
          (more (cond (codes "kind") not_in (many anys (text (codes "b") ∷ [])) end) end)))
      end)

abbrev has : GoString → Bool
has c = true

compile-leaves_example :
    compile filter ≡ (check_each known_op (leaves_of filter) >> ok (record { conds = filter }))
compile-leaves_example = compile-leaves filter

validate_conds_sound_example :
    ((validate_conds has filter ≡ ok tt) ↔ AllLeaves (IsValidLeaf has) (leaves_of filter))
    × (validate_conds has filter ≡ ok tt → compile filter ≡ ok (record { conds = filter }))
validate_conds_sound_example = validate_conds_sound has filter

abbrev row : Row ℕ
row = (codes "kind", text (codes "a")) ∷ (codes "size", int64 (pos 2)) ∷ []
