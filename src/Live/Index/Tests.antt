-- ===== src/Live/Index/Tests.antt =====
-- An index of two subscriptions, and the instance of its theorem.
use fabriq.Prelude.{ℕ, ◌≡◌, refl, true, [], ◌∷◌, none, some, codes, beq, lookup, ltb, ◌==◌, arith}
use fabriq.Query.Value.{pos, negsuc, Runtime, Value, text, int, int64, one, many, anys, Row}
use fabriq.Query.Filter.{eq, in_set, Conds, cond, end, more}
use fabriq.Match.Compare.{equal, equal_numbers, same_value}
use fabriq.Match.Predicate.{eval_all, eval_cond, eval_leaf, eval_value, eval_set_string, in_slice}
use fabriq.Live.Index.{
  PredicateIndex, new_index, add, equality_columns, leaf_gates, norm_val, candidates, hit_ids, hits,
  accepts, columns_of, remove,
}
use fabriq.Live.Index.Count.{member}
use fabriq.Live.Index.Sound.{Timeless}
use fabriq.Live.Index.Candidates.{Since, candidates_sound}

-- Doubles that hold whole numbers.
instance abbrev whole : Runtime ℕ
whole = record {
  feq = λ a b. a == b;
  flt = λ a b. ltb a b;
  of_int = λ z. elim z [ pos n ↦ n | negsuc n ↦ 0 ];
  parse_time = λ s. none;
  to_lower = λ s. s;
}

-- kind = 'a' AND size IN (3, 4)
abbrev sized : Conds ℕ
sized =
    more (cond (codes "kind") eq (one (text (codes "a"))) end)
      (more (cond (codes "size") in_set (many anys (int (pos 3) ∷ int (pos 4) ∷ [])) end) end)

abbrev row : Row ℕ
row = (codes "kind", text (codes "a")) ∷ (codes "size", int64 (pos 4)) ∷ []

abbrev first : PredicateIndex ℕ
first = record {
  by_col_val =
      record { gate = record { column = codes "kind"; value = text (codes "a") }; id = codes "q1" }
      ∷ record { gate = record { column = codes "size"; value = Value.float64 3 }; id = codes "q1" }
      ∷ record { gate = record { column = codes "size"; value = Value.float64 4 }; id = codes "q1" }
      ∷ [];
  want = (codes "q1", 2) ∷ [];
  residual = [];
}

adds : add (codes "q1") sized new_index ≡ some first
unfolding add equality_columns leaf_gates norm_val columns_of new_index beq
adds = refl

-- A change of another kind is no candidate.
excludes : candidates first (some ((codes "kind", text (codes "b")) ∷ [])) ≡ []
unfolding candidates hit_ids hits accepts same_value norm_val beq
excludes = refl

row-Timeless : Timeless row
unfolding lookup
row-Timeless c raw h = ground arith

candidates_sound_example :
    member (codes "q1") (candidates (remove (codes "q2") first) (some row)) ≡ true
unfolding beq eval_all eval_cond eval_leaf eval_value eval_set_string in_slice equal equal_numbers
    lookup
candidates_sound_example =
    candidates_sound (codes "q1") sized new_index first (remove (codes "q2") first) row adds
      (Since.then_remove (codes "q2") refl Since.now) row-Timeless refl
