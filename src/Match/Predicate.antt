-- ===== src/Match/Predicate.antt =====
-- core/livequery/match/predicate.go and setstring.go: a filter compiled and evaluated.
use fabriq.Prelude.{
  Bool, true, false, not, ◌&&◌, ◌||◌, Option, none, some, any, lookup, Result, ok, err, ◌>>◌,
  if◌then◌else◌,
}
use fabriq.Query.Value.{Runtime, Value, null, text, Operand, one, many, Row}
use fabriq.Query.Filter.{
  Op, eq, ne, gt, gte, lt, lte, in_set, not_in, like, ilike, is_null, is_not_null, is_set, Cond,
  cond, Conds, end, more,
}
use fabriq.Match.Compare.{Sign, before, after, equal, compare}
use fabriq.Match.Like.{like_anchored}

-- `checkOp`; the error holds the operator.
unfoldable mutual
  pub check_op : {F : Type 0} → Cond F → Result Op (Unit {0})
  check_op (cond c op v (more s ss)) = check_ops (more s ss)
  check_op (cond c op v end) = if is_set op then ok tt else err op

  -- The loop of `Compile`, and that of `checkOp` over a group.
  pub check_ops : {F : Type 0} → Conds F → Result Op (Unit {0})
  check_ops end = ok tt
  check_ops (more c cs) = check_op c >> check_ops cs

pub record Predicate (F : Type 0) : Type 0 where
  pub conds : Conds F

unfoldable pub compile : {F : Type 0} → Conds F → Result Op (Predicate F)
unfolding check_op
compile w = check_ops w >> ok (record { conds = w })

abbrev or_false : Option Bool → Bool
or_false none = false
or_false (some b) = b

-- The inner `switch` on a comparison that is defined.
abbrev pub holds : Op → Sign → Bool
holds gt after = true
holds gt _ = false
holds gte before = false
holds gte _ = true
holds lt before = true
holds lt _ = false
holds _ after = false
holds _ _ = true

abbrev pub ordered : Op → Option Sign → Bool
ordered op none = false
ordered op (some s) = holds op s

module _ {F : Type 0} ⦃rt : Runtime F⦄ where
  unfoldable pub in_slice : Value F → Operand F → Bool
  in_slice v (one x) = false
  in_slice v (many t xs) = any (equal v) xs

  -- `ci` folds case. The loop of `likeAnchored` always has fuel enough, so the default is not met.
  unfoldable pub like_match : Value F → Operand F → Bool → Bool
  like_match (text s) (one (text p)) ci =
      or_false (if ci then like_anchored (rt.to_lower s) (rt.to_lower p) else like_anchored s p)
  like_match _ _ ci = false

  unfoldable pub eval_set_string : Op → Operand F → Value F → Bool
  eval_set_string in_set operand v = in_slice v operand
  eval_set_string not_in operand v = not (in_slice v operand)
  eval_set_string like operand v = like_match v operand false
  eval_set_string ilike operand v = like_match v operand true
  eval_set_string _ operand v = false

  -- Go compares a value with a slice by their dynamic types, which differ.
  abbrev pub equal_operand : Value F → Operand F → Bool
  equal_operand v (one x) = equal v x
  equal_operand v (many t xs) = false

  abbrev pub compare_operand : Value F → Operand F → Option Sign
  compare_operand v (one x) = compare v x
  compare_operand v (many t xs) = none

  -- The second `switch` of `evalCond`, on a value that is present and not nil.
  unfoldable pub eval_value : Op → Operand F → Value F → Bool
  eval_value eq operand v = equal_operand v operand
  eval_value ne operand v = not (equal_operand v operand)
  eval_value gt operand v = ordered gt (compare_operand v operand)
  eval_value gte operand v = ordered gte (compare_operand v operand)
  eval_value lt operand v = ordered lt (compare_operand v operand)
  eval_value lte operand v = ordered lte (compare_operand v operand)
  eval_value op operand v = eval_set_string op operand v

  -- A leaf of the tree, on the column's value: `none` is a missing column.
  unfoldable pub eval_leaf : Op → Operand F → Option (Value F) → Bool
  eval_leaf is_null operand none = true
  eval_leaf is_null operand (some null) = true
  eval_leaf is_null operand (some v) = false
  eval_leaf is_not_null operand none = false
  eval_leaf is_not_null operand (some null) = false
  eval_leaf is_not_null operand (some v) = true
  eval_leaf op operand none = false
  eval_leaf op operand (some null) = false
  eval_leaf op operand (some v) = eval_value op operand v

unfoldable mutual
  pub eval_cond : {F : Type 0} → Runtime F → Cond F → Row F → Bool
  eval_cond rt (cond c op v (more s ss)) row = eval_any rt (more s ss) row
  eval_cond rt (cond c op v end) row = eval_leaf ⦃rt = rt⦄ op v (lookup c row)

  -- The loop over an OR group.
  pub eval_any : {F : Type 0} → Runtime F → Conds F → Row F → Bool
  eval_any rt end row = false
  eval_any rt (more c cs) row = eval_cond rt c row || eval_any rt cs row

-- The loop of `Eval`.
unfoldable pub eval_all : {F : Type 0} → Runtime F → Conds F → Row F → Bool
unfolding eval_cond
eval_all rt end row = true
eval_all rt (more c cs) row = eval_cond rt c row && eval_all rt cs row

unfoldable pub eval : {F : Type 0} ⦃rt : Runtime F⦄ → Predicate F → Row F → Bool
unfolding eval_all
eval ⦃rt⦄ p row = eval_all rt p.conds row
