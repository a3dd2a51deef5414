-- ===== src/Match/Parity.antt =====
-- core/livequery/match/predicate.go: Go evaluation and the SQL WHERE clause of the same filter.
use fabriq.Prelude.{
  ◌≡◌, ◌≢◌, inl, inr, ap, refl, sym, Bool, ◌||◌, Option, none, some, List, [], ◌∷◌, ◌++◌, arith,
  lookup,
}
use fabriq.Query.Value.{Runtime, Value, null, Operand, one, many, Row}
use fabriq.Query.Filter.{
  Op, eq, ne, gt, gte, lt, lte, in_set, not_in, like, ilike, is_null, is_not_null, Cond, cond,
  Conds, end, more,
}
use fabriq.Match.Guard.{Leaf, leaves, leaves_of, AllLeaves, Fits}
use fabriq.Match.Predicate.{in_slice, eval_set_string, eval_value, eval_leaf, eval_cond, eval_any}
use fabriq.Match.Sql.{sql_or, is_true, sql_value, sql_leaf, sql_cond, sql_any_of}
use fabriq.Match.Values.{
  Definite, IsAsymmetric, any-sql_any, sql_any_definite, sql_equal-equal, sql_not-equal,
  compare-sql_compared, sql_like-like_match, sql_ilike-like_match,
}

module _ {F : Type 0} ⦃rt : Runtime F⦄ where
  sql_value-eval_value :
      (op : Op) (x : Operand F) (v : Value F)
      → v ≢ null
      → IsAsymmetric rt
      → Fits op x
      → Definite rt op x (some v)
      → eval_value op x v ≡ is_true (sql_value op x v)
  unfolding eval_value eval_set_string in_slice sql_value
  sql_value-eval_value eq (one x) v n k f d = sym (sql_equal-equal v x n)
  sql_value-eval_value ne (one x) v n k f d =
      sym
        (sql_not-equal v x n (λ e. f.1 (λ q. ground arith) (λ q. ground arith) (ap (λ y. one y) e)))
  sql_value-eval_value gt (one x) v n k f d = compare-sql_compared gt v x (inl refl) k d
  sql_value-eval_value gte (one x) v n k f d = compare-sql_compared gte v x (inr (inl refl)) k d
  sql_value-eval_value lt (one x) v n k f d = compare-sql_compared lt v x (inr (inr (inl refl))) k d
  sql_value-eval_value lte (one x) v n k f d =
      compare-sql_compared lte v x (inr (inr (inr refl))) k d
  sql_value-eval_value in_set (many t xs) v n k f d = any-sql_any v xs n
  sql_value-eval_value not_in (many t xs) v n k f d = rw (sql_any_definite v xs n d) refl
  sql_value-eval_value not_in (one x) v n k f d = absurd (f.0 (inr refl))
  sql_value-eval_value ne (many t xs) v n k f d = absurd d
  sql_value-eval_value like x v n k f d = sql_like-like_match x v d
  sql_value-eval_value ilike x v n k f d = sql_ilike-like_match x v d
  sql_value-eval_value _ (one x) v n k f d = refl
  sql_value-eval_value _ (many t xs) v n k f d = refl

  sql_leaf-eval_leaf :
      (op : Op) (x : Operand F) (o : Option (Value F))
      → IsAsymmetric rt
      → Fits op x
      → Definite rt op x o
      → eval_leaf op x o ≡ is_true (sql_leaf op x o)
  unfolding eval_leaf sql_leaf
  sql_leaf-eval_leaf is_null x none k f d = refl
  sql_leaf-eval_leaf is_not_null x none k f d = refl
  sql_leaf-eval_leaf op x none k f d = refl
  sql_leaf-eval_leaf is_null x (some null) k f d = refl
  sql_leaf-eval_leaf is_not_null x (some null) k f d = refl
  sql_leaf-eval_leaf op x (some null) k f d = refl
  sql_leaf-eval_leaf is_null x (some v) k f d = refl
  sql_leaf-eval_leaf is_not_null x (some v) k f d = refl
  sql_leaf-eval_leaf op x (some v) k f d = sql_value-eval_value op x v (λ e. ground arith) k f d

is_true-sql_or : (a b : Option Bool) → is_true (sql_or a b) ≡ (is_true a || is_true b)
is_true-sql_or a b = ground arith

AllLeaves-split :
    {F : Type 0} (P : Leaf F → Type 0) (xs ys : List (Leaf F))
    → AllLeaves P (xs ++ ys)
    → AllLeaves P xs × AllLeaves P ys
AllLeaves-split P [] ys h = (tt, h)
AllLeaves-split P (x ∷ xs) ys h = let r = AllLeaves-split P xs ys h.1 in ((h.0, r.0), r.1)

abbrev pub LeafDefinite : {F : Type 0} → Runtime F → Row F → Leaf F → Type 0
LeafDefinite rt row l = Definite rt l.op l.operand (lookup l.column row)

abbrev IsAgreeing : {F : Type 0} → Runtime F → Row F → Leaf F → Type 0
IsAgreeing rt row l = Fits l.op l.operand × LeafDefinite rt row l

mutual
  unfolding eval_cond sql_cond leaves

  sql_cond-eval_cond :
      {F : Type 0} (rt : Runtime F) (c : Cond F) (row : Row F)
      → IsAsymmetric rt
      → AllLeaves (IsAgreeing rt row) (leaves c)
      → eval_cond rt c row ≡ is_true (sql_cond rt c row)
  sql_cond-eval_cond rt (cond c op v (more s ss)) row k h =
      sql_any_of-eval_any rt (more s ss) row k h
  sql_cond-eval_cond rt (cond c op v end) row k h =
      sql_leaf-eval_leaf ⦃rt = rt⦄ op v (lookup c row) k h.0.0 h.0.1

  sql_any_of-eval_any :
      {F : Type 0} (rt : Runtime F) (cs : Conds F) (row : Row F)
      → IsAsymmetric rt
      → AllLeaves (IsAgreeing rt row) (leaves_of cs)
      → eval_any rt cs row ≡ is_true (sql_any_of rt cs row)
  sql_any_of-eval_any rt end row k h = refl
  sql_any_of-eval_any rt (more c cs) row k h =
      let (hc, hcs) = AllLeaves-split (IsAgreeing rt row) (leaves c) (leaves_of cs) h in
      rw is_true-sql_or (cc (sql_cond-eval_cond rt c row k hc, sql_any_of-eval_any rt cs row k hcs))
