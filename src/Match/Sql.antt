-- ===== src/Match/Sql.antt =====
-- The WHERE clause that the Postgres adapter makes of a filter, in SQL's three-valued
-- logic: the other side of core/livequery/match/predicate.go, with a comparison and a LIKE of its own. `none`
-- is SQL's unknown.
use fabriq.Prelude.{
  ℕ, Bool, true, false, not, ◌&&◌, Option, none, some, List, [], ◌∷◌, GoString, lookup, beq, str_lt,
  ltb, ◌==◌,
}
use fabriq.Query.Value.{
  Runtime, Value, null, bool, int, int32, int64, float32, float64, time, text, Operand, one, many,
  Row,
}
use fabriq.Query.Filter.{
  Op, eq, ne, gt, gte, lt, lte, in_set, not_in, ilike, is_null, is_not_null, Cond, cond, Conds, end,
  more,
}
use fabriq.Match.Like.{like}

abbrev pub sql_not : Option Bool → Option Bool
sql_not (some b) = some (not b)
sql_not none = none

abbrev pub sql_or : Option Bool → Option Bool → Option Bool
sql_or (some true) b = some true
sql_or (some false) b = b
sql_or none (some true) = some true
sql_or none _ = none

abbrev pub sql_and : Option Bool → Option Bool → Option Bool
sql_and (some false) b = some false
sql_and (some true) b = b
sql_and none (some false) = some false
sql_and none _ = none

-- A WHERE clause keeps the rows on which it is true.
abbrev pub is_true : Option Bool → Bool
is_true (some b) = b
is_true none = false

-- Two values that Postgres can order: is the first less, is it greater?
abbrev pub timed : ℕ → Option ℕ → Option (Bool × Bool)
timed a none = none
timed a (some t) = some (ltb a t, ltb t a)

abbrev pub same_time : ℕ → Option ℕ → Bool
same_time a none = false
same_time a (some t) = a == t

abbrev same_bool : Bool → Bool → Bool
same_bool true b = b
same_bool false b = not b

-- `>`, `>=`, `<` and `<=`, on which of the two is less.
abbrev pub sql_compared : Op → Option (Bool × Bool) → Option Bool
sql_compared gt (some (less, greater)) = some greater
sql_compared gte (some (less, greater)) = some (not less)
sql_compared lt (some (less, greater)) = some less
sql_compared lte (some (less, greater)) = some (not greater)
sql_compared _ _ = none

module _ {F : Type 0} ⦃rt : Runtime F⦄ where
  -- Numbers compare as doubles.
  abbrev pub sql_number : Value F → Option F
  sql_number (int n) = some (rt.of_int n)
  sql_number (int32 n) = some (rt.of_int n)
  sql_number (int64 n) = some (rt.of_int n)
  sql_number (float32 x) = some x
  sql_number (float64 x) = some x
  sql_number _ = none

  -- `=` on values that are no numbers: a text that is compared with a time is read as one. A column
  -- has one type, so that values of two other types do not meet.
  abbrev pub sql_same_other : Value F → Value F → Bool
  sql_same_other (bool a) (bool b) = same_bool a b
  sql_same_other (text a) (text b) = beq a b
  sql_same_other (time a) (time b) = a == b
  sql_same_other (time a) (text b) = same_time a (rt.parse_time b)
  sql_same_other _ _ = false

  abbrev sql_same_numbers : Option F → Option F → Value F → Value F → Bool
  sql_same_numbers (some x) (some y) a b = rt.feq x y
  sql_same_numbers (some x) none a b = sql_same_other a b
  sql_same_numbers none _ a b = sql_same_other a b

  abbrev pub sql_same : Value F → Value F → Bool
  sql_same a b = sql_same_numbers (sql_number a) (sql_number b) a b

  -- The order of Postgres: texts in the order of their bytes, false before true.
  abbrev pub sql_order_other : Value F → Value F → Option (Bool × Bool)
  sql_order_other (bool a) (bool b) = some (not a && b, a && not b)
  sql_order_other (text a) (text b) = some (str_lt a b, str_lt b a)
  sql_order_other (time a) (time b) = some (ltb a b, ltb b a)
  sql_order_other (time a) (text b) = timed a (rt.parse_time b)
  sql_order_other _ _ = none

  abbrev pub sql_order_numbers : Option F → Option F → Value F → Value F → Option (Bool × Bool)
  sql_order_numbers (some x) (some y) a b = some (rt.flt x y, rt.flt y x)
  sql_order_numbers (some x) none a b = sql_order_other a b
  sql_order_numbers none _ a b = sql_order_other a b

  abbrev pub sql_order : Value F → Value F → Option (Bool × Bool)
  sql_order a b = sql_order_numbers (sql_number a) (sql_number b) a b

  -- An operand that is NULL makes a comparison unknown.
  abbrev pub sql_equal : Value F → Value F → Option Bool
  sql_equal v null = none
  sql_equal v x = some (sql_same v x)

  -- `v = ANY(xs)`
  abbrev pub sql_any : Value F → List (Value F) → Option Bool
  sql_any v [] = some false
  sql_any v (x ∷ xs) = sql_or (sql_equal v x) (sql_any v xs)

  -- LIKE, byte by byte, on texts that `fold` is applied to first.
  abbrev pub sql_like : (GoString → GoString) → Operand F → Value F → Option Bool
  sql_like fold (one (text p)) (text s) = some (like (fold s) (fold p))
  sql_like fold _ _ = none

  -- A comparison of a column that is not NULL. An operand of the wrong shape compares to nothing.
  unfoldable pub sql_value : Op → Operand F → Value F → Option Bool
  sql_value eq (one x) v = sql_equal v x
  sql_value ne (one x) v = sql_not (sql_equal v x)
  sql_value in_set (many t xs) v = sql_any v xs
  sql_value not_in (many t xs) v = sql_not (sql_any v xs)
  sql_value Op.like x v = sql_like (λ s. s) x v
  sql_value ilike x v = sql_like rt.to_lower x v
  sql_value op (one x) v = sql_compared op (sql_order v x)
  sql_value _ _ v = none

  -- A missing column is NULL.
  unfoldable pub sql_leaf : Op → Operand F → Option (Value F) → Option Bool
  sql_leaf is_null x none = some true
  sql_leaf is_null x (some null) = some true
  sql_leaf is_null x (some v) = some false
  sql_leaf is_not_null x none = some false
  sql_leaf is_not_null x (some null) = some false
  sql_leaf is_not_null x (some v) = some true
  sql_leaf op x none = none
  sql_leaf op x (some null) = none
  sql_leaf op x (some v) = sql_value op x v

unfoldable mutual
  pub sql_cond : {F : Type 0} → Runtime F → Cond F → Row F → Option Bool
  sql_cond rt (cond c op v (more s ss)) row = sql_any_of rt (more s ss) row
  sql_cond rt (cond c op v end) row = sql_leaf ⦃rt = rt⦄ op v (lookup c row)

  pub sql_any_of : {F : Type 0} → Runtime F → Conds F → Row F → Option Bool
  sql_any_of rt end row = some false
  sql_any_of rt (more c cs) row = sql_or (sql_cond rt c row) (sql_any_of rt cs row)

unfoldable pub sql_where : {F : Type 0} → Runtime F → Conds F → Row F → Option Bool
unfolding sql_cond
sql_where rt end row = some true
sql_where rt (more c cs) row = sql_and (sql_cond rt c row) (sql_where rt cs row)
