-- ===== src/Match/Compare.antt =====
-- core/livequery/match/compare.go and order.go: equality and order of dynamic values.
use fabriq.Prelude.{ℕ, Bool, true, false, Option, none, some, beq, str_lt, if◌then◌else◌, ltb, ◌==◌}
use fabriq.Query.Value.{
  ℤ, pos, negsuc, Runtime, Value, null, bool, int, int32, int64, float32, float64, time, text,
}

-- The result -1, 0 or 1 of a comparison.
pub data Sign : Type 0 where
  before same after : Sign

abbrev pub negate : Sign → Sign
negate before = after
negate same = same
negate after = before

abbrev pub int_beq : ℤ → ℤ → Bool
int_beq (pos a) (pos b) = a == b
int_beq (negsuc a) (negsuc b) = a == b
int_beq _ _ = false

abbrev bool_beq : Bool → Bool → Bool
bool_beq true b = b
bool_beq false true = false
bool_beq false false = true

-- `switch { case a < b: -1; case a > b: 1; default: 0 }`
abbrev pub sign_of : Bool → Bool → Sign
sign_of lt gt = if lt then before else if gt then after else same

module _ {F : Type 0} ⦃rt : Runtime F⦄ where
  unfoldable pub to_float : Value F → Option F
  to_float (float64 x) = some x
  to_float (float32 x) = some x
  to_float (int n) = some (rt.of_int n)
  to_float (int32 n) = some (rt.of_int n)
  to_float (int64 n) = some (rt.of_int n)
  to_float _ = none

  unfoldable pub to_time : Value F → Option ℕ
  to_time (time t) = some t
  to_time (text s) = rt.parse_time s
  to_time _ = none

  -- Go's `a == b` on interface values: the same dynamic type and the same value.
  unfoldable pub same_value : Value F → Value F → Bool
  same_value null null = true
  same_value (bool a) (bool b) = bool_beq a b
  same_value (int a) (int b) = int_beq a b
  same_value (int32 a) (int32 b) = int_beq a b
  same_value (int64 a) (int64 b) = int_beq a b
  same_value (float32 a) (float32 b) = rt.feq a b
  same_value (float64 a) (float64 b) = rt.feq a b
  same_value (time a) (time b) = a == b
  same_value (text a) (text b) = beq a b
  same_value _ _ = false

  -- The second `if` of `equal` and what follows it.
  unfoldable pub equal_rest : Value F → Value F → Bool
  equal_rest (time a) b = elim (to_time b) [ some t ↦ a == t | none ↦ same_value (time a) b ]
  equal_rest a b = same_value a b

  unfoldable pub equal_numbers : Option F → Option F → Value F → Value F → Bool
  equal_numbers (some x) (some y) a b = rt.feq x y
  equal_numbers (some x) none a b = equal_rest a b
  equal_numbers none _ a b = equal_rest a b

  unfoldable pub equal : Value F → Value F → Bool
  unfolding equal_numbers equal_rest same_value to_float to_time
  equal a b = equal_numbers (to_float a) (to_float b) a b

  -- The string case of `compare`; `none` is `ok = false`.
  unfoldable pub compare_texts : Value F → Value F → Option Sign
  compare_texts (text a) (text b) = some (sign_of (str_lt a b) (str_lt b a))
  compare_texts _ _ = none

  unfoldable pub compare_rest : Value F → Value F → Option Sign
  compare_rest (time a) b = elim (to_time b) [
    | some t ↦ some (sign_of (ltb a t) (ltb t a))
    | none ↦ compare_texts (time a) b
  ]
  compare_rest a b = compare_texts a b

  unfoldable pub compare_numbers : Option F → Option F → Value F → Value F → Option Sign
  compare_numbers (some x) (some y) a b = some (sign_of (rt.flt x y) (rt.flt y x))
  compare_numbers (some x) none a b = compare_rest a b
  compare_numbers none _ a b = compare_rest a b

  unfoldable pub compare : Value F → Value F → Option Sign
  unfolding compare_numbers compare_rest compare_texts to_float to_time
  compare a b = compare_numbers (to_float a) (to_float b) a b

  unfoldable pub order : Value F → Value F → Sign
  unfolding compare
  order a b = elim (compare a b) [ some s ↦ s | none ↦ same ]
