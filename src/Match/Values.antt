-- ===== src/Match/Values.antt =====
-- core/livequery/match/compare.go and setstring.go: the comparisons of Go and those of SQL, value by value.
use fabriq.Prelude.{
  ℕ, ltb, ◌==◌, str_lt_asym, ◌≡◌, ◌≢◌, ◌⊎◌, ap, ◌∙◌, refl, sym, Bool, true, false, not, Option,
  none, some, List, [], ◌∷◌, any, arith,
}
use fabriq.Query.Value.{Runtime, Value, null, bool, time, text, Operand, one, many}
use fabriq.Query.Filter.{Op, ne, gt, gte, lt, lte, not_in, like, ilike}
use fabriq.Match.Compare.{Sign, sign_of, equal, compare}
use fabriq.Match.LikeSteps.{HasNoPercent}
use fabriq.Match.LikeCorrect.{like_anchored-eq-like}
use fabriq.Match.Predicate.{like_match, ordered}
use fabriq.Match.Sql.{
  sql_not, is_true, timed, same_time, sql_compared, sql_same, sql_number, sql_order_other,
  sql_order_numbers, sql_order, sql_equal, sql_any, sql_like,
}

abbrev pub NoNulls : {F : Type 0} → List (Value F) → Type 0
NoNulls [] = Unit
NoNulls (null ∷ xs) = ⊥
NoNulls (_ ∷ xs) = NoNulls xs

abbrev pub IsBool : {F : Type 0} → Value F → Type 0
IsBool (bool b) = Unit
IsBool _ = ⊥

-- What validation leaves open, of the operand and the value of the column: no nil in the slice of a NOT
-- IN, no slice under `!=`, no Boolean in an order, and no `%` in a text that is matched.
abbrev pub Definite : {F : Type 0} → Runtime F → Op → Operand F → Option (Value F) → Type 0
Definite rt not_in (many t xs) o = NoNulls xs
Definite rt ne (many t xs) o = ⊥
Definite rt gt (one x) o = ¬ IsBool x
Definite rt gte (one x) o = ¬ IsBool x
Definite rt lt (one x) o = ¬ IsBool x
Definite rt lte (one x) o = ¬ IsBool x
Definite rt like x (some (text s)) = HasNoPercent s
Definite rt ilike x (some (text s)) = HasNoPercent (rt.to_lower s)
Definite _ _ _ _ = Unit

-- No double is less than another and greater too.
abbrev pub IsAsymmetric : {F : Type 0} → Runtime F → Type 0
IsAsymmetric {F} rt = (x y : F) → rt.flt x y ≡ true → rt.flt y x ≡ false

abbrev pub signed : Option (Bool × Bool) → Option Sign
signed none = none
signed (some (less, greater)) = some (sign_of less greater)

abbrev Asymmetric : Option (Bool × Bool) → Type 0
Asymmetric none = Unit
Asymmetric (some (less, greater)) = less ≡ true → greater ≡ false

timed-Asymmetric : (a : ℕ) (o : Option ℕ) → Asymmetric (timed a o)
timed-Asymmetric a none = tt
timed-Asymmetric a (some t) = λ h. ground (arith, h)

ordered_compared :
    (op : Op) (o : Option (Bool × Bool))
    → (op ≡ gt) ⊎ (op ≡ gte) ⊎ (op ≡ lt) ⊎ (op ≡ lte)
    → Asymmetric o
    → ordered op (signed o) ≡ is_true (sql_compared op o)
ordered_compared op none h a = ground arith
ordered_compared op (some (true, true)) h a = absurd (ground arith)
ordered_compared op (some (true, false)) h a = ground arith
ordered_compared op (some (false, true)) h a = ground arith
ordered_compared op (some (false, false)) h a = ground arith

module _ {F : Type 0} ⦃rt : Runtime F⦄ where
  -- Nothing but nil equals nil.
  equal-null : (v : Value F) → v ≢ null → equal v null ≡ false
  unfolding equal
  equal-null null n = absurd (n refl)
  equal-null _ n = refl

  equal-sql_same : (v x : Value F) → v ≢ null → equal v x ≡ sql_same v x
  unfolding equal
  equal-sql_same null x n = absurd (n refl)
  equal-sql_same (time a) (text s) n = by_parse (rt.parse_time s)
    where
      by_parse : (o : Option ℕ) → elim o [ some t ↦ a == t | none ↦ false ] ≡ same_time a o
      by_parse none = refl
      by_parse (some t) = refl
  equal-sql_same (bool true) (bool b) n = refl
  equal-sql_same (bool false) (bool true) n = refl
  equal-sql_same (bool false) (bool false) n = refl
  equal-sql_same _ null n = refl
  equal-sql_same _ _ n = refl

  pub compare-sql_order : (v x : Value F) → ¬ IsBool x → compare v x ≡ signed (sql_order v x)
  unfolding compare
  compare-sql_order (bool a) (bool b) n = absurd (n tt)
  compare-sql_order (time a) (text s) n = by_parse (rt.parse_time s)
    where
      by_parse :
          (o : Option ℕ)
          → elim o [ some t ↦ some (sign_of (ltb a t) (ltb t a)) | none ↦ none ]
            ≡ signed (timed a o)
      by_parse none = refl
      by_parse (some t) = refl
  compare-sql_order _ null n = refl
  compare-sql_order _ _ n = refl

  sql_order_other-Asymmetric : (v x : Value F) → Asymmetric (sql_order_other v x)
  sql_order_other-Asymmetric (bool a) (bool b) = λ h. ground (arith, h)
  sql_order_other-Asymmetric (text a) (text b) = str_lt_asym a b
  sql_order_other-Asymmetric (time a) (time b) = λ h. ground (arith, h)
  sql_order_other-Asymmetric (time a) (text b) = timed-Asymmetric a (rt.parse_time b)
  sql_order_other-Asymmetric _ null = tt
  sql_order_other-Asymmetric _ _ = tt

  sql_order_numbers-Asymmetric :
      (o p : Option F) (v x : Value F) → IsAsymmetric rt → Asymmetric (sql_order_numbers o p v x)
  sql_order_numbers-Asymmetric (some a) (some b) v x k = k a b
  sql_order_numbers-Asymmetric (some a) none v x k = sql_order_other-Asymmetric v x
  sql_order_numbers-Asymmetric none p v x k = sql_order_other-Asymmetric v x

  pub any-sql_any :
      (v : Value F) (xs : List (Value F)) → v ≢ null → any (equal v) xs ≡ is_true (sql_any v xs)
  any-sql_any v [] n = refl
  any-sql_any v (null ∷ xs) n = ground (arith, equal-null v n, any-sql_any v xs n)
  any-sql_any v (x ∷ xs) n = ground (arith, equal-sql_same v x n, any-sql_any v xs n)

  pub sql_any_definite :
      (v : Value F) (xs : List (Value F))
      → v ≢ null
      → NoNulls xs
      → sql_any v xs ≡ some (any (equal v) xs)
  sql_any_definite v [] n h = refl
  sql_any_definite v (null ∷ xs) n h = absurd h
  sql_any_definite v (x ∷ xs) n h = ground (arith, equal-sql_same v x n, sql_any_definite v xs n h)

  pub sql_equal-equal : (v x : Value F) → v ≢ null → is_true (sql_equal v x) ≡ equal v x
  sql_equal-equal v null n = sym (equal-null v n)
  sql_equal-equal v x n = sym (equal-sql_same v x n)

  pub sql_not-equal :
      (v x : Value F) → v ≢ null → x ≢ null → is_true (sql_not (sql_equal v x)) ≡ not (equal v x)
  sql_not-equal v null n m = absurd (m refl)
  sql_not-equal v x n m = ap not (sym (equal-sql_same v x n))

  pub compare-sql_compared :
      (op : Op) (v x : Value F)
      → (op ≡ gt) ⊎ (op ≡ gte) ⊎ (op ≡ lt) ⊎ (op ≡ lte)
      → IsAsymmetric rt
      → ¬ IsBool x
      → ordered op (compare v x) ≡ is_true (sql_compared op (sql_order v x))
  compare-sql_compared op v x h k n =
      ap (ordered op) (compare-sql_order v x n)
      ∙ ordered_compared op (sql_order v x) h
          (sql_order_numbers-Asymmetric (sql_number v) (sql_number x) v x k)

  pub sql_like-like_match :
      (x : Operand F) (v : Value F)
      → Definite rt like x (some v)
      → like_match v x false ≡ is_true (sql_like (λ s. s) x v)
  unfolding like_match
  sql_like-like_match (one (text p)) (text s) d = rw (like_anchored-eq-like s p d) refl
  sql_like-like_match _ null d = refl
  sql_like-like_match _ _ d = refl

  pub sql_ilike-like_match :
      (x : Operand F) (v : Value F)
      → Definite rt ilike x (some v)
      → like_match v x true ≡ is_true (sql_like rt.to_lower x v)
  unfolding like_match
  sql_ilike-like_match (one (text p)) (text s) d =
      rw (like_anchored-eq-like (rt.to_lower s) (rt.to_lower p) d) refl
  sql_ilike-like_match _ null d = refl
  sql_ilike-like_match _ _ d = refl
