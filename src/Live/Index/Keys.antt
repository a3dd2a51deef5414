-- ===== src/Live/Index/Keys.antt =====
-- core/livequery/index.go: the keys of the index against the equality of the evaluator.
use fabriq.Prelude.{◌≡◌, refl, Bool, true, false, Option, none, some, inl, inr, ◌⊎◌, arith}
use fabriq.Query.Value.{Runtime, Value, null, bool, int, int32, int64, float32, float64, time, text}
use fabriq.Match.Compare.{to_float, same_value, equal_rest, equal_numbers, equal}
use fabriq.Live.Index.{norm_val}

-- Instants are compared with parsed text by the evaluator, and as structs by a map key.
abbrev pub is_time : {F : Type 0} → Value F → Bool
is_time (time t) = true
is_time _ = false

module _ {F : Type 0} ⦃rt : Runtime F⦄ where
  norm_val-float : (v : Value F) (x : F) → to_float v ≡ some x → norm_val v ≡ float64 x
  unfolding norm_val to_float
  norm_val-float (int n) x h = ground arith
  norm_val-float (int32 n) x h = ground arith
  norm_val-float (int64 n) x h = ground arith
  norm_val-float (float32 y) x h = ground arith
  norm_val-float (float64 y) x h = ground arith
  norm_val-float _ x h = absurd (ground arith)

  rest-key :
      (v x : Value F)
      → is_time v ≡ false
      → (to_float v ≡ none) ⊎ (to_float x ≡ none)
      → equal_rest v x ≡ true
      → same_value (norm_val v) (norm_val x) ≡ true
  unfolding norm_val to_float equal_rest same_value
  rest-key null null t o h = refl
  rest-key (bool a) (bool b) t o h = h
  rest-key (text a) (text b) t o h = h
  rest-key (int a) (int b) t o h = absurd (elim o [ inl e ↦ ground arith | inr e ↦ ground arith ])
  rest-key (int32 a) (int32 b) t o h =
      absurd (elim o [ inl e ↦ ground arith | inr e ↦ ground arith ])
  rest-key (int64 a) (int64 b) t o h =
      absurd (elim o [ inl e ↦ ground arith | inr e ↦ ground arith ])
  rest-key (float32 a) (float32 b) t o h =
      absurd (elim o [ inl e ↦ ground arith | inr e ↦ ground arith ])
  rest-key (float64 a) (float64 b) t o h =
      absurd (elim o [ inl e ↦ ground arith | inr e ↦ ground arith ])
  rest-key (time a) x t o h = absurd (ground arith)
  rest-key _ _ t o h = absurd (ground arith)

  numbers-key :
      (v x : Value F) (a b : Option F)
      → to_float v ≡ a
      → to_float x ≡ b
      → is_time v ≡ false
      → equal_numbers a b v x ≡ true
      → same_value (norm_val v) (norm_val x) ≡ true
  unfolding equal_numbers
  numbers-key v x (some f) (some g) ev ex t h =
      rw (norm_val-float v f ev, norm_val-float x g ex) (unfold same_value in h)
  numbers-key v x (some f) none ev ex t h = rest-key v x t (inr ex) h
  numbers-key v x none b ev ex t h = rest-key v x t (inl ev) h

  -- Two values that the evaluator takes for equal have equal keys, if the first is no instant.
  pub equal-key :
      (v x : Value F)
      → is_time v ≡ false
      → equal v x ≡ true
      → same_value (norm_val v) (norm_val x) ≡ true
  unfolding equal
  equal-key v x t h = numbers-key v x (to_float v) (to_float x) refl refl t h
