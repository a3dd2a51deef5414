-- ===== src/Query/Value.antt =====
-- The values of a row and of a filter: Go's `any` over the dynamic types that the code inspects.
use fabriq.Prelude.{ℕ, Bool, Option, List, GoString, Assoc}

-- `negsuc n` is -(n + 1).
pub data ℤ : Type 0 where
  pos : ℕ → ℤ
  negsuc : ℕ → ℤ

-- IEEE double comparison, the conversion of an integer to a double, RFC 3339 parsing to an
-- instant, and lower-casing: what the code takes from the Go runtime, over any type of doubles.
pub record Runtime (F : Type 0) : Type 0 where
  pub feq : F → F → Bool
  pub flt : F → F → Bool
  pub of_int : ℤ → F
  pub parse_time : GoString → Option ℕ
  pub to_lower : GoString → GoString

-- A float32 is held by the double that it converts to; an instant is a count of nanoseconds.
pub data Value (F : Type 0) : Type 0 where
  null : Value F
  bool : Bool → Value F
  int int32 int64 : ℤ → Value F
  float32 float64 : F → Value F
  time : ℕ → Value F
  text : GoString → Value F

-- The static element types that `toAnySlice` tells apart; `other` is any further slice or array.
pub data SliceType : Type 0 where
  anys strings ints int64s float64s other : SliceType

-- The `Value any` of a condition: one value, or a slice of values.
pub data Operand (F : Type 0) : Type 0 where
  one : Value F → Operand F
  many : SliceType → List (Value F) → Operand F

abbrev pub Row : Type 0 → Type 0
Row F = Assoc (Value F)
