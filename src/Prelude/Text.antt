-- ===== src/Prelude/Text.antt =====
-- Go strings: sequences of bytes, compared for equality and in byte order.
use Prim.Native.Nat.{ℕ}
use Prim.Native.Char.{code}
use Prim.Native.String.{String}
use mathlib.Core.Path.{◌≡◌, refl}
use mathlib.Core.Logic.{◌↔◌, ◌⊎◌, inl, inr}
use mathlib.Core.Bool.{Bool, true, false, ◌&&◌}
use mathlib.Core.List.{List, [], ◌∷◌}
use native.Mathlib.Omega.{arith}
use fabriq.Prelude.Tests.{◌==◌, ltb, if◌then◌else◌}

abbrev pub GoString : Type 0
GoString = List ℕ

-- The bytes of an ASCII literal.
abbrev pub codes : String → GoString
codes String.[] = []
codes (String.◌∷◌ c s) = code c ∷ codes s

-- `a == b` on Go strings.
unfoldable pub beq : GoString → GoString → Bool
beq [] [] = true
beq [] (y ∷ ys) = false
beq (x ∷ xs) [] = false
beq (x ∷ xs) (y ∷ ys) = x == y && beq xs ys

-- `a < b` on Go strings.
unfoldable pub str_lt : GoString → GoString → Bool
str_lt [] [] = false
str_lt [] (y ∷ ys) = true
str_lt (x ∷ xs) [] = false
str_lt (x ∷ xs) (y ∷ ys) = let rest = str_lt xs ys in if x == y then rest else ltb x y

pub beq_refl : (a : GoString) → beq a a ≡ true
unfolding beq
beq_refl [] = refl
beq_refl (x ∷ xs) = ground (arith, beq_refl xs)

beq_sound : (a b : GoString) → beq a b ≡ true → a ≡ b
unfolding beq
beq_sound [] [] h = refl
beq_sound [] (y ∷ ys) h = ground arith
beq_sound (x ∷ xs) [] h = ground arith
beq_sound (x ∷ xs) (y ∷ ys) h = ground (arith, beq_sound xs ys)

beq_complete : (a b : GoString) → a ≡ b → beq a b ≡ true
unfolding beq
beq_complete [] [] h = refl
beq_complete [] (y ∷ ys) h = ground arith
beq_complete (x ∷ xs) [] h = ground arith
beq_complete (x ∷ xs) (y ∷ ys) h = ground (arith, beq_complete xs ys)

pub beq_iff : (a b : GoString) → (beq a b ≡ true) ↔ (a ≡ b)
beq_iff a b = (beq_sound a b, beq_complete a b)

pub str_lt_irrefl : (a : GoString) → str_lt a a ≡ false
unfolding str_lt
str_lt_irrefl [] = refl
str_lt_irrefl (x ∷ xs) = ground (arith, str_lt_irrefl xs)

pub str_lt_asym : (a b : GoString) → str_lt a b ≡ true → str_lt b a ≡ false
unfolding str_lt
str_lt_asym [] [] h = refl
str_lt_asym [] (y ∷ ys) h = refl
str_lt_asym (x ∷ xs) [] h = ground arith
str_lt_asym (x ∷ xs) (y ∷ ys) h = ground (arith, str_lt_asym xs ys)

pub str_lt_trans : (a b c : GoString) → str_lt a b ≡ true → str_lt b c ≡ true → str_lt a c ≡ true
unfolding str_lt
str_lt_trans [] [] c h k = ground arith
str_lt_trans [] (y ∷ ys) [] h k = ground arith
str_lt_trans [] (y ∷ ys) (z ∷ zs) h k = refl
str_lt_trans (x ∷ xs) [] c h k = ground arith
str_lt_trans (x ∷ xs) (y ∷ ys) [] h k = ground arith
str_lt_trans (x ∷ xs) (y ∷ ys) (z ∷ zs) h k = ground (arith, str_lt_trans xs ys zs)

pub str_lt_total : (a b : GoString) → (str_lt a b ≡ true) ⊎ (a ≡ b) ⊎ (str_lt b a ≡ true)
unfolding str_lt
str_lt_total [] [] = inr (inl refl)
str_lt_total [] (y ∷ ys) = inl refl
str_lt_total (x ∷ xs) [] = inr (inr refl)
str_lt_total (x ∷ xs) (y ∷ ys) = ground (arith, str_lt_total xs ys)
