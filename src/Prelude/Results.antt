-- ===== src/Prelude/Results.antt =====
-- The pair `(T, error)` that a fallible Go function returns: a value or an error, never both.
use mathlib.Core.Path.{◌≡◌, refl}
use native.Mathlib.Omega.{arith}

pub data Result {ℓ} (E : Type 0) (A : Type ℓ) : Type ℓ where
  ok : A → Result E A
  err : E → Result E A

infixl 5 ◌>>=◌ ◌>>◌
abbrev pub ◌>>=◌ {ℓ κ} :
    {E : Type 0} {A : Type ℓ} {B : Type κ} → Result E A → (A → Result E B) → Result E B
err x >>= k = err x
ok a >>= k = k a

abbrev pub ◌>>◌ {ℓ} : {E : Type 0} {B : Type ℓ} → Result E (Unit {0}) → Result E B → Result E B
check >> next = check >>= λ _. next

-- A computation that cannot fail has a value.
pub get-ok {ℓ} :
    {E : Type 0} {A : Type ℓ} (m : Result E A) → ((e : E) → m ≡ err e → ⊥) → (a : A) × (m ≡ ok a)
get-ok (ok a) h = (a, refl)
get-ok (err e) h = absurd (h e refl)

-- A bind succeeds only where its first half does.
pub >>=-eq-ok {ℓ κ} :
    {E : Type 0} {A : Type ℓ} {B : Type κ} (r : Result E A) (next : A → Result E B) {out : B}
    → (r >>= next) ≡ ok out
    → (v : A) × (r ≡ ok v) × (next v ≡ ok out)
>>=-eq-ok (err x) next e = absurd (ground arith)
>>=-eq-ok (ok v) next e = (v, refl, e)
