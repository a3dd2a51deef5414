-- ===== src/Tenant/Schema/Shared.antt =====
-- core/pathctx/pathctx.go: which tenants `SchemaForTenant` gives one schema, and what the schema is.
use fabriq.Prelude.{
  ℕ, ◌≤◌, ◌≡◌, ◌↔◌, ◌⊎◌, ◌∙◌, refl, sym, inl, inr, true, some, [], ◌∷◌, ◌++◌, map, GoString, codes,
  arith, Bool-cases, all, length,
}
use fabriq.Tenant.Schema.{prefix, schema_byte, fits, fold_dash, schema_for_tenant}

-- A dash, 45, or an underscore, 95.
abbrev pub IsDash : ℕ → Type 0
IsDash c = (c ≡ 45) ⊎ (c ≡ 95)

-- The ids are of one length and differ in dashes for underscores only.
abbrev pub Alike : GoString → GoString → Type 0
Alike [] [] = Unit
Alike [] (d ∷ b) = ⊥
Alike (c ∷ a) [] = ⊥
Alike (c ∷ a) (d ∷ b) = ((c ≡ d) ⊎ (IsDash c × IsDash d)) × Alike a b

-- A lower-case letter, a digit or an underscore.
abbrev pub IsPlain : ℕ → Type 0
IsPlain c = ((97 ≤ c) × (c ≤ 122)) ⊎ ((48 ≤ c) × (c ≤ 57)) ⊎ (c ≡ 95)

abbrev pub AllPlain : GoString → Type 0
AllPlain [] = Unit
AllPlain (c ∷ s) = IsPlain c × AllPlain s

fold_dash-alike : (c d : ℕ) → (fold_dash c ≡ fold_dash d) ↔ ((c ≡ d) ⊎ (IsDash c × IsDash d))
fold_dash-alike c d = ground arith

fold-Alike : (a b : GoString) → (map fold_dash a ≡ map fold_dash b) ↔ Alike a b
fold-Alike [] [] = (λ h. tt, λ h. refl)
fold-Alike [] (d ∷ b) = (λ h. ground arith, λ h. absurd h)
fold-Alike (c ∷ a) [] = (λ h. ground arith, λ h. absurd h)
fold-Alike (c ∷ a) (d ∷ b) = (
  λ h. ((fold_dash-alike c d).0 (ground (arith, h)), (fold-Alike a b).0 (ground (arith, h))),
  λ h. cc ((fold_dash-alike c d).1 h.0, (fold-Alike a b).1 h.1),
)

fold_dash_idem : (a : GoString) → map fold_dash (map fold_dash a) ≡ map fold_dash a
fold_dash_idem [] = refl
fold_dash_idem (c ∷ a) = cc (twice c, fold_dash_idem a)
  where
    twice : (c : ℕ) → fold_dash (fold_dash c) ≡ fold_dash c
    twice c = ground arith

schema_of :
    (id s : GoString)
    → schema_for_tenant id ≡ some s
    → (s ≡ prefix ++ map fold_dash id) × (fits (map fold_dash id) ≡ true)
unfolding schema_for_tenant
schema_of id s h = elim (Bool-cases (fits (map fold_dash id))) [
  | inl b ↦ (ground (arith, h, b), b)
  | inr b ↦ absurd (ground (arith, h, b))
]

prefix_cancel : (a b : GoString) → prefix ++ a ≡ prefix ++ b → a ≡ b
prefix_cancel a b h = cc

all-AllPlain : (s : GoString) → all schema_byte s ≡ true → AllPlain s
all-AllPlain [] h = tt
all-AllPlain (c ∷ s) h = (ground (arith, h), all-AllPlain s (ground (arith, h)))

-- The schema of a tenant is "tenant_" and then 1 to 54 lower-case letters, digits and underscores,
-- which are the tenant's id but for dashes and underscores; and a tenant that has a schema shares it
-- with exactly the tenants whose ids differ from its own in dashes for underscores only.
pub schema_for_tenant-shared :
    (a b s : GoString)
    → schema_for_tenant a ≡ some s
    → ((t : GoString) × (s ≡ codes "tenant_" ++ t)
        × (1 ≤ length t)
        × (length t ≤ 54)
        × AllPlain t
        × Alike t a)
      × ((schema_for_tenant b ≡ some s) ↔ Alike b a)
unfolding schema_for_tenant
schema_for_tenant-shared a b s h =
    let (known, good) = schema_of a s h in
    (
      (
        map fold_dash a,
        known,
        ground (arith, good),
        ground (arith, good),
        all-AllPlain (map fold_dash a) (ground (arith, good)),
        (fold-Alike (map fold_dash a) a).0 (fold_dash_idem a),
      ),
      (
        λ k. (fold-Alike b a).0 (prefix_cancel _ _ (sym (schema_of b s k).0 ∙ known)),
        λ e. rw ((fold-Alike b a).1 e) h,
      ),
    )
