-- ===== src/Tenant/Schema.antt =====
-- core/pathctx/pathctx.go: the Postgres schema of a tenant.
pub mod Shared
use fabriq.Prelude.{
  ℕ, Bool, false, ◌&&◌, ◌||◌, [], ◌∷◌, ◌++◌, map, Option, none, some, GoString, codes, all, length,
  leb, ◌==◌, if◌then◌else◌,
}

abbrev pub prefix : GoString
prefix = codes "tenant_"

unfoldable pub strip_prefix : GoString → GoString → Option GoString
strip_prefix [] s = some s
strip_prefix (p ∷ ps) [] = none
strip_prefix (p ∷ ps) (c ∷ s) = let rest = strip_prefix ps s in if p == c then rest else none

-- A byte of `[a-z0-9_]`.
abbrev pub schema_byte : ℕ → Bool
schema_byte c = leb b'a' c && leb c b'z' || leb b'0' c && leb c b'9' || c == b'_'

abbrev pub fits : GoString → Bool
fits s = leb 1 (length s) && leb (length s) 54 && all schema_byte s

abbrev pub fits_after : Option GoString → Bool
fits_after none = false
fits_after (some s) = fits s

-- `ValidSchema`: the pattern `^tenant_[a-z0-9_]{1,54}$`.
unfoldable pub valid_schema : GoString → Bool
unfolding strip_prefix
valid_schema s = fits_after (strip_prefix prefix s)

-- `strings.ReplaceAll(id, "-", "_")`, byte by byte.
abbrev pub fold_dash : ℕ → ℕ
fold_dash c = if c == b'-' then b'_' else c

-- `none` is the error.
unfoldable pub schema_for_tenant : GoString → Option GoString
unfolding valid_schema
schema_for_tenant id =
    if valid_schema (prefix ++ map fold_dash id) then some (prefix ++ map fold_dash id) else none
