-- ===== src/Match/Guard.antt =====
-- core/query/filter.go and core/livequery/match/predicate.go: `ValidateConds` and `Compile` over
-- the list of the leaves of a filter.
use fabriq.Prelude.{
  ◌≡◌, ◌≢◌, ◌↔◌, ◌⊎◌, inl, inr, refl, beq_iff, Bool, true, not, List, [], ◌∷◌, ◌++◌, arith,
  GoString, beq, Result, ok, err, ◌>>◌, >>=-eq-ok, if◌then◌else◌,
}
use fabriq.Query.Value.{Operand, one, many, null}
use fabriq.Query.Filter.{
  Op, in_set, not_in, is_null, is_not_null, unknown, is_set, Cond, cond, Conds, end, more,
  FilterError, empty_column, unknown_column, unknown_operator, check_operand, validate,
  validate_conds,
}
use fabriq.Match.Predicate.{check_op, check_ops, compile}

pub record Leaf (F : Type 0) : Type 0 where
  pub column : GoString
  pub op : Op
  pub operand : Operand F

-- The leaves that an evaluation can reach, from left to right.
unfoldable mutual
  pub leaves : {F : Type 0} → Cond F → List (Leaf F)
  leaves (cond c op v (more s ss)) = leaves_of (more s ss)
  leaves (cond c op v end) = record { column = c; op = op; operand = v } ∷ []

  pub leaves_of : {F : Type 0} → Conds F → List (Leaf F)
  leaves_of end = []
  leaves_of (more c cs) = leaves c ++ leaves_of cs

-- The first error of a check over a list.
abbrev pub check_each {ℓ} :
    {A : Type ℓ} {E : Type 0} → (A → Result E (Unit {0})) → List A → Result E (Unit {0})
check_each f [] = ok tt
check_each f (x ∷ xs) = f x >> check_each f xs

check_each-append {ℓ} :
    {A : Type ℓ} {E : Type 0} (f : A → Result E (Unit {0})) (xs ys : List A)
    → check_each f (xs ++ ys) ≡ (check_each f xs >> check_each f ys)
check_each-append f [] ys = refl
check_each-append {E = E} f (x ∷ xs) ys = joined (f x) (check_each-append f xs ys)
  where
    joined :
        (r : Result E (Unit {0}))
        → check_each f (xs ++ ys) ≡ (check_each f xs >> check_each f ys)
        → (r >> check_each f (xs ++ ys)) ≡ ((r >> check_each f xs) >> check_each f ys)
    joined (ok u) ih = ih
    joined (err e) ih = refl

abbrev pub known_op : {F : Type 0} → Leaf F → Result Op (Unit {0})
known_op l = if is_set l.op then ok tt else err l.op

abbrev pub valid_leaf : {F : Type 0} → (GoString → Bool) → Leaf F → Result FilterError (Unit {0})
valid_leaf has l =
    if beq l.column []
    then err empty_column
    else if not (has l.column)
    then err (unknown_column l.column)
    else if not (is_set l.op)
    then err (unknown_operator l.op)
    else check_operand l.op l.operand

mutual
  unfolding check_op leaves

  check_op-leaves : {F : Type 0} (c : Cond F) → check_op c ≡ check_each known_op (leaves c)
  check_op-leaves (cond c op v (more s ss)) = check_ops-leaves (more s ss)
  check_op-leaves (cond c op v end) = ground arith

  check_ops-leaves : {F : Type 0} (cs : Conds F) → check_ops cs ≡ check_each known_op (leaves_of cs)
  check_ops-leaves end = refl
  check_ops-leaves (more c cs) = rw check_each-append (cc (check_op-leaves c, check_ops-leaves cs))

mutual
  unfolding validate leaves

  validate-leaves :
      {F : Type 0} (has : GoString → Bool) (c : Cond F)
      → validate has c ≡ check_each (valid_leaf has) (leaves c)
  validate-leaves has (cond c op v (more s ss)) = validate_conds-leaves has (more s ss)
  validate-leaves has (cond c op v end) = ground arith

  validate_conds-leaves :
      {F : Type 0} (has : GoString → Bool) (cs : Conds F)
      → validate_conds has cs ≡ check_each (valid_leaf has) (leaves_of cs)
  validate_conds-leaves has end = refl
  validate_conds-leaves has (more c cs) =
      rw check_each-append (cc (validate-leaves has c, validate_conds-leaves has cs))

-- `Compile` accepts a filter exactly when every leaf has a known operator; else its error names the
-- first unknown one, and an accepted filter is kept as it is.
pub compile-leaves :
    {F : Type 0} (w : Conds F)
    → compile w ≡ (check_each known_op (leaves_of w) >> ok (record { conds = w }))
unfolding compile
compile-leaves w = rw (check_ops-leaves w)

known_of_valid :
    {F : Type 0} (has : GoString → Bool) (l : Leaf F)
    → valid_leaf has l ≡ ok tt
    → known_op l ≡ ok tt
known_of_valid has l h = ground arith

all_known :
    {F : Type 0} (has : GoString → Bool) (ls : List (Leaf F))
    → check_each (valid_leaf has) ls ≡ ok tt
    → check_each known_op ls ≡ ok tt
all_known has [] h = refl
all_known has (l ∷ ls) h =
    let (u, p, q) = >>=-eq-ok (valid_leaf has l) (λ _. check_each (valid_leaf has) ls) h in
    cc (known_of_valid has l p, all_known has ls q)

abbrev pub AllLeaves : {F : Type 0} → (Leaf F → Type 0) → List (Leaf F) → Type 0
AllLeaves P [] = Unit
AllLeaves P (l ∷ ls) = P l × AllLeaves P ls

abbrev HasElements : {F : Type 0} → Operand F → Type 0
HasElements (many t (v ∷ vs)) = Unit
HasElements _ = ⊥

-- The operand that an operator takes: a slice with elements for a membership test, anything for a test
-- for NULL, and any value but nil for the others.
abbrev pub Fits : {F : Type 0} → Op → Operand F → Type 0
Fits op v =
    (((op ≡ in_set) ⊎ (op ≡ not_in)) → HasElements v)
    × (op ≢ is_null → op ≢ is_not_null → v ≢ one null)

-- A leaf names a column of the entity and has a known operator with an operand that fits it.
abbrev pub IsValidLeaf : {F : Type 0} → (GoString → Bool) → Leaf F → Type 0
IsValidLeaf has l =
    (l.column ≢ [])
    × (has l.column ≡ true)
    × ((s : GoString) → l.op ≢ unknown s)
    × Fits l.op l.operand

check_operand_sound :
    {F : Type 0} (op : Op) (v : Operand F) → check_operand op v ≡ ok tt → Fits op v
unfolding check_operand
check_operand_sound in_set (one v) h = absurd (ground arith)
check_operand_sound in_set (many t []) h = absurd (ground arith)
check_operand_sound in_set (many t (v ∷ vs)) h = (λ s. tt, λ m n e. ground arith)
check_operand_sound not_in (one v) h = absurd (ground arith)
check_operand_sound not_in (many t []) h = absurd (ground arith)
check_operand_sound not_in (many t (v ∷ vs)) h = (λ s. tt, λ m n e. ground arith)
check_operand_sound is_null v h = (λ s. absurd (ground arith), λ m. absurd (m refl))
check_operand_sound is_not_null v h = (λ s. absurd (ground arith), λ m n. absurd (n refl))
check_operand_sound _ (one null) h = absurd (ground arith)
check_operand_sound _ v h = (λ s. absurd (ground arith), λ m n e. ground arith)

check_operand_complete :
    {F : Type 0} (op : Op) (v : Operand F) → Fits op v → check_operand op v ≡ ok tt
unfolding check_operand
check_operand_complete in_set (one v) f = absurd (f.0 (inl refl))
check_operand_complete in_set (many t []) f = absurd (f.0 (inl refl))
check_operand_complete in_set (many t (v ∷ vs)) f = refl
check_operand_complete not_in (one v) f = absurd (f.0 (inr refl))
check_operand_complete not_in (many t []) f = absurd (f.0 (inr refl))
check_operand_complete not_in (many t (v ∷ vs)) f = refl
check_operand_complete is_null v f = refl
check_operand_complete is_not_null v f = refl
check_operand_complete _ (one null) f = absurd (f.1 (λ e. ground arith) (λ e. ground arith) refl)
check_operand_complete _ v f = refl

is_set_sound : (op : Op) (s : GoString) → is_set op ≡ true → op ≢ unknown s
is_set_sound (unknown name) s h e = ground arith
is_set_sound _ s h e = ground arith

is_set_complete : (op : Op) → ((s : GoString) → op ≢ unknown s) → is_set op ≡ true
is_set_complete (unknown name) h = absurd (h name refl)
is_set_complete _ h = refl

valid_leaf_sound :
    {F : Type 0} (has : GoString → Bool) (l : Leaf F) → valid_leaf has l ≡ ok tt → IsValidLeaf has l
valid_leaf_sound has l h = (
  λ e. ground (arith, h, beq_iff l.column [], e),
  ground (arith, h),
  λ s. is_set_sound l.op s (ground (arith, h)),
  check_operand_sound l.op l.operand (ground (arith, h)),
)

valid_leaf_complete :
    {F : Type 0} (has : GoString → Bool) (l : Leaf F) → IsValidLeaf has l → valid_leaf has l ≡ ok tt
valid_leaf_complete has l (c, k, o, f) = ground (
  arith,
  beq_iff l.column [],
  c,
  k,
  is_set_complete l.op o,
  check_operand_complete l.op l.operand f,
)

check_each-AllLeaves :
    {F : Type 0} (has : GoString → Bool) (ls : List (Leaf F))
    → (check_each (valid_leaf has) ls ≡ ok tt) ↔ AllLeaves (IsValidLeaf has) ls
check_each-AllLeaves has [] = (λ h. tt, λ h. refl)
check_each-AllLeaves has (l ∷ ls) = (
  λ h.
      let (u, q, r) = >>=-eq-ok (valid_leaf has l) (λ _. check_each (valid_leaf has) ls) h in
      (valid_leaf_sound has l q, (check_each-AllLeaves has ls).0 r),
  λ h. rw (valid_leaf_complete has l h.0) ((check_each-AllLeaves has ls).1 h.1),
)

-- The injection guard: `ValidateConds` passes exactly the filters whose every leaf names a column of
-- the entity, has a known operator and an operand that fits it, and `Compile` keeps such a filter as
-- it is.
pub validate_conds_sound :
    {F : Type 0} (has : GoString → Bool) (w : Conds F)
    → ((validate_conds has w ≡ ok tt) ↔ AllLeaves (IsValidLeaf has) (leaves_of w))
      × (validate_conds has w ≡ ok tt → compile w ≡ ok (record { conds = w }))
validate_conds_sound has w = rw (validate_conds-leaves has w) (
  check_each-AllLeaves has (leaves_of w),
  λ valid. rw (compile-leaves w) (rw (all_known has (leaves_of w) valid)),
)
