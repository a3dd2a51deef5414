-- ===== src/Sweep/Engine/Flights.antt =====
-- core/sweep/sweep.go: the sweeps in flight for a tenant, and its row's `inFlight`.
use fabriq.Prelude.{
  ℕ, zero, suc, ◌+◌, ◌≤◌, ◌≡◌, refl, sym, ◌∙◌, inl, inr, Bool, true, false, not, ◌&&◌, List, [],
  ◌∷◌, Option, none, some, GoString, arith, Bool-cases, beq, beq_iff, Assoc, lookup, insert, delete,
  lookup-insert, lookup-delete, get_elem?, remove_at, Result, ok, err, if◌then◌else◌,
}
use fabriq.Catalog.Entry.{Error}
use fabriq.Sweep.Table.{
  Config, PassResult, TenantState, or_fresh, wake_row, unseen, decayed, decay_one, decay_rows,
}
use fabriq.Sweep.Engine.{Job, landed_row}

abbrev pub ones : Bool → ℕ
ones true = 1
ones false = 0

-- The sweeps of the tenant among the jobs.
abbrev pub flights : GoString → List Job → ℕ
flights tenant [] = 0
flights tenant (j ∷ js) = ones (beq j.tenant tenant) + flights tenant js

abbrev pub awaiting : GoString → Option Job → ℕ
awaiting tenant none = 0
awaiting tenant (some j) = ones (beq j.tenant tenant)

-- 1 if the tenant's row says that a sweep is in flight, and 0 if it says not or if there is no row.
abbrev pub marked : GoString → Assoc TenantState → ℕ
marked tenant m = ones (or_fresh (lookup tenant m)).in_flight

pub marked-insert :
    (k tenant : GoString) (st : TenantState) (m : Assoc TenantState)
    → marked tenant (insert k st m) ≡ (if beq k tenant then ones st.in_flight else marked tenant m)
marked-insert k tenant st m = elim (Bool-cases (beq k tenant)) [
  | inl e ↦ rw (lookup-insert k tenant st m, e) refl
  | inr e ↦ rw (lookup-insert k tenant st m, e) refl
]

-- A row that is put in flight, and one that is taken out of flight.
pub marked-insert_on :
    (k tenant : GoString) (st : TenantState) (m : Assoc TenantState)
    → marked k m ≡ 0
    → st.in_flight ≡ true
    → marked tenant (insert k st m) ≡ ones (beq k tenant) + marked tenant m
marked-insert_on k tenant st m h f = elim (Bool-cases (beq k tenant)) [
  | inl e ↦
      rw (marked-insert k tenant st m, e, f) (rw (sym ((beq_iff k tenant).0 e)) (omega (arith, h)))
  | inr e ↦ rw (marked-insert k tenant st m, e) (omega arith)
]

pub marked-insert_off :
    (k tenant : GoString) (st : TenantState) (m : Assoc TenantState)
    → marked k m ≡ 1
    → st.in_flight ≡ false
    → ones (beq k tenant) + marked tenant (insert k st m) ≡ marked tenant m
marked-insert_off k tenant st m h f = elim (Bool-cases (beq k tenant)) [
  | inl e ↦
      rw (marked-insert k tenant st m, e, f) (rw (sym ((beq_iff k tenant).0 e)) (omega (arith, h)))
  | inr e ↦ rw (marked-insert k tenant st m, e) (omega arith)
]

pub marked-le : (k : GoString) (m : Assoc TenantState) → marked k m ≤ 1
marked-le k m = at_most (or_fresh (lookup k m)).in_flight
  where
    at_most : (b : Bool) → ones b ≤ 1
    at_most true = omega arith
    at_most false = omega arith

-- A row that is written back with its flag unchanged.
pub marked-insert_same :
    (k tenant : GoString) (st : TenantState) (m : Assoc TenantState)
    → ones st.in_flight ≡ marked k m
    → marked tenant (insert k st m) ≡ marked tenant m
marked-insert_same k tenant st m h = elim (Bool-cases (beq k tenant)) [
  | inl e ↦ rw (marked-insert k tenant st m, e) (rw (sym ((beq_iff k tenant).0 e)) h)
  | inr e ↦ rw (marked-insert k tenant st m, e) refl
]

pub marked-wake_row :
    (k tenant : GoString) (m : Assoc TenantState) → marked tenant (wake_row k m) ≡ marked tenant m
unfolding wake_row
marked-wake_row k tenant m = marked-insert_same k tenant _ m refl

pub marked-unseen :
    (tenant : GoString) (m : Assoc TenantState) → marked tenant (unseen m) ≡ marked tenant m
unfolding unseen lookup
marked-unseen tenant [] = refl
marked-unseen tenant ((j, st) ∷ m) = elim (Bool-cases (beq j tenant)) [
  | inl e ↦ rw e refl
  | inr e ↦ rw e (marked-unseen tenant m)
]

marked-delete :
    (k tenant : GoString) (m : Assoc TenantState)
    → marked k m ≡ 0
    → marked tenant (delete k m) ≡ marked tenant m
marked-delete k tenant m h = elim (Bool-cases (beq k tenant)) [
  | inl e ↦ rw (lookup-delete k tenant m, e) (rw (sym ((beq_iff k tenant).0 e)) (sym h))
  | inr e ↦ rw (lookup-delete k tenant m, e) refl
]

marked-decayed :
    (k tenant : GoString) (o : Option TenantState) (m : Assoc TenantState)
    → lookup k m ≡ o
    → marked tenant (decayed k o m) ≡ marked tenant m
marked-decayed k tenant none m n = refl
marked-decayed k tenant (some st) m n = elim (Bool-cases (not st.seen && not st.in_flight)) [
  | inl d ↦ rw d (marked-delete k tenant m (rw n (ground arith)))
  | inr d ↦ rw d refl
]

pub marked-decay_rows :
    (tenant : GoString) (rows m : Assoc TenantState)
    → marked tenant (decay_rows rows m) ≡ marked tenant m
unfolding decay_rows decay_one
marked-decay_rows tenant [] m = refl
marked-decay_rows tenant ((k, st) ∷ rows) m =
    marked-decay_rows tenant rows (decay_one k m) ∙ marked-decayed k tenant (lookup k m) m refl

pub flights-remove_at :
    (tenant : GoString) (js : List Job) (i : ℕ) (j : Job)
    → get_elem? js i ≡ some j
    → flights tenant js ≡ ones (beq j.tenant tenant) + flights tenant (remove_at i js)
flights-remove_at tenant [] i j h = absurd (ground arith)
flights-remove_at tenant (k ∷ js) zero j h = ground arith
flights-remove_at tenant (k ∷ js) (suc i) j h = omega (arith, flights-remove_at tenant js i j h)

-- A landed sweep's row is out of flight.
pub landed_row-in_flight :
    (cfg : Config) (jitter : ℕ → ℕ) (done : ℕ) (compact : Bool) (result : Result Error PassResult)
    (st : TenantState)
    → (landed_row cfg jitter done compact result st).in_flight ≡ false
unfolding landed_row
landed_row-in_flight cfg jitter done compact (err x) st = refl
landed_row-in_flight cfg jitter done true (ok r) st = ground arith
landed_row-in_flight cfg jitter done false (ok r) st = ground arith
