-- ===== src/Provision/Fleet/Accounts.antt =====
-- core/provision/provision.go: what the report of `fleetMigrate` says of each tenant.
use fabriq.Prelude.{
  ℕ, zero, suc, ◌+◌, ◌≤◌, ◌<◌, ◌≡◌, refl, ap, sym, ◌∙◌, ◌⊎◌, inl, inr, Bool, true, false, List, [],
  ◌∷◌, Option, none, some, GoString, arith, Bool-cases, Option-cases, length, get_elem?, remove_at,
  ltb, leb, beq, str_lt, Result, ok, err, if◌then◌else◌,
}
use fabriq.Catalog.Entry.{Entry, Error}
use fabriq.Provision.Store.{Env, World}
use fabriq.Provision.Fleet.{
  MigrateAllOpts, TenantResult, Roll, start, batch, max_failures, at_target, is_active, next_entry,
  loop_step, landed, Event, loops, lands, step, roll, insert_result, sort_results, finish,
}

abbrev pub total {ℓ} : {A : Type ℓ} → (A → ℕ) → List A → ℕ
total f [] = 0
total f (x ∷ xs) = f x + total f xs

total-remove_at {ℓ} :
    {A : Type ℓ} (f : A → ℕ) (i : ℕ) (x : A) (xs : List A)
    → get_elem? xs i ≡ some x
    → total f (remove_at i xs) + f x ≡ total f xs
total-remove_at f i x [] h = absurd (ground arith)
total-remove_at f zero x (y ∷ xs) h = ground arith
total-remove_at f (suc i) x (y ∷ xs) h = omega (arith, total-remove_at f i x xs h)

abbrev pub one_if : Bool → ℕ
one_if true = 1
one_if false = 0

module _ (t : GoString) where
  abbrev pub is_named : Entry → ℕ
  is_named e = one_if (beq e.tenant_id t)

  abbrev pub is_listed : Entry → ℕ
  is_listed e = if is_active e.state then one_if (beq e.tenant_id t) else 0

  abbrev pub is_result : TenantResult → ℕ
  is_result a = one_if (beq a.tenant_id t)

  abbrev waiting_named : Option Entry → ℕ
  waiting_named none = 0
  waiting_named (some e) = is_named e

  -- How often the tenant stands in the report, in the air, at the semaphore and ahead.
  abbrev tally : Roll → ℕ
  tally r =
      total is_result r.results
      + total is_named r.flying
      + waiting_named r.waiting
      + total is_listed r.todo

record IsAccounted (opts : MigrateAllOpts) (env : Env) (t : GoString) (n : ℕ) (r : Roll)
    : Type 0 where
  counted : (r.stopped ≡ true) ⊎ (tally t r ≡ n)
  over : r.stopped ≡ true → max_failures opts env ≤ r.failed
  same : r.failed ≡ r.failures
  sum : r.migrated + r.skipped + r.failed ≡ length r.results

-- The count stays as it was where the tally does.
still_counted : {b : Bool} (n x y : ℕ) → x ≡ y → (b ≡ true) ⊎ (x ≡ n) → (b ≡ true) ⊎ (y ≡ n)
still_counted n x y e (inl h) = inl h
still_counted n x y e (inr h) = inr (omega arith)

module _ (opts : MigrateAllOpts) (env : Env) (t : GoString) (n : ℕ) where
  next_entry-IsAccounted :
      (es : List Entry) (r : Roll)
      → r.waiting ≡ none
      → r.todo ≡ es
      → IsAccounted opts env t n r
      → IsAccounted opts env t n (next_entry opts env es r)
  next_entry-IsAccounted [] r p q h = h
  next_entry-IsAccounted (e ∷ es) r p q h = elim (Bool-cases (is_active e.state)) [
    | inr a ↦ rw a (record {
      counted = still_counted n _ _ (omega (arith, listed, passed a)) h.counted;
      over = h.over;
      same = h.same;
      sum = h.sum;
    })
    | inl a ↦ elim (Bool-cases (at_target opts env e)) [
      | inl b ↦
          rw (a, b)
            (record {
              counted = still_counted n _ _ (omega (arith, listed, taken a)) h.counted;
              over = h.over;
              same = h.same;
              sum = omega (arith, h.sum);
            })
      | inr b ↦ elim (Bool-cases (leb (max_failures opts env) r.failures)) [
        | inl m ↦
            rw (a, b, m)
              (record {
                counted = inl refl;
                over = λ _. ground (arith, h.same);
                same = h.same;
                sum = h.sum;
              })
        | inr m ↦
            rw (a, b, m)
              (record {
                counted = still_counted n _ _ (omega (arith, listed, taken a, free)) h.counted;
                over = h.over;
                same = h.same;
                sum = h.sum;
              })
      ]
    ]
  ]
    where
      listed : total (is_listed t) r.todo ≡ is_listed t e + total (is_listed t) es
      listed = ap (total (is_listed t)) q

      free : waiting_named t r.waiting ≡ 0
      free = ap (waiting_named t) p

      passed : is_active e.state ≡ false → is_listed t e ≡ 0
      passed a = rw a refl

      taken : is_active e.state ≡ true → is_listed t e ≡ is_named t e
      taken a = rw a refl

  loop_step-IsAccounted :
      (w : Option Entry) (r : Roll)
      → r.waiting ≡ w
      → IsAccounted opts env t n r
      → IsAccounted opts env t n (loop_step opts env w r)
  loop_step-IsAccounted none r p h = next_entry-IsAccounted r.todo r p refl h
  loop_step-IsAccounted (some e) r p h =
      elim (Bool-cases (ltb (length r.flying) (batch opts env))) [
        | inl b ↦ rw b (record {
          counted = still_counted n _ _ (omega (arith, held)) h.counted;
          over = h.over;
          same = h.same;
          sum = h.sum;
        })
        | inr b ↦ rw b h
      ]
    where
      held : waiting_named t r.waiting ≡ is_named t e
      held = ap (waiting_named t) p

  landed-IsAccounted :
      (i : ℕ) (e : Entry) (result : Result Error GoString) (r : Roll)
      → get_elem? r.flying i ≡ some e
      → IsAccounted opts env t n r
      → IsAccounted opts env t n
          (landed opts env e result (record r { flying = remove_at i r.flying }))
  landed-IsAccounted i e (ok version) r q h = record {
    counted =
        still_counted n _ _ (omega (arith, total-remove_at (is_named t) i e r.flying q)) h.counted;
    over = h.over;
    same = h.same;
    sum = omega (arith, h.sum);
  }
  landed-IsAccounted i e (err x) r q h = record {
    counted =
        still_counted n _ _ (omega (arith, total-remove_at (is_named t) i e r.flying q)) h.counted;
    over = λ s. omega (arith, h.over s);
    same = omega (arith, h.same);
    sum = omega (arith, h.sum);
  }

  step-IsAccounted :
      (r : Roll) (ev : Event)
      → IsAccounted opts env t n r
      → IsAccounted opts env t n (step opts env r ev)
  unfolding step
  step-IsAccounted r loops h = loop_step-IsAccounted r.waiting r refl h
  step-IsAccounted r (lands i result) h = elim (Option-cases (get_elem? r.flying i)) [
    | inl m ↦ rw m h
    | inr (e, m) ↦ rw m (landed-IsAccounted i e result r m h)
  ]

  roll-IsAccounted :
      (r : Roll) (evs : List Event)
      → IsAccounted opts env t n r
      → IsAccounted opts env t n (roll opts env r evs)
  unfolding roll
  roll-IsAccounted r [] h = h
  roll-IsAccounted r (ev ∷ evs) h =
      roll-IsAccounted (step opts env r ev) evs (step-IsAccounted r ev h)

total-insert_result :
    (f : TenantResult → ℕ) (a : TenantResult) (bs : List TenantResult)
    → total f (insert_result a bs) ≡ f a + total f bs
unfolding insert_result
total-insert_result f a [] = refl
total-insert_result f a (b ∷ bs) = elim (Bool-cases (str_lt b.tenant_id a.tenant_id)) [
  | inl h ↦ rw h (omega (arith, total-insert_result f a bs))
  | inr h ↦ rw h refl
]

total-sort_results :
    (f : TenantResult → ℕ) (as' : List TenantResult) → total f (sort_results as') ≡ total f as'
unfolding sort_results
total-sort_results f [] = refl
total-sort_results f (a ∷ as') =
    omega (arith, total-insert_result f a (sort_results as'), total-sort_results f as')

-- The loop is through and no goroutine runs: `wg.Wait()` has returned.
abbrev pub IsOver : Roll → Type 0
IsOver r = (r.todo ≡ []) × (r.waiting ≡ none) × (r.flying ≡ [])

total-const_one : (xs : List TenantResult) → total (λ _. 1) xs ≡ length xs
total-const_one [] = refl
total-const_one (x ∷ xs) = omega (arith, total-const_one xs)

within_budget :
    (opts : MigrateAllOpts) (env : Env) (r report : Roll)
    → finish opts r ≡ (report, none)
    → r.failed < max_failures opts env
unfolding finish
within_budget opts env r report done = ground arith

over_counted :
    (opts : MigrateAllOpts) (env : Env) (t : GoString) (n : ℕ) (r : Roll)
    → IsOver r
    → r.failed < max_failures opts env
    → IsAccounted opts env t n r
    → total (is_result t) r.results ≡ n
over_counted opts env t n r (a, b, c) lt h = elim h.counted [
  | inl s ↦ absurd (omega (arith, h.over s))
  | inr e ↦
      omega
        (arith, e, ap (total (is_listed t)) a, ap (waiting_named t) b, ap (total (is_named t)) c)
]

-- A fleet roll that returns without an error reports every tenant as often as the catalog lists it
-- as active, and its three counts add up to the results.
pub finish-accounts :
    (opts : MigrateAllOpts) (env : Env) (entries : List Entry) (w : World) (evs : List Event)
    (report : Roll)
    → IsOver (roll opts env (start entries w) evs)
    → finish opts (roll opts env (start entries w) evs) ≡ (report, none)
    → ((t : GoString) → total (is_result t) report.results ≡ total (is_listed t) entries)
      × (report.migrated + report.skipped + report.failed ≡ total (λ _. 1) report.results)
unfolding finish
finish-accounts opts env entries w evs report over done = (
  λ t. omega (
    arith,
    results (is_result t),
    over_counted opts env t (total (is_listed t) entries) r over
        (within_budget opts env r report done) (accounted t),
  ),
  omega (
    arith,
    results (λ _. 1),
    total-const_one r.results,
    (accounted []).sum,
    ap (λ (x : Roll × Option Error). x.0.migrated + x.0.skipped + x.0.failed) done,
  ),
)
  where
    r : Roll
    r = roll opts env (start entries w) evs

    accounted : (t : GoString) → IsAccounted opts env t (total (is_listed t) entries) r
    accounted t =
        roll-IsAccounted opts env t (total (is_listed t) entries) (start entries w) evs
          (record { counted = inr (omega arith); over = λ s. absurd (cc); same = refl; sum = refl })

    results : (f : TenantResult → ℕ) → total f report.results ≡ total f r.results
    results f =
        ap (λ (x : Roll × Option Error). total f x.0.results) (sym done)
        ∙ total-sort_results f r.results
