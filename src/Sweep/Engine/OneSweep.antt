-- ===== src/Sweep/Engine/OneSweep.antt =====
-- core/sweep/sweep.go: how many sweeps run, and for whom.
use fabriq.Prelude.{
  ℕ, ◌+◌, ◌≤◌, ◌<◌, ◌≡◌, refl, sym, ap, ◌∙◌, inl, inr, true, List, [], ◌∷◌, Option, none, some,
  GoString, arith, Bool-cases, beq_refl, lookup, length, length-remove_at, get_elem?, get_elem?-lt,
  remove_at, Result,
}
use fabriq.Catalog.Entry.{Error}
use fabriq.Sweep.Table.{Config, PassResult, TenantState, or_fresh, eligible, due}
use fabriq.Sweep.Engine.{
  Job, Phase, between, scanning, Engine, new_engine, Event, wakes, begins, lists, visits, admits,
  lands, ends, claim, landed_row, set_row, land, visit_step, land_step, step, run,
}
use fabriq.Sweep.Engine.Flights.{
  flights, awaiting, marked, marked-insert_same, marked-insert_on, marked-insert_off, marked-le,
  ones, marked-wake_row, flights-remove_at, landed_row-in_flight,
}
use fabriq.Sweep.Engine.Sound.{
  waiters, IsQuiet, awake, idle, counted-Adds, IsSound, begin_step-IsSound, list_step-IsSound,
  end_step-IsSound, admit_step-IsSound,
}
use fabriq.Sweep.Engine.Backoff.{
  most, IsBacked-insert, IsBacked-wake_row, landed_row-backoff, IsBacked-set_row,
}
use mathlib.Core.Path.{subst}

module _ (cfg : Config) where
  claim-IsSound :
      (now : ℕ) (tenant : GoString) (g : Engine) (st : TenantState)
      → or_fresh (lookup tenant g.state) ≡ st
      → g.waiting ≡ none
      → ((w : Option Job) → IsQuiet g.phase g.running w)
      → g.stats.swept < g.stats.eligible_count
      → IsSound cfg g
      → IsSound cfg (claim cfg now tenant st g)
  claim-IsSound now tenant g st r p q room h = elim (Bool-cases (due now st)) [
    | inr d ↦ rw d (record {
      one = λ t.
          h.one t
          ∙ sym (
              marked-insert_same tenant t (record st { seen = true }) g.state
                (ap (λ s. ones s.in_flight) (sym r)));
      backed =
          IsBacked-insert cfg tenant (record st { seen = true }) g.state
            (subst (λ x. x.backoff ≤ most cfg) r (h.backed tenant)) h.backed;
      slots = h.slots;
      adds = h.adds;
      quiet = h.quiet;
    })
    | inl d ↦ rw d (record {
      one = λ t. omega (
        arith,
        h.one t,
        ap (awaiting t) p,
        marked-insert_on tenant t (record st { in_flight = true; seen = true }) g.state
            (ap (λ s. ones s.in_flight) r ∙ ground arith) refl,
      );
      backed =
          IsBacked-insert cfg tenant (record st { in_flight = true; seen = true }) g.state
            (subst (λ x. x.backoff ≤ most cfg) r (h.backed tenant)) h.backed;
      slots = h.slots;
      adds = record {
        over = omega (arith, h.adds.over, ap waiters p);
        swept = omega (arith, room);
        eligible = h.adds.eligible;
      };
      quiet = q _;
    })
  ]

  land-IsSound :
      (jitter : ℕ → ℕ) (done : ℕ) (result : Result Error PassResult) (i : ℕ) (job : Job)
      (g : Engine)
      → get_elem? g.running i ≡ some job
      → IsSound cfg g
      → IsSound cfg (land cfg jitter done result job (record g { running = remove_at i g.running }))
  unfolding land
  land-IsSound jitter done result i job g n h = record {
    one = λ t. landed (lookup job.tenant g.state) refl t;
    backed =
        IsBacked-set_row cfg job.tenant (landed_row cfg jitter done job.compact result)
          (lookup job.tenant g.state) g.state
          (landed_row-backoff cfg jitter done job.compact result) h.backed;
    slots = omega (arith, shorter, h.slots);
    adds = counted-Adds _ result g.stats (record {
      over = omega (arith, shorter, h.adds.over);
      swept = h.adds.swept;
      eligible = h.adds.eligible;
    });
    quiet =
        awake g.phase g.running (remove_at i g.running) g.waiting g.waiting
          (λ z. ground (arith, ap length z.0, get_elem?-lt g.running i job n)) h.quiet;
  }
    where
      shorter : length (remove_at i g.running) + 1 ≡ length g.running
      shorter = length-remove_at i g.running (get_elem?-lt g.running i job n)

      in_flight : marked job.tenant g.state ≡ 1
      in_flight = omega (
        arith,
        h.one job.tenant,
        flights-remove_at job.tenant g.running i job n,
        ap ones (beq_refl job.tenant),
        marked-le job.tenant g.state,
      )

      landed :
          (o : Option TenantState)
          → lookup job.tenant g.state ≡ o
          → (t : GoString)
          → flights t (remove_at i g.running) + awaiting t g.waiting
            ≡ marked t
                (set_row job.tenant (landed_row cfg jitter done job.compact result) o g.state)
      landed none r t = absurd (omega (arith, in_flight, ap (λ o. ones (or_fresh o).in_flight) r))
      landed (some st) r t = omega (
        arith,
        h.one t,
        flights-remove_at t g.running i job n,
        marked-insert_off job.tenant t (landed_row cfg jitter done job.compact result st) g.state
            in_flight (landed_row-in_flight cfg jitter done job.compact result st),
      )

  visit_step-IsSound :
      (ph : Phase) (w : Option Job) (g : Engine)
      → g.waiting ≡ w
      → IsSound cfg g
      → IsSound cfg (visit_step cfg ph w g)
  unfolding visit_step
  visit_step-IsSound between w g p h = h
  visit_step-IsSound (scanning now [] more) w g p h = h
  visit_step-IsSound (scanning now (e ∷ es) more) (some j) g p h = h
  visit_step-IsSound (scanning now (e ∷ es) more) none g p h = elim (Bool-cases (eligible cfg e)) [
    | inr n ↦ rw n (record {
      one = h.one;
      backed = h.backed;
      slots = h.slots;
      adds = record {
        over = h.adds.over;
        swept = h.adds.swept;
        eligible = omega (arith, h.adds.eligible);
      };
      quiet = tt;
    })
    | inl n ↦ rw n (
        claim-IsSound now e.tenant_id
          (record g {
            phase = scanning now es more;
            stats = record g.stats {
              scanned = g.stats.scanned + 1;
              eligible_count = g.stats.eligible_count + 1;
            };
          })
          (or_fresh (lookup e.tenant_id g.state)) refl p (λ v. tt) (omega (arith, h.adds.swept))
          (record {
            one = h.one;
            backed = h.backed;
            slots = h.slots;
            adds = record {
              over = h.adds.over;
              swept = omega (arith, h.adds.swept);
              eligible = omega (arith, h.adds.eligible);
            };
            quiet = tt;
          }))
  ]

  land_step-IsSound :
      (jitter : ℕ → ℕ) (done : ℕ) (result : Result Error PassResult) (i : ℕ) (o : Option Job)
      (g : Engine)
      → get_elem? g.running i ≡ o
      → IsSound cfg g
      → IsSound cfg (land_step cfg jitter done result i o g)
  unfolding land_step
  land_step-IsSound jitter done result i none g n h = h
  land_step-IsSound jitter done result i (some job) g n h =
      land-IsSound jitter done result i job g n h

  step-IsSound : (g : Engine) (ev : Event) → IsSound cfg g → IsSound cfg (step cfg g ev)
  unfolding step
  step-IsSound g (wakes k) h = record {
    one = λ t. h.one t ∙ sym (marked-wake_row k t g.state);
    backed = IsBacked-wake_row cfg k g.state h.backed;
    slots = h.slots;
    adds = h.adds;
    quiet = h.quiet;
  }
  step-IsSound g (begins now) h = begin_step-IsSound cfg now g.phase g h.quiet h
  step-IsSound g (lists answer) h = list_step-IsSound cfg answer g.phase g h
  step-IsSound g visits h = visit_step-IsSound g.phase g.waiting g refl h
  step-IsSound g admits h = admit_step-IsSound cfg g.waiting g refl h
  step-IsSound g (lands i result done jitter) h =
      land_step-IsSound jitter done result i (get_elem? g.running i) g refl h
  step-IsSound g (ends now) h = end_step-IsSound cfg now g.phase g.waiting g.running g refl refl h

  run-IsSound : (g : Engine) (evs : List Event) → IsSound cfg g → IsSound cfg (run cfg g evs)
  unfolding run
  run-IsSound g [] h = h
  run-IsSound g (ev ∷ evs) h = run-IsSound (step cfg g ev) evs (step-IsSound g ev h)

  -- Whatever order the steps come in, the sweeps of a tenant that run or wait for a slot are 1 if its
  -- row is marked as in flight and else none; its backoff is at most the longer of the cap and the
  -- base; at most `Workers` sweeps run, and between two passes none is in flight. The sweeps of a pass
  -- that failed, found work or run are together at most those dispatched, these at most the eligible
  -- tenants, and these at most the scanned ones.
  pub run-one_sweep :
      (evs : List Event) (t : GoString)
      → let g = run cfg new_engine evs in
        (flights t g.running + awaiting t g.waiting ≡ marked t g.state)
        × ((or_fresh (lookup t g.state)).backoff ≤ most cfg)
        × (length g.running ≤ cfg.workers)
        × (g.phase ≡ between → marked t g.state ≡ 0)
        × (g.stats.errors + g.stats.busy_count + length g.running ≤ g.stats.swept)
        × (g.stats.swept ≤ g.stats.eligible_count)
        × (g.stats.eligible_count ≤ g.stats.scanned)
  run-one_sweep evs t = (
    h.one t,
    h.backed t,
    h.slots,
    λ e. omega (arith, h.one t, idle _ _ _ t h.quiet e),
    omega (arith, h.adds.over),
    h.adds.swept,
    h.adds.eligible,
  )
    where
      h : IsSound cfg (run cfg new_engine evs)
      h = run-IsSound new_engine evs (record {
        one = λ u. unfold lookup in omega arith;
        backed = λ u. unfold lookup in omega arith;
        slots = omega arith;
        adds = record { over = omega arith; swept = omega arith; eligible = omega arith };
        quiet = (refl, refl);
      })
