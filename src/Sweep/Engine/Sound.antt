-- ===== src/Sweep/Engine/Sound.antt =====
-- core/sweep/sweep.go: the invariant of a pass, and the steps that start no sweep and end none.
use fabriq.Prelude.{
  ℕ, suc, ◌+◌, ◌≤◌, ◌≡◌, sym, ap, ◌∙◌, inl, inr, List, [], ◌∷◌, Option, none, some, GoString, arith,
  Bool-cases, length, ltb, Result, ok, err,
}
use fabriq.Catalog.Entry.{Entry, Error}
use fabriq.Sweep.Table.{Config, PassResult, busy}
use fabriq.Sweep.Engine.{
  Stats, Job, Phase, between, scanning, Engine, counted, admit_step, begin_step, list_step,
  end_step,
}
use fabriq.Sweep.Engine.Flights.{flights, awaiting, marked, marked-unseen, marked-decay_rows}
use fabriq.Sweep.Engine.Backoff.{IsBacked, IsBacked-unseen, IsBacked-decay_rows}

abbrev pub waiters : Option Job → ℕ
waiters none = 0
waiters (some j) = 1

-- Between two passes nothing runs.
abbrev pub IsQuiet : Phase → List Job → Option Job → Type 0
IsQuiet between js w = (js ≡ []) × (w ≡ none)
IsQuiet (scanning now es more) js w = Unit

-- While a job is there, a pass is on.
pub awake :
    (ph : Phase) (js ks : List Job) (w v : Option Job)
    → ¬ ((js ≡ []) × (w ≡ none))
    → IsQuiet ph js w
    → IsQuiet ph ks v
awake between js ks w v n q = absurd (n q)
awake (scanning now es more) js ks w v n q = tt

pub idle :
    (ph : Phase) (js : List Job) (w : Option Job) (t : GoString)
    → IsQuiet ph js w
    → ph ≡ between
    → flights t js + awaiting t w ≡ 0
idle between js w t q e = omega (arith, ap (flights t) q.0, ap (awaiting t) q.1)
idle (scanning now es more) js w t q e = absurd (ground arith)

-- The numbers of a pass, with `n` of its sweeps not over.
pub record Adds (n : ℕ) (s : Stats) : Type 0 where
  pub over : s.errors + s.busy_count + n ≤ s.swept
  pub swept : s.swept ≤ s.eligible_count
  pub eligible : s.eligible_count ≤ s.scanned

pub record IsSound (cfg : Config) (g : Engine) : Type 0 where
  pub one : (t : GoString) → flights t g.running + awaiting t g.waiting ≡ marked t g.state
  pub backed : IsBacked cfg g.state
  pub slots : length g.running ≤ cfg.workers
  pub adds : Adds (length g.running + waiters g.waiting) g.stats
  pub quiet : IsQuiet g.phase g.running g.waiting

pub counted-Adds :
    (n : ℕ) (result : Result Error PassResult) (s : Stats)
    → Adds (suc n) s
    → Adds n (counted result s)
counted-Adds n (err x) s h = record {
  over = omega (arith, h.over);
  swept = h.swept;
  eligible = h.eligible;
}
counted-Adds n (ok r) s h = elim (Bool-cases (busy r)) [
  | inl b ↦ rw b (record { over = omega (arith, h.over); swept = h.swept; eligible = h.eligible })
  | inr b ↦ rw b (record { over = omega (arith, h.over); swept = h.swept; eligible = h.eligible })
]

module _ (cfg : Config) where
  pub begin_step-IsSound :
      (now : ℕ) (ph : Phase) (g : Engine)
      → IsQuiet ph g.running g.waiting
      → IsSound cfg g
      → IsSound cfg (begin_step now ph g)
  unfolding begin_step
  begin_step-IsSound now (scanning s es more) g q h = h
  begin_step-IsSound now between g q h = record {
    one = λ t. h.one t ∙ sym (marked-unseen t g.state);
    backed = IsBacked-unseen cfg g.state h.backed;
    slots = h.slots;
    adds = record {
      over = omega (arith, ap length q.0, ap waiters q.1);
      swept = omega arith;
      eligible = omega arith;
    };
    quiet = tt;
  }

  pub list_step-IsSound :
      (answer : Result Error (List Entry × GoString)) (ph : Phase) (g : Engine)
      → IsSound cfg g
      → IsSound cfg (list_step answer ph g)
  unfolding list_step
  list_step-IsSound answer between g h = h
  list_step-IsSound answer (scanning now (e ∷ es) more) g h = h
  list_step-IsSound answer (scanning now [] none) g h = h
  list_step-IsSound (err x) (scanning now [] (some c)) g h = record {
    one = h.one;
    backed = h.backed;
    slots = h.slots;
    adds = h.adds;
    quiet = tt;
  }
  list_step-IsSound (ok (page, next)) (scanning now [] (some c)) g h = record {
    one = h.one;
    backed = h.backed;
    slots = h.slots;
    adds = h.adds;
    quiet = tt;
  }

  pub end_step-IsSound :
      (now : ℕ) (ph : Phase) (w : Option Job) (js : List Job) (g : Engine)
      → g.waiting ≡ w
      → g.running ≡ js
      → IsSound cfg g
      → IsSound cfg (end_step now ph w js g)
  unfolding end_step
  end_step-IsSound now (scanning s [] none) none [] g p q h = record {
    one = λ t. h.one t ∙ sym (marked-decay_rows t g.state g.state);
    backed = IsBacked-decay_rows cfg g.state g.state h.backed;
    slots = h.slots;
    adds = record { over = h.adds.over; swept = h.adds.swept; eligible = h.adds.eligible };
    quiet = (q, p);
  }
  end_step-IsSound now between w js g p q h = h
  end_step-IsSound now (scanning s (e ∷ es) more) w js g p q h = h
  end_step-IsSound now (scanning s [] (some c)) w js g p q h = h
  end_step-IsSound now (scanning s [] none) (some j) js g p q h = h
  end_step-IsSound now (scanning s [] none) none (j ∷ js) g p q h = h

  pub admit_step-IsSound :
      (w : Option Job) (g : Engine)
      → g.waiting ≡ w
      → IsSound cfg g
      → IsSound cfg (admit_step cfg w g)
  unfolding admit_step
  admit_step-IsSound none g p h = h
  admit_step-IsSound (some job) g p h = elim (Bool-cases (ltb (length g.running) cfg.workers)) [
    | inr b ↦ rw b h
    | inl b ↦ rw b (record {
      one = λ t. omega (arith, h.one t, ap (awaiting t) p);
      backed = h.backed;
      slots = ground arith;
      adds = record {
        over = omega (arith, h.adds.over, ap waiters p);
        swept = h.adds.swept;
        eligible = h.adds.eligible;
      };
      quiet =
          awake g.phase g.running (job ∷ g.running) g.waiting none (λ z. ground (arith, p, z.1))
            h.quiet;
    })
  ]
