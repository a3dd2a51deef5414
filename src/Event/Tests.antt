-- ===== src/Event/Tests.antt =====
-- Runs of the upcaster chain, and the instances of its theorems.
use fabriq.Prelude.{◌≡◌, refl, [], ◌∷◌, ◌++◌, some, codes, beq, lookup, insert, Result, ok}
use fabriq.Event.Envelope.{Envelope}
use fabriq.Event.Upcast.{
  Migration, step_at, steps_of, Upcaster, UpcasterChain, UpcastError, register, apply,
}
use fabriq.Event.Latest.{IsLatest, apply-IsLatest}

abbrev append_b : Migration
append_b p = ok (p ++ codes "b")

abbrev renames : UpcasterChain
renames = record { steps = (codes "note.created", (1, append_b) ∷ (2, append_b) ∷ []) ∷ [] }

abbrev created : Envelope
created = record {
  id = codes "01";
  tenant_id = codes "acme";
  scope_id = [];
  aggregate = codes "note";
  agg_id = codes "n1";
  version = 1;
  type = codes "note.created";
  at = 0;
  payload_schema_version = 1;
  payload = codes "a";
  traceparent = [];
}

apply_twice :
    apply renames created
    ≡ some (ok (record created { payload = codes "abb"; payload_schema_version = 3 }))
unfolding apply lookup beq step_at
apply_twice = refl

abbrev third : Upcaster
third = record { type = codes "note.created"; from_version = 3; fn = some append_b }

abbrev registered : UpcasterChain
registered = record {
  steps = (codes "note.created", (3, append_b) ∷ (1, append_b) ∷ (2, append_b) ∷ []) ∷ [];
}

third_registers : register renames third ≡ ok registered
unfolding register lookup insert beq step_at
third_registers = refl

apply-IsLatest_example :
    (r : Result UpcastError Envelope) × (apply renames created ≡ some r)
    × IsLatest (steps_of (lookup (codes "note.created") renames.steps)) created r
apply-IsLatest_example = apply-IsLatest renames created
