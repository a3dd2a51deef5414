-- ===== src/Event/Upcast.antt =====
-- core/event/upcast.go: payload migrations, one step per schema version.
use fabriq.Prelude.{
  ℕ, zero, suc, ◌+◌, max, ◌||◌, List, [], ◌∷◌, Option, none, some, GoString, beq, Assoc, lookup,
  insert, Result, ok, err, ltb, ◌==◌, if◌then◌else◌,
}
use fabriq.Event.Envelope.{Envelope}

-- A migration of the payload; the error is its text.
abbrev pub Migration : Type 0
Migration = GoString → Result GoString GoString

-- `fn` is nil or a migration.
pub record Upcaster : Type 0 where
  pub type : GoString
  pub from_version : ℕ
  pub fn : Option Migration

-- fromVersion -> migration
abbrev pub Steps : Type 0
Steps = List (ℕ × Migration)

unfoldable pub step_at : ℕ → Steps → Option Migration
step_at v [] = none
step_at v ((u, m) ∷ steps) = if u == v then some m else step_at v steps

-- type -> fromVersion -> migration
pub record UpcasterChain : Type 0 where
  pub steps : Assoc Steps

unfoldable pub new_upcaster_chain : UpcasterChain
new_upcaster_chain = record { steps = [] }

pub data RegisterError : Type 0 where
  bad_key : GoString → ℕ → RegisterError
  nil_fn duplicate : GoString → ℕ → RegisterError

abbrev pub steps_of : Option Steps → Steps
steps_of none = []
steps_of (some s) = s

-- The last two tests of `Register`, on a migration that is not nil.
unfoldable pub register_fn :
    UpcasterChain → GoString → ℕ → Migration → Result RegisterError UpcasterChain
register_fn c type v m =
    let by_version = steps_of (lookup type c.steps) in
    elim (step_at v by_version) [
      | some dup ↦ err (duplicate type v)
      | none ↦ ok (record { steps = insert type ((v, m) ∷ by_version) c.steps })
    ]

unfoldable pub register : UpcasterChain → Upcaster → Result RegisterError UpcasterChain
unfolding register_fn
register c u =
    if beq u.type [] || ltb u.from_version 1
    then err (bad_key u.type u.from_version)
    else elim u.fn [
      | none ↦ err (nil_fn u.type u.from_version)
      | some m ↦ register_fn c u.type u.from_version m
    ]

pub record UpcastError : Type 0 where
  pub type : GoString
  pub version : ℕ
  pub cause : GoString

abbrev pub migrated : Envelope → GoString → Envelope
migrated env payload = record env {
  payload = payload;
  payload_schema_version = env.payload_schema_version + 1;
}

-- The two returns of the loop's body, and its last lines; `again` is the next round.
abbrev pub after_migration :
    Result GoString GoString
    → Envelope
    → (Envelope → Option (Result UpcastError Envelope))
    → Option (Result UpcastError Envelope)
after_migration (err e) env again =
    some (err (record { type = env.type; version = env.payload_schema_version; cause = e }))
after_migration (ok payload) env again = again (migrated env payload)

abbrev pub apply_step :
    Option Migration
    → Envelope
    → (Envelope → Option (Result UpcastError Envelope))
    → Option (Result UpcastError Envelope)
apply_step none env again = some (ok env)
apply_step (some m) env again = after_migration (m env.payload) env again

-- The loop of `Apply` on fuel; `none` means that the fuel ran out.
unfoldable pub apply_loop : ℕ → Steps → Envelope → Option (Result UpcastError Envelope)
apply_loop zero steps env = none
apply_loop (suc fuel) steps env =
    apply_step (step_at env.payload_schema_version steps) env (λ env'. apply_loop fuel steps env')

-- One more than any version that a step starts from: past it the loop stops.
abbrev pub ceiling : Steps → ℕ
ceiling [] = 0
ceiling ((v, m) ∷ steps) = max (suc v) (ceiling steps)

unfoldable pub apply : UpcasterChain → Envelope → Option (Result UpcastError Envelope)
unfolding apply_loop
apply c env =
    let steps = steps_of (lookup env.type c.steps) in apply_loop (suc (ceiling steps)) steps env
