-- ===== src/Command/Admit.antt =====
-- core/command/validate.go: the commands that `prepare` lets through.
use fabriq.Prelude.{
  ◌≡◌, refl, ◌⊎◌, inl, inr, Bool, false, List, [], ◌∷◌, Option, none, some, GoString, beq, beq_iff,
  lookup, arith, Result, ok, err, ◌>>=◌, get-ok, Bool-cases,
}
use fabriq.Query.Value.{Value, null, text, Row}
use fabriq.Command.Model.{
  Context, from_context, scope_or_empty, Kind, Op, create, update, delete, upsert, unknown, Entity,
  Command, CommandError, no_tenant, unknown_entity, binding,
}
use fabriq.Command.Prepare.{
  Prepared, prepare, resolve_id, check_tenant, check_required, validate_required, check_values,
  payload_values, check_kind, column_tenant, with_error, or_error,
}

abbrev pub IsPresent : {F : Type 0} → Option (Value F) → Type 0
IsPresent none = ⊥
IsPresent (some null) = ⊥
IsPresent (some (text s)) = beq s [] ≡ false
IsPresent (some _) = Unit

abbrev pub AllPresent : {F : Type 0} → List GoString → Row F → Type 0
AllPresent [] vals = Unit
AllPresent (col ∷ cols) vals = IsPresent (lookup col vals) × AllPresent cols vals

-- No tenant, or this one.
abbrev pub IsOurs : {F : Type 0} → GoString → Option (Value F) → Type 0
IsOurs tenant (some (text v)) = (v ≡ []) ⊎ (v ≡ tenant)
IsOurs tenant _ = Unit

check_tenant-IsOurs :
    {F : Type 0} (tenant : GoString) (o : Option (Value F)) (u : Unit {0})
    → check_tenant tenant o ≡ ok u
    → IsOurs tenant o
unfolding check_tenant
check_tenant-IsOurs tenant none u h = tt
check_tenant-IsOurs tenant (some (text v)) u h = elim (Bool-cases (beq v [])) [
  | inl e ↦ inl (ground (arith, beq_iff v []))
  | inr n ↦ elim (Bool-cases (beq v tenant)) [
    | inl e ↦ inr (ground (arith, beq_iff v tenant))
    | inr m ↦ absurd (ground arith)
  ]
]
check_tenant-IsOurs tenant (some null) u h = tt
check_tenant-IsOurs tenant (some (Value.bool b)) u h = tt
check_tenant-IsOurs tenant (some (Value.int z)) u h = tt
check_tenant-IsOurs tenant (some (Value.int32 z)) u h = tt
check_tenant-IsOurs tenant (some (Value.int64 z)) u h = tt
check_tenant-IsOurs tenant (some (Value.float32 z)) u h = tt
check_tenant-IsOurs tenant (some (Value.float64 z)) u h = tt
check_tenant-IsOurs tenant (some (Value.time z)) u h = tt

check_required-IsPresent :
    {F : Type 0} (name col : GoString) (o : Option (Value F)) (u : Unit {0})
    → check_required name col o ≡ ok u
    → IsPresent o
check_required-IsPresent name col none u h = absurd (ground arith)
check_required-IsPresent name col (some null) u h = absurd (ground arith)
check_required-IsPresent name col (some (text s)) u h = ground arith
check_required-IsPresent name col (some (Value.bool b)) u h = tt
check_required-IsPresent name col (some (Value.int z)) u h = tt
check_required-IsPresent name col (some (Value.int32 z)) u h = tt
check_required-IsPresent name col (some (Value.int64 z)) u h = tt
check_required-IsPresent name col (some (Value.float32 z)) u h = tt
check_required-IsPresent name col (some (Value.float64 z)) u h = tt
check_required-IsPresent name col (some (Value.time z)) u h = tt

validate_required-AllPresent :
    {F : Type 0} (name : GoString) (cols : List GoString) (vals : Row F) (u : Unit {0})
    → validate_required name cols vals ≡ ok u
    → AllPresent cols vals
unfolding validate_required
validate_required-AllPresent name [] vals u h = tt
validate_required-AllPresent name (col ∷ cols) vals u h =
    let (w, e) = get-ok (check_required name col (lookup col vals)) (λ e q. ground arith) in
    (
      check_required-IsPresent name col (lookup col vals) w e,
      validate_required-AllPresent name cols vals u (ground arith),
    )

-- What the checks of a payload leave of it.
abbrev pub Checked : {F P : Type 0} → Entity F P → GoString → P → Type 0
Checked {F} ent tenant payload =
    (vals : Row F) × (ent.values payload ≡ ok vals)
    × IsOurs tenant (lookup column_tenant vals)
    × AllPresent ent.required vals

with_error-ok :
    {A : Type 0} (f : GoString → CommandError) (r : Result GoString A) (a : A)
    → with_error f r ≡ ok a
    → r ≡ ok a
with_error-ok f (ok b) a h = ground arith
with_error-ok f (err e) a h = absurd (ground arith)

check_values-Checked :
    {F P : Type 0} (ent : Entity F P) (tenant : GoString) (skip : Bool) (payload : P) (out : Row F)
    → check_values ent tenant skip payload ≡ ok out
    → Checked ent tenant payload
unfolding check_values
check_values-Checked ent tenant skip payload out h =
    let (vals, e1) = get-ok (with_error binding (ent.values payload)) (λ e q. ground arith) in
    let (u, e2) = get-ok (check_tenant tenant (lookup column_tenant vals)) (λ e q. ground arith) in
    let (w, e3) = get-ok (validate_required ent.name ent.required vals) (λ e q. ground arith) in
    (
      vals,
      with_error-ok binding (ent.values payload) vals e1,
      check_tenant-IsOurs tenant (lookup column_tenant vals) u e2,
      validate_required-AllPresent ent.name ent.required vals w e3,
    )

-- The payload that an op must have, or must not have.
abbrev pub PayloadFits : {F P : Type 0} → Entity F P → GoString → Op → Option P → Type 0
PayloadFits ent tenant delete none = Unit
PayloadFits ent tenant delete (some payload) = ⊥
PayloadFits ent tenant _ none = ⊥
PayloadFits ent tenant _ (some payload) = Checked ent tenant payload

some_payload :
    {F P : Type 0} (ent : Entity F P) (tenant : GoString) (skip : Bool) (payload : P)
    (vals : Option (Row F))
    → (check_values ent tenant skip payload >>= λ out. ok (some out)) ≡ ok vals
    → Checked ent tenant payload
some_payload ent tenant skip payload vals h =
    let (out, e) = get-ok (check_values ent tenant skip payload) (λ e q. ground arith) in
    check_values-Checked ent tenant skip payload out e

payload_values-PayloadFits :
    {F P : Type 0} (ent : Entity F P) (tenant : GoString) (skip : Bool) (op : Op) (o : Option P)
    (vals : Option (Row F))
    → payload_values ent tenant skip op o ≡ ok vals
    → PayloadFits ent tenant op o
unfolding payload_values
payload_values-PayloadFits ent tenant skip delete none vals h = tt
payload_values-PayloadFits ent tenant skip delete (some payload) vals h = absurd (ground arith)
payload_values-PayloadFits ent tenant skip create none vals h = absurd (ground arith)
payload_values-PayloadFits ent tenant skip update none vals h = absurd (ground arith)
payload_values-PayloadFits ent tenant skip upsert none vals h = absurd (ground arith)
payload_values-PayloadFits ent tenant skip (unknown n) none vals h = absurd (ground arith)
payload_values-PayloadFits ent tenant skip create (some payload) vals h =
    some_payload ent tenant skip payload vals h
payload_values-PayloadFits ent tenant skip update (some payload) vals h =
    some_payload ent tenant skip payload vals h
payload_values-PayloadFits ent tenant skip upsert (some payload) vals h =
    some_payload ent tenant skip payload vals h
payload_values-PayloadFits ent tenant skip (unknown n) (some payload) vals h =
    some_payload ent tenant skip payload vals h

pub record IsPrepared {F P : Type 0} (reg : GoString → Option (Entity F P)) (ctx : Context)
    (fresh : GoString) (cmd : Command P) (p : Prepared F P) : Type 0 where
  pub command : p.cmd ≡ cmd
  pub tenant : from_context ctx ≡ some p.tenant_id
  pub entity : reg cmd.entity ≡ some p.entity
  pub aggregate : p.entity.kind ≡ Kind.aggregate
  pub identified : beq fresh [] ≡ false → beq p.agg_id [] ≡ false
  pub payload : PayloadFits p.entity p.tenant_id cmd.op cmd.payload

or_error-ok :
    {A : Type 0} (e : CommandError) (o : Option A) (a : A) → or_error e o ≡ ok a → o ≡ some a
or_error-ok e none a h = absurd (ground arith)
or_error-ok e (some b) a h = ground arith

check_kind-aggregate :
    (k : Kind) (name : GoString) (u : Unit {0}) → check_kind k name ≡ ok u → k ≡ Kind.aggregate
check_kind-aggregate Kind.aggregate name u h = refl
check_kind-aggregate Kind.document name u h = absurd (ground arith)

resolve_id-identified :
    (fresh : GoString) (op : Op) (id out : GoString)
    → resolve_id fresh op id ≡ ok out
    → beq fresh [] ≡ false
    → beq out [] ≡ false
unfolding resolve_id
resolve_id-identified fresh create id out h n = elim (Bool-cases (beq id [])) [
  | inl e ↦ ground arith
  | inr m ↦ ground arith
]
resolve_id-identified fresh update id out h n = ground arith
resolve_id-identified fresh delete id out h n = ground arith
resolve_id-identified fresh upsert id out h n = ground arith
resolve_id-identified fresh (unknown m) id out h n = absurd (ground arith)

module _ {F P : Type 0} (reg : GoString → Option (Entity F P)) (ctx : Context) (fresh : GoString)
    (cmd : Command P) where
  -- A command that `prepare` lets through runs under the tenant of its context, on a registered
  -- aggregate, with an id that is not empty (when minted ids are not). A delete has no payload; any
  -- other command has one, whose tenant is blank or that of the context, and whose required columns
  -- are all there and no empty string.
  pub prepare-IsPrepared :
      (p : Prepared F P) → prepare reg ctx fresh cmd ≡ ok p → IsPrepared reg ctx fresh cmd p
  unfolding prepare
  prepare-IsPrepared p h =
      let (tenant, e1) = get-ok (or_error no_tenant (from_context ctx)) (λ e q. ground arith) in
      let (ent, e2) =
        get-ok (or_error (unknown_entity cmd.entity) (reg cmd.entity)) (λ e q. ground arith) in
      let (u, e3) = get-ok (check_kind ent.kind cmd.entity) (λ e q. ground arith) in
      let (id, e4) = get-ok (resolve_id fresh cmd.op cmd.agg_id) (λ e q. ground arith) in
      let (vals, e5) =
        get-ok (payload_values ent tenant cmd.skip_type_check cmd.op cmd.payload)
          (λ e q. ground arith) in
      let p_eq : p ≡ record {
        cmd = cmd;
        entity = ent;
        tenant_id = tenant;
        scope_id = scope_or_empty ctx;
        agg_id = id;
        vals = vals;
      } =
        ground arith in
      rw p_eq (record {
        command = refl;
        tenant = or_error-ok no_tenant (from_context ctx) tenant e1;
        entity = or_error-ok (unknown_entity cmd.entity) (reg cmd.entity) ent e2;
        aggregate = check_kind-aggregate ent.kind cmd.entity u e3;
        identified = resolve_id-identified fresh cmd.op cmd.agg_id id e4;
        payload =
            payload_values-PayloadFits ent tenant cmd.skip_type_check cmd.op cmd.payload vals e5;
      })
