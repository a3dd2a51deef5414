-- ===== src/Subscribe/Channel/Isolation.antt =====
-- core/subscribe/channel.go: a subscription never shares a channel with another tenant's changes.
use mathlib.Core.Path.{subst}
use fabriq.Prelude.{
  ◌≡◌, refl, sym, ◌∙◌, ◌⊎◌, inl, inr, Bool, true, false, ◌&&◌, List, [], ◌∷◌, ◌++◌, Option, none,
  some, GoString, codes, arith, Bool-cases, beq, lookup, all, length, leb, Result, ok,
  if◌then◌else◌,
}
use fabriq.Query.Value.{Row}
use fabriq.Event.Envelope.{Envelope}
use fabriq.Command.Model.{Context, from_context, id_byte, valid}
use fabriq.Subscribe.Channel.{
  Scope, by_id, by_tenant, same_scope, channel_name, SubscribeScope, ChannelError, Registry,
  resolve_scope, resolve_scopes, resolve_entity, resolve_for, resolve_channel, text_or_empty,
  scope_channels, all_channels, payload_of, decoded_channels, entity_channels,
  channels_for_envelope,
}

abbrev pub In : GoString → List GoString → Type 0
In c [] = ⊥
In c (x ∷ xs) = (c ≡ x) ⊎ In c xs

In-append : (c : GoString) (xs ys : List GoString) → In c (xs ++ ys) → In c xs ⊎ In c ys
In-append c [] ys h = inr h
In-append c (x ∷ xs) ys (inl e) = inl (inl e)
In-append c (x ∷ xs) ys (inr h) = elim (In-append c xs ys h) [ inl a ↦ inl (inr a) | inr b ↦ inr b ]

ok_eq :
    (xs ys : List GoString)
    → ◌≡◌ {A = Result ChannelError (List GoString)} (ok ys) (ok xs)
    → xs ≡ ys
ok_eq xs ys h = cc

-- A channel of the tenant.
abbrev Owned : GoString → GoString → Type 0
Owned tenant c = (s : Scope) × (id : GoString) × (c ≡ channel_name tenant s id)

resolve_scope-Owned :
    (tenant : GoString) (req : SubscribeScope) (s : Scope) (c : GoString)
    → resolve_scope tenant req s ≡ ok c
    → Owned tenant c
resolve_scope-Owned tenant req s c h = elim (Bool-cases (same_scope s by_tenant)) [
  | inl b ↦ (s, tenant, ground (arith, h, b))
  | inr b ↦ (s, req.id, ground (arith, h, b))
]

resolve_scopes-Owned :
    (tenant : GoString) (req : SubscribeScope) (ss : List Scope) (c : GoString)
    → resolve_scopes tenant req ss ≡ ok c
    → Owned tenant c
unfolding resolve_scopes
resolve_scopes-Owned tenant req [] c h = absurd (ground arith)
resolve_scopes-Owned tenant req (s ∷ ss) c h = elim (Bool-cases (beq s.name req.scope)) [
  | inl b ↦ resolve_scope-Owned tenant req s c (ground (arith, h, b))
  | inr b ↦ resolve_scopes-Owned tenant req ss c (ground (arith, h, b))
]

resolve_channel-Owned :
    (ctx : Context) (reg : Registry) (req : SubscribeScope) (tenant c : GoString)
    → from_context ctx ≡ some tenant
    → resolve_channel ctx reg req ≡ ok c
    → Owned tenant c
unfolding resolve_channel
resolve_channel-Owned ctx reg req tenant c t h =
    by_entity (reg req.entity) (subst (λ o. resolve_for reg req o ≡ ok c) t h)
  where
    by_entity : (o : Option (List Scope)) → resolve_entity tenant req o ≡ ok c → Owned tenant c
    by_entity none k = absurd (ground arith)
    by_entity (some ss) k = resolve_scopes-Owned tenant req ss c k

In-if :
    {P : Type 0} (c : GoString) (b : Bool) (xs ys : List GoString)
    → (In c xs → P)
    → (In c ys → P)
    → In c (if b then xs else ys)
    → P
In-if c true xs ys f g h = f h
In-if c false xs ys f g h = g h

In-one : (c x : GoString) → In c (x ∷ []) → c ≡ x
In-one c x (inl e) = e
In-one c x (inr h) = elim h [ ]

scope_channels-Owned :
    {F : Type 0} (env : Envelope) (payload : Row F) (s : Scope) (c : GoString)
    → In c (scope_channels env payload s)
    → Owned env.tenant_id c
scope_channels-Owned env payload s c h =
    In-if c (same_scope s by_id) (channel_name env.tenant_id s env.agg_id ∷ []) _ (owned env.agg_id)
      (In-if c (same_scope s by_tenant) (channel_name env.tenant_id s env.tenant_id ∷ []) _
        (owned env.tenant_id)
        (In-if c (beq (text_or_empty (lookup s.field payload)) []) [] _ (λ x. elim x [ ])
          (owned (text_or_empty (lookup s.field payload)))))
      h
  where
    owned : (id : GoString) → In c (channel_name env.tenant_id s id ∷ []) → Owned env.tenant_id c
    owned id k = (s, id, In-one c (channel_name env.tenant_id s id) k)

all_channels-Owned :
    {F : Type 0} (env : Envelope) (payload : Row F) (ss : List Scope) (c : GoString)
    → In c (all_channels env payload ss)
    → Owned env.tenant_id c
unfolding all_channels
all_channels-Owned env payload [] c h = elim h [ ]
all_channels-Owned env payload (s ∷ ss) c h =
    elim (In-append c (scope_channels env payload s) (all_channels env payload ss) h) [
      | inl a ↦ scope_channels-Owned env payload s c a
      | inr b ↦ all_channels-Owned env payload ss c b
    ]

and_left : (a b : Bool) → (a && b) ≡ true → a ≡ true
and_left true b h = refl
and_left false b h = absurd (ground arith)

and_right : (a b : Bool) → (a && b) ≡ true → b ≡ true
and_right true b h = h
and_right false b h = absurd (ground arith)

-- Up to the first colon, ids are read back.
colon_free :
    (a b x y : GoString)
    → all id_byte a ≡ true
    → all id_byte b ≡ true
    → a ++ (codes ":" ++ x) ≡ b ++ (codes ":" ++ y)
    → a ≡ b
colon_free [] [] x y p q h = refl
colon_free [] (c ∷ b) x y p q h = absurd (ground arith)
colon_free (c ∷ a) [] x y p q h = absurd (ground arith)
colon_free (c ∷ a) (d ∷ b) x y p q h = cc (
  h,
  colon_free a b x y (and_right (id_byte c) (all id_byte a) p)
      (and_right (id_byte d) (all id_byte b) q) (cc),
)

id_bytes : (t : GoString) → valid t ≡ true → all id_byte t ≡ true
unfolding valid
id_bytes t h = and_right (leb 1 (length t) && leb (length t) 64) (all id_byte t) h

channel_name-tenant :
    (a b : GoString) (s u : Scope) (x y : GoString)
    → valid a ≡ true
    → valid b ≡ true
    → channel_name a s x ≡ channel_name b u y
    → a ≡ b
unfolding channel_name
channel_name-tenant a b s u x y p q h =
    colon_free a b (s.name ++ (codes ":" ++ x)) (u.name ++ (codes ":" ++ y)) (id_bytes a p)
      (id_bytes b q) (cc)

channels_for_envelope-Owned :
    {F : Type 0} (decode : GoString → Option (Row F)) (reg : Registry) (env : Envelope)
    (c : GoString) (cs : List GoString)
    → channels_for_envelope decode reg env ≡ ok cs
    → In c cs
    → Owned env.tenant_id c
unfolding channels_for_envelope
channels_for_envelope-Owned {F} decode reg env c cs h i = by_entity (reg env.aggregate) h
  where
    by_payload :
        (ss : List Scope) (o : Option (Row F))
        → decoded_channels env ss o ≡ ok cs
        → Owned env.tenant_id c
    by_payload ss none k = absurd (ground arith)
    by_payload ss (some payload) k =
        all_channels-Owned env payload ss c
          (subst (In c) (ok_eq cs (all_channels env payload ss) k) i)

    by_entity :
        (o : Option (List Scope)) → entity_channels decode env o ≡ ok cs → Owned env.tenant_id c
    by_entity none k = absurd (subst (In c) (ok_eq cs [] k) i)
    by_entity (some ss) k = by_payload ss (payload_of decode env.payload) k

-- If a change is published on the channel that a subscription was given, then it is a change of the
-- tenant whose context made the subscription, provided that both tenant ids are valid.
pub resolve_channel-isolated :
    {F : Type 0} (decode : GoString → Option (Row F)) (reg : Registry) (ctx : Context)
    (req : SubscribeScope) (env : Envelope) (tenant c : GoString) (cs : List GoString)
    → from_context ctx ≡ some tenant
    → valid tenant ≡ true
    → valid env.tenant_id ≡ true
    → resolve_channel ctx reg req ≡ ok c
    → channels_for_envelope decode reg env ≡ ok cs
    → In c cs
    → env.tenant_id ≡ tenant
resolve_channel-isolated decode reg ctx req env tenant c cs t p q h k i =
    let (s, x, e) = channels_for_envelope-Owned decode reg env c cs k i in
    let (u, y, f) = resolve_channel-Owned ctx reg req tenant c t h in
    channel_name-tenant env.tenant_id tenant s u x y q p (sym e ∙ f)
