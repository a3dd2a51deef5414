-- ===== src/Subscribe/Channel.antt =====
-- core/subscribe/channel.go, authz.go and the channel names of core/registry/derive.go: which channel
-- a subscription is given, and which channels a change is published on.

pub mod Isolation
use fabriq.Prelude.{
  Bool, true, false, ◌&&◌, List, [], ◌∷◌, ◌++◌, Option, none, some, GoString, codes, beq, lookup,
  Result, ok, err, if◌then◌else◌,
}
use fabriq.Query.Value.{Value, text, Row}
use fabriq.Event.Envelope.{Envelope}
use fabriq.Command.Model.{Context, from_context}

pub record Scope : Type 0 where
  pub name : GoString
  pub field : GoString

abbrev pub by_id : Scope
by_id = record { name = codes "id"; field = [] }

abbrev pub by_tenant : Scope
by_tenant = record { name = codes "tenant"; field = [] }

unfoldable pub by_field : GoString → GoString → Scope
by_field name field = record { name = name; field = field }

-- `==` on scopes.
abbrev pub same_scope : Scope → Scope → Bool
same_scope a b = beq a.name b.name && beq a.field b.field

-- `ChannelName`: "changes:{tenant}:{scope}:{id}".
unfoldable pub channel_name : GoString → Scope → GoString → GoString
channel_name tenant scope id =
    codes "changes:" ++ (tenant ++ (codes ":" ++ (scope.name ++ (codes ":" ++ id))))

unfoldable pub doc_channel_name : GoString → GoString → GoString
doc_channel_name tenant doc = codes "doc:" ++ (tenant ++ (codes ":" ++ doc))

unfoldable pub doc_presence_channel_name : GoString → GoString → GoString
doc_presence_channel_name tenant doc = codes "docpresence:" ++ (tenant ++ (codes ":" ++ doc))

pub record SubscribeScope : Type 0 where
  pub entity : GoString
  pub scope : GoString
  pub id : GoString

pub data ChannelError : Type 0 where
  no_tenant denied : ChannelError
  unknown_entity requires_id undeclared_scope bad_payload : GoString → ChannelError

-- The registry by what is read of it here: the declared scopes of an entity.
abbrev pub Registry : Type 0
Registry = GoString → Option (List Scope)

abbrev pub resolve_scope : GoString → SubscribeScope → Scope → Result ChannelError GoString
resolve_scope tenant req s =
    if same_scope s by_tenant
    then ok (channel_name tenant s tenant)
    else if beq req.id []
    then err (requires_id req.scope)
    else ok (channel_name tenant s req.id)

-- The loop over the declared scopes: the first of the requested name decides.
unfoldable pub resolve_scopes :
    GoString → SubscribeScope → List Scope → Result ChannelError GoString
resolve_scopes tenant req [] = err (undeclared_scope req.scope)
resolve_scopes tenant req (s ∷ ss) =
    let rest = resolve_scopes tenant req ss in
    if beq s.name req.scope then resolve_scope tenant req s else rest

abbrev pub resolve_entity :
    GoString → SubscribeScope → Option (List Scope) → Result ChannelError GoString
resolve_entity tenant req none = err (unknown_entity req.entity)
resolve_entity tenant req (some ss) = resolve_scopes tenant req ss

abbrev pub resolve_for : Registry → SubscribeScope → Option GoString → Result ChannelError GoString
resolve_for reg req none = err no_tenant
resolve_for reg req (some tenant) = resolve_entity tenant req (reg req.entity)

unfoldable pub resolve_channel : Context → Registry → SubscribeScope → Result ChannelError GoString
unfolding resolve_scopes
resolve_channel ctx reg req = resolve_for reg req (from_context ctx)

-- `Gate.Resolve`; `authz` says whether the hook lets the request pass.
unfoldable pub gate_resolve :
    (Context → SubscribeScope → Bool)
    → Context
    → Registry
    → SubscribeScope
    → Result ChannelError GoString
unfolding resolve_channel
gate_resolve authz ctx reg req = if authz ctx req then resolve_channel ctx reg req else err denied

-- `payload[s.Field].(string)`, and the empty text where that is none.
abbrev pub text_or_empty : {F : Type 0} → Option (Value F) → GoString
text_or_empty (some (text s)) = s
text_or_empty _ = []

abbrev pub field_channel : GoString → Scope → GoString → List GoString
field_channel tenant s id = if beq id [] then [] else channel_name tenant s id ∷ []

-- The body of the loop over the scopes.
abbrev pub scope_channels : {F : Type 0} → Envelope → Row F → Scope → List GoString
scope_channels env payload s =
    if same_scope s by_id
    then channel_name env.tenant_id s env.agg_id ∷ []
    else if same_scope s by_tenant
    then channel_name env.tenant_id s env.tenant_id ∷ []
    else field_channel env.tenant_id s (text_or_empty (lookup s.field payload))

unfoldable pub all_channels : {F : Type 0} → Envelope → Row F → List Scope → List GoString
unfolding lookup
all_channels env payload [] = []
all_channels env payload (s ∷ ss) = scope_channels env payload s ++ all_channels env payload ss

abbrev pub decoded_channels :
    {F : Type 0} → Envelope → List Scope → Option (Row F) → Result ChannelError (List GoString)
decoded_channels env ss none = err (bad_payload env.id)
decoded_channels env ss (some payload) = ok (all_channels env payload ss)

-- `decode` is `json.Unmarshal` into a map; an empty payload is the nil map.
abbrev pub payload_of : {F : Type 0} → (GoString → Option (Row F)) → GoString → Option (Row F)
payload_of decode payload = if beq payload [] then some [] else decode payload

abbrev pub entity_channels :
    {F : Type 0}
    → (GoString → Option (Row F))
    → Envelope
    → Option (List Scope)
    → Result ChannelError (List GoString)
entity_channels decode env none = ok []
entity_channels decode env (some ss) = decoded_channels env ss (payload_of decode env.payload)

unfoldable pub channels_for_envelope :
    {F : Type 0}
    → (GoString → Option (Row F))
    → Registry
    → Envelope
    → Result ChannelError (List GoString)
unfolding all_channels
channels_for_envelope decode reg env = entity_channels decode env (reg env.aggregate)
