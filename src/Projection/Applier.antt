-- ===== src/Projection/Applier.antt =====
-- core/projection/applier.go, and `ApplyChain` of engine.go: pure functions from an event to mutations.
use fabriq.Prelude.{
  ℕ, Bool, ◌&&◌, ◌||◌, List, [], ◌∷◌, ◌++◌, Option, none, some, GoString, beq, lookup, insert,
  Result, ok, err, ◌>>=◌, if◌then◌else◌, ◌==◌,
}
use fabriq.Query.Value.{Value, text, int64, pos, Row}
use fabriq.Event.Envelope.{Envelope, verb_created, verb_updated, verb_deleted}
use fabriq.Command.Prepare.{column_id, column_tenant, column_version, column_scope}
use fabriq.Projection.Mutation.{
  Mutation, node_upsert, edge_upsert, node_delete, edge_delete, doc_index, doc_deindex, rel_upsert,
  rel_delete, EdgeSpec, GraphEdgeSpec, EntitySpec, Registry,
}

-- `LastIndexByte(eventType, '.')`; `keep` is the text after the last dot so far.
unfoldable pub after_dot : GoString → GoString → GoString
after_dot keep [] = keep
after_dot keep (c ∷ s) =
    let here = after_dot s s in let there = after_dot keep s in if c == b'.' then here else there

unfoldable pub event_verb : GoString → GoString
unfolding after_dot
event_verb type = after_dot type type

pub data ApplyError : Type 0 where
  bad_payload : GoString → ApplyError
  bad_target : GoString → GoString → ApplyError
  bad_endpoints : GoString → ApplyError
  custom : GoString → ApplyError

-- What is done with an event: none of a delete, a write or any other verb.
pub data Verb : Type 0 where
  deleted written ignored : Verb

abbrev pub verb_of : GoString → Verb
verb_of v =
    if beq v verb_deleted
    then Verb.deleted
    else if beq v verb_created || beq v verb_updated
    then Verb.written
    else Verb.ignored

-- `stringProp`: "" for a key that is missing or holds no string.
abbrev pub string_or_empty : {F : Type 0} → Option (Value F) → GoString
string_or_empty (some (text s)) = s
string_or_empty _ = []

abbrev pub string_prop : {F : Type 0} → Row F → GoString → GoString
string_prop props key = string_or_empty (lookup key props)

abbrev pub copy_field : {F : Type 0} → GoString → Option (Value F) → Row F → Row F
copy_field f none out = out
copy_field f (some v) out = insert f v out

-- The loops that copy the listed fields.
unfoldable pub restrict : {F : Type 0} → List GoString → Row F → Row F
restrict [] props = []
restrict (f ∷ fs) props = copy_field f (lookup f props) (restrict fs props)

abbrev payload_error : {F : Type 0} → Result GoString (Row F) → Result ApplyError (Row F)
payload_error (ok props) = ok props
payload_error (err e) = err (bad_payload e)

abbrev pub with_scope : {F : Type 0} → GoString → Row F → Row F
with_scope scope props = if beq scope [] then props else insert column_scope (text scope) props

abbrev pub edge_of :
    {F : Type 0} → GoString → GoString → EdgeSpec → GoString → ℕ → GoString → Mutation F
edge_of node id edge to version fk =
    if beq fk []
    then edge_delete edge.rel node id version
    else edge_upsert edge.rel node id to fk version

abbrev pub target_node : Option EntitySpec → Option GoString
target_node none = none
target_node (some spec) = if beq spec.graph_node [] then none else some spec.graph_node

-- One turn of the loop over the entity's edges, before the turns that follow.
abbrev pub with_edge :
    {F : Type 0}
    → EdgeSpec
    → GoString
    → Envelope
    → Row F
    → Option GoString
    → Result ApplyError (List (Mutation F))
    → Result ApplyError (List (Mutation F))
with_edge edge node env props none others = err (bad_target edge.rel edge.target)
with_edge edge node env props (some to) others = do
  muts ← others
  ok (edge_of node env.agg_id edge to env.version (string_prop props edge.field) ∷ muts)

unfoldable pub edge_mutations :
    {F : Type 0}
    → Registry
    → GoString
    → Envelope
    → Row F
    → List EdgeSpec
    → Result ApplyError (List (Mutation F))
edge_mutations reg node env props [] = ok []
edge_mutations reg node env props (edge ∷ edges) =
    with_edge edge node env props (target_node (reg edge.target))
      (edge_mutations reg node env props edges)

abbrev pub reified_written :
    {F : Type 0} → GraphEdgeSpec → Envelope → Row F → Result ApplyError (List (Mutation F))
reified_written spec env props =
    let rel = string_prop props spec.type_field in
    let from = string_prop props spec.source_field in
    let to = string_prop props spec.target_field in
    if beq rel [] || beq from [] || beq to []
    then err (bad_endpoints env.aggregate)
    else ok (
        rel_upsert env.agg_id rel spec.source_label from spec.target_label to
          (restrict spec.prop_fields props) env.version
        ∷ [])

-- The document of a written aggregate.
unfoldable pub search_doc : {F : Type 0} → EntitySpec → Envelope → Row F → Row F
search_doc spec env props = insert column_version (int64 (pos env.version)) (
    with_scope env.scope_id (
      insert column_tenant (text env.tenant_id)
        (insert column_id (text env.agg_id) (restrict spec.search_fields props))))

module _ {F : Type 0} (unmarshal : GoString → Result GoString (Row F)) where
  -- `unmarshal` is `json.Unmarshal` into a map.
  unfoldable pub decode_payload : GoString → Result ApplyError (Row F)
  decode_payload [] = ok []
  decode_payload (c ∷ payload) = payload_error (unmarshal (c ∷ payload))

  -- `reifiedEdgeMutations`
  unfoldable pub reified_mutations :
      GraphEdgeSpec → Envelope → Verb → Result ApplyError (List (Mutation F))
  reified_mutations spec env Verb.deleted = ok (rel_delete env.agg_id env.version ∷ [])
  reified_mutations spec env Verb.written = decode_payload env.payload >>= reified_written spec env
  reified_mutations spec env Verb.ignored = ok []

  -- The body of `GraphApplier` for an entity with a graph node.
  unfoldable pub node_mutations :
      Registry → EntitySpec → Envelope → Verb → Result ApplyError (List (Mutation F))
  node_mutations reg spec env Verb.deleted = ok (node_delete spec.graph_node env.agg_id ∷ [])
  node_mutations reg spec env Verb.written = do
    decoded ← decode_payload env.payload
    edges ← edge_mutations reg spec.graph_node env (with_scope env.scope_id decoded) spec.edges
    ok (
        node_upsert spec.graph_node env.agg_id (with_scope env.scope_id decoded) env.version
        ∷ edges)
  node_mutations reg spec env Verb.ignored = ok []

  abbrev pub graph_by_edge :
      Registry
      → EntitySpec
      → Envelope
      → Option GraphEdgeSpec
      → Result ApplyError (List (Mutation F))
  graph_by_edge reg spec env (some edge) =
      reified_mutations edge env (verb_of (event_verb env.type))
  graph_by_edge reg spec env none =
      if beq spec.graph_node []
      then ok []
      else node_mutations reg spec env (verb_of (event_verb env.type))

  unfoldable pub graph_entity :
      Registry → Option EntitySpec → Envelope → Result ApplyError (List (Mutation F))
  unfolding event_verb
  graph_entity reg none env = ok []
  graph_entity reg (some spec) env = graph_by_edge reg spec env spec.graph_edge

  -- `GraphApplier`
  unfoldable pub graph_applier : Registry → Envelope → Result ApplyError (List (Mutation F))
  graph_applier reg env = graph_entity reg (reg env.aggregate) env

  unfoldable pub search_mutations :
      EntitySpec → Envelope → Verb → Result ApplyError (List (Mutation F))
  search_mutations spec env Verb.deleted =
      ok (doc_deindex spec.search_index env.agg_id env.version ∷ [])
  search_mutations spec env Verb.written = do
    props ← decode_payload env.payload
    ok (doc_index spec.search_index env.agg_id (search_doc spec env props) env.version ∷ [])
  search_mutations spec env Verb.ignored = ok []

  unfoldable pub search_entity :
      Option EntitySpec → Envelope → Result ApplyError (List (Mutation F))
  unfolding event_verb
  search_entity none env = ok []
  search_entity (some spec) env =
      if beq spec.search_index []
      then ok []
      else search_mutations spec env (verb_of (event_verb env.type))

  -- `SearchApplier`
  unfoldable pub search_applier : Registry → Envelope → Result ApplyError (List (Mutation F))
  search_applier reg env = search_entity (reg env.aggregate) env

pub record CustomApplier (F : Type 0) : Type 0 where
  pub target : GoString
  pub entity : GoString
  pub applier : Envelope → Result ApplyError (List (Mutation F))

abbrev pub matches : GoString → GoString → Bool
matches want have = beq want [] || beq want have

unfoldable pub run_custom :
    {F : Type 0}
    → List (CustomApplier F)
    → GoString
    → Envelope
    → Result ApplyError (List (Mutation F))
run_custom [] projection env = ok []
run_custom (c ∷ cs) projection env =
    let rest = run_custom cs projection env in
    if matches c.target projection && matches c.entity env.aggregate
    then (do extra ← c.applier env; others ← rest; ok (extra ++ others))
    else rest

-- `ApplyChain`
unfoldable pub apply_chain :
    {F : Type 0}
    → (Envelope → Result ApplyError (List (Mutation F)))
    → List (CustomApplier F)
    → GoString
    → Envelope
    → Result ApplyError (List (Mutation F))
apply_chain builtin cs projection env = do
  muts ← builtin env
  extra ← run_custom cs projection env
  ok (muts ++ extra)
