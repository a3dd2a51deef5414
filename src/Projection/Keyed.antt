-- ===== src/Projection/Keyed.antt =====
-- core/projection/applier.go: the keys and versions of the mutations.
use fabriq.Prelude.{
  ◌≡◌, refl, inl, inr, ◌||◌, List, [], ◌∷◌, Option, none, some, GoString, beq, Result, ok, err,
  ◌>>=◌, Bool-cases, Option-cases,
}
use fabriq.Query.Value.{Row}
use fabriq.Event.Envelope.{Envelope}
use fabriq.Projection.Mutation.{
  Mutation, node_upsert, edge_upsert, node_delete, edge_delete, doc_index, doc_deindex, rel_upsert,
  rel_delete, EdgeSpec, GraphEdgeSpec, EntitySpec, Registry,
}
use fabriq.Projection.Applier.{
  ApplyError, Verb, verb_of, event_verb, string_prop, decode_payload, with_scope, edge_of,
  target_node, edge_mutations, reified_written, reified_mutations, node_mutations, graph_by_edge,
  graph_entity, graph_applier, search_doc, search_mutations, search_entity, search_applier,
}

-- The mutation is addressed to the event's aggregate and carries the event's version; a `NodeDelete` has
-- no version.
abbrev pub IsKeyed : {F : Type 0} → Envelope → Mutation F → Type 0
IsKeyed env (node_upsert l id props v) = (id ≡ env.agg_id) × (v ≡ env.version)
IsKeyed env (edge_upsert r fl id tl to v) = (id ≡ env.agg_id) × (v ≡ env.version)
IsKeyed env (node_delete l id) = id ≡ env.agg_id
IsKeyed env (edge_delete r fl id v) = (id ≡ env.agg_id) × (v ≡ env.version)
IsKeyed env (doc_index i id doc v) = (id ≡ env.agg_id) × (v ≡ env.version)
IsKeyed env (doc_deindex i id v) = (id ≡ env.agg_id) × (v ≡ env.version)
IsKeyed env (rel_upsert id t fl from tl to props v) = (id ≡ env.agg_id) × (v ≡ env.version)
IsKeyed env (rel_delete id v) = (id ≡ env.agg_id) × (v ≡ env.version)

abbrev pub AllKeyed : {F : Type 0} → Envelope → List (Mutation F) → Type 0
AllKeyed env [] = Unit
AllKeyed env (m ∷ ms) = IsKeyed env m × AllKeyed env ms

abbrev pub OkKeyed : {F : Type 0} → Envelope → Result ApplyError (List (Mutation F)) → Type 0
OkKeyed env (ok muts) = AllKeyed env muts
OkKeyed env (err e) = Unit

OkKeyed-cons :
    {F : Type 0} (env : Envelope) (m : Mutation F) (r : Result ApplyError (List (Mutation F)))
    → IsKeyed env m
    → OkKeyed env r
    → OkKeyed env (r >>= λ ms. ok (m ∷ ms))
OkKeyed-cons env m (ok ms) k ks = (k, ks)
OkKeyed-cons env m (err e) k ks = tt

OkKeyed->>= :
    {F A : Type 0} (env : Envelope) (r : Result ApplyError A)
    (f : A → Result ApplyError (List (Mutation F)))
    → ((a : A) → OkKeyed env (f a))
    → OkKeyed env (r >>= f)
OkKeyed->>= env (ok a) f h = h a
OkKeyed->>= env (err e) f h = tt

module _ {F : Type 0} (unmarshal : GoString → Result GoString (Row F)) (env : Envelope) where
  edge_of-IsKeyed :
      (node to fk : GoString) (edge : EdgeSpec)
      → IsKeyed {F = F} env (edge_of node env.agg_id edge to env.version fk)
  edge_of-IsKeyed node to fk edge = elim (Bool-cases (beq fk [])) [
    | inl e ↦ rw e (refl, refl)
    | inr n ↦ rw n (refl, refl)
  ]

  edge_mutations-OkKeyed :
      (reg : Registry) (node : GoString) (props : Row F) (edges : List EdgeSpec)
      → OkKeyed env (edge_mutations reg node env props edges)
  unfolding edge_mutations
  edge_mutations-OkKeyed reg node props [] = tt
  edge_mutations-OkKeyed reg node props (edge ∷ edges) =
      elim (Option-cases (target_node (reg edge.target))) [
        | inl n ↦ rw n tt
        | inr (to, s) ↦ rw s (
            OkKeyed-cons env
              (edge_of node env.agg_id edge to env.version (string_prop props edge.field))
              (edge_mutations reg node env props edges)
              (edge_of-IsKeyed node to (string_prop props edge.field) edge)
              (edge_mutations-OkKeyed reg node props edges))
      ]

  reified_written-OkKeyed :
      (spec : GraphEdgeSpec) (props : Row F) → OkKeyed env (reified_written spec env props)
  reified_written-OkKeyed spec props =
      elim (Bool-cases (
        beq (string_prop props spec.type_field) []
        || beq (string_prop props spec.source_field) []
        || beq (string_prop props spec.target_field) [])) [
          | inl e ↦ rw e tt
          | inr n ↦ rw n ((refl, refl), tt)
        ]

  reified_mutations-OkKeyed :
      (spec : GraphEdgeSpec) (v : Verb) → OkKeyed env (reified_mutations unmarshal spec env v)
  unfolding reified_mutations
  reified_mutations-OkKeyed spec Verb.deleted = ((refl, refl), tt)
  reified_mutations-OkKeyed spec Verb.written =
      OkKeyed->>= env (decode_payload unmarshal env.payload) (reified_written spec env)
        (reified_written-OkKeyed spec)
  reified_mutations-OkKeyed spec Verb.ignored = tt

  node_mutations-OkKeyed :
      (reg : Registry) (spec : EntitySpec) (v : Verb)
      → OkKeyed env (node_mutations unmarshal reg spec env v)
  unfolding node_mutations
  node_mutations-OkKeyed reg spec Verb.deleted = (refl, tt)
  node_mutations-OkKeyed reg spec Verb.written =
      OkKeyed->>= env (decode_payload unmarshal env.payload)
        (λ props.
          edge_mutations reg spec.graph_node env (with_scope env.scope_id props) spec.edges
          >>= λ edges. ok (
              node_upsert spec.graph_node env.agg_id (with_scope env.scope_id props) env.version
              ∷ edges))
        (λ props.
          OkKeyed-cons env
            (node_upsert spec.graph_node env.agg_id (with_scope env.scope_id props) env.version)
            (edge_mutations reg spec.graph_node env (with_scope env.scope_id props) spec.edges)
            (refl, refl)
            (edge_mutations-OkKeyed reg spec.graph_node (with_scope env.scope_id props) spec.edges))
  node_mutations-OkKeyed reg spec Verb.ignored = tt

  search_mutations-OkKeyed :
      (spec : EntitySpec) (v : Verb) → OkKeyed env (search_mutations unmarshal spec env v)
  unfolding search_mutations
  search_mutations-OkKeyed spec Verb.deleted = ((refl, refl), tt)
  search_mutations-OkKeyed spec Verb.written =
      OkKeyed->>= env (decode_payload unmarshal env.payload)
        (λ props.
          ok (doc_index spec.search_index env.agg_id (search_doc spec env props) env.version ∷ []))
        (λ props. ((refl, refl), tt))
  search_mutations-OkKeyed spec Verb.ignored = tt

  graph_by_edge-OkKeyed :
      (reg : Registry) (spec : EntitySpec) (o : Option GraphEdgeSpec)
      → OkKeyed env (graph_by_edge unmarshal reg spec env o)
  graph_by_edge-OkKeyed reg spec (some edge) =
      reified_mutations-OkKeyed edge (verb_of (event_verb env.type))
  graph_by_edge-OkKeyed reg spec none = elim (Bool-cases (beq spec.graph_node [])) [
    | inl b ↦ rw b tt
    | inr b ↦ rw b (node_mutations-OkKeyed reg spec (verb_of (event_verb env.type)))
  ]

  graph_entity-OkKeyed :
      (reg : Registry) (o : Option EntitySpec) → OkKeyed env (graph_entity unmarshal reg o env)
  unfolding graph_entity
  graph_entity-OkKeyed reg none = tt
  graph_entity-OkKeyed reg (some spec) = graph_by_edge-OkKeyed reg spec spec.graph_edge

  search_entity-OkKeyed : (o : Option EntitySpec) → OkKeyed env (search_entity unmarshal o env)
  unfolding search_entity
  search_entity-OkKeyed none = tt
  search_entity-OkKeyed (some spec) = elim (Bool-cases (beq spec.search_index [])) [
    | inl b ↦ rw b tt
    | inr b ↦ rw b (search_mutations-OkKeyed spec (verb_of (event_verb env.type)))
  ]

  -- Every mutation that the graph and the search applier derive from an event is addressed to the
  -- event's aggregate, and each but the deletion of a node, which has no version, carries the event's
  -- version.
  pub appliers-OkKeyed :
      (reg : Registry)
      → OkKeyed env (graph_applier unmarshal reg env)
        × OkKeyed env (search_applier unmarshal reg env)
  unfolding graph_applier search_applier
  appliers-OkKeyed reg =
      (graph_entity-OkKeyed reg (reg env.aggregate), search_entity-OkKeyed (reg env.aggregate))
