-- ===== src/Projection/Mutation.antt =====
-- core/projection/mutation.go: the closed set of mutations, and what appliers read of the registry.
use fabriq.Prelude.{ℕ, Bool, List, Option, GoString}
use fabriq.Query.Value.{Row}

pub data Mutation (F : Type 0) : Type 0 where
  -- label, id, props, version; no applier sets the extra labels
  node_upsert : GoString → GoString → Row F → ℕ → Mutation F
  -- rel, from label, from id, to label, to id, version
  edge_upsert : GoString → GoString → GoString → GoString → GoString → ℕ → Mutation F
  -- label, id
  node_delete : GoString → GoString → Mutation F
  -- rel, from label, from id, version
  edge_delete : GoString → GoString → GoString → ℕ → Mutation F
  -- index, id, doc, version
  doc_index : GoString → GoString → Row F → ℕ → Mutation F
  -- index, id, version
  doc_deindex : GoString → GoString → ℕ → Mutation F
  -- id, type, from label, from id, to label, to id, props, version
  rel_upsert :
      GoString → GoString → GoString → GoString → GoString → GoString → Row F → ℕ → Mutation F
  -- id, version
  rel_delete : GoString → ℕ → Mutation F

pub record EdgeSpec : Type 0 where
  pub field : GoString
  pub rel : GoString
  pub target : GoString

pub record GraphEdgeSpec : Type 0 where
  pub type_field : GoString
  pub source_field : GoString
  pub target_field : GoString
  pub source_label : GoString
  pub target_label : GoString
  pub prop_fields : List GoString

pub record EntitySpec : Type 0 where
  pub name : GoString
  pub aggregate : Bool
  pub graph_node : GoString
  pub graph_edge : Option GraphEdgeSpec
  pub edges : List EdgeSpec
  pub search_index : GoString
  pub search_fields : List GoString

abbrev pub Registry : Type 0
Registry = GoString → Option EntitySpec
