-- ===== src/Projection/Tests.antt =====
-- A note's projections, a rebuild, and the instances of the theorems on them.
use fabriq.Prelude.{
  ℕ, ◌≡◌, refl, ◌↔◌, ◌⊎◌, Bool, true, false, [], ◌∷◌, List, Option, none, some, GoString, codes,
  beq, arith, lookup, Result, ok, err, if◌then◌else◌, str_lt,
}
use fabriq.Query.Value.{text, Row}
use fabriq.Event.Envelope.{Envelope, event_type}
use fabriq.Command.Model.{valid}
use fabriq.Projection.Mutation.{Mutation, node_upsert, edge_upsert, EntitySpec, Registry}
use fabriq.Projection.Applier.{
  event_verb, graph_applier, graph_entity, node_mutations, edge_mutations, decode_payload,
  search_applier, search_doc, apply_chain, run_custom,
}
use fabriq.Projection.Engine.{
  Call, apply_mutations, set_applied, Engine, handle, apply, apply_targets,
}
use fabriq.Projection.Rebuild.{live, State, Rebuilder, in_progress, rebuild, mark, replay_all}
use fabriq.Projection.Reconcile.{Drift, Versions, stale, zombies, entity_drifts, sort_drifts}
use fabriq.Projection.Verb.{event_verb-event_type}
use fabriq.Projection.Keyed.{OkKeyed, appliers-OkKeyed}
use fabriq.Projection.Document.{expected, search_doc-expected}
use fabriq.Projection.Delivery.{Outcome, handle-Outcome}
use fabriq.Projection.Flip.{Ending, rebuild-Ending, rebuild-stays_building}
use fabriq.Projection.Drifts.{In, IsStale, IsZombie, entity_drifts_complete}

event_verb-event_type_example :
    event_verb (event_type (codes "a.b") (codes "updated")) ≡ codes "updated"
event_verb-event_type_example = event_verb-event_type (codes "a.b") (codes "updated") (
  omega arith,
  (omega arith, (omega arith, (omega arith, (omega arith, (omega arith, (omega arith, tt)))))),
)

abbrev site : EntitySpec
site = record {
  name = codes "site";
  aggregate = true;
  graph_node = codes "Site";
  graph_edge = none;
  edges = [];
  search_index = [];
  search_fields = [];
}

abbrev asset : EntitySpec
asset = record {
  name = codes "asset";
  aggregate = true;
  graph_node = codes "Asset";
  graph_edge = none;
  edges = record { field = codes "site_id"; rel = codes "AT"; target = codes "site" } ∷ [];
  search_index = codes "assets";
  search_fields = codes "name" ∷ [];
}

abbrev registry : Registry
registry name =
    if beq name (codes "asset")
    then some asset
    else if beq name (codes "site")
    then some site
    else none

abbrev props : Row ℕ
props = (codes "name", text (codes "pump")) ∷ (codes "site_id", text (codes "s1")) ∷ []

-- Every payload reads as the same row.
abbrev unmarshal : GoString → Result GoString (Row ℕ)
unmarshal payload = ok props

abbrev updated : Envelope
updated = record {
  id = codes "e1";
  tenant_id = codes "acme";
  scope_id = [];
  aggregate = codes "asset";
  agg_id = codes "a1";
  version = 4;
  type = codes "asset.updated";
  at = 0;
  payload_schema_version = 1;
  payload = codes "{}";
  traceparent = [];
}

abbrev upserts : List (Mutation ℕ)
upserts =
    node_upsert (codes "Asset") (codes "a1") props 4
    ∷ edge_upsert (codes "AT") (codes "Asset") (codes "a1") (codes "Site") (codes "s1") 4
    ∷ []

graph_applier_runs : graph_applier unmarshal registry updated ≡ ok upserts
unfolding graph_applier graph_entity node_mutations edge_mutations decode_payload event_verb lookup
    beq
graph_applier_runs = refl

appliers-OkKeyed_example :
    OkKeyed updated (graph_applier unmarshal registry updated)
    × OkKeyed updated (search_applier unmarshal registry updated)
appliers-OkKeyed_example = appliers-OkKeyed unmarshal updated registry

search_doc-expected_example :
    lookup (codes "name") (search_doc asset updated props)
    ≡ expected asset updated props (codes "name")
search_doc-expected_example = search_doc-expected asset updated props (codes "name")

-- The sink of the second target is down.
abbrev answers : Call ℕ → Option GoString
answers (apply_mutations target muts) =
    if beq target (codes "next") then some (codes "down") else none
answers (set_applied t p a i v) = none

abbrev engine : Engine ℕ
engine = record {
  projection = codes "graph";
  applier = graph_applier unmarshal registry;
  custom = [];
  upcast = λ env. ok env;
  targets_for = λ tenant. ok ([] ∷ codes "next" ∷ []);
  answer = answers;
}

handle_stops : handle engine updated ≡ record {
  failure = some (codes "down");
  calls = apply_mutations [] upserts ∷ apply_mutations (codes "next") upserts ∷ [];
}
unfolding handle apply apply_targets apply_chain run_custom valid graph_applier graph_entity
    node_mutations edge_mutations decode_payload event_verb lookup beq
handle_stops = refl

handle-Outcome_example : Outcome engine updated (handle engine updated)
handle-Outcome_example = handle-Outcome engine updated

abbrev truth : Versions
truth = (codes "a1", 4) ∷ (codes "a2", 1) ∷ []

abbrev projected : Versions
projected = (codes "a1", 3) ∷ (codes "a3", 2) ∷ (codes "a2", 5) ∷ []

abbrev behind : Drift
behind = record {
  entity = codes "asset";
  agg_id = codes "a1";
  truth_version = 4;
  projected_version = 3;
}

drifts_found :
    sort_drifts (entity_drifts (codes "asset") truth projected)
    ≡ behind
      ∷ record {
        entity = codes "asset";
        agg_id = codes "a3";
        truth_version = 0;
        projected_version = 2;
      }
      ∷ []
unfolding sort_drifts entity_drifts stale zombies lookup beq str_lt
drifts_found = refl

entity_drifts_complete_example :
    In behind (sort_drifts (entity_drifts (codes "asset") truth projected)) ↔ (
      IsStale (codes "asset") behind truth projected
      ⊎ IsZombie (codes "asset") behind truth projected)
entity_drifts_complete_example = entity_drifts_complete (codes "asset") behind truth projected

abbrev first : State
first = record { status = live; target_name = codes "v1"; model_version = 1 }

-- Writing the state of model version 2 fails when `broken`.
abbrev rebuilder : Bool → Rebuilder ℕ
rebuilder broken = record {
  projection = codes "graph";
  get_fails = none;
  upsert_fails = λ st.
      if beq st.target_name (codes "v2")
      then (if broken then some (codes "lost") else none)
      else none;
  drop_fails = λ target. none;
  apply_fails = λ target muts. none;
  snapshot = λ tenant. (updated ∷ [], none);
  applier = graph_applier unmarshal registry;
  custom = [];
  target_name = λ tenant model. codes "v2";
  on_flip = λ tenant old model. none;
}

rebuild_runs : (rebuild (rebuilder false) (codes "acme") first).result ≡ ok (codes "v1", codes "v2")
unfolding rebuild replay_all apply_chain run_custom valid graph_applier graph_entity node_mutations
    edge_mutations decode_payload event_verb lookup beq
rebuild_runs = refl

rebuild-Ending_example :
    Ending (rebuilder false) (codes "acme") first (rebuild (rebuilder false) (codes "acme") first)
rebuild-Ending_example = rebuild-Ending (rebuilder false) (codes "acme") first

rebuild-stays_building_example :
    ((rebuild (rebuilder true) (codes "acme") first).stored ≡ mark (rebuilder true) first)
    × ((rebuild (rebuilder true) (codes "acme") (mark (rebuilder true) first)).result
        ≡ err in_progress)
unfolding valid beq replay_all apply_chain run_custom graph_applier graph_entity node_mutations
    edge_mutations decode_payload event_verb lookup
rebuild-stays_building_example =
    rebuild-stays_building (rebuilder true) (codes "acme") first (codes "lost") refl refl refl refl
      refl refl refl
