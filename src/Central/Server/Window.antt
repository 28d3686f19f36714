-- ===== src/Central/Server/Window.antt =====
-- `aggregate_window`.
pub mod Complete
use comm_guard.Prelude.{
  ℕ, zero, ◌+◌, ◌≤◌, ◌<◌, String, ◌≡◌, ◌≢◌, refl, Bool, true, false, not, ◌&&◌, ◌||◌, Option, none,
  some, List, [], ◌∷◌, ◌++◌, map, arith, ◌==◌, eq_iff, ℤ, ltb, leb, eqb, length, is_empty, keep,
  contains, get_or, lookup, sorted, distinct, sorted_set_z, if◌then◌else◌, Exception, value_error,
  type_error, Result, ok, err, ◌>>=◌, ◌>>◌, raise_if,
}
use comm_guard.Central.Json.{Value, null, obj, Fields, truthy, get}
use comm_guard.Central.Runtime.{DateTime, str}
use comm_guard.Central.Messages.{Python}
use comm_guard.Central.Security.{telemetry_fields}
use comm_guard.Central.Samples.{to_int, is_null}
use comm_guard.Central.Server.{Evidence, Service}
use comm_guard.Central.Server.Health.{Status, missing, stale, healthy, Health, health_of}

pub record NodeSummary : Type 0 where
  pub node_id : String
  pub health : Health
  pub sample_count : ℕ
  pub field_means : List (String × Option Value)

pub record AgentSummary : Type 0 where
  pub agent_id : String
  pub node_id : Option String
  pub health : Health
  pub sample_count : ℕ
  pub ranks : List ℤ
  pub gpu_uuids : List String

pub record Aggregation : Type 0 where
  pub window_id : String
  pub start : DateTime
  pub stop : DateTime
  pub nodes : List NodeSummary
  pub agents : List AgentSummary
  pub missing_or_stale_nodes : List String
  pub missing_or_stale_agents : List String
  pub complete : Bool
  pub evidence_batch_ids : List String

-- `datetime.fromisoformat(…)`, and the order of two readings, which raises on a naive one.
abbrev parse_time : Python → String → Result DateTime
parse_time rt text = elim (rt.from_iso text) [
  | none ↦ err (value_error "Invalid isoformat string")
  | some t ↦ ok t
]

abbrev before : DateTime → DateTime → Result Bool
before a b =
    if (a.aware && b.aware) || (not a.aware && not b.aware)
    then ok (ltb a.micros b.micros)
    else err (type_error "can't compare offset-naive and offset-aware datetimes")

-- `start <= observed < end`
abbrev in_window : DateTime → DateTime → DateTime → Result Bool
in_window start stop observed = do
  early ← before observed start
  late ← before observed stop
  ok (not early && late)

-- The loop that selects the samples of a window.
unfoldable pub select : Python → DateTime → DateTime → List Evidence → Result (List Evidence)
select rt start stop [] = ok []
select rt start stop ((batch_id, sample) ∷ rest) = do
  observed ← parse_time rt (str rt (get sample "observed_at_utc"))
  inside ← in_window start stop observed
  selected ← select rt start stop rest
  ok (if inside then (batch_id, sample) ∷ selected else selected)

abbrev fields_of : Value → Fields
fields_of (obj fs) = fs
fields_of v = Fields.end

abbrev reading_of : String → Fields → Fields
reading_of name sample = fields_of (get (fields_of (get sample "fields")) name)

-- The supported values of one telemetry field.
unfoldable pub values_of : String → List Evidence → List Value
values_of name [] = []
values_of name ((batch_id, sample) ∷ rest) =
    let reading = reading_of name sample in
    let others = values_of name rest in
    if truthy (get reading "supported") && not (is_null (get reading "value"))
    then get reading "value" ∷ others
    else others

abbrev mean_of : Python → List Value → Option Value
mean_of rt values = if is_empty values then none else some (rt.fmean values)

module _ (rt : Python) (s : Service) (now : DateTime) (start stop : DateTime) where
  abbrev node_entry : String → Result (NodeSummary × List Evidence)
  node_entry node = do
    selected ← select rt start stop (get_or [] (s.accepted_samples_by_node node))
    ok (
      record {
        node_id = node;
        health = health_of now s.stale_after (s.last_seen_by_node node);
        sample_count = length selected;
        field_means = map (λ name. (name, mean_of rt (values_of name selected))) telemetry_fields;
      },
      selected,
    )

  abbrev ranks_of : List Evidence → Result (List ℤ)
  ranks_of [] = ok []
  ranks_of ((batch_id, sample) ∷ rest) = do
    rank ← to_int rt (get sample "rank")
    ranks ← ranks_of rest
    ok (rank ∷ ranks)

  abbrev agent_entry : String → Result (AgentSummary × List Evidence)
  agent_entry agent = do
    selected ← select rt start stop (get_or [] (s.accepted_samples_by_agent agent))
    ranks ← ranks_of selected
    ok (
      record {
        agent_id = agent;
        node_id = elim (lookup agent s.registrations) [ none ↦ none | some r ↦ some r.node_id ];
        health = health_of now s.stale_after (s.last_seen_by_agent agent);
        sample_count = length selected;
        ranks = sorted_set_z ranks;
        gpu_uuids = sorted (distinct (map (λ e. str rt (get e.1 "gpu_uuid")) selected));
      },
      selected,
    )

  unfoldable pub node_entries : List String → Result (List NodeSummary × List Evidence)
  unfolding select health_of
  node_entries [] = ok ([], [])
  node_entries (node ∷ rest) = do
    (entry, selected) ← node_entry node
    (entries, evidence) ← node_entries rest
    ok (entry ∷ entries, selected ++ evidence)

  unfoldable pub agent_entries : List String → Result (List AgentSummary × List Evidence)
  unfolding select health_of
  agent_entries [] = ok ([], [])
  agent_entries (agent ∷ rest) = do
    (entry, selected) ← agent_entry agent
    (entries, evidence) ← agent_entries rest
    ok (entry ∷ entries, selected ++ evidence)

abbrev is_healthy : Status → Bool
is_healthy healthy = true
is_healthy missing = false
is_healthy stale = false

-- `sample_count == 0 or status != "healthy"`
abbrev pub is_lost : ℕ → Health → Bool
is_lost count health = eqb count 0 || not (is_healthy health.status)

unfoldable pub lost_nodes : List NodeSummary → List String
unfolding keep
lost_nodes entries = map (λ n. n.node_id) (keep (λ n. is_lost n.sample_count n.health) entries)

unfoldable pub lost_agents : List AgentSummary → List String
unfolding keep
lost_agents entries = map (λ a. a.agent_id) (keep (λ a. is_lost a.sample_count a.health) entries)

-- `aggregate_window`. `window_id` is the fresh `uuid4` identifier. `node_health`, `agent_health`
-- read the clock one after the other: `now` and `agents_now`.
unfoldable pub aggregate_window :
    Python → Service → String → DateTime → DateTime → String → String → Result Aggregation
unfolding node_entries agent_entries lost_nodes lost_agents
aggregate_window rt s window_id now agents_now start_utc end_utc = do
  start ← parse_time rt start_utc
  stop ← parse_time rt end_utc
  ordered ← before start stop
  raise_if (not ordered) (value_error "aggregation window end must be after start")
  (nodes, node_evidence) ← node_entries rt s now start stop s.expected_nodes
  (agents, agent_evidence) ← agent_entries rt s agents_now start stop s.expected_agents
  ok (record {
    window_id = window_id;
    start = start;
    stop = stop;
    nodes = nodes;
    agents = agents;
    missing_or_stale_nodes = lost_nodes nodes;
    missing_or_stale_agents = lost_agents agents;
    complete = is_empty (lost_nodes nodes) && is_empty (lost_agents agents);
    evidence_batch_ids = sorted (distinct (map (λ e. e.0) (node_evidence ++ agent_evidence)));
  })
