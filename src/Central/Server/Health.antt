-- ===== src/Central/Server/Health.antt =====
-- `node_health` and `agent_health`.
use comm_guard.Prelude.{
  ℕ, ◌+◌, ◌≤◌, String, ◌≡◌, refl, Option, none, some, List, map, arith, ℤ, pos, ltz, minus, lookup,
  if◌then◌else◌,
}
use comm_guard.Central.Runtime.{DateTime}
use comm_guard.Central.Server.{Service}

pub data Status : Type 0 where
  missing stale healthy : Status

pub record Health : Type 0 where
  pub last_seen : Option DateTime
  pub age : Option ℤ
  pub status : Status

-- One entry of the result: `now` is the clock's reading, the limit is `stale_after_seconds`.
unfoldable pub health_of : DateTime → ℕ → Option DateTime → Health
health_of now limit none = record { last_seen = none; age = none; status = missing }
health_of now limit (some seen) =
    let age = minus now.micros seen.micros in
    record {
      last_seen = some seen;
      age = some age;
      status = if ltz (pos limit) age then stale else healthy;
    }

unfoldable pub node_health : Service → DateTime → List (String × Health)
unfolding health_of
node_health s now =
    map (λ n. (n, health_of now s.stale_after (s.last_seen_by_node n))) s.expected_nodes

-- The node of an agent stands beside its health.
unfoldable pub agent_health : Service → DateTime → List (String × Option String × Health)
unfolding health_of
agent_health s now =
    map
      (λ a. (
        a,
        elim (lookup a s.registrations) [ none ↦ none | some r ↦ some r.node_id ],
        health_of now s.stale_after (s.last_seen_by_agent a),
      ))
      s.expected_agents

-- An entry is healthy exactly if it was seen, and at most `limit` before the clock's reading.
pub health_of-healthy :
    (now : DateTime) (limit : ℕ) (seen : Option DateTime)
    → (health_of now limit seen).status ≡ healthy
    → (t : DateTime) × (seen ≡ some t) × (now.micros ≤ t.micros + limit)
unfolding health_of
health_of-healthy now limit none h = cc
health_of-healthy now limit (some t) h = (t, refl, ground arith)

pub healthy_of_recent :
    (now t : DateTime) (limit : ℕ)
    → now.micros ≤ t.micros + limit
    → (health_of now limit (some t)).status ≡ healthy
unfolding health_of
healthy_of_recent now t limit h = ground arith
