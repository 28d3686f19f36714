-- ===== src/Central/Server/Window/Complete.antt =====
-- What a complete aggregation says of the service.
use comm_guard.Prelude.{
  ◌+◌, ◌≤◌, ◌<◌, String, ◌≡◌, refl, ap, true, false, not, ◌⊎◌, Option, some, List, [], ◌∷◌, arith,
  length, is_empty, get_or, All, ok, >>=-eq-ok, raise_if-then, Bool-cases, inl, inr,
}
use comm_guard.Central.Json.{get}
use comm_guard.Central.Runtime.{DateTime, str}
use comm_guard.Central.Messages.{Python}
use comm_guard.Central.Server.{Evidence, Service}
use comm_guard.Central.Server.Health.{healthy, health_of, health_of-healthy}
use comm_guard.Central.Server.Window.{
  NodeSummary, AgentSummary, Aggregation, parse_time, before, in_window, select, node_entry,
  agent_entry, node_entries, agent_entries, ranks_of, is_lost, lost_nodes, lost_agents,
  aggregate_window,
}

-- The sample's time is at or after `start` and before `stop`.
abbrev pub IsInWindow : Python → DateTime → DateTime → Evidence → Type 0
IsInWindow rt start stop e =
    (t : DateTime) × (rt.from_iso (str rt (get e.1 "observed_at_utc")) ≡ some t)
    × ((start.micros ≤ t.micros) × (t.micros < stop.micros))

-- One of the stored samples has the property.
abbrev pub AnyOf : (Evidence → Type 0) → List Evidence → Type 0
AnyOf P [] = ⊥
AnyOf P (e ∷ rest) = P e ⊎ AnyOf P rest

-- A last sighting `seen` at most `stale_after` before `now`, and a stored sample with a time in the window.
abbrev pub IsCovered :
    Python → Service → DateTime → DateTime → DateTime → Option DateTime → List Evidence → Type 0
IsCovered rt s now start stop seen stored =
    (t : DateTime) × (seen ≡ some t)
    × (now.micros ≤ t.micros + s.stale_after)
    × AnyOf (IsInWindow rt start stop) stored

module _ (rt : Python) (start stop : DateTime) where
  in_window-bounds :
      (t : DateTime)
      → in_window start stop t ≡ ok true
      → (start.micros ≤ t.micros) × (t.micros < stop.micros)
  in_window-bounds t h = (ground arith, ground arith)

  -- A selection that is not empty shows a stored sample in the window.
  select-AnyOf :
      (stored selected : List Evidence)
      → select rt start stop stored ≡ ok selected
      → 0 < length selected
      → AnyOf (IsInWindow rt start stop) stored
  unfolding select
  select-AnyOf [] selected h some_left =
      let e : [] ≡ selected = ground arith in
      absurd (omega (arith, ap (λ (l : List Evidence). length l) e))
  select-AnyOf ((id, sample) ∷ rest) selected h some_left =
      let (t, parsed, h₁) = >>=-eq-ok (parse_time rt (str rt (get sample "observed_at_utc"))) _ h in
      let (inside, tested, h₂) = >>=-eq-ok (in_window start stop t) _ h₁ in
      let (others, found, h₃) = >>=-eq-ok (select rt start stop rest) _ h₂ in
      elim (Bool-cases inside) [
        | inl kept ↦ inl (t, ground arith, in_window-bounds t (rw kept at tested))
        | inr dropped ↦
            let e : others ≡ selected = ground arith in
            inr (select-AnyOf rest others found (rw e some_left))
      ]

is_lost-IsCovered :
    (rt : Python) (s : Service) (now start stop : DateTime) (seen : Option DateTime)
    (stored selected : List Evidence)
    → select rt start stop stored ≡ ok selected
    → is_lost (length selected) (health_of now s.stale_after seen) ≡ false
    → IsCovered rt s now start stop seen stored
is_lost-IsCovered rt s now start stop seen stored selected h found =
    let fine : (health_of now s.stale_after seen).status ≡ healthy = ground arith in
    let (t, e, le) = health_of-healthy now s.stale_after seen fine in
    (t, e, le, select-AnyOf rt start stop stored selected h (ground arith))

module _ (rt : Python) (s : Service) (now start stop : DateTime) where
  node_entries-IsCovered :
      (nodes : List String) (entries : List NodeSummary) (evidence : List Evidence)
      → node_entries rt s now start stop nodes ≡ ok (entries, evidence)
      → lost_nodes entries ≡ []
      → All
          (λ n.
            IsCovered rt s now start stop
              (s.last_seen_by_node n)
              (get_or [] (s.accepted_samples_by_node n)))
          nodes
  unfolding node_entries lost_nodes
  node_entries-IsCovered [] entries evidence h none_lost = tt
  node_entries-IsCovered (n ∷ rest) entries evidence h none_lost =
      let (first, a, h₁) = >>=-eq-ok (node_entry rt s now start stop n) _ h in
      let (others, b, h₂) = >>=-eq-ok (node_entries rt s now start stop rest) _ h₁ in
      let (selected, c, h₃) =
        >>=-eq-ok (select rt start stop (get_or [] (s.accepted_samples_by_node n))) _ a in
      (
        is_lost-IsCovered rt s now start stop (s.last_seen_by_node n)
            (get_or [] (s.accepted_samples_by_node n)) selected c (ground arith),
        node_entries-IsCovered rest others.0 others.1 (b) (ground arith),
      )

  agent_entries-IsCovered :
      (agents : List String) (entries : List AgentSummary) (evidence : List Evidence)
      → agent_entries rt s now start stop agents ≡ ok (entries, evidence)
      → lost_agents entries ≡ []
      → All
          (λ a.
            IsCovered rt s now start stop
              (s.last_seen_by_agent a)
              (get_or [] (s.accepted_samples_by_agent a)))
          agents
  unfolding agent_entries lost_agents
  agent_entries-IsCovered [] entries evidence h none_lost = tt
  agent_entries-IsCovered (a ∷ rest) entries evidence h none_lost =
      let (first, found, h₁) = >>=-eq-ok (agent_entry rt s now start stop a) _ h in
      let (others, b, h₂) = >>=-eq-ok (agent_entries rt s now start stop rest) _ h₁ in
      let (selected, c, h₃) =
        >>=-eq-ok (select rt start stop (get_or [] (s.accepted_samples_by_agent a))) _ found in
      let (ranks, d, h₄) = >>=-eq-ok (ranks_of rt s now start stop selected) _ h₃ in
      (
        is_lost-IsCovered rt s now start stop (s.last_seen_by_agent a)
            (get_or [] (s.accepted_samples_by_agent a)) selected c (ground arith),
        agent_entries-IsCovered rest others.0 others.1 b (ground arith),
      )

parse_time-ok :
    (rt : Python) (name : String) {t : DateTime}
    → parse_time rt name ≡ ok t
    → rt.from_iso name ≡ some t
parse_time-ok rt name h = ground arith

is_empty→nil : (xs : List String) → is_empty xs ≡ true → xs ≡ []
is_empty→nil [] h = refl
is_empty→nil (x ∷ xs) h = cc

module _ (rt : Python) (s : Service) (window_id : String) (now agents_now : DateTime)
    (start_utc end_utc : String) (result : Aggregation)
    (done : aggregate_window rt s window_id now agents_now start_utc end_utc ≡ ok result) where
  -- If an aggregation is complete, then its start and stop are the times that `start_utc` and `end_utc` name,
  -- and every expected node and every expected agent was seen at most `stale_after` before the clock's
  -- reading and has among its stored samples one whose time is at or after the start and before the stop.
  pub aggregate_window-complete :
      result.complete ≡ true
      → (rt.from_iso start_utc ≡ some result.start)
        × (rt.from_iso end_utc ≡ some result.stop)
        × All
            (λ n.
              IsCovered rt s now result.start result.stop
                (s.last_seen_by_node n)
                (get_or [] (s.accepted_samples_by_node n)))
            s.expected_nodes
        × All
            (λ a.
              IsCovered rt s agents_now result.start result.stop
                (s.last_seen_by_agent a)
                (get_or [] (s.accepted_samples_by_agent a)))
            s.expected_agents
  unfolding aggregate_window
  aggregate_window-complete full =
      let (start, a, h₁) = >>=-eq-ok (parse_time rt start_utc) _ done in
      let (stop, b, h₂) = >>=-eq-ok (parse_time rt end_utc) _ h₁ in
      let (ordered, c, h₃) = >>=-eq-ok (before start stop) _ h₂ in
      let (fine, h₄) = raise_if-then (not ordered) _ _ h₃ in
      let (nodes, d, h₅) = >>=-eq-ok (node_entries rt s now start stop s.expected_nodes) _ h₄ in
      let (agents, e, h₆) =
        >>=-eq-ok (agent_entries rt s agents_now start stop s.expected_agents) _ h₅ in
      let same_start : start ≡ result.start = ground arith in
      let same_stop : stop ≡ result.stop = ground arith in
      let no_nodes : is_empty (lost_nodes nodes.0) ≡ true = ground arith in
      let no_agents : is_empty (lost_agents agents.0) ≡ true = ground arith in
      rw (← same_start, ← same_stop)
        (
          parse_time-ok rt start_utc a,
          parse_time-ok rt end_utc b,
          node_entries-IsCovered rt s now start stop s.expected_nodes nodes.0 nodes.1 d
              (is_empty→nil (lost_nodes nodes.0) no_nodes),
          agent_entries-IsCovered rt s agents_now start stop s.expected_agents agents.0 agents.1 e
              (is_empty→nil (lost_agents agents.0) no_agents),
        )
