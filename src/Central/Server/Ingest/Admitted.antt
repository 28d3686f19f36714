-- ===== src/Central/Server/Ingest/Admitted.antt =====
-- What the checks of `ingest` guarantee of a message that passes them all.
use Prim.Native.String.{len}
use comm_guard.Prelude.{
  ℕ, ◌≤◌, String, ◌≡◌, true, false, not, Option, none, some, List, [], ◌∷◌, arith, eq_iff, ℤ, eq_z,
  next_z, ltb, lookup, ok, get_or, distance, All, Option-cases, is_empty, ◌&&◌, inl, inr,
}
use comm_guard.Central.Flow.{go, call, ◌>>=◌, >>=-eq-go}
use comm_guard.Central.Json.{Fields, get}
use comm_guard.Central.Runtime.{DateTime, str}
use comm_guard.Central.Messages.{Payload, Python}
use comm_guard.Central.Security.{canonical_bytes, verify_message, validate_payload_size}
use comm_guard.Central.Server.{AgentRegistration, Service}
use comm_guard.Central.Server.Replies.{
  Message, batch, heartbeat, sequence_of, created_of, message_id_of, agent_id_of, maximum,
  eq_option, breaks_chain,
}
use comm_guard.Central.Server.Ingest.{
  authenticate, check_order, check_time, sample_skews, check_previous, skew_of, check_skews,
  check_kind,
}

eq_option→eq : (o : Option String) (s : String) → eq_option o s ≡ true → o ≡ some s
eq_option→eq none s h = cc
eq_option→eq (some t) s h = ground (arith, eq_iff t s)

pub eq_z→eq : (a b : ℤ) → eq_z a b ≡ true → a ≡ b
eq_z→eq a b h = ground arith

-- The sender is registered, for its node, and holds the agent's secret.
pub record Authentic (rt : Python) (s : Service) (p : Payload) : Type 0 where
  pub registration : AgentRegistration
  pub registered : lookup (agent_id_of p) s.registrations ≡ some registration
  pub same_node : get_or "None" p.node_id ≡ registration.node_id
  pub signed : verify_message rt p registration.hmac_secret ≡ ok true
  pub same_session : p.experiment_session_id ≡ some s.experiment_session_id

module _ (rt : Python) (s : Service) (p : Payload) where
  pub authenticate-Authentic :
      (r : AgentRegistration) → authenticate rt s p ≡ go r → Authentic rt s p
  unfolding authenticate
  authenticate-Authentic r h = record {
    registration = r;
    registered = ground arith;
    same_node = ground (arith, eq_iff (get_or "None" p.node_id) r.node_id);
    signed = ground arith;
    same_session = ground (arith, eq_option→eq p.experiment_session_id s.experiment_session_id);
  }

  -- The size test passed.
  pub authenticate-len :
      (r : AgentRegistration)
      → authenticate rt s p ≡ go r
      → len (canonical_bytes rt p true) ≤ s.maximum_payload_bytes
  unfolding authenticate validate_payload_size
  authenticate-len r h = ground arith

-- `n` comes next after the last accepted number.
abbrev pub Follows : Option ℤ → ℤ → Type 0
Follows none n = Unit
Follows (some k) n = n ≡ next_z k

-- The message is new and the next one of its agent.
pub record InOrder (s : Service) (p : Payload) (m : Message) : Type 0 where
  pub unseen : s.seen_message_ids (message_id_of p) ≡ false
  pub follows : Follows (s.last_sequence_by_agent (agent_id_of p)) (sequence_of m)

module _ (rt : Python) (s : Service) (p : Payload) where
  check_previous-Follows : (o : Option ℤ) (n : ℤ) → check_previous rt s p o n ≡ go tt → Follows o n
  check_previous-Follows none n h = tt
  check_previous-Follows (some k) n h = ground (arith, eq_z→eq n (next_z k))

  pub check_order-InOrder : (m : Message) → check_order rt s p m ≡ go tt → InOrder s p m
  unfolding check_order
  check_order-InOrder m h = record {
    unseen = ground arith;
    follows =
        check_previous-Follows (s.last_sequence_by_agent (agent_id_of p)) (sequence_of m)
          (ground arith);
  }

-- The time that `text` names lies within `limit` of the clock's reading.
abbrev pub Near : Python → ℕ → DateTime → String → Type 0
Near rt limit now text =
    (t : DateTime) × (rt.from_iso text ≡ some t) × (distance now.micros t.micros ≤ limit)

-- The batch names the agent's last accepted batch, if there is one.
abbrev pub Chains : Option String → Option String → Type 0
Chains none previous = Unit
Chains (some last) previous = previous ≡ some last

abbrev pub observed_text : Python → Fields → String
observed_text rt sample = str rt (get sample "observed_at_utc")

module _ (rt : Python) (s : Service) (p : Payload) (now : DateTime) where
  abbrev pub IsTimely : Message → Type 0
  IsTimely (heartbeat b) = Unit
  IsTimely (batch b) =
      All (λ sample. Near rt s.maximum_clock_skew now (observed_text rt sample)) b.samples
      × Chains (s.last_batch_by_agent (agent_id_of p)) b.previous_batch_id

  skew_of-Near :
      (limit skew : ℕ) (text : String)
      → skew_of rt s p now (rt.from_iso text) ≡ ok skew
      → skew ≤ limit
      → Near rt limit now text
  skew_of-Near limit skew text h le = elim (Option-cases (rt.from_iso text)) [
    | inl e ↦ cc (rw e at h)
    | inr (t, e) ↦ (t, e, ground arith)
  ]

  sample_skews-Near :
      (limit : ℕ) (samples : List Fields) (skews : List ℕ)
      → sample_skews rt s p now samples ≡ go skews
      → maximum skews ≤ limit
      → All (λ sample. Near rt limit now (observed_text rt sample)) samples
  unfolding sample_skews maximum
  sample_skews-Near limit [] skews h le = tt
  sample_skews-Near limit (x ∷ rest) skews h le =
      let first = call (skew_of rt s p now (rt.from_iso (observed_text rt x))) in
      let (skew, e, h') =
        >>=-eq-go first (λ k. sample_skews rt s p now rest >>= λ ks. go (k ∷ ks)) h in
      let (others, e', h'') = >>=-eq-go (sample_skews rt s p now rest) (λ ks. go (skew ∷ ks)) h' in
      (
        skew_of-Near limit skew (observed_text rt x) (ground arith) (ground arith),
        sample_skews-Near limit rest others e' (ground arith),
      )

  breaks_chain-Chains :
      (last previous : Option String) → breaks_chain last previous ≡ false → Chains last previous
  breaks_chain-Chains none previous h = tt
  breaks_chain-Chains (some e) previous h = ground (arith, eq_option→eq previous e)

  leb_of_empty :
      (skews : List ℕ) (limit : ℕ)
      → (not (is_empty skews) && ltb limit (maximum skews)) ≡ false
      → maximum skews ≤ limit
  unfolding maximum
  leb_of_empty [] limit h = omega arith
  leb_of_empty (x ∷ xs) limit h = ground arith

  check_kind-IsTimely : (m : Message) → check_kind rt s p now m ≡ go tt → IsTimely m
  check_kind-IsTimely (heartbeat b) h = tt
  check_kind-IsTimely (batch b) h =
      let (skews, e, h') = >>=-eq-go (sample_skews rt s p now b.samples) (check_skews rt s p b) h in
      (
        sample_skews-Near s.maximum_clock_skew b.samples skews e
            (leb_of_empty skews s.maximum_clock_skew (ground arith)),
        breaks_chain-Chains (s.last_batch_by_agent (agent_id_of p)) b.previous_batch_id
            (ground arith),
      )

  pub check_time-IsTimely :
      (m : Message)
      → check_time rt s p now m ≡ go tt
      → Near rt s.maximum_clock_skew now (created_of m) × IsTimely m
  unfolding check_time
  check_time-IsTimely m h =
      let (skew, e, h') = >>=-eq-go (call (skew_of rt s p now (rt.from_iso (created_of m)))) _ h in
      (
        skew_of-Near s.maximum_clock_skew skew (created_of m) (ground arith) (ground arith),
        check_kind-IsTimely m (ground arith),
      )
