-- ===== src/Central/Server/Ingest.antt =====
-- `CentralIngestionService.ingest`.
pub mod Admitted
pub mod Parsed
pub mod Branches
pub mod Accepted
pub mod Stored
use Prim.Native.String.{◌++◌ as append}
use package.text.Mathlib.Text.{find?}
use comm_guard.Prelude.{
  ℕ, zero, suc, ◌+◌, String, Bool, true, false, not, ◌&&◌, ◌||◌, Option, none, some, List, [], ◌∷◌,
  ◌++◌, map, ◌==◌, max, ℤ, pos, negsuc, eq_z, next_z, ltz, distance, ltb, is_some, is_empty,
  if◌then◌else◌, non_empty, put, get_or, lookup, type_error, value_error, Exception, Result, ok,
  err,
}
use comm_guard.Central.Flow.{
  Flow, go, answer, escape, ◌>>=◌, ◌>>◌, return_if, call, except_value, except_type_value,
}
use comm_guard.Central.Json.{Fields, int, get}
use comm_guard.Central.Runtime.{DateTime, str}
use comm_guard.Central.Messages.{
  Payload, Python, current_protocol, TelemetryBatch, batch_from_dict, Heartbeat,
  heartbeat_from_dict,
}
use comm_guard.Central.Security.{canonical_bytes, verify_message, validate_payload_size}
use comm_guard.Central.Samples.{validate_telemetry_samples}
use comm_guard.Central.Server.{AgentRegistration, Reason, Ack, Evidence, Service}
use comm_guard.Central.Server.Replies.{
  Reply, make_ack, reason_of, or_else, message_id_of, agent_id_of, Message, batch, heartbeat, id_of,
  sender_of, sequence_of, created_of, node_of, refuse, repr_option, eq_option, maximum,
  breaks_chain, digest_of,
}

module _ (rt : Python) (s : Service) (p : Payload) where
  abbrev find_registration : Option AgentRegistration → Flow Reply AgentRegistration
  find_registration none = answer (refuse "" Reason.unknown_agent "agent is not registered")
  find_registration (some r) = go r

  -- From the size limit to the session: who sends the message, and to whom.
  unfoldable pub authenticate : Flow Reply AgentRegistration
  unfolding reason_of
  authenticate = do
    let agent = agent_id_of p
    except_value (λ e. refuse agent (reason_of e) e)
        (validate_payload_size rt p s.maximum_payload_bytes)
    return_if (not (eq_option p.protocol_version current_protocol)) (
        refuse agent Reason.unsupported_protocol_version
          (append "unsupported protocol version " (repr_option rt p.protocol_version)))
    registration ← find_registration (lookup agent s.registrations)
    return_if (not (get_or "None" p.node_id == registration.node_id))
        (refuse "" Reason.node_identity_mismatch "node does not match agent")
    verified ← call (verify_message rt p registration.hmac_secret)
    return_if (not verified) (refuse "" Reason.invalid_signature "HMAC verification failed")
    return_if (not (eq_option p.experiment_session_id s.experiment_session_id)) (
        refuse agent Reason.session_mismatch
          "message experiment session does not match the central service")
    go registration

  -- The `try` block that parses the message and checks its samples.
  unfoldable pub parse_message : Flow Reply Message
  unfolding reason_of
  parse_message =
      let agent = agent_id_of p in
      let failed = λ (e : String). refuse agent (reason_of e) e in
      if eq_option p.message_type "telemetry_batch"
      then (except_type_value failed (batch_from_dict rt p) >>= λ message.
          (except_type_value failed (validate_telemetry_samples rt message.samples) >>= λ _.
          go (batch message)))
      else if eq_option p.message_type "heartbeat"
      then (except_type_value failed (heartbeat_from_dict rt p) >>= λ message.
          go (heartbeat message))
      else answer (
          refuse agent Reason.unknown_message_type
            (append "unknown message type " (repr_option rt p.message_type)))

  abbrev check_previous : Option ℤ → ℤ → Flow Reply (Unit {0})
  check_previous none sequence = go tt
  check_previous (some previous) sequence = do
    let agent = agent_id_of p
    return_if (not (ltz previous sequence)) (
        refuse agent Reason.stale_sequence (
          append "sequence=" (
            append (rt.str_of_value (int sequence))
              (append " last_accepted=" (rt.str_of_value (int previous))))))
    return_if (not (eq_z sequence (next_z previous))) (
        refuse agent Reason.sequence_gap (
          append "sequence=" (
            append (rt.str_of_value (int sequence))
              (append " expected=" (rt.str_of_value (int (next_z previous)))))))

  -- Replays, and the order of one agent's messages.
  unfoldable pub check_order : Message → Flow Reply (Unit {0})
  unfolding digest_of
  check_order message = do
    let agent = agent_id_of p
    let message_id = message_id_of p
    return_if
        (s.seen_message_ids message_id
          && eq_option (s.accepted_message_digests message_id) (digest_of rt p))
        (record {
          is_accepted = true;
          reason = Reason.already_accepted;
          detail = "identical authenticated message was already accepted";
          agent = agent;
        })
    return_if (s.seen_message_ids message_id) (
        refuse agent Reason.message_id_conflict
          "message ID was reused with different authenticated content")
    check_previous (s.last_sequence_by_agent agent) (sequence_of message)

  -- `abs((now - parsed).total_seconds())`, in microseconds.
  abbrev skew_of : DateTime → Option DateTime → Result ℕ
  skew_of now none = err (value_error "Invalid isoformat string")
  skew_of now (some t) =
      if now.aware && t.aware
      then ok (distance now.micros t.micros)
      else err (type_error "can't subtract offset-naive and offset-aware datetimes")

  unfoldable pub sample_skews : DateTime → List Fields → Flow Reply (List ℕ)
  sample_skews now [] = go []
  sample_skews now (sample ∷ rest) = do
    skew ← call (skew_of now (rt.from_iso (str rt (get sample "observed_at_utc"))))
    skews ← sample_skews now rest
    go (skew ∷ skews)

  abbrev check_skews : TelemetryBatch → List ℕ → Flow Reply (Unit {0})
  check_skews message skews = do
    let agent = agent_id_of p
    return_if (not (is_empty skews) && ltb s.maximum_clock_skew (maximum skews)) (
        refuse agent Reason.sample_clock_skew
          (append "sample clock skew " (append (rt.seconds (maximum skews)) "s exceeds limit")))
    return_if (breaks_chain (s.last_batch_by_agent agent) message.previous_batch_id) (
        refuse agent Reason.batch_chain_mismatch (
          append "previous_batch_id=" (
            append (repr_option rt message.previous_batch_id)
              (append " expected=" (repr_option rt (s.last_batch_by_agent agent))))))

  abbrev check_kind : DateTime → Message → Flow Reply (Unit {0})
  check_kind now (batch message) = sample_skews now message.samples >>= check_skews message
  check_kind now (heartbeat message) = go tt

  -- Clock skew of the message and of its samples, and the chain of batches.
  unfoldable pub check_time : DateTime → Message → Flow Reply (Unit {0})
  unfolding sample_skews maximum
  check_time now message = do
    let agent = agent_id_of p
    skew ← call (skew_of now (rt.from_iso (created_of message)))
    return_if (ltb s.maximum_clock_skew skew) (
        refuse agent Reason.clock_skew (
          append "clock skew " (
            append (rt.seconds skew)
              (append "s exceeds " (append (rt.seconds s.maximum_clock_skew) "s")))))
    check_kind now message

  -- All checks of `ingest`, in the order of the source.
  unfoldable pub admit : DateTime → Flow Reply Message
  admit now = do
    authenticate
    message ← parse_message
    check_order message
    check_time now message
    go message

-- The stored samples of one message.
abbrev pub evidence_of : TelemetryBatch → List Evidence
evidence_of b = map (λ sample. (b.batch_id, sample)) b.samples

-- The updates that only a batch makes.
abbrev pub store_batch : Service → String → Message → Service
store_batch s agent (heartbeat b) = s
store_batch s agent (batch b) = record s {
  last_batch_by_agent = put s.last_batch_by_agent agent b.batch_id;
  accepted_samples_by_node =
      put s.accepted_samples_by_node b.node_id
        (get_or [] (s.accepted_samples_by_node b.node_id) ++ evidence_of b);
  accepted_samples_by_agent =
      put s.accepted_samples_by_agent b.agent_id
        (get_or [] (s.accepted_samples_by_agent b.agent_id) ++ evidence_of b);
}

-- The updates for every accepted message.
unfoldable pub store : Python → Service → DateTime → Payload → Message → Service
unfolding digest_of
store rt s now p message =
    let agent = agent_id_of p in
    let message_id = message_id_of p in
    let s' = store_batch s agent message in
    record s' {
      last_sequence_by_agent = put s'.last_sequence_by_agent agent (sequence_of message);
      last_seen_by_node = put s'.last_seen_by_node (node_of message) now;
      last_seen_by_agent = put s'.last_seen_by_agent agent now;
      seen_message_ids = λ k. message_id == k || s'.seen_message_ids k;
      accepted_message_digests = put s'.accepted_message_digests message_id (digest_of rt p);
    }

abbrev pub accepted_reply : String → Reply
accepted_reply agent = record {
  is_accepted = true;
  reason = Reason.accepted;
  detail = "message accepted";
  agent = agent;
}

abbrev pub finish :
    Python → Service → DateTime → DateTime → Payload → Flow Reply Message → Result Ack × Service
finish rt s now ack_now p (go message) =
    let s' = store rt s now p message in
    (ok (make_ack rt s' ack_now (message_id_of p) (accepted_reply (agent_id_of p))), s')
finish rt s now ack_now p (answer r) = (ok (make_ack rt s ack_now (message_id_of p) r), s)
finish rt s now ack_now p (escape e) = (err e, s)

-- `ingest`, with the clock's reading in the body and the one in `_ack`.
unfoldable pub ingest : Python → Service → DateTime → DateTime → Payload → Result Ack × Service
ingest rt s now ack_now p = finish rt s now ack_now p (admit rt s p now)
