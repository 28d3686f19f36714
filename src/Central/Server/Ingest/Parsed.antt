-- ===== src/Central/Server/Ingest/Parsed.antt =====
-- What the parsing of `ingest` guarantees of the message.
use comm_guard.Prelude.{◌≡◌, false, some, arith, is_negative, ok}
use comm_guard.Central.Flow.{go}
use comm_guard.Central.Messages.{Payload, Python, batch_from_dict, heartbeat_from_dict}
use comm_guard.Central.Messages.Validity.{batch_from_dict-valid, heartbeat_from_dict-valid}
use comm_guard.Central.Samples.{validate_telemetry_samples}
use comm_guard.Central.Server.{Service}
use comm_guard.Central.Server.Replies.{
  Message, batch, heartbeat, id_of, sender_of, sequence_of, node_of, message_id_of, agent_id_of,
}
use comm_guard.Central.Server.Ingest.{parse_message}

-- The identities that `ingest` reads from the payload are those of the message.
pub record Identified (p : Payload) (m : Message) : Type 0 where
  pub same_id : message_id_of p ≡ id_of m
  pub same_agent : agent_id_of p ≡ sender_of m
  pub same_node : p.node_id ≡ some (node_of m)
  pub sequence_nonneg : is_negative (sequence_of m) ≡ false

-- The samples of an accepted batch have passed the privacy and schema checks.
abbrev pub IsChecked : Python → Message → Type 0
IsChecked rt (batch b) = validate_telemetry_samples rt b.samples ≡ ok tt
IsChecked rt (heartbeat b) = Unit

module _ (rt : Python) (s : Service) (p : Payload) where
  pub parse_message_sound :
      (m : Message) → parse_message rt s p ≡ go m → Identified p m × IsChecked rt m
  unfolding parse_message
  parse_message_sound (batch b) h =
      let parsed : batch_from_dict rt p ≡ ok b = ground arith in
      let (fields, valid) = batch_from_dict-valid rt p b parsed in
      (
        record {
          same_id = ground arith;
          same_agent = ground arith;
          same_node = fields.same_node;
          sequence_nonneg = valid.sequence_nonneg;
        },
        ground arith,
      )
  parse_message_sound (heartbeat b) h =
      let parsed : heartbeat_from_dict rt p ≡ ok b = ground arith in
      let (fields, valid) = heartbeat_from_dict-valid rt p b parsed in
      (
        record {
          same_id = ground arith;
          same_agent = ground arith;
          same_node = fields.same_node;
          sequence_nonneg = valid.sequence_nonneg;
        },
        tt,
      )
