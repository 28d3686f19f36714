-- ===== src/Central/Server/Ingest/Stored.antt =====
-- How `store` changes each part of the service that the theorems follow.
use comm_guard.Prelude.{
  String, ◌≡◌, ◌||◌, Option, some, List, [], ◌++◌, arith, ◌==◌, eq_iff, put, get_or, if◌then◌else◌,
}
use mathlib.Core.List.{append-nil}
use comm_guard.Central.Runtime.{DateTime}
use comm_guard.Central.Messages.{Payload, Python}
use comm_guard.Central.Server.{Evidence, Service}
use comm_guard.Central.Server.Replies.{
  Message, batch, heartbeat, id_of, sender_of, sequence_of, node_of, digest_of,
}
use comm_guard.Central.Server.Ingest.{evidence_of, store}
use comm_guard.Central.Server.Ingest.Parsed.{Identified}

-- The batch that a message is, if it is one.
abbrev pub batch_id_if : Message → Option String → Option String
batch_id_if (batch b) o = some b.batch_id
batch_id_if (heartbeat b) o = o

abbrev pub evidence_if : Message → List Evidence
evidence_if (batch b) = evidence_of b
evidence_if (heartbeat b) = []

module _ (rt : Python) (s : Service) (now : DateTime) (p : Payload) where
  pub last_sequence-store :
      (m : Message)
      → Identified p m
      → (a : String)
      → (store rt s now p m).last_sequence_by_agent a
        ≡ (if sender_of m == a then some (sequence_of m) else s.last_sequence_by_agent a)
  unfolding store put
  last_sequence-store (batch b) found a = rw found.same_agent
  last_sequence-store (heartbeat b) found a = rw found.same_agent

  pub seen-store :
      (m : Message)
      → Identified p m
      → (k : String)
      → (store rt s now p m).seen_message_ids k ≡ (id_of m == k || s.seen_message_ids k)
  unfolding store
  seen-store (batch b) found k = rw found.same_id
  seen-store (heartbeat b) found k = rw found.same_id

  pub digests-store :
      (m : Message)
      → Identified p m
      → (k : String)
      → (store rt s now p m).accepted_message_digests k
        ≡ (if id_of m == k then some (digest_of rt p) else s.accepted_message_digests k)
  unfolding store put
  digests-store (batch b) found k = rw found.same_id
  digests-store (heartbeat b) found k = rw found.same_id

  pub last_batch-store :
      (m : Message)
      → Identified p m
      → (a : String)
      → (store rt s now p m).last_batch_by_agent a ≡ (
          if sender_of m == a
          then batch_id_if m (s.last_batch_by_agent a)
          else s.last_batch_by_agent a)
  unfolding store put
  last_batch-store (batch b) found a = rw found.same_agent
  last_batch-store (heartbeat b) found a = ground arith

  pub samples-store :
      (m : Message)
      → Identified p m
      → (a : String)
      → get_or [] ((store rt s now p m).accepted_samples_by_agent a) ≡ (
          if sender_of m == a
          then get_or [] (s.accepted_samples_by_agent a) ++ evidence_if m
          else get_or [] (s.accepted_samples_by_agent a))
  unfolding store put
  samples-store (batch b) found a = ground (arith, eq_iff b.agent_id a)
  samples-store (heartbeat b) found a =
      ground (arith, append-nil (get_or [] (s.accepted_samples_by_agent a)))

  pub node_samples-store :
      (m : Message)
      → Identified p m
      → (n : String)
      → get_or [] ((store rt s now p m).accepted_samples_by_node n) ≡ (
          if node_of m == n
          then get_or [] (s.accepted_samples_by_node n) ++ evidence_if m
          else get_or [] (s.accepted_samples_by_node n))
  unfolding store put
  node_samples-store (batch b) found n = ground (arith, eq_iff b.node_id n)
  node_samples-store (heartbeat b) found n =
      ground (arith, append-nil (get_or [] (s.accepted_samples_by_node n)))
