-- ===== src/Central/Server/Trace.antt =====
-- Sequences of `ingest` calls, and the log of the messages that they accept.
pub mod Batches
pub mod Once
pub mod Replay
use comm_guard.Prelude.{
  ℕ, String, ◌≡◌, refl, Bool, true, false, ◌&&◌, ◌||◌, Option, none, some, List, [], ◌∷◌, ◌++◌, map,
  arith, ◌==◌, eq_iff, eq_refl, ℤ, Dict, put, get_or, keep, if◌then◌else◌, Bool-cases, inl, inr,
  Result,
}
use mathlib.Core.List.{append_assoc, append-nil}
use comm_guard.Central.Flow.{Flow, go, answer, escape}
use comm_guard.Central.Runtime.{DateTime}
use comm_guard.Central.Messages.{Payload, Python, TelemetryBatch}
use comm_guard.Central.Server.{Evidence, Service, Ack}
use comm_guard.Central.Server.Replies.{
  Reply, Message, batch, heartbeat, id_of, sender_of, sequence_of, message_id_of, agent_id_of,
}
use comm_guard.Central.Server.Ingest.{admit, evidence_of, store, finish, ingest}
use comm_guard.Central.Server.Ingest.Admitted.{Follows, Chains, InOrder}
use comm_guard.Central.Server.Ingest.Parsed.{Identified}
use comm_guard.Central.Server.Ingest.Stored.{
  batch_id_if, evidence_if, last_sequence-store, seen-store, last_batch-store, samples-store,
  node_samples-store,
}
use comm_guard.Central.Server.Ingest.Accepted.{IsAdmissible, admit-IsAdmissible}

-- One call: the payload, and the two clock readings.
pub record Event : Type 0 where
  pub now : DateTime
  pub ack_now : DateTime
  pub payload : Payload

abbrev accepted_of : Flow Reply Message → List Message
accepted_of (go m) = m ∷ []
accepted_of (answer r) = []
accepted_of (escape e) = []

module _ (rt : Python) where
  abbrev pub after : Service → Event → Service
  after s e = (ingest rt s e.now e.ack_now e.payload).1

  abbrev pub accepted_by : Service → Event → List Message
  accepted_by s e = accepted_of (admit rt s e.payload e.now)

  unfoldable pub run : Service → List Event → Service
  run s [] = s
  run s (e ∷ es) = run (after s e) es

  -- The accepted messages, in order.
  unfoldable pub log : Service → List Event → List Message
  log s [] = []
  log s (e ∷ es) = accepted_by s e ++ log (after s e) es

  -- A call stores one message that passed the checks, or changes nothing.
  pub step_cases {ℓ} :
      (P : Service → List Message → Type ℓ) (s : Service) (e : Event)
      → ((m : Message)
          → IsAdmissible rt s e.now e.payload m
          → P (store rt s e.now e.payload m) (m ∷ []))
      → P s []
      → P (after s e) (accepted_by s e)
  unfolding ingest
  step_cases P s e stored same = cases (admit rt s e.payload e.now) refl
    where
      cases :
          (f : Flow Reply Message)
          → admit rt s e.payload e.now ≡ f
          → P (finish rt s e.now e.ack_now e.payload f).1 (accepted_of f)
      cases (go m) h = stored m (admit-IsAdmissible rt s e.now e.payload m h)
      cases (answer r) h = same
      cases (escape x) h = same

abbrev pub from_agent : String → Message → Bool
from_agent a m = sender_of m == a

-- `numbers` go up by one, from the number after `last`.
abbrev pub IsConsecutive : Option ℤ → List ℤ → Type 0
IsConsecutive last [] = Unit
IsConsecutive last (n ∷ rest) = Follows last n × IsConsecutive (some n) rest

module _ (rt : Python) (a : String) where
  abbrev pub numbers_of : List Message → List ℤ
  numbers_of ms = map sequence_of (keep (from_agent a) ms)

  -- One more accepted message in front.
  numbers-cons :
      (s t : Service) (m : Message) (ms : List Message)
      → Follows (s.last_sequence_by_agent (sender_of m)) (sequence_of m)
      → t.last_sequence_by_agent a
        ≡ (if sender_of m == a then some (sequence_of m) else s.last_sequence_by_agent a)
      → IsConsecutive (t.last_sequence_by_agent a) (numbers_of ms)
      → IsConsecutive (s.last_sequence_by_agent a) (numbers_of (m ∷ ms))
  unfolding keep
  numbers-cons s t m ms next e h = elim (Bool-cases (sender_of m == a)) [
    | inl same ↦
        let who : sender_of m ≡ a = (eq_iff (sender_of m) a).0 same in
        rw same (rw who at next, rw (e, same) at h)
    | inr other ↦ rw other (rw (e, other) at h)
  ]

  -- Whatever is sent, the sequence numbers that are accepted from one agent go up by one, from the
  -- number after the last one that the service had accepted before.
  pub log-IsConsecutive :
      (s : Service) (es : List Event)
      → IsConsecutive (s.last_sequence_by_agent a) (numbers_of (log rt s es))
  unfolding log keep
  log-IsConsecutive s [] = tt
  log-IsConsecutive s (e ∷ es) =
      step_cases rt
        (λ t ms.
          IsConsecutive (t.last_sequence_by_agent a) (numbers_of (log rt t es))
          → IsConsecutive (s.last_sequence_by_agent a) (numbers_of (ms ++ log rt t es)))
        s e
        (λ m good.
          numbers-cons s (store rt s e.now e.payload m) m (log rt (store rt s e.now e.payload m) es)
            (rw good.identified.same_agent at good.in_order.follows)
            (last_sequence-store rt s e.now e.payload m good.identified a))
        (λ h. h) (log-IsConsecutive (after rt s e) es)
