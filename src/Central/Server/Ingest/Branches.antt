-- ===== src/Central/Server/Ingest/Branches.antt =====
-- What `ingest` does on each of its branches.
use comm_guard.Prelude.{◌≡◌, ◌≢◌, refl, List, [], ◌∷◌, arith, Result, ok, err, Exception}
use comm_guard.Central.Flow.{Flow, go, answer, escape, ◌>>=◌}
use comm_guard.Central.Json.{Fields}
use comm_guard.Central.Runtime.{DateTime}
use comm_guard.Central.Messages.{Payload, Python}
use comm_guard.Central.Server.{Reason, Ack, Service}
use comm_guard.Central.Server.Replies.{
  Reply, Message, batch, heartbeat, message_id_of, agent_id_of, make_ack,
}
use comm_guard.Central.Server.Ingest.{
  authenticate, parse_message, check_order, sample_skews, check_skews, check_kind, check_time,
  admit, store, finish, accepted_reply, ingest,
}

-- No early return says `accepted`.
abbrev NotAccepted : {A : Type 0} → Flow Reply A → Type 0
NotAccepted m = (r : Reply) → m ≡ answer r → r.reason ≢ Reason.accepted

bind-NotAccepted :
    {A B : Type 0} (m : Flow Reply A) (f : A → Flow Reply B)
    → NotAccepted m
    → ((a : A) → NotAccepted (f a))
    → NotAccepted (m >>= f)
bind-NotAccepted (go a) f h k = k a
bind-NotAccepted (answer r) f h k = λ r' e. h r' (cc)
bind-NotAccepted (escape e) f h k = λ r' e'. cc

module _ (rt : Python) (s : Service) (p : Payload) where
  authenticate-NotAccepted : NotAccepted (authenticate rt s p)
  unfolding authenticate
  authenticate-NotAccepted r h e = ground arith

  parse_message-NotAccepted : NotAccepted (parse_message rt s p)
  unfolding parse_message
  parse_message-NotAccepted r h e = ground arith

  check_order-NotAccepted : (m : Message) → NotAccepted (check_order rt s p m)
  unfolding check_order
  check_order-NotAccepted m r h e = ground arith

  sample_skews-NotAccepted :
      (now : DateTime) (samples : List Fields) → NotAccepted (sample_skews rt s p now samples)
  unfolding sample_skews
  sample_skews-NotAccepted now [] r h e = cc
  sample_skews-NotAccepted now (x ∷ rest) r h e =
      ground (arith, sample_skews-NotAccepted now rest r)

  check_kind-NotAccepted : (now : DateTime) (m : Message) → NotAccepted (check_kind rt s p now m)
  check_kind-NotAccepted now (heartbeat b) r h = cc
  check_kind-NotAccepted now (batch b) r h =
      bind-NotAccepted (sample_skews rt s p now b.samples) (check_skews rt s p b)
        (sample_skews-NotAccepted now b.samples) (λ skews r' h' e. ground arith) r h

  check_time-NotAccepted : (now : DateTime) (m : Message) → NotAccepted (check_time rt s p now m)
  unfolding check_time
  check_time-NotAccepted now m r h e = ground (arith, check_kind-NotAccepted now m r)

  admit-NotAccepted : (now : DateTime) → NotAccepted (admit rt s p now)
  unfolding admit
  admit-NotAccepted now = bind-NotAccepted (authenticate rt s p) _ authenticate-NotAccepted λ _.
      bind-NotAccepted (parse_message rt s p) _ parse_message-NotAccepted λ m.
        bind-NotAccepted (check_order rt s p m) _ (check_order-NotAccepted m) λ _.
          bind-NotAccepted (check_time rt s p now m) _ (check_time-NotAccepted now m) λ _ r h. cc

-- The three outcomes of `ingest`.
pub data Outcome (rt : Python) (s : Service) (now ack_now : DateTime) (p : Payload)
    : Result Ack × Service → Type 0 where
  admitted :
      (m : Message)
      → admit rt s p now ≡ go m
      → Outcome rt s now ack_now p (
        ok (
            make_ack rt
              (store rt s now p m)
              ack_now
              (message_id_of p)
              (accepted_reply (agent_id_of p))),
        store rt s now p m,
      )
  answered :
      (r : Reply)
      → r.reason ≢ Reason.accepted
      → Outcome rt s now ack_now p (ok (make_ack rt s ack_now (message_id_of p) r), s)
  escaped : (e : Exception) → Outcome rt s now ack_now p (err e, s)

module _ (rt : Python) (s : Service) (now ack_now : DateTime) (p : Payload) where
  finish-Outcome :
      (m : Flow Reply Message)
      → admit rt s p now ≡ m
      → Outcome rt s now ack_now p (finish rt s now ack_now p m)
  finish-Outcome (go m) h = admitted m h
  finish-Outcome (answer r) h = answered r (admit-NotAccepted rt s p now r h)
  finish-Outcome (escape e) h = escaped e

  pub ingest-Outcome : Outcome rt s now ack_now p (ingest rt s now ack_now p)
  unfolding ingest
  ingest-Outcome = finish-Outcome (admit rt s p now) refl

  -- A call that is not answered by `accepted`, and one that lets an exception out, leaves the
  -- service as it was.
  pub ingest_unchanged :
      ((a : Ack) → (ingest rt s now ack_now p).0 ≡ ok a → a.reason_code ≢ Reason.accepted)
      → (ingest rt s now ack_now p).1 ≡ s
  ingest_unchanged refused = unchanged (ingest rt s now ack_now p) ingest-Outcome refused
    where
      unchanged :
          (out : Result Ack × Service)
          → Outcome rt s now ack_now p out
          → ((a : Ack) → out.0 ≡ ok a → a.reason_code ≢ Reason.accepted)
          → out.1 ≡ s
      unchanged out (admitted m h) no_ack = absurd (no_ack _ refl (unfold make_ack in refl))
      unchanged out (answered r h) no_ack = refl
      unchanged out (escaped e) no_ack = refl
